-- ===== src/Pagination/Pages.antt =====
-- A client that asks for every page up to `totalPages` gets every row once.
use nestjs_api_starter.Prelude.{
  ℕ, zero, suc, ◌+◌, ◌-◌, ◌*◌, ◌≤◌, ◌≡◌, refl, sym, ap, ◌∙◌, some, List, [], ◌∷◌, ◌++◌, length,
  arith,
}
use nestjs_api_starter.Number.{Number, nan, infinite, finite, whole}
use nestjs_api_starter.Pagination.{
  PaginationParams, PaginationMeta, get_pagination_params, build_pagination_meta,
}
use nestjs_api_starter.Pagination.Params.{get_pagination_params-valid}
use nestjs_api_starter.Pagination.Meta.{
  page_count, page_count-holds, page_count-least, build_pagination_meta-whole,
}

module _ {A : Type 0} where
  abbrev pub take : ℕ → List A → List A
  take zero xs = []
  take (suc n) [] = []
  take (suc n) (x ∷ xs) = x ∷ take n xs

  abbrev pub drop : ℕ → List A → List A
  drop zero xs = xs
  drop (suc n) [] = []
  drop (suc n) (x ∷ xs) = drop n xs

  take-add : (a b : ℕ) (xs : List A) → take (a + b) xs ≡ take a xs ++ take b (drop a xs)
  take-add zero b xs = ap (λ n. take n xs) (omega arith)
  take-add (suc a) zero [] = let e : suc a + 0 ≡ suc a = omega arith in rw e refl
  take-add (suc a) (suc b) [] = let e : suc a + suc b ≡ suc (a + suc b) = omega arith in rw e refl
  take-add (suc a) b (x ∷ xs) =
      let e : suc a + b ≡ suc (a + b) = omega arith in rw e (ap (λ ys. x ∷ ys) (take-add a b xs))

  take-all : (n : ℕ) (xs : List A) → length xs ≤ n → take n xs ≡ xs
  take-all zero [] h = refl
  take-all zero (x ∷ xs) h = absurd (omega arith)
  take-all (suc n) [] h = refl
  take-all (suc n) (x ∷ xs) h = ap (λ ys. x ∷ ys) (take-all n xs (omega arith))

-- the whole number that a number is
abbrev pub index : Number → ℕ
index nan = 0
index (infinite s) = 0
index (finite s n k) = n

-- The rows that a query with `skip` and `take` gives.
abbrev pub rows_of : {A : Type 0} → PaginationParams → List A → List A
rows_of params rows = take (index params.take) (drop (index params.skip) rows)

abbrev pub page_of : {A : Type 0} → ℕ → ℕ → List A → List A
page_of page limit rows =
    rows_of
      (get_pagination_params (record { page = some (whole page); limit = some (whole limit) })) rows

-- The pages from the first to the given one, one after the other.
abbrev pub first_pages : {A : Type 0} → ℕ → ℕ → List A → List A
first_pages zero limit rows = []
first_pages (suc page) limit rows = first_pages page limit rows ++ page_of (suc page) limit rows

module _ {A : Type 0} (limit : ℕ) (positive : 1 ≤ limit) (small : limit ≤ 100) (rows : List A) where
  first_pages-take :
      (page : ℕ) → page ≤ 1000000 → first_pages page limit rows ≡ take (page * limit) rows
  first_pages-take zero h = let e : 0 ≡ 0 * limit = omega arith in ap (λ n. take n rows) e
  first_pages-take (suc page) h =
      let e : suc page * limit ≡ page * limit + limit = omega arith in
      let before : suc page - 1 ≡ page = omega arith in
      rw
        (
          first_pages-take page (omega arith),
          get_pagination_params-valid (suc page) limit (omega arith) h positive small,
          before,
          e,
        )
        (sym (take-add (page * limit) limit rows))

  -- For a limit from 1 to 100 and at most 1,000,000 pages of rows: the pages from 1 to `totalPages`
  -- together are all rows, in order, each once.
  pub first_pages-rows :
      length rows ≤ 1000000 * limit
      → (pages : ℕ) × ((build_pagination_meta (whole 1) (whole limit) (length rows)).total_pages
          ≡ whole pages)
        × (first_pages pages limit rows ≡ rows)
  first_pages-rows h = (
    page_count limit (length rows),
    ap (λ (m : PaginationMeta). m.total_pages)
        (build_pagination_meta-whole 1 limit (length rows) positive),
    first_pages-take (page_count limit (length rows))
          (page_count-least limit (length rows) 1000000 positive h)
        ∙ take-all (page_count limit (length rows) * limit) rows
            (page_count-holds limit (length rows) positive),
  )
