-- ===== src/Query/Accepted.antt =====
-- An accepted query.
use native.Mathlib.Nat.{one-le-pow, div-add-mod', le-div_iff_mul-le, div-le_of_le-mul, div-one}
use nestjs_api_starter.Prelude.{
  ℕ, ◌-◌, ◌*◌, ◌/◌, ◌%◌, ◌^◌, ◌≤◌, ◌<◌, ◌≡◌, refl, sym, ap, ◌∙◌, true, false, Option, none, some,
  [], ◌∷◌, every, map, inl, inr, Bool-cases, arith, or_default,
}
use nestjs_api_starter.Json.{Text}
use nestjs_api_starter.Number.{Number, nan, infinite, finite, whole, floor}
use nestjs_api_starter.Pagination.{PaginationInput, clamp, get_pagination_params}
use nestjs_api_starter.Pagination.Params.{clamp-valid, skip-whole}
use nestjs_api_starter.Query.{
  Query, QueryPipe, NumberProperty, is_int, min, max, holds, validated, all_some, has_only, as_page,
  pagination_query, pagination_query_dto, page_property, limit_property, read_number,
}

-- The number is the whole number n.
abbrev pub Is : Number → ℕ → Type 0
Is nan n = ⊥
Is (infinite s) n = ⊥
Is (finite true m k) n = ⊥
Is (finite false m k) n = m ≡ n * 2 ^ k

abbrev InBounds : Number → ℕ → ℕ → Type 0
InBounds x low high =
    (n : ℕ) × Is x n × (low ≤ n) × (n ≤ high) × (clamp (floor x) (whole low) (whole high) ≡ whole n)

rules-InBounds :
    (x : Number) (low high : ℕ)
    → 1 ≤ low
    → every (λ rule. holds rule x) (is_int ∷ min low ∷ max high ∷ []) ≡ true
    → InBounds x low high
rules-InBounds nan low high pos e = absurd (ground arith)
rules-InBounds (infinite s) low high pos e = absurd (ground arith)
rules-InBounds (finite true m k) low high pos e = absurd (ground arith)
rules-InBounds (finite false m k) low high pos e =
    let positive : 0 < 2 ^ k = one-le-pow k 2 (omega arith) in
    let int : m % 2 ^ k ≡ 0 = ground arith in
    let above : low * 2 ^ k ≤ m = ground arith in
    let below : m ≤ high * 2 ^ k = ground arith in
    let n = m / 2 ^ k in
    let low_n : low ≤ n = (le-div_iff_mul-le positive).1 above in
    let n_high : n ≤ high = div-le_of_le-mul (2 ^ k) (omega (arith, below)) in
    let whole_n : m ≡ n * 2 ^ k = omega (arith, int, div-add-mod' m (2 ^ k)) in
    (
      n,
      whole_n,
      low_n,
      n_high,
      ap (λ j. clamp (whole j) (whole low) (whole high)) (sym (div-one n))
          ∙ clamp-valid n low high low_n n_high,
    )

module _ (to_number : Text → Number) where
  validated-holds :
      (p : NumberProperty) (o : Option Number) (x : Number)
      → validated to_number p o ≡ some x
      → every (λ rule. holds rule x) p.rules ≡ true
  validated-holds p none x e = cc
  validated-holds p (some y) x e = elim (Bool-cases (every (λ rule. holds rule y) p.rules)) [
    | inl h ↦ let same : y ≡ x = ground (arith, e, h) in rw (← same) h
    | inr h ↦ absurd (ground arith)
  ]

pair-some :
    (a b : Option Number) (input : PaginationInput)
    → as_page (all_some (a ∷ b ∷ [])) ≡ some input
    → (page : Number) × (limit : Number) × (a ≡ some page)
      × (b ≡ some limit)
      × (input ≡ record { page = some page; limit = some limit })
pair-some none b input e = absurd (ground arith)
pair-some (some x) none input e = absurd (ground arith)
pair-some (some x) (some y) input e =
    (x, y, refl, refl, ap (λ o. or_default o (record { page = some x; limit = some y })) (sym e))

-- The page and the limit are whole numbers within the bounds, and clamping changes neither.
abbrev pub IsUnclamped : PaginationInput → Type 0
IsUnclamped input =
    (x : Number) × (y : Number) × (page : ℕ) × (limit : ℕ) × (input
      ≡ record { page = some x; limit = some y })
    × Is x page
    × Is y limit
    × (1 ≤ page)
    × (page ≤ 1000000)
    × (1 ≤ limit)
    × (limit ≤ 100)
    × (get_pagination_params input ≡ record {
      skip = whole ((page - 1) * limit);
      take = whole limit;
      page = whole page;
      limit = whole limit;
    })

InBounds-IsUnclamped :
    (x y : Number) (input : PaginationInput)
    → InBounds x 1 1000000
    → InBounds y 1 100
    → input ≡ record { page = some x; limit = some y }
    → IsUnclamped input
unfolding get_pagination_params
InBounds-IsUnclamped x y input (page, x_page, p1, p2, p3) (limit, y_limit, l1, l2, l3) e = (
  x,
  y,
  page,
  limit,
  e,
  x_page,
  y_limit,
  p1,
  p2,
  l1,
  l2,
  rw (e, p3, l3, skip-whole page limit p1) refl,
)

module _ (pipe : QueryPipe) where
  -- An accepted query for a page is taken as it is: its page is a whole number from 1 to 1,000,000,
  -- its limit one from 1 to 100, and the clamping of `getPaginationParams` changes neither.
  pub pagination_query-IsUnclamped :
      (query : Query) (input : PaginationInput)
      → pagination_query pipe query ≡ some input
      → IsUnclamped input
  unfolding pagination_query page_property limit_property
  pagination_query-IsUnclamped query input e =
      elim (Bool-cases
        (has_only (map (λ (p : NumberProperty). p.name) pagination_query_dto) query)) [
          | inl known ↦
              let read = rw (pipe.numbers_law pagination_query_dto query, known) at e in
              let (x, y, is_x, is_y, is_input) = pair-some _ _ input read in
              let x_in =
                validated-holds pipe.to_number page_property
                  (read_number pipe.to_number page_property query) x is_x in
              let y_in =
                validated-holds pipe.to_number limit_property
                  (read_number pipe.to_number limit_property query) y is_y in
              InBounds-IsUnclamped x y input (rules-InBounds x 1 1000000 (omega arith) x_in)
                (rules-InBounds y 1 100 (omega arith) y_in) is_input
          | inr unknown ↦
              let read = rw (pipe.numbers_law pagination_query_dto query, unknown) at e in
              absurd (ground arith)
        ]
