-- ===== src/Pagination/Meta.antt =====
-- The metadata of a page: the number of pages is the least that holds all rows, and the two flags
-- say whether there are rows before and behind the page.
use native.Mathlib.Nat.{lt-div-mul-add, div-lt_iff_lt-mul, mul-le-mul_right}
use nestjs_api_starter.Prelude.{
  ℕ, ◌+◌, ◌-◌, ◌*◌, ◌/◌, ◌≤◌, ◌<◌, ◌≡◌, refl, Bool, true, false, ◌&&◌, ltb, ◌==◌, ap, arith,
}
use nestjs_api_starter.Number.{whole, num_ltb, ceil_quotient}
use nestjs_api_starter.Pagination.{build_pagination_meta}

abbrev pub page_count : ℕ → ℕ → ℕ
page_count limit total = (total * 1 + (limit - 1)) / limit

pub page_count-holds : (limit total : ℕ) → 1 ≤ limit → total ≤ page_count limit total * limit
page_count-holds limit total pos =
    let below : total * 1 + (limit - 1) < page_count limit total * limit + limit =
      lt-div-mul-add pos in
    omega (arith, below)

pub page_count-least :
    (limit total n : ℕ) → 1 ≤ limit → total ≤ n * limit → page_count limit total ≤ n
page_count-least limit total n pos holds =
    let step : (1 + n) * limit ≡ limit + n * limit = omega arith in
    let below : page_count limit total < 1 + n =
      (div-lt_iff_lt-mul {k = limit} {x = total * 1 + (limit - 1)} {y = 1 + n} pos).1
        (omega (arith, step)) in
    omega (arith, below)

num_ltb-whole : (a b : ℕ) → num_ltb (whole a) (whole b) ≡ ltb a b
num_ltb-whole a b = ground arith

num_ltb-positive : (n : ℕ) → 1 ≤ n → num_ltb (whole 0) (whole n) ≡ true
num_ltb-positive n pos = ground arith

not-zero : (n : ℕ) → 1 ≤ n → (n == 0) ≡ false
not-zero n pos = ground arith

ceil_quotient-whole :
    (limit total : ℕ)
    → 1 ≤ limit
    → ceil_quotient total (whole limit) ≡ whole (page_count limit total)
ceil_quotient-whole limit total pos = rw (ceil_quotient, not-zero limit pos) refl

pub build_pagination_meta-whole :
    (page limit total : ℕ)
    → 1 ≤ limit
    → build_pagination_meta (whole page) (whole limit) total ≡ record {
      page = whole page;
      limit = whole limit;
      total = total;
      total_pages = whole (page_count limit total);
      has_next_page = ltb page (page_count limit total);
      has_previous_page = ltb 1 page && ltb 0 (page_count limit total);
    }
unfolding build_pagination_meta
build_pagination_meta-whole page limit total pos =
    rw
      (
        build_pagination_meta,
        num_ltb-positive limit pos,
        ceil_quotient-whole limit total pos,
        num_ltb-whole page (page_count limit total),
        num_ltb-whole 1 page,
        num_ltb-whole 0 (page_count limit total),
      )
      refl

threshold :
    (c page limit total : ℕ)
    → total ≤ c * limit
    → (total ≤ page * limit → c ≤ page)
    → (c ≤ page → c * limit ≤ page * limit)
    → ltb page c ≡ ltb (page * limit) total
threshold c page limit total holds least mono = ground arith

next_iff :
    (page limit total : ℕ)
    → 1 ≤ limit
    → ltb page (page_count limit total) ≡ ltb (page * limit) total
next_iff page limit total pos =
    threshold (page_count limit total) page limit total (page_count-holds limit total pos)
      (page_count-least limit total page pos) (mul-le-mul_right limit)

previous_iff : (limit total : ℕ) → 1 ≤ limit → ltb 0 (page_count limit total) ≡ ltb 0 total
previous_iff limit total pos =
    ground (arith, page_count-least limit total 0 pos, page_count-holds limit total pos)

-- For a page and a limit from 1 on: `totalPages` pages hold all rows and no fewer pages do; there
-- is a next page exactly if rows remain behind this page; there is a previous one exactly if this
-- is not the first page and there are rows.
pub build_pagination_meta-pages :
    (page limit total : ℕ)
    → 1 ≤ page
    → 1 ≤ limit
    → (pages : ℕ) × ((build_pagination_meta (whole page) (whole limit) total).total_pages
        ≡ whole pages)
      × (total ≤ pages * limit)
      × ((n : ℕ) → total ≤ n * limit → pages ≤ n)
      × ((build_pagination_meta (whole page) (whole limit) total).has_next_page
          ≡ ltb (page * limit) total)
      × ((build_pagination_meta (whole page) (whole limit) total).has_previous_page
          ≡ (ltb 1 page && ltb 0 total))
build_pagination_meta-pages page limit total p l =
    rw (build_pagination_meta-whole page limit total l) (
      page_count limit total,
      refl,
      page_count-holds limit total l,
      (λ n holds. page_count-least limit total n l holds),
      next_iff page limit total l,
      ap (λ (b : Bool). ltb 1 page && b) (previous_iff limit total l),
    )
