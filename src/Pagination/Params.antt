-- ===== src/Pagination/Params.antt =====
-- The parameters of a page are whole numbers within their bounds, whatever numbers come in.
use nestjs_api_starter.Prelude.{
  ℕ, ◌-◌, ◌*◌, ◌/◌, ◌^◌, ◌≤◌, ◌<◌, ◌≡◌, ◌≢◌, refl, ap, ◌∙◌, true, false, Option, none, some,
  or_default, leb-cases, inl, inr, arith,
}
use native.Mathlib.Nat.{mul-le-mul, div-one}
use nestjs_api_starter.Number.{
  Number, nan, infinite, finite, whole, floor, num_min, minus_one, times,
}
use nestjs_api_starter.Pagination.{PaginationInput, clamp, get_pagination_params}

-- what is true of a whole number that a clamp gives
abbrev Clamped : Number → ℕ → ℕ → Type 0
Clamped x low high = (n : ℕ) × (x ≡ whole n) × (low ≤ n) × (n ≤ high)

at_most :
    (n low high : ℕ) → low ≤ n → low ≤ high → Clamped (num_min (whole n) (whole high)) low high
at_most n low high above le = elim (leb-cases (n * 1) (high * 1)) [
  | inl (e, small) ↦ (n, rw e refl, above, omega arith)
  | inr (e, large) ↦ (high, rw e refl, le, omega arith)
]

clamp-floor :
    (x : Number) (low high : ℕ)
    → x ≢ nan
    → low ≤ high
    → Clamped (clamp (floor x) (whole low) (whole high)) low high
unfolding clamp
clamp-floor nan low high number le = absurd (number refl)
clamp-floor (infinite true) low high number le = at_most low low high (omega arith) le
clamp-floor (infinite false) low high number le = (high, refl, le, omega arith)
clamp-floor (finite true n k) low high number le = at_most low low high (omega arith) le
clamp-floor (finite false n k) low high number le = elim (leb-cases ((n / 2 ^ k) * 1) (low * 1)) [
  | inl (e, small) ↦ rw e (at_most low low high (omega arith) le)
  | inr (e, large) ↦ rw e (at_most (n / 2 ^ k) low high (omega arith) le)
]

default-number : (o : Option Number) (n : ℕ) → o ≢ some nan → or_default o (whole n) ≢ nan
default-number none n number e = cc
default-number (some x) n number e = number (ap (λ (y : Number). some y) e)

pub skip-whole :
    (page limit : ℕ)
    → 1 ≤ page
    → times (minus_one (whole page)) (whole limit) ≡ whole ((page - 1) * limit)
skip-whole page limit pos = elim (leb-cases 1 page) [
  | inl (e, small) ↦ rw e refl
  | inr (e, large) ↦ absurd (omega arith)
]

skip-lt : (page limit : ℕ) → page ≤ 1000000 → limit ≤ 100 → (page - 1) * limit < 2 ^ 53
skip-lt page limit p l =
    let p_below : page - 1 ≤ 1000000 = omega (arith, p) in
    let below : (page - 1) * limit ≤ 1000000 * 100 = mul-le-mul p_below l in omega (arith, below)

-- Whatever numbers the query has, fractions, negative and infinite ones included, if neither is
-- NaN then the page is a whole number from 1 to 1,000,000, the limit one from 1 to 100, `take` the
-- limit and `skip` the rows of the pages before, which a double holds exactly.
pub get_pagination_params-bounds :
    (input : PaginationInput)
    → input.page ≢ some nan
    → input.limit ≢ some nan
    → (page : ℕ) × (limit : ℕ) × (get_pagination_params input ≡ record {
      skip = whole ((page - 1) * limit);
      take = whole limit;
      page = whole page;
      limit = whole limit;
    })
      × (1 ≤ page)
      × (page ≤ 1000000)
      × (1 ≤ limit)
      × (limit ≤ 100)
      × ((page - 1) * limit < 2 ^ 53)
unfolding get_pagination_params
get_pagination_params-bounds input page_number limit_number =
    let (page, is_page, page_low, page_high) =
      clamp-floor (or_default input.page (whole 1)) 1 1000000
        (default-number input.page 1 page_number) (omega arith) in
    let (limit, is_limit, limit_low, limit_high) =
      clamp-floor (or_default input.limit (whole 20)) 1 100
        (default-number input.limit 20 limit_number) (omega arith) in
    (
      page,
      limit,
      rw (is_page, is_limit, skip-whole page limit page_low) refl,
      page_low,
      page_high,
      limit_low,
      limit_high,
      skip-lt page limit page_high limit_high,
    )

min-valid : (n high : ℕ) → n ≤ high → num_min (whole n) (whole high) ≡ whole n
min-valid n high below = elim (leb-cases (n * 1) (high * 1)) [
  | inl (e, small) ↦ rw e refl
  | inr (e, large) ↦ absurd (omega arith)
]

pub clamp-valid :
    (n low high : ℕ)
    → low ≤ n
    → n ≤ high
    → clamp (floor (whole n)) (whole low) (whole high) ≡ whole n
unfolding clamp
clamp-valid n low high above below = rw (div-one n) (elim (leb-cases (n * 1) (low * 1)) [
  | inl (e, small) ↦
      let same : low ≡ n = omega arith in
      rw e (ap (λ x. num_min (whole x) (whole high)) same ∙ min-valid n high below)
  | inr (e, large) ↦ rw e (min-valid n high below)
])

-- A page and a limit within the bounds are taken as they are.
pub get_pagination_params-valid :
    (page limit : ℕ)
    → 1 ≤ page
    → page ≤ 1000000
    → 1 ≤ limit
    → limit ≤ 100
    → get_pagination_params (record { page = some (whole page); limit = some (whole limit) })
      ≡ record {
        skip = whole ((page - 1) * limit);
        take = whole limit;
        page = whole page;
        limit = whole limit;
      }
unfolding get_pagination_params
get_pagination_params-valid page limit p p' l l' =
    rw (clamp-valid page 1 1000000 p p', clamp-valid limit 1 100 l l', skip-whole page limit p) refl
