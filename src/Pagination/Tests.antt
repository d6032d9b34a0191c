-- ===== src/Pagination/Tests.antt =====
-- The pagination helper at concrete queries.
use nestjs_api_starter.Prelude.{
  ℕ, ◌-◌, ◌*◌, ◌^◌, ◌≤◌, ◌<◌, ◌≡◌, ◌≢◌, refl, ap, Bool, true, false, Option, none, some, List, [],
  ◌∷◌, arith,
}
use nestjs_api_starter.Number.{Number, nan, infinite, finite, whole}
use nestjs_api_starter.Pagination.{
  PaginationInput, clamp, get_pagination_params, build_pagination_meta,
}
use nestjs_api_starter.Pagination.Params.{get_pagination_params-bounds}
use nestjs_api_starter.Pagination.Pages.{first_pages, first_pages-rows}

-- page 2.75 and an infinite limit
abbrev query : PaginationInput
query = record { page = some (finite false 11 2); limit = some (infinite false) }

get_pagination_params_run :
    get_pagination_params query
    ≡ record { skip = whole 100; take = whole 100; page = whole 2; limit = whole 100 }
unfolding get_pagination_params clamp
get_pagination_params_run = refl

-- NaN passes the clamp
get_pagination_params_nan :
    get_pagination_params (record { page = some nan; limit = none })
    ≡ record { skip = nan; take = whole 20; page = nan; limit = whole 20 }
unfolding get_pagination_params clamp
get_pagination_params_nan = refl

abbrev kind : Option Number → Bool
kind none = false
kind (some nan) = true
kind (some (infinite s)) = false
kind (some (finite s n k)) = false

page_number : query.page ≢ some nan
page_number e = ground (arith, ap kind e)

limit_number : query.limit ≢ some nan
limit_number e = ground (arith, ap kind e)

get_pagination_params-bounds_example :
    (page : ℕ) × (limit : ℕ) × (get_pagination_params query ≡ record {
      skip = whole ((page - 1) * limit);
      take = whole limit;
      page = whole page;
      limit = whole limit;
    })
    × (1 ≤ page)
    × (page ≤ 1000000)
    × (1 ≤ limit)
    × (limit ≤ 100)
    × ((page - 1) * limit < 2 ^ 53)
get_pagination_params-bounds_example = get_pagination_params-bounds query page_number limit_number

abbrev three : List ℕ
three = 7 ∷ 8 ∷ 9 ∷ []

first_pages-rows_example :
    (pages : ℕ) × ((build_pagination_meta (whole 1) (whole 2) 3).total_pages ≡ whole pages)
    × (first_pages pages 2 three ≡ three)
first_pages-rows_example = first_pages-rows 2 (omega arith) (omega arith) three (omega arith)
