-- ===== src/Pagination.antt =====
-- src/common/pagination/pagination.helper.ts. A count of rows is a natural number, every other
-- number any number of JavaScript.
pub mod Params
pub mod Meta
pub mod Pages
pub mod Tests
use nestjs_api_starter.Prelude.{ℕ, Bool, ◌&&◌, Option, List, or_default, if◌then◌else◌}
use nestjs_api_starter.Number.{
  Number, whole, floor, num_max, num_min, num_ltb, minus_one, times, ceil_quotient,
}

abbrev pub default_page : ℕ
default_page = 1

abbrev pub default_limit : ℕ
default_limit = 20

abbrev pub min_limit : ℕ
min_limit = 1

abbrev pub max_limit : ℕ
max_limit = 100

abbrev pub max_page : ℕ
max_page = 1000000

pub record PaginationInput : Type 0 where
  pub page : Option Number
  pub limit : Option Number

pub record PaginationParams : Type 0 where
  pub skip : Number
  pub take : Number
  pub page : Number
  pub limit : Number

pub record PaginationMeta : Type 0 where
  pub page : Number
  pub limit : Number
  pub total : ℕ
  pub total_pages : Number
  pub has_next_page : Bool
  pub has_previous_page : Bool

pub record PaginatedResponse (A : Type 0) : Type 0 where
  pub data_items : List A
  pub meta : PaginationMeta

unfoldable pub clamp : Number → Number → Number → Number
clamp value low high = num_min (num_max value low) high

unfoldable pub get_pagination_params : PaginationInput → PaginationParams
get_pagination_params input =
    let page =
      clamp (floor (or_default input.page (whole default_page))) (whole default_page)
        (whole max_page) in
    let limit =
      clamp (floor (or_default input.limit (whole default_limit))) (whole min_limit)
        (whole max_limit) in
    record { skip = times (minus_one page) limit; take = limit; page = page; limit = limit }

unfoldable pub build_pagination_meta : Number → Number → ℕ → PaginationMeta
build_pagination_meta page limit total =
    let total_pages = if num_ltb (whole 0) limit then ceil_quotient total limit else whole 0 in
    record {
      page = page;
      limit = limit;
      total = total;
      total_pages = total_pages;
      has_next_page = num_ltb page total_pages;
      has_previous_page = num_ltb (whole 1) page && num_ltb (whole 0) total_pages;
    }

abbrev pub to_paginated_response : {A : Type 0} → List A → PaginationMeta → PaginatedResponse A
to_paginated_response items meta = record { data_items = items; meta = meta }
