-- ===== src/Query.antt =====
-- The queries of the list routes: src/common/dto/pagination.dto.ts and
-- src/roles/dto/list-query.dto.ts. A class is the list of its properties with their conversion and
-- their validators; what class-transformer and class-validator make of them is third-party, and
-- `QueryPipe` is their documented behaviour as an interface.
pub mod Accepted
pub mod Listing
pub mod Tests
use mathlib.Core.Option
use nestjs_api_starter.Prelude.{
  ℕ, ◌%◌, ◌^◌, ◌≡◌, Bool, true, false, Option, none, some, List, [], ◌∷◌, map, every, any, ◌==◌,
  if◌then◌else◌,
}
use nestjs_api_starter.Json.{Text, units}
use nestjs_api_starter.JwtGuard.{same_units}
use nestjs_api_starter.Number.{Number, nan, infinite, finite, whole, num_leb}
use nestjs_api_starter.Pagination.{
  PaginationInput, default_page, default_limit, max_page, max_limit,
}

-- A parameter of a parsed query string: one text, or something else (a repeated key).
pub data Param : Type 0 where
  text : Text → Param
  repeated : List Text → Param

-- The keys of a parsed query are different.
abbrev pub Query : Type 0
Query = List (Text × Param)

-- `@IsInt`, `@Min` and `@Max`
pub data NumberRule : Type 0 where
  is_int : NumberRule
  min max : ℕ → NumberRule

-- A property with `@IsOptional`, `@Type(() => Number)` and an initial value.
pub record NumberProperty : Type 0 where
  pub name : Text
  pub initial : Number
  pub rules : List NumberRule

unfoldable pub page_property : NumberProperty
page_property = record {
  name = units "page";
  initial = whole default_page;
  rules = is_int ∷ min 1 ∷ max max_page ∷ [];
}

unfoldable pub limit_property : NumberProperty
limit_property = record {
  name = units "limit";
  initial = whole default_limit;
  rules = is_int ∷ min 1 ∷ max max_limit ∷ [];
}

abbrev pub pagination_query_dto : List NumberProperty
pagination_query_dto = page_property ∷ limit_property ∷ []

-- A property with `@IsOptional`, `@Transform` and `@IsBoolean`, which every Boolean passes.
pub record BooleanProperty : Type 0 where
  pub name : Text
  pub transform : Param → Bool

-- `value === true || value === 'true'`
unfoldable pub is_true : Param → Bool
is_true (text t) = same_units t (units "true")
is_true (repeated ts) = false

abbrev pub list_query_dto : List BooleanProperty
list_query_dto = record { name = units "includeInactive"; transform = is_true } ∷ []

abbrev pub param : Text → Query → Option Param
param name [] = none
param name ((key, value) ∷ rest) =
    let more = param name rest in if same_units key name then some value else more

abbrev pub has_only : List Text → Query → Bool
has_only names = every λ (key, value). any (same_units key) names

abbrev pub holds : NumberRule → Number → Bool
holds is_int nan = false
holds is_int (infinite s) = false
holds is_int (finite s n k) = n % 2 ^ k == 0
holds (min low) x = num_leb (whole low) x
holds (max high) x = num_leb x (whole high)

abbrev pub all_some : {A : Type 0} → List (Option A) → Option (List A)
all_some [] = some []
all_some (none ∷ os) = none
all_some (some a ∷ os) = let rest = all_some os in Option.map (λ more. a ∷ more) rest

module _ (to_number : Text → Number) where
  -- A missing parameter leaves the initial value; an array is no number.
  abbrev pub converted : NumberProperty → Option Param → Option Number
  converted p none = some p.initial
  converted p (some (text t)) = some (to_number t)
  converted p (some (repeated ts)) = none

  abbrev pub read_number : NumberProperty → Query → Option Number
  read_number p query = converted p (param p.name query)

  abbrev pub validated : NumberProperty → Option Number → Option Number
  validated p none = none
  validated p (some x) = if every (λ rule. holds rule x) p.rules then some x else none

-- The pipe of src/main.ts on a query. `to_number` is JavaScript's conversion of a text. The values
-- of the properties come in the order of the class.
pub record QueryPipe : Type 0 where
  pub to_number : Text → Number
  pub numbers : List NumberProperty → Query → Option (List Number)
  pub booleans : List BooleanProperty → Query → Option (List (Option Bool))
  pub numbers_law :
      (dto : List NumberProperty) (query : Query)
      → numbers dto query ≡ (
          if has_only (map (λ (p : NumberProperty). p.name) dto) query
          then all_some (
              map
                (λ (p : NumberProperty). validated to_number p (read_number to_number p query))
                dto)
          else none)
  pub booleans_law :
      (dto : List BooleanProperty) (query : Query)
      → booleans dto query ≡ (
          if has_only (map (λ (p : BooleanProperty). p.name) dto) query
          then some (map (λ (p : BooleanProperty). Option.map p.transform (param p.name query)) dto)
          else none)

abbrev pub as_page : Option (List Number) → Option PaginationInput
as_page (some (page ∷ limit ∷ [])) = some (record { page = some page; limit = some limit })
as_page _ = none

abbrev pub as_flag : Option (List (Option Bool)) → Option (Option Bool)
as_flag (some (flag ∷ [])) = some flag
as_flag _ = none

module _ (pipe : QueryPipe) where
  -- `@Query() query: PaginationQueryDto` and `@Query() query: ListQueryDto`, if accepted
  unfoldable pub pagination_query : Query → Option PaginationInput
  pagination_query query = as_page (pipe.numbers pagination_query_dto query)

  unfoldable pub list_query : Query → Option (Option Bool)
  list_query query = as_flag (pipe.booleans list_query_dto query)
