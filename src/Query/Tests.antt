-- ===== src/Query/Tests.antt =====
-- The queries at concrete inputs, with a conversion of one-digit texts.
use mathlib.Core.Option
use nestjs_api_starter.Prelude.{
  ◌-◌, ◌≡◌, refl, true, false, none, some, [], ◌∷◌, map, String, ◌⊎◌, ◌↔◌, IsIn, if◌then◌else◌,
}
use nestjs_api_starter.Json.{Text, units}
use nestjs_api_starter.Number.{Number, nan, whole}
use nestjs_api_starter.Directory.{Role}
use nestjs_api_starter.Directory.Tables.{Tables}
use nestjs_api_starter.Directory.Memory.{directory}
use nestjs_api_starter.Directory.Sample.{sample, role}
use nestjs_api_starter.Roles.{find_all_roles}
use nestjs_api_starter.Query.{
  Query, QueryPipe, NumberProperty, BooleanProperty, text, repeated, param, read_number, validated,
  all_some, has_only, pagination_query, list_query, page_property, limit_property, is_true,
}
use nestjs_api_starter.Query.Accepted.{IsUnclamped, pagination_query-IsUnclamped}
use nestjs_api_starter.Query.Listing.{Asks, list_query-find_all_roles}

abbrev digit : Text → Number
digit (c ∷ []) = whole (c - 48)
digit _ = nan

abbrev pipe : QueryPipe
pipe = record {
  to_number = digit;
  numbers = λ dto query.
      if has_only (map (λ (p : NumberProperty). p.name) dto) query
      then all_some
          (map (λ (p : NumberProperty). validated digit p (read_number digit p query)) dto)
      else none;
  booleans = λ dto query.
      if has_only (map (λ (p : BooleanProperty). p.name) dto) query
      then some (map (λ (p : BooleanProperty). Option.map p.transform (param p.name query)) dto)
      else none;
  numbers_law = λ dto query. refl;
  booleans_law = λ dto query. refl;
}

abbrev asking : String → String → Query
asking key value = (units key, text (units value)) ∷ []

-- An absent limit is 20. Zero, a text that is no number, a repeated and an unknown key are refused.
pages_run :
    (pagination_query pipe (asking "page" "3")
      ≡ some (record { page = some (whole 3); limit = some (whole 20) }))
    × (pagination_query pipe (asking "page" "0") ≡ none)
    × (pagination_query pipe (asking "page" "x1") ≡ none)
    × (pagination_query pipe ((units "page", repeated []) ∷ []) ≡ none)
    × (pagination_query pipe (asking "skip" "3") ≡ none)
unfolding pagination_query page_property limit_property units
pages_run = (refl, refl, refl, refl, refl)

pagination_query-IsUnclamped_example :
    IsUnclamped (record { page = some (whole 3); limit = some (whole 20) })
unfolding pagination_query page_property limit_property units
pagination_query-IsUnclamped_example = pagination_query-IsUnclamped pipe (asking "page" "3") _ refl

flags_run :
    (list_query pipe [] ≡ some none)
    × (list_query pipe (asking "includeInactive" "true") ≡ some (some true))
    × (list_query pipe (asking "includeInactive" "1") ≡ some (some false))
    × (list_query pipe (asking "inactive" "true") ≡ none)
unfolding list_query is_true units
flags_run = (refl, refl, refl, refl)

abbrev retired : Role
retired = record (role "r2" "user") { is_active = false }

abbrev roles : Tables
roles = record sample { roles = role "r1" "admin" ∷ retired ∷ [] }

list_query-find_all_roles_example : IsIn retired (role "r1" "admin" ∷ []) ↔ (
    IsIn retired roles.roles × ((retired.is_active ≡ true) ⊎ Asks (asking "includeInactive" "1")))
unfolding list_query is_true units find_all_roles
list_query-find_all_roles_example =
    list_query-find_all_roles pipe directory (asking "includeInactive" "1") (some false) roles
      (role "r1" "admin" ∷ []) refl refl retired
