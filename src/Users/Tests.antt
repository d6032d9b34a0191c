-- ===== src/Users/Tests.antt =====
-- The users service on a small directory.
use nestjs_api_starter.Prelude.{
  ◌≡◌, ◌≢◌, refl, ap, Bool, true, false, Option, none, some, [], ◌∷◌, arith,
}
use nestjs_api_starter.Effects.{ok}
use nestjs_api_starter.Number.{Number, nan, whole}
use nestjs_api_starter.Pagination.{PaginationInput, PaginatedResponse, get_pagination_params}
use nestjs_api_starter.Directory.{User}
use nestjs_api_starter.Directory.Memory.{directory}
use nestjs_api_starter.Directory.Tables.{Tables}
use nestjs_api_starter.Directory.Sample.{sample, user}
use nestjs_api_starter.Roles.{find_user_role_names, find_user_permission_names}
use nestjs_api_starter.Users.{
  SafeUser, UpdateUserDto, to_safe_user, find_by_id, get_current_user, deactivate_user,
  to_user_profile, paginated,
}

profile_run : get_current_user directory "u1" sample ≡ (
  ok (record {
    user = to_safe_user (user "u1" "ann@x" "#pw" true);
    roles = "admin" ∷ [];
    permissions = "users:read" ∷ [];
  }),
  sample,
)
unfolding get_current_user find_by_id to_user_profile find_user_role_names
    find_user_permission_names
profile_run = refl

abbrev all_fields : UpdateUserDto
all_fields = record { name = some "x"; is_active = some true; role_ids = some [] }

abbrev first_page : PaginationInput
first_page = record { page = none; limit = some (whole 1) }

abbrev answer : PaginatedResponse SafeUser
answer =
    paginated directory (get_pagination_params first_page) (user "u1" "ann@x" "#pw" true ∷ [], 2)

page_number : first_page.page ≢ some nan
page_number e = cc

abbrev is_whole : Option Number → Bool
is_whole (some (Number.finite s n k)) = true
is_whole _ = false

limit_number : first_page.limit ≢ some nan
limit_number e = ground (arith, ap is_whole e)

abbrev after_deactivation : Tables
after_deactivation = (deactivate_user directory "u1" 5 sample).1

abbrev off_ann : User
off_ann = record (user "u1" "ann@x" "#pw" true) { is_active = false; updated_at = 5 }
