-- ===== src/Config/Throttle.antt =====
-- Which routes the rate limiter skips.
use nestjs_api_starter.Prelude.{String, ◌≡◌, refl, Bool, true, false, some, List, [], ◌∷◌, ◌++◌}
use nestjs_api_starter.Json.{Text, units}
use nestjs_api_starter.Api.{
  users, auth, roles, permissions, health, Handler, find_many, get_user, update_user,
  deactivate_user, get_current_user, update_current_user, register, login, refresh, logout, me,
  live, ready, RolesController, PermissionsController, pattern_of, Segment, fixed, param,
}
use nestjs_api_starter.Config.{skip_if}

-- The path of a request as the decorators write it, with this path parameter.
abbrev pub fill : List Segment → String → List String
fill [] id = []
fill (fixed s ∷ ps) id = s ∷ fill ps id
fill (param ∷ ps) id = id ∷ fill ps id

abbrev pub url : List String → Text
url [] = []
url (s ∷ ss) = 47 ∷ (units s ++ url ss)

abbrev pub is_health : Handler → Bool
is_health (health h) = true
is_health _ = false

-- Of the paths as the decorators write them, the rate limiter skips those of the probes and no
-- others, whatever the path parameter and the query string are.
pub skip_if-is_health :
    (h : Handler) (id : String) (query : Text)
    → skip_if (some (url (fill (pattern_of h).1 id) ++ query)) ≡ is_health h
unfolding skip_if units
skip_if-is_health (auth register) id query = refl
skip_if-is_health (auth login) id query = refl
skip_if-is_health (auth refresh) id query = refl
skip_if-is_health (auth logout) id query = refl
skip_if-is_health (auth me) id query = refl
skip_if-is_health (users get_current_user) id query = refl
skip_if-is_health (users update_current_user) id query = refl
skip_if-is_health (users find_many) id query = refl
skip_if-is_health (users get_user) id query = refl
skip_if-is_health (users update_user) id query = refl
skip_if-is_health (users deactivate_user) id query = refl
skip_if-is_health (roles RolesController.find_all) id query = refl
skip_if-is_health (roles RolesController.create) id query = refl
skip_if-is_health (roles RolesController.update) id query = refl
skip_if-is_health (permissions PermissionsController.find_all) id query = refl
skip_if-is_health (permissions PermissionsController.create) id query = refl
skip_if-is_health (permissions PermissionsController.update) id query = refl
skip_if-is_health (health live) id query = refl
skip_if-is_health (health ready) id query = refl
