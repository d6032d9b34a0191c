-- ===== src/Api/Tests.antt =====
-- Requests to the API on a small directory: ann is an administrator who may write users, cy is a
-- user, and each has an access token.
use nestjs_api_starter.Prelude.{
  ℕ, ◌+◌, String, ◌≡◌, ◌≢◌, refl, inl, ◌⊎◌, Bool, true, false, Option, none, some, List, [], ◌∷◌,
  if◌then◌else◌,
}
use nestjs_api_starter.Effects.{
  Result, ok, err, Exception, other, http, forbidden, service_unavailable,
}
use nestjs_api_starter.Json.{Text}
use nestjs_api_starter.TokenStorage.{RefreshToken}
use nestjs_api_starter.TokenStorage.Tests.{digest, table}
use nestjs_api_starter.Directory.{Permission, User}
use nestjs_api_starter.Directory.Memory.{directory}
use nestjs_api_starter.Directory.Tables.{Tables}
use nestjs_api_starter.Directory.Sample.{user, role}
use nestjs_api_starter.Roles.{find_user_role_names, find_user_permission_names}
use nestjs_api_starter.Roles.Grants.{HasRole, IsGranted}
use nestjs_api_starter.Guards.{roles_can_activate, permissions_can_activate}
use nestjs_api_starter.Auth
use nestjs_api_starter.Auth.{Stores}
use nestjs_api_starter.Users
use nestjs_api_starter.Users.{SafeUser, to_safe_user, find_by_id, ensure_user_exists}
use nestjs_api_starter.JwtGuard
use nestjs_api_starter.JwtGuard.{
  AuthenticatedRequestUser, can_activate, extract_bearer_token, before_space, after_space,
  same_units,
}
use nestjs_api_starter.Api.{users, health, deactivate_user, get_current_user, ready}
use nestjs_api_starter.Api.Handle.{handle, check_database}
use nestjs_api_starter.Api.Policy.{anyone, policy}
use nestjs_api_starter.Api.Serve.{
  Reflector, is_public, required_roles, required_permissions, class_guards, serve,
}
use nestjs_api_starter.Api.Access.{Permits, serve-Permits}
use nestjs_api_starter.Api.Reach.{serve-handle}
use nestjs_api_starter.Api.Refusal.{serve-decision, serve-anonymous}
use nestjs_api_starter.Problem.{FailedRequest, catch, thrown}
use nestjs_api_starter.Api.Deactivated.{deactivate_user-serve}

abbrev hash : String → Result String
hash password = ok password

abbrev compare : String → String → Result Bool
compare password stored = ok false

abbrev sign : Auth.AccessTokenPayload → ℕ → Result String
sign payload now = ok payload.sub

abbrev first_of : {A : Type 0} → Option A → Option A → Option A
first_of none of_class = of_class
first_of (some a) of_class = some a

abbrev reflector : Reflector
reflector = record {
  get_all_and_override = first_of;
  handler_first = λ a of_class. refl;
  class_next = λ of_class. refl;
}

abbrev token_of : String → JwtGuard.AccessTokenPayload
token_of id = record { sub = some id; email = none; token_type = some "access" }

-- the token a is ann's, and c is cy's
abbrev verify : Text → Result JwtGuard.AccessTokenPayload
verify token =
    if same_units token (97 ∷ [])
    then ok (token_of "u1")
    else if same_units token (99 ∷ [])
    then ok (token_of "u3")
    else err (other "jwt malformed")

abbrev header : ℕ → Option Text
header token = some (66 ∷ 101 ∷ 97 ∷ 114 ∷ 101 ∷ 114 ∷ 32 ∷ token ∷ [])

abbrev write_users : Permission
write_users = record {
  id = "p1";
  name = "users:write";
  description = none;
  is_active = true;
  created_at = 0;
  updated_at = 0;
}

abbrev managed : Tables
managed = record {
  users = user "u1" "ann@x" "#pw" true ∷ user "u3" "cy@x" "#pw" true ∷ [];
  roles = role "r1" "admin" ∷ role "r2" "user" ∷ [];
  permissions = write_users ∷ [];
  user_roles = ("u1", "r1") ∷ ("u3", "r2") ∷ [];
  role_permissions = ("r1", "p1") ∷ [];
}

abbrev World : Type 0
World = Stores Tables (List RefreshToken)

abbrev world : World
world = record { directory = managed; tokens = [] }

abbrev clock : ℕ → ℕ
clock n = 10 + n

abbrev answers : World → Result (Unit {0})
answers w = ok tt

abbrev ann : AuthenticatedRequestUser
ann = record { id = "u1"; email = "ann@x" }

abbrev cy_off : User
cy_off = record (user "u3" "cy@x" "#pw" true) { is_active = false; updated_at = 10 }

abbrev without_cy : World
without_cy = record {
  directory = record managed { users = user "u1" "ann@x" "#pw" true ∷ cy_off ∷ [] };
  tokens = [];
}

cy_refused :
    serve digest table directory hash compare sign none answers clock "t" reflector verify
      (ok tt)
      (users deactivate_user)
      "u1"
      (header 99)
      world
    ≡ (err (http forbidden "You do not have the required role to access this resource."), world)
unfolding serve is_public class_guards required_roles required_permissions can_activate
    extract_bearer_token before_space after_space find_by_id roles_can_activate find_user_role_names
cy_refused = refl

not_ready :
    (handle digest table directory hash compare sign none
      (λ w. err (other "ECONNREFUSED"))
      clock
      "t"
      (health ready)
      tt
      none
      world).0
    ≡ err (http service_unavailable "Database is unavailable.")
unfolding handle check_database
not_ready = refl

serve-Permits_example :
    ((e : Exception) × (serve digest table directory hash compare sign none answers clock "t"
          reflector verify
          (ok tt)
          (users deactivate_user)
          "u3"
          (header 97)
          world
        ≡ (err e, world)))
    ⊎ ((user : Option AuthenticatedRequestUser) × Permits directory verify managed
          (header 97)
          (policy (users deactivate_user))
          user
        × (serve digest table directory hash compare sign none answers clock "t" reflector verify
              (ok tt)
              (users deactivate_user)
              "u3"
              (header 97)
              world
            ≡ handle digest table directory hash compare sign none answers clock "t"
                (users deactivate_user)
                "u3"
                user
                world))
serve-Permits_example =
    serve-Permits digest table directory hash compare sign none answers clock "t" reflector verify
      (ok tt) (users deactivate_user) "u3" (header 97) world

abbrev ann_is_admin : HasRole directory managed "u1" "admin"
ann_is_admin = (
  role "r1" "admin",
  record {
    user = user "u1" "ann@x" "#pw" true;
    listed = inl refl;
    active = refl;
    user_listed = inl refl;
    user_id_is = refl;
    user_active = refl;
    assigned = refl;
  },
  refl,
)

abbrev ann_writes : IsGranted directory managed "u1" "users:write"
ann_writes = record {
  permission = write_users;
  role = role "r1" "admin";
  named = refl;
  listed = inl refl;
  active = refl;
  holds = ann_is_admin.1;
  granted = refl;
}

serve-handle_example :
    serve digest table directory hash compare sign none answers clock "t" reflector verify
      (ok tt)
      (users deactivate_user)
      "u3"
      (header 97)
      world
    ≡ handle digest table directory hash compare sign none answers clock "t"
        (users deactivate_user)
        "u3"
        (some ann)
        world
unfolding can_activate extract_bearer_token before_space after_space find_by_id find_user_role_names
    find_user_permission_names
serve-handle_example =
    serve-handle digest table directory hash compare sign none answers clock "t" reflector verify
      (users deactivate_user) "u3" (header 97) world ann "users:write" ("admin" ∷ [])
      ("users:write" ∷ []) refl refl refl refl ann_is_admin ann_writes

not_anyone : policy (users get_current_user) ≢ anyone
not_anyone e = cc

deactivate_user-serve_example :
    (e : Exception) × (serve digest table directory hash compare sign none answers clock "t"
        reflector verify
        (ok tt)
        (users get_current_user)
        tt
        (header 99)
        without_cy
      ≡ (err e, without_cy))
unfolding serve is_public class_guards required_roles required_permissions can_activate
    extract_bearer_token before_space after_space find_by_id roles_can_activate find_user_role_names
    permissions_can_activate find_user_permission_names handle Users.deactivate_user
    ensure_user_exists
deactivate_user-serve_example =
    deactivate_user-serve digest table directory hash compare sign none answers clock "t" reflector
      verify (ok tt) (ok tt) "u3" (header 97) (header 99) world without_cy (to_safe_user cy_off)
      (users get_current_user) tt (99 ∷ []) (token_of "u3") refl refl refl refl not_anyone

abbrev cy : AuthenticatedRequestUser
cy = record { id = "u3"; email = "cy@x" }

serve-decision_example :
    serve digest table directory hash compare sign none answers clock "t" reflector verify
      (ok tt)
      (users deactivate_user)
      "u1"
      (header 99)
      world
    ≡ (err (http forbidden "You do not have the required role to access this resource."), world)
unfolding can_activate extract_bearer_token before_space after_space find_by_id find_user_role_names
    find_user_permission_names
serve-decision_example =
    serve-decision digest table directory hash compare sign none answers clock "t" reflector verify
      (users deactivate_user) "u1" (header 99) world cy "users:write" ("user" ∷ []) [] refl refl
      refl refl

abbrev failed_request : FailedRequest
failed_request = record { url = "/users/me"; id = none }

serve-anonymous_example :
    (e : Exception) × (serve digest table directory hash compare sign none answers clock "t"
        reflector verify
        (ok tt)
        (users get_current_user)
        tt
        none
        world
      ≡ (err e, world))
    × ((catch (thrown e) failed_request).response_status ≡ 401)
unfolding extract_bearer_token
serve-anonymous_example =
    serve-anonymous digest table directory hash compare sign none answers clock "t" reflector verify
      (users get_current_user) tt none world failed_request refl refl
