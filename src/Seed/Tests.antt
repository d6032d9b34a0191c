-- ===== src/Seed/Tests.antt =====
-- The seed on empty tables, and on its own result.
use nestjs_api_starter.Prelude.{String, ◌≡◌, refl, true, none, some, [], ◌∷◌, IsIn, map}
use text.Mathlib.Text.{starts_with}
use nestjs_api_starter.Effects.{Result, ok}
use nestjs_api_starter.Json.{units}
use nestjs_api_starter.Names.{role_name_pattern, after_resource, permission_name_pattern}
use nestjs_api_starter.Directory.{User, Role, Permission}
use nestjs_api_starter.Directory.Tables.{Tables, linked}
use nestjs_api_starter.Directory.Memory.{directory}
use nestjs_api_starter.Roles.Grants.{HasRole, IsGranted}
use nestjs_api_starter.Api.{Handler}
use nestjs_api_starter.Api.Policy.{policy, admin_with}
use nestjs_api_starter.Seed.{SeedEnv, seed_permissions, main}
use nestjs_api_starter.Seed.Memory.{upserts}
use nestjs_api_starter.Seed.Total.{Outcome, CallFails, main-Outcome}
use nestjs_api_starter.Seed.Granted.{main-IsGranted, main-profile}

abbrev hash : String → Result String
hash password = ok password

abbrev env : SeedEnv
env = record { admin_email = some "ann@x"; admin_password = none; admin_name = none }

abbrev empty : Tables
empty = record { users = []; roles = []; permissions = []; user_roles = []; role_permissions = [] }

abbrev seeded : Tables
seeded = (main directory upserts hash 5 env empty).1

seeded_run :
    (map (λ (p : Permission). p.name) (seeded.permissions)
      ≡ "profile:write" ∷ "profile:read" ∷ "permissions:write" ∷ "permissions:read" ∷ "roles:write"
        ∷ "roles:read" ∷ "users:write" ∷ "users:read" ∷ [])
    × (map (λ (r : Role). r.name) seeded.roles ≡ "user" ∷ "admin" ∷ [])
unfolding main seed_permissions permission_name_pattern after_resource role_name_pattern units
seeded_run = (refl, refl)

main-IsGranted_example :
    (u : User) × IsIn u seeded.users
    × (u.email ≡ "ann@x")
    × (u.is_active ≡ true)
    × HasRole directory seeded u.id "admin"
    × ((h : Handler) (p : String) → policy h ≡ admin_with p → IsGranted directory seeded u.id p)
unfolding main seed_permissions permission_name_pattern after_resource role_name_pattern units
main-IsGranted_example = main-IsGranted directory upserts hash 5 env empty seeded refl

main-profile_example :
    (member : Role) × IsIn member seeded.roles
    × (member.name ≡ "user")
    × (member.is_active ≡ true)
    × ((id : String)
        → linked seeded.role_permissions member.id id ≡ true
        → (x : Permission) × IsIn x seeded.permissions
          × (x.id ≡ id)
          × (starts_with x.name "profile:" ≡ true))
unfolding main seed_permissions permission_name_pattern after_resource role_name_pattern units
main-profile_example = main-profile directory upserts hash 5 env empty seeded refl

main-Outcome_example :
    Outcome (CallFails directory upserts hash 5) (main directory upserts hash 5 env empty)
main-Outcome_example = main-Outcome directory upserts hash 5 env empty
