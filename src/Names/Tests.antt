-- ===== src/Names/Tests.antt =====
-- Names that match and names that do not.
use nestjs_api_starter.Prelude.{◌≡◌, refl, true, false}
use nestjs_api_starter.Json.{units}
use nestjs_api_starter.Names.{role_name_pattern, after_resource, permission_name_pattern}

names_run :
    (permission_name_pattern (units "users:read") ≡ true)
    × (permission_name_pattern (units "users") ≡ false)
    × (permission_name_pattern (units "a:b:c") ≡ false)
    × (permission_name_pattern (units ":read") ≡ false)
    × (role_name_pattern (units "super-admin2") ≡ true)
    × (role_name_pattern (units "Admin") ≡ false)
unfolding permission_name_pattern after_resource role_name_pattern units
names_run = (refl, refl, refl, refl, refl, refl)
