-- ===== src/Names.antt =====
-- The patterns of names: ROLE_NAME_PATTERN of src/roles/dto/create-role.dto.ts,
-- PERMISSION_NAME_PATTERN of src/roles/dto/create-permission.dto.ts, and the pattern of
-- prisma/seed.ts, which is the same. A name is its UTF-16 code units.
pub mod Parts
pub mod Tests
use nestjs_api_starter.Prelude.{
  ℕ, Bool, true, false, ◌&&◌, ◌||◌, List, [], ◌∷◌, leb, ◌==◌, every, if◌then◌else◌,
}
use nestjs_api_starter.Json.{Text}

-- [a-z0-9-]
abbrev pub is_name_unit : ℕ → Bool
is_name_unit c = ((leb 97 c && leb c 122) || (leb 48 c && leb c 57)) || (c == 45)

-- /^[a-z0-9-]+$/
unfoldable pub role_name_pattern : Text → Bool
role_name_pattern [] = false
role_name_pattern (c ∷ cs) = every is_name_unit (c ∷ cs)

-- after at least one unit of the resource
unfoldable pub after_resource : Text → Bool
after_resource [] = false
after_resource (c ∷ cs) =
    let more = after_resource cs in
    if is_name_unit c then more else if c == 58 then role_name_pattern cs else false

-- /^[a-z0-9-]+:[a-z0-9-]+$/
unfoldable pub permission_name_pattern : Text → Bool
permission_name_pattern [] = false
permission_name_pattern (c ∷ cs) = if is_name_unit c then after_resource cs else false
