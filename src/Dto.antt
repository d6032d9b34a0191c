-- ===== src/Dto.antt =====
-- The bodies of requests: the decorated classes under src/auth/dto, src/users/dto and
-- src/roles/dto. A class is the list of its properties with their decorators. What class-validator
-- and `PartialType` make of them is third-party: `ValidationPipe` is their documented behaviour as
-- an interface, with the options that src/main.ts gives the pipe.
pub mod Accepted
pub mod Tests
use nestjs_api_starter.Prelude.{
  ℕ, ◌<◌, ◌≡◌, All, Bool, true, false, ◌&&◌, ◌||◌, List, [], ◌∷◌, map, every, any, length, leb,
  if◌then◌else◌, ◌==◌,
}
use nestjs_api_starter.Json.{
  Text, Json, undefined, null, bool, number, str, arr, obj, Items, nil, cons, Fields, end, field,
  units,
}
use nestjs_api_starter.JwtGuard.{same_units}
use nestjs_api_starter.Names.{role_name_pattern, permission_name_pattern}

-- The decorators that the classes use.
pub data Rule : Type 0 where
  is_string is_boolean is_email is_array array_unique each_string : Rule
  min_length max_length : ℕ → Rule
  matches : (Text → Bool) → Rule

pub record Property : Type 0 where
  pub name : Text
  pub is_optional : Bool
  pub rules : List Rule

abbrev pub Dto : Type 0
Dto = List Property

abbrev pub required : Text → List Rule → Property
required name rules = record { name = name; is_optional = false; rules = rules }

abbrev pub optional : Text → List Rule → Property
optional name rules = record { name = name; is_optional = true; rules = rules }

unfoldable pub register_dto : Dto
register_dto =
    required (units "email") (is_email ∷ [])
    ∷ required (units "password") (is_string ∷ min_length 8 ∷ [])
    ∷ optional (units "name") (is_string ∷ max_length 255 ∷ [])
    ∷ []

unfoldable pub login_dto : Dto
login_dto =
    required (units "email") (is_email ∷ []) ∷ required (units "password") (is_string ∷ []) ∷ []

unfoldable pub refresh_token_dto : Dto
refresh_token_dto = required (units "refreshToken") (is_string ∷ []) ∷ []

unfoldable pub update_current_user_dto : Dto
update_current_user_dto =
    optional (units "name") (is_string ∷ min_length 1 ∷ max_length 255 ∷ []) ∷ []

unfoldable pub update_user_dto : Dto
update_user_dto =
    optional (units "name") (is_string ∷ min_length 1 ∷ max_length 255 ∷ [])
    ∷ optional (units "isActive") (is_boolean ∷ [])
    ∷ optional (units "roleIds") (is_array ∷ array_unique ∷ each_string ∷ [])
    ∷ []

unfoldable pub create_role_dto : Dto
create_role_dto =
    required (units "name")
      (is_string ∷ min_length 2 ∷ max_length 50 ∷ matches role_name_pattern ∷ [])
    ∷ optional (units "description") (is_string ∷ max_length 255 ∷ [])
    ∷ optional (units "isActive") (is_boolean ∷ [])
    ∷ []

unfoldable pub create_permission_dto : Dto
create_permission_dto =
    required (units "name") (is_string ∷ max_length 100 ∷ matches permission_name_pattern ∷ [])
    ∷ optional (units "description") (is_string ∷ max_length 255 ∷ [])
    ∷ optional (units "isActive") (is_boolean ∷ [])
    ∷ []

-- `body[name]`
abbrev pub lookup : Text → Fields → Json
lookup name end = undefined
lookup name (field key value rest) =
    let more = lookup name rest in if same_units key name then value else more

-- What the validators test, with the tests of an address and of repeated items and the length of a
-- text given.
module _ (is_address : Text → Bool) (is_unique : Items → Bool) (length_of : Text → ℕ) where
  abbrev pub all_strings : Items → Bool
  all_strings nil = true
  all_strings (cons (str t) rest) = all_strings rest
  all_strings (cons value rest) = false

  abbrev pub holds : Rule → Json → Bool
  holds is_string (str t) = true
  holds is_boolean (bool b) = true
  holds is_email (str t) = is_address t
  holds is_array (arr items) = true
  holds array_unique (arr items) = is_unique items
  holds each_string (arr items) = all_strings items
  holds (min_length n) (str t) = leb n (length_of t)
  holds (max_length n) (str t) = leb (length_of t) n
  holds (matches pattern) (str t) = pattern t
  holds rule value = false

  abbrev pub is_absent : Json → Bool
  is_absent undefined = true
  is_absent null = true
  is_absent _ = false

  -- `@IsOptional` lets undefined and null through.
  abbrev pub passes : Fields → Property → Bool
  passes body p =
      (p.is_optional && is_absent (lookup p.name body))
      || every (λ rule. holds rule (lookup p.name body)) p.rules

  abbrev pub is_known : Dto → Fields → Bool
  is_known dto end = true
  is_known dto (field key value rest) =
      let more = is_known dto rest in if any (λ p. same_units key p.name) dto then more else false

-- `new ValidationPipe({ whitelist: true, forbidNonWhitelisted: true, transform: true })`: a body is
-- accepted if it has no other keys than the class has properties, and each property passes its
-- decorators. `partial` is `PartialType`, which makes every property optional.
pub record ValidationPipe : Type 0 where
  pub is_address : Text → Bool
  pub is_unique : Items → Bool
  -- `MinLength` and `MaxLength` count a surrogate pair once, and variation selectors not at all.
  pub length_of : Text → ℕ
  pub accepts : Dto → Fields → Bool
  pub partial : Dto → Dto
  pub length_law : (t : Text) → All (λ c. c < 0xd800) t → length_of t ≡ length t
  pub accepts_law :
      (dto : Dto) (body : Fields)
      → accepts dto body ≡ (
          is_known is_address is_unique length_of dto body
          && every (passes is_address is_unique length_of body) dto)
  pub partial_law :
      (dto : Dto) → partial dto ≡ map (λ (p : Property). record p { is_optional = true }) dto

module _ (pipe : ValidationPipe) where
  unfoldable pub update_role_dto : Dto
  update_role_dto = pipe.partial create_role_dto

  unfoldable pub update_permission_dto : Dto
  update_permission_dto = pipe.partial create_permission_dto
