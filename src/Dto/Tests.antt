-- ===== src/Dto/Tests.antt =====
-- Bodies that are accepted and bodies that are not, where an address is any text that is not empty.
use nestjs_api_starter.Prelude.{
  ◌≤◌, ◌≡◌, refl, Bool, true, false, ◌&&◌, String, [], ◌∷◌, map, every, length,
}
use nestjs_api_starter.Json.{Text, null, str, Items, Fields, end, field, units}
use nestjs_api_starter.Names.{role_name_pattern, after_resource, permission_name_pattern}
use nestjs_api_starter.Names.Parts.{IsWord, IsPair}
use nestjs_api_starter.Dto.{
  Property, lookup, is_known, passes, ValidationPipe, create_permission_dto, create_role_dto,
  update_user_dto, update_role_dto,
}
use nestjs_api_starter.Dto.Accepted.{create_role_dto-IsWord, create_permission_dto-IsPair}

abbrev non_empty : Text → Bool
non_empty [] = false
non_empty (c ∷ cs) = true

abbrev any_items : Items → Bool
any_items items = true

abbrev pipe : ValidationPipe
pipe = record {
  is_address = non_empty;
  is_unique = any_items;
  length_of = length;
  accepts = λ dto body.
      is_known non_empty any_items length dto body
      && every (passes non_empty any_items length body) dto;
  partial = map (λ (p : Property). record p { is_optional = true });
  length_law = λ t h. refl;
  accepts_law = λ dto body. refl;
  partial_law = λ dto. refl;
}

abbrev named : String → Fields
named name = field (units "name") (str (units name)) end

abbrev registration : Fields
registration =
    field (units "email") (str (units "a@x"))
      (field (units "password") (str (units "12345678")) end)

-- The last says that a name may be unset by null in an update, and the one before that an unknown
-- key is refused.
accepts_run :
    (pipe.accepts create_role_dto (named "admin") ≡ true)
    × (pipe.accepts create_role_dto (named "Admin") ≡ false)
    × (pipe.accepts create_permission_dto (named "users") ≡ false)
    × (pipe.accepts update_user_dto end ≡ true)
    × (pipe.accepts update_user_dto (field (units "email") (str (units "a@x")) end) ≡ false)
    × (pipe.accepts (update_role_dto pipe) (field (units "name") null end) ≡ true)
unfolding create_role_dto create_permission_dto update_user_dto update_role_dto units
    role_name_pattern permission_name_pattern after_resource
accepts_run = (refl, refl, refl, refl, refl, refl)

create_role_dto-IsWord_example :
    (t : Text) × (lookup (units "name") (named "admin") ≡ str t)
    × (2 ≤ length t)
    × (length t ≤ 50)
    × IsWord t
unfolding create_role_dto units role_name_pattern
create_role_dto-IsWord_example = create_role_dto-IsWord pipe (named "admin") refl

create_permission_dto-IsPair_example :
    (t : Text) × (lookup (units "name") (named "users:read") ≡ str t) × (length t ≤ 100) × IsPair t
unfolding create_permission_dto units permission_name_pattern after_resource role_name_pattern
create_permission_dto-IsPair_example = create_permission_dto-IsPair pipe (named "users:read") refl
