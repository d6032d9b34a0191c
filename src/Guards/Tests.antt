-- ===== src/Guards/Tests.antt =====
-- The role and permission guards on a small directory.
use nestjs_api_starter.Prelude.{
  String, ◌≡◌, ◌≢◌, refl, inl, inr, true, false, none, some, List, [], ◌∷◌, IsIn, arith, ap, sym,
  ◌∙◌, eq_iff,
}
use nestjs_api_starter.Effects.{err, http, forbidden}
use nestjs_api_starter.Directory.{Role}
use nestjs_api_starter.Directory.Memory.{directory}
use nestjs_api_starter.Directory.Tables.{Tables}
use nestjs_api_starter.Directory.Sample.{sample, user, role, read_users}
use nestjs_api_starter.Roles.Deactivation.{update_role-no_access}
use nestjs_api_starter.Roles.{UpdateDto, update_role, find_user_role_names}
use nestjs_api_starter.Roles.Grants.{HasRole, IsGranted}
use nestjs_api_starter.Guards.{roles_can_activate}

abbrev admin_only : List String
admin_only = "admin" ∷ []

abbrev readers : List String
readers = "users:read" ∷ []

admin_needed : admin_only ≢ []
admin_needed e = cc

reader_needed : readers ≢ []
reader_needed e = cc

bob_refused :
    roles_can_activate directory (some admin_only) (some "u2") sample
    ≡ err (http forbidden "You do not have the required role to access this resource.")
unfolding roles_can_activate find_user_role_names
bob_refused = refl

abbrev ann_is_admin : HasRole directory sample "u1" "admin"
ann_is_admin = (
  role "r1" "admin",
  record {
    user = user "u1" "ann@x" "#pw" true;
    listed = inl refl;
    active = refl;
    user_listed = inl refl;
    user_id_is = refl;
    user_active = refl;
    assigned = refl;
  },
  refl,
)

abbrev ann_reads : (name : String) → IsIn name readers → IsGranted directory sample "u1" name
ann_reads name (inl e) = record {
  permission = read_users;
  role = role "r1" "admin";
  named = e;
  listed = inl refl;
  active = refl;
  holds = ann_is_admin.1;
  granted = refl;
}
ann_reads name (inr i) = absurd i

abbrev disabled : UpdateDto
disabled = record { name = none; description = none; is_active = some false }

abbrev without_admin : Tables
without_admin = (update_role directory "r1" disabled 5 sample).1

abbrev old_admin : Role
old_admin = record (role "r1" "admin") { is_active = false; updated_at = 5 }

only_admin : (r : Role) → IsIn r without_admin.roles → r.name ≡ "admin" → r.id ≡ "r1"
unfolding update_role
only_admin r (inl e) named = ap (λ (x : Role). x.id) (sym e)
only_admin r (inr (inl e)) named =
    absurd (ground (arith, eq_iff "user" "admin", ap (λ (x : Role). x.name) e ∙ named))
only_admin r (inr (inr i)) named = absurd i

update_role-no_access_example : ¬ IsIn {A = String} "admin" []
unfolding update_role find_user_role_names
update_role-no_access_example =
    update_role-no_access directory "r1" disabled 5 sample old_admin "admin" "u1" [] refl refl
      only_admin refl
