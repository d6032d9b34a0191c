-- ===== src/Roles/Deactivation.antt =====
-- A role that is deactivated gives no access any more.
use nestjs_api_starter.Prelude.{
  ℕ, String, ◌≡◌, ap, sym, ◌∙◌, inl, inr, Bool, false, Option, some, List, IsIn, change,
  change-IsIn, str_eq, eq_iff, arith,
}
use nestjs_api_starter.Effects.{ok, err-ne-ok}
use nestjs_api_starter.Directory.{Directory, Role}
use nestjs_api_starter.Roles.{
  UpdateDto, defined_or, update_role, update_role_data, find_user_role_names,
}
use nestjs_api_starter.Roles.Grants.{find_user_role_names-HasRole}

module _ (d : Directory) (id : String) (input : UpdateDto) (now : ℕ) where
  inactive-data :
      (rows : List Role) (role : Role)
      → input.is_active ≡ some false
      → IsIn role (change (λ r. str_eq r.id id) (update_role_data input now) rows)
      → role.id ≡ id
      → role.is_active ≡ false
  inactive-data rows role off i same =
      let (old, j, h) =
        change-IsIn (λ (r : Role). str_eq r.id id) (update_role_data input now) role rows i in
      elim h [
        | inl (holds, e) ↦
            ap (λ (r : Role). r.is_active) (sym e)
            ∙ ap (λ (o : Option Bool). defined_or o old.is_active) off
        | inr (fails, e) ↦ absurd (ground (arith, eq_iff old.id id, ap (λ (r : Role). r.id) e))
      ]

  update_role-inactive :
      (s : d.State) (answer role : Role)
      → input.is_active ≡ some false
      → (update_role d id input now s).0 ≡ ok answer
      → IsIn role (d.roles (update_role d id input now s).1)
      → role.id ≡ id
      → role.is_active ≡ false
  unfolding update_role
  update_role-inactive s answer role off e i same =
      elim (d.update_role_law id (update_role_data input now) s) [
        | inl (old, s', updated, j, k, rows) ↦
            inactive-data (d.roles s) role off (rw (updated, rows) at i) same
        | inr (x, failed) ↦ absurd (err-ne-ok (rw failed at e))
      ]

  -- When an update that deactivates a role has returned: if a name is that of no other role, then a
  -- lookup of any user's roles that returns does not have the name.
  pub update_role-no_access :
      (s : d.State) (answer : Role) (name user_id : String) (names : List String)
      → input.is_active ≡ some false
      → (update_role d id input now s).0 ≡ ok answer
      → ((role : Role)
          → IsIn role (d.roles (update_role d id input now s).1)
          → role.name ≡ name
          → role.id ≡ id)
      → find_user_role_names d user_id (update_role d id input now s).1 ≡ ok names
      → ¬ IsIn name names
  update_role-no_access s answer name user_id names off e unique found i =
      let (role, h, named) =
        (find_user_role_names-HasRole d (update_role d id input now s).1 user_id names found name).0
          i in
      let inactive =
        update_role-inactive s answer role off e h.listed (unique role h.listed named) in
      ground (arith, inactive, h.active)
