-- ===== src/Users/Deactivation.antt =====
-- What a deactivated user can still do.
use nestjs_api_starter.Prelude.{
  [], ◌∷◌, subst, refl, ℕ, String, ◌≡◌, ap, sym, inl, inr, false, none, some, List, IsIn, change,
  change-IsIn, str_eq, eq_iff, arith,
}
use nestjs_api_starter.Effects.{Result, ok, err-ne-ok}
use nestjs_api_starter.Directory.{Directory, User, Role}
use nestjs_api_starter.Directory.Lookup.{find_user-IsIn}
use nestjs_api_starter.Roles.{find_user_role_names, find_user_permission_names}
use nestjs_api_starter.Roles.Grants.{
  Holds, find_user_role_names-HasRole, find_user_permission_names-IsGranted,
}
use nestjs_api_starter.Users.{SafeUser, deactivate, deactivate_user, ensure_user_exists, find_by_id}

-- No row of this id is active.
abbrev pub IsInactive : String → List User → Type 0
IsInactive id users = (user : User) → IsIn user users → user.id ≡ id → user.is_active ≡ false

deactivate-IsInactive :
    (id : String) (now : ℕ) (users : List User)
    → IsInactive id (change (λ u. str_eq u.id id) (deactivate now) users)
deactivate-IsInactive id now users user i same =
    let (old, j, h) = change-IsIn (λ (u : User). str_eq u.id id) (deactivate now) user users i in
    elim h [
      | inl (holds, e) ↦ ap (λ (u : User). u.is_active) (sym e)
      | inr (fails, e) ↦ absurd (ground (arith, eq_iff old.id id, ap (λ (u : User). u.id) e))
    ]

none-IsIn : (xs : List String) → ((x : String) → ¬ IsIn x xs) → xs ≡ []
none-IsIn [] h = refl
none-IsIn (x ∷ xs) h = absurd (h x (inl refl))

module _ (d : Directory) (id : String) where
  IsInactive-Holds : (s : d.State) (role : Role) → IsInactive id (d.users s) → Holds d s id role → ⊥
  IsInactive-Holds s role off h =
      let e = off h.user h.user_listed h.user_id_is in ground (arith, e, h.user_active)

  pub deactivate_user-IsInactive :
      (now : ℕ) (s : d.State) (answer : SafeUser)
      → (deactivate_user d id now s).0 ≡ ok answer
      → IsInactive id (d.users (deactivate_user d id now s).1)
  unfolding deactivate_user ensure_user_exists find_by_id
  deactivate_user-IsInactive now s answer e = elim (d.find_user_law (λ user. str_eq user.id id) s) [
    | inl (missing, h) ↦ absurd (err-ne-ok (rw missing at e))
    | inr (inl (user, found, i, h)) ↦ elim (d.update_user_law id (deactivate now) none s) [
      | inl (old, s', updated, j, k, rows) ↦
          rw (found, updated, rows) (deactivate-IsInactive id now (d.users s))
      | inr (x, failed) ↦ absurd (err-ne-ok (rw (found, failed) at e))
    ]
    | inr (inr (x, failed)) ↦ absurd (err-ne-ok (rw failed at e))
  ]

  -- When a deactivation has returned, lookups of the user's roles and permissions that return give
  -- none, and a user that is found by the id is inactive.
  pub deactivate_user-no_access :
      (now : ℕ) (s s' : d.State) (answer : SafeUser) (names permissions : List String) (user : User)
      → deactivate_user d id now s ≡ (ok answer, s')
      → find_user_role_names d id s' ≡ ok names
      → find_user_permission_names d id s' ≡ ok permissions
      → find_by_id d id s' ≡ ok (some user)
      → (names ≡ []) × (permissions ≡ []) × (user.is_active ≡ false)
  unfolding find_by_id
  deactivate_user-no_access now s s' answer names permissions user done roles perms found =
      let off : IsInactive id (d.users s') =
        subst (λ s₁. IsInactive id (d.users s₁)) (ap (λ (r : Result SafeUser × d.State). r.1) done)
          (deactivate_user-IsInactive now s answer
            (ap (λ (r : Result SafeUser × d.State). r.0) done)) in
      let (i, h) = find_user-IsIn d (λ user. str_eq user.id id) s' user found in
      (
        none-IsIn names λ name j.
            let (role, holds, named) =
              (find_user_role_names-HasRole d s' id names roles name).0 j in
            IsInactive-Holds s' role off holds,
        none-IsIn permissions λ name j.
            let granted =
              (find_user_permission_names-IsGranted d s' id permissions perms name).0 j in
            IsInactive-Holds s' granted.role off granted.holds,
        off user i ((eq_iff user.id id).0 h),
      )
