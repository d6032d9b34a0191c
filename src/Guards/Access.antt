-- ===== src/Guards/Access.antt =====
-- Who passes a guard, in terms of the tables.
use nestjs_api_starter.Prelude.{
  String, ◌≡◌, ◌≢◌, refl, subst, inl, inr, true, Option, none, some, List, [], ◌∷◌, any, every,
  IsIn, any-IsIn, IsIn-any, every-IsIn, IsIn-every, Bool-cases, eq_iff, eq_refl, ◌↔◌,
}
use nestjs_api_starter.Effects.{Result, ok, err, err-ne-ok}
use nestjs_api_starter.Directory.{Directory}
use nestjs_api_starter.Roles.{find_user_role_names, find_user_permission_names}
use nestjs_api_starter.Roles.Grants.{
  HasRole, IsGranted, find_user_role_names-HasRole, find_user_permission_names-IsGranted,
}
use nestjs_api_starter.Guards.{
  includes, check_roles, check_permissions, roles_can_activate, permissions_can_activate,
}

pub includes-IsIn :
    (names : List String) (name : String) → (includes names name ≡ true) ↔ IsIn name names
includes-IsIn names name = (
  (λ e.
      let (x, i, same) = any-IsIn _ names e in
      subst (λ y. IsIn y names) ((eq_iff x name).0 same) i),
  (λ i. IsIn-any _ name names i (eq_refl name)),
)

check_roles-ok :
    (required : List String) (r : Result (List String))
    → check_roles required r ≡ ok true
    → (active : List String) × (r ≡ ok active)
      × (name : String) × IsIn name required
      × IsIn name active
check_roles-ok required (err e) h = absurd (err-ne-ok h)
check_roles-ok required (ok active) h = elim (Bool-cases (any (includes active) required)) [
  | inl holds ↦
      let (name, i, j) = any-IsIn (includes active) required holds in
      (active, refl, name, i, (includes-IsIn active name).0 j)
  | inr fails ↦ absurd (err-ne-ok (rw fails at h))
]

check_permissions-ok :
    (required : List String) (r : Result (List String))
    → check_permissions required r ≡ ok true
    → (active : List String) × (r ≡ ok active)
      × ((name : String) → IsIn name required → IsIn name active)
check_permissions-ok required (err e) h = absurd (err-ne-ok h)
check_permissions-ok required (ok active) h = elim (Bool-cases (every (includes active) required)) [
  | inl holds ↦ (
    active,
    refl,
    λ name i. (includes-IsIn active name).0 (every-IsIn (includes active) name required holds i),
  )
  | inr fails ↦ absurd (err-ne-ok (rw fails at h))
]

module _ (d : Directory) (s : d.State) where
  -- A route that requires roles is reached only by a signed-in user whose account is active and who
  -- has one of the required roles, where the role is active and assigned to the account.
  pub roles_can_activate-HasRole :
      (required : List String) (user : Option String)
      → required ≢ []
      → roles_can_activate d (some required) user s ≡ ok true
      → (id : String) × (user ≡ some id)
        × (name : String) × IsIn name required
        × HasRole d s id name
  unfolding roles_can_activate
  roles_can_activate-HasRole [] user some_role e = absurd (some_role refl)
  roles_can_activate-HasRole (r ∷ rs) none some_role e = absurd (err-ne-ok e)
  roles_can_activate-HasRole (r ∷ rs) (some id) some_role e =
      let (active, found, name, i, j) = check_roles-ok (r ∷ rs) (find_user_role_names d id s) e in
      (id, refl, name, i, (find_user_role_names-HasRole d s id active found name).0 j)

  -- A route that requires permissions is reached only by a signed-in user who has every one of
  -- them, through active roles of the active account.
  pub permissions_can_activate-IsGranted :
      (required : List String) (user : Option String)
      → required ≢ []
      → permissions_can_activate d (some required) user s ≡ ok true
      → (id : String) × (user ≡ some id)
        × ((name : String) → IsIn name required → IsGranted d s id name)
  unfolding permissions_can_activate
  permissions_can_activate-IsGranted [] user some_permission e = absurd (some_permission refl)
  permissions_can_activate-IsGranted (r ∷ rs) none some_permission e = absurd (err-ne-ok e)
  permissions_can_activate-IsGranted (r ∷ rs) (some id) some_permission e =
      let (active, found, all_in) =
        check_permissions-ok (r ∷ rs) (find_user_permission_names d id s) e in
      (
        id,
        refl,
        λ name i. (find_user_permission_names-IsGranted d s id active found name).0 (all_in name i),
      )

  -- A user who has one of the required roles passes, if the lookup of the roles returns.
  pub HasRole-roles_can_activate :
      (required names : List String) (id name : String)
      → find_user_role_names d id s ≡ ok names
      → IsIn name required
      → HasRole d s id name
      → roles_can_activate d (some required) (some id) s ≡ ok true
  unfolding roles_can_activate
  HasRole-roles_can_activate [] names id name found i has = absurd i
  HasRole-roles_can_activate (r ∷ rs) names id name found i has =
      let held =
        (includes-IsIn names name).1
          ((find_user_role_names-HasRole d s id names found name).1 has) in
      rw (found, IsIn-any (includes names) name (r ∷ rs) i held) refl

  -- A user who has all required permissions passes, if the lookup of the permissions returns.
  pub IsGranted-permissions_can_activate :
      (required names : List String) (id : String)
      → find_user_permission_names d id s ≡ ok names
      → ((name : String) → IsIn name required → IsGranted d s id name)
      → permissions_can_activate d (some required) (some id) s ≡ ok true
  unfolding permissions_can_activate
  IsGranted-permissions_can_activate [] names id found has = refl
  IsGranted-permissions_can_activate (r ∷ rs) names id found has =
      let held = IsIn-every (includes names) (r ∷ rs) (λ name i.
        (includes-IsIn names name).1
          ((find_user_permission_names-IsGranted d s id names found name).1 (has name i))) in
      rw (found, held) refl
