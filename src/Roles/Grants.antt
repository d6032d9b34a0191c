-- ===== src/Roles/Grants.antt =====
-- Who has a role or a permission: the two lookups against the tables.
use nestjs_api_starter.Prelude.{
  String, ◌≡◌, sym, subst, inl, inr, Bool, true, ◌&&◌, List, map, IsIn, str_eq, eq_iff, and-both,
  and-true, any-IsIn, IsIn-any, map-IsIn, IsIn-map, ◌↔◌,
}
use nestjs_api_starter.Effects.{Result, ok, map_result, ok_injective, err-ne-ok}
use nestjs_api_starter.Directory.{Directory, User, Role, Permission, unordered, FindsMany}
use nestjs_api_starter.Roles.{
  some_user, role_where, permission_where, find_user_role_names, find_user_permission_names,
}

abbrev Matches : {Row : Type 0} → List Row → (Row → Bool) → (Row → String) → String → Type 0
Matches {Row} rows p f name = (r : Row) × (IsIn r rows × (p r ≡ true)) × (f r ≡ name)

-- The names of what a `findMany` finds are those of the rows that pass its test.
names-Matches :
    {S Row : Type 0} (rows : S → List Row) (find : (Row → Bool) → S → Result (List Row))
    → FindsMany rows find
    → (p : Row → Bool) (f : Row → String) (s : S) (names : List String)
    → map_result (map f) (find p s) ≡ ok names
    → (name : String) → IsIn name names ↔ Matches (rows s) p f name
names-Matches rows find law p f s names e name = elim (law p s) [
  | inl (found, is_found, exact) ↦
      let same : map f found ≡ names = ok_injective (rw is_found at e) in
      (
        (λ i.
            let (r, j, named) = IsIn-map f name found (subst (λ ns. IsIn name ns) (sym same) i) in
            (r, (exact r).0 j, named)),
        (λ m.
            subst (λ ns. IsIn name ns) same
              (subst (λ n. IsIn n (map f found)) m.2 (map-IsIn f m.0 found ((exact m.0).1 m.1)))),
      )
  | inr (x, failed) ↦ absurd (err-ne-ok (rw failed at e))
]

module _ (d : Directory) (s : d.State) (user_id : String) where
  -- An active user with this id has the role, and the role is active.
  pub record Holds (role : Role) : Type 0 where
    pub user : User
    pub listed : IsIn role (d.roles s)
    pub active : role.is_active ≡ true
    pub user_listed : IsIn user (d.users s)
    pub user_id_is : user.id ≡ user_id
    pub user_active : user.is_active ≡ true
    pub assigned : d.has_role s user.id role.id ≡ true

  -- An active permission of this name is granted by an active role that the active user has.
  pub record IsGranted (name : String) : Type 0 where
    pub permission : Permission
    pub role : Role
    pub named : permission.name ≡ name
    pub listed : IsIn permission (d.permissions s)
    pub active : permission.is_active ≡ true
    pub holds : Holds role
    pub granted : d.has_permission s role.id permission.id ≡ true

  abbrev pub HasRole : String → Type 0
  HasRole name = (role : Role) × Holds role × (role.name ≡ name)

  role_where-Holds :
      (role : Role) → IsIn role (d.roles s) → role_where d user_id s role ≡ true → Holds role
  role_where-Holds role listed e =
      let both = and-both role.is_active (some_user d user_id s role) e in
      let (user, i, h) = any-IsIn _ (d.users s) both.1 in
      let outer = and-both (str_eq user.id user_id && user.is_active) _ h in
      let inner = and-both (str_eq user.id user_id) user.is_active outer.0 in
      record {
        user = user;
        listed = listed;
        active = both.0;
        user_listed = i;
        user_id_is = (eq_iff user.id user_id).0 inner.0;
        user_active = inner.1;
        assigned = outer.1;
      }

  Holds-role_where : (role : Role) → Holds role → role_where d user_id s role ≡ true
  Holds-role_where role h = and-true role.is_active (some_user d user_id s role) h.active (
      IsIn-any _ h.user (d.users s) h.user_listed (
        and-true _ _ (and-true _ _ ((eq_iff h.user.id user_id).1 h.user_id_is) h.user_active)
          h.assigned))

  -- If the lookup of a user's roles returns, the names are exactly those of the active roles that
  -- are assigned to the user, and the user is active.
  pub find_user_role_names-HasRole :
      (names : List String)
      → find_user_role_names d user_id s ≡ ok names
      → (name : String) → IsIn name names ↔ HasRole name
  unfolding find_user_role_names
  find_user_role_names-HasRole names e name =
      let found =
        names-Matches d.roles (d.find_roles unordered) (d.find_roles_law unordered)
          (role_where d user_id s) (λ (role : Role). role.name) s names e name in
      (
        (λ i. let m = found.0 i in (m.0, role_where-Holds m.0 m.1.0 m.1.1, m.2)),
        (λ h. found.1 (h.0, (h.1.listed, Holds-role_where h.0 h.1), h.2)),
      )

  -- If the lookup of a user's permissions returns, the names are exactly those of the active
  -- permissions that an active role gives which is assigned to the user, and the user is active.
  pub find_user_permission_names-IsGranted :
      (names : List String)
      → find_user_permission_names d user_id s ≡ ok names
      → (name : String) → IsIn name names ↔ IsGranted name
  unfolding find_user_permission_names
  find_user_permission_names-IsGranted names e name =
      let found =
        names-Matches d.permissions (d.find_permissions unordered)
          (d.find_permissions_law unordered) (permission_where d user_id s)
          (λ (permission : Permission). permission.name) s names e name in
      (
        (λ i.
            let m = found.0 i in
            let both = and-both m.0.is_active _ m.1.1 in
            let (role, j, h) = any-IsIn _ (d.roles s) both.1 in
            let parts = and-both (role_where d user_id s role) _ h in
            record {
              permission = m.0;
              role = role;
              named = m.2;
              listed = m.1.0;
              active = both.0;
              holds = role_where-Holds role j parts.0;
              granted = parts.1;
            }),
        (λ g. found.1 (
          g.permission,
          (
            g.listed,
            and-true _ _ g.active (
                IsIn-any _ g.role (d.roles s) g.holds.listed
                  (and-true _ _ (Holds-role_where g.role g.holds) g.granted)),
          ),
          g.named,
        )),
      )
