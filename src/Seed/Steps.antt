-- ===== src/Seed/Steps.antt =====
-- A run of the seed that succeeds, in its steps.
use nestjs_api_starter.Prelude.{
  ℕ, String, ◌≡◌, refl, ap, sym, ◌∙◌, subst, inl, inr, true, false, List, [], ◌∷◌, IsIn, any,
  str_eq, eq_iff, arith, or_default,
}
use nestjs_api_starter.Effects.{
  Result, ok, Eff, exec, lift, pure, ok_injective, err-ne-ok, exec-ok, >>=-ok, ◌>>=◌, ◌>>◌,
}
use nestjs_api_starter.Directory.{Directory, User, Role, Permission}
use nestjs_api_starter.Seed.{
  Upserts, permissions, SeedEnv, check_names, activate_role, new_role, reset_user, new_user, ids_of,
  profile_only, seed_permissions, seed_roles, seed_admin, main,
}
use nestjs_api_starter.Seed.Upserted.{Upserted-IsIn, Upserted-stays, Upserted-holds}

module _ (d : Directory) (prisma : Upserts d) (hash : String → Result String) (now : ℕ) where
  abbrev pub RoleSeeded : String → List String → d.State → d.State → Role → Type 0
  RoleSeeded name ids s s' r =
      IsIn r (d.roles s')
      × (r.name ≡ name)
      × (r.is_active ≡ true)
      × (d.permissions s' ≡ d.permissions s)
      × ((p : String) → d.has_permission s' r.id p ≡ any (λ id. str_eq id p) ids)
      × ((x : Role)
          → IsIn x (d.roles s)
          → str_eq x.name name ≡ false
          → IsIn x (d.roles s')
            × ((p : String) → d.has_permission s' x.id p ≡ d.has_permission s x.id p))

  upsert_role-RoleSeeded :
      (name description : String) (ids : List String) (s s' : d.State) (r : Role)
      → exec (prisma.upsert_role name (activate_role now) (new_role name description now) ids) s
        ≡ (ok r, s')
      → RoleSeeded name ids s s' r
  upsert_role-RoleSeeded name description ids s s' r e =
      let f = activate_role now in
      let mk = new_role name description now in
      let e' = exec-ok (prisma.upsert_role name f mk ids) s s' r e in
      elim (prisma.upsert_role_law name f mk ids s) [
        | inr (x, failed) ↦ absurd (err-ne-ok (sym failed ∙ e'))
        | inl (q, s₁, done, up, same, has, others) ↦
            subst (λ (o : Role × d.State). RoleSeeded name ids s o.1 o.0)
              (ok_injective (sym done ∙ e'))
              (
                Upserted-IsIn (λ (x : Role). x.name) name f mk (d.roles s) (d.roles s₁) q up,
                Upserted-holds (λ (x : Role). x.name) name f mk (d.roles s) (d.roles s₁) q
                    (λ x. x.name ≡ name) up (λ old is. is) (λ id. refl),
                Upserted-holds (λ (x : Role). x.name) name f mk (d.roles s) (d.roles s₁) q
                    (λ x. x.is_active ≡ true) up (λ old is. refl) (λ id. refl),
                same,
                has,
                λ x i ne. (
                  Upserted-stays (λ (x : Role). x.name) name f mk (d.roles s) (d.roles s₁) q x ne up
                      i,
                  λ p. others x p i (λ is. ground (arith, eq_iff x.name name)),
                ),
              )
      ]

  abbrev pub UserSeeded : String → List String → d.State → d.State → User → Type 0
  UserSeeded email ids s s' u =
      IsIn u (d.users s')
      × (u.email ≡ email)
      × (u.is_active ≡ true)
      × (d.roles s' ≡ d.roles s)
      × (d.permissions s' ≡ d.permissions s)
      × ((r p : String) → d.has_permission s' r p ≡ d.has_permission s r p)
      × ((r : String) → d.has_role s' u.id r ≡ any (λ id. str_eq id r) ids)

  upsert_user-UserSeeded :
      (email name password_hash : String) (ids : List String) (s s' : d.State) (u : User)
      → exec
          (prisma.upsert_user email
            (reset_user name password_hash now)
            (new_user email name password_hash now)
            ids)
          s
        ≡ (ok u, s')
      → UserSeeded email ids s s' u
  upsert_user-UserSeeded email name password_hash ids s s' u e =
      let f = reset_user name password_hash now in
      let mk = new_user email name password_hash now in
      let e' = exec-ok (prisma.upsert_user email f mk ids) s s' u e in
      elim (prisma.upsert_user_law email f mk ids s) [
        | inr (x, failed) ↦ absurd (err-ne-ok (sym failed ∙ e'))
        | inl (v, s₁, done, up, roles, perms, has, links) ↦
            subst (λ (o : User × d.State). UserSeeded email ids s o.1 o.0)
              (ok_injective (sym done ∙ e'))
              (
                Upserted-IsIn (λ (x : User). x.email) email f mk (d.users s) (d.users s₁) v up,
                Upserted-holds (λ (x : User). x.email) email f mk (d.users s) (d.users s₁) v
                    (λ x. x.email ≡ email) up (λ old is. is) (λ id. refl),
                Upserted-holds (λ (x : User). x.email) email f mk (d.users s) (d.users s₁) v
                    (λ x. x.is_active ≡ true) up (λ old is. refl) (λ id. refl),
                roles,
                perms,
                has,
                links,
              )
      ]

  -- The four steps of a run.
  abbrev pub Steps : SeedEnv → d.State → d.State → Type 0
  Steps env s s' =
      (records : List Permission) × (admin : Role) × (member : Role) × (account : User)
      × (s₁ : d.State) × (s₂ : d.State) × (s₃ : d.State) × (seed_permissions d prisma hash now
            permissions s
          ≡ (ok records, s₁))
      × RoleSeeded "admin" (ids_of records) s₁ s₂ admin
      × RoleSeeded "user" (ids_of (profile_only records)) s₂ s₃ member
      × UserSeeded (or_default env.admin_email "admin@example.com") (admin.id ∷ []) s₃ s' account

  seed_roles-RoleSeeded :
      (records : List Permission) (s s' : d.State) (admin : Role)
      → seed_roles d prisma hash now records s ≡ (ok admin, s')
      → (member : Role) × (s₁ : d.State) × RoleSeeded "admin" (ids_of records) s s₁ admin
        × RoleSeeded "user" (ids_of (profile_only records)) s₁ s' member
  seed_roles-RoleSeeded records s s' admin e =
      let first : Eff d.State Role = exec (
        prisma.upsert_role "admin" (activate_role now)
          (new_role "admin" "Administrator with full access" now) (ids_of records)) in
      let second : Eff d.State Role = exec (
        prisma.upsert_role "user" (activate_role now)
          (new_role "user" "Default authenticated user" now) (ids_of (profile_only records))) in
      let (r, s₁, e₁, rest) = >>=-ok first (λ r. second >> pure r) s s' admin e in
      let (r', s₂, e₂, last) = >>=-ok second (λ _. pure r) s₁ s' admin rest in
      let same : r ≡ admin = ok_injective (ap (λ (x : Result Role × d.State). x.0) last) in
      let state : s₂ ≡ s' = ap (λ (x : Result Role × d.State). x.1) last in
      (
        r',
        s₁,
        subst (λ x. RoleSeeded "admin" (ids_of records) s s₁ x) same
            (upsert_role-RoleSeeded "admin" "Administrator with full access" (ids_of records) s s₁ r
              e₁),
        subst (λ x. RoleSeeded "user" (ids_of (profile_only records)) s₁ x r') state
            (upsert_role-RoleSeeded "user" "Default authenticated user"
              (ids_of (profile_only records)) s₁ s₂ r' e₂),
      )

  seed_admin-UserSeeded :
      (email password name : String) (role : Role) (s s' : d.State)
      → seed_admin d prisma hash now email password name role s ≡ (ok tt, s')
      → (account : User) × UserSeeded email (role.id ∷ []) s s' account
  seed_admin-UserSeeded email password name role s s' e =
      let upsert : String → Eff d.State User = λ password_hash. exec (
        prisma.upsert_user email (reset_user name password_hash now)
          (new_user email name password_hash now) (role.id ∷ [])) in
      let (hashed, s₁, e₁, rest) =
        >>=-ok (lift (hash password)) (λ h. upsert h >> pure tt) s s' tt e in
      let (u, s₂, e₂, last) = >>=-ok (upsert hashed) (λ _. pure tt) s₁ s' tt rest in
      let before : s ≡ s₁ = ap (λ (x : Result String × d.State). x.1) e₁ in
      let after : s₂ ≡ s' = ap (λ (x : Result (Unit {0}) × d.State). x.1) last in
      (
        u,
        subst (λ x. UserSeeded email (role.id ∷ []) x s' u) (sym before)
            (subst (λ x. UserSeeded email (role.id ∷ []) s₁ x u) after
              (upsert_user-UserSeeded email name hashed (role.id ∷ []) s₁ s₂ u e₂)),
      )

  pub main-Steps :
      (env : SeedEnv) (s s' : d.State) → main d prisma hash now env s ≡ (ok tt, s') → Steps env s s'
  unfolding main
  main-Steps env s s' e =
      let email = or_default env.admin_email "admin@example.com" in
      let password = or_default env.admin_password "change-me-password" in
      let name = or_default env.admin_name "Admin" in
      let finish : Role → Eff d.State (Unit {0}) =
        seed_admin d prisma hash now email password name in
      let roles : List Permission → Eff d.State (Unit {0}) =
        λ records. seed_roles d prisma hash now records >>= finish in
      let (x, s₀, e₀, rest) =
        >>=-ok (lift (check_names permissions))
          (λ _. seed_permissions d prisma hash now permissions >>= roles) s s' tt e in
      let (records, s₁, e₁, rest') =
        >>=-ok (seed_permissions d prisma hash now permissions) roles s₀ s' tt rest in
      let (admin, s₃, e₃, last) =
        >>=-ok (seed_roles d prisma hash now records) finish s₁ s' tt rest' in
      let (member, s₂, of_admin, of_member) = seed_roles-RoleSeeded records s₁ s₃ admin e₃ in
      let (account, of_account) = seed_admin-UserSeeded email password name admin s₃ s' last in
      let before : s₀ ≡ s = sym (ap (λ (x : Result (Unit {0}) × d.State). x.1) e₀) in
      (
        records,
        admin,
        member,
        account,
        s₁,
        s₂,
        s₃,
        subst (λ x. seed_permissions d prisma hash now permissions x ≡ (ok records, s₁)) before e₁,
        of_admin,
        of_member,
        of_account,
      )
