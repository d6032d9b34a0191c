-- ===== src/Seed/Total.antt =====
-- How a run of the seed can fail.
use nestjs_api_starter.Prelude.{ℕ, String, ◌≡◌, refl, ◌⊎◌, inl, inr, List, [], ◌∷◌, or_default}
use nestjs_api_starter.Effects.{
  Exception, Result, ok, err, Eff, Tx, exec, lift, pure, ◌>>=◌, ◌>>◌, Result-cases,
}
use nestjs_api_starter.Json.{units}
use nestjs_api_starter.Names.{permission_name_pattern, after_resource, role_name_pattern}
use nestjs_api_starter.Directory.{Directory, User, Role, Permission}
use nestjs_api_starter.Seed.{
  Upserts, permissions, SeedEnv, check_names, activate_permission, new_permission, activate_role,
  new_role, reset_user, new_user, ids_of, profile_only, seed_permissions, seed_roles, seed_admin,
  main,
}

-- The effect returns, or fails with an error of the kind.
abbrev pub Outcome : {S A : Type 0} → (Exception → Type 0) → Result A × S → Type 0
Outcome {S} {A} Fails r =
    ((a : A) × (s : S) × (r ≡ (ok a, s))) ⊎ ((e : Exception) × (s : S) × (r ≡ (err e, s)) × Fails e)

module _ {S A B : Type 0} (Fails : Exception → Type 0) where
  >>=-Outcome :
      (m : Eff S A) (f : A → Eff S B) (s : S)
      → Outcome Fails (m s)
      → ((a : A) (s₁ : S) → Outcome Fails (f a s₁))
      → Outcome Fails ((m >>= f) s)
  >>=-Outcome m f s (inl (a, s₁, e)) next = rw e (next a s₁)
  >>=-Outcome m f s (inr (x, s₁, e, h)) next = inr (x, s₁, rw e refl, h)

module _ {S A : Type 0} (Fails : Exception → Type 0) where
  exec-Outcome :
      (t : Tx S A) (s : S) → ((e : Exception) → t s ≡ err e → Fails e) → Outcome Fails (exec t s)
  exec-Outcome t s h = elim (Result-cases (t s)) [
    | inl ((a, s₁), e) ↦ inl (a, s₁, rw e refl)
    | inr (x, e) ↦ inr (x, s, rw e refl, h x e)
  ]

  lift-Outcome :
      (r : Result A) (s : S) → ((e : Exception) → r ≡ err e → Fails e) → Outcome Fails (lift r s)
  lift-Outcome (ok a) s h = inl (a, s, refl)
  lift-Outcome (err e) s h = inr (e, s, refl, h e refl)

names_match : check_names permissions ≡ ok tt
unfolding permission_name_pattern after_resource role_name_pattern units
names_match = refl

module _ (d : Directory) (prisma : Upserts d) (hash : String → Result String) (now : ℕ) where
  -- The error of bcrypt or of an upsert.
  abbrev pub CallFails : Exception → Type 0
  CallFails e =
      ((password : String) × (hash password ≡ err e))
      ⊎ ((name : String) × (s : d.State) × (prisma.upsert_permission name (activate_permission now)
              (new_permission name now) s
            ≡ err e))
      ⊎ ((name : String) × (description : String) × (ids : List String) × (s : d.State)
          × (prisma.upsert_role name (activate_role now) (new_role name description now) ids s
              ≡ err e))
      ⊎ ((email : String) × (name : String) × (password_hash : String) × (ids : List String)
          × (s : d.State) × (prisma.upsert_user email (reset_user name password_hash now)
                (new_user email name password_hash now) ids s
              ≡ err e))

  abbrev permission_call : String → Tx d.State Permission
  permission_call name =
      prisma.upsert_permission name (activate_permission now) (new_permission name now)

  abbrev role_call : String → String → List String → Tx d.State Role
  role_call name description =
      prisma.upsert_role name (activate_role now) (new_role name description now)

  abbrev user_call : String → String → String → List String → Tx d.State User
  user_call email name password_hash =
      prisma.upsert_user email (reset_user name password_hash now)
        (new_user email name password_hash now)

  seed_permissions-Outcome :
      (names : List String) (s : d.State)
      → Outcome CallFails (seed_permissions d prisma hash now names s)
  unfolding seed_permissions
  seed_permissions-Outcome [] s = inl ([], s, refl)
  seed_permissions-Outcome (name ∷ names) s =
      >>=-Outcome CallFails (exec (permission_call name))
        (λ p. seed_permissions d prisma hash now names >>= λ ps. pure (p ∷ ps)) s
        (exec-Outcome CallFails (permission_call name) s (λ e h. inr (inl (name, s, h))))
        (λ p s₁.
          >>=-Outcome CallFails (seed_permissions d prisma hash now names) (λ ps. pure (p ∷ ps)) s₁
            (seed_permissions-Outcome names s₁) (λ ps s₂. inl (p ∷ ps, s₂, refl)))

  role_call-Outcome :
      (name description : String) (ids : List String) (s : d.State)
      → Outcome CallFails (exec (role_call name description ids) s)
  role_call-Outcome name description ids s =
      exec-Outcome CallFails (role_call name description ids) s
        (λ e h. inr (inr (inl (name, description, ids, s, h))))

  seed_roles-Outcome :
      (records : List Permission) (s : d.State)
      → Outcome CallFails (seed_roles d prisma hash now records s)
  seed_roles-Outcome records s =
      let first : Eff d.State Role =
        exec (role_call "admin" "Administrator with full access" (ids_of records)) in
      let second : Eff d.State Role =
        exec (role_call "user" "Default authenticated user" (ids_of (profile_only records))) in
      >>=-Outcome CallFails first (λ admin. second >> pure admin) s
        (role_call-Outcome "admin" "Administrator with full access" (ids_of records) s)
        (λ admin s₁.
          >>=-Outcome CallFails second (λ _. pure admin) s₁
            (role_call-Outcome "user" "Default authenticated user" (ids_of (profile_only records))
              s₁)
            (λ r s₂. inl (admin, s₂, refl)))

  seed_admin-Outcome :
      (email password name : String) (role : Role) (s : d.State)
      → Outcome CallFails (seed_admin d prisma hash now email password name role s)
  seed_admin-Outcome email password name role s =
      let upsert : String → Eff d.State User = λ h. exec (user_call email name h (role.id ∷ [])) in
      >>=-Outcome CallFails (lift (hash password)) (λ h. upsert h >> pure tt) s
        (lift-Outcome CallFails (hash password) s (λ e h. inl (password, h)))
        (λ h s₁.
          >>=-Outcome CallFails (upsert h) (λ _. pure tt) s₁
            (exec-Outcome CallFails (user_call email name h (role.id ∷ [])) s₁
              (λ e failed. inr (inr (inr (email, name, h, role.id ∷ [], s₁, failed)))))
            (λ u s₂. inl (tt, s₂, refl)))

  -- A run of the seed succeeds, or fails with the error of bcrypt or of one of its upserts; so the
  -- check of the permissions' names never fails.
  pub main-Outcome :
      (env : SeedEnv) (s : d.State) → Outcome CallFails (main d prisma hash now env s)
  unfolding main
  main-Outcome env s =
      let finish : Role → Eff d.State (Unit {0}) =
        seed_admin d prisma hash now (or_default env.admin_email "admin@example.com")
          (or_default env.admin_password "change-me-password")
          (or_default env.admin_name "Admin") in
      let roles : List Permission → Eff d.State (Unit {0}) =
        λ records. seed_roles d prisma hash now records >>= finish in
      rw names_match (
        >>=-Outcome CallFails (seed_permissions d prisma hash now permissions) roles s
          (seed_permissions-Outcome permissions s)
          (λ records s₁.
            >>=-Outcome CallFails (seed_roles d prisma hash now records) finish s₁
              (seed_roles-Outcome records s₁) (λ admin s₂. seed_admin-Outcome _ _ _ admin s₂)))
