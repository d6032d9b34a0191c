-- ===== src/Seed.antt =====
-- prisma/seed.ts. The upserts of the Prisma client, which is not in the repository, are an
-- interface on the tables, with what Prisma documents of them as laws; bcrypt is a parameter. The
-- upserts of the permissions, which run at once under `Promise.all` and are on different rows, are
-- made one after the other.
pub mod Upserted
pub mod Run
pub mod Steps
pub mod Total
pub mod Granted
pub mod Memory
pub mod Tests
use nestjs_api_starter.Prelude.{
  ℕ, String, ◌≡◌, ◌≢◌, ◌⊎◌, Bool, true, false, Option, none, some, List, [], ◌∷◌, map, All, IsIn,
  keep, any, every, change, str_eq, or_default, if◌then◌else◌,
}
use text.Mathlib.Text.{starts_with}
use nestjs_api_starter.Effects.{
  Exception, Result, ok, err, other, Eff, Tx, exec, pure, lift, ◌>>=◌, ◌>>◌,
}
use nestjs_api_starter.Json.{units}
use nestjs_api_starter.Names.{permission_name_pattern}
use nestjs_api_starter.Directory.{Directory, User, Role, Permission}

-- `upsert` by a unique column: the row that has the key is updated, or one is created.
abbrev pub Upserted :
    {Row : Type 0}
    → (Row → String)
    → String
    → (Row → Row)
    → (String → Row)
    → List Row
    → List Row
    → Row
    → Type 0
Upserted {Row} key_of key f mk before after row =
    ((old : Row) × IsIn old before
      × (key_of old ≡ key)
      × (row ≡ f old)
      × (after ≡ change (λ x. str_eq (key_of x) key) f before))
    ⊎ ((id : String) × (row ≡ mk id)
        × (after ≡ mk id ∷ before)
        × All (λ x. str_eq (key_of x) key ≡ false) before)

-- The last argument of two of the calls is the list of ids that `set` or `connect` names.
pub record Upserts (d : Directory) : Type 1 where
  pub upsert_permission :
      String → (Permission → Permission) → (String → Permission) → Tx d.State Permission
  pub upsert_role : String → (Role → Role) → (String → Role) → List String → Tx d.State Role
  pub upsert_user : String → (User → User) → (String → User) → List String → Tx d.State User
  pub upsert_permission_law :
      (name : String) (f : Permission → Permission) (mk : String → Permission) (s : d.State)
      → ((p : Permission) × (s' : d.State) × (upsert_permission name f mk s ≡ ok (p, s'))
          × Upserted (λ (x : Permission). x.name) name f mk (d.permissions s) (d.permissions s') p)
        ⊎ ((e : Exception) × (upsert_permission name f mk s ≡ err e))
  pub upsert_role_law :
      (name : String) (f : Role → Role) (mk : String → Role) (ids : List String) (s : d.State)
      → ((r : Role) × (s' : d.State) × (upsert_role name f mk ids s ≡ ok (r, s'))
          × Upserted (λ (x : Role). x.name) name f mk (d.roles s) (d.roles s') r
          × (d.permissions s' ≡ d.permissions s)
          × ((p : String) → d.has_permission s' r.id p ≡ any (λ id. str_eq id p) ids)
          × ((x : Role) (p : String)
              → IsIn x (d.roles s)
              → x.name ≢ name
              → d.has_permission s' x.id p ≡ d.has_permission s x.id p))
        ⊎ ((e : Exception) × (upsert_role name f mk ids s ≡ err e))
  pub upsert_user_law :
      (email : String) (f : User → User) (mk : String → User) (ids : List String) (s : d.State)
      → ((u : User) × (s' : d.State) × (upsert_user email f mk ids s ≡ ok (u, s'))
          × Upserted (λ (x : User). x.email) email f mk (d.users s) (d.users s') u
          × (d.roles s' ≡ d.roles s)
          × (d.permissions s' ≡ d.permissions s)
          × ((r p : String) → d.has_permission s' r p ≡ d.has_permission s r p)
          × ((r : String) → d.has_role s' u.id r ≡ any (λ id. str_eq id r) ids))
        ⊎ ((e : Exception) × (upsert_user email f mk ids s ≡ err e))

abbrev pub permissions : List String
permissions =
    "users:read" ∷ "users:write" ∷ "roles:read" ∷ "roles:write" ∷ "permissions:read"
    ∷ "permissions:write" ∷ "profile:read" ∷ "profile:write" ∷ []

-- SEED_ADMIN_EMAIL, SEED_ADMIN_PASSWORD and SEED_ADMIN_NAME of `process.env`
pub record SeedEnv : Type 0 where
  pub admin_email : Option String
  pub admin_password : Option String
  pub admin_name : Option String

abbrev pub check_names : List String → Result (Unit {0})
check_names [] = ok tt
check_names (name ∷ names) =
    let rest = check_names names in
    if permission_name_pattern (units name) then rest else err (other "Invalid permission")

abbrev pub activate_permission : ℕ → Permission → Permission
activate_permission now p = record p { is_active = true; updated_at = now }

abbrev pub new_permission : String → ℕ → String → Permission
new_permission name now id = record {
  id = id;
  name = name;
  description = none;
  is_active = true;
  created_at = now;
  updated_at = now;
}

abbrev pub activate_role : ℕ → Role → Role
activate_role now r = record r { is_active = true; updated_at = now }

abbrev pub new_role : String → String → ℕ → String → Role
new_role name description now id = record {
  id = id;
  name = name;
  description = some description;
  is_active = true;
  created_at = now;
  updated_at = now;
}

abbrev pub reset_user : String → String → ℕ → User → User
reset_user name password_hash now u = record u {
  name = some name;
  password_hash = password_hash;
  is_active = true;
  updated_at = now;
}

abbrev pub new_user : String → String → String → ℕ → String → User
new_user email name password_hash now id = record {
  id = id;
  email = email;
  password_hash = password_hash;
  name = some name;
  is_active = true;
  created_at = now;
  updated_at = now;
}

abbrev pub ids_of : List Permission → List String
ids_of = map (λ (p : Permission). p.id)

abbrev pub profile_only : List Permission → List Permission
profile_only = keep (λ (p : Permission). starts_with p.name "profile:")

module _ (d : Directory) (prisma : Upserts d) (hash : String → Result String) (now : ℕ) where
  unfoldable pub seed_permissions : List String → Eff d.State (List Permission)
  seed_permissions [] = pure []
  seed_permissions (name ∷ names) = do
    p ← exec (prisma.upsert_permission name (activate_permission now) (new_permission name now))
    ps ← seed_permissions names
    pure (p ∷ ps)

  abbrev pub seed_roles : List Permission → Eff d.State Role
  seed_roles records = do
    admin ← exec (
        prisma.upsert_role "admin" (activate_role now)
          (new_role "admin" "Administrator with full access" now) (ids_of records))
    exec (
        prisma.upsert_role "user" (activate_role now)
          (new_role "user" "Default authenticated user" now) (ids_of (profile_only records)))
    pure admin

  abbrev pub seed_admin : String → String → String → Role → Eff d.State (Unit {0})
  seed_admin email password name role = do
    password_hash ← lift (hash password)
    exec (
        prisma.upsert_user email (reset_user name password_hash now)
          (new_user email name password_hash now) (role.id ∷ []))
    pure tt

  unfoldable pub main : SeedEnv → Eff d.State (Unit {0})
  main env = do
    lift (check_names permissions)
    records ← seed_permissions permissions
    admin ← seed_roles records
    seed_admin (or_default env.admin_email "admin@example.com")
        (or_default env.admin_password "change-me-password") (or_default env.admin_name "Admin")
        admin
