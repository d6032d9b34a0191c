-- ===== src/Directory.antt =====
-- The tables of users, roles and permissions in prisma/schema.prisma with the two relations between
-- them, and the generated Prisma client on them, which is not in the repository, as an interface.
-- `where` objects are tests on rows. Each law is what Prisma documents of the call: any call may
-- fail, and one that fails changes nothing.
pub mod Tables
pub mod Memory
pub mod Sample
pub mod Lookup
use nestjs_api_starter.Prelude.{
  ℕ, String, ◌≡◌, ◌≢◌, ◌↔◌, ◌⊎◌, Bool, true, false, ◌||◌, ◌&&◌, Option, none, some, List, ◌∷◌, [],
  length, any, change, IsIn, All, str_eq,
}
use nestjs_api_starter.Number.{Number}
use nestjs_api_starter.Effects.{Exception, Result, ok, err, Tx}
use nestjs_api_starter.Pagination.Pages.{take, drop, index}

pub record User : Type 0 where
  pub id : String
  pub email : String
  pub password_hash : String
  pub name : Option String
  pub is_active : Bool
  pub created_at : ℕ
  pub updated_at : ℕ

pub record Role : Type 0 where
  pub id : String
  pub name : String
  pub description : Option String
  pub is_active : Bool
  pub created_at : ℕ
  pub updated_at : ℕ

pub record Permission : Type 0 where
  pub id : String
  pub name : String
  pub description : Option String
  pub is_active : Bool
  pub created_at : ℕ
  pub updated_at : ℕ

-- `orderBy`
pub data Order : Type 0 where
  unordered : Order
  by_name : Order

-- The call finds the rows that pass the test, in some order, or fails.
abbrev pub FindsMany :
    {S Row : Type 0} → (S → List Row) → ((Row → Bool) → S → Result (List Row)) → Type 0
FindsMany {S} {Row} rows find =
    (p : Row → Bool) (s : S)
    → ((found : List Row) × (find p s ≡ ok found)
        × ((r : Row) → IsIn r found ↔ (IsIn r (rows s) × (p r ≡ true))))
      ⊎ ((e : Exception) × (find p s ≡ err e))

pub record Directory : Type 1 where
  pub State : Type 0
  pub users : State → List User
  pub roles : State → List Role
  pub permissions : State → List Permission
  -- the relation User.roles: a user's id and a role's id
  pub has_role : State → String → String → Bool
  -- the relation Role.permissions: a role's id and a permission's id
  pub has_permission : State → String → String → Bool
  pub find_user : (User → Bool) → State → Result (Option User)
  -- `findMany` with `skip` and `take`, the latest first, and `count`, in one transaction
  pub page_of_users : (skip take : Number) → State → Result (List User × ℕ)
  pub find_roles : Order → (Role → Bool) → State → Result (List Role)
  pub find_permissions : Order → (Permission → Bool) → State → Result (List Permission)
  -- the generated id comes from the client; the second argument is the name of a role to connect
  pub create_user : (String → User) → Option String → Tx State User
  -- the third argument is the list of role ids to set
  pub update_user : String → (User → User) → Option (List String) → Tx State User
  pub create_role : (String → Role) → Tx State Role
  pub update_role : String → (Role → Role) → Tx State Role
  pub create_permission : (String → Permission) → Tx State Permission
  pub update_permission : String → (Permission → Permission) → Tx State Permission
  pub find_user_law :
      (p : User → Bool) (s : State)
      → ((find_user p s ≡ ok none) × All (λ u. p u ≡ false) (users s))
        ⊎ ((u : User) × (find_user p s ≡ ok (some u)) × IsIn u (users s) × (p u ≡ true))
        ⊎ ((e : Exception) × (find_user p s ≡ err e))
  pub page_of_users_law :
      (skip number : Number) (s : State)
      → ((ordered : List User) × (length ordered ≡ length (users s))
          × (page_of_users skip number s
              ≡ ok (take (index number) (drop (index skip) ordered), length (users s))))
        ⊎ ((e : Exception) × (page_of_users skip number s ≡ err e))
  pub find_roles_law : (o : Order) → FindsMany roles (find_roles o)
  pub find_permissions_law : (o : Order) → FindsMany permissions (find_permissions o)
  pub create_user_law :
      (mk : String → User) (connect : Option String) (s : State)
      → ((id : String) × (s' : State) × (create_user mk connect s ≡ ok (mk id, s'))
          × (users s' ≡ mk id ∷ users s)
          × (roles s' ≡ roles s)
          × All (λ u. str_eq u.email (mk id).email ≡ false) (users s)
          × ((name : String)
              → connect ≡ some name
              → (role : Role) × IsIn role (roles s)
                × (role.name ≡ name)
                × (has_role s' (mk id).id role.id ≡ true)))
        ⊎ ((e : Exception) × (create_user mk connect s ≡ err e))
  pub update_user_law :
      (id : String) (f : User → User) (role_ids : Option (List String)) (s : State)
      → ((u : User) × (s' : State) × (update_user id f role_ids s ≡ ok (f u, s'))
          × IsIn u (users s)
          × (str_eq u.id id ≡ true)
          × (users s' ≡ change (λ x. str_eq x.id id) f (users s)))
        ⊎ ((e : Exception) × (update_user id f role_ids s ≡ err e))
  pub update_role_law :
      (id : String) (f : Role → Role) (s : State)
      → ((r : Role) × (s' : State) × (update_role id f s ≡ ok (f r, s'))
          × IsIn r (roles s)
          × (str_eq r.id id ≡ true)
          × (roles s' ≡ change (λ x. str_eq x.id id) f (roles s)))
        ⊎ ((e : Exception) × (update_role id f s ≡ err e))
