-- ===== src/Directory/Tables.antt =====
-- The tables of a directory as lists, and the calls of the client on them.
use nestjs_api_starter.Prelude.{
  String, ◌≡◌, refl, sym, ap, ◌∙◌, ◌⊎◌, inl, inr, Bool, true, false, ◌&&◌, Option, none, some, List,
  [], ◌∷◌, keep, change, any, IsIn, str_eq, Bool-cases, if◌then◌else◌,
}
use nestjs_api_starter.Effects.{Exception, Result, ok, err, Tx, unique_violation, record_not_found}
use nestjs_api_starter.Prisma.Memory.{first, first-cases}
use nestjs_api_starter.Directory.{User, Role, Permission, FindsMany}

-- The tables; a pair of ids in a relation's list is a row of its join table.
pub record Tables : Type 0 where
  pub users : List User
  pub roles : List Role
  pub permissions : List Permission
  pub user_roles : List (String × String)
  pub role_permissions : List (String × String)

abbrev pub linked : List (String × String) → String → String → Bool
linked pairs a b = any (λ p. str_eq p.0 a && str_eq p.1 b) pairs

module _ {Row : Type 0} where
  pub keep-IsIn :
      (p : Row → Bool) (r : Row) (rs : List Row) → IsIn r (keep p rs) → IsIn r rs × (p r ≡ true)
  keep-IsIn p r [] i = absurd i
  keep-IsIn p r (x ∷ xs) i = elim (Bool-cases (p x)) [
    | inl holds ↦
        let j : (x ≡ r) ⊎ IsIn r (keep p xs) = rw holds at i in
        elim j [
          | inl e ↦ (inl e, ap p (sym e) ∙ holds)
          | inr k ↦ let (l, h) = keep-IsIn p r xs k in (inr l, h)
        ]
    | inr fails ↦ let (j, h) = keep-IsIn p r xs (rw fails at i) in (inr j, h)
  ]

  IsIn-keep :
      (p : Row → Bool) (r : Row) (rs : List Row) → IsIn r rs → p r ≡ true → IsIn r (keep p rs)
  IsIn-keep p r [] i h = absurd i
  IsIn-keep p r (x ∷ xs) (inl e) h = let holds : p x ≡ true = ap p e ∙ h in rw holds (inl e)
  IsIn-keep p r (x ∷ xs) (inr i) h = elim (Bool-cases (p x)) [
    | inl holds ↦ rw holds (inr (IsIn-keep p r xs i h))
    | inr fails ↦ rw fails (IsIn-keep p r xs i h)
  ]

  pub keeps : {S : Type 0} (rows : S → List Row) → FindsMany rows (λ p s. ok (keep p (rows s)))
  keeps rows p s =
      inl
        (keep p (rows s), refl, λ r. (keep-IsIn p r (rows s), λ h. IsIn-keep p r (rows s) h.0 h.1))

abbrev pub insert_user : User → Option String → Tx Tables User
insert_user user none s = ok (user, record s { users = user ∷ s.users })
insert_user user (some name) s = elim (first (λ (role : Role). str_eq role.name name) s.roles) [
  | none ↦ err record_not_found
  | some role ↦
      ok (user, record s { users = user ∷ s.users; user_roles = (user.id, role.id) ∷ s.user_roles })
]

abbrev pub create : (String → User) → Option String → Tx Tables User
create mk connect s =
    let user = mk "new" in
    if any (λ u. str_eq u.email user.email) s.users
    then err unique_violation
    else insert_user user connect s

abbrev pub set_roles :
    String → Option (List String) → List (String × String) → List (String × String)
set_roles id none pairs = pairs
set_roles id (some []) pairs = keep (λ p. if str_eq p.0 id then false else true) pairs
set_roles id (some (r ∷ rs)) pairs = (id, r) ∷ set_roles id (some rs) pairs

abbrev pub change_first : {Row : Type 0} → Option Row → (Row → Row) → Tables → Result (Row × Tables)
change_first none f s = err record_not_found
change_first (some r) f s = ok (f r, s)

abbrev pub updated : String → (User → User) → Option (List String) → Tables → Tables
updated id f role_ids s = record s {
  users = change (λ u. str_eq u.id id) f s.users;
  user_roles = set_roles id role_ids s.user_roles;
}

abbrev pub update : String → (User → User) → Option (List String) → Tx Tables User
update id f role_ids s =
    change_first (first (λ (u : User). str_eq u.id id) s.users) f (updated id f role_ids s)

abbrev pub role_updated : String → (Role → Role) → Tables → Tables
role_updated id f s = record s { roles = change (λ r. str_eq r.id id) f s.roles }

abbrev pub set_role : String → (Role → Role) → Tx Tables Role
set_role id f s =
    change_first (first (λ (r : Role). str_eq r.id id) s.roles) f (role_updated id f s)

pub change_first-cases :
    {Row : Type 0} (p : Row → Bool) (rs : List Row) (f : Row → Row) (s : Tables)
    → ((r : Row) × (change_first (first p rs) f s ≡ ok (f r, s)) × IsIn r rs × (p r ≡ true))
      ⊎ ((e : Exception) × (change_first (first p rs) f s ≡ err e))
change_first-cases p rs f s = elim (first-cases p rs) [
  | inl (e, h) ↦ inr (record_not_found, rw e refl)
  | inr (r, e, i, h) ↦ inl (r, rw e refl, i, h)
]
