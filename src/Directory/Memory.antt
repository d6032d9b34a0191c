-- ===== src/Directory/Memory.antt =====
-- A directory that keeps its tables in lists, for the concrete runs.
use nestjs_api_starter.Prelude.{
  String, ◌≡◌, refl, ◌∙◌, ◌⊎◌, inl, inr, Bool, true, false, Option, none, some, List, ◌∷◌, length,
  keep, change, All, IsIn, str_eq, eq_refl, eq_iff,
}
use nestjs_api_starter.Effects.{Exception, Result, ok, err, unique_violation, record_not_found}
use nestjs_api_starter.Pagination.Pages.{take, drop, index}
use nestjs_api_starter.Prisma.Memory.{first, first-cases, any-cases}
use nestjs_api_starter.Directory.{Directory, User, Role, Permission}
use nestjs_api_starter.Directory.Tables.{
  Tables, linked, keeps, insert_user, create, updated, update, role_updated, set_role, change_first,
  change_first-cases,
}

pub found-cases :
    (p : User → Bool) (s : Tables)
    → ((◌≡◌ {A = Result (Option User)} (ok (first p s.users)) (ok none))
        × All (λ u. p u ≡ false) s.users)
      ⊎ ((u : User) × (◌≡◌ {A = Result (Option User)} (ok (first p s.users)) (ok (some u)))
          × IsIn u s.users
          × (p u ≡ true))
      ⊎ ((e : Exception) × (◌≡◌ {A = Result (Option User)} (ok (first p s.users)) (err e)))
found-cases p s = elim (first-cases p s.users) [
  | inl (e, h) ↦ inl (cc, h)
  | inr (u, e, i, h) ↦ inr (inl (u, cc, i, h))
]

some_injective : {A : Type 0} {a b : A} → some a ≡ some b → a ≡ b
some_injective e = cc

linked-first : (pairs : List (String × String)) (a b : String) → linked ((a, b) ∷ pairs) a b ≡ true
linked-first pairs a b = rw (eq_refl a, eq_refl b) refl

abbrev Inserted : User → Option String → Tables → Result (User × Tables) → Type 0
Inserted user connect s r =
    ((s' : Tables) × (r ≡ ok (user, s'))
      × (s'.users ≡ user ∷ s.users)
      × (s'.roles ≡ s.roles)
      × ((name : String)
          → connect ≡ some name
          → (role : Role) × IsIn role s.roles
            × (role.name ≡ name)
            × (linked s'.user_roles user.id role.id ≡ true)))
    ⊎ ((e : Exception) × (r ≡ err e))

insert_user-cases :
    (user : User) (connect : Option String) (s : Tables)
    → Inserted user connect s (insert_user user connect s)
insert_user-cases user none s =
    inl (record s { users = user ∷ s.users }, refl, refl, refl, λ name e. absurd cc)
insert_user-cases user (some name) s =
    elim (first-cases (λ (role : Role). str_eq role.name name) s.roles) [
      | inl (e, h) ↦ inr (record_not_found, rw (insert_user, e) refl)
      | inr (role, e, i, h) ↦ inl (
        record s { users = user ∷ s.users; user_roles = (user.id, role.id) ∷ s.user_roles },
        rw (insert_user, e) refl,
        refl,
        refl,
        λ other same.
            let names : name ≡ other = some_injective same in
            (
              role,
              i,
              (eq_iff role.name name).0 h ∙ names,
              linked-first s.user_roles user.id role.id,
            ),
      )
    ]

pub create-cases :
    (mk : String → User) (connect : Option String) (s : Tables)
    → ((id : String) × (s' : Tables) × (create mk connect s ≡ ok (mk id, s'))
        × (s'.users ≡ mk id ∷ s.users)
        × (s'.roles ≡ s.roles)
        × All (λ (u : User). str_eq u.email (mk id).email ≡ false) s.users
        × ((name : String)
            → connect ≡ some name
            → (role : Role) × IsIn role s.roles
              × (role.name ≡ name)
              × (linked s'.user_roles (mk id).id role.id ≡ true)))
      ⊎ ((e : Exception) × (create mk connect s ≡ err e))
create-cases mk connect s =
    elim (any-cases (λ (u : User). str_eq u.email (mk "new").email) s.users) [
      | inl (taken, i) ↦ inr (unique_violation, rw taken refl)
      | inr (clear, apart) ↦ elim (insert_user-cases (mk "new") connect s) [
        | inl (s', e, us, rs, links) ↦ inl ("new", s', rw clear e, us, rs, apart, links)
        | inr (x, e) ↦ inr (x, rw clear e)
      ]
    ]

pub update-cases :
    (id : String) (f : User → User) (role_ids : Option (List String)) (s : Tables)
    → ((u : User) × (s' : Tables) × (update id f role_ids s ≡ ok (f u, s'))
        × IsIn u s.users
        × (str_eq u.id id ≡ true)
        × (s'.users ≡ change (λ (x : User). str_eq x.id id) f s.users))
      ⊎ ((e : Exception) × (update id f role_ids s ≡ err e))
update-cases id f role_ids s =
    elim (change_first-cases (λ (u : User). str_eq u.id id) s.users f (updated id f role_ids s)) [
      | inl (u, e, i, h) ↦ inl (u, updated id f role_ids s, e, i, h, refl)
      | inr (x, e) ↦ inr (x, e)
    ]

pub set_role-cases :
    (id : String) (f : Role → Role) (s : Tables)
    → ((r : Role) × (s' : Tables) × (set_role id f s ≡ ok (f r, s'))
        × IsIn r s.roles
        × (str_eq r.id id ≡ true)
        × (s'.roles ≡ change (λ (x : Role). str_eq x.id id) f s.roles))
      ⊎ ((e : Exception) × (set_role id f s ≡ err e))
set_role-cases id f s =
    elim (change_first-cases (λ (r : Role). str_eq r.id id) s.roles f (role_updated id f s)) [
      | inl (r, e, i, h) ↦ inl (r, role_updated id f s, e, i, h, refl)
      | inr (x, e) ↦ inr (x, e)
    ]

abbrev pub directory : Directory
directory = record {
  State = Tables;
  users = λ s. s.users;
  roles = λ s. s.roles;
  permissions = λ s. s.permissions;
  has_role = λ s. linked s.user_roles;
  has_permission = λ s. linked s.role_permissions;
  find_user = λ p s. ok (first p s.users);
  page_of_users =
      λ skip number s. ok (take (index number) (drop (index skip) s.users), length s.users);
  find_roles = λ o p s. ok (keep p s.roles);
  find_permissions = λ o p s. ok (keep p s.permissions);
  create_user = create;
  update_user = update;
  create_role = λ mk s. ok (mk "new", record s { roles = mk "new" ∷ s.roles });
  update_role = set_role;
  create_permission = λ mk s. ok (mk "new", record s { permissions = mk "new" ∷ s.permissions });
  update_permission = λ id f s.
      change_first (first (λ (r : Permission). str_eq r.id id) s.permissions) f
        (record s { permissions = change (λ r. str_eq r.id id) f s.permissions });
  find_user_law = found-cases;
  page_of_users_law = λ skip number s. inl (s.users, refl, refl);
  find_roles_law = λ o. keeps (λ (s : Tables). s.roles);
  find_permissions_law = λ o. keeps (λ (s : Tables). s.permissions);
  create_user_law = create-cases;
  update_user_law = update-cases;
  update_role_law = set_role-cases;
}
