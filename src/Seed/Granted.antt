-- ===== src/Seed/Granted.antt =====
-- Whom the seed grants what.
use nestjs_api_starter.Prelude.{
  ℕ, String, ◌≡◌, refl, sym, ◌∙◌, subst, inl, inr, true, All-IsIn, IsIn, any-IsIn, IsIn-any,
  map-IsIn, IsIn-map, Apart, str_eq, eq_iff, eq_refl, or_default,
}
use text.Mathlib.Text.{starts_with}
use nestjs_api_starter.Effects.{Result, ok}
use nestjs_api_starter.Directory.{Directory, User, Role, Permission}
use nestjs_api_starter.Directory.Tables.{keep-IsIn}
use nestjs_api_starter.Roles.Grants.{Holds, HasRole, IsGranted}
use nestjs_api_starter.Api.{
  users, auth, roles, health, Handler, find_many, get_user, update_user, deactivate_user,
  get_current_user, update_current_user, register, login, refresh, logout, me, live, ready,
  RolesController, PermissionsController,
}
use nestjs_api_starter.Api
use nestjs_api_starter.Api.Policy.{policy, admin_with}
use nestjs_api_starter.Seed.{Upserts, permissions, SeedEnv, ids_of, profile_only, main}
use nestjs_api_starter.Seed.Run.{seed_permissions-IsIn}
use nestjs_api_starter.Seed.Steps.{main-Steps}

-- The names of the seed are different.
permissions-Apart : Apart str_eq permissions
permissions-Apart = (
  (refl, (refl, (refl, (refl, (refl, (refl, (refl, tt))))))),
  (
    (refl, (refl, (refl, (refl, (refl, (refl, tt)))))),
    (
      (refl, (refl, (refl, (refl, (refl, tt))))),
      (
        (refl, (refl, (refl, (refl, tt)))),
        ((refl, (refl, (refl, tt))), ((refl, (refl, tt)), ((refl, tt), (tt, tt)))),
      ),
    ),
  ),
)

names : {q p : String} → admin_with q ≡ admin_with p → q ≡ p
names e = cc

-- What the routes require is seeded.
policy-IsIn : (h : Handler) (p : String) → policy h ≡ admin_with p → IsIn p permissions
policy-IsIn (users find_many) p e = inl (names e)
policy-IsIn (users get_user) p e = inl (names e)
policy-IsIn (users update_user) p e = inr (inl (names e))
policy-IsIn (users deactivate_user) p e = inr (inl (names e))
policy-IsIn (roles RolesController.find_all) p e = inr (inr (inl (names e)))
policy-IsIn (roles RolesController.create) p e = inr (inr (inr (inl (names e))))
policy-IsIn (roles RolesController.update) p e = inr (inr (inr (inl (names e))))
policy-IsIn (Api.permissions PermissionsController.find_all) p e =
    inr (inr (inr (inr (inl (names e)))))
policy-IsIn (Api.permissions PermissionsController.create) p e =
    inr (inr (inr (inr (inr (inl (names e))))))
policy-IsIn (Api.permissions PermissionsController.update) p e =
    inr (inr (inr (inr (inr (inl (names e))))))
policy-IsIn (users get_current_user) p e = absurd cc
policy-IsIn (users update_current_user) p e = absurd cc
policy-IsIn (auth register) p e = absurd cc
policy-IsIn (auth login) p e = absurd cc
policy-IsIn (auth refresh) p e = absurd cc
policy-IsIn (auth logout) p e = absurd cc
policy-IsIn (auth me) p e = absurd cc
policy-IsIn (health h) p e = absurd cc

module _ (d : Directory) (prisma : Upserts d) (hash : String → Result String) (now : ℕ) where
  -- After a run of the seed that succeeds, the account with the address of the configuration, or
  -- the default one, is active, has the active role admin, and is granted the permission of every
  -- management route of the API.
  pub main-IsGranted :
      (env : SeedEnv) (s s' : d.State)
      → main d prisma hash now env s ≡ (ok tt, s')
      → (u : User) × IsIn u (d.users s')
        × (u.email ≡ or_default env.admin_email "admin@example.com")
        × (u.is_active ≡ true)
        × HasRole d s' u.id "admin"
        × ((h : Handler) (p : String) → policy h ≡ admin_with p → IsGranted d s' u.id p)
  main-IsGranted env s s' e =
      let (records, admin, member, u, s₁, s₂, s₃, seeded, of_admin, of_member, of_user) =
        main-Steps d prisma hash now env s s' e in
      let (listed, named, active, perms₂, has₂, others₂) = of_admin in
      let (listed', named', active', perms₃, has₃, others₃) = of_member in
      let (user_listed, email, user_active, roles₄, perms₄, has₄, links) = of_user in
      let (admin_stays, admin_has) = others₃ admin listed (rw named refl) in
      let (all_records, names) =
        seed_permissions-IsIn d prisma hash now permissions s s₁ records permissions-Apart seeded in
      let holds : Holds d s' u.id admin = record {
        user = u;
        listed = rw roles₄ admin_stays;
        active = active;
        user_listed = user_listed;
        user_id_is = refl;
        user_active = user_active;
        assigned = links admin.id ∙ rw (eq_refl admin.id) refl;
      } in
      (
        u,
        user_listed,
        email,
        user_active,
        (admin, holds, named),
        λ h p is.
            let (x, i, x_named) =
              IsIn-map (λ (p : Permission). p.name) p records
                (subst (λ ns. IsIn p ns) (sym names) (policy-IsIn h p is)) in
            let (x_listed, x_active) =
              All-IsIn (λ x. IsIn x (d.permissions s₁) × (x.is_active ≡ true)) x records all_records
                i in
            record {
              permission = x;
              role = admin;
              named = x_named;
              listed = rw (perms₄, perms₃, perms₂) x_listed;
              active = x_active;
              holds = holds;
              granted =
                  has₄ admin.id x.id
                  ∙ admin_has x.id
                  ∙ has₂ x.id
                  ∙ IsIn-any (λ id. str_eq id x.id) x.id (ids_of records)
                      (map-IsIn (λ (p : Permission). p.id) x records i) (eq_refl x.id);
            },
      )

  -- After a run of the seed that succeeds, there is an active role user, and every permission
  -- that it has is one whose name begins with 'profile:'.
  pub main-profile :
      (env : SeedEnv) (s s' : d.State)
      → main d prisma hash now env s ≡ (ok tt, s')
      → (member : Role) × IsIn member (d.roles s')
        × (member.name ≡ "user")
        × (member.is_active ≡ true)
        × ((id : String)
            → d.has_permission s' member.id id ≡ true
            → (x : Permission) × IsIn x (d.permissions s')
              × (x.id ≡ id)
              × (starts_with x.name "profile:" ≡ true))
  main-profile env s s' e =
      let (records, admin, member, u, s₁, s₂, s₃, seeded, of_admin, of_member, of_user) =
        main-Steps d prisma hash now env s s' e in
      let (listed, named, active, perms₂, has₂, others₂) = of_admin in
      let (listed', named', active', perms₃, has₃, others₃) = of_member in
      let (user_listed, email, user_active, roles₄, perms₄, has₄, links) = of_user in
      let (all_records, names) =
        seed_permissions-IsIn d prisma hash now permissions s s₁ records permissions-Apart seeded in
      (
        member,
        rw roles₄ listed',
        named',
        active',
        λ id granted.
            let (y, i, same) =
              any-IsIn (λ x. str_eq x id) (ids_of (profile_only records))
                (sym (has₄ member.id id ∙ has₃ id) ∙ granted) in
            let (x, j, is) = IsIn-map (λ (p : Permission). p.id) y (profile_only records) i in
            let (listed_record, of_profile) =
              keep-IsIn (λ (p : Permission). starts_with p.name "profile:") x records j in
            let (x_listed, x_active) =
              All-IsIn (λ x. IsIn x (d.permissions s₁) × (x.is_active ≡ true)) x records all_records
                listed_record in
            (x, rw (perms₄, perms₃, perms₂) x_listed, is ∙ (eq_iff y id).0 same, of_profile),
      )
