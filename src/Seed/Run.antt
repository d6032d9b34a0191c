-- ===== src/Seed/Run.antt =====
-- What a run of the seed that succeeds leaves in the tables.
use nestjs_api_starter.Prelude.{
  ℕ, String, ◌≡◌, refl, ap, sym, ◌∙◌, subst, inl, inr, true, false, List, [], ◌∷◌, map, All, Apart,
  IsIn, str_eq,
}
use nestjs_api_starter.Effects.{
  Result, ok, Eff, exec, ok_injective, err-ne-ok, exec-ok, >>=-ok, ◌>>=◌, pure,
}
use nestjs_api_starter.Directory.{Directory, Permission}
use nestjs_api_starter.Seed.{
  Upserts, Upserted, activate_permission, new_permission, seed_permissions,
}
use nestjs_api_starter.Seed.Upserted.{Upserted-IsIn, Upserted-stays, Upserted-holds}

module _ (d : Directory) (prisma : Upserts d) (hash : String → Result String) (now : ℕ) where
  upsert_permission-Upserted :
      (name : String) (s s' : d.State) (p : Permission)
      → prisma.upsert_permission name (activate_permission now) (new_permission name now) s
        ≡ ok (p, s')
      → Upserted
          (λ (x : Permission). x.name)
          name
          (activate_permission now)
          (new_permission name now)
          (d.permissions s)
          (d.permissions s')
          p
  upsert_permission-Upserted name s s' p e =
      elim (prisma.upsert_permission_law name (activate_permission now) (new_permission name now)
        s) [
          | inl (q, s₁, done, h) ↦
              let same = ok_injective (sym done ∙ e) in
              subst
                (λ (r : Permission × d.State).
                  Upserted (λ (x : Permission). x.name) name (activate_permission now)
                    (new_permission name now) (d.permissions s) (d.permissions r.1) r.0)
                same h
          | inr (x, failed) ↦ absurd (err-ne-ok (sym failed ∙ e))
        ]

  seed_permissions-cons :
      (name : String) (names : List String) (s s' : d.State) (ps : List Permission)
      → seed_permissions d prisma hash now (name ∷ names) s ≡ (ok ps, s')
      → (p : Permission) × (s₁ : d.State) × (qs : List Permission) × Upserted
          (λ (x : Permission). x.name)
          name
          (activate_permission now)
          (new_permission name now)
          (d.permissions s)
          (d.permissions s₁)
          p
        × (seed_permissions d prisma hash now names s₁ ≡ (ok qs, s'))
        × (ps ≡ p ∷ qs)
  unfolding seed_permissions
  seed_permissions-cons name names s s' ps e =
      let upsert : Eff d.State Permission =
        exec (prisma.upsert_permission name (activate_permission now) (new_permission name now)) in
      let (p, s₁, e₁, rest) =
        >>=-ok upsert (λ p. seed_permissions d prisma hash now names >>= λ qs. pure (p ∷ qs)) s s'
          ps e in
      let (qs, s₂, e₂, last) =
        >>=-ok (seed_permissions d prisma hash now names) (λ qs. pure (p ∷ qs)) s₁ s' ps rest in
      let state : s₂ ≡ s' = ap (λ (r : Result (List Permission) × d.State). r.1) last in
      (
        p,
        s₁,
        qs,
        upsert_permission-Upserted name s s₁ p (
            exec-ok
              (prisma.upsert_permission name (activate_permission now) (new_permission name now)) s
              s₁ p e₁),
        e₂ ∙ ap (λ x. (ok qs, x)) state,
        sym (ok_injective (ap (λ (r : Result (List Permission) × d.State). r.0) last)),
      )

  stays :
      (x : Permission) (names : List String) (s s' : d.State) (ps : List Permission)
      → All (λ name. str_eq x.name name ≡ false) names
      → seed_permissions d prisma hash now names s ≡ (ok ps, s')
      → IsIn x (d.permissions s)
      → IsIn x (d.permissions s')
  unfolding seed_permissions
  stays x [] s s' ps apart e i =
      subst (λ s. IsIn x (d.permissions s)) (ap (λ (r : Result (List Permission) × d.State). r.1) e)
        i
  stays x (name ∷ names) s s' ps apart e i =
      let (p, s₁, qs, up, rest, same) = seed_permissions-cons name names s s' ps e in
      stays x names s₁ s' qs apart.1 rest (
        Upserted-stays (λ (x : Permission). x.name) name (activate_permission now)
          (new_permission name now) (d.permissions s) (d.permissions s₁) p x apart.0 up i)

  -- Each record is an active row of the table, and the names are those that were asked for.
  pub seed_permissions-IsIn :
      (names : List String) (s s' : d.State) (ps : List Permission)
      → Apart str_eq names
      → seed_permissions d prisma hash now names s ≡ (ok ps, s')
      → All (λ p. IsIn p (d.permissions s') × (p.is_active ≡ true)) ps
        × (map (λ (p : Permission). p.name) ps ≡ names)
  unfolding seed_permissions
  seed_permissions-IsIn [] s s' ps apart e =
      let none_left : [] ≡ ps =
        ok_injective (ap (λ (r : Result (List Permission) × d.State). r.0) e) in
      rw (← none_left) (tt, refl)
  seed_permissions-IsIn (name ∷ names) s s' ps apart e =
      let (p, s₁, qs, up, rest, same) = seed_permissions-cons name names s s' ps e in
      let holds =
        Upserted-holds (λ (x : Permission). x.name) name (activate_permission now)
          (new_permission name now) (d.permissions s) (d.permissions s₁) p in
      let named : p.name ≡ name = holds (λ x. x.name ≡ name) up (λ old is. is) (λ id. refl) in
      let active : p.is_active ≡ true =
        holds (λ x. x.is_active ≡ true) up (λ old is. refl) (λ id. refl) in
      let listed =
        Upserted-IsIn (λ (x : Permission). x.name) name (activate_permission now)
          (new_permission name now) (d.permissions s) (d.permissions s₁) p up in
      let (all, names_are) = seed_permissions-IsIn names s₁ s' qs apart.1 rest in
      rw same (
        ((stays p names s₁ s' qs (rw named apart.0) rest listed, active), all),
        rw (named, names_are) refl,
      )
