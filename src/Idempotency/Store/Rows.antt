-- ===== src/Idempotency/Store/Rows.antt =====
-- The rows of the IdempotencyKey table that an identity has: at most one, by the unique constraint.
use nestjs_api_starter.Prelude.{
  ℕ, ◌≡◌, refl, ap, sym, subst, ◌∙◌, inl, inr, Bool, true, false, List, [], ◌∷◌, arith, Apart,
  Bool-cases, All, IsIn, eq_iff, All-IsIn, eq_refl, keep, not, All-map,
}
use nestjs_api_starter.Idempotency.Store.{
  IdempotencyIdentity, IdempotencyKey, same_key, same_identity, has_identity, expired_where,
  valid_where,
}

pub same_identity_iff : (a b : IdempotencyIdentity) → same_identity a b ≡ true → a ≡ b
same_identity_iff a b h = ground (
  arith,
  eq_iff a.key b.key,
  eq_iff a.method b.method,
  eq_iff a.path b.path,
  eq_iff a.scope b.scope,
)

pub same_identity_refl : (a : IdempotencyIdentity) → same_identity a a ≡ true
same_identity_refl a =
    ground (arith, eq_refl a.key, eq_refl a.method, eq_refl a.path, eq_refl a.scope)

pub one_row :
    (d : IdempotencyIdentity) (a b : IdempotencyKey) (rs : List IdempotencyKey)
    → Apart same_key rs
    → IsIn a rs
    → IsIn b rs
    → has_identity d a ≡ true
    → has_identity d b ≡ true
    → a ≡ b
one_row d a b [] u i j h k = absurd i
one_row d a b (x ∷ rs) u (inl i) (inl j) h k = sym i ∙ j
one_row d a b (x ∷ rs) u (inl i) (inr j) h k =
    let apart = All-IsIn (λ y. same_key x y ≡ false) b rs u.0 j in
    absurd (
      ground (
        arith,
        same_identity_iff a.identity d h,
        same_identity_iff b.identity d k,
        same_identity_refl d,
        ap (λ (r : IdempotencyKey). r.identity) i,
      ))
one_row d a b (x ∷ rs) u (inr i) (inl j) h k =
    let apart = All-IsIn (λ y. same_key x y ≡ false) a rs u.0 i in
    absurd (
      ground (
        arith,
        same_identity_iff a.identity d h,
        same_identity_iff b.identity d k,
        same_identity_refl d,
        ap (λ (r : IdempotencyKey). r.identity) j,
      ))
one_row d a b (x ∷ rs) u (inr i) (inr j) h k = one_row d a b rs u.1 i j h k

pub identity_of :
    (d : IdempotencyIdentity) (r : IdempotencyKey) → has_identity d r ≡ true → r.identity ≡ d
identity_of d r h = same_identity_iff r.identity d h

-- A sweep of what no row is leaves the table as it was.
pub keep-All :
    (p : IdempotencyKey → Bool) (rs : List IdempotencyKey)
    → All (λ r. p r ≡ false) rs
    → keep (λ r. not (p r)) rs ≡ rs
keep-All p [] h = refl
keep-All p (x ∷ rs) h = rw (h.0, keep-All p rs h.1)

-- Once the expired rows are gone, an identity with no valid row has none.
pub swept_none :
    (d : IdempotencyIdentity) (now : ℕ) (rs : List IdempotencyKey)
    → All (λ r. valid_where d now r ≡ false) rs
    → All (λ r. has_identity d r ≡ false) (keep (λ r. not (expired_where d now r)) rs)
swept_none d now [] h = tt
swept_none d now (x ∷ rs) h = elim (Bool-cases (expired_where d now x)) [
  | inl e ↦ rw e (swept_none d now rs h.1)
  | inr e ↦ rw e (ground arith, swept_none d now rs h.1)
]

-- What holds of the row that the identity has, and of the rows of others, holds of all.
pub by_identity :
    (P : IdempotencyKey → Type 0) (d : IdempotencyIdentity) (r : IdempotencyKey)
    (rs : List IdempotencyKey)
    → Apart same_key rs
    → IsIn r rs
    → has_identity d r ≡ true
    → P r
    → ((x : IdempotencyKey) → has_identity d x ≡ false → P x)
    → All P rs
by_identity P d r [] u i h own other = tt
by_identity P d r (x ∷ rs) u (inl e) h own other = (
  subst P (sym e) own,
  All-map
      (λ y apart. other y (
        ground (
          arith,
          same_identity_iff y.identity d,
          same_identity_iff r.identity d,
          same_identity_refl d,
          ap (λ (r : IdempotencyKey). r.identity) e,
        )))
      rs u.0,
)
by_identity P d r (x ∷ rs) u (inr i) h own other =
    let apart = All-IsIn (λ y. same_key x y ≡ false) r rs u.0 i in
    (
      other x (
          ground (
            arith,
            same_identity_iff x.identity d,
            same_identity_iff r.identity d,
            same_identity_refl d,
          )),
      by_identity P d r rs u.1 i h own other,
    )
