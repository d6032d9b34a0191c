-- ===== src/Idempotency/Store/Sweep.antt =====
-- What the sweep of expired rows keeps.
use nestjs_api_starter.Prelude.{
  ℕ, String, ◌≡◌, ◌≢◌, refl, inl, inr, Bool, true, false, List, [], ◌∷◌, arith, Bool-cases, All,
  keep, not, ◌≤◌, any,
}
use nestjs_api_starter.Idempotency.Store.{
  IdempotencyIdentity, IdempotencyKey, has_identity, expired_where, started, classify,
}

pub classify-ne-started : (r : IdempotencyKey) (h : String) → classify r h ≢ started
unfolding classify
classify-ne-started r h = ground arith

pub any_of_keep :
    (d : IdempotencyIdentity) (now upto : ℕ) (rs : List IdempotencyKey)
    → now ≤ upto
    → All (λ r. expired_where d upto r ≡ false) rs
    → any (has_identity d) rs ≡ true
    → any (has_identity d) (keep (λ r. not (expired_where d now r)) rs) ≡ true
any_of_keep d now upto [] l a h = h
any_of_keep d now upto (r ∷ rs) l a h = ground (arith, any_of_keep d now upto rs l a.1)

pub All-keep :
    (P : IdempotencyKey → Type 0) (p : IdempotencyKey → Bool) (rs : List IdempotencyKey)
    → All P rs
    → All P (keep p rs)
All-keep P p [] a = tt
All-keep P p (r ∷ rs) a = elim (Bool-cases (p r)) [
  | inl e ↦ rw e (a.0, All-keep P p rs a.1)
  | inr e ↦ rw e (All-keep P p rs a.1)
]

pub any_none :
    (p : IdempotencyKey → Bool) (rs : List IdempotencyKey)
    → All (λ r. p r ≡ false) rs
    → any p rs ≡ false
any_none p [] a = refl
any_none p (r ∷ rs) a = rw a.0 (any_none p rs a.1)
