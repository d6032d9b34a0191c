-- ===== src/Idempotency/Store/Expiry.antt =====
-- A handler that outlives its reservation: the key is reserved anew before its response is stored.
use nestjs_api_starter.Prelude.{
  ℕ, ◌+◌, ◌*◌, String, ◌≡◌, ap, sym, ◌∙◌, inl, inr, Bool, false, some, List, [], ◌∷◌, arith, Apart,
  Bool-cases, All, keep, not, ◌<◌, All-map, refl, eq_refl,
}
use nestjs_api_starter.Effects.{Result, ok}
use nestjs_api_starter.Prisma.{Delegate, IsUp}
use nestjs_api_starter.Process.{run}
use nestjs_api_starter.Idempotency.Store.{
  IdempotencyKey, same_key, expired_where, valid_where, ReserveIdempotencyInput,
  CompleteIdempotencyInput, ReserveResult, started, replay, reserve, complete, pending_row, to_json,
  to_headers,
}
use nestjs_api_starter.Idempotency.Store.Rows.{swept_none, same_identity_iff, same_identity_refl}
use nestjs_api_starter.Idempotency.Store.Reserve.{reserve-fresh}
use nestjs_api_starter.Idempotency.Store.Finalize.{reserve-complete}

keep-apart :
    (p : IdempotencyKey → Bool) (a : IdempotencyKey) (rs : List IdempotencyKey)
    → All (λ x. same_key a x ≡ false) rs
    → All (λ x. same_key a x ≡ false) (keep p rs)
keep-apart p a [] h = tt
keep-apart p a (r ∷ rs) h = elim (Bool-cases (p r)) [
  | inl e ↦ rw e (h.0, keep-apart p a rs h.1)
  | inr e ↦ rw e (keep-apart p a rs h.1)
]

pub keep-Apart :
    (p : IdempotencyKey → Bool) (rs : List IdempotencyKey)
    → Apart same_key rs
    → Apart same_key (keep p rs)
keep-Apart p [] h = tt
keep-Apart p (r ∷ rs) h = elim (Bool-cases (p r)) [
  | inl e ↦ rw e (keep-apart p r rs h.0, keep-Apart p rs h.1)
  | inr e ↦ rw e (keep-Apart p rs h.1)
]

pub pending-Apart :
    (input : ReserveIdempotencyInput) (now later : ℕ) (id : String) (rs : List IdempotencyKey)
    → Apart same_key rs
    → All (λ r. valid_where input.identity now r ≡ false) rs
    → Apart same_key
        (pending_row input later id ∷ keep (λ r. not (expired_where input.identity now r)) rs)
pending-Apart input now later id rs u free = (
  All-map
      (λ x none.
        ground
          (arith, same_identity_iff input.identity x.identity, same_identity_refl input.identity))
      _ (swept_none input.identity now rs free),
  keep-Apart _ rs u,
)

module _ (t : Delegate IdempotencyKey same_key) (up : IsUp t) where
  -- While the database answers and its keys are unique: a completion stores its response in
  -- whatever reservation the key has by then. If a second request reserved a key with no unexpired
  -- row, a completion by another request with that key makes the second request's retries within
  -- its time to live replay the other one's response, whatever the hash.
  pub reserve-late_complete :
      (late : CompleteIdempotencyInput) (second : ReserveIdempotencyInput) (at then clock : ℕ → ℕ)
      (s s₁ s₂ : t.State)
      → Apart same_key (t.rows s)
      → All (λ r. valid_where second.identity (at 0) r ≡ false) (t.rows s)
      → late.identity ≡ second.identity
      → run at (reserve t second) s ≡ (ok started, s₁)
      → run then (complete t late) s₁ ≡ (ok tt, s₂)
      → clock 0 < at 2 + second.ttl_seconds * 1000
      → clock 1 < at 2 + second.ttl_seconds * 1000
      → (s₃ : t.State) × (run clock (reserve t second) s₂ ≡ (
        ok (
            replay late.response_status
              (to_json late.response_body)
              (to_headers (some (to_json late.response_headers)))),
        s₃,
      ))
  reserve-late_complete late second at then clock s s₁ s₂ unique free same reserved finished l₀ l₁ =
      let (id, s', e, rows) = reserve-fresh t up at second s free in
      let state : s' ≡ s₁ = ap (λ (r : Result ReserveResult × t.State). r.1) (sym e ∙ reserved) in
      let rows' : t.rows s₁
          ≡ pending_row second (at 2) id
            ∷ keep (λ r. not (expired_where second.identity (at 0) r)) (t.rows s) =
        rw (← state) rows in
      let (s₃, answer) =
        reserve-complete t up clock late second then s₁ s₂ (pending_row second (at 2) id)
          (rw rows' (pending-Apart second (at 0) (at 2) id (t.rows s) unique free))
          (rw rows' (inl refl)) (same_identity_refl second.identity) same finished l₀ l₁ in
      (s₃, rw (eq_refl second.request_hash) at answer)
