-- ===== src/Idempotency/Store/Finalize.antt =====
-- `complete` and `release`, and the answers of the `reserve` that follows.
use nestjs_api_starter.Prelude.{
  ℕ, String, ◌≡◌, refl, ap, sym, subst, ◌∙◌, inl, inr, Bool, true, false, some, List, [], ◌∷◌,
  arith, Apart, Bool-cases, All, IsIn, str_eq, eq_iff, keep, change, not, ◌<◌, if◌then◌else◌,
}
use nestjs_api_starter.Effects.{Result, ok}
use nestjs_api_starter.Prisma.{Delegate, IsUp}
use nestjs_api_starter.Process.{run}
use nestjs_api_starter.Idempotency.Store.{
  IdempotencyIdentity, IdempotencyKey, same_key, has_identity, valid_where, pending_where,
  ReserveIdempotencyInput, CompleteIdempotencyInput, ReserveResult, started, conflict, replay,
  reserve, complete, release, completed, classify, to_json, to_headers, status_completed,
}
use nestjs_api_starter.Idempotency.Store.Rows.{by_identity}
use nestjs_api_starter.Idempotency.Store.Reserve.{reserve-fresh, reserve-live}

change-apart :
    (input : CompleteIdempotencyInput) (p : IdempotencyKey → Bool) (a : IdempotencyKey)
    (rs : List IdempotencyKey)
    → All (λ x. same_key a x ≡ false) rs
    → All (λ x. same_key a x ≡ false) (change p (completed input) rs)
change-apart input p a [] h = tt
change-apart input p a (r ∷ rs) h = (ground arith, change-apart input p a rs h.1)

pub change-Apart :
    (input : CompleteIdempotencyInput) (p : IdempotencyKey → Bool) (rs : List IdempotencyKey)
    → Apart same_key rs
    → Apart same_key (change p (completed input) rs)
change-Apart input p [] h = tt
change-Apart input p (r ∷ rs) h = (
  elim (Bool-cases (p r)) [
    | inl e ↦ rw e (change-apart input p (completed input r) rs h.0)
    | inr e ↦ rw e (change-apart input p r rs h.0)
  ],
  change-Apart input p rs h.1,
)

changed-IsIn :
    (f : IdempotencyKey → IdempotencyKey) (p : IdempotencyKey → Bool) (r : IdempotencyKey)
    (rs : List IdempotencyKey)
    → IsIn r rs
    → p r ≡ true
    → IsIn (f r) (change p f rs)
changed-IsIn f p r [] i h = i
changed-IsIn f p r (x ∷ rs) (inl e) h =
    inl (subst (λ y. (if p y then f y else y) ≡ f r) (sym e) (rw h))
changed-IsIn f p r (x ∷ rs) (inr i) h = inr (changed-IsIn f p r rs i h)

pub kept-IsIn :
    (p : IdempotencyKey → Bool) (r : IdempotencyKey) (rs : List IdempotencyKey)
    → IsIn r rs
    → p r ≡ true
    → IsIn r (keep p rs)
kept-IsIn p r [] i h = i
kept-IsIn p r (x ∷ rs) (inl e) h = rw (subst (λ y. p y ≡ true) (sym e) h) (inl e)
kept-IsIn p r (x ∷ rs) (inr i) h = elim (Bool-cases (p x)) [
  | inl e ↦ rw e (inr (kept-IsIn p r rs i h))
  | inr e ↦ rw e (kept-IsIn p r rs i h)
]

All-keep :
    (Q : IdempotencyKey → Type 0) (p : IdempotencyKey → Bool) (rs : List IdempotencyKey)
    → All (λ r. p r ≡ true → Q r) rs
    → All Q (keep p rs)
All-keep Q p [] a = tt
All-keep Q p (r ∷ rs) a = elim (Bool-cases (p r)) [
  | inl e ↦ rw e (a.0 e, All-keep Q p rs a.1)
  | inr e ↦ rw e (All-keep Q p rs a.1)
]

classify-completed :
    (done : CompleteIdempotencyInput) (r : IdempotencyKey) (hash : String)
    → classify (completed done r) hash ≡ (
        if str_eq r.request_hash hash
        then replay done.response_status
            (to_json done.response_body)
            (to_headers (some (to_json done.response_headers)))
        else conflict)
unfolding classify
classify-completed done r hash = refl

module _ (t : Delegate IdempotencyKey same_key) where
  pub complete-rows :
      (clock : ℕ → ℕ) (input : CompleteIdempotencyInput) (s s' : t.State)
      → run clock (complete t input) s ≡ (ok tt, s')
      → t.rows s' ≡ change (has_identity input.identity) (completed input) (t.rows s)
  unfolding run complete
  complete-rows clock input s s' e =
      elim (t.update_many_law (has_identity input.identity) (completed input) s) [
        | inl (s₁, e₁, h) ↦
            ap t.rows
              (sym (ap (λ (r : Result (Unit {0}) × t.State). r.1) (rw (complete, run, e₁) at e)))
            ∙ h
        | inr (x, e₁) ↦ absurd (ground arith)
      ]

  pub release-rows :
      (clock : ℕ → ℕ) (d : IdempotencyIdentity) (s s' : t.State)
      → run clock (release t d) s ≡ (ok tt, s')
      → t.rows s' ≡ keep (λ r. not (pending_where d r)) (t.rows s)
  unfolding run release
  release-rows clock d s s' e = elim (t.delete_many_law (pending_where d) s) [
    | inl (s₁, e₁, h) ↦
        ap t.rows (sym (ap (λ (r : Result (Unit {0}) × t.State). r.1) (rw (release, run, e₁) at e)))
        ∙ h
    | inr (x, e₁) ↦ absurd (ground arith)
  ]

  -- A late release does not delete a completed record: after a `release` that returns, every
  -- completed row is still there.
  pub release-keeps :
      (clock : ℕ → ℕ) (d : IdempotencyIdentity) (s s' : t.State) (r : IdempotencyKey)
      → run clock (release t d) s ≡ (ok tt, s')
      → IsIn r (t.rows s)
      → r.status ≡ status_completed
      → IsIn r (t.rows s')
  release-keeps clock d s s' r e i c = rw (release-rows clock d s s' e) (
      kept-IsIn (λ r. not (pending_where d r)) r (t.rows s) i
        (ground (arith, eq_iff r.status "PENDING", eq_iff status_completed "PENDING")))

module _ (t : Delegate IdempotencyKey same_key) (up : IsUp t) (clock : ℕ → ℕ) where
  -- While the database answers and its keys are unique, the response that was stored comes back:
  -- after a `complete` that returns, for the key of an unexpired row, a `reserve` with the hash of
  -- the row replays the status, body and headers of the completion, and one with another hash is
  -- told of a conflict.
  pub reserve-complete :
      (done : CompleteIdempotencyInput) (input : ReserveIdempotencyInput) (at : ℕ → ℕ)
      (s s' : t.State) (r : IdempotencyKey)
      → Apart same_key (t.rows s)
      → IsIn r (t.rows s)
      → has_identity input.identity r ≡ true
      → done.identity ≡ input.identity
      → run at (complete t done) s ≡ (ok tt, s')
      → clock 0 < r.expires_at
      → clock 1 < r.expires_at
      → (s'' : t.State) × (run clock (reserve t input) s' ≡ (
        ok (
            if str_eq r.request_hash input.request_hash
            then replay done.response_status
                (to_json done.response_body)
                (to_headers (some (to_json done.response_headers)))
            else conflict),
        s'',
      ))
  reserve-complete done input at s s' r unique listed own same e l₀ l₁ =
      let rows = complete-rows t at done s s' e in
      let own' : has_identity done.identity r ≡ true = rw same own in
      let (s'', answer, _) =
        reserve-live t up clock input s' (completed done r)
          (rw rows (change-Apart done (has_identity done.identity) (t.rows s) unique))
          (rw rows
            (changed-IsIn (completed done) (has_identity done.identity) r (t.rows s) listed own'))
          own l₀ l₁ in
      (
        s'',
        answer
            ∙ ap (λ (x : ReserveResult). (ok x, s''))
                (classify-completed done r input.request_hash),
      )

  -- While the database answers and its keys are unique: after a `release` that returns, a key whose
  -- row was pending can be reserved again.
  pub reserve-release :
      (input : ReserveIdempotencyInput) (at : ℕ → ℕ) (s s' : t.State) (r : IdempotencyKey)
      → Apart same_key (t.rows s)
      → IsIn r (t.rows s)
      → has_identity input.identity r ≡ true
      → r.status ≡ "PENDING"
      → run at (release t input.identity) s ≡ (ok tt, s')
      → (s'' : t.State) × (run clock (reserve t input) s' ≡ (ok started, s''))
  reserve-release input at s s' r unique listed own pending e =
      let free : All (λ x. valid_where input.identity (clock 0) x ≡ false) (t.rows s') =
        rw (release-rows t at input.identity s s' e) (
          All-keep (λ x. valid_where input.identity (clock 0) x ≡ false)
            (λ x. not (pending_where input.identity x)) (t.rows s)
            (by_identity
              (λ x.
                not (pending_where input.identity x) ≡ true
                → valid_where input.identity (clock 0) x ≡ false)
              input.identity r (t.rows s) unique listed own
              (λ h. ground (arith, eq_iff r.status "PENDING")) (λ x other h. ground arith))) in
      let (id, s'', answer, _) = reserve-fresh t up clock input s' free in (s'', answer)
