-- ===== src/Idempotency/Store/Refinement.antt =====
-- The store over its table does what its specification does.
use nestjs_api_starter.Prelude.{
  ℕ, String, ◌≡◌, refl, ap, ◌∙◌, ◌⊎◌, inl, inr, Bool, true, false, none, some, List, [], ◌∷◌, map,
  arith, Apart, Bool-cases, All, All-map, keep, change, not, ltb,
}
use nestjs_api_starter.Effects.{Result, ok, Eff, map_result}
use nestjs_api_starter.Prisma.{Delegate, IsUp}
use nestjs_api_starter.Process.{run}
use nestjs_api_starter.Idempotency.Store.{
  IdempotencyIdentity, IdempotencyKey, same_key, same_identity, has_identity, expired_where,
  valid_where, pending_where, pending_row, completed, ReserveIdempotencyInput,
  CompleteIdempotencyInput, reserve, complete, release, status_pending, status_completed,
}
use nestjs_api_starter.Idempotency.Store.Rows.{by_identity, same_identity_iff, same_identity_refl}
use nestjs_api_starter.Idempotency.Store.Sweep.{All-keep}
use nestjs_api_starter.Idempotency.Store.Reserve.{reserve-fresh, reserve-live}
use nestjs_api_starter.Idempotency.Store.Finalize.{change-Apart}
use nestjs_api_starter.Idempotency.Store.Expiry.{keep-Apart, pending-Apart}
use nestjs_api_starter.Idempotency.Store.Spec.{
  Call, reserving, completing, releasing, Reply, reserved, finished, spec_step, spec_run, put,
  waiting, drop_if, is_expired, is_waiting,
}
use nestjs_api_starter.Idempotency.Store.View.{
  view, view-put, entry_of, view-cases, view-keep_own, view-keep_other, view-change_own,
  view-change_other, classify-answer,
}

-- A table that the store has written: keys are unique, and a row is pending or completed.
abbrev pub HasStatus : IdempotencyKey → Type 0
HasStatus r = (r.status ≡ status_pending) ⊎ (r.status ≡ status_completed)

abbrev pub IsTable : List IdempotencyKey → Type 0
IsTable rs = Apart same_key rs × All HasStatus rs

abbrev pub reply : {S A : Type 0} → (A → Reply) → Result A × S → Result Reply × S
reply f (r, s) = (map_result f r, s)

module _ (t : Delegate IdempotencyKey same_key) where
  -- a call whose statements read the clock at one time
  abbrev pub perform : Call → ℕ → Eff t.State Reply
  perform (reserving input) now s = reply reserved (run (λ _. now) (reserve t input) s)
  perform (completing input) now s = reply (λ _. finished) (run (λ _. now) (complete t input) s)
  perform (releasing d) now s = reply (λ _. finished) (run (λ _. now) (release t d) s)

  abbrev pub perform_all : List (Call × ℕ) → t.State → List (Result Reply) × t.State
  perform_all [] s = ([], s)
  perform_all ((c, now) ∷ calls) s =
      let (r, s') = perform c now s in let (rs, last) = perform_all calls s' in (r ∷ rs, last)

expired_entry :
    (d : IdempotencyIdentity) (now : ℕ) (rs : List IdempotencyKey)
    → All (λ r. has_identity d r ≡ true → expired_where d now r ≡ is_expired now (entry_of r)) rs
expired_entry d now [] = tt
expired_entry d now (r ∷ rs) = (λ e. ground arith, expired_entry d now rs)

waiting_entry :
    (d : IdempotencyIdentity) (rs : List IdempotencyKey)
    → All HasStatus rs
    → All (λ r. has_identity d r ≡ true → pending_where d r ≡ is_waiting (entry_of r)) rs
waiting_entry d = All-map λ r h e. elim h [ inl p ↦ rw (e, p) refl | inr c ↦ rw (e, c) refl ]

others :
    (d : IdempotencyIdentity) (p : IdempotencyKey → Bool)
    → ((r : IdempotencyKey) → has_identity d r ≡ false → p r ≡ false)
    → (rs : List IdempotencyKey) → All (λ r. has_identity d r ≡ false → p r ≡ false) rs
others d p h [] = tt
others d p h (r ∷ rs) = (h r, others d p h rs)

change-HasStatus :
    (input : CompleteIdempotencyInput) (p : IdempotencyKey → Bool) (rs : List IdempotencyKey)
    → All HasStatus rs
    → All HasStatus (change p (completed input) rs)
change-HasStatus input p [] h = tt
change-HasStatus input p (r ∷ rs) h = (
  elim (Bool-cases (p r)) [ inl e ↦ rw e (inr refl) | inr e ↦ rw e h.0 ],
  change-HasStatus input p rs h.1,
)

sym_identity : (a b : IdempotencyIdentity) → same_identity a b ≡ same_identity b a
sym_identity a b =
    ground (arith, same_identity_iff a b, same_identity_iff b a, same_identity_refl a)

module _ (input : ReserveIdempotencyInput) (now : ℕ) (rs : List IdempotencyKey)
    (table : IsTable rs) where
  view-reserved :
      (id : String)
      → view (pending_row input now id ∷ keep (λ r. not (expired_where input.identity now r)) rs)
        ≡ put input.identity (some (waiting input now)) (view rs)
  view-reserved id =
      view-put input.identity (some (waiting input now)) rs
        (pending_row input now id ∷ keep (λ r. not (expired_where input.identity now r)) rs)
        (rw (same_identity_refl input.identity) refl)
        (λ x e.
          rw (sym_identity input.identity x, e)
            (view-keep_other input.identity (expired_where input.identity now) x rs e
              (others input.identity _ (λ r h. ground arith) rs)))

  reserved-IsTable :
      (id : String)
      → All (λ r. valid_where input.identity now r ≡ false) rs
      → IsTable (pending_row input now id ∷ keep (λ r. not (expired_where input.identity now r)) rs)
  reserved-IsTable id free =
      (pending-Apart input now now id rs table.0 free, (inl refl, All-keep HasStatus _ rs table.1))

module _ (t : Delegate IdempotencyKey same_key) (up : IsUp t) where
  abbrev pub Refines : Call → ℕ → t.State → Type 0
  Refines c now s =
      (s' : t.State) × (perform t c now s ≡ (ok (spec_step c now (view (t.rows s))).0, s'))
      × IsTable (t.rows s')
      × (view (t.rows s') ≡ (spec_step c now (view (t.rows s))).1)

  fresh-Refines :
      (input : ReserveIdempotencyInput) (now : ℕ) (s : t.State)
      → IsTable (t.rows s)
      → All (λ r. valid_where input.identity now r ≡ false) (t.rows s)
      → drop_if (is_expired now) (view (t.rows s) input.identity) ≡ none
      → Refines (reserving input) now s
  fresh-Refines input now s table free empty =
      let (id, s', e, rows) = reserve-fresh t up (λ _. now) input s free in
      (
        s',
        rw empty (ap (reply reserved) e),
        rw rows (reserved-IsTable input now (t.rows s) table id free),
        rw (rows, empty) (view-reserved input now (t.rows s) table id),
      )

  reserve-Refines :
      (input : ReserveIdempotencyInput) (now : ℕ) (s : t.State)
      → IsTable (t.rows s)
      → Refines (reserving input) now s
  reserve-Refines input now s table = elim (view-cases input.identity (t.rows s)) [
    | inl (v, h) ↦
        fresh-Refines input now s table (All-map (λ r none. ground arith) (t.rows s) h) (rw v refl)
    | inr (r, v, i, own) ↦ elim (Bool-cases (ltb now r.expires_at)) [
      | inl live ↦
          let (s', e, same) =
            reserve-live t up (λ _. now) input s r table.0 i own (ground arith) (ground arith) in
          (
            s',
            rw (v, live, ← classify-answer r input.request_hash) (ap (reply reserved) e),
            rw same table,
            rw (same, v, live) refl,
          )
      | inr dead ↦
          fresh-Refines input now s table
            (by_identity (λ x. valid_where input.identity now x ≡ false) input.identity r (t.rows s)
              table.0 i own (ground arith) (λ x h. ground arith))
            (rw (v, dead) refl)
    ]
  ]

  complete-Refines :
      (input : CompleteIdempotencyInput) (now : ℕ) (s : t.State)
      → IsTable (t.rows s)
      → Refines (completing input) now s
  unfolding run complete
  complete-Refines input now s table =
      elim (t.update_many_law (has_identity input.identity) (completed input) s) [
        | inl (s', e, rows) ↦ (
          s',
          rw (complete, run, e) refl,
          rw rows (
            change-Apart input _ (t.rows s) table.0,
            change-HasStatus input _ (t.rows s) table.1,
          ),
          rw rows (
              view-put input.identity _ (t.rows s) _ (view-change_own input (t.rows s))
                (λ x ne. view-change_other input x (t.rows s) ne)),
        )
        | inr (x, e) ↦ absurd (up.updates _ _ s x e)
      ]

  release-Refines :
      (d : IdempotencyIdentity) (now : ℕ) (s : t.State)
      → IsTable (t.rows s)
      → Refines (releasing d) now s
  unfolding run release
  release-Refines d now s table = elim (t.delete_many_law (pending_where d) s) [
    | inl (s', e, rows) ↦ (
      s',
      rw (release, run, e) refl,
      rw rows (keep-Apart _ (t.rows s) table.0, All-keep HasStatus _ (t.rows s) table.1),
      rw rows (
          let apart = others d (pending_where d) (λ r h. ground arith) (t.rows s) in
          view-put d _ (t.rows s) _
            (view-keep_own d (pending_where d) is_waiting (t.rows s) table.0
              (waiting_entry d (t.rows s) table.1) apart)
            (λ x ne. view-keep_other d (pending_where d) x (t.rows s) ne apart)),
    )
    | inr (x, e) ↦ absurd (up.deletes _ s x e)
  ]

  pub step-Refines : (c : Call) (now : ℕ) (s : t.State) → IsTable (t.rows s) → Refines c now s
  step-Refines (reserving input) = reserve-Refines input
  step-Refines (completing input) = complete-Refines input
  step-Refines (releasing d) = release-Refines d

  -- While the database answers, from a table with unique keys and known statuses: for every list of
  -- calls of `reserve`, `complete` and `release`, for any identities and in any order, with the
  -- clock standing still within each call, every call returns, and returns what the specification
  -- returns: a reservation starts where there is no live entry, and else is answered by the entry;
  -- a completion stores its response in the entry; a release removes an entry without response; no
  -- call touches the entry of another identity. The entries of the table afterwards are those of
  -- the specification.
  pub perform_all-spec_run :
      (calls : List (Call × ℕ)) (s : t.State)
      → IsTable (t.rows s)
      → (s' : t.State) × (perform_all t calls s ≡ (map ok (spec_run calls (view (t.rows s))).0, s'))
        × IsTable (t.rows s')
        × (view (t.rows s') ≡ (spec_run calls (view (t.rows s))).1)
  perform_all-spec_run [] s table = (s, refl, table, refl)
  perform_all-spec_run ((c, now) ∷ calls) s table =
      let (s₁, e, table₁, v) = step-Refines c now s table in
      let (s', e', table', v') = perform_all-spec_run calls s₁ table₁ in
      (s', rw (e, e', v) refl, table', v' ∙ rw v refl)
