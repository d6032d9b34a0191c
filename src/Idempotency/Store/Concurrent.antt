-- ===== src/Idempotency/Store/Concurrent.antt =====
-- Any number of `reserve` calls for one key, interleaved at their statements: the unique constraint
-- is the gate. No assumption is made that statements succeed.
use nestjs_api_starter.Prelude.{
  ℕ, zero, suc, ◌+◌, ◌*◌, ◌≡◌, ◌≢◌, refl, inl, inr, Bool, true, false, Option, none, some, List, [],
  ◌∷◌, ◌⊎◌, arith, Bool-cases, All, ◌≤◌, ◌<◌, All-map, any, count, map, if◌then◌else◌,
}
use nestjs_api_starter.Effects.{Result, ok, err, Exception, exec, unique_violation}
use nestjs_api_starter.Prisma.{Delegate}
use nestjs_api_starter.Process.{Process, done, await, call, on_ok, advance, schedule_one, schedule}
use nestjs_api_starter.Idempotency.Store.{
  IdempotencyIdentity, IdempotencyKey, same_key, has_identity, expired_where, valid_where,
  ReserveIdempotencyInput, ReserveResult, started, in_progress, conflict, replay, reserve,
  find_valid, pending_row, is_unique_violation, after_find, after_create, racer_found,
}
use nestjs_api_starter.Idempotency.Store.Rows.{same_identity_iff, same_identity_refl}
use nestjs_api_starter.Idempotency.Store.Sweep.{
  classify-ne-started, any_of_keep, All-keep, any_none,
}

module _ (t : Delegate IdempotencyKey same_key) (d : IdempotencyIdentity) (from upto : ℕ) where
  abbrev pub is_started : Process t.State ReserveResult → Bool
  is_started (done (ok started)) = true
  is_started _ = false

  abbrev pub is_taken : t.State → Bool
  is_taken s = any (has_identity d) (t.rows s)

  -- No row of the identity expires before the end of the window.
  abbrev pub IsLasting : t.State → Type 0
  IsLasting s = All (λ r. expired_where d upto r ≡ false) (t.rows s)

  -- A process that is told to start only by the step that takes the key, and otherwise leaves a
  -- taken key taken.
  abbrev IsFair : Process t.State ReserveResult → Type 0
  IsFair (done r) = r ≢ ok started
  IsFair (await act next) =
      (now : ℕ)
      → from ≤ now
      → now ≤ upto
      → (s : t.State) → IsLasting s
      → IsLasting (act now s)
        × (((next now s ≡ done (ok started)) × (is_taken s ≡ false) × (is_taken (act now s) ≡ true))
            ⊎ (IsFair (next now s) × (is_taken s ≡ true → is_taken (act now s) ≡ true)))

  module _ (input : ReserveIdempotencyInput) (same : input.identity ≡ d)
      (long : upto < from + input.ttl_seconds * 1000) where
    find-IsFair :
        (next : Option IdempotencyKey → Process t.State ReserveResult)
        → ((o : Option IdempotencyKey) → IsFair (next o))
        → IsFair (call (find_valid t input.identity) (on_ok next))
    unfolding find_valid
    find-IsFair next fair now _ _ s last =
        (last, inr (rest (t.find_first (valid_where input.identity now) s), λ h. h))
      where
        rest : (r : Result (Option IdempotencyKey)) → IsFair (on_ok next r)
        rest (ok o) = fair o
        rest (err e) = λ h. cc

    racer-IsFair :
        (e : Exception) (o : Option IdempotencyKey) → IsFair (racer_found t input.request_hash e o)
    racer-IsFair e none = λ h. cc
    racer-IsFair e (some r) = λ h. classify-ne-started r input.request_hash (ground arith)

    failed-IsFair : (e : Exception) → IsFair (after_create t input (err e))
    unfolding is_unique_violation
    failed-IsFair e = elim (Bool-cases (is_unique_violation e)) [
      | inl h ↦ rw h (find-IsFair (racer_found t input.request_hash e) (racer-IsFair e))
      | inr h ↦ rw h (λ h. cc)
    ]

    create-IsFair :
        IsFair (call (λ now. exec (t.create (pending_row input now))) (after_create t input))
    create-IsFair now l u s last = elim (t.create_law (pending_row input now) s) [
      | inl (id, s', e, rows, new) ↦
          rw (e, rows)
            (
              (ground (arith), last),
              inl (
                refl,
                any_none (has_identity d) (t.rows s) (
                    All-map
                      (λ r apart.
                        ground (arith, same_identity_iff r.identity d, same_identity_refl d))
                      (t.rows s) new),
                ground (arith, same_identity_refl d),
              ),
            )
      | inr (inl (id, e, clash)) ↦ rw e (last, inr (failed-IsFair unique_violation, λ h. h))
      | inr (inr (x, e, other)) ↦ rw e (last, inr (failed-IsFair x, λ h. h))
    ]

    found-IsFair : (o : Option IdempotencyKey) → IsFair (after_find t input o)
    found-IsFair none = create-IsFair
    found-IsFair (some r) = λ h. classify-ne-started r input.request_hash (ground arith)

    reserve-IsFair : IsFair (reserve t input)
    unfolding reserve
    reserve-IsFair now l u s last = elim (t.delete_many_law (expired_where input.identity now) s) [
      | inl (s', e, rows) ↦
          rw (e, rows)
            (
              All-keep (λ r. expired_where d upto r ≡ false) _ (t.rows s) last,
              inr (
                find-IsFair (after_find t input) found-IsFair,
                λ h. rw same (any_of_keep d now upto (t.rows s) u last h),
              ),
            )
      | inr (x, e) ↦ rw e (last, inr ((λ h. cc), λ h. h))
    ]

  abbrev IsMember : Process t.State ReserveResult → Type 0
  IsMember p = IsFair p ⊎ (p ≡ done (ok started))

  not_started : (p : Process t.State ReserveResult) → IsFair p → is_started p ≡ false
  not_started (done (ok started)) f = absurd (f refl)
  not_started (done (ok in_progress)) f = refl
  not_started (done (ok conflict)) f = refl
  not_started (done (ok (replay a b c))) f = refl
  not_started (done (err e)) f = refl
  not_started (await act next) f = refl

  -- What one move of the scheduler does to the number of processes that were told to start.
  abbrev Moved : ℕ → ℕ → t.State → t.State → Type 0
  Moved m n s s' =
      ((n ≡ m) × (is_taken s ≡ true → is_taken s' ≡ true))
      ⊎ ((n ≡ suc m) × (is_taken s ≡ false) × (is_taken s' ≡ true))

  abbrev weight : Process t.State ReserveResult → ℕ
  weight p = if is_started p then 1 else 0

  Moved-add :
      (j k m n : ℕ) (s s' : t.State) → Moved m n s s' → Moved (j + (m + k)) (j + (n + k)) s s'
  Moved-add j k m n s s' (inl (e, keeps)) = inl (omega arith, keeps)
  Moved-add j k m n s s' (inr (e, free, taken)) = inr (omega arith, free, taken)

  Moved-le :
      (m n k : ℕ) (s s' : t.State)
      → Moved m n s s'
      → m + k ≤ (if is_taken s then 1 else 0)
      → n + k ≤ (if is_taken s' then 1 else 0)
  Moved-le m n k s s' (inl (e, keeps)) le = elim (Bool-cases (is_taken s)) [
    | inl h ↦ rw (keeps h) (omega (arith, (rw h at le)))
    | inr h ↦ ground (arith, (rw h at le))
  ]
  Moved-le m n k s s' (inr (e, free, taken)) le = rw taken (omega (arith, (rw free at le)))

  module _ (now : ℕ) (after : from ≤ now) (before : now ≤ upto) where
    advance-Moved :
        (p : Process t.State ReserveResult) (s : t.State)
        → IsMember p
        → IsLasting s
        → IsMember (advance now p s).0
          × IsLasting (advance now p s).1
          × Moved (weight p) (weight (advance now p s).0) s (advance now p s).1
    unfolding advance
    advance-Moved (done r) s m last = (m, last, inl (refl, λ h. h))
    advance-Moved (await act next) s (inr e) last = absurd (cc)
    advance-Moved (await act next) s (inl f) last =
        let (last', moved) = f now after before s last in
        elim moved [
          | inl (won, free, taken) ↦ (inr won, last', inr (rw won refl, free, taken))
          | inr (fair, keeps) ↦ (inl fair, last', inl (rw (not_started _ fair) refl, keeps))
        ]

    schedule_one-Moved :
        (i : ℕ) (ps : List (Process t.State ReserveResult)) (s : t.State)
        → All IsMember ps
        → IsLasting s
        → All IsMember (schedule_one i now ps s).0
          × IsLasting (schedule_one i now ps s).1
          × Moved
              (count is_started ps)
              (count is_started (schedule_one i now ps s).0)
              s
              (schedule_one i now ps s).1
    unfolding schedule_one
    schedule_one-Moved i [] s ms last = (tt, last, inl (refl, λ h. h))
    schedule_one-Moved zero (p ∷ ps) s ms last =
        let (m, last', moved) = advance-Moved p s ms.0 last in
        ((m, ms.1), last', ground (arith, Moved-add 0 (count is_started ps) _ _ s _ moved))
    schedule_one-Moved (suc i) (p ∷ ps) s ms last =
        let (ms', last', moved) = schedule_one-Moved i ps s ms.1 last in
        ((ms.0, ms'), last', ground (arith, Moved-add (weight p) 0 _ _ s _ moved))

  abbrev IsWithin : List (ℕ × ℕ) → Type 0
  IsWithin moves = All (λ m. (from ≤ m.1) × (m.1 ≤ upto)) moves

  schedule-starts :
      (moves : List (ℕ × ℕ)) (ps : List (Process t.State ReserveResult)) (s : t.State) (n : ℕ)
      → IsWithin moves
      → All IsMember ps
      → IsLasting s
      → count is_started ps + n ≤ (if is_taken s then 1 else 0)
      → count is_started (schedule moves ps s).0 + n ≤ 1
  unfolding schedule
  schedule-starts [] ps s n w ms last le = ground arith
  schedule-starts ((i, now) ∷ moves) ps s n w ms last le =
      let (ms', last', moved) = schedule_one-Moved now w.0.0 w.0.1 i ps s ms last in
      schedule-starts moves _ _ n w.1 ms' last' (Moved-le _ _ n s _ moved le)

  reserve-members :
      (inputs : List ReserveIdempotencyInput)
      → All (λ input. (input.identity ≡ d) × (upto < from + input.ttl_seconds * 1000)) inputs
      → All IsMember (map (reserve t) inputs) × (count is_started (map (reserve t) inputs) ≡ 0)
  reserve-members [] a = (tt, refl)
  reserve-members (input ∷ inputs) a =
      let fair = reserve-IsFair input a.0.0 a.0.1 in
      let (ms, none_yet) = reserve-members inputs a.1 in
      ((inl fair, ms), rw (not_started _ fair) (omega (arith, none_yet)))

  -- Any number of `reserve` calls for one key, with whatever request hashes, interleaved statement
  -- by statement in any way within a window that is shorter than their times to live, in which no
  -- row of the key expires: at most one is told to start, and none if the table already has a row
  -- for the key. No statement is assumed to succeed.
  pub reserve-starts :
      (inputs : List ReserveIdempotencyInput) (moves : List (ℕ × ℕ)) (s : t.State)
      → All (λ input. (input.identity ≡ d) × (upto < from + input.ttl_seconds * 1000)) inputs
      → IsLasting s
      → IsWithin moves
      → count is_started (schedule moves (map (reserve t) inputs) s).0
          + (if is_taken s then 1 else 0)
        ≤ 1
  reserve-starts inputs moves s a last w =
      let (ms, none_yet) = reserve-members inputs a in
      schedule-starts moves (map (reserve t) inputs) s _ w ms last (omega (arith, none_yet))
