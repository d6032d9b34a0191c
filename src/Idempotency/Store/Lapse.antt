-- ===== src/Idempotency/Store/Lapse.antt =====
-- No key is taken for ever.
use nestjs_api_starter.Prelude.{
  ℕ, ◌+◌, ◌*◌, ◌≤◌, ◌≡◌, refl, subst, ◌∙◌, inl, inr, Bool, Option, none, some, List, [], ◌∷◌, All,
  Option-cases, Bool-cases, arith,
}
use nestjs_api_starter.Effects.{ok}
use nestjs_api_starter.Prisma.{Delegate, IsUp}
use nestjs_api_starter.Idempotency.Store.{
  IdempotencyIdentity, IdempotencyKey, same_key, same_identity, ReserveIdempotencyInput,
  CompleteIdempotencyInput, started,
}
use nestjs_api_starter.Idempotency.Store.Spec.{
  Entry, Slots, Call, reserving, completing, releasing, reserved, put, drop_if, is_expired,
  is_waiting, responded_slot, waiting, spec_step, spec_run,
}
use nestjs_api_starter.Idempotency.Store.View.{view}
use nestjs_api_starter.Idempotency.Store.Refinement.{
  IsTable, perform, perform_all, perform_all-spec_run, step-Refines,
}

-- Every reservation expires by the time.
abbrev pub ExpiresBy : ℕ → Slots → Type 0
ExpiresBy time slots =
    (d : IdempotencyIdentity) (e : Entry) → slots d ≡ some e → e.expires_at ≤ time

-- The call makes no reservation that lasts longer.
abbrev pub EndsBy : ℕ → Call × ℕ → Type 0
EndsBy time (reserving input, now) = now + input.ttl_seconds * 1000 ≤ time
EndsBy time (completing input, now) = Unit
EndsBy time (releasing d, now) = Unit

none-ne-some : {A : Type 0} {a : A} → none ≡ some a → ⊥
none-ne-some e = cc

some_injective : {A : Type 0} {a b : A} → some a ≡ some b → a ≡ b
some_injective e = cc

drop_if-some :
    (q : Entry → Bool) (slot : Option Entry) (e : Entry) → drop_if q slot ≡ some e → slot ≡ some e
drop_if-some q none e h = h
drop_if-some q (some x) e h = elim (Bool-cases (q x)) [
  | inl k ↦ absurd (none-ne-some (rw k at h))
  | inr k ↦ rw k at h
]

responded-expires :
    (input : CompleteIdempotencyInput) (slot : Option Entry) (e : Entry) (time : ℕ)
    → responded_slot input slot ≡ some e
    → ((x : Entry) → slot ≡ some x → x.expires_at ≤ time)
    → e.expires_at ≤ time
responded-expires input none e time h all = absurd (none-ne-some h)
responded-expires input (some x) e time h all = ground (arith, all x refl)

put-ExpiresBy :
    (time : ℕ) (d : IdempotencyIdentity) (entry : Option Entry) (slots : Slots)
    → ExpiresBy time slots
    → ((e : Entry) → entry ≡ some e → e.expires_at ≤ time)
    → ExpiresBy time (put d entry slots)
put-ExpiresBy time d entry slots all own x e h = elim (Bool-cases (same_identity x d)) [
  | inl k ↦ own e (rw k at h)
  | inr k ↦ all x e (rw k at h)
]

spec_step-ExpiresBy :
    (time : ℕ) (c : Call) (now : ℕ) (slots : Slots)
    → EndsBy time (c, now)
    → ExpiresBy time slots
    → ExpiresBy time (spec_step c now slots).1
spec_step-ExpiresBy time (reserving input) now slots ends all =
    elim (Option-cases (drop_if (is_expired now) (slots input.identity))) [
      | inl free ↦ rw free (
          put-ExpiresBy time input.identity (some (waiting input now)) slots all
            (λ e h. subst (λ (x : Entry). x.expires_at ≤ time) (some_injective h) ends))
      | inr (x, taken) ↦ rw taken all
    ]
spec_step-ExpiresBy time (completing input) now slots ends all =
    put-ExpiresBy time input.identity (responded_slot input (slots input.identity)) slots all
      (λ e h. responded-expires input (slots input.identity) e time h (all input.identity))
spec_step-ExpiresBy time (releasing d) now slots ends all =
    put-ExpiresBy time d (drop_if is_waiting (slots d)) slots all
      (λ e h. all d e (drop_if-some is_waiting (slots d) e h))

spec_run-ExpiresBy :
    (time : ℕ) (calls : List (Call × ℕ)) (slots : Slots)
    → All (EndsBy time) calls
    → ExpiresBy time slots
    → ExpiresBy time (spec_run calls slots).1
spec_run-ExpiresBy time [] slots ends all = all
spec_run-ExpiresBy time ((c, now) ∷ calls) slots ends all =
    spec_run-ExpiresBy time calls (spec_step c now slots).1 ends.1
      (spec_step-ExpiresBy time c now slots ends.0 all)

expired-none :
    (time : ℕ) (slot : Option Entry)
    → ((e : Entry) → slot ≡ some e → e.expires_at ≤ time)
    → drop_if (is_expired time) slot ≡ none
expired-none time none h = refl
expired-none time (some e) h = let late = h e refl in ground arith

-- While the database answers, from a table with unique keys and known statuses whose reservations
-- expire by a time: whatever calls of `reserve`, `complete` and `release` are made one after the
-- other, with the clock standing still within each call, if none of them makes a reservation that
-- lasts longer, then a `reserve` at that time, with the clock standing still, starts for every key.
pub reserve-lapsed :
    (t : Delegate IdempotencyKey same_key) (up : IsUp t) (time : ℕ) (calls : List (Call × ℕ))
    (s : t.State) (input : ReserveIdempotencyInput)
    → IsTable (t.rows s)
    → ExpiresBy time (view (t.rows s))
    → All (EndsBy time) calls
    → (s' : t.State) × (perform t (reserving input) time (perform_all t calls s).1
        ≡ (ok (reserved started), s'))
reserve-lapsed t up time calls s input table all ends =
    let (s₁, e, table₁, v) = perform_all-spec_run t up calls s table in
    let by : ExpiresBy time (view (t.rows s₁)) =
      rw v (spec_run-ExpiresBy time calls (view (t.rows s)) ends all) in
    let free : drop_if (is_expired time) (view (t.rows s₁) input.identity) ≡ none =
      expired-none time (view (t.rows s₁) input.identity) (by input.identity) in
    let (s', answer, table', v') = step-Refines t up (reserving input) time s₁ table₁ in
    (s', rw e (answer ∙ rw free refl))
