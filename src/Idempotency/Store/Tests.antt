-- ===== src/Idempotency/Store/Tests.antt =====
-- The store of idempotency keys at concrete inputs, over a table in memory.
use Prim.Native.String
use nestjs_api_starter.Prelude.{
  Bool, ℕ, ◌+◌, ◌≤◌, String, ◌≡◌, refl, none, List, [], ◌∷◌, inl, arith, count, any, map,
  if◌then◌else◌,
}
use nestjs_api_starter.Effects.{ok, err, unique_violation}
use nestjs_api_starter.Process.{run, schedule}
use nestjs_api_starter.Prisma.{Delegate}
use nestjs_api_starter.Prisma.Memory.{memory, memory-IsUp}
use nestjs_api_starter.Json.{undefined, bool}
use nestjs_api_starter.Idempotency.Store.{
  IdempotencyIdentity, IdempotencyKey, same_key, has_identity, ReserveIdempotencyInput,
  CompleteIdempotencyInput, started, in_progress, conflict, replay, reserve, complete, classify,
  find_valid, pending_row,
}
use nestjs_api_starter.Idempotency.Store.Reserve.{reserve-race}
use nestjs_api_starter.Idempotency.Store.Concurrent.{is_started, reserve-starts}
use nestjs_api_starter.Idempotency.Store.Spec.{
  Call, reserving, completing, releasing, reserved, spec_run,
}
use nestjs_api_starter.Idempotency.Store.View.{view}
use nestjs_api_starter.Idempotency.Store.Refinement.{
  IsTable, perform, perform_all, perform_all-spec_run,
}
use nestjs_api_starter.Idempotency.Store.Lapse.{ExpiresBy, reserve-lapsed}
use nestjs_api_starter.Idempotency.Store.Expiry.{reserve-late_complete}

abbrev pub next_id : List IdempotencyKey → String
next_id [] = "id"
next_id (r ∷ rs) = String.◌++◌ r.id "+"

abbrev pub table : Delegate IdempotencyKey same_key
table = memory same_key next_id

abbrev order_key : IdempotencyIdentity
order_key = record { key = "k1"; method = "POST"; path = "/orders"; scope = "user:7" }

abbrev first_input : ReserveIdempotencyInput
first_input = record { identity = order_key; request_hash = "h1"; ttl_seconds = 10 }

abbrev second_input : ReserveIdempotencyInput
second_input = record { identity = order_key; request_hash = "h2"; ttl_seconds = 10 }

abbrev ticking : ℕ → ℕ → ℕ
ticking start n = start + n

abbrev stale : IdempotencyKey
stale = pending_row first_input 0 "old"

abbrev response : CompleteIdempotencyInput
response = record {
  identity = order_key;
  response_status = 201;
  response_body = bool Bool.true;
  response_headers = undefined;
}

reserve_twice :
    ((run (ticking 0) (reserve table first_input) []).0 ≡ ok started)
    × ((run
          (ticking 5)
          (reserve table first_input)
          (run (ticking 0) (reserve table first_input) []).1).0
        ≡ ok in_progress)
    × ((run
          (ticking 5)
          (reserve table second_input)
          (run (ticking 0) (reserve table first_input) []).1).0
        ≡ ok conflict)
unfolding run reserve find_valid classify
reserve_twice = (refl, refl, refl)

reserve-race_example :
    (s' : List IdempotencyKey) × (run (ticking 9999) (reserve table second_input) (stale ∷ [])
      ≡ (err unique_violation, s'))
    × (s' ≡ stale ∷ [])
reserve-race_example =
    reserve-race table (memory-IsUp same_key next_id) (ticking 9999) second_input (stale ∷ []) stale
      (tt, tt) (inl refl) refl (omega arith) (omega arith) (omega arith)

abbrev race : List (ℕ × ℕ)
race = (0, 1) ∷ (1, 2) ∷ (0, 3) ∷ (1, 3) ∷ (1, 4) ∷ (0, 5) ∷ (0, 6) ∷ []

reserve-starts_example :
    count
        (is_started table order_key 0 100)
        (schedule race (map (reserve table) (first_input ∷ second_input ∷ [])) []).0
      + (if any (has_identity order_key) [] then 1 else 0)
    ≤ 1
reserve-starts_example =
    reserve-starts table order_key 0 100 (first_input ∷ second_input ∷ []) race []
      ((refl, omega arith), ((refl, omega arith), tt)) tt (omega arith)

abbrev finished : IdempotencyKey
finished = record stale { status = "COMPLETED" }

reserve-late_complete_example :
    (s₃ : List IdempotencyKey) × (run
        (ticking 20010)
        (reserve table second_input)
        (run
          (ticking 20005)
          (complete table response)
          (run (ticking 20000) (reserve table second_input) (stale ∷ [])).1).1
      ≡ (ok (replay 201 (bool Bool.true) none), s₃))
unfolding run complete reserve find_valid
reserve-late_complete_example =
    reserve-late_complete table (memory-IsUp same_key next_id) response second_input (ticking 20000)
      (ticking 20005) (ticking 20010) (stale ∷ []) _ _ (tt, tt) (refl, tt) refl refl refl
      (omega arith) (omega arith)

abbrev some_calls : List (Call × ℕ)
some_calls =
    (reserving first_input, 5)
    ∷ (reserving second_input, 6)
    ∷ (completing response, 7)
    ∷ (releasing order_key, 8)
    ∷ (reserving first_input, 9)
    ∷ (reserving second_input, 99999)
    ∷ []

perform_all-spec_run_example :
    (s' : List IdempotencyKey) × (perform_all table some_calls []
      ≡ (map ok (spec_run some_calls (view [])).0, s'))
    × IsTable s'
    × (view s' ≡ (spec_run some_calls (view [])).1)
perform_all-spec_run_example =
    perform_all-spec_run table (memory-IsUp same_key next_id) some_calls [] (tt, tt)

empty_ExpiresBy : ExpiresBy 200000 (view [])
empty_ExpiresBy d e h = cc

reserve-lapsed_example :
    (s' : List IdempotencyKey) × (perform table
        (reserving second_input)
        200000
        (perform_all table some_calls []).1
      ≡ (ok (reserved started), s'))
reserve-lapsed_example =
    reserve-lapsed table (memory-IsUp same_key next_id) 200000 some_calls [] second_input (tt, tt)
      empty_ExpiresBy (omega arith, (omega arith, (tt, (tt, (omega arith, (omega arith, tt))))))
