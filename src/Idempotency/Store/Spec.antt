-- ===== src/Idempotency/Store/Spec.antt =====
-- What idempotency-store.interface.ts promises of a store, with no table: a slot for each identity,
-- in which a reservation waits for its response until it expires.
use nestjs_api_starter.Prelude.{
  ℕ, ◌+◌, ◌*◌, String, Bool, Option, none, some, List, [], ◌∷◌, str_eq, ltb, not, if◌then◌else◌,
}
use nestjs_api_starter.Json.{Json, Fields}
use nestjs_api_starter.Idempotency.Store.{
  IdempotencyIdentity, same_identity, ReserveIdempotencyInput, CompleteIdempotencyInput,
  ReserveResult, started, in_progress, conflict, replay, to_json, to_headers,
}

pub record Response : Type 0 where
  pub response_status : ℕ
  pub response_body : Json
  pub response_headers : Option Fields

-- A reservation has no response yet.
pub record Entry : Type 0 where
  pub request_hash : String
  pub response : Option Response
  pub expires_at : ℕ

abbrev pub Slots : Type 0
Slots = IdempotencyIdentity → Option Entry

-- The operations of the interface, and what they return.
pub data Call : Type 0 where
  reserving : ReserveIdempotencyInput → Call
  completing : CompleteIdempotencyInput → Call
  releasing : IdempotencyIdentity → Call

pub data Reply : Type 0 where
  reserved : ReserveResult → Reply
  finished : Reply

abbrev pub put : IdempotencyIdentity → Option Entry → Slots → Slots
put d entry slots x = if same_identity x d then entry else slots x

abbrev pub drop_if : (Entry → Bool) → Option Entry → Option Entry
drop_if q none = none
drop_if q (some e) = if q e then none else some e

abbrev pub is_expired : ℕ → Entry → Bool
is_expired now e = not (ltb now e.expires_at)

abbrev pub no_response : Option Response → Bool
no_response none = Bool.true
no_response (some r) = Bool.false

abbrev pub is_waiting : Entry → Bool
is_waiting e = no_response e.response

abbrev pub stored : Option Response → ReserveResult
stored none = in_progress
stored (some r) = replay r.response_status r.response_body r.response_headers

abbrev pub answer : Entry → String → ReserveResult
answer e request_hash = if str_eq e.request_hash request_hash then stored e.response else conflict

abbrev pub waiting : ReserveIdempotencyInput → ℕ → Entry
waiting input now = record {
  request_hash = input.request_hash;
  response = none;
  expires_at = now + input.ttl_seconds * 1000;
}

abbrev pub responded : CompleteIdempotencyInput → Entry → Entry
responded input e = record e {
  response = some (record {
    response_status = input.response_status;
    response_body = to_json input.response_body;
    response_headers = to_headers (some (to_json input.response_headers));
  });
}

abbrev pub responded_slot : CompleteIdempotencyInput → Option Entry → Option Entry
responded_slot input none = none
responded_slot input (some e) = some (responded input e)

-- A live entry answers; an empty slot, or an expired entry, is taken.
abbrev pub reserve_slot : ReserveIdempotencyInput → ℕ → Option Entry → Slots → Reply × Slots
reserve_slot input now none slots =
    (reserved started, put input.identity (some (waiting input now)) slots)
reserve_slot input now (some e) slots = (reserved (answer e input.request_hash), slots)

-- A call at a time.
abbrev pub spec_step : Call → ℕ → Slots → Reply × Slots
spec_step (reserving input) now slots =
    reserve_slot input now (drop_if (is_expired now) (slots input.identity)) slots
spec_step (completing input) now slots =
    (finished, put input.identity (responded_slot input (slots input.identity)) slots)
spec_step (releasing d) now slots = (finished, put d (drop_if is_waiting (slots d)) slots)

abbrev pub spec_run : List (Call × ℕ) → Slots → List Reply × Slots
spec_run [] slots = ([], slots)
spec_run ((c, now) ∷ calls) slots =
    let (reply, slots') = spec_step c now slots in
    let (replies, last) = spec_run calls slots' in (reply ∷ replies, last)
