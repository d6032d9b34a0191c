-- ===== src/Idempotency/Store.antt =====
-- src/idempotency/storage: idempotency-store.interface.ts and prisma-idempotency-store.service.ts.
-- The Prisma delegate is a parameter. A time is a number of milliseconds. The columns id and
-- createdAt are kept as far as code reads them: createdAt is left out.
pub mod Rows
pub mod Sweep
pub mod Reserve
pub mod Concurrent
pub mod Finalize
pub mod Expiry
pub mod Spec
pub mod View
pub mod Refinement
pub mod Lapse
pub mod Tests
use nestjs_api_starter.Prelude.{
  ℕ, ◌+◌, ◌*◌, String, Bool, ◌&&◌, ◌||◌, Option, none, some, str_eq, ltb, leb, or_default,
  if◌then◌else◌,
}
use nestjs_api_starter.Effects.{Result, ok, err, Exception, known, Eff, exec, reads}
use nestjs_api_starter.Process.{Process, done, await, call, on_ok}
use nestjs_api_starter.Prisma.{Delegate}
use nestjs_api_starter.Json.{Json, undefined, null, obj, Fields}

pub record IdempotencyIdentity : Type 0 where
  pub key : String
  pub method : String
  pub path : String
  pub scope : String

pub record ReserveIdempotencyInput : Type 0 where
  pub identity : IdempotencyIdentity
  pub request_hash : String
  pub ttl_seconds : ℕ

pub record CompleteIdempotencyInput : Type 0 where
  pub identity : IdempotencyIdentity
  pub response_status : ℕ
  pub response_body : Json
  pub response_headers : Json

pub data ReserveResult : Type 0 where
  started in_progress conflict : ReserveResult
  replay :
      (response_status : ℕ) (response_body : Json) (response_headers : Option Fields)
      → ReserveResult

-- a row of the table IdempotencyKey; a nullable JSON column holds no value or a JSON value
pub record IdempotencyKey : Type 0 where
  pub id : String
  pub identity : IdempotencyIdentity
  pub request_hash : String
  pub status : String
  pub response_status : Option ℕ
  pub response_body : Option Json
  pub response_headers : Option Json
  pub expires_at : ℕ

abbrev pub status_pending : String
status_pending = "PENDING"

abbrev pub status_completed : String
status_completed = "COMPLETED"

abbrev pub same_identity : IdempotencyIdentity → IdempotencyIdentity → Bool
same_identity a b =
    str_eq a.key b.key && str_eq a.method b.method && str_eq a.path b.path && str_eq a.scope b.scope

-- `@@unique([key, method, path, scope])`; ids are generated by `cuid()` and taken to be new
abbrev pub same_key : IdempotencyKey → IdempotencyKey → Bool
same_key a b = same_identity a.identity b.identity

-- The `where` objects.
abbrev pub has_identity : IdempotencyIdentity → IdempotencyKey → Bool
has_identity d r = same_identity r.identity d

abbrev pub expired_where : IdempotencyIdentity → ℕ → IdempotencyKey → Bool
expired_where d now r = has_identity d r && leb r.expires_at now

abbrev pub valid_where : IdempotencyIdentity → ℕ → IdempotencyKey → Bool
valid_where d now r = has_identity d r && ltb now r.expires_at

abbrev pub pending_where : IdempotencyIdentity → IdempotencyKey → Bool
pending_where d r = has_identity d r && str_eq r.status status_pending

-- `Prisma.JsonNull` is the JSON value null in the column.
abbrev pub to_json : Json → Json
to_json undefined = null
to_json v = v

abbrev pub to_headers : Option Json → Option Fields
to_headers (some (obj fs)) = some fs
to_headers _ = none

unfoldable pub classify : IdempotencyKey → String → ReserveResult
classify row request_hash =
    if str_eq row.request_hash request_hash
    then (if str_eq row.status status_completed
        then replay (or_default row.response_status 200) (or_default row.response_body null)
            (to_headers row.response_headers)
        else in_progress)
    else conflict

unfoldable pub is_unique_violation : Exception → Bool
is_unique_violation (known code) = str_eq code "P2002"
is_unique_violation _ = Bool.false

abbrev pub pending_row : ReserveIdempotencyInput → ℕ → String → IdempotencyKey
pending_row input now id = record {
  id = id;
  identity = input.identity;
  request_hash = input.request_hash;
  status = status_pending;
  response_status = none;
  response_body = none;
  response_headers = none;
  expires_at = now + input.ttl_seconds * 1000;
}

abbrev pub completed : CompleteIdempotencyInput → IdempotencyKey → IdempotencyKey
completed input r = record r {
  status = status_completed;
  response_status = some input.response_status;
  response_body = some (to_json input.response_body);
  response_headers = some (to_json input.response_headers);
}

module _ (t : Delegate IdempotencyKey same_key) where
  unfoldable pub find_valid : IdempotencyIdentity → ℕ → Eff t.State (Option IdempotencyKey)
  find_valid d now = reads (t.find_first (valid_where d now))

  -- the `catch` of `reserve`: the loser of a race reads the row of the winner
  abbrev pub racer_found :
      String → Exception → Option IdempotencyKey → Process t.State ReserveResult
  racer_found request_hash error none = done (err error)
  racer_found request_hash error (some racer) = done (ok (classify racer request_hash))

  abbrev pub after_create :
      ReserveIdempotencyInput → Result IdempotencyKey → Process t.State ReserveResult
  after_create input (ok row) = done (ok started)
  after_create input (err error) =
      if is_unique_violation error
      then call (find_valid input.identity) (on_ok (racer_found input.request_hash error))
      else done (err error)

  abbrev pub after_find :
      ReserveIdempotencyInput → Option IdempotencyKey → Process t.State ReserveResult
  after_find input none = call (λ now. exec (t.create (pending_row input now))) (after_create input)
  after_find input (some existing) = done (ok (classify existing input.request_hash))

  unfoldable pub reserve : ReserveIdempotencyInput → Process t.State ReserveResult
  reserve input =
      call (λ now. exec (t.delete_many (expired_where input.identity now)))
        (on_ok λ _. call (find_valid input.identity) (on_ok (after_find input)))

  unfoldable pub complete : CompleteIdempotencyInput → Process t.State (Unit {0})
  complete input =
      call (λ now. exec (t.update_many (has_identity input.identity) (completed input)))
        (on_ok λ _. done (ok tt))

  unfoldable pub release : IdempotencyIdentity → Process t.State (Unit {0})
  release identity =
      call (λ now. exec (t.delete_many (pending_where identity))) (on_ok λ _. done (ok tt))
