-- ===== src/Idempotency/Interceptor.antt =====
-- src/idempotency/idempotency.interceptor.ts (`stableStringify` is in Fingerprint). The handler,
-- the pipes behind it and its state are a parameter: any process over a state of the application.
-- So are SHA-256 and the configured time to live.
pub mod Scope
pub mod Gate
pub mod First
pub mod Sent
pub mod Replay
pub mod Throw
pub mod Tests
use Prim.Native.String
use nestjs_api_starter.Prelude.{
  ℕ, String, Bool, true, false, Option, none, some, List, [], ◌∷◌, ◌++◌, str_eq, or_default,
  if◌then◌else◌,
}
use nestjs_api_starter.Effects.{
  Result, ok, err, Exception, http, bad_request, conflict as conflict_status,
}
use nestjs_api_starter.Process.{Process, done, ◌then◌, zoom}
use nestjs_api_starter.Prisma.{Delegate}
use nestjs_api_starter.Json.{Text, Json, undefined, null, str, obj, Fields, end, field, units}
use nestjs_api_starter.Idempotency.Fingerprint.{stable_stringify}
use nestjs_api_starter.Idempotency.Store.{
  IdempotencyKey, same_key, IdempotencyIdentity, ReserveIdempotencyInput, ReserveResult, started,
  in_progress, conflict, replay, reserve, complete, release,
}

abbrev pub default_ttl_seconds : ℕ
default_ttl_seconds = 86400

-- `request.headers['idempotency-key']`
pub data KeyHeader : Type 0 where
  absent : KeyHeader
  single : String → KeyHeader
  several : List String → KeyHeader

pub record Request : Type 0 where
  pub key_header : KeyHeader
  pub method : String
  pub path : String
  pub body : Json
  -- `request.user?.id`
  pub user_id : Option String
  pub ip : Option String

-- `value` of a response header: undefined, a string or a number as `String` prints it, or a list.
pub data HeaderValue : Type 0 where
  unset : HeaderValue
  text : Text → HeaderValue
  texts : List Text → HeaderValue

pub record Response : Type 0 where
  pub status_code : ℕ
  -- none where the response has no `getHeaders`
  pub headers : Option (List (Text × HeaderValue))

-- What a handler that returns leaves: its body and the response, if there is one.
pub record Handled : Type 0 where
  pub body : Json
  pub response : Option Response

-- The body as the handler left it; or a replayed status, body and headers.
pub data Outcome : Type 0 where
  passed : Json → Outcome
  replayed : (status : ℕ) (body : Json) (headers : Option Fields) → Outcome

unfoldable pub extract_key : KeyHeader → Option String
extract_key absent = none
extract_key (single key) = some key
extract_key (several []) = none
extract_key (several (key ∷ keys)) = some key

-- `!key` and `?.` tests: an absent or empty string
abbrev pub truthy : Option String → Option String
truthy none = none
truthy (some s) = if str_eq s "" then none else some s

abbrev scope_of : Option String → Option String → String
scope_of (some id) ip = String.◌++◌ "user:" id
scope_of none ip = String.◌++◌ "anonymous:" (or_default ip "unknown")

unfoldable pub compute_scope : Request → String
compute_scope request = scope_of (truthy request.user_id) request.ip

abbrev body_or_null : Json → Json
body_or_null undefined = null
body_or_null v = v

-- the object literal { method, path, body } of the fingerprint
abbrev pub fingerprint : Request → Json
fingerprint request = obj (
    field (units "method") (str (units request.method)) (
      field (units "path") (str (units request.path))
        (field (units "body") (body_or_null request.body) end)))

unfoldable pub compute_request_hash : (Text → String) → Request → String
compute_request_hash sha256 request = sha256 (stable_stringify (fingerprint request))

-- `value.join(', ')`
unfoldable join_values : List Text → Text
join_values [] = []
join_values (v ∷ []) = v
join_values (v ∷ vs) = v ++ 44 ∷ 32 ∷ join_values vs

unfoldable header_fields : List (Text × HeaderValue) → Fields
unfolding join_values
header_fields [] = end
header_fields ((name, unset) ∷ rest) = header_fields rest
header_fields ((name, text v) ∷ rest) = field name (str v) (header_fields rest)
header_fields ((name, texts vs) ∷ rest) = field name (str (join_values vs)) (header_fields rest)

-- `undefined` for no header at all
abbrev non_empty : Fields → Json
non_empty end = undefined
non_empty fields = obj fields

unfoldable captured : Option (List (Text × HeaderValue)) → Json
unfolding header_fields
captured none = undefined
captured (some headers) = non_empty (header_fields headers)

unfoldable pub capture_headers : Option Response → Json
unfolding captured
capture_headers none = undefined
capture_headers (some response) = captured response.headers

-- `response?.statusCode ?? 200`
abbrev pub status_of : Option Response → ℕ
status_of none = 200
status_of (some response) = response.status_code

abbrev pub identity_for : Request → String → IdempotencyIdentity
identity_for request key = record {
  key = key;
  method = request.method;
  path = request.path;
  scope = compute_scope request;
}

-- The table of keys, and all other state.
pub record World (Keys App : Type 0) : Type 0 where
  pub keys : Keys
  pub app : App

module _ {Keys App A : Type 0} where
  abbrev pub on_keys : Process Keys A → Process (World Keys App) A
  on_keys = zoom (λ w. w.keys) (λ s w. record w { keys = s })

  abbrev pub on_app : Process App A → Process (World Keys App) A
  on_app = zoom (λ w. w.app) (λ a w. record w { app = a })

module _ (sha256 : Text → String) (ttl : Option ℕ) (t : Delegate IdempotencyKey same_key)
    {App : Type 0} (handle : Process App Handled) where
  abbrev pub reserve_input : Request → String → ReserveIdempotencyInput
  reserve_input request key = record {
    identity = identity_for request key;
    request_hash = compute_request_hash sha256 request;
    ttl_seconds = or_default ttl default_ttl_seconds;
  }

  -- `catchError`: release the reservation, ignore how that ends, rethrow
  abbrev pub fail : IdempotencyIdentity → Exception → Process (World t.State App) Outcome
  fail identity error = on_keys (release t identity) then λ _. done (err error)

  abbrev pub after_complete :
      IdempotencyIdentity → Handled → Result (Unit {0}) → Process (World t.State App) Outcome
  after_complete identity handled (ok _) = done (ok (passed handled.body))
  after_complete identity handled (err error) = fail identity error

  abbrev pub after_handle :
      IdempotencyIdentity → Result Handled → Process (World t.State App) Outcome
  after_handle identity (ok handled) =
      on_keys (
        complete t (record {
          identity = identity;
          response_status = status_of handled.response;
          response_body = handled.body;
          response_headers = capture_headers handled.response;
        }))
      then after_complete identity handled
  after_handle identity (err error) = fail identity error

  abbrev pub after_reserve :
      IdempotencyIdentity → Result ReserveResult → Process (World t.State App) Outcome
  after_reserve identity (ok (replay status body headers)) =
      done (ok (replayed status body headers))
  after_reserve identity (ok in_progress) =
      done
        (err (http conflict_status "A request with this Idempotency-Key is already in progress."))
  after_reserve identity (ok conflict) =
      done (err (http conflict_status "Idempotency-Key was already used with a different request."))
  after_reserve identity (ok started) = on_app handle then after_handle identity
  after_reserve identity (err error) = done (err error)

  abbrev pub with_key : Request → Option String → Process (World t.State App) Outcome
  with_key request none = done (err (http bad_request "Idempotency-Key header is required."))
  with_key request (some key) =
      on_keys (reserve t (reserve_input request key)) then after_reserve (identity_for request key)

  abbrev pub pass_through : Result Handled → Process (World t.State App) Outcome
  pass_through (ok handled) = done (ok (passed handled.body))
  pass_through (err error) = done (err error)

  -- `required` is the route's metadata
  unfoldable pub intercept : Bool → Request → Process (World t.State App) Outcome
  intercept false request = on_app handle then pass_through
  intercept true request = with_key request (truthy (extract_key request.key_header))
