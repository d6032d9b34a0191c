-- ===== src/Idempotency/Interceptor/Replay.antt =====
-- A first request with a fresh key, and a retry that follows it.
use mathlib.Core.Option
use nestjs_api_starter.Prelude.{
  ℕ, ◌+◌, ◌*◌, ◌<◌, String, ◌≡◌, refl, sym, ap, ◌∙◌, Option, some, true, false, inl, or_default,
  Apart, All, str_eq, eq_iff, subst,
}
use nestjs_api_starter.Effects.{Result, ok}
use nestjs_api_starter.Process.{Process, run, steps}
use nestjs_api_starter.Prisma.{Delegate, IsUp}
use nestjs_api_starter.Json.{Text, str, Fields}
use nestjs_api_starter.Idempotency.Store.{
  IdempotencyKey, same_key, same_identity, valid_where, CompleteIdempotencyInput, complete,
  pending_row, to_json, to_headers,
}
use nestjs_api_starter.Idempotency.Store.Rows.{same_identity_refl}
use nestjs_api_starter.Idempotency.Store.Finalize.{reserve-complete}
use nestjs_api_starter.Idempotency.Store.Expiry.{pending-Apart}
use nestjs_api_starter.Idempotency.Interceptor.{
  Request, Handled, passed, replayed, World, intercept, extract_key, truthy, reserve_input,
  identity_for, after_handle, after_complete, status_of, capture_headers, default_ttl_seconds,
  compute_request_hash,
}
use nestjs_api_starter.Idempotency.Interceptor.Sent.{
  status_in, body_in, header_of, headers_in, replayed_header, capture_headers-header_of,
  status_of-status_in, to_json-body_in,
}
use nestjs_api_starter.Idempotency.Interceptor.Gate.{run-on_keys, intercept-refused}
use nestjs_api_starter.Idempotency.Interceptor.First.{complete_up, reserved, late, after}

module _ (sha256 : Text → String) (ttl : Option ℕ) (t : Delegate IdempotencyKey same_key)
    (up : IsUp t) {App : Type 0} (handle : Process App Handled) (clock : ℕ → ℕ) (request : Request)
    (key : String) (keyed : truthy (extract_key request.key_header) ≡ some key)
    (w : World t.State App) (unique : Apart same_key (t.rows w.keys))
    (free : All
      (λ r. valid_where (identity_for request key) (clock 0) r ≡ false)
      (t.rows w.keys)) where
  replay-all :
      (handled : Handled) (app : App)
      → run (late clock) handle w.app ≡ (ok handled, app)
      → (w₁ : World t.State App) × (run clock (intercept sha256 ttl t handle true request) w
          ≡ (ok (passed handled.body), w₁))
        × (w₁.app ≡ app)
        × ((retry : Request) (later : ℕ → ℕ)
            → truthy (extract_key retry.key_header) ≡ some key
            → identity_for retry key ≡ identity_for request key
            → compute_request_hash sha256 retry ≡ compute_request_hash sha256 request
            → later 0 < clock 2 + or_default ttl default_ttl_seconds * 1000
            → later 1 < clock 2 + or_default ttl default_ttl_seconds * 1000
            → (w₂ : World t.State App) × (run later (intercept sha256 ttl t handle true retry) w₁
                ≡ (
                  ok (
                      replayed
                        (status_of handled.response)
                        (to_json handled.body)
                        (to_headers (some (to_json (capture_headers handled.response))))),
                  w₂,
                ))
              × (w₂.app ≡ app))
  unfolding run
  replay-all handled app returns =
      let (s₁, r) = reserved sha256 ttl t up handle clock request key keyed w unique free in
      let finish : CompleteIdempotencyInput = record {
        identity = identity_for request key;
        response_status = status_of handled.response;
        response_body = handled.body;
        response_headers = capture_headers handled.response;
      } in
      let (s₂, stored) = complete_up t up finish s₁ in
      (
        record { keys = s₂; app = app },
        r.continues
            ∙ ap
                (λ (r : Result Handled × App).
                  run (after clock handle w)
                    (after_handle sha256 ttl t handle (identity_for request key) r.0)
                    (record { keys = s₁; app = r.1 }))
                returns
            ∙ run-on_keys (after clock handle w) (complete t finish)
                (after_complete sha256 ttl t handle (identity_for request key) handled)
                (record { keys = s₁; app = app })
            ∙ ap
                (λ (r : Result (Unit {0}) × t.State).
                  run
                    (λ n.
                      (after clock handle w)
                        (steps (after clock handle w) (complete t finish) s₁ + n))
                    (after_complete sha256 ttl t handle (identity_for request key) handled r.0)
                    (record { keys = r.1; app = app }))
                (stored (after clock handle w)),
        refl,
        λ retry later keyed' same_id same_hash l₀ l₁.
            let (s₃, again) =
              reserve-complete t up later finish (reserve_input sha256 ttl t handle retry key) clock
                s₁ s₂ (pending_row (reserve_input sha256 ttl t handle request key) (clock 2) r.id)
                (rw r.rows (
                  pending-Apart (reserve_input sha256 ttl t handle request key) (clock 0) (clock 2)
                    r.id (t.rows w.keys) unique free))
                (rw r.rows (inl refl))
                (subst (λ d. same_identity (identity_for request key) d ≡ true) (sym same_id)
                  (same_identity_refl (identity_for request key)))
                (sym same_id) (stored clock) l₀ l₁ in
            let same : str_eq (compute_request_hash sha256 request)
                  (compute_request_hash sha256 retry)
                ≡ true =
              (eq_iff _ _).1 (sym same_hash) in
            let (result, state) =
              intercept-refused sha256 ttl t handle later retry key
                (record { keys = s₂; app = app }) s₃ _ keyed' (rw same at again) (λ h. cc) in
            (record { keys = s₃; app = app }, λ i. (result i, state i), refl),
      )

  -- While the database answers and its keys are unique: the first request with a fresh key runs the
  -- handler, which returns, once, and answers what it returned. A request with that key that comes
  -- within the time to live, from the same caller, to the same route and with the same hash, is
  -- answered without running the handler again, with the status of the first response, 200 if there
  -- was none, with its body, where undefined has become null, and with its headers: under every
  -- name the text of the header that the first response had set, the values of a list joined by
  -- commas, and no header where it had set none.
  pub intercept-replay :
      (handled : Handled) (app : App) (retry : Request) (later : ℕ → ℕ)
      → run (late clock) handle w.app ≡ (ok handled, app)
      → truthy (extract_key retry.key_header) ≡ some key
      → identity_for retry key ≡ identity_for request key
      → compute_request_hash sha256 retry ≡ compute_request_hash sha256 request
      → later 0 < clock 2 + or_default ttl default_ttl_seconds * 1000
      → later 1 < clock 2 + or_default ttl default_ttl_seconds * 1000
      → (w₁ w₂ : World t.State App) × (headers : Option Fields) × (run clock
            (intercept sha256 ttl t handle true request)
            w
          ≡ (ok (passed handled.body), w₁))
        × (w₁.app ≡ app)
        × (run later (intercept sha256 ttl t handle true retry) w₁
            ≡ (ok (replayed (status_in handled.response) (body_in handled.body) headers), w₂))
        × (w₂.app ≡ app)
        × ((name : Text)
            → replayed_header name headers
              ≡ Option.map str (header_of name (headers_in handled.response)))
  intercept-replay handled app retry later returns keyed' same_id same_hash l₀ l₁ =
      let (w₁, answered, once, retries) = replay-all handled app returns in
      let (w₂, again, still) = retries retry later keyed' same_id same_hash l₀ l₁ in
      (
        w₁,
        w₂,
        to_headers (some (to_json (capture_headers handled.response))),
        answered,
        once,
        rw (← status_of-status_in handled.response, ← to_json-body_in handled.body) again,
        still,
        λ name. capture_headers-header_of name handled.response,
      )
