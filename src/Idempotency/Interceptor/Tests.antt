-- ===== src/Idempotency/Interceptor/Tests.antt =====
-- The interceptor at concrete inputs: a handler that adds to a counter, and one that throws.
use mathlib.Core.Option
use nestjs_api_starter.Prelude.{
  ℕ, suc, ◌+◌, String, ◌≡◌, ◌≢◌, refl, Option, none, some, List, [], ◌∷◌, true, arith, or_default,
}
use nestjs_api_starter.Effects.{ok, err, other}
use nestjs_api_starter.Process.{Process, done, call, run}
use nestjs_api_starter.Prisma.Memory.{memory-IsUp}
use nestjs_api_starter.Json.{
  Text, Json, null, bool, number, obj, arr, cons, nil, field, end, str, Fields,
}
use nestjs_api_starter.Idempotency.Fingerprint.{stable_stringify}
use nestjs_api_starter.Idempotency.Fingerprint.Stable.{in_obj, swapped, stable_stringify-Same}
use nestjs_api_starter.Idempotency.Store.{
  IdempotencyKey, same_key, started, in_progress, reserve, classify, find_valid, pending_row,
}
use nestjs_api_starter.Idempotency.Store.Tests.{table, next_id}
use nestjs_api_starter.Idempotency.Interceptor.{
  Request, KeyHeader, single, absent, Handled, passed, replayed, World, intercept, extract_key,
  truthy, reserve_input, compute_scope, compute_request_hash, text, texts, unset,
}
use nestjs_api_starter.Idempotency.Interceptor.Scope.{compute_scope-SameCaller}
use nestjs_api_starter.Idempotency.Interceptor.Gate.{app-intercept, intercept-refused, Answers}
use nestjs_api_starter.Idempotency.Interceptor.Replay.{intercept-replay}
use nestjs_api_starter.Idempotency.Interceptor.Sent.{header_of, replayed_header}
use nestjs_api_starter.Idempotency.Interceptor.Throw.{intercept-throw}

abbrev digest : Text → String
digest _ = "h"

abbrev created : Handled
created = record {
  body = bool true;
  response = some (record { status_code = 201; headers = some ((120 ∷ [], text (49 ∷ [])) ∷ []) });
}

abbrev counting : Process ℕ Handled
counting = call (λ now n. (ok created, suc n)) done

abbrev failing : Process ℕ Handled
failing = call (λ now n. (err (other "boom"), suc n)) done

abbrev ticking : ℕ → ℕ → ℕ
ticking start n = start + n

abbrev ask : KeyHeader → Request
ask header = record {
  key_header = header;
  method = "POST";
  path = "/orders";
  body = null;
  user_id = some "7";
  ip = none;
}

abbrev empty_world : World (List IdempotencyKey) ℕ
empty_world = record { keys = []; app = 0 }

-- A list of values is one text behind its name, and a header that is not set is left out.
headers_run :
    (header_of (120 ∷ []) ((121 ∷ [], unset) ∷ (120 ∷ [], texts ((49 ∷ []) ∷ (50 ∷ []) ∷ [])) ∷ [])
      ≡ some (49 ∷ 44 ∷ 32 ∷ 50 ∷ []))
    × (header_of (121 ∷ []) ((121 ∷ [], unset) ∷ []) ≡ none)
headers_run = (refl, refl)

-- the object {"b":1,"a":[true]} with its keys in either order
abbrev ab_object : Json
ab_object =
    obj (field (97 ∷ []) (arr (cons (bool true) nil)) (field (98 ∷ []) (number (49 ∷ [])) end))

abbrev ba_object : Json
ba_object =
    obj (field (98 ∷ []) (number (49 ∷ [])) (field (97 ∷ []) (arr (cons (bool true) nil)) end))

stable_stringify_run :
    stable_stringify ba_object
    ≡ 123 ∷ 34 ∷ 97 ∷ 34 ∷ 58 ∷ 91 ∷ 116 ∷ 114 ∷ 117 ∷ 101 ∷ 93 ∷ 44 ∷ 34 ∷ 98 ∷ 34 ∷ 58 ∷ 49 ∷ 125
      ∷ []
unfolding stable_stringify
stable_stringify_run = refl

keys_differ : ◌≢◌ {A = Text} (97 ∷ []) (98 ∷ [])
keys_differ e = ground arith

stable_stringify-Same_example : stable_stringify ab_object ≡ stable_stringify ba_object
stable_stringify-Same_example =
    stable_stringify-Same ab_object ba_object (in_obj (swapped keys_differ))

compute_scope-SameCaller_example :
    (truthy (some "7") ≡ truthy (some "7"))
    × (truthy (some "7") ≡ none
        → ◌≡◌ {A = String} (or_default none "unknown") (or_default none "unknown"))
unfolding compute_scope
compute_scope-SameCaller_example = compute_scope-SameCaller (ask absent) (ask (single "k")) refl

abbrev taken : World (List IdempotencyKey) ℕ
taken = record {
  keys = pending_row (reserve_input digest none table counting (ask (single "k")) "k") 0 "id" ∷ [];
  app = 3;
}

app-intercept_example :
    (run (ticking 5) (intercept digest none table counting true (ask (single "k"))) taken).1.app ≡ 3
unfolding run reserve find_valid classify compute_scope compute_request_hash extract_key
app-intercept_example =
    app-intercept digest none table counting (ticking 5) (ask (single "k")) "k" taken refl (λ e. cc)

intercept-refused_example :
    Answers in_progress
      (run (ticking 5) (intercept digest none table counting true (ask (single "k"))) taken).0
    × ((run (ticking 5) (intercept digest none table counting true (ask (single "k"))) taken).1
        ≡ taken)
unfolding run reserve find_valid classify compute_scope compute_request_hash extract_key
intercept-refused_example =
    intercept-refused digest none table counting (ticking 5) (ask (single "k")) "k" taken taken.keys
      in_progress refl refl (λ e. cc)

intercept-replay_example :
    (w₁ w₂ : World (List IdempotencyKey) ℕ) × (headers : Option Fields) × (run
        (ticking 0)
        (intercept digest none table counting true (ask (single "k")))
        empty_world
      ≡ (ok (passed created.body), w₁))
    × (w₁.app ≡ 1)
    × (run (ticking 9) (intercept digest none table counting true (ask (single "k"))) w₁
        ≡ (ok (replayed 201 (bool true) headers), w₂))
    × (w₂.app ≡ 1)
    × ((name : Text)
        → replayed_header name headers
          ≡ Option.map str (header_of name ((120 ∷ [], text (49 ∷ [])) ∷ [])))
unfolding run extract_key
intercept-replay_example =
    intercept-replay digest none table (memory-IsUp same_key next_id) counting (ticking 0)
      (ask (single "k")) "k" refl empty_world tt tt created 1 (ask (single "k")) (ticking 9) refl
      refl refl refl (omega arith) (omega arith)

intercept-throw_example :
    (w₁ : World (List IdempotencyKey) ℕ) × (s : List IdempotencyKey) × (run
        (ticking 0)
        (intercept digest none table failing true (ask (single "k")))
        empty_world
      ≡ (err (other "boom"), w₁))
    × (w₁.app ≡ 1)
    × (run
          (ticking 9)
          (reserve table (reserve_input digest none table failing (ask (single "k")) "k"))
          w₁.keys
        ≡ (ok started, s))
unfolding run extract_key
intercept-throw_example =
    intercept-throw digest none table (memory-IsUp same_key next_id) failing (ticking 0)
      (ask (single "k")) "k" refl empty_world tt tt (other "boom") 1 (ticking 9) refl
