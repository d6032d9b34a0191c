-- ===== src/Idempotency/Interceptor/Scope.antt =====
-- Keys of different users, and keys of users and of anonymous callers, never share a scope.
use Prim.Native.Char.{Char, code}
use Prim.Native.String
use text.Mathlib.TextLemmas.{append_cancel_left, cons-append, head-eq_of_cons-eq}
use nestjs_api_starter.Prelude.{
  String, ◌≡◌, refl, sym, ap, ◌∙◌, Option, none, some, or_default, arith,
}
use nestjs_api_starter.Json.{Text, Json}
use nestjs_api_starter.Idempotency.Fingerprint.Stable.{
  Same, same, in_arr, in_obj, in_field, no_field, stable_stringify-Same,
}
use nestjs_api_starter.Idempotency.Interceptor.{
  Request, truthy, scope_of, compute_scope, body_or_null, fingerprint, compute_request_hash,
}

user-ne-anonymous : (a b : String) → String.◌++◌ "user:" a ≡ String.◌++◌ "anonymous:" b → ⊥
user-ne-anonymous a b e =
    let heads : ◌≡◌ {A = Char} "u" "a" =
      head-eq_of_cons-eq (sym (cons-append "u" "ser:" a) ∙ e ∙ cons-append "a" "nonymous:" b) in
    omega (arith, ap code heads)

abbrev SameCaller : Option String → Option String → Option String → Option String → Type 0
SameCaller a x b y = (a ≡ b) × (a ≡ none → or_default x "unknown" ≡ or_default y "unknown")

scope_of-SameCaller : (a x b y : Option String) → scope_of a x ≡ scope_of b y → SameCaller a x b y
scope_of-SameCaller none x none y e = (refl, λ _. append_cancel_left "anonymous:" _ _ e)
scope_of-SameCaller none x (some b) y e = absurd (user-ne-anonymous _ _ (sym e))
scope_of-SameCaller (some a) x none y e = absurd (user-ne-anonymous _ _ e)
scope_of-SameCaller (some a) x (some b) y e =
    (ap (λ (s : String). some s) (append_cancel_left "user:" a b e), λ none_left. cc)

-- Two requests have one scope only if they come from one caller: the same signed-in user, or both
-- have no user and the same address.
pub compute_scope-SameCaller :
    (r q : Request)
    → compute_scope r ≡ compute_scope q
    → (truthy r.user_id ≡ truthy q.user_id)
      × (truthy r.user_id ≡ none → or_default r.ip "unknown" ≡ or_default q.ip "unknown")
unfolding compute_scope
compute_scope-SameCaller r q e =
    scope_of-SameCaller (truthy r.user_id) r.ip (truthy q.user_id) q.ip e

Same-body : {v w : Json} → Same v w → Same (body_or_null v) (body_or_null w)
Same-body same = same
Same-body (in_arr s) = in_arr s
Same-body (in_obj s) = in_obj s

-- Two requests with one method, one path and bodies that hold the same data have one hash, whatever
-- the order of the keys in the bodies.
pub compute_request_hash-Same :
    (sha256 : Text → String) (r q : Request)
    → r.method ≡ q.method
    → r.path ≡ q.path
    → Same r.body q.body
    → compute_request_hash sha256 r ≡ compute_request_hash sha256 q
unfolding compute_request_hash
compute_request_hash-Same sha256 r q m p s = ap sha256 (
    stable_stringify-Same (fingerprint r) (fingerprint q)
      (rw (m, p) (in_obj (in_field same (in_field same (in_field (Same-body s) no_field))))))
