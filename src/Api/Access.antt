-- ===== src/Api/Access.antt =====
-- Who reaches a handler.
use nestjs_api_starter.Prelude.{
  ℕ, String, ◌≡◌, ◌≢◌, refl, sym, subst, ◌∙◌, ◌⊎◌, inl, inr, Bool, true, false, Option, none, some,
  [], ◌∷◌, IsIn,
}
use nestjs_api_starter.Effects.{Result, ok, err, Exception, ok_injective, err-ne-ok, Result-cases}
use nestjs_api_starter.Json.{Text}
use nestjs_api_starter.Prisma.{Delegate}
use nestjs_api_starter.TokenStorage.{RefreshToken, same_token}
use nestjs_api_starter.Directory.{Directory}
use nestjs_api_starter.Roles.Grants.{HasRole, IsGranted}
use nestjs_api_starter.Auth
use nestjs_api_starter.Auth.{Stores, on_directory}
use nestjs_api_starter.Guards.Access.{
  roles_can_activate-HasRole, permissions_can_activate-IsGranted,
}
use nestjs_api_starter.JwtGuard
use nestjs_api_starter.JwtGuard.{AuthenticatedRequestUser, extract_bearer_token, can_activate}
use nestjs_api_starter.JwtGuard.Access.{IsSignedIn, can_activate-IsSignedIn}
use nestjs_api_starter.Api.{Handler}
use nestjs_api_starter.Api.Handle.{Args, handle}
use nestjs_api_starter.Api.Policy.{
  Policy, anyone, signed_in, admin_with, policy, is_anyone, is_public-policy, policy_guards,
  class_guards-policy,
}
use nestjs_api_starter.Api.Serve.{Reflector, is_public, class_guards, both_guards, serve}

pub only_name : {n m : String} → IsIn n (m ∷ []) → n ≡ m
only_name (inl e) = sym e
only_name (inr i) = absurd i

module _ (d : Directory) (verify : Text → Result JwtGuard.AccessTokenPayload) (s : d.State)
    (header : Option Text) where
  -- Signed in: the header carries a bearer token that verifies, of an active user.
  abbrev pub SignedInAs : AuthenticatedRequestUser → Type 0
  SignedInAs user =
      (token : Text) × (extract_bearer_token header ≡ some token) × IsSignedIn d verify s token user

  abbrev pub Permits : Policy → Option AuthenticatedRequestUser → Type 0
  Permits anyone user = user ≡ none
  Permits signed_in user = (u : AuthenticatedRequestUser) × (user ≡ some u) × SignedInAs u
  Permits (admin_with p) user =
      (u : AuthenticatedRequestUser) × (user ≡ some u)
      × SignedInAs u
      × HasRole d s u.id "admin"
      × IsGranted d s u.id p

  some_injective : {A : Type 0} {a b : A} → some a ≡ some b → a ≡ b
  some_injective e = cc

  one_name : {n : String} → n ∷ [] ≢ []
  one_name e = cc

  both_guards-ok :
      (r r' : Result Bool) {x : Bool} → both_guards r r' ≡ ok x → (r ≡ ok true) × (r' ≡ ok true)
  both_guards-ok (ok true) (ok true) e = (refl, refl)
  both_guards-ok (ok true) (ok false) e = absurd (err-ne-ok e)
  both_guards-ok (ok true) (err x) e = absurd (err-ne-ok e)
  both_guards-ok (ok false) r' e = absurd (err-ne-ok e)
  both_guards-ok (err x) r' e = absurd (err-ne-ok e)

  guarded-Permits :
      (p : Policy) (user : Option AuthenticatedRequestUser)
      → can_activate d verify s (is_anyone p) header ≡ ok user
      → {x : Bool} → policy_guards d p user s ≡ ok x
      → Permits p user
  unfolding can_activate
  guarded-Permits anyone user e g = sym (ok_injective e)
  guarded-Permits signed_in user e g =
      let (token, u, bearer, set, signed) = can_activate-IsSignedIn d verify s header user e in
      (u, set, (token, bearer, signed))
  guarded-Permits (admin_with p) user e g =
      let (token, u, bearer, set, signed) = can_activate-IsSignedIn d verify s header user e in
      let (r, g') = both_guards-ok _ _ g in
      let (id, is_id, name, i, has) =
        roles_can_activate-HasRole d s ("admin" ∷ []) (some u.id) one_name (rw set at r) in
      let (id', is_id', granted) =
        permissions_can_activate-IsGranted d s (p ∷ []) (some u.id) one_name (rw set at g') in
      let same : id ≡ u.id = some_injective (sym is_id) in
      let same' : id' ≡ u.id = some_injective (sym is_id') in
      (
        u,
        set,
        (token, bearer, signed),
        subst (λ x. HasRole d s x "admin") same (subst (λ n. HasRole d s id n) (only_name i) has),
        subst (λ x. IsGranted d s x p) same' (granted p (inl refl)),
      )

module _ (sha256 : String → String) (t : Delegate RefreshToken same_token) (d : Directory)
    (hash : String → Result String) (compare : String → String → Result Bool)
    (sign : Auth.AccessTokenPayload → ℕ → Result String) (ttl : Option String)
    (query_raw : Stores d.State t.State → Result (Unit {0})) (clock : ℕ → ℕ) (fresh : String)
    (reflector : Reflector) (verify : Text → Result JwtGuard.AccessTokenPayload) where
  -- For every route and every request: either the answer is an error and nothing in the database
  -- has changed, or the handler ran, with the user of the request, and the policy permits it: on a
  -- public route there is no user; on the others the header carries a bearer token that verifies,
  -- of type 'access', of an active user; and on a management route that user has the role admin and
  -- the permission of the route, through active roles.
  pub serve-Permits :
      (throttle : Result (Unit {0})) (h : Handler) (a : Args h) (header : Option Text)
      (w : Stores d.State t.State)
      → ((e : Exception) × (serve sha256 t d hash compare sign ttl query_raw clock fresh reflector
              verify throttle h a header w
            ≡ (err e, w)))
        ⊎ ((user : Option AuthenticatedRequestUser) × Permits d verify w.directory header
              (policy h)
              user
            × (serve sha256 t d hash compare sign ttl query_raw clock fresh reflector verify
                  throttle h a header w
                ≡ handle sha256 t d hash compare sign ttl query_raw clock fresh h a user w))
  unfolding serve
  serve-Permits (err e) h a header w = inl (e, refl)
  serve-Permits (ok r) h a header w =
      elim (Result-cases (can_activate d verify w.directory (is_public reflector h) header)) [
        | inr (e, failed) ↦ inl (e, rw failed refl)
        | inl (user, passed) ↦ elim (Result-cases (class_guards reflector h d user w.directory)) [
          | inr (e, failed) ↦ inl (e, rw (passed, failed) refl)
          | inl (x, admitted) ↦ inr (
            user,
            guarded-Permits d verify w.directory header (policy h) user
                (rw (is_public-policy reflector h) at passed)
                (sym (class_guards-policy reflector h d user w.directory) ∙ admitted),
            rw (passed, admitted) refl,
          )
        ]
      ]
