-- ===== src/Api/Deactivated.antt =====
-- What a user can still do whom an administrator has deactivated.
use nestjs_api_starter.Prelude.{
  ℕ, String, ◌≡◌, ◌≢◌, refl, sym, ◌∙◌, inl, inr, Bool, Option, some, subst, ap, arith,
}
use nestjs_api_starter.Effects.{Result, ok, err, Exception, ok_injective, err-ne-ok}
use nestjs_api_starter.Json.{Text}
use nestjs_api_starter.Prisma.{Delegate}
use nestjs_api_starter.TokenStorage.{RefreshToken, same_token}
use nestjs_api_starter.Directory.{Directory}
use nestjs_api_starter.Auth
use nestjs_api_starter.Auth.{Stores}
use nestjs_api_starter.Users.{SafeUser}
use nestjs_api_starter.Users.Deactivation.{IsInactive, deactivate_user-IsInactive}
use nestjs_api_starter.JwtGuard
use nestjs_api_starter.JwtGuard.{AuthenticatedRequestUser, extract_bearer_token}
use nestjs_api_starter.Api.{Handler, users, deactivate_user}
use nestjs_api_starter.Api.Handle.{Args, handle}
use nestjs_api_starter.Api.Policy.{Policy, anyone, signed_in, admin_with, policy}
use nestjs_api_starter.Api.Access.{SignedInAs, Permits, serve-Permits}
use nestjs_api_starter.Api.Serve.{Reflector, serve}

some_injective : {A : Type 0} {a b : A} → some a ≡ some b → a ≡ b
some_injective e = cc

module _ (d : Directory) (verify : Text → Result JwtGuard.AccessTokenPayload) (s : d.State)
    (header : Option Text) where
  Permits-SignedInAs :
      (p : Policy) (user : Option AuthenticatedRequestUser)
      → p ≢ anyone
      → Permits d verify s header p user
      → (u : AuthenticatedRequestUser) × SignedInAs d verify s header u
  Permits-SignedInAs anyone user some_policy h = absurd (some_policy refl)
  Permits-SignedInAs signed_in user some_policy h = (h.0, h.2)
  Permits-SignedInAs (admin_with p) user some_policy h = (h.0, h.2)

  inactive-SignedInAs :
      (id : String) (token : Text) (payload : JwtGuard.AccessTokenPayload)
      (u : AuthenticatedRequestUser)
      → IsInactive id (d.users s)
      → extract_bearer_token header ≡ some token
      → verify token ≡ ok payload
      → payload.sub ≡ some id
      → SignedInAs d verify s header u
      → ⊥
  inactive-SignedInAs id token payload u off bearer verified subject (token', bearer', signed) =
      let same : token' ≡ token = some_injective (sym bearer' ∙ bearer) in
      let same_payload : signed.payload ≡ payload =
        ok_injective (sym signed.verified ∙ ap verify same ∙ verified) in
      let id_is : signed.user.id ≡ id = some_injective (
        sym signed.subject
        ∙ ap (λ (p : JwtGuard.AccessTokenPayload). p.sub) same_payload
        ∙ subject) in
      let inactive = off signed.user signed.listed id_is in ground (arith, inactive, signed.active)

module _ (sha256 : String → String) (t : Delegate RefreshToken same_token) (d : Directory)
    (hash : String → Result String) (compare : String → String → Result Bool)
    (sign : Auth.AccessTokenPayload → ℕ → Result String) (ttl : Option String)
    (query_raw : Stores d.State t.State → Result (Unit {0})) (clock : ℕ → ℕ) (fresh : String)
    (reflector : Reflector) (verify : Text → Result JwtGuard.AccessTokenPayload) where
  -- After a request to deactivate a user has succeeded, the next request, if it carries an access
  -- token of that user and is to a route that is not public, is refused, whatever the route, and
  -- the database stays as it was.
  pub deactivate_user-serve :
      (throttle throttle' : Result (Unit {0})) (id : String) (header header' : Option Text)
      (w w' : Stores d.State t.State) (answer : SafeUser) (h : Handler) (a : Args h) (token : Text)
      (payload : JwtGuard.AccessTokenPayload)
      → serve sha256 t d hash compare sign ttl query_raw clock fresh reflector verify throttle
          (users deactivate_user)
          id
          header
          w
        ≡ (ok answer, w')
      → extract_bearer_token header' ≡ some token
      → verify token ≡ ok payload
      → payload.sub ≡ some id
      → policy h ≢ anyone
      → (e : Exception) × (serve sha256 t d hash compare sign ttl query_raw clock fresh reflector
            verify throttle' h a header' w'
          ≡ (err e, w'))
  unfolding handle
  deactivate_user-serve throttle throttle' id header header' w w' answer h a token payload done
        bearer verified subject not_public =
      elim (serve-Permits sha256 t d hash compare sign ttl query_raw clock fresh reflector verify
        throttle (users deactivate_user) id header w) [
          | inl (e, refused) ↦ absurd (
              err-ne-ok
                (ap (λ (r : Result SafeUser × Stores d.State t.State). r.0) (sym refused ∙ done)))
          | inr (user, permitted, handled) ↦
              let result = sym handled ∙ done in
              let off : IsInactive id (d.users w'.directory) =
                subst (λ x. IsInactive id (d.users x.directory))
                  (ap (λ (r : Result SafeUser × Stores d.State t.State). r.1) result)
                  (deactivate_user-IsInactive d id (clock 0) w.directory answer
                    (ap (λ (r : Result SafeUser × Stores d.State t.State). r.0) result)) in
              elim (serve-Permits sha256 t d hash compare sign ttl query_raw clock fresh reflector
                verify throttle' h a header' w') [
                  | inl refused ↦ refused
                  | inr (user', permitted', handled') ↦
                      let (u, signed) =
                        Permits-SignedInAs d verify w'.directory header' (policy h) user' not_public
                          permitted' in
                      absurd (
                        inactive-SignedInAs d verify w'.directory header' id token payload u off
                          bearer verified subject signed)
                ]
        ]
