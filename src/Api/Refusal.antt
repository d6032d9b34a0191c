-- ===== src/Api/Refusal.antt =====
-- Which answer a request gets that is not permitted.
use nestjs_api_starter.Prelude.{
  ℕ, String, ◌≡◌, refl, ◌∙◌, inl, inr, Bool, false, Option, none, some, List, ap, Bool-cases,
  if◌then◌else◌,
}
use nestjs_api_starter.Effects.{Result, ok, err, Exception, http, forbidden, unauthorized}
use nestjs_api_starter.Json.{Text}
use nestjs_api_starter.Prisma.{Delegate}
use nestjs_api_starter.TokenStorage.{RefreshToken, same_token}
use nestjs_api_starter.Directory.{Directory}
use nestjs_api_starter.Roles.{find_user_role_names, find_user_permission_names}
use nestjs_api_starter.Auth
use nestjs_api_starter.Auth.{Stores}
use nestjs_api_starter.Guards.{includes, roles_can_activate, permissions_can_activate}
use nestjs_api_starter.JwtGuard
use nestjs_api_starter.JwtGuard.{AuthenticatedRequestUser, can_activate, extract_bearer_token}
use nestjs_api_starter.Api.{Handler}
use nestjs_api_starter.Api.Handle.{Args, handle}
use nestjs_api_starter.Api.Policy.{
  admin_with, policy, is_anyone, is_public-policy, policy_guards, class_guards-policy,
}
use nestjs_api_starter.Problem.{FailedRequest, catch, thrown, to_problem_details}
use nestjs_api_starter.Api.Serve.{Reflector, is_public, class_guards, serve}

module _ (sha256 : String → String) (t : Delegate RefreshToken same_token) (d : Directory)
    (hash : String → Result String) (compare : String → String → Result Bool)
    (sign : Auth.AccessTokenPayload → ℕ → Result String) (ttl : Option String)
    (query_raw : Stores d.State t.State → Result (Unit {0})) (clock : ℕ → ℕ) (fresh : String)
    (reflector : Reflector) (verify : Text → Result JwtGuard.AccessTokenPayload) where
  -- The answer on a management route, decided by the names that the two lookups return: without
  -- the role admin, or without the permission of the route, the request is forbidden, with the
  -- message of the guard that refused it, and the state is as it was; with both, the answer and the
  -- new state are those of the handler. The rate limiter lets the request through, and the guard of
  -- access tokens passes it with a user.
  pub serve-decision :
      (h : Handler) (a : Args h) (header : Option Text) (w : Stores d.State t.State)
      (user : AuthenticatedRequestUser) (p : String) (names permissions : List String)
      → policy h ≡ admin_with p
      → can_activate d verify w.directory false header ≡ ok (some user)
      → find_user_role_names d user.id w.directory ≡ ok names
      → find_user_permission_names d user.id w.directory ≡ ok permissions
      → serve sha256 t d hash compare sign ttl query_raw clock fresh reflector verify
          (ok tt)
          h
          a
          header
          w
        ≡ (if includes names "admin"
            then (if includes permissions p
                then handle sha256 t d hash compare sign ttl query_raw clock fresh h a (some user) w
                else (
                  err (
                      http forbidden
                        "You do not have the required permissions to access this resource."),
                  w,
                ))
            else (
              err (http forbidden "You do not have the required role to access this resource."),
              w,
            ))
  unfolding serve roles_can_activate permissions_can_activate
  serve-decision h a header w user p names permissions is_p passed found found' =
      let guarded : is_public reflector h ≡ false =
        is_public-policy reflector h ∙ ap is_anyone is_p in
      let guards : class_guards reflector h d (some user) w.directory
          ≡ policy_guards d (admin_with p) (some user) w.directory =
        class_guards-policy reflector h d (some user) w.directory
        ∙ ap (λ x. policy_guards d x (some user) w.directory) is_p in
      elim (Bool-cases (includes names "admin")) [
        | inr no_role ↦ rw (guarded, passed, guards, found, no_role) refl
        | inl role ↦ elim (Bool-cases (includes permissions p)) [
          | inr no_permission ↦
              rw (guarded, passed, guards, found, role, found', no_permission) refl
          | inl permission ↦ rw (guarded, passed, guards, found, role, found', permission) refl
        ]
      ]

  -- A request without a bearer token to a route that is not public, if the rate limiter lets it
  -- through, changes nothing and is answered with status 401.
  pub serve-anonymous :
      (h : Handler) (a : Args h) (header : Option Text) (w : Stores d.State t.State)
      (request : FailedRequest)
      → is_anyone (policy h) ≡ false
      → extract_bearer_token header ≡ none
      → (e : Exception) × (serve sha256 t d hash compare sign ttl query_raw clock fresh reflector
            verify
            (ok tt)
            h
            a
            header
            w
          ≡ (err e, w))
        × ((catch (thrown e) request).response_status ≡ 401)
  unfolding serve can_activate catch to_problem_details
  serve-anonymous h a header w request not_public absent =
      let guarded : is_public reflector h ≡ false = is_public-policy reflector h ∙ not_public in
      (http unauthorized "Authentication is required.", rw (guarded, absent) refl, refl)
