-- ===== src/Api/Reach.antt =====
-- What a permitted request comes to.
use nestjs_api_starter.Prelude.{
  ℕ, String, ◌≡◌, refl, sym, ◌∙◌, inl, inr, Bool, true, false, Option, some, List, [], ◌∷◌, subst,
  ap,
}
use nestjs_api_starter.Effects.{Result, ok, err, Result-cases}
use nestjs_api_starter.Json.{Text}
use nestjs_api_starter.Prisma.{Delegate}
use nestjs_api_starter.TokenStorage.{RefreshToken, same_token}
use nestjs_api_starter.Directory.{Directory}
use nestjs_api_starter.Roles.{find_user_role_names, find_user_permission_names}
use nestjs_api_starter.Roles.Grants.{HasRole, IsGranted}
use nestjs_api_starter.Auth
use nestjs_api_starter.Auth.{Stores}
use nestjs_api_starter.Guards.{roles_can_activate, permissions_can_activate}
use nestjs_api_starter.Guards.Access.{
  HasRole-roles_can_activate, IsGranted-permissions_can_activate,
}
use nestjs_api_starter.JwtGuard
use nestjs_api_starter.JwtGuard.{AuthenticatedRequestUser, can_activate}
use nestjs_api_starter.Api.{Handler, users, auth, get_current_user, me}
use nestjs_api_starter.Api.Handle.{Args, handle}
use nestjs_api_starter.Api.Policy.{
  admin_with, policy, is_anyone, is_public-policy, class_guards-policy,
}
use nestjs_api_starter.Api.Access.{only_name}
use nestjs_api_starter.Api.Serve.{Reflector, is_public, class_guards, serve}

module _ (sha256 : String → String) (t : Delegate RefreshToken same_token) (d : Directory)
    (hash : String → Result String) (compare : String → String → Result Bool)
    (sign : Auth.AccessTokenPayload → ℕ → Result String) (ttl : Option String)
    (query_raw : Stores d.State t.State → Result (Unit {0})) (clock : ℕ → ℕ) (fresh : String)
    (reflector : Reflector) (verify : Text → Result JwtGuard.AccessTokenPayload) where
  -- A management route serves an administrator: if the rate limiter lets the request through, the
  -- guard of access tokens passes it with a user, the lookups of the user's roles and permissions
  -- return, the user has the role admin, and is granted the permission that the policy names for
  -- the route, then the answer and the new state are those of the handler.
  pub serve-handle :
      (h : Handler) (a : Args h) (header : Option Text) (w : Stores d.State t.State)
      (user : AuthenticatedRequestUser) (p : String) (names permissions : List String)
      → policy h ≡ admin_with p
      → can_activate d verify w.directory false header ≡ ok (some user)
      → find_user_role_names d user.id w.directory ≡ ok names
      → find_user_permission_names d user.id w.directory ≡ ok permissions
      → HasRole d w.directory user.id "admin"
      → IsGranted d w.directory user.id p
      → serve sha256 t d hash compare sign ttl query_raw clock fresh reflector verify
          (ok tt)
          h
          a
          header
          w
        ≡ handle sha256 t d hash compare sign ttl query_raw clock fresh h a (some user) w
  unfolding serve
  serve-handle h a header w user p names permissions is_p passed found found' has granted =
      let guarded : is_public reflector h ≡ false =
        is_public-policy reflector h ∙ ap is_anyone is_p in
      let roles =
        HasRole-roles_can_activate d w.directory ("admin" ∷ []) names user.id "admin" found
          (inl refl) has in
      let perms =
        IsGranted-permissions_can_activate d w.directory (p ∷ []) permissions user.id found'
          (λ name i. subst (λ n. IsGranted d w.directory user.id n) (sym (only_name i)) granted) in
      let guards : class_guards reflector h d (some user) w.directory ≡ ok true =
        class_guards-policy reflector h d (some user) w.directory ∙ rw (is_p, roles, perms) refl in
      rw (guarded, passed, guards) refl

  -- The two routes on the own profile, `GET /users/me` and `GET /auth/me`, are one: on every
  -- request they give the same answer or error, and neither changes the state otherwise than the
  -- other.
  pub get_current_user-me :
      (throttle : Result (Unit {0})) (header : Option Text) (w : Stores d.State t.State)
      → serve sha256 t d hash compare sign ttl query_raw clock fresh reflector verify throttle
          (users get_current_user)
          tt
          header
          w
        ≡ serve sha256 t d hash compare sign ttl query_raw clock fresh reflector verify throttle
            (auth me)
            tt
            header
            w
  unfolding serve handle Auth.me roles_can_activate permissions_can_activate
  get_current_user-me (err e) header w = refl
  get_current_user-me (ok r) header w =
      let profile : is_public reflector (users get_current_user) ≡ false =
        is_public-policy reflector (users get_current_user) in
      let own : is_public reflector (auth me) ≡ false = is_public-policy reflector (auth me) in
      elim (Result-cases (can_activate d verify w.directory false header)) [
        | inr (e, failed) ↦ rw (profile, own, failed) refl
        | inl (user, passed) ↦
            let guards : class_guards reflector (users get_current_user) d user w.directory
                ≡ ok true =
              class_guards-policy reflector (users get_current_user) d user w.directory in
            let guards' : class_guards reflector (auth me) d user w.directory ≡ ok true =
              class_guards-policy reflector (auth me) d user w.directory in
            rw (profile, own, passed, guards, guards') refl
      ]
