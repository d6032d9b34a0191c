-- ===== src/JwtGuard/Access.antt =====
-- Who passes the guard of access tokens.
use nestjs_api_starter.Prelude.{
  ℕ, String, ◌≡◌, refl, ap, sym, ◌∙◌, inl, inr, true, false, Option, none, some, [], ◌∷◌, All, IsIn,
  Bool-cases, Option-cases, str_eq, eq_iff, ◌==◌, arith,
}
use nestjs_api_starter.Effects.{Result, ok, ok_injective, err-ne-ok, Result-cases}
use nestjs_api_starter.Json.{Text}
use nestjs_api_starter.Directory.{Directory, User}
use nestjs_api_starter.Directory.Lookup.{find_user-IsIn, none-ne-some}
use nestjs_api_starter.Users.{find_by_id}
use nestjs_api_starter.JwtGuard.{
  AccessTokenPayload, AuthenticatedRequestUser, before_space, after_space, extract_bearer_token,
  subject_of, is_access, can_activate,
}

before_space_self : (token : Text) → All (λ c. (c == 32) ≡ false) token → before_space token ≡ token
unfolding before_space
before_space_self [] h = refl
before_space_self (c ∷ cs) h = rw (h.0, before_space_self cs h.1) refl

-- The token of a header 'Bearer <token>' is the token, if it is not empty and has no space.
pub extract_bearer_token-bearer :
    (c : ℕ) (cs : Text)
    → All (λ x. (x == 32) ≡ false) (c ∷ cs)
    → extract_bearer_token (some (66 ∷ 101 ∷ 97 ∷ 114 ∷ 101 ∷ 114 ∷ 32 ∷ c ∷ cs)) ≡ some (c ∷ cs)
unfolding extract_bearer_token before_space after_space
extract_bearer_token-bearer c cs h = rw (h.0, before_space_self cs h.1) refl

module _ (d : Directory) (verify : Text → Result AccessTokenPayload) (s : d.State) where
  -- The account behind a verified access token.
  pub record IsSignedIn (token : Text) (request_user : AuthenticatedRequestUser) : Type 0 where
    pub payload : AccessTokenPayload
    pub user : User
    pub verified : verify token ≡ ok payload
    pub access : payload.token_type ≡ some "access"
    pub subject : payload.sub ≡ some user.id
    pub listed : IsIn user (d.users s)
    pub active : user.is_active ≡ true
    pub id_is : request_user.id ≡ user.id
    pub email_is : request_user.email ≡ user.email

  is_access-some : (kind : Option String) → is_access kind ≡ true → kind ≡ some "access"
  is_access-some none e = absurd (ground arith)
  is_access-some (some kind) e = ap (λ (x : String). some x) ((eq_iff kind "access").0 e)

  subject_of-some : (sub : Option String) (id : String) → subject_of sub ≡ some id → sub ≡ some id
  subject_of-some none id e = absurd cc
  subject_of-some (some x) id e = elim (Bool-cases (str_eq x "")) [
    | inl empty ↦ absurd (none-ne-some (rw empty at e))
    | inr full ↦ rw full at e
  ]

  -- A route that is not public is reached only with a bearer token that the JWT service verifies,
  -- of the type 'access', whose subject is the id of an active user; the request then carries that
  -- user's id and address.
  pub can_activate-IsSignedIn :
      (header : Option Text) (request_user : Option AuthenticatedRequestUser)
      → can_activate d verify s false header ≡ ok request_user
      → (token : Text) × (user : AuthenticatedRequestUser) × (extract_bearer_token header
          ≡ some token)
        × (request_user ≡ some user)
        × IsSignedIn token user
  unfolding can_activate find_by_id
  can_activate-IsSignedIn header request_user e =
      elim (Option-cases (extract_bearer_token header)) [
        | inl absent ↦ absurd (err-ne-ok (rw absent at e))
        | inr (token, present) ↦ elim (Result-cases (verify token)) [
          | inr (x, failed) ↦ absurd (err-ne-ok (rw (present, failed) at e))
          | inl (payload, verified) ↦ elim (Bool-cases (is_access payload.token_type)) [
            | inr wrong ↦ absurd (err-ne-ok (rw (present, verified, wrong) at e))
            | inl right ↦ elim (Option-cases (subject_of payload.sub)) [
              | inl anonymous ↦ absurd (err-ne-ok (rw (present, verified, right, anonymous) at e))
              | inr (id, subject) ↦
                  elim (Result-cases (d.find_user (λ user. str_eq user.id id) s)) [
                    | inr (x, failed) ↦
                        absurd (err-ne-ok (rw (present, verified, right, subject, failed) at e))
                    | inl (none, missing) ↦
                        absurd (err-ne-ok (rw (present, verified, right, subject, missing) at e))
                    | inl (some user, found) ↦ elim (Bool-cases user.is_active) [
                      | inr inactive ↦
                          absurd (
                            err-ne-ok
                              (rw (present, verified, right, subject, found, inactive) at e))
                      | inl active ↦
                          let (i, h) = find_user-IsIn d (λ user. str_eq user.id id) s user found in
                          let same_id : id ≡ user.id = sym ((eq_iff user.id id).0 h) in
                          let set =
                            ok_injective
                              (rw (present, verified, right, subject, found, active) at e) in
                          (
                            token,
                            record { id = user.id; email = user.email },
                            present,
                            sym set,
                            record {
                              payload = payload;
                              user = user;
                              verified = verified;
                              access = is_access-some payload.token_type right;
                              subject =
                                  subject_of-some payload.sub id subject
                                  ∙ ap (λ (x : String). some x) same_id;
                              listed = i;
                              active = active;
                              id_is = refl;
                              email_is = refl;
                            },
                          )
                    ]
                  ]
            ]
          ]
        ]
      ]
