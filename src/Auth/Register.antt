-- ===== src/Auth/Register.antt =====
-- Registration.
use nestjs_api_starter.Prelude.{
  subst, sym, ℕ, String, ◌≡◌, refl, ap, ◌∙◌, inl, inr, Bool, true, false, Option, some, ◌∷◌, All,
  IsIn, str_eq,
}
use nestjs_api_starter.Effects.{Result, ok, err-ne-ok, Result-cases}
use nestjs_api_starter.Prisma.{Delegate}
use nestjs_api_starter.TokenStorage.{RefreshToken, same_token}
use nestjs_api_starter.Directory.{Directory, User, Role}
use nestjs_api_starter.Users.{CreateUserInput, create_user, user_data}
use nestjs_api_starter.Auth.{
  AuthResponseDto, AccessTokenPayload, RegisterDto, Stores, issue_token_pair, register,
}
use nestjs_api_starter.Auth.Issue.{Answer, Issues, issue_token_pair-Issues}

module _ (sha256 : String → String) (t : Delegate RefreshToken same_token) (d : Directory)
    (hash : String → Result String) (compare : String → String → Result Bool)
    (sign : AccessTokenPayload → ℕ → Result String) (ttl : Option String) (clock : ℕ → ℕ)
    (fresh : String) where
  abbrev pub new_user : RegisterDto → String → CreateUserInput
  new_user dto password_hash = record {
    email = dto.email;
    password_hash = password_hash;
    name = dto.name;
    role_name = some "user";
  }

  -- A registration that returns: no user had the address before, and now one has it, active, with
  -- the hash of the password, and with a role named 'user'; the pair was issued to that user: the
  -- new token is stored for the user and the access token is signed.
  pub register-ok :
      (dto : RegisterDto) (w : Stores d.State t.State) (pair : AuthResponseDto)
      → (register sha256 t d hash compare sign ttl clock fresh dto w).0 ≡ ok pair
      → (user : User) × (role : Role) × (let w' =
            (register sha256 t d hash compare sign ttl clock fresh dto w).1 in
          (user.email ≡ dto.email)
          × (user.is_active ≡ true)
          × (hash dto.password ≡ ok user.password_hash)
          × (d.users w'.directory ≡ user ∷ d.users w.directory)
          × All (λ u. str_eq u.email dto.email ≡ false) (d.users w.directory)
          × IsIn role (d.roles w.directory)
          × (role.name ≡ "user")
          × (d.has_role w'.directory user.id role.id ≡ true)
          × Issues sha256 t d hash compare sign ttl clock fresh user.id user.email pair
              (record w { directory = w'.directory })
              w')
  unfolding register create_user
  register-ok dto w pair e = elim (Result-cases (hash dto.password)) [
    | inr (x, failed) ↦ absurd (err-ne-ok (rw failed at e))
    | inl (password_hash, hashed) ↦
        let mk : String → User = user_data (new_user dto password_hash) (clock 2) in
        elim (d.create_user_law mk (some "user") w.directory) [
          | inr (x, failed) ↦ absurd (err-ne-ok (rw (hashed, failed) at e))
          | inl (id, s', created, users, roles, apart, links) ↦
              let w₁ : Stores d.State t.State = record w { directory = s' } in
              let same : register sha256 t d hash compare sign ttl clock fresh dto w
                  ≡ issue_token_pair sha256 t d hash compare sign ttl clock fresh id dto.email w₁ =
                rw (hashed, created) refl in
              let issued =
                issue_token_pair-Issues sha256 t d hash compare sign ttl clock fresh id dto.email w₁
                  pair (rw same at e) in
              let (role, i, named, linked) = links "user" refl in
              let dir =
                ap (λ (x : Answer sha256 t d hash compare sign ttl clock fresh). x.1.directory) same
                ∙ issued.6 in
              (
                mk id,
                role,
                (
                  refl,
                  refl,
                  hashed,
                  ap d.users dir ∙ users,
                  apart,
                  i,
                  named,
                  ap (λ s. d.has_role s id role.id) dir ∙ linked,
                  subst
                      (λ (x : Answer sha256 t d hash compare sign ttl clock fresh).
                        Issues sha256 t d hash compare sign ttl clock fresh id dto.email pair
                          (record w { directory = x.1.directory }) x.1)
                      (sym same) (issued.0, issued.1, issued.2, issued.3, issued.4, issued.5, refl),
                ),
              )
        ]
  ]
