-- ===== src/Auth/Unissued.antt =====
-- A configured refresh lifetime that cannot be parsed: no one checks it before a request does.
use nestjs_api_starter.Prelude.{
  ℕ, String, ◌≡◌, refl, sym, ◌∙◌, ap, inl, inr, Bool, Option, none, some, IsIn, or_default,
}
use nestjs_api_starter.Effects.{Result, ok, err, ok_injective, err-ne-ok}
use nestjs_api_starter.Json.{units}
use nestjs_api_starter.Ttl.{parse_ttl_to_ms}
use nestjs_api_starter.Prisma.{Delegate}
use nestjs_api_starter.TokenStorage.{RefreshToken, same_token}
use nestjs_api_starter.Directory.{Directory, User}
use nestjs_api_starter.Users.{create_user, user_data}
use nestjs_api_starter.Auth.{
  AccessTokenPayload, RegisterDto, Stores, invalid_ttl, issue_token_pair, register,
}
use nestjs_api_starter.Auth.Register.{new_user}

module _ (sha256 : String → String) (t : Delegate RefreshToken same_token) (d : Directory)
    (hash : String → Result String) (compare : String → String → Result Bool)
    (sign : AccessTokenPayload → ℕ → Result String) (ttl : Option String) (clock : ℕ → ℕ)
    (fresh : String) where
  -- If the configured refresh lifetime cannot be parsed, a registration whose password is hashed
  -- and whose account is inserted fails, with an error that names the lifetime and is no HTTP
  -- exception; no token is stored, and the account stays in the table.
  pub register-unparsed :
      (dto : RegisterDto) (w : Stores d.State t.State) (password_hash : String) (user : User)
      (s' : d.State)
      → parse_ttl_to_ms (units (or_default ttl "7d")) ≡ none
      → hash dto.password ≡ ok password_hash
      → d.create_user
          (user_data
            (new_user sha256 t d hash compare sign ttl clock fresh dto password_hash)
            (clock 2))
          (some "user")
          w.directory
        ≡ ok (user, s')
      → (register sha256 t d hash compare sign ttl clock fresh dto w
          ≡ (err (invalid_ttl (or_default ttl "7d")), record w { directory = s' }))
        × IsIn user (d.users s')
  unfolding register create_user issue_token_pair
  register-unparsed dto w password_hash user s' unparsed hashed created = (
    rw (hashed, created, unparsed) refl,
    elim (d.create_user_law
        (user_data (new_user sha256 t d hash compare sign ttl clock fresh dto password_hash)
          (clock 2))
        (some "user") w.directory) [
          | inr (x, failed) ↦ absurd (err-ne-ok (sym failed ∙ created))
          | inl (id, s₁, inserted, users, roles, apart, links) ↦
              let same = ok_injective (sym inserted ∙ created) in
              rw (← ap (λ (r : User × d.State). r.1) same, users)
                (inl (ap (λ (r : User × d.State). r.0) same))
        ],
  )
