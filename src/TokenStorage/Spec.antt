-- ===== src/TokenStorage/Spec.antt =====
-- What token-storage.interface.ts promises of a storage, with no table: under each digest a user,
-- an expiry and a time of revocation. Ids and the order of the rows are forgotten.
use nestjs_api_starter.Prelude.{
  ℕ, String, Bool, Option, none, some, List, [], ◌∷◌, str_eq, ltb, not, is_some, ◌&&◌,
  if◌then◌else◌,
}
use nestjs_api_starter.Effects.{Exception, http, unauthorized, unique_violation}
use nestjs_api_starter.TokenStorage.{CreateRefreshTokenInput, RotateRefreshTokenInput}

pub record TokenEntry : Type 0 where
  pub user_id : String
  pub expires_at : ℕ
  pub revoked_at : Option ℕ

abbrev pub Digests : Type 0
Digests = String → Option TokenEntry

-- The operations of the interface with the clock readings of each, and what they return or throw.
pub data Operation : Type 0 where
  creating : CreateRefreshTokenInput → Operation
  finding : (token : String) → (now : ℕ) → Operation
  finding_revoked : (token : String) → (now : ℕ) → Operation
  rotating : RotateRefreshTokenInput → (now stamp : ℕ) → Operation
  revoking : (token user_id : String) → (stamp : ℕ) → Operation
  revoking_all : (user_id : String) → (stamp : ℕ) → Operation

pub data Reply : Type 0 where
  stored : TokenEntry → Reply
  found : Option TokenEntry → Reply
  refused : Exception → Reply
  done : Reply

abbrev pub put : String → TokenEntry → Digests → Digests
put hash e digests x = if str_eq hash x then some e else digests x

abbrev pub only_if : (TokenEntry → Bool) → Option TokenEntry → Option TokenEntry
only_if q none = none
only_if q (some e) = if q e then some e else none

abbrev pub issued : String → ℕ → TokenEntry
issued user_id expires_at = record { user_id = user_id; expires_at = expires_at; revoked_at = none }

abbrev pub is_open : TokenEntry → Bool
is_open e = not (is_some e.revoked_at)

abbrev pub is_usable : ℕ → TokenEntry → Bool
is_usable now e = is_open e && ltb now e.expires_at

abbrev pub is_reused : ℕ → TokenEntry → Bool
is_reused now e = is_some e.revoked_at && ltb now e.expires_at

abbrev pub is_open_of : String → TokenEntry → Bool
is_open_of user_id e = is_open e && str_eq e.user_id user_id

abbrev pub closed : ℕ → TokenEntry → TokenEntry
closed stamp e = record e { revoked_at = some stamp }

abbrev pub close_if : (TokenEntry → Bool) → ℕ → Option TokenEntry → Option TokenEntry
close_if q stamp none = none
close_if q stamp (some e) = some (if q e then closed stamp e else e)

-- A digest is used once; a refusal leaves what was there before.
abbrev pub add : String → TokenEntry → Digests → Digests → Option TokenEntry → Reply × Digests
add hash e before digests none = (stored e, put hash e digests)
add hash e before digests (some taken) = (refused unique_violation, before)

module _ (sha256 : String → String) where
  -- The entry of the presented token, if it is usable, is closed, and its user gets a successor.
  abbrev pub rotate_entry :
      RotateRefreshTokenInput → ℕ → Digests → Option TokenEntry → Reply × Digests
  rotate_entry input stamp digests none =
      (refused (http unauthorized "Invalid refresh token."), digests)
  rotate_entry input stamp digests (some e) =
      let closing = put (sha256 input.current_token) (closed stamp e) digests in
      add (sha256 input.next_token) (issued e.user_id input.expires_at) digests closing
        (closing (sha256 input.next_token))

  abbrev pub spec_step : Operation → Digests → Reply × Digests
  spec_step (creating input) digests =
      add (sha256 input.token) (issued input.user_id input.expires_at) digests digests
        (digests (sha256 input.token))
  spec_step (finding token now) digests =
      (found (only_if (is_usable now) (digests (sha256 token))), digests)
  spec_step (finding_revoked token now) digests =
      (found (only_if (is_reused now) (digests (sha256 token))), digests)
  spec_step (rotating input now stamp) digests =
      rotate_entry input stamp digests
        (only_if (is_usable now) (digests (sha256 input.current_token)))
  spec_step (revoking token user_id stamp) digests = (
    done,
    λ x.
        if str_eq x (sha256 token)
        then close_if (is_open_of user_id) stamp (digests x)
        else digests x,
  )
  spec_step (revoking_all user_id stamp) digests =
      (done, λ x. close_if (is_open_of user_id) stamp (digests x))

  abbrev pub spec_run : List Operation → Digests → List Reply × Digests
  spec_run [] digests = ([], digests)
  spec_run (c ∷ cs) digests =
      let (reply, digests') = spec_step c digests in
      let (replies, last) = spec_run cs digests' in (reply ∷ replies, last)
