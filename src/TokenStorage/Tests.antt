-- ===== src/TokenStorage/Tests.antt =====
-- The token storage at concrete inputs, over a table in memory and a digest that adds a mark.
use Prim.Native.String
use nestjs_api_starter.Prelude.{ℕ, ◌≤◌, String, ◌≡◌, refl, none, some, List, [], ◌∷◌, Option, Apart}
use nestjs_api_starter.Effects.{ok, err, http, unauthorized, unique_violation}
use nestjs_api_starter.Prisma.{Delegate}
use nestjs_api_starter.Prisma.Memory.{memory, memory-IsUp}
use nestjs_api_starter.TokenStorage.{
  RefreshToken, same_token, RotateRefreshTokenInput, find_valid, find_revoked, rotate, revoke,
}
use nestjs_api_starter.TokenStorage.Steps.{Call, step, rotates, revokes}
use nestjs_api_starter.TokenStorage.Successor.{Replaced, rotate-Replaced}
use nestjs_api_starter.TokenStorage.Spec.{
  Operation, creating, finding, finding_revoked, rotating, revoking, revoking_all, stored, found,
  refused, done, issued, spec_run,
}
use nestjs_api_starter.TokenStorage.View.{view}
use nestjs_api_starter.TokenStorage.Operate.{operate_all}
use nestjs_api_starter.TokenStorage.Refinement.{operate_all-spec_run}
use nestjs_api_starter.TokenStorage.Rotation.{rotations, rotations-le-one}

abbrev pub digest : String → String
digest s = String.◌++◌ "#" s

abbrev pub next_id : List RefreshToken → String
next_id [] = "id"
next_id (r ∷ rs) = String.◌++◌ r.id "+"

abbrev pub table : Delegate RefreshToken same_token
table = memory same_token next_id

abbrev pub row : String → String → Option ℕ → RefreshToken
row id token revoked_at = record {
  id = id;
  user_id = "ann";
  token_hash = digest token;
  expires_at = 100;
  revoked_at = revoked_at;
}

abbrev pub one_token : List RefreshToken
one_token = row "id" "t1" none ∷ []

abbrev pub next : RotateRefreshTokenInput
next = record { current_token = "t1"; next_token = "t2"; expires_at = 200 }

rotate_then_valid :
    (find_valid digest table "t2" 20 (rotate digest table next 10 11 one_token).1
      ≡ ok (some (record { id = "id+"; user_id = "ann"; expires_at = 200; revoked_at = none })))
    × (find_valid digest table "t1" 20 (rotate digest table next 10 11 one_token).1 ≡ ok none)
    × (find_revoked digest table "t1" 20 (rotate digest table next 10 11 one_token).1
        ≡ ok (some (record { id = "id"; user_id = "ann"; expires_at = 100; revoked_at = some 11 })))
unfolding rotate find_valid find_revoked
rotate_then_valid = (refl, refl, refl)

rotate_expired :
    rotate digest table next 100 101 one_token
    ≡ (err (http unauthorized "Invalid refresh token."), one_token)
unfolding rotate
rotate_expired = refl

abbrev pub history : List Call
history = rotates next 10 11 ∷ revokes "t9" "ann" 12 ∷ rotates next 13 14 ∷ []

rotations_run : rotations digest table "t1" history one_token ≡ 1
unfolding rotations rotate revoke step
rotations_run = refl

rotations-le-one_example : rotations digest table "t1" history one_token ≤ 1
rotations-le-one_example = rotations-le-one digest table "t1" history one_token (tt, tt)

rotate-Replaced_example :
    Replaced
      (digest "t1")
      (digest "t2")
      200
      10
      11
      one_token
      (rotate digest table next 10 11 one_token).1
      (record { id = "id+"; user_id = "ann"; expires_at = 200; revoked_at = none })
unfolding rotate
rotate-Replaced_example = rotate-Replaced digest table next 10 11 one_token _ _ (tt, tt) refl

abbrev mixed : List RefreshToken
mixed =
    record {
      id = "b";
      user_id = "bob";
      token_hash = digest "t3";
      expires_at = 100;
      revoked_at = none;
    }
    ∷ one_token

-- A user signs in again, rotates, presents the old token twice, and logs out.
abbrev session : List Operation
session =
    creating (record { user_id = "ann"; token = "t0"; expires_at = 150 })
    ∷ rotating next 10 11
    ∷ rotating next 12 13
    ∷ finding_revoked "t1" 14
    ∷ revoking "t2" "bob" 15
    ∷ finding "t2" 16
    ∷ revoking_all "ann" 17
    ∷ finding "t2" 18
    ∷ creating (record { user_id = "ann"; token = "t2"; expires_at = 300 })
    ∷ []

session_run :
    (spec_run digest session (view one_token)).0
    ≡ stored (issued "ann" 150)
      ∷ stored (issued "ann" 200)
      ∷ refused (http unauthorized "Invalid refresh token.")
      ∷ found (some (record { user_id = "ann"; expires_at = 100; revoked_at = some 11 }))
      ∷ done
      ∷ found (some (issued "ann" 200))
      ∷ done
      ∷ found none
      ∷ refused unique_violation
      ∷ []
session_run = refl

operate_all-spec_run_example :
    (s' : List RefreshToken) × (operate_all digest table session one_token
      ≡ ((spec_run digest session (view one_token)).0, s'))
    × Apart same_token s'
    × (view s' ≡ (spec_run digest session (view one_token)).1)
operate_all-spec_run_example =
    operate_all-spec_run digest table (memory-IsUp same_token next_id) (λ body s. refl) session
      one_token (tt, tt)
