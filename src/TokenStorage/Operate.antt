-- ===== src/TokenStorage/Operate.antt =====
-- The methods of the token storage as its specification sees them: without ids, and a throw as a
-- reply.
use mathlib.Core.Option
use nestjs_api_starter.Prelude.{String, List, [], ◌∷◌}
use nestjs_api_starter.Effects.{Result, ok, err}
use nestjs_api_starter.Prisma.{Delegate}
use nestjs_api_starter.TokenStorage.{
  RefreshToken, same_token, StoredRefreshToken, create, find_valid, find_revoked, rotate, revoke,
  revoke_all_for_user,
}
use nestjs_api_starter.TokenStorage.Spec.{
  TokenEntry, Operation, creating, finding, finding_revoked, rotating, revoking_all, Reply, stored,
  found, refused, done,
}
use nestjs_api_starter.TokenStorage.Spec.{revoking as revoking_one}

-- A stored token without its id.
abbrev pub shown : StoredRefreshToken → TokenEntry
shown x = record { user_id = x.user_id; expires_at = x.expires_at; revoked_at = x.revoked_at }

module _ {A S : Type 0} where
  abbrev pub reply : (A → Reply) → Result A × S → Reply × S
  reply f (ok a, s) = (f a, s)
  reply f (err e, s) = (refused e, s)

module _ (sha256 : String → String) (t : Delegate RefreshToken same_token) where
  abbrev pub operate : Operation → t.State → Reply × t.State
  operate (creating input) s = reply (λ x. stored (shown x)) (create sha256 t input s)
  operate (finding token now) s =
      reply (λ x. found (Option.map shown x)) (find_valid sha256 t token now s, s)
  operate (finding_revoked token now) s =
      reply (λ x. found (Option.map shown x)) (find_revoked sha256 t token now s, s)
  operate (rotating input now stamp) s =
      reply (λ x. stored (shown x)) (rotate sha256 t input now stamp s)
  operate (revoking_one token user_id stamp) s =
      reply (λ _. done) (revoke sha256 t token user_id stamp s)
  operate (revoking_all user_id stamp) s =
      reply (λ _. done) (revoke_all_for_user sha256 t user_id stamp s)

  abbrev pub operate_all : List Operation → t.State → List Reply × t.State
  operate_all [] s = ([], s)
  operate_all (c ∷ cs) s =
      let (r, s') = operate c s in let (rs, last) = operate_all cs s' in (r ∷ rs, last)
