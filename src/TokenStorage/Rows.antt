-- ===== src/TokenStorage/Rows.antt =====
-- The rows of the RefreshToken table under the statements that the token storage issues.
use nestjs_api_starter.Prelude.{
  ℕ, String, ◌≡◌, refl, inl, inr, Bool, true, false, List, [], ◌∷◌, str_eq, ◌&&◌, arith, eq_iff,
  Bool-cases, All, Any, Apart, count, change,
}
use nestjs_api_starter.TokenStorage.{RefreshToken, same_token, is_live, valid_where, revoke_at}

-- What a statement may do to the table: revoke the rows that a `where` selects, or add one row
-- that breaks no unique constraint.
pub data Evolves : List RefreshToken → List RefreshToken → Type 0 where
  same : {rs : List RefreshToken} → Evolves rs rs
  revoking :
      {rs : List RefreshToken} (p : RefreshToken → Bool) (stamp : ℕ)
      → Evolves rs (change p (revoke_at stamp) rs)
  adding :
      {rs : List RefreshToken} (r : RefreshToken)
      → All (λ x. same_token r x ≡ false) rs
      → Evolves rs (r ∷ rs)
  both : {rs ts us : List RefreshToken} → Evolves rs ts → Evolves ts us → Evolves rs us

module _ (hash : String) where
  abbrev pub has_hash : RefreshToken → Bool
  has_hash r = str_eq r.token_hash hash

  abbrev pub live_hash : RefreshToken → Bool
  live_hash r = str_eq r.token_hash hash && is_live r

  -- The table knows the digest, and every row that has it is revoked.
  pub record IsSpent (rs : List RefreshToken) : Type 0 where
    pub revoked : All (λ r. live_hash r ≡ false) rs
    pub known : Any (λ r. has_hash r ≡ true) rs

  change-revoked :
      (p : RefreshToken → Bool) (stamp : ℕ) (rs : List RefreshToken)
      → All (λ r. live_hash r ≡ false) rs
      → All (λ r. live_hash r ≡ false) (change p (revoke_at stamp) rs)
  change-revoked p stamp [] h = tt
  change-revoked p stamp (r ∷ rs) h = (ground arith, change-revoked p stamp rs h.1)

  change-known :
      (p : RefreshToken → Bool) (stamp : ℕ) (rs : List RefreshToken)
      → Any (λ r. has_hash r ≡ true) rs
      → Any (λ r. has_hash r ≡ true) (change p (revoke_at stamp) rs)
  change-known p stamp [] h = absurd h
  change-known p stamp (r ∷ rs) (inl h) = inl (ground arith)
  change-known p stamp (r ∷ rs) (inr h) = inr (change-known p stamp rs h)

  -- A digest that the table knows cannot be that of a new row.
  new-hash :
      (r : RefreshToken) (rs : List RefreshToken)
      → All (λ x. same_token r x ≡ false) rs
      → Any (λ x. has_hash x ≡ true) rs
      → has_hash r ≡ false
  new-hash r [] h i = absurd i
  new-hash r (x ∷ rs) h (inl i) =
      ground (
        arith,
        eq_iff r.token_hash hash,
        eq_iff x.token_hash hash,
        eq_iff r.token_hash x.token_hash,
      )
  new-hash r (x ∷ rs) h (inr i) = new-hash r rs h.1 i

  -- Once spent, spent for good.
  pub Evolves-IsSpent : {rs ts : List RefreshToken} → Evolves rs ts → IsSpent rs → IsSpent ts
  Evolves-IsSpent same v = v
  Evolves-IsSpent (revoking {rs} p stamp) v = record {
    revoked = change-revoked p stamp rs v.revoked;
    known = change-known p stamp rs v.known;
  }
  Evolves-IsSpent (adding {rs} r h) v = record {
    revoked = (ground (arith, new-hash r rs h v.known), v.revoked);
    known = inr v.known;
  }
  Evolves-IsSpent (both e f) v = Evolves-IsSpent f (Evolves-IsSpent e v)

  pub IsSpent-count :
      (now : ℕ) (rs : List RefreshToken)
      → All (λ r. live_hash r ≡ false) rs
      → count (valid_where hash now) rs ≡ 0
  IsSpent-count now [] h = refl
  IsSpent-count now (r ∷ rs) h = ground (arith, IsSpent-count now rs h.1)

change-apart :
    (p : RefreshToken → Bool) (stamp : ℕ) (a : RefreshToken) (rs : List RefreshToken)
    → All (λ x. same_token a x ≡ false) rs
    → All (λ x. same_token a x ≡ false) (change p (revoke_at stamp) rs)
change-apart p stamp a [] h = tt
change-apart p stamp a (r ∷ rs) h = (ground arith, change-apart p stamp a rs h.1)

change-Apart :
    (p : RefreshToken → Bool) (stamp : ℕ) (rs : List RefreshToken)
    → Apart same_token rs
    → Apart same_token (change p (revoke_at stamp) rs)
change-Apart p stamp [] h = tt
change-Apart p stamp (r ∷ rs) h = (
  elim (Bool-cases (p r)) [
    | inl e ↦ rw e (change-apart p stamp (revoke_at stamp r) rs h.0)
    | inr e ↦ rw e (change-apart p stamp r rs h.0)
  ],
  change-Apart p stamp rs h.1,
)

-- Every statement keeps ids and digests unique.
pub Evolves-Apart :
    {rs ts : List RefreshToken} → Evolves rs ts → Apart same_token rs → Apart same_token ts
Evolves-Apart same h = h
Evolves-Apart (revoking {rs} p stamp) h = change-Apart p stamp rs h
Evolves-Apart (adding r new) h = (new, h)
Evolves-Apart (both e f) h = Evolves-Apart f (Evolves-Apart e h)
