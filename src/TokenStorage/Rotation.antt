-- ===== src/TokenStorage/Rotation.antt =====
-- A refresh token is good for one rotation, whatever else the table sees in between.
use nestjs_api_starter.Prelude.{
  ℕ, ◌+◌, ◌≤◌, String, ◌≡◌, refl, inl, inr, Bool, true, false, List, [], ◌∷◌, arith, Apart, change,
  Bool-cases, count, Any, All, if◌then◌else◌, str_eq, eq_iff, str_eq_of, ◌&&◌,
}
use nestjs_api_starter.Effects.{Result, ok, err}
use nestjs_api_starter.Prisma.{Delegate}
use nestjs_api_starter.TokenStorage.{
  RefreshToken, same_token, RotateRefreshTokenInput, StoredRefreshToken, rotate, valid_where,
  revoke_at,
}
use nestjs_api_starter.TokenStorage.Rows.{
  adding, Evolves-IsSpent, Evolves-Apart, IsSpent, IsSpent-count, live_hash, has_hash,
}
use nestjs_api_starter.TokenStorage.Steps.{
  Call, creates, rotates, revokes, revokes_all, step, step-Evolves, Rotated, rotate-cases,
}

abbrev is_ok : {A : Type 0} → Result A → Bool
is_ok (ok a) = true
is_ok (err e) = false

-- A row with another digest is neither selected nor live under this one.
other_hash :
    (hash : String) (now stamp : ℕ) (r : RefreshToken) (rs : List RefreshToken)
    → str_eq r.token_hash hash ≡ true
    → All (λ x. same_token r x ≡ false) rs
    → All (λ x. live_hash hash x ≡ false) (change (valid_where hash now) (revoke_at stamp) rs)
other_hash hash now stamp r [] h a = tt
other_hash hash now stamp r (x ∷ rs) h a = (
  ground
      (arith, eq_iff r.token_hash hash, eq_iff x.token_hash hash, eq_iff r.token_hash x.token_hash),
  other_hash hash now stamp r rs h a.1,
)

no_other :
    (hash : String) (r : RefreshToken) (rs : List RefreshToken)
    → All (λ x. same_token r x ≡ false) rs
    → Any (λ x. has_hash hash x ≡ true) rs
    → str_eq r.token_hash hash ≡ false
no_other hash r [] a i = absurd i
no_other hash r (x ∷ rs) a (inl i) =
    ground
      (arith, eq_iff r.token_hash hash, eq_iff x.token_hash hash, eq_iff r.token_hash x.token_hash)
no_other hash r (x ∷ rs) a (inr i) = no_other hash r rs a.1 i

has_hash_back :
    (hash : String) (now stamp : ℕ) (rs : List RefreshToken)
    → Any (λ x. has_hash hash x ≡ true) (change (valid_where hash now) (revoke_at stamp) rs)
    → Any (λ x. has_hash hash x ≡ true) rs
has_hash_back hash now stamp [] i = i
has_hash_back hash now stamp (x ∷ rs) (inl i) = inl (ground arith)
has_hash_back hash now stamp (x ∷ rs) (inr i) = inr (has_hash_back hash now stamp rs i)

-- The conditional revocation of exactly one row leaves the digest spent.
revocation-IsSpent :
    (hash : String) (now stamp : ℕ) (rs : List RefreshToken)
    → Apart same_token rs
    → count (valid_where hash now) rs ≡ 1
    → IsSpent hash (change (valid_where hash now) (revoke_at stamp) rs)
revocation-IsSpent hash now stamp [] a n = absurd (omega arith)
revocation-IsSpent hash now stamp (r ∷ rs) a n = elim (Bool-cases (valid_where hash now r)) [
  | inl v ↦ record {
    revoked = (ground arith, other_hash hash now stamp r rs (ground arith) a.0);
    known = inl (ground arith);
  }
  | inr v ↦
      let ih = revocation-IsSpent hash now stamp rs a.1 (ground arith) in
      record {
        revoked = (
          ground (arith, no_other hash r rs a.0 (has_hash_back hash now stamp rs ih.known)),
          ih.revoked,
        );
        known = inr ih.known;
      }
]

module _ (sha256 : String → String) (t : Delegate RefreshToken same_token) where
  -- the number of rotations of the token that return, along a history
  unfoldable pub rotations : String → List Call → t.State → ℕ
  rotations token [] s = 0
  rotations token (rotates input now stamp ∷ cs) s =
      (if str_eq input.current_token token && is_ok (rotate sha256 t input now stamp s).0
        then 1
        else 0)
      + rotations token cs (step sha256 t (rotates input now stamp) s)
  rotations token (c ∷ cs) s = rotations token cs (step sha256 t c s)

  Rotated-IsSpent :
      (input : RotateRefreshTokenInput) (now stamp : ℕ) (s s' : t.State)
      (stored : StoredRefreshToken)
      → Apart same_token (t.rows s)
      → Rotated sha256 t input now stamp s s' stored
      → IsSpent (sha256 input.current_token) (t.rows s')
  Rotated-IsSpent input now stamp s s' stored a r = rw r.written (
      Evolves-IsSpent _ (adding _ r.fresh)
        (revocation-IsSpent (sha256 input.current_token) now stamp (t.rows s) a r.once))

  spent-rotate :
      (input : RotateRefreshTokenInput) (now stamp : ℕ) (s : t.State)
      → IsSpent (sha256 input.current_token) (t.rows s)
      → is_ok (rotate sha256 t input now stamp s).0 ≡ false
  spent-rotate input now stamp s v = elim (rotate-cases sha256 t input now stamp s) [
    | inl (x, e) ↦ rw e
    | inr (stored, s', e, r) ↦
        absurd (
          omega
            (arith, r.once, IsSpent-count (sha256 input.current_token) now (t.rows s) v.revoked))
  ]

  rotations-spent :
      (token : String) (cs : List Call) (s : t.State)
      → IsSpent (sha256 token) (t.rows s)
      → rotations token cs s ≡ 0
  unfolding rotations
  rotations-spent token [] s v = refl
  rotations-spent token (rotates input now stamp ∷ cs) s v =
      let ih =
        rotations-spent token cs (step sha256 t (rotates input now stamp) s)
          (Evolves-IsSpent _ (step-Evolves sha256 t (rotates input now stamp) s) v) in
      elim (Bool-cases (str_eq input.current_token token)) [
        | inl e ↦ rw (e, spent-rotate input now stamp s (rw (str_eq_of _ _ e) v)) (omega arith)
        | inr e ↦ rw e (omega arith)
      ]
  rotations-spent token (creates input ∷ cs) s v =
      rotations-spent token cs _ (Evolves-IsSpent _ (step-Evolves sha256 t (creates input) s) v)
  rotations-spent token (revokes x user_id stamp ∷ cs) s v =
      rotations-spent token cs _
        (Evolves-IsSpent _ (step-Evolves sha256 t (revokes x user_id stamp) s) v)
  rotations-spent token (revokes_all user_id stamp ∷ cs) s v =
      rotations-spent token cs _
        (Evolves-IsSpent _ (step-Evolves sha256 t (revokes_all user_id stamp) s) v)

  rotate-then :
      (token : String) (input : RotateRefreshTokenInput) (now stamp : ℕ) (cs : List Call)
      (s : t.State)
      → Apart same_token (t.rows s)
      → str_eq input.current_token token ≡ true
      → is_ok (rotate sha256 t input now stamp s).0 ≡ true
      → rotations token cs (step sha256 t (rotates input now stamp) s) ≡ 0
  unfolding step
  rotate-then token input now stamp cs s a same won =
      elim (rotate-cases sha256 t input now stamp s) [
        | inl (x, e) ↦ absurd (ground arith)
        | inr (stored, s', e, r) ↦
            let spent : IsSpent (sha256 token) (t.rows (rotate sha256 t input now stamp s).1) =
              rw (e, ← str_eq_of _ _ same) (Rotated-IsSpent input now stamp s s' stored a r) in
            rotations-spent token cs _ spent
      ]

  -- In any history of creations, rotations and revocations, from any table whose digests are
  -- unique, at most one rotation of a token returns.
  pub rotations-le-one :
      (token : String) (cs : List Call) (s : t.State)
      → Apart same_token (t.rows s)
      → rotations token cs s ≤ 1
  unfolding rotations
  rotations-le-one token [] s a = omega arith
  rotations-le-one token (rotates input now stamp ∷ cs) s a =
      let ih =
        rotations-le-one token cs (step sha256 t (rotates input now stamp) s)
          (Evolves-Apart (step-Evolves sha256 t (rotates input now stamp) s) a) in
      ground (arith, rotate-then token input now stamp cs s a)
  rotations-le-one token (creates input ∷ cs) s a =
      rotations-le-one token cs _ (Evolves-Apart (step-Evolves sha256 t (creates input) s) a)
  rotations-le-one token (revokes x user_id stamp ∷ cs) s a =
      rotations-le-one token cs _
        (Evolves-Apart (step-Evolves sha256 t (revokes x user_id stamp) s) a)
  rotations-le-one token (revokes_all user_id stamp ∷ cs) s a =
      rotations-le-one token cs _
        (Evolves-Apart (step-Evolves sha256 t (revokes_all user_id stamp) s) a)
