-- ===== src/TokenStorage/Successor.antt =====
-- A rotation that returns, in a table whose digests are unique, in terms of the rows alone.
use nestjs_api_starter.Prelude.{
  ℕ, ◌<◌, String, ◌≡◌, refl, ap, sym, ◌∙◌, inl, inr, Bool, true, false, none, some, List, [], ◌∷◌,
  arith, Apart, Bool-cases, count, change, All, All-map, IsIn, str_eq, str_eq_of, eq_iff,
}
use nestjs_api_starter.Effects.{ok}
use nestjs_api_starter.Prisma.{Delegate}
use nestjs_api_starter.TokenStorage.{
  RefreshToken, same_token, RotateRefreshTokenInput, StoredRefreshToken, rotate, new_row,
  valid_where, revoke_at,
}
use nestjs_api_starter.TokenStorage.Rows.{has_hash}
use nestjs_api_starter.TokenStorage.Revocation.{first_row, same_row}
use nestjs_api_starter.TokenStorage.Steps.{rotate-Rotated}

-- the row of a digest that is live at a time, if the where of a rotation selects one row
valid_row :
    (hash : String) (now : ℕ) (rs : List RefreshToken)
    → count (valid_where hash now) rs ≡ 1
    → (r : RefreshToken) × IsIn r rs × (valid_where hash now r ≡ true)
valid_row hash now [] n = absurd (omega arith)
valid_row hash now (r ∷ rs) n = elim (Bool-cases (valid_where hash now r)) [
  | inl e ↦ (r, inl refl, e)
  | inr e ↦ let (x, i, h) = valid_row hash now rs (ground arith) in (x, inr i, h)
]

-- Where no row has the digest, neither test selects any.
untouched :
    (hash : String) (now stamp : ℕ) (rs : List RefreshToken)
    → All (λ r. has_hash hash r ≡ false) rs
    → change (valid_where hash now) (revoke_at stamp) rs
      ≡ change (has_hash hash) (λ r. record r { revoked_at = some stamp }) rs
untouched hash now stamp [] h = refl
untouched hash now stamp (r ∷ rs) h = rw h.0 (ap (λ xs. r ∷ xs) (untouched hash now stamp rs h.1))

-- With unique digests, the where of a rotation selects the row of the digest, if that is live.
selects_row :
    (hash : String) (now stamp : ℕ) (x : RefreshToken) (rs : List RefreshToken)
    → Apart same_token rs
    → IsIn x rs
    → valid_where hash now x ≡ true
    → change (valid_where hash now) (revoke_at stamp) rs
      ≡ change (has_hash hash) (λ r. record r { revoked_at = some stamp }) rs
selects_row hash now stamp x [] a i v = absurd i
selects_row hash now stamp x (r ∷ rs) a (inl e) v =
    let own : valid_where hash now r ≡ true = ap (valid_where hash now) e ∙ v in
    let has : has_hash hash r ≡ true = ground arith in
    let apart =
      All-map
        (λ y (other : same_token r y ≡ false). ground (
          arith,
          eq_iff r.token_hash hash,
          eq_iff y.token_hash hash,
          eq_iff r.token_hash y.token_hash,
        ))
        rs a.0 in
    rw (own, has) (ap (λ xs. revoke_at stamp r ∷ xs) (untouched hash now stamp rs apart))
selects_row hash now stamp x (r ∷ rs) a (inr i) v =
    let has : has_hash hash x ≡ true = ground arith in
    rw (first_row hash r x rs has a.0 i)
      (ap (λ xs. r ∷ xs) (selects_row hash now stamp x rs a.1 i v))

-- A revocation changes neither owner nor digest.
before :
    (p : RefreshToken → Bool) (stamp : ℕ) (y : RefreshToken) (rs : List RefreshToken)
    → IsIn y (change p (revoke_at stamp) rs)
    → (r : RefreshToken) × IsIn r rs × (y.user_id ≡ r.user_id) × (y.token_hash ≡ r.token_hash)
before p stamp y [] i = absurd i
before p stamp y (r ∷ rs) (inl e) = elim (Bool-cases (p r)) [
  | inl k ↦
      let same = rw k at e in
      (
        r,
        inl refl,
        ap (λ (x : RefreshToken). x.user_id) (sym same),
        ap (λ (x : RefreshToken). x.token_hash) (sym same),
      )
  | inr k ↦
      let same = rw k at e in
      (
        r,
        inl refl,
        ap (λ (x : RefreshToken). x.user_id) (sym same),
        ap (λ (x : RefreshToken). x.token_hash) (sym same),
      )
]
before p stamp y (r ∷ rs) (inr i) = let (x, j, u, h) = before p stamp y rs i in (x, inr j, u, h)

fresh_before :
    (p : RefreshToken → Bool) (stamp : ℕ) (n : RefreshToken) (rs : List RefreshToken)
    → All (λ x. same_token n x ≡ false) (change p (revoke_at stamp) rs)
    → All (λ r. str_eq r.token_hash n.token_hash ≡ false) rs
fresh_before p stamp n [] h = tt
fresh_before p stamp n (r ∷ rs) h = (
  ground (arith, eq_iff r.token_hash n.token_hash, eq_iff n.token_hash r.token_hash),
  fresh_before p stamp n rs h.1,
)

-- The presented token `old` and its successor `new`, as rows of the table before and after.
pub record Replaced (hash next_hash : String) (expires_at now stamp : ℕ)
    (rows rows' : List RefreshToken) (stored : StoredRefreshToken) : Type 0 where
  pub old : RefreshToken
  pub new : RefreshToken
  pub listed : IsIn old rows
  pub presented : old.token_hash ≡ hash
  pub was_live : old.revoked_at ≡ none
  pub was_unexpired : now < old.expires_at
  pub same_user : new.user_id ≡ old.user_id
  pub digest : new.token_hash ≡ next_hash
  pub expiry : new.expires_at ≡ expires_at
  pub is_live : new.revoked_at ≡ none
  pub unused : All (λ r. str_eq r.token_hash next_hash ≡ false) rows
  pub rows_after :
      rows'
      ≡ new
        ∷ change (λ r. str_eq r.token_hash hash) (λ r. record r { revoked_at = some stamp }) rows
  pub returned :
      stored
      ≡ record { id = new.id; user_id = old.user_id; expires_at = expires_at; revoked_at = none }

module _ (sha256 : String → String) (t : Delegate RefreshToken same_token) where
  -- In a table whose digests are unique, a rotation that returns found the row of the presented
  -- token, by its digest, live and unexpired. It revoked that row at the time of the stamp and
  -- added one live row, for the same user, with the digest and the expiry of the successor, a
  -- digest that no row had before; every other row is unchanged. It returned the new row without
  -- its digest.
  pub rotate-Replaced :
      (input : RotateRefreshTokenInput) (now stamp : ℕ) (s s' : t.State)
      (stored : StoredRefreshToken)
      → Apart same_token (t.rows s)
      → rotate sha256 t input now stamp s ≡ (ok stored, s')
      → Replaced
          (sha256 input.current_token)
          (sha256 input.next_token)
          input.expires_at
          now
          stamp
          (t.rows s)
          (t.rows s')
          stored
  rotate-Replaced input now stamp s s' stored unique done =
      let hash = sha256 input.current_token in
      let r = rotate-Rotated sha256 t input now stamp s s' stored done in
      let (old, i, valid) = valid_row hash now (t.rows s) r.once in
      let (owner, j, user, digest) =
        before (valid_where hash now) stamp r.owner (t.rows s) r.listed in
      let presented : old.token_hash ≡ hash = str_eq_of _ _ (ground arith) in
      let one : owner ≡ old =
        same_row owner old (t.rows s) unique j i
          (sym digest ∙ (str_eq_of _ _ r.presented ∙ sym presented)) in
      let same : r.owner.user_id ≡ old.user_id = user ∙ ap (λ (x : RefreshToken). x.user_id) one in
      let row = new_row sha256 t r.owner.user_id input.next_token input.expires_at r.id in
      record {
        old = old;
        new = row;
        listed = i;
        presented = presented;
        was_live = ground arith;
        was_unexpired = ground arith;
        same_user = same;
        digest = refl;
        expiry = refl;
        is_live = refl;
        unused = fresh_before (valid_where hash now) stamp row (t.rows s) r.fresh;
        rows_after =
            r.written
            ∙ ap (λ xs. row ∷ xs) (selects_row hash now stamp old (t.rows s) unique i valid);
        returned = r.returned ∙ rw same refl;
      }
