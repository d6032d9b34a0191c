-- ===== src/TokenStorage/Revocation.antt =====
-- Revocation by logout and by reuse detection, and what the two lookups can return after it.
use nestjs_api_starter.Prelude.{
  ℕ, String, ◌≡◌, ap, inl, inr, Bool, true, false, some, List, [], ◌∷◌, arith, Apart, change, All,
  IsIn, str_eq, eq_iff, All-IsIn, ◌≢◌, str_eq_of, sym, ◌∙◌,
}
use nestjs_api_starter.Effects.{Result, ok, exec, pure, ◌>>◌}
use nestjs_api_starter.Prisma.{Delegate}
use nestjs_api_starter.TokenStorage.{
  RefreshToken, same_token, StoredRefreshToken, valid_where, revoked_where, owned_where, user_where,
  revoke_at, find_valid, find_revoked, to_stored, revoke, revoke_all_for_user,
}
use nestjs_api_starter.TokenStorage.Rows.{Evolves, same, both, Evolves-IsSpent, IsSpent, live_hash}
use nestjs_api_starter.TokenStorage.Steps.{Call, step, step-Evolves}

other_rows :
    (hash : String) (p : RefreshToken → Bool) (stamp : ℕ) (r : RefreshToken)
    (rs : List RefreshToken)
    → str_eq r.token_hash hash ≡ true
    → All (λ x. same_token r x ≡ false) rs
    → All (λ x. live_hash hash x ≡ false) (change p (revoke_at stamp) rs)
other_rows hash p stamp r [] h a = tt
other_rows hash p stamp r (x ∷ rs) h a = (
  ground
      (arith, eq_iff r.token_hash hash, eq_iff x.token_hash hash, eq_iff r.token_hash x.token_hash),
  other_rows hash p stamp r rs h a.1,
)

pub first_row :
    (hash : String) (r x : RefreshToken) (rs : List RefreshToken)
    → str_eq x.token_hash hash ≡ true
    → All (λ y. same_token r y ≡ false) rs
    → IsIn x rs
    → str_eq r.token_hash hash ≡ false
first_row hash r x rs h a i =
    let apart = All-IsIn (λ y. same_token r y ≡ false) x rs a i in
    ground
      (arith, eq_iff r.token_hash hash, eq_iff x.token_hash hash, eq_iff r.token_hash x.token_hash)

-- Revoking by digest and owner, where the owner's row is there.
owned-IsSpent :
    (hash user_id : String) (stamp : ℕ) (x : RefreshToken) (rs : List RefreshToken)
    → Apart same_token rs
    → IsIn x rs
    → str_eq x.token_hash hash ≡ true
    → x.user_id ≡ user_id
    → IsSpent hash (change (owned_where hash user_id) (revoke_at stamp) rs)
owned-IsSpent hash user_id stamp x [] a i h u = absurd i
owned-IsSpent hash user_id stamp x (r ∷ rs) a (inl e) h u = record {
  revoked = (
    ground (arith, eq_iff r.user_id user_id, ap (λ (t : RefreshToken). t.user_id) e),
    other_rows hash _ stamp r rs (ground (arith, e)) a.0,
  );
  known = inl (ground (arith, e));
}
owned-IsSpent hash user_id stamp x (r ∷ rs) a (inr i) h u =
    let ih = owned-IsSpent hash user_id stamp x rs a.1 i h u in
    record {
      revoked = (ground (arith, first_row hash r x rs h a.0 i), ih.revoked);
      known = inr ih.known;
    }

-- A digest has one row.
pub same_row :
    (r q : RefreshToken) (rs : List RefreshToken)
    → Apart same_token rs
    → IsIn r rs
    → IsIn q rs
    → r.token_hash ≡ q.token_hash
    → r ≡ q
same_row r q [] a i j e = absurd i
same_row r q (x ∷ rs) a (inl i) (inl j) e = sym i ∙ j
same_row r q (x ∷ rs) a (inl i) (inr j) e =
    let apart = All-IsIn (λ y. same_token x y ≡ false) q rs a.0 j in
    absurd
      (ground (arith, eq_iff x.token_hash q.token_hash, ap (λ (t : RefreshToken). t.token_hash) i))
same_row r q (x ∷ rs) a (inr i) (inl j) e =
    let apart = All-IsIn (λ y. same_token x y ≡ false) r rs a.0 i in
    absurd
      (ground (arith, eq_iff x.token_hash r.token_hash, ap (λ (t : RefreshToken). t.token_hash) j))
same_row r q (x ∷ rs) a (inr i) (inr j) e = same_row r q rs a.1 i j e

swept :
    (user_id : String) (stamp : ℕ) (rs : List RefreshToken)
    → All (λ r. user_where user_id r ≡ false) (change (user_where user_id) (revoke_at stamp) rs)
swept user_id stamp [] = tt
swept user_id stamp (r ∷ rs) = (ground arith, swept user_id stamp rs)

module _ (sha256 : String → String) (t : Delegate RefreshToken same_token) where
  unfoldable pub run : List Call → t.State → t.State
  run [] s = s
  run (c ∷ cs) s = run cs (step sha256 t c s)

  run-Evolves : (cs : List Call) (s : t.State) → Evolves (t.rows s) (t.rows (run cs s))
  unfolding run
  run-Evolves [] s = same
  run-Evolves (c ∷ cs) s = both (step-Evolves sha256 t c s) (run-Evolves cs _)

  sweep-rows :
      (p : RefreshToken → Bool) (stamp : ℕ) (s s' : t.State)
      → (exec (t.update_many p (revoke_at stamp)) >> pure tt) s ≡ (ok tt, s')
      → t.rows s' ≡ change p (revoke_at stamp) (t.rows s)
  sweep-rows p stamp s s' done = elim (t.update_many_law p (revoke_at stamp) s) [
    | inl (s₁, e, rows) ↦
        ap t.rows (sym (ap (λ (r : Result (Unit {0}) × t.State). r.1) (rw e at done))) ∙ rows
    | inr (x, e) ↦ absurd (ground arith)
  ]

  pub find_valid-row :
      (token : String) (now : ℕ) (s : t.State) (x : StoredRefreshToken)
      → find_valid sha256 t token now s ≡ ok (some x)
      → (r : RefreshToken) × IsIn r (t.rows s)
        × (valid_where (sha256 token) now r ≡ true)
        × (x ≡ to_stored r)
  unfolding find_valid
  find_valid-row token now s x e = elim (t.find_first_law (valid_where (sha256 token) now) s) [
    | inl (e', _) ↦ absurd (ground arith)
    | inr (inl (r, e', i, h)) ↦ (r, i, h, ground arith)
    | inr (inr (y, e')) ↦ absurd (ground arith)
  ]

  pub find_revoked-row :
      (token : String) (now : ℕ) (s : t.State) (x : StoredRefreshToken)
      → find_revoked sha256 t token now s ≡ ok (some x)
      → (r : RefreshToken) × IsIn r (t.rows s)
        × (revoked_where (sha256 token) now r ≡ true)
        × (x ≡ to_stored r)
  unfolding find_revoked
  find_revoked-row token now s x e = elim (t.find_first_law (revoked_where (sha256 token) now) s) [
    | inl (e', _) ↦ absurd (ground arith)
    | inr (inl (r, e', i, h)) ↦ (r, i, h, ground arith)
    | inr (inr (y, e')) ↦ absurd (ground arith)
  ]

  pub IsSpent-find_valid :
      (token : String) (now : ℕ) (s : t.State) (x : StoredRefreshToken)
      → IsSpent (sha256 token) (t.rows s)
      → find_valid sha256 t token now s ≢ ok (some x)
  IsSpent-find_valid token now s x v e =
      let (r, i, h, _) = find_valid-row token now s x e in
      let dead = All-IsIn (λ r. live_hash (sha256 token) r ≡ false) r (t.rows s) v.revoked i in
      ground arith

  -- After `revokeAllForUser` returns, whatever token is looked up, none of the user's is valid.
  pub revoke_all_for_user-find_valid :
      (user_id : String) (stamp : ℕ) (s s' : t.State)
      → revoke_all_for_user sha256 t user_id stamp s ≡ (ok tt, s')
      → (token : String) (now : ℕ) (x : StoredRefreshToken)
      → find_valid sha256 t token now s' ≡ ok (some x)
      → x.user_id ≢ user_id
  unfolding revoke_all_for_user
  revoke_all_for_user-find_valid user_id stamp s s' done token now x e owner =
      let (r, i, h, is_r) = find_valid-row token now s' x e in
      let gone =
        All-IsIn (λ r. user_where user_id r ≡ false) r _ (swept user_id stamp (t.rows s))
          (rw (sweep-rows (user_where user_id) stamp s s' done) at i) in
      ground (arith, eq_iff r.user_id user_id, ap (λ (x : StoredRefreshToken). x.user_id) is_r)

  -- In a table whose digests are unique, after the logout of a valid token by its owner returns,
  -- the token is not valid again, whatever calls follow.
  pub revoke-final :
      (token user_id : String) (now stamp : ℕ) (s s' : t.State) (x : StoredRefreshToken)
      → Apart same_token (t.rows s)
      → find_valid sha256 t token now s ≡ ok (some x)
      → x.user_id ≡ user_id
      → revoke sha256 t token user_id stamp s ≡ (ok tt, s')
      → (cs : List Call) (later : ℕ) (y : StoredRefreshToken)
      → find_valid sha256 t token later (run cs s') ≢ ok (some y)
  unfolding revoke
  revoke-final token user_id now stamp s s' x a valid owner done cs later y =
      let (r, i, h, is_r) = find_valid-row token now s x valid in
      let spent : IsSpent (sha256 token) (t.rows s') =
        rw (sweep-rows (owned_where (sha256 token) user_id) stamp s s' done) (
          owned-IsSpent (sha256 token) user_id stamp r (t.rows s) a i (ground arith)
            (ap (λ (x : StoredRefreshToken). x.user_id) (sym is_r) ∙ owner)) in
      IsSpent-find_valid token later _ y (Evolves-IsSpent _ (run-Evolves cs s') spent)

  -- In a table whose digests are unique, a token is never both valid and revoked, at whatever times
  -- the two lookups run.
  pub find_valid-find_revoked :
      (token : String) (now later : ℕ) (s : t.State) (x y : StoredRefreshToken)
      → Apart same_token (t.rows s)
      → find_valid sha256 t token now s ≡ ok (some x)
      → find_revoked sha256 t token later s ≢ ok (some y)
  find_valid-find_revoked token now later s x y a valid revoked =
      let (r, i, h, _) = find_valid-row token now s x valid in
      let (q, j, k, _) = find_revoked-row token later s y revoked in
      let one = same_row r q (t.rows s) a i j (
        str_eq_of _ _ (ground arith)
        ∙ sym (str_eq_of q.token_hash (sha256 token) (ground arith))) in
      ground (arith, ap (λ (r : RefreshToken). r.revoked_at) one)
