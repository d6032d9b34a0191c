-- ===== src/TokenStorage/Statements.antt =====
-- What the token storage's statements do to the entries, while the database answers.
use mathlib.Core.Option
use nestjs_api_starter.Prelude.{
  ℕ, String, ◌≡◌, refl, fun_ext, ◌∙◌, ◌⊎◌, inl, inr, Bool, true, false, Option, none, some, arith,
  Apart, Bool-cases, str_eq, str_eq_of, eq_iff, eq_refl, if◌then◌else◌, count, ◌&&◌,
}
use nestjs_api_starter.Effects.{ok, err, unique_violation, map_result}
use nestjs_api_starter.Prisma.{Delegate, IsUp}
use nestjs_api_starter.TokenStorage.{RefreshToken, same_token, new_row, to_stored, revoke_at}
use nestjs_api_starter.TokenStorage.Rows.{Evolves-Apart, revoking, adding}
use nestjs_api_starter.TokenStorage.Spec.{
  TokenEntry, Digests, found, put, only_if, issued, closed, close_if,
}
use nestjs_api_starter.TokenStorage.View.{
  entry_of, view, view-at, view-new, view-taken, view-revoke, view-unselected,
}
use nestjs_api_starter.TokenStorage.Operate.{shown, reply}

close_none : (stamp : ℕ) (o : Option TokenEntry) → close_if (λ e. false) stamp o ≡ o
close_none stamp none = refl
close_none stamp (some e) = refl

pub close_only :
    (hash x : String) (q : TokenEntry → Bool) (stamp : ℕ) (o : Option TokenEntry)
    → close_if (λ e. str_eq x hash && q e) stamp o
      ≡ (if str_eq x hash then close_if q stamp o else o)
close_only hash x q stamp o = elim (Bool-cases (str_eq x hash)) [
  | inl e ↦ rw e refl
  | inr e ↦ rw e (close_none stamp o)
]

close_passed :
    (q : TokenEntry → Bool) (stamp : ℕ) (e : TokenEntry) (o : Option TokenEntry)
    → only_if q o ≡ some e
    → close_if q stamp o ≡ some (closed stamp e)
close_passed q stamp e none h = cc
close_passed q stamp e (some x) h = ground arith

-- What closes the passing entry of one digest.
pub closed_one :
    (hash : String) (q : TokenEntry → Bool) (stamp : ℕ) (e : TokenEntry) (digests : Digests)
    → only_if q (digests hash) ≡ some e
    → (λ x. close_if (λ e. str_eq x hash && q e) stamp (digests x))
      ≡ put hash (closed stamp e) digests
closed_one hash q stamp e digests h = fun_ext λ x. elim (Bool-cases (str_eq hash x)) [
  | inl own ↦
      close_only hash x q stamp (digests x)
      ∙ rw (← str_eq_of _ _ own, eq_refl hash, close_passed q stamp e _ h) refl
  | inr apart ↦
      let other : str_eq x hash ≡ false = ground (arith, eq_iff x hash, eq_iff hash x) in
      close_only hash x q stamp (digests x) ∙ rw (other, apart) refl
]

module _ (sha256 : String → String) (t : Delegate RefreshToken same_token) (up : IsUp t) where
  -- The insertion of a new token: its digest is free, or it is taken.
  pub insertion :
      (user_id token : String) (expires_at : ℕ) (s : t.State)
      → Apart same_token (t.rows s)
      → ((id : String) × (s' : t.State) × (t.create (new_row sha256 t user_id token expires_at) s
            ≡ ok (new_row sha256 t user_id token expires_at id, s'))
          × Apart same_token (t.rows s')
          × (view (t.rows s) (sha256 token) ≡ none)
          × (view (t.rows s') ≡ put (sha256 token) (issued user_id expires_at) (view (t.rows s))))
        ⊎ ((e : TokenEntry) × (t.create (new_row sha256 t user_id token expires_at) s
              ≡ err unique_violation)
            × (view (t.rows s) (sha256 token) ≡ some e))
  insertion user_id token expires_at s a =
      elim (t.create_law (new_row sha256 t user_id token expires_at) s) [
        | inl (id, s', e, rows, new) ↦ inl (
          id,
          s',
          e,
          rw rows (Evolves-Apart (adding (new_row sha256 t user_id token expires_at id) new) a),
          view-new (new_row sha256 t user_id token expires_at id) (t.rows s) new,
          rw rows refl,
        )
        | inr (inl (id, e, taken)) ↦
            let (x, v) = view-taken (new_row sha256 t user_id token expires_at id) _ taken in
            inr (x, e, v)
        | inr (inr (x, e, other)) ↦ absurd (other (up.creates _ s x e))
      ]

  module _ (token : String) (p : RefreshToken → Bool) (q : TokenEntry → Bool)
      (reads : (r : RefreshToken)
        → p r ≡ str_eq r.token_hash (sha256 token) && q (entry_of r)) where
    -- A lookup by digest finds the entry, if it passes.
    pub lookup :
        (s : t.State)
        → Apart same_token (t.rows s)
        → reply
            (λ x. found (Option.map shown x))
            (map_result (Option.map to_stored) (t.find_first p s), s)
          ≡ (found (only_if q (view (t.rows s) (sha256 token))), s)
    lookup s a = elim (t.find_first_law p s) [
      | inl (e, h) ↦ rw (e, view-unselected (sha256 token) p q reads (t.rows s) h) refl
      | inr (inl (r, e, i, h)) ↦
          let has : str_eq r.token_hash (sha256 token) ≡ true = ground (arith, reads r) in
          let passes : q (entry_of r) ≡ true = ground (arith, reads r) in
          rw (e, view-at (sha256 token) r (t.rows s) a i has, passes) refl
      | inr (inr (x, e)) ↦ absurd (up.finds p s x e)
    ]

  -- A revocation returns, and closes the entries that it selects.
  pub revocation :
      (p : RefreshToken → Bool) (q : String → TokenEntry → Bool) (stamp : ℕ) (s : t.State)
      → ((r : RefreshToken) → p r ≡ q r.token_hash (entry_of r))
      → Apart same_token (t.rows s)
      → (s' : t.State) × (t.update_many p (revoke_at stamp) s ≡ ok (count p (t.rows s), s'))
        × Apart same_token (t.rows s')
        × (view (t.rows s') ≡ λ x. close_if (q x) stamp (view (t.rows s) x))
  revocation p q stamp s reads a = elim (t.update_many_law p (revoke_at stamp) s) [
    | inl (s', e, rows) ↦ (
      s',
      e,
      rw rows (Evolves-Apart (revoking p stamp) a),
      rw rows (fun_ext (view-revoke p q reads stamp (t.rows s))),
    )
    | inr (x, e) ↦ absurd (up.updates p _ s x e)
  ]
