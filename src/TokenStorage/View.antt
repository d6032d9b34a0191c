-- ===== src/TokenStorage/View.antt =====
-- A table as a function from digests to entries: what its statements do to that function.
use nestjs_api_starter.Prelude.{
  ℕ, String, ◌≡◌, refl, sym, ◌∙◌, inl, inr, Bool, true, false, none, some, List, [], ◌∷◌, arith,
  Apart, Bool-cases, All, Any, All-map, IsIn, str_eq, str_eq_of, eq_iff, change, count, is_some,
  ◌&&◌, if◌then◌else◌,
}
use nestjs_api_starter.TokenStorage.{RefreshToken, same_token, revoke_at}
use nestjs_api_starter.TokenStorage.Rows.{has_hash}
use nestjs_api_starter.TokenStorage.Revocation.{first_row}
use nestjs_api_starter.TokenStorage.Spec.{TokenEntry, Digests, only_if, close_if}

abbrev pub entry_of : RefreshToken → TokenEntry
entry_of r = record { user_id = r.user_id; expires_at = r.expires_at; revoked_at = r.revoked_at }

abbrev pub view : List RefreshToken → Digests
view [] hash = none
view (r ∷ rs) hash = if str_eq r.token_hash hash then some (entry_of r) else view rs hash

pub view-none :
    (hash : String) (rs : List RefreshToken)
    → All (λ r. has_hash hash r ≡ false) rs
    → view rs hash ≡ none
view-none hash [] h = refl
view-none hash (r ∷ rs) h = rw h.0 (view-none hash rs h.1)

pub view-at :
    (hash : String) (x : RefreshToken) (rs : List RefreshToken)
    → Apart same_token rs
    → IsIn x rs
    → str_eq x.token_hash hash ≡ true
    → view rs hash ≡ some (entry_of x)
view-at hash x [] a i h = absurd i
view-at hash x (r ∷ rs) a (inl e) h = rw (e, h) refl
view-at hash x (r ∷ rs) a (inr i) h = rw (first_row hash r x rs h a.0 i) (view-at hash x rs a.1 i h)

-- A new digest has no entry, and a taken one has.
pub view-new :
    (n : RefreshToken) (rs : List RefreshToken)
    → All (λ r. same_token n r ≡ false) rs
    → view rs n.token_hash ≡ none
view-new n rs h = view-none n.token_hash rs (
    All-map
      (λ r apart.
        ground (arith, eq_iff r.token_hash n.token_hash, eq_iff n.token_hash r.token_hash))
      rs h)

pub view-taken :
    (n : RefreshToken) (rs : List RefreshToken)
    → Any (λ r. same_token n r ≡ true) rs
    → (e : TokenEntry) × (view rs n.token_hash ≡ some e)
view-taken n [] i = absurd i
view-taken n (r ∷ rs) i = elim (Bool-cases (str_eq r.token_hash n.token_hash)) [
  | inl e ↦ (entry_of r, rw e refl)
  | inr e ↦ elim i [
    | inl own ↦
        absurd (ground (arith, eq_iff r.token_hash n.token_hash, eq_iff n.token_hash r.token_hash))
    | inr i' ↦ rw e (view-taken n rs i')
  ]
]

module _ (p : RefreshToken → Bool) (q : String → TokenEntry → Bool)
    (reads : (r : RefreshToken) → p r ≡ q r.token_hash (entry_of r)) (stamp : ℕ) where
  -- A revocation closes the entries of the rows that it selects.
  pub view-revoke :
      (rs : List RefreshToken) (x : String)
      → view (change p (revoke_at stamp) rs) x ≡ close_if (q x) stamp (view rs x)
  view-revoke [] x = refl
  view-revoke (r ∷ rs) x = elim (Bool-cases (str_eq r.token_hash x)) [
    | inl e ↦ elim (Bool-cases (p r)) [
      | inl hit ↦ rw (hit, e, ← str_eq_of _ _ e, sym (reads r) ∙ hit) refl
      | inr miss ↦ rw (miss, e, ← str_eq_of _ _ e, sym (reads r) ∙ miss) refl
    ]
    | inr e ↦ elim (Bool-cases (p r)) [
      | inl hit ↦ rw (hit, e) (view-revoke rs x)
      | inr miss ↦ rw (miss, e) (view-revoke rs x)
    ]
  ]

module _ (hash : String) (p : RefreshToken → Bool) (q : TokenEntry → Bool)
    (reads : (r : RefreshToken) → p r ≡ str_eq r.token_hash hash && q (entry_of r)) where
  -- No row selected: no entry passes.
  pub view-unselected :
      (rs : List RefreshToken) → All (λ r. p r ≡ false) rs → only_if q (view rs hash) ≡ none
  view-unselected [] h = refl
  view-unselected (r ∷ rs) h = elim (Bool-cases (str_eq r.token_hash hash)) [
    | inl e ↦ let miss : q (entry_of r) ≡ false = ground (arith, reads r, h.0) in rw (e, miss) refl
    | inr e ↦ rw e (view-unselected rs h.1)
  ]

  unselected : (rs : List RefreshToken) → All (λ r. has_hash hash r ≡ false) rs → count p rs ≡ 0
  unselected [] h = refl
  unselected (r ∷ rs) h = ground (arith, reads r, unselected rs h.1)

  -- With unique digests, a `where` on a digest selects a row if the entry passes.
  pub view-count :
      (rs : List RefreshToken)
      → Apart same_token rs
      → count p rs ≡ (if is_some (only_if q (view rs hash)) then 1 else 0)
  view-count [] a = refl
  view-count (r ∷ rs) a = elim (Bool-cases (str_eq r.token_hash hash)) [
    | inl e ↦
        let apart =
          All-map
            (λ x (other : same_token r x ≡ false). ground (
              arith,
              eq_iff r.token_hash hash,
              eq_iff x.token_hash hash,
              eq_iff r.token_hash x.token_hash,
            ))
            rs a.0 in
        let rest = unselected rs apart in
        elim (Bool-cases (q (entry_of r))) [
          | inl hit ↦ rw (reads r, rest, e, hit) refl
          | inr miss ↦ rw (reads r, rest, e, miss) refl
        ]
    | inr e ↦ rw (reads r, e) (omega (arith, view-count rs a.1))
  ]
