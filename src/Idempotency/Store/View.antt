-- ===== src/Idempotency/Store/View.antt =====
-- A table as a function from identities to entries: what its statements do to that function.
use nestjs_api_starter.Prelude.{
  String, ◌≡◌, refl, ap, fun_ext, sym, ◌∙◌, ◌⊎◌, inl, inr, Bool, true, false, Option, none, some,
  List, [], ◌∷◌, arith, Apart, Bool-cases, All, All-map, IsIn, str_eq, keep, change, not,
  or_default, if◌then◌else◌,
}
use nestjs_api_starter.Json.{null}
use nestjs_api_starter.Idempotency.Store.{
  IdempotencyIdentity, IdempotencyKey, same_key, same_identity, has_identity, classify,
  CompleteIdempotencyInput, completed, status_completed, to_headers,
}
use nestjs_api_starter.Idempotency.Store.Sweep.{All-keep}
use nestjs_api_starter.Idempotency.Store.Rows.{same_identity_iff, same_identity_refl}
use nestjs_api_starter.Idempotency.Store.Spec.{
  Entry, Response, put, drop_if, responded_slot, answer,
}

abbrev pub response_of : IdempotencyKey → Option Response
response_of r =
    if str_eq r.status status_completed
    then some (record {
      response_status = or_default r.response_status 200;
      response_body = or_default r.response_body null;
      response_headers = to_headers r.response_headers;
    })
    else none

abbrev pub entry_of : IdempotencyKey → Entry
entry_of r = record {
  request_hash = r.request_hash;
  response = response_of r;
  expires_at = r.expires_at;
}

abbrev pub view : List IdempotencyKey → IdempotencyIdentity → Option Entry
view [] d = none
view (r ∷ rs) d = if has_identity d r then some (entry_of r) else view rs d

pub classify-answer : (r : IdempotencyKey) (h : String) → classify r h ≡ answer (entry_of r) h
unfolding classify
classify-answer r h = ground arith

pub view-none :
    (d : IdempotencyIdentity) (rs : List IdempotencyKey)
    → All (λ r. has_identity d r ≡ false) rs
    → view rs d ≡ none
view-none d [] h = refl
view-none d (r ∷ rs) h = rw h.0 (view-none d rs h.1)

pub view-cases :
    (d : IdempotencyIdentity) (rs : List IdempotencyKey)
    → ((view rs d ≡ none) × All (λ r. has_identity d r ≡ false) rs)
      ⊎ ((r : IdempotencyKey) × (view rs d ≡ some (entry_of r))
          × IsIn r rs
          × (has_identity d r ≡ true))
view-cases d [] = inl (refl, tt)
view-cases d (x ∷ rs) = elim (Bool-cases (has_identity d x)) [
  | inl e ↦ inr (x, rw e, inl refl, e)
  | inr e ↦ elim (view-cases d rs) [
    | inl (v, h) ↦ inl (rw e v, (e, h))
    | inr (r, v, i, h) ↦ inr (r, rw e v, inr i, h)
  ]
]

others_apart :
    (d : IdempotencyIdentity) (r : IdempotencyKey) (rs : List IdempotencyKey)
    → has_identity d r ≡ true
    → All (λ x. same_key r x ≡ false) rs
    → All (λ x. has_identity d x ≡ false) rs
others_apart d r rs own =
    All-map
      (λ x apart. ground (
        arith,
        same_identity_iff x.identity d,
        same_identity_iff r.identity d,
        same_identity_refl d,
      ))
      rs

-- A row has one identity.
has_identity_ne :
    (d x : IdempotencyIdentity) (r : IdempotencyKey)
    → same_identity x d ≡ false
    → has_identity d r ≡ true
    → has_identity x r ≡ false
has_identity_ne d x r ne own =
    ground
      (arith, same_identity_iff r.identity d, same_identity_iff r.identity x, same_identity_refl d)

module _ (d : IdempotencyIdentity) (p : IdempotencyKey → Bool) where
  -- A deletion of rows of one identity empties its slot, or leaves it,
  pub view-keep_own :
      (q : Entry → Bool) (rs : List IdempotencyKey)
      → Apart same_key rs
      → All (λ r. has_identity d r ≡ true → p r ≡ q (entry_of r)) rs
      → All (λ r. has_identity d r ≡ false → p r ≡ false) rs
      → view (keep (λ r. not (p r)) rs) d ≡ drop_if q (view rs d)
  view-keep_own q [] u own apart = refl
  view-keep_own q (r ∷ rs) u own apart = elim (Bool-cases (has_identity d r)) [
    | inl e ↦ elim (Bool-cases (p r)) [
      | inl gone ↦
          rw (e, gone, sym (own.0 e) ∙ gone)
            (view-none d _ (All-keep _ _ rs (others_apart d r rs e u.0)))
      | inr left ↦ rw (e, left, sym (own.0 e) ∙ left, e) refl
    ]
    | inr e ↦ rw (e, apart.0 e, e) (view-keep_own q rs u.1 own.1 apart.1)
  ]

  -- and leaves the slots of the others.
  pub view-keep_other :
      (x : IdempotencyIdentity) (rs : List IdempotencyKey)
      → same_identity x d ≡ false
      → All (λ r. has_identity d r ≡ false → p r ≡ false) rs
      → view (keep (λ r. not (p r)) rs) x ≡ view rs x
  view-keep_other x [] ne apart = refl
  view-keep_other x (r ∷ rs) ne apart = elim (Bool-cases (p r)) [
    | inl gone ↦ elim (Bool-cases (has_identity d r)) [
      | inl e ↦ rw (gone, has_identity_ne d x r ne e) (view-keep_other x rs ne apart.1)
      | inr e ↦ absurd (ground (arith, apart.0 e))
    ]
    | inr left ↦ rw (left, view-keep_other x rs ne apart.1) refl
  ]

module _ (done : CompleteIdempotencyInput) where
  -- A completion is stored in the slot of its identity,
  pub view-change_own :
      (rs : List IdempotencyKey)
      → view (change (has_identity done.identity) (completed done) rs) done.identity
        ≡ responded_slot done (view rs done.identity)
  view-change_own [] = refl
  view-change_own (r ∷ rs) = elim (Bool-cases (has_identity done.identity r)) [
    | inl e ↦ rw (e, e) refl
    | inr e ↦ rw (e, e) (view-change_own rs)
  ]

  -- and in no other.
  pub view-change_other :
      (x : IdempotencyIdentity) (rs : List IdempotencyKey)
      → same_identity x done.identity ≡ false
      → view (change (has_identity done.identity) (completed done) rs) x ≡ view rs x
  view-change_other x [] ne = refl
  view-change_other x (r ∷ rs) ne = elim (Bool-cases (has_identity done.identity r)) [
    | inl e ↦ rw (e, has_identity_ne done.identity x r ne e) (view-change_other x rs ne)
    | inr e ↦ rw (e, view-change_other x rs ne) refl
  ]

-- A table that gives one slot a new entry, and differs in no other.
pub view-put :
    (d : IdempotencyIdentity) (entry : Option Entry) (rs rs' : List IdempotencyKey)
    → view rs' d ≡ entry
    → ((x : IdempotencyIdentity) → same_identity x d ≡ false → view rs' x ≡ view rs x)
    → view rs' ≡ put d entry (view rs)
view-put d entry rs rs' own apart = fun_ext λ x. elim (Bool-cases (same_identity x d)) [
  | inl e ↦ rw e (ap (view rs') (same_identity_iff x d e) ∙ own)
  | inr e ↦ rw e (apart x e)
]
