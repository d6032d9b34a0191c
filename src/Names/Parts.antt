-- ===== src/Names/Parts.antt =====
-- What the names that match look like.
use nestjs_api_starter.Prelude.{
  ℕ, ◌≡◌, ◌↔◌, refl, ap, ◌∙◌, inl, inr, true, [], ◌∷◌, ◌++◌, ◌==◌, every, All, Bool-cases, arith,
  ◌<◌, All-map,
}
use nestjs_api_starter.Json.{Text}
use nestjs_api_starter.Names.{
  is_name_unit, role_name_pattern, after_resource, permission_name_pattern,
}

-- A word of lowercase letters, digits and dashes, with at least one.
abbrev pub IsWord : Text → Type 0
IsWord [] = ⊥
IsWord (c ∷ cs) = All (λ x. is_name_unit x ≡ true) (c ∷ cs)

every-All : (cs : Text) → every is_name_unit cs ≡ true → All (λ x. is_name_unit x ≡ true) cs
every-All [] e = tt
every-All (c ∷ cs) e = (ground arith, every-All cs (ground arith))

All-every : (cs : Text) → All (λ x. is_name_unit x ≡ true) cs → every is_name_unit cs ≡ true
All-every [] h = refl
All-every (c ∷ cs) h = rw (h.0, All-every cs h.1) refl

pub role_name_pattern-IsWord : (t : Text) → role_name_pattern t ≡ true ↔ IsWord t
unfolding role_name_pattern
role_name_pattern-IsWord [] = (λ e. ground arith, λ h. absurd h)
role_name_pattern-IsWord (c ∷ cs) = (λ e. every-All (c ∷ cs) e, λ h. All-every (c ∷ cs) h)

is_colon : (c : ℕ) → (c == 58) ≡ true → c ≡ 58
is_colon c e = ground arith

after_resource-split :
    (t : Text)
    → after_resource t ≡ true
    → (more action : Text) × (t ≡ more ++ (58 ∷ action))
      × All (λ x. is_name_unit x ≡ true) more
      × IsWord action
unfolding after_resource
after_resource-split [] e = absurd (ground arith)
after_resource-split (c ∷ cs) e = elim (Bool-cases (is_name_unit c)) [
  | inl h ↦
      let (more, action, same, all_more, word) = after_resource-split cs (rw h at e) in
      (c ∷ more, action, ap (λ (x : Text). c ∷ x) same, (h, all_more), word)
  | inr h ↦ elim (Bool-cases (c == 58)) [
    | inl colon ↦ (
      [],
      cs,
      ap (λ x. x ∷ cs) (is_colon c colon),
      tt,
      (role_name_pattern-IsWord cs).0 (rw (h, colon) at e),
    )
    | inr other ↦ absurd (ground (arith))
  ]
]

join-after_resource :
    (more action : Text)
    → All (λ x. is_name_unit x ≡ true) more
    → IsWord action
    → after_resource (more ++ (58 ∷ action)) ≡ true
unfolding after_resource
join-after_resource [] action h word = (role_name_pattern-IsWord action).1 word
join-after_resource (c ∷ cs) action h word = rw h.0 (join-after_resource cs action h.1 word)

-- Two words with a colon between them.
abbrev pub IsPair : Text → Type 0
IsPair t =
    (resource : Text) × (action : Text) × (t ≡ resource ++ (58 ∷ action))
    × IsWord resource
    × IsWord action

split-IsPair : (t : Text) → permission_name_pattern t ≡ true → IsPair t
unfolding permission_name_pattern
split-IsPair [] e = absurd (ground arith)
split-IsPair (c ∷ cs) e = elim (Bool-cases (is_name_unit c)) [
  | inl h ↦
      let (more, action, same, all_more, word) = after_resource-split cs (rw h at e) in
      (c ∷ more, action, ap (λ (x : Text). c ∷ x) same, (h, all_more), word)
  | inr h ↦ absurd (ground arith)
]

join-matches :
    (resource action : Text)
    → IsWord resource
    → IsWord action
    → permission_name_pattern (resource ++ (58 ∷ action)) ≡ true
unfolding permission_name_pattern
join-matches [] action h word = absurd h
join-matches (c ∷ cs) action h word = rw h.0 (join-after_resource cs action h.1 word)

-- A name matches the pattern of permissions exactly if it is two non-empty words of lowercase
-- letters, digits and dashes with a colon between them.
pub permission_name_pattern-IsPair : (t : Text) → permission_name_pattern t ≡ true ↔ IsPair t
permission_name_pattern-IsPair t = (
  split-IsPair t,
  λ (resource, action, same, word, word').
      ap permission_name_pattern same ∙ join-matches resource action word word',
)

-- Names have no surrogates.
abbrev pub IsPlain : Text → Type 0
IsPlain = All (λ c. c < 0xd800)

append-IsPlain : (xs ys : Text) → IsPlain xs → IsPlain ys → IsPlain (xs ++ ys)
append-IsPlain [] ys h k = k
append-IsPlain (x ∷ xs) ys h k = (h.0, append-IsPlain xs ys h.1 k)

pub IsWord-IsPlain : (t : Text) → IsWord t → IsPlain t
IsWord-IsPlain [] h = tt
IsWord-IsPlain (c ∷ cs) h = All-map (λ x unit. ground arith) (c ∷ cs) h

pub IsPair-IsPlain : (t : Text) → IsPair t → IsPlain t
IsPair-IsPlain t (resource, action, same, r, a) = rw same (
    append-IsPlain resource (58 ∷ action) (IsWord-IsPlain resource r)
      (omega arith, IsWord-IsPlain action a))
