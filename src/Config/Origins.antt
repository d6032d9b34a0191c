-- ===== src/Config/Origins.antt =====
-- The configured origins, parsed and written out again.
use nestjs_api_starter.Prelude.{
  ℕ, ◌≡◌, refl, ap, inl, inr, true, false, Option, List, [], ◌∷◌, ◌++◌, map, keep, All, ◌⊎◌,
  Bool-cases, or_default, ◌==◌,
}
use nestjs_api_starter.Json.{Text}
use nestjs_api_starter.Ttl.{is_space, trim_start, trim_end, push_unless_space}
use nestjs_api_starter.Config.{push_head, split_commas, trim, is_filled, cors_origins}

abbrev pub NoComma : Text → Type 0
NoComma = All (λ c. (c == 44) ≡ false)

-- The items with commas between them.
abbrev pub join : List Text → Text
join [] = []
join (o ∷ []) = o
join (o ∷ p ∷ os) = o ++ 44 ∷ join (p ∷ os)

push-solid : (c : ℕ) (x : Text) → is_space c ≡ false → push_unless_space c x ≡ c ∷ x
push-solid c [] h = rw h refl
push-solid c (y ∷ ys) h = refl

trim_end-push :
    (c : ℕ) (x : Text) → trim_end x ≡ x → trim_end (push_unless_space c x) ≡ push_unless_space c x
unfolding trim_end
trim_end-push c [] h = elim (Bool-cases (is_space c)) [ inl e ↦ rw e refl | inr e ↦ rw (e, e) refl ]
trim_end-push c (y ∷ ys) h = ap (push_unless_space c) h

trim_end-trim_end : (t : Text) → trim_end (trim_end t) ≡ trim_end t
unfolding trim_end
trim_end-trim_end [] = refl
trim_end-trim_end (c ∷ cs) = trim_end-push c (trim_end cs) (trim_end-trim_end cs)

-- What is left begins with no space.
trim_start-cases :
    (t : Text)
    → (trim_start t ≡ []) ⊎ ((c : ℕ) × (cs : Text) × (trim_start t ≡ c ∷ cs) × (is_space c ≡ false))
unfolding trim_start
trim_start-cases [] = inl refl
trim_start-cases (c ∷ cs) = elim (Bool-cases (is_space c)) [
  | inl e ↦ elim (trim_start-cases cs) [
    | inl h ↦ inl (rw e h)
    | inr (x, xs, h, solid) ↦ inr (x, xs, rw e h, solid)
  ]
  | inr e ↦ inr (c, cs, rw e refl, e)
]

trim-trim : (t : Text) → trim (trim t) ≡ trim t
unfolding trim_start trim_end
trim-trim t = elim (trim_start-cases t) [
  | inl h ↦ rw h refl
  | inr (c, cs, h, solid) ↦
      let whole : trim t ≡ c ∷ trim_end cs = rw h (push-solid c (trim_end cs) solid) in
      rw (whole, solid, trim_end-trim_end cs) (push-solid c (trim_end cs) solid)
]

trim_start-NoComma : (t : Text) → NoComma t → NoComma (trim_start t)
unfolding trim_start
trim_start-NoComma [] h = tt
trim_start-NoComma (c ∷ cs) h = elim (Bool-cases (is_space c)) [
  | inl e ↦ rw e (trim_start-NoComma cs h.1)
  | inr e ↦ rw e h
]

push-NoComma : (c : ℕ) (x : Text) → (c == 44) ≡ false → NoComma x → NoComma (push_unless_space c x)
push-NoComma c [] e h = elim (Bool-cases (is_space c)) [ inl k ↦ rw k tt | inr k ↦ rw k (e, tt) ]
push-NoComma c (y ∷ ys) e h = (e, h)

trim_end-NoComma : (t : Text) → NoComma t → NoComma (trim_end t)
unfolding trim_end
trim_end-NoComma [] h = tt
trim_end-NoComma (c ∷ cs) h = push-NoComma c (trim_end cs) h.0 (trim_end-NoComma cs h.1)

push_head-NoComma :
    (c : ℕ) (xs : List Text) → (c == 44) ≡ false → All NoComma xs → All NoComma (push_head c xs)
push_head-NoComma c [] e h = ((e, tt), tt)
push_head-NoComma c (x ∷ xs) e h = ((e, h.0), h.1)

split_commas-NoComma : (t : Text) → All NoComma (split_commas t)
unfolding split_commas
split_commas-NoComma [] = (tt, tt)
split_commas-NoComma (c ∷ cs) = elim (Bool-cases (c == 44)) [
  | inl e ↦ rw e (tt, split_commas-NoComma cs)
  | inr e ↦ rw e (push_head-NoComma c (split_commas cs) e (split_commas-NoComma cs))
]

-- An origin: not empty, with no space at its ends and no comma.
abbrev pub IsOrigin : Text → Type 0
IsOrigin o = (is_filled o ≡ true) × (trim o ≡ o) × NoComma o

trimmed-IsOrigin : (xs : List Text) → All NoComma xs → All IsOrigin (keep is_filled (map trim xs))
trimmed-IsOrigin [] h = tt
trimmed-IsOrigin (x ∷ xs) h = elim (Bool-cases (is_filled (trim x))) [
  | inl e ↦ rw e (
    (e, trim-trim x, trim_end-NoComma (trim_start x) (trim_start-NoComma x h.0)),
    trimmed-IsOrigin xs h.1,
  )
  | inr e ↦ rw e (trimmed-IsOrigin xs h.1)
]

-- Whatever the variable holds, each of the origins that are allowed is not empty, has no white
-- space at its ends, and no comma.
pub cors_origins-IsOrigin : (env : Option Text) → All IsOrigin (cors_origins env)
unfolding cors_origins
cors_origins-IsOrigin env =
    trimmed-IsOrigin (split_commas (or_default env [])) (split_commas-NoComma (or_default env []))
