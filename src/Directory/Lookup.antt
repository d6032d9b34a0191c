-- ===== src/Directory/Lookup.antt =====
-- What a user that a lookup found is.
use nestjs_api_starter.Prelude.{◌≡◌, sym, ◌∙◌, subst, inl, inr, Bool, true, none, some, IsIn}
use nestjs_api_starter.Effects.{ok, ok_injective, err-ne-ok}
use nestjs_api_starter.Directory.{Directory, User}

pub none-ne-some : {A : Type 0} {a : A} → none ≡ some a → ⊥
none-ne-some e = cc

some_injective : {A : Type 0} {a b : A} → some a ≡ some b → a ≡ b
some_injective e = cc

module _ (d : Directory) (p : User → Bool) (s : d.State) (user : User) where
  pub find_user-IsIn : d.find_user p s ≡ ok (some user) → IsIn user (d.users s) × (p user ≡ true)
  find_user-IsIn found = elim (d.find_user_law p s) [
    | inl (missing, h) ↦ absurd (none-ne-some (ok_injective (sym missing ∙ found)))
    | inr (inl (x, is_x, i, h)) ↦
        let same : x ≡ user = some_injective (ok_injective (sym is_x ∙ found)) in
        subst (λ u. IsIn u (d.users s) × (p u ≡ true)) same (i, h)
    | inr (inr (x, failed)) ↦ absurd (err-ne-ok (sym failed ∙ found))
  ]
