-- ===== src/Idempotency/Fingerprint/Order.antt =====
-- The order of code units is total, and sorting by it forgets the order of the keys.
use nestjs_api_starter.Prelude.{◌≡◌, refl, true, false, List, [], ◌∷◌, arith}
use nestjs_api_starter.Json.{Text}
use nestjs_api_starter.Idempotency.Fingerprint.{leb_text, insert, same_text}

pub leb_text_refl : (s : Text) → leb_text s s ≡ true
unfolding leb_text
leb_text_refl [] = refl
leb_text_refl (c ∷ s) = ground (arith, leb_text_refl s)

leb_text_total : (s t : Text) → leb_text s t ≡ false → leb_text t s ≡ true
unfolding leb_text
leb_text_total [] t h = cc
leb_text_total (c ∷ s) [] h = refl
leb_text_total (c ∷ s) (d ∷ t) h = ground (arith, leb_text_total s t)

leb_text_antisymm : (s t : Text) → leb_text s t ≡ true → leb_text t s ≡ true → s ≡ t
unfolding leb_text
leb_text_antisymm [] [] h k = refl
leb_text_antisymm [] (d ∷ t) h k = cc
leb_text_antisymm (c ∷ s) [] h k = cc
leb_text_antisymm (c ∷ s) (d ∷ t) h k = ground (arith, leb_text_antisymm s t)

leb_text_trans : (s t u : Text) → leb_text s t ≡ true → leb_text t u ≡ true → leb_text s u ≡ true
unfolding leb_text
leb_text_trans [] t u h k = refl
leb_text_trans (c ∷ s) [] u h k = cc
leb_text_trans (c ∷ s) (d ∷ t) [] h k = cc
leb_text_trans (c ∷ s) (d ∷ t) (e ∷ u) h k = ground (arith, leb_text_trans s t u)

pub same_text_iff : (s t : Text) → same_text s t ≡ true → s ≡ t
same_text_iff s t h = leb_text_antisymm s t (ground arith) (ground arith)

pub insert_comm : (a b : Text) (xs : List Text) → insert a (insert b xs) ≡ insert b (insert a xs)
unfolding insert
insert_comm a b [] = ground (arith, leb_text_total a b, leb_text_total b a, leb_text_antisymm a b)
insert_comm a b (x ∷ xs) = ground (
  arith,
  insert_comm a b xs,
  leb_text_total a b,
  leb_text_total b a,
  leb_text_antisymm a b,
  leb_text_total a x,
  leb_text_total b x,
  leb_text_trans a b x,
  leb_text_trans b a x,
  leb_text_trans a x b,
  leb_text_trans b x a,
)
