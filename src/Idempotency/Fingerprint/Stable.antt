-- ===== src/Idempotency/Fingerprint/Stable.antt =====
-- The serialization does not depend on the order in which an object's keys were written.
use nestjs_api_starter.Prelude.{
  ◌≡◌, ◌≢◌, refl, ap, ◌∙◌, List, [], ◌∷◌, ◌++◌, map, arith, if◌then◌else◌,
}
use nestjs_api_starter.Json.{Text, Json, arr, obj, Items, nil, cons, Fields, end, field}
use nestjs_api_starter.Idempotency.Fingerprint.{
  insert, sort, same_text, quote, join, value_of, keys_of, entries, stable_stringify,
  stringify_items, stringify_fields,
}
use nestjs_api_starter.Idempotency.Fingerprint.Order.{insert_comm, same_text_iff}

-- Two values with the same data: equal but for the order of keys, at any depth.
mutual
  pub data Same : Json → Json → Type 0 where
    same : {v : Json} → Same v v
    in_arr : {xs ys : Items} → SameItems xs ys → Same (arr xs) (arr ys)
    in_obj : {fs gs : Fields} → SameFields fs gs → Same (obj fs) (obj gs)

  pub data SameItems : Items → Items → Type 0 where
    none_left : SameItems nil nil
    one_more :
        {v w : Json} {xs ys : Items}
        → Same v w
        → SameItems xs ys
        → SameItems (cons v xs) (cons w ys)

  pub data SameFields : Fields → Fields → Type 0 where
    no_field : SameFields end end
    in_field :
        {k : Text} {v w : Json} {fs gs : Fields}
        → Same v w
        → SameFields fs gs
        → SameFields (field k v fs) (field k w gs)
    swapped :
        {k j : Text} {v w : Json} {fs : Fields}
        → k ≢ j
        → SameFields (field k v (field j w fs)) (field j w (field k v fs))
    both : {fs gs hs : Fields} → SameFields fs gs → SameFields gs hs → SameFields fs hs

-- The same of serialized fields.
data Shuffled : List (Text × Text) → List (Text × Text) → Type 0 where
  still : {xs : List (Text × Text)} → Shuffled xs xs
  under :
      {x : Text × Text} {xs ys : List (Text × Text)} → Shuffled xs ys → Shuffled (x ∷ xs) (x ∷ ys)
  swap :
      {k j v w : Text} {xs : List (Text × Text)}
      → k ≢ j
      → Shuffled ((k, v) ∷ (j, w) ∷ xs) ((j, w) ∷ (k, v) ∷ xs)
  trans : {xs ys zs : List (Text × Text)} → Shuffled xs ys → Shuffled ys zs → Shuffled xs zs

Shuffled-sort :
    {xs ys : List (Text × Text)} → Shuffled xs ys → sort (keys_of xs) ≡ sort (keys_of ys)
unfolding sort
Shuffled-sort still = refl
Shuffled-sort (under {x} s) = ap (insert x.0) (Shuffled-sort s)
Shuffled-sort (swap {k} {j} {xs} ne) = insert_comm k j (sort (keys_of xs))
Shuffled-sort (trans s r) = Shuffled-sort s ∙ Shuffled-sort r

Shuffled-value_of :
    (k : Text) {xs ys : List (Text × Text)} → Shuffled xs ys → value_of k xs ≡ value_of k ys
unfolding value_of
Shuffled-value_of k still = refl
Shuffled-value_of k (under {x} s) =
    ap (λ (r : Text). if same_text k x.0 then x.1 else r) (Shuffled-value_of k s)
Shuffled-value_of k (swap {k = a} {j = b} ne) = ground (arith, same_text_iff k a, same_text_iff k b)
Shuffled-value_of k (trans s r) = Shuffled-value_of k s ∙ Shuffled-value_of k r

Shuffled-entries : {xs ys : List (Text × Text)} → Shuffled xs ys → entries xs ≡ entries ys
unfolding entries
Shuffled-entries s = λ i. map (λ k. quote k ++ 58 ∷ Shuffled-value_of k s i) (Shuffled-sort s i)

mutual
  unfolding stable_stringify

  Same-text : {v w : Json} → Same v w → stable_stringify v ≡ stable_stringify w
  Same-text same = refl
  Same-text (in_arr s) = ap (λ (l : List Text). 91 ∷ join l ++ 93 ∷ []) (same-items s)
  Same-text (in_obj s) =
      ap (λ (l : List Text). 123 ∷ join l ++ 125 ∷ []) (Shuffled-entries (same-fields s))

  same-items : {xs ys : Items} → SameItems xs ys → stringify_items xs ≡ stringify_items ys
  same-items none_left = refl
  same-items (one_more s r) = λ i. Same-text s i ∷ same-items r i

  same-fields :
      {fs gs : Fields} → SameFields fs gs → Shuffled (stringify_fields fs) (stringify_fields gs)
  same-fields no_field = still
  same-fields (in_field {gs} s r) = rw (Same-text s) (under (same-fields r))
  same-fields (swapped ne) = swap ne
  same-fields (both s r) = trans (same-fields s) (same-fields r)

-- Two values that hold the same data, whatever the order of the keys of their objects, have one
-- serialization.
pub stable_stringify-Same : (v w : Json) → Same v w → stable_stringify v ≡ stable_stringify w
stable_stringify-Same v w s = Same-text s
