-- ===== src/Seed/Upserted.antt =====
-- Where the rows of an upsert are afterwards.
use nestjs_api_starter.Prelude.{
  String, ◌≡◌, ap, sym, ◌∙◌, subst, inl, inr, true, false, List, [], ◌∷◌, IsIn, change, str_eq,
  eq_iff,
}
use nestjs_api_starter.Seed.{Upserted}

module _ {Row : Type 0} (key_of : Row → String) (key : String) (f : Row → Row) (mk : String → Row)
    (before after : List Row) (row : Row) where
  -- The row of an upsert is in the table,
  pub Upserted-IsIn : Upserted key_of key f mk before after row → IsIn row after
  Upserted-IsIn (inl (old, i, same, e, rows)) =
      rw (rows, e) (changed-IsIn old before i ((eq_iff (key_of old) key).1 same))
    where
      changed-IsIn :
          (x : Row) (xs : List Row)
          → IsIn x xs
          → str_eq (key_of x) key ≡ true
          → IsIn (f x) (change (λ y. str_eq (key_of y) key) f xs)
      changed-IsIn x [] i h = i
      changed-IsIn x (y ∷ ys) (inl e) h = inl (rw (ap (λ z. str_eq (key_of z) key) e ∙ h) (ap f e))
      changed-IsIn x (y ∷ ys) (inr i) h = inr (changed-IsIn x ys i h)
  Upserted-IsIn (inr (id, e, rows, apart)) = rw rows (inl (sym e))

  -- and the rows with other keys stay there.
  pub Upserted-stays :
      (x : Row)
      → str_eq (key_of x) key ≡ false
      → Upserted key_of key f mk before after row
      → IsIn x before
      → IsIn x after
  Upserted-stays x ne (inl (old, i, same, e, rows)) j = rw rows (kept before j)
    where
      kept : (xs : List Row) → IsIn x xs → IsIn x (change (λ y. str_eq (key_of y) key) f xs)
      kept [] i = i
      kept (y ∷ ys) (inl e) = inl (rw (ap (λ z. str_eq (key_of z) key) e ∙ ne) e)
      kept (y ∷ ys) (inr i) = inr (kept ys i)
  Upserted-stays x ne (inr (id, e, rows, apart)) j = rw rows (inr j)

  -- A property that both the update and the creation give holds of the row.
  pub Upserted-holds :
      (P : Row → Type 0)
      → Upserted key_of key f mk before after row
      → ((old : Row) → key_of old ≡ key → P (f old))
      → ((id : String) → P (mk id))
      → P row
  Upserted-holds P (inl (old, i, same, e, rows)) of_update of_create =
      subst P (sym e) (of_update old same)
  Upserted-holds P (inr (id, e, rows, apart)) of_update of_create = subst P (sym e) (of_create id)
