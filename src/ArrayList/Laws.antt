-- ===== src/ArrayList/Laws.antt =====
-- The array list as a finite map, in the terms of its own operations.
use why.Base.{
  ◌^◌, ◌<◌, ◌≡◌, refl, Bool, true, false, List, [], ◌∷◌, ◌++◌, Option, none, some, arith, length,
  if◌then◌else◌, ℤ, ◌==ℤ◌, ==ℤ_iff, ok, ◌>>=◌,
}
use why.ArrayList.{PList, list_lookup, list_remove, list_append}
use why.ArrayList.Entries.{lookup, remove, Distinct, lookup-remove}
use why.ArrayList.Refine.{Holds, list_lookup-Holds, list_remove-Holds}
use why.ArrayList.Append.{list_append-Holds}

module _ {A : Type 0} where
  pub lookup-append :
      (j key : ℤ) (a : A) (xs : List (ℤ × A))
      → lookup key xs ≡ none
      → lookup j (xs ++ ((key, a) ∷ [])) ≡ (if key ==ℤ j then some a else lookup j xs)
  unfolding lookup
  lookup-append j key a [] fresh = refl
  lookup-append j key a ((k, b) ∷ xs) fresh =
      ground (arith, lookup-append j key a xs, ==ℤ_iff k key, ==ℤ_iff k j, ==ℤ_iff key j)

  pub append-Distinct :
      (key : ℤ) (a : A) (xs : List (ℤ × A))
      → lookup key xs ≡ none
      → Distinct xs
      → Distinct (xs ++ ((key, a) ∷ []))
  unfolding lookup
  append-Distinct key a [] fresh d = (refl, tt)
  append-Distinct key a ((k, b) ∷ xs) fresh d =
      ground
        (arith, append-Distinct key a xs, lookup-append k key a xs, ==ℤ_iff k key, ==ℤ_iff key k)

  -- After a removal the key is not found, and any other key finds what it found before.
  pub list_remove-lookup :
      (l : PList A) (key j : ℤ) (xs : List (ℤ × A))
      → Holds l xs
      → Distinct xs
      → (do l' ← list_remove l key; list_lookup l' j)
        ≡ (if key ==ℤ j then ok none else list_lookup l j)
  list_remove-lookup l key j xs h d =
      let (l', e, h') = list_remove-Holds l key xs h in
      rw
        (
          e,
          list_lookup-Holds l' j (remove key xs) h',
          list_lookup-Holds l j xs h,
          lookup-remove key j xs d,
        )
        (ok_if (key ==ℤ j) (lookup j xs))
    where
      ok_if : (b : Bool) (o : Option A) → ok (if b then none else o) ≡ (if b then ok none else ok o)
      ok_if true o = refl
      ok_if false o = refl

  -- After an entry is appended under a key that is not in use, the key finds it, and any other key
  -- finds what it found before.
  pub list_append-lookup :
      (l : PList A) (key j : ℤ) (a : A) (xs : List (ℤ × A))
      → length xs < 2 ^ 30
      → Holds l xs
      → lookup key xs ≡ none
      → (do l' ← list_append l key a; list_lookup l' j)
        ≡ (if key ==ℤ j then ok (some a) else list_lookup l j)
  list_append-lookup l key j a xs room h fresh =
      let (l', e, h') = list_append-Holds l key a xs room h in
      rw
        (
          e,
          list_lookup-Holds l' j (xs ++ ((key, a) ∷ [])) h',
          list_lookup-Holds l j xs h,
          lookup-append j key a xs fresh,
        )
        (ok_if (key ==ℤ j) (lookup j xs))
    where
      ok_if :
          (b : Bool) (o : Option A)
          → ok (if b then some a else o) ≡ (if b then ok (some a) else ok o)
      ok_if true o = refl
      ok_if false o = refl
