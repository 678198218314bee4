-- ===== src/ArrayList/Entries.antt =====
-- The list of keyed entries that an array list stands for, and its laws as a finite map.
use why.Base.{
  ◌≤◌, ◌<◌, suc, ◌≡◌, refl, ap, ◌∙◌, inl, inr, List, [], ◌∷◌, Option, none, some, arith, length,
  Bool-cases, if◌then◌else◌, ℤ, ◌==ℤ◌, ==ℤ_iff,
}

module _ {A : Type 0} where
  -- The first entry with the key.
  unfoldable pub lookup : ℤ → List (ℤ × A) → Option A
  lookup key [] = none
  lookup key ((k, a) ∷ xs) = if k ==ℤ key then some a else lookup key xs

  -- The last entry moves to the front.
  unfoldable pub cons_second : ℤ × A → List (ℤ × A) → List (ℤ × A)
  cons_second x [] = x ∷ []
  cons_second x (z ∷ zs) = z ∷ x ∷ zs

  unfoldable pub last_first : List (ℤ × A) → List (ℤ × A)
  unfolding cons_second
  last_first [] = []
  last_first (x ∷ xs) = cons_second x (last_first xs)

  -- The first entry with the key goes, and the last entry takes its place.
  unfoldable pub remove : ℤ → List (ℤ × A) → List (ℤ × A)
  remove key [] = []
  remove key ((k, a) ∷ xs) = if k ==ℤ key then last_first xs else (k, a) ∷ remove key xs

  -- No key stands twice.
  abbrev pub Distinct : List (ℤ × A) → Type 0
  Distinct [] = Unit
  Distinct ((k, a) ∷ xs) = (lookup k xs ≡ none) × Distinct xs

  cons_second-lookup :
      (key : ℤ) (x : ℤ × A) (xs : List (ℤ × A))
      → lookup x.0 xs ≡ none
      → lookup key (cons_second x xs) ≡ lookup key (x ∷ xs)
  unfolding cons_second lookup
  cons_second-lookup key x [] fresh = refl
  cons_second-lookup key (k, a) ((j, b) ∷ xs) fresh =
      ground (arith, ==ℤ_iff k key, ==ℤ_iff j key, ==ℤ_iff j k)

  pub lookup-last_first :
      (key : ℤ) (xs : List (ℤ × A)) → Distinct xs → lookup key (last_first xs) ≡ lookup key xs
  unfolding last_first lookup
  lookup-last_first key [] d = refl
  lookup-last_first key ((k, a) ∷ xs) d =
      cons_second-lookup key (k, a) (last_first xs) (lookup-last_first k xs d.1 ∙ d.0)
      ∙ ap (λ o. if k ==ℤ key then some a else o) (lookup-last_first key xs d.1)

  -- Removing a key takes its entry away and leaves the others as they were.
  pub lookup-remove :
      (key j : ℤ) (xs : List (ℤ × A))
      → Distinct xs
      → lookup j (remove key xs) ≡ (if key ==ℤ j then none else lookup j xs)
  unfolding remove lookup
  lookup-remove key j [] d = ground arith
  lookup-remove key j ((k, a) ∷ xs) d = ground (
    arith,
    lookup-remove key j xs d.1,
    lookup-last_first j xs d.1,
    ==ℤ_iff k key,
    ==ℤ_iff k j,
    ==ℤ_iff key j,
  )

  cons_second-Distinct :
      (x : ℤ × A) (xs : List (ℤ × A))
      → lookup x.0 xs ≡ none
      → Distinct xs
      → Distinct (cons_second x xs)
  unfolding cons_second lookup
  cons_second-Distinct x [] fresh d = (refl, tt)
  cons_second-Distinct (k, a) ((j, b) ∷ xs) fresh d = ground (arith, ==ℤ_iff k j, ==ℤ_iff j k)

  last_first-Distinct : (xs : List (ℤ × A)) → Distinct xs → Distinct (last_first xs)
  unfolding last_first
  last_first-Distinct [] d = tt
  last_first-Distinct ((k, a) ∷ xs) d =
      cons_second-Distinct (k, a) (last_first xs) (lookup-last_first k xs d.1 ∙ d.0)
        (last_first-Distinct xs d.1)

  pub remove-Distinct : (key : ℤ) (xs : List (ℤ × A)) → Distinct xs → Distinct (remove key xs)
  unfolding remove
  remove-Distinct key [] d = tt
  remove-Distinct key ((k, a) ∷ xs) d = elim (Bool-cases (k ==ℤ key)) [
    | inl same ↦ rw same (last_first-Distinct xs d.1)
    | inr other ↦ rw other (
      lookup-remove key k xs d.1 ∙ ground (arith, ==ℤ_iff k key, ==ℤ_iff key k),
      remove-Distinct key xs d.1,
    )
  ]

  pub length-last_first : (xs : List (ℤ × A)) → length (last_first xs) ≡ length xs
  unfolding last_first
  length-last_first [] = refl
  length-last_first (x ∷ xs) = length-cons_second x (last_first xs) ∙ ap suc (length-last_first xs)
    where
      length-cons_second :
          (y : ℤ × A) (ys : List (ℤ × A)) → length (cons_second y ys) ≡ suc (length ys)
      length-cons_second y [] = refl
      length-cons_second y (z ∷ zs) = refl

  pub length-remove-le : (key : ℤ) (xs : List (ℤ × A)) → length (remove key xs) ≤ length xs
  unfolding remove
  length-remove-le key [] = omega arith
  length-remove-le key ((k, a) ∷ xs) = ground (arith, length-remove-le key xs, length-last_first xs)

  pub length-remove-lt :
      (key : ℤ) (a : A) (xs : List (ℤ × A))
      → lookup key xs ≡ some a
      → length (remove key xs) < length xs
  unfolding remove lookup
  length-remove-lt key a [] found = cc
  length-remove-lt key a ((k, b) ∷ xs) found =
      ground (arith, length-remove-lt key a xs, length-last_first xs)
