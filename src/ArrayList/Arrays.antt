-- ===== src/ArrayList/Arrays.antt =====
-- The arrays of an array list: where a key stands, and what a removal does to a block.
use native.Mathlib.Numerals.{add-one}
use why.Base.{
  ℕ, suc, ◌+◌, ◌-◌, ◌<◌, ◌≡◌, refl, ap, subst, ◌∙◌, sym, inl, inr, true, false, List, [], ◌∷◌, map,
  Option, none, some, arith, length, Bool-cases, if◌then◌else◌, ℤ, pos, minus_one, ◌==ℤ◌, set, drop,
  Outcome, ok, ◌>>=◌,
}
use why.Base.Memory.{Block, load}
use why.Base.Starts.{Starts, Starts-load, Starts-drop}
use why.ArrayList.{find_key}
use why.ArrayList.Entries.{lookup, cons_second, last_first, remove, length-last_first}

module _ {A : Type 0} where
  -- The last of a list that is not empty.
  abbrev pub last : A → List A → A
  last x [] = x
  last x (y ∷ ys) = last y ys

  pub Starts-load-last :
      (b : Block A) (x : A) (xs : List A) → Starts b (x ∷ xs) → load b (length xs) ≡ ok (last x xs)
  Starts-load-last [] x xs s = absurd s
  Starts-load-last (c ∷ b) x [] s = Starts-load (c ∷ b) 0 x [] s
  Starts-load-last (c ∷ b) x (y ∷ ys) s = step (c ∷ b) (length ys) ∙ Starts-load-last b y ys s.1
    where
      step : (b' : Block A) (n : ℕ) → load (c ∷ b) (suc n) ≡ load b n
      step b' n = unfold load in refl

-- The index that C returns for a position behind `i`.
abbrev pub as_index : ℕ → Option ℕ → ℤ
as_index i none = minus_one
as_index i (some p) = pos (i + p)

module _ {A : Type 0} where
  -- The position of the first entry with the key.
  unfoldable pub position : ℤ → List (ℤ × A) → Option ℕ
  position key [] = none
  position key ((k, a) ∷ xs) =
      if k ==ℤ key then some 0 else elim (position key xs) [ none ↦ none | some p ↦ some (suc p) ]

  pub find_key-position :
      (keys : Block ℤ) (key : ℤ) (i : ℕ) (xs : List (ℤ × A))
      → Starts (drop i keys) (map (λ e. e.0) xs)
      → find_key keys key (length xs) i ≡ ok (as_index i (position key xs))
  unfolding find_key position
  find_key-position keys key i [] s = refl
  find_key-position keys key i ((k, a) ∷ xs) s = ground (
    arith,
    Starts-load keys i k (map (λ e. e.0) xs) s,
    find_key-position keys key (i + 1) xs (rw add-one (Starts-drop keys i k (map (λ e. e.0) xs) s)),
  )

  abbrev pub load_at : Block A → ℕ → Option ℕ → Outcome (Option A)
  load_at b i none = ok none
  load_at b i (some p) = do d ← load b (i + p); ok (some d)

  -- The element at the position found is the one that the key looks up.
  pub load_at-position :
      (b : Block A) (key : ℤ) (i : ℕ) (xs : List (ℤ × A))
      → Starts (drop i b) (map (λ e. e.1) xs)
      → load_at b i (position key xs) ≡ ok (lookup key xs)
  unfolding position lookup
  load_at-position b key i [] s = refl
  load_at-position b key i ((k, a) ∷ xs) s = ground (
    arith,
    Starts-load b i a (map (λ e. e.1) xs) s,
    load_at-position b key (i + 1) xs (rw add-one (Starts-drop b i a (map (λ e. e.1) xs) s)),
  )

  pub position-none :
      (key : ℤ) (xs : List (ℤ × A))
      → position key xs ≡ none
      → (lookup key xs ≡ none) × (remove key xs ≡ xs)
  unfolding position lookup remove
  position-none key [] e = (refl, refl)
  position-none key ((k, a) ∷ xs) e = ground (arith, position-none key xs)

  pub position-length :
      (key : ℤ) (xs : List (ℤ × A)) (p : ℕ)
      → position key xs ≡ some p
      → (p < length xs) × (length (remove key xs) + 1 ≡ length xs)
  unfolding position remove
  position-length key [] p e = cc
  position-length key ((k, a) ∷ xs) p e =
      ground (arith, length-last_first xs, position-length key xs (p - 1))

  position-here :
      (key : ℤ) (e : ℤ × A) (xs : List (ℤ × A)) (p : ℕ)
      → (e.0 ==ℤ key) ≡ true
      → position key (e ∷ xs) ≡ some p
      → p ≡ 0
  unfolding position
  position-here key (k, a) xs p same e = ground arith

  position-later :
      (key : ℤ) (e : ℤ × A) (xs : List (ℤ × A)) (p : ℕ)
      → (e.0 ==ℤ key) ≡ false
      → position key (e ∷ xs) ≡ some p
      → (position key xs ≡ some (p - 1)) × (p ≡ suc (p - 1))
  unfolding position
  position-later key (k, a) xs p other e = ground arith

  init : ℤ × A → List (ℤ × A) → List (ℤ × A)
  init x [] = []
  init x (y ∷ ys) = x ∷ init y ys

  last_first-cons : (x : ℤ × A) (xs : List (ℤ × A)) → last_first (x ∷ xs) ≡ last x xs ∷ init x xs
  unfolding last_first cons_second init
  last_first-cons x [] = refl
  last_first-cons x (y ∷ ys) = ap (cons_second x) (last_first-cons y ys)

  module _ {C : Type 0} (f : ℤ × A → C) where
    Starts-init :
        (b : Block C) (x : ℤ × A) (xs : List (ℤ × A))
        → Starts b (map f (x ∷ xs))
        → Starts b (map f (init x xs))
    unfolding init
    Starts-init b x [] s = tt
    Starts-init [] x (y ∷ ys) s = absurd s
    Starts-init (c ∷ b) x (y ∷ ys) s = (s.0, Starts-init b y ys s.1)

    pub map-last : (x : ℤ × A) (xs : List (ℤ × A)) → last (f x) (map f xs) ≡ f (last x xs)
    map-last x [] = refl
    map-last x (y ∷ ys) = map-last y ys

    -- Writing the last value over the removed one leaves the remaining values in front.
    pub Starts-remove :
        (b : Block C) (key : ℤ) (x : ℤ × A) (xs : List (ℤ × A)) (p : ℕ)
        → position key (x ∷ xs) ≡ some p
        → Starts b (map f (x ∷ xs))
        → Starts (set b p (some (f (last x xs)))) (map f (remove key (x ∷ xs)))
    unfolding position remove
    Starts-remove [] key x xs p e s = absurd s
    Starts-remove (c ∷ b) key x [] p e s = elim (Bool-cases (x.0 ==ℤ key)) [
      | inl here ↦ rw here (unfold last_first in tt)
      | inr later ↦ absurd (let h = position-later key x [] p later e in cc)
    ]
    Starts-remove (c ∷ b) key x (y ∷ ys) p e s = elim (Bool-cases (x.0 ==ℤ key)) [
      | inl here ↦
          rw (here, position-here key x (y ∷ ys) p here e, last_first-cons y ys)
            (refl, Starts-init b y ys s.1)
      | inr later ↦
          let (e', p') = position-later key x (y ∷ ys) p later e in
          subst
            (λ q. Starts (set (c ∷ b) q (some (f (last y ys)))) (map f (remove key (x ∷ y ∷ ys))))
            (sym p') (rw later (s.0, Starts-remove b key y ys (p - 1) e' s.1))
    ]
