-- ===== src/Base/Starts.antt =====
-- Blocks that begin with given values.
use mathlib.Core.Path.{◌≡◌, refl, ap}
use mathlib.Core.List.{List, [], ◌∷◌, ◌++◌}
use mathlib.Core.Option.{some}
use native.Mathlib.Omega.{arith}
use Prim.Native.Nat.{ℕ, zero, suc, ◌≤◌, ◌<◌}
use why.Base.Results.{ok}
use why.Base.Lists.{length, get_elem?, set, take, drop}
use why.Base.Memory.{Block, load, realloc}

-- The block's first cells hold `xs`.
abbrev pub Starts : {A : Type 0} → Block A → List A → Type 0
Starts b [] = Unit
Starts [] (x ∷ xs) = ⊥
Starts (c ∷ b) (x ∷ xs) = (c ≡ some x) × Starts b xs

module _ {A : Type 0} where
  pub Starts-set :
      (b : Block A) (xs : List A) (x : A)
      → length xs < length b
      → Starts b xs
      → Starts (set b (length xs) (some x)) (xs ++ (x ∷ []))
  Starts-set [] [] x h s = absurd (omega arith)
  Starts-set (c ∷ b) [] x h s = (refl, tt)
  Starts-set [] (y ∷ xs) x h s = s
  Starts-set (c ∷ b) (y ∷ xs) x h s = (s.0, Starts-set b xs x (omega arith) s.1)

  pub Starts-append : (b b' : Block A) (xs : List A) → Starts b xs → Starts (b ++ b') xs
  Starts-append b b' [] s = tt
  Starts-append [] b' (x ∷ xs) s = absurd s
  Starts-append (c ∷ b) b' (x ∷ xs) s = (s.0, Starts-append b b' xs s.1)

  pub take-length : (b : Block A) (n : ℕ) → length b ≤ n → take n b ≡ b
  take-length [] zero h = refl
  take-length [] (suc n) h = refl
  take-length (c ∷ b) zero h = absurd (omega arith)
  take-length (c ∷ b) (suc n) h = ap (λ w. c ∷ w) (take-length b n (omega arith))

  pub Starts-realloc :
      (b : Block A) (n : ℕ) (xs : List A) → length b ≤ n → Starts b xs → Starts (realloc b n) xs
  unfolding realloc
  Starts-realloc b n xs h s = rw (take-length b n h) (Starts-append b _ xs s)

  pub Starts-load :
      (b : Block A) (i : ℕ) (x : A) (xs : List A) → Starts (drop i b) (x ∷ xs) → load b i ≡ ok x
  unfolding load
  Starts-load [] zero x xs s = absurd s
  Starts-load [] (suc i) x xs s = absurd s
  Starts-load (c ∷ b) zero x xs s = rw (s.0)
  Starts-load (c ∷ b) (suc i) x xs s = Starts-load b i x xs s

  pub Starts-drop :
      (b : Block A) (i : ℕ) (x : A) (xs : List A)
      → Starts (drop i b) (x ∷ xs)
      → Starts (drop (suc i) b) xs
  Starts-drop [] zero x xs s = absurd s
  Starts-drop [] (suc i) x xs s = absurd s
  Starts-drop (c ∷ b) zero x xs s = s.1
  Starts-drop (c ∷ b) (suc i) x xs s = Starts-drop b i x xs s

  pub Starts-get_elem? :
      (b : Block A) (i : ℕ) (x : A) (xs : List A)
      → Starts b xs
      → get_elem? xs i ≡ some x
      → load b i ≡ ok x
  unfolding load
  Starts-get_elem? b i x [] s e = cc
  Starts-get_elem? [] i x (y ∷ xs) s e = absurd s
  Starts-get_elem? (c ∷ b) zero x (y ∷ xs) s e = rw (s.0) (cc)
  Starts-get_elem? (c ∷ b) (suc i) x (y ∷ xs) s e = Starts-get_elem? b i x xs s.1 e

  -- Writing over a value in use.
  pub Starts-set_at :
      (b : Block A) (i : ℕ) (x : A) (xs : List A)
      → Starts b xs
      → Starts (set b i (some x)) (set xs i x)
  Starts-set_at b i x [] s = tt
  Starts-set_at [] i x (y ∷ xs) s = absurd s
  Starts-set_at (c ∷ b) zero x (y ∷ xs) s = (refl, s.1)
  Starts-set_at (c ∷ b) (suc i) x (y ∷ xs) s = (s.0, Starts-set_at b i x xs s.1)

  pub Starts-length : (b : Block A) (xs : List A) → Starts b xs → length xs ≤ length b
  Starts-length b [] s = omega arith
  Starts-length [] (x ∷ xs) s = absurd s
  Starts-length (c ∷ b) (x ∷ xs) s = omega (arith, Starts-length b xs s.1)

  pub Starts-take : (b : Block A) (n : ℕ) (xs : List A) → Starts b xs → Starts b (take n xs)
  Starts-take b zero xs s = tt
  Starts-take b (suc n) [] s = tt
  Starts-take [] (suc n) (x ∷ xs) s = absurd s
  Starts-take (c ∷ b) (suc n) (x ∷ xs) s = (s.0, Starts-take b n xs s.1)
