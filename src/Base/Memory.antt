-- ===== src/Base/Memory.antt =====
-- Blocks of memory: `malloc`, `realloc`, `memcpy`, array reads and writes.
-- A cell that nothing was written to is `none`.
use Prim.Native.Nat.{ℕ, ◌+◌, ◌-◌, ◌<◌, ◌≤◌}
use mathlib.Core.Path.{◌≡◌, ◌∙◌}
use mathlib.Core.Logic.{◌⊎◌}
use mathlib.Core.Bool.{Bool, true, ◌&&◌, ◌||◌}
use mathlib.Core.List.{List, ◌++◌}
use mathlib.Core.Option.{Option, none, some}
use native.Mathlib.Omega.{arith}
use why.Base.Tests.{ltb, leb, if◌then◌else◌}
use why.Base.Results.{Outcome, ok, stop, undefined}
use why.Base.Lists.{
  length, get_elem?, get_or, set, take, drop, replicate, length-append, length-take, length-drop,
  length-replicate, get_or-take, get_or-drop, get_or-append_left, get_or-append_right,
  get_elem?-eq-get_or,
}

abbrev pub Block {ℓ} : Type ℓ → Type ℓ
Block A = List (Option A)

abbrev read {ℓ} : {A : Type ℓ} → Option (Option A) → Outcome A
read none = stop undefined
read (some none) = stop undefined
read (some (some a)) = ok a

-- The two regions of `n` cells lie in a block of `size` cells and are disjoint.
unfoldable pub can_copy : ℕ → ℕ → ℕ → ℕ → Bool
can_copy size dst src n =
    leb (dst + n) size && (leb (src + n) size && (leb (dst + n) src || leb (src + n) dst))

pub can_copy-true :
    (size dst src n : ℕ)
    → dst + n ≤ size
    → src + n ≤ size
    → (dst + n ≤ src) ⊎ (src + n ≤ dst)
    → can_copy size dst src n ≡ true
unfolding can_copy
can_copy-true size dst src n h k d = ground arith

module _ {ℓ} {A : Type ℓ} where
  abbrev pub malloc : ℕ → Block A
  malloc n = replicate n none

  unfoldable pub load : Block A → ℕ → Outcome A
  load b i = read (get_elem? b i)

  unfoldable pub store : Block A → ℕ → A → Outcome (Block A)
  store b i a = if ltb i (length b) then ok (set b i (some a)) else stop undefined

  -- Growing keeps the old cells, and the new ones are not set.
  unfoldable pub realloc : Block A → ℕ → Block A
  realloc b n = take n b ++ replicate (n - length b) none

  -- `memcpy (b + dst, b + src, n)` inside one block; the regions must not overlap.
  unfoldable pub memcpy : Block A → ℕ → ℕ → ℕ → Outcome (Block A)
  memcpy b dst src n =
      if can_copy (length b) dst src n
      then ok (take dst b ++ (take n (drop src b) ++ drop (dst + n) b))
      else stop undefined

  pub load-some :
      (b : Block A) (i : ℕ) (a : A) → i < length b → get_or b i none ≡ some a → load b i ≡ ok a
  unfolding load
  load-some b i a h e = rw (get_elem?-eq-get_or b i none h, e)

  pub length-realloc : (b : Block A) (n : ℕ) → length b ≤ n → length (realloc b n) ≡ n
  unfolding realloc
  length-realloc b n h = omega (
    arith,
    length-append (take n b) (replicate (n - length b) none),
    length-take n b,
    length-replicate {A = Option A} (n - length b) none,
  )

  pub get_or-realloc :
      (b : Block A) (n i : ℕ)
      → length b ≤ n
      → i < length b
      → get_or (realloc b n) i none ≡ get_or b i none
  unfolding realloc
  get_or-realloc b n i h k =
      get_or-append_left (take n b) _ i none (omega (arith, length-take n b))
      ∙ get_or-take n b i none (omega arith)

  abbrev pub copied : Block A → ℕ → ℕ → ℕ → Block A
  copied b dst src n = take dst b ++ (take n (drop src b) ++ drop (dst + n) b)

  pub memcpy-ok :
      (b : Block A) (dst src n : ℕ)
      → dst + n ≤ length b
      → src + n ≤ length b
      → (dst + n ≤ src) ⊎ (src + n ≤ dst)
      → memcpy b dst src n ≡ ok (copied b dst src n)
  unfolding memcpy
  memcpy-ok b dst src n h k d = rw (can_copy-true (length b) dst src n h k d)

  module _ (b : Block A) (dst src n : ℕ) (h : dst + n ≤ length b) (k : src + n ≤ length b) where
    pub length-copied : length (copied b dst src n) ≡ length b
    length-copied = omega (
      arith,
      length-append (take dst b) (take n (drop src b) ++ drop (dst + n) b),
      length-append (take n (drop src b)) (drop (dst + n) b),
      length-take dst b,
      length-take n (drop src b),
      length-drop src b,
      length-drop (dst + n) b,
    )

    pub get_or-copied_below :
        (i : ℕ) → i < dst → get_or (copied b dst src n) i none ≡ get_or b i none
    get_or-copied_below i l =
        get_or-append_left (take dst b) _ i none (omega (arith, length-take dst b))
        ∙ get_or-take dst b i none l

    pub get_or-copied_inside :
        (i j : ℕ)
        → i ≡ dst + j
        → j < n
        → get_or (copied b dst src n) i none ≡ get_or b (src + j) none
    get_or-copied_inside i j e l =
        get_or-append_right (take dst b) _ i j none (omega (arith, length-take dst b))
        ∙ get_or-append_left (take n (drop src b)) _ j none
            (omega (arith, length-take n (drop src b), length-drop src b))
        ∙ get_or-take n (drop src b) j none l
        ∙ get_or-drop src b j none
