-- ===== src/Queue/Window.antt =====
-- Windows of a ring: the cells in use, in order. Writing behind a window and moving a full ring.
use native.Mathlib.Nat.{mod-eq_of_lt, mod-eq-sub-mod}
use why.Base.{
  ℕ, zero, suc, ◌+◌, ◌-◌, ◌*◌, ◌%◌, ◌≤◌, ◌<◌, ◌≡◌, ◌≢◌, refl, sym, ap, ap₂, ◌∙◌, ◌⊎◌, inl, inr,
  List, [], ◌∷◌, ◌++◌, Option, none, some, arith, length, get_or, set, dec_lt, get_or-set_self,
  get_or-set_ne,
}
use why.Base.Memory.{
  Block, realloc, copied, length-realloc, get_or-realloc, get_or-copied_below, get_or-copied_inside,
}

-- An index goes round once at most.
pub mod-cases : (x c : ℕ) → x < c + c → ((x < c) × (x % c ≡ x)) ⊎ ((c ≤ x) × (x % c ≡ x - c))
mod-cases x c h = elim (dec_lt x c) [
  | yes p ↦ inl (p, mod-eq_of_lt p)
  | no p ↦ inr (
    omega arith,
    omega (
      arith,
      mod-eq-sub-mod {n = x} {m = c} (omega arith),
      mod-eq_of_lt {n = x - c} {m = c} (omega arith),
    ),
  )
]

module _ {ℓ} {A : Type ℓ} where
  -- The `n` cells from index `h` on, going round at `c`.
  abbrev pub window : Block A → ℕ → ℕ → ℕ → List (Option A)
  window b c h zero = []
  window b c h (suc n) = get_or b (h % c) none ∷ window b c (h + 1) n

  -- Two windows agree if their cells do.
  pub window_ext :
      (b b' : Block A) (c c' h h' n : ℕ)
      → ((k : ℕ) → k < n → get_or b ((h + k) % c) none ≡ get_or b' ((h' + k) % c') none)
      → window b c h n ≡ window b' c' h' n
  window_ext b b' c c' h h' zero same = refl
  window_ext b b' c c' h h' (suc n) same =
      ap₂ ◌∷◌
        (ap (λ k. get_or b (k % c) none) first
          ∙ same 0 (omega arith)
          ∙ ap (λ k. get_or b' (k % c') none) first')
        (window_ext b b' c c' (h + 1) (h' + 1) n λ k l.
          ap (λ i. get_or b (i % c) none) (let e : h + 1 + k ≡ h + suc k = omega arith in e)
          ∙ same (suc k) (omega arith)
          ∙ ap (λ i. get_or b' (i % c') none) (let e : h' + suc k ≡ h' + 1 + k = omega arith in e))
    where
      first : h ≡ h + 0
      first = omega arith

      first' : h' + 0 ≡ h'
      first' = omega arith

  pub window-suc :
      (b : Block A) (c h n : ℕ)
      → window b c h (suc n) ≡ window b c h n ++ (get_or b ((h + n) % c) none ∷ [])
  window-suc b c h zero =
      ap (λ k. get_or b (k % c) none ∷ []) (let e : h ≡ h + 0 = omega arith in e)
  window-suc b c h (suc n) =
      ap (λ w. get_or b (h % c) none ∷ w)
        (window-suc b c (h + 1) n
          ∙ ap (λ k. window b c (h + 1) n ++ (get_or b (k % c) none ∷ []))
              (let e : h + 1 + n ≡ h + suc n = omega arith in e))

  pub length-window : (b : Block A) (c h n : ℕ) → length (window b c h n) ≡ n
  length-window b c h zero = refl
  length-window b c h (suc n) = ap suc (length-window b c (h + 1) n)

  pub window-set :
      (b : Block A) (c h n i : ℕ) (x : A)
      → length b ≡ c
      → h < c
      → n < c
      → i ≡ (h + n) % c
      → window (set b i (some x)) c h (suc n) ≡ window b c h n ++ (some x ∷ [])
  window-set b c h n i x size hh hn e =
      window-suc (set b i (some x)) c h n
      ∙ ap₂ (λ w v. w ++ (v ∷ []))
          (window_ext (set b i (some x)) b c c h h n λ k l. get_or-set_ne b (some x) none (ne k l))
          (ap (λ j. get_or (set b i (some x)) j none) (sym e)
            ∙ get_or-set_self b i (some x) none inside)
    where
      inside : i < length b
      inside = omega (arith, mod-cases (h + n) c (omega arith))

      ne : (k : ℕ) → k < n → i ≢ (h + k) % c
      ne k l = omega (arith, mod-cases (h + n) c (omega arith), mod-cases (h + k) c (omega arith))

  -- The copy of a full ring into twice the room keeps every element in its turn.
  pub moved :
      (b : Block A) (c p k : ℕ)
      → length b ≡ c
      → p < c
      → k < c
      → get_or (copied (realloc b (2 * c)) (c + p) p (c - p)) ((c + p + k) % (2 * c)) none
        ≡ get_or b ((p + k) % c) none
  moved b c p k size hp hk = elim (mod-cases (p + k) c (omega arith)) [
    | inl front ↦
        ap (λ i. get_or (copied g (c + p) p (c - p)) i none)
          (omega (arith, mod-cases (c + p + k) (2 * c) (omega arith)))
        ∙ get_or-copied_inside g (c + p) p (c - p) (omega (arith, length-g))
            (omega (arith, length-g)) (c + p + k) k refl (omega arith)
        ∙ get_or-realloc b (2 * c) (p + k) (omega arith) (omega arith)
        ∙ ap (λ i. get_or b i none) (sym front.1)
    | inr back ↦
        ap (λ i. get_or (copied g (c + p) p (c - p)) i none)
          (omega (arith, mod-cases (c + p + k) (2 * c) (omega arith)))
        ∙ get_or-copied_below g (c + p) p (c - p) (omega (arith, length-g))
            (omega (arith, length-g)) (p + k - c) (omega arith)
        ∙ get_or-realloc b (2 * c) (p + k - c) (omega arith) (omega arith)
        ∙ ap (λ i. get_or b i none) (sym back.1)
  ]
    where
      g : Block A
      g = realloc b (2 * c)

      length-g : length g ≡ 2 * c
      length-g = length-realloc b (2 * c) (omega arith)
