-- ===== src/Words/Bits.antt =====
-- `|` of a multiple of 2 ^ k and a number of k bits is their sum.
use Prim.Native.Nat.{max, digits, bit_or, bit_or-bitwise}
use native.Mathlib.Nat.{pow-suc}
use why.Base.{ℕ, zero, suc, ◌+◌, ◌*◌, ◌/◌, ◌%◌, ◌^◌, ◌≤◌, ◌<◌, ◌≡◌, refl, ap, ◌∙◌, arith}

-- What `|` means: its binary digits, at most so many of them.
abbrev or_digits : ℕ → ℕ → ℕ → ℕ
or_digits n a b = digits (λ y. y) max n a b

or_digits-zero : (n a : ℕ) → a ≤ n → or_digits n a 0 ≡ a
or_digits-zero zero zero h = refl
or_digits-zero zero (suc a) h = absurd (omega arith)
or_digits-zero (suc n) zero h = refl
or_digits-zero (suc n) (suc a) h = omega (arith, or_digits-zero n (suc a / 2) (omega arith))

-- The low digit of a multiple of 2 ^ (k + 1) is 0, and half of it is a multiple of 2 ^ k.
halved : (a q k : ℕ) → a ≡ q * 2 ^ suc k → (a / 2 ≡ q * 2 ^ k) × (a % 2 ≡ 0)
halved a q k e =
    let twice = ap (λ (t : ℕ). q * t) (pow-suc 2 k) in
    let e' : a ≡ 2 * (q * 2 ^ k) = omega (arith, e, twice) in (omega arith, omega arith)

or_digits-sum : (k n a q r : ℕ) → a ≡ q * 2 ^ k → a ≤ n → r < 2 ^ k → or_digits n a r ≡ a + r
or_digits-sum zero n a q zero e h low = or_digits-zero n a h ∙ omega arith
or_digits-sum zero n a q (suc r) e h low = absurd (omega arith)
or_digits-sum (suc k) zero zero q r e h low = omega arith
or_digits-sum (suc k) zero (suc a) q r e h low = absurd (omega arith)
or_digits-sum (suc k) (suc n) zero q r e h low = omega arith
or_digits-sum (suc k) (suc n) (suc a) q r e h low =
    let (half, even) = halved (suc a) q k e in
    omega (
      arith,
      even,
      or_digits-sum k n (suc a / 2) q (r / 2) half (omega arith) (omega (arith, pow-suc 2 k)),
    )

pub bit_or-sum : (k q r : ℕ) → r < 2 ^ k → bit_or (q * 2 ^ k) r ≡ q * 2 ^ k + r
bit_or-sum k q r low =
    bit_or-bitwise (q * 2 ^ k) r
    ∙ or_digits-sum k (q * 2 ^ k) (q * 2 ^ k) q r refl (omega arith) low
