-- ===== src/Words/Division.antt =====
-- `div64_2by1` gives the exact quotient of two words by a normalised word: Knuth's algorithm D on
-- half words.
use native.Mathlib.Nat.{
  mod-eq_of_lt, div-add-mod', div-mul-le_self, mod-lt, mul-le-mul, lt_of_mul-lt-mul_right,
  mul-le-mul_left, add-mul,
}
use why.Base.{lt→ltb, ℕ, ◌+◌, ◌-◌, ◌*◌, ◌/◌, ◌%◌, ◌^◌, ◌≤◌, ◌<◌, ◌≡◌, ap, ◌∙◌, sym, arith, ok}
use why.Words.{
  word, half_word, Pair, mul64, sub64, highpart, lowpart, correct, div_digit, udiv_qrnnd,
  div64_2by1,
}
use why.Words.Bits.{bit_or-sum}

-- `correct` on a digit `q`, whose product with the divisor is `p`, and on a partial remainder `t`
-- and the low part `m` of the product: the corrections are at most two, and they stop in time,
-- although the sums may wrap.
correct_lem :
    (q t m d : ℕ)
    → word ≤ 2 * d
    → d < word
    → t < d
    → m < word
    → q < word
    → m ≤ q * (half_word - 1)
    → ((correct q t m d).field_1 + m ≡ t + (q - (correct q t m d).field_0) * d)
      × ((correct q t m d).field_0 ≤ q)
      × ((correct q t m d).field_1 < d)
unfolding correct
correct_lem q t m d norm dw td mw qw pos = ground arith

-- The first guess for a digit exceeds 2 ^ 32 by one at most.
guess-le : (r d : ℕ) → word ≤ 2 * d → d < word → r < d → r / highpart d ≤ half_word + 1
guess-le r d norm dw rd = omega (
  arith,
  lt_of_mul-lt-mul_right (highpart d) {m = r / highpart d} {n = half_word + 2}
      (omega (arith, div-mul-le_self r (highpart d))),
)

-- What a digit is computed from: the guess, the partial remainder and the low product.
div_digit-correct :
    (r half d : ℕ)
    → word ≤ 2 * d
    → d < word
    → r < d
    → half < half_word
    → div_digit r half d
      ≡ correct (r / highpart d) (r % highpart d * half_word + half) (r / highpart d * lowpart d) d
unfolding div_digit
div_digit-correct r half d norm dw rd low =
    rw (exact, remainder, shifted, bit_or-sum 32 (r % highpart d) half low, small)
  where
    split : r / highpart d * highpart d + r % highpart d ≡ r
    split = div-add-mod' r (highpart d)

    exact : mul64 (r / highpart d) (highpart d) ≡ r / highpart d * highpart d
    exact = mod-eq_of_lt (omega (arith, split))

    remainder : sub64 r (r / highpart d * highpart d) ≡ r % highpart d
    remainder = omega (arith, split)

    shifted : mul64 (r % highpart d) half_word ≡ r % highpart d * half_word
    shifted = mod-eq_of_lt (omega (arith, mod-lt r {m = highpart d} (omega arith)))

    below : lowpart d ≤ half_word - 1
    below = omega arith

    small : mul64 (r / highpart d) (lowpart d) ≡ r / highpart d * lowpart d
    small = mod-eq_of_lt (omega (arith, mul-le-mul (guess-le r d norm dw rd) below))

halves : (a b c : ℕ) → a * (b * half_word + c) ≡ a * b * half_word + a * c
halves a b c = grind arith

-- A digit and its remainder, of a remainder below the divisor and the next half word.
div_digit_lem :
    (r half d : ℕ)
    → word ≤ 2 * d
    → d < word
    → r < d
    → half < half_word
    → ((div_digit r half d).field_0 * d + (div_digit r half d).field_1 ≡ r * half_word + half)
      × ((div_digit r half d).field_1 < d)
      × ((div_digit r half d).field_0 < half_word)
div_digit_lem r half d norm dw rd low =
    rw (div_digit-correct r half d norm dw rd low) (total, fits.2, digit)
  where
    q : ℕ
    q = r / highpart d

    t : ℕ
    t = r % highpart d * half_word + half

    c : Pair
    c = correct q t (q * lowpart d) d

    rest_lt : r % highpart d < highpart d
    rest_lt = mod-lt r {m = highpart d} (omega arith)

    guess : q ≤ half_word + 1
    guess = guess-le r d norm dw rd

    low_le : q * lowpart d ≤ q * (half_word - 1)
    low_le = mul-le-mul_left q (omega arith)

    fits : (c.field_1 + q * lowpart d ≡ t + (q - c.field_0) * d) × (c.field_0 ≤ q) × (c.field_1 < d)
    fits =
        correct_lem q t (q * lowpart d) d norm dw (omega (arith, rest_lt))
          (omega (arith, guess, low_le)) (omega (arith, guess)) low_le

    whole : q * d ≡ q * highpart d * half_word + q * lowpart d
    whole = ap (λ (n : ℕ). q * n) (omega arith) ∙ halves q (highpart d) (lowpart d)

    parted : (q - c.field_0) * d + c.field_0 * d ≡ q * d
    parted = sym (add-mul (q - c.field_0) c.field_0 d) ∙ ap (λ (n : ℕ). n * d) (omega (arith, fits))

    total : c.field_0 * d + c.field_1 ≡ r * half_word + half
    total = omega (arith, fits, whole, parted, div-add-mod' r (highpart d))

    digit : c.field_0 < half_word
    digit = lt_of_mul-lt-mul_right d {m = c.field_0} {n = half_word} (omega (arith, total))

joined : (q1 q0 d : ℕ) → (q1 * half_word + q0) * d ≡ q1 * d * half_word + q0 * d
joined q1 q0 d = grind arith

-- The quotient and the remainder of two words by a word whose highest bit is set, if the quotient
-- fits in a word.
udiv_qrnnd_lem :
    (n1 n0 d : ℕ)
    → word ≤ 2 * d
    → d < word
    → n1 < d
    → n0 < word
    → ((udiv_qrnnd n1 n0 d).field_0 * d + (udiv_qrnnd n1 n0 d).field_1 ≡ n1 * word + n0)
      × ((udiv_qrnnd n1 n0 d).field_1 < d)
      × ((udiv_qrnnd n1 n0 d).field_0 < word)
unfolding udiv_qrnnd
udiv_qrnnd_lem n1 n0 d norm dw fits low =
    let first = div_digit_lem n1 (highpart n0) d norm dw fits (omega arith) in
    let r1 = (div_digit n1 (highpart n0) d).field_1 in
    let second = div_digit_lem r1 (lowpart n0) d norm dw first.1 (omega arith) in
    let q1 = (div_digit n1 (highpart n0) d).field_0 in
    let q0 = (div_digit r1 (lowpart n0) d).field_0 in
    let exact : mul64 q1 half_word ≡ q1 * half_word = mod-eq_of_lt (omega (arith, first)) in
    let sum = bit_or-sum 32 q1 q0 second.2 in
    rw (exact, sum) (omega (arith, first, second, joined q1 q0 d))

-- `div64_2by1` returns the quotient of `uh * 2 ^ 64 + ul` by `d`, exactly, when the highest bit of
-- `d` is set and `uh` is below `d`: a word `q` such that a remainder below `d` is left.
pub div64_2by1-quotient :
    (ul uh d : ℕ)
    → 2 ^ 63 ≤ d
    → d < word
    → uh < d
    → ul < word
    → (q : ℕ) × (r : ℕ) × (div64_2by1 ul uh d ≡ ok q)
      × (q * d + r ≡ uh * word + ul)
      × (r < d)
      × (q < word)
unfolding div64_2by1
div64_2by1-quotient ul uh d norm dw fits low =
    let (total, rest, small) = udiv_qrnnd_lem uh ul d (omega arith) dw fits low in
    (
      (udiv_qrnnd uh ul d).field_0,
      (udiv_qrnnd uh ul d).field_1,
      rw (lt→ltb 0 (highpart d) (omega arith)),
      total,
      rest,
      small,
    )
