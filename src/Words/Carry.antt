-- ===== src/Words/Carry.antt =====
-- Sums and differences of words with their carry or borrow, and the shift over two words.
use native.Mathlib.Nat.{
  zero-add, suc-add, pow-suc, one-le-pow, mod-lt, mul-lt-mul_of_pos_right, div-add-mod,
}
use why.Base.{
  zero, suc, ℕ, ◌+◌, ◌-◌, ◌*◌, ◌/◌, ◌%◌, ◌^◌, ◌≤◌, ◌<◌, ◌≡◌, ap, ◌∙◌, sym, arith, lt→ltb, ok,
}
use why.Words.{word, Pair, add64_with_carry, sub64_with_borrow, add64_3, lsld64}

-- The sum of two words and a carry is `field_1 * 2 ^ 64 + field_0`, and the difference of two words
-- and a borrow is `field_0 - field_1 * 2 ^ 64`; the new carry or borrow is 0 or 1 again.
pub carries :
    (x y c : ℕ)
    → x < word
    → y < word
    → c ≤ 1
    → ((add64_with_carry x y c).field_1 * word + (add64_with_carry x y c).field_0 ≡ x + y + c)
      × ((add64_with_carry x y c).field_0 < word)
      × ((add64_with_carry x y c).field_1 ≤ 1)
      × ((sub64_with_borrow x y c).field_0 + y + c ≡ x + (sub64_with_borrow x y c).field_1 * word)
      × ((sub64_with_borrow x y c).field_0 < word)
      × ((sub64_with_borrow x y c).field_1 ≤ 1)
unfolding add64_with_carry sub64_with_borrow
carries x y c hx hy hc =
    (ground arith, ground arith, ground arith, ground arith, ground arith, ground arith)

-- The sum of three words is `field_1 * 2 ^ 64 + field_0`, and the carry is at most 2.
pub add64_3-sum :
    (x y z : ℕ)
    → x < word
    → y < word
    → z < word
    → ((add64_3 x y z).field_1 * word + (add64_3 x y z).field_0 ≡ x + y + z)
      × ((add64_3 x y z).field_0 < word)
      × ((add64_3 x y z).field_1 ≤ 2)
unfolding add64_3
add64_3-sum x y z hx hy hz = (ground arith, ground arith, ground arith)

pow-add : (a b : ℕ) → 2 ^ a * 2 ^ b ≡ 2 ^ (a + b)
pow-add zero b = rw (zero-add b) (omega arith)
pow-add (suc a) b =
    rw (suc-add a b, pow-suc 2 a, pow-suc 2 (a + b))
      (omega (arith, twice (2 ^ a) (2 ^ b), pow-add a b))
  where
    twice : (m n : ℕ) → 2 * m * n ≡ 2 * (m * n)
    twice m n = grind arith

expand : (p h l c : ℕ) → (p * h + l) * c ≡ p * c * h + l * c
expand p h l c = grind arith

-- `lsld64` shifts a word to the left over two words: they are `x * 2 ^ cnt`, for a shift of 1 to 63.
pub lsld64-shift :
    (x cnt : ℕ)
    → 0 < cnt
    → cnt < 64
    → x < word
    → (r : Pair) × (lsld64 x cnt ≡ ok r)
      × (r.field_1 * word + r.field_0 ≡ x * 2 ^ cnt)
      × (r.field_0 < word)
unfolding lsld64
lsld64-shift x cnt pos_cnt small low = (
  record { field_0 = x * 2 ^ cnt % word; field_1 = x / p },
  rw (lt→ltb 0 cnt pos_cnt, lt→ltb cnt 64 small),
  omega (arith, whole, rest_low),
  omega arith,
)
  where
    p : ℕ
    p = 2 ^ (64 - cnt)

    total : 64 - cnt + cnt ≡ 64
    total = omega arith

    both : p * 2 ^ cnt ≡ word
    both = pow-add (64 - cnt) cnt ∙ ap (λ (n : ℕ). 2 ^ n) total

    rest : x % p < p
    rest = mod-lt x {m = p} (one-le-pow (64 - cnt) 2 (omega arith))

    rest_low : x % p * 2 ^ cnt < word
    rest_low = omega (
      arith,
      both,
      mul-lt-mul_of_pos_right {m = x % p} {n = p} {k = 2 ^ cnt} rest
          (one-le-pow cnt 2 (omega arith)),
    )

    whole : x * 2 ^ cnt ≡ word * (x / p) + x % p * 2 ^ cnt
    whole =
        ap (λ (n : ℕ). n * 2 ^ cnt) (sym (div-add-mod x p))
        ∙ expand p (x / p) (x % p) (2 ^ cnt)
        ∙ ap (λ (n : ℕ). n * (x / p) + x % p * 2 ^ cnt) both
