-- ===== src/Words/Product.antt =====
-- `mul64_double` gives the exact product.
use native.Mathlib.Nat.{mod-eq_of_lt}
use why.Base.{ℕ, ◌+◌, ◌-◌, ◌*◌, ◌≤◌, ◌<◌, ◌≡◌, ap, ◌∙◌, arith}
use why.Words.{word, half_word, add_products, mul64, mul64_double, highpart, lowpart}

-- No product of half words is larger than this.
abbrev largest : ℕ
largest = (half_word - 1) * (half_word - 1)

add_products-sum :
    (x0 x1 x2 x3 : ℕ)
    → x0 ≤ largest
    → x1 ≤ largest
    → x2 ≤ largest
    → x3 ≤ largest
    → let r = add_products x0 x1 x2 x3 in
      (r.field_1 * word + r.field_0 ≡ x3 * word + (x1 + x2) * half_word + x0) × (r.field_0 < word)
unfolding add_products
add_products-sum x0 x1 x2 x3 h0 h1 h2 h3 = ground arith

mul-le-largest : (a b : ℕ) → a < half_word → b < half_word → a * b ≤ largest
mul-le-largest a b h k = grind arith

expand :
    (a b c d : ℕ)
    → (a * half_word + b) * (c * half_word + d) ≡ a * c * word + (b * c + a * d) * half_word + b * d
expand a b c d = grind arith

mul64-exact : (a b : ℕ) → a < half_word → b < half_word → mul64 a b ≡ a * b
mul64-exact a b h k = mod-eq_of_lt (omega (arith, mul-le-largest a b h k))

mul64_double-add_products :
    (u v : ℕ)
    → u < word
    → v < word
    → mul64_double u v
      ≡ add_products
          (lowpart u * lowpart v)
          (lowpart u * highpart v)
          (highpart u * lowpart v)
          (highpart u * highpart v)
unfolding mul64_double
mul64_double-add_products u v hu hv = rw (
  mul64-exact (lowpart u) (lowpart v) (omega arith) (omega arith),
  mul64-exact (lowpart u) (highpart v) (omega arith) (omega arith),
  mul64-exact (highpart u) (lowpart v) (omega arith) (omega arith),
  mul64-exact (highpart u) (highpart v) (omega arith) (omega arith),
)

-- The two words of `mul64_double` are below 2 ^ 64, and together they are the product:
-- `field_1 * 2 ^ 64 + field_0`.
pub mul64_double-product :
    (u v : ℕ)
    → u < word
    → v < word
    → ((mul64_double u v).field_1 * word + (mul64_double u v).field_0 ≡ u * v)
      × ((mul64_double u v).field_0 < word)
      × ((mul64_double u v).field_1 < word)
mul64_double-product u v hu hv = rw (mul64_double-add_products u v hu hv) (
    omega (
      arith,
      add_products-sum (lowpart u * lowpart v) (lowpart u * highpart v) (highpart u * lowpart v)
          (highpart u * highpart v)
          (mul-le-largest (lowpart u) (lowpart v) (omega arith) (omega arith))
          (mul-le-largest (lowpart u) (highpart v) (omega arith) (omega arith))
          (mul-le-largest (highpart u) (lowpart v) (omega arith) (omega arith))
          (mul-le-largest (highpart u) (highpart v) (omega arith) (omega arith)),
      whole,
      product_small,
    ))
  where
    whole :
        u * v
        ≡ highpart u * highpart v * word
          + (lowpart u * highpart v + highpart u * lowpart v) * half_word
          + lowpart u * lowpart v
    whole =
        ap (λ (n : ℕ). n * v) (omega arith)
        ∙ ap (λ (n : ℕ). (highpart u * half_word + lowpart u) * n) (omega arith)
        ∙ expand (highpart u) (lowpart u) (highpart v) (lowpart v)

    product_small : u * v ≤ (word - 1) * (word - 1)
    product_small = grind arith
