-- ===== src/Tests/Arithmetic.antt =====
-- The arithmetic on two words at concrete numbers.
use why.Base.{ℕ, ◌+◌, ◌-◌, ◌*◌, ◌≤◌, ◌<◌, ◌≡◌, arith, ok}
use why.Words.{word, mul64_double, div64_2by1, add64_with_carry, sub64_with_borrow}
use why.Words.Product.{mul64_double-product}
use why.Words.Division.{div64_2by1-quotient}
use why.Words.Carry.{carries}

mul64_double-product_example :
    ((mul64_double (word - 1) (word - 2)).field_1 * word
        + (mul64_double (word - 1) (word - 2)).field_0
      ≡ (word - 1) * (word - 2))
    × ((mul64_double (word - 1) (word - 2)).field_0 < word)
    × ((mul64_double (word - 1) (word - 2)).field_1 < word)
mul64_double-product_example =
    mul64_double-product (word - 1) (word - 2) (omega arith) (omega arith)

div64_2by1-quotient_example :
    (q : ℕ) × (r : ℕ) × (div64_2by1 7 (word - 3) (word - 1) ≡ ok q)
    × (q * (word - 1) + r ≡ (word - 3) * word + 7)
    × (r < word - 1)
    × (q < word)
div64_2by1-quotient_example =
    div64_2by1-quotient 7 (word - 3) (word - 1) (omega arith) (omega arith) (omega arith)
      (omega arith)

carries_example :
    ((add64_with_carry (word - 1) (word - 1) 1).field_1 * word
        + (add64_with_carry (word - 1) (word - 1) 1).field_0
      ≡ word - 1 + (word - 1) + 1)
    × ((add64_with_carry (word - 1) (word - 1) 1).field_0 < word)
    × ((add64_with_carry (word - 1) (word - 1) 1).field_1 ≤ 1)
    × ((sub64_with_borrow (word - 1) (word - 1) 1).field_0 + (word - 1) + 1
        ≡ word - 1 + (sub64_with_borrow (word - 1) (word - 1) 1).field_1 * word)
    × ((sub64_with_borrow (word - 1) (word - 1) 1).field_0 < word)
    × ((sub64_with_borrow (word - 1) (word - 1) 1).field_1 ≤ 1)
carries_example = carries (word - 1) (word - 1) 1 (omega arith) (omega arith) (omega arith)
