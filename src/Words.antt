-- ===== src/Words.antt =====
-- examples/multiprecision/overlays/uint64gmp.h: arithmetic on two words of 64 bits, which the
-- extracted multiprecision library is built on.
-- `& (__ll_B - 1)` is written as the remainder, and `>> (W_TYPE_SIZE / 2)` as the quotient, by 2 ^ 32.
pub mod Bits
pub mod Product
pub mod Carry
pub mod Division
use Prim.Native.Nat.{bit_or}
use why.Base.{
  ℕ, ◌+◌, ◌-◌, ◌*◌, ◌/◌, ◌%◌, ◌^◌, Bool, true, false, ltb, leb, ◌==◌, if◌then◌else◌, Outcome, ok,
  stop, undefined, ◌>>=◌, ◌>>◌, require,
}

abbrev pub word : ℕ
word = 2 ^ 64

-- `__ll_B`
abbrev pub half_word : ℕ
half_word = 2 ^ 32

abbrev pub add64 : ℕ → ℕ → ℕ
add64 a b = (a + b) % word

abbrev pub sub64 : ℕ → ℕ → ℕ
sub64 a b = (a + word - b) % word

abbrev pub mul64 : ℕ → ℕ → ℕ
mul64 a b = a * b % word

abbrev pub lowpart : ℕ → ℕ
lowpart t = t % half_word

abbrev pub highpart : ℕ → ℕ
highpart t = t / half_word

-- The results of two words: `__field_0` and `__field_1`.
pub record Pair : Type 0 where
  pub field_0 : ℕ
  pub field_1 : ℕ

-- The last four lines of `umul_ppmm`: the products of the halves are added up.
unfoldable pub add_products : ℕ → ℕ → ℕ → ℕ → Pair
add_products x0 x1 x2 x3 =
    let x1' = add64 x1 (highpart x0) in
    let x1'' = add64 x1' x2 in
    let x3' = if ltb x1'' x2 then add64 x3 half_word else x3 in
    record {
      field_0 = add64 (x1'' * half_word % word) (lowpart x0);
      field_1 = add64 x3' (highpart x1'');
    }

-- `umul_ppmm`
unfoldable pub mul64_double : ℕ → ℕ → Pair
unfolding add_products
mul64_double u v =
    add_products (mul64 (lowpart u) (lowpart v)) (mul64 (lowpart u) (highpart v))
      (mul64 (highpart u) (lowpart v)) (mul64 (highpart u) (highpart v))

-- A digit of the quotient that is too large by one or two is corrected: the digit and the remainder.
unfoldable pub correct : ℕ → ℕ → ℕ → ℕ → Pair
correct q r m d =
    let q' = sub64 q 1 in
    let r' = add64 r d in
    if ltb r m
    then (if leb d r'
        then (if ltb r' m
            then record { field_0 = sub64 q' 1; field_1 = sub64 (add64 r' d) m }
            else record { field_0 = q'; field_1 = sub64 r' m })
        else record { field_0 = q'; field_1 = sub64 r' m })
    else record { field_0 = q; field_1 = sub64 r m }

-- One of the two halves of `__udiv_qrnnd_c`: from a remainder and the next half word of the dividend.
unfoldable pub div_digit : ℕ → ℕ → ℕ → Pair
unfolding correct
div_digit r half d =
    let d1 = highpart d in
    let d0 = lowpart d in
    let q = r / d1 in
    correct q (bit_or (mul64 (sub64 r (mul64 q d1)) half_word) half) (mul64 q d0) d

-- `__udiv_qrnnd_c`: the quotient and the remainder.
unfoldable pub udiv_qrnnd : ℕ → ℕ → ℕ → Pair
unfolding div_digit
udiv_qrnnd n1 n0 d =
    let first = div_digit n1 (highpart n0) d in
    let second = div_digit first.field_1 (lowpart n0) d in
    record {
      field_0 = bit_or (mul64 first.field_0 half_word) second.field_0;
      field_1 = second.field_1;
    }

-- Division by zero is undefined.
unfoldable pub div64_2by1 : ℕ → ℕ → ℕ → Outcome ℕ
unfolding udiv_qrnnd
div64_2by1 ul uh d = do require (ltb 0 (highpart d)); ok (udiv_qrnnd uh ul d).field_0

unfoldable pub add64_with_carry : ℕ → ℕ → ℕ → Pair
add64_with_carry x y c =
    let r = add64 (add64 x y) c in
    record { field_0 = r; field_1 = if r == x then c else if ltb r x then 1 else 0 }

unfoldable pub sub64_with_borrow : ℕ → ℕ → ℕ → Pair
sub64_with_borrow x y b =
    let r = sub64 (sub64 x y) b in
    record { field_0 = r; field_1 = if ltb x r then 1 else if r == x then b else 0 }

unfoldable pub add64_3 : ℕ → ℕ → ℕ → Pair
add64_3 x y z =
    let r = add64 x y in
    let r' = add64 r z in
    record { field_0 = r'; field_1 = (if ltb r y then 1 else 0) + (if ltb r' z then 1 else 0) }

-- Shifts by 64 or more are undefined, so `cnt` is neither 0 nor above 63.
unfoldable pub lsld64 : ℕ → ℕ → Outcome Pair
lsld64 x cnt = do
  require (ltb 0 cnt)
  require (ltb cnt 64)
  ok (record { field_0 = x * 2 ^ cnt % word; field_1 = x / 2 ^ (64 - cnt) })
