-- ===== src/Text.antt =====
-- C strings and the functions of the C library that src/server/request.c applies to them.
-- A string is the list of its bytes without the terminator.
pub mod Laws
pub mod Numbers
use Prim.Native.Char.{code}
use Prim.Native.String.{String}
use why.Base.{
  ℕ, zero, suc, ◌+◌, ◌-◌, ◌*◌, ◌≤◌, ◌<◌, ◌^◌, Bool, true, false, ◌&&◌, ◌||◌, List, [], ◌∷◌, ltb,
  leb, ◌==◌, if◌then◌else◌, ℤ, pos, negsuc, Outcome, ok, stop, undefined,
}

abbrev pub Str : Type 0
Str = List ℕ

-- The bytes of a text of the program.
abbrev pub codes : String → Str
codes String.[] = []
codes (String.◌∷◌ c s) = code c ∷ codes s

-- A string ends at its first zero byte.
unfoldable pub c_string : Str → Str
c_string [] = []
c_string (c ∷ cs) = if c == 0 then [] else c ∷ c_string cs

-- `strcmp (a, b) == 0`
unfoldable pub str_eq : Str → Str → Bool
str_eq [] [] = true
str_eq [] (d ∷ ds) = false
str_eq (c ∷ cs) [] = false
str_eq (c ∷ cs) (d ∷ ds) = c == d && str_eq cs ds

-- `strncmp (a, b, n) == 0`: the first `n` bytes agree, terminators included.
unfoldable pub strncmp_eq : Str → Str → ℕ → Bool
strncmp_eq a b zero = true
strncmp_eq [] [] (suc n) = true
strncmp_eq [] (d ∷ ds) (suc n) = false
strncmp_eq (c ∷ cs) [] (suc n) = false
strncmp_eq (c ∷ cs) (d ∷ ds) (suc n) = c == d && strncmp_eq cs ds n

unfoldable pub is_space : ℕ → Bool
is_space c = c == 32 || (leb 9 c && leb c 13)

unfoldable pub is_digit : ℕ → Bool
is_digit c = leb b'0' c && leb c b'9'

-- The number that the leading digits spell.
unfoldable pub digits_value : ℕ → Str → ℕ
digits_value acc [] = acc
digits_value acc (c ∷ cs) =
    let rest = digits_value (acc * 10 + (c - b'0')) cs in if is_digit c then rest else acc

-- An optional sign, true for a minus, and the digits behind it.
signed_digits : Str → Bool × ℕ
signed_digits [] = (false, 0)
signed_digits (c ∷ cs) =
    if c == b'-'
    then (true, digits_value 0 cs)
    else if c == b'+'
    then (false, digits_value 0 cs)
    else (false, digits_value 0 (c ∷ cs))

-- White space, a sign, digits: what the conversion functions of the C library read.
unfoldable pub number : Str → Bool × ℕ
unfolding signed_digits digits_value is_space is_digit
number [] = (false, 0)
number (c ∷ cs) = let rest = number cs in if is_space c then rest else signed_digits (c ∷ cs)

-- A value that is not in the range of the type, below `bound`, has no meaning.
unfoldable pub in_range : ℕ → Bool × ℕ → Outcome ℤ
in_range bound (false, n) = if ltb n bound then ok (pos n) else stop undefined
in_range bound (true, zero) = ok (pos 0)
in_range bound (true, suc n) = if ltb n bound then ok (negsuc n) else stop undefined

-- `atoi`, to an `int`, and `atol`, to a `long` of 64 bits.
unfoldable pub atoi : Str → Outcome ℤ
unfolding number in_range
atoi s = in_range (2 ^ 31) (number s)

unfoldable pub atol : Str → Outcome ℤ
unfolding number in_range
atol s = in_range (2 ^ 63) (number s)

clamp : ℕ → Bool × ℕ → ℤ
clamp bound (false, n) = if ltb n bound then pos n else pos (bound - 1)
clamp bound (true, zero) = pos 0
clamp bound (true, suc n) = if ltb n bound then negsuc n else negsuc (bound - 1)

-- `strtol (s, NULL, 10)` goes to the end of the range instead.
unfoldable pub strtol : Str → ℤ
unfolding number clamp
strtol s = clamp (2 ^ 63) (number s)

-- The same where a `long` has 32 bits.
unfoldable pub strtol32 : Str → ℤ
unfolding number clamp
strtol32 s = clamp (2 ^ 31) (number s)
