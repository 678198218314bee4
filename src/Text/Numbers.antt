-- ===== src/Text/Numbers.antt =====
-- `strtol` of the C library with an end pointer: what is left behind the number that it reads.
use why.Base.{◌||◌, [], ◌∷◌, ◌==◌, if◌then◌else◌}
use why.Text.{Str, is_space, is_digit}

unfoldable pub after_digits : Str → Str
after_digits [] = []
after_digits (c ∷ cs) = let rest = after_digits cs in if is_digit c then rest else c ∷ cs

-- At least one digit is wanted; else nothing of `whole` is read.
unfoldable pub after_sign : Str → Str → Str
unfolding after_digits
after_sign whole [] = whole
after_sign whole (c ∷ cs) = if is_digit c then after_digits cs else whole

unfoldable pub after_spaces : Str → Str → Str
unfolding after_sign
after_spaces whole [] = whole
after_spaces whole (c ∷ cs) =
    let rest = after_spaces whole cs in
    if is_space c
    then rest
    else if c == b'-' || c == b'+'
    then after_sign whole cs
    else after_sign whole (c ∷ cs)

-- What the end pointer of `strtol (s, &p, 10)` points to.
unfoldable pub strtol_end : Str → Str
unfolding after_spaces
strtol_end s = after_spaces s s
