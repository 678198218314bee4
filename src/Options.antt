-- ===== src/Options.antt =====
-- src/server/options.h and options.c: the options of the command line.
-- What `getopt_long` returns is taken as a list: the analysis of `argv` is the C library's.
pub mod Laws
use why.Base.{
  ℕ, zero, suc, ◌-◌, ◌%◌, ◌^◌, Bool, true, false, List, [], ◌∷◌, Option, none, some, ltb,
  if◌then◌else◌, ℤ, pos, negsuc, Outcome, ok, stop, exits, ◌>>=◌, ◌>>◌,
}
use why.Text.{Str, strtol}

-- The values of `c` in the switch: `'i'`, `'j'`, `'l'`, `'s'` with their argument, or any other.
pub data Opt : Type 0 where
  single_client logging bad : Opt
  parallel socket : Str → Opt

-- The globals.
pub record Options : Type 0 where
  pub jobs : ℤ
  pub socketname : Option Str
  pub logs : Bool
  pub single : Bool

abbrev pub default_options : Options
default_options = record { jobs = pos 1; socketname = none; logs = false; single = false }

-- The `int` of 32 bits.
abbrev pub signed_of : ℕ → ℤ
signed_of w = if ltb w (2 ^ 31) then pos w else negsuc (2 ^ 32 - 1 - w)

-- The conversion of a `long` to `int` keeps the low 32 bits.
unfoldable pub to_int : ℤ → ℤ
to_int (pos n) = signed_of (n % 2 ^ 32)
to_int (negsuc n) = signed_of (2 ^ 32 - 1 - n % 2 ^ 32)

abbrev pub is_positive : ℤ → Bool
is_positive (pos zero) = false
is_positive (pos (suc n)) = true
is_positive (negsuc n) = false

-- One round of the loop. `strtol` in base 10 does not set `errno` to `EINVAL`.
unfoldable pub take_option : Options → Opt → Outcome Options
unfolding to_int
take_option o single_client = ok (record o { single = true })
take_option o logging = ok (record o { logs = true })
take_option o bad = stop (exits 1)
take_option o (parallel arg) =
    if is_positive (to_int (strtol arg))
    then ok (record o { jobs = to_int (strtol arg) })
    else stop (exits 1)
take_option o (socket name) = ok (record o { socketname = some name })

unfoldable pub take_options : Options → List Opt → Outcome Options
take_options o [] = ok o
take_options o (x ∷ xs) = do o' ← take_option o x; take_options o' xs

-- The checks behind the loop: no further arguments (`optind < argc`), and a socket name.
unfoldable pub check_options : Bool → Options → Option Str → Outcome Options
check_options true o name = stop (exits 1)
check_options false o none = stop (exits 1)
check_options false o (some name) = ok o

unfoldable pub parse_options : List Opt → Bool → Outcome Options
unfolding take_options check_options
parse_options opts extra_arguments = do
  o ← take_options default_options opts
  check_options extra_arguments o o.socketname
