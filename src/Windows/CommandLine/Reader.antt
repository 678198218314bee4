-- ===== src/Windows/CommandLine/Reader.antt =====
-- How a program on Windows reads its arguments back from a command line, by the documented rules of
-- `CommandLineToArgvW`: blanks and tabs separate arguments outside quotes; a quote behind 2n
-- backslashes stands for n of them and opens or closes a quoted part; behind 2n + 1 backslashes it
-- stands for n of them and a quote; any other backslash stands for itself.
use why.Base.{
  ℕ, ◌+◌, ◌/◌, ◌%◌, Bool, true, false, ◌&&◌, ◌||◌, not, List, [], ◌∷◌, ◌++◌, ◌==◌, replicate,
  if◌then◌else◌,
}
use why.Text.{Str}

-- The arguments read, and the one that is being read: the backslashes at its end are only counted.
pub record Reader : Type 0 where
  pub quoted : Bool
  pub slashes : ℕ
  pub begun : Bool
  pub current : Str
  pub arguments : List Str

abbrev pub backslashes : ℕ → Str
backslashes n = replicate n b'\\'

abbrev pub is_blank : ℕ → Bool
is_blank c = c == b' ' || c == 9

abbrev pub end_argument : Reader → Reader
end_argument r = record {
  quoted = false;
  slashes = 0;
  begun = false;
  current = [];
  arguments =
      if r.begun then r.arguments ++ ((r.current ++ backslashes r.slashes) ∷ []) else r.arguments;
}

unfoldable pub read_quote : Reader → Reader
read_quote r =
    if r.slashes % 2 == 0
    then record r {
      quoted = not r.quoted;
      slashes = 0;
      begun = true;
      current = r.current ++ backslashes (r.slashes / 2);
    }
    else record r {
      slashes = 0;
      begun = true;
      current = (r.current ++ backslashes (r.slashes / 2)) ++ (b'"' ∷ []);
    }

unfoldable pub step : Reader → ℕ → Reader
unfolding read_quote
step r c =
    if c == b'\\'
    then record r { slashes = r.slashes + 1; begun = true }
    else if c == b'"'
    then read_quote r
    else if is_blank c && not r.quoted
    then end_argument r
    else record r {
      slashes = 0;
      begun = true;
      current = (r.current ++ backslashes r.slashes) ++ (c ∷ []);
    }

unfoldable pub read : Reader → Str → Reader
read r [] = r
read r (c ∷ cs) = read (step r c) cs

-- Between two arguments.
abbrev pub between : List Str → Reader
between args = record { quoted = false; slashes = 0; begun = false; current = []; arguments = args }

-- The arguments of a text.
unfoldable pub read_arguments : Str → List Str
unfolding read
read_arguments s = (end_argument (read (between []) s)).arguments
