-- ===== src/Tests/Commands.antt =====
-- The command line that is built for Windows, and what is read back from it.
use why.Base.{
  drop, arith, ◌∷◌, [], List, ◌≡◌, refl, inl, inr, ltb, length, if◌then◌else◌, ok, stop, undefined,
}
use why.Text.{Str, codes}
use why.Windows.CommandLine.{
  need_quote, cmd_size, command_line, strcat, put_text, put, terminate, add_arguments, add_argument,
  quote_from, quote_char,
}
use why.Windows.CommandLine.Shape.{slashes, quoted_from, arguments_text}
use why.Windows.CommandLine.Text.{whole_text, command_line-fits}
use why.Windows.CommandLine.Reader.{read_arguments}
use why.Windows.CommandLine.RoundTrip.{has_tab, command_line-read}

-- A plain argument, a path with a blank that ends with a backslash, and a quote behind a backslash.
abbrev some_arguments : List Str
some_arguments = codes "-q" ∷ codes "C:\\my files\\" ∷ codes "a\\\"b" ∷ []

written :
    command_line (codes "z3") some_arguments
    ≡ ok (codes "z3 -q \"C:\\my files\\\\\" \"a\\\\\\\"b\" ")
unfolding command_line strcat put_text put terminate add_arguments add_argument quote_from
    quote_char
written = refl

command_line-read_example :
    (cmd : Str) × (command_line (codes "z3") some_arguments ≡ ok cmd)
    × (read_arguments (drop 3 cmd) ≡ some_arguments)
unfolding has_tab need_quote arguments_text quoted_from slashes
command_line-read_example =
    command_line-read (codes "z3") some_arguments (inr refl, (inl refl, (inl refl, tt)))
      (omega arith)

command_line-fits_example : command_line (codes "z3") some_arguments ≡ (
    if ltb (length (whole_text (codes "z3") some_arguments)) cmd_size
    then ok (whole_text (codes "z3") some_arguments)
    else stop undefined)
command_line-fits_example = command_line-fits (codes "z3") some_arguments
