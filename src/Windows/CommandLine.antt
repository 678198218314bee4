-- ===== src/Windows/CommandLine.antt =====
-- src/server/server-win.c, the command line that `run_request` builds in `char cmd[4096]`.
pub mod Shape
pub mod Text
pub mod Reader
pub mod Quoted
pub mod RoundTrip
use why.Base.{
  ℕ, zero, suc, ◌+◌, Bool, true, false, ◌&&◌, ◌||◌, List, [], ◌∷◌, ◌++◌, ltb, ◌==◌, length,
  if◌then◌else◌, Outcome, ok, stop, undefined, ◌>>=◌, ◌>>◌, require,
}
use why.Text.{Str}

-- The size of `cmd`.
abbrev pub cmd_size : ℕ
cmd_size = 4096

-- `cmd[cl_index] = c; cl_index++;`, where `cl_index` is the number of characters written.
unfoldable pub put : ℕ → Str → Outcome Str
put c cmd = do require (ltb (length cmd) cmd_size); ok (cmd ++ (c ∷ []))

-- The terminator is written behind them.
unfoldable pub terminate : Str → Outcome Str
terminate cmd = do require (ltb (length cmd) cmd_size); ok cmd

unfoldable pub put_text : Str → Str → Outcome Str
put_text [] cmd = ok cmd
put_text (c ∷ cs) cmd = do cmd' ← put c cmd; put_text cs cmd'

unfoldable pub strcat : Str → Str → Outcome Str
strcat cmd s = do cmd' ← put_text s cmd; terminate cmd'

abbrev pub is_special : ℕ → Bool
is_special c = c == b' ' || c == b'"'

-- Is there a blank or a quote?
unfoldable pub has_special : Str → Bool
has_special [] = false
has_special (c ∷ cs) = is_special c || has_special cs

unfoldable pub need_quote : Str → Bool
unfolding has_special
need_quote ca = length ca == 0 || has_special ca

-- The loops that go back over `ca` and write a backslash for each one that they meet. What they go
-- over is a list that starts at the place where they start.
unfoldable pub copy_slashes : Str → Str → Outcome Str
copy_slashes [] cmd = ok cmd
copy_slashes (c ∷ cs) cmd =
    let more = λ (cmd' : Str). copy_slashes cs cmd' in
    if c == b'\\' then put b'\\' cmd >>= more else ok cmd

abbrev pub is_last : Str → Bool
is_last [] = true
is_last (c ∷ cs) = false

-- One character of an argument in quotes, between what was `seen` before it, the last first, and
-- what comes after it. The test in front of the first loop is that of its first round.
unfoldable pub quote_char : Str → ℕ → Str → Str → Outcome Str
unfolding copy_slashes
quote_char seen c cs cmd =
    if c == b'"'
    then (do cmd' ← copy_slashes seen cmd; cmd'' ← put b'\\' cmd'; put b'"' cmd'')
    else (do
      cmd' ← put c cmd
      if c == b'\\' && is_last cs then copy_slashes (c ∷ seen) cmd' else ok cmd')

unfoldable pub quote_from : Str → Str → Str → Outcome Str
quote_from seen [] cmd = ok cmd
quote_from seen (c ∷ cs) cmd = do cmd' ← quote_char seen c cs cmd; quote_from (c ∷ seen) cs cmd'

-- One round of the loop over the arguments.
unfoldable pub add_argument : Str → Str → Outcome Str
unfolding need_quote
add_argument cmd ca =
    if need_quote ca
    then (do
      c₁ ← put b'"' cmd
      c₂ ← quote_from [] ca c₁
      c₃ ← put b'"' c₂
      c₄ ← put b' ' c₃
      terminate c₄)
    else (do c₁ ← strcat cmd ca; strcat c₁ (b' ' ∷ []))

unfoldable pub add_arguments : Str → List Str → Outcome Str
add_arguments cmd [] = ok cmd
add_arguments cmd (ca ∷ args) = do cmd' ← add_argument cmd ca; add_arguments cmd' args

-- `strcpy (cmd, r->cmd)` and what follows it.
unfoldable pub command_line : Str → List Str → Outcome Str
command_line name args = do c₁ ← strcat [] name; c₂ ← strcat c₁ (b' ' ∷ []); add_arguments c₂ args
