-- ===== src/Windows/CommandLine/RoundTrip.antt =====
-- The arguments of the command line are read back as they were.
use native.Mathlib.Numerals.{add-one}
use why.Base.{
  suc, drop, lt→ltb, ◌<◌, ok, ℕ, ◌+◌, ◌≡◌, refl, ap, ◌∙◌, sym, inl, inr, ◌⊎◌, Bool, true, false,
  ◌||◌, List, [], ◌∷◌, ◌++◌, append-nil, append_assoc, ◌==◌, ==_iff, length, Bool-cases,
}
use why.Text.{Str}
use why.Windows.CommandLine.{cmd_size, command_line, need_quote, has_special, is_special}
use why.Windows.CommandLine.Shape.{quoted_from, argument_text, arguments_text}
use why.Windows.CommandLine.Text.{whole_text, command_line-fits, whole_text, command_line-fits}
use why.Windows.CommandLine.Reader.{
  Reader, backslashes, end_argument, step, read, between, read_arguments,
}
use why.Windows.CommandLine.Quoted.{backslashes-suc, read-append, read_in_quotes}

-- Outside quotes.
abbrev outside : List Str → Bool → Str → ℕ → Reader
outside args b p n = record {
  quoted = false;
  slashes = n;
  begun = b;
  current = p;
  arguments = args;
}

unfoldable pub has_tab : Str → Bool
has_tab [] = false
has_tab (c ∷ cs) = c == 9 || has_tab cs

or_false : (a b : Bool) → (a || b) ≡ false → (a ≡ false) × (b ≡ false)
or_false true b h = absurd (cc)
or_false false b h = (refl, h)

-- A backslash that was only counted stands at the end of what was read.
slash_moved :
    (p : Str) (n : ℕ) (cs : Str)
    → (p ++ backslashes (n + 1)) ++ cs ≡ (p ++ backslashes n) ++ (b'\\' ∷ cs)
slash_moved p n cs =
    ap (λ s. (p ++ s) ++ cs) (ap backslashes (add-one n) ∙ sym (backslashes-suc n))
    ∙ ap (λ s. s ++ cs) (sym (append_assoc p (backslashes n) (b'\\' ∷ [])))
    ∙ append_assoc (p ++ backslashes n) (b'\\' ∷ []) cs

step_plain :
    (args : List Str) (b : Bool) (p : Str) (n c : ℕ)
    → (c == b'\\') ≡ false
    → (c == b'"') ≡ false
    → (c == b' ') ≡ false
    → (c == 9) ≡ false
    → step (outside args b p n) c ≡ outside args true ((p ++ backslashes n) ++ (c ∷ [])) 0
unfolding step
step_plain args b p n c e f g h = rw (e, f, g, h)

read-nil : (r : Reader) → read r [] ≡ r
unfolding read
read-nil r = refl

read_plain :
    (args : List Str) (ca p : Str) (n : ℕ) (b : Bool) (rest : Str)
    → has_special ca ≡ false
    → has_tab ca ≡ false
    → (b ≡ true) ⊎ ((length ca == 0) ≡ false)
    → read (outside args b p n) (ca ++ (b' ' ∷ rest))
      ≡ read (between (args ++ (((p ++ backslashes n) ++ ca) ∷ []))) rest
unfolding has_special has_tab read step
read_plain args [] p n b rest plain untabbed (inl e) = rw (e, append-nil (p ++ backslashes n))
read_plain args [] p n b rest plain untabbed (inr e) = absurd (cc)
read_plain args (c ∷ cs) p n b rest plain untabbed some =
    let (not_special, plain') = or_false (is_special c) (has_special cs) plain in
    let (not_space, not_quote) = or_false (c == b' ') (c == b'"') not_special in
    let (not_tab, untabbed') = or_false (c == 9) (has_tab cs) untabbed in
    elim (Bool-cases (c == b'\\')) [
      | inl e ↦
          let same : c ≡ b'\\' = (==_iff c b'\\').0 e in
          rw same (
            read_plain args cs p (n + 1) true rest plain' untabbed' (inl refl)
            ∙ ap (λ s. read (between (args ++ (s ∷ []))) rest) (slash_moved p n cs))
      | inr e ↦
          ap (λ r. read r (cs ++ (b' ' ∷ rest)))
            (step_plain args b p n c e not_quote not_space not_tab)
          ∙ (read_plain args cs ((p ++ backslashes n) ++ (c ∷ [])) 0 true rest plain' untabbed'
                (inl refl)
              ∙ ap (λ s. read (between (args ++ (s ∷ []))) rest)
                  (ap (λ s. s ++ cs) (append-nil _)
                    ∙ append_assoc (p ++ backslashes n) (c ∷ []) cs))
    ]

-- An argument that is written as it is must have no tab, since tabs separate arguments too.
abbrev pub IsReadable : Str → Type 0
IsReadable ca = (need_quote ca ≡ true) ⊎ (has_tab ca ≡ false)

abbrev pub AreReadable : List Str → Type 0
AreReadable [] = Unit
AreReadable (ca ∷ args) = IsReadable ca × AreReadable args

read_argument :
    (args : List Str) (ca rest : Str)
    → IsReadable ca
    → read (between args) (argument_text ca ++ rest) ≡ read (between (args ++ (ca ∷ []))) rest
unfolding argument_text
read_argument args ca rest good = elim (Bool-cases (need_quote ca)) [
  | inl e ↦ rw e (
      read-append (between args) (b'"' ∷ (quoted_from [] ca ++ (b'"' ∷ b' ' ∷ []))) rest
      ∙ ap (λ r. read r rest) (read_in_quotes args ca))
  | inr e ↦
      let (some, plain) = or_false (length ca == 0) (has_special ca) (unfold need_quote in e) in
      rw (e, append_assoc ca (b' ' ∷ []) rest)
        (read_plain args ca [] 0 false rest plain (untabbed e good) (inr some))
]
  where
    untabbed : need_quote ca ≡ false → IsReadable ca → has_tab ca ≡ false
    untabbed e (inl h) = absurd (let h' = sym e ∙ h in cc)
    untabbed e (inr h) = h

read_all :
    (done args : List Str)
    → AreReadable args
    → read (between done) (arguments_text args) ≡ between (done ++ args)
unfolding arguments_text
read_all done [] h = read-nil (between done) ∙ ap between (sym (append-nil done))
read_all done (ca ∷ args) h =
    read_argument done ca (arguments_text args) h.0
    ∙ read_all (done ++ (ca ∷ [])) args h.1
    ∙ ap between (append_assoc done (ca ∷ []) args)

read_arguments-text :
    (args : List Str) → AreReadable args → read_arguments (arguments_text args) ≡ args
unfolding read_arguments
read_arguments-text args h = ap (λ r. (end_argument r).arguments) (read_all [] args h)

drop-name : (name rest : Str) → drop (suc (length name)) ((name ++ (b' ' ∷ [])) ++ rest) ≡ rest
drop-name [] rest = refl
drop-name (c ∷ name) rest = drop-name name rest

-- A program that reads its arguments by the documented rules gets back the arguments that
-- `run_request` puts into the command line behind its name, whatever blanks, quotes and backslashes
-- they hold. The command line must fit in the 4096 bytes of `cmd`, and an argument that holds a tab
-- must hold a blank or a quote too.
pub command_line-read :
    (name : Str) (args : List Str)
    → AreReadable args
    → length (whole_text name args) < cmd_size
    → (cmd : Str) × (command_line name args ≡ ok cmd)
      × (read_arguments (drop (suc (length name)) cmd) ≡ args)
command_line-read name args h fits = (
  whole_text name args,
  command_line-fits name args ∙ rw (lt→ltb (length (whole_text name args)) cmd_size fits),
  ap read_arguments (drop-name name (arguments_text args)) ∙ read_arguments-text args h,
)
