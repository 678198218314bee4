-- ===== src/Windows/CommandLine/Shape.antt =====
-- The command line as a text, and that the code writes this text character by character.
use why.Base.{
  bind_ext, bind_assoc, ℕ, ◌≡◌, refl, ap, ◌∙◌, sym, inl, inr, true, false, ◌&&◌, List, [], ◌∷◌,
  ◌++◌, ltb, ◌==◌, length, Bool-cases, if◌then◌else◌, Outcome, ok, stop, undefined, ◌>>=◌,
}
use why.Text.{Str}
use why.Windows.CommandLine.{
  cmd_size, put, terminate, put_text, strcat, need_quote, copy_slashes, is_last, quote_char,
  quote_from, add_argument,
}

-- The backslashes at the front.
unfoldable pub slashes : Str → Str
slashes [] = []
slashes (c ∷ cs) = if c == b'\\' then b'\\' ∷ slashes cs else []

unfoldable pub quoted_char : Str → ℕ → Str → Str
quoted_char seen c cs =
    if c == b'"'
    then slashes seen ++ (b'\\' ∷ b'"' ∷ [])
    else c ∷ (if c == b'\\' && is_last cs then slashes (c ∷ seen) else [])

unfoldable pub quoted_from : Str → Str → Str
unfolding quoted_char
quoted_from seen [] = []
quoted_from seen (c ∷ cs) = quoted_char seen c cs ++ quoted_from (c ∷ seen) cs

unfoldable pub argument_text : Str → Str
unfolding need_quote
argument_text ca =
    if need_quote ca then b'"' ∷ (quoted_from [] ca ++ (b'"' ∷ b' ' ∷ [])) else ca ++ (b' ' ∷ [])

unfoldable pub arguments_text : List Str → Str
unfolding argument_text
arguments_text [] = []
arguments_text (ca ∷ args) = argument_text ca ++ arguments_text args

-- Writing one text after another.
put_text-append :
    (s t cmd : Str) → (put_text s cmd >>= λ cmd'. put_text t cmd') ≡ put_text (s ++ t) cmd
unfolding put_text
put_text-append [] t cmd = refl
put_text-append (c ∷ s) t cmd =
    bind_assoc (put c cmd) (put_text s) (put_text t)
    ∙ bind_ext (put c cmd) _ _ (λ cmd'. put_text-append s t cmd')

pub put_text-cons :
    (c : ℕ) (cs cmd : Str) → put_text (c ∷ cs) cmd ≡ (put c cmd >>= λ cmd'. put_text cs cmd')
unfolding put_text
put_text-cons c cs cmd = refl

put_text_one : (c : ℕ) (cmd : Str) → put_text (c ∷ []) cmd ≡ put c cmd
unfolding put_text
put_text_one c cmd = returned (put c cmd)
  where
    returned : (m : Outcome Str) → (m >>= ok) ≡ m
    returned (ok v) = refl
    returned (stop why) = refl

put_text_two : (c d : ℕ) (cmd : Str) → (put c cmd >>= put d) ≡ put_text (c ∷ d ∷ []) cmd
put_text_two c d cmd =
    sym (put_text-cons c (d ∷ []) cmd ∙ bind_ext (put c cmd) _ _ (put_text_one d))

pub put_text-nil : (cmd : Str) → put_text [] cmd ≡ ok cmd
unfolding put_text
put_text-nil cmd = refl

pub put_inside :
    (c : ℕ) (cmd : Str) → ltb (length cmd) cmd_size ≡ true → put c cmd ≡ ok (cmd ++ (c ∷ []))
unfolding put
put_inside c cmd e = rw e

pub put_outside :
    (c : ℕ) (cmd : Str) → ltb (length cmd) cmd_size ≡ false → put c cmd ≡ stop undefined
unfolding put
put_outside c cmd e = rw e

copy_slashes-put_text : (s cmd : Str) → copy_slashes s cmd ≡ put_text (slashes s) cmd
unfolding copy_slashes slashes put_text
copy_slashes-put_text [] cmd = refl
copy_slashes-put_text (c ∷ cs) cmd = elim (Bool-cases (c == b'\\')) [
  | inl e ↦ rw e (bind_ext (put b'\\' cmd) _ _ (λ cmd'. copy_slashes-put_text cs cmd'))
  | inr e ↦ rw e
]

quote_char-put_text :
    (seen : Str) (c : ℕ) (cs cmd : Str)
    → quote_char seen c cs cmd ≡ put_text (quoted_char seen c cs) cmd
unfolding quote_char quoted_char
quote_char-put_text seen c cs cmd = elim (Bool-cases (c == b'"')) [
  | inl e ↦
      rw (e, copy_slashes-put_text seen cmd)
        (bind_ext (put_text (slashes seen) cmd) _ _ (put_text_two b'\\' b'"')
          ∙ put_text-append (slashes seen) (b'\\' ∷ b'"' ∷ []) cmd)
  | inr e ↦ elim (Bool-cases (c == b'\\' && is_last cs)) [
    | inl f ↦
        rw (e, f, put_text-cons c (slashes (c ∷ seen)) cmd)
          (bind_ext (put c cmd) _ _ (copy_slashes-put_text (c ∷ seen)))
    | inr f ↦
        rw (e, f, put_text-cons c [] cmd)
          (bind_ext (put c cmd) _ _ (λ cmd'. sym (put_text-nil cmd')))
  ]
]

quote_from-put_text :
    (seen ca cmd : Str) → quote_from seen ca cmd ≡ put_text (quoted_from seen ca) cmd
unfolding quote_from quoted_from
quote_from-put_text seen [] cmd = sym (put_text-nil cmd)
quote_from-put_text seen (c ∷ cs) cmd = rw (quote_char-put_text seen c cs cmd) (
    bind_ext (put_text (quoted_char seen c cs) cmd) _ _ (quote_from-put_text (c ∷ seen) cs)
    ∙ put_text-append (quoted_char seen c cs) (quoted_from (c ∷ seen) cs) cmd)

-- A text and the terminator.
abbrev pub ended : Str → Str → Outcome Str
ended t cmd = put_text t cmd >>= terminate

-- The two terminators that a plain argument gets are no more than the last one.
blank_ended :
    (cmd : Str) → (terminate cmd >>= λ c. put b' ' c >>= terminate) ≡ (put b' ' cmd >>= terminate)
unfolding terminate
blank_ended cmd = elim (Bool-cases (ltb (length cmd) cmd_size)) [
  | inl e ↦ rw e
  | inr e ↦ rw (e, put_outside b' ' cmd e)
]

-- What is written for a plain argument.
pub plain_ended :
    (ca cmd : Str) → (strcat cmd ca >>= λ c. strcat c (b' ' ∷ [])) ≡ ended (ca ++ (b' ' ∷ [])) cmd
unfolding strcat
plain_ended ca cmd =
    bind_assoc (put_text ca cmd) terminate _
    ∙ bind_ext (put_text ca cmd) _ _ plain
    ∙ sym (bind_assoc (put_text ca cmd) (put_text (b' ' ∷ [])) terminate)
    ∙ ap (λ m. m >>= terminate) (put_text-append ca (b' ' ∷ []) cmd)
  where
    plain :
        (c : Str)
        → (terminate c >>= λ c₁. put_text (b' ' ∷ []) c₁ >>= terminate) ≡ ended (b' ' ∷ []) c
    plain c =
        bind_ext (terminate c) _ _ (λ c₁. ap (λ m. m >>= terminate) (put_text_one b' ' c₁))
        ∙ blank_ended c
        ∙ sym (ap (λ m. m >>= terminate) (put_text_one b' ' c))

pub add_argument-ended : (cmd ca : Str) → add_argument cmd ca ≡ ended (argument_text ca) cmd
unfolding add_argument argument_text
add_argument-ended cmd ca = elim (Bool-cases (need_quote ca)) [
  | inl e ↦
      rw (e, put_text-cons b'"' (quoted_from [] ca ++ (b'"' ∷ b' ' ∷ [])) cmd)
        (bind_ext (put b'"' cmd) _ _ quoted
          ∙ sym (
              bind_assoc (put b'"' cmd) (put_text (quoted_from [] ca ++ (b'"' ∷ b' ' ∷ [])))
                terminate))
  | inr e ↦ rw e (plain_ended ca cmd)
]
  where
    closed :
        (c : Str) → (put b'"' c >>= λ c₁. put b' ' c₁ >>= terminate) ≡ ended (b'"' ∷ b' ' ∷ []) c
    closed c =
        sym (bind_assoc (put b'"' c) (put b' ') terminate)
        ∙ ap (λ m. m >>= terminate) (put_text_two b'"' b' ' c)

    quoted :
        (c : Str)
        → (quote_from [] ca c >>= λ c₁. put b'"' c₁ >>= λ c₂. put b' ' c₂ >>= terminate)
          ≡ ended (quoted_from [] ca ++ (b'"' ∷ b' ' ∷ [])) c
    quoted c =
        ap (λ m. m >>= λ c₁. put b'"' c₁ >>= λ c₂. put b' ' c₂ >>= terminate)
          (quote_from-put_text [] ca c)
        ∙ bind_ext (put_text (quoted_from [] ca) c) _ _ closed
        ∙ sym (bind_assoc (put_text (quoted_from [] ca) c) (put_text (b'"' ∷ b' ' ∷ [])) terminate)
        ∙ ap (λ m. m >>= terminate) (put_text-append (quoted_from [] ca) (b'"' ∷ b' ' ∷ []) c)
