-- ===== src/Windows/CommandLine/Text.antt =====
-- When the command line fits.
use native.Mathlib.Nat.{add-zero, zero-add}
use why.Base.{
  ap₂, bind_assoc, ◌+◌, ◌<◌, ◌≡◌, ap, ◌∙◌, sym, inl, inr, List, [], ◌∷◌, ◌++◌, append-nil,
  append_assoc, ltb, lt→ltb, ltb→lt, length, length-append, arith, Bool-cases, if◌then◌else◌, ok,
  stop, undefined, ◌>>=◌,
}
use why.Text.{Str}
use why.Windows.CommandLine.{cmd_size, terminate, strcat, add_arguments, command_line}
use why.Windows.CommandLine.Shape.{
  argument_text, arguments_text, put_text-cons, put_text-nil, put_inside, put_outside, plain_ended,
  ended, add_argument-ended,
}

-- A text fits when its terminator does.
ended-fits :
    (t cmd : Str)
    → ended t cmd ≡ (if ltb (length cmd + length t) cmd_size then ok (cmd ++ t) else stop undefined)
unfolding terminate
ended-fits [] cmd =
    rw (put_text-nil cmd, append-nil cmd, add-zero (length cmd))
      (elim (Bool-cases (ltb (length cmd) cmd_size)) [ inl e ↦ rw e | inr e ↦ rw e ])
ended-fits (c ∷ t) cmd = elim (Bool-cases (ltb (length cmd) cmd_size)) [
  | inl e ↦
      rw (put_text-cons c t cmd, put_inside c cmd e)
        (ended-fits t (cmd ++ (c ∷ []))
          ∙ ap₂ (λ n s. if ltb n cmd_size then ok s else stop undefined)
              (omega (arith, length-append cmd (c ∷ []))) (append_assoc cmd (c ∷ []) t))
  | inr e ↦ rw (put_text-cons c t cmd, put_outside c cmd e) (ground arith)
]

-- The arguments that are added to a text which fits.
add_arguments-fits :
    (args : List Str) (cmd : Str)
    → length cmd < cmd_size
    → add_arguments cmd args ≡ (
        if ltb (length cmd + length (arguments_text args)) cmd_size
        then ok (cmd ++ arguments_text args)
        else stop undefined)
unfolding add_arguments arguments_text
add_arguments-fits [] cmd h = rw (append-nil cmd, lt→ltb (length cmd + 0) cmd_size (omega arith))
add_arguments-fits (ca ∷ args) cmd h =
    elim (Bool-cases (ltb (length cmd + length (argument_text ca)) cmd_size)) [
      | inl e ↦
          rw (add_argument-ended cmd ca, ended-fits (argument_text ca) cmd, e)
            (add_arguments-fits args (cmd ++ argument_text ca) (
                omega (
                  arith,
                  ltb→lt (length cmd + length (argument_text ca)) cmd_size e,
                  length-append cmd (argument_text ca),
                ))
              ∙ ap₂ (λ n s. if ltb n cmd_size then ok s else stop undefined)
                  (omega (
                    arith,
                    length-append cmd (argument_text ca),
                    length-append (argument_text ca) (arguments_text args),
                  ))
                  (append_assoc cmd (argument_text ca) (arguments_text args)))
      | inr e ↦
          rw (add_argument-ended cmd ca, ended-fits (argument_text ca) cmd, e)
            (ground (arith, length-append (argument_text ca) (arguments_text args)))
    ]

-- The whole command line: the program's name, a blank, and the arguments.
abbrev pub whole_text : Str → List Str → Str
whole_text name args = (name ++ (b' ' ∷ [])) ++ arguments_text args

-- `command_line` writes the name of the program and the arguments, with quotes where they are needed,
-- exactly when the text and its terminator fit in the 4096 bytes of `cmd`. There is no test: a
-- longer one is written past the end, which is undefined.
pub command_line-fits :
    (name : Str) (args : List Str)
    → command_line name args ≡ (
        if ltb (length (whole_text name args)) cmd_size
        then ok (whole_text name args)
        else stop undefined)
unfolding command_line
command_line-fits name args =
    sym (bind_assoc (strcat [] name) (λ c. strcat c (b' ' ∷ [])) (λ c. add_arguments c args))
    ∙ ap (λ m. m >>= λ c. add_arguments c args)
        (plain_ended name []
          ∙ ended-fits start []
          ∙ ap (λ n. if ltb n cmd_size then ok start else stop undefined) (zero-add (length start)))
    ∙ then_arguments
  where
    start : Str
    start = name ++ (b' ' ∷ [])

    then_arguments :
        ((if ltb (length start) cmd_size then ok start else stop undefined) >>= λ c.
        add_arguments c args)
        ≡ (if ltb (length (whole_text name args)) cmd_size
            then ok (whole_text name args)
            else stop undefined)
    then_arguments = elim (Bool-cases (ltb (length start) cmd_size)) [
      | inl e ↦ rw e (
          add_arguments-fits args start (ltb→lt (length start) cmd_size e)
          ∙ ap (λ n. if ltb n cmd_size then ok (whole_text name args) else stop undefined)
              (sym (length-append start (arguments_text args))))
      | inr e ↦ rw e (ground (arith, length-append start (arguments_text args)))
    ]
