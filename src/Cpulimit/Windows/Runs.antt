-- ===== src/Cpulimit/Windows/Runs.antt =====
-- The wrapper on Windows runs the command it was given, under the limits it was given.
use why.Base.{
  ℕ, zero, suc, ◌+◌, ◌*◌, ◌^◌, ◌<◌, ◌≡◌, refl, sym, ap, ◌∙◌, inl, inr, true, false, ◌||◌, not, List,
  [], ◌∷◌, ◌++◌, append-nil, append_assoc, Option, none, some, ltb, lt→ltb, ◌==◌, length,
  length-append, Bool-cases, if◌then◌else◌, pos, Outcome, ok, ◌>>=◌, arith,
}
use why.Text.{Str, codes, strncmp_eq}
use why.Text.Numbers.{strtol_end}
use why.Cpulimit.Windows.{
  is_set, is_end, Config, parse_args, room_for, strcat, write_args, write_command, limit_of, Job,
  wait_object_0, System, failure, run_job, run_config, cpulimit,
}

-- Each argument in quotes, with a blank between two of them.
abbrev pub command_text : List Str → Str
command_text [] = []
command_text (arg ∷ []) = b'"' ∷ (arg ++ (b'"' ∷ []))
command_text (arg ∷ next ∷ args) = b'"' ∷ (arg ++ (b'"' ∷ b' ' ∷ command_text (next ∷ args)))

-- The room for each argument, two quotes, and a blank or the terminator.
abbrev pub room_of : List Str → ℕ
room_of [] = 0
room_of (arg ∷ args) = length arg + 3 + room_of args

room_for-room_of :
    (args : List Str) (s : ℕ) → s + room_of args < 2 ^ 32 → room_for args s ≡ s + room_of args
unfolding room_for
room_for-room_of [] s h = omega arith
room_for-room_of (arg ∷ args) s h =
    ap (room_for args) (omega arith)
    ∙ room_for-room_of args (s + (length arg + 3)) (omega arith)
    ∙ omega arith

length-command_text :
    (arg : Str) (args : List Str) → length (command_text (arg ∷ args)) + 1 ≡ room_of (arg ∷ args)
length-command_text arg [] = omega (arith, length-append arg (b'"' ∷ []))
length-command_text arg (next ∷ args) = omega (
  arith,
  length-append arg (b'"' ∷ b' ' ∷ command_text (next ∷ args)),
  length-command_text next args,
)

strcat-fits : (room : ℕ) (p t : Str) → length p + length t < room → strcat room p t ≡ ok (p ++ t)
unfolding strcat
strcat-fits room p t h = rw (lt→ltb (length p + length t) room h)

-- An argument and its two quotes, and what follows them.
quoted :
    (room : ℕ) (p arg : Str) (rest : Str → Outcome Str)
    → length p + length arg + 2 < room
    → (strcat room p (b'"' ∷ []) >>= λ p₁.
        strcat room p₁ arg >>= λ p₂. strcat room p₂ (b'"' ∷ []) >>= rest)
      ≡ rest (p ++ (b'"' ∷ (arg ++ (b'"' ∷ []))))
quoted room p arg rest h =
    rw
      (
        strcat-fits room p (b'"' ∷ []) (omega arith),
        strcat-fits room (p ++ (b'"' ∷ [])) arg (omega (arith, length-append p (b'"' ∷ []))),
        strcat-fits room ((p ++ (b'"' ∷ [])) ++ arg) (b'"' ∷ [])
            (omega (arith, length-append p (b'"' ∷ []), length-append (p ++ (b'"' ∷ [])) arg)),
      )
      (ap rest (
        append_assoc (p ++ (b'"' ∷ [])) arg (b'"' ∷ [])
        ∙ append_assoc p (b'"' ∷ []) (arg ++ (b'"' ∷ []))))

write_args-text :
    (room : ℕ) (p : Str) (args : List Str)
    → length p + length (command_text args) < room
    → write_args room p args ≡ ok (p ++ command_text args)
unfolding write_args
write_args-text room p [] h = ap ok (sym (append-nil p))
write_args-text room p (arg ∷ []) h =
    quoted room p arg (λ p₃. ok p₃ >>= λ p₄. ok p₄) (omega (arith, length-append arg (b'"' ∷ [])))
write_args-text room p (arg ∷ next ∷ args) h =
    let rest = command_text (next ∷ args) in
    let p₃ = p ++ (b'"' ∷ (arg ++ (b'"' ∷ []))) in
    let n = length-append arg (b'"' ∷ b' ' ∷ rest) in
    let n₃ = length-append p (b'"' ∷ (arg ++ (b'"' ∷ []))) in
    let m₃ = length-append arg (b'"' ∷ []) in
    let n₄ = length-append p₃ (b' ' ∷ []) in
    quoted room p arg
      (λ p'. (if suc (length args) == 0 then ok p' else strcat room p' (b' ' ∷ [])) >>= λ p₄.
        write_args room p₄ (next ∷ args))
      (omega (arith, n))
    ∙ rw
        (
          let more : (suc (length args) == 0) ≡ false = ground arith in more,
          strcat-fits room p₃ (b' ' ∷ []) (omega (arith, n, n₃, m₃)),
        )
        (write_args-text room (p₃ ++ (b' ' ∷ [])) (next ∷ args) (omega (arith, n, n₃, m₃, n₄))
          ∙ ap ok (
              append_assoc p₃ (b' ' ∷ []) rest
              ∙ append_assoc p (b'"' ∷ (arg ++ (b'"' ∷ []))) (b' ' ∷ rest)
              ∙ ap (λ t. p ++ (b'"' ∷ t)) (append_assoc arg (b'"' ∷ []) (b' ' ∷ rest))))

parse_args-command :
    (argv : List Str) (c : Config)
    → parse_args argv ≡ some c
    → (cmd : Str) × (args : List Str) × (c.command ≡ cmd ∷ args)
unfolding parse_args
parse_args-command [] c e = absurd (cc)
parse_args-command (a ∷ []) c e = absurd (cc)
parse_args-command (a ∷ b ∷ []) c e = absurd (cc)
parse_args-command (a ∷ b ∷ d ∷ []) c e = absurd (cc)
parse_args-command (a ∷ b ∷ d ∷ f ∷ []) c e = absurd (cc)
parse_args-command (argv0 ∷ time ∷ mem ∷ flag ∷ cmd ∷ args) c e =
    elim (Bool-cases (
      not (is_end (strtol_end time))
      || not (is_end (strtol_end mem))
      || not (strncmp_eq (codes "-s") flag 3 || strncmp_eq (codes "-h") flag 3))) [
        | inl wrong ↦ let no : none ≡ some c = rw wrong at e in absurd (cc)
        | inr right ↦ (cmd, args, ap (λ o. of_some o) (sym (rw right at e)))
      ]
  where
    of_some : Option Config → List Str
    of_some none = cmd ∷ args
    of_some (some k) = k.command

-- The limits, which are none if they are 0.
abbrev pub times : ℕ → ℕ → Option ℕ
times k zero = none
times k (suc n) = some (k * suc n)

limit_of-ticks : (n : ℕ) → n < 2 ^ 31 → limit_of (1000 * 1000 * 10) (pos n) ≡ times 10000000 n
limit_of-ticks zero h = refl
limit_of-ticks (suc n) h = ap some (omega arith)

limit_of-bytes : (n : ℕ) → n < 2 ^ 31 → limit_of (1024 * 1024) (pos n) ≡ times 1048576 n
limit_of-bytes zero h = refl
limit_of-bytes (suc n) h = ap some (omega arith)

-- The system does what it is asked to do, and the command ends with this code.
pub record Works (os : System) : Type 0 where
  pub limited : os.limited ≡ true
  pub created : os.created ≡ true
  pub assigned : os.assigned ≡ true
  pub wait : os.wait ≡ wait_object_0

run_job-Works :
    (os : System) (job : Job)
    → Works os
    → run_job os job ≡ record { resumed = some job; returned = os.exitcode }
unfolding run_job
run_job-Works os job w = elim (Bool-cases (is_set job.time || is_set job.memory)) [
  | inl e ↦ rw (e, w.limited, w.created, w.assigned, w.wait)
  | inr e ↦ rw (e, w.created, w.assigned, w.wait)
]

write_command-text :
    (cmd : Str) (args : List Str)
    → write_command (room_of (cmd ∷ args)) (cmd ∷ args) ≡ ok (command_text (cmd ∷ args))
unfolding write_command
write_command-text cmd args = rw (lt→ltb 0 (room_of (cmd ∷ args)) (omega arith)) (
    write_args-text (room_of (cmd ∷ args)) [] (cmd ∷ args)
      (omega (arith, length-command_text cmd args)))

-- With valid arguments, and limits that are not negative and below 2 ^ 31, a command line that is no
-- longer than Windows allows is written inside the memory that was allocated for it, each argument in
-- quotes; the command runs under the limits, in units of 100 ns and in bytes, and `main` returns its exit
-- code. A longer command line, below 2 ^ 32, is refused. The system must do what it is asked to do.
pub cpulimit-runs :
    (os : System) (argv : List Str) (c : Config) (time memory : ℕ)
    → parse_args argv ≡ some c
    → c.time_limit_seconds ≡ pos time
    → c.memory_limit_mib ≡ pos memory
    → time < 2 ^ 31
    → memory < 2 ^ 31
    → room_of c.command < 2 ^ 32
    → Works os
    → cpulimit os argv
      ≡ ok (
          if ltb 32767 (room_of c.command) then failure else record {
            resumed = some (record {
              command = command_text c.command;
              time = times 10000000 time;
              memory = times 1048576 memory;
            });
            returned = os.exitcode;
          })
unfolding cpulimit run_config
cpulimit-runs os argv c time memory parsed t m low_t low_m short w =
    let (cmd, args, e) = parse_args-command argv c parsed in
    let room : room_for (cmd ∷ args) 0 ≡ room_of (cmd ∷ args) =
      room_for-room_of (cmd ∷ args) 0
        (let low : room_of (cmd ∷ args) < 2 ^ 32 = rw e at short in omega (arith, low))
      ∙ omega arith in
    rw (parsed, e, room, t, m)
      (elim (Bool-cases (ltb 32767 (room_of (cmd ∷ args)))) [
        | inl long ↦ rw long
        | inr fits ↦
            rw
              (
                fits,
                write_command-text cmd args,
                limit_of-ticks time low_t,
                limit_of-bytes memory low_m,
              )
              (ap ok (run_job-Works os _ w))
      ])
