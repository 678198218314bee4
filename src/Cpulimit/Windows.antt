-- ===== src/Cpulimit/Windows.antt =====
-- src/server/cpulimit-win.c: `why3cpulimit` on Windows. An `unsigned long` has 32 bits there.
pub mod Runs
use why.Base.{
  ℕ, zero, suc, ◌+◌, ◌-◌, ◌*◌, ◌%◌, ◌^◌, Bool, true, false, ◌||◌, ◌&&◌, not, List, [], ◌∷◌, ◌++◌,
  Option, none, some, ltb, ◌==◌, length, if◌then◌else◌, ℤ, pos, negsuc, Outcome, ok, ◌>>=◌, ◌>>◌,
  require,
}
use why.Text.{Str, codes, strncmp_eq, strtol32}
use why.Text.Numbers.{strtol_end}

-- What the command line asks for; the limits are of type `long long`.
pub record Config : Type 0 where
  pub time_limit_seconds : ℤ
  pub memory_limit_mib : ℤ
  pub showtime : Bool
  pub command : List Str

abbrev pub is_end : Str → Bool
is_end [] = true
is_end (c ∷ cs) = false

-- The checks of the arguments, up to the usage message; `argc < 5` is the last clause.
unfoldable pub parse_args : List Str → Option Config
parse_args (argv0 ∷ time ∷ mem ∷ flag ∷ cmd ∷ args) =
    let error = not (is_end (strtol_end time)) || not (is_end (strtol_end mem)) in
    let showtime = strncmp_eq (codes "-s") flag 3 in
    let hidetime = strncmp_eq (codes "-h") flag 3 in
    if error || not (showtime || hidetime)
    then none
    else some (record {
      time_limit_seconds = strtol32 time;
      memory_limit_mib = strtol32 mem;
      showtime = showtime;
      command = cmd ∷ args;
    })
parse_args argv = none

-- The loop that adds up the room for the command line.
unfoldable pub room_for : List Str → ℕ → ℕ
room_for [] s = s
room_for (arg ∷ args) s = room_for args ((s + (length arg + 3)) % 2 ^ 32)

-- `strcat (p, t)` where `p` points to `room` bytes.
unfoldable pub strcat : ℕ → Str → Str → Outcome Str
strcat room p t = do require (ltb (length p + length t) room); ok (p ++ t)

-- The loop that writes the command line.
unfoldable pub write_args : ℕ → Str → List Str → Outcome Str
write_args room p [] = ok p
write_args room p (arg ∷ args) = do
  p₁ ← strcat room p (b'"' ∷ [])
  p₂ ← strcat room p₁ arg
  p₃ ← strcat room p₂ (b'"' ∷ [])
  p₄ ← if length args == 0 then ok p₃ else strcat room p₃ (b' ' ∷ [])
  write_args room p₄ args

-- `*p = '\0'` and the loop.
unfoldable pub write_command : ℕ → List Str → Outcome Str
write_command room args = do require (ltb 0 room); write_args room [] args

-- `k * n` in 64 bits without a sign.
abbrev pub scaled : ℕ → ℤ → ℕ
scaled k (pos n) = k * n % 2 ^ 64
scaled k (negsuc n) = (2 ^ 64 - k * (n + 1) % 2 ^ 64) % 2 ^ 64

-- A limit of 0 is none.
abbrev pub limit_of : ℕ → ℤ → Option ℕ
limit_of k (pos zero) = none
limit_of k (pos (suc n)) = some (scaled k (pos (suc n)))
limit_of k (negsuc n) = some (scaled k (negsuc n))

-- The process that is created: its command line, and the limits of its job in ticks and in bytes.
pub record Job : Type 0 where
  pub command : Str
  pub time : Option ℕ
  pub memory : Option ℕ

-- What `WaitForSingleObject` returns.
pub data Wait : Type 0 where
  wait_failed wait_timeout wait_object_0 wait_abandoned : Wait

-- The answers of the system: do `SetInformationJobObject`, `CreateProcess` and
-- `AssignProcessToJobObject` succeed, how does the wait end, and what is the exit code?
pub record System : Type 0 where
  pub limited : Bool
  pub created : Bool
  pub assigned : Bool
  pub wait : Wait
  pub exitcode : ℕ

-- The process that was resumed, if one was, and the number that `main` returns.
pub record Ran : Type 0 where
  pub resumed : Option Job
  pub returned : ℕ

-- `return EXIT_FAILURE`
abbrev pub failure : Ran
failure = record { resumed = none; returned = 1 }

abbrev pub is_set : Option ℕ → Bool
is_set none = false
is_set (some n) = true

abbrev pub return_code : System → ℕ
return_code os = elim os.wait [
  | wait_timeout ↦ 152
  | wait_failed ↦ os.exitcode
  | wait_object_0 ↦ os.exitcode
  | wait_abandoned ↦ os.exitcode
]

-- What follows the command line; the limits are set only if there are any.
unfoldable pub run_job : System → Job → Ran
run_job os job =
    if (is_set job.time || is_set job.memory) && not os.limited
    then failure
    else if not os.created
    then failure
    else if not os.assigned
    then failure
    else record { resumed = some job; returned = return_code os }

run_config : System → Option Config → Outcome Ran
unfolding run_job
run_config os none = ok failure
run_config os (some c) =
    let s = room_for c.command 0 in
    if ltb 32767 s then ok failure else (do
      p ← write_command s c.command
      ok (
          run_job os (record {
            command = p;
            time = limit_of (1000 * 1000 * 10) c.time_limit_seconds;
            memory = limit_of (1024 * 1024) c.memory_limit_mib;
          })))

-- `main`. The times that are printed are not modelled.
unfoldable pub cpulimit : System → List Str → Outcome Ran
unfolding run_config
cpulimit os argv = run_config os (parse_args argv)
