-- ===== src/Cpulimit.antt =====
-- src/server/cpulimit-unix.c: `why3cpulimit`, which runs a command under limits.
-- What `fork` and `waitpid` return are arguments.
pub mod Laws
pub mod Windows
use why.Base.{
  ℕ, zero, suc, ◌+◌, ◌-◌, ◌*◌, ◌^◌, Bool, true, false, ◌||◌, not, List, [], ◌∷◌, Option, none, some,
  ltb, if◌then◌else◌, ℤ, pos, negsuc, Outcome, ok, stop, exits, undefined, ◌>>=◌, ◌>>◌, require,
}
use why.Text.{Str, codes, str_eq, atol}
use why.Options.{to_int}
use why.Request.Parse.{to_unsigned}
use why.Server.Jobs.{Status, exited, signaled, otherwise}

-- What the command line asks for. `hidetime` is the negation of `showtime`.
pub record Config : Type 0 where
  pub showtime : Bool
  pub timelimit : ℕ
  pub memlimit : ℕ
  pub command : List Str

-- `if (limit < 0) usage (argv[0]);`
non_negative : ℤ → Outcome ℕ
non_negative (pos n) = ok n
non_negative (negsuc n) = stop (exits 1)

with_flag : Bool → Bool → Str → Str → List Str → Outcome Config
unfolding non_negative
with_flag showtime hidetime time mem command =
    if not (showtime || hidetime) then stop (exits 1) else do
      t ← atol time
      timelimit ← non_negative t
      m ← atol mem
      memlimit ← non_negative m
      ok (record {
        showtime = showtime;
        timelimit = timelimit;
        memlimit = memlimit;
        command = command;
      })

-- The checks of the arguments; `argc < 5` is the last clause.
unfoldable pub parse_args : List Str → Outcome Config
unfolding with_flag
parse_args (argv0 ∷ time ∷ mem ∷ flag ∷ cmd ∷ args) =
    with_flag (str_eq (codes "-s") flag) (str_eq (codes "-h") flag) time mem (cmd ∷ args)
parse_args argv = stop (exits 1)

-- The limits under which the command is executed.
pub record Limits : Type 0 where
  pub cpu : Option ℕ
  pub address_space : Option ℕ
  pub core_dumps : Bool
  pub argv : List Str

abbrev pub cpu_of : ℕ → Option ℕ
cpu_of zero = none
cpu_of (suc n) = some (suc n)

-- `memlimit * 1024 * 1024` of a `long`.
address_space : ℕ → Outcome (Option ℕ)
address_space zero = ok none
address_space (suc n) = do
  require (ltb (suc n * 1024 * 1024) (2 ^ 63))
  ok (some (suc n * 1024 * 1024))

-- How a process ends: `main` returns, a signal kills it, or it executes the command.
pub data Ending : Type 0 where
  returned died : ℕ → Ending
  executes : Limits → Ending

-- From the first `setrlimit` to `execvp`.
unfoldable pub execute : Config → Outcome Ending
unfolding address_space
execute c = do
  mem ← address_space c.memlimit
  ok (
      executes (record {
        cpu = cpu_of c.timelimit;
        address_space = mem;
        core_dumps = not (ltb 0 c.timelimit || ltb 0 c.memlimit);
        argv = c.command;
      }))

-- `wallclock_timelimit = 2*timelimit + 60` of a `long`, converted to `int` and to `unsigned`.
unfoldable pub alarm_of : Config → Outcome (Option ℕ)
alarm_of c =
    if ltb 0 c.timelimit
    then (do
      require (ltb (2 * c.timelimit + 60) (2 ^ 63))
      ok (some (to_unsigned (to_int (pos (2 * c.timelimit + 60))))))
    else ok none

abbrev pub sigterm : ℕ
sigterm = 15

-- `fork` returns -1, the id of the child, or 0.
pub data Fork : Type 0 where
  failed parent child : Fork

-- What a process does: the seconds of its alarm, whether it kills the command, and its end.
pub record Ran : Type 0 where
  pub alarm : Option ℕ
  pub kills_command : Bool
  pub ending : Ending

abbrev is_set : Option Status → Bool
is_set none = false
is_set (some status) = true

-- Without an alarm.
abbrev pub run_directly : Outcome Ending → Outcome Ran
run_directly m = do ending ← m; ok (record { alarm = none; kills_command = false; ending = ending })

-- `kill (getpid (), sig)`: a process that survives goes on.
module _ (survives : ℕ → Bool) where
  abbrev pub kill_self : ℕ → Outcome Ending → Outcome Ending
  kill_self sig rest = if survives sig then rest else ok (died sig)

  -- The end of the command is passed on.
  report : Status → Outcome Ending → Outcome Ending
  report (exited n) rest = ok (returned n)
  report (signaled n) rest = kill_self n (kill_self sigterm rest)
  report otherwise rest = kill_self sigterm rest

  -- The two calls of `waitpid`; the second one follows a SIGKILL for the command. If both fail the
  -- status is not set.
  await : Option Status → Option Status → Outcome Ending → Outcome Ending
  unfolding report
  await (some status) second rest = report status rest
  await none (some status) rest = report status rest
  await none none rest = kill_self sigterm (stop undefined)

  by_answer : Config → Fork → Option Status → Option Status → Outcome Ran
  unfolding await
  by_answer c failed first second = stop (exits 1)
  by_answer c parent first second = do
    alarm ← alarm_of c
    ending ← await first second (execute c)
    ok (record { alarm = alarm; kills_command = not (is_set first); ending = ending })
  by_answer c child first second = run_directly (execute c)

  -- `main`.
  unfoldable pub cpulimit : List Str → Fork → Option Status → Option Status → Outcome Ran
  unfolding by_answer
  cpulimit argv forked first second = do
    c ← parse_args argv
    if c.showtime || ltb 0 c.timelimit
        then by_answer c forked first second
        else run_directly (execute c)
