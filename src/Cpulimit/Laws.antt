-- ===== src/Cpulimit/Laws.antt =====
-- What `why3cpulimit` guarantees for the command.
use native.Mathlib.Nat.{mod-eq_of_lt}
use why.Base.{
  ℕ, zero, suc, ◌+◌, ◌*◌, ◌^◌, ◌<◌, ◌≡◌, refl, ap, inl, inr, Bool, true, false, ◌||◌, not, List,
  ◌∷◌, Option, none, some, arith, ltb, lt→ltb, Bool-cases, pos, ok,
}
use why.Text.{Str, codes, str_eq, atol}
use why.Request.Parse.{to_unsigned}
use why.Options.{to_int}
use why.Server.Jobs.{Status, exited, signaled, otherwise}
use why.Cpulimit.{
  Config, Ending, returned, died, executes, child, parse_args, with_flag, execute, address_space,
  alarm_of, cpulimit, cpu_of, by_answer,
}

-- The conversions to `int` and to `unsigned` give back what fits in 32 bits.
unsigned_of_int : (n : ℕ) → n < 2 ^ 32 → to_unsigned (to_int (pos n)) ≡ n
unfolding to_int
unsigned_of_int n low = elim (Bool-cases (ltb n (2 ^ 31))) [
  | inl small ↦ rw (mod-eq_of_lt low, small)
  | inr large ↦ rw (mod-eq_of_lt low, large) (omega arith)
]

-- The seconds of the alarm of a time limit.
abbrev pub alarm_seconds : ℕ → Option ℕ
alarm_seconds zero = none
alarm_seconds (suc n) = some (2 * suc n + 60)

pub alarm_of-seconds :
    (c : Config) → 2 * c.timelimit + 60 < 2 ^ 32 → alarm_of c ≡ ok (alarm_seconds c.timelimit)
unfolding alarm_of
alarm_of-seconds c low = elim (Bool-cases (ltb 0 c.timelimit)) [
  | inl limited ↦
      rw
        (
          limited,
          lt→ltb (2 * c.timelimit + 60) (2 ^ 63) (omega arith),
          unsigned_of_int (2 * c.timelimit + 60) low,
        )
        (ap ok (seconds c.timelimit limited))
  | inr free ↦ rw free (ap ok (no_seconds c.timelimit free))
]
  where
    seconds : (n : ℕ) → ltb 0 n ≡ true → some (2 * n + 60) ≡ alarm_seconds n
    seconds zero e = absurd (ground arith)
    seconds (suc n) e = refl

    no_seconds : (n : ℕ) → ltb 0 n ≡ false → none ≡ alarm_seconds n
    no_seconds zero e = refl
    no_seconds (suc n) e = absurd (ground arith)

-- How the wrapper ends when the command has ended.
abbrev pub mirrored : Status → Ending
mirrored (exited n) = returned n
mirrored (signaled n) = died n
mirrored otherwise = died 15

-- The memory limit is in MiB.
abbrev pub bytes_of_mib : ℕ → Option ℕ
bytes_of_mib zero = none
bytes_of_mib (suc n) = some (suc n * 1024 * 1024)

execute-limits :
    (c : Config)
    → c.memlimit * 1024 * 1024 < 2 ^ 63
    → execute c
      ≡ ok (
          executes (record {
            cpu = cpu_of c.timelimit;
            address_space = bytes_of_mib c.memlimit;
            core_dumps = not (ltb 0 c.timelimit || ltb 0 c.memlimit);
            argv = c.command;
          }))
unfolding execute address_space
execute-limits c low = rw (space c.memlimit low)
  where
    space : (n : ℕ) → n * 1024 * 1024 < 2 ^ 63 → address_space n ≡ ok (bytes_of_mib n)
    space zero low = refl
    space (suc n) low = rw (lt→ltb (suc n * 1024 * 1024) (2 ^ 63) low)

-- With two limits that are numbers, a flag that is `-s` or `-h`, and a command, the child executes
-- the command with its arguments under just these limits: a CPU limit in seconds and an address
-- space in MiB, each only if it is not zero, and no core dumps if there is any limit.
pub cpulimit-executes :
    (survives : ℕ → Bool) (argv0 time mem flag cmd : Str) (args : List Str) (t m : ℕ)
    (first second : Option Status)
    → atol time ≡ ok (pos t)
    → atol mem ≡ ok (pos m)
    → (str_eq (codes "-s") flag || str_eq (codes "-h") flag) ≡ true
    → m * 1024 * 1024 < 2 ^ 63
    → cpulimit survives (argv0 ∷ time ∷ mem ∷ flag ∷ cmd ∷ args) child first second
      ≡ ok (record {
        alarm = none;
        kills_command = false;
        ending = executes (record {
          cpu = cpu_of t;
          address_space = bytes_of_mib m;
          core_dumps = not (ltb 0 t || ltb 0 m);
          argv = cmd ∷ args;
        });
      })
unfolding cpulimit parse_args with_flag by_answer
cpulimit-executes survives argv0 time mem flag cmd args t m first second is_t is_m flagged low =
    let c : Config = record {
      showtime = str_eq (codes "-s") flag;
      timelimit = t;
      memlimit = m;
      command = cmd ∷ args;
    } in
    rw (flagged, is_t, is_m, execute-limits c low)
      (elim (Bool-cases (c.showtime || ltb 0 t)) [ inl e ↦ rw e | inr e ↦ rw e ])
