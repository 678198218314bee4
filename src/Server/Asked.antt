-- ===== src/Server/Asked.antt =====
-- What a started process is asked to do, and what its child does until `execvp`.
use why.Base.{
  ℕ, zero, suc, ◌+◌, ◌-◌, ◌*◌, ◌^◌, ◌<◌, ◌≡◌, refl, ap, ◌∙◌, sym, ◌⊎◌, inl, inr, Bool, true, false,
  not, ◌||◌, List, [], ◌∷◌, ◌++◌, Option, none, some, arith, length, get_elem?, take, ℤ, pos,
  negsuc, minus_one, ◌==ℤ◌, Outcome, ok,
}
use why.Text.{Str}
use why.ArrayList.Entries.{lookup}
use why.Request.{Request, Run}
use why.Proc.{Proc}
use why.Server.{Server, System, Client, Exec, forked}
use why.Server.Messages.{started_text}
use why.Server.Spawn.{
  child_plan, opened, stdin_of, arguments, cpu_limit_of, address_space_of, is_set,
}
use why.Server.View.{IsGood, Told, IsRunnable}
use why.Server.Started.{outfile_of, proc_of, run_request-starts}
use why.Server.Jobs.{run_request}

-- The arguments of the command and its input: with `usestdin` the last argument is the input.
abbrev pub Feeds : Bool → List Str → List Str → Option Str → Type 0
Feeds false asked args infile = (args ≡ asked) × (infile ≡ none)
Feeds true asked args infile = (file : Str) × (asked ≡ args ++ (file ∷ [])) × (infile ≡ some file)

-- A limit on the time of so many seconds, and no limit for 0 or less.
abbrev pub LimitsTime : ℤ → Option ℕ → Type 0
LimitsTime (pos zero) limit = limit ≡ none
LimitsTime (pos (suc n)) limit = limit ≡ some (suc n)
LimitsTime (negsuc n) limit = limit ≡ none

-- A limit on the memory of so many times 2 ^ 20 bytes, and none for 0.
abbrev pub LimitsMemory : ℕ → Option ℕ → Type 0
LimitsMemory zero limit = limit ≡ none
LimitsMemory (suc n) limit = limit ≡ some (suc n * 2 ^ 20)

-- Core dumps are not written when there is a limit.
abbrev pub DumpsCore : ℤ → ℕ → Bool → Type 0
DumpsCore (pos (suc n)) memlimit core = core ≡ false
DumpsCore timelimit (suc n) core = core ≡ false
DumpsCore timelimit zero core = core ≡ true

-- What the child executes is what the request asks for.
pub record IsAsked (run : Run) (outfile : Str) (x : Exec) : Type 0 where
  pub args : List Str
  pub argv : x.argv ≡ run.cmd ∷ args
  pub feeds : Feeds run.usestdin run.args args x.infile
  pub output : x.outfile ≡ outfile
  pub time : LimitsTime run.timeout x.cpu_limit
  pub memory : LimitsMemory run.memlimit x.address_space
  pub core : DumpsCore run.timeout run.memlimit x.core_dumps

-- A request that is to read from a file names one.
abbrev pub HasInput : Run → Type 0
HasInput run = (run.usestdin ≡ false) ⊎ (0 < length run.args)

split_last :
    (a : Str) (args : List Str)
    → (file : Str) × (get_elem? (a ∷ args) (length args) ≡ some file)
      × (a ∷ args ≡ take (length args) (a ∷ args) ++ (file ∷ []))
split_last a [] = (a, refl, refl)
split_last a (b ∷ args) = let (file, e, f) = split_last b args in (file, e, ap (λ l. a ∷ l) f)

limits_time : (t : ℤ) → LimitsTime t (cpu_limit_of t)
limits_time (pos zero) = refl
limits_time (pos (suc n)) = refl
limits_time (negsuc n) = refl

limits_memory : (m : ℕ) → m < 2 ^ 32 → LimitsMemory m (address_space_of m)
limits_memory zero low = refl
limits_memory (suc n) low = ap some (omega (arith, low))

dumps_core :
    (t : ℤ) (m : ℕ) → DumpsCore t m (not (is_set (cpu_limit_of t) || is_set (address_space_of m)))
dumps_core (pos zero) zero = refl
dumps_core (pos zero) (suc m) = refl
dumps_core (pos (suc n)) m = refl
dumps_core (negsuc n) zero = refl
dumps_core (negsuc n) (suc m) = refl

feeds :
    (usestdin : Bool) (args : List Str)
    → (usestdin ≡ false) ⊎ (0 < length args)
    → (infile : Option Str) × (stdin_of usestdin args ≡ ok infile)
      × Feeds usestdin args (arguments usestdin args) infile
unfolding stdin_of
feeds false args fed = (none, refl, (refl, refl))
feeds true [] (inl e) = absurd (cc)
feeds true [] (inr e) = absurd (omega arith)
feeds true (a ∷ args) fed =
    let (file, e, f) = split_last a args in
    let last : length (a ∷ args) - 1 ≡ length args = omega arith in
    (
      some file,
      ap opened (ap (get_elem? (a ∷ args)) last ∙ e),
      (file, f ∙ ap (λ n. take n (a ∷ args) ++ (file ∷ [])) (sym last), refl),
    )

module _ (run : Run) (outfile : Str) (fed : HasInput run) where
  abbrev plan_of : Outcome Exec
  plan_of = child_plan run.cmd run.args run.usestdin outfile run.timeout run.memlimit

  abbrev made : Option Str → Exec
  made infile = record {
    argv = run.cmd ∷ arguments run.usestdin run.args;
    infile = infile;
    outfile = outfile;
    cpu_limit = cpu_limit_of run.timeout;
    address_space = address_space_of run.memlimit;
    core_dumps = not (is_set (cpu_limit_of run.timeout) || is_set (address_space_of run.memlimit));
  }

  pub child_plan-ok : (x : Exec) × (plan_of ≡ ok x)
  unfolding child_plan
  child_plan-ok = let (infile, e, f) = feeds run.usestdin run.args fed in (made infile, rw e)

  pub child_plan-IsAsked :
      run.memlimit < 2 ^ 32 → (x : Exec) × (plan_of ≡ ok x) × IsAsked run outfile x
  unfolding child_plan
  child_plan-IsAsked low =
      let (infile, e, f) = feeds run.usestdin run.args fed in
      (
        made infile,
        rw e,
        record {
          args = arguments run.usestdin run.args;
          argv = refl;
          feeds = f;
          output = refl;
          time = limits_time run.timeout;
          memory = limits_memory run.memlimit low;
          core = dumps_core run.timeout run.memlimit;
        },
      )

-- If `fork` does not fail, the request of a connected client starts one process, and its child does
-- what the request asks for: it executes the command with its arguments and writes its output to the
-- file that is registered; with `usestdin` it reads from the file that the last argument names, and
-- does not pass this argument on; it has a limit on its time of so many seconds, and a limit on its
-- memory of so many times 2 ^ 20 bytes, where 0 stands for no limit, and writes no core dump when
-- there is a limit. The process is put behind the others in the list under the id that `fork`
-- returned, and the message of its start is put on the way to the client alone. The state stays well
-- formed; there must be room in it for a process and a message. The limit on the memory is below
-- 2 ^ 32, and with `usestdin` there is an argument.
pub run_request-IsAsked :
    (os : System) (s : Server) (r : Request) (cs : List (ℤ × Client)) (ps : List (ℤ × Proc))
    (rs : List Request) (starts room : ℕ) (c : Client) (runnable : IsRunnable r)
    → lookup r.key cs ≡ some c
    → (os.fork s.forks ==ℤ minus_one) ≡ false
    → HasInput runnable.run
    → runnable.run.memlimit < 2 ^ 32
    → IsGood s cs ps rs (suc starts) (suc room)
    → (s' : Server) × (run_request os s r ≡ ok s')
      × IsGood s' cs (ps ++ ((os.fork s.forks, proc_of os s r) ∷ [])) rs starts room
      × (s'.parallel ≡ s.parallel)
      × (s'.forks ≡ s.forks + 1)
      × (x : Exec) × IsAsked runnable.run (outfile_of os s) x
      × (s'.effects ≡ s.effects ++ (forked (os.fork s.forks) (ok x) ∷ []))
      × Told s.buffers s'.buffers r.key (started_text r.id)
run_request-IsAsked os s r cs ps rs starts room c runnable found forks fed low g =
    let (s', e, good, jobs, count, seen, told) =
      run_request-starts os s r cs ps rs starts room c runnable found forks g in
    let (x, plan, asked) = child_plan-IsAsked runnable.run (outfile_of os s) fed low in
    (s', e, good, jobs, count, x, asked, rw plan at seen, told)
