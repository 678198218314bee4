-- ===== src/Server/Spawn.antt =====
-- `create_process` and `open_temp_file`: the arguments of a child process, and its limits.
use why.Base.{
  ℕ, zero, suc, ◌-◌, ◌*◌, ◌%◌, ◌^◌, Bool, true, false, not, ◌||◌, List, ◌∷◌, ◌++◌, Option, none,
  some, length, take, get_elem?, ℤ, pos, negsuc, Outcome, ok, stop, undefined, ◌>>=◌,
}
use why.Text.{Str, codes}
use why.Server.{Exec}

-- `dir` "/why3XXXXXX", where `mkstemp` replaces the last six characters.
unfoldable pub temp_file : Str → Str → Str
temp_file dir suffix = dir ++ (codes "/why3" ++ suffix)

-- With `usestdin` the last argument is the name of a file that the child opens as its input. If
-- there is none, the child reads `argv[-1]`.
abbrev pub opened : Option Str → Outcome (Option Str)
opened none = stop undefined
opened (some f) = ok (some f)

unfoldable pub stdin_of : Bool → List Str → Outcome (Option Str)
stdin_of false args = ok none
stdin_of true args = opened (get_elem? args (length args - 1))

abbrev pub arguments : Bool → List Str → List Str
arguments false args = args
arguments true args = take (length args - 1) args

-- `timelimit > 0` sets a limit.
abbrev pub cpu_limit_of : ℤ → Option ℕ
cpu_limit_of (pos zero) = none
cpu_limit_of (pos (suc n)) = some (suc n)
cpu_limit_of (negsuc n) = none

-- `(rlim_t) memlimit * 1024 * 1024`
abbrev pub address_space_of : ℕ → Option ℕ
address_space_of zero = none
address_space_of (suc n) = some (suc n * 1024 * 1024 % 2 ^ 64)

abbrev pub is_set : Option ℕ → Bool
is_set none = false
is_set (some n) = true

-- What the child does from `fork` to `execvp`.
unfoldable pub child_plan : Str → List Str → Bool → Str → ℤ → ℕ → Outcome Exec
unfolding stdin_of
child_plan cmd args usestdin outfile timelimit memlimit = do
  infile ← stdin_of usestdin args
  ok (record {
    argv = cmd ∷ arguments usestdin args;
    infile = infile;
    outfile = outfile;
    cpu_limit = cpu_limit_of timelimit;
    address_space = address_space_of memlimit;
    core_dumps = not (is_set (cpu_limit_of timelimit) || is_set (address_space_of memlimit));
  })
