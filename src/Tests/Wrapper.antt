-- ===== src/Tests/Wrapper.antt =====
-- The wrapper on Windows at a concrete command line.
use why.Base.{◌≡◌, refl, List, [], ◌∷◌, some, pos, true, false, arith, ok}
use why.Text.{Str, codes, is_space, is_digit, strncmp_eq, strtol32}
use why.Text.Numbers.{strtol_end}
use why.Cpulimit.Windows.{Config, System, wait_object_0, parse_args, cpulimit}
use why.Cpulimit.Windows.Runs.{cpulimit-runs}

abbrev argv : List Str
argv = codes "why3cpulimit" ∷ codes "10" ∷ codes "1000" ∷ codes "-h" ∷ codes "z3" ∷ codes "a b" ∷ []

abbrev os : System
os = record { limited = true; created = true; assigned = true; wait = wait_object_0; exitcode = 3 }

abbrev config : Config
config = record {
  time_limit_seconds = pos 10;
  memory_limit_mib = pos 1000;
  showtime = false;
  command = codes "z3" ∷ codes "a b" ∷ [];
}

cpulimit-runs_example :
    cpulimit os argv
    ≡ ok (record {
      resumed = some (record {
        command = codes "\"z3\" \"a b\"";
        time = some 100000000;
        memory = some 1048576000;
      });
      returned = 3;
    })
unfolding parse_args strtol_end is_space is_digit strncmp_eq strtol32
cpulimit-runs_example =
    cpulimit-runs os argv config 10 1000 refl refl refl (omega arith) (omega arith) (omega arith)
      (record { limited = refl; created = refl; assigned = refl; wait = refl })
