-- ===== src/Tests/Limits.antt =====
-- `why3cpulimit` at concrete arguments.
use why.Base.{◌≡◌, refl, false, List, [], ◌∷◌, none, some, arith, ok}
use why.Text.{Str, codes, str_eq, atol}
use why.Cpulimit.{Config, executes, child, cpulimit}
use why.Cpulimit.Laws.{cpulimit-executes}

abbrev command_line : List Str
command_line =
    codes "why3cpulimit" ∷ codes "10" ∷ codes "1000" ∷ codes "-h" ∷ codes "z3" ∷ codes "x" ∷ []

abbrev config : Config
config = record {
  showtime = false;
  timelimit = 10;
  memlimit = 1000;
  command = codes "z3" ∷ codes "x" ∷ [];
}

cpulimit-executes_example :
    cpulimit (λ sig. false) command_line child none none
    ≡ ok (record {
      alarm = none;
      kills_command = false;
      ending = executes (record {
        cpu = some 10;
        address_space = some 1048576000;
        core_dumps = false;
        argv = codes "z3" ∷ codes "x" ∷ [];
      });
    })
cpulimit-executes_example =
    cpulimit-executes (λ sig. false) (codes "why3cpulimit") (codes "10") (codes "1000") (codes "-h")
      (codes "z3") (codes "x" ∷ []) 10 1000 none none (unfold atol in refl) (unfold atol in refl)
      (unfold str_eq in refl) (omega arith)
