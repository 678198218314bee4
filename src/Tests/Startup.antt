-- ===== src/Tests/Startup.antt =====
-- The start and the end of the server, at concrete values.
use why.Base.{ℕ, ◌≡◌, refl, true, false, [], ◌∷◌, none, some, arith, pos, ok}
use why.Text.{codes}
use why.Server.{Server}
use why.Server.Loop.{Special, Place}
use why.Server.Startup.{Calls, server_init_listening}
use why.Server.Startup.Ready.{
  Succeeds, watching, server_init_listening-Invariant, reachable-Invariant,
}
use why.Server.Shutdown.{sigterm_handler}
use why.Server.Shutdown.Farewells.{sigterm_handler-all}
use why.Server.Invariant.{Invariant}
use why.Server.Invariant.Histories.{History}
use why.Tests.Jobs.{os, clients, procs, jobs, state, state-IsGood}

abbrev calls : Calls
calls = record {
  cwd = codes "/tmp";
  filen = codes "sock";
  unix_path_max = 108;
  opened_dir = true;
  changed_dir = true;
  unlinked = true;
  bound = true;
  listening = true;
  changed_back = true;
  closed_dir = true;
  socket = pos 4;
  pipe = some (pos 5, pos 6);
  got_flags_0 = true;
  set_flags_0 = true;
  got_flags_1 = true;
  set_flags_1 = true;
  sigchld_set = true;
  sigterm_set = true;
  sighup_set = true;
  sigint_set = true;
}

calls-Succeeds : Succeeds calls (pos 5, pos 6)
calls-Succeeds = record {
  opened_dir = refl;
  changed_dir = refl;
  unlinked = refl;
  bound = refl;
  listening = refl;
  changed_back = refl;
  closed_dir = refl;
  pipe = refl;
  got_flags_0 = refl;
  set_flags_0 = refl;
  got_flags_1 = refl;
  set_flags_1 = refl;
  sigchld_set = refl;
  sigterm_set = refl;
  sighup_set = refl;
  sigint_set = refl;
  short_name = omega arith;
}

abbrev special : Special
special = record { cpipe = pos 5; server_sock = pos 4 }

server_init_listening-Invariant_example :
    (s : Server) × (server_init_listening calls 2 false ≡ ok (s, special))
    × (v : Invariant s 1000) × (v.clients ≡ [])
    × (v.procs ≡ [])
    × (v.queue ≡ [])
    × (v.good.entries ≡ watching (pos 4) ∷ watching (pos 5) ∷ [])
server_init_listening-Invariant_example =
    server_init_listening-Invariant calls (pos 5, pos 6) 2 1000 false calls-Succeeds (omega arith)
      (omega arith) (omega arith) (omega arith)

reachable-Invariant_example :
    (start : Server) × (server_init_listening calls 2 false ≡ ok (start, special))
    × ((s : Server) (p : Place) (n : ℕ) → History os special start 1000 s p n → Invariant s n)
reachable-Invariant_example =
    reachable-Invariant os calls (pos 5, pos 6) 2 1000 false (record { temp_length = λ n. refl })
      calls-Succeeds (omega arith) (omega arith) (omega arith) (omega arith)

sigterm_handler-all_example :
    sigterm_handler state (pos 4)
    ≡ ok (record { killed = pos 100 ∷ pos 101 ∷ []; unlinked = none; closed = pos 4 ∷ pos 5 ∷ [] })
sigterm_handler-all_example =
    sigterm_handler-all state (pos 4) clients procs jobs 1 1 refl (state-IsGood 1 (omega arith))
