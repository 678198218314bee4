-- ===== src/Server/Shutdown.antt =====
-- The end of the server: `shutdown_with_msg`, `shutdown_server`, and the signal handlers.
pub mod Farewells
use why.Base.{
  ℕ, zero, suc, ◌+◌, List, [], ◌∷◌, Option, none, some, if◌then◌else◌, ℤ, minus_one, ◌==ℤ◌, Outcome,
  ok, stop, exits, ◌>>=◌,
}
use why.Base.Memory.{Block, load}
use why.Text.{Str}
use why.ArrayList.{PList, list_length}
use why.Proc.{kill_all_processes}
use why.Server.{Server, Client}

-- What is done before `exit (1)`: the processes that are killed, the file that is unlinked, and the
-- descriptors that are closed, in order.
pub record Farewell : Type 0 where
  pub killed : List ℤ
  pub unlinked : Option Str
  pub closed : List ℤ

-- The loop, with the number of rounds left.
close_from : Block Client → ℕ → ℕ → Outcome (List ℤ)
close_from clients zero i = ok []
close_from clients (suc rounds) i = do
  c ← load clients i
  closed ← close_from clients rounds (i + 1)
  ok (c.fd ∷ closed)

-- The clients are `NULL` before `server_init_listening` makes their list.
close_clients : Option (PList Client) → Outcome (List ℤ)
unfolding close_from
close_clients none = ok []
close_clients (some l) = close_from l.datum (list_length l) 0

unfoldable pub shutdown_with_msg : ℤ → Option (PList Client) → Outcome (List ℤ)
unfolding close_clients
shutdown_with_msg server_sock clients = do
  closed ← close_clients clients
  ok (if server_sock ==ℤ minus_one then closed else server_sock ∷ closed)

unfoldable pub shutdown_server : Server → ℤ → Str → Outcome Farewell
shutdown_server s server_sock socketname = do
  closed ← shutdown_with_msg server_sock (some s.clients)
  ok (record { killed = []; unlinked = some socketname; closed = closed })

unfoldable pub sigterm_handler : Server → ℤ → Outcome Farewell
sigterm_handler s server_sock = do
  killed ← kill_all_processes s.processes
  closed ← shutdown_with_msg server_sock (some s.clients)
  ok (record { killed = killed; unlinked = none; closed = closed })

-- How a `write` to `cpipe[1]` fails.
pub data WriteError : Type 0 where
  eagain eintr other_error : WriteError

-- The handler returns, or shuts the server down.
unfoldable pub sigchld_handle : Option WriteError → Outcome (Unit {0})
sigchld_handle none = ok tt
sigchld_handle (some eagain) = ok tt
sigchld_handle (some eintr) = ok tt
sigchld_handle (some other_error) = stop (exits 1)
