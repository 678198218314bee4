-- ===== src/Proc.antt =====
-- src/server/proc.h and proc.c: the processes that run.
pub mod Refine
use why.Base.{
  ℕ, zero, suc, ◌+◌, Bool, true, ◌&&◌, List, [], ◌∷◌, Option, if◌then◌else◌, ℤ, ◌==ℤ◌, Outcome, ok,
  ◌>>=◌,
}
use why.Base.Memory.{Block, load}
use why.Text.{Str}
use why.ArrayList.{PList, init_list}
use why.Request.Pending.{id_matches}

-- `t_proc`. `id` is the process id on Unix, and the handle `job` on Windows.
pub record Proc : Type 0 where
  pub id : ℤ
  pub client_key : ℤ
  pub task_id : Str
  pub outfile : Str

unfoldable pub init_process_list : ℕ → PList Proc
init_process_list parallel = init_list parallel

-- The processes of the client, of all its tasks or of one.
unfoldable pub is_target : ℤ → Option Str → Proc → Bool
is_target key id p = p.client_key ==ℤ key && id_matches id p.task_id

-- The loop of `kill_processes` and `kill_all_processes`, with the number of rounds left. It returns
-- the process groups to which `os_kill` sends SIGKILL, or the job objects that it terminates, in order.
kill_from : (Proc → Bool) → Block Proc → ℕ → ℕ → Outcome (List ℤ)
kill_from target ps zero i = ok []
kill_from target ps (suc rounds) i =
    let next = kill_from target ps rounds (i + 1) in
    do p ← load ps i; killed ← next; ok (if target p then p.id ∷ killed else killed)

unfoldable pub kill_processes : PList Proc → ℤ → Option Str → Outcome (List ℤ)
unfolding kill_from
kill_processes l key id = kill_from (is_target key id) l.datum l.len 0

unfoldable pub kill_all_processes : PList Proc → Outcome (List ℤ)
unfolding kill_from
kill_all_processes l = kill_from (λ p. true) l.datum l.len 0
