-- ===== src/Server/Jobs.antt =====
-- `run_request`, `schedule_new_jobs` and `handle_child_events`.
use why.Base.{
  ℕ, zero, suc, ◌+◌, Bool, true, false, List, [], ◌∷◌, ◌++◌, Option, none, some, ltb, if◌then◌else◌,
  ℤ, minus_one, ◌==ℤ◌, Outcome, ok, stop, undefined, exits, ◌>>=◌,
}
use why.Text.{Str}
use why.Queue.{queue_pop, queue_is_empty}
use why.ArrayList.{list_lookup, list_remove, list_append, list_length}
use why.Request.{Request, Run, Body, req_run, req_interrupt}
use why.Proc.{Proc}
use why.Server.{Server, System, Client, forked}
use why.Server.Messages.{send_started_msg_to_client, send_msg_to_client}
use why.Server.Spawn.{child_plan, temp_file}

-- The fields of `Run` are not set in a request of the other type.
abbrev pub as_run : Body → Outcome Run
as_run (req_run r) = ok r
as_run req_interrupt = stop undefined

module _ (os : System) where
  -- The parent's side of `create_process`: `fork` fails with -1.
  unfoldable pub start_process : Server → Run → Str → Outcome (ℤ × Server)
  start_process s r outfile =
      let pid = os.fork s.forks in
      let plan = child_plan r.cmd r.args r.usestdin outfile r.timeout r.memlimit in
      if pid ==ℤ minus_one
      then stop (exits 1)
      else ok (pid, record s { forks = s.forks + 1; effects = s.effects ++ (forked pid plan ∷ []) })

  unfoldable pub run_for_client : Server → Request → Run → Client → Outcome Server
  run_for_client s r run client = do
    let outfile = temp_file s.current_dir (os.temp s.forks)
    p ← start_process s run outfile
    let proc : Proc = record { id = p.0; client_key = r.key; task_id = r.id; outfile = outfile }
    processes ← list_append s.processes p.0 proc
    send_started_msg_to_client (record (p.1) { processes = processes }) client.fd r.id

  run_if_connected : Server → Request → Option Client → Outcome Server
  run_if_connected s r none = ok s
  run_if_connected s r (some client) = do run ← as_run r.body; run_for_client s r run client

  unfoldable pub run_request : Server → Request → Outcome Server
  unfolding run_if_connected
  run_request s r = do client ← list_lookup s.clients r.key; run_if_connected s r client

  -- Each round takes a request out of the queue.
  unfoldable pub schedule_from : ℕ → Server → Outcome Server
  schedule_from zero s = ok s
  schedule_from (suc rounds) s =
      let go = schedule_from rounds in
      if ltb (list_length s.processes) s.parallel
      then (if queue_is_empty s.queue
          then ok s
          else (do p ← queue_pop s.queue; s' ← run_request (record s { queue = p.1 }) p.0; go s'))
      else ok s

  unfoldable pub schedule_new_jobs : Server → Outcome Server
  schedule_new_jobs s = schedule_from s.queue.len s

-- How `wait3` says that a process ended.
pub data Status : Type 0 where
  exited signaled : ℕ → Status
  otherwise : Status

-- A process id that `wait3` returned, its status, and the text of its time.
pub record Waited : Type 0 where
  pub pid : ℤ
  pub status : Status
  pub cpu_time : Str

abbrev pub exit_code : Status → ℕ
exit_code (exited n) = n
exit_code (signaled n) = n
exit_code otherwise = 1

abbrev pub is_timeout : Status → Bool
is_timeout (exited n) = false
is_timeout (signaled n) = true
is_timeout otherwise = false

tell_client : Server → Waited → Proc → Option Client → Outcome Server
tell_client s w child none = ok s
tell_client s w child (some client) =
    send_msg_to_client s client.fd child.task_id (exit_code w.status) w.cpu_time
      (is_timeout w.status) child.outfile

-- `child->client_key` of a `NULL` pointer is undefined.
abbrev pub deref {ℓ} : {A : Type ℓ} → Option A → Outcome A
deref none = stop undefined
deref (some a) = ok a

unfoldable pub handle_child : Server → Waited → Outcome Server
unfolding tell_client
handle_child s w = do
  found ← list_lookup s.processes w.pid
  processes ← list_remove s.processes w.pid
  child ← deref found
  client ← list_lookup s.clients child.client_key
  tell_client (record s { processes = processes }) w child client

-- The processes that `wait3` returns until there is none.
unfoldable pub handle_child_events : Server → List Waited → Outcome Server
handle_child_events s [] = ok s
handle_child_events s (w ∷ ws) = do s' ← handle_child s w; handle_child_events s' ws
