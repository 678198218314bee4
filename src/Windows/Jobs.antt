-- ===== src/Windows/Jobs.antt =====
-- `run_request`, `schedule_new_jobs` and `handle_child_event`.
use why.Base.{
  ℕ, zero, suc, ◌+◌, ◌-◌, ◌*◌, ◌%◌, ◌^◌, Bool, true, false, ◌||◌, [], ◌∷◌, ◌++◌, Option, none, some,
  ltb, ◌==◌, if◌then◌else◌, ℤ, pos, negsuc, Outcome, ok, stop, exits, ◌>>=◌, ◌>>◌,
}
use why.Text.{Str, codes}
use why.Queue.{queue_pop, queue_is_empty}
use why.ArrayList.{list_lookup, list_remove, list_append, list_length}
use why.Request.{Request, Run}
use why.Proc.{Proc}
use why.Server.Spawn.{stdin_of, arguments}
use why.Server.Jobs.{as_run}
use why.Windows.{WindowsServer, System, Client, Launch, JobLimits, launched}
use why.Windows.Keys.{keygen, to_ms_key, process}
use why.Windows.Messages.{send_started_msg_to_client, send_msg_to_client}
use why.Windows.CommandLine.{command_line}

-- A handle, or the end of the server.
abbrev pub or_shutdown {ℓ} : {A : Type ℓ} → Option A → Outcome A
or_shutdown none = stop (exits 1)
or_shutdown (some a) = ok a

abbrev pub succeeds : Bool → Outcome (Unit {0})
succeeds true = ok tt
succeeds false = stop (exits 1)

-- 1000LL * 1000LL * 10LL * (LONGLONG) timeout, if it is not 0; and 1024 * 1024 * (size_t) memlimit.
abbrev pub ticks_of : ℤ → Option ℤ
ticks_of (pos zero) = none
ticks_of (pos (suc n)) = some (pos (10000000 * suc n))
ticks_of (negsuc n) = some (negsuc (10000000 * suc n - 1))

abbrev pub memory_of : ℕ → Option ℕ
memory_of zero = none
memory_of (suc n) = some (1024 * 1024 * suc n % 2 ^ 64)

abbrev pub is_set {ℓ} : {A : Type ℓ} → Option A → Bool
is_set none = false
is_set (some a) = true

abbrev pub limits_of : Run → JobLimits
limits_of r = record { time = ticks_of r.timeout; memory = memory_of r.memlimit }

-- The call of `SetInformationJobObject` is made only if there is a limit.
abbrev pub set_limits : Bool → JobLimits → Outcome (Unit {0})
set_limits works l = if is_set l.time || is_set l.memory then succeeds works else ok tt

-- What precedes `CreateProcess`: the job object, the file for the output, and what is started.
unfoldable pub prepare_launch : System → ℕ → Run → Outcome (ℤ × Launch)
prepare_launch os n r = do
  job ← or_shutdown (os.job n)
  outfile ← or_shutdown (os.temp n)
  infile ← stdin_of r.usestdin r.args
  command ← command_line r.cmd (arguments r.usestdin r.args)
  set_limits (os.limited n) (limits_of r)
  ok (job, record { command = command; infile = infile; outfile = outfile; limits = limits_of r })

-- `id` of a process is here its job object, by which it is killed.
unfoldable pub register : WindowsServer → ℕ → Request → ℤ → Str → Bool → Outcome WindowsServer
register s client_key r job outfile associated = do
  k ← keygen s
  let proc : Proc = record { id = job; client_key = r.key; task_id = r.id; outfile = outfile }
  processes ← list_append s.processes (pos (k.0)) proc
  s' ← send_started_msg_to_client (record (k.1) { processes = processes }) client_key r.id
  ms ← to_ms_key k.0 process
  succeeds associated
  ok s'

unfoldable pub launch : System → WindowsServer → ℕ → Request → Run → Outcome WindowsServer
launch os s client_key r run = do
  p ← prepare_launch os s.launches run
  let n = s.launches
  let s' = record s { launches = n + 1 }
  if os.created n
      then (do
        succeeds (os.assigned n)
        register (record s' { effects = s.effects ++ (launched p.1 ∷ []) }) client_key r p.0
            (p.1).outfile (os.associated n))
      else send_msg_to_client s' client_key r.id 0 (codes "0.000000") false (p.1).outfile

-- The keys of clients are those of `keygen`, and positive.
abbrev pub key_number : ℤ → ℕ
key_number (pos n) = n
key_number (negsuc n) = 0

launch_if_connected : System → WindowsServer → Request → Option Client → Outcome WindowsServer
launch_if_connected os s r none = ok s
launch_if_connected os s r (some client) = do
  run ← as_run r.body
  launch os s (key_number r.key) r run

unfoldable pub run_request : System → WindowsServer → Request → Outcome WindowsServer
unfolding launch_if_connected
run_request os s r = do client ← list_lookup s.clients r.key; launch_if_connected os s r client

-- Each round takes a request out of the queue.
unfoldable pub schedule_from : System → ℕ → WindowsServer → Outcome WindowsServer
schedule_from os zero s = ok s
schedule_from os (suc rounds) s =
    let go = schedule_from os rounds in
    if ltb (list_length s.processes) s.parallel
    then (if queue_is_empty s.queue
        then ok s
        else (do p ← queue_pop s.queue; s' ← run_request os (record s { queue = p.1 }) p.0; go s'))
    else ok s

unfoldable pub schedule_new_jobs : System → WindowsServer → Outcome WindowsServer
schedule_new_jobs os s = schedule_from os s.queue.len s

-- The messages of a job object that the switch names, `JOB_OBJECT_MSG_...`, and all others.
pub data JobEvent : Type 0 where
  new_process end_of_job_time end_of_process_time job_memory_limit : JobEvent
  process_memory_limit abnormal_exit_process active_process_zero exit_process : JobEvent
  unknown : JobEvent

-- What `GetExitCodeProcess` and `GetProcessTimes` return, the time as a text.
pub record Ended : Type 0 where
  pub exitcode : ℕ
  pub cpu_time : Str

abbrev pub is_timeout : System → ℕ → Bool
is_timeout os exitcode =
    exitcode == os.error_not_enough_quota || exitcode == os.status_quota_exceeded

unfoldable pub child_ended : System → WindowsServer → ℕ → Proc → Ended → Outcome WindowsServer
child_ended os s proc_key child e = do
  processes ← list_remove s.processes (pos proc_key)
  send_msg_to_client (record s { processes = processes }) (key_number child.client_key)
      child.task_id e.exitcode e.cpu_time (is_timeout os e.exitcode) child.outfile

unfoldable pub handle_child_event :
    System → WindowsServer → ℕ → Proc → JobEvent → Ended → Outcome WindowsServer
handle_child_event os s proc_key child new_process e = ok s
handle_child_event os s proc_key child unknown e = stop (exits 1)
handle_child_event os s proc_key child event e = child_ended os s proc_key child e
