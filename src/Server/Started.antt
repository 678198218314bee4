-- ===== src/Server/Started.antt =====
-- `run_request`: the process of a connected client is started, registered and announced.
use why.Base.{
  ℕ, suc, ◌+◌, ◌-◌, ◌≡◌, refl, true, false, List, [], ◌∷◌, ◌++◌, none, some, arith, length,
  length-append, ◌==◌, ==_iff, ℤ, minus_one, ◌==ℤ◌, ok,
}
use why.Text.{Str}
use why.ArrayList.Entries.{lookup}
use why.ArrayList.Refine.{list_lookup-Holds}
use why.ArrayList.Append.{list_append-Holds}
use why.Request.{Request, Run}
use why.Proc.{Proc}
use why.Server.{Server, System, Client, Effect, forked}
use why.Server.Messages.{started_text, send_started_msg_to_client, queue_write}
use why.Server.Spawn.{child_plan, temp_file}
use why.Server.Jobs.{start_process, run_for_client, run_request}
use why.Server.View.{IsGood, Told, IsRunnable, queue_write-IsGood}

length-started_text : (id : Str) → length (started_text id) ≡ length id + 3
length-started_text id = omega (arith, length-append id (10 ∷ []))

-- The announcement always fits in the room that is allocated for it.
pub send_started-queue_write :
    (s : Server) (fd : ℤ) (id : Str)
    → send_started_msg_to_client s fd id ≡ queue_write s fd (started_text id)
unfolding send_started_msg_to_client
send_started-queue_write s fd id = rw fits
  where
    fits : (length (started_text id) == length id + 4 - 1) ≡ true
    fits = (==_iff _ _).1 (omega (arith, length-started_text id))

module _ (os : System) where
  -- The file that the process writes to.
  abbrev pub outfile_of : Server → Str
  outfile_of s = temp_file s.current_dir (os.temp s.forks)

  -- The process that is registered.
  abbrev pub proc_of : Server → Request → Proc
  proc_of s r = record {
    id = os.fork s.forks;
    client_key = r.key;
    task_id = r.id;
    outfile = outfile_of s;
  }

  -- The effect that is seen.
  abbrev pub effect_of : Server → Run → Effect
  effect_of s run =
      forked (os.fork s.forks)
        (child_plan run.cmd run.args run.usestdin (outfile_of s) run.timeout run.memlimit)

  module _ (s : Server) (r : Request) (cs : List (ℤ × Client)) (ps : List (ℤ × Proc))
      (rs : List Request) (starts room : ℕ) where
    -- A request of a client that is gone is dropped.
    pub run_request-gone :
        lookup r.key cs ≡ none → IsGood s cs ps rs starts room → run_request os s r ≡ ok s
    unfolding run_request
    run_request-gone gone g = rw (list_lookup-Holds s.clients r.key cs g.clients, gone)

    -- The effect, the list of processes and the message of a start.
    pub run_request-starts :
        (c : Client) (runnable : IsRunnable r)
        → lookup r.key cs ≡ some c
        → (os.fork s.forks ==ℤ minus_one) ≡ false
        → IsGood s cs ps rs (suc starts) (suc room)
        → (s' : Server) × (run_request os s r ≡ ok s')
          × IsGood s' cs (ps ++ ((os.fork s.forks, proc_of s r) ∷ [])) rs starts room
          × (s'.parallel ≡ s.parallel)
          × (s'.forks ≡ s.forks + 1)
          × (s'.effects ≡ s.effects ++ (effect_of s runnable.run ∷ []))
          × Told s.buffers s'.buffers r.key (started_text r.id)
    unfolding run_request run_for_client start_process
    run_request-starts c runnable found forks g =
        let pid = os.fork s.forks in
        let (l, e, h) =
          list_append-Holds s.processes pid (proc_of s r) ps (omega (arith, g.procs_room))
            g.procs in
        let s₁ : Server = record s {
          processes = l;
          forks = s.forks + 1;
          effects = s.effects ++ (effect_of s runnable.run ∷ []);
        } in
        let same = (g.buffers r.key c found).0 in
        let g₁ : IsGood s₁ cs (ps ++ ((pid, proc_of s r) ∷ [])) rs starts (suc room) = record {
          set_up = g.set_up;
          clients = g.clients;
          procs = h;
          queue = g.queue;
          procs_room = omega (arith, g.procs_room, length-append ps ((pid, proc_of s r) ∷ []));
          clients_room = omega (arith, g.clients_room);
          low_room = g.low_room;
          runnable = g.runnable;
          entries = g.entries;
          entries_room = omega (arith, g.entries_room);
          poll = g.poll;
          buffers = g.buffers;
          watched = g.watched;
        } in
        let (bufs, poll, e', told, g₂) =
          queue_write-IsGood s₁ r.key c (started_text r.id) cs _ rs starts room found
            (omega (arith, length-started_text r.id, runnable.short_id)) g₁ in
        (
          record s₁ { buffers = bufs; poll = poll },
          rw
              (
                list_lookup-Holds s.clients r.key cs g.clients,
                found,
                runnable.is_run,
                forks,
                e,
                same,
                send_started-queue_write s₁ r.key r.id,
              )
              e',
          g₂,
          refl,
          refl,
          refl,
          told,
        )
