-- ===== src/Server/Startup/Ready.antt =====
-- The state in which the main loop starts.
use why.Base.{
  ℕ, ◌+◌, ◌*◌, ◌^◌, ◌<◌, ◌≡◌, refl, Bool, true, [], ◌∷◌, none, some, arith, length,
  length-replicate, lt→ltb, le→leb, ℤ, ok,
}
use why.ArrayList.{int_end, init_list}
use why.ArrayList.Entries.{lookup}
use why.ArrayList.Refine.{init_list-Holds}
use why.Queue.Refine.{init_queue-Holds}
use why.Request.Pending.{init_request_queue}
use why.Proc.{init_process_list}
use why.Poll.{PollFd, only_pollin, no_events}
use why.Poll.Refine.{Holds as PollHolds}
use why.Poll.Change.{add_to_poll_list-Holds}
use why.Server.{Server, System}
use why.Server.Loop.{Special, Place}
use why.Server.Startup.{
  Calls, setup_child_pipe, set_sigterm_handler, empty_poll_list, no_buffers, server_init_listening,
}
use why.Server.Invariant.{IsPosix, Invariant, HasRoomFor}
use why.Server.Invariant.Histories.{History, History-Invariant}

-- All calls succeed, and the socket's name is short enough.
pub record Succeeds (c : Calls) (cpipe : ℤ × ℤ) : Type 0 where
  pub opened_dir : c.opened_dir ≡ true
  pub changed_dir : c.changed_dir ≡ true
  pub unlinked : c.unlinked ≡ true
  pub bound : c.bound ≡ true
  pub listening : c.listening ≡ true
  pub changed_back : c.changed_back ≡ true
  pub closed_dir : c.closed_dir ≡ true
  pub pipe : c.pipe ≡ some cpipe
  pub got_flags_0 : c.got_flags_0 ≡ true
  pub set_flags_0 : c.set_flags_0 ≡ true
  pub got_flags_1 : c.got_flags_1 ≡ true
  pub set_flags_1 : c.set_flags_1 ≡ true
  pub sigchld_set : c.sigchld_set ≡ true
  pub sigterm_set : c.sigterm_set ≡ true
  pub sighup_set : c.sighup_set ≡ true
  pub sigint_set : c.sigint_set ≡ true
  pub short_name : length c.filen < c.unix_path_max

abbrev pub watching : ℤ → PollFd
watching fd = record { fd = fd; events = only_pollin; revents = no_events }

empty-Holds : (n : ℕ) → 0 < n → n < 2 ^ 30 → PollHolds (empty_poll_list n) []
empty-Holds n some_n low = record {
  count = refl;
  fits = omega arith;
  some_room = some_n;
  size = length-replicate n none;
  small = low;
  listed = tt;
}

-- If every call succeeds, the server starts: it waits for clients on its socket and for the ends of
-- processes on its pipe, and nothing else; there are no clients, no processes and no requests. The
-- state satisfies the invariant of the main loop, with room for any number below 2 ^ 28 of bytes and
-- clients. This is for fewer than 2 ^ 29 processes at a time, and a directory's name of fewer than
-- 2 ^ 29 bytes.
pub server_init_listening-Invariant :
    (c : Calls) (cpipe : ℤ × ℤ) (parallel n : ℕ) (single_client : Bool)
    → Succeeds c cpipe
    → 0 < parallel
    → parallel < 2 ^ 29
    → length c.cwd < 2 ^ 29
    → n < 2 ^ 28
    → (s : Server) × (server_init_listening c parallel single_client
        ≡ ok (s, record { cpipe = cpipe.0; server_sock = c.socket }))
      × (v : Invariant s n) × (v.clients ≡ [])
      × (v.procs ≡ [])
      × (v.queue ≡ [])
      × (v.good.entries ≡ watching c.socket ∷ watching cpipe.0 ∷ [])
unfolding server_init_listening setup_child_pipe set_sigterm_handler init_request_queue
    init_process_list lookup
server_init_listening-Invariant c cpipe parallel n single_client h some_jobs few short low =
    let (q, e₁, hq) = init_queue-Holds 100 (omega arith) (omega arith) in
    let (p₁, e₂, h₁) =
      add_to_poll_list-Holds (empty_poll_list (2 + parallel)) c.socket only_pollin [] (omega arith)
        (empty-Holds (2 + parallel) (omega arith) (omega arith)) in
    let (p₂, e₃, h₂) =
      add_to_poll_list-Holds p₁ (cpipe.0) only_pollin (watching c.socket ∷ []) (omega arith) h₁ in
    let s : Server = record {
      clients = init_list parallel;
      buffers = no_buffers;
      processes = init_list parallel;
      queue = q;
      poll = p₂;
      parallel = parallel;
      single_client = single_client;
      current_dir = c.cwd;
      forks = 0;
      effects = [];
    } in
    let good : HasRoomFor s [] [] [] n = record {
      set_up = record {
        distinct = tt;
        some_jobs = some_jobs;
        few_jobs = omega arith;
        short_dir = short;
      };
      clients = init_list-Holds parallel some_jobs (omega arith);
      procs = init_list-Holds parallel some_jobs (omega arith);
      queue = hq;
      procs_room = omega arith;
      clients_room = omega arith;
      low_room = omega arith;
      runnable = tt;
      entries = watching c.socket ∷ watching cpipe.0 ∷ [];
      entries_room = omega arith;
      poll = h₂;
      buffers = λ k x found. absurd (cc);
      watched = λ k x found. absurd (cc);
    } in
    (
      s,
      rw (
        h.opened_dir,
        h.changed_dir,
        e₁,
        lt→ltb (2 + parallel) int_end (omega arith),
        le→leb (length c.filen + 1) c.unix_path_max (omega (arith, h.short_name)),
        h.unlinked,
        h.bound,
        lt→ltb (parallel * 2) int_end (omega arith),
        h.listening,
        h.changed_back,
        h.closed_dir,
        e₂,
        h.pipe,
        h.got_flags_0,
        h.set_flags_0,
        h.got_flags_1,
        h.set_flags_1,
        h.sigchld_set,
        e₃,
        h.sigterm_set,
        h.sighup_set,
        h.sigint_set,
      ),
      record {
        clients = [];
        procs = [];
        queue = [];
        good = good;
        named = tt;
        receiving = λ k x found. absurd (cc);
      },
      refl,
      refl,
      refl,
      refl,
    )

-- A server whose start succeeds is well formed in every state that its main loop reaches from there,
-- as long as the bytes and clients that arrive are fewer than 2 ^ 28: the invariant holds in it.
-- This is about the steps that return, for fewer than 2 ^ 29 processes at a time and a directory's
-- name of fewer than 2 ^ 29 bytes; the system answers as it is documented to.
pub reachable-Invariant :
    (os : System) (c : Calls) (cpipe : ℤ × ℤ) (parallel limit : ℕ) (single_client : Bool)
    → IsPosix os
    → Succeeds c cpipe
    → 0 < parallel
    → parallel < 2 ^ 29
    → length c.cwd < 2 ^ 29
    → limit < 2 ^ 28
    → let special : Special = record { cpipe = cpipe.0; server_sock = c.socket } in
      (start : Server) × (server_init_listening c parallel single_client ≡ ok (start, special))
      × ((s : Server) (p : Place) (n : ℕ) → History os special start limit s p n → Invariant s n)
reachable-Invariant os c cpipe parallel limit single_client posix h some_jobs few short low =
    let (start, e, v, _, _, _, _) =
      server_init_listening-Invariant c cpipe parallel limit single_client h some_jobs few short
        low in
    (start, e, History-Invariant os _ start limit posix v)
