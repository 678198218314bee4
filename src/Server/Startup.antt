-- ===== src/Server/Startup.antt =====
-- The start of the server: `server_init_listening`, `setup_child_pipe`, `set_sigterm_handler`, and
-- what `main` does before its loop.
pub mod Ready
use why.Base.{
  ℕ, zero, suc, ◌+◌, ◌*◌, Bool, List, [], Option, none, some, length, ltb, leb, if◌then◌else◌, ℤ,
  pos, negsuc, false, Outcome, ok, stop, undefined, exits, ◌>>=◌, ◌>>◌, require,
}
use why.Base.Memory.{malloc}
use why.Text.{Str}
use why.ArrayList.{int_end, init_list}
use why.Request.Pending.{init_request_queue}
use why.Proc.{init_process_list}
use why.Poll.{PollList, only_pollin, add_to_poll_list}
use why.Options.{Opt, Options, parse_options}
use why.Server.{Server, Buffers}
use why.Server.Loop.{Special}

-- What the system answers: whether a call succeeded, or what it returned. `getcwd` is taken to
-- succeed, and the last part of the socket's name is that of `basename`. An `unlink` that finds no
-- file counts as a success.
pub record Calls : Type 0 where
  pub cwd : Str
  pub filen : Str
  pub unix_path_max : ℕ
  pub opened_dir : Bool
  pub changed_dir : Bool
  pub unlinked : Bool
  pub bound : Bool
  pub listening : Bool
  pub changed_back : Bool
  pub closed_dir : Bool
  pub socket : ℤ
  pub pipe : Option (ℤ × ℤ)
  pub got_flags_0 : Bool
  pub set_flags_0 : Bool
  pub got_flags_1 : Bool
  pub set_flags_1 : Bool
  pub sigchld_set : Bool
  pub sigterm_set : Bool
  pub sighup_set : Bool
  pub sigint_set : Bool

-- `shutdown_with_msg`
or_exit : Bool → Outcome (Unit {0})
or_exit success = if success then ok tt else stop (exits 1)

created : Option (ℤ × ℤ) → Outcome (ℤ × ℤ)
created none = stop (exits 1)
created (some cpipe) = ok cpipe

-- It returns `cpipe`.
unfoldable pub setup_child_pipe : Calls → PollList → Outcome ((ℤ × ℤ) × PollList)
unfolding or_exit created
setup_child_pipe c poll = do
  cpipe ← created c.pipe
  or_exit c.got_flags_0
  or_exit c.set_flags_0
  or_exit c.got_flags_1
  or_exit c.set_flags_1
  or_exit c.sigchld_set
  poll' ← add_to_poll_list poll cpipe.0 only_pollin
  ok (cpipe, poll')

unfoldable pub set_sigterm_handler : Calls → Outcome (Unit {0})
unfolding or_exit
set_sigterm_handler c = do or_exit c.sigterm_set; or_exit c.sighup_set; or_exit c.sigint_set

-- There is no client yet.
abbrev pub no_buffers : ℤ → Buffers
no_buffers fd = record {
  readbuf = record { bytes = []; len = 0; capacity = 0 };
  writebuf = record {
    message = none;
    len = 0;
    pointer = 0;
    is_writing = false;
    writequeue = record { cells = []; pointer = 0; len = 0; capacity = 0 };
  };
}

abbrev pub empty_poll_list : ℕ → PollList
empty_poll_list len = record { poll_list = malloc len; poll_num = 0; poll_len = len }

unfoldable pub server_init_listening : Calls → ℕ → Bool → Outcome (Server × Special)
unfolding or_exit setup_child_pipe set_sigterm_handler
server_init_listening c parallel single_client = do
  or_exit c.opened_dir
  or_exit c.changed_dir
  queue ← init_request_queue
  require (ltb (2 + parallel) int_end)
  or_exit (leb (length c.filen + 1) c.unix_path_max)
  or_exit c.unlinked
  or_exit c.bound
  require (ltb (parallel * 2) int_end)
  or_exit c.listening
  or_exit c.changed_back
  or_exit c.closed_dir
  poll ← add_to_poll_list (empty_poll_list (2 + parallel)) c.socket only_pollin
  r ← setup_child_pipe c poll
  set_sigterm_handler c
  let s : Server = record {
    clients = init_list parallel;
    buffers = no_buffers;
    processes = init_process_list parallel;
    queue = queue;
    poll = r.1;
    parallel = parallel;
    single_client = single_client;
    current_dir = c.cwd;
    forks = 0;
    effects = [];
  }
  let special : Special = record { cpipe = r.0.0; server_sock = c.socket }
  ok (s, special)

-- No negative number of processes gets here.
jobs_of : ℤ → Outcome ℕ
jobs_of (pos n) = ok n
jobs_of (negsuc n) = stop undefined

-- `main` in front of its loop.
unfoldable pub start_server : List Opt → Bool → Calls → Outcome (Server × Special)
unfolding jobs_of
start_server opts extra_arguments c = do
  o ← parse_options opts extra_arguments
  parallel ← jobs_of o.jobs
  server_init_listening c parallel o.single
