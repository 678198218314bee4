-- ===== src/Tests/Pipes.antt =====
-- The server on Windows at a concrete state: two clients, one of whose processes is the other's, gone.
use why.Base.{
  ℕ, ◌+◌, ◌≡◌, refl, true, false, List, [], ◌∷◌, none, some, length, replicate, ◌==◌, ℤ, pos, arith,
  ok, stop, undefined, ◌>>=◌,
}
use why.Base.Memory.{load}
use why.Base.Starts.{Starts}
use why.Text.{codes}
use why.Queue.{Queue}
use why.ArrayList.{PList}
use why.ArrayList.Entries.{lookup, remove}
use why.ArrayList.Refine.{Holds}
use why.ReadBuf.{ReadBuf}
use why.ReadBuf.Refine.{Holds as Reads}
use why.WriteBuf.{WriteBuf}
use why.WriteBuf.Refine.{busy}
use why.Request.{Request}
use why.Proc.{Proc}
use why.Queue.Refine.{Holds as Waiting}
use why.Windows.{WindowsServer, System, Client, writing}
use why.Windows.Keys.{kind_of_ms_key, key_of_ms_key, get_server_num, server_num_from}
use why.Windows.Jobs.{exit_process}
use why.Windows.Loop.{Event, readop, other_error, init, handle_event}
use why.Windows.Pump.{Pumped, with_writebuf, writes_ended, writes_ended-all}
use why.Windows.Sockets.{get_server_num-past}
use why.Windows.Listening.{init-waits}
use why.Windows.Reaped.{end_text, handle_event-gone, handle_event-tells}

-- A pipe is there for every call, and so is everything else.
abbrev handle_number : ℕ → ℤ
handle_number n = pos (100 + n)

abbrev os : System
os = record {
  pipe = λ n. some (handle_number n);
  connects = λ n. true;
  job = λ n. some (pos (200 + n));
  temp = λ n. some (codes "C:\\vcout1.tmp");
  limited = λ n. true;
  created = λ n. true;
  assigned = λ n. true;
  associated = λ n. true;
  error_not_enough_quota = 1816;
  status_quota_exceeded = 3221225540;
}

-- A message of two bytes that is being written, and one of three in the queue.
abbrev two_messages : WriteBuf
two_messages = record {
  message = some (83 ∷ 10 ∷ []);
  len = 2;
  pointer = 0;
  is_writing = true;
  writequeue = record {
    cells = some (70 ∷ 71 ∷ 10 ∷ []) ∷ none ∷ [];
    pointer = 0;
    len = 1;
    capacity = 2;
  };
}

-- The beginning of a line has been read.
abbrev begun : ReadBuf
begun = record { bytes = some b'i' ∷ some b'n' ∷ replicate 2046 none; len = 2; capacity = 2048 }

abbrev empty_queue : Queue Request
empty_queue = record { cells = none ∷ []; pointer = 0; len = 0; capacity = 1 }

abbrev client_1 : Client
client_1 = record { handle = pos 100 }

abbrev proc_2 : Proc
proc_2 = record { id = pos 200; client_key = pos 1; task_id = codes "a"; outfile = codes "o" }

-- Its client is gone.
abbrev proc_4 : Proc
proc_4 = record { id = pos 201; client_key = pos 3; task_id = codes "b"; outfile = codes "p" }

abbrev clients : List (ℤ × Client)
clients = (pos 1, client_1) ∷ []

abbrev procs : List (ℤ × Proc)
procs = (pos 2, proc_2) ∷ (pos 4, proc_4) ∷ []

abbrev state : WindowsServer
state = record {
  clients = record { key = some (pos 1) ∷ []; datum = some client_1 ∷ []; len = 1; capacity = 1 };
  buffers = λ n. record { readbuf = begun; writebuf = two_messages };
  processes = record {
    key = some (pos 2) ∷ some (pos 4) ∷ [];
    datum = some proc_2 ∷ some proc_4 ∷ [];
    len = 2;
    capacity = 2;
  };
  queue = empty_queue;
  server_key = some 5 ∷ some 6 ∷ [];
  server_socket = some (pos 104) ∷ some (pos 105) ∷ [];
  gen_key = 7;
  parallel = 2;
  single_client = false;
  pipes = 6;
  launches = 2;
  effects = [];
}

clients-Holds : Holds state.clients clients
clients-Holds = record {
  count = refl;
  fits = omega arith;
  some_room = omega arith;
  small = omega arith;
  key_size = refl;
  datum_size = refl;
  keys = (refl, tt);
  data' = (refl, tt);
}

procs-Holds : Holds state.processes procs
procs-Holds = record {
  count = refl;
  fits = omega arith;
  some_room = omega arith;
  small = omega arith;
  key_size = refl;
  datum_size = refl;
  keys = (refl, (refl, tt));
  data' = (refl, (refl, tt));
}

two_messages-Pumped : Pumped two_messages ((83 ∷ 10 ∷ []) ∷ (70 ∷ 71 ∷ 10 ∷ []) ∷ [])
two_messages-Pumped = record {
  sending =
      busy (83 ∷ 10 ∷ []) ((70 ∷ 71 ∷ 10 ∷ []) ∷ [])
        (record { message = refl; len = refl; pointer_in = omega arith })
        (record { valid = omega arith; view = refl }) (omega arith, tt) refl;
  under_way = refl;
}

writes_ended-all_example :
    (s' : WindowsServer) × (writes_ended os state 1 (2 ∷ 3 ∷ []) ≡ ok s')
    × Pumped (s'.buffers 1).writebuf []
    × (s'.effects ≡ writing 1 (70 ∷ 71 ∷ 10 ∷ []) ∷ [])
writes_ended-all_example =
    writes_ended-all os state 1 (83 ∷ 10 ∷ []) ((70 ∷ 71 ∷ 10 ∷ []) ∷ []) two_messages-Pumped

-- The event of this key, with these bytes.
abbrev event : ℕ → List ℕ → Event
event ms bytes = record {
  mskey = ms;
  res = true;
  operation = readop;
  arrived = bytes;
  taken = 0;
  last_error = other_error;
  job = exit_process;
  ended = record { exitcode = 0; cpu_time = codes "0.125000" };
}

not_a_pipe :
    (key : ℕ) → (5 == key) ≡ false → (6 == key) ≡ false → get_server_num state key ≡ ok none
unfolding get_server_num server_num_from load
not_a_pipe key e f = rw (e, f)

handle_event-gone_example : handle_event os state (event 9 []) ≡ ok state
handle_event-gone_example =
    handle_event-gone os state (event 9 []) clients procs proc_4 none clients-Holds procs-Holds
      (unfold kind_of_ms_key in refl) (unfold key_of_ms_key in not_a_pipe 4 refl refl)
      (unfold lookup key_of_ms_key in refl) (unfold lookup in refl)

handle_event-tells_example :
    (l : PList Proc) × (w : WriteBuf) × (handle_event os state (event 5 [])
      ≡ ok (with_writebuf (record state { processes = l }) 1 w none))
    × Holds l (remove (pos 2) procs)
    × Pumped w ((83 ∷ 10 ∷ []) ∷ (70 ∷ 71 ∷ 10 ∷ []) ∷ end_text os proc_2 (event 5 []).ended ∷ [])
unfolding key_of_ms_key
handle_event-tells_example =
    handle_event-tells os state (event 5 []) clients procs proc_2 none client_1
      ((83 ∷ 10 ∷ []) ∷ (70 ∷ 71 ∷ 10 ∷ []) ∷ []) clients-Holds procs-Holds
      (unfold kind_of_ms_key in refl) refl (not_a_pipe 2 refl refl) (unfold lookup in refl)
      (unfold lookup in refl) (omega arith) (omega arith) (omega arith) two_messages-Pumped

-- A client has asked for three processes at a time.
get_server_num-past_example : get_server_num (record state { parallel = 3 }) 1 ≡ stop undefined
get_server_num-past_example =
    get_server_num-past (record state { parallel = 3 }) 1 (5 ∷ 6 ∷ []) (refl, (refl, tt)) refl
      (omega arith) refl

init-waits_example :
    (s : WindowsServer) × (init os 4 false state.buffers ≡ ok s)
    × (s.parallel ≡ 4)
    × (length s.server_key ≡ 4)
    × Starts s.server_key (1 ∷ 2 ∷ 3 ∷ 4 ∷ [])
    × Starts s.server_socket (pos 100 ∷ pos 101 ∷ pos 102 ∷ pos 103 ∷ [])
    × Holds s.clients []
    × Holds s.processes []
    × Waiting s.queue []
init-waits_example =
    init-waits os handle_number (record { pipe = λ n. refl; connects = λ n. refl }) 4 false
      state.buffers (omega arith) (omega arith)
