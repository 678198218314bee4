-- ===== src/Windows/Loop.antt =====
-- `init` and the main loop: one round starts what can be started, waits for an event of the
-- completion port, and handles it.
use why.Base.{
  ℕ, zero, suc, ◌+◌, Bool, true, false, ◌&&◌, not, List, [], ◌∷◌, Option, none, some, ◌==◌, length,
  if◌then◌else◌, pos, Outcome, ok, stop, exits, ◌>>=◌,
}
use why.Base.Memory.{malloc}
use why.ArrayList.{list_lookup, init_list}
use why.ReadBuf.{have_read, clear_readbuf, fill}
use why.WriteBuf.{have_written}
use why.Request.Pending.{init_request_queue}
use why.Proc.{Proc, init_process_list}
use why.Server.{Buffers}
use why.Windows.{WindowsServer, System, Client}
use why.Windows.Keys.{Kind, socket, process, kind_of_ms_key, key_of_ms_key, get_server_num}
use why.Windows.Messages.{update, try_write_client}
use why.Windows.Jobs.{JobEvent, Ended, handle_child_event, schedule_new_jobs}
use why.Windows.Clients.{create_server_socket, do_read, handle_msg, accept_client, close_client}

-- The kind of a completed operation of a client.
pub data Operation : Type 0 where
  readop writeop : Operation

-- What `GetLastError` says of an operation that failed.
pub data LastError : Type 0 where
  pipe_connected broken_pipe other_error : LastError

abbrev pub is_pipe_connected : LastError → Bool
is_pipe_connected pipe_connected = true
is_pipe_connected e = false

abbrev pub is_broken_pipe : LastError → Bool
is_broken_pipe broken_pipe = true
is_broken_pipe e = false

-- What `GetQueuedCompletionStatus` returns. Each field is what the system answers if it is asked:
-- the bytes that a read brought, how many a write took, what happened to a process.
pub record Event : Type 0 where
  pub mskey : ℕ
  pub res : Bool
  pub operation : Operation
  pub arrived : List ℕ
  pub taken : ℕ
  pub last_error : LastError
  pub job : JobEvent
  pub ended : Ended

-- The loop of `init`, with the number of rounds left.
unfoldable pub create_sockets : System → ℕ → ℕ → WindowsServer → Outcome WindowsServer
create_sockets os zero i s = ok s
create_sockets os (suc rounds) i s =
    let next = create_sockets os rounds (i + 1) in do s' ← create_server_socket os s i; next s'

-- The buffers of keys that are no client's are of no account.
unfoldable pub init : System → ℕ → Bool → (ℕ → Buffers) → Outcome WindowsServer
init os parallel single_client buffers = do
  queue ← init_request_queue
  create_sockets os parallel 0 (record {
    clients = init_list parallel;
    buffers = buffers;
    processes = init_process_list parallel;
    queue = queue;
    server_key = malloc parallel;
    server_socket = malloc parallel;
    gen_key = 1;
    parallel = parallel;
    single_client = single_client;
    pipes = 0;
    launches = 0;
    effects = [];
  })

module _ (os : System) where
  -- A read of `key` has ended. A message has been read entirely if it succeeded.
  unfoldable pub read_ended : WindowsServer → ℕ → Client → Event → Outcome WindowsServer
  read_ended s key client e = do
    let r = (s.buffers key).readbuf
    bytes ← fill r.bytes r.len e.arrived
    b ← have_read (record r { bytes = bytes }) (length e.arrived)
    let s₁ = record s { buffers = update s.buffers key (record (s.buffers key) { readbuf = b }) }
    if e.res
        then (do
          s₂ ← handle_msg os s₁ key
          let b' = clear_readbuf (s₂.buffers key).readbuf
          ok (
              do_read
                (record s₂ {
                  buffers = update s₂.buffers key (record (s₂.buffers key) { readbuf = b' });
                })
                key))
        else if length e.arrived == 0 && is_broken_pipe e.last_error
        then close_client s₁ key client
        else ok (do_read s₁ key)

  -- A write of `key` has ended; the next one is started.
  unfoldable pub write_ended : WindowsServer → ℕ → ℕ → Outcome WindowsServer
  write_ended s key taken = do
    w ← have_written (s.buffers key).writebuf taken
    try_write_client s key w

  operation_ended : WindowsServer → ℕ → Event → Operation → Client → Outcome WindowsServer
  operation_ended s key e readop client = read_ended s key client e
  operation_ended s key e writeop client = write_ended s key e.taken

  -- The events of a client that is gone are ignored.
  client_event : WindowsServer → ℕ → Event → Option Client → Outcome WindowsServer
  client_event s key e none = ok s
  client_event s key e (some client) = operation_ended s key e e.operation client

  socket_event : WindowsServer → ℕ → Event → Option ℕ → Outcome WindowsServer
  socket_event s key e (some server_num) =
      if not e.res && not (is_pipe_connected e.last_error)
      then stop (exits 1)
      else accept_client os s key server_num
  socket_event s key e none = do
    client ← list_lookup s.clients (pos key)
    client_event s key e client

  known_client : WindowsServer → ℕ → Proc → Event → Option Client → Outcome WindowsServer
  known_client s key proc e none = ok s
  known_client s key proc e (some client) = handle_child_event os s key proc e.job e.ended

  known_process : WindowsServer → ℕ → Event → Option Proc → Outcome WindowsServer
  known_process s key e none = ok s
  known_process s key e (some proc) = do
    client ← list_lookup s.clients proc.client_key
    known_client s key proc e client

  process_event : WindowsServer → ℕ → Event → Outcome WindowsServer
  process_event s key e = do proc ← list_lookup s.processes (pos key); known_process s key e proc

  by_kind : WindowsServer → ℕ → Event → Option ℕ → Kind → Outcome WindowsServer
  by_kind s key e server_num socket = socket_event s key e server_num
  by_kind s key e server_num process = process_event s key e

  -- The body of the loop behind `GetQueuedCompletionStatus`.
  unfoldable pub handle_event : WindowsServer → Event → Outcome WindowsServer
  unfolding operation_ended client_event socket_event known_client known_process process_event
      by_kind
  handle_event s e = do
    let key = key_of_ms_key e.mskey
    if e.mskey == 0 then stop (exits 1) else (do
      server_num ← get_server_num s key
      by_kind s key e server_num (kind_of_ms_key e.mskey))

  unfoldable pub round : WindowsServer → Event → Outcome WindowsServer
  round s e = do s' ← schedule_new_jobs os s; handle_event s' e

  -- The server's history: an event for each round.
  unfoldable pub serve : WindowsServer → List Event → Outcome WindowsServer
  serve s [] = ok s
  serve s (e ∷ rest) = do s' ← round s e; serve s' rest
