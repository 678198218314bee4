-- ===== src/Windows/Clients.antt =====
-- Clients come, are read from, and go: `create_server_socket`, `do_read`, `handle_queue_remove`,
-- `handle_msg`, `accept_client` and `close_client`.
use why.Base.{
  ℕ, ◌+◌, ◌-◌, ◌%◌, ◌^◌, false, ◌&&◌, [], ◌∷◌, ◌++◌, Option, none, some, ltb, if◌then◌else◌, pos,
  Outcome, ok, stop, exits, ◌>>=◌, ◌>>◌,
}
use why.Base.Memory.{load, store}
use why.Text.{Str, codes}
use why.Queue.{queue_push}
use why.ArrayList.{list_lookup, list_remove, list_append, list_length, list_is_empty}
use why.ReadBuf.{init_readbuf, prepare_read}
use why.WriteBuf.{init_writebuf, free_writebuf}
use why.Request.{Request, Body, req_run, req_interrupt}
use why.Request.Parse.{parse_request}
use why.Request.Pending.{remove_from_queue}
use why.Proc.{kill_processes}
use why.Server.Jobs.{deref}
use why.Server.Lines.{bytes_from, int_of, rounds_to}
use why.Server.Clients.{read_once}
use why.Windows.{WindowsServer, System, Client, reading, killed, closed}
use why.Windows.Keys.{keygen, to_ms_key, socket}
use why.Windows.Messages.{update, send_msg_to_client}
use why.Windows.Jobs.{or_shutdown, succeeds, run_request, key_number}

-- `BUFSIZE`
abbrev pub bufsize : ℕ
bufsize = 4096

-- The pipe has the number of this call. The new `key` is known before the old pipe is replaced.
unfoldable pub create_server_socket : System → WindowsServer → ℕ → Outcome WindowsServer
create_server_socket os s socket_num = do
  k ← keygen s
  handle ← or_shutdown (os.pipe s.pipes)
  ms ← to_ms_key k.0 socket
  sockets ← store s.server_socket socket_num handle
  keys ← store s.server_key socket_num k.0
  succeeds (os.connects s.pipes)
  ok (record (k.1) { server_socket = sockets; server_key = keys; pipes = s.pipes + 1 })

-- The bytes will arrive at the index that `prepare_read` returned, the buffer's length.
unfoldable pub do_read : WindowsServer → ℕ → WindowsServer
do_read s key =
    let p = prepare_read (s.buffers key).readbuf read_once in
    record s {
      buffers = update s.buffers key (record (s.buffers key) { readbuf = p.0 });
      effects = s.effects ++ (reading key ∷ []);
    }

-- The callback for a request that is taken out of the queue.
unfoldable pub handle_queue_remove : WindowsServer → Request → Outcome WindowsServer
handle_queue_remove s r = do
  found ← list_lookup s.clients r.key
  client ← deref found
  send_msg_to_client s (key_number r.key) r.id 0 (codes "0.000000") false []

unfoldable pub interrupt : WindowsServer → ℕ → Str → Outcome WindowsServer
interrupt s key id = do
  removed ← remove_from_queue handle_queue_remove s.queue (pos key) (some id) s
  jobs ← kill_processes (removed.1).processes (pos key) (some id)
  ok (record (removed.1) { queue = removed.0; effects = (removed.1).effects ++ (killed jobs ∷ []) })

handle_body : System → WindowsServer → ℕ → Request → Body → Outcome WindowsServer
handle_body os s key r (req_run run) =
    if ltb (list_length s.processes) s.parallel
    then run_request os s r
    else (do q ← queue_push s.queue r; ok (record s { queue = q }))
handle_body os s key r req_interrupt = interrupt s key r.id

handle_parsed : System → WindowsServer → ℕ → Option Request → Outcome WindowsServer
handle_parsed os s key none = ok s
handle_parsed os s key (some r) = handle_body os s key r r.body

-- A line without its newline. What is parsed of a line whose length is negative is no request, as for
-- an empty line.
unfoldable pub handle_line : System → WindowsServer → ℕ → Str → Outcome WindowsServer
unfolding handle_body handle_parsed
handle_line os s key line = do
  parsed ← parse_request line (pos key) s.parallel
  handle_parsed os (record s { parallel = parsed.0 }) key parsed.1

unfoldable pub handle_msg : System → WindowsServer → ℕ → Outcome WindowsServer
handle_msg os s key = do
  let len = int_of (((s.buffers key).readbuf.len + (2 ^ 64 - 1)) % 2 ^ 64)
  line ← bytes_from (s.buffers key).readbuf.bytes (rounds_to len) 0
  handle_line os s key line

unfoldable pub accept_client : System → WindowsServer → ℕ → ℕ → Outcome WindowsServer
accept_client os s key socket_num = do
  handle ← load s.server_socket socket_num
  r ← init_readbuf bufsize
  w ← init_writebuf 16
  s' ← create_server_socket os s socket_num
  clients ← list_append s'.clients (pos key) (record { handle = handle })
  ok (
      do_read
        (record s' {
          clients = clients;
          buffers = update s'.buffers key (record { readbuf = r; writebuf = w });
        })
        key)

-- No callback.
abbrev pub no_callback : WindowsServer → Request → Outcome WindowsServer
no_callback s r = ok s

-- When the last client of a `single_client` server is gone, the server shuts down.
unfoldable pub close_client : WindowsServer → ℕ → Client → Outcome WindowsServer
close_client s key client = do
  removed ← remove_from_queue no_callback s.queue (pos key) none s
  jobs ← kill_processes s.processes (pos key) none
  clients ← list_remove s.clients (pos key)
  free_writebuf (s.buffers key).writebuf
  if s.single_client && list_is_empty clients
      then stop (exits 1)
      else ok (record s {
        queue = removed.0;
        clients = clients;
        effects = s.effects ++ (killed jobs ∷ closed client.handle ∷ []);
      })
