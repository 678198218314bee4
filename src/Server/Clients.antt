-- ===== src/Server/Clients.antt =====
-- Clients come, are read from and written to, and go: `server_accept_client`, `close_client`,
-- `read_on_client`, `write_to_client`.
use why.Base.{
  ℕ, false, ◌&&◌, List, [], ◌∷◌, ◌++◌, Option, none, some, if◌then◌else◌, ℤ, length, Outcome, ok,
  stop, exits, ◌>>=◌, ◌>>◌,
}
use why.ArrayList.{list_append, list_remove, list_is_empty}
use why.ReadBuf.{init_readbuf, prepare_read, have_read, fill}
use why.WriteBuf.{init_writebuf, prepare_write, have_written, has_write_data, free_writebuf}
use why.Request.{Request}
use why.Request.Pending.{remove_from_queue}
use why.Proc.{kill_processes}
use why.Poll.{only_pollin, add_to_poll_list, poll_list_remove, set_pollout}
use why.Server.{Server, System, killed, closed, update}
use why.Server.Lines.{handle_msg}

-- `READ_ONCE`
abbrev pub read_once : ℕ
read_once = 1024

-- `accept` returns a descriptor, or fails.
unfoldable pub server_accept_client : Server → Option ℤ → Outcome Server
server_accept_client s none = stop (exits 1)
server_accept_client s (some fd) = do
  r ← init_readbuf read_once
  w ← init_writebuf s.parallel
  clients ← list_append s.clients fd (record { fd = fd })
  poll ← add_to_poll_list s.poll fd only_pollin
  ok (record s {
    clients = clients;
    buffers = update s.buffers fd (record { readbuf = r; writebuf = w });
    poll = poll;
  })

-- No callback.
abbrev pub no_callback : Server → Request → Outcome Server
no_callback s r = ok s

-- When the last client of a `single_client` server is gone, the server shuts down.
unfoldable pub close_client : Server → ℤ → Outcome Server
close_client s fd = do
  removed ← remove_from_queue no_callback s.queue fd none s
  pids ← kill_processes s.processes fd none
  clients ← list_remove s.clients fd
  poll ← poll_list_remove s.poll fd
  free_writebuf (s.buffers fd).writebuf
  if s.single_client && list_is_empty clients
      then stop (exits 1)
      else ok (record s {
        queue = removed.0;
        clients = clients;
        poll = poll;
        effects = s.effects ++ (killed pids ∷ closed fd ∷ []);
      })

-- What follows the call of `read`, whose bytes are at the index that `prepare_read` returned.
got_bytes : System → Server → ℤ → ℕ → Option (List ℕ) → Outcome Server
got_bytes os s fd at none = ok s
got_bytes os s fd at (some []) = close_client s fd
got_bytes os s fd at (some (c ∷ cs)) = do
  bytes ← fill (s.buffers fd).readbuf.bytes at (c ∷ cs)
  b ← have_read (record (s.buffers fd).readbuf { bytes = bytes }) (length (c ∷ cs))
  let bufs = record (s.buffers fd) { readbuf = b }
  handle_msg os (record s { buffers = update s.buffers fd bufs }) fd

-- `read` fails, or returns bytes; none at all is the end of the file.
unfoldable pub read_on_client : System → Server → ℤ → Option (List ℕ) → Outcome Server
unfolding got_bytes
read_on_client os s fd answer =
    let p = prepare_read (s.buffers fd).readbuf read_once in
    let bufs = record (s.buffers fd) { readbuf = p.0 } in
    got_bytes os (record s { buffers = update s.buffers fd bufs }) fd p.1 answer

-- `write` returns the number of bytes written, or fails.
unfoldable pub write_to_client : Server → ℤ → ℕ → Option ℕ → Outcome Server
write_to_client s fd entry answer = do
  p ← prepare_write (s.buffers fd).writebuf
  let begun = p.2
  w ← elim answer [ none ↦ ok begun | some n ↦ have_written begun n ]
  poll ← if has_write_data w then ok s.poll else set_pollout s.poll (some entry) false
  ok (record s {
    buffers = update s.buffers fd (record (s.buffers fd) { writebuf = w });
    poll = poll;
  })
