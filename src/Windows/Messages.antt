-- ===== src/Windows/Messages.antt =====
-- Writing to the clients: `try_write`, `send_started_msg_to_client` and `send_msg_to_client`.
use why.Base.{
  ℕ, ◌+◌, ◌-◌, Bool, ◌&&◌, List, [], ◌∷◌, ◌++◌, Option, none, some, leb, ◌==◌, length,
  if◌then◌else◌, Outcome, ok, stop, exits, ◌>>=◌,
}
use why.Text.{Str}
use why.WriteBuf.{WriteBuf, has_write_data, can_write, prepare_write, push_write_data}
use why.Server.{Buffers}
use why.Server.Messages.{started_text, finished_text, finished_len}
use why.Windows.{WindowsServer, Effect, writing}

abbrev pub update : (ℕ → Buffers) → ℕ → Buffers → ℕ → Buffers
update f key b j = if key == j then b else f j

-- The bytes that `WriteFile` is called with, if it is called.
unfoldable pub try_write : WriteBuf → Outcome (Option Str × WriteBuf)
try_write w =
    if has_write_data w && can_write w
    then (do p ← prepare_write w; ok (some p.0, p.2))
    else ok (none, w)

abbrev pub started_write : ℕ → Option Str → List Effect
started_write key none = []
started_write key (some bytes) = writing key bytes ∷ []

-- `try_write` on the client's buffer.
unfoldable pub try_write_client : WindowsServer → ℕ → WriteBuf → Outcome WindowsServer
try_write_client s key w = do
  t ← try_write w
  ok (record s {
    buffers = update s.buffers key (record (s.buffers key) { writebuf = t.1 });
    effects = s.effects ++ started_write key t.0;
  })

-- The last two lines of both functions that send a message.
unfoldable pub send : WindowsServer → ℕ → Str → Outcome WindowsServer
send s key msgbuf = do w ← push_write_data (s.buffers key).writebuf msgbuf; try_write_client s key w

unfoldable pub send_started_msg_to_client : WindowsServer → ℕ → Str → Outcome WindowsServer
send_started_msg_to_client s key id =
    let len = length id + 4 in
    if length (started_text id) == len - 1 then send s key (started_text id) else stop (exits 1)

-- The text has `%lu` for the exit code, a `DWORD`.
unfoldable pub send_msg_to_client :
    WindowsServer → ℕ → Str → ℕ → Str → Bool → Str → Outcome WindowsServer
send_msg_to_client s key id exitcode cpu_time timeout outfile =
    let msgbuf = finished_text id exitcode cpu_time timeout outfile in
    if leb (finished_len id outfile) (length msgbuf) then stop (exits 1) else send s key msgbuf
