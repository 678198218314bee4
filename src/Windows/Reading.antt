-- ===== src/Windows/Reading.antt =====
-- A request arrives in one or several reads, and is handled when the last one has ended.
use why.Base.{
  ℕ, ◌-◌, ◌^◌, ◌≤◌, ◌<◌, ◌≡◌, refl, ◌&&◌, false, [], ◌∷◌, ◌++◌, length, ◌==◌, take, ok, ◌>>=◌,
  arith,
}
use why.Text.{Str}
use why.Server.Clients.{read_once}
use why.ReadBuf.{ReadBuf, prepare_read, clear_readbuf}
use why.ReadBuf.Arrives.{IsReading, prepare_read-IsReading, arrives}
use why.ReadBuf.Refine.{Holds}
use why.Windows.{WindowsServer, System, Client, reading}
use why.Windows.Messages.{update}
use why.Windows.Clients.{do_read}
use why.Windows.Loop.{Event, is_broken_pipe, read_ended}

abbrev pub with_readbuf : WindowsServer → ℕ → ReadBuf → WindowsServer
with_readbuf s key b = record s {
  buffers = update s.buffers key (record (s.buffers key) { readbuf = b });
}

with_readbuf-same :
    (s : WindowsServer) (key : ℕ) (b : ReadBuf) → ((with_readbuf s key b).buffers key).readbuf ≡ b
with_readbuf-same s key b = ground arith

do_read-prepares :
    (s : WindowsServer) (key : ℕ)
    → ((do_read s key).buffers key).readbuf ≡ (prepare_read (s.buffers key).readbuf read_once).0
unfolding do_read
do_read-prepares s key = with_readbuf-same s key (prepare_read (s.buffers key).readbuf read_once).0

do_read-IsReading :
    (s : WindowsServer) (key : ℕ) (b : ReadBuf) (bs : Str)
    → (s.buffers key).readbuf ≡ b
    → b.capacity < 2 ^ 62
    → Holds b bs
    → IsReading read_once ((do_read s key).buffers key).readbuf bs
do_read-IsReading s key b bs same low h =
    rw (do_read-prepares s key, same) (prepare_read-IsReading read_once b bs (omega arith) h).1

-- A read that ended with a part of a message, or with nothing, though the pipe is not broken: the
-- part is kept and the next read begins.
pub read_ended-part :
    (os : System) (s : WindowsServer) (key : ℕ) (client : Client) (e : Event) (bs : Str)
    → e.res ≡ false
    → (length e.arrived == 0 && is_broken_pipe e.last_error) ≡ false
    → length e.arrived ≤ read_once
    → (s.buffers key).readbuf.capacity < 2 ^ 62
    → IsReading read_once (s.buffers key).readbuf bs
    → (s' : WindowsServer) × (read_ended os s key client e ≡ ok s')
      × IsReading read_once (s'.buffers key).readbuf (bs ++ e.arrived)
      × (s'.effects ≡ s.effects ++ (reading key ∷ []))
unfolding read_ended do_read
read_ended-part os s key client e bs more unbroken few low r =
    let (bytes, f, b', g, cap, h) =
      arrives read_once (s.buffers key).readbuf bs e.arrived few low r in
    (
      do_read (with_readbuf s key b') key,
      rw (f, g, more, unbroken),
      do_read-IsReading (with_readbuf s key b') key b' (bs ++ e.arrived)
          (with_readbuf-same s key b') (omega (arith, cap)) h,
      refl,
    )

-- The last byte of a message, the newline, is skipped.
abbrev pub without_last : Str → Str
without_last bs = take (length bs - 1) bs

-- What follows the handling of a message: the buffer is emptied and the next read begins.
abbrev pub next_read : WindowsServer → ℕ → WindowsServer
next_read s key = do_read (with_readbuf s key (clear_readbuf (s.buffers key).readbuf)) key
