-- ===== src/Windows/Pump.antt =====
-- The messages to a client: whenever some are left, a write is under way, and its end starts the next.
use why.Base.{
  leb, ℕ, ◌+◌, ◌^◌, ◌≤◌, ◌<◌, ◌≡◌, refl, ap, ◌∙◌, Bool, true, false, List, [], ◌∷◌, ◌++◌, ◌&&◌, not,
  append_assoc, map, length, Option, none, some, Outcome, ok, ◌>>=◌, arith,
}
use why.Text.{Str}
use why.WriteBuf.{WriteBuf, has_write_data, can_write}
use why.WriteBuf.Refine.{
  Sending, idle, busy, written, push_write_data-Sending, prepare_write-Sending,
  have_written-Sending,
}
use why.Server.Messages.{finished_text, finished_len, int_text}
use why.Server.Limits.{length-finished_text, length-decimal-le}
use why.Windows.{WindowsServer, System, writing}
use why.Windows.Messages.{
  send_msg_to_client, update, try_write, started_write, try_write_client, send,
}
use why.Windows.Loop.{write_ended}

abbrev pub is_cons {ℓ} : {A : Type ℓ} → List A → Bool
is_cons [] = false
is_cons (x ∷ xs) = true

abbrev pub first {ℓ} : {A : Type ℓ} → List A → Option A
first [] = none
first (x ∷ xs) = some x

-- The messages `ms` are left, the first one perhaps in part, and a write is under way if there are any.
pub record Pumped (w : WriteBuf) (ms : List Str) : Type 0 where
  pub sending : Sending w ms
  pub under_way : w.is_writing ≡ is_cons ms

has_write_data-busy :
    (w : WriteBuf) (s : Str)
    → w.message ≡ some s
    → w.is_writing ≡ false
    → (has_write_data w && can_write w) ≡ true
unfolding has_write_data can_write
has_write_data-busy w s e still = rw (e, still)

has_write_data-idle : (w : WriteBuf) → w.message ≡ none → (has_write_data w && can_write w) ≡ false
unfolding has_write_data
has_write_data-idle w e = rw e

can_write-busy : (w : WriteBuf) → w.is_writing ≡ true → (has_write_data w && can_write w) ≡ false
unfolding can_write
can_write-busy w e = ap (λ b. has_write_data w && not b) e ∙ and_false (has_write_data w)
  where
    and_false : (b : Bool) → (b && false) ≡ false
    and_false true = refl
    and_false false = refl

try_write-starts :
    (w : WriteBuf) (ms : List Str)
    → w.is_writing ≡ false
    → Sending w ms
    → (w' : WriteBuf) × (try_write w ≡ ok (first ms, w')) × Pumped w' ms
unfolding try_write
try_write-starts w [] still (idle nothing no_write h) = (
  w,
  rw (has_write_data-idle w nothing),
  record { sending = idle nothing no_write h; under_way = still },
)
try_write-starts w [] still (busy s q c h short e) = absurd (cc)
try_write-starts w (m ∷ ms) still (busy s q c h short e) =
    let (e', sent) = prepare_write-Sending w m ms still (busy s q c h short e) in
    (
      record w { is_writing = true },
      rw (has_write_data-busy w s c.message still, e'),
      record { sending = sent; under_way = refl },
    )

try_write-waits : (w : WriteBuf) → w.is_writing ≡ true → try_write w ≡ ok (none, w)
unfolding try_write
try_write-waits w writes = rw (can_write-busy w writes)

-- What the server's state is after a write buffer has changed and perhaps a write was started.
abbrev pub with_writebuf : WindowsServer → ℕ → WriteBuf → Option Str → WindowsServer
with_writebuf s key w started = record s {
  buffers = update s.buffers key (record (s.buffers key) { writebuf = w });
  effects = s.effects ++ started_write key started;
}

-- A message that finds no other starts a write.
abbrev pub first_of : List Str → Str → Option Str
first_of [] m = some m
first_of (n ∷ ms) m = none

-- A message to a client is put behind those that are left, and is written at once if there are none.
pub send-Pumped :
    (s : WindowsServer) (key : ℕ) (m : Str) (ms : List Str)
    → length ms < 2 ^ 30
    → length m < 2 ^ 31
    → Pumped (s.buffers key).writebuf ms
    → (w : WriteBuf) × (send s key m ≡ ok (with_writebuf s key w (first_of ms m)))
      × Pumped w (ms ++ (m ∷ []))
unfolding send try_write_client
send-Pumped s key m [] few low p =
    let (w, e, same, sent) =
      push_write_data-Sending (s.buffers key).writebuf m [] few low p.sending in
    let (w', e', p') = try_write-starts w (m ∷ []) (same ∙ p.under_way) sent in (w', rw (e, e'), p')
send-Pumped s key m (n ∷ ms) few low p =
    let (w, e, same, sent) =
      push_write_data-Sending (s.buffers key).writebuf m (n ∷ ms) few low p.sending in
    (
      w,
      rw (e, try_write-waits w (same ∙ p.under_way)),
      record { sending = sent; under_way = same ∙ p.under_way },
    )

-- The end of a write takes the written bytes off, and what is left then is written.
pub write_ended-Pumped :
    (os : System) (s : WindowsServer) (key n : ℕ) (m : Str) (ms : List Str)
    → n ≤ length m
    → Pumped (s.buffers key).writebuf (m ∷ ms)
    → (w : WriteBuf) × (write_ended os s key n
        ≡ ok (with_writebuf s key w (first (written n m ms))))
      × Pumped w (written n m ms)
unfolding write_ended try_write_client
write_ended-Pumped os s key n m ms few p =
    let (w, e, still, sent) =
      have_written-Sending (s.buffers key).writebuf n m ms p.under_way few p.sending in
    let (w', e', p') = try_write-starts w (written n m ms) still sent in (w', rw (e, e'), p')

-- The ends of several writes, one after another.
unfoldable pub writes_ended : System → WindowsServer → ℕ → List ℕ → Outcome WindowsServer
writes_ended os s key [] = ok s
writes_ended os s key (n ∷ ns) = do s' ← write_ended os s key n; writes_ended os s' key ns

written-whole : (m : Str) (ms : List Str) → written (length m) m ms ≡ ms
written-whole m ms = ground arith

with_writebuf-same :
    (s : WindowsServer) (key : ℕ) (w : WriteBuf) (o : Option Str)
    → ((with_writebuf s key w o).buffers key).writebuf ≡ w
with_writebuf-same s key w o = ground arith

-- The end of a write that took the whole message.
write_ended-whole :
    (os : System) (s : WindowsServer) (key : ℕ) (m : Str) (ms : List Str)
    → Pumped (s.buffers key).writebuf (m ∷ ms)
    → (s' : WindowsServer) × (write_ended os s key (length m) ≡ ok s')
      × Pumped (s'.buffers key).writebuf ms
      × (s'.effects ≡ s.effects ++ started_write key (first ms))
write_ended-whole os s key m ms p =
    let (w, e, p') = write_ended-Pumped os s key (length m) m ms (omega arith) p in
    let o = first (written (length m) m ms) in
    (
      with_writebuf s key w o,
      e,
      rw (with_writebuf-same s key w o) (rw⁻¹ (written-whole m ms) p'),
      ap (λ l. s.effects ++ started_write key (first l)) (written-whole m ms),
    )

-- Whenever a client has messages left and every write that is started ends with all its bytes
-- written, one end for each message, then the messages are written in their order, whole, and none is
-- left: a write is under way as long as there are any. The first of them is being written already.
pub writes_ended-all :
    (os : System) (s : WindowsServer) (key : ℕ) (m : Str) (ms : List Str)
    → Pumped (s.buffers key).writebuf (m ∷ ms)
    → (s' : WindowsServer) × (writes_ended os s key (map length (m ∷ ms)) ≡ ok s')
      × Pumped (s'.buffers key).writebuf []
      × (s'.effects ≡ s.effects ++ map (writing key) ms)
unfolding writes_ended
writes_ended-all os s key m [] p =
    let (s', e, p', f) = write_ended-whole os s key m [] p in (s', rw e, p', f)
writes_ended-all os s key m (n ∷ ms) p =
    let (s₁, e, p₁, f) = write_ended-whole os s key m (n ∷ ms) p in
    let (s', e', p', f') = writes_ended-all os s₁ key n ms p₁ in
    (s', rw e e', p', f' ∙ ap (λ l. l ++ map (writing key) ms) f ∙ append_assoc s.effects _ _)

-- The message of an end fits in the room that is allocated for it, whatever the exit code is, if the
-- time takes at most twelve characters.
pub send_msg_to_client-Pumped :
    (s : WindowsServer) (key : ℕ) (id : Str) (exitcode : ℕ) (cpu_time : Str) (timeout : Bool)
    (outfile : Str) (ms : List Str)
    → length cpu_time ≤ 12
    → length id + length outfile < 2 ^ 30
    → length ms < 2 ^ 30
    → Pumped (s.buffers key).writebuf ms
    → let text = finished_text id exitcode cpu_time timeout outfile in
      (w : WriteBuf) × (send_msg_to_client s key id exitcode cpu_time timeout outfile
        ≡ ok (with_writebuf s key w (first_of ms text)))
      × Pumped w (ms ++ (text ∷ []))
unfolding send_msg_to_client
send_msg_to_client-Pumped s key id exitcode cpu_time timeout outfile ms time short few p =
    let text = finished_text id exitcode cpu_time timeout outfile in
    let (w, e, p') = send-Pumped s key text ms few (omega (arith, size, digits)) p in
    (w, rw fits e, p')
  where
    size :
        length (finished_text id exitcode cpu_time timeout outfile)
        ≡ length id + length (int_text exitcode) + length cpu_time + length outfile + 8
    size = length-finished_text id exitcode cpu_time timeout outfile

    digits : length (int_text exitcode) ≤ 10
    digits = length-decimal-le 10 exitcode

    fits :
        leb (finished_len id outfile) (length (finished_text id exitcode cpu_time timeout outfile))
        ≡ false
    fits = ground (arith, size, digits)
