-- ===== src/Server/Messages.antt =====
-- The messages to the clients: `queue_write`, `send_started_msg_to_client`, `send_msg_to_client`.
use why.Base.{
  ℕ, zero, suc, ◌+◌, ◌-◌, ◌/◌, ◌%◌, Bool, true, [], ◌∷◌, ◌++◌, ltb, leb, ◌==◌, length,
  if◌then◌else◌, ℤ, Outcome, ok, stop, exits, ◌>>=◌,
}
use why.Text.{Str, codes}
use why.WriteBuf.{push_write_data}
use why.Poll.{poll_list_lookup, set_pollout}
use why.Server.{Server, update}

unfoldable pub queue_write : Server → ℤ → Str → Outcome Server
queue_write s fd msgbuf = do
  w ← push_write_data (s.buffers fd).writebuf msgbuf
  entry ← poll_list_lookup s.poll fd
  poll ← set_pollout s.poll entry true
  ok (record s {
    buffers = update s.buffers fd (record (s.buffers fd) { writebuf = w });
    poll = poll;
  })

-- "S;%s\n"
abbrev pub started_text : Str → Str
started_text id = codes "S;" ++ (id ++ (10 ∷ []))

-- `snprintf` returns the length of the text; `shutdown_with_msg` exits with 1.
unfoldable pub send_started_msg_to_client : Server → ℤ → Str → Outcome Server
send_started_msg_to_client s fd id =
    let len = length id + 4 in
    if length (started_text id) == len - 1
    then queue_write s fd (started_text id)
    else stop (exits 1)

-- "%d" of a number that is not negative, with at most so many digits.
unfoldable pub decimal : ℕ → ℕ → Str
decimal zero n = []
decimal (suc digits) n =
    let front = decimal digits (n / 10) in
    if ltb n 10 then (b'0' + n) ∷ [] else front ++ ((b'0' + n % 10) ∷ [])

-- An `int` has at most ten digits.
abbrev pub int_text : ℕ → Str
int_text n = decimal 10 n

-- "F;%s;%d;%.6f;%d;%s\n". The text of the time is that of "%.6f".
abbrev pub finished_text : Str → ℕ → Str → Bool → Str → Str
finished_text id exitcode cpu_time timeout outfile =
    codes "F;"
    ++ (id
        ++ (codes ";"
            ++ (int_text exitcode
                ++ (codes ";"
                    ++ (cpu_time
                        ++ (codes ";"
                            ++ ((if timeout then codes "1" else codes "0")
                                ++ (codes ";" ++ (outfile ++ (10 ∷ []))))))))))

-- The room that is allocated for the message.
abbrev pub finished_len : Str → Str → ℕ
finished_len id outfile = length id + 3 + 27 + (length outfile + 1)

unfoldable pub send_msg_to_client : Server → ℤ → Str → ℕ → Str → Bool → Str → Outcome Server
send_msg_to_client s fd id exitcode cpu_time timeout outfile =
    let msgbuf = finished_text id exitcode cpu_time timeout outfile in
    if leb (finished_len id outfile) (length msgbuf)
    then stop (exits 1)
    else queue_write s fd msgbuf
