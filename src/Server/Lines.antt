-- ===== src/Server/Lines.antt =====
-- `handle_msg`: the lines in a client's read buffer, each a request.
use why.Base.{
  ℕ, zero, suc, ◌+◌, ◌-◌, ◌%◌, ◌^◌, false, [], ◌∷◌, ◌++◌, Option, none, some, ltb, ◌==◌, length,
  take, drop, if◌then◌else◌, ℤ, pos, negsuc, Outcome, ok, ◌>>=◌,
}
use why.Base.Memory.{Block, load}
use why.Text.{Str, codes}
use why.Queue.{queue_push}
use why.ArrayList.{list_lookup, list_length}
use why.ReadBuf.{have_taken}
use why.Request.{Request, Body, req_run, req_interrupt}
use why.Request.Parse.{parse_request}
use why.Request.Pending.{remove_from_queue}
use why.Proc.{kill_processes}
use why.Server.{Server, System, killed, update}
use why.Server.Messages.{send_msg_to_client}
use why.Server.Jobs.{run_request, deref}

-- The callback for a request that is taken out of the queue.
unfoldable pub handle_queue_remove : Server → Request → Outcome Server
handle_queue_remove s r = do
  found ← list_lookup s.clients r.key
  client ← deref found
  send_msg_to_client s client.fd r.id 0 (codes "0.000000") false []

-- The first `n` bytes of a block.
unfoldable pub bytes_from : Block ℕ → ℕ → ℕ → Outcome Str
bytes_from b zero i = ok []
bytes_from b (suc n) i = do c ← load b i; cs ← bytes_from b n (i + 1); ok (c ∷ cs)

-- The conversion of a `size_t` to `int` keeps 32 bits.
unfoldable pub int_of : ℕ → ℤ
int_of n = let low = n % 2 ^ 32 in if ltb low (2 ^ 31) then pos low else negsuc (2 ^ 32 - 1 - low)

-- A loop from 0 that stops at a number below 0 has no round.
abbrev pub rounds_to : ℤ → ℕ
rounds_to (pos n) = n
rounds_to (negsuc n) = 0

-- Where the inner loop stops: at a newline, or behind the last byte.
unfoldable pub newline_index : Str → ℕ → ℕ
newline_index [] i = i
newline_index (c ∷ cs) i = let next = newline_index cs (i + 1) in if c == 10 then i else next

module _ (os : System) where
  unfoldable pub interrupt : Server → ℤ → Str → Outcome Server
  interrupt s key id = do
    removed ← remove_from_queue handle_queue_remove s.queue key (some id) s
    pids ← kill_processes (removed.1).processes key (some id)
    ok (record (removed.1) {
      queue = removed.0;
      effects = (removed.1).effects ++ (killed pids ∷ []);
    })

  handle_body : Server → ℤ → Request → Body → Outcome Server
  handle_body s key r (req_run run) =
      if ltb (list_length s.processes) s.parallel
      then run_request os s r
      else (do q ← queue_push s.queue r; ok (record s { queue = q }))
  handle_body s key r req_interrupt = interrupt s key r.id

  handle_parsed : Server → ℤ → Option Request → Outcome Server
  handle_parsed s key none = ok s
  handle_parsed s key (some r) = handle_body s key r r.body

  unfoldable pub handle_line : Server → ℤ → Str → Outcome Server
  unfolding handle_body handle_parsed
  handle_line s key line = do
    parsed ← parse_request line key s.parallel
    handle_parsed (record s { parallel = parsed.0 }) key parsed.1

  -- The outer loop, with a bound on its rounds; it returns `old`.
  unfoldable pub lines_from : ℕ → Str → ℤ → ℕ → ℕ → Server → Outcome (ℕ × Server)
  lines_from zero buf key cur old s = ok (old, s)
  lines_from (suc rounds) buf key cur old s =
      let end = newline_index (drop cur buf) cur in
      let go = lines_from rounds buf key (end + 1) (end + 1) in
      if ltb cur (length buf)
      then (if end == length buf
          then ok (old, s)
          else (do s' ← handle_line s key (take (end - old) (drop old buf)); go s'))
      else ok (old, s)

  unfoldable pub handle_msg : Server → ℤ → Outcome Server
  handle_msg s fd = do
    let max = int_of (s.buffers fd).readbuf.len
    buf ← bytes_from (s.buffers fd).readbuf.bytes (rounds_to max) 0
    r ← lines_from (length buf) buf fd 0 0 s
    let s' = r.1
    if ltb 0 r.0
        then (do
          b ← have_taken (s'.buffers fd).readbuf r.0
          ok (record s' {
            buffers = update s'.buffers fd (record (s'.buffers fd) { readbuf = b });
          }))
        else ok s'
