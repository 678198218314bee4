-- ===== src/Server/Invariant/Answered.antt =====
-- How the handling of any entry of the poll list may end.
use why.Base.{
  ℕ, ◌≤◌, length, ◌≡◌, ◌⊎◌, Bool, true, false, not, List, ◌∷◌, ◌++◌, Option, none, some,
  if◌then◌else◌, ◌==ℤ◌, Outcome, stop, aborts,
}
use why.ArrayList.Entries.{lookup}
use why.Poll.{PollFd, some_event}
use why.Text.{Str}
use why.Server.{Server, Client}
use why.Server.Framing.{split_lines}
use why.Server.Loop.{Answers, Special, bytes_read, only_pollin_set}
use why.Server.Invariant.{Invariant}
use why.Server.Invariant.Ending.{Ends}
use why.WriteBuf.Refine.{Sending}
use why.Server.Invariant.Outcomes.{AreKnown, AreReadable}
use why.Server.Invariant.Handled.{AreTaken}

-- Whether an assertion fails in `prepare_write`, for the entry of a client: a write before has failed.
abbrev pub client_fails : Server → PollFd → Option Client → Bool
client_fails s x none = false
client_fails s x (some c) =
    if x.revents.pollerr
    then false
    else if x.revents.pollout
    then (s.buffers x.fd).writebuf.is_writing
    else false

-- Whether an assertion fails for the entry `x`: `server_sock` has an event that is not POLLIN alone,
-- or an assertion fails for a client.
abbrev pub fails : Special → Server → PollFd → Option Client → Bool
fails special s x client =
    if not (some_event x.revents)
    then false
    else if x.fd ==ℤ special.cpipe
    then false
    else if x.fd ==ℤ special.server_sock
    then not (only_pollin_set x.revents)
    else client_fails s x client

-- The server aborts if the test is true, and otherwise the code ends well.
abbrev pub EndsUnless : Bool → Server → Outcome Server → Type 0
EndsUnless test s o = ((test ≡ true) × (o ≡ stop aborts)) ⊎ ((test ≡ false) × Ends s o)

-- What the system and the clients keep to when the entry `x` is handled. A line can be read if its
-- numbers are in the range of `int`, and with `usestdin` there is an argument.
pub record IsSound (s : Server) (m : ℕ) (v : Invariant s m) (x : PollFd) (a : Answers)
    : Type 0 where
  pub known : AreKnown v.procs a.waited
  pub asked : x.revents.pollout ≡ true → x.events.pollout ≡ true
  pub few :
      (first : Str) (others : List Str) (k : ℕ)
      → Sending (s.buffers x.fd).writebuf (first ∷ others)
      → a.written ≡ some k
      → k ≤ length first
  pub readable :
      (c : Client) (found : lookup x.fd v.clients ≡ some c)
      → AreReadable x.fd (split_lines ((v.receiving x.fd c found).part ++ bytes_read a.read)).0
  pub taken :
      (c : Client) (found : lookup x.fd v.clients ≡ some c)
      → AreTaken ((v.receiving x.fd c found).part ++ bytes_read a.read)
