-- ===== src/Server/Loop.antt =====
-- The main loop of `main`: what is done in front of each round, and for each entry of the poll list.
use why.Base.{
  ℕ, zero, suc, ◌+◌, Bool, ◌&&◌, not, List, [], Option, none, some, length, if◌then◌else◌, ℤ, ◌==ℤ◌,
  Outcome, ok, stop, exits, ◌>>=◌, ◌>>◌, assert,
}
use why.Base.Memory.{Block, load, store}
use why.ArrayList.{list_lookup}
use why.Poll.{Events, PollFd, some_event, poll_list_clean}
use why.Server.{Server, System, Client}
use why.Server.Jobs.{Waited, schedule_new_jobs, handle_child_events}
use why.Server.Clients.{server_accept_client, close_client, read_on_client, write_to_client}

-- What the system answers when an entry is handled. `drained` tells whether `read` took a byte out
-- of `cpipe[0]`; an interrupted call is made again, so that its last answer counts.
pub record Answers : Type 0 where
  pub drained : Bool
  pub waited : List Waited
  pub accepted : Option ℤ
  pub read : Option (List ℕ)
  pub written : Option ℕ

-- The descriptors that are no client's: `cpipe[0]` and `server_sock`.
pub record Special : Type 0 where
  pub cpipe : ℤ
  pub server_sock : ℤ

-- `poll` writes the `revents` of so many entries.
unfoldable pub poll_from : (ℕ → Events) → ℕ → ℕ → Block PollFd → Outcome (Block PollFd)
poll_from revents zero i list = ok list
poll_from revents (suc rounds) i list = do
  e ← load list i
  list' ← store list i (record e { revents = revents i })
  poll_from revents rounds (i + 1) list'

-- `poll` returns the events, or fails for another reason than a signal.
polled : Option (ℕ → Events) → Outcome (ℕ → Events)
polled none = stop (exits 1)
polled (some revents) = ok revents

unfoldable pub only_pollin_set : Events → Bool
only_pollin_set e = e.pollin && (not e.pollout && (not e.pollerr && not e.other))

module _ (os : System) (special : Special) where
  -- From the top of the loop to the first entry.
  unfoldable pub begin_round : Server → Option (ℕ → Events) → Outcome Server
  unfolding polled
  begin_round s answer = do
    s₁ ← schedule_new_jobs os s
    poll ← poll_list_clean s₁.poll
    revents ← polled answer
    list ← poll_from revents poll.poll_num 0 poll.poll_list
    ok (record s₁ { poll = record poll { poll_list = list } })

  unfoldable pub serve_client : Server → ℕ → Events → Answers → Option Client → Outcome Server
  serve_client s i revents a none = ok s
  serve_client s i revents a (some client) =
      if revents.pollerr
      then close_client s client.fd
      else if revents.pollout
      then write_to_client s client.fd i a.written
      else if revents.pollin
      then read_on_client os s client.fd a.read
      else ok s

  -- What is done for the entry at the place `i`.
  unfoldable pub handle_entry : Server → ℕ → Answers → Outcome Server
  unfolding serve_client only_pollin_set
  handle_entry s i a = do
    cur ← load s.poll.poll_list i
    if not (some_event cur.revents)
        then ok s
        else if cur.fd ==ℤ special.cpipe
        then (if a.drained then handle_child_events s a.waited else stop (exits 1))
        else if cur.fd ==ℤ special.server_sock
        then (do assert (only_pollin_set cur.revents); server_accept_client s a.accepted)
        else (do client ← list_lookup s.clients cur.fd; serve_client s i cur.revents a client)

-- Where the loop is: at its top, or in front of an entry.
pub data Place : Type 0 where
  top : Place
  entry : ℕ → Place

-- The bytes that arrive from a client, and whether one comes.
abbrev pub bytes_read : Option (List ℕ) → List ℕ
bytes_read none = []
bytes_read (some bytes) = bytes

abbrev pub clients_accepted : Option ℤ → ℕ
clients_accepted none = 0
clients_accepted (some fd) = 1

abbrev pub arrived : Answers → ℕ
arrived a = length (bytes_read a.read) + clients_accepted a.accepted
