-- ===== src/Server/View.antt =====
-- What the server's state stands for: its clients, processes and waiting requests.
use why.Base.{
  ==ℤ_iff, subst, ap, ℕ, suc, ◌+◌, ◌^◌, ◌≤◌, ◌<◌, ◌≡◌, inl, inr, true, false, List, [], ◌∷◌, ◌++◌,
  some, arith, length, length-append, Bool-cases, ℤ, ◌==ℤ◌, minus_one, ==ℤ_refl, ok,
}
use why.Text.{Str}
use why.Queue.Refine.{Holds}
use why.ArrayList.Entries.{lookup, Distinct}
use why.ArrayList.Refine.{Holds as ListHolds}
use why.WriteBuf.{WriteBuf, has_write_data}
use why.WriteBuf.Refine.{has_write_data-Sending, Sending, push_write_data-Sending}
use why.Request.{Request, Run, req_run}
use why.Proc.{Proc}
use why.Poll.{PollList, PollFd}
use why.Poll.Refine.{
  asking, length-asking, Holds as PollHolds, poll_list_lookup-Holds, set_pollout-Holds,
}
use why.Poll.Watch.{IsWatched, asking-IsWatched, asking-IsWatched_self}
use why.Server.{Server, Client, Buffers, update}
use why.Server.Messages.{queue_write}

-- A waiting request asks for a process, and its id is short enough for a message.
pub record IsRunnable (r : Request) : Type 0 where
  pub short_id : length r.id < 2 ^ 30
  pub run : Run
  pub is_run : r.body ≡ req_run run

abbrev pub AreRunnable : List Request → Type 0
AreRunnable [] = Unit
AreRunnable (r ∷ rs) = IsRunnable r × AreRunnable rs

-- Some messages are on their way, and so many more may be pushed.
abbrev pub HasRoom : WriteBuf → ℕ → Type 0
HasRoom w room = (ms : List (List ℕ)) × Sending w ms × (length ms + room < 2 ^ 30)

-- No two clients have the same descriptor, and the number of processes that are allowed and the name
-- of the directory are in bounds.
pub record IsSetUp (cs : List (ℤ × Client)) (parallel : ℕ) (dir : Str) : Type 0 where
  pub distinct : Distinct cs
  pub some_jobs : 0 < parallel
  pub few_jobs : parallel ≤ 2 ^ 31
  pub short_dir : length dir < 2 ^ 29

-- The state holds clients, processes and waiting requests, with room for so many more processes and
-- clients, and for so many more messages to each client. A client has one entry in the poll list, which asks for
-- POLLOUT just when the client has messages left; its descriptor is not -1.
pub record IsGood (s : Server) (cs : List (ℤ × Client)) (ps : List (ℤ × Proc)) (rs : List Request)
    (starts room : ℕ) : Type 0 where
  pub set_up : IsSetUp cs s.parallel s.current_dir
  pub clients : ListHolds s.clients cs
  pub procs : ListHolds s.processes ps
  pub queue : Holds s.queue rs
  pub procs_room : length ps + starts < 2 ^ 30
  pub clients_room : length cs + starts < 2 ^ 29
  pub low_room : room < 2 ^ 30
  pub runnable : AreRunnable rs
  pub entries : List PollFd
  pub entries_room : length entries + starts < 2 ^ 29
  pub poll : PollHolds s.poll entries
  pub buffers :
      (k : ℤ) (c : Client) → lookup k cs ≡ some c → (c.fd ≡ k) × HasRoom (s.buffers k).writebuf room
  pub watched :
      (k : ℤ) (c : Client)
      → lookup k cs ≡ some c
      → ((minus_one ==ℤ k) ≡ false) × IsWatched k (has_write_data (s.buffers k).writebuf) entries

-- One message more is on its way to the client, and no other client's buffers change.
pub record Told (old new : ℤ → Buffers) (fd : ℤ) (msg : Str) : Type 0 where
  pub before : List (List ℕ)
  pub was : Sending (old fd).writebuf before
  pub now : Sending (new fd).writebuf (before ++ (msg ∷ []))
  pub readbuf : (new fd).readbuf ≡ (old fd).readbuf
  pub others : (k : ℤ) → (fd ==ℤ k) ≡ false → new k ≡ old k

-- The read buffers stay as they were.
abbrev pub Keeps : (ℤ → Buffers) → (ℤ → Buffers) → Type 0
Keeps old new = (k : ℤ) → (new k).readbuf ≡ (old k).readbuf

pub Told-Keeps : (old new : ℤ → Buffers) (fd : ℤ) (msg : Str) → Told old new fd msg → Keeps old new
Told-Keeps old new fd msg t k = elim (Bool-cases (fd ==ℤ k)) [
  | inl here ↦ subst (λ j. (new j).readbuf ≡ (old j).readbuf) ((==ℤ_iff fd k).0 here) t.readbuf
  | inr other ↦ ap (λ b. b.readbuf) (t.others k other)
]

-- A buffer that a message was put into has one.
has_write_data-sent :
    (w : WriteBuf) (ms : List Str) (msg : Str)
    → Sending w (ms ++ (msg ∷ []))
    → has_write_data w ≡ true
has_write_data-sent w [] msg h = has_write_data-Sending w (msg ∷ []) h
has_write_data-sent w (m ∷ ms) msg h = has_write_data-Sending w (m ∷ (ms ++ (msg ∷ []))) h

less_room : (w : WriteBuf) (room : ℕ) → HasRoom w (suc room) → HasRoom w room
less_room w room (ms, h, l) = (ms, h, omega arith)

-- `queue_write` puts a message on the way to its client, and leaves all else in place.
pub queue_write-IsGood :
    (s : Server) (fd : ℤ) (c : Client) (msg : Str) (cs : List (ℤ × Client)) (ps : List (ℤ × Proc))
    (rs : List Request) (starts room : ℕ)
    → lookup fd cs ≡ some c
    → length msg < 2 ^ 31
    → IsGood s cs ps rs starts (suc room)
    → (bufs : (ℤ → Buffers)) × (poll : PollList) × (queue_write s fd msg
        ≡ ok (record s { buffers = bufs; poll = poll }))
      × Told s.buffers bufs fd msg
      × IsGood (record s { buffers = bufs; poll = poll }) cs ps rs starts room
unfolding queue_write
queue_write-IsGood s fd c msg cs ps rs starts room found short g =
    let (same, (ms, sends, few)) = g.buffers fd c found in
    let (w, e, wr, sends') =
      push_write_data-Sending (s.buffers fd).writebuf msg ms (omega arith) short sends in
    let (p, e', h) = set_pollout-Holds s.poll fd true g.entries g.poll in
    let b : Buffers = record (s.buffers fd) { writebuf = w } in
    (
      update s.buffers fd b,
      p,
      rw (e, poll_list_lookup-Holds s.poll fd g.entries g.poll, e'),
      record {
        before = ms;
        was = sends;
        now = rw (==ℤ_refl fd) sends';
        readbuf = rw (==ℤ_refl fd);
        others = λ k other. rw other;
      },
      record {
        set_up = g.set_up;
        clients = g.clients;
        procs = g.procs;
        queue = g.queue;
        procs_room = g.procs_room;
        clients_room = g.clients_room;
        low_room = omega (arith, g.low_room);
        runnable = g.runnable;
        entries = asking fd true g.entries;
        entries_room = omega (arith, g.entries_room, length-asking fd true g.entries);
        poll = h;
        buffers = λ k c' found'. (
          (g.buffers k c' found').0,
          elim (Bool-cases (fd ==ℤ k)) [
            | inl here ↦
                rw here (ms ++ (msg ∷ []), sends', omega (arith, length-append ms (msg ∷ [])))
            | inr other ↦
                rw other (less_room (s.buffers k).writebuf room ((g.buffers k c' found').1))
          ],
        );
        watched = λ k c' found'. elim (Bool-cases (fd ==ℤ k)) [
          | inl here ↦
              let own : fd ≡ k = (==ℤ_iff fd k).0 here in
              (
                (g.watched k c' found').0,
                rw (here, has_write_data-sent w ms msg sends')
                    (subst (λ j. IsWatched j true (asking fd true g.entries)) own
                      (asking-IsWatched_self fd _ g.entries (g.watched fd c found).1)),
              )
          | inr other ↦ (
            (g.watched k c' found').0,
            rw other (asking-IsWatched fd k _ g.entries other (g.watched k c' found').1),
          )
        ];
      },
    )
