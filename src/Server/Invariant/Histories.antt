-- ===== src/Server/Invariant/Histories.antt =====
-- The histories of the main loop, and the invariant in all of them.
use why.Base.{ℕ, ◌+◌, ◌≡◌, true, false, Option, arith, ltb, ltb→lt, ok}
use why.Poll.{Events}
use why.Server.{Server, System}
use why.Server.Loop.{Answers, Special, Place, top, entry, arrived, begin_round, handle_entry}
use why.Server.Invariant.{IsPosix, Invariant}
use why.Server.Invariant.Polling.{some_entry, begin_round-Invariant}
use why.Server.Invariant.Entries.{IsAllowed, Invariant-weaken, entry-Invariant}

module _ (os : System) (special : Special) where
  -- A step of the loop that returns, with what arrives in it.
  pub data Step : Server → Place → Server → Place → ℕ → Type 0 where
    begins :
        {s s' : Server} (answer : Option (ℕ → Events))
        → begin_round os special s answer ≡ ok s'
        → Step s top s' (entry 0) 0
    handles :
        {s s' : Server} {i : ℕ} (a : Answers)
        → ltb i s.poll.poll_num ≡ true
        → IsAllowed s a
        → handle_entry os special s i a ≡ ok s'
        → Step s (entry i) s' (entry (i + 1)) (arrived a)
    ends : {s : Server} {i : ℕ} → ltb i s.poll.poll_num ≡ false → Step s (entry i) s top 0

  -- What may be reached from a state, and how much may still arrive there.
  pub data History (start : Server) (limit : ℕ) : Server → Place → ℕ → Type 0 where
    at_start : History start limit start top limit
    next :
        {s s' : Server} {p p' : Place} {m n : ℕ}
        → History start limit s p (m + n)
        → Step s p s' p' m
        → History start limit s' p' n

-- A step keeps the invariant, with room for what arrives in it.
Step-Invariant :
    (os : System) (posix : IsPosix os) (special : Special) (s s' : Server) (p p' : Place) (m n : ℕ)
    → Step os special s p s' p' m
    → Invariant s (m + n)
    → Invariant s' n
Step-Invariant os posix special s s' top p' m n (begins answer ran) v =
    begin_round-Invariant os posix special s s' answer n
      (Invariant-weaken s (0 + n) n v (omega arith)).0 ran
Step-Invariant os posix special s s' (entry i) p' m n (handles a within allowed ran) v =
    let (x, at) =
      some_entry v.good.entries i
        (omega (arith, ltb→lt i s.poll.poll_num within, v.good.poll.count)) in
    entry-Invariant os posix special s s' i a n v allowed x at ran
Step-Invariant os posix special s s' (entry i) p' m n (ends out) v =
    (Invariant-weaken s (0 + n) n v (omega arith)).0

-- Every state that the loop reaches is well formed, if the one it starts from is: the array lists,
-- the queue, the poll list and the buffers hold what they should, no two clients have the same
-- descriptor, each has exactly one entry in the poll list, which asks for POLLOUT just when messages
-- are left for it, and its read buffer holds no complete line. This is about the steps that return,
-- as long as no more bytes and clients arrive than the start has room for; the system answers as it
-- is documented to.
pub History-Invariant :
    (os : System) (special : Special) (start : Server) (limit : ℕ)
    → IsPosix os
    → Invariant start limit
    → (s : Server) (p : Place) (n : ℕ) → History os special start limit s p n
    → Invariant s n
History-Invariant os special start limit posix v s p n at_start = v
History-Invariant os special start limit posix v s' p' n (next {s = s} {p = p} {m = m} h step) =
    Step-Invariant os posix special s s' p p' m n step
      (History-Invariant os special start limit posix v s p (m + n) h)
