-- ===== src/Server/Invariant.antt =====
-- What holds in every state of the server: the room that is left for what may still arrive, the
-- texts of the processes, and what the read buffers hold.
pub mod Jobs
pub mod Ended
pub mod Requests
pub mod Lines
pub mod Closing
pub mod Prepared
pub mod Reading
pub mod Accepting
pub mod Writing
pub mod Polling
pub mod Entries
pub mod Histories
pub mod Ending
pub mod Rounds
pub mod Outcomes
pub mod Handled
pub mod Answered
use why.Base.{
  ℕ, zero, suc, ◌+◌, ◌-◌, ◌*◌, ◌^◌, ◌≤◌, ◌<◌, ◌≡◌, ◌≢◌, refl, ap, inl, inr, true, false, List, [],
  ◌∷◌, ◌++◌, none, some, arith, length, Bool-cases, if◌then◌else◌, ℤ, ◌==ℤ◌,
}
use why.ArrayList.Entries.{lookup, remove, last_first, cons_second}
use why.ReadBuf.Refine.{Holds}
use why.Request.{Request}
use why.Proc.{Proc}
use why.Server.{Server, System, Client}
use why.Server.View.{IsGood, Keeps}
use why.Server.Unread.{IsUnread}

-- `mkstemp` replaces six characters by others.
pub record IsPosix (os : System) : Type 0 where
  pub temp_length : (n : ℕ) → length (os.temp n) ≡ 6

-- There is room for `n` things more that arrive: bytes, each of which may end a line, or clients. A
-- line that arrives may start a process and lead to two messages.
abbrev pub HasRoomFor : Server → List (ℤ × Client) → List (ℤ × Proc) → List Request → ℕ → Type 0
HasRoomFor s cs ps rs n = IsGood s cs ps rs (length rs + n) (2 * length rs + length ps + 2 * n)

-- The texts of the processes are short enough for a message.
abbrev pub AreNamed : List (ℤ × Proc) → Type 0
AreNamed [] = Unit
AreNamed ((k, p) ∷ ps) = (length p.task_id + length p.outfile < 2 ^ 31 - 100) × AreNamed ps

-- A client's read buffer holds part of a line.
pub record IsReceiving (s : Server) (k : ℤ) (n : ℕ) : Type 0 where
  pub part : List ℕ
  pub holds : Holds (s.buffers k).readbuf part
  pub unread : IsUnread part
  pub short : length part + n < 2 ^ 29
  pub low : (s.buffers k).readbuf.capacity < 2 ^ 60

-- The invariant: `n` things more may arrive.
pub record Invariant (s : Server) (n : ℕ) : Type 0 where
  pub clients : List (ℤ × Client)
  pub procs : List (ℤ × Proc)
  pub queue : List Request
  pub good : HasRoomFor s clients procs queue n
  pub named : AreNamed procs
  pub receiving : (k : ℤ) (c : Client) → lookup k clients ≡ some c → IsReceiving s k n

pub IsReceiving-keeps :
    (s s' : Server) (k : ℤ) (n m : ℕ)
    → m ≤ n
    → (s'.buffers k).readbuf ≡ (s.buffers k).readbuf
    → IsReceiving s k n
    → IsReceiving s' k m
IsReceiving-keeps s s' k n m fewer same r = record {
  part = r.part;
  holds = rw same (r.holds);
  unread = r.unread;
  short = omega (arith, fewer, r.short);
  low = rw same (r.low);
}

pub AreNamed-append :
    (ps : List (ℤ × Proc)) (k : ℤ) (p : Proc)
    → AreNamed ps
    → length p.task_id + length p.outfile < 2 ^ 31 - 100
    → AreNamed (ps ++ ((k, p) ∷ []))
AreNamed-append [] k p h l = (l, tt)
AreNamed-append ((j, q) ∷ ps) k p h l = (h.0, AreNamed-append ps k p h.1 l)

pub AreNamed-lookup :
    (k : ℤ) (p : Proc) (ps : List (ℤ × Proc))
    → AreNamed ps
    → lookup k ps ≡ some p
    → length p.task_id + length p.outfile < 2 ^ 31 - 100
unfolding lookup
AreNamed-lookup k p [] h found = cc
AreNamed-lookup k p ((j, q) ∷ ps) h found = elim (Bool-cases (j ==ℤ k)) [
  | inl here ↦ let e : q ≡ p = (let f = rw here at found in cc) in rw e at h.0
  | inr later ↦ AreNamed-lookup k p ps h.1 (rw later at found)
]

AreNamed-cons_second :
    (x : ℤ × Proc) (ps : List (ℤ × Proc)) → AreNamed (x ∷ ps) → AreNamed (cons_second x ps)
unfolding cons_second
AreNamed-cons_second (k, p) [] h = h
AreNamed-cons_second (k, p) ((j, q) ∷ ps) h = (h.1.0, (h.0, h.1.1))

AreNamed-last_first : (ps : List (ℤ × Proc)) → AreNamed ps → AreNamed (last_first ps)
unfolding last_first
AreNamed-last_first [] h = tt
AreNamed-last_first ((k, p) ∷ ps) h =
    AreNamed-cons_second (k, p) (last_first ps) (h.0, AreNamed-last_first ps h.1)

pub AreNamed-remove : (k : ℤ) (ps : List (ℤ × Proc)) → AreNamed ps → AreNamed (remove k ps)
unfolding remove
AreNamed-remove k [] h = tt
AreNamed-remove k ((j, q) ∷ ps) h = elim (Bool-cases (j ==ℤ k)) [
  | inl here ↦ rw here (AreNamed-last_first ps h.1)
  | inr later ↦ rw later (h.0, AreNamed-remove k ps h.1)
]
