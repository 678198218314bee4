-- ===== src/Server.antt =====
-- src/server/server-unix.c: the state of the server, and what it takes from the system.
pub mod Messages
pub mod Spawn
pub mod Jobs
pub mod Lines
pub mod Clients
pub mod Loop
pub mod Limits
pub mod View
pub mod Room
pub mod Started
pub mod Asked
pub mod Schedule
pub mod Enough
pub mod Reaped
pub mod Framing
pub mod Closed
pub mod Interrupted
pub mod Written
pub mod Received
pub mod Accepted
pub mod Unread
pub mod Invariant
pub mod Startup
pub mod Shutdown
use why.Base.{ℕ, Bool, List, Option, if◌then◌else◌, ℤ, ◌==ℤ◌, Outcome}
use why.Text.{Str}
use why.Queue.{Queue}
use why.ArrayList.{PList}
use why.ReadBuf.{ReadBuf}
use why.WriteBuf.{WriteBuf}
use why.Request.{Request}
use why.Proc.{Proc}
use why.Poll.{PollList}

-- `t_client`. Its buffers stand in the server's state, at the client's descriptor: no two clients
-- in the list have the same one.
pub record Client : Type 0 where
  pub fd : ℤ

pub record Buffers : Type 0 where
  pub readbuf : ReadBuf
  pub writebuf : WriteBuf

-- What the child process does before `execvp`: its arguments, its standard input, its limits.
pub record Exec : Type 0 where
  pub argv : List Str
  pub infile : Option Str
  pub outfile : Str
  pub cpu_limit : Option ℕ
  pub address_space : Option ℕ
  pub core_dumps : Bool

-- What the server makes the system do, in order. A child may also end in undefined behaviour.
pub data Effect : Type 0 where
  forked : ℤ → Outcome Exec → Effect
  killed : List ℤ → Effect
  closed : ℤ → Effect

-- The globals of the server.
pub record Server : Type 0 where
  pub clients : PList Client
  pub buffers : ℤ → Buffers
  pub processes : PList Proc
  pub queue : Queue Request
  pub poll : PollList
  pub parallel : ℕ
  pub single_client : Bool
  pub current_dir : Str
  pub forks : ℕ
  pub effects : List Effect

-- The system's answers to the calls of `fork` and `mkstemp`, by the number of processes forked
-- before: a process id, or -1, and the six characters of a file name.
pub record System : Type 0 where
  pub fork : ℕ → ℤ
  pub temp : ℕ → Str

abbrev pub update : (ℤ → Buffers) → ℤ → Buffers → ℤ → Buffers
update f fd b j = if fd ==ℤ j then b else f j
