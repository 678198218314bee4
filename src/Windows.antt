-- ===== src/Windows.antt =====
-- src/server/server-win.c: the state of the server on Windows, and what it takes from the system.
-- Reads and writes are started, and an event of the completion port tells that they have ended.
pub mod CommandLine
pub mod Keys
pub mod Messages
pub mod Jobs
pub mod Clients
pub mod Loop
pub mod Pump
pub mod Reading
pub mod Sockets
pub mod Listening
pub mod Reaped
use why.Base.{ℕ, Bool, List, Option, ℤ}
use why.Base.Memory.{Block}
use why.Text.{Str}
use why.Queue.{Queue}
use why.ArrayList.{PList}
use why.Request.{Request}
use why.Proc.{Proc}
use why.Server.{Buffers}

-- `t_client`, whose buffers stand in the server's state at the client's key. What a completed
-- operation was, its `t_conn_data`, comes with the event.
pub record Client : Type 0 where
  pub handle : ℤ

-- The limits of a job object: user time in ticks of 100 ns, memory in bytes.
pub record JobLimits : Type 0 where
  pub time : Option ℤ
  pub memory : Option ℕ

-- What `CreateProcess` starts, and with which files and limits.
pub record Launch : Type 0 where
  pub command : Str
  pub infile : Option Str
  pub outfile : Str
  pub limits : JobLimits

-- What the server makes the system do, in order. Clients and processes are named by their keys.
pub data Effect : Type 0 where
  launched : Launch → Effect
  reading : ℕ → Effect
  writing : ℕ → Str → Effect
  killed : List ℤ → Effect
  closed : ℤ → Effect

-- The globals, and how often the system was asked for a pipe or a process.
pub record WindowsServer : Type 0 where
  pub clients : PList Client
  pub buffers : ℕ → Buffers
  pub processes : PList Proc
  pub queue : Queue Request
  pub server_key : Block ℕ
  pub server_socket : Block ℤ
  pub gen_key : ℕ
  pub parallel : ℕ
  pub single_client : Bool
  pub pipes : ℕ
  pub launches : ℕ
  pub effects : List Effect

-- The answers of the system, by the number of calls before: the handle of a named pipe, if there is
-- one, and whether it is being connected; a job object and a temporary file, if there are; and
-- whether the calls that set limits, create, assign and associate a process succeed. The last two
-- are constants of its header files.
pub record System : Type 0 where
  pub pipe : ℕ → Option ℤ
  pub connects : ℕ → Bool
  pub job : ℕ → Option ℤ
  pub temp : ℕ → Option Str
  pub limited : ℕ → Bool
  pub created : ℕ → Bool
  pub assigned : ℕ → Bool
  pub associated : ℕ → Bool
  pub error_not_enough_quota : ℕ
  pub status_quota_exceeded : ℕ
