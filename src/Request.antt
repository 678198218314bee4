-- ===== src/Request.antt =====
-- src/server/request.h and request.c: what a client asks for, and how a line is read as a request.
pub mod Parse
pub mod Fields
pub mod Refine
pub mod Meaning
pub mod Pending
pub mod Shape
use why.Base.{ℕ, Bool, List, ℤ}
use why.Text.{Str}

-- What a request of each `request_type` holds; `numargs` is the number of arguments.
pub record Run : Type 0 where
  pub timeout : ℤ
  pub memlimit : ℕ
  pub usestdin : Bool
  pub cmd : Str
  pub args : List Str

pub data Body : Type 0 where
  req_run : Run → Body
  req_interrupt : Body

-- `request`
pub record Request : Type 0 where
  pub key : ℤ
  pub id : Str
  pub body : Body
