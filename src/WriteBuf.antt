-- ===== src/WriteBuf.antt =====
-- src/server/writebuf.h and writebuf.c: the messages on their way to a client.
-- A message is a C string, the list of its bytes without the terminator.
pub mod Refine
pub mod Freed
use why.Base.{
  ℕ, zero, suc, ◌+◌, ◌-◌, ◌^◌, Bool, true, false, not, List, [], Option, none, some, ltb, leb,
  length, drop, if◌then◌else◌, Outcome, ok, stop, undefined, ◌>>=◌, ◌>>◌, assert, require,
}
use why.Queue.{Queue, init_queue, queue_pop, queue_push, queue_is_empty, free_queue}

-- `t_writebuf`; the field `message` is the C field `data`, and `NULL` is `none`.
pub record WriteBuf : Type 0 where
  pub message : Option (List ℕ)
  pub len : ℕ
  pub pointer : ℕ
  pub is_writing : Bool
  pub writequeue : Queue (List ℕ)

-- `b->len = strlen(s)`: the conversion to `int` keeps the value only below `INT_MAX + 1`.
strlen_int : List ℕ → Outcome ℕ
strlen_int s = do require (ltb (length s) (2 ^ 31)); ok (length s)

unfoldable pub init_writebuf : ℕ → Outcome WriteBuf
init_writebuf capacity = do
  q ← init_queue capacity
  ok (record { message = none; len = 0; pointer = 0; is_writing = false; writequeue = q })

unfoldable pub can_write : WriteBuf → Bool
can_write b = not b.is_writing

unfoldable pub has_write_data : WriteBuf → Bool
has_write_data b = elim b.message [ none ↦ false | some s ↦ true ]

-- What stands at `b->data + b->pointer`.
rest_of : Option (List ℕ) → ℕ → Outcome (List ℕ)
rest_of none p = stop undefined
rest_of (some s) p = ok (drop p s)

-- The bytes at the returned pointer, and the size that is passed back.
unfoldable pub prepare_write : WriteBuf → Outcome (List ℕ × ℕ × WriteBuf)
unfolding can_write has_write_data rest_of
prepare_write b = do
  assert (can_write b)
  assert (has_write_data b)
  bytes ← rest_of b.message b.pointer
  ok (bytes, b.len - b.pointer, record b { is_writing = true })

load_message : Outcome (List ℕ × Queue (List ℕ)) → Outcome WriteBuf
unfolding strlen_int
load_message popped = do
  r ← popped
  len ← strlen_int r.0
  ok (record { message = some r.0; len = len; pointer = 0; is_writing = false; writequeue = r.1 })

-- The current message is written: the next one of the queue takes its place.
next_message : WriteBuf → Outcome WriteBuf
unfolding load_message
next_message b =
    if queue_is_empty b.writequeue
    then ok (record b { message = none; len = 0; pointer = 0; is_writing = false })
    else load_message (queue_pop b.writequeue)

unfoldable pub have_written : WriteBuf → ℕ → Outcome WriteBuf
unfolding next_message
have_written b size = do
  assert b.is_writing
  assert (leb (b.pointer + size) b.len)
  if ltb (b.pointer + size) b.len
      then ok (record b { is_writing = false; pointer = b.pointer + size })
      else next_message b

unfoldable pub push_write_data : WriteBuf → List ℕ → Outcome WriteBuf
unfolding has_write_data strlen_int
push_write_data b s =
    if has_write_data b
    then (do q ← queue_push b.writequeue s; ok (record b { writequeue = q }))
    else (do len ← strlen_int s; ok (record b { message = some s; pointer = 0; len = len }))

-- The loop of `free_writebuf`, with a bound on its rounds.
drain : ℕ → Queue (List ℕ) → Outcome (Queue (List ℕ))
drain zero q = ok q
drain (suc rounds) q =
    let rest = λ (r : List ℕ × Queue (List ℕ)). drain rounds r.1 in
    if queue_is_empty q then ok q else queue_pop q >>= rest

unfoldable pub free_writebuf : WriteBuf → Outcome (Unit {0})
unfolding drain
free_writebuf b = do q ← drain b.writequeue.len b.writequeue; free_queue q
