-- ===== src/Queue.antt =====
-- src/server/queue.h and queue.c: the resizable ring of pointers. An element is of any type.
-- `unsigned int` is a number below 2 ^ 32 with its wrap-around written out.
pub mod Invariant
pub mod Window
pub mod Refine
pub mod Fifo
use why.Base.{
  ℕ, ◌+◌, ◌-◌, ◌*◌, ◌%◌, ◌^◌, ◌<◌, Bool, ltb, ◌==◌, if◌then◌else◌, Outcome, ok, ◌>>=◌, ◌>>◌, assert,
}
use why.Base.Memory.{Block, malloc, load, store, realloc, memcpy}

-- `t_queue`
pub record Queue {ℓ} (A : Type ℓ) : Type ℓ where
  pub cells : Block A
  pub pointer : ℕ
  pub len : ℕ
  pub capacity : ℕ

abbrev pub uint_mod : ℕ
uint_mod = 2 ^ 32

module _ {ℓ} {A : Type ℓ} where
  unfoldable pub init_queue : ℕ → Outcome (Queue A)
  init_queue capacity = do
    assert (ltb 0 capacity)
    ok (record { cells = malloc capacity; pointer = 0; len = 0; capacity = capacity })

  unfoldable pub queue_pop : Queue A → Outcome (A × Queue A)
  queue_pop q = do
    assert (ltb 0 q.len)
    tmp ← load q.cells q.pointer
    ok (tmp, record q { len = q.len - 1; pointer = (q.pointer + 1) % uint_mod % q.capacity })

  simple_push : Queue A → A → Outcome (Queue A)
  simple_push q elt = do
    cells ← store q.cells ((q.pointer + q.len) % uint_mod % q.capacity) elt
    ok (record q { cells = cells; len = (q.len + 1) % uint_mod })

  resize_queue : Queue A → Outcome (Queue A)
  resize_queue q = do
    let new_cap = (2 * q.capacity) % uint_mod
    let new_p = ((new_cap + uint_mod - q.capacity) % uint_mod + q.pointer) % uint_mod
    let room = (q.capacity + uint_mod - q.pointer) % uint_mod
    cells ← memcpy (realloc q.cells new_cap) new_p q.pointer room
    ok (record q { cells = cells; capacity = new_cap; pointer = new_p })

  unfoldable pub queue_push : Queue A → A → Outcome (Queue A)
  unfolding simple_push resize_queue
  queue_push q elt = do
    q' ← if q.len == q.capacity then resize_queue q else ok q
    simple_push q' elt

  unfoldable pub queue_is_empty : Queue A → Bool
  queue_is_empty q = q.len == 0

  unfoldable pub queue_length : Queue A → ℕ
  queue_length q = q.len

  -- The memory is given back; only the assertion is left to see.
  unfoldable pub free_queue : Queue A → Outcome (Unit {0})
  unfolding queue_is_empty
  free_queue q = assert (queue_is_empty q)
