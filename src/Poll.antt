-- ===== src/Poll.antt =====
-- The poll list of src/server/server-unix.c: the descriptors that the server watches.
pub mod Refine
pub mod Clean
pub mod Change
pub mod Watch
use why.Base.{
  ℕ, zero, suc, ◌+◌, ◌-◌, ◌*◌, Bool, true, false, not, ◌||◌, Option, none, some, ltb, ◌==◌,
  if◌then◌else◌, ℤ, minus_one, ◌==ℤ◌, Outcome, ok, ◌>>=◌, ◌>>◌, require,
}
use why.Base.Memory.{Block, malloc, load, store, realloc}
use why.ArrayList.{int_end}

-- The bits of `events` and `revents` that the server tests; `other` stands for all the others.
pub record Events : Type 0 where
  pub pollin : Bool
  pub pollout : Bool
  pub pollerr : Bool
  pub other : Bool

abbrev pub no_events : Events
no_events = record { pollin = false; pollout = false; pollerr = false; other = false }

abbrev pub only_pollin : Events
only_pollin = record { pollin = true; pollout = false; pollerr = false; other = false }

abbrev pub some_event : Events → Bool
some_event e = e.pollin || (e.pollout || (e.pollerr || e.other))

-- `struct pollfd`
pub record PollFd : Type 0 where
  pub fd : ℤ
  pub events : Events
  pub revents : Events

-- The globals `poll_list`, `poll_num` and `poll_len`.
pub record PollList : Type 0 where
  pub poll_list : Block PollFd
  pub poll_num : ℕ
  pub poll_len : ℕ

grow_poll_list : PollList → Outcome PollList
grow_poll_list p = do
  let len = p.poll_len * 2
  require (ltb len int_end)
  ok (record p { poll_list = realloc p.poll_list len; poll_len = len })

put_poll_entry : PollList → ℤ → Events → Outcome PollList
put_poll_entry p sock events = do
  list ← store p.poll_list p.poll_num (record { fd = sock; events = events; revents = no_events })
  ok (record p { poll_list = list; poll_num = p.poll_num + 1 })

unfoldable pub add_to_poll_list : PollList → ℤ → Events → Outcome PollList
unfolding grow_poll_list put_poll_entry
add_to_poll_list p sock events = do
  p' ← if p.poll_num == p.poll_len then grow_poll_list p else ok p
  put_poll_entry p' sock events

-- The loop of `poll_list_lookup`, with the number of rounds left.
unfoldable pub lookup_from : Block PollFd → ℤ → ℕ → ℕ → Outcome (Option ℕ)
lookup_from list fd zero i = ok none
lookup_from list fd (suc rounds) i =
    let next = lookup_from list fd rounds (i + 1) in
    do e ← load list i; if e.fd ==ℤ fd then ok (some i) else next

-- The pointer that C returns is the index of the entry.
unfoldable pub poll_list_lookup : PollList → ℤ → Outcome (Option ℕ)
unfolding lookup_from
poll_list_lookup p fd = lookup_from p.poll_list fd p.poll_num 0

-- The loop of `poll_list_clean`: each round moves on or drops an entry.
clean_from : ℕ → ℕ → PollList → Outcome PollList
clean_from zero i p = ok p
clean_from (suc rounds) i p =
    let next = clean_from rounds (i + 1) p in
    let again = λ (list : Block PollFd).
      clean_from rounds i (record p { poll_list = list; poll_num = p.poll_num - 1 }) in
    if ltb i p.poll_num
    then (do
      e ← load p.poll_list i
      if e.fd ==ℤ minus_one
          then (do
            last ← load p.poll_list (p.poll_num - 1)
            list ← store p.poll_list i last
            again list)
          else next)
    else ok p

unfoldable pub poll_list_clean : PollList → Outcome PollList
unfolding clean_from
poll_list_clean p = clean_from p.poll_num 0 p

forget_entry : PollList → Option ℕ → Outcome PollList
forget_entry p none = ok p
forget_entry p (some i) = do
  e ← load p.poll_list i
  list ← store p.poll_list i (record e { fd = minus_one; revents = no_events })
  ok (record p { poll_list = list })

-- The first entry of the descriptor is marked, and `poll_list_clean` drops it later.
unfoldable pub poll_list_remove : PollList → ℤ → Outcome PollList
unfolding forget_entry
poll_list_remove p fd = do i ← poll_list_lookup p fd; forget_entry p i

-- `entry->events |= POLLOUT` and `entry->events &= ~POLLOUT`, through a pointer that may be `NULL`.
unfoldable pub set_pollout : PollList → Option ℕ → Bool → Outcome PollList
set_pollout p none on = ok p
set_pollout p (some i) on = do
  e ← load p.poll_list i
  list ← store p.poll_list i (record e { events = record (e.events) { pollout = on } })
  ok (record p { poll_list = list })
