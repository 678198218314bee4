-- ===== src/Tests/Written.antt =====
-- A client that is ready for writing, at a concrete state.
use why.Base.{
  ℕ, ◌≡◌, refl, false, [], ◌∷◌, Option, none, some, arith, ℤ, pos, ◌==ℤ◌, ok, stop, aborts,
  Bool-cases, ==ℤ_iff, minus_one, subst, inl, inr, true,
}
use why.ArrayList.Entries.{lookup}
use why.WriteBuf.{has_write_data}
use why.Poll.{PollFd}
use why.Poll.Refine.{with_pollout}
use why.Poll.Watch.{IsWatched}
use why.Server.{Server, Client}
use why.Server.Clients.{write_to_client}
use why.Server.View.{IsGood}
use why.Server.Written.{write_to_client-failed}
use why.Tests.Buffers.{two_messages, two_messages-Sending}
use why.Tests.Jobs.{clients, procs, jobs, watched, state, state-IsGood}

abbrev busy : PollFd
busy = with_pollout watched true

-- Two bytes of the first message are left, and a second message waits.
abbrev busy_state : Server
busy_state = record state {
  buffers = λ fd. record { readbuf = (state.buffers fd).readbuf; writebuf = two_messages };
  poll = record { poll_list = some busy ∷ none ∷ []; poll_num = 1; poll_len = 2 };
}

pub busy_is_watched :
    (k : ℤ) (c : Client)
    → lookup k clients ≡ some c
    → ((minus_one ==ℤ k) ≡ false)
      × IsWatched k (has_write_data (busy_state.buffers k).writebuf) (busy ∷ [])
unfolding lookup has_write_data
busy_is_watched k c found = elim (Bool-cases (pos 5 ==ℤ k)) [
  | inl here ↦
      subst (λ j. ((minus_one ==ℤ j) ≡ false) × IsWatched j true (busy ∷ []))
        ((==ℤ_iff (pos 5) k).0 here) (refl, (refl, refl))
  | inr other ↦ absurd (let e = rw other at found in cc)
]

abbrev busy_state-IsGood : IsGood busy_state clients procs jobs 1 1
busy_state-IsGood =
    let g = state-IsGood 1 (omega arith) in
    record {
      set_up = g.set_up;
      clients = g.clients;
      procs = g.procs;
      queue = g.queue;
      procs_room = g.procs_room;
      clients_room = g.clients_room;
      low_room = g.low_room;
      runnable = g.runnable;
      entries = busy ∷ [];
      entries_room = g.entries_room;
      poll = record {
        count = refl;
        fits = omega arith;
        some_room = omega arith;
        small = omega arith;
        size = refl;
        listed = (refl, tt);
      };
      buffers = λ k c found. (
        (g.buffers k c found).0,
        ((71 ∷ 10 ∷ []) ∷ (83 ∷ 10 ∷ []) ∷ [], two_messages-Sending, omega arith),
      );
      watched = busy_is_watched;
    }

write_to_client-failed_example :
    (s' : Server) × (write_to_client busy_state (pos 5) 0 none ≡ ok s')
    × ((j : ℕ) (answer : Option ℕ) → write_to_client s' (pos 5) j answer ≡ stop aborts)
write_to_client-failed_example =
    write_to_client-failed busy_state (pos 5) 0 (71 ∷ 10 ∷ []) ((83 ∷ 10 ∷ []) ∷ []) refl
      two_messages-Sending
