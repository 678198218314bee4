-- ===== src/Tests/Entries.antt =====
-- Handling an entry of the poll list at a concrete state: a line has arrived from the client.
use why.Base.{
  ◌≡◌, refl, false, [], ◌∷◌, none, some, arith, ℤ, pos, ◌==ℤ◌, ==ℤ_iff, minus_one, subst,
  Bool-cases, inl, inr,
}
use why.ArrayList.Entries.{lookup}
use why.WriteBuf.{has_write_data}
use why.Poll.{PollFd, only_pollin}
use why.Poll.Watch.{IsWatched}
use why.Server.{Server, Client}
use why.Server.Framing.{split_lines}
use why.Server.View.{IsGood}
use why.Server.Invariant.{Invariant, IsReceiving}
use why.Tests.Jobs.{clients, procs, jobs, state, state-IsGood}

abbrev signalled : PollFd
signalled = record { fd = pos 5; events = only_pollin; revents = only_pollin }

abbrev signalled_state : Server
signalled_state = record state {
  poll = record { poll_list = some signalled ∷ none ∷ []; poll_num = 1; poll_len = 2 };
}

is_watched :
    (k : ℤ) (c : Client)
    → lookup k clients ≡ some c
    → ((minus_one ==ℤ k) ≡ false)
      × IsWatched k (has_write_data (signalled_state.buffers k).writebuf) (signalled ∷ [])
unfolding lookup has_write_data
is_watched k c found = elim (Bool-cases (pos 5 ==ℤ k)) [
  | inl here ↦
      subst (λ j. ((minus_one ==ℤ j) ≡ false) × IsWatched j false (signalled ∷ []))
        ((==ℤ_iff (pos 5) k).0 here) (refl, (refl, refl))
  | inr other ↦ absurd (let e = rw other at found in cc)
]

abbrev signalled-IsGood : IsGood signalled_state clients procs jobs 12 26
signalled-IsGood =
    let g = state-IsGood 26 (omega arith) in
    record {
      set_up = g.set_up;
      clients = g.clients;
      procs = g.procs;
      queue = g.queue;
      procs_room = omega arith;
      clients_room = omega arith;
      low_room = omega arith;
      runnable = g.runnable;
      entries = signalled ∷ [];
      entries_room = omega arith;
      poll = record {
        count = refl;
        fits = omega arith;
        some_room = omega arith;
        small = omega arith;
        size = refl;
        listed = (refl, tt);
      };
      buffers = g.buffers;
      watched = is_watched;
    }

abbrev receiving : (k : ℤ) → IsReceiving signalled_state k 10
unfolding split_lines
receiving k = record {
  part = [];
  holds = record { count = refl; fits = omega arith; size = refl; bytes = tt };
  unread = refl;
  short = omega arith;
  low = omega arith;
}

abbrev signalled-Invariant : Invariant signalled_state 10
signalled-Invariant = record {
  clients = clients;
  procs = procs;
  queue = jobs;
  good = signalled-IsGood;
  named = (omega arith, (omega arith, tt));
  receiving = λ k c found. receiving k;
}
