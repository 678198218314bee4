-- ===== src/Tests/Jobs.antt =====
-- The processes and the messages at a concrete state: a client with one process, and two requests
-- that wait, the first of them of a client that is gone.
use why.Base.{
  ℕ, ◌+◌, ◌<◌, ◌≡◌, refl, false, Bool-cases, inl, inr, List, [], ◌∷◌, none, some, arith, ℤ, pos,
  ◌==ℤ◌, ==ℤ_iff, minus_one, subst,
}
use why.Text.{Str, codes}
use why.ArrayList.Entries.{lookup, Distinct}
use why.ArrayList.Refine.{Holds as ListHolds}
use why.Request.{Request, Run, req_run}
use why.Proc.{Proc}
use why.Poll.{PollList, PollFd, only_pollin, no_events}
use why.Poll.Watch.{IsWatched}
use why.Poll.Refine.{Holds as PollHolds}
use why.WriteBuf.Refine.{idle}
use why.WriteBuf.{has_write_data}
use why.Server.{Server, System, Client}
use why.Server.View.{IsGood}

abbrev pub os : System
os = record { fork = λ n. pos (200 + n); temp = λ n. codes "aaaaaa" }

abbrev pub z3 : Run
z3 = record {
  timeout = pos 10;
  memlimit = 1000;
  usestdin = false;
  cmd = codes "z3";
  args = codes "x.smt2" ∷ [];
}

abbrev pub job : ℤ → Str → Request
job key id = record { key = key; id = id; body = req_run z3 }

abbrev pub jobs : List Request
jobs = job (pos 6) (codes "b") ∷ job (pos 5) (codes "c") ∷ []

abbrev pub client_5 : Client
client_5 = record { fd = pos 5 }

abbrev pub clients : List (ℤ × Client)
clients = (pos 5, client_5) ∷ []

-- A process of the client, and one of a client that is gone.
abbrev pub proc_100 : Proc
proc_100 = record {
  id = pos 100;
  client_key = pos 5;
  task_id = codes "a";
  outfile = codes "/tmp/x";
}

abbrev pub proc_101 : Proc
proc_101 = record {
  id = pos 101;
  client_key = pos 6;
  task_id = codes "a";
  outfile = codes "/tmp/y";
}

abbrev pub procs : List (ℤ × Proc)
procs = (pos 100, proc_100) ∷ (pos 101, proc_101) ∷ []

abbrev pub watched : PollFd
watched = record { fd = pos 5; events = only_pollin; revents = no_events }

abbrev pub poll_5 : PollList
poll_5 = record { poll_list = some watched ∷ none ∷ []; poll_num = 1; poll_len = 2 }

abbrev pub state : Server
state = record {
  clients = record {
    key = some (pos 5) ∷ none ∷ [];
    datum = some client_5 ∷ none ∷ [];
    len = 1;
    capacity = 2;
  };
  buffers = λ fd. record {
    readbuf = record { bytes = none ∷ []; len = 0; capacity = 1 };
    writebuf = record {
      message = none;
      len = 0;
      pointer = 0;
      is_writing = false;
      writequeue = record { cells = none ∷ none ∷ []; pointer = 0; len = 0; capacity = 2 };
    };
  };
  processes = record {
    key = some (pos 100) ∷ some (pos 101) ∷ none ∷ [];
    datum = some proc_100 ∷ some proc_101 ∷ none ∷ [];
    len = 2;
    capacity = 3;
  };
  queue = record {
    cells = some (job (pos 5) (codes "c")) ∷ none ∷ some (job (pos 6) (codes "b")) ∷ [];
    pointer = 2;
    len = 2;
    capacity = 3;
  };
  poll = poll_5;
  parallel = 3;
  single_client = false;
  current_dir = codes "/tmp";
  forks = 0;
  effects = [];
}

pub poll_5-Holds : PollHolds poll_5 (watched ∷ [])
poll_5-Holds = record {
  count = refl;
  fits = omega arith;
  some_room = omega arith;
  small = omega arith;
  size = refl;
  listed = (refl, tt);
}

pub processes-Holds : ListHolds state.processes procs
processes-Holds = record {
  count = refl;
  fits = omega arith;
  some_room = omega arith;
  small = omega arith;
  key_size = refl;
  datum_size = refl;
  keys = (refl, (refl, tt));
  data' = (refl, (refl, tt));
}

pub clients-Distinct : Distinct clients
unfolding lookup
clients-Distinct = (refl, tt)

pub client_key : (k : ℤ) (c : Client) → lookup k clients ≡ some c → c.fd ≡ k
unfolding lookup
client_key k c found = elim (Bool-cases (pos 5 ==ℤ k)) [
  | inl here ↦ ground (arith, ==ℤ_iff (pos 5) k)
  | inr other ↦ absurd (let e = rw other at found in cc)
]

pub is_watched :
    (k : ℤ) (c : Client)
    → lookup k clients ≡ some c
    → ((minus_one ==ℤ k) ≡ false)
      × IsWatched k (has_write_data (state.buffers k).writebuf) (watched ∷ [])
unfolding lookup has_write_data
is_watched k c found = elim (Bool-cases (pos 5 ==ℤ k)) [
  | inl here ↦
      subst (λ j. ((minus_one ==ℤ j) ≡ false) × IsWatched j false (watched ∷ []))
        ((==ℤ_iff (pos 5) k).0 here) (refl, (refl, refl))
  | inr other ↦ absurd (let e = rw other at found in cc)
]

abbrev pub state-IsGood : (n : ℕ) → n < 1000 → IsGood state clients procs jobs n n
state-IsGood n few = record {
  set_up = record {
    distinct = clients-Distinct;
    some_jobs = omega arith;
    few_jobs = omega arith;
    short_dir = omega arith;
  };
  clients = record {
    count = refl;
    fits = omega arith;
    some_room = omega arith;
    small = omega arith;
    key_size = refl;
    datum_size = refl;
    keys = (refl, tt);
    data' = (refl, tt);
  };
  procs = processes-Holds;
  queue = record { valid = omega arith; view = refl };
  procs_room = omega arith;
  clients_room = omega arith;
  low_room = omega arith;
  runnable = (
    record { short_id = omega arith; run = z3; is_run = refl },
    (record { short_id = omega arith; run = z3; is_run = refl }, tt),
  );
  entries = watched ∷ [];
  entries_room = omega arith;
  poll = poll_5-Holds;
  buffers = λ k c found. (
    client_key k c found,
    ([], idle refl refl (record { valid = omega arith; view = refl }), omega arith),
  );
  watched = is_watched;
}
