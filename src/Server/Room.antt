-- ===== src/Server/Room.antt =====
-- Room that a well-formed state does not use.
use why.Base.{ℕ, suc, ◌≤◌, ◌≡◌, refl, List, arith, length, ℤ}
use why.ArrayList.{PList}
use why.ArrayList.Refine.{Holds as ListHolds}
use why.Request.{Request}
use why.Proc.{Proc}
use why.Server.{Server, Client}
use why.Server.View.{IsGood}

-- Room that is not used may be given up.
pub IsGood-weaken :
    (s : Server) (cs : List (ℤ × Client)) (ps : List (ℤ × Proc)) (rs : List Request)
    (starts room starts' room' : ℕ)
    → starts' ≤ starts
    → room' ≤ room
    → IsGood s cs ps rs starts room
    → IsGood s cs ps rs starts' room'
IsGood-weaken s cs ps rs starts room starts' room' fewer less g = record {
  set_up = g.set_up;
  clients = g.clients;
  procs = g.procs;
  queue = g.queue;
  procs_room = omega (arith, g.procs_room);
  clients_room = omega (arith, g.clients_room);
  low_room = omega (arith, g.low_room);
  runnable = g.runnable;
  entries = g.entries;
  entries_room = omega (arith, g.entries_room);
  poll = g.poll;
  buffers = λ k c found.
      let (same, (ms, sends, low)) = g.buffers k c found in (same, (ms, sends, omega (arith, low)));
  watched = g.watched;
}

pub entries_weaken :
    (s : Server) (cs : List (ℤ × Client)) (ps : List (ℤ × Proc)) (rs : List Request)
    (starts room starts' room' : ℕ) (fewer : starts' ≤ starts) (less : room' ≤ room)
    (g : IsGood s cs ps rs starts room)
    → (IsGood-weaken s cs ps rs starts room starts' room' fewer less g).entries ≡ g.entries
unfolding IsGood-weaken
entries_weaken s cs ps rs starts room starts' room' fewer less g = refl

pub IsGood-messages :
    (s : Server) (cs : List (ℤ × Client)) (ps : List (ℤ × Proc)) (rs : List Request)
    (starts room : ℕ)
    → IsGood s cs ps rs starts (suc room)
    → IsGood s cs ps rs starts room
IsGood-messages s cs ps rs starts room =
    IsGood-weaken s cs ps rs starts (suc room) starts room (omega arith) (omega arith)

pub IsGood-less :
    (s : Server) (cs : List (ℤ × Client)) (ps : List (ℤ × Proc)) (rs : List Request)
    (starts room : ℕ)
    → IsGood s cs ps rs (suc starts) (suc room)
    → IsGood s cs ps rs starts room
IsGood-less s cs ps rs starts room =
    IsGood-weaken s cs ps rs (suc starts) (suc room) starts room (omega arith) (omega arith)

-- Other processes in the list, no more than before.
pub IsGood-processes :
    (s : Server) (l : PList Proc) (cs : List (ℤ × Client)) (ps qs : List (ℤ × Proc))
    (rs : List Request) (starts room : ℕ)
    → ListHolds l qs
    → length qs ≤ length ps
    → IsGood s cs ps rs starts room
    → IsGood (record s { processes = l }) cs qs rs starts room
IsGood-processes s l cs ps qs rs starts room h few g = record {
  set_up = g.set_up;
  clients = g.clients;
  procs = h;
  queue = g.queue;
  procs_room = omega (arith, g.procs_room);
  clients_room = g.clients_room;
  low_room = g.low_room;
  runnable = g.runnable;
  entries = g.entries;
  entries_room = g.entries_room;
  poll = g.poll;
  buffers = g.buffers;
  watched = g.watched;
}
