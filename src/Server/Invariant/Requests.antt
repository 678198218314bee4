-- ===== src/Server/Invariant/Requests.antt =====
-- Running a request, putting it into the queue, and interrupting others keeps the invariant.
use why.Base.{
  Outcome, ltb, if◌then◌else◌, ℕ, suc, ◌+◌, ◌*◌, ◌≡◌, refl, subst, Bool, not, List, [], ◌∷◌, ◌++◌,
  some, arith, length, length-append, filter, map, ℤ, ok, ◌>>=◌,
}
use why.Request.Parse.{parse_request}
use why.ArrayList.{list_length}
use why.Text.{Str}
use why.Queue.{Queue, queue_push}
use why.Queue.Refine.{Holds as Queued, queue_push-Holds}
use why.ArrayList.Entries.{lookup}
use why.Request.{Request, Body, req_run, req_interrupt}
use why.Request.Pending.{stays}
use why.Request.Shape.{InBounds}
use why.Proc.{Proc}
use why.Server.{Server, System, Client}
use why.Server.Jobs.{run_request}
use why.Server.Lines.{interrupt, handle_line}
use why.Server.View.{IsGood, IsRunnable, AreRunnable}
use why.Server.Room.{IsGood-weaken}
use why.Server.Interrupted.{removed_text, interrupted, interrupt-answers, ToldAll-Keeps}
use why.Server.Invariant.{IsPosix, AreNamed, HasRoomFor}
use why.Server.Invariant.Jobs.{Served, ok_unique, run_request-Ran}

AreRunnable-append :
    (rs : List Request) (r : Request) → AreRunnable rs → IsRunnable r → AreRunnable (rs ++ (r ∷ []))
AreRunnable-append [] r h i = (i, tt)
AreRunnable-append (q ∷ rs) r h i = (h.0, AreRunnable-append rs r h.1 i)

-- What passes a test and what fails it.
pub length-filter :
    (p : Request → Bool) (rs : List Request)
    → length (filter (λ r. not (p r)) rs) + length (filter p rs) ≡ length rs
length-filter p [] = refl
length-filter p (r ∷ rs) = ground (arith, length-filter p rs)

pub set_parallel-IsGood :
    (s : Server) (cs : List (ℤ × Client)) (ps : List (ℤ × Proc)) (rs : List Request)
    (starts room n : ℕ)
    → InBounds n
    → IsGood s cs ps rs starts room
    → IsGood (record s { parallel = n }) cs ps rs starts room
set_parallel-IsGood s cs ps rs starts room n b g = record {
  set_up = record {
    distinct = g.set_up.distinct;
    some_jobs = b.0;
    few_jobs = b.1;
    short_dir = g.set_up.short_dir;
  };
  clients = g.clients;
  procs = g.procs;
  queue = g.queue;
  procs_room = g.procs_room;
  clients_room = g.clients_room;
  low_room = g.low_room;
  runnable = g.runnable;
  entries = g.entries;
  entries_room = g.entries_room;
  poll = g.poll;
  buffers = g.buffers;
  watched = g.watched;
}

set_queue-IsGood :
    (s : Server) (q : Queue Request) (cs : List (ℤ × Client)) (ps : List (ℤ × Proc))
    (rs qs : List Request) (starts room : ℕ)
    → Queued q qs
    → AreRunnable qs
    → IsGood s cs ps rs starts room
    → IsGood (record s { queue = q }) cs ps qs starts room
set_queue-IsGood s q cs ps rs qs starts room h runnable g = record {
  set_up = g.set_up;
  clients = g.clients;
  procs = g.procs;
  queue = h;
  procs_room = g.procs_room;
  clients_room = g.clients_room;
  low_room = g.low_room;
  runnable = runnable;
  entries = g.entries;
  entries_room = g.entries_room;
  poll = g.poll;
  buffers = g.buffers;
  watched = g.watched;
}

module _ (os : System) (posix : IsPosix os) (s' : Server) (key : ℤ) (c : Client)
    (cs : List (ℤ × Client)) (ps : List (ℤ × Proc)) (rs : List Request) (n : ℕ)
    (named : AreNamed ps) (found : lookup key cs ≡ some c) where
  pub run-Served :
      (s : Server) (r : Request)
      → IsRunnable r
      → HasRoomFor s cs ps rs (suc n)
      → run_request os s r ≡ ok s'
      → Served s s' cs n
  run-Served s r runnable g ran =
      let room = 2 * length rs + suc (length ps) + 2 * n in
      let d =
        run_request-Ran os posix s s' r cs ps rs (length rs + n) room runnable named
          (IsGood-weaken s cs ps rs _ _ _ _ (omega arith) (omega arith) g) ran in
      record {
        procs = d.procs;
        queue = rs;
        good = IsGood-weaken s' cs d.procs rs _ _ _ _ (omega arith) (omega (arith, d.few)) d.good;
        named = d.named;
        keeps = d.keeps;
      }

  pub push-Served :
      (s : Server) (r : Request)
      → IsRunnable r
      → HasRoomFor s cs ps rs (suc n)
      → (do q ← queue_push s.queue r; ok (record s { queue = q })) ≡ ok s'
      → Served s s' cs n
  push-Served s r runnable g ran =
      let (q, e, h) = queue_push-Holds s.queue r rs (omega (arith, g.procs_room)) g.queue in
      let same : record s { queue = q } ≡ s' = (let f = rw e at ran in cc) in
      let l = length-append rs (r ∷ []) in
      subst (λ t. Served s t cs n) same
        (record {
          procs = ps;
          queue = rs ++ (r ∷ []);
          good =
              IsGood-weaken (record s { queue = q }) cs ps (rs ++ (r ∷ [])) _ _ _ _
                (omega (arith, l)) (omega (arith, l))
                (set_queue-IsGood s q cs ps rs (rs ++ (r ∷ [])) _ _ h
                  (AreRunnable-append rs r g.runnable runnable) g);
          named = named;
          keeps = λ k. refl;
        })

  pub interrupt-Served :
      (s : Server) (id : Str)
      → HasRoomFor s cs ps rs (suc n)
      → interrupt os s key id ≡ ok s'
      → Served s s' cs n
  interrupt-Served s id g ran =
      let qs = filter (stays key (some id)) rs in
      let l = length-filter (stays key (some id)) rs in
      let room = 2 * length qs + length ps + 2 * n in
      let (t, e, told, good, _, _) =
        interrupt-answers os s key id c cs ps rs (length qs + n) room found
          (omega (arith, g.procs_room))
          (IsGood-weaken s cs ps rs _ _ (length qs + n) (length (interrupted key id rs) + room)
            (omega (arith, l)) (omega (arith, l)) g) in
      let same = ok_unique (interrupt os s key id) t s' e ran in
      subst (λ t. Served s t cs n) same
        (record {
          procs = ps;
          queue = qs;
          good = good;
          named = named;
          keeps =
              ToldAll-Keeps s.buffers t.buffers key (map removed_text (interrupted key id rs)) told;
        })

  -- The number of processes that are allowed was set before.
  pub as_before :
      (s : Server) (par : ℕ) → Served (record s { parallel = par }) s' cs n → Served s s' cs n
  as_before s par d = record {
    procs = d.procs;
    queue = d.queue;
    good = d.good;
    named = d.named;
    keeps = d.keeps;
  }

-- What is done with a request.
module _ (os : System) (s : Server) (key : ℤ) (par : ℕ) where
  unfoldable pub by_body : Request → Body → Outcome Server
  by_body r (req_run run) =
      if ltb (list_length s.processes) par
      then run_request os (record s { parallel = par }) r
      else (do q ← queue_push s.queue r; ok (record s { parallel = par; queue = q }))
  by_body r req_interrupt = interrupt os (record s { parallel = par }) key r.id

  pub handle_line-by_body :
      (line : Str) (r : Request)
      → parse_request line key s.parallel ≡ ok (par, some r)
      → handle_line os s key line ≡ by_body r r.body
  unfolding handle_line by_body
  handle_line-by_body line r parsed = rw parsed
