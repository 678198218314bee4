-- ===== src/Server/Closed.antt =====
-- `close_client`: what is left of a client that is gone.
use why.Base.{
  ℕ, ◌^◌, ◌<◌, ◌≡◌, refl, inl, inr, Bool, false, not, List, [], ◌∷◌, ◌++◌, map, none, some, arith,
  ap, ◌&&◌, ◌==◌, true, stop, exits, length, filter, Bool-cases, ℤ, ok, ◌==ℤ◌,
}
use why.ArrayList.Entries.{
  lookup, remove, Distinct, lookup-remove, remove-Distinct, length-remove-le,
}
use why.ArrayList.{PList, list_is_empty}
use why.ArrayList.Refine.{list_remove-Holds, Holds as ListHolds}
use why.Request.{Request}
use why.Request.Pending.{stays, each, remove_from_queue-Holds}
use why.Proc.{Proc, is_target}
use why.Proc.Refine.{kill_processes-filter}
use why.WriteBuf.Freed.{free_writebuf-Sending}
use why.Poll.Change.{forgotten, length-forgotten, poll_list_remove-Holds}
use why.Poll.Watch.{forgotten-IsWatched}
use why.Server.{Server, Client, killed, closed}
use why.Server.Clients.{close_client, no_callback}
use why.Server.View.{IsGood, AreRunnable}

each-no_callback : (s : Server) (rs : List Request) → each no_callback s rs ≡ ok s
unfolding each
each-no_callback s [] = refl
each-no_callback s (r ∷ rs) = each-no_callback s rs

pub AreRunnable-filter :
    (keep : Request → Bool) (rs : List Request) → AreRunnable rs → AreRunnable (filter keep rs)
AreRunnable-filter keep [] h = tt
AreRunnable-filter keep (r ∷ rs) h = elim (Bool-cases (keep r)) [
  | inl e ↦ rw e (h.0, AreRunnable-filter keep rs h.1)
  | inr e ↦ rw e (AreRunnable-filter keep rs h.1)
]

-- A client that is still in the list was there before.
pub still_there :
    (fd k : ℤ) (c : Client) (cs : List (ℤ × Client))
    → Distinct cs
    → lookup k (remove fd cs) ≡ some c
    → lookup k cs ≡ some c
still_there fd k c cs d h = ground (arith, lookup-remove fd k cs d)

-- Whether the last client of a server for one client is gone.
emptied :
    (single : Bool) (l : PList Client) (fd : ℤ) (cs : List (ℤ × Client))
    → ListHolds l (remove fd cs)
    → (single && list_is_empty l) ≡ (single && (length (remove fd cs) == 0))
unfolding list_is_empty
emptied single l fd cs h = ap (λ n. single && (n == 0)) h.count

not_closed :
    (fd k : ℤ) (c : Client) (cs : List (ℤ × Client))
    → Distinct cs
    → lookup k (remove fd cs) ≡ some c
    → (fd ==ℤ k) ≡ false
not_closed fd k c cs d h = ground (arith, lookup-remove fd k cs d)

-- The ids of the processes of a client.
abbrev pub own_processes : ℤ → List (ℤ × Proc) → List ℤ
own_processes fd ps = map (λ p. p.id) (filter (is_target fd none) (map (λ e. e.1) ps))

pub close_client-forgets :
    (s : Server) (fd : ℤ) (c : Client) (cs : List (ℤ × Client)) (ps : List (ℤ × Proc))
    (rs : List Request) (starts room : ℕ)
    → lookup fd cs ≡ some c
    → (s.single_client && (length (remove fd cs) == 0)) ≡ false
    → length rs < 2 ^ 30
    → (g : IsGood s cs ps rs starts room)
    → (s' : Server) × (close_client s fd ≡ ok s')
      × (good : IsGood s' (remove fd cs) ps (filter (stays fd none) rs) starts room) × (good.entries
          ≡ forgotten fd g.entries)
      × (s'.buffers ≡ s.buffers)
      × (s'.processes ≡ s.processes)
      × (s'.effects ≡ s.effects ++ (killed (own_processes fd ps) ∷ closed fd ∷ []))
unfolding close_client
close_client-forgets s fd c cs ps rs starts room found lasting few g =
    let distinct = g.set_up.distinct in
    let (q, e₁, hq) =
      remove_from_queue-Holds no_callback s.queue fd none s s rs few g.queue
        (each-no_callback s (filter (λ r. not (stays fd none r)) rs)) in
    let (l, e₂, hl) = list_remove-Holds s.clients fd cs g.clients in
    let (p, e₃, hp) = poll_list_remove-Holds s.poll fd g.entries g.poll in
    let (same, (ms, sends, low)) = g.buffers fd c found in
    (
      record s {
        queue = q;
        clients = l;
        poll = p;
        effects = s.effects ++ (killed (own_processes fd ps) ∷ closed fd ∷ []);
      },
      rw
          (
            e₁,
            kill_processes-filter s.processes fd none ps g.procs,
            e₂,
            e₃,
            free_writebuf-Sending (s.buffers fd).writebuf ms sends,
            emptied s.single_client l fd cs hl,
            lasting,
          )
          refl,
      record {
        set_up = record {
          distinct = remove-Distinct fd cs g.set_up.distinct;
          some_jobs = g.set_up.some_jobs;
          few_jobs = g.set_up.few_jobs;
          short_dir = g.set_up.short_dir;
        };
        clients = hl;
        procs = g.procs;
        queue = hq;
        procs_room = g.procs_room;
        clients_room = omega (arith, g.clients_room, length-remove-le fd cs);
        low_room = g.low_room;
        runnable = AreRunnable-filter (stays fd none) rs g.runnable;
        entries = forgotten fd g.entries;
        entries_room = omega (arith, g.entries_room, length-forgotten fd g.entries);
        poll = hp;
        buffers = λ k c' h. g.buffers k c' (still_there fd k c' cs distinct h);
        watched = λ k c' h.
            let old = g.watched k c' (still_there fd k c' cs distinct h) in
            (
              old.0,
              forgotten-IsWatched fd k _ g.entries (not_closed fd k c' cs distinct h) old.0 old.1,
            );
      },
      refl,
      refl,
      refl,
      refl,
    )

-- A server for one client shuts down with its last client.
pub close_client-last :
    (s : Server) (fd : ℤ) (c : Client) (cs : List (ℤ × Client)) (ps : List (ℤ × Proc))
    (rs : List Request) (starts room : ℕ)
    → lookup fd cs ≡ some c
    → (s.single_client && (length (remove fd cs) == 0)) ≡ true
    → length rs < 2 ^ 30
    → IsGood s cs ps rs starts room
    → close_client s fd ≡ stop (exits 1)
unfolding close_client
close_client-last s fd c cs ps rs starts room found last few g =
    let (q, e₁, hq) =
      remove_from_queue-Holds no_callback s.queue fd none s s rs few g.queue
        (each-no_callback s (filter (λ r. not (stays fd none r)) rs)) in
    let (l, e₂, hl) = list_remove-Holds s.clients fd cs g.clients in
    let (p, e₃, hp) = poll_list_remove-Holds s.poll fd g.entries g.poll in
    let (same, (ms, sends, low)) = g.buffers fd c found in
    rw (
      e₁,
      kill_processes-filter s.processes fd none ps g.procs,
      e₂,
      e₃,
      free_writebuf-Sending (s.buffers fd).writebuf ms sends,
      emptied s.single_client l fd cs hl,
      last,
    )
