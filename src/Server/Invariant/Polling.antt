-- ===== src/Server/Invariant/Polling.antt =====
-- What is done in front of a round keeps the invariant: `poll_list_clean` and `poll`.
use why.Base.{
  ℕ, zero, suc, ◌+◌, ◌≤◌, ◌<◌, ◌≡◌, refl, ap, ◌∙◌, sym, subst, Bool, true, false, ◌&&◌, List, [],
  ◌∷◌, Option, none, some, arith, length, length-set, get_elem?, set, lt→ltb, length-filter-le, ℤ,
  minus_one, ◌==ℤ◌, ok, first_ok,
}
use why.Base.Memory.{Block, store}
use why.Base.Starts.{Starts, Starts-get_elem?, Starts-set_at, Starts-length}
use why.Request.{Request}
use why.Proc.{Proc}
use why.Poll.{Events, PollFd, PollList, poll_list_clean}
use why.Poll.Refine.{Holds}
use why.Poll.Clean.{live, count, IsCleaned, poll_list_clean-Holds}
use why.Poll.Watch.{IsWatched, is_at, watches, one_if, count-set, cleaned-IsWatched}
use why.Server.{Server, System, Client}
use why.Server.Jobs.{schedule_new_jobs}
use why.Server.Loop.{Special, poll_from, begin_round}
use why.Server.View.{IsGood}
use why.Server.Invariant.{IsPosix, Invariant, IsReceiving-keeps}
use why.Server.Invariant.Jobs.{schedule_new_jobs-Served}

-- A test that does not depend on `revents`.
abbrev pub Steady : (PollFd → Bool) → Type 0
Steady q = (e : PollFd) (r : Events) → q (record e { revents = r }) ≡ q e

-- The entries are those of before but for their `revents`.
pub record Polled (list list' : Block PollFd) (es : List PollFd) : Type 0 where
  pub entries : List PollFd
  pub starts : Starts list' entries
  pub size : length list' ≡ length list
  pub number : length entries ≡ length es
  pub counts : (q : PollFd → Bool) → Steady q → count q entries ≡ count q es

pub some_entry :
    (es : List PollFd) (i : ℕ) → i < length es → (e : PollFd) × (get_elem? es i ≡ some e)
some_entry [] i h = absurd (omega arith)
some_entry (e ∷ es) zero h = (e, refl)
some_entry (e ∷ es) (suc i) h = some_entry es i (omega arith)

pub poll_from-Polled :
    (revents : ℕ → Events) (rounds i : ℕ) (list : Block PollFd) (es : List PollFd)
    → Starts list es
    → length es ≡ i + rounds
    → (list' : Block PollFd) × (poll_from revents rounds i list ≡ ok list') × Polled list list' es
unfolding poll_from store
poll_from-Polled revents zero i list es s total = (
  list,
  refl,
  record { entries = es; starts = s; size = refl; number = refl; counts = λ q h. refl },
)
poll_from-Polled revents (suc rounds) i list es s total =
    let (e, at) = some_entry es i (omega (arith, total)) in
    let e' : PollFd = record e { revents = revents i } in
    let inside : i < length list = omega (arith, total, Starts-length list es s) in
    let l = length-set es i e' in
    let (list', ran, p) =
      poll_from-Polled revents rounds (i + 1) (set list i (some e')) (set es i e')
        (Starts-set_at list i e' es s) (omega (arith, total, l)) in
    (
      list',
      rw (Starts-get_elem? list i e es s at, lt→ltb i (length list) inside) ran,
      record {
        entries = p.entries;
        starts = p.starts;
        size = p.size ∙ length-set list i (some e');
        number = p.number ∙ l;
        counts = λ q h.
            p.counts q h
            ∙ (let c = count-set q es i e e' at in
                let same = h e (revents i) in omega (arith, c, ap one_if same));
      },
    )

polled-IsWatched :
    (k : ℤ) (b : Bool) (es es' : List PollFd)
    → ((q : PollFd → Bool) → Steady q → count q es' ≡ count q es)
    → IsWatched k b es
    → IsWatched k b es'
polled-IsWatched k b es es' same h =
    (same (is_at k) (λ e r. refl) ∙ h.0, same (watches k b) (λ e r. refl) ∙ h.1)

-- Marked entries may go, and the others keep what they ask for.
set_poll-IsGood :
    (s : Server) (p : PollList) (es : List PollFd) (cs : List (ℤ × Client)) (ps : List (ℤ × Proc))
    (rs : List Request) (starts room : ℕ) (g : IsGood s cs ps rs starts room)
    → Holds p es
    → length es ≤ length g.entries
    → ((k : ℤ) (b : Bool) → (minus_one ==ℤ k) ≡ false → IsWatched k b g.entries → IsWatched k b es)
    → IsGood (record s { poll = p }) cs ps rs starts room
set_poll-IsGood s p es cs ps rs starts room g h fewer same = record {
  set_up = g.set_up;
  clients = g.clients;
  procs = g.procs;
  queue = g.queue;
  procs_room = g.procs_room;
  clients_room = g.clients_room;
  low_room = g.low_room;
  runnable = g.runnable;
  entries = es;
  entries_room = omega (arith, g.entries_room, fewer);
  poll = h;
  buffers = g.buffers;
  watched = λ k c found. let old = g.watched k c found in (old.0, same k _ old.0 old.1);
}

length-cleaned : (es es' : List PollFd) → IsCleaned es es' → length es' ≤ length es
length-cleaned es es' c =
    omega (arith, c (λ e. true), all es', length-filter-le (λ e. true && live e) es)
  where
    all : (es : List PollFd) → count (λ e. true) es ≡ length es
    all [] = refl
    all (e ∷ es) = ap suc (all es)

module _ (os : System) (posix : IsPosix os) (special : Special) where
  pub begin_round-Invariant :
      (s s' : Server) (answer : Option (ℕ → Events)) (n : ℕ)
      → Invariant s n
      → begin_round os special s answer ≡ ok s'
      → Invariant s' n
  unfolding begin_round
  begin_round-Invariant s s' none n v ran =
      let (s₁, ran₁, ran₂) = first_ok (schedule_new_jobs os s) _ ran in
      let (p, ran₃, ran₄) = first_ok (poll_list_clean s₁.poll) _ ran₂ in absurd (cc)
  begin_round-Invariant s s' (some revents) n v ran =
      let (s₁, ran₁, ran₂) = first_ok (schedule_new_jobs os s) _ ran in
      let d =
        schedule_new_jobs-Served os posix s s₁ v.clients v.procs v.queue n v.named v.good ran₁ in
      let (p, es, cleaned, held, c) = poll_list_clean-Holds s₁.poll d.good.entries d.good.poll in
      let (list, e, w) =
        poll_from-Polled revents p.poll_num 0 p.poll_list es held.listed
          (omega (arith, held.count)) in
      let p' : PollList = record p { poll_list = list } in
      let same : record s₁ { poll = p' } ≡ s' = (let f = rw (cleaned, e) at ran₂ in cc) in
      let g =
        set_poll-IsGood s₁ p' w.entries v.clients d.procs d.queue _ _ d.good
          (record {
            count = held.count ∙ sym w.number;
            fits = held.fits;
            some_room = held.some_room;
            size = w.size ∙ held.size;
            small = held.small;
            listed = w.starts;
          })
          (omega (arith, w.number, length-cleaned d.good.entries es c))
          (λ k b alive h.
            polled-IsWatched k b es w.entries w.counts
              (cleaned-IsWatched k b d.good.entries es alive c h)) in
      subst (λ t. Invariant t n) same
        (record {
          clients = v.clients;
          procs = d.procs;
          queue = d.queue;
          good = g;
          named = d.named;
          receiving = λ k c found.
              IsReceiving-keeps s (record s₁ { poll = p' }) k n n (omega arith) (d.keeps k)
                (v.receiving k c found);
        })
