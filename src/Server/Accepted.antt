-- ===== src/Server/Accepted.antt =====
-- `server_accept_client`: a new client.
use why.Base.{
  ℕ, ◌≡◌, refl, ap, ◌∙◌, inl, inr, true, false, List, [], ◌∷◌, ◌++◌, none, some, arith,
  length-append, suc, Bool-cases, ℤ, ◌==ℤ◌, ==ℤ_iff, ==ℤ_refl, ok, minus_one, subst, Option-cases,
}
use why.ArrayList.Entries.{lookup, Distinct}
use why.ArrayList.Append.{list_append-Holds}
use why.ReadBuf.Refine.{Holds, init_readbuf-Holds}
use why.WriteBuf.Refine.{Sending, init_writebuf-Sending, has_write_data-Sending}
use why.Request.{Request}
use why.Proc.{Proc}
use why.Poll.{PollFd, only_pollin, no_events}
use why.Poll.Clean.{count}
use why.Poll.Watch.{is_at, IsWatched, append-IsWatched, append-IsWatched_self}
use why.Poll.Change.{add_to_poll_list-Holds}
use why.Server.{Server, Client, Buffers, update}
use why.Server.Clients.{server_accept_client, read_once}
use why.Server.View.{IsGood}

-- A client of the longer list is the new one, or was there before.
pub lookup-new :
    (fd k : ℤ) (c new : Client) (cs : List (ℤ × Client))
    → lookup k (cs ++ ((fd, new) ∷ [])) ≡ some c
    → (fd ==ℤ k) ≡ false
    → lookup k cs ≡ some c
unfolding lookup
lookup-new fd k c new [] h other = absurd (let h' = rw other at h in cc)
lookup-new fd k c new ((j, b) ∷ cs) h other = elim (Bool-cases (j ==ℤ k)) [
  | inl here ↦ rw here (rw here at h)
  | inr later ↦ rw later (lookup-new fd k c new cs (rw later at h) other)
]

lookup-new_self :
    (fd k : ℤ) (c new : Client) (cs : List (ℤ × Client))
    → lookup fd cs ≡ none
    → lookup k (cs ++ ((fd, new) ∷ [])) ≡ some c
    → (fd ==ℤ k) ≡ true
    → c ≡ new
unfolding lookup
lookup-new_self fd k c new [] fresh h same = let h' = rw same at h in cc
lookup-new_self fd k c new ((j, b) ∷ cs) fresh h same =
    ground (arith, ==ℤ_iff j k, ==ℤ_iff j fd, ==ℤ_iff fd k, lookup-new_self fd k c new cs)

still_absent :
    (k fd : ℤ) (new : Client) (cs : List (ℤ × Client))
    → lookup k cs ≡ none
    → (fd ==ℤ k) ≡ false
    → lookup k (cs ++ ((fd, new) ∷ [])) ≡ none
unfolding lookup
still_absent k fd new [] absent other = rw other
still_absent k fd new ((j, b) ∷ cs) absent other = elim (Bool-cases (j ==ℤ k)) [
  | inl here ↦ absurd (let e = rw here at absent in cc)
  | inr later ↦ rw later (still_absent k fd new cs (rw later at absent) other)
]

fresh-Distinct :
    (fd : ℤ) (new : Client) (cs : List (ℤ × Client))
    → lookup fd cs ≡ none
    → Distinct cs
    → Distinct (cs ++ ((fd, new) ∷ []))
unfolding lookup
fresh-Distinct fd new [] fresh d = (refl, tt)
fresh-Distinct fd new ((j, b) ∷ cs) fresh d = elim (Bool-cases (j ==ℤ fd)) [
  | inl here ↦ absurd (let e = rw here at fresh in cc)
  | inr later ↦ (
    still_absent j fd new cs d.0 (ground (arith, ==ℤ_iff j fd, ==ℤ_iff fd j)),
    fresh-Distinct fd new cs (rw later at fresh) d.1,
  )
]

-- A descriptor that has no entry is no client's.
not_yet :
    (s : Server) (fd : ℤ) (cs : List (ℤ × Client)) (ps : List (ℤ × Proc)) (rs : List Request)
    (starts room : ℕ) (g : IsGood s cs ps rs starts room)
    → count (is_at fd) g.entries ≡ 0
    → lookup fd cs ≡ none
not_yet s fd cs ps rs starts room g away = elim (Option-cases (lookup fd cs)) [
  | inl none' ↦ none'
  | inr (c, found) ↦ let w = (g.watched fd c found).1.0 in absurd (omega (arith, away, w))
]

pub server_accept_client-new :
    (s : Server) (fd : ℤ) (cs : List (ℤ × Client)) (ps : List (ℤ × Proc)) (rs : List Request)
    (starts room : ℕ)
    → (minus_one ==ℤ fd) ≡ false
    → (g : IsGood s cs ps rs (suc starts) room) → count (is_at fd) g.entries ≡ 0
    → (s' : Server) × (server_accept_client s (some fd) ≡ ok s')
      × (good : IsGood s' (cs ++ ((fd, record { fd = fd }) ∷ [])) ps rs starts room) × (good.entries
          ≡ g.entries ++ (record { fd = fd; events = only_pollin; revents = no_events } ∷ []))
      × Holds (s'.buffers fd).readbuf []
      × ((s'.buffers fd).readbuf.capacity ≡ read_once)
      × Sending (s'.buffers fd).writebuf []
      × ((k : ℤ) → (fd ==ℤ k) ≡ false → s'.buffers k ≡ s.buffers k)
unfolding server_accept_client
server_accept_client-new s fd cs ps rs starts room alive g away =
    let fresh = not_yet s fd cs ps rs (suc starts) room g away in
    let c₀ : Client = record { fd = fd } in
    let (r, e₁, size, hr) = init_readbuf-Holds read_once (omega arith) in
    let (w, e₂, sends) = init_writebuf-Sending s.parallel g.set_up.some_jobs g.set_up.few_jobs in
    let (l, e₃, hl) =
      list_append-Holds s.clients fd (record { fd = fd }) cs (omega (arith, g.clients_room))
        g.clients in
    let (p, e₄, hp) =
      add_to_poll_list-Holds s.poll fd only_pollin g.entries (omega (arith, g.entries_room))
        g.poll in
    let b : Buffers = record { readbuf = r; writebuf = w } in
    let new : PollFd = record { fd = fd; events = only_pollin; revents = no_events } in
    (
      record s { clients = l; buffers = update s.buffers fd b; poll = p },
      rw (e₁, e₂, e₃, e₄) refl,
      record {
        set_up = record {
          distinct = fresh-Distinct fd (record { fd = fd }) cs fresh g.set_up.distinct;
          some_jobs = g.set_up.some_jobs;
          few_jobs = g.set_up.few_jobs;
          short_dir = g.set_up.short_dir;
        };
        clients = hl;
        procs = g.procs;
        queue = g.queue;
        procs_room = omega (arith, g.procs_room);
        clients_room = omega (arith, g.clients_room, length-append cs ((fd, c₀) ∷ []));
        low_room = g.low_room;
        runnable = g.runnable;
        entries = g.entries ++ (record { fd = fd; events = only_pollin; revents = no_events } ∷ []);
        entries_room = omega (arith, g.entries_room, length-append g.entries (new ∷ []));
        poll = hp;
        buffers = λ k c h. elim (Bool-cases (fd ==ℤ k)) [
          | inl same ↦
              let e = lookup-new_self fd k c (record { fd = fd }) cs fresh h same in
              (
                ap (λ x. x.fd) e ∙ (==ℤ_iff fd k).0 same,
                rw same ([], sends, omega (arith, g.low_room)),
              )
          | inr other ↦ rw other (g.buffers k c (lookup-new fd k c (record { fd = fd }) cs h other))
        ];
        watched = λ k c h. elim (Bool-cases (fd ==ℤ k)) [
          | inl same ↦
              let own : fd ≡ k = (==ℤ_iff fd k).0 same in
              rw (same, has_write_data-Sending w [] sends)
                (subst
                  (λ j. ((minus_one ==ℤ j) ≡ false) × IsWatched j false (g.entries ++ (new ∷ [])))
                  own (alive, append-IsWatched_self fd g.entries away))
          | inr other ↦
              let old = g.watched k c (lookup-new fd k c (record { fd = fd }) cs h other) in
              (old.0, rw other (append-IsWatched k _ g.entries new other old.1))
        ];
      },
      refl,
      rw (==ℤ_refl fd) hr,
      rw (==ℤ_refl fd) size,
      rw (==ℤ_refl fd) sends,
      λ k other. rw other,
    )
