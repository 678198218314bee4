-- ===== src/Server/Interrupted.antt =====
-- `interrupt`: the requests of a client's task that wait are answered, and its processes killed.
use why.Base.{
  ℕ, suc, ◌+◌, ◌^◌, ◌<◌, ◌≡◌, refl, sym, ap, subst, ◌∙◌, inl, inr, false, not, List, [], ◌∷◌, ◌++◌,
  append-nil, append_assoc, map, some, arith, length, filter, Bool-cases, ℤ, ◌==ℤ◌, ==ℤ_iff, ok,
}
use why.Text.{Str, codes}
use why.ArrayList.Entries.{lookup}
use why.ArrayList.Refine.{list_lookup-Holds}
use why.WriteBuf.Refine.{Sending, Sending-unique}
use why.Request.{Request}
use why.Request.Pending.{stays, each, id_matches, remove_from_queue-Holds}
use why.Proc.{Proc, is_target}
use why.Proc.Refine.{kill_processes-filter}
use why.Poll.{PollList}
use why.Server.{Server, System, Client, Buffers, killed}
use why.Server.Messages.{finished_text}
use why.Server.Lines.{handle_queue_remove, interrupt}
use why.Server.Limits.{send_msg_to_client-queue_write, length-finished_text, decimal_three}
use why.Server.View.{IsGood, AreRunnable, Keeps, Told, queue_write-IsGood}
use why.Server.Closed.{AreRunnable-filter}

-- The answer to a request that is taken out of the queue.
abbrev pub removed_text : Request → Str
removed_text r = finished_text r.id 0 (codes "0.000000") false []

-- So many messages more are on their way to the client, and no other client's buffers change.
pub record ToldAll (old new : ℤ → Buffers) (fd : ℤ) (msgs : List Str) : Type 0 where
  pub before : List Str
  pub was : Sending (old fd).writebuf before
  pub now : Sending (new fd).writebuf (before ++ msgs)
  pub readbuf : (new fd).readbuf ≡ (old fd).readbuf
  pub others : (k : ℤ) → (fd ==ℤ k) ≡ false → new k ≡ old k

pub ToldAll-Keeps :
    (old new : ℤ → Buffers) (fd : ℤ) (msgs : List Str) → ToldAll old new fd msgs → Keeps old new
ToldAll-Keeps old new fd msgs t k = elim (Bool-cases (fd ==ℤ k)) [
  | inl here ↦ subst (λ j. (new j).readbuf ≡ (old j).readbuf) ((==ℤ_iff fd k).0 here) t.readbuf
  | inr other ↦ ap (λ b. b.readbuf) (t.others k other)
]

-- Requests of one client.
abbrev AreOf : ℤ → List Request → Type 0
AreOf key [] = Unit
AreOf key (r ∷ rs) = (r.key ≡ key) × (length r.id < 2 ^ 30) × AreOf key rs

removed-AreOf :
    (key : ℤ) (id : Str) (rs : List Request)
    → AreRunnable rs
    → AreOf key (filter (λ r. not (stays key (some id) r)) rs)
unfolding stays
removed-AreOf key id [] h = tt
removed-AreOf key id (r ∷ rs) h = elim (Bool-cases (r.key ==ℤ key)) [
  | inl e ↦ elim (Bool-cases (id_matches (some id) r.id)) [
    | inl f ↦ rw (e, f) ((==ℤ_iff r.key key).0 e, h.0.short_id, removed-AreOf key id rs h.1)
    | inr f ↦ rw (e, f) (removed-AreOf key id rs h.1)
  ]
  | inr e ↦ rw e (removed-AreOf key id rs h.1)
]

module _ (cs : List (ℤ × Client)) (ps : List (ℤ × Proc)) (rs : List Request) (starts room : ℕ)
    (key : ℤ) (c : Client) (found : lookup key cs ≡ some c) where
  -- One answer.
  handle_queue_remove-tells :
      (s : Server) (r : Request) (n : ℕ)
      → r.key ≡ key
      → length r.id < 2 ^ 30
      → IsGood s cs ps rs starts (suc n)
      → (bufs : (ℤ → Buffers)) × (poll : PollList) × (handle_queue_remove s r
          ≡ ok (record s { buffers = bufs; poll = poll }))
        × Told s.buffers bufs key (removed_text r)
        × IsGood (record s { buffers = bufs; poll = poll }) cs ps rs starts n
  unfolding handle_queue_remove
  handle_queue_remove-tells s r n own short g =
      let same = (g.buffers key c found).0 in
      let (bufs, poll, e, told, g') =
        queue_write-IsGood s key c (removed_text r) cs ps rs starts n found fits g in
      (
        bufs,
        poll,
        rw
            (
              own,
              list_lookup-Holds s.clients key cs g.clients,
              found,
              same,
              send_msg_to_client-queue_write s key r.id 0 (codes "0.000000") false [] (omega arith)
                  (omega arith),
            )
            e,
        told,
        g',
      )
    where
      fits : length (removed_text r) < 2 ^ 31
      fits = omega (
        arith,
        short,
        length-finished_text r.id 0 (codes "0.000000") false [],
        decimal_three 10 0 (omega arith),
      )

  -- All answers.
  each-tells :
      (s : Server) (qs : List Request)
      → AreOf key qs
      → IsGood s cs ps rs starts (length qs + room)
      → (bufs : (ℤ → Buffers)) × (poll : PollList) × (each handle_queue_remove s qs
          ≡ ok (record s { buffers = bufs; poll = poll }))
        × ToldAll s.buffers bufs key (map removed_text qs)
        × IsGood (record s { buffers = bufs; poll = poll }) cs ps rs starts room
  unfolding each
  each-tells s [] own g =
      let (same, (ms, sends, few)) = g.buffers key c found in
      (
        s.buffers,
        s.poll,
        refl,
        record {
          before = ms;
          was = sends;
          now = subst (Sending (s.buffers key).writebuf) (sym (append-nil ms)) sends;
          readbuf = refl;
          others = λ k other. refl;
        },
        subst (IsGood s cs ps rs starts)
            (let e : length {A = Request} [] + room ≡ room = omega arith in e) g,
      )
  each-tells s (r ∷ qs) own g =
      let g₀ =
        subst (IsGood s cs ps rs starts)
          (let e : length (r ∷ qs) + room ≡ suc (length qs + room) = omega arith in e) g in
      let (bufs₁, poll₁, e₁, told, g₁) =
        handle_queue_remove-tells s r (length qs + room) own.0 own.1 g₀ in
      let (bufs, poll, e, all, g') =
        each-tells (record s { buffers = bufs₁; poll = poll₁ }) qs own.2 g₁ in
      (
        bufs,
        poll,
        rw e₁ e,
        record {
          before = told.before;
          was = told.was;
          now =
              subst (Sending (bufs key).writebuf)
                (ap (λ l. l ++ map removed_text qs)
                    (Sending-unique (bufs₁ key).writebuf all.before
                      (told.before ++ (removed_text r ∷ [])) all.was told.now)
                  ∙ append_assoc told.before (removed_text r ∷ []) (map removed_text qs))
                all.now;
          readbuf = all.readbuf ∙ told.readbuf;
          others = λ k other. all.others k other ∙ told.others k other;
        },
        g',
      )

-- The processes of a client's task.
abbrev pub own_task : ℤ → Str → List (ℤ × Proc) → List ℤ
own_task key id ps = map (λ p. p.id) (filter (is_target key (some id)) (map (λ e. e.1) ps))

-- The waiting requests with a given id of a client.
abbrev pub interrupted : ℤ → Str → List Request → List Request
interrupted key id rs = filter (λ r. not (stays key (some id) r)) rs

pub interrupt-answers :
    (os : System) (s : Server) (key : ℤ) (id : Str) (c : Client) (cs : List (ℤ × Client))
    (ps : List (ℤ × Proc)) (rs : List Request) (starts room : ℕ)
    → lookup key cs ≡ some c
    → length rs < 2 ^ 30
    → IsGood s cs ps rs starts (length (interrupted key id rs) + room)
    → (s' : Server) × (interrupt os s key id ≡ ok s')
      × ToldAll s.buffers s'.buffers key (map removed_text (interrupted key id rs))
      × IsGood s' cs ps (filter (stays key (some id)) rs) starts room
      × (s'.processes ≡ s.processes)
      × (s'.effects ≡ s.effects ++ (killed (own_task key id ps) ∷ []))
unfolding interrupt
interrupt-answers os s key id c cs ps rs starts room found few g =
    let (bufs, poll, e, told, g') =
      each-tells cs ps rs starts room key c found s (interrupted key id rs)
        (removed-AreOf key id rs g.runnable) g in
    let (q, e₁, hq) =
      remove_from_queue-Holds handle_queue_remove s.queue key (some id) s
        (record s { buffers = bufs; poll = poll }) rs few g.queue e in
    (
      record s {
        buffers = bufs;
        poll = poll;
        queue = q;
        effects = s.effects ++ (killed (own_task key id ps) ∷ []);
      },
      rw (e₁, kill_processes-filter s.processes key (some id) ps g.procs) refl,
      told,
      record {
        set_up = g'.set_up;
        clients = g'.clients;
        procs = g'.procs;
        queue = hq;
        procs_room = g'.procs_room;
        clients_room = g'.clients_room;
        low_room = g'.low_room;
        runnable = AreRunnable-filter (stays key (some id)) rs g'.runnable;
        entries = g'.entries;
        entries_room = g'.entries_room;
        poll = g'.poll;
        buffers = g'.buffers;
        watched = g'.watched;
      },
      refl,
      refl,
    )
