-- ===== src/Server/Invariant/Writing.antt =====
-- Writing to a client keeps the invariant.
use why.Base.{
  ℕ, ◌+◌, ◌^◌, ◌<◌, ◌≡◌, refl, ap, ◌∙◌, sym, subst, inl, inr, true, false, List, [], ◌∷◌, Option,
  none, some, arith, length, get_elem?, leb, leb→le, Bool-cases, ℤ, ◌==ℤ◌, ==ℤ_iff, ok,
}
use why.Text.{Str}
use why.ArrayList.Entries.{lookup}
use why.WriteBuf.{WriteBuf, has_write_data}
use why.WriteBuf.Refine.{
  Sending, Sending-unique, has_write_data-Sending, prepare_write-Sending, prepare_write_twice,
  prepare_write_idle, have_written_more,
}
use why.Poll.{PollFd}
use why.Request.{Request}
use why.Proc.{Proc}
use why.Poll.Watch.{IsWatched}
use why.Server.{Server, Client, update}
use why.Server.Clients.{write_to_client}
use why.Server.View.{IsGood, HasRoom}
use why.Server.Written.{write_to_client-sends}
use why.Server.Invariant.{Invariant, IsReceiving, IsReceiving-keeps}
use why.Server.Invariant.Jobs.{ok_unique}

-- The client's buffer is marked as being written.
abbrev pub writing : Server → ℤ → Server
writing s fd = record s {
  buffers =
      update s.buffers fd
        (record (s.buffers fd) { writebuf = record (s.buffers fd).writebuf { is_writing = true } });
}

-- A write that has begun leaves the messages as they were.
writing-IsGood :
    (s : Server) (fd : ℤ) (m : Str) (ms : List Str) (cs : List (ℤ × Client)) (ps : List (ℤ × Proc))
    (rs : List Request) (starts room : ℕ)
    → (s.buffers fd).writebuf.is_writing ≡ false
    → Sending (s.buffers fd).writebuf (m ∷ ms)
    → IsGood s cs ps rs starts room
    → IsGood (writing s fd) cs ps rs starts room
writing-IsGood s fd m ms cs ps rs starts room still sends g =
    let w₀ = (s.buffers fd).writebuf in
    let w : WriteBuf = record w₀ { is_writing = true } in
    let (e, sends') = prepare_write-Sending w₀ m ms still sends in
    record {
      set_up = g.set_up;
      clients = g.clients;
      procs = g.procs;
      queue = g.queue;
      procs_room = g.procs_room;
      clients_room = g.clients_room;
      low_room = g.low_room;
      runnable = g.runnable;
      entries = g.entries;
      entries_room = g.entries_room;
      poll = g.poll;
      buffers = λ k c here. (
        (g.buffers k c here).0,
        elim (Bool-cases (fd ==ℤ k)) [
          | inl mine ↦
              let own : fd ≡ k = (==ℤ_iff fd k).0 mine in
              let (ns, was, low) =
                subst (λ j. HasRoom (s.buffers j).writebuf room) (sym own)
                  ((g.buffers k c here).1) in
              rw mine (
                m ∷ ms,
                sends',
                subst (λ l. length l + room < 2 ^ 30) (Sending-unique w₀ ns (m ∷ ms) was sends) low,
              )
          | inr other ↦ rw other ((g.buffers k c here).1)
        ],
      );
      watched = λ k c here. (
        (g.watched k c here).0,
        elim (Bool-cases (fd ==ℤ k)) [
          | inl mine ↦
              let own : fd ≡ k = (==ℤ_iff fd k).0 mine in
              let same : has_write_data w ≡ has_write_data w₀ =
                has_write_data-Sending w (m ∷ ms) sends'
                ∙ sym (has_write_data-Sending w₀ (m ∷ ms) sends) in
              rw (mine, same)
                (subst (λ j. IsWatched k (has_write_data (s.buffers j).writebuf) g.entries)
                  (sym own) ((g.watched k c here).1))
          | inr other ↦ rw other ((g.watched k c here).1)
        ],
      );
    }

module _ (s s' : Server) (fd : ℤ) (c : Client) (i n : ℕ) (x : PollFd) (v : Invariant s n)
    (found : lookup fd v.clients ≡ some c) (at : get_elem? v.good.entries i ≡ some x)
    (own : (x.fd ==ℤ fd) ≡ true) where
  -- Some bytes were written.
  written-Invariant :
      (k : ℕ) (m : Str) (ms : List Str)
      → (s.buffers fd).writebuf.is_writing ≡ false
      → Sending (s.buffers fd).writebuf (m ∷ ms)
      → write_to_client s fd i (some k) ≡ ok s'
      → Invariant s' n
  unfolding write_to_client
  written-Invariant k m ms still sends ran = elim (Bool-cases (leb k (length m))) [
    | inl few ↦
        let (t, e, _, _, same, others, good, _) =
          write_to_client-sends s fd c i k x m ms v.clients v.procs v.queue _ _ found still sends
            (leb→le k (length m) few) v.good at own in
        subst (λ t. Invariant t n) (ok_unique (write_to_client s fd i (some k)) t s' e ran)
          (record {
            clients = v.clients;
            procs = v.procs;
            queue = v.queue;
            good = good;
            named = v.named;
            receiving = λ j c' here. elim (Bool-cases (fd ==ℤ j)) [
              | inl mine ↦
                  subst (λ l. IsReceiving t l n) ((==ℤ_iff fd j).0 mine)
                    (IsReceiving-keeps s t fd n n (omega arith) same (v.receiving fd c found))
              | inr other ↦
                  IsReceiving-keeps s t j n n (omega arith) (ap (λ b. b.readbuf) (others j other))
                    (v.receiving j c' here)
            ];
          })
    | inr many ↦
        let (e₁, sends₁) = prepare_write-Sending (s.buffers fd).writebuf m ms still sends in
        let e₂ =
          have_written_more (record (s.buffers fd).writebuf { is_writing = true }) k m ms refl
            (more k (length m) many) sends₁ in
        absurd (let f = rw (e₁, e₂) at ran in cc)
  ]
    where
      more : (a b : ℕ) → leb a b ≡ false → b < a
      more a b h = ground arith

  -- The write failed.
  failed-Invariant :
      (m : Str) (ms : List Str)
      → (s.buffers fd).writebuf.is_writing ≡ false
      → Sending (s.buffers fd).writebuf (m ∷ ms)
      → write_to_client s fd i none ≡ ok s'
      → Invariant s' n
  unfolding write_to_client
  failed-Invariant m ms still sends ran =
      let w₀ = (s.buffers fd).writebuf in
      let (e, sends') = prepare_write-Sending w₀ m ms still sends in
      let same : writing s fd ≡ s' =
        (let f =
            rw (e, has_write_data-Sending (record w₀ { is_writing = true }) (m ∷ ms) sends') at
              ran in
          cc) in
      subst (λ t. Invariant t n) same
        (record {
          clients = v.clients;
          procs = v.procs;
          queue = v.queue;
          good = writing-IsGood s fd m ms v.clients v.procs v.queue _ _ still sends v.good;
          named = v.named;
          receiving = λ k c' here.
              IsReceiving-keeps s (writing s fd) k n n (omega arith) (writing-readbuf k)
                (v.receiving k c' here);
        })
    where
      writing-readbuf : (k : ℤ) → ((writing s fd).buffers k).readbuf ≡ (s.buffers k).readbuf
      writing-readbuf k = elim (Bool-cases (fd ==ℤ k)) [
        | inl mine ↦ rw mine (ap (λ j. (s.buffers j).readbuf) ((==ℤ_iff fd k).0 mine))
        | inr other ↦ rw other
      ]

  answered :
      (answer : Option ℕ) (m : Str) (ms : List Str)
      → (s.buffers fd).writebuf.is_writing ≡ false
      → Sending (s.buffers fd).writebuf (m ∷ ms)
      → write_to_client s fd i answer ≡ ok s'
      → Invariant s' n
  answered none m ms still sends ran = failed-Invariant m ms still sends ran
  answered (some k) m ms still sends ran = written-Invariant k m ms still sends ran

  begun :
      (answer : Option ℕ) (ms : List Str)
      → Sending (s.buffers fd).writebuf ms
      → write_to_client s fd i answer ≡ ok s'
      → Invariant s' n
  unfolding write_to_client
  begun answer [] sends ran =
      absurd (let f = rw (prepare_write_idle (s.buffers fd).writebuf sends) at ran in cc)
  begun answer (m ∷ ms) sends ran = elim (Bool-cases (s.buffers fd).writebuf.is_writing) [
    | inl twice ↦
        absurd (let f = rw (prepare_write_twice (s.buffers fd).writebuf twice) at ran in cc)
    | inr still ↦ answered answer m ms still sends ran
  ]

  pub write_to_client-Invariant :
      (answer : Option ℕ) → write_to_client s fd i answer ≡ ok s' → Invariant s' n
  write_to_client-Invariant answer ran =
      let (same, (ms, sends, low)) = v.good.buffers fd c found in begun answer ms sends ran
