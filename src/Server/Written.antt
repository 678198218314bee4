-- ===== src/Server/Written.antt =====
-- `write_to_client`: a descriptor is ready for writing.
use why.Base.{
  stop, aborts, ℕ, suc, ◌≤◌, ◌≡◌, refl, ap, inl, inr, Bool, true, false, List, [], ◌∷◌, Option,
  some, none, arith, length, length-set, ==ℤ_iff, subst, get_elem?, set, Bool-cases, if◌then◌else◌,
  ℤ, ◌==ℤ◌, ==ℤ_refl, ok,
}
use why.Text.{Str}
use why.ArrayList.Entries.{lookup}
use why.WriteBuf.{WriteBuf, has_write_data}
use why.WriteBuf.Refine.{
  Sending, Sending-unique, prepare_write_twice, written, prepare_write-Sending,
  have_written-Sending, has_write_data-Sending,
}
use why.Request.{Request}
use why.Proc.{Proc}
use why.Poll.{PollFd, PollList, set_pollout}
use why.Poll.Refine.{with_pollout, set_pollout-at, Holds as PollHolds}
use why.Server.{Server, Client, Buffers, update}
use why.Server.Clients.{write_to_client}
use why.Poll.Watch.{IsWatched, set-IsWatched, set-IsWatched_self}
use why.Server.View.{IsGood}

-- The entry waits for writing as long as messages are left.
abbrev pub waits_while : List Str → PollFd → ℕ → List PollFd → List PollFd
waits_while [] x i es = set es i (with_pollout x false)
waits_while (m ∷ ms) x i es = es

length-waits_while :
    (left : List Str) (x : PollFd) (i : ℕ) (es : List PollFd)
    → length (waits_while left x i es) ≡ length es
length-waits_while [] x i es = length-set es i (with_pollout x false)
length-waits_while (m ∷ ms) x i es = refl

rearmed :
    (p : PollList) (i : ℕ) (x : PollFd) (es : List PollFd) (w : WriteBuf) (left : List Str)
    → get_elem? es i ≡ some x
    → Sending w left
    → PollHolds p es
    → (p' : PollList) × ((if has_write_data w then ok p else set_pollout p (some i) false) ≡ ok p')
      × PollHolds p' (waits_while left x i es)
rearmed p i x es w [] at sends h =
    let (p', e, h') = set_pollout-at p i false x es at h in
    (p', rw (has_write_data-Sending w [] sends) e, h')
rearmed p i x es w (m ∷ ms) at sends h = (p, rw (has_write_data-Sending w (m ∷ ms) sends), h)

not_touched :
    (fd k : ℤ) (left : List Str) (b : Bool) (i : ℕ) (x : PollFd) (es : List PollFd)
    → get_elem? es i ≡ some x
    → (x.fd ==ℤ fd) ≡ true
    → (fd ==ℤ k) ≡ false
    → IsWatched k b es
    → IsWatched k b (waits_while left x i es)
not_touched fd k [] b i x es at own other h = set-IsWatched fd k b false es i x at own other h
not_touched fd k (l ∷ left) b i x es at own other h = h

still_watched :
    (fd : ℤ) (i : ℕ) (x : PollFd) (es : List PollFd) (m : Str) (ms left : List Str)
    (w₀ w : WriteBuf)
    → get_elem? es i ≡ some x
    → (x.fd ==ℤ fd) ≡ true
    → Sending w₀ (m ∷ ms)
    → Sending w left
    → IsWatched fd (has_write_data w₀) es
    → IsWatched fd (has_write_data w) (waits_while left x i es)
still_watched fd i x es m ms [] w₀ w at own was sends h =
    rw (has_write_data-Sending w [] sends) (set-IsWatched_self fd _ false es i x at own h)
still_watched fd i x es m ms (l ∷ left) w₀ w at own was sends h =
    rw (has_write_data-Sending w (l ∷ left) sends)
      (let h' = rw (has_write_data-Sending w₀ (m ∷ ms) was) at h in h')

length-written : (n : ℕ) (m : Str) (ms : List Str) → length (written n m ms) ≤ suc (length ms)
length-written n m ms = ground arith

pub write_to_client-sends :
    (s : Server) (fd : ℤ) (c : Client) (i n : ℕ) (x : PollFd) (m : Str) (ms : List Str)
    (cs : List (ℤ × Client)) (ps : List (ℤ × Proc)) (rs : List Request) (starts room : ℕ)
    → lookup fd cs ≡ some c
    → (s.buffers fd).writebuf.is_writing ≡ false
    → Sending (s.buffers fd).writebuf (m ∷ ms)
    → n ≤ length m
    → (g : IsGood s cs ps rs starts room) → get_elem? g.entries i ≡ some x
    → (x.fd ==ℤ fd) ≡ true
    → (s' : Server) × (write_to_client s fd i (some n) ≡ ok s')
      × ((s'.buffers fd).writebuf.is_writing ≡ false)
      × Sending (s'.buffers fd).writebuf (written n m ms)
      × ((s'.buffers fd).readbuf ≡ (s.buffers fd).readbuf)
      × ((k : ℤ) → (fd ==ℤ k) ≡ false → s'.buffers k ≡ s.buffers k)
      × (good : IsGood s' cs ps rs starts room) × (good.entries
          ≡ waits_while (written n m ms) x i g.entries)
unfolding write_to_client
write_to_client-sends s fd c i n x m ms cs ps rs starts room found still sends few g at own =
    let w₀ = (s.buffers fd).writebuf in
    let (e₁, sends₁) = prepare_write-Sending w₀ m ms still sends in
    let (w, e₂, still', sends') =
      have_written-Sending (record w₀ { is_writing = true }) n m ms refl few sends₁ in
    let (p, e₃, h) = rearmed s.poll i x g.entries w (written n m ms) at sends' g.poll in
    let (same, (ns, was, low)) = g.buffers fd c found in
    let count : length ns ≡ suc (length ms) = ap length (Sending-unique w₀ ns (m ∷ ms) was sends) in
    let b : Buffers = record (s.buffers fd) { writebuf = w } in
    (
      record s { buffers = update s.buffers fd b; poll = p },
      rw (e₁, e₂, e₃),
      rw (==ℤ_refl fd) still',
      rw (==ℤ_refl fd) sends',
      rw (==ℤ_refl fd),
      λ k other. rw other,
      record {
        set_up = g.set_up;
        clients = g.clients;
        procs = g.procs;
        queue = g.queue;
        procs_room = g.procs_room;
        clients_room = g.clients_room;
        low_room = g.low_room;
        runnable = g.runnable;
        entries = waits_while (written n m ms) x i g.entries;
        entries_room =
            omega (arith, g.entries_room, length-waits_while (written n m ms) x i g.entries);
        poll = h;
        buffers = λ k c' found'. (
          (g.buffers k c' found').0,
          elim (Bool-cases (fd ==ℤ k)) [
            | inl here ↦
                rw here (written n m ms, sends', omega (arith, count, low, length-written n m ms))
            | inr other ↦ rw other ((g.buffers k c' found').1)
          ],
        );
        watched = λ k c' found'. (
          (g.watched k c' found').0,
          elim (Bool-cases (fd ==ℤ k)) [
            | inl here ↦
                let mine : fd ≡ k = (==ℤ_iff fd k).0 here in
                rw here (
                  subst
                    (λ j.
                      IsWatched j (has_write_data w) (waits_while (written n m ms) x i g.entries))
                    mine
                    (still_watched fd i x g.entries m ms (written n m ms) w₀ w at own sends sends'
                      (g.watched fd c found).1))
            | inr other ↦ rw other (
                not_touched fd k (written n m ms) _ i x g.entries at own other
                  (g.watched k c' found').1)
          ],
        );
      },
      refl,
    )

-- A write that failed leaves the buffer marked as being written, and the next time that the client's
-- descriptor is ready for writing the server aborts, whatever the write would have answered. There
-- must be a message to write.
pub write_to_client-failed :
    (s : Server) (fd : ℤ) (i : ℕ) (m : Str) (ms : List Str)
    → (s.buffers fd).writebuf.is_writing ≡ false
    → Sending (s.buffers fd).writebuf (m ∷ ms)
    → (s' : Server) × (write_to_client s fd i none ≡ ok s')
      × ((j : ℕ) (answer : Option ℕ) → write_to_client s' fd j answer ≡ stop aborts)
unfolding write_to_client
write_to_client-failed s fd i m ms still sends =
    let w₀ = (s.buffers fd).writebuf in
    let (e, sends') = prepare_write-Sending w₀ m ms still sends in
    let w : WriteBuf = record w₀ { is_writing = true } in
    let b : Buffers = record (s.buffers fd) { writebuf = w } in
    (
      record s { buffers = update s.buffers fd b; poll = s.poll },
      rw (e, has_write_data-Sending w (m ∷ ms) sends'),
      λ j answer. rw (==ℤ_refl fd, prepare_write_twice w refl),
    )
