-- ===== src/Server/Received.antt =====
-- `read_on_client`: what is done with the bytes that arrive from a client.
use why.Base.{
  ℕ, ◌-◌, ◌^◌, ◌≤◌, ◌<◌, ◌≡◌, false, ◌∷◌, ◌++◌, some, arith, length, length-append, ℤ, ◌==ℤ◌,
  ==ℤ_refl, ◌>>=◌,
}
use why.Text.{Str}
use why.ReadBuf.{prepare_read}
use why.ReadBuf.Refine.{Holds}
use why.ReadBuf.Arrives.{prepare_read-IsReading, prepare_read_bounded, arrives}
use why.Server.{Server, System, Buffers, update}
use why.Server.Clients.{read_once, read_on_client}
use why.Server.Framing.{split_lines, each_line, take_handled, handle_msg-each_line}

update-twice :
    (f : ℤ → Buffers) (fd k : ℤ) (b b' : Buffers)
    → (fd ==ℤ k) ≡ false
    → update (update f fd b) fd b' k ≡ f k
update-twice f fd k b b' other = rw other

-- The bytes that arrive from a client are put behind those that its read buffer holds, and each line
-- that is then complete is handled once, in order and without its newline; the handled lines are taken
-- out of the buffer, and what is behind the last newline stays. Nothing else changes before the
-- first line is handled. `read` returned at least one byte and no more than it was asked for. The buffer held fewer than
-- 2 ^ 30 bytes; its capacity stays below 2 ^ 60.
pub read_on_client-lines :
    (os : System) (s : Server) (fd : ℤ) (bs : Str) (c : ℕ) (cs : Str)
    → length (c ∷ cs) ≤ read_once
    → (s.buffers fd).readbuf.capacity < 2 ^ 60
    → length bs < 2 ^ 30
    → Holds (s.buffers fd).readbuf bs
    → let all = bs ++ (c ∷ cs) in
      (bufs : (ℤ → Buffers)) × Holds (bufs fd).readbuf all
      × ((bufs fd).readbuf.capacity < 2 ^ 60)
      × ((bufs fd).writebuf ≡ (s.buffers fd).writebuf)
      × ((k : ℤ) → (fd ==ℤ k) ≡ false → bufs k ≡ s.buffers k)
      × (read_on_client os s fd (some (c ∷ cs)) ≡ (do
        s' ← each_line os (record s { buffers = bufs }) fd (split_lines all).0
        take_handled fd (length all - length (split_lines all).1) s'))
unfolding read_on_client
read_on_client-lines os s fd bs c cs few low short h =
    let b₀ = (s.buffers fd).readbuf in
    let (at, r, bound) = prepare_read-IsReading read_once b₀ bs (omega arith) h in
    let b₁ = (prepare_read b₀ read_once).0 in
    let tight =
      prepare_read_bounded read_once b₀ bs (2 ^ 60 - 1) (omega arith) h (omega arith)
        (omega arith) in
    let (bytes, e₁, b₂, e₂, cap, h₂) =
      arrives read_once b₁ bs (c ∷ cs) few (omega (arith, bound)) r in
    let one : Buffers = record (s.buffers fd) { readbuf = b₁ } in
    let two : Buffers = record one { readbuf = b₂ } in
    let bufs = update (update s.buffers fd one) fd two in
    let all = bs ++ (c ∷ cs) in
    let held : Holds (bufs fd).readbuf all = rw (==ℤ_refl fd) h₂ in
    (
      bufs,
      held,
      rw (==ℤ_refl fd) (omega (arith, cap, tight)),
      rw (==ℤ_refl fd),
      λ k other. update-twice s.buffers fd k one two other,
      rw (==ℤ_refl fd, at, e₁, e₂)
          (handle_msg-each_line os (record s { buffers = bufs }) fd all
            (omega (arith, few, short, length-append bs (c ∷ cs))) held),
    )
