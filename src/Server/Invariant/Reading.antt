-- ===== src/Server/Invariant/Reading.antt =====
-- Reading from a client keeps the invariant.
use why.Base.{
  ℕ, ◌+◌, ◌-◌, ◌*◌, ◌^◌, ◌≤◌, ◌<◌, ◌≡◌, refl, ap, ◌∙◌, sym, subst, inl, inr, false, [], ◌∷◌, ◌++◌,
  none, some, arith, length, length-append, drop, ltb, leb, leb→le, Bool-cases, ℤ, ◌==ℤ◌, ==ℤ_iff,
  ==ℤ_refl, ok, first_ok,
}
use why.Text.{Str}
use why.ArrayList.Entries.{lookup}
use why.ReadBuf.Refine.{Holds, have_taken-Holds, have_taken_overlap}
use why.Server.{Server, System, Client, Buffers, update}
use why.Server.Clients.{read_once, read_on_client}
use why.Server.Framing.{split_lines, each_line, take_handled}
use why.Server.Received.{read_on_client-lines}
use why.Server.Unread.{
  IsUnread, lines_of, lines_of-append, rest-IsUnread, length-rest, drop-taken, lines-AreWithin,
}
use why.Server.Room.{IsGood-weaken}
use why.Server.Invariant.{IsPosix, Invariant, IsReceiving, IsReceiving-keeps}
use why.Server.Invariant.Lines.{each_line-Served}
use why.Server.Invariant.Closing.{close_client-Invariant}
use why.Server.Invariant.Prepared.{
  all_writebufs, readbufs-IsGood, update-writebuf, prepared, prepared-Invariant,
}

less_of : (a b : ℕ) → leb a b ≡ false → b < a
less_of a b h = ground arith

-- The lines are taken, and part of a line is left.
taken-IsReceiving :
    (s s' : Server) (fd : ℤ) (all : Str) (n : ℕ)
    → Holds (s.buffers fd).readbuf all
    → (s.buffers fd).readbuf.capacity < 2 ^ 60
    → length all + n < 2 ^ 29
    → take_handled fd (length all - length (split_lines all).1) s ≡ ok s'
    → (bufs : (ℤ → Buffers)) × (s' ≡ record s { buffers = bufs })
      × ((k : ℤ) → (bufs k).writebuf ≡ (s.buffers k).writebuf)
      × ((k : ℤ) → (fd ==ℤ k) ≡ false → bufs k ≡ s.buffers k)
      × IsReceiving (record s { buffers = bufs }) fd n
taken-IsReceiving s s' fd all n h low short ran =
    let m = length all - length (split_lines all).1 in
    elim (Bool-cases (ltb 0 m)) [
      | inl some_taken ↦ elim (Bool-cases (leb (length all) (2 * m))) [
        | inl enough ↦
            let (b, e, cap, hb) =
              have_taken-Holds (s.buffers fd).readbuf m all (omega arith) (leb→le _ _ enough) h in
            let one : Buffers = record (s.buffers fd) { readbuf = b } in
            (
              update s.buffers fd one,
              (let f = rw (some_taken, e) at ran in cc),
              λ k. update-writebuf s.buffers fd k b,
              λ k other. rw other,
              record {
                part = (split_lines all).1;
                holds = rw (==ℤ_refl fd) (subst (Holds b) (drop-taken all) hb);
                unread = rest-IsUnread all;
                short = omega (arith, short, length-rest all);
                low = rw (==ℤ_refl fd) (omega (arith, cap, low));
              },
            )
        | inr overlap ↦
            let e = have_taken_overlap (s.buffers fd).readbuf m all (less_of _ _ overlap) h in
            absurd (let f = rw (some_taken, e) at ran in cc)
      ]
      | inr nothing ↦ (
        s.buffers,
        (let e = rw nothing at ran in cc),
        λ k. refl,
        λ k other. refl,
        record {
          part = all;
          holds = h;
          unread = subst IsUnread (sym (all_left nothing)) (rest-IsUnread all);
          short = short;
          low = low;
        },
      )
    ]
  where
    all_left : ltb 0 (length all - length (split_lines all).1) ≡ false → all ≡ (split_lines all).1
    all_left nothing =
        let zero_taken : length all - length (split_lines all).1 ≡ 0 = ground arith in
        ap (λ k. drop k all) (sym zero_taken) ∙ drop-taken all

module _ (os : System) (posix : IsPosix os) (s s' : Server) (fd : ℤ) (c : Client) (n : ℕ) where
  -- The end of the file.
  pub read_end-Invariant :
      (v : Invariant s n)
      → lookup fd v.clients ≡ some c
      → read_on_client os s fd (some []) ≡ ok s'
      → Invariant s' n
  unfolding read_on_client
  read_end-Invariant v found ran =
      let (v', same) = prepared-Invariant s fd c n v found in
      close_client-Invariant (prepared s fd) s' fd c n v' (ap (lookup fd) same ∙ found) ran

  -- A failure.
  pub read_failed-Invariant :
      (v : Invariant s n)
      → lookup fd v.clients ≡ some c
      → read_on_client os s fd none ≡ ok s'
      → Invariant s' n
  unfolding read_on_client
  read_failed-Invariant v found ran =
      let same : prepared s fd ≡ s' = cc in
      subst (λ t. Invariant t n) same (prepared-Invariant s fd c n v found).0

  -- Bytes, each of which uses room.
  pub read_bytes-Invariant :
      (b : ℕ) (bs : Str) (v : Invariant s (length (b ∷ bs) + n))
      → lookup fd v.clients ≡ some c
      → length (b ∷ bs) ≤ read_once
      → read_on_client os s fd (some (b ∷ bs)) ≡ ok s'
      → Invariant s' n
  read_bytes-Invariant b bs v found few ran =
      let r = v.receiving fd c found in
      let all = r.part ++ (b ∷ bs) in
      let (bufs, held, low, own, others, e) =
        read_on_client-lines os s fd r.part b bs few r.low (omega (arith, r.short)) r.holds in
      let s₁ : Server = record s { buffers = bufs } in
      let (t, ran₁, ran₂) = first_ok (each_line os s₁ fd (split_lines all).0) _ (sym e ∙ ran) in
      let l = length-append r.part (b ∷ bs) in
      let few_lines : lines_of all ≤ length (b ∷ bs) =
        omega (arith, lines_of-append r.part (b ∷ bs), ap (λ p. length p.0) r.unread) in
      let g =
        IsGood-weaken s₁ v.clients v.procs v.queue _ _ (length v.queue + (lines_of all + n))
          (2 * length v.queue + length v.procs + 2 * (lines_of all + n)) (omega (arith, few_lines))
          (omega (arith, few_lines))
          (readbufs-IsGood s bufs v.clients v.procs v.queue _ _ (all_writebufs s fd bufs own others)
            v.good) in
      let d =
        each_line-Served os posix s₁ t fd (split_lines all).0 (length all) c v.clients v.procs
          v.queue n found v.named (omega (arith, l, r.short)) (lines-AreWithin all) g ran₁ in
      let (bufs', e', own', others', left) =
        taken-IsReceiving t s' fd all n (rw (d.keeps fd) held) (rw (d.keeps fd) low)
          (omega (arith, l, r.short)) ran₂ in
      subst (λ u. Invariant u n) (sym e')
        (record {
          clients = v.clients;
          procs = d.procs;
          queue = d.queue;
          good = readbufs-IsGood t bufs' v.clients d.procs d.queue _ _ own' d.good;
          named = d.named;
          receiving = λ k c' here. elim (Bool-cases (fd ==ℤ k)) [
            | inl mine ↦
                subst (λ j. IsReceiving (record t { buffers = bufs' }) j n) ((==ℤ_iff fd k).0 mine)
                  left
            | inr other ↦
                IsReceiving-keeps s (record t { buffers = bufs' }) k (length (b ∷ bs) + n) n
                  (omega arith)
                  (ap (λ x. x.readbuf) (others' k other)
                    ∙ d.keeps k
                    ∙ ap (λ x. x.readbuf) (others k other))
                  (v.receiving k c' here)
          ];
        })
