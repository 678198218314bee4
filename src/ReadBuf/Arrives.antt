-- ===== src/ReadBuf/Arrives.antt =====
-- A read that has begun and the end of it, which may come later.
use why.Base.{
  ℕ, ◌+◌, ◌*◌, ◌%◌, ◌^◌, ◌≤◌, ◌<◌, ◌≡◌, refl, ap, ◌∙◌, List, ◌++◌, length, length-append, le→leb,
  ltb, Bool-cases, inl, inr, ok, arith,
}
use why.Base.Memory.{Block}
use why.ReadBuf.{ReadBuf, prepare_read, have_read, fill}
use why.ReadBuf.Refine.{Holds, prepare_read-Holds, fill-Starts}

-- The buffer holds `bs`, and there is room for the `n` bytes that a read may bring.
pub record IsReading (n : ℕ) (b : ReadBuf) (bs : List ℕ) : Type 0 where
  pub holds : Holds b bs
  pub room : b.len + n ≤ b.capacity

pub prepare_read-IsReading :
    (n : ℕ) (b : ReadBuf) (bs : List ℕ)
    → b.capacity + n < 2 ^ 63
    → Holds b bs
    → ((prepare_read b n).1 ≡ (prepare_read b n).0.len)
      × IsReading n (prepare_read b n).0 bs
      × ((prepare_read b n).0.capacity ≤ 2 * (b.capacity + n))
prepare_read-IsReading n b bs low h =
    let (at, room, bound, h') = prepare_read-Holds b n bs low h in
    (omega (arith, at, h'), record { holds = h'; room = omega (arith, at, room, h') }, bound)

-- The buffer grows only for bytes that it holds, so that its capacity stays in proportion to them.
pub prepare_read_bounded :
    (n : ℕ) (b : ReadBuf) (bs : List ℕ) (k : ℕ)
    → b.capacity + n < 2 ^ 63
    → Holds b bs
    → 2 * (length bs + 2 * n) ≤ k
    → b.capacity ≤ k
    → (prepare_read b n).0.capacity ≤ k
unfolding prepare_read
prepare_read_bounded n b bs k low h many few =
    elim (Bool-cases (ltb b.capacity ((b.len + n) % 2 ^ 64))) [
      | inl grow ↦
          let tight : b.capacity < length bs + n = ground (arith, h.count, h.fits) in
          rw grow (omega (arith, tight, low))
      | inr stay ↦ rw stay few
    ]

-- What arrived is behind what the buffer held.
pub arrives :
    (n : ℕ) (b : ReadBuf) (bs cs : List ℕ)
    → length cs ≤ n
    → b.capacity < 2 ^ 62
    → IsReading n b bs
    → (bytes : Block ℕ) × (fill b.bytes b.len cs ≡ ok bytes)
      × (b' : ReadBuf) × (have_read (record b { bytes = bytes }) (length cs) ≡ ok b')
      × (b'.capacity ≡ b.capacity)
      × Holds b' (bs ++ cs)
unfolding have_read
arrives n b bs cs few low r =
    let h = r.holds in
    let (bytes, e, same, s) = fill-Starts b.bytes bs cs (omega (arith, r, h)) h.bytes in
    (
      bytes,
      ap (λ k. fill b.bytes k cs) h.count ∙ e,
      record b { bytes = bytes; len = (b.len + length cs) % 2 ^ 64 },
      rw (le→leb ((b.len + length cs) % 2 ^ 64) b.capacity (omega (arith, r, h))),
      refl,
      record {
        count = omega (arith, r, h, length-append bs cs);
        fits = omega (arith, r, h);
        size = same ∙ h.size;
        bytes = s;
      },
    )
