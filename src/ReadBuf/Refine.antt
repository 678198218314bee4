-- ===== src/ReadBuf/Refine.antt =====
-- The read buffer is the string of the bytes read and not yet taken.
use native.Mathlib.Nat.{sub-zero, suc-sub-suc}
use why.Base.{
  ℕ, zero, suc, ◌+◌, ◌-◌, ◌*◌, ◌%◌, ◌^◌, ◌≤◌, ◌<◌, ◌≡◌, refl, ap, subst, ◌∙◌, inl, inr, List, [],
  ◌∷◌, ◌++◌, append-nil, append_assoc, some, none, arith, length, set, take, drop, length-set,
  length-append, length-drop, length-replicate, ltb, lt→ltb, le→leb, Bool-cases, Outcome, ok, stop,
  undefined, ◌>>=◌,
}
use why.Base.Memory.{
  Block, malloc, store, memcpy, can_copy, copied, memcpy-ok, length-copied, length-realloc,
}
use why.Base.Starts.{Starts, Starts-set, Starts-append, Starts-realloc}
use why.ReadBuf.{ReadBuf, init_readbuf, prepare_read, have_read, have_taken, fill}

-- The buffer holds the bytes `bs`.
pub record Holds (b : ReadBuf) (bs : List ℕ) : Type 0 where
  pub count : b.len ≡ length bs
  pub fits : b.len ≤ b.capacity
  pub size : length b.bytes ≡ b.capacity
  pub bytes : Starts b.bytes bs

pub init_readbuf-Holds :
    (n : ℕ) → 0 < n → (b : ReadBuf) × (init_readbuf n ≡ ok b) × (b.capacity ≡ n) × Holds b []
unfolding init_readbuf
init_readbuf-Holds n h = (
  record { bytes = malloc n; len = 0; capacity = n },
  rw (lt→ltb 0 n h),
  refl,
  record { count = refl; fits = omega arith; size = length-replicate n none; bytes = tt },
)

-- After `prepare_read` there is room behind the bytes held, which stay.
pub prepare_read-Holds :
    (b : ReadBuf) (n : ℕ) (bs : List ℕ)
    → b.capacity + n < 2 ^ 63
    → Holds b bs
    → let (b', p) = prepare_read b n in
      (p ≡ length bs) × (p + n ≤ b'.capacity) × (b'.capacity ≤ 2 * (b.capacity + n)) × Holds b' bs
unfolding prepare_read
prepare_read-Holds b n bs low h = elim (Bool-cases (ltb b.capacity ((b.len + n) % 2 ^ 64))) [
  | inl grow ↦
      rw (grow, newcap)
        (
          h.count,
          omega (arith, h),
          omega arith,
          record {
            count = h.count;
            fits = omega (arith, h);
            size = length-realloc b.bytes (2 * (b.capacity + n)) (omega (arith, h));
            bytes = Starts-realloc b.bytes (2 * (b.capacity + n)) bs (omega (arith, h)) h.bytes;
          },
        )
  | inr stay ↦ rw stay (h.count, ground (arith, h), omega arith, h)
]
  where
    newcap : (b.capacity + n) % 2 ^ 64 * 2 % 2 ^ 64 ≡ 2 * (b.capacity + n)
    newcap = omega arith

-- `read` writes behind the bytes held.
pub fill-Starts :
    (b : Block ℕ) (bs cs : List ℕ)
    → length bs + length cs ≤ length b
    → Starts b bs
    → (b' : Block ℕ) × (fill b (length bs) cs ≡ ok b')
      × (length b' ≡ length b)
      × Starts b' (bs ++ cs)
unfolding fill store
fill-Starts b bs [] h s = (b, refl, refl, rw (append-nil bs) s)
fill-Starts b bs (c ∷ cs) h s =
    let b₁ = set b (length bs) (some c) in
    let n₁ = length-append bs (c ∷ []) in
    let (b', e, l, s') =
      fill-Starts b₁ (bs ++ (c ∷ [])) cs (omega (arith, n₁, length-set b (length bs) (some c)))
        (Starts-set b bs c (omega arith) s) in
    (
      b',
      rw (lt→ltb (length bs) (length b) (omega arith))
          (ap (λ k. fill b₁ k cs) (omega (arith, n₁)) ∙ e),
      l ∙ length-set b (length bs) (some c),
      subst (Starts b') (append_assoc bs (c ∷ []) cs) s',
    )

-- What a copy to the front of a block leaves there.
Starts-copied :
    (b : Block ℕ) (n : ℕ) (bs : List ℕ)
    → Starts b bs
    → Starts (copied b 0 n (length bs - n)) (drop n bs)
Starts-copied b n bs s =
    Starts-append (take (length bs - n) (drop n b)) _ (drop n bs) (shift b n bs s)
  where
    whole : (b : Block ℕ) (bs : List ℕ) → Starts b bs → Starts (take (length bs) b) bs
    whole b [] s = tt
    whole [] (x ∷ bs) s = absurd s
    whole (c ∷ b) (x ∷ bs) s = (s.0, whole b bs s.1)

    shift :
        (b : Block ℕ) (n : ℕ) (bs : List ℕ)
        → Starts b bs
        → Starts (take (length bs - n) (drop n b)) (drop n bs)
    shift b zero bs s = rw (sub-zero (length bs)) (whole b bs s)
    shift b (suc n) [] s = tt
    shift [] (suc n) (x ∷ bs) s = absurd s
    shift (c ∷ b) (suc n) (x ∷ bs) s = rw (suc-sub-suc (length bs) n) (shift b n bs s.1)

-- `have_taken` drops the first `n` bytes and keeps the rest, if the rest is no longer than what is
-- taken.
pub have_taken-Holds :
    (b : ReadBuf) (n : ℕ) (bs : List ℕ)
    → n ≤ length bs
    → length bs ≤ 2 * n
    → Holds b bs
    → (b' : ReadBuf) × (have_taken b n ≡ ok b') × (b'.capacity ≡ b.capacity) × Holds b' (drop n bs)
unfolding have_taken
have_taken-Holds b n bs h room v = (
  b',
  rw (le→leb n b.len (omega (arith, v)), v.count, copy_ok),
  refl,
  record {
    count = omega (arith, length-drop n bs);
    fits = omega (arith, v);
    size = length-copied b.bytes 0 n (length bs - n) (omega (arith, v)) (omega (arith, v)) ∙ v.size;
    bytes = Starts-copied b.bytes n bs v.bytes;
  },
)
  where
    copy_ok : memcpy b.bytes 0 n (length bs - n) ≡ ok (copied b.bytes 0 n (length bs - n))
    copy_ok =
        memcpy-ok b.bytes 0 n (length bs - n) (omega (arith, v)) (omega (arith, v))
          (inl (omega arith))

    b' : ReadBuf
    b' = record b { bytes = copied b.bytes 0 n (length bs - n); len = length bs - n }

-- If more is left than was taken, the regions that `have_taken` copies between overlap.
pub have_taken_overlap :
    (b : ReadBuf) (n : ℕ) (bs : List ℕ)
    → 2 * n < length bs
    → Holds b bs
    → have_taken b n ≡ stop undefined
unfolding have_taken memcpy can_copy
have_taken_overlap b n bs h v = ground (arith, v)

-- One round of reading: room is made, `read` writes the bytes `cs`, and they are registered.
unfoldable pub read_round : ReadBuf → ℕ → List ℕ → Outcome ReadBuf
read_round b n cs = do
  let room = prepare_read b n
  bytes ← fill (room.0).bytes room.1 cs
  have_read (record (room.0) { bytes = bytes }) (length cs)

-- A round appends the bytes that arrived.
pub read_round-Holds :
    (b : ReadBuf) (n : ℕ) (bs cs : List ℕ)
    → length cs ≤ n
    → b.capacity + n < 2 ^ 62
    → Holds b bs
    → (b' : ReadBuf) × (read_round b n cs ≡ ok b')
      × (b'.capacity ≤ 2 * (b.capacity + n))
      × Holds b' (bs ++ cs)
unfolding read_round have_read
read_round-Holds b n bs cs few low v =
    let r = (prepare_read b n).0 in
    let (at, room, bound, v₁) = prepare_read-Holds b n bs (omega arith) v in
    let (bytes, e, same, s) = fill-Starts r.bytes bs cs (omega (arith, v₁)) v₁.bytes in
    (
      record r { bytes = bytes; len = (r.len + length cs) % 2 ^ 64 },
      rw (at, e, le→leb ((r.len + length cs) % 2 ^ 64) r.capacity (omega (arith, v₁))),
      bound,
      record {
        count = omega (arith, v₁, length-append bs cs);
        fits = omega (arith, v₁);
        size = same ∙ v₁.size;
        bytes = s;
      },
    )
