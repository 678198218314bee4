-- ===== src/WriteBuf/Refine.antt =====
-- The write buffer is the string of the bytes pushed and not yet written.
use native.Mathlib.Nat.{zero-add, add-zero, suc-add}
use why.Base.{
  Bool, ℕ, zero, suc, ◌+◌, ◌-◌, ◌^◌, ◌≤◌, ◌<◌, ◌≡◌, refl, ap, ap₂, ◌∙◌, sym, inl, inr, true, false,
  List, [], ◌∷◌, ◌++◌, some, none, arith, length, drop, get_or, length-drop, ltb, leb, lt→ltb,
  ltb→lt, le→leb, Bool-cases, if◌then◌else◌, ok, stop, aborts,
}
use why.Queue.Refine.{
  init_queue-Holds, queue_push-Holds, queue_pop-Holds, queue_is_empty-nil, queue_is_empty-cons,
  Holds-unique, Holds as Queued,
}
use why.WriteBuf.{
  has_write_data, WriteBuf, init_writebuf, prepare_write, have_written, push_write_data,
  next_message,
}

-- All the bytes of the messages, in order.
abbrev pub bytes_of : List (List ℕ) → List ℕ
bytes_of [] = []
bytes_of (s ∷ ms) = s ++ bytes_of ms

-- Each message is short enough for an `int`.
abbrev pub Short : List (List ℕ) → Type 0
Short [] = Unit
Short (s ∷ ms) = (length s < 2 ^ 31) × Short ms

-- The current message and the place in it, if any, and the messages queued behind.
pub record Current (b : WriteBuf) (s : List ℕ) : Type 0 where
  pub message : b.message ≡ some s
  pub len : b.len ≡ length s
  pub pointer_in : b.pointer ≤ b.len

pub data Sending (b : WriteBuf) : List (List ℕ) → Type 0 where
  idle : b.message ≡ none → b.is_writing ≡ false → Queued b.writequeue [] → Sending b []
  busy :
      {ms : List (List ℕ)} (s : List ℕ) (q : List (List ℕ))
      → Current b s
      → Queued b.writequeue q
      → Short q
      → ms ≡ drop b.pointer s ∷ q
      → Sending b ms

-- The messages on their way are determined by the buffer.
pub Sending-unique : (b : WriteBuf) (ms ns : List (List ℕ)) → Sending b ms → Sending b ns → ms ≡ ns
Sending-unique b [] [] (idle e still h) (idle f still' h') = refl
Sending-unique b [] ns (idle e still h) (busy s q c h' short f) =
    absurd (let g = sym e ∙ c.message in cc)
Sending-unique b ms [] (busy s q c h short e) (idle f still h') =
    absurd (let g = sym f ∙ c.message in cc)
Sending-unique b ms ns (busy s q c h short e) (busy t r d h' short' f) =
    e ∙ ap₂ (λ u v. drop b.pointer u ∷ v) same (Holds-unique b.writequeue q r h h') ∙ sym f
  where
    same : s ≡ t
    same = let g = sym c.message ∙ d.message in cc

abbrev pub is_cons {ℓ} : {A : Type ℓ} → List A → Bool
is_cons [] = false
is_cons (x ∷ xs) = true

-- A buffer has data to write just when messages are left.
pub has_write_data-Sending :
    (w : WriteBuf) (ms : List (List ℕ)) → Sending w ms → has_write_data w ≡ is_cons ms
unfolding has_write_data
has_write_data-Sending w [] (idle e still h) = rw e
has_write_data-Sending w [] (busy s q c h short e) = absurd (cc)
has_write_data-Sending w (m ∷ ms) (busy s q c h short e) = rw (c.message)

pub init_writebuf-Sending :
    (n : ℕ) → 0 < n → n ≤ 2 ^ 31 → (b : WriteBuf) × (init_writebuf n ≡ ok b) × Sending b []
unfolding init_writebuf
init_writebuf-Sending n some_n low =
    let (q, e, h) = init_queue-Holds n some_n low in
    (
      record { message = none; len = 0; pointer = 0; is_writing = false; writequeue = q },
      rw e,
      idle refl refl h,
    )

Short-append :
    (ms : List (List ℕ)) (s : List ℕ) → Short ms → length s < 2 ^ 31 → Short (ms ++ (s ∷ []))
Short-append [] s h l = (l, tt)
Short-append (m ∷ ms) s h l = (h.0, Short-append ms s h.1 l)

-- `push_write_data` puts the message behind those on their way.
pub push_write_data-Sending :
    (b : WriteBuf) (s : List ℕ) (ms : List (List ℕ))
    → length ms < 2 ^ 30
    → length s < 2 ^ 31
    → Sending b ms
    → (b' : WriteBuf) × (push_write_data b s ≡ ok b')
      × (b'.is_writing ≡ b.is_writing)
      × Sending b' (ms ++ (s ∷ []))
unfolding push_write_data
push_write_data-Sending b s [] few low (idle nothing still h) = (
  record b { message = some s; pointer = 0; len = length s },
  rw (nothing, lt→ltb (length s) (2 ^ 31) low),
  refl,
  busy s [] (record { message = refl; len = refl; pointer_in = omega arith }) h tt refl,
)
push_write_data-Sending b s ms few low (busy m q c h short e) =
    let (w, p, h') = queue_push-Holds b.writequeue s q (omega (arith, ap length e)) h in
    (
      record b { writequeue = w },
      rw (c.message, p),
      refl,
      busy m (q ++ (s ∷ []))
          (record { message = c.message; len = c.len; pointer_in = c.pointer_in }) h'
          (Short-append q s short low) (ap (λ l. l ++ (s ∷ [])) e),
    )

-- `prepare_write` hands out what is left of the first message, and its length.
pub prepare_write-Sending :
    (b : WriteBuf) (m : List ℕ) (ms : List (List ℕ))
    → b.is_writing ≡ false
    → Sending b (m ∷ ms)
    → (prepare_write b ≡ ok (m, length m, record b { is_writing = true }))
      × Sending (record b { is_writing = true }) (m ∷ ms)
unfolding prepare_write
prepare_write-Sending b m ms still (busy s q c h short e) = (
  ground (arith, c.message, left, size),
  busy s q (record { message = c.message; len = c.len; pointer_in = c.pointer_in }) h short e,
)
  where
    left : drop b.pointer s ≡ m
    left = ap (λ l. get_or l 0 m) (sym e)

    size : b.len - b.pointer ≡ length m
    size = omega (arith, ap length left, length-drop b.pointer s, c)

-- The messages after `n` bytes of the first one are written.
abbrev pub written : ℕ → List ℕ → List (List ℕ) → List (List ℕ)
written n m ms = if ltb n (length m) then drop n m ∷ ms else ms

next_message-Sending :
    (b : WriteBuf) (q : List (List ℕ))
    → Queued b.writequeue q
    → Short q
    → (b' : WriteBuf) × (next_message b ≡ ok b') × (b'.is_writing ≡ false) × Sending b' q
unfolding next_message
next_message-Sending b [] h short = (
  record b { message = none; len = 0; pointer = 0; is_writing = false },
  rw (queue_is_empty-nil b.writequeue h),
  refl,
  idle refl refl h,
)
next_message-Sending b (s ∷ q) h short =
    let (w, e, h') = queue_pop-Holds b.writequeue s q h in
    (
      record { message = some s; len = length s; pointer = 0; is_writing = false; writequeue = w },
      rw (queue_is_empty-cons b.writequeue s q h, e, lt→ltb (length s) (2 ^ 31) short.0),
      refl,
      busy s q (record { message = refl; len = refl; pointer_in = omega arith }) h' short.1 refl,
    )

drop-drop : (s : List ℕ) (i j : ℕ) → drop (i + j) s ≡ drop j (drop i s)
drop-drop s zero j = rw zero-add
drop-drop [] (suc i) zero = rw add-zero
drop-drop [] (suc i) (suc j) = rw suc-add
drop-drop (x ∷ s) (suc i) j = rw suc-add (drop-drop s i j)

-- `have_written` takes the written bytes off the first message, and goes on to the next one when
-- it is written whole.
pub have_written-Sending :
    (b : WriteBuf) (n : ℕ) (m : List ℕ) (ms : List (List ℕ))
    → b.is_writing ≡ true
    → n ≤ length m
    → Sending b (m ∷ ms)
    → (b' : WriteBuf) × (have_written b n ≡ ok b')
      × (b'.is_writing ≡ false)
      × Sending b' (written n m ms)
unfolding have_written
have_written-Sending b n m ms wr few (busy s q c h short e) = elim (Bool-cases (ltb n (length m))) [
  | inl part ↦ rw part (
    record b { is_writing = false; pointer = b.pointer + n },
    simp (wr, inside, same, part),
    refl,
    busy s q
        (record {
          message = c.message;
          len = c.len;
          pointer_in =
              omega (arith, ltb→lt n (length m) part, ap length left, length-drop b.pointer s, c);
        })
        h short (ap₂ ◌∷◌ (ap (drop n) left ∙ sym (drop-drop s b.pointer n)) others),
  )
  | inr whole ↦
      let (b', e', still, s') = next_message-Sending b q h short in
      rw whole (b', simp (wr, inside, same, whole) e', still, rw others s')
]
  where
    left : m ≡ drop b.pointer s
    left = ap (λ l. get_or l 0 m) e

    others : ms ≡ q
    others = ap (drop 1) e

    inside : leb (b.pointer + n) b.len ≡ true
    inside = le→leb _ _ (omega (arith, ap length left, length-drop b.pointer s, c))

    same : ltb (b.pointer + n) b.len ≡ ltb n (length m)
    same = ground (arith, ap length left, length-drop b.pointer s, c)

-- While a write is under way no other can begin.
pub prepare_write_twice : (b : WriteBuf) → b.is_writing ≡ true → prepare_write b ≡ stop aborts
unfolding prepare_write
prepare_write_twice b wr = simp wr

-- The bytes on their way, when `n` bytes of the first message are written, are the rest.
pub bytes_of-written :
    (n : ℕ) (m : List ℕ) (ms : List (List ℕ))
    → n ≤ length m
    → bytes_of (written n m ms) ≡ drop n (bytes_of (m ∷ ms))
bytes_of-written n m ms h = elim (Bool-cases (ltb n (length m))) [
  | inl part ↦ rw part (sym (drop-append m n h))
  | inr whole ↦ rw whole (all whole ∙ sym (drop-append m n h))
]
  where
    drop-append :
        (s : List ℕ) (k : ℕ) → k ≤ length s → drop k (s ++ bytes_of ms) ≡ drop k s ++ bytes_of ms
    drop-append s zero l = refl
    drop-append [] (suc k) l = elim l [ ]
    drop-append (x ∷ s) (suc k) l = drop-append s k (omega arith)

    drop-length : (s : List ℕ) → drop (length s) s ≡ []
    drop-length [] = refl
    drop-length (x ∷ s) = drop-length s

    all : ltb n (length m) ≡ false → bytes_of ms ≡ drop n m ++ bytes_of ms
    all whole =
        let e : length m ≡ n = ground arith in
        ap (λ l. l ++ bytes_of ms) (sym (drop-length m) ∙ ap (λ k. drop k m) e)

-- With no message left there is nothing to prepare, and more than what is left cannot be written.
pub prepare_write_idle : (b : WriteBuf) → Sending b [] → prepare_write b ≡ stop aborts
unfolding prepare_write
prepare_write_idle b (idle e still h) = rw (still, has_write_data-Sending b [] (idle e still h))
prepare_write_idle b (busy s q c h short e) = absurd (cc)

pub have_written_more :
    (b : WriteBuf) (n : ℕ) (m : List ℕ) (ms : List (List ℕ))
    → b.is_writing ≡ true
    → length m < n
    → Sending b (m ∷ ms)
    → have_written b n ≡ stop aborts
unfolding have_written
have_written_more b n m ms wr many (busy s q c h short e) = simp (wr, outside)
  where
    outside : leb (b.pointer + n) b.len ≡ false
    outside =
        let left : m ≡ drop b.pointer s = ap (λ l. get_or l 0 m) e in
        ground (arith, ap length left, length-drop b.pointer s, c)
