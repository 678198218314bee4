-- ===== src/Server/Framing.antt =====
-- `handle_msg` handles the complete lines of the read buffer, one after the other.
use native.Mathlib.Nat.{zero-add, add-zero, suc-add}
use native.Mathlib.Numerals.{add-one}
use why.Base.{
  bind_ext, ℕ, zero, suc, ◌+◌, ◌-◌, ◌%◌, ◌^◌, lt→ltb, ◌≤◌, ◌<◌, ◌≡◌, refl, ap, ◌∙◌, sym, inl, inr,
  List, [], ◌∷◌, arith, length, length-drop, take, drop, ltb, ◌==◌, ==_iff, if◌then◌else◌,
  Bool-cases, ℤ, Outcome, ok, stop, ◌>>=◌,
}
use why.Base.Memory.{Block}
use why.Base.Starts.{Starts, Starts-load, Starts-drop}
use why.Text.{Str}
use why.ReadBuf.{have_taken}
use why.ReadBuf.Refine.{Holds}
use why.Server.{Server, System, update}
use why.Server.Lines.{
  int_of, rounds_to, bytes_from, newline_index, handle_line, lines_from, handle_msg,
}

-- A byte in front of the first line, or of the text behind the lines.
abbrev pub cons_first : ℕ → List Str × Str → List Str × Str
cons_first c ([], rest) = ([], c ∷ rest)
cons_first c (l ∷ ls, rest) = ((c ∷ l) ∷ ls, rest)

-- The lines that end with a newline, and what stands behind the last newline.
unfoldable pub split_lines : Str → List Str × Str
split_lines [] = ([], [])
split_lines (c ∷ cs) =
    if c == 10 then ([] ∷ (split_lines cs).0, (split_lines cs).1) else cons_first c (split_lines cs)

-- The number of bytes in front of the first newline.
unfoldable pub front : Str → ℕ
front [] = 0
front (c ∷ cs) = if c == 10 then 0 else suc (front cs)

newline_index-front : (s : Str) (i : ℕ) → newline_index s i ≡ i + front s
unfolding newline_index front
newline_index-front [] i = omega arith
newline_index-front (c ∷ cs) i = ground (arith, newline_index-front cs (i + 1))

front-le : (s : Str) → front s ≤ length s
unfolding front
front-le [] = omega arith
front-le (c ∷ cs) = ground (arith, front-le cs)

split_lines-none : (s : Str) → front s ≡ length s → split_lines s ≡ ([], s)
unfolding front split_lines
split_lines-none [] h = refl
split_lines-none (c ∷ cs) h = elim (Bool-cases (c == 10)) [
  | inl e ↦ absurd (let h' = rw e at h in omega arith)
  | inr e ↦ rw (e, split_lines-none cs (let h' = rw e at h in omega arith))
]

split_lines-some :
    (s : Str)
    → front s < length s
    → split_lines s ≡ (
      take (front s) s ∷ (split_lines (drop (suc (front s)) s)).0,
      (split_lines (drop (suc (front s)) s)).1,
    )
unfolding front split_lines
split_lines-some [] h = absurd (omega arith)
split_lines-some (c ∷ cs) h = elim (Bool-cases (c == 10)) [
  | inl e ↦ rw e
  | inr e ↦ rw (e, split_lines-some cs (let h' = rw e at h in omega arith))
]

drop-drop : (n m : ℕ) (s : Str) → drop n (drop m s) ≡ drop (m + n) s
drop-drop n zero s = rw (zero-add n)
drop-drop zero (suc m) [] = ap (λ n. drop n []) (sym (add-zero (suc m)))
drop-drop (suc n) (suc m) [] = rw (suc-add m (suc n))
drop-drop n (suc m) (c ∷ cs) = rw (suc-add m n) (drop-drop n m cs)

module _ (os : System) where
  -- The lines are handled one after the other.
  unfoldable pub each_line : Server → ℤ → List Str → Outcome Server
  each_line s key [] = ok s
  each_line s key (l ∷ ls) = do s' ← handle_line os s key l; each_line s' key ls

  -- What the loop does from the place `cur`, behind a newline.
  abbrev pub framed : Str → ℤ → ℕ → Server → Outcome (ℕ × Server)
  framed buf key cur s = do
    s' ← each_line s key (split_lines (drop cur buf)).0
    ok (length buf - length (split_lines (drop cur buf)).1, s')

  framed-none :
      (buf : Str) (key : ℤ) (cur : ℕ) (s : Server)
      → cur ≤ length buf
      → front (drop cur buf) ≡ length (drop cur buf)
      → framed buf key cur s ≡ ok (cur, s)
  unfolding each_line
  framed-none buf key cur s low h =
      rw (split_lines-none (drop cur buf) h)
        (ap (λ n. ok (n, s)) (omega (arith, length-drop cur buf)))

  framed-some :
      (buf : Str) (key : ℤ) (cur : ℕ) (s : Server)
      → front (drop cur buf) < length (drop cur buf)
      → framed buf key cur s ≡ (do
        s' ← handle_line os s key (take (front (drop cur buf)) (drop cur buf))
        framed buf key (cur + front (drop cur buf) + 1) s')
  unfolding each_line
  framed-some buf key cur s h =
      rw (split_lines-some (drop cur buf) h, behind)
        (assoc (handle_line os s key (take (front (drop cur buf)) (drop cur buf))))
    where
      behind :
          drop (suc (front (drop cur buf))) (drop cur buf)
          ≡ drop (cur + front (drop cur buf) + 1) buf
      behind = drop-drop (suc (front (drop cur buf))) cur buf ∙ ap (λ n. drop n buf) (omega arith)

      assoc :
          (m : Outcome Server)
          → (do
            s' ← (do
              s₁ ← m
              each_line s₁ key (split_lines (drop (cur + front (drop cur buf) + 1) buf)).0)
            ok (
              length buf - length (split_lines (drop (cur + front (drop cur buf) + 1) buf)).1,
              s',
            ))
            ≡ (do s' ← m; framed buf key (cur + front (drop cur buf) + 1) s')
      assoc (ok s') = refl
      assoc (stop e) = refl

  lines_from-framed :
      (rounds : ℕ) (buf : Str) (key : ℤ) (cur : ℕ) (s : Server)
      → cur ≤ length buf
      → length buf ≤ cur + rounds
      → lines_from os rounds buf key cur cur s ≡ framed buf key cur s
  unfolding lines_from
  lines_from-framed zero buf key cur s low high =
      sym (
        framed-none buf key cur s low (omega (arith, length-drop cur buf, front-le (drop cur buf))))
  lines_from-framed (suc rounds) buf key cur s low high = elim (Bool-cases (ltb cur (length buf))) [
    | inl more ↦ elim (Bool-cases (cur + front (drop cur buf) == length buf)) [
      | inl whole ↦
          rw (more, newline_index-front (drop cur buf) cur, whole)
            (sym (
              framed-none buf key cur s low (
                ground
                  (arith, length-drop cur buf, ==_iff (cur + front (drop cur buf)) (length buf)))))
      | inr line ↦
          let within : front (drop cur buf) < length (drop cur buf) = ground (
            arith,
            length-drop cur buf,
            front-le (drop cur buf),
            ==_iff (cur + front (drop cur buf)) (length buf),
          ) in
          rw (more, newline_index-front (drop cur buf) cur, line)
            (rw taken (
              bind_ext _ _ _ (λ s'.
                lines_from-framed rounds buf key (cur + front (drop cur buf) + 1) s'
                  (omega (arith, within, length-drop cur buf)) (omega arith))
              ∙ sym (framed-some buf key cur s within)))
    ]
    | inr done ↦ rw done (
        sym (
          framed-none buf key cur s low
            (ground (arith, length-drop cur buf, front-le (drop cur buf)))))
  ]
    where
      taken : cur + front (drop cur buf) - cur ≡ front (drop cur buf)
      taken = omega arith

pub bytes_from-Starts :
    (b : Block ℕ) (i : ℕ) (xs : Str) → Starts (drop i b) xs → bytes_from b (length xs) i ≡ ok xs
unfolding bytes_from
bytes_from-Starts b i [] h = refl
bytes_from-Starts b i (x ∷ xs) h =
    rw
      (Starts-load b i x xs h, bytes_from-Starts b (i + 1) xs (rw add-one (Starts-drop b i x xs h)))
      refl

pub rounds_to-int_of : (n : ℕ) → n < 2 ^ 31 → rounds_to (int_of n) ≡ n
unfolding int_of
rounds_to-int_of n small =
    let low : n % 2 ^ 32 ≡ n = omega arith in rw (low, lt→ltb n (2 ^ 31) small)

-- The handled bytes are taken out of the client's read buffer, if there are any.
abbrev pub take_handled : ℤ → ℕ → Server → Outcome Server
take_handled fd n s =
    if ltb 0 n
    then (do
      b ← have_taken (s.buffers fd).readbuf n
      ok (record s { buffers = update s.buffers fd (record (s.buffers fd) { readbuf = b }) }))
    else ok s

-- `handle_msg` handles each complete line of the bytes in the client's read buffer once, in order
-- and without its newline, and then takes these lines, but not the text behind the last newline,
-- out of the buffer. When a line stops the server nothing more happens. The buffer holds fewer than
-- 2 ^ 31 bytes, so that their number is an `int`.
pub handle_msg-each_line :
    (os : System) (s : Server) (fd : ℤ) (bs : Str)
    → length bs < 2 ^ 31
    → Holds (s.buffers fd).readbuf bs
    → handle_msg os s fd ≡ (do
      s' ← each_line os s fd (split_lines bs).0
      take_handled fd (length bs - length (split_lines bs).1) s')
unfolding handle_msg
handle_msg-each_line os s fd bs small h =
    rw
      (
        h.count,
        rounds_to-int_of (length bs) small,
        bytes_from-Starts (s.buffers fd).readbuf.bytes 0 bs h.bytes,
        lines_from-framed os (length bs) bs fd 0 s (omega arith) (omega arith),
      )
      (assoc (each_line os s fd (split_lines bs).0))
  where
    numbered : Server → Outcome (ℕ × Server)
    numbered s' = ok (length bs - length (split_lines bs).1, s')

    finish : ℕ × Server → Outcome Server
    finish r = take_handled fd r.0 r.1

    assoc :
        (m : Outcome Server)
        → ((m >>= numbered) >>= finish)
          ≡ (do s' ← m; take_handled fd (length bs - length (split_lines bs).1) s')
    assoc (ok s') = refl
    assoc (stop e) = refl
