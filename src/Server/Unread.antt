-- ===== src/Server/Unread.antt =====
-- The text behind the last newline, which stays in a client's read buffer.
use why.Base.{
  ℕ, zero, suc, ◌+◌, ◌-◌, ◌≤◌, ◌≡◌, refl, ap, ◌∙◌, sym, inl, inr, List, [], ◌∷◌, ◌++◌, arith,
  length, length-append, drop, false, ◌==◌, Bool-cases,
}
use why.Text.{Str}
use why.Server.Framing.{split_lines, cons_first}

-- No line is complete.
abbrev pub IsUnread : Str → Type 0
IsUnread s = split_lines s ≡ ([], s)

abbrev pub lines_of : Str → ℕ
lines_of s = length (split_lines s).0

-- Lines that are no longer than `n`.
abbrev pub AreWithin : ℕ → List Str → Type 0
AreWithin n [] = Unit
AreWithin n (l ∷ ls) = (length l ≤ n) × AreWithin n ls

lines_of-cons : (c : ℕ) (p : List Str × Str) → length (cons_first c p).0 ≡ length p.0
lines_of-cons c ([], rest) = refl
lines_of-cons c (l ∷ ls, rest) = refl

-- Each byte completes one line at most.
pub lines_of-append : (s t : Str) → lines_of (s ++ t) ≤ lines_of s + length t
unfolding split_lines
lines_of-append [] [] = omega arith
lines_of-append [] (c ∷ cs) =
    ground (arith, lines_of-append [] cs, lines_of-cons c (split_lines cs))
lines_of-append (c ∷ cs) t = ground (
  arith,
  lines_of-append cs t,
  lines_of-cons c (split_lines cs),
  lines_of-cons c (split_lines (cs ++ t)),
)

rest-cons :
    (c : ℕ) (p : List Str × Str) → IsUnread p.1 → (c == 10) ≡ false → IsUnread (cons_first c p).1
unfolding split_lines
rest-cons c ([], rest) h e = rw (e, h)
rest-cons c (l ∷ ls, rest) h e = h

-- The text behind the last newline has none.
pub rest-IsUnread : (s : Str) → IsUnread (split_lines s).1
unfolding split_lines
rest-IsUnread [] = refl
rest-IsUnread (c ∷ cs) = elim (Bool-cases (c == 10)) [
  | inl e ↦ rw e (rest-IsUnread cs)
  | inr e ↦ rw e (rest-cons c (split_lines cs) (rest-IsUnread cs) e)
]

-- Without a complete line all is behind the last newline.
whole-cons :
    (c : ℕ) (cs : Str) (p : List Str × Str) → p.1 ≡ cs → p.0 ≡ [] → cons_first c p ≡ ([], c ∷ cs)
whole-cons c cs ([], rest) h e = rw h
whole-cons c cs (l ∷ ls, rest) h e = absurd (cc)

none_complete : (s : Str) → (split_lines s).0 ≡ [] → IsUnread s
unfolding split_lines
none_complete [] h = refl
none_complete (c ∷ cs) h = elim (Bool-cases (c == 10)) [
  | inl e ↦ absurd (let h' = rw e at h in cc)
  | inr e ↦
      let none_behind = no_lines c (split_lines cs) (rw e at h) in
      rw e (
        whole-cons c cs (split_lines cs) (ap (λ p. p.1) (none_complete cs none_behind)) none_behind)
]
  where
    no_lines : (d : ℕ) (p : List Str × Str) → (cons_first d p).0 ≡ [] → p.0 ≡ []
    no_lines d ([], rest) e = refl
    no_lines d (l ∷ ls, rest) e = absurd (cc)

-- The text behind the last newline is the end of the whole.
split-end : (s : Str) → (front : Str) × (s ≡ front ++ (split_lines s).1)
unfolding split_lines
split-end [] = ([], refl)
split-end (c ∷ cs) = elim (Bool-cases (c == 10)) [
  | inl e ↦ rw e (let (front, same) = split-end cs in (c ∷ front, ap (λ r. c ∷ r) same))
  | inr e ↦ rw e (cons_end (split-end cs) (split_lines cs) refl)
]
  where
    cons_end :
        ((front : Str) × (cs ≡ front ++ (split_lines cs).1))
        → (p : List Str × Str) → split_lines cs ≡ p
        → (front : Str) × (c ∷ cs ≡ front ++ (cons_first c p).1)
    cons_end behind ([], rest) e =
        let whole = none_complete cs (ap (λ q. q.0) e) in
        ([], ap (λ r. c ∷ r) (ap (λ q. q.1) (sym whole ∙ e)))
    cons_end behind (l ∷ ls, rest) e =
        let (front, same) = behind in (c ∷ front, ap (λ r. c ∷ r) (same ∙ ap (λ q. front ++ q.1) e))

pub length-rest : (s : Str) → length (split_lines s).1 ≤ length s
length-rest s =
    let (front, same) = split-end s in
    omega (arith, ap length same, length-append front (split_lines s).1)

drop-front : (front rest : Str) (n : ℕ) → n ≡ length front → drop n (front ++ rest) ≡ rest
drop-front [] rest zero e = refl
drop-front [] rest (suc n) e = absurd (omega arith)
drop-front (c ∷ front) rest zero e = absurd (omega arith)
drop-front (c ∷ front) rest (suc n) e = drop-front front rest n (omega arith)

-- What is left when the lines are taken.
pub drop-taken : (s : Str) → drop (length s - length (split_lines s).1) s ≡ (split_lines s).1
drop-taken s =
    let (front, same) = split-end s in
    let n = length s - length (split_lines s).1 in
    ap (drop n) same
    ∙ drop-front front (split_lines s).1 n
        (omega (arith, ap length same, length-append front (split_lines s).1))

AreWithin-suc : (n : ℕ) (ls : List Str) → AreWithin n ls → AreWithin (suc n) ls
AreWithin-suc n [] h = tt
AreWithin-suc n (l ∷ ls) h = (omega (arith, h.0), AreWithin-suc n ls h.1)

cons-AreWithin :
    (n c : ℕ) (p : List Str × Str) → AreWithin n p.0 → AreWithin (suc n) (cons_first c p).0
cons-AreWithin n c ([], rest) h = tt
cons-AreWithin n c (l ∷ ls, rest) h = (omega (arith, h.0), AreWithin-suc n ls h.1)

pub lines-AreWithin : (s : Str) → AreWithin (length s) (split_lines s).0
unfolding split_lines
lines-AreWithin [] = tt
lines-AreWithin (c ∷ cs) = elim (Bool-cases (c == 10)) [
  | inl e ↦ rw e (omega arith, AreWithin-suc (length cs) _ (lines-AreWithin cs))
  | inr e ↦ rw e (cons-AreWithin (length cs) c (split_lines cs) (lines-AreWithin cs))
]
