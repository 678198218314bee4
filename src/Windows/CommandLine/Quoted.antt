-- ===== src/Windows/CommandLine/Quoted.antt =====
-- An argument in quotes is read back as it was.
use native.Mathlib.Nat.{add-zero}
use native.Mathlib.Numerals.{add-one}
use why.Base.{
  ℕ, zero, suc, ◌+◌, ◌/◌, ◌%◌, ◌≡◌, refl, ap, ◌∙◌, sym, inl, inr, true, false, List, [], ◌∷◌, ◌++◌,
  append-nil, append_assoc, ◌==◌, ==_iff, length, arith, Bool-cases,
}
use why.Text.{Str}
use why.Windows.CommandLine.Shape.{slashes, quoted_char, quoted_from}
use why.Windows.CommandLine.Reader.{Reader, backslashes, is_blank, step, read, between}

pub read-append : (r : Reader) (s t : Str) → read r (s ++ t) ≡ read (read r s) t
unfolding read
read-append r [] t = refl
read-append r (c ∷ s) t = read-append (step r c) s t

pub backslashes-suc : (n : ℕ) → backslashes n ++ (b'\\' ∷ []) ≡ backslashes (suc n)
backslashes-suc zero = refl
backslashes-suc (suc n) = ap (λ s. b'\\' ∷ s) (backslashes-suc n)

-- Inside quotes.
abbrev inside : List Str → Str → ℕ → Reader
inside args p n = record { quoted = true; slashes = n; begun = true; current = p; arguments = args }

read_slashes :
    (args : List Str) (p : Str) (n : ℕ) (s : Str)
    → read (inside args p n) (slashes s) ≡ inside args p (n + length (slashes s))
unfolding slashes read step
read_slashes args p n [] = rw add-zero
read_slashes args p n (c ∷ cs) = elim (Bool-cases (c == b'\\')) [
  | inl e ↦ rw e (read_slashes args p (n + 1) cs ∙ ap (inside args p) (omega arith))
  | inr e ↦ rw (e, add-zero)
]

module _ (args : List Str) (p : Str) (n : ℕ) where
  -- A backslash, a quote behind twice as many backslashes and one more, and any other character.
  read_backslash : read (inside args p n) (b'\\' ∷ []) ≡ inside args p (n + 1)
  unfolding read step
  read_backslash = refl

  read_escaped :
      (m : ℕ)
      → m ≡ n + n + 1
      → read (inside args p m) (b'"' ∷ []) ≡ inside args ((p ++ backslashes n) ++ (b'"' ∷ [])) 0
  unfolding read step
  read_escaped m e = rw (odd, half)
    where
      odd : (m % 2 == 0) ≡ false
      odd = ground arith

      half : m / 2 ≡ n
      half = omega arith

  read_other :
      (c : ℕ)
      → (c == b'\\') ≡ false
      → (c == b'"') ≡ false
      → read (inside args p n) (c ∷ []) ≡ inside args ((p ++ backslashes n) ++ (c ∷ [])) 0
  unfolding read step
  read_other c e f = elim (Bool-cases (is_blank c)) [ inl g ↦ rw (e, f, g) | inr g ↦ rw (e, f, g) ]

  -- The quote at the end of an argument, and the blank behind it.
  read_closing :
      (m : ℕ)
      → m ≡ n + n
      → read (inside args p m) (b'"' ∷ b' ' ∷ []) ≡ between (args ++ ((p ++ backslashes n) ∷ []))
  unfolding read step
  read_closing m e =
      rw (even, half) (ap (λ s. between (args ++ (s ∷ []))) (append-nil (p ++ backslashes n)))
    where
      even : (m % 2 == 0) ≡ true
      even = ground arith

      half : m / 2 ≡ n
      half = omega arith

-- A quote is read back from the backslashes that it is written with.
read_char_quote :
    (args : List Str) (p seen : Str)
    → read (inside args p (length (slashes seen))) (slashes seen ++ (b'\\' ∷ b'"' ∷ []))
      ≡ inside args ((p ++ backslashes (length (slashes seen))) ++ (b'"' ∷ [])) 0
read_char_quote args p seen =
    let n = length (slashes seen) in
    read-append (inside args p n) (slashes seen) (b'\\' ∷ b'"' ∷ [])
    ∙ ap (λ r. read r (b'\\' ∷ b'"' ∷ [])) (read_slashes args p n seen)
    ∙ read-append (inside args p (n + n)) (b'\\' ∷ []) (b'"' ∷ [])
    ∙ ap (λ r. read r (b'"' ∷ [])) (read_backslash args p (n + n))
    ∙ read_escaped args p n (n + n + 1) refl

-- The backslashes at the end are written twice.
read_twice :
    (args : List Str) (p seen : Str)
    → read (inside args p (length (slashes seen))) (b'\\' ∷ b'\\' ∷ slashes seen)
      ≡ inside args p (suc (length (slashes seen)) + suc (length (slashes seen)))
read_twice args p seen =
    let n = length (slashes seen) in
    read-append (inside args p n) (b'\\' ∷ []) (b'\\' ∷ slashes seen)
    ∙ ap (λ r. read r (b'\\' ∷ slashes seen)) (read_backslash args p n)
    ∙ read-append (inside args p (n + 1)) (b'\\' ∷ []) (slashes seen)
    ∙ ap (λ r. read r (slashes seen)) (read_backslash args p (n + 1))
    ∙ read_slashes args p (n + 1 + 1) seen
    ∙ ap (inside args p) (omega arith)

-- What an argument in quotes has been read as, up to a place between two characters, and at its end.
abbrev IsReadTo : List Str → Str → Str → Reader → Type 0
IsReadTo args ca seen r =
    (p : Str) × (r ≡ inside args p (length (slashes seen)))
    × (p ++ backslashes (length (slashes seen)) ≡ ca)

abbrev IsRead : List Str → Str → Reader → Type 0
IsRead args ca r = (p : Str) × (k : ℕ) × (r ≡ inside args p (k + k)) × (p ++ backslashes k ≡ ca)

-- One character that is not the last one.
read_char :
    (args : List Str) (p seen : Str) (c d : ℕ) (cs : Str)
    → IsReadTo args
        ((p ++ backslashes (length (slashes seen))) ++ (c ∷ []))
        (c ∷ seen)
        (read (inside args p (length (slashes seen))) (quoted_char seen c (d ∷ cs)))
unfolding quoted_char slashes
read_char args p seen c d cs = elim (Bool-cases (c == b'"')) [
  | inl e ↦
      let same : c ≡ b'"' = (==_iff c b'"').0 e in
      rw same (
        (p ++ backslashes (length (slashes seen))) ++ (b'"' ∷ []),
        read_char_quote args p seen,
        append-nil _,
      )
  | inr e ↦ elim (Bool-cases (c == b'\\')) [
    | inl f ↦
        let same : c ≡ b'\\' = (==_iff c b'\\').0 f in
        rw same (
          p,
          read_backslash args p (length (slashes seen))
              ∙ ap (inside args p) (add-one (length (slashes seen))),
          ap (λ s. p ++ s) (sym (backslashes-suc (length (slashes seen))))
              ∙ sym (append_assoc p (backslashes (length (slashes seen))) (b'\\' ∷ [])),
        )
    | inr f ↦
        rw (e, f)
          (
            (p ++ backslashes (length (slashes seen))) ++ (c ∷ []),
            read_other args p (length (slashes seen)) c f e,
            append-nil _,
          )
  ]
]

-- The last character.
read_last_char :
    (args : List Str) (p seen : Str) (c : ℕ)
    → IsRead args
        ((p ++ backslashes (length (slashes seen))) ++ (c ∷ []))
        (read (inside args p (length (slashes seen))) (quoted_char seen c []))
unfolding quoted_char slashes
read_last_char args p seen c = elim (Bool-cases (c == b'"')) [
  | inl e ↦
      let same : c ≡ b'"' = (==_iff c b'"').0 e in
      rw same (
        (p ++ backslashes (length (slashes seen))) ++ (b'"' ∷ []),
        0,
        read_char_quote args p seen,
        append-nil _,
      )
  | inr e ↦ elim (Bool-cases (c == b'\\')) [
    | inl f ↦
        let same : c ≡ b'\\' = (==_iff c b'\\').0 f in
        rw same (
          p,
          suc (length (slashes seen)),
          read_twice args p seen,
          ap (λ s. p ++ s) (sym (backslashes-suc (length (slashes seen))))
              ∙ sym (append_assoc p (backslashes (length (slashes seen))) (b'\\' ∷ [])),
        )
    | inr f ↦
        rw (e, f)
          (
            (p ++ backslashes (length (slashes seen))) ++ (c ∷ []),
            0,
            read_other args p (length (slashes seen)) c f e,
            append-nil _,
          )
  ]
]

read_quoted :
    (args : List Str) (p seen : Str) (c : ℕ) (cs : Str)
    → IsRead args
        ((p ++ backslashes (length (slashes seen))) ++ (c ∷ cs))
        (read (inside args p (length (slashes seen))) (quoted_from seen (c ∷ cs)))
unfolding quoted_from
read_quoted args p seen c [] =
    rw (append-nil (quoted_char seen c [])) (read_last_char args p seen c)
read_quoted args p seen c (d ∷ cs) =
    let (p', e, same) = read_char args p seen c d cs in
    let (q, k, e', same') = read_quoted args p' (c ∷ seen) d cs in
    (
      q,
      k,
      read-append (inside args p (length (slashes seen))) (quoted_char seen c (d ∷ cs))
            (quoted_from (c ∷ seen) (d ∷ cs))
          ∙ ap (λ r. read r (quoted_from (c ∷ seen) (d ∷ cs))) e
          ∙ e',
      same'
          ∙ ap (λ s. s ++ (d ∷ cs)) same
          ∙ append_assoc (p ++ backslashes (length (slashes seen))) (c ∷ []) (d ∷ cs),
    )

-- An argument in quotes is read back.
pub read_in_quotes :
    (args : List Str) (ca : Str)
    → read (between args) (b'"' ∷ (quoted_from [] ca ++ (b'"' ∷ b' ' ∷ [])))
      ≡ between (args ++ (ca ∷ []))
unfolding quoted_from read step slashes
read_in_quotes args [] = refl
read_in_quotes args (c ∷ cs) =
    let (q, k, e, same) = read_quoted args [] [] c cs in
    read-append (inside args [] 0) (quoted_from [] (c ∷ cs)) (b'"' ∷ b' ' ∷ [])
    ∙ ap (λ r. read r (b'"' ∷ b' ' ∷ [])) e
    ∙ read_closing args q k (k + k) refl
    ∙ ap (λ s. between (args ++ (s ∷ []))) same
