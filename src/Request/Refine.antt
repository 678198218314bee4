-- ===== src/Request/Refine.antt =====
-- `parse_request` reads a line by its fields.
use native.Mathlib.Nat.{zero-add, add-zero}
use why.Base.{
  ℕ, zero, suc, ◌+◌, ◌-◌, ◌<◌, ◌≡◌, refl, ap, ◌∙◌, sym, List, [], ◌∷◌, ◌++◌, map, arith, length,
  length-append, take, drop, ◌==◌, if◌then◌else◌,
}
use why.Text.{Str, c_string}
use why.Request.Parse.{
  semicolon, count_from, count_semicolons, stop_index, copy_up_to_semicolon, copy_args,
}
use why.Request.Fields.{join, NoSemicolon, AreFields}

count_from-field : (n : ℕ) (f r : Str) → NoSemicolon f → count_from n (f ++ r) ≡ count_from n r
unfolding count_from
count_from-field n [] r h = refl
count_from-field n (c ∷ f) r h = rw (h.0, count_from) (count_from-field n f r h.1)

count_from-join :
    (n : ℕ) (f : Str) (fs : List Str)
    → AreFields (f ∷ fs)
    → count_from n (join (f ∷ fs)) ≡ n + length fs
unfolding count_from
count_from-join n f [] h = last n f h.0
  where
    last : (k : ℕ) (g : Str) → NoSemicolon g → count_from k g ≡ k + 0
    last k [] a = omega arith
    last k (c ∷ g) a = rw (a.0, count_from) (last k g a.1)
count_from-join n f (g ∷ gs) h =
    count_from-field n f _ h.0 ∙ count_from-join (n + 1) g gs h.1 ∙ omega arith

-- A semicolon after every field but the last.
pub count_semicolons-join :
    (f : Str) (fs : List Str) → AreFields (f ∷ fs) → count_semicolons (join (f ∷ fs)) ≡ length fs
unfolding count_semicolons
count_semicolons-join f fs h = count_from-join 0 f fs h ∙ zero-add (length fs)

stop_index-field :
    (f r : Str) (i : ℕ) → NoSemicolon f → stop_index (f ++ (semicolon ∷ r)) i ≡ i + length f
unfolding stop_index
stop_index-field [] r i h = sym (add-zero i)
stop_index-field (c ∷ f) r i h = rw (h.0) (stop_index-field f r (i + 1) h.1 ∙ omega arith)

stop_index-last : (f : Str) (i : ℕ) → NoSemicolon f → stop_index f i ≡ i + length f
unfolding stop_index
stop_index-last [] i h = sym (add-zero i)
stop_index-last (c ∷ f) i h = rw (h.0) (stop_index-last f (i + 1) h.1 ∙ omega arith)

take-append : (f r : Str) (n : ℕ) → n ≡ length f → take n (f ++ r) ≡ f
take-append [] r zero e = refl
take-append [] r (suc n) e = absurd (omega arith)
take-append (c ∷ f) r zero e = absurd (omega arith)
take-append (c ∷ f) r (suc n) e = ap (λ w. c ∷ w) (take-append f r n (omega arith))

take-all : (f : Str) (n : ℕ) → n ≡ length f → take n f ≡ f
take-all [] zero e = refl
take-all [] (suc n) e = absurd (omega arith)
take-all (c ∷ f) zero e = absurd (omega arith)
take-all (c ∷ f) (suc n) e = ap (λ w. c ∷ w) (take-all f n (omega arith))

drop-length :
    (s f r : Str) (i j : ℕ) (c : ℕ)
    → drop i s ≡ f ++ (c ∷ r)
    → j ≡ i + length f + 1
    → (drop j s ≡ r) × (i + length f < length s)
drop-length [] f r zero j c e h = absurd (omega (arith, ap length e, length-append f (c ∷ r)))
drop-length [] f r (suc i) j c e h = absurd (omega (arith, ap length e, length-append f (c ∷ r)))
drop-length (x ∷ s) [] r zero j c e h =
    (ap (λ k. drop k (x ∷ s)) (let e' : j ≡ 1 = omega arith in e') ∙ ap (drop 1) e, omega arith)
drop-length (x ∷ s) (y ∷ f) r zero j c e h =
    let (d, l) = drop-length s f r zero (j - 1) c (ap (drop 1) e) (omega arith) in
    (ap (λ k. drop k (x ∷ s)) (let e' : j ≡ suc (j - 1) = omega arith in e') ∙ d, omega arith)
drop-length (x ∷ s) f r (suc i) j c e h =
    let (d, l) = drop-length s f r i (j - 1) c e (omega arith) in
    (ap (λ k. drop k (x ∷ s)) (let e' : j ≡ suc (j - 1) = omega arith in e') ∙ d, omega arith)

-- One field is copied, and the rest of the line stands at the returned position.
pub copy-field :
    (s : Str) (i : ℕ) (f g : Str) (gs : List Str)
    → NoSemicolon f
    → drop i s ≡ join (f ∷ g ∷ gs)
    → (copy_up_to_semicolon s i ≡ (c_string f, i + length f + 1))
      × (drop (i + length f + 1) s ≡ join (g ∷ gs))
unfolding copy_up_to_semicolon
copy-field s i f g gs a e = (λ k. (c_string (text k), position k), here.0)
  where
    here : (drop (i + length f + 1) s ≡ join (g ∷ gs)) × (i + length f < length s)
    here = drop-length s f (join (g ∷ gs)) i (i + length f + 1) semicolon e refl

    at : stop_index (drop i s) i ≡ i + length f
    at = ap (λ t. stop_index t i) e ∙ stop_index-field f (join (g ∷ gs)) i a

    text : take (stop_index (drop i s) i - i) (drop i s) ≡ f
    text =
        ap (take (stop_index (drop i s) i - i)) e
        ∙ take-append f _ (stop_index (drop i s) i - i) (omega (arith, at))

    position :
        (if stop_index (drop i s) i == length s then 0 else stop_index (drop i s) i + 1)
        ≡ i + length f + 1
    position = ground (arith, at, here)

-- The last field is copied to the end of the line.
pub copy-last :
    (s : Str) (i : ℕ) (f : Str)
    → NoSemicolon f
    → drop i s ≡ f
    → (copy_up_to_semicolon s i).0 ≡ c_string f
unfolding copy_up_to_semicolon
copy-last s i f a e = ap c_string (
    ap (take (stop_index (drop i s) i - i)) e
    ∙ take-all f (stop_index (drop i s) i - i) (omega (arith, at)))
  where
    at : stop_index (drop i s) i ≡ i + length f
    at = ap (λ t. stop_index t i) e ∙ stop_index-last f i a

-- The arguments are the remaining fields.
pub copy_args-map :
    (s : Str) (i : ℕ) (f : Str) (fs : List Str)
    → AreFields (f ∷ fs)
    → drop i s ≡ join (f ∷ fs)
    → copy_args s i (suc (length fs)) ≡ map c_string (f ∷ fs)
unfolding copy_args
copy_args-map s i f [] a e = ap (λ w. w ∷ []) (copy-last s i f a.0 e)
copy_args-map s i f (g ∷ gs) a e =
    let (here, rest) = copy-field s i f g gs a.0 e in
    rw here (ap (λ w. c_string f ∷ w) (copy_args-map s (i + length f + 1) g gs a.1 rest))
