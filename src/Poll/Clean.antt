-- ===== src/Poll/Clean.antt =====
-- `poll_list_clean` drops the marked entries, each by moving the last entry over it.
use native.Mathlib.Nat.{zero-add, suc-add}
use why.Base.{
  ℕ, zero, suc, ◌+◌, ◌-◌, ◌≤◌, ◌<◌, ◌≡◌, refl, ap, subst, ◌∙◌, sym, inl, inr, Bool, true, false,
  ◌&&◌, not, List, [], ◌∷◌, ◌++◌, append-nil, append_assoc, some, arith, length, length-append,
  length-set, set, drop, ltb, lt→ltb, filter, Bool-cases, minus_one, ◌==ℤ◌, ok,
}
use why.Base.Memory.{Block, load, store}
use why.Base.Starts.{Starts, Starts-load}
use why.ArrayList.Arrays.{last, Starts-load-last}
use why.Poll.{PollFd, PollList, clean_from, poll_list_clean}
use why.Poll.Refine.{Holds}

-- `poll_list_remove` marks an entry with the descriptor -1.
abbrev pub live : PollFd → Bool
live e = not (e.fd ==ℤ minus_one)

-- How many entries pass a test.
abbrev pub count : (PollFd → Bool) → List PollFd → ℕ
count q es = length (filter q es)

pub count-append :
    (q : PollFd → Bool) (xs ys : List PollFd) → count q (xs ++ ys) ≡ count q xs + count q ys
count-append q [] ys = omega arith
count-append q (x ∷ xs) ys = ground (arith, count-append q xs ys)

init : PollFd → List PollFd → List PollFd
init x [] = []
init x (y ∷ ys) = x ∷ init y ys

-- What follows when the last entry stands where an entry stood in front of these.
moved : List PollFd → List PollFd
unfolding init
moved [] = []
moved (z ∷ zs) = last z zs ∷ init z zs

count-last :
    (q : PollFd → Bool) (z : PollFd) (zs : List PollFd)
    → count q (last z zs ∷ init z zs) ≡ count q (z ∷ zs)
unfolding init
count-last q z [] = refl
count-last q z (w ∷ ws) = ground (arith, count-last q w ws)

count-moved : (q : PollFd → Bool) (zs : List PollFd) → count q (moved zs) ≡ count q zs
unfolding moved
count-moved q [] = refl
count-moved q (z ∷ zs) = count-last q z zs

length-init : (z : PollFd) (zs : List PollFd) → length (init z zs) ≡ length zs
unfolding init
length-init z [] = refl
length-init z (y ∷ ys) = ap suc (length-init y ys)

length-moved : (zs : List PollFd) → length (moved zs) ≡ length zs
unfolding moved
length-moved [] = refl
length-moved (z ∷ zs) = ap suc (length-init z zs)

Starts-init :
    (b : Block PollFd) (z : PollFd) (zs : List PollFd) → Starts b (z ∷ zs) → Starts b (init z zs)
unfolding init
Starts-init b z [] s = tt
Starts-init [] z (y ∷ ys) s = absurd s
Starts-init (c ∷ b) z (y ∷ ys) s = (s.0, Starts-init b y ys s.1)

Starts-behind :
    (b : Block PollFd) (xs ys : List PollFd) → Starts b (xs ++ ys) → Starts (drop (length xs) b) ys
Starts-behind b [] ys s = s
Starts-behind [] (x ∷ xs) ys s = absurd s
Starts-behind (c ∷ b) (x ∷ xs) ys s = Starts-behind b xs ys s.1

Starts-moved :
    (b : Block PollFd) (xs : List PollFd) (y : PollFd) (ys : List PollFd)
    → Starts b (xs ++ (y ∷ ys))
    → Starts (set b (length xs) (some (last y ys))) (xs ++ moved ys)
unfolding moved
Starts-moved [] [] y ys s = absurd s
Starts-moved (c ∷ b) [] y [] s = tt
Starts-moved (c ∷ b) [] y (z ∷ zs) s = (refl, Starts-init b z zs s.1)
Starts-moved [] (x ∷ xs) y ys s = absurd s
Starts-moved (c ∷ b) (x ∷ xs) y ys s = (s.0, Starts-moved b xs y ys s.1)

load-last :
    (b : Block PollFd) (xs : List PollFd) (y : PollFd) (ys : List PollFd)
    → Starts b (xs ++ (y ∷ ys))
    → load b (length xs + length ys) ≡ ok (last y ys)
unfolding load
load-last b [] y ys s = rw (zero-add (length ys)) (Starts-load-last b y ys s)
load-last [] (x ∷ xs) y ys s = absurd s
load-last (c ∷ b) (x ∷ xs) y ys s = rw (suc-add (length xs) (length ys)) (load-last b xs y ys (s.1))

store-inside :
    (b : Block PollFd) (i : ℕ) (e : PollFd) → i < length b → store b i e ≡ ok (set b i (some e))
unfolding store
store-inside b i e h = rw (lt→ltb i (length b) h)

count-marked :
    (f : PollFd → Bool) (xs : List PollFd) (y : PollFd) (ys : List PollFd)
    → f y ≡ false
    → count f (xs ++ moved ys) ≡ count f (xs ++ (y ∷ ys))
count-marked f xs y ys fails =
    count-append f xs (moved ys)
    ∙ ap (λ n. count f xs + n) (count-moved f ys ∙ skip)
    ∙ sym (count-append f xs (y ∷ ys))
  where
    skip : count f ys ≡ count f (y ∷ ys)
    skip = rw fails

-- The entries `es'` are the live ones among `es`, each as often as before, in some order.
abbrev pub IsCleaned : List PollFd → List PollFd → Type 0
IsCleaned es es' = (q : PollFd → Bool) → count q es' ≡ count (λ e. q e && live e) es

-- The tests that a marked entry fails, and that a live one passes as before.
dead : (y : PollFd) (q : PollFd → Bool) → (y.fd ==ℤ minus_one) ≡ true → (q y && live y) ≡ false
dead y q marked = ground arith

single :
    (y : PollFd) (q : PollFd → Bool)
    → (y.fd ==ℤ minus_one) ≡ false
    → count q (y ∷ []) ≡ count (λ e. q e && live e) (y ∷ [])
single y q stays = rw stays (elim (Bool-cases (q y)) [ inl e ↦ rw e | inr e ↦ rw e ])

kept :
    (xs : List PollFd) (y : PollFd) (q : PollFd → Bool)
    → count q xs ≡ count (λ e. q e && live e) xs
    → (y.fd ==ℤ minus_one) ≡ false
    → count q (xs ++ (y ∷ [])) ≡ count (λ e. q e && live e) (xs ++ (y ∷ []))
kept xs y q all stays =
    count-append q xs (y ∷ [])
    ∙ ap (λ n. n + count q (y ∷ [])) all
    ∙ ap (λ n. count (λ e. q e && live e) xs + n) (single y q stays)
    ∙ sym (count-append (λ e. q e && live e) xs (y ∷ []))

clean_from-Holds :
    (rounds : ℕ) (p : PollList) (xs ys : List PollFd)
    → Holds p (xs ++ ys)
    → length ys ≤ rounds
    → ((q : PollFd → Bool) → count q xs ≡ count (λ e. q e && live e) xs)
    → (p' : PollList) × (es' : List PollFd) × (clean_from rounds (length xs) p ≡ ok p')
      × Holds p' es'
      × IsCleaned (xs ++ ys) es'
unfolding clean_from
clean_from-Holds zero p xs [] h few all = (p, xs ++ [], refl, h, λ q. rw (append-nil xs) (all q))
clean_from-Holds (suc rounds) p xs [] h few all =
    (p, xs ++ [], rw past refl, h, λ q. rw (append-nil xs) (all q))
  where
    past : ltb (length xs) p.poll_num ≡ false
    past = ground (arith, h.count, ap length (append-nil xs))
clean_from-Holds zero p xs (y ∷ ys) h few all = absurd (omega arith)
clean_from-Holds (suc rounds) p xs (y ∷ ys) h few all = elim (Bool-cases (y.fd ==ℤ minus_one)) [
  | inl marked ↦
      let p₁ : PollList = record p {
        poll_list = set p.poll_list (length xs) (some (last y ys));
        poll_num = p.poll_num - 1;
      } in
      let h₁ : Holds p₁ (xs ++ moved ys) = record {
        count = omega (arith, total, length-append xs (moved ys), length-moved ys);
        fits = omega (arith, h.fits);
        some_room = h.some_room;
        small = h.small;
        size = length-set p.poll_list (length xs) (some (last y ys)) ∙ h.size;
        listed = Starts-moved p.poll_list xs y ys h.listed;
      } in
      let (p', es', e, h', c) =
        clean_from-Holds rounds p₁ xs (moved ys) h₁ (omega (arith, few, length-moved ys)) all in
      (
        p',
        es',
        rw (within, here, marked, at_last, stored) e,
        h',
        λ q. c q ∙ count-marked (λ e. q e && live e) xs y ys (dead y q marked),
      )
  | inr stays ↦
      let together = append_assoc xs (y ∷ []) ys in
      let (p', es', e, h', c) =
        clean_from-Holds rounds p (xs ++ (y ∷ [])) ys (subst (Holds p) (sym together) h)
          (omega (arith, few)) (λ q. kept xs y q (all q) stays) in
      (
        p',
        es',
        rw (within, here, stays)
            (subst (λ n. clean_from rounds n p ≡ ok p') (length-append xs (y ∷ [])) e),
        h',
        λ q. c q ∙ ap (count (λ e. q e && live e)) together,
      )
]
  where
    total : p.poll_num ≡ length xs + length ys + 1
    total = omega (arith, h.count, length-append xs (y ∷ ys))

    within : ltb (length xs) p.poll_num ≡ true
    within = lt→ltb (length xs) p.poll_num (omega (arith, total))

    inside : length xs < length p.poll_list
    inside = omega (arith, total, h.fits, h.size)

    at_last : load p.poll_list (p.poll_num - 1) ≡ ok (last y ys)
    at_last = ap (load p.poll_list) (omega (arith, total)) ∙ load-last p.poll_list xs y ys h.listed

    stored :
        store p.poll_list (length xs) (last y ys)
        ≡ ok (set p.poll_list (length xs) (some (last y ys)))
    stored = store-inside p.poll_list (length xs) (last y ys) inside

    here : load p.poll_list (length xs) ≡ ok y
    here = Starts-load p.poll_list (length xs) y ys (Starts-behind p.poll_list xs (y ∷ ys) h.listed)

-- `poll_list_clean` returns, and leaves exactly the entries that are not marked, each as often as
-- before, in some order.
pub poll_list_clean-Holds :
    (p : PollList) (es : List PollFd)
    → Holds p es
    → (p' : PollList) × (es' : List PollFd) × (poll_list_clean p ≡ ok p')
      × Holds p' es'
      × IsCleaned es es'
unfolding poll_list_clean
poll_list_clean-Holds p es h =
    clean_from-Holds p.poll_num p [] es h (omega (arith, h.count)) (λ q. refl)
