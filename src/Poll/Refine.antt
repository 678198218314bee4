-- ===== src/Poll/Refine.antt =====
-- The poll list as a list of entries.
use native.Mathlib.Nat.{sub-zero}
use native.Mathlib.Numerals.{add-one}
use why.Base.{
  ℕ, suc, ◌+◌, ◌^◌, ◌-◌, ◌≤◌, ◌<◌, ◌≡◌, refl, ap, ◌∙◌, sym, inl, inr, Bool, true, List, [], ◌∷◌,
  Option, none, some, arith, length, lt_of_get_elem?, get_elem?, set, drop, length-set, lt→ltb,
  Bool-cases, Option-cases, if◌then◌else◌, ℤ, ◌==ℤ◌, ok,
}
use why.Base.Memory.{Block, store}
use why.Base.Starts.{
  Starts, Starts-load, Starts-drop, Starts-get_elem?, Starts-set_at, Starts-length,
}
use why.Poll.{PollFd, PollList, lookup_from, poll_list_lookup, set_pollout}

pub record Holds (p : PollList) (es : List PollFd) : Type 0 where
  pub count : p.poll_num ≡ length es
  pub fits : p.poll_num ≤ p.poll_len
  pub some_room : 0 < p.poll_len
  pub size : length p.poll_list ≡ p.poll_len
  pub small : p.poll_len < 2 ^ 30
  pub listed : Starts p.poll_list es

-- The place of the first entry of the descriptor, behind `i` others.
unfoldable pub first_fd : ℤ → List PollFd → ℕ → Option ℕ
first_fd fd [] i = none
first_fd fd (e ∷ es) i = if e.fd ==ℤ fd then some i else first_fd fd es (i + 1)

lookup_from-first_fd :
    (list : Block PollFd) (fd : ℤ) (i : ℕ) (es : List PollFd)
    → Starts (drop i list) es
    → lookup_from list fd (length es) i ≡ ok (first_fd fd es i)
unfolding lookup_from first_fd
lookup_from-first_fd list fd i [] s = refl
lookup_from-first_fd list fd i (e ∷ es) s = ground (
  arith,
  Starts-load list i e es s,
  lookup_from-first_fd list fd (i + 1) es (rw add-one (Starts-drop list i e es s)),
)

-- `poll_list_lookup` finds the first entry of the descriptor, or `NULL`.
pub poll_list_lookup-Holds :
    (p : PollList) (fd : ℤ) (es : List PollFd)
    → Holds p es
    → poll_list_lookup p fd ≡ ok (first_fd fd es 0)
unfolding poll_list_lookup
poll_list_lookup-Holds p fd es h =
    ap (λ n. lookup_from p.poll_list fd n 0) h.count
    ∙ lookup_from-first_fd p.poll_list fd 0 es h.listed

pub first_fd-get_elem? :
    (fd : ℤ) (es : List PollFd) (i j : ℕ)
    → first_fd fd es i ≡ some j
    → (e : PollFd) × (get_elem? es (j - i) ≡ some e) × ((e.fd ==ℤ fd) ≡ true) × (i ≤ j)
unfolding first_fd
first_fd-get_elem? fd [] i j h = cc
first_fd-get_elem? fd (e ∷ es) i j h = elim (Bool-cases (e.fd ==ℤ fd)) [
  | inl here ↦
      let same : j ≡ i = ground arith in
      let at : j - i ≡ 0 = omega arith in (e, rw at, here, omega arith)
  | inr later ↦
      let (e', g, f, l) = first_fd-get_elem? fd es (i + 1) j (rw later at h) in
      let at : j - i ≡ suc (j - (i + 1)) = omega arith in (e', rw at g, f, omega arith)
]

-- An entry with POLLOUT set or cleared.
abbrev pub with_pollout : PollFd → Bool → PollFd
with_pollout x on = record x { events = record (x.events) { pollout = on } }

-- Setting or clearing POLLOUT of an entry changes nothing else.
pub set_pollout-at :
    (p : PollList) (j : ℕ) (on : Bool) (x : PollFd) (es : List PollFd)
    → get_elem? es j ≡ some x
    → Holds p es
    → (p' : PollList) × (set_pollout p (some j) on ≡ ok p')
      × Holds p' (set es j (with_pollout x on))
unfolding set_pollout store
set_pollout-at p j on x es at h =
    let x' = with_pollout x on in
    let inside : j < length p.poll_list =
      omega (arith, lt_of_get_elem? es j x at, Starts-length p.poll_list es h.listed) in
    (
      record p { poll_list = set p.poll_list j (some x') },
      rw (Starts-get_elem? p.poll_list j x es h.listed at, lt→ltb j (length p.poll_list) inside),
      record {
        count = h.count ∙ sym (length-set es j x');
        fits = h.fits;
        some_room = h.some_room;
        small = h.small;
        size = length-set p.poll_list j (some x') ∙ h.size;
        listed = Starts-set_at p.poll_list j x' es h.listed;
      },
    )

-- The first entry of the descriptor, with POLLOUT set or cleared.
unfoldable pub asking : ℤ → Bool → List PollFd → List PollFd
asking fd on [] = []
asking fd on (e ∷ es) = if e.fd ==ℤ fd then with_pollout e on ∷ es else e ∷ asking fd on es

pub length-asking : (fd : ℤ) (on : Bool) (es : List PollFd) → length (asking fd on es) ≡ length es
unfolding asking
length-asking fd on [] = refl
length-asking fd on (e ∷ es) = ground (arith, length-asking fd on es)

asking-none :
    (fd : ℤ) (on : Bool) (es : List PollFd) (i : ℕ) → first_fd fd es i ≡ none → asking fd on es ≡ es
unfolding asking first_fd
asking-none fd on [] i e = refl
asking-none fd on (x ∷ es) i e = ground (arith, asking-none fd on es (i + 1))

asking-some :
    (fd : ℤ) (on : Bool) (es : List PollFd) (i j : ℕ) (e : PollFd)
    → first_fd fd es i ≡ some j
    → get_elem? es (j - i) ≡ some e
    → asking fd on es ≡ set es (j - i) (with_pollout e on)
unfolding asking first_fd
asking-some fd on [] i j e h g = cc
asking-some fd on (x ∷ es) i j e h g = elim (Bool-cases (x.fd ==ℤ fd)) [
  | inl here ↦
      let at : j - i ≡ 0 = (let h' = rw here at h in ground arith) in
      rw (here, at) (let g' = rw at at g in cc)
  | inr later ↦
      let h' = rw later at h in
      let (x', g', f, l) = first_fd-get_elem? fd es (i + 1) j h' in
      let at : j - i ≡ suc (j - (i + 1)) = omega arith in
      rw (later, at) (ap (λ l. x ∷ l) (asking-some fd on es (i + 1) j e h' (rw at at g)))
]

-- Setting or clearing POLLOUT of the entry found is well defined, and changes no other entry.
pub set_pollout-Holds :
    (p : PollList) (fd : ℤ) (on : Bool) (es : List PollFd)
    → Holds p es
    → (p' : PollList) × (set_pollout p (first_fd fd es 0) on ≡ ok p') × Holds p' (asking fd on es)
set_pollout-Holds p fd on es h = elim (Option-cases (first_fd fd es 0)) [
  | inl e ↦ (p, rw e (unfold set_pollout in refl), rw (asking-none fd on es 0 e) h)
  | inr (j, e) ↦
      let (x, g, f, l) = first_fd-get_elem? fd es 0 j e in
      let at = rw (sub-zero j) at g in
      let (p', e', h') = set_pollout-at p j on x es at h in
      let same : asking fd on es ≡ set es j (with_pollout x on) =
        asking-some fd on es 0 j x e g ∙ ap (λ n. set es n (with_pollout x on)) (sub-zero j) in
      (p', rw e e', rw same h')
]
