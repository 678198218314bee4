-- ===== src/Poll/Watch.antt =====
-- Which descriptors are watched, and for what: by counting the entries.
use why.Base.{
  ℕ, zero, suc, ◌+◌, ◌≤◌, ◌≡◌, refl, ◌∙◌, inl, inr, Bool, true, false, ◌&&◌, not, List, [], ◌∷◌,
  ◌++◌, some, arith, set, get_elem?, Bool-cases, ℤ, minus_one, ◌==ℤ◌, ==ℤ_iff, ==ℤ_refl, none,
}
use why.Poll.{PollFd, no_events, only_pollin}
use why.Poll.Refine.{asking, with_pollout, first_fd}
use why.Poll.Change.{forgotten}
use why.Poll.Clean.{live, count, count-append, IsCleaned}

abbrev pub is_at : ℤ → PollFd → Bool
is_at k e = e.fd ==ℤ k

abbrev pub same : Bool → Bool → Bool
same true b = b
same false b = not b

abbrev pub watches : ℤ → Bool → PollFd → Bool
watches k b e = e.fd ==ℤ k && same (e.events.pollout) b

-- The descriptor has exactly one entry, which asks for POLLOUT or does not.
abbrev pub IsWatched : ℤ → Bool → List PollFd → Type 0
IsWatched k b es = (count (is_at k) es ≡ 1) × (count (watches k b) es ≡ 1)

-- Every entry of the descriptor asks for POLLOUT or does not.
count-watches :
    (k : ℤ) (es : List PollFd)
    → count (watches k true) es + count (watches k false) es ≡ count (is_at k) es
count-watches k [] = refl
count-watches k (e ∷ es) = ground (arith, count-watches k es)

-- Only the counts of the entry's own descriptor change.
count-asking_at :
    (fd k : ℤ) (on : Bool) (es : List PollFd)
    → count (is_at k) (asking fd on es) ≡ count (is_at k) es
unfolding asking
count-asking_at fd k on [] = refl
count-asking_at fd k on (e ∷ es) = ground (arith, count-asking_at fd k on es)

count-asking_other :
    (fd k : ℤ) (on b : Bool) (es : List PollFd)
    → (fd ==ℤ k) ≡ false
    → count (watches k b) (asking fd on es) ≡ count (watches k b) es
unfolding asking
count-asking_other fd k on b [] other = refl
count-asking_other fd k on b (e ∷ es) other =
    ground
      (arith, ==ℤ_iff e.fd fd, ==ℤ_iff e.fd k, ==ℤ_iff fd k, count-asking_other fd k on b es other)

count-asking_self :
    (fd : ℤ) (on : Bool) (es : List PollFd)
    → count (is_at fd) es ≡ 1
    → count (watches fd on) (asking fd on es) ≡ 1
unfolding asking
count-asking_self fd on [] h = absurd (omega arith)
count-asking_self fd true (e ∷ es) h =
    ground (arith, count-watches fd es, count-asking_self fd true es)
count-asking_self fd false (e ∷ es) h =
    ground (arith, count-watches fd es, count-asking_self fd false es)

pub asking-IsWatched :
    (fd k : ℤ) (b : Bool) (es : List PollFd)
    → (fd ==ℤ k) ≡ false
    → IsWatched k b es
    → IsWatched k b (asking fd true es)
asking-IsWatched fd k b es other h =
    (count-asking_at fd k true es ∙ h.0, count-asking_other fd k true b es other ∙ h.1)

pub asking-IsWatched_self :
    (fd : ℤ) (b : Bool) (es : List PollFd)
    → IsWatched fd b es
    → IsWatched fd true (asking fd true es)
asking-IsWatched_self fd b es h =
    (count-asking_at fd fd true es ∙ h.0, count-asking_self fd true es h.0)

-- Another entry in the place of one.
abbrev pub one_if : Bool → ℕ
one_if true = 1
one_if false = 0

pub count-set :
    (q : PollFd → Bool) (es : List PollFd) (i : ℕ) (x y : PollFd)
    → get_elem? es i ≡ some x
    → count q (set es i y) + one_if (q x) ≡ count q es + one_if (q y)
count-set q [] i x y at = cc
count-set q (e ∷ es) zero x y at = let same : e ≡ x = cc in rw same (ground arith)
count-set q (e ∷ es) (suc i) x y at = ground (arith, count-set q es i x y at)

count-some :
    (q : PollFd → Bool) (es : List PollFd) (i : ℕ) (x : PollFd)
    → get_elem? es i ≡ some x
    → one_if (q x) ≤ count q es
count-some q [] i x at = cc
count-some q (e ∷ es) zero x at = let same : e ≡ x = cc in rw same (ground arith)
count-some q (e ∷ es) (suc i) x at = ground (arith, count-some q es i x at)

-- An entry that asks for POLLOUT is the one that is counted.
pub asks_for_more :
    (k : ℤ) (b : Bool) (es : List PollFd) (i : ℕ) (x : PollFd)
    → get_elem? es i ≡ some x
    → (x.fd ==ℤ k) ≡ true
    → x.events.pollout ≡ true
    → IsWatched k b es
    → b ≡ true
asks_for_more k true es i x at own asks h = refl
asks_for_more k false es i x at own asks h =
    let n = count-some (watches k true) es i x at in
    absurd (let m = rw (own, asks) at n in omega (arith, m, h, count-watches k es))

pub set-IsWatched :
    (fd k : ℤ) (b on : Bool) (es : List PollFd) (i : ℕ) (x : PollFd)
    → get_elem? es i ≡ some x
    → (x.fd ==ℤ fd) ≡ true
    → (fd ==ℤ k) ≡ false
    → IsWatched k b es
    → IsWatched k b (set es i (with_pollout x on))
set-IsWatched fd k b on es i x at own other h =
    let n = count-set (is_at k) es i x (with_pollout x on) at in
    let m = count-set (watches k b) es i x (with_pollout x on) at in
    (
      ground (arith, h, n, ==ℤ_iff x.fd fd, ==ℤ_iff x.fd k, ==ℤ_iff fd k),
      ground (arith, h, m, ==ℤ_iff x.fd fd, ==ℤ_iff x.fd k, ==ℤ_iff fd k),
    )

-- The one entry of the descriptor asks for what it is told to ask for.
set-watches :
    (fd : ℤ) (b on : Bool) (es : List PollFd) (i : ℕ) (x : PollFd)
    → get_elem? es i ≡ some x
    → (x.fd ==ℤ fd) ≡ true
    → IsWatched fd b es
    → count (watches fd on) (set es i (with_pollout x on)) ≡ 1
set-watches fd b true es i x at own h =
    let m = count-set (watches fd true) es i x (with_pollout x true) at in
    let n = count-some (watches fd true) es i x at in
    let o = count-some (watches fd false) es i x at in
    ground (arith, m, n, o, h, count-watches fd es)
set-watches fd b false es i x at own h =
    let m = count-set (watches fd false) es i x (with_pollout x false) at in
    let n = count-some (watches fd true) es i x at in
    let o = count-some (watches fd false) es i x at in
    ground (arith, m, n, o, h, count-watches fd es)

pub set-IsWatched_self :
    (fd : ℤ) (b on : Bool) (es : List PollFd) (i : ℕ) (x : PollFd)
    → get_elem? es i ≡ some x
    → (x.fd ==ℤ fd) ≡ true
    → IsWatched fd b es
    → IsWatched fd on (set es i (with_pollout x on))
set-IsWatched_self fd b on es i x at own h =
    let n = count-set (is_at fd) es i x (with_pollout x on) at in
    (ground (arith, h, n), set-watches fd b on es i x at own h)

-- Marking the entry of another descriptor.
count-forgotten :
    (q : PollFd → Bool) (fd k : ℤ) (es : List PollFd)
    → ((e : PollFd) → (e.fd ==ℤ k) ≡ false → q e ≡ false)
    → (fd ==ℤ k) ≡ false
    → (minus_one ==ℤ k) ≡ false
    → count q (forgotten fd es) ≡ count q es
unfolding forgotten
count-forgotten q fd k [] at other alive = refl
count-forgotten q fd k (e ∷ es) at other alive = elim (Bool-cases (e.fd ==ℤ fd)) [
  | inl here ↦
      let away : (e.fd ==ℤ k) ≡ false =
        ground (arith, ==ℤ_iff e.fd fd, ==ℤ_iff e.fd k, ==ℤ_iff fd k) in
      rw (here, at (record e { fd = minus_one; revents = no_events }) alive, at e away)
  | inr later ↦ rw later (ground (arith, count-forgotten q fd k es at other alive))
]

at_watches : (k : ℤ) (b : Bool) (e : PollFd) → (e.fd ==ℤ k) ≡ false → watches k b e ≡ false
at_watches k b e h = rw h

pub forgotten-IsWatched :
    (fd k : ℤ) (b : Bool) (es : List PollFd)
    → (fd ==ℤ k) ≡ false
    → (minus_one ==ℤ k) ≡ false
    → IsWatched k b es
    → IsWatched k b (forgotten fd es)
forgotten-IsWatched fd k b es other alive h = (
  count-forgotten (is_at k) fd k es (λ e n. n) other alive ∙ h.0,
  count-forgotten (watches k b) fd k es (at_watches k b) other alive ∙ h.1,
)

-- An entry behind the others.
pub append-IsWatched :
    (k : ℤ) (b : Bool) (es : List PollFd) (new : PollFd)
    → (new.fd ==ℤ k) ≡ false
    → IsWatched k b es
    → IsWatched k b (es ++ (new ∷ []))
append-IsWatched k b es new other h = (
  count-append (is_at k) es (new ∷ []) ∙ rw other (omega (arith, h)),
  count-append (watches k b) es (new ∷ []) ∙ rw other (omega (arith, h)),
)

-- A descriptor that has no entry gets one.
pub append-IsWatched_self :
    (fd : ℤ) (es : List PollFd)
    → count (is_at fd) es ≡ 0
    → IsWatched fd false
        (es ++ (record { fd = fd; events = only_pollin; revents = no_events } ∷ []))
append-IsWatched_self fd es h =
    let new : PollFd = record { fd = fd; events = only_pollin; revents = no_events } in
    (
      count-append (is_at fd) es (new ∷ []) ∙ rw (==ℤ_refl fd) (omega (arith, h)),
      count-append (watches fd false) es (new ∷ [])
          ∙ rw (==ℤ_refl fd) (omega (arith, h, count-watches fd es)),
    )

pub first_fd-count :
    (fd : ℤ) (es : List PollFd) (i : ℕ) → first_fd fd es i ≡ none → count (is_at fd) es ≡ 0
unfolding first_fd
first_fd-count fd [] i h = refl
first_fd-count fd (e ∷ es) i h = ground (arith, first_fd-count fd es (i + 1))

-- Marked entries are of no account.
count-live :
    (q : PollFd → Bool) (k : ℤ) (es : List PollFd)
    → ((e : PollFd) → (e.fd ==ℤ k) ≡ false → q e ≡ false)
    → (minus_one ==ℤ k) ≡ false
    → count (λ e. q e && live e) es ≡ count q es
count-live q k [] at alive = refl
count-live q k (e ∷ es) at alive = elim (Bool-cases (e.fd ==ℤ minus_one)) [
  | inl dead ↦
      let away : (e.fd ==ℤ k) ≡ false =
        ground (arith, ==ℤ_iff e.fd minus_one, ==ℤ_iff e.fd k, ==ℤ_iff minus_one k) in
      rw (dead, at e away) (count-live q k es at alive)
  | inr lives ↦ rw lives (ground (arith, count-live q k es at alive))
]

pub cleaned-IsWatched :
    (k : ℤ) (b : Bool) (es es' : List PollFd)
    → (minus_one ==ℤ k) ≡ false
    → IsCleaned es es'
    → IsWatched k b es
    → IsWatched k b es'
cleaned-IsWatched k b es es' alive c h = (
  c (is_at k) ∙ count-live (is_at k) k es (λ e n. n) alive ∙ h.0,
  c (watches k b) ∙ count-live (watches k b) k es (at_watches k b) alive ∙ h.1,
)
