-- ===== src/Poll/Change.antt =====
-- Entries come and go: `add_to_poll_list` and `poll_list_remove`.
use native.Mathlib.Nat.{sub-zero}
use why.ArrayList.{int_end}
use why.Poll.{
  Events, grow_poll_list, put_poll_entry, add_to_poll_list, no_events, poll_list_remove,
  forget_entry,
}
use why.Base.{
  subst, ◌==◌, ==_iff, ◌++◌, ◌*◌, ◌^◌, length-append, minus_one, ℕ, suc, ◌+◌, ◌-◌, ◌<◌, ◌≡◌, refl,
  ap, ◌∙◌, sym, inl, inr, List, [], ◌∷◌, none, some, arith, length, lt_of_get_elem?, get_elem?, set,
  length-set, lt→ltb, Bool-cases, Option-cases, if◌then◌else◌, ℤ, ◌==ℤ◌, ok,
}
use why.Base.Memory.{realloc, length-realloc, Block, store}
use why.Base.Starts.{
  Starts-set, Starts-realloc, Starts, Starts-get_elem?, Starts-set_at, Starts-length,
}
use why.Poll.{PollFd, PollList}
use why.Poll.Refine.{Holds, first_fd, first_fd-get_elem?, poll_list_lookup-Holds}

-- The first entry of the descriptor is marked.
unfoldable pub forgotten : ℤ → List PollFd → List PollFd
forgotten fd [] = []
forgotten fd (e ∷ es) =
    if e.fd ==ℤ fd
    then record e { fd = minus_one; revents = no_events } ∷ es
    else e ∷ forgotten fd es

pub length-forgotten : (fd : ℤ) (es : List PollFd) → length (forgotten fd es) ≡ length es
unfolding forgotten
length-forgotten fd [] = refl
length-forgotten fd (e ∷ es) = ground (arith, length-forgotten fd es)

forgotten-none :
    (fd : ℤ) (es : List PollFd) (i : ℕ) → first_fd fd es i ≡ none → forgotten fd es ≡ es
unfolding forgotten first_fd
forgotten-none fd [] i e = refl
forgotten-none fd (x ∷ es) i e = ground (arith, forgotten-none fd es (i + 1))

forgotten-some :
    (fd : ℤ) (es : List PollFd) (i j : ℕ) (e : PollFd)
    → first_fd fd es i ≡ some j
    → get_elem? es (j - i) ≡ some e
    → forgotten fd es ≡ set es (j - i) (record e { fd = minus_one; revents = no_events })
unfolding forgotten first_fd
forgotten-some fd [] i j e h g = cc
forgotten-some fd (x ∷ es) i j e h g = elim (Bool-cases (x.fd ==ℤ fd)) [
  | inl here ↦
      let at : j - i ≡ 0 = (let h' = rw here at h in ground arith) in
      rw (here, at) (let g' = rw at at g in cc)
  | inr later ↦
      let h' = rw later at h in
      let (x', g', f, l) = first_fd-get_elem? fd es (i + 1) j h' in
      let at : j - i ≡ suc (j - (i + 1)) = omega arith in
      rw (later, at) (ap (λ l. x ∷ l) (forgotten-some fd es (i + 1) j e h' (rw at at g)))
]

-- `poll_list_remove` marks the first entry of the descriptor, and no other.
pub poll_list_remove-Holds :
    (p : PollList) (fd : ℤ) (es : List PollFd)
    → Holds p es
    → (p' : PollList) × (poll_list_remove p fd ≡ ok p') × Holds p' (forgotten fd es)
unfolding poll_list_remove forget_entry store
poll_list_remove-Holds p fd es h = elim (Option-cases (first_fd fd es 0)) [
  | inl absent ↦
      (p, rw (poll_list_lookup-Holds p fd es h, absent), rw (forgotten-none fd es 0 absent) h)
  | inr (j, found) ↦
      let (x, g, f, l) = first_fd-get_elem? fd es 0 j found in
      let x' : PollFd = record x { fd = minus_one; revents = no_events } in
      let inside : j < length p.poll_list =
        omega (arith, lt_of_get_elem? es (j - 0) x g, Starts-length p.poll_list es h.listed) in
      let same : forgotten fd es ≡ set es j x' =
        forgotten-some fd es 0 j x found g ∙ ap (λ n. set es n x') (sub-zero j) in
      (
        record p { poll_list = set p.poll_list j (some x') },
        rw (
          poll_list_lookup-Holds p fd es h,
          found,
          Starts-get_elem? p.poll_list j x es h.listed (rw (sub-zero j) at g),
          lt→ltb j (length p.poll_list) inside,
        ),
        record {
          count = h.count ∙ sym (length-forgotten fd es);
          fits = h.fits;
          some_room = h.some_room;
          small = h.small;
          size = length-set p.poll_list j (some x') ∙ h.size;
          listed = rw same (Starts-set_at p.poll_list j x' es h.listed);
        },
      )
]

-- `add_to_poll_list` puts an entry behind the others, in a list that is doubled when it is full.
pub add_to_poll_list-Holds :
    (p : PollList) (fd : ℤ) (events : Events) (es : List PollFd)
    → length es < 2 ^ 29
    → Holds p es
    → (p' : PollList) × (add_to_poll_list p fd events ≡ ok p')
      × Holds p' (es ++ (record { fd = fd; events = events; revents = no_events } ∷ []))
unfolding add_to_poll_list grow_poll_list put_poll_entry store
add_to_poll_list-Holds p fd events es low h = elim (Bool-cases (p.poll_num == p.poll_len)) [
  | inl full ↦
      let list = realloc p.poll_list (p.poll_len * 2) in
      let same : p.poll_num ≡ p.poll_len = (==_iff p.poll_num p.poll_len).0 full in
      let long : length list ≡ p.poll_len * 2 =
        length-realloc p.poll_list (p.poll_len * 2) (omega (arith, h.size)) in
      (
        record {
          poll_list = set list p.poll_num (some new);
          poll_num = p.poll_num + 1;
          poll_len = p.poll_len * 2;
        },
        rw (
          full,
          lt→ltb (p.poll_len * 2) int_end (omega (arith, same, h.count)),
          lt→ltb p.poll_num (length list) (omega (arith, long, same, h.some_room)),
        ),
        placed list (p.poll_len * 2) long (omega (arith, same, h.some_room))
            (omega (arith, same, h.count))
            (Starts-realloc p.poll_list (p.poll_len * 2) es (omega (arith, h.size)) h.listed),
      )
  | inr space ↦
      let less : p.poll_num < p.poll_len = ground (arith, h.fits, ==_iff p.poll_num p.poll_len) in
      (
        record p { poll_list = set p.poll_list p.poll_num (some new); poll_num = p.poll_num + 1 },
        rw (space, lt→ltb p.poll_num (length p.poll_list) (omega (arith, h.size, less))),
        placed p.poll_list p.poll_len h.size less h.small h.listed,
      )
]
  where
    new : PollFd
    new = record { fd = fd; events = events; revents = no_events }

    placed :
        (list : Block PollFd) (len : ℕ)
        → length list ≡ len
        → p.poll_num < len
        → len < 2 ^ 30
        → Starts list es
        → Holds
            (record {
              poll_list = set list p.poll_num (some new);
              poll_num = p.poll_num + 1;
              poll_len = len;
            })
            (es ++ (new ∷ []))
    placed list len long less low' s = record {
      small = low';
      count = omega (arith, h.count, length-append es (new ∷ []));
      fits = omega (arith, less);
      some_room = omega (arith, less);
      size = length-set list p.poll_num (some new) ∙ long;
      listed =
          subst (λ n. Starts (set list n (some new)) (es ++ (new ∷ []))) (sym h.count)
            (Starts-set list es new (omega (arith, h.count, long, less)) s);
    }
