-- ===== src/Queue/Refine.antt =====
-- The queue is a first-in first-out list.
use native.Mathlib.Nat.{mod-eq_of_lt, mod-add-mod}
use why.Base.{
  ap₂, sym, ◌∙◌, ℕ, suc, ◌+◌, ◌-◌, ◌*◌, ◌%◌, ◌^◌, ◌≤◌, ◌<◌, ◌≡◌, refl, sym, ap, ap₂, ◌∙◌, inl, inr,
  List, [], ◌∷◌, ◌++◌, map, map-append, Option, none, some, arith, length, get_or, set, drop, true,
  false, Bool-cases, ◌==◌, ==_iff, lt→ltb, le→ltb, ok, stop, aborts, length-set, length-replicate,
}
use why.Base.Memory.{
  Block, malloc, load, store, realloc, memcpy, copied, load-some, length-realloc, memcpy-ok,
  length-copied,
}
use why.Queue.{
  Queue, init_queue, queue_pop, simple_push, resize_queue, queue_push, queue_is_empty, queue_length,
}
use why.Queue.Invariant.{IsValid}
use why.Queue.Window.{window, window_ext, length-window, window-set, moved}

-- The queue holds the elements `xs`, the next to be popped first.
pub record Holds {ℓ} {A : Type ℓ} (q : Queue A) (xs : List A) : Type ℓ where
  pub valid : IsValid q
  pub view : window q.cells q.capacity q.pointer q.len ≡ map some xs

module _ {ℓ} {A : Type ℓ} where
  map-some-injective : (xs ys : List A) → map some xs ≡ map some ys → xs ≡ ys
  map-some-injective [] [] e = refl
  map-some-injective [] (y ∷ ys) e = absurd (cc)
  map-some-injective (x ∷ xs) [] e = absurd (cc)
  map-some-injective (x ∷ xs) (y ∷ ys) e = ap₂ ◌∷◌ (cc) (map-some-injective xs ys (cc))

  -- The elements are determined by the queue.
  pub Holds-unique : (q : Queue A) (xs ys : List A) → Holds q xs → Holds q ys → xs ≡ ys
  Holds-unique q xs ys h k = map-some-injective xs ys (sym h.view ∙ k.view)

  length-map-some : (xs : List A) → length (map some xs) ≡ length xs
  length-map-some [] = refl
  length-map-some (x ∷ xs) = ap suc (length-map-some xs)

  pub Holds-length : (q : Queue A) (xs : List A) → Holds q xs → q.len ≡ length xs
  Holds-length q xs h = omega (
    arith,
    length-window q.cells q.capacity q.pointer q.len,
    ap length h.view,
    length-map-some xs,
  )

  simple_push-Holds :
      (q : Queue A) (x : A) (xs : List A)
      → q.len < q.capacity
      → Holds q xs
      → (q' : Queue A) × (simple_push q x ≡ ok q') × Holds q' (xs ++ (x ∷ []))
  unfolding simple_push store
  simple_push-Holds q x xs room h =
      (q', rw (lt→ltb _ _ inside), record { valid = v'; view = view' })
    where
      open q use {cells, pointer, len, capacity}

      i : ℕ
      i = (pointer + len) % 2 ^ 32 % capacity

      q' : Queue A
      q' = record q { cells = set cells i (some x); len = (len + 1) % 2 ^ 32 }

      index : i ≡ (pointer + len) % capacity
      index = ap (λ k. k % capacity) (omega (arith, h.valid))

      inside : i < length cells
      inside = omega (arith, h.valid)

      v' : IsValid q'
      v' = omega (arith, h.valid, length-set cells i (some x))

      grown : (len + 1) % 2 ^ 32 ≡ suc len
      grown = omega (arith, h.valid)

      view' :
          window (set cells i (some x)) capacity pointer ((len + 1) % 2 ^ 32)
          ≡ map some (xs ++ (x ∷ []))
      view' =
          ap (window (set cells i (some x)) capacity pointer) grown
          ∙ window-set cells capacity pointer len i x h.valid.storage h.valid.pointer_in room index
          ∙ ap (λ w. w ++ (some x ∷ [])) h.view
          ∙ sym (map-append some xs (x ∷ []))

  -- A full queue is copied into twice the room: its front goes to the end of the new block.
  resize_queue-Holds :
      (q : Queue A) (xs : List A)
      → q.len ≡ q.capacity
      → q.capacity ≤ 2 ^ 30
      → Holds q xs
      → (q' : Queue A) × (resize_queue q ≡ ok q') × (q'.len < q'.capacity) × Holds q' xs
  unfolding resize_queue
  resize_queue-Holds q xs full low h = (
    q',
    rw (sizes.0, sizes.1, sizes.2, copy-ok),
    omega (arith, h.valid),
    record { valid = v'; view = view' ∙ h.view },
  )
    where
      open q use {cells, pointer, len, capacity}

      sizes :
          ((2 * capacity) % 2 ^ 32 ≡ 2 * capacity)
          × (((2 * capacity + 2 ^ 32 - capacity) % 2 ^ 32 + pointer) % 2 ^ 32 ≡ capacity + pointer)
          × ((capacity + 2 ^ 32 - pointer) % 2 ^ 32 ≡ capacity - pointer)
      sizes = omega (arith, h.valid)

      grown : Block A
      grown = realloc cells (2 * capacity)

      length-grown : length grown ≡ 2 * capacity
      length-grown = length-realloc cells (2 * capacity) (omega (arith, h.valid))

      copy : Block A
      copy = copied grown (capacity + pointer) pointer (capacity - pointer)

      copy-ok : memcpy grown (capacity + pointer) pointer (capacity - pointer) ≡ ok copy
      copy-ok =
          memcpy-ok grown (capacity + pointer) pointer (capacity - pointer)
            (omega (arith, h.valid, length-grown)) (omega (arith, h.valid, length-grown))
            (inr (omega (arith, h.valid)))

      q' : Queue A
      q' = record q { cells = copy; capacity = 2 * capacity; pointer = capacity + pointer }

      v' : IsValid q'
      v' = omega (
        arith,
        h.valid,
        length-grown,
        length-copied grown (capacity + pointer) pointer (capacity - pointer)
            (omega (arith, h.valid, length-grown)) (omega (arith, h.valid, length-grown)),
      )

      view' :
          window copy (2 * capacity) (capacity + pointer) len ≡ window cells capacity pointer len
      view' = window_ext copy cells (2 * capacity) capacity (capacity + pointer) pointer len λ k l.
          moved cells capacity pointer k h.valid.storage h.valid.pointer_in (omega (arith, h.valid))

  -- `queue_push` appends, whether or not the ring has to grow, up to 2 ^ 30 elements.
  pub queue_push-Holds :
      (q : Queue A) (x : A) (xs : List A)
      → length xs < 2 ^ 30
      → Holds q xs
      → (q' : Queue A) × (queue_push q x ≡ ok q') × Holds q' (xs ++ (x ∷ []))
  unfolding queue_push
  queue_push-Holds q x xs low h = elim (Bool-cases (q.len == q.capacity)) [
    | inl full ↦
        let (r, e, room, hr) =
          resize_queue-Holds q xs ((==_iff _ _).0 full)
            (omega (arith, Holds-length q xs h, (==_iff q.len q.capacity).0 full)) h in
        let (q', e', h') = simple_push-Holds r x xs room hr in (q', rw (full, e) e', h')
    | inr more ↦
        let (q', e', h') = simple_push-Holds q x xs (ground (arith, h.valid)) h in
        (q', rw more e', h')
  ]

  -- `queue_pop` takes the oldest element.
  pub queue_pop-Holds :
      (q : Queue A) (x : A) (xs : List A)
      → Holds q (x ∷ xs)
      → (q' : Queue A) × (queue_pop q ≡ ok (x, q')) × Holds q' xs
  unfolding queue_pop
  queue_pop-Holds q x xs h =
      (q', rw (lt→ltb _ _ some_in, front_ok), record { valid = v'; view = view' })
    where
      open q use {cells, pointer, len, capacity}

      count : len ≡ suc (length xs)
      count = Holds-length q (x ∷ xs) h

      some_in : 0 < len
      some_in = omega (arith, count)

      split :
          get_or cells (pointer % capacity) none ∷ window cells capacity (pointer + 1) (length xs)
          ≡ some x ∷ map some xs
      split = ap (window cells capacity pointer) (sym count) ∙ h.view

      front_ok : load cells pointer ≡ ok x
      front_ok = load-some cells pointer x (omega (arith, h.valid)) (
          ap (λ i. get_or cells i none) (sym (mod-eq_of_lt h.valid.pointer_in))
          ∙ ap (λ w. get_or w 0 none) split)

      q' : Queue A
      q' = record q { len = len - 1; pointer = (pointer + 1) % 2 ^ 32 % capacity }

      v' : IsValid q'
      v' = omega (arith, h.valid)

      no_wrap : (pointer + 1) % 2 ^ 32 ≡ pointer + 1
      no_wrap = omega (arith, h.valid)

      view' : window cells capacity ((pointer + 1) % 2 ^ 32 % capacity) (len - 1) ≡ map some xs
      view' =
          ap₂ (window cells capacity) (ap (λ k. k % capacity) no_wrap) (omega (arith, count))
          ∙ window_ext cells cells capacity capacity ((pointer + 1) % capacity) (pointer + 1)
              (length xs)
              (λ k l. ap (λ i. get_or cells i none) (mod-add-mod (pointer + 1) capacity k))
          ∙ ap (drop 1) split

  -- A new queue is empty.
  pub init_queue-Holds :
      (n : ℕ) → 0 < n → n ≤ 2 ^ 31 → (q : Queue A) × (init_queue n ≡ ok q) × Holds q []
  unfolding init_queue
  init_queue-Holds n pos_n low = (q, rw (lt→ltb _ _ pos_n), record { valid = v; view = refl })
    where
      q : Queue A
      q = record { cells = malloc n; pointer = 0; len = 0; capacity = n }

      v : IsValid q
      v = omega (arith, length-replicate {A = Option A} n none)

  -- `queue_is_empty` and `queue_length` read the list off.
  pub queue_length-Holds : (q : Queue A) (xs : List A) → Holds q xs → queue_length q ≡ length xs
  unfolding queue_length
  queue_length-Holds q xs h = Holds-length q xs h

  pub queue_is_empty-nil : (q : Queue A) → Holds q [] → queue_is_empty q ≡ true
  unfolding queue_is_empty
  queue_is_empty-nil q h = (==_iff _ _).1 (Holds-length q [] h)

  pub queue_is_empty-cons :
      (q : Queue A) (x : A) (xs : List A) → Holds q (x ∷ xs) → queue_is_empty q ≡ false
  unfolding queue_is_empty
  queue_is_empty-cons q x xs h = ground (arith, Holds-length q (x ∷ xs) h)

  pub queue_pop-nil : (q : Queue A) → Holds q [] → queue_pop q ≡ stop aborts
  unfolding queue_pop
  queue_pop-nil q h = rw (le→ltb 0 q.len (omega (arith, Holds-length q [] h)))
