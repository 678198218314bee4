-- ===== src/ArrayList/Append.antt =====
-- Appending to the array list, with its growth.
use why.Base.{
  suc, ◌+◌, ◌*◌, ◌^◌, ◌<◌, ◌≡◌, refl, ap, subst, ◌∙◌, sym, inl, inr, List, [], ◌∷◌, ◌++◌, map,
  map-append, Option, some, arith, length, lt→ltb, ◌==◌, ==_iff, Bool-cases, ℤ, set, length-set,
  length-append, ok,
}
use why.Base.Memory.{store, realloc, length-realloc}
use why.ArrayList.{PList, list_resize, append_entry, list_append}
use why.Base.Starts.{Starts, Starts-set, Starts-realloc}
use why.ArrayList.Refine.{Holds}

module _ {A : Type 0} where
  list_resize-Holds :
      (l : PList A) (xs : List (ℤ × A))
      → l.len ≡ l.capacity
      → l.capacity < 2 ^ 30
      → Holds l xs
      → (l' : PList A) × (list_resize l ≡ ok l') × (l'.len < l'.capacity) × Holds l' xs
  unfolding list_resize
  list_resize-Holds l xs full low h = (
    l',
    rw (lt→ltb (l.capacity * 2) (2 ^ 31) (omega arith)),
    omega (arith, h),
    record {
      count = h.count;
      fits = omega (arith, h);
      some_room = omega (arith, h);
      small = omega arith;
      key_size = length-realloc l.key (l.capacity * 2) (omega (arith, h));
      datum_size = length-realloc l.datum (l.capacity * 2) (omega (arith, h));
      keys = Starts-realloc l.key (l.capacity * 2) _ (omega (arith, h)) h.keys;
      data' = Starts-realloc l.datum (l.capacity * 2) _ (omega (arith, h)) h.data';
    },
  )
    where
      l' : PList A
      l' = record l {
        capacity = l.capacity * 2;
        key = realloc l.key (l.capacity * 2);
        datum = realloc l.datum (l.capacity * 2);
      }

  length-map {κ} : {B : Type κ} (f : ℤ × A → B) (xs : List (ℤ × A)) → length (map f xs) ≡ length xs
  length-map f [] = refl
  length-map f (x ∷ xs) = ap suc (length-map f xs)

  -- Writing behind the values in use.
  Starts-put :
      {B : Type 0} (f : ℤ × A → B) (l : PList A) (b : List (Option B)) (xs : List (ℤ × A))
      (e : ℤ × A)
      → length b ≡ l.capacity
      → l.len < l.capacity
      → Holds l xs
      → Starts b (map f xs)
      → Starts (set b l.len (some (f e))) (map f (xs ++ (e ∷ [])))
  Starts-put f l b xs e size room h s = rw (map-append f xs (e ∷ [])) (
      subst (λ n. Starts (set b n (some (f e))) (map f xs ++ (f e ∷ [])))
        (length-map f xs ∙ sym h.count)
        (Starts-set b (map f xs) (f e) (omega (arith, h.count, length-map f xs)) s))

  append_entry-Holds :
      (l : PList A) (key : ℤ) (elt : A) (xs : List (ℤ × A))
      → l.len < l.capacity
      → Holds l xs
      → (l' : PList A) × (append_entry l key elt ≡ ok l') × Holds l' (xs ++ ((key, elt) ∷ []))
  unfolding append_entry store
  append_entry-Holds l key elt xs room h = (
    l',
    rw (
      lt→ltb l.len (length l.key) (omega (arith, h)),
      lt→ltb l.len (length l.datum) (omega (arith, h)),
      lt→ltb (l.len + 1) (2 ^ 31) (omega (arith, h)),
    ),
    record {
      count = omega (arith, h.count, length-append xs ((key, elt) ∷ []));
      fits = omega arith;
      some_room = h.some_room;
      small = h.small;
      key_size = length-set l.key l.len _ ∙ h.key_size;
      datum_size = length-set l.datum l.len _ ∙ h.datum_size;
      keys = Starts-put (λ e. e.0) l l.key xs (key, elt) h.key_size room h h.keys;
      data' = Starts-put (λ e. e.1) l l.datum xs (key, elt) h.datum_size room h h.data';
    },
  )
    where
      l' : PList A
      l' = record l {
        key = set l.key l.len (some key);
        datum = set l.datum l.len (some elt);
        len = l.len + 1;
      }

  -- `list_append` puts the new entry last, growing the arrays when they are full.
  pub list_append-Holds :
      (l : PList A) (key : ℤ) (elt : A) (xs : List (ℤ × A))
      → length xs < 2 ^ 30
      → Holds l xs
      → (l' : PList A) × (list_append l key elt ≡ ok l') × Holds l' (xs ++ ((key, elt) ∷ []))
  unfolding list_append
  list_append-Holds l key elt xs low h = elim (Bool-cases (l.len == l.capacity)) [
    | inl full ↦
        let full' = (==_iff l.len l.capacity).0 full in
        let (r, e, room, hr) = list_resize-Holds l xs full' (omega (arith, h, full')) h in
        let (l', e', h') = append_entry-Holds r key elt xs room hr in (l', rw (full, e) e', h')
    | inr more ↦
        let (l', e', h') = append_entry-Holds l key elt xs (ground (arith, h)) h in
        (l', rw more e', h')
  ]
