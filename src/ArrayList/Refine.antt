-- ===== src/ArrayList/Refine.antt =====
-- The array list is a finite map from its keys to its elements.
use native.Mathlib.Nat.{zero-add}
use why.Base.{
  ℕ, suc, ◌+◌, ◌-◌, ◌^◌, ◌≤◌, ◌<◌, ◌≡◌, refl, ap, ◌∙◌, inl, inr, false, List, [], ◌∷◌, map, Option,
  none, some, arith, length, lt→ltb, Option-cases, ℤ, set, length-set, length-replicate, ok,
}
use why.Base.Memory.{load, store}
use why.Base.Starts.{Starts}
use why.ArrayList.{
  PList, init_list, list_is_empty, list_lookup_index, datum_at, list_lookup, list_remove,
}
use why.ArrayList.Entries.{lookup, remove}
use why.ArrayList.Arrays.{
  Starts-load-last, last, map-last, position, as_index, load_at, find_key-position,
  load_at-position, position-none, position-length, Starts-remove,
}

-- The list holds the entries `xs`, in this order.
pub record Holds {A : Type 0} (l : PList A) (xs : List (ℤ × A)) : Type 0 where
  pub count : l.len ≡ length xs
  pub fits : l.len ≤ l.capacity
  pub some_room : 0 < l.capacity
  pub small : l.capacity < 2 ^ 31
  pub key_size : length l.key ≡ l.capacity
  pub datum_size : length l.datum ≡ l.capacity
  pub keys : Starts l.key (map (λ e. e.0) xs)
  pub data' : Starts l.datum (map (λ e. e.1) xs)

module _ {A : Type 0} where
  pub init_list-Holds : (n : ℕ) → 0 < n → n < 2 ^ 31 → Holds (init_list {A = A} n) []
  unfolding init_list
  init_list-Holds n some_n low = record {
    count = refl;
    fits = omega arith;
    some_room = some_n;
    small = low;
    key_size = length-replicate n none;
    datum_size = length-replicate n none;
    keys = tt;
    data' = tt;
  }

  list_lookup_index-position :
      (l : PList A) (key : ℤ) (xs : List (ℤ × A))
      → Holds l xs
      → list_lookup_index l key ≡ ok (as_index 0 (position key xs))
  unfolding list_lookup_index
  list_lookup_index-position l key xs h =
      rw h.count (unfold list_lookup_index in find_key-position l.key key 0 xs h.keys)

  -- `list_lookup` finds the first element with the key, or `NULL`.
  pub list_lookup-Holds :
      (l : PList A) (key : ℤ) (xs : List (ℤ × A))
      → Holds l xs
      → list_lookup l key ≡ ok (lookup key xs)
  unfolding list_lookup
  list_lookup-Holds l key xs h =
      rw (list_lookup_index-position l key xs h)
        (same (position key xs) ∙ load_at-position l.datum key 0 xs h.data')
    where
      same : (o : Option ℕ) → datum_at l (as_index 0 o) ≡ load_at l.datum 0 o
      same none = refl
      same (some p) = refl

  remove_index-absent :
      (l : PList A) (key : ℤ) (xs : List (ℤ × A))
      → position key xs ≡ none
      → Holds l xs
      → (l' : PList A) × (list_remove l key ≡ ok l') × Holds l' (remove key xs)
  unfolding list_remove
  remove_index-absent l key xs absent h = (
    l,
    rw (list_lookup_index-position l key xs h, absent),
    rw ((position-none key xs absent).1) h,
  )

  module _ (l : PList A) (x : ℤ × A) (xs : List (ℤ × A)) (h : Holds l (x ∷ xs)) where
    last_key : load l.key (l.len - 1) ≡ ok (last x xs).0
    last_key =
        ap (load l.key) (omega (arith, h.count, length-map-key xs))
        ∙ Starts-load-last l.key x.0 (map (λ e. e.0) xs) h.keys
        ∙ ap ok (map-last (λ e. e.0) x xs)
      where
        length-map-key : (ys : List (ℤ × A)) → length ys ≡ length (map (λ e. e.0) ys)
        length-map-key [] = refl
        length-map-key (y ∷ ys) = ap suc (length-map-key ys)

    last_datum : load l.datum (l.len - 1) ≡ ok (last x xs).1
    last_datum =
        ap (load l.datum) (omega (arith, h.count, length-map-datum xs))
        ∙ Starts-load-last l.datum x.1 (map (λ e. e.1) xs) h.data'
        ∙ ap ok (map-last (λ e. e.1) x xs)
      where
        length-map-datum : (ys : List (ℤ × A)) → length ys ≡ length (map (λ e. e.1) ys)
        length-map-datum [] = refl
        length-map-datum (y ∷ ys) = ap suc (length-map-datum ys)

    remove_index-found :
        (key : ℤ) (p : ℕ)
        → position key (x ∷ xs) ≡ some p
        → (l' : PList A) × (list_remove l key ≡ ok l') × Holds l' (remove key (x ∷ xs))
    unfolding list_remove store
    remove_index-found key p found = (
      l',
      rw (
        list_lookup_index-position l key (x ∷ xs) h,
        found,
        zero-add,
        not_empty,
        last_key,
        last_datum,
        lt→ltb p (length l.key) (omega (arith, h, sizes)),
        lt→ltb p (length l.datum) (omega (arith, h, sizes)),
      ),
      record {
        count = omega (arith, h, sizes);
        fits = omega (arith, h);
        some_room = h.some_room;
        small = h.small;
        key_size = length-set l.key p _ ∙ h.key_size;
        datum_size = length-set l.datum p _ ∙ h.datum_size;
        keys = Starts-remove (λ e. e.0) l.key key x xs p found h.keys;
        data' = Starts-remove (λ e. e.1) l.datum key x xs p found h.data';
      },
    )
      where
        sizes : (p < suc (length xs)) × (length (remove key (x ∷ xs)) + 1 ≡ suc (length xs))
        sizes = position-length key (x ∷ xs) p found

        not_empty : list_is_empty l ≡ false
        not_empty = unfold list_is_empty in ground (arith, h.count)

        l' : PList A
        l' = record l {
          len = l.len - 1;
          key = set l.key p (some (last x xs).0);
          datum = set l.datum p (some (last x xs).1);
        }

  -- `list_remove` takes the first entry with the key out; the last entry takes its place.
  pub list_remove-Holds :
      (l : PList A) (key : ℤ) (xs : List (ℤ × A))
      → Holds l xs
      → (l' : PList A) × (list_remove l key ≡ ok l') × Holds l' (remove key xs)
  list_remove-Holds l key [] h = remove_index-absent l key [] (unfold position in refl) h
  list_remove-Holds l key (x ∷ xs) h = elim (Option-cases (position key (x ∷ xs))) [
    | inl absent ↦ remove_index-absent l key (x ∷ xs) absent h
    | inr (p, found) ↦ remove_index-found l x xs h key p found
  ]
