-- ===== src/ArrayList.antt =====
-- src/server/arraylist.h and arraylist.c: a growing array of elements with an `int` key each.
-- An element is what a `void*` points to, so `NULL` is `none`.
pub mod Entries
pub mod Arrays
pub mod Refine
pub mod Append
pub mod Laws
use why.Base.{
  ℕ, zero, suc, ◌+◌, ◌-◌, ◌*◌, ◌^◌, Bool, not, Option, none, some, ltb, ◌==◌, if◌then◌else◌, ℤ, pos,
  negsuc, minus_one, ◌==ℤ◌, Outcome, ok, stop, undefined, ◌>>=◌, ◌>>◌, assert, require,
}
use why.Base.Memory.{Block, malloc, load, store, realloc}

-- `t_list`; the field `datum` is the C field `data`.
pub record PList (A : Type 0) : Type 0 where
  pub key : Block ℤ
  pub datum : Block A
  pub len : ℕ
  pub capacity : ℕ

-- `INT_MAX + 1`: an `int` that reaches it has overflowed.
abbrev pub int_end : ℕ
int_end = 2 ^ 31

-- The loop of `list_lookup_index`, with the number of rounds left. `INVALID_INDEX` is -1.
pub find_key : Block ℤ → ℤ → ℕ → ℕ → Outcome ℤ
find_key keys key zero i = ok minus_one
find_key keys key (suc rounds) i =
    let next = find_key keys key rounds (i + 1) in
    do k ← load keys i; if k ==ℤ key then ok (pos i) else next

module _ {A : Type 0} where
  unfoldable pub init_list : ℕ → PList A
  init_list capacity = record {
    key = malloc capacity;
    datum = malloc capacity;
    len = 0;
    capacity = capacity;
  }

  unfoldable pub list_is_empty : PList A → Bool
  list_is_empty l = l.len == 0

  unfoldable pub list_length : PList A → ℕ
  list_length l = l.len

  unfoldable pub list_lookup_index : PList A → ℤ → Outcome ℤ
  unfolding find_key
  list_lookup_index l key = find_key l.key key l.len 0

  -- `i == INVALID_INDEX` or the element at `i`.
  datum_at : PList A → ℤ → Outcome (Option A)
  datum_at l (pos i) = do d ← load l.datum i; ok (some d)
  datum_at l (negsuc zero) = ok none
  datum_at l (negsuc (suc n)) = stop undefined

  unfoldable pub list_lookup : PList A → ℤ → Outcome (Option A)
  unfolding datum_at
  list_lookup l key = do i ← list_lookup_index l key; datum_at l i

  -- The last element takes the place of the removed one.
  remove_index : PList A → ℤ → Outcome (PList A)
  unfolding list_is_empty
  remove_index l (pos i) = do
    assert (not (list_is_empty l))
    let len = l.len - 1
    k ← load l.key len
    keys ← store l.key i k
    d ← load l.datum len
    data' ← store l.datum i d
    ok (record l { len = len; key = keys; datum = data' })
  remove_index l (negsuc zero) = ok l
  remove_index l (negsuc (suc n)) = stop undefined

  unfoldable pub list_remove : PList A → ℤ → Outcome (PList A)
  unfolding remove_index
  list_remove l key = do i ← list_lookup_index l key; remove_index l i

  list_resize : PList A → Outcome (PList A)
  list_resize l = do
    let newcap = l.capacity * 2
    require (ltb newcap int_end)
    ok (record l { capacity = newcap; key = realloc l.key newcap; datum = realloc l.datum newcap })

  append_entry : PList A → ℤ → A → Outcome (PList A)
  append_entry l key elt = do
    keys ← store l.key l.len key
    data' ← store l.datum l.len elt
    require (ltb (l.len + 1) int_end)
    ok (record l { key = keys; datum = data'; len = l.len + 1 })

  unfoldable pub list_append : PList A → ℤ → A → Outcome (PList A)
  unfolding list_resize append_entry
  list_append l key elt = do
    l' ← if l.len == l.capacity then list_resize l else ok l
    append_entry l' key elt

  -- The memory is given back; only the assertion is left to see.
  unfoldable pub free_list : PList A → Outcome (Unit {0})
  free_list l = assert (list_is_empty l)
