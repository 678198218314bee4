-- ===== src/Tests/Containers.antt =====
-- The queue and the array list at concrete inputs.
use why.Base.{ℕ, ◌≡◌, refl, List, [], ◌∷◌, none, some, arith, ℤ, pos, ok, ◌>>=◌}
use why.Base.Memory.{memcpy, can_copy, realloc, store, load}
use why.Queue.{Queue, queue_push, queue_pop}
use why.Queue.Refine.{Holds}
use why.Queue.Fifo.{Op, push, pop, run, run_list, run_refines}
use why.ArrayList.{PList, list_lookup, list_remove}
use why.ArrayList.Refine.{Holds as ListHolds}
use why.ArrayList.Entries.{lookup}
use why.ArrayList.Laws.{list_remove-lookup}

-- A full ring of two cells that starts in the middle.
abbrev wrapped : Queue ℕ
wrapped = record { cells = some 8 ∷ some 7 ∷ []; pointer = 1; len = 2; capacity = 2 }

wrapped-Holds : Holds wrapped (7 ∷ 8 ∷ [])
wrapped-Holds = record { valid = omega arith; view = refl }

abbrev calls : List (Op ℕ)
calls = push 9 ∷ pop ∷ pop ∷ push 10 ∷ pop ∷ pop ∷ []

run-wrapped : run wrapped calls ≡ ok (7 ∷ 8 ∷ 9 ∷ 10 ∷ [])
unfolding run queue_push queue_pop memcpy can_copy realloc store load
run-wrapped = refl

run_refines_example : run wrapped calls ≡ run_list (7 ∷ 8 ∷ []) calls
run_refines_example = run_refines wrapped (7 ∷ 8 ∷ []) calls wrapped-Holds (omega arith)

-- Three entries in four cells.
abbrev three : PList ℕ
three = record {
  key = some (pos 4) ∷ some (pos 5) ∷ some (pos 6) ∷ none ∷ [];
  datum = some 40 ∷ some 50 ∷ some 60 ∷ none ∷ [];
  len = 3;
  capacity = 4;
}

abbrev entries : List (ℤ × ℕ)
entries = (pos 4, 40) ∷ (pos 5, 50) ∷ (pos 6, 60) ∷ []

three-Holds : ListHolds three entries
three-Holds = record {
  count = refl;
  fits = omega arith;
  some_room = omega arith;
  small = omega arith;
  key_size = refl;
  datum_size = refl;
  keys = (refl, (refl, (refl, tt)));
  data' = (refl, (refl, (refl, tt)));
}

-- The entry with key 6 takes the place of the one with key 4, and is still found.
list_remove-lookup_example :
    (do l' ← list_remove three (pos 4); list_lookup l' (pos 6)) ≡ list_lookup three (pos 6)
list_remove-lookup_example =
    list_remove-lookup three (pos 4) (pos 6) entries three-Holds
      (unfold lookup in (refl, (refl, (refl, tt))))
