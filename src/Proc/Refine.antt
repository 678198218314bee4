-- ===== src/Proc/Refine.antt =====
-- Which processes are killed.
use native.Mathlib.Numerals.{add-one}
use why.Base.{
  ℕ, suc, ◌+◌, ◌≡◌, refl, ap, ◌∙◌, Bool, List, [], ◌∷◌, map, Option, filter, arith, length, drop,
  Bool-cases, inl, inr, true, ℤ, ok,
}
use why.Base.Memory.{Block}
use why.Base.Starts.{Starts, Starts-load, Starts-drop}
use why.Text.{Str}
use why.ArrayList.{PList}
use why.ArrayList.Refine.{Holds}
use why.Proc.{Proc, is_target, kill_from, kill_processes, kill_all_processes}

kill_from-filter :
    (target : Proc → Bool) (ps : Block Proc) (i : ℕ) (xs : List Proc)
    → Starts (drop i ps) xs
    → kill_from target ps (length xs) i ≡ ok (map (λ p. p.id) (filter target xs))
unfolding kill_from
kill_from-filter target ps i [] s = refl
kill_from-filter target ps i (x ∷ xs) s =
    rw
      (
        Starts-load ps i x xs s,
        kill_from-filter target ps (i + 1) xs (rw add-one (Starts-drop ps i x xs s)),
      )
      (elim (Bool-cases (target x)) [ inl e ↦ rw e | inr e ↦ rw e ])

length-map-datum : (ys : List (ℤ × Proc)) → length ys ≡ length (map (λ e. e.1) ys)
length-map-datum [] = refl
length-map-datum (y ∷ ys) = ap suc (length-map-datum ys)

-- `kill_processes` kills exactly the processes of the client, and of the task if one is given.
pub kill_processes-filter :
    (l : PList Proc) (key : ℤ) (id : Option Str) (xs : List (ℤ × Proc))
    → Holds l xs
    → kill_processes l key id ≡ ok (map (λ p. p.id) (filter (is_target key id) (map (λ e. e.1) xs)))
unfolding kill_processes
kill_processes-filter l key id xs h =
    ap (λ n. kill_from (is_target key id) l.datum n 0) (omega (arith, h.count, length-map-datum xs))
    ∙ kill_from-filter (is_target key id) l.datum 0 (map (λ e. e.1) xs) h.data'

filter-all : (xs : List Proc) → filter (λ p. true) xs ≡ xs
filter-all [] = refl
filter-all (x ∷ xs) = ap (λ l. x ∷ l) (filter-all xs)

-- `kill_all_processes` kills each process of the list, in order.
pub kill_all_processes-map :
    (l : PList Proc) (xs : List (ℤ × Proc))
    → Holds l xs
    → kill_all_processes l ≡ ok (map (λ p. p.id) (map (λ e. e.1) xs))
unfolding kill_all_processes
kill_all_processes-map l xs h =
    ap (λ n. kill_from (λ p. true) l.datum n 0) (omega (arith, h.count, length-map-datum xs))
    ∙ kill_from-filter (λ p. true) l.datum 0 (map (λ e. e.1) xs) h.data'
    ∙ ap (λ l. ok (map (λ p. p.id) l)) (filter-all (map (λ e. e.1) xs))
