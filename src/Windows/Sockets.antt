-- ===== src/Windows/Sockets.antt =====
-- The pipes that wait for clients: `get_server_num` finds one by its key.
use native.Mathlib.Numerals.{add-one}
use why.Base.{
  ℕ, zero, suc, ◌+◌, ◌≤◌, ◌<◌, ◌≡◌, refl, inl, inr, List, [], ◌∷◌, length, drop, take, Option, none,
  some, ◌==◌, Bool-cases, if◌then◌else◌, ok, stop, undefined, arith,
}
use why.Base.Memory.{Block, load}
use why.Base.Starts.{Starts, Starts-load, Starts-drop}
use why.Windows.{WindowsServer}
use why.Windows.Keys.{server_num_from, get_server_num}

-- The index of the first one of the keys.
abbrev pub index_of : ℕ → List ℕ → ℕ → Option ℕ
index_of key [] i = none
index_of key (k ∷ ks) i = let next = index_of key ks (i + 1) in if k == key then some i else next

-- What the loop finds in keys that are all set.
server_num_from-index :
    (keys : Block ℕ) (key i n : ℕ) (ks : List ℕ)
    → Starts (drop i keys) ks
    → n ≤ length ks
    → server_num_from keys key n i ≡ ok (index_of key (take n ks) i)
unfolding server_num_from
server_num_from-index keys key i zero ks s h = refl
server_num_from-index keys key i (suc n) [] s h = absurd (omega arith)
server_num_from-index keys key i (suc n) (k ∷ ks) s h = elim (Bool-cases (k == key)) [
  | inl e ↦ rw (Starts-load keys i k ks s, e)
  | inr e ↦
      rw (Starts-load keys i k ks s, e)
        (server_num_from-index keys key (i + 1) n ks (rw add-one (Starts-drop keys i k ks s))
          (omega arith))
]

load-past : {A : Type 0} (b : Block A) (i : ℕ) → length b ≤ i → load b i ≡ stop undefined
unfolding load
load-past [] i h = refl
load-past (x ∷ b) zero h = absurd (omega arith)
load-past (x ∷ b) (suc i) h = load-past b i (omega arith)

-- Behind the last key the loop reads past the end of the array.
server_num_from-past :
    (keys : Block ℕ) (key i n : ℕ) (ks : List ℕ)
    → Starts (drop i keys) ks
    → length keys ≡ i + length ks
    → length ks < n
    → index_of key ks i ≡ none
    → server_num_from keys key n i ≡ stop undefined
unfolding server_num_from
server_num_from-past keys key i zero ks s size h absent = absurd (omega arith)
server_num_from-past keys key i (suc n) [] s size h absent = rw (load-past keys i (omega arith))
server_num_from-past keys key i (suc n) (k ∷ ks) s size h absent = elim (Bool-cases (k == key)) [
  | inl e ↦ let no : some i ≡ none = rw e at absent in absurd (cc)
  | inr e ↦
      rw (Starts-load keys i k ks s, e)
        (server_num_from-past keys key (i + 1) n ks (rw add-one (Starts-drop keys i k ks s))
          (omega arith) (omega arith) (rw e at absent))
]

-- `get_server_num` finds the first of the waiting pipes that has the key, among the first `parallel`
-- of them, if there are that many.
pub get_server_num-index :
    (s : WindowsServer) (key : ℕ) (ks : List ℕ)
    → Starts s.server_key ks
    → s.parallel ≤ length ks
    → get_server_num s key ≡ ok (index_of key (take s.parallel ks) 0)
unfolding get_server_num
get_server_num-index s key ks h few = server_num_from-index s.server_key key 0 s.parallel ks h few

-- When `parallel` is above the number of pipes that were made, as after a client has raised it, a key
-- that is no pipe's, such as that of any client or process, makes `get_server_num` read past the end of
-- `server_key`.
pub get_server_num-past :
    (s : WindowsServer) (key : ℕ) (ks : List ℕ)
    → Starts s.server_key ks
    → length s.server_key ≡ length ks
    → length ks < s.parallel
    → index_of key ks 0 ≡ none
    → get_server_num s key ≡ stop undefined
unfolding get_server_num
get_server_num-past s key ks h size raised absent =
    server_num_from-past s.server_key key 0 s.parallel ks h (omega arith) raised absent
