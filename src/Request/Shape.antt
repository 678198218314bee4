-- ===== src/Request/Shape.antt =====
-- What `parse_request` may return: a request of its client with an id no longer than the line.
use why.Base.{
  ℕ, zero, suc, ◌-◌, ◌^◌, ◌≤◌, ◌<◌, ◌≡◌, refl, subst, inl, inr, Bool, true, false, Option, none,
  some, arith, length, length-take, length-drop, take, drop, ltb, ltb→lt, leb, ◌==◌, Bool-cases, ℤ,
  pos, negsuc, ok, first_ok,
}
use why.Text.{Str, codes, strncmp_eq, in_range, number, atoi}
use why.Text.Laws.{length-c_string}
use why.Request.{Request}
use why.Request.Parse.{
  Parsed, copy_up_to_semicolon, stop_index, set_parallel, parse_command, parse_run, parse_long,
  dispatch, parse_request, count_semicolons,
}

-- A number of processes that may run at the same time.
abbrev pub InBounds : ℕ → Type 0
InBounds n = (0 < n) × (n ≤ 2 ^ 31)

abbrev pub IsOf : Str → ℤ → Option Request → Type 0
IsOf line key none = Unit
IsOf line key (some r) = (r.key ≡ key) × (length r.id ≤ length line)

in_range-set_parallel :
    (x : Bool × ℕ) (n : ℤ) (p : ℕ)
    → in_range (2 ^ 31) x ≡ ok n
    → InBounds p
    → InBounds (set_parallel p n)
unfolding in_range
in_range-set_parallel (false, zero) n p h b = let e : n ≡ pos zero = cc in rw e b
in_range-set_parallel (false, suc m) n p h b = elim (Bool-cases (ltb (suc m) (2 ^ 31))) [
  | inl low ↦
      let h' = rw low at h in
      let e : n ≡ pos (suc m) = cc in rw e (omega arith, omega (arith, ltb→lt (suc m) (2 ^ 31) low))
  | inr high ↦ absurd (let h' = rw high at h in cc)
]
in_range-set_parallel (true, zero) n p h b = let e : n ≡ pos zero = cc in rw e b
in_range-set_parallel (true, suc m) n p h b = elim (Bool-cases (ltb m (2 ^ 31))) [
  | inl low ↦ let h' = rw low at h in let e : n ≡ negsuc m = cc in rw e b
  | inr high ↦ absurd (let h' = rw high at h in cc)
]

length-copied : (s : Str) (i : ℕ) → length (copy_up_to_semicolon s i).0 ≤ length s
unfolding copy_up_to_semicolon
length-copied s i = omega (
  arith,
  length-c_string (take (stop_index (drop i s) i - i) (drop i s)),
  length-take (stop_index (drop i s) i - i) (drop i s),
  length-drop i s,
)

module _ (line : Str) (key : ℤ) (par par' : ℕ) (r : Option Request) where
  abbrev AsExpected : Type 0
  AsExpected = InBounds par → InBounds par' × IsOf line key r

  unchanged :
      {o : Option Request}
      → (let left : Parsed = ok (par, o) in left ≡ ok (par', r))
      → IsOf line key o
      → AsExpected
  unchanged {o} e f b =
      let same : par ≡ par' = cc in
      let own : o ≡ r = cc in (subst InBounds same b, subst (IsOf line key) own f)

  parse_command-shape : parse_command line key par ≡ ok (par', r) → AsExpected
  unfolding parse_command
  parse_command-shape h =
      let p = (copy_up_to_semicolon line 0).1 in
      let tmp = (copy_up_to_semicolon line 0).0 in
      let arg = (copy_up_to_semicolon line p).0 in
      elim (Bool-cases (strncmp_eq tmp (codes "parallel") p)) [
        | inl e ↦ λ b.
            let (n, ran, rest) = first_ok (atoi arg) _ (rw e at h) in
            let same : set_parallel par n ≡ par' = cc in
            let own : none ≡ r = cc in
            (
              subst InBounds same (in_range-set_parallel (number arg) n par (unfold atoi in ran) b),
              subst (IsOf line key) own tt,
            )
        | inr e ↦ elim (Bool-cases (strncmp_eq tmp (codes "interrupt") p)) [
          | inl f ↦ unchanged (rw (e, f) at h) (refl, length-copied line p)
          | inr f ↦ unchanged (rw (e, f) at h) tt
        ]
      ]

  parse_run-shape :
      (numargs : ℕ) (runstdin : Bool) (p : ℕ)
      → parse_run line key par numargs runstdin p ≡ ok (par', r)
      → AsExpected
  unfolding parse_run
  parse_run-shape numargs runstdin p h =
      let a = copy_up_to_semicolon line p in
      let b = copy_up_to_semicolon line a.1 in
      let c = copy_up_to_semicolon line b.1 in
      let (timeout, e, h₁) = first_ok (atoi b.0) _ h in
      let (memlimit, e₁, h₂) = first_ok (atoi c.0) _ h₁ in unchanged h₂ (refl, length-copied line p)

  parse_long-shape : (numargs : ℕ) → parse_long line key par numargs ≡ ok (par', r) → AsExpected
  unfolding parse_long
  parse_long-shape numargs h =
      let p = (copy_up_to_semicolon line 0).1 in
      let tmp = (copy_up_to_semicolon line 0).0 in
      elim (Bool-cases (strncmp_eq tmp (codes "run") p)) [
        | inl e ↦ parse_run-shape numargs false p (rw e at h)
        | inr e ↦ elim (Bool-cases (strncmp_eq tmp (codes "runstdin") p)) [
          | inl f ↦ parse_run-shape numargs true p (rw (e, f) at h)
          | inr f ↦ unchanged (rw (e, f) at h) tt
        ]
      ]

  dispatch-shape : (semic : ℕ) → dispatch line key par semic ≡ ok (par', r) → AsExpected
  unfolding dispatch
  dispatch-shape semic h = elim (Bool-cases (semic == 0)) [
    | inl e ↦ unchanged (rw e at h) tt
    | inr e ↦ elim (Bool-cases (semic == 1)) [
      | inl f ↦ parse_command-shape (rw (e, f) at h)
      | inr f ↦ elim (Bool-cases (leb 4 semic)) [
        | inl g ↦ parse_long-shape (semic - 4) (rw (e, f, g) at h)
        | inr g ↦ unchanged (rw (e, f, g) at h) tt
      ]
    ]
  ]

  -- A request that is returned has the client's key, and an id no longer than the line; the number
  -- of processes that are allowed stays in bounds.
  pub parse_request-shape : parse_request line key par ≡ ok (par', r) → AsExpected
  unfolding parse_request
  parse_request-shape h = dispatch-shape (count_semicolons line) h
