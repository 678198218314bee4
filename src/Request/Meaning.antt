-- ===== src/Request/Meaning.antt =====
-- `parse_request` gives a line the meaning of its fields.
use why.Base.{
  ℕ, ◌+◌, ◌-◌, ◌≡◌, refl, ap, ◌∙◌, true, false, Bool, List, [], ◌∷◌, map, arith, length, drop, ℤ,
}
use why.Text.{Str, codes, c_string, str_eq, strncmp_eq}
use why.Text.Laws.{strncmp_eq-str_eq, length-c_string}
use why.Request.Parse.{parse_command, copy_args, parse_run, parse_long, dispatch, parse_request}
use why.Request.Fields.{join, AreFields, meaning, command, run, run_with}
use why.Request.Refine.{count_semicolons-join, copy-field, copy-last, copy_args-map}

-- A first field is compared whole.
word_is : (f w : Str) → strncmp_eq (c_string f) w (0 + length f + 1) ≡ str_eq (c_string f) w
word_is f w = strncmp_eq-str_eq (c_string f) w (0 + length f + 1) (omega (arith, length-c_string f))

parse_command-join :
    (f g : Str) (key : ℤ) (parallel : ℕ)
    → AreFields (f ∷ g ∷ [])
    → parse_command (join (f ∷ g ∷ [])) key parallel
      ≡ command (c_string f) (c_string g) key parallel
unfolding parse_command
parse_command-join f g key parallel a =
    let (here, rest) = copy-field (join (f ∷ g ∷ [])) 0 f g [] a.0 refl in
    rw (
      here,
      copy-last (join (f ∷ g ∷ [])) (0 + length f + 1) g a.1.0 rest,
      word_is f (codes "parallel"),
      word_is f (codes "interrupt"),
    )

-- The fields behind the first word.
parse_run-join :
    (s : Str) (p : ℕ) (id t m cmd : Str) (args : List Str) (key : ℤ) (parallel : ℕ) (b : Bool)
    → AreFields (id ∷ t ∷ m ∷ cmd ∷ args)
    → drop p s ≡ join (id ∷ t ∷ m ∷ cmd ∷ args)
    → parse_run s key parallel (length args) b p
      ≡ run_with b
          (c_string id)
          (c_string t)
          (c_string m)
          (c_string cmd)
          (map c_string args)
          key
          parallel
unfolding parse_run
parse_run-join s p id t m cmd [] key parallel b a e =
    let (e₁, r₁) = copy-field s p id t (m ∷ cmd ∷ []) a.0 e in
    let (e₂, r₂) = copy-field s _ t m (cmd ∷ []) a.1.0 r₁ in
    let (e₃, r₃) = copy-field s _ m cmd [] a.1.1.0 r₂ in
    rw (e₁, e₂, e₃, copy-last s _ cmd a.1.1.1.0 r₃) (unfold copy_args in refl)
parse_run-join s p id t m cmd (x ∷ xs) key parallel b a e =
    let (e₁, r₁) = copy-field s p id t (m ∷ cmd ∷ x ∷ xs) a.0 e in
    let (e₂, r₂) = copy-field s _ t m (cmd ∷ x ∷ xs) a.1.0 r₁ in
    let (e₃, r₃) = copy-field s _ m cmd (x ∷ xs) a.1.1.0 r₂ in
    let (e₄, r₄) = copy-field s _ cmd x xs a.1.1.1.0 r₃ in
    rw (e₁, e₂, e₃, e₄, copy_args-map s _ x xs a.1.1.1.1 r₄)

parse_long-join :
    (f id t m cmd : Str) (args : List Str) (key : ℤ) (parallel : ℕ)
    → AreFields (f ∷ id ∷ t ∷ m ∷ cmd ∷ args)
    → parse_long (join (f ∷ id ∷ t ∷ m ∷ cmd ∷ args)) key parallel (length args)
      ≡ run
          (c_string f)
          (c_string id)
          (c_string t)
          (c_string m)
          (c_string cmd)
          (map c_string args)
          key
          parallel
unfolding parse_long
parse_long-join f id t m cmd args key parallel a =
    let s = join (f ∷ id ∷ t ∷ m ∷ cmd ∷ args) in
    let (here, rest) = copy-field s 0 f id (t ∷ m ∷ cmd ∷ args) a.0 refl in
    rw (
      here,
      word_is f (codes "run"),
      word_is f (codes "runstdin"),
      parse_run-join s _ id t m cmd args key parallel false a.1 rest,
      parse_run-join s _ id t m cmd args key parallel true a.1 rest,
    )

dispatch_many :
    (s : Str) (key : ℤ) (parallel n m : ℕ)
    → n ≡ m + 4
    → dispatch s key parallel n ≡ parse_long s key parallel m
unfolding dispatch
dispatch_many s key parallel n m e = ground (arith, sub)
  where
    sub : n - 4 ≡ m
    sub = omega arith

-- A line whose fields, between semicolons, are `f` and `fs` is read as what the fields mean, each
-- cut at its first zero byte. The number of fields decides between the two kinds of line, and the
-- first field is compared whole.
pub parse_request-meaning :
    (f : Str) (fs : List Str) (key : ℤ) (parallel : ℕ)
    → AreFields (f ∷ fs)
    → parse_request (join (f ∷ fs)) key parallel ≡ meaning (map c_string (f ∷ fs)) key parallel
unfolding parse_request meaning
parse_request-meaning f [] key parallel a =
    rw (count_semicolons-join f [] a) (unfold dispatch in refl)
parse_request-meaning f (g ∷ []) key parallel a =
    rw (count_semicolons-join f (g ∷ []) a)
      (unfold dispatch in parse_command-join f g key parallel a)
parse_request-meaning f (g ∷ h ∷ []) key parallel a =
    rw (count_semicolons-join f (g ∷ h ∷ []) a) (unfold dispatch in refl)
parse_request-meaning f (g ∷ h ∷ i ∷ []) key parallel a =
    rw (count_semicolons-join f (g ∷ h ∷ i ∷ []) a) (unfold dispatch in refl)
parse_request-meaning f (g ∷ h ∷ i ∷ j ∷ args) key parallel a =
    ap (dispatch (join (f ∷ g ∷ h ∷ i ∷ j ∷ args)) key parallel)
      (count_semicolons-join f (g ∷ h ∷ i ∷ j ∷ args) a)
    ∙ dispatch_many _ key parallel _ (length args) (omega arith)
    ∙ parse_long-join f g h i j args key parallel a
