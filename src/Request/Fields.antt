-- ===== src/Request/Fields.antt =====
-- A request line as a list of fields: an independent description of what a line means.
use why.Base.{
  ℕ, ◌≡◌, refl, ap, ap₂, sym, ==_iff, ◌∙◌, true, false, Bool, List, [], ◌∷◌, ◌++◌, none, some, ◌==◌,
  Bool-cases, inl, inr, if◌then◌else◌, ℤ, ok, ◌>>=◌,
}
use why.Text.{Str, codes, str_eq, atoi}
use why.Request.{Run, req_run, req_interrupt}
use why.Request.Parse.{semicolon, Parsed, set_parallel, to_unsigned}

-- The fields with a semicolon between each and the next.
abbrev pub join : List Str → Str
join [] = []
join (f ∷ []) = f
join (f ∷ g ∷ gs) = f ++ (semicolon ∷ join (g ∷ gs))

abbrev pub NoSemicolon : Str → Type 0
NoSemicolon [] = Unit
NoSemicolon (c ∷ cs) = ((c == semicolon) ≡ false) × NoSemicolon cs

abbrev pub AreFields : List Str → Type 0
AreFields [] = Unit
AreFields (f ∷ fs) = NoSemicolon f × AreFields fs

-- The meaning of a line with the fields: `parallel;n`, `interrupt;id`, or
-- `run;id;timeout;memlimit;cmd;args...` with `run` or `runstdin`. Any other line means nothing.
abbrev pub command : Str → Str → ℤ → ℕ → Parsed
command word arg key parallel =
    if str_eq word (codes "parallel")
    then (do n ← atoi arg; ok (set_parallel parallel n, none))
    else if str_eq word (codes "interrupt")
    then ok (parallel, some (record { key = key; id = arg; body = req_interrupt }))
    else ok (parallel, none)

abbrev pub run_with : Bool → Str → Str → Str → Str → List Str → ℤ → ℕ → Parsed
run_with usestdin id t m cmd args key parallel = do
  timeout ← atoi t
  memlimit ← atoi m
  let run : Run = record {
    timeout = timeout;
    memlimit = to_unsigned memlimit;
    usestdin = usestdin;
    cmd = cmd;
    args = args;
  }
  ok (parallel, some (record { key = key; id = id; body = req_run run }))

abbrev pub run : Str → Str → Str → Str → Str → List Str → ℤ → ℕ → Parsed
run word id t m cmd args key parallel =
    if str_eq word (codes "run")
    then run_with false id t m cmd args key parallel
    else if str_eq word (codes "runstdin")
    then run_with true id t m cmd args key parallel
    else ok (parallel, none)

unfoldable pub meaning : List Str → ℤ → ℕ → Parsed
meaning (word ∷ arg ∷ []) key parallel = command word arg key parallel
meaning (word ∷ id ∷ t ∷ m ∷ cmd ∷ args) key parallel = run word id t m cmd args key parallel
meaning fs key parallel = ok (parallel, none)

-- Every line is a list of fields.
unfoldable pub fields : Str → List Str
fields [] = [] ∷ []
fields (c ∷ cs) = elim (fields cs) [
  | [] ↦ []
  | f ∷ fs ↦ if c == semicolon then [] ∷ f ∷ fs else (c ∷ f) ∷ fs
]

pub fields_lem :
    (s : Str)
    → (f : Str) × (fs : List Str) × (fields s ≡ f ∷ fs) × (join (f ∷ fs) ≡ s) × AreFields (f ∷ fs)
unfolding fields
fields_lem [] = ([], [], refl, refl, (tt, tt))
fields_lem (c ∷ cs) =
    let (f, fs, e, j, a) = fields_lem cs in
    elim (Bool-cases (c == semicolon)) [
      | inl here ↦ (
        [],
        f ∷ fs,
        rw (e, here),
        ap₂ (λ d w. d ∷ w) (sym ((==_iff c semicolon).0 here)) j,
        (tt, a),
      )
      | inr later ↦
          (c ∷ f, fs, rw (e, later), joined c f fs ∙ ap (λ w. c ∷ w) j, ((later, a.0), a.1))
    ]
  where
    joined : (d : ℕ) (g : Str) (gs : List Str) → join ((d ∷ g) ∷ gs) ≡ d ∷ join (g ∷ gs)
    joined d g [] = refl
    joined d g (h ∷ gs) = refl
