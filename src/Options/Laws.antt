-- ===== src/Options/Laws.antt =====
-- What the server may rely on about its options.
use why.Base.{
  ◌^◌, ◌<◌, ◌≡◌, refl, subst, sym, ap, ◌∙◌, inl, inr, Bool, true, false, List, [], ◌∷◌, Option,
  none, some, arith, Bool-cases, ℤ, pos, negsuc, Outcome, ok, first_ok,
}
use why.Text.{Str, strtol}
use why.Options.{
  Opt, Options, single_client, logging, bad, parallel, socket, default_options, to_int, is_positive,
  take_option, take_options, check_options, parse_options,
}

-- A number of processes that a list can be created for.
abbrev pub IsJobs : ℤ → Type 0
IsJobs (pos n) = (0 < n) × (n < 2 ^ 31)
IsJobs (negsuc n) = ⊥

to_int-IsJobs : (z : ℤ) → is_positive (to_int z) ≡ true → IsJobs (to_int z)
unfolding to_int
to_int-IsJobs (pos n) h = ground arith
to_int-IsJobs (negsuc n) h = ground arith

same_jobs :
    (o r : Options) {o' : Options}
    → r.jobs ≡ o.jobs
    → ◌≡◌ {A = Outcome Options} (ok r) (ok o')
    → IsJobs o.jobs
    → IsJobs o'.jobs
same_jobs o r {o'} j e h = subst IsJobs (let p : o.jobs ≡ o'.jobs = cc in p) h

take_option-IsJobs :
    (o : Options) (x : Opt) {o' : Options}
    → take_option o x ≡ ok o'
    → IsJobs o.jobs
    → IsJobs o'.jobs
unfolding take_option
take_option-IsJobs o single_client e h = same_jobs o _ refl e h
take_option-IsJobs o logging e h = same_jobs o _ refl e h
take_option-IsJobs o bad e h = cc
take_option-IsJobs o (parallel arg) e h = elim (Bool-cases (is_positive (to_int (strtol arg)))) [
  | inl good ↦
      same_jobs (record o { jobs = to_int (strtol arg) }) (record o { jobs = to_int (strtol arg) })
        refl (rw good at e) (to_int-IsJobs (strtol arg) good)
  | inr wrong ↦ absurd (let e' = rw wrong at e in cc)
]
take_option-IsJobs o (socket name) e h = same_jobs o _ refl e h

take_options-IsJobs :
    (o : Options) (xs : List Opt) {o' : Options}
    → take_options o xs ≡ ok o'
    → IsJobs o.jobs
    → IsJobs o'.jobs
unfolding take_options
take_options-IsJobs o [] e h = same_jobs o o refl e h
take_options-IsJobs o (x ∷ xs) e h =
    let (o₁, e₁, e₂) = first_ok (take_option o x) _ e in
    take_options-IsJobs o₁ xs e₂ (take_option-IsJobs o x e₁ h)

checked :
    (b : Bool) (o : Options) (name : Option Str) {o' : Options}
    → check_options b o name ≡ ok o'
    → (b ≡ false) × (o ≡ o') × ((n : Str) × (name ≡ some n))
unfolding check_options
checked true o name e = absurd (cc)
checked false o none e = absurd (cc)
checked false o (some n) e = (refl, cc, (n, refl))

-- When `parse_options` returns, at least one process and at most 2 ^ 31 - 1 are allowed, whatever
-- `-j` was given and however often, there is a socket name, and there was no further argument.
pub parse_options-IsJobs :
    (opts : List Opt) (extra_arguments : Bool) (o : Options)
    → parse_options opts extra_arguments ≡ ok o
    → IsJobs o.jobs × (extra_arguments ≡ false) × ((name : Str) × (o.socketname ≡ some name))
unfolding parse_options
parse_options-IsJobs opts extra o e =
    let (o₁, e₁, e₂) = first_ok (take_options default_options opts) _ e in
    let (none_left, same, (name, named)) = checked extra o₁ o₁.socketname e₂ in
    (
      take_options-IsJobs default_options opts (e₁ ∙ ap ok same) (omega arith),
      none_left,
      (name, sym (ap (λ r. r.socketname) same) ∙ named),
    )
