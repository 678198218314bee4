-- ===== src/Server/Invariant/Rounds.antt =====
-- How the code in front of a round may end.
use why.Base.{
  subst, refl, ℕ, suc, inl, inr, List, [], ◌∷◌, Bool-cases, Option-cases, ℤ, minus_one, ◌==ℤ◌,
}
use why.ArrayList.Entries.{lookup}
use why.Request.{Request}
use why.Proc.{Proc}
use why.Server.{Server, System, Client}
use why.Server.Jobs.{run_request}
use why.Server.View.{IsGood, IsRunnable}
use why.Server.Started.{run_request-gone, run_request-starts}
use why.Server.Invariant.{IsPosix, Invariant}
use why.Server.Invariant.Jobs.{no_process}
use why.Server.Started.{effect_of}
use why.Server.Invariant.Ending.{Ends, IsFedBody, Goes-nowhere, effect_of-IsDefined}

module _ (os : System) (posix : IsPosix os) where
  pub run_request-Ends :
      (s : Server) (r : Request) (cs : List (ℤ × Client)) (ps : List (ℤ × Proc)) (rs : List Request)
      (starts room : ℕ)
      → IsRunnable r
      → IsFedBody r.body
      → IsGood s cs ps rs (suc starts) (suc room)
      → Ends s (run_request os s r)
  run_request-Ends s r cs ps rs starts room runnable fed g = elim (Option-cases (lookup r.key cs)) [
    | inl gone ↦ inl (s, run_request-gone os s r cs ps rs _ _ gone g, Goes-nowhere s s refl)
    | inr (c, found) ↦ elim (Bool-cases (os.fork s.forks ==ℤ minus_one)) [
      | inl fails ↦ inr (no_process os posix s r c cs ps rs _ _ runnable g found fails)
      | inr forks ↦
          let (t, e, _, _, _, seen, _) =
            run_request-starts os s r cs ps rs starts room c runnable found forks g in
          let input = subst IsFedBody runnable.is_run fed in
          inl (
            t,
            e,
            (effect_of os s runnable.run ∷ [], seen, effect_of-IsDefined os s runnable.run input),
          )
    ]
  ]
