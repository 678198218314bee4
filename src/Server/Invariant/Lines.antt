-- ===== src/Server/Invariant/Lines.antt =====
-- The requests of a client keep the invariant.
use why.Base.{
  ℕ, suc, ◌+◌, ◌^◌, ◌<◌, ◌≡◌, refl, ◌∙◌, sym, inl, inr, List, [], ◌∷◌, Option, none, some, arith,
  length, Bool-cases, ltb, ℤ, ok, first_ok,
}
use why.Text.{Str}
use why.ArrayList.{list_length}
use why.ArrayList.Entries.{lookup}
use why.Request.{Request, Body, req_run, req_interrupt}
use why.Request.Parse.{parse_request}
use why.Request.Shape.{InBounds, IsOf, parse_request-shape}
use why.Proc.{Proc}
use why.Server.{Server, System, Client}
use why.Server.Lines.{handle_line}
use why.Server.Framing.{each_line}
use why.Server.Unread.{AreWithin}
use why.Server.View.{IsRunnable}
use why.Server.Room.{IsGood-weaken}
use why.Server.Invariant.{IsPosix, AreNamed, HasRoomFor}
use why.Server.Invariant.Jobs.{Served, same-Served, Served-trans}
use why.Server.Invariant.Requests.{
  by_body, handle_line-by_body, set_parallel-IsGood, run-Served, push-Served, interrupt-Served,
  as_before,
}

module _ (os : System) (posix : IsPosix os) (s' : Server) (key : ℤ) (c : Client)
    (cs : List (ℤ × Client)) (ps : List (ℤ × Proc)) (rs : List Request) (n : ℕ)
    (named : AreNamed ps) (found : lookup key cs ≡ some c) where
  module _ (s : Server) (line : Str) (par : ℕ) (b : InBounds par)
      (g : HasRoomFor s cs ps rs (suc n)) where
    no_request-Served :
        parse_request line key s.parallel ≡ ok (par, none)
        → handle_line os s key line ≡ ok s'
        → Served s s' cs n
    unfolding handle_line
    no_request-Served parsed ran =
        let s₁ : Server = record s { parallel = par } in
        let g₁ = set_parallel-IsGood s cs ps rs _ _ par b g in
        as_before os posix s' key c cs ps rs n named found s par (
          same-Served s₁ s' cs ps rs n named
            (IsGood-weaken s₁ cs ps rs _ _ _ _ (omega arith) (omega arith) g₁)
            (let f = rw parsed at ran in cc))

    request-Served :
        (r : Request) (body : Body)
        → r.body ≡ body
        → IsOf line key (some r)
        → length line < 2 ^ 30
        → by_body os s key par r body ≡ ok s'
        → Served s s' cs n
    unfolding by_body
    request-Served r (req_run run) is_run own short ran =
        let s₁ : Server = record s { parallel = par } in
        let g₁ = set_parallel-IsGood s cs ps rs _ _ par b g in
        let runnable : IsRunnable r = record {
          short_id = omega (arith, own.1);
          run = run;
          is_run = is_run;
        } in
        as_before os posix s' key c cs ps rs n named found s par
          (elim (Bool-cases (ltb (list_length s.processes) par)) [
            | inl free ↦
                run-Served os posix s' key c cs ps rs n named found s₁ r runnable g₁
                  (rw free at ran)
            | inr full ↦
                push-Served os posix s' key c cs ps rs n named found s₁ r runnable g₁
                  (rw full at ran)
          ])
    request-Served r req_interrupt is_interrupt own short ran =
        as_before os posix s' key c cs ps rs n named found s par (
          interrupt-Served os posix s' key c cs ps rs n named found (record s { parallel = par })
            r.id (set_parallel-IsGood s cs ps rs _ _ par b g) ran)

    parsed-Served :
        (o : Option Request)
        → parse_request line key s.parallel ≡ ok (par, o)
        → IsOf line key o
        → length line < 2 ^ 30
        → handle_line os s key line ≡ ok s'
        → Served s s' cs n
    parsed-Served none parsed own short ran = no_request-Served parsed ran
    parsed-Served (some r) parsed own short ran =
        request-Served r r.body refl own short
          (sym (handle_line-by_body os s key par line r parsed) ∙ ran)

module _ (os : System) (posix : IsPosix os) where
  pub handle_line-Served :
      (s s' : Server) (key : ℤ) (line : Str) (c : Client) (cs : List (ℤ × Client))
      (ps : List (ℤ × Proc)) (rs : List Request) (n : ℕ)
      → lookup key cs ≡ some c
      → AreNamed ps
      → length line < 2 ^ 30
      → HasRoomFor s cs ps rs (suc n)
      → handle_line os s key line ≡ ok s'
      → Served s s' cs n
  unfolding handle_line
  handle_line-Served s s' key line c cs ps rs n found named short g ran =
      let ((par, o), parsed, rest) = first_ok (parse_request line key s.parallel) _ ran in
      let (b, own) =
        parse_request-shape line key s.parallel par o parsed
          (g.set_up.some_jobs, g.set_up.few_jobs) in
      parsed-Served os posix s' key c cs ps rs n named found s line par b g o parsed own short ran

  -- All lines of a client, each of which uses room for one thing that arrives.
  pub each_line-Served :
      (s s' : Server) (key : ℤ) (lines : List Str) (limit : ℕ) (c : Client) (cs : List (ℤ × Client))
      (ps : List (ℤ × Proc)) (rs : List Request) (n : ℕ)
      → lookup key cs ≡ some c
      → AreNamed ps
      → limit < 2 ^ 30
      → AreWithin limit lines
      → HasRoomFor s cs ps rs (length lines + n)
      → each_line os s key lines ≡ ok s'
      → Served s s' cs n
  unfolding each_line
  each_line-Served s s' key [] limit c cs ps rs n found named low within g ran =
      same-Served s s' cs ps rs n named
        (IsGood-weaken s cs ps rs _ _ _ _ (omega arith) (omega arith) g) (cc)
  each_line-Served s s' key (l ∷ ls) limit c cs ps rs n found named low within g ran =
      let (t, ran₁, ran₂) = first_ok (handle_line os s key l) _ ran in
      let g₁ = IsGood-weaken s cs ps rs _ _ _ _ (omega arith) (omega arith) g in
      let d =
        handle_line-Served s t key l c cs ps rs (length ls + n) found named
          (omega (arith, within.0)) g₁ ran₁ in
      let f =
        each_line-Served t s' key ls limit c cs d.procs d.queue n found d.named low within.1 d.good
          ran₂ in
      Served-trans s t s' cs (length ls + n) n d f
