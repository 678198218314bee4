-- ===== src/Server/Invariant/Outcomes.antt =====
-- How the code that handles requests and ended processes may end.
use why.Base.{
  ℕ, suc, ◌+◌, ◌-◌, ◌*◌, ◌^◌, ◌<◌, ◌≡◌, refl, sym, subst, inl, inr, Bool, List, [], ◌∷◌, Option,
  none, some, arith, length, filter, ltb, leb, leb→le, Bool-cases, Option-cases, ℤ, ok,
}
use why.Text.{Str}
use why.ArrayList.{list_length}
use why.ArrayList.Entries.{lookup, remove, length-remove-lt, length-remove-le}
use why.ArrayList.Refine.{list_lookup-Holds, list_remove-Holds}
use why.Queue.Refine.{queue_push-Holds}
use why.Request.{Request, Body, req_run, req_interrupt}
use why.Request.Parse.{parse_request}
use why.Request.Pending.{stays}
use why.Request.Shape.{InBounds, IsOf, parse_request-shape}
use why.Proc.{Proc}
use why.Server.{Server, System, Client, killed}
use why.Server.Messages.{int_text, finished_text, send_msg_to_client}
use why.Server.Jobs.{Waited, exit_code, is_timeout, handle_child, handle_child_events}
use why.Server.Limits.{send_msg_to_client-fits, length-finished_text}
use why.Server.Lines.{handle_line}
use why.Server.Framing.{each_line}
use why.Server.Unread.{AreWithin}
use why.Server.View.{IsGood, queue_write-IsGood}
use why.Server.Room.{IsGood-weaken, IsGood-processes}
use why.Server.Interrupted.{own_task, interrupted, interrupt-answers}
use why.Server.Invariant.{IsPosix, AreNamed, AreNamed-lookup, HasRoomFor}
use why.Server.Invariant.Ended.{handle_child-Served}
use why.Server.Invariant.Requests.{length-filter, set_parallel-IsGood, by_body, handle_line-by_body}
use why.Server.Invariant.Lines.{handle_line-Served}
use why.Server.Invariant.Ending.{Ends, IsFed, IsFedBody, Goes-nowhere, Ends-then}
use why.Server.Invariant.Rounds.{run_request-Ends}

-- A message is put on its way, or is too long for its room.
send_msg_to_client-Ends :
    (s : Server) (fd : ℤ) (c : Client) (id : Str) (exitcode : ℕ) (cpu_time : Str) (timeout : Bool)
    (outfile : Str) (cs : List (ℤ × Client)) (ps : List (ℤ × Proc)) (rs : List Request)
    (starts room : ℕ)
    → lookup fd cs ≡ some c
    → length id + length outfile < 2 ^ 31 - 100
    → IsGood s cs ps rs starts (suc room)
    → Ends s (send_msg_to_client s fd id exitcode cpu_time timeout outfile)
send_msg_to_client-Ends s fd c id exitcode cpu_time timeout outfile cs ps rs starts room found short
      g =
    let msg = finished_text id exitcode cpu_time timeout outfile in
    let fits = send_msg_to_client-fits s fd id exitcode cpu_time timeout outfile in
    elim (Bool-cases (leb (length (int_text exitcode) + length cpu_time) 22)) [
      | inl low ↦
          let few = leb→le (length (int_text exitcode) + length cpu_time) 22 low in
          let l = length-finished_text id exitcode cpu_time timeout outfile in
          let (bufs, poll, e, _, _) =
            queue_write-IsGood s fd c msg cs ps rs starts room found (omega (arith, l, few)) g in
          let t : Server = record s { buffers = bufs; poll = poll } in
          inl (t, rw (fits, low) e, Goes-nowhere s t refl)
      | inr high ↦ inr (rw (fits, high))
    ]

-- The processes that `wait3` returns are in the list, each once.
abbrev pub AreKnown : List (ℤ × Proc) → List Waited → Type 0
AreKnown ps [] = Unit
AreKnown ps (w ∷ ws) = ((p : Proc) × (lookup w.pid ps ≡ some p)) × AreKnown (remove w.pid ps) ws

handle_child-Ends :
    (s : Server) (w : Waited) (p : Proc) (cs : List (ℤ × Client)) (ps : List (ℤ × Proc))
    (rs : List Request) (n : ℕ)
    → lookup w.pid ps ≡ some p
    → AreNamed ps
    → HasRoomFor s cs ps rs n
    → Ends s (handle_child s w)
unfolding handle_child
handle_child-Ends s w p cs ps rs n found named g =
    let left = length (remove w.pid ps) in
    let room = 2 * length rs + left + 2 * n in
    let g₁ =
      IsGood-weaken s cs ps rs _ _ (length rs + n) (suc room) (omega arith)
        (omega (arith, length-remove-lt w.pid p ps found)) g in
    let (l, e, h) = list_remove-Holds s.processes w.pid ps g.procs in
    let s₁ : Server = record s { processes = l } in
    elim (Option-cases (lookup p.client_key cs)) [
      | inl gone ↦ inl (
        s₁,
        rw (
          list_lookup-Holds s.processes w.pid ps g.procs,
          found,
          e,
          list_lookup-Holds s.clients p.client_key cs g.clients,
          gone,
        ),
        Goes-nowhere s s₁ refl,
      )
      | inr (c, client) ↦
          rw
            (
              list_lookup-Holds s.processes w.pid ps g.procs,
              found,
              e,
              list_lookup-Holds s.clients p.client_key cs g.clients,
              client,
              (g.buffers p.client_key c client).0,
            )
            (send_msg_to_client-Ends s₁ p.client_key c p.task_id (exit_code w.status) w.cpu_time
              (is_timeout w.status) p.outfile cs (remove w.pid ps) rs (length rs + n) room client
              (AreNamed-lookup w.pid p ps named found)
              (IsGood-processes s l cs ps (remove w.pid ps) rs (length rs + n) (suc room) h
                (length-remove-le w.pid ps) g₁))
    ]

pub handle_child_events-Ends :
    (s : Server) (ws : List Waited) (cs : List (ℤ × Client)) (ps : List (ℤ × Proc))
    (rs : List Request) (n : ℕ)
    → AreKnown ps ws
    → AreNamed ps
    → HasRoomFor s cs ps rs n
    → Ends s (handle_child_events s ws)
unfolding handle_child_events
handle_child_events-Ends s [] cs ps rs n known named g = inl (s, refl, Goes-nowhere s s refl)
handle_child_events-Ends s (w ∷ ws) cs ps rs n known named g =
    Ends-then s (handle_child s w) (λ t. handle_child_events t ws)
      (handle_child-Ends s w known.0.0 cs ps rs n known.0.1 named g)
      (λ t ran.
        let (d, same) = handle_child-Served s t w cs ps rs n named g ran in
        handle_child_events-Ends t ws cs d.procs d.queue n (rw same (known.1)) d.named d.good)

-- The numbers in the line are in the range of `int`, and a request with `usestdin` has an argument.
abbrev pub IsReadable : ℤ → Str → Type 0
IsReadable key line =
    (par : ℕ)
    → (par' : ℕ) × (o : Option Request) × (parse_request line key par ≡ ok (par', o)) × IsFed o

abbrev pub AreReadable : ℤ → List Str → Type 0
AreReadable key [] = Unit
AreReadable key (l ∷ ls) = IsReadable key l × AreReadable key ls

module _ (os : System) (posix : IsPosix os) (key : ℤ) (c : Client) (cs : List (ℤ × Client)) where
  by_body-Ends :
      (s : Server) (r : Request) (body : Body) (par : ℕ) (ps : List (ℤ × Proc)) (rs : List Request)
      (n : ℕ)
      → r.body ≡ body
      → length r.id < 2 ^ 30
      → InBounds par
      → IsFedBody body
      → lookup key cs ≡ some c
      → HasRoomFor s cs ps rs (suc n)
      → Ends s (by_body os s key par r body)
  unfolding by_body
  by_body-Ends s r (req_run run) par ps rs n is_run short b fed found g =
      let s₁ : Server = record s { parallel = par } in
      let g₁ = set_parallel-IsGood s cs ps rs _ _ par b g in
      elim (Bool-cases (ltb (list_length s.processes) par)) [
        | inl free ↦ rw free (
            run_request-Ends os posix s₁ r cs ps rs (length rs + n)
              (2 * length rs + suc (length ps) + 2 * n)
              (record { short_id = short; run = run; is_run = is_run })
              (subst IsFedBody (sym is_run) fed)
              (IsGood-weaken s₁ cs ps rs _ _ _ _ (omega arith) (omega arith) g₁))
        | inr full ↦
            let (q, e, h) = queue_push-Holds s.queue r rs (omega (arith, g.procs_room)) g.queue in
            let t : Server = record s { parallel = par; queue = q } in
            inl (t, rw (full, e), Goes-nowhere s t refl)
      ]
  by_body-Ends s r req_interrupt par ps rs n is_interrupt short b fed found g =
      let s₁ : Server = record s { parallel = par } in
      let g₁ = set_parallel-IsGood s cs ps rs _ _ par b g in
      let qs = filter (stays key (some r.id)) rs in
      let l = length-filter (stays key (some r.id)) rs in
      let room = 2 * length qs + length ps + 2 * n in
      let (t, e, _, _, _, seen) =
        interrupt-answers os s₁ key r.id c cs ps rs (length qs + n) room found
          (omega (arith, g.procs_room))
          (IsGood-weaken s₁ cs ps rs _ _ (length qs + n) (length (interrupted key r.id rs) + room)
            (omega (arith, l)) (omega (arith, l)) g₁) in
      inl (t, e, (killed (own_task key r.id ps) ∷ [], seen, tt))

  handle_line-Ends :
      (s : Server) (line : Str) (ps : List (ℤ × Proc)) (rs : List Request) (n : ℕ)
      → IsReadable key line
      → length line < 2 ^ 30
      → lookup key cs ≡ some c
      → HasRoomFor s cs ps rs (suc n)
      → Ends s (handle_line os s key line)
  unfolding handle_line
  handle_line-Ends s line ps rs n readable short found g =
      let (par, o, parsed, fed) = readable s.parallel in
      let (b, own) =
        parse_request-shape line key s.parallel par o parsed
          (g.set_up.some_jobs, g.set_up.few_jobs) in
      ends par o parsed b own fed
    where
      ends :
          (par : ℕ) (o : Option Request)
          → parse_request line key s.parallel ≡ ok (par, o)
          → InBounds par
          → IsOf line key o
          → IsFed o
          → Ends s (handle_line os s key line)
      ends par none parsed b own fed =
          let t : Server = record s { parallel = par } in inl (t, rw parsed, Goes-nowhere s t refl)
      ends par (some r) parsed b own fed =
          subst (Ends s) (sym (handle_line-by_body os s key par line r parsed))
            (by_body-Ends s r r.body par ps rs n refl (omega (arith, own.1)) b fed found g)

  pub each_line-Ends :
      (lines : List Str) (s : Server) (limit : ℕ) (ps : List (ℤ × Proc)) (rs : List Request) (n : ℕ)
      → AreReadable key lines
      → limit < 2 ^ 30
      → AreWithin limit lines
      → lookup key cs ≡ some c
      → AreNamed ps
      → HasRoomFor s cs ps rs (length lines + n)
      → Ends s (each_line os s key lines)
  unfolding each_line
  each_line-Ends [] s limit ps rs n readable low within found named g =
      inl (s, refl, Goes-nowhere s s refl)
  each_line-Ends (l ∷ ls) s limit ps rs n readable low within found named g =
      let g₁ = IsGood-weaken s cs ps rs _ _ _ _ (omega arith) (omega arith) g in
      Ends-then s (handle_line os s key l) (λ t. each_line os t key ls)
        (handle_line-Ends s l ps rs (length ls + n) readable.0 (omega (arith, within.0)) found g₁)
        (λ t ran.
          let d =
            handle_line-Served os posix s t key l c cs ps rs (length ls + n) found named
              (omega (arith, within.0)) g₁ ran in
          each_line-Ends ls t limit d.procs d.queue n readable.1 low within.1 found d.named d.good)
