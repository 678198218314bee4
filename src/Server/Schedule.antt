-- ===== src/Server/Schedule.antt =====
-- `schedule_new_jobs`: which of the waiting requests are started.
use why.Base.{
  ℕ, zero, suc, ◌≤◌, ◌<◌, ◌≡◌, refl, ap, ap₂, subst, ◌∙◌, sym, ◌⊎◌, inl, inr, Bool, true, false,
  List, [], ◌∷◌, ◌++◌, append-nil, append_assoc, map, filter, Option, none, some, arith, length,
  length-append, ltb, ltb→lt, Bool-cases, Option-cases, ℤ, minus_one, ◌==ℤ◌, ok,
}
use why.Text.{Str}
use why.Queue.{Queue}
use why.Queue.Refine.{Holds as QueueHolds, Holds-length, queue_pop-Holds, queue_is_empty-cons}
use why.ArrayList.{list_length}
use why.ArrayList.Entries.{lookup}
use why.Request.{Request}
use why.Proc.{Proc}
use why.Server.{Server, System, Client}
use why.Server.Jobs.{schedule_from, schedule_new_jobs}
use why.Server.View.{IsGood}
use why.Server.Room.{IsGood-less}
use why.Server.Started.{proc_of, run_request-gone, run_request-starts}

abbrev pub is_some : Option Client → Bool
is_some none = false
is_some (some c) = true

-- The client of the request is connected.
abbrev pub connected : List (ℤ × Client) → Request → Bool
connected cs r = is_some (lookup r.key cs)

-- Whose task a request or a process is, and which.
abbrev pub request_task : Request → ℤ × Str
request_task r = (r.key, r.id)

abbrev pub process_task : ℤ × Proc → ℤ × Str
process_task e = (e.1.client_key, e.1.task_id)

-- How the waiting requests `rs` were dealt with on the way from processes `ps` to the state `s'`.
pub record Scheduled (s' : Server) (parallel : ℕ) (cs : List (ℤ × Client)) (ps : List (ℤ × Proc))
    (rs : List Request) : Type 0 where
  pub taken : List Request
  pub rest : List Request
  pub new : List (ℤ × Proc)
  pub split : rs ≡ taken ++ rest
  pub tasks : map process_task new ≡ map request_task (filter (connected cs) taken)
  pub good : IsGood s' cs (ps ++ new) rest 0 0
  pub full_or_empty : (rest ≡ []) ⊎ (parallel ≤ length (ps ++ new))
  pub bounded : (new ≡ []) ⊎ (length (ps ++ new) ≤ parallel)

-- Slots that are not used are given up.
IsGood-drop :
    (s : Server) (cs : List (ℤ × Client)) (ps : List (ℤ × Proc)) (rs : List Request) (n : ℕ)
    → IsGood s cs ps rs n n
    → IsGood s cs ps rs 0 0
IsGood-drop s cs ps rs zero g = g
IsGood-drop s cs ps rs (suc n) g = IsGood-drop s cs ps rs n (IsGood-less s cs ps rs n n g)

-- Nothing is taken.
nothing_taken :
    (s : Server) (cs : List (ℤ × Client)) (ps : List (ℤ × Proc)) (rs : List Request) (n : ℕ)
    → IsGood s cs ps rs n n
    → (rs ≡ []) ⊎ (s.parallel ≤ length ps)
    → Scheduled s s.parallel cs ps rs
nothing_taken s cs ps rs n g why = record {
  taken = [];
  rest = rs;
  new = [];
  split = refl;
  tasks = refl;
  good = subst (λ qs. IsGood s cs qs rs 0 0) (sym (append-nil ps)) (IsGood-drop s cs ps rs n g);
  full_or_empty = subst (λ qs. (rs ≡ []) ⊎ (s.parallel ≤ length qs)) (sym (append-nil ps)) why;
  bounded = inl refl;
}

processes_count :
    (s : Server) (ps : List (ℤ × Proc))
    → s.processes.len ≡ length ps
    → list_length s.processes ≡ length ps
processes_count s ps e = unfold list_length in e

no_slot : (a b : ℕ) → ltb a b ≡ false → b ≤ a
no_slot a b h = ground arith

-- A request of a client that is gone is taken and nothing is started.
take_gone :
    (s' : Server) (parallel : ℕ) (cs : List (ℤ × Client)) (ps : List (ℤ × Proc)) (r : Request)
    (rs : List Request)
    → lookup r.key cs ≡ none
    → Scheduled s' parallel cs ps rs
    → Scheduled s' parallel cs ps (r ∷ rs)
take_gone s' parallel cs ps r rs gone d = record {
  taken = r ∷ d.taken;
  rest = d.rest;
  new = d.new;
  split = ap (λ l. r ∷ l) d.split;
  tasks = rw gone d.tasks;
  good = d.good;
  full_or_empty = d.full_or_empty;
  bounded = d.bounded;
}

-- A request of a connected client is taken and its process started.
take_started :
    (s' : Server) (parallel : ℕ) (cs : List (ℤ × Client)) (ps : List (ℤ × Proc)) (r : Request)
    (rs : List Request) (c : Client) (x : ℤ × Proc)
    → lookup r.key cs ≡ some c
    → process_task x ≡ request_task r
    → length ps < parallel
    → Scheduled s' parallel cs (ps ++ (x ∷ [])) rs
    → Scheduled s' parallel cs ps (r ∷ rs)
take_started s' parallel cs ps r rs c x found same free d = record {
  taken = r ∷ d.taken;
  rest = d.rest;
  new = x ∷ d.new;
  split = ap (λ l. r ∷ l) d.split;
  tasks = rw found (ap₂ ◌∷◌ same d.tasks);
  good = subst (λ qs. IsGood s' cs qs d.rest 0 0) all d.good;
  full_or_empty = subst (λ qs. (d.rest ≡ []) ⊎ (parallel ≤ length qs)) all d.full_or_empty;
  bounded = inr (within d.bounded);
}
  where
    all : (ps ++ (x ∷ [])) ++ d.new ≡ ps ++ (x ∷ d.new)
    all = append_assoc ps (x ∷ []) d.new

    within :
        (d.new ≡ []) ⊎ (length ((ps ++ (x ∷ [])) ++ d.new) ≤ parallel)
        → length (ps ++ (x ∷ d.new)) ≤ parallel
    within (inl e) = omega (arith, length-append ps (x ∷ d.new), ap length e)
    within (inr h) = omega (arith, ap length all)

pub popped :
    (s : Server) (cs : List (ℤ × Client)) (ps : List (ℤ × Proc)) (r : Request) (rs : List Request)
    (q : Queue Request) {starts room : ℕ}
    → QueueHolds q rs
    → IsGood s cs ps (r ∷ rs) starts room
    → IsGood (record s { queue = q }) cs ps rs starts room
popped s cs ps r rs q h g = record {
  set_up = g.set_up;
  clients = g.clients;
  procs = g.procs;
  queue = h;
  procs_room = g.procs_room;
  clients_room = g.clients_room;
  low_room = g.low_room;
  runnable = g.runnable.1;
  entries = g.entries;
  entries_room = g.entries_room;
  poll = g.poll;
  buffers = g.buffers;
  watched = g.watched;
}

module _ (os : System) (forks : (n : ℕ) → (os.fork n ==ℤ minus_one) ≡ false) where
  schedule_from-Scheduled :
      (s : Server) (cs : List (ℤ × Client)) (ps : List (ℤ × Proc)) (rs : List Request)
      → IsGood s cs ps rs (length rs) (length rs)
      → (s' : Server) × (schedule_from os (length rs) s ≡ ok s')
        × (s'.parallel ≡ s.parallel)
        × Scheduled s' s.parallel cs ps rs
  unfolding schedule_from
  schedule_from-Scheduled s cs ps [] g = (s, refl, refl, nothing_taken s cs ps [] 0 g (inl refl))
  schedule_from-Scheduled s cs ps (r ∷ rs) g =
      elim (Bool-cases (ltb (list_length s.processes) s.parallel)) [
        | inl free ↦
            let (q', e, h) = queue_pop-Holds s.queue r rs g.queue in
            let some_waits = queue_is_empty-cons s.queue r rs g.queue in
            let s₁ : Server = record s { queue = q' } in
            let g₁ = popped s cs ps r rs q' h g in
            elim (Option-cases (lookup r.key cs)) [
              | inl gone ↦
                  let g₂ = IsGood-less s₁ cs ps rs (length rs) (length rs) g₁ in
                  let (s', e', same, d) = schedule_from-Scheduled s₁ cs ps rs g₂ in
                  (
                    s',
                    rw (free, some_waits, e, run_request-gone os s₁ r cs ps rs _ _ gone g₁) e',
                    same,
                    take_gone s' s.parallel cs ps r rs gone d,
                  )
              | inr (c, found) ↦
                  let x : ℤ × Proc = (os.fork s.forks, proc_of os s₁ r) in
                  let (s₂, e₂, g₂, same, _, _, _) =
                    run_request-starts os s₁ r cs ps rs (length rs) (length rs) c g.runnable.0 found
                      (forks s.forks) g₁ in
                  let (s', e', same', d) = schedule_from-Scheduled s₂ cs (ps ++ (x ∷ [])) rs g₂ in
                  let d' = subst (λ n. Scheduled s' n cs (ps ++ (x ∷ [])) rs) same d in
                  (
                    s',
                    rw (free, some_waits, e, e₂) e',
                    same' ∙ same,
                    take_started s' s.parallel cs ps r rs c x found refl
                        (ltb→lt (length ps) s.parallel (
                          ap (λ n. ltb n s.parallel) (sym (processes_count s ps g.procs.count))
                          ∙ free))
                        d',
                  )
            ]
        | inr full ↦ (
          s,
          rw full,
          refl,
          nothing_taken s cs ps (r ∷ rs) _ g (
              inr (
                omega (
                  arith,
                  processes_count s ps g.procs.count,
                  no_slot (list_length s.processes) s.parallel full,
                ))),
        )
      ]

  -- If `fork` does not fail, and there is room for a process and a message for every waiting
  -- request, `schedule_new_jobs` returns. It takes the requests from the front of the queue, starts
  -- a process for each whose client is connected, in this order, and no other. It stops when no
  -- request waits or as many processes run as are allowed, and never starts more than these.
  pub schedule_new_jobs-Scheduled :
      (s : Server) (cs : List (ℤ × Client)) (ps : List (ℤ × Proc)) (rs : List Request)
      → IsGood s cs ps rs (length rs) (length rs)
      → (s' : Server) × (schedule_new_jobs os s ≡ ok s')
        × (s'.parallel ≡ s.parallel)
        × Scheduled s' s.parallel cs ps rs
  unfolding schedule_new_jobs
  schedule_new_jobs-Scheduled s cs ps rs g =
      let (s', e, same, d) = schedule_from-Scheduled s cs ps rs g in
      (s', ap (λ n. schedule_from os n s) (Holds-length s.queue rs g.queue) ∙ e, same, d)
