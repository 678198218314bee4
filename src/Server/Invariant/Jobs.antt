-- ===== src/Server/Invariant/Jobs.antt =====
-- Starting and ending processes keeps the invariant.
use why.Base.{
  ℕ, zero, suc, ◌+◌, ◌*◌, ◌^◌, ◌≤◌, ◌<◌, ◌≡◌, refl, ◌∙◌, subst, inl, inr, true, List, [], ◌∷◌, ◌++◌,
  some, arith, length, length-append, Bool-cases, Option-cases, ltb, ℤ, minus_one, ◌==ℤ◌, ok, stop,
  exits, first_ok, Outcome,
}
use why.Text.{codes}
use why.Queue.Refine.{queue_pop-Holds, queue_is_empty-nil, queue_is_empty-cons}
use why.ArrayList.{list_length}
use why.ArrayList.Entries.{lookup}
use why.ArrayList.Refine.{list_lookup-Holds}
use why.Request.{Request}
use why.Proc.{Proc}
use why.Server.{Server, System, Client}
use why.Server.Spawn.{temp_file}
use why.Server.Jobs.{start_process, run_for_client, run_request, schedule_from, schedule_new_jobs}
use why.Server.View.{IsGood, IsRunnable, Keeps, Told-Keeps}
use why.Server.Room.{IsGood-less, IsGood-weaken}
use why.Server.Started.{proc_of, run_request-gone, run_request-starts}
use why.Server.Schedule.{popped}
use why.Server.Messages.{started_text}
use why.Server.Invariant.{IsPosix, AreNamed, AreNamed-append, HasRoomFor}

-- The same value came out of the same code.
pub ok_unique {ℓ} : {A : Type ℓ} (o : Outcome A) (a b : A) → o ≡ ok a → o ≡ ok b → a ≡ b
ok_unique o a b e f = cc

-- What the clients see of the processes may change, and what they sent stays.
pub record Served (old new : Server) (cs : List (ℤ × Client)) (n : ℕ) : Type 0 where
  pub procs : List (ℤ × Proc)
  pub queue : List Request
  pub good : HasRoomFor new cs procs queue n
  pub named : AreNamed procs
  pub keeps : Keeps old.buffers new.buffers

-- One process more at most.
pub record Ran (old new : Server) (cs : List (ℤ × Client)) (ps : List (ℤ × Proc))
    (rs : List Request) (starts room : ℕ) : Type 0 where
  pub procs : List (ℤ × Proc)
  pub good : IsGood new cs procs rs starts room
  pub few : length procs ≤ suc (length ps)
  pub named : AreNamed procs
  pub keeps : Keeps old.buffers new.buffers

-- Nothing was done.
pub same-Served :
    (s s' : Server) (cs : List (ℤ × Client)) (ps : List (ℤ × Proc)) (rs : List Request) (n : ℕ)
    → AreNamed ps
    → HasRoomFor s cs ps rs n
    → s ≡ s'
    → Served s s' cs n
same-Served s s' cs ps rs n named g e =
    subst (λ t. Served s t cs n) e
      (record { procs = ps; queue = rs; good = g; named = named; keeps = λ k. refl })

pub Served-trans :
    (s t u : Server) (cs : List (ℤ × Client)) (n m : ℕ)
    → Served s t cs n
    → Served t u cs m
    → Served s u cs m
Served-trans s t u cs n m d f = record {
  procs = f.procs;
  queue = f.queue;
  good = f.good;
  named = f.named;
  keeps = λ k. f.keeps k ∙ d.keeps k;
}

module _ (os : System) (posix : IsPosix os) where
  length-outfile :
      (s : Server) (cs : List (ℤ × Client)) (ps : List (ℤ × Proc)) (rs : List Request)
      (starts room : ℕ)
      → IsGood s cs ps rs starts room
      → length (temp_file s.current_dir (os.temp s.forks)) < 2 ^ 29 + 11
  unfolding temp_file
  length-outfile s cs ps rs starts room g = omega (
    arith,
    g.set_up.short_dir,
    length-append s.current_dir (codes "/why3" ++ os.temp s.forks),
    posix.temp_length s.forks,
  )

  pub no_process :
      (s : Server) (r : Request) (c : Client) (cs : List (ℤ × Client)) (ps : List (ℤ × Proc))
      (rs : List Request) (starts room : ℕ)
      → IsRunnable r
      → IsGood s cs ps rs starts room
      → lookup r.key cs ≡ some c
      → (os.fork s.forks ==ℤ minus_one) ≡ true
      → run_request os s r ≡ stop (exits 1)
  unfolding run_request run_for_client start_process
  no_process s r c cs ps rs starts room runnable g found fails =
      rw (list_lookup-Holds s.clients r.key cs g.clients, found, runnable.is_run, fails)

  pub run_request-Ran :
      (s s' : Server) (r : Request) (cs : List (ℤ × Client)) (ps : List (ℤ × Proc))
      (rs : List Request) (starts room : ℕ)
      → IsRunnable r
      → AreNamed ps
      → IsGood s cs ps rs (suc starts) (suc room)
      → run_request os s r ≡ ok s'
      → Ran s s' cs ps rs starts room
  run_request-Ran s s' r cs ps rs starts room runnable named g ran =
      elim (Option-cases (lookup r.key cs)) [
        | inl gone ↦
            let e =
              ok_unique (run_request os s r) s s' (run_request-gone os s r cs ps rs _ _ gone g)
                ran in
            subst (λ t. Ran s t cs ps rs starts room) e
              (record {
                procs = ps;
                good = IsGood-less s cs ps rs starts room g;
                few = omega arith;
                named = named;
                keeps = λ k. refl;
              })
        | inr (c, found) ↦ elim (Bool-cases (os.fork s.forks ==ℤ minus_one)) [
          | inl fails ↦ absurd (
              let e = no_process s r c cs ps rs (suc starts) (suc room) runnable g found fails in
              cc)
          | inr forks ↦
              let (t, e', good, _, _, _, told) =
                run_request-starts os s r cs ps rs starts room c runnable found forks g in
              let e = ok_unique (run_request os s r) t s' e' ran in
              subst (λ t. Ran s t cs ps rs starts room) e
                (record {
                  procs = ps ++ ((os.fork s.forks, proc_of os s r) ∷ []);
                  good = good;
                  few = omega (arith, length-append ps ((os.fork s.forks, proc_of os s r) ∷ []));
                  named = AreNamed-append ps (os.fork s.forks) (proc_of os s r) named (
                      omega (
                        arith,
                        runnable.short_id,
                        length-outfile s cs ps rs (suc starts) (suc room) g,
                      ));
                  keeps = Told-Keeps s.buffers t.buffers r.key (started_text r.id) told;
                })
        ]
      ]

  schedule_from-Served :
      (rounds : ℕ) (s s' : Server) (cs : List (ℤ × Client)) (ps : List (ℤ × Proc))
      (rs : List Request) (n : ℕ)
      → AreNamed ps
      → HasRoomFor s cs ps rs n
      → schedule_from os rounds s ≡ ok s'
      → Served s s' cs n
  unfolding schedule_from
  schedule_from-Served zero s s' cs ps rs n named g ran = same-Served s s' cs ps rs n named g (cc)
  schedule_from-Served (suc rounds) s s' cs ps [] n named g ran =
      same-Served s s' cs ps [] n named g
        (elim (Bool-cases (ltb (list_length s.processes) s.parallel)) [
          | inl free ↦ let e = rw (free, queue_is_empty-nil s.queue g.queue) at ran in cc
          | inr full ↦ let e = rw full at ran in cc
        ])
  schedule_from-Served (suc rounds) s s' cs ps (r ∷ rs) n named g ran =
      elim (Bool-cases (ltb (list_length s.processes) s.parallel)) [
        | inl free ↦
            let (q, e, h) = queue_pop-Holds s.queue r rs g.queue in
            let s₁ : Server = record s { queue = q } in
            let ran₁ = rw (free, queue_is_empty-cons s.queue r rs g.queue, e) at ran in
            let (t, ran₂, ran₃) = first_ok (run_request os s₁ r) _ ran₁ in
            let starts = length rs + n in
            let room = 2 * length rs + suc (length ps) + 2 * n in
            let g₁ =
              IsGood-weaken s₁ cs ps rs _ _ (suc starts) (suc room) (omega arith) (omega arith)
                (popped s cs ps r rs q h g) in
            let d = run_request-Ran s₁ t r cs ps rs starts room g.runnable.0 named g₁ ran₂ in
            let f =
              schedule_from-Served rounds t s' cs d.procs rs n d.named
                (IsGood-weaken t cs d.procs rs starts room _ _ (omega arith) (omega (arith, d.few))
                  d.good)
                ran₃ in
            Served-trans s t s' cs n n
              (record {
                procs = d.procs;
                queue = rs;
                good =
                    IsGood-weaken t cs d.procs rs starts room _ _ (omega arith)
                      (omega (arith, d.few)) d.good;
                named = d.named;
                keeps = d.keeps;
              })
              f
        | inr full ↦ same-Served s s' cs ps (r ∷ rs) n named g (let e = rw full at ran in cc)
      ]

  -- Whatever is started, what arrives later has its room.
  pub schedule_new_jobs-Served :
      (s s' : Server) (cs : List (ℤ × Client)) (ps : List (ℤ × Proc)) (rs : List Request) (n : ℕ)
      → AreNamed ps
      → HasRoomFor s cs ps rs n
      → schedule_new_jobs os s ≡ ok s'
      → Served s s' cs n
  unfolding schedule_new_jobs
  schedule_new_jobs-Served s s' = schedule_from-Served s.queue.len s s'
