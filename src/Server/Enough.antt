-- ===== src/Server/Enough.antt =====
-- The loop of `schedule_new_jobs` ends: as many rounds as requests wait are enough.
use why.Base.{
  ℕ, zero, suc, ◌+◌, ◌≡◌, refl, ap, ◌∙◌, sym, subst, inl, inr, true, List, [], ◌∷◌, Option, none,
  some, arith, length, ltb, Bool-cases, ℤ, minus_one, ◌==ℤ◌, Outcome, ok, stop, first_ok, ◌>>=◌,
}
use why.Text.{Str}
use why.Queue.Refine.{Holds, Holds-length, queue_pop-Holds, queue_is_empty-nil, queue_is_empty-cons}
use why.ArrayList.{list_lookup, list_append, list_length}
use why.WriteBuf.{push_write_data}
use why.Poll.{poll_list_lookup, set_pollout}
use why.Request.{Request, Run}
use why.Proc.{Proc}
use why.Server.{Server, System, Client}
use why.Server.Messages.{started_text, queue_write}
use why.Server.Spawn.{temp_file}
use why.Server.Jobs.{
  as_run, start_process, run_for_client, run_request, schedule_from, schedule_new_jobs,
}
use why.Server.Started.{send_started-queue_write}

ok_same {ℓ} : {A : Type ℓ} (a b : A) → (let left : Outcome A = ok a in left ≡ ok b) → a ≡ b
ok_same a b e = cc

-- What follows matters only if the code before it returned.
bind_ran {ℓ} :
    {V W : Type ℓ} (before : Outcome V) (next other : V → Outcome W)
    → ((v : V) → before ≡ ok v → next v ≡ other v)
    → (before >>= next) ≡ (before >>= other)
bind_ran (stop why) next other same = refl
bind_ran (ok v) next other same = same v refl

-- Sending a message does not touch the requests that wait.
queue_write-queue :
    (s t : Server) (fd : ℤ) (msg : Str) → queue_write s fd msg ≡ ok t → t.queue ≡ s.queue
unfolding queue_write
queue_write-queue s t fd msg ran =
    let (w, e₁, h₁) = first_ok (push_write_data (s.buffers fd).writebuf msg) _ ran in
    let (i, e₂, h₂) = first_ok (poll_list_lookup s.poll fd) _ h₁ in
    let (p, e₃, h₃) = first_ok (set_pollout s.poll i true) _ h₂ in
    ap (λ u. u.queue) (sym (ok_same _ t h₃))

module _ (os : System) where
  start_process-queue :
      (s : Server) (run : Run) (outfile : Str) (p : ℤ × Server)
      → start_process os s run outfile ≡ ok p
      → p.1.queue ≡ s.queue
  unfolding start_process
  start_process-queue s run outfile p ran = elim (Bool-cases (os.fork s.forks ==ℤ minus_one)) [
    | inl fails ↦ absurd (let e = rw fails at ran in cc)
    | inr forks ↦ ap (λ u. u.1.queue) (sym (ok_same _ p (rw forks at ran)))
  ]

  run_for_client-queue :
      (s t : Server) (r : Request) (run : Run) (c : Client)
      → run_for_client os s r run c ≡ ok t
      → t.queue ≡ s.queue
  unfolding run_for_client
  run_for_client-queue s t r run c ran =
      let outfile = temp_file s.current_dir (os.temp s.forks) in
      let (p, e₁, h₁) = first_ok (start_process os s run outfile) _ ran in
      let proc : Proc = record {
        id = p.0;
        client_key = r.key;
        task_id = r.id;
        outfile = outfile;
      } in
      let (l, e₂, h₂) = first_ok (list_append s.processes p.0 proc) _ h₁ in
      let s₁ : Server = record (p.1) { processes = l } in
      queue_write-queue s₁ t c.fd (started_text r.id)
        (sym (send_started-queue_write s₁ c.fd r.id) ∙ h₂)
      ∙ start_process-queue s run outfile p e₁

  by_client :
      (s t : Server) (r : Request) (o : Option Client)
      → list_lookup s.clients r.key ≡ ok o
      → run_request os s r ≡ ok t
      → t.queue ≡ s.queue
  unfolding run_request
  by_client s t r none e ran = ap (λ u. u.queue) (sym (ok_same s t (rw e at ran)))
  by_client s t r (some c) e ran =
      let (run, _, h) = first_ok (as_run r.body) _ (rw e at ran) in
      run_for_client-queue s t r run c h

  run_request-queue : (s t : Server) (r : Request) → run_request os s r ≡ ok t → t.queue ≡ s.queue
  unfolding run_request
  run_request-queue s t r ran =
      let (o, e, _) = first_ok (list_lookup s.clients r.key) _ ran in by_client s t r o e ran

  -- Without requests any number of rounds does nothing.
  schedule_from-empty :
      (rounds : ℕ) (s : Server) → Holds s.queue [] → schedule_from os rounds s ≡ ok s
  unfolding schedule_from
  schedule_from-empty zero s h = refl
  schedule_from-empty (suc rounds) s h =
      elim (Bool-cases (ltb (list_length s.processes) s.parallel)) [
        | inl free ↦ rw (free, queue_is_empty-nil s.queue h)
        | inr full ↦ rw full
      ]

  more_rounds :
      (rs : List Request) (s : Server) (more : ℕ)
      → Holds s.queue rs
      → schedule_from os (length rs + more) s ≡ schedule_from os (length rs) s
  unfolding schedule_from
  more_rounds [] s more h = schedule_from-empty (0 + more) s h ∙ sym (schedule_from-empty 0 s h)
  more_rounds (r ∷ rs) s more h =
      ap (λ n. schedule_from os n s)
        (let e : length (r ∷ rs) + more ≡ suc (length rs + more) = omega arith in e)
      ∙ elim (Bool-cases (ltb (list_length s.processes) s.parallel)) [
        | inl free ↦
            let (q, e, hq) = queue_pop-Holds s.queue r rs h in
            let s₁ : Server = record s { queue = q } in
            rw (free, queue_is_empty-cons s.queue r rs h, e)
              (bind_ran (run_request os s₁ r) (schedule_from os (length rs + more))
                (schedule_from os (length rs))
                (λ t ran.
                  more_rounds rs t more
                    (subst (λ u. Holds u rs) (sym (run_request-queue s₁ t r ran)) hq)))
        | inr full ↦ rw full
      ]

  -- With more rounds than requests wait the loop of the scheduler does the same: it ends before it
  -- runs out of rounds, whatever the requests and the system's answers are, and however it ends.
  pub schedule_new_jobs-enough :
      (rs : List Request) (s : Server) (more : ℕ)
      → Holds s.queue rs
      → schedule_from os (length rs + more) s ≡ schedule_new_jobs os s
  unfolding schedule_new_jobs
  schedule_new_jobs-enough rs s more h =
      more_rounds rs s more h ∙ ap (λ n. schedule_from os n s) (sym (Holds-length s.queue rs h))
