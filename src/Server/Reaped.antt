-- ===== src/Server/Reaped.antt =====
-- `handle_child`: a process that has ended is taken off the list, and its client is told.
use why.Base.{
  true, false, inl, inr, ◌∙◌, ◌/◌, ◌%◌, ltb, lt→ltb, Bool-cases, if◌then◌else◌, ℕ, suc, ◌+◌, ◌^◌,
  ◌≤◌, ◌<◌, ◌≡◌, refl, ap, List, [], ◌∷◌, ◌++◌, none, some, arith, length, ℤ, ok, stop, undefined,
}
use why.Text.{Str, codes}
use why.ArrayList.Entries.{lookup, remove, length-remove-le}
use why.ArrayList.Refine.{list_lookup-Holds, list_remove-Holds}
use why.Request.{Request}
use why.Proc.{Proc}
use why.Server.{Server, Client}
use why.Server.Messages.{finished_text, int_text, decimal}
use why.Server.Jobs.{
  Waited, Status, exited, signaled, otherwise, exit_code, is_timeout, handle_child,
}
use why.Server.Limits.{send_msg_to_client-queue_write, length-finished_text, decimal_three}
use why.Server.View.{IsGood, Told, queue_write-IsGood}
use why.Server.Room.{IsGood-messages, IsGood-processes}

-- A status has room for eight bits of an exit code, and for seven of a signal.
abbrev pub IsStatus : Status → Type 0
IsStatus (exited n) = n < 256
IsStatus (signaled n) = n < 128
IsStatus otherwise = Unit

-- The fields of a message, with semicolons between them.
abbrev pub fields : List Str → Str
fields [] = []
fields (f ∷ []) = f ++ (10 ∷ [])
fields (f ∷ g ∷ fs) = f ++ (b';' ∷ fields (g ∷ fs))

-- A number below 1000 with its digits.
abbrev pub digits : ℕ → Str
digits n =
    if ltb n 10
    then (48 + n) ∷ []
    else if ltb n 100
    then (48 + n / 10) ∷ (48 + n % 10) ∷ []
    else (48 + n / 100) ∷ (48 + n / 10 % 10) ∷ (48 + n % 10) ∷ []

one_digit : (k n : ℕ) → ltb n 10 ≡ true → decimal (suc k) n ≡ (48 + n) ∷ []
unfolding decimal
one_digit k n h = rw h

last_digit :
    (k n : ℕ) → ltb n 10 ≡ false → decimal (suc k) n ≡ decimal k (n / 10) ++ ((48 + n % 10) ∷ [])
unfolding decimal
last_digit k n h = rw h

int_text-digits : (n : ℕ) → n < 1000 → int_text n ≡ digits n
int_text-digits n small = elim (Bool-cases (ltb n 10)) [
  | inl one ↦ rw one (one_digit 9 n one)
  | inr more ↦ elim (Bool-cases (ltb n 100)) [
    | inl two ↦
        let front = one_digit 8 (n / 10) (lt→ltb _ _ (ground (arith, two))) in
        rw (more, two) (last_digit 9 n more ∙ ap (λ f. f ++ ((48 + n % 10) ∷ [])) front)
    | inr three ↦
        let same : n / 10 / 10 ≡ n / 100 = omega arith in
        let first = one_digit 7 (n / 10 / 10) (lt→ltb _ _ (omega (arith, small))) in
        let front = last_digit 8 (n / 10) (ground (arith, three)) in
        rw (more, three)
          (last_digit 9 n more
            ∙ ap (λ f. f ++ ((48 + n % 10) ∷ []))
                (front
                  ∙ ap (λ f. f ++ ((48 + n / 10 % 10) ∷ []))
                      (first ∙ ap (λ m. (48 + m) ∷ []) same)))
  ]
]

-- The message of the end of a process: its exit code and 0, or the signal that ended it and 1.
abbrev pub end_fields : Status → Str → Proc → List Str
end_fields (exited n) time p = codes "F" ∷ p.task_id ∷ digits n ∷ time ∷ codes "0" ∷ p.outfile ∷ []
end_fields (signaled n) time p =
    codes "F" ∷ p.task_id ∷ digits n ∷ time ∷ codes "1" ∷ p.outfile ∷ []
end_fields otherwise time p = codes "F" ∷ p.task_id ∷ codes "1" ∷ time ∷ codes "0" ∷ p.outfile ∷ []

-- What is written is this message.
text-fields :
    (status : Status) (time : Str) (p : Proc)
    → IsStatus status
    → finished_text p.task_id (exit_code status) time (is_timeout status) p.outfile
      ≡ fields (end_fields status time p)
text-fields (exited n) time p h =
    ap (λ d. fields (codes "F" ∷ p.task_id ∷ d ∷ time ∷ codes "0" ∷ p.outfile ∷ []))
      (int_text-digits n (omega (arith, h)))
text-fields (signaled n) time p h =
    ap (λ d. fields (codes "F" ∷ p.task_id ∷ d ∷ time ∷ codes "1" ∷ p.outfile ∷ []))
      (int_text-digits n (omega (arith, h)))
text-fields otherwise time p h = unfold decimal in refl

code_small : (status : Status) → IsStatus status → exit_code status < 1000
code_small (exited n) h = omega (arith, h)
code_small (signaled n) h = omega (arith, h)
code_small otherwise h = omega arith

module _ (s : Server) (w : Waited) (cs : List (ℤ × Client)) (ps : List (ℤ × Proc))
    (rs : List Request) (starts room : ℕ) (g : IsGood s cs ps rs starts (suc room)) where
  -- A process id that the server did not start leads to a `NULL` pointer that is read.
  pub handle_child-unknown : lookup w.pid ps ≡ none → handle_child s w ≡ stop undefined
  unfolding handle_child
  handle_child-unknown unknown =
      let (l, e, h) = list_remove-Holds s.processes w.pid ps g.procs in
      rw (list_lookup-Holds s.processes w.pid ps g.procs, unknown, e)

  module _ (p : Proc) (found : lookup w.pid ps ≡ some p) where
    -- The end of a process whose client is gone takes it off the list, and nobody is told; the state
    -- stays well formed.
    pub handle_child-gone :
        lookup p.client_key cs ≡ none
        → (s' : Server) × (handle_child s w ≡ ok s')
          × (s'.buffers ≡ s.buffers)
          × IsGood s' cs (remove w.pid ps) rs starts room
    unfolding handle_child
    handle_child-gone gone =
        let (l, e, h) = list_remove-Holds s.processes w.pid ps g.procs in
        (
          record s { processes = l },
          rw (
            list_lookup-Holds s.processes w.pid ps g.procs,
            found,
            e,
            list_lookup-Holds s.clients p.client_key cs g.clients,
            gone,
          ),
          refl,
          IsGood-processes s l cs ps (remove w.pid ps) rs starts room h (length-remove-le w.pid ps)
              (IsGood-messages s cs ps rs starts room g),
        )

    -- A process that has ended is taken off the list, and the client whose key it has gets the
    -- message of its end: "F", the id of the task, the exit code, the time, "0" and the file with the
    -- output, between semicolons. For a process that a signal ended, whatever the signal is, they are
    -- the signal's number and "1", and for any other end 1 and "0". The state stays well formed. The
    -- hypotheses bound the lengths of the message's parts.
    pub handle_child-tells :
        (c : Client)
        → lookup p.client_key cs ≡ some c
        → IsStatus w.status
        → length w.cpu_time ≤ 19
        → length p.task_id + length p.outfile < 2 ^ 30
        → (s' : Server) × (handle_child s w ≡ ok s')
          × Told s.buffers s'.buffers p.client_key (fields (end_fields w.status w.cpu_time p))
          × IsGood s' cs (remove w.pid ps) rs starts room
    unfolding handle_child
    handle_child-tells c client status time short =
        let small = code_small w.status status in
        let written = text-fields w.status w.cpu_time p status in
        let text = fields (end_fields w.status w.cpu_time p) in
        let (l, e, h) = list_remove-Holds s.processes w.pid ps g.procs in
        let same = (g.buffers p.client_key c client).0 in
        let s₁ : Server = record s { processes = l } in
        let g₁ =
          IsGood-processes s l cs ps (remove w.pid ps) rs starts (suc room) h
            (length-remove-le w.pid ps) g in
        let (bufs, poll, e', told, g₂) =
          queue_write-IsGood s₁ p.client_key c text cs (remove w.pid ps) rs starts room client
            (fits written small time short) g₁ in
        (
          record s₁ { buffers = bufs; poll = poll },
          rw
              (
                list_lookup-Holds s.processes w.pid ps g.procs,
                found,
                e,
                list_lookup-Holds s.clients p.client_key cs g.clients,
                client,
                same,
                send_msg_to_client-queue_write s₁ p.client_key p.task_id (exit_code w.status)
                    w.cpu_time (is_timeout w.status) p.outfile small time,
                written,
              )
              e',
          told,
          g₂,
        )
      where
        fits :
            finished_text p.task_id (exit_code w.status) w.cpu_time (is_timeout w.status) p.outfile
              ≡ fields (end_fields w.status w.cpu_time p)
            → exit_code w.status < 1000
            → length w.cpu_time ≤ 19
            → length p.task_id + length p.outfile < 2 ^ 30
            → length (fields (end_fields w.status w.cpu_time p)) < 2 ^ 31
        fits same a b d = omega (
          arith,
          ap length same,
          length-finished_text p.task_id (exit_code w.status) w.cpu_time (is_timeout w.status)
              p.outfile,
          decimal_three 10 (exit_code w.status) a,
        )
