-- ===== src/Server/Invariant/Ended.antt =====
-- The end of a process keeps the invariant.
use why.Base.{
  ℕ, suc, ◌+◌, ◌-◌, ◌*◌, ◌^◌, ◌<◌, ◌≡◌, refl, ap, subst, inl, inr, Bool, List, [], ◌∷◌, none, some,
  arith, length, Bool-cases, Option-cases, leb, leb→le, ℤ, ok, stop, undefined, first_ok,
}
use why.ArrayList.Entries.{lookup, remove, length-remove-lt, length-remove-le}
use why.ArrayList.Refine.{list_lookup-Holds, list_remove-Holds}
use why.Request.{Request}
use why.Proc.{Proc}
use why.Server.{Server, Client}
use why.Server.Messages.{int_text, finished_text, queue_write, send_msg_to_client}
use why.Server.Jobs.{Waited, exit_code, is_timeout, handle_child, handle_child_events}
use why.Server.Limits.{send_msg_to_client-fits, length-finished_text}
use why.Server.View.{IsGood, Keeps, Told-Keeps, queue_write-IsGood}
use why.Server.Room.{IsGood-weaken, IsGood-processes}
use why.Server.Reaped.{handle_child-gone}
use why.Server.Invariant.{AreNamed, AreNamed-lookup, AreNamed-remove, HasRoomFor}
use why.Server.Invariant.Jobs.{Served, Served-trans, same-Served, ok_unique}

-- A message that fits in the room allocated for it is short.
pub send_msg_to_client-IsGood :
    (s s' : Server) (fd : ℤ) (c : Client) (id : List ℕ) (exitcode : ℕ) (cpu_time : List ℕ)
    (timeout : Bool) (outfile : List ℕ) (cs : List (ℤ × Client)) (ps : List (ℤ × Proc))
    (rs : List Request) (starts room : ℕ)
    → lookup fd cs ≡ some c
    → length id + length outfile < 2 ^ 31 - 100
    → IsGood s cs ps rs starts (suc room)
    → send_msg_to_client s fd id exitcode cpu_time timeout outfile ≡ ok s'
    → IsGood s' cs ps rs starts room × Keeps s.buffers s'.buffers
send_msg_to_client-IsGood s s' fd c id exitcode cpu_time timeout outfile cs ps rs starts room found
      short g ran =
    let msg = finished_text id exitcode cpu_time timeout outfile in
    let fits = send_msg_to_client-fits s fd id exitcode cpu_time timeout outfile in
    elim (Bool-cases (leb (length (int_text exitcode) + length cpu_time) 22)) [
      | inl low ↦
          let few = leb→le (length (int_text exitcode) + length cpu_time) 22 low in
          let l = length-finished_text id exitcode cpu_time timeout outfile in
          let (bufs, poll, e, told, g') =
            queue_write-IsGood s fd c msg cs ps rs starts room found (omega (arith, l, few)) g in
          let t : Server = record s { buffers = bufs; poll = poll } in
          let same : t ≡ s' =
            ok_unique (queue_write s fd msg) t s' e (let r = rw (fits, low) at ran in r) in
          subst (λ u. IsGood u cs ps rs starts room × Keeps s.buffers u.buffers) same
            (g', Told-Keeps s.buffers bufs fd msg told)
      | inr high ↦ absurd (let r = rw (fits, high) at ran in cc)
    ]

module _ (s s' : Server) (w : Waited) (cs : List (ℤ × Client)) (ps : List (ℤ × Proc))
    (rs : List Request) (n : ℕ) (named : AreNamed ps) (g : HasRoomFor s cs ps rs n) where
  room : ℕ → ℕ
  room left = 2 * length rs + left + 2 * n

  ended :
      (p : Proc)
      → lookup w.pid ps ≡ some p
      → IsGood s' cs (remove w.pid ps) rs (length rs + n) (room (length (remove w.pid ps)))
      → Keeps s.buffers s'.buffers
      → (d : Served s s' cs n) × (d.procs ≡ remove w.pid ps)
  unfolding room
  ended p found good keeps = (
    record {
      procs = remove w.pid ps;
      queue = rs;
      good = good;
      named = AreNamed-remove w.pid ps named;
      keeps = keeps;
    },
    refl,
  )

  unknown_child : lookup w.pid ps ≡ none → handle_child s w ≡ stop undefined
  unfolding handle_child
  unknown_child unknown =
      let (l, e, h) = list_remove-Holds s.processes w.pid ps g.procs in
      rw (list_lookup-Holds s.processes w.pid ps g.procs, unknown, e)

  g₁ :
      {p : Proc}
      → lookup w.pid ps ≡ some p
      → IsGood s cs ps rs (length rs + n) (suc (room (length (remove w.pid ps))))
  unfolding room
  g₁ {p} found =
      IsGood-weaken s cs ps rs _ _ _ _ (omega arith)
        (omega (arith, length-remove-lt w.pid p ps found)) g

  gone_child :
      (p : Proc)
      → lookup w.pid ps ≡ some p
      → lookup p.client_key cs ≡ none
      → handle_child s w ≡ ok s'
      → (d : Served s s' cs n) × (d.procs ≡ remove w.pid ps)
  unfolding room
  gone_child p found gone ran =
      let (t, e, same, good) =
        handle_child-gone s w cs ps rs (length rs + n) (room (length (remove w.pid ps))) (g₁ found)
          p found gone in
      let u = ok_unique (handle_child s w) t s' e ran in
      ended p found
        (subst
          (λ t. IsGood t cs (remove w.pid ps) rs (length rs + n) (room (length (remove w.pid ps))))
          u good)
        (subst (λ t. Keeps s.buffers t.buffers) u (λ k. ap (λ b. (b k).readbuf) same))

  told_child :
      (p : Proc) (c : Client)
      → lookup w.pid ps ≡ some p
      → lookup p.client_key cs ≡ some c
      → handle_child s w ≡ ok s'
      → (d : Served s s' cs n) × (d.procs ≡ remove w.pid ps)
  unfolding handle_child room
  told_child p c found client ran =
      let (l, e, h) = list_remove-Holds s.processes w.pid ps g.procs in
      let s₁ : Server = record s { processes = l } in
      let same = (g.buffers p.client_key c client).0 in
      let ran₁ =
        rw
          (
            list_lookup-Holds s.processes w.pid ps g.procs,
            found,
            e,
            list_lookup-Holds s.clients p.client_key cs g.clients,
            client,
            same,
          )
          at ran in
      let (good, keeps) =
        send_msg_to_client-IsGood s₁ s' p.client_key c p.task_id (exit_code w.status) w.cpu_time
          (is_timeout w.status) p.outfile cs (remove w.pid ps) rs (length rs + n)
          (room (length (remove w.pid ps))) client (AreNamed-lookup w.pid p ps named found)
          (IsGood-processes s l cs ps (remove w.pid ps) rs _ _ h (length-remove-le w.pid ps)
            (g₁ found))
          ran₁ in
      ended p found good keeps

  pub handle_child-Served :
      handle_child s w ≡ ok s' → (d : Served s s' cs n) × (d.procs ≡ remove w.pid ps)
  handle_child-Served ran = elim (Option-cases (lookup w.pid ps)) [
    | inl unknown ↦ absurd (let e = unknown_child unknown in cc)
    | inr (p, found) ↦ elim (Option-cases (lookup p.client_key cs)) [
      | inl gone ↦ gone_child p found gone ran
      | inr (c, client) ↦ told_child p c found client ran
    ]
  ]

pub handle_child_events-Served :
    (s s' : Server) (ws : List Waited) (cs : List (ℤ × Client)) (ps : List (ℤ × Proc))
    (rs : List Request) (n : ℕ)
    → AreNamed ps
    → HasRoomFor s cs ps rs n
    → handle_child_events s ws ≡ ok s'
    → Served s s' cs n
unfolding handle_child_events
handle_child_events-Served s s' [] cs ps rs n named g ran = same-Served s s' cs ps rs n named g (cc)
handle_child_events-Served s s' (w ∷ ws) cs ps rs n named g ran =
    let (t, ran₁, ran₂) = first_ok (handle_child s w) _ ran in
    let (d, _) = handle_child-Served s t w cs ps rs n named g ran₁ in
    let f = handle_child_events-Served t s' ws cs d.procs d.queue n d.named d.good ran₂ in
    Served-trans s t s' cs n n d f
