-- ===== src/Server/Invariant/Handled.antt =====
-- How the handling of an entry may end.
use why.Base.{
  ℕ, suc, ◌+◌, ◌-◌, ◌*◌, ◌^◌, ◌≤◌, ◌<◌, ◌≡◌, refl, ap, ◌∙◌, sym, subst, ◌⊎◌, inl, inr, true, false,
  ◌&&◌, List, [], ◌∷◌, ◌++◌, Option, none, some, arith, length, length-append, get_elem?, ltb,
  Bool-cases, ℤ, minus_one, ◌==ℤ◌, ◌==◌, if◌then◌else◌, Outcome, ok, stop, first_ok,
}
use why.Text.{Str}
use why.ArrayList.Entries.{lookup, remove}
use why.ReadBuf.Refine.{Holds, have_taken-Holds}
use why.WriteBuf.Refine.{Sending}
use why.Poll.{PollFd, poll_list_lookup, only_pollin, add_to_poll_list, set_pollout}
use why.ArrayList.{list_append}
use why.ReadBuf.{init_readbuf}
use why.WriteBuf.{init_writebuf, prepare_write, have_written, has_write_data}
use why.Poll.Refine.{first_fd, poll_list_lookup-Holds}
use why.Poll.Watch.{first_fd-count}
use why.Server.{Server, System, Client, Effect, killed, closed, update}
use why.Server.Clients.{
  read_once, server_accept_client, close_client, read_on_client, write_to_client,
}
use why.Server.Framing.{each_line, split_lines, take_handled}
use why.Server.Received.{read_on_client-lines}
use why.Server.Unread.{lines_of, lines_of-append, lines-AreWithin}
use why.Server.Room.{IsGood-weaken}
use why.Server.Accepted.{server_accept_client-new}
use why.Server.Closed.{own_processes, close_client-forgets, close_client-last}
use why.Server.Written.{write_to_client-sends, write_to_client-failed}
use why.Server.Loop.{clients_accepted}
use why.Server.Invariant.{IsPosix, Invariant}
use why.Server.Invariant.Lines.{each_line-Served}
use why.Server.Invariant.Prepared.{readbufs-IsGood, all_writebufs, prepared, prepared-Invariant}
use why.Server.Invariant.Ending.{Ends, Goes-nowhere, Ends-then}
use why.Server.Invariant.Outcomes.{AreReadable, each_line-Ends}

-- What was done when the code returns.
abbrev effects_of : Outcome Server → List Effect
effects_of (ok s) = s.effects
effects_of (stop why) = []

pub close_client-Ends :
    (s : Server) (fd : ℤ) (c : Client) (n : ℕ) (v : Invariant s n)
    → lookup fd v.clients ≡ some c
    → Ends s (close_client s fd)
close_client-Ends s fd c n v found =
    let few : length v.queue < 2 ^ 30 = omega (arith, v.good.procs_room) in
    elim (Bool-cases (s.single_client && (length (remove fd v.clients) == 0))) [
      | inl last ↦
          inr (close_client-last s fd c v.clients v.procs v.queue _ _ found last few v.good)
      | inr stays_up ↦
          let (t, e, _, _, _, _, seen) =
            close_client-forgets s fd c v.clients v.procs v.queue _ _ found stays_up few v.good in
          inl (t, e, (killed (own_processes fd v.procs) ∷ closed fd ∷ [], seen, tt))
    ]

accept-effects :
    (s t : Server) (fd : ℤ) → server_accept_client s (some fd) ≡ ok t → t.effects ≡ s.effects
unfolding server_accept_client
accept-effects s t fd ran =
    let (r, _, ran₁) = first_ok (init_readbuf read_once) _ ran in
    let (w, _, ran₂) = first_ok (init_writebuf s.parallel) _ ran₁ in
    let (l, _, ran₃) = first_ok (list_append s.clients fd (record { fd = fd })) _ ran₂ in
    let (p, _, ran₄) = first_ok (add_to_poll_list s.poll fd only_pollin) _ ran₃ in
    sym (ap effects_of ran₄)

write-effects :
    (s t : Server) (fd : ℤ) (i : ℕ) (answer : Option ℕ)
    → write_to_client s fd i answer ≡ ok t
    → t.effects ≡ s.effects
unfolding write_to_client
write-effects s t fd i none ran =
    let (p, _, ran₁) = first_ok (prepare_write (s.buffers fd).writebuf) _ ran in
    let (l, _, ran₂) =
      first_ok (if has_write_data p.2 then ok s.poll else set_pollout s.poll (some i) false) _
        ran₁ in
    sym (ap effects_of ran₂)
write-effects s t fd i (some k) ran =
    let (p, _, ran₁) = first_ok (prepare_write (s.buffers fd).writebuf) _ ran in
    let (w, _, ran₂) = first_ok (have_written p.2 k) _ ran₁ in
    let (l, _, ran₃) =
      first_ok (if has_write_data w then ok s.poll else set_pollout s.poll (some i) false) _ ran₂ in
    sym (ap effects_of ran₃)

pub accept-Ends :
    (s : Server) (o : Option ℤ) (n : ℕ) (v : Invariant s (clients_accepted o + n))
    → ((fd : ℤ)
        → o ≡ some fd
        → ((minus_one ==ℤ fd) ≡ false) × (poll_list_lookup s.poll fd ≡ ok none))
    → Ends s (server_accept_client s o)
accept-Ends s none n v fresh = inr (unfold server_accept_client in refl)
accept-Ends s (some fd) n v fresh =
    let (alive, absent) = fresh fd refl in
    let g =
      IsGood-weaken s v.clients v.procs v.queue _ _ (suc (length v.queue + n))
        (2 * length v.queue + length v.procs + 2 * n) (omega arith) (omega arith) v.good in
    let nowhere : first_fd fd g.entries 0 ≡ none =
      (let e = poll_list_lookup-Holds s.poll fd g.entries g.poll in cc) in
    let (t, e, _, _, _, _, _, _) =
      server_accept_client-new s fd v.clients v.procs v.queue _ _ alive g
        (first_fd-count fd g.entries 0 nowhere) in
    inl (t, e, Goes-nowhere s t (accept-effects s t fd e))

-- A write that takes no more than what is left of the first message.
pub write-Ends :
    (s : Server) (fd : ℤ) (c : Client) (i n : ℕ) (x : PollFd) (answer : Option ℕ)
    (v : Invariant s n) (m : Str) (ms : List Str)
    → lookup fd v.clients ≡ some c
    → get_elem? v.good.entries i ≡ some x
    → (x.fd ==ℤ fd) ≡ true
    → (s.buffers fd).writebuf.is_writing ≡ false
    → Sending (s.buffers fd).writebuf (m ∷ ms)
    → ((k : ℕ) → answer ≡ some k → k ≤ length m)
    → Ends s (write_to_client s fd i answer)
write-Ends s fd c i n x none v m ms found at own still sends few =
    let (t, e, _) = write_to_client-failed s fd i m ms still sends in
    inl (t, e, Goes-nowhere s t (write-effects s t fd i none e))
write-Ends s fd c i n x (some k) v m ms found at own still sends few =
    let (t, e, _, _, _, _, _, _) =
      write_to_client-sends s fd c i k x m ms v.clients v.procs v.queue _ _ found still sends
        (few k refl) v.good at own in
    inl (t, e, Goes-nowhere s t (write-effects s t fd i (some k) e))

-- The lines that are handled are at least half of what the buffer holds, or there are none.
abbrev pub AreTaken : Str → Type 0
AreTaken all = let m = length all - length (split_lines all).1 in (m ≡ 0) ⊎ (length all ≤ 2 * m)

take_handled-Ends :
    (s : Server) (fd : ℤ) (all : Str)
    → Holds (s.buffers fd).readbuf all
    → AreTaken all
    → Ends s (take_handled fd (length all - length (split_lines all).1) s)
take_handled-Ends s fd all h (inl nothing) = inl (s, rw nothing, Goes-nowhere s s refl)
take_handled-Ends s fd all h (inr enough) =
    let m = length all - length (split_lines all).1 in
    elim (Bool-cases (ltb 0 m)) [
      | inl some_taken ↦
          let (b, e, _, _) = have_taken-Holds (s.buffers fd).readbuf m all (omega arith) enough h in
          let bufs = update s.buffers fd (record (s.buffers fd) { readbuf = b }) in
          let t : Server = record s { buffers = bufs } in
          inl (t, rw (some_taken, e), Goes-nowhere s t refl)
      | inr nothing ↦ inl (s, rw nothing, Goes-nowhere s s refl)
    ]

module _ (os : System) (posix : IsPosix os) (s : Server) (fd : ℤ) (c : Client) (n : ℕ) where
  -- Nothing, or the end of the file.
  pub read_nothing-Ends :
      (v : Invariant s n)
      → lookup fd v.clients ≡ some c
      → Ends s (read_on_client os s fd none) × Ends s (read_on_client os s fd (some []))
  unfolding read_on_client
  read_nothing-Ends v found =
      let (v', same) = prepared-Invariant s fd c n v found in
      (
        inl (prepared s fd, refl, Goes-nowhere s (prepared s fd) refl),
        close_client-Ends (prepared s fd) fd c n v' (ap (lookup fd) same ∙ found),
      )

  pub read_bytes-Ends :
      (b : ℕ) (bs : Str) (m : ℕ) (v : Invariant s m) (found : lookup fd v.clients ≡ some c)
      → length (b ∷ bs) + n ≤ m
      → length (b ∷ bs) ≤ read_once
      → AreReadable fd (split_lines ((v.receiving fd c found).part ++ (b ∷ bs))).0
      → AreTaken ((v.receiving fd c found).part ++ (b ∷ bs))
      → Ends s (read_on_client os s fd (some (b ∷ bs)))
  read_bytes-Ends b bs m v found enough few readable taken =
      let r = v.receiving fd c found in
      let all = r.part ++ (b ∷ bs) in
      let (bufs, held, low, own, others, e) =
        read_on_client-lines os s fd r.part b bs few r.low (omega (arith, r.short)) r.holds in
      let s₁ : Server = record s { buffers = bufs } in
      let l = length-append r.part (b ∷ bs) in
      let few_lines : lines_of all ≤ length (b ∷ bs) =
        omega (arith, lines_of-append r.part (b ∷ bs), ap (λ p. length p.0) r.unread) in
      let g =
        IsGood-weaken s₁ v.clients v.procs v.queue _ _ (length v.queue + (lines_of all + n))
          (2 * length v.queue + length v.procs + 2 * (lines_of all + n))
          (omega (arith, few_lines, enough)) (omega (arith, few_lines, enough))
          (readbufs-IsGood s bufs v.clients v.procs v.queue _ _ (all_writebufs s fd bufs own others)
            v.good) in
      subst (Ends s) (sym e) (
        Ends-then s (each_line os s₁ fd (split_lines all).0) _
          (each_line-Ends os posix fd c v.clients (split_lines all).0 s₁ (length all) v.procs
            v.queue n readable (omega (arith, l, r.short)) (lines-AreWithin all) found v.named g)
          (λ t ran.
            let d =
              each_line-Served os posix s₁ t fd (split_lines all).0 (length all) c v.clients v.procs
                v.queue n found v.named (omega (arith, l, r.short)) (lines-AreWithin all) g ran in
            take_handled-Ends t fd all (rw (d.keeps fd) held) taken))
