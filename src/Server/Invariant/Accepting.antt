-- ===== src/Server/Invariant/Accepting.antt =====
-- Accepting a client keeps the invariant.
use why.Base.{
  ℕ, suc, ◌+◌, ◌*◌, ◌≡◌, refl, ap, subst, inl, inr, false, [], ◌∷◌, ◌++◌, none, some, arith, length,
  Bool-cases, ℤ, minus_one, ◌==ℤ◌, ==ℤ_iff, ok,
}
use why.Poll.{poll_list_lookup}
use why.Poll.Refine.{first_fd, poll_list_lookup-Holds}
use why.Poll.Watch.{first_fd-count}
use why.Server.{Server, Client}
use why.Server.Clients.{server_accept_client}
use why.Server.Room.{IsGood-weaken}
use why.Server.Accepted.{server_accept_client-new, lookup-new}
use why.Server.Invariant.{Invariant, IsReceiving, IsReceiving-keeps}
use why.Server.Invariant.Jobs.{ok_unique}
use why.Server.Framing.{split_lines}

pub server_accept_client-Invariant :
    (s s' : Server) (fd : ℤ) (n : ℕ)
    → (minus_one ==ℤ fd) ≡ false
    → poll_list_lookup s.poll fd ≡ ok none
    → Invariant s (suc n)
    → server_accept_client s (some fd) ≡ ok s'
    → Invariant s' n
server_accept_client-Invariant s s' fd n alive absent v ran =
    let c : Client = record { fd = fd } in
    let g =
      IsGood-weaken s v.clients v.procs v.queue _ _ (suc (length v.queue + n))
        (2 * length v.queue + length v.procs + 2 * n) (omega arith) (omega arith) v.good in
    let nowhere : first_fd fd g.entries 0 ≡ none =
      (let e = poll_list_lookup-Holds s.poll fd g.entries g.poll in cc) in
    let (t, e, good, _, held, size, sends, others) =
      server_accept_client-new s fd v.clients v.procs v.queue _ _ alive g
        (first_fd-count fd g.entries 0 nowhere) in
    subst (λ t. Invariant t n) (ok_unique (server_accept_client s (some fd)) t s' e ran)
      (record {
        clients = v.clients ++ ((fd, c) ∷ []);
        procs = v.procs;
        queue = v.queue;
        good = good;
        named = v.named;
        receiving = λ k c' here. elim (Bool-cases (fd ==ℤ k)) [
          | inl mine ↦
              subst (λ j. IsReceiving t j n) ((==ℤ_iff fd k).0 mine)
                (record {
                  part = [];
                  holds = held;
                  unread = unfold split_lines in refl;
                  short = omega (arith, v.good.clients_room);
                  low = omega (arith, size);
                })
          | inr other ↦
              IsReceiving-keeps s t k (suc n) n (omega arith) (ap (λ b. b.readbuf) (others k other))
                (v.receiving k c' (lookup-new fd k c' c v.clients here other))
        ];
      })
