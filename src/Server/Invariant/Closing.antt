-- ===== src/Server/Invariant/Closing.antt =====
-- A client that leaves keeps the invariant.
use why.Base.{
  ℕ, ◌^◌, ◌<◌, ◌≡◌, ap, subst, inl, inr, ◌&&◌, filter, length-filter-le, none, some, arith, length,
  ◌==◌, Bool-cases, ℤ, ok,
}
use why.ArrayList.Entries.{lookup, remove}
use why.Request.Pending.{stays}
use why.Server.{Server, Client}
use why.Server.Clients.{close_client}
use why.Server.Room.{IsGood-weaken}
use why.Server.Closed.{close_client-forgets, close_client-last, still_there}
use why.Server.Invariant.{Invariant, IsReceiving-keeps}
use why.Server.Invariant.Jobs.{ok_unique}

pub close_client-Invariant :
    (s s' : Server) (fd : ℤ) (c : Client) (n : ℕ) (v : Invariant s n)
    → lookup fd v.clients ≡ some c
    → close_client s fd ≡ ok s'
    → Invariant s' n
close_client-Invariant s s' fd c n v found ran =
    let few : length v.queue < 2 ^ 30 = omega (arith, v.good.procs_room) in
    elim (Bool-cases (s.single_client && (length (remove fd v.clients) == 0))) [
      | inl last ↦ absurd (
          let e = close_client-last s fd c v.clients v.procs v.queue _ _ found last few v.good in
          cc)
      | inr stays_up ↦
          let l = length-filter-le (stays fd none) v.queue in
          let (t, e, good, _, same, _, _) =
            close_client-forgets s fd c v.clients v.procs v.queue _ _ found stays_up few v.good in
          subst (λ t. Invariant t n) (ok_unique (close_client s fd) t s' e ran)
            (record {
              clients = remove fd v.clients;
              procs = v.procs;
              queue = filter (stays fd none) v.queue;
              good =
                  IsGood-weaken t (remove fd v.clients) v.procs (filter (stays fd none) v.queue) _ _
                    _ _ (omega (arith, l)) (omega (arith, l)) good;
              named = v.named;
              receiving = λ k c' here.
                  IsReceiving-keeps s t k n n (omega arith) (ap (λ b. (b k).readbuf) same)
                    (v.receiving k c' (still_there fd k c' v.clients v.good.set_up.distinct here));
            })
    ]
