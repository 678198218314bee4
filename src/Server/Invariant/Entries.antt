-- ===== src/Server/Invariant/Entries.antt =====
-- Handling an entry of the poll list keeps the invariant.
use why.Base.{
  ℕ, suc, ◌+◌, ◌*◌, ◌≤◌, ◌≡◌, refl, ap, ◌∙◌, subst, inl, inr, false, not, List, [], ◌∷◌, Option,
  none, some, arith, length, get_elem?, Bool-cases, Option-cases, ℤ, minus_one, ◌==ℤ◌, ==ℤ_refl, ok,
  first_ok, assert,
}
use why.Base.Memory.{load}
use why.Base.Starts.{Starts-get_elem?}
use why.ArrayList.Entries.{lookup}
use why.ArrayList.Refine.{list_lookup-Holds}
use why.Poll.{PollFd, some_event, poll_list_lookup}
use why.Server.{Server, System, Client}
use why.Server.Jobs.{handle_child_events}
use why.Server.Clients.{
  read_once, server_accept_client, close_client, read_on_client, write_to_client,
}
use why.Server.Loop.{
  Answers, Special, bytes_read, clients_accepted, arrived, serve_client, only_pollin_set,
  handle_entry,
}
use why.Server.Invariant.{IsPosix, Invariant, IsReceiving-keeps}
use why.Server.Invariant.Ended.{handle_child_events-Served}
use why.Server.Invariant.Closing.{close_client-Invariant}
use why.Server.Invariant.Reading.{read_end-Invariant, read_failed-Invariant, read_bytes-Invariant}
use why.Server.Invariant.Accepting.{server_accept_client-Invariant}
use why.Server.Invariant.Writing.{write_to_client-Invariant}
use why.Server.Room.{IsGood-weaken, entries_weaken}

-- What the system guarantees: `read` returns no more than it was asked for, and `accept` returns a
-- descriptor that is not open, so that it is not in the poll list.
pub record IsAllowed (s : Server) (a : Answers) : Type 0 where
  pub few : length (bytes_read a.read) ≤ read_once
  pub fresh :
      (fd : ℤ)
      → a.accepted ≡ some fd
      → ((minus_one ==ℤ fd) ≡ false) × (poll_list_lookup s.poll fd ≡ ok none)

-- With room for less.
pub Invariant-weaken :
    (s : Server) (n m : ℕ) (v : Invariant s n)
    → m ≤ n
    → (w : Invariant s m) × (w.clients ≡ v.clients) × (w.good.entries ≡ v.good.entries)
Invariant-weaken s n m v fewer = (
  record {
    clients = v.clients;
    procs = v.procs;
    queue = v.queue;
    good =
        IsGood-weaken s v.clients v.procs v.queue _ _ (length v.queue + m)
          (2 * length v.queue + length v.procs + 2 * m) (omega (arith, fewer))
          (omega (arith, fewer)) v.good;
    named = v.named;
    receiving = λ k c found. IsReceiving-keeps s s k n m fewer refl (v.receiving k c found);
  },
  refl,
  entries_weaken s v.clients v.procs v.queue _ _ _ _ _ _ v.good,
)

module _ (os : System) (posix : IsPosix os) (special : Special) (s s' : Server) (i : ℕ)
    (a : Answers) (n : ℕ) (v : Invariant s (arrived a + n)) (allowed : IsAllowed s a) where
  child-Invariant : handle_child_events s a.waited ≡ ok s' → Invariant s' n
  child-Invariant ran =
      let (w, _, _) = Invariant-weaken s (arrived a + n) n v (omega arith) in
      let d =
        handle_child_events-Served s s' a.waited w.clients w.procs w.queue n w.named w.good ran in
      record {
        clients = w.clients;
        procs = d.procs;
        queue = d.queue;
        good = d.good;
        named = d.named;
        receiving = λ k c found.
            IsReceiving-keeps s s' k n n (omega arith) (d.keeps k) (w.receiving k c found);
      }

  accept-Invariant :
      (o : Option ℤ) → a.accepted ≡ o → server_accept_client s o ≡ ok s' → Invariant s' n
  unfolding server_accept_client
  accept-Invariant none e ran = absurd (cc)
  accept-Invariant (some fd) e ran =
      let (alive, absent) = allowed.fresh fd e in
      let (w, _, _) =
        Invariant-weaken s (arrived a + n) (suc n) v (omega (arith, ap clients_accepted e)) in
      server_accept_client-Invariant s s' fd n alive absent w ran

  read-Invariant :
      (c : Client) (fd : ℤ) (o : Option (List ℕ))
      → lookup fd v.clients ≡ some c
      → a.read ≡ o
      → read_on_client os s fd o ≡ ok s'
      → Invariant s' n
  read-Invariant c fd none found e ran =
      let (w, same, _) = Invariant-weaken s (arrived a + n) n v (omega arith) in
      read_failed-Invariant os posix s s' fd c n w (ap (lookup fd) same ∙ found) ran
  read-Invariant c fd (some []) found e ran =
      let (w, same, _) = Invariant-weaken s (arrived a + n) n v (omega arith) in
      read_end-Invariant os posix s s' fd c n w (ap (lookup fd) same ∙ found) ran
  read-Invariant c fd (some (b ∷ bs)) found e ran =
      let l = ap (λ o. length (bytes_read o)) e in
      let (w, same, _) =
        Invariant-weaken s (arrived a + n) (length (b ∷ bs) + n) v (omega (arith, l)) in
      read_bytes-Invariant os posix s s' fd c n b bs w (ap (lookup fd) same ∙ found)
        (omega (arith, l, allowed.few)) ran

  module _ (x : PollFd) (at : get_elem? v.good.entries i ≡ some x) where
    write-Invariant :
        (c : Client)
        → lookup x.fd v.clients ≡ some c
        → write_to_client s x.fd i a.written ≡ ok s'
        → Invariant s' n
    write-Invariant c found ran =
        let (w, same, there) = Invariant-weaken s (arrived a + n) n v (omega arith) in
        write_to_client-Invariant s s' x.fd c i n x w (ap (lookup x.fd) same ∙ found)
          (ap (λ es. get_elem? es i) there ∙ at) (==ℤ_refl x.fd) a.written ran

    close-Invariant :
        (c : Client) → lookup x.fd v.clients ≡ some c → close_client s x.fd ≡ ok s' → Invariant s' n
    close-Invariant c found ran =
        let (w, same, _) = Invariant-weaken s (arrived a + n) n v (omega arith) in
        close_client-Invariant s s' x.fd c n w (ap (lookup x.fd) same ∙ found) ran

    client-Invariant :
        (c : Client)
        → lookup x.fd v.clients ≡ some c
        → serve_client os special s i x.revents a (some c) ≡ ok s'
        → Invariant s' n
    unfolding serve_client
    client-Invariant c found ran =
        let own : c.fd ≡ x.fd = (v.good.buffers x.fd c found).0 in
        elim (Bool-cases x.revents.pollerr) [
          | inl failed ↦ close-Invariant c found (rw (failed, own) at ran)
          | inr well ↦ elim (Bool-cases x.revents.pollout) [
            | inl out ↦ write-Invariant c found (rw (well, out, own) at ran)
            | inr silent ↦ elim (Bool-cases x.revents.pollin) [
              | inl arrives ↦
                  read-Invariant c x.fd a.read found refl (rw (well, silent, arrives, own) at ran)
              | inr nothing ↦
                  subst (λ t. Invariant t n) (let e = rw (well, silent, nothing) at ran in cc)
                    (Invariant-weaken s (arrived a + n) n v (omega arith)).0
            ]
          ]
        ]

    unchanged : s ≡ s' → Invariant s' n
    unchanged e =
        subst (λ t. Invariant t n) e (Invariant-weaken s (arrived a + n) n v (omega arith)).0

    pub entry-Invariant : handle_entry os special s i a ≡ ok s' → Invariant s' n
    unfolding handle_entry
    entry-Invariant ran =
        let loaded : load s.poll.poll_list i ≡ ok x =
          Starts-get_elem? s.poll.poll_list i x v.good.entries v.good.poll.listed at in
        let known = list_lookup-Holds s.clients x.fd v.clients v.good.clients in
        elim (Bool-cases (not (some_event x.revents))) [
          | inl quiet ↦ unchanged (let e = rw (loaded, quiet) at ran in cc)
          | inr ready ↦ elim (Bool-cases (x.fd ==ℤ special.cpipe)) [
            | inl pipe ↦ elim (Bool-cases a.drained) [
              | inl drained ↦ child-Invariant (rw (loaded, ready, pipe, drained) at ran)
              | inr failed ↦ absurd (let e = rw (loaded, ready, pipe, failed) at ran in cc)
            ]
            | inr no_pipe ↦ elim (Bool-cases (x.fd ==ℤ special.server_sock)) [
              | inl sock ↦
                  let (t, asserted, accepts) =
                    first_ok (assert (only_pollin_set x.revents)) _
                      (rw (loaded, ready, no_pipe, sock) at ran) in
                  accept-Invariant a.accepted refl accepts
              | inr no_sock ↦ elim (Option-cases (lookup x.fd v.clients)) [
                | inl gone ↦
                    unchanged
                      (let e = rw (loaded, ready, no_pipe, no_sock, known, gone) at ran in cc)
                | inr (c, found) ↦
                    client-Invariant c found
                      (rw (loaded, ready, no_pipe, no_sock, known, found) at ran)
              ]
            ]
          ]
        ]
