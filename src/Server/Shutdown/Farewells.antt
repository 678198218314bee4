-- ===== src/Server/Shutdown/Farewells.antt =====
-- What the server leaves behind when it is stopped.
use native.Mathlib.Numerals.{add-one}
use why.Base.{
  ℕ, ◌+◌, ◌≡◌, refl, ap, ◌∙◌, List, [], ◌∷◌, map, none, arith, length, drop, false, ℤ, minus_one,
  ◌==ℤ◌, ok,
}
use why.Base.Memory.{Block}
use why.Base.Starts.{Starts, Starts-load, Starts-drop}
use why.ArrayList.{list_length}
use why.Request.{Request}
use why.Proc.{Proc}
use why.Proc.Refine.{kill_all_processes-map}
use why.Server.{Server, Client}
use why.Server.Shutdown.{close_from, shutdown_with_msg, sigterm_handler}
use why.Server.View.{IsGood}

close_from-map :
    (b : Block Client) (i : ℕ) (cs : List Client)
    → Starts (drop i b) cs
    → close_from b (length cs) i ≡ ok (map (λ c. c.fd) cs)
unfolding close_from
close_from-map b i [] s = refl
close_from-map b i (c ∷ cs) s =
    rw (Starts-load b i c cs s, close_from-map b (i + 1) cs (rw add-one (Starts-drop b i c cs s)))

length-values : (cs : List (ℤ × Client)) → length cs ≡ length (map (λ e. e.1) cs)
length-values [] = refl
length-values (c ∷ cs) = omega (arith, length-values cs)

-- The signals that end the server kill every process that it knows of and no other, in order, and
-- then close its socket and the descriptor of every client, and nothing else, before it exits. The
-- handler runs to its end.
pub sigterm_handler-all :
    (s : Server) (server_sock : ℤ) (cs : List (ℤ × Client)) (ps : List (ℤ × Proc))
    (rs : List Request) (starts room : ℕ)
    → (server_sock ==ℤ minus_one) ≡ false
    → IsGood s cs ps rs starts room
    → sigterm_handler s server_sock
      ≡ ok (record {
        killed = map (λ p. p.id) (map (λ e. e.1) ps);
        unlinked = none;
        closed = server_sock ∷ map (λ c. c.fd) (map (λ e. e.1) cs);
      })
unfolding sigterm_handler shutdown_with_msg list_length
sigterm_handler-all s server_sock cs ps rs starts room alive g =
    let count : s.clients.len ≡ length (map (λ e. e.1) cs) =
      omega (arith, g.clients.count, length-values cs) in
    let closes =
      ap (λ n. close_from s.clients.datum n 0) count
      ∙ close_from-map s.clients.datum 0 (map (λ e. e.1) cs) g.clients.data' in
    rw (kill_all_processes-map s.processes ps g.procs, closes, alive)
