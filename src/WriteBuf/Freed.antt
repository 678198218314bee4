-- ===== src/WriteBuf/Freed.antt =====
-- `free_writebuf`.
use why.Base.{ℕ, ◌≡◌, refl, ap, ◌∙◌, List, [], ◌∷◌, length, ok}
use why.Queue.{Queue, free_queue}
use why.Queue.Refine.{
  queue_pop-Holds, queue_is_empty-nil, queue_is_empty-cons, Holds as Queued, Holds-length,
}
use why.WriteBuf.{WriteBuf, drain, free_writebuf}
use why.WriteBuf.Refine.{Sending, idle, busy}

drain-Holds :
    (q : Queue (List ℕ)) (ms : List (List ℕ))
    → Queued q ms
    → (q' : Queue (List ℕ)) × (drain (length ms) q ≡ ok q') × Queued q' []
unfolding drain
drain-Holds q [] h = (q, refl, h)
drain-Holds q (m ∷ ms) h =
    let (q₁, e, h₁) = queue_pop-Holds q m ms h in
    let (q₂, e', h₂) = drain-Holds q₁ ms h₁ in (q₂, rw (queue_is_empty-cons q m ms h, e) e', h₂)

freed : (b : WriteBuf) (ms : List (List ℕ)) → Queued b.writequeue ms → free_writebuf b ≡ ok tt
unfolding free_writebuf free_queue
freed b ms h =
    let (q, e, h') = drain-Holds b.writequeue ms h in
    rw
      (ap (λ n. drain n b.writequeue) (Holds-length b.writequeue ms h) ∙ e, queue_is_empty-nil q h')

-- A write buffer with messages on their way can be released.
pub free_writebuf-Sending :
    (b : WriteBuf) (ms : List (List ℕ)) → Sending b ms → free_writebuf b ≡ ok tt
free_writebuf-Sending b ms (idle no_message no_write h) = freed b [] h
free_writebuf-Sending b ms (busy s q c h short e) = freed b q h
