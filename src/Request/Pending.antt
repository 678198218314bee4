-- ===== src/Request/Pending.antt =====
-- The queue of the requests that wait: `init_request_queue` and `remove_from_queue`.
use why.Base.{
  ℕ, zero, suc, ◌+◌, ◌^◌, ◌<◌, ◌≡◌, refl, ap, subst, ◌∙◌, sym, Bool, true, not, ◌||◌, inl, inr,
  List, [], ◌∷◌, ◌++◌, append-nil, append_assoc, Option, none, some, arith, length, length-append,
  filter, length-filter-le, Bool-cases, if◌then◌else◌, ℤ, ◌==ℤ◌, Outcome, ok, ◌>>=◌, ◌>>◌, first_ok,
}
use why.Text.{Str, str_eq}
use why.Queue.{Queue, init_queue, queue_pop, queue_push, queue_is_empty, free_queue}
use why.Queue.Refine.{
  Holds, Holds-length, init_queue-Holds, queue_push-Holds, queue_pop-Holds, queue_is_empty-nil,
  queue_is_empty-cons,
}
use why.Request.{Request}

unfoldable pub init_request_queue : Outcome (Queue Request)
init_request_queue = init_queue 100

-- `id == NULL || strcmp (r_id, id) == 0`
abbrev pub id_matches : Option Str → Str → Bool
id_matches none r_id = true
id_matches (some id) r_id = str_eq r_id id

-- The test under which a request stays in the queue.
unfoldable pub stays : ℤ → Option Str → Request → Bool
stays key id r = not (r.key ==ℤ key) || not (id_matches id r.id)

-- A callback is applied to some state, such as the server's; none at all is `λ s r. ok s`.
module _ {S : Type 0} (callback : S → Request → Outcome S) where
  -- The first loop, with the number of rounds left.
  sort_out :
      (Request → Bool)
      → ℕ
      → Queue Request
      → Queue Request
      → S
      → Outcome (Queue Request × Queue Request × S)
  sort_out keep zero queue tmp s = ok (queue, tmp, s)
  sort_out keep (suc rounds) queue tmp s =
      let go = sort_out keep rounds in
      if queue_is_empty queue then ok (queue, tmp, s) else do
        p ← queue_pop queue
        if keep p.0
            then (do tmp' ← queue_push tmp p.0; go p.1 tmp' s)
            else (do s' ← callback s p.0; go p.1 tmp s')

  -- The second loop.
  put_back : ℕ → Queue Request → Queue Request → Outcome (Queue Request × Queue Request)
  put_back zero tmp queue = ok (tmp, queue)
  put_back (suc rounds) tmp queue =
      let go = put_back rounds in
      if queue_is_empty tmp
      then ok (tmp, queue)
      else do p ← queue_pop tmp; queue' ← queue_push queue p.0; go p.1 queue'

  unfoldable pub remove_from_queue :
      Queue Request → ℤ → Option Str → S → Outcome (Queue Request × S)
  unfolding sort_out put_back stays
  remove_from_queue queue key id s = do
    tmp ← init_queue queue.capacity
    sorted ← sort_out (stays key id) queue.len queue tmp s
    back ← put_back (sorted.1).len sorted.1 sorted.0
    free_queue back.0
    ok (back.1, sorted.2)

  -- The callback, applied to each of some requests in turn.
  unfoldable pub each : S → List Request → Outcome S
  each s [] = ok s
  each s (r ∷ rs) = do s' ← callback s r; each s' rs

  -- The first loop keeps what passes the test, in order, and calls back for the rest, in order.
  sort_out-Holds :
      (keep : Request → Bool) (queue tmp : Queue Request) (s s' : S) (xs ys : List Request)
      → length ys + length xs < 2 ^ 30
      → Holds queue xs
      → Holds tmp ys
      → each s (filter (λ r. not (keep r)) xs) ≡ ok s'
      → (queue' : Queue Request) × (tmp' : Queue Request) × (sort_out keep (length xs) queue tmp s
          ≡ ok (queue', tmp', s'))
        × Holds queue' []
        × Holds tmp' (ys ++ filter keep xs)
  unfolding sort_out each
  sort_out-Holds keep queue tmp s s' [] ys room h t e = (
    queue,
    tmp,
    ap (λ u. ok (queue, tmp, u)) (let e' : s ≡ s' = cc in e'),
    h,
    subst (Holds tmp) (sym (append-nil ys)) t,
  )
  sort_out-Holds keep queue tmp s s' (x ∷ xs) ys room h t e =
      let (q₁, e₁, h₁) = queue_pop-Holds queue x xs h in
      let nonempty = queue_is_empty-cons queue x xs h in
      elim (Bool-cases (keep x)) [
        | inl kept ↦
            let (t₁, e₂, ht) = queue_push-Holds tmp x ys (omega arith) t in
            let (q', t', e₃, hq, ht') =
              sort_out-Holds keep q₁ t₁ s s' xs (ys ++ (x ∷ []))
                (omega (arith, length-append ys (x ∷ []))) h₁ ht (rw kept at e) in
            (
              q',
              t',
              rw (nonempty, e₁, kept, e₂) e₃,
              hq,
              rw kept (subst (Holds t') (append_assoc ys (x ∷ []) (filter keep xs)) ht'),
            )
        | inr gone ↦
            let (s₁, c, e₂) = first_ok (callback s x) _ (rw gone at e) in
            let (q', t', e₃, hq, ht') =
              sort_out-Holds keep q₁ tmp s₁ s' xs ys (omega arith) h₁ t e₂ in
            (q', t', rw (nonempty, e₁, gone, c) e₃, hq, rw gone ht')
      ]

  put_back-Holds :
      (tmp queue : Queue Request) (xs ys : List Request)
      → length ys + length xs < 2 ^ 30
      → Holds tmp xs
      → Holds queue ys
      → (tmp' : Queue Request) × (queue' : Queue Request) × (put_back (length xs) tmp queue
          ≡ ok (tmp', queue'))
        × Holds tmp' []
        × Holds queue' (ys ++ xs)
  unfolding put_back
  put_back-Holds tmp queue [] ys room t h =
      (tmp, queue, refl, t, subst (Holds queue) (sym (append-nil ys)) h)
  put_back-Holds tmp queue (x ∷ xs) ys room t h =
      let (t₁, e₁, h₁) = queue_pop-Holds tmp x xs t in
      let (q₁, e₂, h₂) = queue_push-Holds queue x ys (omega arith) h in
      let (t', q', e₃, ht, hq) =
        put_back-Holds t₁ q₁ xs (ys ++ (x ∷ [])) (omega (arith, length-append ys (x ∷ []))) h₁ h₂ in
      (
        t',
        q',
        rw (queue_is_empty-cons tmp x xs t, e₁, e₂) e₃,
        ht,
        subst (Holds q') (append_assoc ys (x ∷ []) xs) hq,
      )

  -- Of the queued requests those of another client, or with another id if one is given, stay, in
  -- their order; the callback is made for all others, in their order, and nothing stops the loops.
  pub remove_from_queue-Holds :
      (queue : Queue Request) (key : ℤ) (id : Option Str) (s s' : S) (xs : List Request)
      → length xs < 2 ^ 30
      → Holds queue xs
      → each s (filter (λ r. not (stays key id r)) xs) ≡ ok s'
      → (queue' : Queue Request) × (remove_from_queue queue key id s ≡ ok (queue', s'))
        × Holds queue' (filter (stays key id) xs)
  unfolding remove_from_queue free_queue
  remove_from_queue-Holds queue key id s s' xs room h e =
      let kept = filter (stays key id) xs in
      let few = length-filter-le (stays key id) xs in
      let (tmp, e₀, t) = init_queue-Holds queue.capacity (omega (arith, h.valid)) h.valid.small in
      let (q₁, t₁, e₁, hq, ht) =
        sort_out-Holds (stays key id) queue tmp s s' xs [] (omega arith) h t e in
      let (t₂, q₂, e₂, ht₂, hq₂) = put_back-Holds t₁ q₁ kept [] (omega (arith, few)) ht hq in
      let e₃ = ap (λ n. sort_out (stays key id) n queue tmp s) (Holds-length queue xs h) ∙ e₁ in
      let e₄ = ap (λ n. put_back n t₁ q₁) (Holds-length t₁ kept ht) ∙ e₂ in
      (q₂, rw (e₀, e₃, e₄, queue_is_empty-nil t₂ ht₂), hq₂)
