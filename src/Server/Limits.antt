-- ===== src/Server/Limits.antt =====
-- Does a message fit in the room that `send_msg_to_client` allocates for it?
use why.Base.{
  ℕ, zero, suc, ◌+◌, ◌/◌, ◌%◌, ◌≤◌, ◌<◌, ◌≡◌, refl, ap, ◌∙◌, ◌⊎◌, inl, inr, Bool, true, false, [],
  ◌∷◌, ◌++◌, arith, length, length-append, leb, if◌then◌else◌, le→leb, ℤ, Outcome, stop, exits,
}
use why.Text.{Str, codes}
use why.Server.{Server}
use why.Server.Messages.{
  decimal, int_text, finished_text, finished_len, queue_write, send_msg_to_client,
}

length-flag : (timeout : Bool) → length (if timeout then codes "1" else codes "0") ≡ 1
length-flag true = refl
length-flag false = refl

-- The text has eight characters of its own.
pub length-finished_text :
    (id : Str) (exitcode : ℕ) (cpu_time : Str) (timeout : Bool) (outfile : Str)
    → length (finished_text id exitcode cpu_time timeout outfile)
      ≡ length id + length (int_text exitcode) + length cpu_time + length outfile + 8
length-finished_text id exitcode cpu_time timeout outfile = omega (
  arith,
  length-append id (codes ";" ++ tail₁),
  length-append (int_text exitcode) (codes ";" ++ tail₂),
  length-append cpu_time (codes ";" ++ tail₃),
  length-append flag (codes ";" ++ (outfile ++ (10 ∷ []))),
  length-flag timeout,
  length-append outfile (10 ∷ []),
)
  where
    flag : Str
    flag = if timeout then codes "1" else codes "0"

    tail₃ : Str
    tail₃ = flag ++ (codes ";" ++ (outfile ++ (10 ∷ [])))

    tail₂ : Str
    tail₂ = cpu_time ++ (codes ";" ++ tail₃)

    tail₁ : Str
    tail₁ = int_text exitcode ++ (codes ";" ++ tail₂)

pub send_msg_to_client-fits :
    (s : Server) (fd : ℤ) (id : Str) (exitcode : ℕ) (cpu_time : Str) (timeout : Bool)
    (outfile : Str)
    → send_msg_to_client s fd id exitcode cpu_time timeout outfile ≡ (
        if leb (length (int_text exitcode) + length cpu_time) 22
        then queue_write s fd (finished_text id exitcode cpu_time timeout outfile)
        else stop (exits 1))
unfolding send_msg_to_client
send_msg_to_client-fits s fd id exitcode cpu_time timeout outfile =
    flip
      (leb (finished_len id outfile) (length (finished_text id exitcode cpu_time timeout outfile)))
      (leb (length (int_text exitcode) + length cpu_time) 22)
      (queue_write s fd (finished_text id exitcode cpu_time timeout outfile)) same
  where
    same :
        (leb (length (int_text exitcode) + length cpu_time) 22 ≡ true)
          × (leb
                (finished_len id outfile)
                (length (finished_text id exitcode cpu_time timeout outfile))
              ≡ false)
        ⊎ (leb (length (int_text exitcode) + length cpu_time) 22 ≡ false)
          × (leb
                (finished_len id outfile)
                (length (finished_text id exitcode cpu_time timeout outfile))
              ≡ true)
    same = ground (arith, length-finished_text id exitcode cpu_time timeout outfile)

    flip :
        (a b : Bool) (m : Outcome Server)
        → ((b ≡ true) × (a ≡ false)) ⊎ ((b ≡ false) × (a ≡ true))
        → (if a then stop (exits 1) else m) ≡ (if b then m else stop (exits 1))
    flip a b m (inl (e, e')) = rw (e, e')
    flip a b m (inr (e, e')) = rw (e, e')

-- One digit more than the front has.
length-decimal : (k n : ℕ) → length (decimal (suc k) n) ≤ length (decimal k (n / 10)) + 1
unfolding decimal
length-decimal k n = ground (arith, length-append (decimal k (n / 10)) ((48 + n % 10) ∷ []))

-- At most as many digits as there are rounds.
pub length-decimal-le : (k n : ℕ) → length (decimal k n) ≤ k
length-decimal-le zero n = unfold decimal in omega arith
length-decimal-le (suc k) n = omega (arith, length-decimal k n, length-decimal-le k (n / 10))

decimal_one : (k n : ℕ) → n < 10 → length (decimal k n) ≤ 1
unfolding decimal
decimal_one zero n h = omega arith
decimal_one (suc k) n h = ground arith

decimal_two : (k n : ℕ) → n < 100 → length (decimal k n) ≤ 2
decimal_two zero n h = unfold decimal in omega arith
decimal_two (suc k) n h = omega (arith, length-decimal k n, decimal_one k (n / 10) (omega arith))

pub decimal_three : (k n : ℕ) → n < 1000 → length (decimal k n) ≤ 3
decimal_three zero n h = unfold decimal in omega arith
decimal_three (suc k) n h = omega (arith, length-decimal k n, decimal_two k (n / 10) (omega arith))

-- For an exit code or signal below 1000, and a time of at most 19 characters (twelve digits before
-- the point), the message always fits, whatever the id and the file name are.
pub send_msg_to_client-queue_write :
    (s : Server) (fd : ℤ) (id : Str) (exitcode : ℕ) (cpu_time : Str) (timeout : Bool)
    (outfile : Str)
    → exitcode < 1000
    → length cpu_time ≤ 19
    → send_msg_to_client s fd id exitcode cpu_time timeout outfile
      ≡ queue_write s fd (finished_text id exitcode cpu_time timeout outfile)
send_msg_to_client-queue_write s fd id exitcode cpu_time timeout outfile small short =
    send_msg_to_client-fits s fd id exitcode cpu_time timeout outfile
    ∙ ap
        (λ b.
          if b
          then queue_write s fd (finished_text id exitcode cpu_time timeout outfile)
          else stop (exits 1))
        fits
  where
    fits : leb (length (int_text exitcode) + length cpu_time) 22 ≡ true
    fits = le→leb _ _ (omega (arith, decimal_three 10 exitcode small))
