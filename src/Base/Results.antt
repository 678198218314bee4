-- ===== src/Base/Results.antt =====
-- How a piece of C code ends: it returns a value, or the process stops.
use mathlib.Core.Path.{◌≡◌, refl}
use mathlib.Core.Bool.{Bool, true, false}
use Prim.Native.Nat.{ℕ}

-- `aborts`: an `assert` fails. `undefined`: the C standard gives the code no meaning (an access out
-- of bounds or of an unset cell, an overlapping `memcpy`, an overflow of `int`). `exits`: `exit`.
pub data Stop : Type 0 where
  aborts undefined : Stop
  exits : ℕ → Stop

pub data Outcome {ℓ} (V : Type ℓ) : Type ℓ where
  stop : Stop → Outcome V
  ok : V → Outcome V

module _ {ℓ κ} {V : Type ℓ} {W : Type κ} where
  infixl 5 ◌>>=◌
  -- What follows runs only if the code before it returned.
  abbrev pub ◌>>=◌ : Outcome V → (V → Outcome W) → Outcome W
  stop why >>= next = stop why
  ok v >>= next = next v

  -- If the whole returned, so did its first part.
  pub first_ok :
      (before : Outcome V) (next : V → Outcome W) {w : W}
      → (before >>= next) ≡ ok w
      → (v : V) × (before ≡ ok v) × (next v ≡ ok w)
  first_ok (stop why) next ran = cc
  first_ok (ok v) next ran = (v, refl, ran)

  -- The code that follows may be replaced by code that does the same.
  pub bind_ext :
      (before : Outcome V) (next other : V → Outcome W)
      → ((v : V) → next v ≡ other v)
      → (before >>= next) ≡ (before >>= other)
  bind_ext (stop why) next other same = refl
  bind_ext (ok v) next other same = same v

pub bind_assoc {ℓ κ μ} :
    {U : Type ℓ} {V : Type κ} {W : Type μ} (before : Outcome U) (next : U → Outcome V)
    (last : V → Outcome W)
    → ((before >>= next) >>= last) ≡ (before >>= λ u. next u >>= last)
bind_assoc (stop why) next last = refl
bind_assoc (ok u) next last = refl

infixl 5 ◌>>◌
abbrev pub ◌>>◌ {ℓ} : {W : Type ℓ} → Outcome (Unit {0}) → Outcome W → Outcome W
check >> next = check >>= λ _. next

-- `assert (b)`
abbrev pub assert : Bool → Outcome (Unit {0})
assert true = ok tt
assert false = stop aborts

-- What the C standard requires of the code at this point.
abbrev pub require : Bool → Outcome (Unit {0})
require true = ok tt
require false = stop undefined
