-- ===== src/Text/Laws.antt =====
-- Laws of the string functions.
use why.Base.{ℕ, zero, suc, ◌≤◌, ◌<◌, ◌≡◌, ◌↔◌, refl, true, [], ◌∷◌, arith, length}
use why.Text.{Str, c_string, str_eq, strncmp_eq}

pub str_eq_iff : (a b : Str) → (str_eq a b ≡ true) ↔ (a ≡ b)
unfolding str_eq
str_eq_iff [] [] = (λ h. refl, λ h. refl)
str_eq_iff [] (d ∷ ds) = (λ h. cc, λ h. cc)
str_eq_iff (c ∷ cs) [] = (λ h. cc, λ h. cc)
str_eq_iff (c ∷ cs) (d ∷ ds) =
    (λ h. ground (arith, str_eq_iff cs ds), λ h. ground (arith, str_eq_iff cs ds))

-- When more bytes than the first string has are compared, the whole strings are.
pub strncmp_eq-str_eq : (a b : Str) (n : ℕ) → length a < n → strncmp_eq a b n ≡ str_eq a b
unfolding strncmp_eq str_eq
strncmp_eq-str_eq a b zero h = elim h [ ]
strncmp_eq-str_eq [] [] (suc n) h = refl
strncmp_eq-str_eq [] (d ∷ ds) (suc n) h = refl
strncmp_eq-str_eq (c ∷ cs) [] (suc n) h = refl
strncmp_eq-str_eq (c ∷ cs) (d ∷ ds) (suc n) h = rw (strncmp_eq-str_eq cs ds n (omega arith))

pub length-c_string : (s : Str) → length (c_string s) ≤ length s
unfolding c_string
length-c_string [] = omega arith
length-c_string (c ∷ cs) = ground (arith, length-c_string cs)
