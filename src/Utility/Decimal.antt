-- ===== src/Utility/Decimal.antt =====
-- Decimal text of numbers: `%d`, `%u` and `%lld` of sprintf.
use reveldb.Prelude.{
  ℕ, zero, suc, ◌+◌, ◌-◌, ◌*◌, ◌/◌, ◌%◌, ◌<◌, ◌≡◌, refl, ap, ◌∙◌, ltb→lt, [], ◌∷◌, ◌++◌, Bytes,
  arith, ltb, leb, Bool, true, false, ◌&&◌, if◌then◌else◌, inl, inr, Bool-cases,
}
use mathlib.Core.List.{append_assoc}
use reveldb.Prelude.Int.{ℤ, pos, negsuc}

-- The digits of `n`, the most significant first; `n + 1` rounds are enough.
unfoldable pub digits : ℕ → ℕ → Bytes
digits zero n = []
digits (suc fuel) n =
    let front = digits fuel (n / 10) in
    if ltb n 10 then (48 + n) ∷ [] else front ++ (48 + n % 10) ∷ []

unfoldable pub decimal : ℕ → Bytes
unfolding digits
decimal n = digits (n + 1) n

-- sprintf("%lld")
unfoldable pub print_ℤ : ℤ → Bytes
unfolding decimal
print_ℤ (pos n) = decimal n
print_ℤ (negsuc n) = b'-' ∷ decimal (n + 1)

abbrev pub is_digit : ℕ → Bool
is_digit c = leb 48 c && leb c 57

-- The number that digits read behind `acc` stand for.
unfoldable pub read_digits : ℕ → Bytes → ℕ × Bytes
read_digits acc [] = (acc, [])
read_digits acc (c ∷ cs) =
    let rest = read_digits (acc * 10 + (c - 48)) cs in if is_digit c then rest else (acc, c ∷ cs)

-- Text that does not go on with a digit.
abbrev pub NoDigit : Bytes → Type 0
NoDigit [] = Unit {0}
NoDigit (c ∷ cs) = is_digit c ≡ false

read_digits-cons :
    (acc d : ℕ) (t : Bytes) → d < 10 → read_digits acc ((48 + d) ∷ t) ≡ read_digits (acc * 10 + d) t
unfolding read_digits
read_digits-cons acc d t h =
    let digit : is_digit (48 + d) ≡ true = ground arith in
    let value : acc * 10 + (48 + d - 48) ≡ acc * 10 + d = omega arith in rw (digit, value)

-- Reading the digits of `n` leads to `n`, and goes on with what follows.
read_digits-digits :
    (fuel n : ℕ) (t : Bytes) → n < fuel → read_digits 0 (digits fuel n ++ t) ≡ read_digits n t
unfolding digits
read_digits-digits zero n t h = absurd (omega arith)
read_digits-digits (suc fuel) n t h = elim (Bool-cases (ltb n 10)) [
  | inl one ↦
      rw one (read_digits-cons 0 n t (ltb→lt n 10 one) ∙ ap (λ m. read_digits m t) (omega arith))
  | inr more ↦
      rw (more, append_assoc)
        (read_digits-digits fuel (n / 10) ((48 + n % 10) ∷ t) (ground arith)
          ∙ read_digits-cons (n / 10) (n % 10) t (omega arith)
          ∙ ap (λ m. read_digits m t) (omega arith))
]

-- Printing and reading a number are inverse, whatever follows that is no digit.
pub read_digits-decimal : (n : ℕ) (t : Bytes) → NoDigit t → read_digits 0 (decimal n ++ t) ≡ (n, t)
unfolding decimal
read_digits-decimal n [] h =
    read_digits-digits (n + 1) n [] (omega arith) ∙ unfold read_digits in refl
read_digits-decimal n (c ∷ cs) h =
    read_digits-digits (n + 1) n (c ∷ cs) (omega arith) ∙ (unfold read_digits in rw h)
