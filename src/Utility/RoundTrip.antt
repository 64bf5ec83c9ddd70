-- ===== src/Utility/RoundTrip.antt =====
-- Numbers that the server prints are read back by the parsers of src/utility.c.
use reveldb.Prelude.{
  ℕ, zero, suc, ◌+◌, ◌-◌, ◌*◌, ◌/◌, ◌%◌, ◌^◌, ◌≤◌, ◌<◌, ◌≡◌, refl, ap, ◌∙◌, [], ◌∷◌, ◌++◌, Bytes,
  arith, ltb, ◌==◌, some, Bool, true, false, length, length-append, inl, inr, Bool-cases, take,
  strlen, strlen-NoNul, NoNul, NoNul-append,
}
use mathlib.Core.Option
use mathlib.Core.List.{append-nil}
use native.Mathlib.Nat.{pow-suc}
use reveldb.Prelude.Int.{ℤ, pos, negsuc}
use reveldb.TString.Memory.{take_all}
use reveldb.Utility.Decimal.{digits, decimal, print_ℤ, is_digit, read_digits-decimal}
use reveldb.Utility.Parse.{
  scan, scan_sign, scan_digits, skip_spaces, max_long, safe_strtoll, safe_strtoul, safe_strntoll,
  answer, is_space, to_long, to_ulong, has_minus, starts_digit,
}

-- Text that begins with a digit.
StartsDigit : Bytes → Type 0
StartsDigit s = (c : ℕ) × (cs : Bytes) × (s ≡ c ∷ cs) × (is_digit c ≡ true)

StartsDigit-digits : (fuel n : ℕ) → n < fuel → StartsDigit (digits fuel n)
unfolding StartsDigit digits
StartsDigit-digits zero n h = absurd (omega arith)
StartsDigit-digits (suc fuel) n h = elim (Bool-cases (ltb n 10)) [
  | inl one ↦ (48 + n, [], rw one, ground arith)
  | inr more ↦
      let (c, cs, e, d) = StartsDigit-digits fuel (n / 10) (ground arith) in
      (c, cs ++ (48 + n % 10) ∷ [], rw (more, e), d)
]

decimal-StartsDigit : (n : ℕ) → StartsDigit (decimal n)
unfolding decimal
decimal-StartsDigit n = StartsDigit-digits (n + 1) n (omega arith)

NoNul-digits : (fuel n : ℕ) → NoNul (digits fuel n)
unfolding digits
NoNul-digits zero n = tt
NoNul-digits (suc fuel) n = elim (Bool-cases (ltb n 10)) [
  | inl one ↦ rw one (omega arith, tt)
  | inr more ↦ rw more (
      NoNul-append (digits fuel (n / 10)) ((48 + n % 10) ∷ []) (NoNul-digits fuel (n / 10))
        (omega arith, tt))
]

length-digits : (k fuel n : ℕ) → n < 10 ^ suc k → length (digits fuel n) ≤ suc k
unfolding digits
length-digits k zero n h = omega arith
length-digits zero (suc fuel) n h = let one : ltb n 10 ≡ true = ground arith in rw one (omega arith)
length-digits (suc k) (suc fuel) n h = elim (Bool-cases (ltb n 10)) [
  | inl one ↦ rw one (omega arith)
  | inr more ↦
      let e : 10 ^ suc (suc k) ≡ 10 * 10 ^ suc k = rw pow-suc (omega arith) in
      rw (more, length-append) (omega (arith, length-digits k fuel (n / 10) (omega (arith, e))))
]

-- A text of digits has no sign and no leading space.
scan-StartsDigit : (s : Bytes) → StartsDigit s → scan s ≡ scan_digits false s
unfolding scan scan_sign skip_spaces StartsDigit
scan-StartsDigit s (c, cs, e, d) =
    let not_space : is_space c ≡ false = ground arith in
    let no_minus : (c == b'-') ≡ false = ground arith in
    let no_plus : (c == b'+') ≡ false = ground arith in rw (e, not_space, no_minus, no_plus)

scan_digits-decimal :
    (negative : Bool) (n : ℕ)
    → scan_digits negative (decimal n)
      ≡ record { negative = negative; magnitude = n; endptr = []; converted = true }
unfolding scan_digits StartsDigit
scan_digits-decimal negative n =
    let (c, cs, e, d) = decimal-StartsDigit n in
    let first : starts_digit (decimal n) ≡ true = rw e d in
    let read = read_digits-decimal n [] tt in rw (first, rw append-nil at read)

scan-decimal :
    (n : ℕ)
    → scan (decimal n) ≡ record { negative = false; magnitude = n; endptr = []; converted = true }
scan-decimal n = scan-StartsDigit (decimal n) (decimal-StartsDigit n) ∙ scan_digits-decimal false n

scan-minus :
    (n : ℕ)
    → scan (b'-' ∷ decimal n)
      ≡ record { negative = true; magnitude = n; endptr = []; converted = true }
unfolding scan scan_sign skip_spaces
scan-minus n = scan_digits-decimal true n

-- The range of `long long`
abbrev pub InLong : ℤ → Type 0
InLong (pos n) = n ≤ max_long
InLong (negsuc n) = n ≤ max_long

-- Every `long long` that `sprintf("%lld")` prints is read back by `safe_strtoll`.
pub safe_strtoll-print_ℤ : (v : ℤ) → InLong v → safe_strtoll (print_ℤ v) ≡ some v
unfolding safe_strtoll print_ℤ to_long
safe_strtoll-print_ℤ (pos n) h = rw scan-decimal (ground arith)
safe_strtoll-print_ℤ (negsuc n) h = rw scan-minus (ground arith)

-- A printed `long long` has no NUL and fits the 64 bytes of the buffers.
print_ℤ-fits : (v : ℤ) → InLong v → NoNul (print_ℤ v) × (length (print_ℤ v) < 64)
unfolding print_ℤ decimal
print_ℤ-fits (pos n) h =
    (NoNul-digits (n + 1) n, omega (arith, length-digits 19 (n + 1) n (omega arith)))
print_ℤ-fits (negsuc n) h = (
  (omega arith, NoNul-digits (n + 1 + 1) (n + 1)),
  omega (arith, length-digits 19 (n + 1 + 1) (n + 1) (omega arith)),
)

-- Every printed `long long` is read back by `safe_strntoll` from a block of its length, without
-- a write past its buffer.
pub safe_strntoll-print_ℤ :
    (v : ℤ) → InLong v → safe_strntoll (print_ℤ v) (length (print_ℤ v)) ≡ answer (some v)
unfolding safe_strntoll
safe_strntoll-print_ℤ v h =
    let s = print_ℤ v in
    let (no_nul, short) = print_ℤ-fits v h in
    let all = strlen-NoNul s no_nul in
    let whole = take_all (strlen s) s (omega arith) in
    let copied : take (length s) (take (strlen s) s) ≡ s =
      ap (λ c. take (length s) c) whole ∙ take_all (length s) s (omega arith) in
    let fits : ltb (length s) 64 ≡ true = ground arith in
    rw (copied, fits, safe_strtoll-print_ℤ v h)

has_minus-append :
    (a b : Bytes) → has_minus a ≡ false → has_minus b ≡ false → has_minus (a ++ b) ≡ false
has_minus-append [] b h k = k
has_minus-append (c ∷ cs) b h k = ground (arith, has_minus-append cs b)

has_minus-digits : (fuel n : ℕ) → has_minus (digits fuel n) ≡ false
unfolding digits
has_minus-digits zero n = refl
has_minus-digits (suc fuel) n = elim (Bool-cases (ltb n 10)) [
  | inl one ↦ rw one (ground arith)
  | inr more ↦ rw more (
      has_minus-append (digits fuel (n / 10)) ((48 + n % 10) ∷ []) (has_minus-digits fuel (n / 10))
        (ground arith))
]

has_minus-decimal : (n : ℕ) → has_minus (decimal n) ≡ false
unfolding decimal
has_minus-decimal n = has_minus-digits (n + 1) n

-- `safe_strtoul` accepts the decimal text of every number below 2 ^ 64, and returns its 32 low
-- bits.
pub safe_strtoul-decimal : (n : ℕ) → n < 2 ^ 64 → safe_strtoul (decimal n) ≡ some (n % 2 ^ 32)
unfolding safe_strtoul to_ulong Option.bind
safe_strtoul-decimal n h =
    let fits : ltb (2 ^ 64 - 1) n ≡ false = ground arith in
    elim (Bool-cases (ltb max_long n)) [
      | inl large ↦ rw (scan-decimal, has_minus-decimal, fits, large)
      | inr small ↦ rw (scan-decimal, has_minus-decimal, fits, small)
    ]
