-- ===== src/Utility/Parse.antt =====
-- `safe_strtoll`, `safe_strntoll` and `safe_strtoul` of src/utility.c, on `strtoll` and `strtoul`
-- of the C library at base 10 with 64-bit `long`. A C string is its bytes; its end is the NUL.
use reveldb.Prelude.{
  ℕ, zero, suc, ◌+◌, ◌-◌, ◌%◌, ◌^◌, [], ◌∷◌, Bytes, ltb, leb, ◌==◌, Option, none, some, Bool, true,
  false, ◌&&◌, ◌||◌, if◌then◌else◌, length, take, strlen,
}
use mathlib.Core.Option
use reveldb.Prelude.Int.{ℤ, pos, negsuc}
use reveldb.Utility.Decimal.{is_digit, read_digits}

-- isspace(c) in the C locale
abbrev pub is_space : ℕ → Bool
is_space c = (c == 32) || (leb 9 c && leb c 13)

unfoldable pub skip_spaces : Bytes → Bytes
skip_spaces [] = []
skip_spaces (c ∷ cs) = let rest = skip_spaces cs in if is_space c then rest else c ∷ cs

-- What strtol and its kin see: the sign, the magnitude, what follows (`*endptr`), and whether any
-- digit was there.
pub record Scan : Type 0 where
  pub negative : Bool
  pub magnitude : ℕ
  pub endptr : Bytes
  pub converted : Bool

abbrev pub starts_digit : Bytes → Bool
starts_digit [] = false
starts_digit (c ∷ cs) = is_digit c

unfoldable pub scan_digits : Bool → Bytes → Scan
scan_digits negative s =
    let (n, rest) = read_digits 0 s in
    record { negative = negative; magnitude = n; endptr = rest; converted = starts_digit s }

unfoldable pub scan_sign : Bytes → Scan
unfolding scan_digits
scan_sign [] = scan_digits false []
scan_sign (c ∷ cs) =
    if c == b'-'
    then scan_digits true cs
    else if c == b'+'
    then scan_digits false cs
    else scan_digits false (c ∷ cs)

unfoldable pub scan : Bytes → Scan
unfolding scan_sign skip_spaces
scan s = scan_sign (skip_spaces s)

-- isspace(*endptr) || *endptr == '\0'
abbrev pub at_end : Bytes → Bool
at_end [] = true
at_end (c ∷ cs) = is_space c

abbrev pub max_long : ℕ
max_long = 2 ^ 63 - 1

-- -n
abbrev pub neg : ℕ → ℤ
neg zero = pos 0
neg (suc n) = negsuc n

-- The value of strtoll; `none` is ERANGE.
unfoldable pub to_long : Scan → Option ℤ
to_long r =
    if r.negative
    then (if ltb (max_long + 1) r.magnitude then none else some (neg r.magnitude))
    else (if ltb max_long r.magnitude then none else some (pos r.magnitude))

-- The value of strtoul; `none` is ERANGE. A minus sign negates in `unsigned long`.
unfoldable pub to_ulong : Scan → Option ℕ
to_ulong r =
    if ltb (2 ^ 64 - 1) r.magnitude
    then none
    else some (if r.negative then (2 ^ 64 - r.magnitude) % 2 ^ 64 else r.magnitude)

-- (str != endptr) and what the parsers ask of the text behind the number
abbrev pub accepted : Scan → Bool
accepted r = r.converted && at_end r.endptr

-- `safe_strtoll`; `none` is false.
unfoldable pub safe_strtoll : Bytes → Option ℤ
unfolding to_long
safe_strtoll s = let r = scan s in if accepted r then to_long r else none

-- `safe_strtol` with its `int32_t` result: the bits of the `long`, cut to 32, as they stand.
unfoldable pub safe_strtol : Bytes → Option ℕ
unfolding to_long
safe_strtol s =
    let r = scan s in
    if accepted r
    then Option.map (λ v. elim v [ pos n ↦ n % 2 ^ 32 | negsuc n ↦ 2 ^ 32 - 1 - n % 2 ^ 32 ])
        (to_long r)
    else none

abbrev pub has_minus : Bytes → Bool
has_minus [] = false
has_minus (c ∷ cs) = (c == b'-') || has_minus cs

-- `safe_strtoull`; the sign is looked at only for values from 2 ^ 63 on.
unfoldable pub safe_strtoull : Bytes → Option ℕ
unfolding to_ulong
safe_strtoull s =
    let r = scan s in
    if accepted r
    then Option.bind (to_ulong r) (λ v. if ltb max_long v && has_minus s then none else some v)
    else none

-- `safe_strtoul` with its `uint32_t` result
unfoldable pub safe_strtoul : Bytes → Option ℕ
unfolding to_ulong
safe_strtoul s =
    let r = scan s in
    if accepted r
    then Option.bind (to_ulong r)
        (λ v. if ltb max_long v && has_minus s then none else some (v % 2 ^ 32))
    else none

-- The bytes of a C string.
abbrev pub c_str : Bytes → Bytes
c_str s = take (strlen s) s

-- What a call of `safe_strntoll` does: the answer, or a write past the 64 bytes of its buffer.
pub data Parsed : Type 0 where
  answer : Option ℤ → Parsed
  overflow : Parsed

-- `safe_strntoll`, on a block whose first bytes are `str`
unfoldable pub safe_strntoll : Bytes → ℕ → Parsed
unfolding safe_strtoll
safe_strntoll str len =
    let copied = take len (c_str str) in
    if ltb (length copied) 64 then answer (safe_strtoll copied) else overflow
