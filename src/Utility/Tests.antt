-- ===== src/Utility/Tests.antt =====
-- The theorems on src/utility.c at concrete numbers.
use reveldb.Prelude.{strlen, ℕ, refl, Bool, ◌&&◌, leb, [], ◌∷◌, Bytes, ◌≡◌, ◌^◌, ◌%◌, some, arith}
use reveldb.Prelude.Int.{negsuc}
use reveldb.Utility.Decimal.{decimal, print_ℤ}
use reveldb.Utility.Parse.{safe_strtoll, safe_strtoul}
use reveldb.Utility.Url.{safe_urldecode, percent_encode, safe_urldecode-percent_encode}
use reveldb.Utility.RoundTrip.{safe_strtoll-print_ℤ, safe_strtoul-decimal}

safe_strtoll-print_ℤ_example : safe_strtoll (print_ℤ (negsuc 41)) ≡ some (negsuc 41)
safe_strtoll-print_ℤ_example = safe_strtoll-print_ℤ (negsuc 41) (omega arith)

safe_strtoul-decimal_example : safe_strtoul (decimal 4294967297) ≡ some (4294967297 % 2 ^ 32)
safe_strtoul-decimal_example = safe_strtoul-decimal 4294967297 (omega arith)

-- "a", a NUL and "b%"
abbrev text : Bytes
text = 97 ∷ 0 ∷ 98 ∷ 37 ∷ []

-- Lower-case letters are written as they are.
abbrev letters : ℕ → Bool
letters c = leb 97 c && leb c 122

safe_urldecode-percent_encode_example : safe_urldecode (percent_encode letters text) ≡ text
safe_urldecode-percent_encode_example =
    safe_urldecode-percent_encode letters text refl refl refl
      (omega arith, (omega arith, (omega arith, (omega arith, tt))))

-- "%zz" is not decoded.
not_decoded : safe_urldecode (37 ∷ 122 ∷ 122 ∷ []) ≡ 37 ∷ 122 ∷ 122 ∷ []
unfolding safe_urldecode strlen
not_decoded = refl

-- What stands behind a NUL is not read.
stops_at_nul : safe_urldecode (97 ∷ 0 ∷ 98 ∷ []) ≡ 97 ∷ []
unfolding safe_urldecode strlen
stops_at_nul = refl
