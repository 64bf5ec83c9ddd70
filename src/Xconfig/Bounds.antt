-- ===== src/Xconfig/Bounds.antt =====
-- What `_xconfig_strip_comment` of src/xconfig.c writes into its block of `len + 1` bytes.
use reveldb.Prelude.{
  ℕ, ◌≡◌, ◌≤◌, false, Option, none, some, ◌⊎◌, [], ◌∷◌, Bytes, length, ◌==◌, ◌||◌,
}
use mathlib.Core.Option

-- No quotation mark
unfoldable pub NoMark : Bytes → Type 0
NoMark [] = Unit {0}
NoMark (c ∷ cs) = (((c == 39) || (c == 34)) ≡ false) × NoMark cs

-- No star
unfoldable pub NoStar : Bytes → Type 0
NoStar [] = Unit {0}
NoStar (c ∷ cs) = ((c == 42) ≡ false) × NoStar cs

-- The output has at most `n` bytes.
abbrev Fits : ℕ → Option Bytes → Type 0
Fits n none = Unit {0}
Fits n (some out) = length out ≤ n

-- A state of the loop in which no star is written twice
abbrev WritesOnce : ℕ → Bytes → Type 0
WritesOnce quote s = NoStar s ⊎ ((quote ≡ 0) × NoMark s)
