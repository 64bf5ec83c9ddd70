-- ===== src/Rpc/Distance.antt =====
-- `_rpc_levenshtein` of src/rpc.c. The loop that is to strip a common prefix compares dst[0] with
-- itself and moves dst by two, and the rows compare dst with dst: src is never read.
use reveldb.Prelude.{
  ℕ, zero, suc, ◌+◌, ◌-◌, ◌%◌, ◌^◌, ◌≡◌, refl, ◌∙◌, Bool, not, ◌&&◌, ◌||◌, List, [], ◌∷◌, min,
  arith, ◌==◌, ==_iff, if◌then◌else◌,
}
use reveldb.Utility.Url.{to_lower}

-- The macro `eq`
abbrev pub same_letter : ℕ → ℕ → Bool
same_letter x y = to_lower x == to_lower y

-- A value of type `unsigned int`
abbrev pub uint : ℕ → ℕ
uint n = n % 2 ^ 32

-- The cost of a replacement; `dst` gives the byte at each offset, also behind the end.
unfoldable pub cost : (ℕ → ℕ) → ℕ → ℕ → ℕ
cost dst i j =
    if same_letter (dst i) (dst j)
      || (not (i == 0)
          && not (j == 0)
          && same_letter (dst (i - 1)) (dst j)
          && same_letter (dst i) (dst (j - 1)))
    then 0
    else 1

-- The inner loop over the rest of the column vector `v`, and the write of v[len2] behind it
unfoldable pub row : (ℕ → ℕ) → ℕ → ℕ → ℕ → List ℕ → List ℕ
unfolding cost
row dst i j current [] = []
row dst i j current (vj ∷ []) = current ∷ []
row dst i j current (vj ∷ v1 ∷ v) =
    let next = min (min (uint (v1 + 1)) (uint (current + 1))) (uint (vj + cost dst i j)) in
    current ∷ row dst i (j + 1) next (v1 ∷ v)

-- The outer loop, with `n` rounds to go
unfoldable pub rows : (ℕ → ℕ) → ℕ → ℕ → List ℕ → List ℕ
unfolding row
rows dst zero i v = v
rows dst (suc n) i v = rows dst n (i + 1) (row dst i 0 (i + 1) v)

-- The column vector at its start: j, j + 1 and so on, `n` numbers
unfoldable pub column : ℕ → ℕ → List ℕ
column zero j = []
column (suc n) j = j ∷ column n (j + 1)

-- v[len2]: the last number of the vector
unfoldable pub final : List ℕ → ℕ
final [] = 0
final (x ∷ []) = x
final (x ∷ y ∷ v) = final (y ∷ v)

-- The loop that strips, and what comes behind it
unfoldable pub strip : (ℕ → ℕ) → ℕ → ℕ → ℕ
unfolding rows column final
strip dst zero len2 = len2
strip dst (suc len1) zero = suc len1
strip dst (suc len1) (suc len2) =
    let rest = strip (λ n. dst (n + 2)) len1 len2 in
    if same_letter (dst 0) (dst 0)
    then rest
    else final (rows dst (suc len1) 0 (column (suc (suc len2)) 0))

-- `_rpc_levenshtein`
unfoldable pub levenshtein : (ℕ → ℕ) → ℕ → ℕ → ℕ
unfolding strip
levenshtein dst dst_len src_len = strip dst (uint dst_len) (uint src_len)

strip_lem : (dst : ℕ → ℕ) (a b : ℕ) → strip dst a b ≡ (a - b) + (b - a)
unfolding strip
strip_lem dst zero b = omega arith
strip_lem dst (suc a) zero = omega arith
strip_lem dst (suc a) (suc b) =
    rw ((==_iff (to_lower (dst 0)) (to_lower (dst 0))).1 refl)
      (strip_lem (λ n. dst (n + 2)) a b ∙ omega arith)

-- The distance is the difference of the two lengths, as numbers of `unsigned int`.
pub levenshtein_lem :
    (dst : ℕ → ℕ) (dst_len src_len : ℕ)
    → levenshtein dst dst_len src_len
      ≡ (uint dst_len - uint src_len) + (uint src_len - uint dst_len)
unfolding levenshtein
levenshtein_lem dst m n = strip_lem dst (uint m) (uint n)
