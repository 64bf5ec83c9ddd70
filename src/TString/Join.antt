-- ===== src/TString/Join.antt =====
-- A path of src/tstring.c: what `tstring_new` and `tstring_append` make of C strings.
use reveldb.Prelude.{
  ℕ, zero, suc, ◌<◌, ◌≤◌, ◌+◌, ◌≡◌, refl, sym, ap, ◌∙◌, subst, some, ◌++◌, [], ◌∷◌, Bytes, List,
  strlen, strlen-le-length, arith, length, take, drop, get_elem?, false, true, ltb, ◌%◌, ◌==◌,
}
use mathlib.Core.List.{append-nil}
use reveldb.Prelude.Int.{pos, negsuc}
use reveldb.TString.{TString, u32, IsValid, contents, max_size, sized_new}
use reveldb.TString.Memory.{take_all, drop_all}
use reveldb.TString.Growth.{sized_new-IsValid}
use reveldb.TString.Ops.{append, append_len, new}
use reveldb.TString.Edit.{Holds, insert_len_lem, append_len_lem, length-contents}

get_elem?-take {ℓ} :
    {A : Type ℓ} (n : ℕ) (xs : List A) (i : ℕ) → i < n → get_elem? (take n xs) i ≡ get_elem? xs i
get_elem?-take zero xs i h = ground arith
get_elem?-take (suc n) [] i h = refl
get_elem?-take (suc n) (x ∷ xs) zero h = refl
get_elem?-take (suc n) (x ∷ xs) (suc i) h = get_elem?-take n xs i (omega arith)

get_elem?-append_last {ℓ} :
    {A : Type ℓ} (xs : List A) (x : A) → get_elem? (xs ++ x ∷ []) (length xs) ≡ some x
get_elem?-append_last [] x = refl
get_elem?-append_last (y ∷ xs) x = get_elem?-append_last xs x

length-append_last {ℓ} :
    {A : Type ℓ} (xs : List A) (x : A) → length (xs ++ x ∷ []) ≡ suc (length xs)
length-append_last [] x = refl
length-append_last (y ∷ xs) x = ap suc (length-append_last xs x)

-- The block of a valid string has the last byte of its text at the index before its length.
pub last-contents :
    (t : TString) (v : IsValid t) (d : Bytes) (c : ℕ)
    → contents t ≡ d ++ c ∷ []
    → (t.len ≡ suc (length d)) × (get_elem? t.str (length d) ≡ some c)
last-contents t v d c e =
    let size : t.len ≡ suc (length d) =
      sym (length-contents t v) ∙ ap length e ∙ length-append_last d c in
    (
      size,
      sym (get_elem?-take t.len t.str (length d) (omega (arith, size)))
          ∙ ap (λ xs. get_elem? xs (length d)) e
          ∙ get_elem?-append_last d c,
    )

module _ (fill : ℕ → ℕ) where
  -- `tstring_append` of a C string that is not empty to a valid string, whose text is shorter than
  -- 2 ^ 31 bytes, returns a valid string with the C string, shorter than 2 ^ 31 bytes, behind the text.
  pub append_lem :
      (t : TString) (v : IsValid t) (val : Bytes)
      → 0 < strlen val
      → strlen val < 2147483648
      → t.len < 2147483648
      → t.len + strlen val < max_size
      → Holds (append fill t val) (contents t ++ take (strlen val) val)
  unfolding append
  append_lem t v val some_bytes short small fits =
      let n = strlen val in
      let counted : n % u32 ≡ n = omega arith in
      let all : length (contents t) ≤ t.len = omega (arith, length-contents t v) in
      subst (Holds (append fill t val))
        (rw counted (
          ap (λ c. c ++ take n val ++ drop t.len (contents t)) (take_all t.len (contents t) all)
          ∙ ap (λ c. contents t ++ take n val ++ c) (drop_all t.len (contents t) all)
          ∙ append-nil (contents t ++ take n val)))
        (insert_len_lem fill t v (negsuc 0) val (negsuc 0) t.len (ground arith)
          (λ _. ground (arith, some_bytes, short)) (omega (arith, strlen-le-length val))
          (omega arith))

  -- `tstring_new` of a C string that is not empty and has room makes a valid string of it.
  pub new_lem :
      (init : Bytes)
      → 0 < strlen init
      → strlen init + 2 < 2147483648
      → Holds (new fill (some init)) (take (strlen init) init)
  unfolding new
  new_lem init some_bytes small =
      let more : (strlen init == 0) ≡ false = ground arith in
      let n = strlen init in
      let counted : n % u32 ≡ n = omega arith in
      let in_range : ltb (n + 2) 2147483648 ≡ true = ground arith in
      let s = sized_new-IsValid fill (n + 2) small in
      let empty = sized_new fill (n + 2) in
      let no_bytes : empty.len ≡ 0 = sym (length-contents empty s.0) ∙ ap length s.1 in
      rw (more, counted, in_range)
        (subst (λ c. Holds (append_len fill empty init (pos n)) (c ++ take n init)) s.1
          (append_len_lem fill empty s.0 init n (strlen-le-length init) (omega arith)
            (omega arith)))
