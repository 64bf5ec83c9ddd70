-- ===== src/TString/Edit.antt =====
-- What the operations of tstring.c do to the text: each returns a valid string with the text that
-- its comment promises.
use reveldb.Prelude.{
  false, true, ℕ, zero, suc, ◌+◌, ◌-◌, ◌≤◌, ◌<◌, ◌≡◌, refl, sym, ap, ◌∙◌, subst, Option, some, ◌++◌,
  Bytes, arith, length, take, drop, ltb, if◌then◌else◌, inl, inr, Bool-cases, length-take,
  length-drop, take-append-drop, min,
}
use mathlib.Core.List.{append-nil}
use reveldb.Prelude.Int.{ℤ, pos, negsuc}
use reveldb.TString.{
  TString, IsValid, contents, max_size, blit, slice, count, position, splice, sized_new, insert_len,
  is_count, is_zero,
}
use reveldb.TString.Ops.{truncate, append_len, prepend_len, new_len, erase_at}
use reveldb.TString.Memory.{
  length-blit, take-blit, take-set, take-take, drop-take, take_all, drop_all, take-min,
}
use reveldb.TString.Growth.{IsBlock, terminate-IsValid, sized_new-IsValid}
use reveldb.TString.Insert.{splice_lem}

-- The call returns a valid string that holds the text `c`.
pub record Holds (o : Option TString) (c : Bytes) : Type 0 where
  pub result : TString
  pub returned : o ≡ some result
  pub valid : IsValid result
  pub text : contents result ≡ c

pub length-contents : (t : TString) → IsValid t → length (contents t) ≡ t.len
length-contents t v = omega (arith, length-take t.len t.str, v.block, v.room)

pub IsBlock-IsValid : (t : TString) → IsValid t → IsBlock t
IsBlock-IsValid t v = record { block = v.block; room = omega (arith, v.room); word = v.word }

position-le : (t : TString) (p : ℤ) (at : ℕ) → position t p ≡ some at → at ≤ t.len
position-le t p at e = ground arith

module _ (fill : ℕ → ℕ) (t : TString) (v : IsValid t) where
  Holds-splice :
      (val : Bytes) (k at : ℕ)
      → at ≤ t.len
      → k ≤ length val
      → t.len + k < max_size
      → Holds
          (some (splice fill t at val k))
          (take at (contents t) ++ take k val ++ drop at (contents t))
  Holds-splice val k at inside readable fits =
      let r = splice_lem fill t at val k v (inside, readable, fits) in
      record { result = splice fill t at val k; returned = refl; valid = r.0; text = r.2 }

  -- `tstring_insert_len` on a valid string, at a position that its assert admits, returns a
  -- valid string: the bytes stand at the position, and what was there comes behind them. A
  -- negative position is the end, of a text shorter than 2 ^ 31 bytes; a negative count is the
  -- length of the C string as an `int32_t`, which must be above 0. The bytes are readable, do
  -- not lie in the string itself, and the new length is below 2 ^ 32 - 1.
  pub insert_len_lem :
      (p : ℤ) (val : Bytes) (n : ℤ) (at : ℕ)
      → position t p ≡ some at
      → (is_zero n ≡ false → is_count val n ≡ true)
      → count val n ≤ length val
      → t.len + count val n < max_size
      → Holds
          (insert_len fill t p val n)
          (take at (contents t) ++ take (count val n) val ++ drop at (contents t))
  unfolding insert_len
  insert_len_lem p val (pos zero) at e some_bytes readable fits = record {
    result = t;
    returned = refl;
    valid = v;
    text = rw append-nil (sym (take-append-drop at (contents t)));
  }
  insert_len_lem p val (pos (suc n)) at e some_bytes readable fits =
      let more : ltb 0 (suc n) ≡ true = ground arith in
      rw (more, e) (Holds-splice val (suc n) at (position-le t p at e) readable fits)
  insert_len_lem p val (negsuc n) at e some_bytes readable fits =
      rw (some_bytes refl, e)
        (Holds-splice val (count val (negsuc n)) at (position-le t p at e) readable fits)

  module _ (val : Bytes) (n : ℕ) (readable : n ≤ length val) (fits : t.len + n < max_size) where
    -- The bytes of a count that is not negative
    some_bytes : is_zero (pos n) ≡ false → ltb 0 n ≡ true
    some_bytes h = ground arith

    -- `tstring_append_len` of `n` readable bytes to a valid string, whose text is shorter than
    -- 2 ^ 31 bytes, returns a valid string with the bytes behind the text, where the new length
    -- is below 2 ^ 32 - 1.
    pub append_len_lem :
        t.len < 2147483648 → Holds (append_len fill t val (pos n)) (contents t ++ take n val)
    unfolding append_len
    append_len_lem small =
        let size = length-contents t v in
        let all : length (contents t) ≤ t.len = omega arith in
        subst (Holds (append_len fill t val (pos n)))
          (ap (λ c. c ++ take n val ++ drop t.len (contents t)) (take_all t.len (contents t) all)
            ∙ ap (λ c. contents t ++ take n val ++ c) (drop_all t.len (contents t) all)
            ∙ append-nil (contents t ++ take n val))
          (insert_len_lem (negsuc 0) val (pos n) t.len (ground arith) some_bytes readable fits)

    -- `tstring_prepend_len` of `n` readable bytes to a valid string returns a valid string with
    -- the bytes in front of the text, where the new length is below 2 ^ 32 - 1.
    pub prepend_len_lem : Holds (prepend_len fill t val (pos n)) (take n val ++ contents t)
    unfolding prepend_len
    prepend_len_lem = insert_len_lem (pos 0) val (pos n) 0 (ground arith) some_bytes readable fits

module _ (fill : ℕ → ℕ) (init : Bytes) (n : ℕ) where
  -- `tstring_new_len` of `n` readable bytes, for `n` below 2 ^ 31, returns a valid string that
  -- holds them.
  pub new_len_lem :
      n ≤ length init → n < 2147483648 → Holds (new_len fill (some init) (pos n)) (take n init)
  unfolding new_len
  new_len_lem readable h =
      let s = sized_new-IsValid fill n h in
      let empty = sized_new fill n in
      let no_bytes : empty.len ≡ 0 = sym (length-contents empty s.0) ∙ ap length s.1 in
      subst (λ c. Holds (append_len fill empty init (pos n)) (c ++ take n init)) s.1
        (append_len_lem fill empty s.0 init n readable (omega arith) (omega arith))

module _ (t : TString) (v : IsValid t) where
  -- `tstring_truncate` of a valid string at 0 ≤ n keeps the first `n` bytes of the text, and
  -- the string stays valid.
  pub truncate_lem :
      (n : ℕ) → IsValid (truncate t n) × (contents (truncate t n) ≡ take n (contents t))
  unfolding truncate
  truncate_lem n = (
    terminate-IsValid t (min n t.len) (IsBlock-IsValid t v) (omega (arith, v.room)),
    take-set (min n t.len) t.str 0 ∙ take-min n t.len t.str,
  )

  abbrev rest_of : ℕ → Bytes
  rest_of i = slice t.str i (t.len - i)

  length-rest_of : (i : ℕ) → i ≤ t.len → length (rest_of i) ≡ t.len - i
  length-rest_of i h =
      omega (arith, length-take (t.len - i) (drop i t.str), length-drop i t.str, v.block, v.room)

  -- The text behind the move of `tstring_erase`.
  take-erased :
      (p n : ℕ)
      → p + n ≤ t.len
      → take (t.len - n) (if ltb (p + n) t.len then blit t.str p (rest_of (p + n)) else t.str)
        ≡ take p (contents t) ++ drop (p + n) (contents t)
  take-erased p n h = elim (Bool-cases (ltb (p + n) t.len)) [
    | inl before ↦
        rw
          (
            before,
            take-take p t.len t.str (omega arith),
            drop-take (p + n) t.len t.str (t.len - (p + n)) (omega arith),
          )
          (take-blit (t.len - n) t.str p (rest_of (p + n)) (omega (arith, length-rest_of (p + n)))
            (omega (arith, v.block, v.room)))
    | inr at_end ↦
        rw
          (
            at_end,
            take-take p t.len t.str (omega arith),
            drop-take (p + n) t.len t.str 0 (ground arith),
            append-nil,
          )
          (ap (λ k. take k t.str) (ground arith))
  ]

  -- The part of `tstring_erase` behind its asserts removes `n` bytes from the position `p`.
  pub erase_at_lem :
      (p n : ℕ)
      → p + n ≤ t.len
      → IsValid (erase_at t p n)
        × (contents (erase_at t p n) ≡ take p (contents t) ++ drop (p + n) (contents t))
  unfolding erase_at
  erase_at_lem p n h =
      let moved = if ltb (p + n) t.len then blit t.str p (rest_of (p + n)) else t.str in
      let same : length moved ≡ length t.str = elim (Bool-cases (ltb (p + n) t.len)) [
        | inl before ↦ rw before (length-blit t.str p (rest_of (p + n)))
        | inr at_end ↦ rw at_end
      ] in
      let block : IsBlock (record t { str = moved }) = record {
        block = same ∙ v.block;
        room = omega (arith, v.room);
        word = v.word;
      } in
      (
        terminate-IsValid (record t { str = moved }) (t.len - n) block (omega (arith, v.room)),
        take-set (t.len - n) moved 0 ∙ take-erased p n h,
      )
