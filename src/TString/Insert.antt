-- ===== src/TString/Insert.antt =====
-- `tstring_insert_len` of tstring.c: the inserted bytes stand at their position, and the text
-- around them is unchanged.
use reveldb.Prelude.{
  ℕ, ◌+◌, ◌-◌, ◌≤◌, ◌<◌, ◌≡◌, refl, sym, ap, ◌∙◌, ◌++◌, Bytes, arith, length, take, drop, ltb,
  if◌then◌else◌, inl, inr, Bool-cases, length-take, length-drop,
}
use mathlib.Core.List.{append-nil}
use reveldb.TString.{
  TString, IsValid, contents, max_size, add_u32, blit, slice, maybe_expand, splice,
}
use reveldb.TString.Memory.{
  length-blit, take-blit, take-blit-inside, blit-append, take-set, take-take, drop-take,
}
use reveldb.TString.Growth.{IsBlock, maybe_expand_bounds, terminate-IsValid}

-- The block behind the `memmove` that opens the gap.
abbrev open_gap : Bytes → ℕ → ℕ → ℕ → Bytes
open_gap str len p n = if ltb p len then blit str (p + n) (slice str p (len - p)) else str

module _ (str : Bytes) (len p n : ℕ) (inside : p ≤ len) (room : len + n ≤ length str) where
  length-tail : length (drop p (take len str)) ≡ len - p
  length-tail = omega (arith, length-drop p (take len str), length-take len str)

  take-open_gap : take (len + n) (open_gap str len p n) ≡ take (p + n) str ++ drop p (take len str)
  take-open_gap = elim (Bool-cases (ltb p len)) [
    | inl before ↦
        rw (before, ← drop-take p len str (len - p) (omega arith))
          (take-blit (len + n) str (p + n) (drop p (take len str)) (omega (arith, length-tail))
            room)
    | inr at_end ↦
        rw (at_end, drop-take p len str 0 (ground arith), append-nil)
          (ap (λ k. take k str) (ground arith))
  ]

  length-open_gap : length (open_gap str len p n) ≡ length str
  length-open_gap = elim (Bool-cases (ltb p len)) [
    | inl before ↦ rw before (length-blit str (p + n) (slice str p (len - p)))
    | inr at_end ↦ rw at_end
  ]

  -- The whole write.
  take-written :
      (v : Bytes)
      → length v ≡ n
      → take (len + n) (blit (open_gap str len p n) p v)
        ≡ take p (take len str) ++ v ++ drop p (take len str)
  take-written v e =
      take-blit-inside (len + n) (open_gap str len p n) p v (omega arith)
      ∙ ap (λ xs. blit xs p v) take-open_gap
      ∙ blit-append (take (p + n) str) p v (drop p (take len str))
          (omega (arith, length-take (p + n) str))
      ∙ ap (λ xs. xs ++ v ++ drop p (take len str))
          (take-take p (p + n) str (omega arith) ∙ sym (take-take p len str inside))

module _ (fill : ℕ → ℕ) (t : TString) (p : ℕ) (val : Bytes) (n : ℕ) (v : IsValid t) where
  abbrev Fits : Type 0
  Fits = (p ≤ t.len) × (n ≤ length val) × (t.len + n < max_size)

  pub splice_lem :
      Fits
      → IsValid (splice fill t p val n)
        × ((splice fill t p val n).len ≡ t.len + n)
        × (contents (splice fill t p val n)
            ≡ take p (contents t) ++ take n val ++ drop p (contents t))
  unfolding splice
  splice_lem (inside, readable, fits) =
      let block : IsBlock t = record {
        block = v.block;
        room = omega (arith, v.room);
        word = v.word;
      } in
      let e = maybe_expand fill t n in
      let b = maybe_expand_bounds fill t n block fits in
      let opened = open_gap e.str t.len p n in
      let written = blit opened p (take n val) in
      let k : add_u32 t.len n ≡ t.len + n = omega arith in
      let room : t.len + n < length e.str = omega (arith, b.0.block) in
      let size : length (take n val) ≡ n = omega (arith, length-take n val) in
      let same : length written ≡ length e.str =
        length-blit opened p (take n val) ∙ length-open_gap e.str t.len p n inside (omega arith) in
      let block' : IsBlock (record e { str = written }) = record {
        block = same ∙ b.0.block;
        room = b.0.room;
        word = b.0.word;
      } in
      rw k (
        terminate-IsValid (record e { str = written }) (t.len + n) block' b.2,
        refl,
        take-set (t.len + n) written 0
            ∙ take-written e.str t.len p n inside (omega arith) (take n val) size
            ∙ ap (λ c. take p c ++ take n val ++ drop p c) b.3,
      )
