-- ===== src/TString/Ops.antt =====
-- The remaining operations of src/tstring.c, in the order of the file.
use reveldb.Prelude.{
  ℕ, zero, suc, ◌+◌, ◌-◌, ◌*◌, ◌%◌, Bool, true, false, Option, none, some, [], ◌∷◌, ◌&&◌, Bytes,
  strlen, ltb, leb, ◌==◌, if◌then◌else◌, set, take, min,
}
use reveldb.Prelude.Int.{ℤ, pos, negsuc}
use mathlib.Core.Option
use reveldb.TString.{
  TString, u32, add_u32, blit, slice, is_zero, count, position, maybe_expand, sized_new, insert_len,
}

-- The loop of `tstring_equal` over `i` bytes.
unfoldable pub equal_loop : ℕ → Bytes → Bytes → Bool
equal_loop zero p q = true
equal_loop (suc i) (a ∷ p) (b ∷ q) = let rest = equal_loop i p q in if a == b then rest else false
equal_loop (suc i) p q = false

-- `tstring_equal`
unfoldable pub equal : TString → TString → Bool
unfolding equal_loop
equal v v2 = if v.len == v2.len then equal_loop v.len v.str v2.str else false

-- A `char` added to an `unsigned int`: bytes from 128 on are negative.
abbrev pub char_u32 : ℕ → ℕ
char_u32 c = if ltb c 128 then c else c + u32 - 256

-- The loop of `tstring_hash`: `h = (h << 5) - h + *p`.
unfoldable pub hash_loop : ℕ → Bytes → ℕ → ℕ
hash_loop zero p h = h
hash_loop (suc n) [] h = h
hash_loop (suc n) (c ∷ p) h = hash_loop n p ((h * 32 % u32 + u32 - h + char_u32 c) % u32)

-- `tstring_hash`
unfoldable pub hash : TString → ℕ
unfolding hash_loop
hash t = hash_loop t.len t.str 0

-- `tstring_truncate` at 0 ≤ n; a negative `n` writes in front of the block.
unfoldable pub truncate : TString → ℕ → TString
truncate t n = let k = min n t.len in record t { str = set t.str k 0; len = k }

module _ (fill : ℕ → ℕ) where
  -- `tstring_append`
  unfoldable pub append : TString → Bytes → Option TString
  append t val = insert_len fill t (negsuc 0) val (negsuc 0)

  -- `tstring_append_len`
  unfoldable pub append_len : TString → Bytes → ℤ → Option TString
  append_len t val n = insert_len fill t (negsuc 0) val n

  -- `tstring_prepend`
  unfoldable pub prepend : TString → Bytes → Option TString
  prepend t val = insert_len fill t (pos 0) val (negsuc 0)

  -- `tstring_prepend_len`
  unfoldable pub prepend_len : TString → Bytes → ℤ → Option TString
  prepend_len t val n = insert_len fill t (pos 0) val n

  -- `tstring_insert`, which asserts that the position is not negative.
  unfoldable pub insert : TString → ℤ → Bytes → Option TString
  insert t (negsuc _) val = none
  insert t (pos p) val = if leb p t.len then insert_len fill t (pos p) val (negsuc 0) else none

  -- `tstring_new`; `none` is NULL. The length is an `int`, and the assert of `_tstring_maybe_expand`
  -- fails if it is negative or too large.
  unfoldable pub new : Option Bytes → Option TString
  new none = some (sized_new fill 2)
  new (some init) =
      if strlen init == 0
      then some (sized_new fill 2)
      else let n = strlen init % u32 in
        if ltb (n + 2) 2147483648 then append_len (sized_new fill (n + 2)) init (pos n) else none

  -- `tstring_new_len`
  unfoldable pub new_len : Option Bytes → ℤ → Option TString
  new_len init (negsuc n) = new init
  new_len none (pos n) = some (sized_new fill n)
  new_len (some init) (pos n) = append_len (sized_new fill n) init (pos n)

  -- `tstring_assign`, for an `rval` that is not `str` itself.
  unfoldable pub assign : TString → Bytes → Option TString
  assign t rval = append (truncate t 0) rval

  -- `tstring_set_size` at 0 ≤ n (its assert)
  unfoldable pub set_size : TString → ℕ → TString
  set_size t n =
      let e = if leb t.allocated_len n then maybe_expand fill t (n - t.len) else t in
      record e { str = set e.str n 0; len = n }

  -- `tstring_insert_c`
  unfoldable pub insert_c : TString → ℤ → ℕ → Option TString
  insert_c t p c =
      Option.map
        (λ at.
          let e = maybe_expand fill t 1 in
          let moved =
            if ltb at t.len then blit e.str (at + 1) (slice e.str at (t.len - at)) else e.str in
          let len = add_u32 t.len 1 in record e { str = set (set moved at c) len 0; len = len })
        (position t p)

  -- `tstring_append_c`
  unfoldable pub append_c : TString → ℕ → Option TString
  append_c t c = insert_c t (negsuc 0) c

  -- `tstring_prepend_c`
  unfoldable pub prepend_c : TString → ℕ → Option TString
  prepend_c t c = insert_c t (pos 0) c

  -- `tstring_append_c_inline` of tstring.h
  unfoldable pub append_c_inline : TString → ℕ → Option TString
  append_c_inline t c =
      if ltb (add_u32 t.len 1) t.allocated_len
      then some (record t { str = set (set t.str t.len c) (t.len + 1) 0; len = t.len + 1 })
      else insert_c t (negsuc 0) c

  -- The part of `tstring_overwrite_len` behind its checks.
  unfoldable pub overwrite_at : TString → ℕ → Bytes → ℕ → TString
  overwrite_at t p val n =
      let end = p + n in
      let e = if ltb t.len end then maybe_expand fill t (end - t.len) else t in
      let written = blit e.str p (take n val) in
      if ltb t.len end
      then record e { str = set written end 0; len = end }
      else record e { str = written }

  -- `tstring_overwrite_len`; a negative position fails the assert `pos <= str->len`, which
  -- compares as `unsigned int`. An end that `int` does not hold is `none` as well, and so is a length
  -- that is negative, which memcpy is not to be given.
  unfoldable pub overwrite_len : TString → ℤ → Bytes → ℤ → Option TString
  overwrite_len t (negsuc _) val n = if is_zero n then some t else none
  overwrite_len t (pos p) val n =
      if is_zero n
      then some t
      else if leb p t.len && ltb (p + count val n) 2147483648
      then some (overwrite_at t p val (count val n))
      else none

  -- `tstring_overwrite`
  unfoldable pub overwrite : TString → ℤ → Bytes → Option TString
  overwrite t p val = overwrite_len t p val (pos (strlen val % u32))

-- The part of `tstring_erase` behind its asserts, at a count that is not negative.
unfoldable pub erase_at : TString → ℕ → ℕ → TString
erase_at t p n =
    let moved =
      if ltb (p + n) t.len then blit t.str p (slice t.str (p + n) (t.len - (p + n))) else t.str in
    record t { str = set moved (t.len - n) 0; len = t.len - n }

-- `tstring_erase`; a negative count erases what follows, without a move.
unfoldable pub erase : TString → ℤ → ℤ → Option TString
erase t (negsuc _) n = none
erase t (pos p) (negsuc _) =
    if leb p t.len then some (record t { str = set t.str p 0; len = p }) else none
erase t (pos p) (pos n) =
    if leb p t.len then (if leb (p + n) t.len then some (erase_at t p n) else none) else none
