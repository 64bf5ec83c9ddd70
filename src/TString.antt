-- ===== src/TString.antt =====
-- src/tstring.c and src/tstring.h: growable byte strings.
-- `str` is the allocated block, byte by byte; what `realloc` adds to it is unknown, `fill i` at
-- index i. An `assert` that fails is `none`. `int32_t` arguments are integers, `unsigned int` is
-- a number below 2 ^ 32 with its wrap-around. A C argument `val` is the bytes that can be read
-- at `val`.
pub mod Memory
pub mod Growth
pub mod Insert
pub mod Ops
pub mod Edit
pub mod Overwrite
pub mod Join
mod Tests
use reveldb.Prelude.{
  ℕ, zero, suc, ◌≤◌, ◌≡◌, ◌+◌, ◌-◌, ◌*◌, ◌/◌, ◌%◌, ◌^◌, Bool, true, false, not, ◌&&◌, ◌||◌, Option,
  none, some, List, [], ◌∷◌, Bytes, strlen, ltb, leb, ◌==◌, if◌then◌else◌, length, set, get_or,
  take, drop, replicate, min, map,
}
use reveldb.Prelude.Int.{ℤ, pos, negsuc}
use mathlib.Core.Option

-- `struct _tstring_t`
pub record TString : Type 0 where
  pub str : Bytes
  pub len : ℕ
  pub allocated_len : ℕ

abbrev pub u32 : ℕ
u32 = 2 ^ 32

-- MY_MAXSIZE
abbrev pub max_size : ℕ
max_size = 2 ^ 32 - 1

abbrev pub add_u32 : ℕ → ℕ → ℕ
add_u32 a b = (a + b) % u32

-- `while (n < num) n <<= 1;` 32 rounds are enough: `Growth.nearest_power_bounds`.
pub double_until : ℕ → ℕ → ℕ → ℕ
double_until zero n num = n
double_until (suc fuel) n num =
    let rest = double_until fuel (n * 2 % u32) num in if ltb n num then rest else n

pub nearest_power : ℕ → ℕ → ℕ
unfolding double_until
nearest_power base num = if ltb (max_size / 2) num then max_size else double_until 32 base num

-- The text that the string holds.
abbrev pub contents : TString → Bytes
contents t = take t.len t.str

-- What every operation keeps: the block has its recorded size, which fits `unsigned int`, and the
-- text ends inside it with a NUL.
pub record IsValid (t : TString) : Type 0 where
  pub block : length t.str ≡ t.allocated_len
  pub room : suc t.len ≤ t.allocated_len
  pub word : t.allocated_len ≤ max_size
  pub terminated : get_or t.str t.len 1 ≡ 0

-- memmove and memcpy of `bytes` to the offset `i` of a block; nothing is written past its end.
pub blit : Bytes → ℕ → Bytes → Bytes
blit [] i ys = []
blit (x ∷ xs) (suc i) ys = x ∷ blit xs i ys
blit (x ∷ xs) zero [] = x ∷ xs
blit (x ∷ xs) zero (y ∷ ys) = y ∷ blit xs zero ys

-- The `n` bytes at the offset `i` of a block.
abbrev pub slice : Bytes → ℕ → ℕ → Bytes
slice xs i n = take n (drop i xs)

-- The `n` bytes that `realloc` adds from index `i` on.
pub fresh : (ℕ → ℕ) → ℕ → ℕ → Bytes
fresh fill i zero = []
fresh fill i (suc n) = fill i ∷ fresh fill (suc i) n

-- realloc(str, n)
pub realloc : (ℕ → ℕ) → Bytes → ℕ → Bytes
realloc fill [] n = fresh fill 0 n
realloc fill (x ∷ xs) zero = []
realloc fill (x ∷ xs) (suc n) = x ∷ realloc (λ i. fill (suc i)) xs n

abbrev pub is_zero : ℤ → Bool
is_zero (pos zero) = true
is_zero _ = false

-- The count that a negative `len` stands for, as the bits that `int32_t` keeps of it.
abbrev pub count : Bytes → ℤ → ℕ
count val (negsuc _) = strlen val % u32
count val (pos n) = n

-- Whether the count passes the assert of `_tstring_maybe_expand`: a C string that is empty, or whose
-- length is 0 or negative as an `int32_t`, does not.
abbrev pub is_count : Bytes → ℤ → Bool
is_count val (negsuc k) = ltb 0 (count val (negsuc k)) && ltb (count val (negsuc k)) 2147483648
is_count val (pos n) = ltb 0 n

-- The position that a negative `pos` stands for; `none` is the failed assert, or a length that
-- `int32_t` does not hold, where the code writes in front of the block.
abbrev pub position : TString → ℤ → Option ℕ
position t (negsuc _) = if ltb t.len 2147483648 then some t.len else none
position t (pos p) = if leb p t.len then some p else none

module _ (fill : ℕ → ℕ) where
  -- `_tstring_maybe_expand(str, n)` at 0 < n; its assert is the caller's.
  pub maybe_expand : TString → ℕ → TString
  maybe_expand t n =
      let size = nearest_power 1 (add_u32 (add_u32 t.len n) 1) in
      if leb t.allocated_len (add_u32 t.len n)
      then record t { str = realloc fill t.str size; allocated_len = size }
      else t

  -- `tstring_sized_new`, for sizes of `int32_t`: from 2 ^ 31 on `_tstring_maybe_expand` is given a
  -- negative count and its assert fails.
  pub sized_new : ℕ → TString
  sized_new size =
      let t =
        maybe_expand (record { str = []; len = 0; allocated_len = 0 })
          (if ltb 2 size then size else 2) in
      record t { str = set t.str 0 0 }

  -- The part of `tstring_insert_len` behind its checks, for a `val` outside `str`.
  pub splice : TString → ℕ → Bytes → ℕ → TString
  splice t p val n =
      let e = maybe_expand t n in
      let moved = if ltb p t.len then blit e.str (p + n) (slice e.str p (t.len - p)) else e.str in
      let written = blit moved p (take n val) in
      let len = add_u32 t.len n in record e { str = set written len 0; len = len }

  -- `tstring_insert_len`, for a `val` that does not point into `str` itself. At a negative
  -- count, the length of the C string that `int32_t` keeps may fail the assert of
  -- `_tstring_maybe_expand`.
  pub insert_len : TString → ℤ → Bytes → ℤ → Option TString
  insert_len t p val n =
      if is_zero n
      then some t
      else if is_count val n
      then Option.map (λ at. splice t at val (count val n)) (position t p)
      else none
