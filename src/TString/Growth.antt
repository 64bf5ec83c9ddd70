-- ===== src/TString/Growth.antt =====
-- `_nearest_power` and `_tstring_maybe_expand` of tstring.c, and `tstring_sized_new`.
use reveldb.Prelude.{
  ℕ, zero, suc, ◌+◌, ◌*◌, ◌/◌, ◌%◌, ◌^◌, ◌≤◌, ◌<◌, ◌≡◌, refl, [], arith, length, set, take, ltb,
  leb, length-set, ◌∙◌, sym, subst, if◌then◌else◌, inl, inr, Bool-cases,
}
use native.Mathlib.Nat.{pow-suc}
use native.Mathlib.Decide.{dec_le}
use reveldb.TString.{
  TString, IsValid, contents, max_size, u32, add_u32, double_until, nearest_power, maybe_expand,
  sized_new,
}
use reveldb.TString.Memory.{length-realloc, take-realloc, get_or-set_self}

-- Below the top bit the doubling does not wrap, and `fuel` rounds reach `n * 2 ^ fuel`.
double_until_bounds :
    (fuel n num : ℕ)
    → num ≤ n * 2 ^ fuel
    → num ≤ 2147483647
    → n < 2 * num
    → (num ≤ double_until fuel n num) × (double_until fuel n num < 2 * num)
unfolding double_until
double_until_bounds zero n num h s l = (omega arith, l)
double_until_bounds (suc fuel) n num h s l =
    let e : n * 2 ^ suc fuel ≡ n * 2 * 2 ^ fuel = rw pow-suc (omega arith) in
    ground (arith, double_until_bounds fuel (n * 2 % u32) num)

-- `_nearest_power(1, num)` is at least `num` for every `num` above 0 of `unsigned int`, stays
-- in its range, and is below twice `num` while `num` is at most half the range.
pub nearest_power_bounds :
    (num : ℕ)
    → 0 < num
    → num ≤ max_size
    → (num ≤ nearest_power 1 num)
      × (nearest_power 1 num ≤ max_size)
      × (num ≤ max_size / 2 → nearest_power 1 num < 2 * num)
unfolding nearest_power
nearest_power_bounds num p h = elim (dec_le num 2147483647) [
  | yes s ↦ ground (arith, double_until_bounds 32 1 num (omega arith) s (omega arith))
  | no s ↦ ground arith
]

-- A block with its recorded size, that holds the text.
pub record IsBlock (t : TString) : Type 0 where
  pub block : length t.str ≡ t.allocated_len
  pub room : t.len ≤ t.allocated_len
  pub word : t.allocated_len ≤ max_size

module _ (fill : ℕ → ℕ) (t : TString) (n : ℕ) (b : IsBlock t) (fits : t.len + n < max_size) where
  -- Expanding for `n` bytes keeps the text, and makes room for `n` bytes and a NUL.
  pub maybe_expand_bounds :
      IsBlock (maybe_expand fill t n)
      × ((maybe_expand fill t n).len ≡ t.len)
      × (t.len + n < (maybe_expand fill t n).allocated_len)
      × (take t.len (maybe_expand fill t n).str ≡ contents t)
  unfolding maybe_expand
  maybe_expand_bounds =
      let size = nearest_power 1 (add_u32 (add_u32 t.len n) 1) in
      let e : add_u32 (add_u32 t.len n) 1 ≡ t.len + n + 1 = omega arith in
      let grown = rw (← e) at (nearest_power_bounds (t.len + n + 1) (omega arith) (omega arith)) in
      elim (Bool-cases (leb t.allocated_len (add_u32 t.len n))) [
        | inl full ↦ rw full (
          record {
            block = length-realloc fill t.str size;
            room = omega (arith, grown.0);
            word = grown.1;
          },
          refl,
          omega (arith, grown.0),
          take-realloc fill t.len t.str size (omega arith) (omega (arith, grown.0)),
        )
        | inr enough ↦ rw enough (b, refl, ground arith, refl)
      ]

abbrev empty : TString
empty = record { str = []; len = 0; allocated_len = 0 }

-- Behind the write of the closing NUL at its length, a block is a valid string.
pub terminate-IsValid :
    (t : TString) (n : ℕ)
    → IsBlock t
    → n < t.allocated_len
    → IsValid (record t { str = set t.str n 0; len = n })
terminate-IsValid t n b h = record {
  block = length-set t.str n 0 ∙ b.block;
  room = h;
  word = b.word;
  terminated = get_or-set_self t.str n 0 1 (omega (arith, b.block));
}

-- `tstring_sized_new` of a size below 2 ^ 31 makes a valid empty string, with room for `size`
-- bytes and a NUL.
pub sized_new-IsValid :
    (fill : ℕ → ℕ) (size : ℕ)
    → size < 2147483648
    → IsValid (sized_new fill size)
      × (contents (sized_new fill size) ≡ [])
      × (size < (sized_new fill size).allocated_len)
unfolding sized_new
sized_new-IsValid fill size h =
    let n = if ltb 2 size then size else 2 in
    let fits : size ≤ n × n < max_size = ground arith in
    let b = maybe_expand_bounds fill empty n (omega arith) (omega arith) in
    let e = maybe_expand fill empty n in
    (
      subst (λ k. IsValid (record e { str = set e.str 0 0; len = k })) (sym b.1)
          (terminate-IsValid e 0 b.0 (omega arith)),
      rw b.1,
      omega arith,
    )
