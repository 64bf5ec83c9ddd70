-- ===== src/Xconfig.antt =====
-- `_xconfig_strip_comment` of src/xconfig.c: the comments of a configuration file, which is read as
-- JSON behind it. The text has no NUL in it; the byte behind its end is one.
pub mod Bounds
pub mod Comments
mod Tests
use reveldb.Prelude.{
  ℕ, zero, suc, ◌+◌, leb, length, Bool, true, false, not, Option, none, some, [], ◌∷◌, Bytes, ◌==◌,
  ◌&&◌, ◌||◌, if◌then◌else◌,
}
use mathlib.Core.Option

-- What the loop does with the bytes behind the one that it looks at: `i++` goes on to the next one,
-- passes over it, copies it whatever it is, or goes on behind the next end of line.
pub data Skip : Type 0 where
  next : Skip
  pass_one : Skip
  copy_one : Skip
  pass_line : Skip

-- What one round leaves: how often it writes its byte, and the variables of the loop
pub record Round : Type 0 where
  pub copies : ℕ
  pub skip : Skip
  pub quote : ℕ
  pub comment : Bool

-- `quote` is a bool, 0 or 1, also where a quotation mark is stored in it.
unfoldable pub quote_round : ℕ → Bool → ℕ → Round
quote_round quote comment c = record {
  copies = if comment then 0 else 1;
  skip = next;
  quote = if comment then quote else if quote == 0 then 1 else if quote == c then 0 else quote;
  comment = comment;
}

-- At a slash, with the byte behind it
unfoldable pub slash_round : ℕ → Bool → ℕ → Round
slash_round quote comment c =
    if not (quote == 0)
    then record { copies = 1; skip = next; quote = quote; comment = comment }
    else if c == 47
    then record { copies = 0; skip = pass_line; quote = quote; comment = comment }
    else if c == 42
    then record { copies = 0; skip = pass_one; quote = quote; comment = true }
    else record { copies = if comment then 0 else 1; skip = next; quote = quote; comment = comment }

-- At a star, with the byte behind it. In a quotation the star is written in the first branch, and
-- once more behind the last one.
unfoldable pub star_round : ℕ → Bool → ℕ → Round
star_round quote comment c =
    if not (quote == 0)
    then record { copies = 2; skip = next; quote = quote; comment = comment }
    else if comment && c == 47
    then record { copies = 0; skip = pass_one; quote = quote; comment = false }
    else record { copies = if comment then 0 else 1; skip = next; quote = quote; comment = comment }

-- The switch on a byte `c` with the byte `ahead` behind it
unfoldable pub strip_round : ℕ → Bool → ℕ → ℕ → Round
unfolding quote_round slash_round star_round
strip_round quote comment c ahead =
    if c == 92
    then record {
      copies = if comment then 0 else 1;
      skip = if comment then next else copy_one;
      quote = quote;
      comment = comment;
    }
    else if c == 39 || c == 34
    then quote_round quote comment c
    else if c == 47
    then slash_round quote comment ahead
    else if c == 42
    then star_round quote comment ahead
    else record { copies = if comment then 0 else 1; skip = next; quote = quote; comment = comment }

-- src[0], where a NUL ends the text
abbrev pub head_or_nul : Bytes → ℕ
head_or_nul [] = 0
head_or_nul (c ∷ _) = c

-- `*(pout + j++) = c` for `n` times, in front of what is written later
unfoldable pub write : ℕ → ℕ → Option Bytes → Option Bytes
write zero c rest = rest
write (suc n) c rest = Option.map (λ out. c ∷ out) (write n c rest)

-- What the loop writes from `pout + j` on; `none` is a line comment in a last line without an end,
-- where strchr returns NULL. A backslash at the end copies the NUL behind the text.
unfoldable pub strip_loop : Skip → ℕ → Bool → Bytes → Option Bytes
unfolding strip_round write
strip_loop next quote comment [] = some []
strip_loop pass_one quote comment [] = some []
strip_loop copy_one quote comment [] = some (0 ∷ [])
strip_loop pass_line quote comment [] = none
strip_loop next quote comment (c ∷ cs) =
    let r = strip_round quote comment c (head_or_nul cs) in
    write r.copies c (strip_loop r.skip r.quote r.comment cs)
strip_loop pass_one quote comment (c ∷ cs) = strip_loop next quote comment cs
strip_loop copy_one quote comment (c ∷ cs) = write 1 c (strip_loop next quote comment cs)
strip_loop pass_line quote comment (c ∷ cs) =
    let rest = strip_loop pass_line quote comment cs in
    if c == 10 then strip_loop next quote comment cs else rest

-- `_xconfig_strip_comment` of a text that is not NULL, and whose length `int` holds; `none` is a
-- write behind the `len + 1` bytes of `out`, or the NULL of strchr.
unfoldable pub strip_comment : Bytes → Option Bytes
unfolding strip_loop
strip_comment src =
    Option.bind (strip_loop next 0 false src)
      (λ out. if leb (length out) (length src + 1) then some out else none)
