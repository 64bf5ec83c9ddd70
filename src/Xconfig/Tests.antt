-- ===== src/Xconfig/Tests.antt =====
-- Runs of `_xconfig_strip_comment` of src/xconfig.c.
use reveldb.Prelude.{◌≡◌, refl, none, some, lit, length, leb, ◌+◌, ◌++◌, ◌∷◌, false, if◌then◌else◌}
use mathlib.Core.Option
use reveldb.Xconfig.{strip_comment}
use reveldb.Xconfig.Comments.{IsPlain, quoted, strip_comment-quoted}

block : strip_comment (lit "a /* b */ c") ≡ some (lit "a  c")
unfolding strip_comment lit Option.bind
block = refl

line_without_end : strip_comment (lit "a // b") ≡ none
unfolding strip_comment lit Option.bind
line_without_end = refl

-- The comment stays, and the first star is there twice, for which the block has just enough room.
kept : strip_comment (lit "'a' /*b ") ≡ some (lit "'a' /**b ")
unfolding strip_comment lit Option.bind
kept = refl

-- The stars of a quoted comment need more room than there is.
overflow : strip_comment (lit "'a' /* b */") ≡ none
unfolding strip_comment lit Option.bind
overflow = refl

name_prefix-IsPlain : IsPlain (lit "{ ")
unfolding IsPlain lit
name_prefix-IsPlain = (refl, refl, refl, refl, (refl, refl, refl, refl, tt))

strip_comment-quoted_example : strip_comment (lit "{ " ++ 34 ∷ lit "a\": 1 /* b */") ≡ (
    if leb (length (quoted false (lit "a\": 1 /* b */"))) (length (lit "a\": 1 /* b */") + 1)
    then some (lit "{ " ++ 34 ∷ quoted false (lit "a\": 1 /* b */"))
    else none)
strip_comment-quoted_example =
    strip_comment-quoted (lit "{ ") 34 (lit "a\": 1 /* b */") name_prefix-IsPlain refl
