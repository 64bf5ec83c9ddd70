-- ===== src/Xconfig/Comments.antt =====
-- What `_xconfig_strip_comment` of src/xconfig.c keeps of a text.
use reveldb.Prelude.{
  ℕ, ◌+◌, leb, ◌≡◌, ◌∙◌, refl, ap, Bool, true, false, Bool-cases, none, some, if◌then◌else◌, inl,
  inr, [], ◌∷◌, ◌++◌, Bytes, length, suc, arith, ◌==◌, ◌||◌,
}
use mathlib.Core.Option
use reveldb.Xconfig.{
  Round, write, head_or_nul, quote_round, star_round, slash_round, Skip, next, copy_one,
  strip_round, strip_loop, strip_comment,
}

-- The state of the loop behind a byte in a quotation, which is written `n` times: the flag stays 1.
abbrev in_quotation : ℕ → Skip → Round
in_quotation n skip = record { copies = n; skip = skip; quote = 1; comment = false }

-- What stands in a quotation that does not end, as it is written: a star twice, the byte behind a
-- backslash once, and every other byte once. A backslash at the end brings the NUL with it.
unfoldable pub quoted : Bool → Bytes → Bytes
quoted false [] = []
quoted true [] = 0 ∷ []
quoted false (c ∷ cs) =
    let rest = quoted false cs in
    let behind = quoted true cs in
    if c == 92 then c ∷ behind else if c == 42 then c ∷ c ∷ rest else c ∷ rest
quoted true (c ∷ cs) = c ∷ quoted false cs

mark-ne-flag : (c : ℕ) → ((c == 39) || (c == 34)) ≡ true → (1 == c) ≡ false
mark-ne-flag c h = ground arith

strip_round-quoted :
    (c ahead : ℕ)
    → strip_round 1 false c ahead ≡ (
        if c == 92
        then in_quotation 1 copy_one
        else if c == 42
        then in_quotation 2 next
        else in_quotation 1 next)
unfolding strip_round
strip_round-quoted c ahead = elim (Bool-cases (c == 92)) [
  | inl escape ↦ rw escape
  | inr plain ↦ elim (Bool-cases ((c == 39) || (c == 34))) [
    | inl mark ↦
        let no_star : (c == 42) ≡ false = ground arith in
        rw (plain, mark, mark-ne-flag c mark, no_star)
    | inr no_mark ↦ elim (Bool-cases (c == 47)) [
      | inl slash ↦
          let no_star : (c == 42) ≡ false = ground arith in rw (plain, no_mark, slash, no_star)
      | inr no_slash ↦ elim (Bool-cases (c == 42)) [
        | inl star ↦ rw (plain, no_mark, no_slash, star)
        | inr no_star ↦ rw (plain, no_mark, no_slash, no_star)
      ]
    ]
  ]
]

strip_loop-quoted :
    (s : Bytes)
    → (strip_loop next 1 false s ≡ some (quoted false s))
      × (strip_loop copy_one 1 false s ≡ some (quoted true s))
unfolding strip_loop quoted write
strip_loop-quoted [] = (refl, refl)
strip_loop-quoted (c ∷ cs) =
    let (plainly, escaped) = strip_loop-quoted cs in
    (
      rw (strip_round-quoted c (head_or_nul cs)) (elim (Bool-cases (c == 92)) [
        | inl escape ↦ rw (escape, escaped)
        | inr plain ↦ elim (Bool-cases (c == 42)) [
          | inl star ↦ rw (plain, star, plainly)
          | inr no_star ↦ rw (plain, no_star, plainly)
        ]
      ]),
      rw plainly,
    )

-- A byte that the switch leaves to its default case
unfoldable pub IsPlain : Bytes → Type 0
IsPlain [] = Unit {0}
IsPlain (c ∷ cs) =
    ((c == 92) ≡ false)
    × (((c == 39) || (c == 34)) ≡ false)
    × ((c == 47) ≡ false)
    × ((c == 42) ≡ false)
    × IsPlain cs

strip_loop-plain :
    (pre s : Bytes)
    → IsPlain pre
    → strip_loop next 0 false (pre ++ s)
      ≡ Option.map (λ out. pre ++ out) (strip_loop next 0 false s)
unfolding strip_loop strip_round write IsPlain
strip_loop-plain [] s plain =
    elim (strip_loop next 0 false s) as (λ o. o ≡ Option.map (λ out. out) o) [
      | none ↦ refl
      | some out ↦ refl
    ]
strip_loop-plain (c ∷ cs) s (a, b, d, e, plain) =
    rw (a, b, d, e, strip_loop-plain cs s plain)
      (elim (strip_loop next 0 false s)
        as (λ o.
          Option.map (λ out. c ∷ out) (Option.map (λ out. cs ++ out) o)
          ≡ Option.map (λ out. c ∷ cs ++ out) o) [ none ↦ refl | some out ↦ refl ])

strip_loop-mark :
    (mark : ℕ) (s : Bytes)
    → ((mark == 39) || (mark == 34)) ≡ true
    → strip_loop next 0 false (mark ∷ s) ≡ some (mark ∷ quoted false s)
unfolding strip_loop strip_round quote_round write
strip_loop-mark mark s h =
    let no_escape : (mark == 92) ≡ false = ground arith in
    rw (no_escape, h, (strip_loop-quoted s).0)

length-behind :
    (pre : Bytes) (c : ℕ) (s : Bytes) → length (pre ++ c ∷ s) ≡ length pre + suc (length s)
length-behind [] c s = omega arith
length-behind (b ∷ pre) c s = omega (arith, length-behind pre c s)

-- Behind the first quotation mark `_xconfig_strip_comment` strips nothing: what it writes is
-- the text, comments included, with every star twice that no backslash stands in front of, and
-- with the NUL behind a backslash at the end. If this is more than one byte longer than the
-- text, the block overflows. In front of the mark stand no backslash, quotation mark, slash and
-- star.
pub strip_comment-quoted :
    (pre : Bytes) (mark : ℕ) (s : Bytes)
    → IsPlain pre
    → ((mark == 39) || (mark == 34)) ≡ true
    → strip_comment (pre ++ mark ∷ s) ≡ (
        if leb (length (quoted false s)) (length s + 1)
        then some (pre ++ mark ∷ quoted false s)
        else none)
unfolding strip_comment Option.bind
strip_comment-quoted pre mark s plain h =
    let room : leb (length (pre ++ mark ∷ quoted false s)) (length (pre ++ mark ∷ s) + 1)
        ≡ leb (length (quoted false s)) (length s + 1) =
      ground (arith, length-behind pre mark s, length-behind pre mark (quoted false s)) in
    rw (strip_loop-plain pre (mark ∷ s) plain, strip_loop-mark mark s h, room)

-- A block comment whose text has no star, slash or quotation mark in it
strip_loop-comment :
    (body rest : Bytes)
    → IsPlain body
    → strip_loop next 0 true (body ++ 42 ∷ 47 ∷ rest) ≡ strip_loop next 0 false rest
unfolding strip_loop strip_round star_round write IsPlain
strip_loop-comment [] rest plain = refl
strip_loop-comment (c ∷ cs) rest (a, b, d, e, plain) =
    rw (a, b, d, e) (strip_loop-comment cs rest plain)

-- A block comment behind a text without backslashes, quotation marks, slashes and stars is taken out
-- of what the loop writes, if its own text has none of them.
pub strip_loop-block :
    (pre body rest : Bytes)
    → IsPlain pre
    → IsPlain body
    → strip_loop next 0 false (pre ++ (47 ∷ 42 ∷ body ++ 42 ∷ 47 ∷ rest))
      ≡ Option.map (λ out. pre ++ out) (strip_loop next 0 false rest)
unfolding strip_loop strip_round slash_round write
strip_loop-block pre body rest before plain =
    strip_loop-plain pre (47 ∷ 42 ∷ body ++ 42 ∷ 47 ∷ rest) before
    ∙ ap (λ o. Option.map (λ out. pre ++ out) o) (strip_loop-comment body rest plain)
