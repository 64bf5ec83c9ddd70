-- ===== src/Utility/Url.antt =====
-- `safe_urldecode` of src/utility.c, against a reference encoder.
use reveldb.Prelude.{
  ℕ, ◌+◌, ◌-◌, ◌*◌, ◌/◌, ◌%◌, ◌<◌, ◌≡◌, take, strlen, strlen-NoNul, NoNul, refl, ◌∙◌, Bool, true,
  false, ◌&&◌, ◌||◌, [], ◌∷◌, Bytes, arith, ltb, leb, ◌==◌, if◌then◌else◌, Bool-cases, inl, inr,
  same_char,
}
use reveldb.TString.Memory.{take_all}

-- isxdigit(c) and tolower(c) in the C locale
abbrev pub is_xdigit : ℕ → Bool
is_xdigit c = (leb 48 c && leb c 57) || (leb 65 c && leb c 70) || (leb 97 c && leb c 102)

abbrev pub to_lower : ℕ → ℕ
to_lower c = if leb 65 c && leb c 90 then c + 32 else c

-- c2 - '0' or c2 - 'a' + 10
abbrev pub hex_value : ℕ → ℕ
hex_value c = if leb c 57 then c - 48 else c - 97 + 10

abbrev pub unplus : ℕ → ℕ
unplus c = if c == 43 then 32 else c

-- The loop of `safe_urldecode` over the bytes in front of the NUL of the C string, at which `url_len`
-- stops it: what it writes in front of the closing NUL. A `%` with fewer than two bytes
-- behind it is copied, as is one that no two digits follow, with them.
unfoldable pub urldecode_loop : Bytes → Bytes
urldecode_loop [] = []
urldecode_loop (c ∷ []) = unplus c ∷ []
urldecode_loop (c ∷ c2 ∷ []) = unplus c ∷ urldecode_loop (c2 ∷ [])
urldecode_loop (c ∷ c2 ∷ c3 ∷ url) = elim (c == 37) [
  | true ↦ elim (is_xdigit c2 && is_xdigit c3) [
    | true ↦ (16 * hex_value (to_lower c2) + hex_value (to_lower c3)) ∷ urldecode_loop url
    | false ↦ c ∷ c2 ∷ c3 ∷ urldecode_loop url
  ]
  | false ↦ unplus c ∷ urldecode_loop (c2 ∷ c3 ∷ url)
]

-- `safe_urldecode`, of a URL that is not NULL and whose length fits the `int` of `url_len`
unfoldable pub safe_urldecode : Bytes → Bytes
unfolding urldecode_loop
safe_urldecode url = urldecode_loop (take (strlen url) url)

-- A digit of the reference encoder
abbrev pub hex_digit : ℕ → ℕ
hex_digit n = if ltb n 10 then 48 + n else 55 + n

-- The reference encoder: the bytes that `keep` does not hold for are written as %XX.
unfoldable pub percent_encode : (ℕ → Bool) → Bytes → Bytes
percent_encode keep [] = []
percent_encode keep (c ∷ cs) =
    let rest = percent_encode keep cs in
    if keep c then c ∷ rest else 37 ∷ hex_digit (c / 16) ∷ hex_digit (c % 16) ∷ rest

-- The values of the bytes
abbrev pub AreBytes : Bytes → Type 0
AreBytes [] = Unit {0}
AreBytes (c ∷ cs) = (c < 256) × AreBytes cs

hex_digit-is_xdigit : (n : ℕ) → n < 16 → is_xdigit (hex_digit n) ≡ true
hex_digit-is_xdigit n h = ground arith

hex_value-hex_digit : (n : ℕ) → n < 16 → hex_value (to_lower (hex_digit n)) ≡ n
hex_value-hex_digit n h = ground arith

decode_kept :
    (c : ℕ) (t : Bytes)
    → (c == 37) ≡ false
    → (c == 43) ≡ false
    → urldecode_loop (c ∷ t) ≡ c ∷ urldecode_loop t
unfolding urldecode_loop
decode_kept c [] p q = rw q
decode_kept c (d ∷ []) p q = rw q
decode_kept c (d ∷ e ∷ t) p q = rw (p, urldecode_loop, q)

decode_escaped :
    (c : ℕ) (t : Bytes)
    → c < 256
    → urldecode_loop (37 ∷ hex_digit (c / 16) ∷ hex_digit (c % 16) ∷ t) ≡ c ∷ urldecode_loop t
unfolding urldecode_loop
decode_escaped c t h =
    let high : c / 16 < 16 = omega arith in
    let low : c % 16 < 16 = omega arith in
    rw
      (
        hex_digit-is_xdigit (c / 16) high,
        urldecode_loop,
        hex_digit-is_xdigit (c % 16) low,
        hex_value-hex_digit (c / 16) high,
        hex_value-hex_digit (c % 16) low,
      )
      (same_char (omega arith) refl)

urldecode_loop-percent_encode :
    (keep : ℕ → Bool) (s : Bytes)
    → keep 37 ≡ false
    → keep 43 ≡ false
    → AreBytes s
    → urldecode_loop (percent_encode keep s) ≡ s
unfolding percent_encode urldecode_loop
urldecode_loop-percent_encode keep [] p q b = refl
urldecode_loop-percent_encode keep (c ∷ cs) p q (h, b) =
    let rest = urldecode_loop-percent_encode keep cs p q b in
    elim (Bool-cases (keep c)) [
      | inl kept ↦
          rw (kept, percent_encode)
            (decode_kept c (percent_encode keep cs) (ground (arith, p, kept))
                (ground (arith, q, kept))
              ∙ same_char refl rest)
      | inr escaped ↦
          rw (escaped, percent_encode)
            (decode_escaped c (percent_encode keep cs) h ∙ same_char refl rest)
    ]

hex_digit_positive : (n : ℕ) → n < 16 → 0 < hex_digit n
hex_digit_positive n h = ground arith

-- An encoder that writes NUL as %00 writes C strings.
percent_encode-NoNul :
    (keep : ℕ → Bool) (s : Bytes) → keep 0 ≡ false → AreBytes s → NoNul (percent_encode keep s)
unfolding percent_encode
percent_encode-NoNul keep [] z b = tt
percent_encode-NoNul keep (c ∷ cs) z (h, b) =
    let rest = percent_encode-NoNul keep cs z b in
    elim (Bool-cases (keep c)) [
      | inl kept ↦ rw kept (ground (arith, z, kept), rest)
      | inr escaped ↦ rw escaped (
        omega arith,
        (
          hex_digit_positive (c / 16) (omega arith),
          (hex_digit_positive (c % 16) (omega arith), rest),
        ),
      )
    ]

-- `safe_urldecode` takes the percent encoding of a text back to the text, whichever bytes the
-- encoder leaves as they are, as long as NUL, `%` and `+` are not among them; the text is of
-- bytes below 256.
pub safe_urldecode-percent_encode :
    (keep : ℕ → Bool) (s : Bytes)
    → keep 0 ≡ false
    → keep 37 ≡ false
    → keep 43 ≡ false
    → AreBytes s
    → safe_urldecode (percent_encode keep s) ≡ s
unfolding safe_urldecode
safe_urldecode-percent_encode keep s z p q b =
    let text = percent_encode keep s in
    let whole : take (strlen text) text ≡ text =
      take_all (strlen text) text
        (omega (arith, strlen-NoNul text (percent_encode-NoNul keep s z b))) in
    rw whole (urldecode_loop-percent_encode keep s p q b)
