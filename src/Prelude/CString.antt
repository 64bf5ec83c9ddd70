-- ===== src/Prelude/CString.antt =====
-- C strings: lists of bytes without the closing NUL, `strcmp` and the test `strcmp(a, b) == 0`.
use Prim.Native.Nat.{ℕ, suc, ◌≤◌, ◌<◌, compare, Ordering}
use Prim.Native.Char.{code}
use Prim.Native.String.{String}
use mathlib.Core.Path.{◌≡◌, refl, subst, sym}
use mathlib.Core.Logic.{◌↔◌, ◌⊎◌, inl, inr}
use mathlib.Core.Bool.{Bool, true, false, ◌&&◌}
use mathlib.Core.List.{List, [], ◌∷◌, ◌++◌}
use native.Mathlib.Omega.{arith}
use reveldb.Prelude.Lists.{length}
use reveldb.Prelude.Tests.{◌==◌, if◌then◌else◌, Bool-cases}

abbrev pub Bytes : Type 0
Bytes = List ℕ

-- A string literal of the source. Shut, so that proofs do not spell the characters out.
unfoldable pub lit : String → Bytes
lit String.[] = []
lit (String.◌∷◌ c s) = code c ∷ lit s

-- strcmp(a, b) == 0
unfoldable pub bytes_eq : Bytes → Bytes → Bool
bytes_eq [] [] = true
bytes_eq [] (b ∷ bs) = false
bytes_eq (a ∷ as') [] = false
bytes_eq (a ∷ as') (b ∷ bs) = (a == b) && bytes_eq as' bs

-- The sign of strcmp(a, b).
unfoldable pub strcmp : Bytes → Bytes → Ordering
strcmp [] [] = Ordering.eq
strcmp [] (b ∷ bs) = Ordering.lt
strcmp (a ∷ as') [] = Ordering.gt
strcmp (a ∷ as') (b ∷ bs) = elim (compare a b) [
  | Ordering.lt ↦ Ordering.lt
  | Ordering.eq ↦ strcmp as' bs
  | Ordering.gt ↦ Ordering.gt
]

pub same_char : {a b : ℕ} {as' bs : Bytes} → a ≡ b → as' ≡ bs → a ∷ as' ≡ b ∷ bs
same_char p q = cc

bytes_eq_to : (a b : Bytes) → bytes_eq a b ≡ true → a ≡ b
unfolding bytes_eq
bytes_eq_to [] [] h = refl
bytes_eq_to [] (b ∷ bs) h = cc
bytes_eq_to (a ∷ as') [] h = cc
bytes_eq_to (a ∷ as') (b ∷ bs) h = same_char (ground arith) (bytes_eq_to as' bs (ground arith))

bytes_eq_refl : (a : Bytes) → bytes_eq a a ≡ true
unfolding bytes_eq
bytes_eq_refl [] = refl
bytes_eq_refl (a ∷ as') = ground (arith, bytes_eq_refl as')

pub bytes_eq_iff : (a b : Bytes) → (bytes_eq a b ≡ true) ↔ (a ≡ b)
bytes_eq_iff a b = (bytes_eq_to a b, λ p. subst (λ c. bytes_eq a c ≡ true) p (bytes_eq_refl a))

pub strcmp_refl : (a : Bytes) → strcmp a a ≡ Ordering.eq
unfolding strcmp
strcmp_refl [] = refl
strcmp_refl (a ∷ as') = ground (arith, strcmp_refl as')

strcmp_to : (a b : Bytes) → strcmp a b ≡ Ordering.eq → a ≡ b
unfolding strcmp
strcmp_to [] [] h = refl
strcmp_to [] (b ∷ bs) h = cc
strcmp_to (a ∷ as') [] h = cc
strcmp_to (a ∷ as') (b ∷ bs) h = same_char (ground arith) (strcmp_to as' bs (ground arith))

pub strcmp_eq_iff : (a b : Bytes) → (strcmp a b ≡ Ordering.eq) ↔ (a ≡ b)
strcmp_eq_iff a b = (strcmp_to a b, λ p. subst (λ c. strcmp a c ≡ Ordering.eq) p (strcmp_refl a))

pub strcmp_flip : (a b : Bytes) → strcmp a b ≡ Ordering.gt → strcmp b a ≡ Ordering.lt
unfolding strcmp
strcmp_flip [] [] h = cc
strcmp_flip [] (b ∷ bs) h = cc
strcmp_flip (a ∷ as') [] h = refl
strcmp_flip (a ∷ as') (b ∷ bs) h = ground (arith, strcmp_flip as' bs)

pub strcmp_flip_lt : (a b : Bytes) → strcmp a b ≡ Ordering.lt → strcmp b a ≡ Ordering.gt
unfolding strcmp
strcmp_flip_lt [] [] h = cc
strcmp_flip_lt [] (b ∷ bs) h = refl
strcmp_flip_lt (a ∷ as') [] h = cc
strcmp_flip_lt (a ∷ as') (b ∷ bs) h = ground (arith, strcmp_flip_lt as' bs)

pub strcmp_trans :
    (a b c : Bytes) → strcmp a b ≡ Ordering.lt → strcmp b c ≡ Ordering.lt → strcmp a c ≡ Ordering.lt
unfolding strcmp
strcmp_trans [] [] c h k = cc
strcmp_trans [] (b ∷ bs) [] h k = cc
strcmp_trans [] (b ∷ bs) (c ∷ cs) h k = refl
strcmp_trans (a ∷ as') [] c h k = cc
strcmp_trans (a ∷ as') (b ∷ bs) [] h k = cc
strcmp_trans (a ∷ as') (b ∷ bs) (c ∷ cs) h k = ground (arith, strcmp_trans as' bs cs)

pub bytes_eq_of_lt : (a b : Bytes) → strcmp a b ≡ Ordering.lt → bytes_eq a b ≡ false
bytes_eq_of_lt a b h = elim (Bool-cases (bytes_eq a b)) [
  | inl same ↦ cc (h, (strcmp_eq_iff a b).1 ((bytes_eq_iff a b).0 same))
  | inr other ↦ other
]

pub bytes_eq_of_gt : (a b : Bytes) → strcmp b a ≡ Ordering.lt → bytes_eq a b ≡ false
bytes_eq_of_gt a b h = elim (Bool-cases (bytes_eq a b)) [
  | inl same ↦ cc (h, (strcmp_eq_iff b a).1 (sym ((bytes_eq_iff a b).0 same)))
  | inr other ↦ other
]

pub Ordering-cases : (o : Ordering) → (o ≡ Ordering.lt) ⊎ (o ≡ Ordering.eq) ⊎ (o ≡ Ordering.gt)
Ordering-cases Ordering.lt = inl refl
Ordering-cases Ordering.eq = inr (inl refl)
Ordering-cases Ordering.gt = inr (inr refl)

-- strlen(val): the bytes up to the first NUL, or all that are known to be readable.
unfoldable pub strlen : Bytes → ℕ
strlen [] = 0
strlen (c ∷ cs) = if c == 0 then 0 else suc (strlen cs)

pub strlen-le-length : (val : Bytes) → strlen val ≤ length val
unfolding strlen
strlen-le-length [] = omega arith
strlen-le-length (c ∷ cs) = ground (arith, strlen-le-length cs)

-- A string without NUL is as long as its list.
abbrev pub NoNul : Bytes → Type 0
NoNul [] = Unit {0}
NoNul (c ∷ cs) = (0 < c) × NoNul cs

pub strlen-NoNul : (val : Bytes) → NoNul val → strlen val ≡ length val
unfolding strlen
strlen-NoNul [] h = refl
strlen-NoNul (c ∷ cs) (p, h) = ground (arith, strlen-NoNul cs h)

pub NoNul-append : (a b : Bytes) → NoNul a → NoNul b → NoNul (a ++ b)
NoNul-append [] b h k = k
NoNul-append (c ∷ cs) b (p, h) k = (p, NoNul-append cs b h k)
