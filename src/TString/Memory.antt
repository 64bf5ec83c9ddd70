-- ===== src/TString/Memory.antt =====
-- Laws of the block operations of tstring.c: what a write leaves in front of it and behind it.
use reveldb.Prelude.{
  ℕ, zero, suc, ◌+◌, ◌≤◌, ◌≡◌, refl, ap, [], ◌∷◌, ◌++◌, Bytes, arith, length, set, take, drop,
  get_or, min, sym, ◌∙◌, length-take, take-append-drop,
}
use native.Mathlib.Decide.{dec_le}
use reveldb.TString.{blit, fresh, realloc}

pub length-blit : (xs : Bytes) (i : ℕ) (ys : Bytes) → length (blit xs i ys) ≡ length xs
unfolding blit
length-blit [] i ys = refl
length-blit (x ∷ xs) (suc i) ys = ap suc (length-blit xs i ys)
length-blit (x ∷ xs) zero [] = refl
length-blit (x ∷ xs) zero (y ∷ ys) = ap suc (length-blit xs zero ys)

-- Up to its own end, a write that fits leaves the bytes before it and its bytes.
pub take-blit :
    (n : ℕ) (xs : Bytes) (i : ℕ) (ys : Bytes)
    → n ≡ i + length ys
    → n ≤ length xs
    → take n (blit xs i ys) ≡ take i xs ++ ys
unfolding blit
take-blit zero xs zero [] e h = refl
take-blit zero xs zero (y ∷ ys) e h = absurd (omega arith)
take-blit zero xs (suc i) ys e h = absurd (omega arith)
take-blit (suc n) [] i ys e h = absurd (omega arith)
take-blit (suc n) (x ∷ xs) zero [] e h = absurd (omega arith)
take-blit (suc n) (x ∷ xs) zero (y ∷ ys) e h =
    ap (λ r. y ∷ r) (take-blit n xs zero ys (omega arith) (omega arith))
take-blit (suc n) (x ∷ xs) (suc i) ys e h =
    ap (λ r. x ∷ r) (take-blit n xs i ys (omega arith) (omega arith))

-- A write that ends before `n` is a write to the first `n` bytes.
pub take-blit-inside :
    (n : ℕ) (xs : Bytes) (i : ℕ) (ys : Bytes)
    → i + length ys ≤ n
    → take n (blit xs i ys) ≡ blit (take n xs) i ys
unfolding blit
take-blit-inside zero xs zero [] h = refl
take-blit-inside zero xs zero (y ∷ ys) h = absurd (omega arith)
take-blit-inside zero xs (suc i) ys h = absurd (omega arith)
take-blit-inside (suc n) [] i ys h = refl
take-blit-inside (suc n) (x ∷ xs) zero [] h = refl
take-blit-inside (suc n) (x ∷ xs) zero (y ∷ ys) h =
    ap (λ r. y ∷ r) (take-blit-inside n xs zero ys (omega arith))
take-blit-inside (suc n) (x ∷ xs) (suc i) ys h =
    ap (λ r. x ∷ r) (take-blit-inside n xs i ys (omega arith))

-- A write that ends where `xs` ends.
pub blit-append :
    (xs : Bytes) (i : ℕ) (ys zs : Bytes)
    → length xs ≡ i + length ys
    → blit (xs ++ zs) i ys ≡ take i xs ++ ys ++ zs
unfolding blit
blit-append [] zero [] [] e = refl
blit-append [] zero [] (z ∷ zs) e = refl
blit-append [] zero (y ∷ ys) zs e = absurd (omega arith)
blit-append [] (suc i) ys zs e = absurd (omega arith)
blit-append (x ∷ xs) zero [] zs e = absurd (omega arith)
blit-append (x ∷ xs) zero (y ∷ ys) zs e = ap (λ r. y ∷ r) (blit-append xs zero ys zs (omega arith))
blit-append (x ∷ xs) (suc i) ys zs e = ap (λ r. x ∷ r) (blit-append xs i ys zs (omega arith))

pub take-set : (n : ℕ) (xs : Bytes) (v : ℕ) → take n (set xs n v) ≡ take n xs
take-set zero xs v = refl
take-set (suc n) [] v = refl
take-set (suc n) (x ∷ xs) v = ap (λ r. x ∷ r) (take-set n xs v)

pub take-take : (i n : ℕ) (xs : Bytes) → i ≤ n → take i (take n xs) ≡ take i xs
take-take zero n xs h = refl
take-take (suc i) zero xs h = absurd (omega arith)
take-take (suc i) (suc n) [] h = refl
take-take (suc i) (suc n) (x ∷ xs) h = ap (λ r. x ∷ r) (take-take i n xs (omega arith))

nil-take : (k : ℕ) → ◌≡◌ {A = Bytes} [] (take k [])
nil-take zero = refl
nil-take (suc k) = refl

pub take_all : (n : ℕ) (xs : Bytes) → length xs ≤ n → take n xs ≡ xs
take_all zero [] h = refl
take_all zero (x ∷ xs) h = absurd (omega arith)
take_all (suc n) [] h = refl
take_all (suc n) (x ∷ xs) h = ap (λ r. x ∷ r) (take_all n xs (omega arith))

pub take-min : (n m : ℕ) (xs : Bytes) → take (min n m) xs ≡ take n (take m xs)
take-min n m xs = elim (dec_le n m) [
  | yes h ↦ ap (λ k. take k xs) (omega arith) ∙ sym (take-take n m xs h)
  | no h ↦
      ap (λ k. take k xs) (omega arith)
      ∙ sym (take_all n (take m xs) (omega (arith, length-take m xs)))
]

-- The bytes between two positions.
pub drop-take : (i n : ℕ) (xs : Bytes) (m : ℕ) → n ≡ i + m → drop i (take n xs) ≡ take m (drop i xs)
drop-take zero n xs m e = ap (λ k. take k xs) (omega arith)
drop-take (suc i) zero xs m e = absurd (omega arith)
drop-take (suc i) (suc n) [] m e = nil-take m
drop-take (suc i) (suc n) (x ∷ xs) m e = drop-take i n xs m (omega arith)

pub drop_all : (n : ℕ) (xs : Bytes) → length xs ≤ n → drop n xs ≡ []
drop_all zero [] h = refl
drop_all zero (x ∷ xs) h = absurd (omega arith)
drop_all (suc n) [] h = refl
drop_all (suc n) (x ∷ xs) h = drop_all n xs (omega arith)

pub length-fresh : (fill : ℕ → ℕ) (i n : ℕ) → length (fresh fill i n) ≡ n
unfolding fresh
length-fresh fill i zero = refl
length-fresh fill i (suc n) = ap suc (length-fresh fill (suc i) n)

pub length-realloc : (fill : ℕ → ℕ) (xs : Bytes) (n : ℕ) → length (realloc fill xs n) ≡ n
unfolding realloc
length-realloc fill [] n = length-fresh fill 0 n
length-realloc fill (x ∷ xs) zero = refl
length-realloc fill (x ∷ xs) (suc n) = ap suc (length-realloc (λ i. fill (suc i)) xs n)

-- A block keeps the bytes that fit into its new size.
pub take-realloc :
    (fill : ℕ → ℕ) (k : ℕ) (xs : Bytes) (n : ℕ)
    → k ≤ length xs
    → k ≤ n
    → take k (realloc fill xs n) ≡ take k xs
unfolding realloc
take-realloc fill zero xs n h g = refl
take-realloc fill (suc k) [] n h g = absurd (omega arith)
take-realloc fill (suc k) (x ∷ xs) zero h g = absurd (omega arith)
take-realloc fill (suc k) (x ∷ xs) (suc n) h g =
    ap (λ r. x ∷ r) (take-realloc (λ i. fill (suc i)) k xs n (omega arith) (omega arith))

pub get_or-set_self : (xs : Bytes) (i v d : ℕ) → suc i ≤ length xs → get_or (set xs i v) i d ≡ v
get_or-set_self [] i v d h = absurd (omega arith)
get_or-set_self (x ∷ xs) zero v d h = refl
get_or-set_self (x ∷ xs) (suc i) v d h = get_or-set_self xs i v d (omega arith)

-- What a write in the middle of a block leaves.
pub blit-middle :
    (xs : Bytes) (i : ℕ) (ys : Bytes)
    → i + length ys ≤ length xs
    → blit xs i ys ≡ take i xs ++ ys ++ drop (i + length ys) xs
blit-middle xs i ys h =
    let n = i + length ys in
    ap (λ zs. blit zs i ys) (sym (take-append-drop n xs))
    ∙ blit-append (take n xs) i ys (drop n xs) (omega (arith, length-take n xs))
    ∙ ap (λ zs. zs ++ ys ++ drop n xs) (take-take i n xs (omega arith))

pub get_or-blit :
    (xs : Bytes) (i : ℕ) (ys : Bytes) (k d : ℕ)
    → i + length ys ≤ k
    → get_or (blit xs i ys) k d ≡ get_or xs k d
unfolding blit
get_or-blit [] i ys k d h = refl
get_or-blit (x ∷ xs) (suc i) ys zero d h = absurd (omega arith)
get_or-blit (x ∷ xs) (suc i) ys (suc k) d h = get_or-blit xs i ys k d (omega arith)
get_or-blit (x ∷ xs) zero [] k d h = refl
get_or-blit (x ∷ xs) zero (y ∷ ys) zero d h = absurd (omega arith)
get_or-blit (x ∷ xs) zero (y ∷ ys) (suc k) d h = get_or-blit xs zero ys k d (omega arith)
