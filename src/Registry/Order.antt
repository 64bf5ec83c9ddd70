-- ===== src/Registry/Order.antt =====
-- Trees whose keys increase from left to right, and lookup in their entries.
use reveldb.Prelude.{
  ◌≡◌, refl, subst, sym, ◌∙◌, Option, none, some, List, [], ◌∷◌, ◌++◌, Bytes, Ordering, arith,
  strcmp, strcmp_flip, strcmp_trans, strcmp_eq_iff, bytes_eq, bytes_eq_iff, if◌then◌else◌, inl, inr,
  bytes_eq_of_lt, bytes_eq_of_gt, Ordering-cases,
}
use reveldb.Registry.{Tree, leaf, node, in_order, search}

module _ {ℓ} {V : Type ℓ} where
  -- Every key of the list comes before, or behind, `b`.
  abbrev pub Below : Bytes → List (Bytes × V) → Type 0
  Below b [] = Unit {0}
  Below b ((k, v) ∷ es) = (strcmp k b ≡ Ordering.lt) × Below b es

  abbrev pub Above : Bytes → List (Bytes × V) → Type 0
  Above b [] = Unit {0}
  Above b ((k, v) ∷ es) = (strcmp b k ≡ Ordering.lt) × Above b es

  -- The keys increase.
  abbrev pub IsSorted : List (Bytes × V) → Type 0
  IsSorted [] = Unit {0}
  IsSorted ((k, v) ∷ es) = Above k es × IsSorted es

  -- The value of a key in a list of entries.
  unfoldable pub lookup : List (Bytes × V) → Bytes → Option V
  lookup [] key = none
  lookup ((k, v) ∷ es) key = if bytes_eq k key then some v else lookup es key

  pub Above-trans :
      (a b : Bytes) (es : List (Bytes × V)) → strcmp a b ≡ Ordering.lt → Above b es → Above a es
  Above-trans a b [] h n = tt
  Above-trans a b ((k, v) ∷ es) h (p, n) = (strcmp_trans a b k h p, Above-trans a b es h n)

  pub Below-trans :
      (a b : Bytes) (es : List (Bytes × V)) → Below a es → strcmp a b ≡ Ordering.lt → Below b es
  Below-trans a b [] n h = tt
  Below-trans a b ((k, v) ∷ es) (p, n) h = (strcmp_trans k a b p h, Below-trans a b es n h)

  pub Above-split :
      (b : Bytes) (xs : List (Bytes × V)) (k : Bytes) (v : V) (ys : List (Bytes × V))
      → Above b (xs ++ (k, v) ∷ ys)
      → Above b xs × (strcmp b k ≡ Ordering.lt)
  Above-split b [] k v ys (p, n) = (tt, p)
  Above-split b ((j, w) ∷ xs) k v ys (p, n) = let r = Above-split b xs k v ys n in ((p, r.0), r.1)

  -- A sorted list split at an entry.
  pub IsSorted-split :
      (xs : List (Bytes × V)) (k : Bytes) (v : V) (ys : List (Bytes × V))
      → IsSorted (xs ++ (k, v) ∷ ys)
      → IsSorted xs × Below k xs × Above k ys × IsSorted ys
  IsSorted-split [] k v ys (a, s) = (tt, tt, a, s)
  IsSorted-split ((j, w) ∷ xs) k v ys (a, s) =
      let r = IsSorted-split xs k v ys s in
      let b = Above-split j xs k v ys a in ((b.0, r.0), (b.1, r.1), r.2, r.3)

  pub lookup-Above : (key : Bytes) (es : List (Bytes × V)) → Above key es → lookup es key ≡ none
  unfolding lookup
  lookup-Above key [] n = refl
  lookup-Above key ((k, v) ∷ es) (p, n) = rw (bytes_eq_of_gt k key p) (lookup-Above key es n)

  pub lookup-Below : (key : Bytes) (es : List (Bytes × V)) → Below key es → lookup es key ≡ none
  unfolding lookup
  lookup-Below key [] n = refl
  lookup-Below key ((k, v) ∷ es) (p, n) = rw (bytes_eq_of_lt k key p) (lookup-Below key es n)

  pub lookup-append_right :
      (xs ys : List (Bytes × V)) (key : Bytes)
      → lookup xs key ≡ none
      → lookup (xs ++ ys) key ≡ lookup ys key
  unfolding lookup
  lookup-append_right [] ys key h = refl
  lookup-append_right ((k, v) ∷ xs) ys key h = ground (arith, lookup-append_right xs ys key)

  pub lookup-append_left :
      (xs ys : List (Bytes × V)) (key : Bytes)
      → lookup ys key ≡ none
      → lookup (xs ++ ys) key ≡ lookup xs key
  unfolding lookup
  lookup-append_left [] ys key h = h
  lookup-append_left ((k, v) ∷ xs) ys key h = ground (arith, lookup-append_left xs ys key h)

  -- The lookup in a list that is sorted round the entry of `k`.
  module _ (xs : List (Bytes × V)) (k : Bytes) (v : V) (ys : List (Bytes × V)) (key : Bytes) where
    pub lookup-before :
        Above k ys → strcmp key k ≡ Ordering.lt → lookup (xs ++ (k, v) ∷ ys) key ≡ lookup xs key
    unfolding lookup
    lookup-before a h =
        lookup-append_left xs ((k, v) ∷ ys) key
          (rw (bytes_eq_of_gt k key h) (lookup-Above key ys (Above-trans key k ys h a)))

    pub lookup-at : Below k xs → key ≡ k → lookup (xs ++ (k, v) ∷ ys) key ≡ some v
    unfolding lookup
    lookup-at b e =
        lookup-append_right xs ((k, v) ∷ ys) key
          (lookup-Below key xs (subst (λ j. Below j xs) (sym e) b))
        ∙ rw ((bytes_eq_iff k key).1 (sym e))

    pub lookup-behind :
        Below k xs → strcmp k key ≡ Ordering.lt → lookup (xs ++ (k, v) ∷ ys) key ≡ lookup ys key
    unfolding lookup
    lookup-behind b h =
        lookup-append_right xs ((k, v) ∷ ys) key (lookup-Below key xs (Below-trans k key xs b h))
        ∙ rw (bytes_eq_of_lt k key h)

  -- In a sorted tree the search finds the value of its key in the list of the entries, or none
  -- where the key is not there.
  pub search-lookup :
      (t : Tree V) (key : Bytes) → IsSorted (in_order t) → search t key ≡ lookup (in_order t) key
  unfolding search in_order lookup
  search-lookup leaf key s = refl
  search-lookup (node c l k v r) key s =
      let (sl, bl, ar, sr) = IsSorted-split (in_order l) k v (in_order r) s in
      elim (Ordering-cases (strcmp key k)) [
        | inl before ↦
            rw (before, search)
              (search-lookup l key sl
                ∙ sym (lookup-before (in_order l) k v (in_order r) key ar before))
        | inr (inl same) ↦
            rw (same, search)
              (sym (lookup-at (in_order l) k v (in_order r) key bl ((strcmp_eq_iff key k).0 same)))
        | inr (inr behind) ↦
            rw (behind, search)
              (search-lookup r key sr
                ∙ sym
                    (lookup-behind (in_order l) k v (in_order r) key bl (strcmp_flip key k behind)))
      ]
