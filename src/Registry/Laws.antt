-- ===== src/Registry/Laws.antt =====
-- The insertion loops and the removal of the registries, against a sorted list of entries.
use reveldb.Prelude.{
  ◌≡◌, ◌↔◌, refl, subst, sym, ap, ◌∙◌, true, false, none, some, List, [], ◌∷◌, ◌++◌, Bytes,
  Ordering, arith, strcmp, strcmp_flip, strcmp_flip_lt, strcmp_trans, strcmp_eq_iff, bytes_eq,
  bytes_eq_iff, if◌then◌else◌, inl, inr, Bool-cases, Option-cases, bytes_eq_of_lt, Ordering-cases,
}
use reveldb.Registry.{
  Tree, leaf, node, Color, in_order, search, link, insert, without, Balancer, KeepsOrder,
}
use reveldb.Registry.Order.{
  Below, Above, IsSorted, lookup, IsSorted-split, Above-trans, lookup-Above, search-lookup,
  lookup-before, lookup-at, lookup-behind,
}

module _ {ℓ} {V : Type ℓ} where
  -- Insertion of a new key into a sorted list.
  place : Bytes → V → List (Bytes × V) → List (Bytes × V)
  place key new [] = (key, new) ∷ []
  place key new ((k, v) ∷ es) =
      let rest = place key new es in
      elim (strcmp key k) [ Ordering.lt ↦ (key, new) ∷ (k, v) ∷ es | _ ↦ (k, v) ∷ rest ]

  place-left :
      (key : Bytes) (new : V) (xs : List (Bytes × V)) (k : Bytes) (v : V) (ys : List (Bytes × V))
      → strcmp key k ≡ Ordering.lt
      → place key new (xs ++ (k, v) ∷ ys) ≡ place key new xs ++ (k, v) ∷ ys
  unfolding place
  place-left key new [] k v ys h = rw (h, place)
  place-left key new ((j, w) ∷ xs) k v ys h = ground (arith, place-left key new xs k v ys h)

  place-right :
      (key : Bytes) (new : V) (xs : List (Bytes × V)) (k : Bytes) (v : V) (ys : List (Bytes × V))
      → Below k xs
      → strcmp k key ≡ Ordering.lt
      → place key new (xs ++ (k, v) ∷ ys) ≡ xs ++ (k, v) ∷ place key new ys
  unfolding place
  place-right key new [] k v ys b h = rw (strcmp_flip_lt k key h, place)
  place-right key new ((j, w) ∷ xs) k v ys (p, b) h =
      rw (strcmp_flip_lt j key (strcmp_trans j k key p h), place)
        (ap (λ es. (j, w) ∷ es) (place-right key new xs k v ys b h))

  -- A new key is linked where the sorted order has it; a key that is there is refused.
  link-place :
      (t : Tree V) (key : Bytes) (new : V)
      → IsSorted (in_order t)
      → lookup (in_order t) key ≡ none
      → (t' : Tree V) × (link t key new ≡ some t') × (in_order t' ≡ place key new (in_order t))
  unfolding link in_order place
  link-place leaf key new s h = (node Color.red leaf key new leaf, refl, refl)
  link-place (node c l k v r) key new s h =
      let (sl, bl, ar, sr) = IsSorted-split (in_order l) k v (in_order r) s in
      elim (Ordering-cases (strcmp key k)) [
        | inl before ↦
            let absent = sym (lookup-before (in_order l) k v (in_order r) key ar before) ∙ h in
            let (t, e, o) = link-place l key new sl absent in
            (
              node c t k v r,
              rw (before, link, e),
              rw o (sym (place-left key new (in_order l) k v (in_order r) before)),
            )
        | inr (inl same) ↦
            cc (h, lookup-at (in_order l) k v (in_order r) key bl ((strcmp_eq_iff key k).0 same))
        | inr (inr behind) ↦
            let lt = strcmp_flip key k behind in
            let absent = sym (lookup-behind (in_order l) k v (in_order r) key bl lt) ∙ h in
            let (t, e, o) = link-place r key new sr absent in
            (
              node c l k v t,
              rw (behind, link, e),
              rw o (sym (place-right key new (in_order l) k v (in_order r) bl lt)),
            )
      ]

  -- A key that is there is refused.
  link-present :
      (t : Tree V) (key : Bytes) (new old : V)
      → IsSorted (in_order t)
      → lookup (in_order t) key ≡ some old
      → link t key new ≡ none
  unfolding link in_order
  link-present leaf key new old s h = cc (h, lookup-Above {V = V} key [] tt)
  link-present (node c l k v r) key new old s h =
      let (sl, bl, ar, sr) = IsSorted-split (in_order l) k v (in_order r) s in
      elim (Ordering-cases (strcmp key k)) [
        | inl before ↦
            let there = sym (lookup-before (in_order l) k v (in_order r) key ar before) ∙ h in
            rw (before, link, link-present l key new old sl there)
        | inr (inl same) ↦ rw (same, link)
        | inr (inr behind) ↦
            let lt = strcmp_flip key k behind in
            let there = sym (lookup-behind (in_order l) k v (in_order r) key bl lt) ∙ h in
            rw (behind, link, link-present r key new old sr there)
      ]

  Above-place :
      (b key : Bytes) (new : V) (es : List (Bytes × V))
      → strcmp b key ≡ Ordering.lt
      → Above b es
      → Above b (place key new es)
  unfolding place
  Above-place b key new [] h n = (h, tt)
  Above-place b key new ((k, v) ∷ es) h (p, n) = elim (Ordering-cases (strcmp key k)) [
    | inl lt ↦ rw (lt, place) (h, (p, n))
    | inr (inl eq) ↦ rw (eq, place) (p, Above-place b key new es h n)
    | inr (inr gt) ↦ rw (gt, place) (p, Above-place b key new es h n)
  ]

  IsSorted-place :
      (key : Bytes) (new : V) (es : List (Bytes × V))
      → IsSorted es
      → lookup es key ≡ none
      → IsSorted (place key new es)
  unfolding place lookup
  IsSorted-place key new [] s h = (tt, tt)
  IsSorted-place key new ((k, v) ∷ es) (a, s) h = elim (Ordering-cases (strcmp key k)) [
    | inl lt ↦ rw (lt, place) ((lt, Above-trans key k es lt a), (a, s))
    | inr (inl eq) ↦
        let same = (bytes_eq_iff k key).1 (sym ((strcmp_eq_iff key k).0 eq)) in cc (rw same at h)
    | inr (inr gt) ↦
        let rest = rw (bytes_eq_of_lt k key (strcmp_flip key k gt)) at h in
        rw (gt, place)
          (Above-place k key new es (strcmp_flip key k gt) a, IsSorted-place key new es s rest)
  ]

  lookup-place :
      (key : Bytes) (new : V) (es : List (Bytes × V)) (j : Bytes)
      → lookup es key ≡ none
      → lookup (place key new es) j ≡ (if bytes_eq key j then some new else lookup es j)
  unfolding place lookup
  lookup-place key new [] j h = refl
  lookup-place key new ((k, v) ∷ es) j h =
      ground
        (arith, lookup-place key new es j, bytes_eq_iff key j, bytes_eq_iff k j, bytes_eq_iff k key)

  pub lookup-without :
      (key : Bytes) (es : List (Bytes × V)) (j : Bytes)
      → lookup (without key es) j ≡ (if bytes_eq key j then none else lookup es j)
  unfolding lookup without
  lookup-without key [] j = ground arith
  lookup-without key ((k, v) ∷ es) j =
      ground
        (arith, lookup-without key es j, bytes_eq_iff key j, bytes_eq_iff k j, bytes_eq_iff k key)

  Above-without : (b key : Bytes) (es : List (Bytes × V)) → Above b es → Above b (without key es)
  unfolding without
  Above-without b key [] n = tt
  Above-without b key ((k, v) ∷ es) (p, n) = elim (Bool-cases (bytes_eq k key)) [
    | inl same ↦ rw same (Above-without b key es n)
    | inr other ↦ rw other (p, Above-without b key es n)
  ]

  IsSorted-without : (key : Bytes) (es : List (Bytes × V)) → IsSorted es → IsSorted (without key es)
  unfolding without
  IsSorted-without key [] s = tt
  IsSorted-without key ((k, v) ∷ es) (a, s) = elim (Bool-cases (bytes_eq k key)) [
    | inl same ↦ rw same (IsSorted-without key es s)
    | inr other ↦ rw other (Above-without k key es a, IsSorted-without key es s)
  ]

module _ {ℓ} {V : Type ℓ} (rb : Balancer V) (ko : KeepsOrder rb) where
  open rb use {erase}

  insert-linked :
      (t t' : Tree V) (key : Bytes) (new : V)
      → link t key new ≡ some t'
      → insert rb t key new ≡ (rb.insert_color t' key, true)
  unfolding insert
  insert-linked t t' key new e = rw (e, insert)

  insert-refused :
      (t : Tree V) (key : Bytes) (new : V)
      → link t key new ≡ none
      → insert rb t key new ≡ (t, false)
  unfolding insert
  insert-refused t key new e = rw (e, insert)

  -- On a sorted registry, an insertion returns 1 exactly if the key was not there. Then the
  -- search finds the new entry at its key, and the old entries; otherwise nothing is changed.
  -- The registry stays sorted. The balancing code keeps the entries and their order.
  pub search-insert :
      (t : Tree V) (key : Bytes) (new : V)
      → IsSorted (in_order t)
      → IsSorted (in_order (insert rb t key new).0)
        × (((insert rb t key new).1 ≡ true) ↔ (search t key ≡ none))
        × ((insert rb t key new).1 ≡ false → (insert rb t key new).0 ≡ t)
        × ((j : Bytes)
            → (insert rb t key new).1 ≡ true
            → search (insert rb t key new).0 j ≡ (if bytes_eq key j then some new else search t j))
  search-insert t key new s = elim (Option-cases (lookup (in_order t) key)) [
    | inl absent ↦
        let (t', e, o) = link-place t key new s absent in
        let order = ko.insert_color_keeps t' key ∙ o in
        let sorted = subst IsSorted (sym order) (IsSorted-place key new (in_order t) s absent) in
        rw (insert-linked t t' key new e) (
          sorted,
          (λ _. search-lookup t key s ∙ absent, λ _. refl),
          λ h. cc,
          λ j _.
              search-lookup (rb.insert_color t' key) j sorted
              ∙ ap (λ es. lookup es j) order
              ∙ lookup-place key new (in_order t) j absent
              ∙ rw (search-lookup t j s),
        )
    | inr (old, there) ↦
        let found = search-lookup t key s ∙ there in
        rw (insert-refused t key new (link-present t key new old s there))
          (s, (λ h. cc, λ h. cc (h, found)), λ _. refl, λ j h. cc)
  ]

  -- On a sorted registry, an erased key is not found any more, all others are found as before,
  -- and the registry stays sorted. The balancing code takes the entries of the key out and
  -- keeps the others in their order.
  pub search-erase :
      (t : Tree V) (key : Bytes)
      → IsSorted (in_order t)
      → IsSorted (in_order (erase t key))
        × ((j : Bytes) → search (erase t key) j ≡ (if bytes_eq key j then none else search t j))
  search-erase t key s =
      let sorted =
        subst IsSorted (sym (ko.erase_removes t key)) (IsSorted-without key (in_order t) s) in
      (
        sorted,
        λ j.
            search-lookup (erase t key) j sorted
            ∙ ap (λ es. lookup es j) (ko.erase_removes t key)
            ∙ lookup-without key (in_order t) j
            ∙ rw (search-lookup t j s),
      )
