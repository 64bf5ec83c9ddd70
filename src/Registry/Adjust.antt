-- ===== src/Registry/Adjust.antt =====
-- A change to the entry that the search of a registry finds.
use reveldb.Prelude.{
  ◌≡◌, refl, Bytes, Ordering, strcmp, strcmp_eq_iff, bytes_eq, bytes_eq_iff, if◌then◌else◌, arith,
}
use mathlib.Core.Option
use reveldb.Registry.{Tree, leaf, node, search}

module _ {ℓ} {V : Type ℓ} where
  -- The tree behind a write through the pointer that `search` returns
  unfoldable pub adjust : Tree V → Bytes → (V → V) → Tree V
  adjust leaf key f = leaf
  adjust (node c l k v r) key f = elim (strcmp key k) [
    | Ordering.lt ↦ node c (adjust l key f) k v r
    | Ordering.gt ↦ node c l k v (adjust r key f)
    | Ordering.eq ↦ node c l k (f v) r
  ]

  -- The search sees the change at its key, and the old entries elsewhere.
  pub search-adjust :
      (t : Tree V) (key : Bytes) (f : V → V) (j : Bytes)
      → search (adjust t key f) j
        ≡ (if bytes_eq key j then Option.map f (search t j) else search t j)
  unfolding adjust search
  search-adjust leaf key f j = ground arith
  search-adjust (node c l k v r) key f j = ground (
    arith,
    search-adjust l key f j,
    search-adjust r key f j,
    bytes_eq_iff key j,
    strcmp_eq_iff key k,
    strcmp_eq_iff j k,
  )

  -- Two writes through the pointer are one, and a write of what is there is none.
  pub adjust-adjust :
      (t : Tree V) (key : Bytes) (f g : V → V)
      → adjust (adjust t key f) key g ≡ adjust t key (λ v. g (f v))
  unfolding adjust
  adjust-adjust leaf key f g = refl
  adjust-adjust (node c l k v r) key f g =
      ground (arith, adjust-adjust l key f g, adjust-adjust r key f g)

  pub adjust-same : (t : Tree V) (key : Bytes) → adjust t key (λ v. v) ≡ t
  unfolding adjust
  adjust-same leaf key = refl
  adjust-same (node c l k v r) key = ground (arith, adjust-same l key, adjust-same r key)
