-- ===== src/Registry.antt =====
-- The red-black trees keyed by a C string that src/reveldb.c, src/iter.c, src/snapshot.c and
-- src/writebatch.c keep: their search and insertion loops.
-- The balancing code (rb_insert_color and rb_erase of src/rbtree.c, a copy of the Linux kernel's)
-- is the parameter `Balancer`; what is known of it is `KeepsOrder`.
pub mod Order
pub mod Laws
pub mod Adjust
pub mod Chain
mod Tests
use mathlib.Core.Option
use reveldb.Prelude.{
  ◌≡◌, Bool, true, false, Option, none, some, List, [], ◌∷◌, ◌++◌, Bytes, Ordering, strcmp,
  bytes_eq, if◌then◌else◌,
}

pub data Color : Type 0 where
  red black : Color

-- A tree of `struct rb_node`; each node is embedded in an entry with its key.
pub data Tree {ℓ} (V : Type ℓ) : Type ℓ where
  leaf : Tree V
  node : Color → Tree V → Bytes → V → Tree V → Tree V

module _ {ℓ} {V : Type ℓ} where
  -- The entries from left to right.
  pub in_order : Tree V → List (Bytes × V)
  in_order leaf = []
  in_order (node c l k v r) = in_order l ++ (k, v) ∷ in_order r

  -- The loop of `reveldb_search_db`, `xleveldb_search_iter`, `xleveldb_search_snapshot` and
  -- `xleveldb_search_writebatch`.
  unfoldable pub search : Tree V → Bytes → Option V
  search leaf key = none
  search (node c l k v r) key = elim (strcmp key k) [
    | Ordering.lt ↦ search l key
    | Ordering.gt ↦ search r key
    | Ordering.eq ↦ some v
  ]

  -- The descent of the insertion loops and rb_link_node: the new node is a red leaf; `none` is the
  -- `return 0` at a key that is there.
  unfoldable pub link : Tree V → Bytes → V → Option (Tree V)
  link leaf key new = some (node red leaf key new leaf)
  link (node c l k v r) key new = elim (strcmp key k) [
    | Ordering.lt ↦ Option.map (λ t. node c t k v r) (link l key new)
    | Ordering.gt ↦ Option.map (λ t. node c l k v t) (link r key new)
    | Ordering.eq ↦ none
  ]

-- rb_insert_color at the node with the given key, and rb_erase of that node.
pub record Balancer {ℓ} (V : Type ℓ) : Type ℓ where
  pub insert_color : Tree V → Bytes → Tree V
  pub erase : Tree V → Bytes → Tree V

module _ {ℓ} {V : Type ℓ} where
  -- The entries without the one at `key`.
  unfoldable pub without : Bytes → List (Bytes × V) → List (Bytes × V)
  without key [] = []
  without key ((k, v) ∷ es) =
      let rest = without key es in if bytes_eq k key then rest else (k, v) ∷ rest

  -- Balancing keeps the entries and their order, and erasing takes one node out.
  pub record KeepsOrder (rb : Balancer V) : Type ℓ where
    pub insert_color_keeps : (t : Tree V) (k : Bytes) → in_order (rb.insert_color t k) ≡ in_order t
    pub erase_removes : (t : Tree V) (k : Bytes) → in_order (rb.erase t k) ≡ without k (in_order t)

  -- `reveldb_insert_db`, `xleveldb_insert_iter`, `xleveldb_insert_snapshot` and
  -- `xleveldb_insert_writebatch`: the new tree, and whether they return 1.
  unfoldable pub insert : Balancer V → Tree V → Bytes → V → Tree V × Bool
  unfolding link
  insert rb t key new = elim (link t key new) [
    | none ↦ (t, false)
    | some t' ↦ (rb.insert_color t' key, true)
  ]
