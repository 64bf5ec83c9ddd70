-- ===== src/Registry/Tests.antt =====
-- Runs of the registries, and their theorems at a tree of three entries.
use reveldb.Prelude.{
  ℕ, ◌≡◌, ◌↔◌, refl, true, false, none, some, Bytes, lit, bytes_eq, strcmp, if◌then◌else◌,
}
use reveldb.Registry.{Tree, leaf, node, Color, in_order, search, insert}
use reveldb.Registry.Chain.{balancer, balancer-KeepsOrder}
use reveldb.Registry.Order.{IsSorted}
use reveldb.Registry.Laws.{search-insert}

abbrev tree : Tree ℕ
tree =
    node Color.black (node Color.red leaf (lit "a") 1 leaf) (lit "c") 3
      (node Color.red leaf (lit "e") 5 leaf)

tree-IsSorted : IsSorted (in_order tree)
unfolding in_order lit strcmp
tree-IsSorted = ((refl, (refl, tt)), ((refl, tt), (tt, tt)))

search-insert_example :
    IsSorted (in_order (insert (balancer ℕ) tree (lit "b") 2).0)
    × (((insert (balancer ℕ) tree (lit "b") 2).1 ≡ true) ↔ (search tree (lit "b") ≡ none))
    × ((insert (balancer ℕ) tree (lit "b") 2).1 ≡ false
        → (insert (balancer ℕ) tree (lit "b") 2).0 ≡ tree)
    × ((j : Bytes)
        → (insert (balancer ℕ) tree (lit "b") 2).1 ≡ true
        → search (insert (balancer ℕ) tree (lit "b") 2).0 j
          ≡ (if bytes_eq (lit "b") j then some 2 else search tree j))
search-insert_example =
    search-insert (balancer ℕ) (balancer-KeepsOrder ℕ) tree (lit "b") 2 tree-IsSorted
