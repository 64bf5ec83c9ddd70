-- ===== src/Registry/Chain.antt =====
-- A balancer of the registries, for tests: trees that are chains.
use reveldb.Prelude.{◌≡◌, refl, ap, List, [], ◌∷◌, Bytes, strcmp, Ordering}
use reveldb.Registry.{Tree, leaf, node, Color, in_order, Balancer, KeepsOrder, without}
use reveldb.Registry.Order.{IsSorted}

-- The chain of the entries, in their order
unfoldable pub chain {ℓ} : {V : Type ℓ} → List (Bytes × V) → Tree V
chain [] = leaf
chain ((k, v) ∷ es) = node Color.black leaf k v (chain es)

in_order-chain {ℓ} : {V : Type ℓ} (es : List (Bytes × V)) → in_order (chain es) ≡ es
unfolding chain in_order
in_order-chain [] = refl
in_order-chain ((k, v) ∷ es) = ap (λ r. (k, v) ∷ r) (in_order-chain es)

-- A balancer that leaves insertions as they are, and erases from the chain of the entries
abbrev pub balancer {ℓ} : (V : Type ℓ) → Balancer V
balancer V = record { insert_color = λ t key. t; erase = λ t key. chain (without key (in_order t)) }

pub balancer-KeepsOrder {ℓ} : (V : Type ℓ) → KeepsOrder (balancer V)
balancer-KeepsOrder V = record {
  insert_color_keeps = λ t k. refl;
  erase_removes = λ t k. in_order-chain (without k (in_order t));
}

pub leaf-IsSorted {ℓ} : (V : Type ℓ) → IsSorted (in_order {V = V} leaf)
unfolding in_order
leaf-IsSorted V = tt

-- Two entries in order, the second below the first
pub pair-IsSorted {ℓ} :
    {V : Type ℓ} (j k : Bytes) (v w : V)
    → strcmp j k ≡ Ordering.lt
    → IsSorted (in_order (node Color.black leaf j v (node Color.red leaf k w leaf)))
unfolding in_order
pair-IsSorted j k v w h = ((h, tt), (tt, tt))
