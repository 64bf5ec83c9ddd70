-- ===== src/Rpc/Walks.antt =====
-- Where an iterator of LevelDB stands after the moves of src/iter.c.
use reveldb.Prelude.{
  ℕ, zero, suc, ◌<◌, ◌≡◌, refl, ◌∙◌, none, some, List, [], ◌∷◌, Bytes, length, get_elem?, strcmp,
  bytes_eq_iff, strcmp_eq_iff, bytes_eq_of_lt, bytes_eq_of_gt, strcmp_flip, Ordering-cases, inl,
  inr, arith,
}
use reveldb.Registry.Order.{IsSorted, lookup, lookup-Above, Above-trans}
use reveldb.Engine.{Contract}
use reveldb.Engine.Views.{Cursors, from}
use reveldb.Rpc.Env.{Env}
use reveldb.Rpc.Cursor.{iter_forward, iter_backward}

module _ (env : Env) {c : Contract env.engine} (cu : Cursors c) where
  open env use {engine}

  -- A step count that is in range leads to the entry of that index.
  pub ahead-iter_forward :
      (n : ℕ) (i : engine.Iterator) (es : List (Bytes × Bytes)) (e : Bytes × Bytes)
      → cu.ahead i ≡ es
      → get_elem? es n ≡ some e
      → (rest : List (Bytes × Bytes)) × (cu.ahead (iter_forward env n i) ≡ e ∷ rest)
  unfolding iter_forward
  ahead-iter_forward zero i [] e h g = cc g
  ahead-iter_forward zero i (d ∷ es) e h g = (es, cc (h, g))
  ahead-iter_forward (suc n) i [] e h g = cc g
  ahead-iter_forward (suc n) i (d ∷ es) e h g =
      ahead-iter_forward n (engine.iter_next i) es e (cu.next_ahead i d es h) g

  iter_backward-suc :
      (n : ℕ) (i : engine.Iterator)
      → iter_backward env (suc n) i ≡ engine.iter_prev (iter_backward env n i)
  unfolding iter_backward
  iter_backward-suc zero i = refl
  iter_backward-suc (suc n) i = iter_backward-suc n (engine.iter_prev i)

  -- As many steps back lead to where the iterator stood.
  pub iter_backward-iter_forward :
      (n : ℕ) (i : engine.Iterator) (es : List (Bytes × Bytes))
      → cu.ahead i ≡ es
      → n < length es
      → (cu.ahead (iter_backward env n (iter_forward env n i)) ≡ es)
        × (cu.behind (iter_backward env n (iter_forward env n i)) ≡ cu.behind i)
  unfolding iter_forward iter_backward
  iter_backward-iter_forward zero i es h n = (h, refl)
  iter_backward-iter_forward (suc n) i [] h lt = absurd (omega arith)
  iter_backward-iter_forward (suc n) i (e ∷ []) h lt = absurd (omega arith)
  iter_backward-iter_forward (suc n) i (e ∷ d ∷ es) h lt =
      let j = iter_backward env n (iter_forward env n (engine.iter_next i)) in
      let (ahead, behind) =
        iter_backward-iter_forward n (engine.iter_next i) (d ∷ es) (cu.next_ahead i e (d ∷ es) h)
          (omega arith) in
      let behind' = behind ∙ cu.next_behind i e (d ∷ es) h in
      rw (iter_backward-suc n (iter_forward env n (engine.iter_next i))) (
        cu.prev_ahead j d e es (cu.behind i) ahead behind',
        cu.prev_behind j d e es (cu.behind i) ahead behind',
      )

-- The entries from a key that is there begin with it.
pub from-lookup :
    (k v : Bytes) (es : List (Bytes × Bytes))
    → IsSorted es
    → lookup es k ≡ some v
    → (rest : List (Bytes × Bytes)) × (from k es ≡ (k, v) ∷ rest)
unfolding from lookup
from-lookup k v [] s h = cc h
from-lookup k v ((j, w) ∷ es) (a, s) h = elim (Ordering-cases (strcmp j k)) [
  | inl lt ↦ rw (lt, from) (from-lookup k v es s (rw (bytes_eq_of_lt j k lt) at h))
  | inr (inl eq) ↦
      let same = (strcmp_eq_iff j k).0 eq in
      let e : some w ≡ some v = rw ((bytes_eq_iff j k).1 same) at h in
      rw (eq, from) (es, cc (same, e))
  | inr (inr gt) ↦
      let before = strcmp_flip j k gt in
      let missing : lookup es k ≡ none = lookup-Above k es (Above-trans k j es before a) in
      let found : lookup es k ≡ some v = rw (bytes_eq_of_gt j k before) at h in cc (missing, found)
]
