-- ===== src/Rpc/ManyLaws.antt =====
-- /rpc/mset and /rpc/mdel of src/rpc.c against a store that is updated pair by pair.
use reveldb.Prelude.{
  ℕ, ◌+◌, ◌≡◌, refl, ap, ◌∙◌, Option, none, some, List, [], ◌∷◌, Bytes, bytes_eq, ==_iff,
  if◌then◌else◌, Option-cases, inl, inr, length,
}
use reveldb.Engine.{Contract}
use reveldb.Rpc.Env.{Env, Request}
use reveldb.Rpc.Server.{Server, leveldb_put, leveldb_delete}
use reveldb.Rpc.Contents.{value_at, value_at-put, value_at-delete}
use reveldb.Rpc.Many.{CJson, all_done, item_string, mset_loop, mdel_loop}

-- The store that pairs make of a store, one behind the other
unfoldable pub assign_all : List (Bytes × Bytes) → (Bytes → Option Bytes) → Bytes → Option Bytes
assign_all [] m j = m j
assign_all ((k, v) ∷ more) m j = assign_all more (λ i. if bytes_eq k i then some v else m i) j

-- The store without some keys
unfoldable pub remove_all : List Bytes → (Bytes → Option Bytes) → Bytes → Option Bytes
remove_all [] m j = m j
remove_all (k ∷ more) m j = remove_all more (λ i. if bytes_eq k i then none else m i) j

-- Equal stores are equal behind the same pairs.
pub assign_all-same :
    (ps : List (Bytes × Bytes)) (m n : Bytes → Option Bytes) (j : Bytes)
    → ((i : Bytes) → m i ≡ n i)
    → assign_all ps m j ≡ assign_all ps n j
unfolding assign_all
assign_all-same [] m n j h = h j
assign_all-same ((k, v) ∷ more) m n j h =
    assign_all-same more (λ i. if bytes_eq k i then some v else m i)
      (λ i. if bytes_eq k i then some v else n i) j
      (λ i. ap (λ o. if bytes_eq k i then some v else o) (h i))

pub remove_all-same :
    (ks : List Bytes) (m n : Bytes → Option Bytes) (j : Bytes)
    → ((i : Bytes) → m i ≡ n i)
    → remove_all ks m j ≡ remove_all ks n j
unfolding remove_all
remove_all-same [] m n j h = h j
remove_all-same (k ∷ more) m n j h =
    remove_all-same more (λ i. if bytes_eq k i then none else m i)
      (λ i. if bytes_eq k i then none else n i) j
      (λ i. ap (λ o. if bytes_eq k i then none else o) (h i))

module _ (json : CJson) (env : Env) (req : Request) (c : Contract env.engine) (db : ℕ) where
  open env use {engine}

  -- The strings of the arrays from an index on
  abbrev pub HoldsPairs : json.Node → json.Node → ℕ → List (Bytes × Bytes) → Type 0
  HoldsPairs keys values i [] = Unit {0}
  HoldsPairs keys values i ((k, v) ∷ more) =
      (item_string json env req keys i ≡ some k)
      × (item_string json env req values i ≡ some v)
      × HoldsPairs keys values (i + 1) more

  abbrev pub HoldsKeys : json.Node → ℕ → List Bytes → Type 0
  HoldsKeys keys i [] = Unit {0}
  HoldsKeys keys i (k ∷ more) =
      (item_string json env req keys i ≡ some k) × HoldsKeys keys (i + 1) more

  -- If the loop of /rpc/mset runs to its end, the database holds what the pairs make of it, in
  -- their order.
  pub mset_loop-assign_all :
      (ps : List (Bytes × Bytes)) (s : Server engine) (keys values : json.Node) (i : ℕ)
      → HoldsPairs keys values i ps
      → (mset_loop json env req s db keys values (length ps) i).1 ≡ all_done
      → (j : Bytes)
      → value_at c (mset_loop json env req s db keys values (length ps) i).0 db j
        ≡ assign_all ps (value_at c s db) j
  unfolding mset_loop assign_all
  mset_loop-assign_all [] s keys values i h done j = refl
  mset_loop-assign_all ((k, v) ∷ more) s keys values i (hk, hv, h) done j =
      let t = leveldb_put s db k v in
      elim (Option-cases (t.heap db).err) [
        | inr (e, bad) ↦ cc (rw (hk, hv, bad, mset_loop) at done)
        | inl ok ↦
            rw (hk, hv, ok, mset_loop)
              (mset_loop-assign_all more t keys values (i + 1) h
                  (rw (hk, hv, ok, mset_loop) at done) j
                ∙ assign_all-same more (value_at c t db)
                    (λ i. if bytes_eq k i then some v else value_at c s db i) j
                    (λ i. value_at-put c s db k v db i ok ∙ rw ((==_iff db db).1 refl)))
      ]

  -- If the loop of /rpc/mdel runs to its end over strings, the database holds what it held,
  -- without the keys.
  pub mdel_loop-remove_all :
      (ks : List Bytes) (s : Server engine) (keys : json.Node) (i : ℕ)
      → HoldsKeys keys i ks
      → (mdel_loop json env req s db keys (length ks) i).1 ≡ all_done
      → (j : Bytes)
      → value_at c (mdel_loop json env req s db keys (length ks) i).0 db j
        ≡ remove_all ks (value_at c s db) j
  unfolding mdel_loop remove_all
  mdel_loop-remove_all [] s keys i h done j = refl
  mdel_loop-remove_all (k ∷ more) s keys i (hk, h) done j =
      let t = leveldb_delete s db k in
      elim (Option-cases (t.heap db).err) [
        | inr (e, bad) ↦ cc (rw (hk, bad, mdel_loop) at done)
        | inl ok ↦
            rw (hk, ok, mdel_loop)
              (mdel_loop-remove_all more t keys (i + 1) h (rw (hk, ok, mdel_loop) at done) j
                ∙ remove_all-same more (value_at c t db)
                    (λ i. if bytes_eq k i then none else value_at c s db i) j
                    (λ i. value_at-delete c s db k db i ok ∙ rw ((==_iff db db).1 refl)))
      ]
