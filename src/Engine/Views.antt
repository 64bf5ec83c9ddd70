-- ===== src/Engine/Views.antt =====
-- What the documentation of LevelDB says of snapshots, iterators and write batches.
use reveldb.Prelude.{
  ◌≡◌, Bool, true, false, Option, none, some, List, [], ◌∷◌, ◌++◌, Bytes, bytes_eq, strcmp,
  Ordering, if◌then◌else◌,
}
use reveldb.Registry.Order.{IsSorted, lookup}
use reveldb.Engine.{LevelDb, ReadOptions, Contract}

-- The entries whose keys do not come before `k`
unfoldable pub from : Bytes → List (Bytes × Bytes) → List (Bytes × Bytes)
from k [] = []
from k ((j, v) ∷ es) =
    let rest = from k es in elim (strcmp j k) [ Ordering.lt ↦ rest | _ ↦ (j, v) ∷ es ]

module _ {l : LevelDb} (c : Contract l) where
  -- A snapshot holds the state of its store when it was made, and a read through it sees that.
  pub record Snapshots : Type 0 where
    pub held : l.Snapshot → Bytes → Option Bytes
    pub held_create : (s : l.Store) (k : Bytes) → held (l.create_snapshot s) k ≡ c.contents s k
    pub get_held :
        (s : l.Store) (o : ReadOptions l.Snapshot) (n : l.Snapshot) (k : Bytes)
        → o.snapshot ≡ some n
        → (l.get s o k).1 ≡ none
        → (l.get s o k).0 ≡ held n k

  -- An iterator stands in the sorted entries of a store as it was when the iterator was made:
  -- `behind` it, the last first, and `ahead` of it, with the entry that it stands at. It is not
  -- valid where nothing is ahead; a move of an iterator that is not valid is not allowed.
  pub record Cursors : Type 0 where
    pub entries : l.Store → List (Bytes × Bytes)
    pub sorted : (s : l.Store) → IsSorted (entries s)
    pub lookup_entries : (s : l.Store) (k : Bytes) → lookup (entries s) k ≡ c.contents s k
    pub all : l.Iterator → List (Bytes × Bytes)
    pub ahead : l.Iterator → List (Bytes × Bytes)
    pub behind : l.Iterator → List (Bytes × Bytes)
    pub all_create :
        (s : l.Store) (o : ReadOptions l.Snapshot)
        → o.snapshot ≡ none
        → all (l.create_iterator s o) ≡ entries s
    pub valid_ahead :
        (i : l.Iterator) → l.iter_valid i ≡ (elim (ahead i) [ [] ↦ false | _ ∷ _ ↦ true ])
    pub key_ahead :
        (i : l.Iterator) (k v : Bytes) (es : List (Bytes × Bytes))
        → ahead i ≡ (k, v) ∷ es
        → l.iter_key i ≡ some k
    pub value_ahead :
        (i : l.Iterator) (k v : Bytes) (es : List (Bytes × Bytes))
        → ahead i ≡ (k, v) ∷ es
        → l.iter_value i ≡ some v
    pub first_ahead : (i : l.Iterator) → ahead (l.iter_seek_to_first i) ≡ all i
    pub first_behind : (i : l.Iterator) → behind (l.iter_seek_to_first i) ≡ []
    pub first_all : (i : l.Iterator) → all (l.iter_seek_to_first i) ≡ all i
    pub seek_ahead : (i : l.Iterator) (k : Bytes) → ahead (l.iter_seek i k) ≡ from k (all i)
    pub next_ahead :
        (i : l.Iterator) (e : Bytes × Bytes) (es : List (Bytes × Bytes))
        → ahead i ≡ e ∷ es
        → ahead (l.iter_next i) ≡ es
    pub next_behind :
        (i : l.Iterator) (e : Bytes × Bytes) (es : List (Bytes × Bytes))
        → ahead i ≡ e ∷ es
        → behind (l.iter_next i) ≡ e ∷ behind i
    pub prev_ahead :
        (i : l.Iterator) (e d : Bytes × Bytes) (es ds : List (Bytes × Bytes))
        → ahead i ≡ e ∷ es
        → behind i ≡ d ∷ ds
        → ahead (l.iter_prev i) ≡ d ∷ e ∷ es
    pub prev_behind :
        (i : l.Iterator) (e d : Bytes × Bytes) (es ds : List (Bytes × Bytes))
        → ahead i ≡ e ∷ es
        → behind i ≡ d ∷ ds
        → behind (l.iter_prev i) ≡ ds

-- An update of a batch
pub data Update : Type 0 where
  put : Bytes → Bytes → Update
  delete : Bytes → Update

-- What the updates make of a store, one behind the other
unfoldable pub apply_all : List Update → (Bytes → Option Bytes) → Bytes → Option Bytes
apply_all [] m j = m j
apply_all (put k v ∷ us) m j = apply_all us (λ i. if bytes_eq k i then some v else m i) j
apply_all (delete k ∷ us) m j = apply_all us (λ i. if bytes_eq k i then none else m i) j

module _ {l : LevelDb} (c : Contract l) where
  -- A batch holds updates; a write that succeeds applies all of them, in their order.
  pub record Batches : Type 0 where
    pub updates : l.WriteBatch → List Update
    pub updates_create : updates l.writebatch_create ≡ []
    pub updates_put :
        (b : l.WriteBatch) (k v : Bytes)
        → updates (l.writebatch_put b k v) ≡ updates b ++ put k v ∷ []
    pub updates_delete :
        (b : l.WriteBatch) (k : Bytes)
        → updates (l.writebatch_delete b k) ≡ updates b ++ delete k ∷ []
    pub updates_clear : (b : l.WriteBatch) → updates (l.writebatch_clear b) ≡ []
    pub write_contents :
        (s : l.Store) (sync : Bool) (b : l.WriteBatch) (j : Bytes)
        → (l.write s sync b).1 ≡ none
        → c.contents (l.write s sync b).0 j ≡ apply_all (updates b) (c.contents s) j
