-- ===== src/Engine.antt =====
-- The LevelDB storage engine (leveldb/c.h), which is not part of the repository: its calls are the
-- parameter `LevelDb`, and what its documentation says of them is `Contract` for reads and writes;
-- for snapshots, iterators and batches it stands in `Views`.
use reveldb.Prelude.{
  ℕ, ◌≡◌, Bool, true, false, Option, none, some, List, [], ◌∷◌, ◌++◌, Bytes, bytes_eq,
  if◌then◌else◌,
}
use reveldb.Registry.Order.{IsSorted, lookup}
pub mod Views

-- `leveldb_readoptions_t`
pub record ReadOptions (Snapshot : Type 0) : Type 0 where
  pub verify_checksums : Bool
  pub fill_cache : Bool
  pub snapshot : Option Snapshot

-- Each call returns the error message that it stores through `errptr`, or none on success. A write
-- takes the `sync` flag of its `leveldb_writeoptions_t`. `Store` is the type of the handles
-- `leveldb_t *`; `null_store` is the NULL that leveldb_open returns with an error. LevelDB does not say
-- what its calls do on it.
pub record LevelDb : Type 1 where
  pub Store : Type 0
  pub Snapshot : Type 0
  pub get : Store → ReadOptions Snapshot → Bytes → Option Bytes × Option Bytes
  pub put : Store → Bool → Bytes → Bytes → Store × Option Bytes
  pub delete : Store → Bool → Bytes → Store × Option Bytes
  pub create_snapshot : Store → Snapshot
  pub Iterator : Type 0
  pub create_iterator : Store → ReadOptions Snapshot → Iterator
  pub iter_valid : Iterator → Bool
  pub iter_seek_to_first : Iterator → Iterator
  pub iter_seek_to_last : Iterator → Iterator
  pub iter_seek : Iterator → Bytes → Iterator
  pub iter_next : Iterator → Iterator
  pub iter_prev : Iterator → Iterator
  pub iter_key : Iterator → Option Bytes
  pub iter_value : Iterator → Option Bytes
  pub WriteBatch : Type 0
  pub writebatch_create : WriteBatch
  pub writebatch_put : WriteBatch → Bytes → Bytes → WriteBatch
  pub writebatch_delete : WriteBatch → Bytes → WriteBatch
  pub writebatch_clear : WriteBatch → WriteBatch
  pub write : Store → Bool → WriteBatch → Store × Option Bytes
  pub property_value : Store → Bytes → Option Bytes
  pub null_store : Store
  pub close : Store → Store
  pub compact_range : Store → Option Bytes → Option Bytes → Store
  pub approximate_size : Store → Bytes → Bytes → ℕ

-- `*errptr` behind a call: a success leaves it unchanged, an error replaces the old message.
abbrev pub save_error : Option Bytes → Option Bytes → Option Bytes
save_error old none = old
save_error old (some e) = some e

-- A store holds one value for each of its keys.
pub record Contract (l : LevelDb) : Type 0 where
  pub contents : l.Store → Bytes → Option Bytes
  pub get_contents :
      (s : l.Store) (o : ReadOptions l.Snapshot) (k : Bytes)
      → o.snapshot ≡ none
      → (l.get s o k).1 ≡ none
      → (l.get s o k).0 ≡ contents s k
  pub get_error :
      (s : l.Store) (o : ReadOptions l.Snapshot) (k e : Bytes)
      → (l.get s o k).1 ≡ some e
      → (l.get s o k).0 ≡ none
  pub put_contents :
      (s : l.Store) (sync : Bool) (k v j : Bytes)
      → (l.put s sync k v).1 ≡ none
      → contents (l.put s sync k v).0 j ≡ (if bytes_eq k j then some v else contents s j)
  pub delete_contents :
      (s : l.Store) (sync : Bool) (k j : Bytes)
      → (l.delete s sync k).1 ≡ none
      → contents (l.delete s sync k).0 j ≡ (if bytes_eq k j then none else contents s j)
