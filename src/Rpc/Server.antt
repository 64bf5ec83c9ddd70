-- ===== src/Rpc/Server.antt =====
-- The state that the handlers of src/rpc.c share: the configuration and the registries of
-- src/server.c, and the databases that they point to, as LevelDB instances of
-- src/engine/xleveldb.c.
use reveldb.Prelude.{ℕ, Bool, Option, none, Bytes, ◌==◌, if◌then◌else◌}
use reveldb.Engine.{LevelDb, ReadOptions, save_error}
use reveldb.Registry.{Tree}

-- `xleveldb_instance_t`: the open store, its options and the error message that calls leave.
pub record Instance (l : LevelDb) : Type 0 where
  pub db : l.Store
  pub roptions : ReadOptions l.Snapshot
  pub woptions : Bool
  pub err : Option Bytes

-- `xleveldb_snapshot_t`
pub record SnapshotEntry (l : LevelDb) : Type 0 where
  pub snapshot : Option l.Snapshot
  pub reveldb : ℕ

-- `xleveldb_iter_t`
pub record IterEntry (l : LevelDb) : Type 0 where
  pub iter : l.Iterator
  pub reveldb : ℕ
  pub external_roptions : Option (ReadOptions l.Snapshot)

-- `xleveldb_writebatch_t`
pub record BatchEntry (l : LevelDb) : Type 0 where
  pub writebatch : l.WriteBatch
  pub reveldb : ℕ

-- The fields of `reveldb_db_config_t` that the handlers read.
pub record DbConfig : Type 0 where
  pub dbname : Bytes
  pub verify_checksums : Bool
  pub fill_cache : Bool
  pub sync : Bool

-- The registry maps names to pointers; `heap` holds the instance behind each pointer.
pub record Server (l : LevelDb) : Type 0 where
  pub reveldb : Tree ℕ
  pub dbsnapshot : Tree (SnapshotEntry l)
  pub dbiter : Tree (IterEntry l)
  pub dbwritebatch : Tree (BatchEntry l)
  pub heap : ℕ → Instance l
  pub db_config : DbConfig
  pub datadir : Bytes

module _ {l : LevelDb} where
  -- A write to the instance behind `p`.
  unfoldable pub store_at : Server l → ℕ → Instance l → Server l
  store_at s p i = record s { heap = λ q. if q == p then i else s.heap q }

  -- `leveldb_put(db->instance->db, db->instance->woptions, …, &(db->instance->err))`
  unfoldable pub leveldb_put : Server l → ℕ → Bytes → Bytes → Server l
  unfolding store_at
  leveldb_put s p key value =
      let i = s.heap p in
      let (db, status) = l.put i.db i.woptions key value in
      store_at s p (record i { db = db; err = save_error i.err status })

  -- `leveldb_delete(db->instance->db, db->instance->woptions, …, &(db->instance->err))`
  unfoldable pub leveldb_delete : Server l → ℕ → Bytes → Server l
  unfolding store_at
  leveldb_delete s p key =
      let i = s.heap p in
      let (db, status) = l.delete i.db i.woptions key in
      store_at s p (record i { db = db; err = save_error i.err status })

  -- `leveldb_write(db->instance->db, db->instance->woptions, …, &(db->instance->err))`
  unfoldable pub leveldb_write : Server l → ℕ → l.WriteBatch → Server l
  unfolding store_at
  leveldb_write s p b =
      let i = s.heap p in
      let (db, status) = l.write i.db i.woptions b in
      store_at s p (record i { db = db; err = save_error i.err status })

  -- `leveldb_get(db->instance->db, roptions, …, &(db->instance->err))`: the value, and the server
  -- with the error that the call may leave. The length of the value is its own: the handlers pass the
  -- address of an `unsigned int` for it, see "Not modelled" in Lib.
  unfoldable pub leveldb_get :
      Server l → ℕ → ReadOptions l.Snapshot → Bytes → Option Bytes × Server l
  unfolding store_at
  leveldb_get s p roptions key =
      let i = s.heap p in
      let (value, status) = l.get i.db roptions key in
      (value, store_at s p (record i { err = save_error i.err status }))

  -- `xleveldb_reset_err`
  unfoldable pub reset_err : Server l → ℕ → Server l
  unfolding store_at
  reset_err s p = store_at s p (record (s.heap p) { err = none })
