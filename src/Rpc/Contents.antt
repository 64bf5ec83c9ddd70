-- ===== src/Rpc/Contents.antt =====
-- What the engine calls of the handlers do to the keys of every database, by the contract of the
-- engine.
use reveldb.Prelude.{
  ℕ, ◌≡◌, ◌≢◌, ap, ◌∙◌, ◌&&◌, Option, none, some, Bytes, bytes_eq, ◌==◌, ==_iff, if◌then◌else◌,
  arith, inl, inr, Bool-cases,
}
use reveldb.Engine.{LevelDb, ReadOptions, Contract, save_error}
use reveldb.Rpc.Server.{Server, leveldb_put, leveldb_get, leveldb_delete, reset_err}

module _ {l : LevelDb} (s : Server l) (p : ℕ) where
  -- The error that a call leaves, and that a read leaves every store alone.
  pub err-put :
      (k v : Bytes)
      → ((leveldb_put s p k v).heap p).err
        ≡ save_error (s.heap p).err (l.put (s.heap p).db (s.heap p).woptions k v).1
  unfolding leveldb_put
  err-put k v = ground arith

  pub err-reset : ((reset_err s p).heap p).err ≡ none
  unfolding reset_err
  err-reset = ground arith

  pub err-delete :
      (k : Bytes)
      → ((leveldb_delete s p k).heap p).err
        ≡ save_error (s.heap p).err (l.delete (s.heap p).db (s.heap p).woptions k).1
  unfolding leveldb_delete
  err-delete k = ground arith

  pub err-get :
      (o : ReadOptions l.Snapshot) (k : Bytes)
      → ((leveldb_get s p o k).1.heap p).err ≡ save_error (s.heap p).err (l.get (s.heap p).db o k).1
  unfolding leveldb_get
  err-get o k = ground arith

  module _ (q : ℕ) where
    pub db-get :
        (o : ReadOptions l.Snapshot) (k : Bytes)
        → ((leveldb_get s p o k).1.heap q).db ≡ (s.heap q).db
    unfolding leveldb_get
    db-get o k = ground arith

    pub db-reset : ((reset_err s p).heap q).db ≡ (s.heap q).db
    unfolding reset_err
    db-reset = ground arith

    pub db-put :
        (k v : Bytes)
        → ((leveldb_put s p k v).heap q).db
          ≡ (if q == p then (l.put (s.heap p).db (s.heap p).woptions k v).0 else (s.heap q).db)
    unfolding leveldb_put
    db-put k v = ground arith

    pub db-delete :
        (k : Bytes)
        → ((leveldb_delete s p k).heap q).db
          ≡ (if q == p then (l.delete (s.heap p).db (s.heap p).woptions k).0 else (s.heap q).db)
    unfolding leveldb_delete
    db-delete k = ground arith

-- A call that leaves no error has met none, and there was none before.
pub save_error-none :
    (old new : Option Bytes) → save_error old new ≡ none → (old ≡ none) × (new ≡ none)
save_error-none old new h = ground arith

pub save_error-some :
    (old new : Option Bytes) (e : Bytes) → save_error old new ≡ some e → old ≡ none → new ≢ none
save_error-some old new e h p q = cc (h, p, q)

module _ {l : LevelDb} (c : Contract l) where
  -- The value of a key in the database behind a pointer.
  abbrev pub value_at : Server l → ℕ → Bytes → Option Bytes
  value_at s p k = c.contents (s.heap p).db k

  -- A write that leaves no error changes its key in its database, and nothing else.
  pub value_at-put :
      (s : Server l) (p : ℕ) (k v : Bytes) (q : ℕ) (j : Bytes)
      → ((leveldb_put s p k v).heap p).err ≡ none
      → value_at (leveldb_put s p k v) q j
        ≡ (if (q == p) && bytes_eq k j then some v else value_at s q j)
  value_at-put s p k v q j h =
      let i = s.heap p in
      let (_, done) = save_error-none i.err (l.put i.db i.woptions k v).1 (rw err-put at h) in
      ap (λ d. c.contents d j) (db-put s p q k v) ∙ elim (Bool-cases (q == p)) [
        | inl here ↦ rw (here, (==_iff q p).0 here) (c.put_contents i.db i.woptions k v j done)
        | inr other ↦ rw other
      ]

  pub value_at-delete :
      (s : Server l) (p : ℕ) (k : Bytes) (q : ℕ) (j : Bytes)
      → ((leveldb_delete s p k).heap p).err ≡ none
      → value_at (leveldb_delete s p k) q j
        ≡ (if (q == p) && bytes_eq k j then none else value_at s q j)
  value_at-delete s p k q j h =
      let i = s.heap p in
      let (_, done) = save_error-none i.err (l.delete i.db i.woptions k).1 (rw err-delete at h) in
      ap (λ d. c.contents d j) (db-delete s p q k) ∙ elim (Bool-cases (q == p)) [
        | inl here ↦ rw (here, (==_iff q p).0 here) (c.delete_contents i.db i.woptions k j done)
        | inr other ↦ rw other
      ]
