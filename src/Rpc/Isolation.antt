-- ===== src/Rpc/Isolation.antt =====
-- What the engine calls and the checks of src/rpc.c leave alone: the registries, the configuration,
-- the options of the instances, and every database but one.
use reveldb.Prelude.{
  ℕ, ◌≡◌, ◌≢◌, refl, ap, ◌∙◌, sym, Option, none, some, Bytes, ◌==◌, ==_iff, Bool-cases,
  Option-cases, inl, inr,
}
use reveldb.Engine.{LevelDb, ReadOptions}
use reveldb.Registry.{search}
use reveldb.Rpc.Env.{Env, Request}
use reveldb.Rpc.Reply.{Answer}
use reveldb.Rpc.Server.{
  Server, Instance, store_at, leveldb_put, leveldb_get, leveldb_delete, reset_err,
}
use reveldb.Rpc.Checks.{Check, pass, stop, ◌>>=◌, ◌>>◌, finish, find_database, query_database}

module _ {l : LevelDb} where
  -- `s'` differs from `s` in the store and the error of the database `target` at most.
  pub record Within (target : Option ℕ) (s s' : Server l) : Type 0 where
    pub same_registry : s'.reveldb ≡ s.reveldb
    pub same_snapshots : s'.dbsnapshot ≡ s.dbsnapshot
    pub same_iters : s'.dbiter ≡ s.dbiter
    pub same_batches : s'.dbwritebatch ≡ s.dbwritebatch
    pub same_config : s'.db_config ≡ s.db_config
    pub same_datadir : s'.datadir ≡ s.datadir
    pub same_roptions : (q : ℕ) → (s'.heap q).roptions ≡ (s.heap q).roptions
    pub same_woptions : (q : ℕ) → (s'.heap q).woptions ≡ (s.heap q).woptions
    pub elsewhere : (q : ℕ) → target ≢ some q → s'.heap q ≡ s.heap q

  pub Within-refl : (o : Option ℕ) (s : Server l) → Within o s s
  Within-refl o s = record {
    same_registry = refl;
    same_snapshots = refl;
    same_iters = refl;
    same_batches = refl;
    same_config = refl;
    same_datadir = refl;
    same_roptions = λ q. refl;
    same_woptions = λ q. refl;
    elsewhere = λ q n. refl;
  }

  pub Within-trans : (o : Option ℕ) (s t u : Server l) → Within o s t → Within o t u → Within o s u
  Within-trans o s t u v w = record {
    same_registry = w.same_registry ∙ v.same_registry;
    same_snapshots = w.same_snapshots ∙ v.same_snapshots;
    same_iters = w.same_iters ∙ v.same_iters;
    same_batches = w.same_batches ∙ v.same_batches;
    same_config = w.same_config ∙ v.same_config;
    same_datadir = w.same_datadir ∙ v.same_datadir;
    same_roptions = λ q. w.same_roptions q ∙ v.same_roptions q;
    same_woptions = λ q. w.same_woptions q ∙ v.same_woptions q;
    elsewhere = λ q n. w.elsewhere q n ∙ v.elsewhere q n;
  }

  module _ (s : Server l) (p : ℕ) where
    Within-store_at :
        (i : Instance l)
        → i.roptions ≡ (s.heap p).roptions
        → i.woptions ≡ (s.heap p).woptions
        → Within (some p) s (store_at s p i)
    unfolding store_at
    Within-store_at i h k = record {
      same_registry = refl;
      same_snapshots = refl;
      same_iters = refl;
      same_batches = refl;
      same_config = refl;
      same_datadir = refl;
      same_roptions = λ q. elim (Bool-cases (q == p)) [
        | inl here ↦ rw here (h ∙ ap (λ r. (s.heap r).roptions) (sym ((==_iff q p).0 here)))
        | inr other ↦ rw other
      ];
      same_woptions = λ q. elim (Bool-cases (q == p)) [
        | inl here ↦ rw here (k ∙ ap (λ r. (s.heap r).woptions) (sym ((==_iff q p).0 here)))
        | inr other ↦ rw other
      ];
      elsewhere = λ q n. elim (Bool-cases (q == p)) [
        | inl here ↦ absurd (n (ap some (sym ((==_iff q p).0 here))))
        | inr other ↦ rw other
      ];
    }

    pub Within-put : (k v : Bytes) → Within (some p) s (leveldb_put s p k v)
    unfolding leveldb_put
    Within-put k v = Within-store_at _ refl refl

    pub Within-delete : (k : Bytes) → Within (some p) s (leveldb_delete s p k)
    unfolding leveldb_delete
    Within-delete k = Within-store_at _ refl refl

    pub Within-get :
        (o : ReadOptions l.Snapshot) (k : Bytes) → Within (some p) s (leveldb_get s p o k).1
    unfolding leveldb_get
    Within-get o k = Within-store_at _ refl refl

    pub Within-reset : Within (some p) s (reset_err s p)
    unfolding reset_err
    Within-reset = Within-store_at _ refl refl

-- A check that stops the request changes nothing.
module _ {l : LevelDb} (o : Option ℕ) (s : Server l) where
  pub Within-pass : (r : Server l × Answer) → Within o s r.0 → Within o s (finish s (pass r)).0
  unfolding finish
  Within-pass r w = w

  pub Within-then :
      (m : Check (Unit {0})) (k : Check (Server l × Answer))
      → Within o s (finish s k).0
      → Within o s (finish s (m >> k)).0
  unfolding finish ◌>>=◌ ◌>>◌
  Within-then (pass x) k w = w
  Within-then (stop a) k w = Within-refl o s

  pub Within-check {ℓ} :
      {A : Type ℓ} (m : Check A) (k : A → Check (Server l × Answer))
      → ((x : A) → Within o s (finish s (k x)).0)
      → Within o s (finish s (m >>= k)).0
  unfolding finish ◌>>=◌
  Within-check (pass x) k w = w x
  Within-check (stop a) k w = Within-refl o s

-- Nor does a name that no database has.
module _ (env : Env) (req : Request) (s : Server env.engine) where
  abbrev pub target : Option ℕ
  target = search s.reveldb (query_database env req s)

  pub Within-find :
      (k : ℕ → Check (Server env.engine × Answer))
      → ((db : ℕ) → Within (some db) s (finish s (k db)).0)
      → Within target s (finish s (find_database env req s >>= k)).0
  unfolding find_database finish ◌>>=◌
  Within-find k h = elim (Option-cases target) [
    | inl missing ↦ rw (missing, find_database) (Within-refl none s)
    | inr (db, found) ↦ rw (found, find_database) (h db)
  ]
