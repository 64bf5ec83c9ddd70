-- ===== src/Rpc/CommitLaws.antt =====
-- A batch of src/rpc.c from its creation to its commit.
use reveldb.Prelude.{
  ℕ, ◌≡◌, refl, ap, ◌∙◌, sym, none, some, List, Bytes, lit, bytes_eq_iff, ◌==◌, if◌then◌else◌,
  Option-cases, Bool-cases, inl, inr, arith,
}
use reveldb.Engine.{Contract, save_error}
use reveldb.Engine.Views.{Batches, Update, apply_all}
use reveldb.Registry.{Balancer, KeepsOrder, in_order, search}
use reveldb.Registry.Order.{IsSorted}
use reveldb.Registry.Laws.{search-insert}
use reveldb.Rpc.Env.{Env, Request}
use reveldb.Rpc.Reply.{res_ok}
use reveldb.Rpc.Server.{Server, BatchEntry, leveldb_write}
use reveldb.Rpc.Checks.{
  pass, finish, ◌>>=◌, ◌>>◌, query_database, find_database, proto_and_method_sanity_check,
}
use reveldb.Rpc.Contents.{value_at, save_error-none}
use reveldb.Rpc.Asks.{Gives}
use reveldb.Rpc.SetLaws.{status}
use reveldb.Rpc.Batch.{writebatch_commit_cb, answer_commit, writebatch_new_cb, new_batch}
use reveldb.Rpc.BatchLaws.{
  AllRequest, collect, updates_of, collect-updates, batch_arg-Gives, find_batch-search,
}

module _ (env : Env) (req : Request) (s : Server env.engine) (id : Bytes) (db : ℕ) where
  -- A request of /rpc/batch/commit for a batch and an open database
  pub record Commits : Type 0 where
    pub checked : proto_and_method_sanity_check env req ≡ pass tt
    pub database : search s.reveldb (query_database env req s) ≡ some db
    pub batch_arg : Gives env req (lit "batch") id

module _ (env : Env) (c : Contract env.engine) (b : Batches c) where
  open env use {engine}

  err-write :
      (s : Server engine) (p : ℕ) (w : engine.WriteBatch)
      → ((leveldb_write s p w).heap p).err
        ≡ save_error (s.heap p).err (engine.write (s.heap p).db (s.heap p).woptions w).1
  unfolding leveldb_write
  err-write s p w = ground arith

  db-write :
      (s : Server engine) (p q : ℕ) (w : engine.WriteBatch)
      → ((leveldb_write s p w).heap q).db
        ≡ (if q == p then (engine.write (s.heap p).db (s.heap p).woptions w).0 else (s.heap q).db)
  unfolding leveldb_write
  db-write s p q w = ground arith

  -- What a write leaves in its database and in the others
  value_at-write :
      (s : Server engine) (p : ℕ) (w : engine.WriteBatch)
      → ((leveldb_write s p w).heap p).err ≡ none
      → (q : ℕ) (j : Bytes)
      → value_at c (leveldb_write s p w) q j
        ≡ (if q == p then apply_all (b.updates w) (value_at c s p) j else value_at c s q j)
  value_at-write s p w h q j =
      let i = s.heap p in
      let (_, done) =
        save_error-none i.err (engine.write i.db i.woptions w).1 (sym (err-write s p w) ∙ h) in
      ap (λ d. c.contents d j) (db-write s p q w) ∙ elim (Bool-cases (q == p)) [
        | inl same ↦ rw same (b.write_contents i.db i.woptions w j done)
        | inr other ↦ rw other
      ]

  module _ (req : Request) (s : Server engine) (id : Bytes) (db : ℕ) where
    module _ (m : Commits env req s id db) (e : BatchEntry engine)
        (found : search s.dbwritebatch id ≡ some e) where
      abbrev written : Server engine
      written = leveldb_write s db e.writebatch

      writebatch_commit_cb-Commits :
          writebatch_commit_cb env req s ≡ answer_commit env req written db (written.heap db).err
      unfolding writebatch_commit_cb finish ◌>>=◌ ◌>>◌ find_database
      writebatch_commit_cb-Commits =
          let named : find_database env req s ≡ pass db = rw (m.database, find_database) in
          rw (
            m.checked,
            named,
            batch_arg-Gives env id req m.batch_arg,
            find_batch-search env id req s e found,
          )

      pub writebatch_commit_cb_lem :
          status (writebatch_commit_cb env req s).1 ≡ res_ok
          → (q : ℕ) (j : Bytes)
          → value_at c (writebatch_commit_cb env req s).0 q j ≡ (
              if q == db
              then apply_all (b.updates e.writebatch) (value_at c s db) j
              else value_at c s q j)
      unfolding answer_commit
      writebatch_commit_cb_lem = elim (Option-cases (written.heap db).err) [
        | inl ok ↦
            rw (writebatch_commit_cb-Commits, ok, answer_commit)
              (λ h q j. value_at-write s db e.writebatch ok q j)
        | inr (x, bad) ↦
            rw (writebatch_commit_cb-Commits, bad, answer_commit) (λ h q j. absurd (omega arith))
      ]

-- A batch that is made for a database, and the updates that requests put in it.
module _ (env : Env) (c : Contract env.engine) (b : Batches c)
    (rb : Balancer (BatchEntry env.engine)) (ko : KeepsOrder rb) (s : Server env.engine)
    (id : Bytes) where
  open env use {engine}

  -- A request of /rpc/batch/new for an open database, with an identifier that is new.
  pub record Makes (req : Request) : Type 0 where
    pub checked : proto_and_method_sanity_check env req ≡ pass tt
    pub made_for : ℕ
    pub database : search s.reveldb (query_database env req s) ≡ some made_for
    pub sorted : IsSorted (in_order s.dbwritebatch)
    pub unused : search s.dbwritebatch id ≡ none

  module _ (new commit : Request) (us : List (Update × Request)) (db : ℕ) where
    abbrev made : Server engine
    made = (writebatch_new_cb env new rb id s).0

    abbrev collected : Server engine
    collected = collect env id us made

    writebatch_new_cb-Makes :
        (m : Makes new)
        → (writebatch_new_cb env new rb id s).0 ≡ new_batch env new rb s m.made_for id
    unfolding writebatch_new_cb finish ◌>>=◌ ◌>>◌ find_database
    writebatch_new_cb-Makes m =
        let named : find_database env new s ≡ pass m.made_for = rw (m.database, find_database) in
        rw (m.checked, named)

    abbrev empty : Makes new → BatchEntry engine
    empty m = record { writebatch = engine.writebatch_create; reveldb = m.made_for }

    search-made :
        (m : Makes new)
        → (search made.dbwritebatch id ≡ some (empty m))
          × (made.heap ≡ s.heap)
          × (made.reveldb ≡ s.reveldb)
          × (made.db_config ≡ s.db_config)
    unfolding new_batch
    search-made m =
        let laws = search-insert rb ko s.dbwritebatch id (empty m) m.sorted in
        let found = laws.3 id (laws.1.1 m.unused) ∙ rw ((bytes_eq_iff id id).1 refl) in
        rw (writebatch_new_cb-Makes m) (found, refl, refl, refl)

    -- A batch is made by /rpc/batch/new, and requests of /rpc/batch/put and /rpc/batch/del put
    -- updates in it, which changes no database. If /rpc/batch/commit is then answered with 200,
    -- the database that it names holds what the updates make of its contents, one behind the
    -- other, and every other database has the values it had. The identifier is new in the
    -- sorted registry, and the requests pass the checks.
    pub writebatch_commit_cb-collect :
        Makes new
        → AllRequest env id us
        → Commits env commit s id db
        → ((collected.heap ≡ s.heap) × (collected.reveldb ≡ s.reveldb))
          × (status (writebatch_commit_cb env commit collected).1 ≡ res_ok
              → (q : ℕ) (j : Bytes)
              → value_at c (writebatch_commit_cb env commit collected).0 q j ≡ (
                  if q == db
                  then apply_all (updates_of env id us) (value_at c s db) j
                  else value_at c s q j))
    unfolding query_database
    writebatch_commit_cb-collect m a w =
        let (found, heap, names, config) = search-made m in
        let (e, found', text, heap', names', config') =
          collect-updates env id c b us made (empty m) a found in
        let w' : Commits env commit collected id db = record {
          checked = w.checked;
          database = rw (names', names, config', config) w.database;
          batch_arg = w.batch_arg;
        } in
        (
          (heap' ∙ heap, names' ∙ names),
          λ ok q j.
              writebatch_commit_cb_lem env c b commit collected id db w' e found' ok q j
              ∙ rw (text, b.updates_create, heap', heap),
        )
