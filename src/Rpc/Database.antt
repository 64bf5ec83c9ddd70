-- ===== src/Rpc/Database.antt =====
-- The handlers /rpc/new, /rpc/destroy and /rpc/repair of src/rpc.c, on reveldb_init of src/reveldb.c
-- and xleveldb_instance_init of src/engine/xleveldb.c. What the calls of LevelDB on files return is
-- an argument, a function of the path.
use reveldb.Prelude.{ℕ, ◌-◌, Option, none, some, Bytes, lit, get_elem?, ◌==◌, if◌then◌else◌}
use mathlib.Core.Option
use reveldb.TString.{TString, contents}
use reveldb.TString.Ops
use reveldb.Engine.{save_error}
use reveldb.Registry.{leaf, node, Balancer, search, insert}
use reveldb.Rpc.Env.{Env, Request}
use reveldb.Rpc.Reply.{
  Answer, sent, fault, res_ok, res_notfound, res_serverr, error_response, done_response,
  general_response,
}
use reveldb.Rpc.Server.{Server, Instance, store_at, reset_err}
use reveldb.Rpc.Checks.{
  Check, pass, stop, ◌>>=◌, ◌>>◌, finish, proto_and_method_sanity_check, query_param_sanity_check,
  query_quiet_check,
}
use reveldb.Rpc.Snapshot.{found_or}

-- The end of the path: a slash unless the last byte of the directory is one, and the name. The
-- position in front of an empty directory is outside of its block.
unfoldable pub add_name : (ℕ → ℕ) → TString → Bytes → Option TString
unfolding Ops.append
add_name fill path dbname =
    if path.len == 0 then none else elim (get_elem? path.str (path.len - 1)) [
      | none ↦ none
      | some c ↦
          if c == 47
          then Ops.append fill path dbname
          else Option.bind (Ops.append fill path (lit "/")) (λ t. Ops.append fill t dbname)
    ]

-- The path of a database in `reveldb_init`; `none` is an assert of tstring.c that fails, or a read
-- out of bounds.
unfoldable pub full_path : (ℕ → ℕ) → Bytes → Bytes → Option TString
unfolding Ops.new add_name
full_path fill datadir dbname =
    Option.bind (Ops.new fill (some datadir)) (λ path. add_name fill path dbname)

module _ (env : Env) (req : Request) where
  open env use {engine, kv_find, fill}

  -- `xleveldb_instance_init` with what leveldb_open returns, where `none` is NULL; its error is
  -- replaced by NULL. Fresh memory is taken to hold NULL in `err`, which leveldb_open frees if not.
  unfoldable pub new_instance : Server engine → Option engine.Store → Instance engine
  new_instance s opened = record {
    db = elim opened [ none ↦ engine.null_store | some d ↦ d ];
    roptions = record {
      verify_checksums = s.db_config.verify_checksums;
      fill_cache = s.db_config.fill_cache;
      snapshot = none;
    };
    woptions = s.db_config.sync;
    err = none;
  }

  -- A request that comes to an assert that fails
  unfoldable pub path_or_fault : Option TString → Check Bytes
  path_or_fault none = stop fault
  path_or_fault (some path) = pass (contents path)

  -- The body of the handlers below where LevelDB leaves an error; the status is 200.
  unfoldable pub error_200 : Bytes → Answer
  error_200 e = sent res_ok (
      error_response env req (query_quiet_check env req) res_serverr (lit "Internal Server Error")
        e)

  unfoldable pub done_200 : Bytes → Answer
  done_200 message =
      sent res_ok (done_response env (query_quiet_check env req) res_ok (lit "OK") message)

  module _ (rb : Balancer ℕ) where
    -- `reveldb_init` with the pointer `p` that malloc returns, and `reveldb_insert_db`, whose result
    -- is not looked at
    unfoldable pub new_db : Server engine → ℕ → Bytes → Option engine.Store → Server engine
    unfolding new_instance store_at insert
    new_db s p dbname opened = record (store_at s p (new_instance s opened)) {
      reveldb = (insert rb s.reveldb dbname p).0;
    }

    -- `URI_rpc_new_cb`
    unfoldable pub new_cb :
        ℕ → (Bytes → Option engine.Store) → Server engine → Server engine × Answer
    unfolding full_path path_or_fault new_db done_200
    new_cb p opened s = finish s do
      proto_and_method_sanity_check env req
      dbname ←
          query_param_sanity_check env req (lit "db") (lit "Database not specified, please check.")
      path ← path_or_fault (full_path fill s.datadir dbname)
      pass (new_db s p dbname (opened path), done_200 (lit "Created new leveldb instance OK."))

    -- The end of `URI_rpc_destroy_cb`, behind leveldb_destroy_db: the entry leaves the registry if
    -- there is no error. The store is closed in any case.
    unfoldable pub answer_destroy :
        Server engine → ℕ → Bytes → Option Bytes → Server engine × Answer
    unfolding error_200 done_200
    answer_destroy s db dbname (some e) = (reset_err s db, error_200 e)
    answer_destroy s db dbname none =
        (record s { reveldb = rb.erase s.reveldb dbname }, done_200 (lit "Destroy db done."))

    -- leveldb_close and leveldb_destroy_db
    unfoldable pub close_and_destroy : Server engine → ℕ → Option Bytes → Server engine
    unfolding store_at
    close_and_destroy s db status =
        let i = s.heap db in
        store_at s db (record i { db = engine.close i.db; err = save_error i.err status })

    -- `URI_rpc_destroy_cb`
    unfoldable pub destroy_cb : (Bytes → Option Bytes) → Server engine → Server engine × Answer
    unfolding full_path path_or_fault found_or close_and_destroy answer_destroy
    destroy_cb destroyed s = finish s do
      proto_and_method_sanity_check env req
      dbname ← query_param_sanity_check env req (lit "db") (lit "Database not specified.")
      db ← found_or env req (lit "Database not found, please check.") (search s.reveldb dbname)
      path ← path_or_fault (full_path fill s.datadir dbname)
      let s' = close_and_destroy s db (destroyed path)
      pass (answer_destroy s' db dbname (s'.heap db).err)

  -- The search of `URI_rpc_repair_cb`, which has no default name: strcmp reads a NULL pointer unless
  -- the registry is empty.
  unfoldable pub repair_check : Server engine → Check (Bytes × ℕ)
  unfolding found_or
  repair_check s = elim (kv_find req.query (lit "db")) [
    | none ↦ elim s.reveldb [
      | leaf ↦ stop (
          sent res_notfound (
            general_response env res_notfound (lit "Not Found")
              (lit "Database not found, please check.")))
      | node c l k v r ↦ stop fault
    ]
    | some dbname ↦ do
      db ← found_or env req (lit "Database not found, please check.") (search s.reveldb dbname)
      pass (dbname, db)
  ]

  -- The end of `URI_rpc_repair_cb`, behind leveldb_repair_db
  unfoldable pub answer_repair : Server engine → ℕ → Option Bytes → Server engine × Answer
  unfolding error_200 done_200
  answer_repair s db (some e) = (reset_err s db, error_200 e)
  answer_repair s db none = (s, done_200 (lit "Repair db done."))

  -- `URI_rpc_repair_cb`
  unfoldable pub repair_cb : (Bytes → Option Bytes) → Server engine → Server engine × Answer
  unfolding repair_check full_path path_or_fault store_at answer_repair
  repair_cb repaired s = finish s do
    proto_and_method_sanity_check env req
    named ← repair_check s
    path ← path_or_fault (full_path fill s.datadir named.0)
    let i = s.heap named.1
    let s' = store_at s named.1 (record i { err = save_error i.err (repaired path) })
    pass (answer_repair s' named.1 (s'.heap named.1).err)
