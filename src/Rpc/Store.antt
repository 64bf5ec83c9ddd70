-- ===== src/Rpc/Store.antt =====
-- The handlers of src/rpc.c that set, read and delete one key: /rpc/set, /rpc/add, /rpc/get,
-- /rpc/check, /rpc/exists, /rpc/seize and /rpc/del.
use reveldb.Prelude.{Option, none, some, Bytes, lit, ℕ, if◌then◌else◌}
use reveldb.Engine.{ReadOptions}
use reveldb.Registry.{search}
use reveldb.Rpc.Env.{Env, Request}
use reveldb.Rpc.Reply.{
  Answer, sent, fault, res_ok, res_nocontent, res_notfound, res_serverr, error_response,
  done_response, kv_response, quiet_response_on_kv_with_len, msgalt_response_on_kv_with_len,
}
use reveldb.Rpc.Server.{Server, leveldb_put, leveldb_get, leveldb_delete, reset_err}
use reveldb.Rpc.Checks.{
  pass, ◌>>=◌, ◌>>◌, finish, proto_and_method_sanity_check, query_param_sanity_check,
  query_quiet_check, find_database,
}

module _ (env : Env) (req : Request) where
  open env use {engine, kv_find}

  -- The end of `URI_rpc_set_cb` and `URI_rpc_add_cb`, behind leveldb_put: an error is reported
  -- and reset.
  unfoldable pub answer_set : Server engine → ℕ → Option Bytes → Server engine × Answer
  answer_set s db none = (
    s,
    sent res_ok (
        done_response env (query_quiet_check env req) res_ok (lit "OK")
          (lit "Set key-value pair done.")),
  )
  answer_set s db (some e) = (
    reset_err s db,
    sent res_serverr (
        error_response env req (query_quiet_check env req) res_serverr (lit "Internal Server Error")
          e),
  )

  -- `URI_rpc_set_cb`
  unfoldable pub set_cb : Server engine → Server engine × Answer
  unfolding answer_set
  set_cb s = finish s do
    proto_and_method_sanity_check env req
    key ← query_param_sanity_check env req (lit "key") (lit "Please specify which key to set.")
    value ←
        query_param_sanity_check env req (lit "value")
          (lit "Please set value along with the key you've specified.")
    db ← find_database env req s
    let s' = leveldb_put s db key value
    pass (answer_set s' db (s'.heap db).err)

  -- `URI_rpc_add_cb`
  unfoldable pub add_cb : Server engine → Server engine × Answer
  unfolding answer_set
  add_cb s = finish s do
    proto_and_method_sanity_check env req
    key ← query_param_sanity_check env req (lit "key") (lit "Please specify which key to add.")
    value ←
        query_param_sanity_check env req (lit "value")
          (lit "Please set value along with the key you've specified.")
    db ← find_database env req s
    let s' = leveldb_put s db key value
    pass (answer_set s' db (s'.heap db).err)

  -- The read options of /rpc/get, /rpc/check and /rpc/exists: those of the instance, or new ones
  -- for the snapshot that the request names. A name that no snapshot has is a NULL pointer that
  -- is read.
  unfoldable pub snapshot_roptions : Server engine → ℕ → Option (ReadOptions engine.Snapshot)
  snapshot_roptions s db = elim (kv_find req.query (lit "snapshot")) [
    | none ↦ some (s.heap db).roptions
    | some id ↦ elim (search s.dbsnapshot id) [
      | none ↦ none
      | some e ↦ some (record {
        verify_checksums = s.db_config.verify_checksums;
        fill_cache = s.db_config.fill_cache;
        snapshot = e.snapshot;
      })
    ]
  ]

  -- leveldb_get through these options, and the answer for what it returns
  unfoldable pub read_through :
      Server engine
      → ℕ
      → Bytes
      → (Option Bytes → Answer)
      → Option (ReadOptions engine.Snapshot)
      → Server engine × Answer
  read_through s db key reply none = (s, fault)
  read_through s db key reply (some roptions) =
      let (value, s') = leveldb_get s db roptions key in (s', reply value)

  -- The end of `URI_rpc_get_cb`, behind leveldb_get
  unfoldable pub answer_get : Bytes → Option Bytes → Answer
  answer_get key none = sent res_notfound (
      error_response env req (query_quiet_check env req) res_notfound (lit "Not Found")
        (lit "Key not found."))
  answer_get key (some value) = sent res_ok (kv_response env (query_quiet_check env req) key value)

  -- `URI_rpc_get_cb`; the error of the read is left in the instance.
  unfoldable pub get_cb : Server engine → Server engine × Answer
  unfolding answer_get snapshot_roptions read_through
  get_cb s = finish s do
    proto_and_method_sanity_check env req
    key ← query_param_sanity_check env req (lit "key") (lit "Please specify which key to get.")
    db ← find_database env req s
    pass (read_through s db key (answer_get key) (snapshot_roptions s db))

  -- The end of `URI_rpc_check_cb` and `URI_rpc_exists_cb`, behind leveldb_get
  unfoldable pub answer_exists : Option Bytes → Answer
  answer_exists none = sent res_notfound (
      error_response env req (query_quiet_check env req) res_notfound (lit "Not Found")
        (lit "Key not found."))
  answer_exists (some value) =
      sent res_ok
        (done_response env (query_quiet_check env req) res_ok (lit "OK") (lit "Key exists."))

  -- `URI_rpc_check_cb`
  unfoldable pub check_cb : Server engine → Server engine × Answer
  unfolding answer_exists snapshot_roptions read_through
  check_cb s = finish s do
    proto_and_method_sanity_check env req
    key ←
        query_param_sanity_check env req (lit "key") (lit "You have to specify which key to check")
    db ← find_database env req s
    pass (read_through s db key answer_exists (snapshot_roptions s db))

  -- `URI_rpc_exists_cb`
  unfoldable pub exists_cb : Server engine → Server engine × Answer
  unfolding answer_exists snapshot_roptions read_through
  exists_cb s = finish s do
    proto_and_method_sanity_check env req
    key ←
        query_param_sanity_check env req (lit "key")
          (lit "You have to specify which key to check exists.")
    db ← find_database env req s
    pass (read_through s db key answer_exists (snapshot_roptions s db))

  -- The end of `URI_rpc_seize_cb` for a value that was there, behind leveldb_delete: the value is
  -- sent in any case, and an error is reset.
  unfoldable pub answer_seize :
      Server engine → ℕ → Bytes → Bytes → Option Bytes → Server engine × Answer
  answer_seize s db key value none = (
    s,
    sent res_ok (
        if query_quiet_check env req
        then quiet_response_on_kv_with_len key value
        else msgalt_response_on_kv_with_len env key value (
            lit
              "Seize key value pair OK, but note that you have just deleted the pair on reveldb server")),
  )
  answer_seize s db key value (some e) = (
    reset_err s db,
    sent res_ok (
        if query_quiet_check env req
        then quiet_response_on_kv_with_len key value
        else msgalt_response_on_kv_with_len env key value (
            lit
              "Get kv pair OK, but note that you cannot delete the pair on reveldb server for some reasons")),
  )

  -- `URI_rpc_seize_cb` behind leveldb_get
  unfoldable pub seize_value : Server engine → ℕ → Bytes → Option Bytes → Server engine × Answer
  unfolding answer_seize
  seize_value s db key none = (
    s,
    sent res_notfound (
        error_response env req (query_quiet_check env req) res_notfound (lit "Not Found")
          (lit "Key value pair not found.")),
  )
  seize_value s db key (some value) =
      let s' = leveldb_delete s db key in answer_seize s' db key value (s'.heap db).err

  -- `URI_rpc_seize_cb`
  unfoldable pub seize_cb : Server engine → Server engine × Answer
  unfolding seize_value
  seize_cb s = finish s do
    proto_and_method_sanity_check env req
    key ← query_param_sanity_check env req (lit "key") (lit "Please specify which key to seize.")
    db ← find_database env req s
    let (value, s') = leveldb_get s db (s.heap db).roptions key
    pass (seize_value s' db key value)

  -- The end of `URI_rpc_del_cb`, behind leveldb_delete. The body says 204, the status is 200.
  unfoldable pub answer_del : Server engine → ℕ → Option Bytes → Server engine × Answer
  answer_del s db none = (
    s,
    sent res_ok (
        done_response env (query_quiet_check env req) res_nocontent (lit "No Content")
          (lit "Delete key done.")),
  )
  answer_del s db (some e) = (
    reset_err s db,
    sent res_serverr (
        error_response env req (query_quiet_check env req) res_serverr (lit "Internal Server Error")
          e),
  )

  -- `URI_rpc_del_cb`
  unfoldable pub del_cb : Server engine → Server engine × Answer
  unfolding answer_del
  del_cb s = finish s do
    proto_and_method_sanity_check env req
    key ←
        query_param_sanity_check env req (lit "key")
          (lit "You have to specify which key to delete.")
    db ← find_database env req s
    let s' = leveldb_delete s db key
    pass (answer_del s' db (s'.heap db).err)
