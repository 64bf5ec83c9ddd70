-- ===== src/Rpc/CursorRead.antt =====
-- The handlers /rpc/iter/... of src/rpc.c that make, read and destroy an iterator.
use reveldb.Prelude.{ℕ, Option, none, some, Bytes, lit, if◌then◌else◌}
use reveldb.Engine.{ReadOptions}
use reveldb.Registry.{Balancer, insert}
use reveldb.Rpc.Env.{Env, Request}
use reveldb.Rpc.Reply.{
  Answer, sent, fault, res_ok, res_serverr, done_response, kv_response,
  quiet_response_on_kv_with_len, msgalt_response_on_kv_with_len,
}
use reveldb.Rpc.Bodies.{id_response}
use reveldb.Rpc.Server.{Server, IterEntry}
use reveldb.Rpc.Checks.{
  pass, ◌>>=◌, ◌>>◌, finish, proto_and_method_sanity_check, query_quiet_check, find_database,
}
use reveldb.Rpc.Store.{snapshot_roptions}
use reveldb.Rpc.Snapshot.{query_iter_check}
use reveldb.Rpc.Cursor.{find_iter}

module _ (env : Env) (req : Request) where
  open env use {engine, kv_find}

  -- The answer of the handlers that read where a pointer is NULL
  unfoldable pub answer_invalid : Answer
  answer_invalid = sent res_serverr (
      done_response env (query_quiet_check env req) res_serverr (lit "Internal Server Error")
        (lit "Invalid iterator."))

  -- The end of `URI_rpc_iter_key_cb` and of `URI_rpc_iter_value_cb`
  unfoldable pub answer_part : Bytes → Bytes → Option Bytes → Answer
  unfolding answer_invalid
  answer_part name message none = answer_invalid
  answer_part name message (some part) = sent res_ok (
      if query_quiet_check env req
      then quiet_response_on_kv_with_len name part
      else msgalt_response_on_kv_with_len env name part message)

  -- The end of `URI_rpc_iter_kv_cb`
  unfoldable pub answer_kv : Option Bytes → Option Bytes → Answer
  unfolding answer_invalid
  answer_kv (some key) (some value) =
      sent res_ok (kv_response env (query_quiet_check env req) key value)
  answer_kv _ _ = answer_invalid

  -- `URI_rpc_iter_key_cb`
  unfoldable pub iter_key_cb : Server engine → Server engine × Answer
  unfolding query_iter_check find_iter answer_part
  iter_key_cb s = finish s do
    proto_and_method_sanity_check env req
    id ← query_iter_check env req (lit "Iterator ID must be specified.")
    e ← find_iter env req s id
    pass (
      s,
      answer_part (lit "key") (lit "Get the key of current iterator.") (engine.iter_key e.iter),
    )

  -- `URI_rpc_iter_value_cb`
  unfoldable pub iter_value_cb : Server engine → Server engine × Answer
  unfolding query_iter_check find_iter answer_part
  iter_value_cb s = finish s do
    proto_and_method_sanity_check env req
    id ← query_iter_check env req (lit "Iterator ID must be specified.")
    e ← find_iter env req s id
    pass (
      s,
      answer_part (lit "value") (lit "Get the value of current iterator.")
          (engine.iter_value e.iter),
    )

  -- `URI_rpc_iter_kv_cb`, on `xleveldb_iter_kv`
  unfoldable pub iter_kv_cb : Server engine → Server engine × Answer
  unfolding query_iter_check find_iter answer_kv
  iter_kv_cb s = finish s do
    proto_and_method_sanity_check env req
    id ← query_iter_check env req (lit "Iterator ID must be specified.")
    e ← find_iter env req s id
    pass (s, answer_kv (engine.iter_key e.iter) (engine.iter_value e.iter))

  -- The read options that a new iterator owns: those that are made for a snapshot
  unfoldable pub own_roptions : ReadOptions engine.Snapshot → Option (ReadOptions engine.Snapshot)
  own_roptions roptions = elim (kv_find req.query (lit "snapshot")) [
    | none ↦ none
    | some id ↦ some roptions
  ]

  module _ (rb : Balancer (IterEntry engine)) where
    -- `xleveldb_init_iter`, which moves the new iterator to the first entry, and
    -- `xleveldb_insert_iter`, whose result is not looked at. A name that no snapshot has is a NULL
    -- pointer that is read.
    unfoldable pub new_iter :
        Server engine → ℕ → Bytes → Option (ReadOptions engine.Snapshot) → Server engine × Answer
    unfolding insert own_roptions
    new_iter s db uuid none = (s, fault)
    new_iter s db uuid (some roptions) = (
      record s {
        dbiter =
            (insert rb s.dbiter uuid (record {
              iter = engine.iter_seek_to_first (engine.create_iterator (s.heap db).db roptions);
              reveldb = db;
              external_roptions = own_roptions roptions;
            })).0;
      },
      sent res_ok (id_response env (query_quiet_check env req) uuid),
    )

    -- `URI_rpc_iter_new_cb`
    unfoldable pub iter_new_cb : Bytes → Server engine → Server engine × Answer
    unfolding new_iter snapshot_roptions
    iter_new_cb uuid s = finish s do
      proto_and_method_sanity_check env req
      db ← find_database env req s
      pass (new_iter s db uuid (snapshot_roptions env req s db))

    -- `URI_rpc_iter_destroy_cb`. The entry is freed before rb_erase takes it out of the tree; what
    -- stands there is taken to be still the same.
    unfoldable pub iter_destroy_cb : Server engine → Server engine × Answer
    unfolding query_iter_check find_iter
    iter_destroy_cb s = finish s do
      proto_and_method_sanity_check env req
      id ← query_iter_check env req (lit "Iterator ID must be specified.")
      e ← find_iter env req s id
      pass (
        record s { dbiter = rb.erase s.dbiter id },
        sent res_ok (
            done_response env (query_quiet_check env req) res_ok (lit "OK")
              (lit "Iterator destroyed")),
      )
