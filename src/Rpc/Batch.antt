-- ===== src/Rpc/Batch.antt =====
-- The handlers /rpc/batch/... of src/rpc.c, on src/writebatch.c.
use reveldb.Prelude.{ℕ, Option, none, some, Bytes, lit}
use reveldb.Registry.{Balancer, search, insert}
use reveldb.Registry.Adjust.{adjust}
use reveldb.Rpc.Env.{Env, Request}
use reveldb.Rpc.Reply.{
  Answer, sent, res_ok, res_badreq, res_serverr, response_on_error, done_response, error_response,
}
use reveldb.Rpc.Bodies.{id_response}
use reveldb.Rpc.Server.{Server, BatchEntry, leveldb_write, reset_err}
use reveldb.Rpc.Checks.{
  Check, pass, stop, ◌>>=◌, ◌>>◌, finish, proto_and_method_sanity_check, query_param_sanity_check,
  query_quiet_check, find_database,
}
use reveldb.Rpc.Snapshot.{query_iter_check, found_or}

module _ (env : Env) (req : Request) where
  open env use {engine, kv_find}

  -- `_rpc_query_batch_check`, and the return of the handlers if there is no "batch" argument
  unfoldable pub query_batch_check : Check Bytes
  query_batch_check = elim (kv_find req.query (lit "batch")) [
    | some id ↦ pass id
    | none ↦ stop (
        sent res_badreq (
          response_on_error env req res_badreq (lit "Bad Request")
            (lit "Batch ID must be specified.")))
  ]

  -- The search for the batch of the handlers, and their return if there is none
  unfoldable pub find_batch : Server engine → Bytes → Check (BatchEntry engine)
  unfolding found_or
  find_batch s id =
      found_or env req (lit "Batch not found, please check.") (search s.dbwritebatch id)

  -- A change to the batch behind the pointer that the search returns
  unfoldable pub update_batch :
      Server engine → Bytes → (engine.WriteBatch → engine.WriteBatch) → Server engine
  unfolding adjust
  update_batch s id f = record s {
    dbwritebatch = adjust s.dbwritebatch id (λ e. record e { writebatch = f e.writebatch });
  }

  -- The answer of the handlers that change a batch
  unfoldable pub batch_done : Bytes → Answer
  batch_done message =
      sent res_ok (done_response env (query_quiet_check env req) res_ok (lit "OK") message)

  -- `URI_rpc_writebatch_put_cb`
  unfoldable pub writebatch_put_cb : Server engine → Server engine × Answer
  unfolding query_batch_check find_batch update_batch batch_done
  writebatch_put_cb s = finish s do
    proto_and_method_sanity_check env req
    key ← query_param_sanity_check env req (lit "key") (lit "Please specify which key to set.")
    value ←
        query_param_sanity_check env req (lit "value")
          (lit "Please set value along with the key you've specified.")
    id ← query_batch_check
    batch ← find_batch s id
    pass (
      update_batch s id (λ b. engine.writebatch_put b key value),
      batch_done (lit "Set writebatch key-value pair done."),
    )

  -- `URI_rpc_writebatch_del_cb`
  unfoldable pub writebatch_del_cb : Server engine → Server engine × Answer
  unfolding query_batch_check find_batch update_batch batch_done
  writebatch_del_cb s = finish s do
    proto_and_method_sanity_check env req
    key ← query_param_sanity_check env req (lit "key") (lit "Please specify which key to set.")
    id ← query_batch_check
    batch ← find_batch s id
    pass (
      update_batch s id (λ b. engine.writebatch_delete b key),
      batch_done (lit "Delete writebatch key-value pair done."),
    )

  -- `URI_rpc_writebatch_clear_cb`
  unfoldable pub writebatch_clear_cb : Server engine → Server engine × Answer
  unfolding query_batch_check find_batch update_batch batch_done
  writebatch_clear_cb s = finish s do
    proto_and_method_sanity_check env req
    id ← query_batch_check
    batch ← find_batch s id
    pass (
      update_batch s id (λ b. engine.writebatch_clear b),
      batch_done (lit "Clear writebatch done."),
    )

  -- The end of `URI_rpc_writebatch_commit_cb`, behind leveldb_write: an error is sent and reset.
  unfoldable pub answer_commit : Server engine → ℕ → Option Bytes → Server engine × Answer
  answer_commit s db none = (
    s,
    sent res_ok
        (done_response env (query_quiet_check env req) res_ok (lit "OK") (lit "Writebatch done.")),
  )
  answer_commit s db (some e) = (
    reset_err s db,
    sent res_serverr (
        error_response env req (query_quiet_check env req) res_serverr (lit "Internal Server Error")
          e),
  )

  -- `URI_rpc_writebatch_commit_cb`: the database is the one that the request names, whichever the
  -- batch was made for.
  unfoldable pub writebatch_commit_cb : Server engine → Server engine × Answer
  unfolding query_batch_check find_batch leveldb_write answer_commit
  writebatch_commit_cb s = finish s do
    proto_and_method_sanity_check env req
    db ← find_database env req s
    id ← query_batch_check
    batch ← find_batch s id
    let s' = leveldb_write s db batch.writebatch
    pass (answer_commit s' db (s'.heap db).err)

  module _ (rb : Balancer (BatchEntry engine)) where
    -- `xleveldb_init_writebatch` and `xleveldb_insert_writebatch`, whose result is not looked at
    unfoldable pub new_batch : Server engine → ℕ → Bytes → Server engine
    unfolding insert
    new_batch s db uuid = record s {
      dbwritebatch =
          (insert rb s.dbwritebatch uuid
            (record { writebatch = engine.writebatch_create; reveldb = db })).0;
    }

    -- `URI_rpc_writebatch_new_cb`
    unfoldable pub writebatch_new_cb : Bytes → Server engine → Server engine × Answer
    unfolding new_batch
    writebatch_new_cb uuid s = finish s do
      proto_and_method_sanity_check env req
      db ← find_database env req s
      pass (new_batch s db uuid, sent res_ok (id_response env (query_quiet_check env req) uuid))

    -- `URI_rpc_writebatch_destroy_cb`. The identifier is the argument "iter". The entry is freed
    -- before rb_erase takes it out of the tree; what stands there is taken to be still the same.
    unfoldable pub writebatch_destroy_cb : Server engine → Server engine × Answer
    unfolding query_iter_check found_or
    writebatch_destroy_cb s = finish s do
      proto_and_method_sanity_check env req
      id ← query_iter_check env req (lit "Writebatch ID must be specified.")
      batch ←
          found_or env req (lit "Writebatch not found, please check.") (search s.dbwritebatch id)
      pass (
        record s { dbwritebatch = rb.erase s.dbwritebatch id },
        batch_done (lit "Writebatch destroyed"),
      )
