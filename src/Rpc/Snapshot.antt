-- ===== src/Rpc/Snapshot.antt =====
-- The handlers /rpc/snapshot/new and /rpc/snapshot/release of src/rpc.c, on src/snapshot.c.
-- The identifier is one of src/uuid, a copy of another library.
use reveldb.Prelude.{ℕ, Option, none, some, Bytes, lit}
use reveldb.Registry.{Balancer, search, insert}
use reveldb.Rpc.Env.{Env, Request}
use reveldb.Rpc.Reply.{
  Answer, sent, res_ok, res_badreq, res_notfound, response_on_error, general_response,
  done_response,
}
use reveldb.Rpc.Bodies.{id_response}
use reveldb.Rpc.Server.{Server, SnapshotEntry}
use reveldb.Rpc.Checks.{
  Check, pass, stop, ◌>>=◌, ◌>>◌, finish, proto_and_method_sanity_check, query_quiet_check,
  find_database,
}

module _ (env : Env) (req : Request) where
  open env use {engine, kv_find}

  -- `_rpc_query_iter_check`, and the return of the handlers if there is no "iter" argument
  unfoldable pub query_iter_check : Bytes → Check Bytes
  query_iter_check message = elim (kv_find req.query (lit "iter")) [
    | some id ↦ pass id
    | none ↦
        stop (sent res_badreq (response_on_error env req res_badreq (lit "Bad Request") message))
  ]

  -- An entry that the registries do not have
  unfoldable pub found_or {ℓ} : {A : Type ℓ} → Bytes → Option A → Check A
  found_or message (some a) = pass a
  found_or message none =
      stop (sent res_notfound (general_response env res_notfound (lit "Not Found") message))

  module _ (rb : Balancer (SnapshotEntry engine)) where
    -- `xleveldb_init_snapshot` and `xleveldb_insert_snapshot`, whose result is not looked at
    unfoldable pub new_snapshot : Server engine → ℕ → Bytes → Server engine
    unfolding insert
    new_snapshot s db uuid = record s {
      dbsnapshot =
          (insert rb s.dbsnapshot uuid
            (record { snapshot = some (engine.create_snapshot (s.heap db).db); reveldb = db })).0;
    }

    -- `URI_rpc_snapshot_new_cb`
    unfoldable pub snapshot_new_cb : Bytes → Server engine → Server engine × Answer
    unfolding new_snapshot
    snapshot_new_cb uuid s = finish s do
      proto_and_method_sanity_check env req
      db ← find_database env req s
      pass (new_snapshot s db uuid, sent res_ok (id_response env (query_quiet_check env req) uuid))

    -- `URI_rpc_snapshot_release_cb`. The identifier is the argument "iter". The entry is freed before
    -- rb_erase takes it out of the tree; what stands there is taken to be still the same.
    unfoldable pub snapshot_release_cb : Server engine → Server engine × Answer
    unfolding query_iter_check found_or
    snapshot_release_cb s = finish s do
      proto_and_method_sanity_check env req
      id ← query_iter_check (lit "Snapshot ID must be specified.")
      entry ← found_or (lit "Snapshot not found, please check.") (search s.dbsnapshot id)
      pass (
        record s { dbsnapshot = rb.erase s.dbsnapshot id },
        sent res_ok (
            done_response env (query_quiet_check env req) res_ok (lit "OK")
              (lit "Snapshot released.")),
      )
