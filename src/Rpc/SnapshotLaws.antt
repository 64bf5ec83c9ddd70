-- ===== src/Rpc/SnapshotLaws.antt =====
-- A snapshot of a database, requests that change it, and a read through the snapshot: src/rpc.c and
-- src/snapshot.c.
use reveldb.Prelude.{ℕ, ◌≡◌, refl, ap, ◌∙◌, none, some, List, Bytes, lit, bytes_eq_iff}
use reveldb.Engine.{Contract, ReadOptions}
use reveldb.Engine.Views.{Snapshots}
use reveldb.Registry.{Balancer, KeepsOrder, in_order, search}
use reveldb.Registry.Order.{IsSorted}
use reveldb.Registry.Laws.{search-insert}
use reveldb.Rpc.Env.{Env, Request}
use reveldb.Rpc.Reply.{sent, res_ok, res_notfound, kv_response}
use reveldb.Rpc.Server.{Server, SnapshotEntry, leveldb_get}
use reveldb.Rpc.Checks.{
  pass, finish, ◌>>=◌, ◌>>◌, query_quiet_check, query_database, find_database,
  proto_and_method_sanity_check,
}
use reveldb.Rpc.Contents.{value_at}
use reveldb.Rpc.Asks.{Asks, param-Gives, find_database-Asks}
use reveldb.Rpc.Store.{get_cb, answer_get, snapshot_roptions, read_through}
use reveldb.Rpc.SetLaws.{status}
use reveldb.Rpc.Dispatch.{Command, serve_all}
use reveldb.Rpc.Serve.{serve_all-registries}
use reveldb.Rpc.Snapshot.{snapshot_new_cb, new_snapshot}

module _ (env : Env) (c : Contract env.engine) (v : Snapshots c)
    (rb : Balancer (SnapshotEntry env.engine)) (ko : KeepsOrder rb) (s : Server env.engine)
    (req : Request) (db : ℕ) (uuid : Bytes) where
  open env use {engine}

  -- A request for a snapshot of an open database, with an identifier that is new.
  pub record Takes : Type 0 where
    pub checked : proto_and_method_sanity_check env req ≡ pass tt
    pub database : search s.reveldb (query_database env req s) ≡ some db
    pub sorted : IsSorted (in_order s.dbsnapshot)
    pub unused : search s.dbsnapshot uuid ≡ none

  abbrev taken : Server engine
  taken = new_snapshot env req rb s db uuid

  snapshot_new_cb-Takes : Takes → (snapshot_new_cb env req rb uuid s).0 ≡ taken
  unfolding snapshot_new_cb finish ◌>>=◌ ◌>>◌ find_database
  snapshot_new_cb-Takes t =
      let found : find_database env req s ≡ pass db = rw (t.database, find_database) in
      rw (t.checked, found)

  abbrev entry : SnapshotEntry engine
  entry = record { snapshot = some (engine.create_snapshot (s.heap db).db); reveldb = db }

  search-taken : Takes → search taken.dbsnapshot uuid ≡ some entry
  unfolding new_snapshot
  search-taken t =
      let laws = search-insert rb ko s.dbsnapshot uuid entry t.sorted in
      laws.3 uuid (laws.1.1 t.unused) ∙ rw ((bytes_eq_iff uuid uuid).1 refl)

  module _ (requests : List (Command × Request)) (next : Request) (key : Bytes) where
    abbrev later : Server engine
    later = serve_all env requests (snapshot_new_cb env req rb uuid s).0

    abbrev roptions : ReadOptions engine.Snapshot
    roptions = record {
      verify_checksums = s.db_config.verify_checksums;
      fill_cache = s.db_config.fill_cache;
      snapshot = some (engine.create_snapshot (s.heap db).db);
    }

    -- A request of /rpc/get for the key, through the snapshot, on the same database; its read
    -- succeeds.
    pub record Reads : Type 0 where
      pub asks : Asks env next s key db
      pub names : env.kv_find next.query (lit "snapshot") ≡ some uuid
      pub no_error : (engine.get (later.heap db).db roptions key).1 ≡ none

    later-registries :
        Takes
        → (later.reveldb ≡ s.reveldb)
          × (later.dbsnapshot ≡ taken.dbsnapshot)
          × (later.db_config ≡ s.db_config)
    unfolding new_snapshot
    later-registries t =
        let (r, d, c') = serve_all-registries env requests (snapshot_new_cb env req rb uuid s).0 in
        let e = snapshot_new_cb-Takes t in
        (r ∙ ap (λ u. u.reveldb) e, d ∙ ap (λ u. u.dbsnapshot) e, c' ∙ ap (λ u. u.db_config) e)

    later-Asks : Takes → Reads → Asks env next later key db
    unfolding query_database
    later-Asks t r =
        let (e, d, c') = later-registries t in
        record {
          checked = r.asks.checked;
          key_arg = r.asks.key_arg;
          database = rw (e, c') r.asks.database;
        }

    roptions-later : Takes → Reads → snapshot_roptions env next later db ≡ some roptions
    unfolding snapshot_roptions
    roptions-later t r =
        let (e, d, c') = later-registries t in
        rw (r.names, snapshot_roptions, d, search-taken t, c')

    value-later : Reads → (leveldb_get later db roptions key).0 ≡ value_at c s db key
    unfolding leveldb_get
    value-later r =
        v.get_held (later.heap db).db roptions (engine.create_snapshot (s.heap db).db) key refl
          r.no_error
        ∙ v.held_create (s.heap db).db key

    -- A snapshot keeps its view: if /rpc/snapshot/new makes one of an open database, then,
    -- whatever requests of the handlers on one key are served in between, /rpc/get through the
    -- snapshot answers with the value that the key had when the snapshot was made, and with 404
    -- if it had none. The identifier is new in the sorted registry, the request of /rpc/get
    -- passes the checks, and its read succeeds.
    pub get_cb-snapshot_new_cb :
        Takes
        → Reads
        → ((value : Bytes)
            → value_at c s db key ≡ some value
            → (get_cb env next later).1
              ≡ sent res_ok (kv_response env (query_quiet_check env next) key value))
          × (value_at c s db key ≡ none → status (get_cb env next later).1 ≡ res_notfound)
    unfolding get_cb read_through finish ◌>>=◌ ◌>>◌ answer_get
    get_cb-snapshot_new_cb t r =
        let a = later-Asks t r in
        let e : (get_cb env next later).1 ≡ answer_get env next key (value_at c s db key) = rw (
          a.checked,
          param-Gives env next (lit "key") key _ a.key_arg,
          find_database-Asks env next later key db a,
          roptions-later t r,
          read_through,
          value-later r,
        ) in
        rw e (λ value h. rw (h, answer_get), λ h. rw (h, answer_get))
