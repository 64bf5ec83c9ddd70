-- ===== src/Rpc/ViewTests.antt =====
-- Runs of the handlers of src/rpc.c on snapshots and batches, with their theorems.
use reveldb.Prelude.{
  ℕ, ◌≡◌, refl, none, some, List, [], ◌∷◌, Bytes, lit, bytes_eq, strcmp, ◌==◌, if◌then◌else◌,
}
use reveldb.Engine.Views.{Update, put, delete, apply_all}
use reveldb.Registry.{search}
use reveldb.Registry.Chain.{leaf-IsSorted, balancer, balancer-KeepsOrder}
use reveldb.Rpc.Env.{Request}
use reveldb.Rpc.Reply.{sent, res_ok, res_notfound, kv_response}
use reveldb.Rpc.Server.{SnapshotEntry, BatchEntry}
use reveldb.Rpc.Checks.{proto_and_method_sanity_check, query_quiet_check, query_database}
use reveldb.Rpc.Contents.{value_at}
use reveldb.Rpc.Asks.{Asks}
use reveldb.Rpc.SetLaws.{status}
use reveldb.Rpc.Store.{get_cb}
use reveldb.Rpc.Dispatch.{Command, set, serve_all}
use reveldb.Rpc.Snapshot.{snapshot_new_cb}
use reveldb.Rpc.SnapshotLaws.{Takes, Reads, get_cb-snapshot_new_cb}
use reveldb.Rpc.Batch.{writebatch_new_cb, writebatch_commit_cb}
use reveldb.Rpc.BatchLaws.{AllRequest, collect}
use reveldb.Rpc.CommitLaws.{Makes, Commits, writebatch_commit_cb-collect}
use reveldb.Rpc.Sample.{env, engine, contract, server, request, arg}
use reveldb.Rpc.SampleLaws.{snapshots, batches}

abbrev new_request : Request
new_request = request []

abbrev between : List (Command × Request)
between = (set, request (arg "key" "w" ∷ arg "value" "v" ∷ [])) ∷ []

abbrev read_request : Request
read_request = request (arg "key" "w" ∷ arg "snapshot" "id" ∷ [])

new_request-Takes :
    Takes env contract snapshots
      (balancer (SnapshotEntry engine))
      (balancer-KeepsOrder (SnapshotEntry engine))
      server
      new_request
      1
      (lit "id")
unfolding lit bytes_eq strcmp search query_database proto_and_method_sanity_check
new_request-Takes = record {
  checked = refl;
  database = refl;
  sorted = leaf-IsSorted (SnapshotEntry engine);
  unused = refl;
}

read_request-Asks : Asks env read_request server (lit "w") 1
unfolding lit bytes_eq strcmp search query_database proto_and_method_sanity_check
read_request-Asks = record { checked = refl; key_arg = refl; database = refl }

read_request-Reads :
    Reads env contract snapshots
      (balancer (SnapshotEntry engine))
      (balancer-KeepsOrder (SnapshotEntry engine))
      server
      new_request
      1
      (lit "id")
      between
      read_request
      (lit "w")
unfolding lit bytes_eq
read_request-Reads = record { asks = read_request-Asks; names = refl; no_error = refl }

get_cb-snapshot_new_cb_example :
    ((value : Bytes)
      → value_at contract server 1 (lit "w") ≡ some value
      → (get_cb env read_request (
          serve_all env between
            (snapshot_new_cb env new_request
              (balancer (SnapshotEntry engine))
              (lit "id")
              server).0)).1
        ≡ sent res_ok (kv_response env (query_quiet_check env read_request) (lit "w") value))
    × (value_at contract server 1 (lit "w") ≡ none
        → status
            (get_cb env read_request (
              serve_all env between
                (snapshot_new_cb env new_request
                  (balancer (SnapshotEntry engine))
                  (lit "id")
                  server).0)).1
          ≡ res_notfound)
get_cb-snapshot_new_cb_example =
    get_cb-snapshot_new_cb env contract snapshots (balancer (SnapshotEntry engine))
      (balancer-KeepsOrder (SnapshotEntry engine)) server new_request 1 (lit "id") between
      read_request (lit "w") new_request-Takes read_request-Reads

abbrev put_request : Request
put_request = request (arg "batch" "id" ∷ arg "key" "x" ∷ arg "value" "1" ∷ [])

abbrev del_request : Request
del_request = request (arg "batch" "id" ∷ arg "key" "w" ∷ [])

abbrev commit_request : Request
commit_request = request (arg "batch" "id" ∷ [])

abbrev updates : List (Update × Request)
updates = (put (lit "x") (lit "1"), put_request) ∷ (delete (lit "w"), del_request) ∷ []

new_request-Makes :
    Makes env contract batches
      (balancer (BatchEntry engine))
      (balancer-KeepsOrder (BatchEntry engine))
      server
      (lit "id")
      new_request
unfolding lit bytes_eq strcmp search query_database proto_and_method_sanity_check
new_request-Makes = record {
  checked = refl;
  made_for = 1;
  database = refl;
  sorted = leaf-IsSorted (BatchEntry engine);
  unused = refl;
}

updates-AllRequest : AllRequest env (lit "id") updates
unfolding lit bytes_eq proto_and_method_sanity_check
updates-AllRequest = (
  record { checked = refl; batch_arg = refl; key_arg = refl; value_arg = refl },
  (record { checked = refl; batch_arg = refl; key_arg = refl; value_arg = tt }, tt),
)

commit_request-Commits : Commits env commit_request server (lit "id") 1
unfolding lit bytes_eq strcmp search query_database proto_and_method_sanity_check
commit_request-Commits = record { checked = refl; database = refl; batch_arg = refl }

writebatch_commit_cb-collect_example :
    (((collect env
          (lit "id")
          updates
          (writebatch_new_cb env new_request
            (balancer (BatchEntry engine))
            (lit "id")
            server).0).heap
        ≡ server.heap)
      × ((collect env
            (lit "id")
            updates
            (writebatch_new_cb env new_request
              (balancer (BatchEntry engine))
              (lit "id")
              server).0).reveldb
          ≡ server.reveldb))
    × (status
            (writebatch_commit_cb env commit_request (
              collect env
                (lit "id")
                updates
                (writebatch_new_cb env new_request
                  (balancer (BatchEntry engine))
                  (lit "id")
                  server).0)).1
          ≡ res_ok
        → (q : ℕ) (j : Bytes)
        → value_at contract
            (writebatch_commit_cb env commit_request (
              collect env
                (lit "id")
                updates
                (writebatch_new_cb env new_request
                  (balancer (BatchEntry engine))
                  (lit "id")
                  server).0)).0
            q
            j
          ≡ (if q == 1
              then apply_all
                  (put (lit "x") (lit "1") ∷ delete (lit "w") ∷ [])
                  (value_at contract server 1)
                  j
              else value_at contract server q j))
writebatch_commit_cb-collect_example =
    writebatch_commit_cb-collect env contract batches (balancer (BatchEntry engine))
      (balancer-KeepsOrder (BatchEntry engine)) server (lit "id") new_request commit_request updates
      1 new_request-Makes updates-AllRequest commit_request-Commits
