-- ===== src/Rpc/Tests.antt =====
-- Runs of the handlers of src/rpc.c, and their theorems at concrete requests.
use reveldb.Prelude.{
  ℕ, ◌≡◌, ◌≢◌, ◌↔◌, refl, false, ◌&&◌, none, some, [], ◌∷◌, Bytes, lit, bytes_eq, strcmp, ◌==◌,
  if◌then◌else◌,
}
use reveldb.Registry.{search}
use reveldb.Registry.Order.{lookup}
use reveldb.Rpc.Env.{Request}
use reveldb.Rpc.Reply.{sent, res_ok, res_serverr, res_notfound, kv_response}
use reveldb.Rpc.Server.{leveldb_put}
use reveldb.Rpc.Checks.{
  finish, ◌>>=◌, ◌>>◌, proto_and_method_sanity_check, query_param_sanity_check, query_quiet_check,
  query_database, find_database,
}
use reveldb.Rpc.Contents.{value_at}
use reveldb.Rpc.Asks.{Asks}
use reveldb.Rpc.Store.{set_cb, get_cb, answer_set}
use reveldb.Rpc.SetLaws.{status, set_cb_lem}
use reveldb.Rpc.GetLaws.{NoSnapshot, Readable, get_cb_lem}
use reveldb.Rpc.RoundTrip.{get_cb-set_cb}
use reveldb.Rpc.Sample.{env, engine, contract, server, request, arg}

abbrev set_request : Request
set_request = request (arg "key" "k" ∷ arg "value" "v" ∷ [])

set_request-Asks : Asks env set_request server (lit "k") 1
unfolding lit bytes_eq strcmp search query_database proto_and_method_sanity_check
set_request-Asks = record { checked = refl; key_arg = refl; database = refl }

set_cb_lem_example :
    ((status (set_cb env set_request server).1 ≡ res_ok) ↔ (
      ((server.heap 1).err ≡ none)
      × ((engine.put (server.heap 1).db false (lit "k") (lit "v")).1 ≡ none)))
    × (status (set_cb env set_request server).1 ≡ res_ok
        → (q : ℕ) (j : Bytes)
        → value_at contract (set_cb env set_request server).0 q j ≡ (
            if (q == 1) && bytes_eq (lit "k") j
            then some (lit "v")
            else value_at contract server q j))
    × (status (set_cb env set_request server).1 ≢ res_ok
        → (status (set_cb env set_request server).1 ≡ res_serverr)
          × (((set_cb env set_request server).0.heap 1).err ≡ none))
unfolding lit bytes_eq
set_cb_lem_example =
    set_cb_lem env set_request server (lit "k") (lit "v") 1 set_request-Asks refl contract

set_over : Request
set_over = request (arg "key" "w" ∷ arg "value" "v" ∷ [])

set_over-Asks : Asks env set_over server (lit "w") 1
unfolding set_over lit bytes_eq strcmp search query_database proto_and_method_sanity_check
set_over-Asks = record { checked = refl; key_arg = refl; database = refl }

abbrev get_request : Request
get_request = request (arg "key" "w" ∷ [])

get_request-Asks : Asks env get_request server (lit "w") 1
unfolding lit bytes_eq strcmp search query_database proto_and_method_sanity_check
get_request-Asks = record { checked = refl; key_arg = refl; database = refl }

get_request-NoSnapshot : NoSnapshot env get_request
unfolding lit bytes_eq
get_request-NoSnapshot = refl

server-Readable : (key : Bytes) → Readable env contract server 1 key
server-Readable key = record { present_time = refl; no_error = refl }

found_w : value_at contract server 1 (lit "w") ≡ some (lit "abc")
unfolding lit bytes_eq lookup
found_w = refl

get_cb_lem_example :
    ((value : Bytes)
      → value_at contract server 1 (lit "w") ≡ some value
      → (get_cb env get_request server).1
        ≡ sent res_ok (kv_response env (query_quiet_check env get_request) (lit "w") value))
    × (value_at contract server 1 (lit "w") ≡ none
        → status (get_cb env get_request server).1 ≡ res_notfound)
    × ((q : ℕ) (j : Bytes)
        → value_at contract (get_cb env get_request server).0 q j ≡ value_at contract server q j)
get_cb_lem_example =
    get_cb_lem env contract server 1 (lit "w") get_request get_request-Asks get_request-NoSnapshot
      (server-Readable (lit "w"))

set_over_done : status (set_cb env set_over server).1 ≡ res_ok
unfolding set_over lit bytes_eq
set_over_done =
    (set_cb_lem env set_over server (lit "w") (lit "v") 1 set_over-Asks refl contract).0.1
      (refl, refl)

written-Readable : Readable env contract (set_cb env set_over server).0 1 (lit "w")
unfolding set_cb set_over lit bytes_eq strcmp search query_database proto_and_method_sanity_check
    query_param_sanity_check find_database finish ◌>>=◌ ◌>>◌ leveldb_put answer_set
written-Readable = record { present_time = refl; no_error = refl }

get_cb-set_cb_example :
    (get_cb env get_request (set_cb env set_over server).0).1
    ≡ sent res_ok (kv_response env (query_quiet_check env get_request) (lit "w") (lit "v"))
unfolding set_over lit bytes_eq
get_cb-set_cb_example =
    get_cb-set_cb env set_over get_request server (lit "w") (lit "v") 1 set_over-Asks refl
      get_request-Asks get_request-NoSnapshot contract set_over_done written-Readable
