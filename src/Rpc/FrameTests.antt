-- ===== src/Rpc/FrameTests.antt =====
-- Runs of /rpc/del and /rpc/seize of src/rpc.c, of requests in general, and of sequences of them.
use reveldb.Prelude.{
  ℕ, ◌≡◌, ◌≢◌, refl, ap, ◌&&◌, Option, none, some, List, [], ◌∷◌, Bytes, lit, bytes_eq, strcmp,
  ◌==◌, if◌then◌else◌, arith,
}
use reveldb.Registry.{search}
use reveldb.Rpc.Env.{Request, proto_10, method_get}
use reveldb.Rpc.Reply.{
  sent, res_ok, res_serverr, res_notfound, res_badreq, quiet_response_on_kv_with_len,
  msgalt_response_on_kv_with_len,
}
use reveldb.Rpc.Checks.{proto_and_method_sanity_check, query_quiet_check, query_database}
use reveldb.Rpc.Contents.{value_at}
use reveldb.Rpc.Asks.{Asks}
use reveldb.Rpc.Store.{del_cb, seize_cb}
use reveldb.Rpc.SetLaws.{status}
use reveldb.Rpc.RemoveLaws.{del_cb_lem, seize_cb_lem}
use reveldb.Rpc.Dispatch.{Command, set, incr, get, serve, serve_all}
use reveldb.Rpc.Isolation.{Within, target}
use reveldb.Rpc.Serve.{serve-Within, serve_all-Avoids, Avoids}
use reveldb.Rpc.Stopped.{serve-unchecked}
use reveldb.Rpc.Sample.{env, engine, contract, server, request, arg}

abbrev on_w : Request
on_w = request (arg "key" "w" ∷ [])

on_w-Asks : Asks env on_w server (lit "w") 1
unfolding lit bytes_eq strcmp search query_database proto_and_method_sanity_check
on_w-Asks = record { checked = refl; key_arg = refl; database = refl }

del_cb_lem_example :
    (status (del_cb env on_w server).1 ≡ res_ok
      → (q : ℕ) (j : Bytes)
      → value_at contract (del_cb env on_w server).0 q j
        ≡ (if (q == 1) && bytes_eq (lit "w") j then none else value_at contract server q j))
    × (status (del_cb env on_w server).1 ≢ res_ok
        → (status (del_cb env on_w server).1 ≡ res_serverr)
          × (((del_cb env on_w server).0.heap 1).err ≡ none))
del_cb_lem_example = del_cb_lem env on_w server (lit "w") 1 on_w-Asks contract

seize_cb_lem_example :
    (value_at contract server 1 (lit "w") ≡ none
      → (status (seize_cb env on_w server).1 ≡ res_notfound)
        × ((q : ℕ) (j : Bytes)
            → value_at contract (seize_cb env on_w server).0 q j ≡ value_at contract server q j))
    × ((value : Bytes)
        → value_at contract server 1 (lit "w") ≡ some value
        → (server.heap 1).err ≡ none
        → (engine.delete (server.heap 1).db (server.heap 1).woptions (lit "w")).1 ≡ none
        → ((seize_cb env on_w server).1
            ≡ sent res_ok (
                if query_quiet_check env on_w
                then quiet_response_on_kv_with_len (lit "w") value
                else msgalt_response_on_kv_with_len env (lit "w") value (
                    lit
                      "Seize key value pair OK, but note that you have just deleted the pair on reveldb server")))
          × ((q : ℕ) (j : Bytes)
              → value_at contract (seize_cb env on_w server).0 q j ≡ (
                  if (q == 1) && bytes_eq (lit "w") j then none else value_at contract server q j)))
seize_cb_lem_example =
    seize_cb_lem env on_w server (lit "w") 1 on_w-Asks contract
      (record { present_time = refl; no_error = refl })

abbrev step_n : Request
step_n = request (arg "key" "n" ∷ arg "step" "1" ∷ [])

serve-Within_example : Within (target env step_n server) server (serve env incr step_n server).0
serve-Within_example = serve-Within env step_n server incr

-- Two requests on the first database, before the second
abbrev requests : List (Command × Request)
requests = (incr, step_n) ∷ (set, request (arg "key" "w" ∷ arg "value" "v" ∷ [])) ∷ []

option_ℕ : Option ℕ → ℕ
option_ℕ none = 0
option_ℕ (some n) = n

names_one : target env step_n server ≢ some 2
unfolding lit bytes_eq strcmp search query_database option_ℕ
names_one h = omega (arith, ap option_ℕ h)

requests-Avoids : Avoids env 2 server requests
unfolding lit bytes_eq strcmp search query_database option_ℕ
requests-Avoids = (names_one, (λ h. omega (arith, ap option_ℕ h), tt))

serve_all-Avoids_example :
    ((serve_all env requests server).heap 2 ≡ server.heap 2)
    × ((serve_all env requests server).reveldb ≡ server.reveldb)
    × ((serve_all env requests server).dbsnapshot ≡ server.dbsnapshot)
    × ((serve_all env requests server).dbiter ≡ server.dbiter)
    × ((serve_all env requests server).dbwritebatch ≡ server.dbwritebatch)
    × ((serve_all env requests server).db_config ≡ server.db_config)
    × ((serve_all env requests server).datadir ≡ server.datadir)
serve_all-Avoids_example = serve_all-Avoids env requests server 2 requests-Avoids

abbrev old_proto : Request
old_proto = record { proto = proto_10; method = method_get; headers_in = []; query = [] }

serve-unchecked_example :
    ((serve env get old_proto server).0 ≡ server)
    × (status (serve env get old_proto server).1 ≡ res_badreq)
serve-unchecked_example = serve-unchecked env old_proto server get refl
