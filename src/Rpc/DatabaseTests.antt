-- ===== src/Rpc/DatabaseTests.antt =====
-- Runs of /rpc/new and /rpc/destroy of src/rpc.c, with their theorems.
use reveldb.Prelude.{
  ℕ, ◌<◌, ◌≡◌, refl, ap, ◌∙◌, Option, none, some, ◌++◌, [], ◌∷◌, Bytes, lit, bytes_eq, strcmp,
  strlen, take, arith, if◌then◌else◌,
}
use reveldb.TString.{contents}
use reveldb.TString.Edit.{Holds}
use reveldb.Registry.{search}
use reveldb.Registry.Chain.{pair-IsSorted, balancer, balancer-KeepsOrder}
use reveldb.Rpc.Env.{Request}
use reveldb.Rpc.Checks.{proto_and_method_sanity_check}
use reveldb.Rpc.Database.{full_path, destroy_cb, done_200, error_200}
use reveldb.Rpc.Paths.{separator, full_path_lem}
use reveldb.Rpc.DatabaseLaws.{NamesDb, destroy_cb_lem}
use reveldb.Rpc.Sample.{Pairs, env, engine, server, request, arg}

abbrev three_request : Request
three_request = request (arg "db" "three" ∷ [])

abbrev two_request : Request
two_request = request (arg "db" "two" ∷ [])

texts :
    (strlen (lit "d") ≡ 1)
    × (strlen (lit "three") ≡ 5)
    × (strlen (lit "two") ≡ 3)
    × (take 1 (lit "d") ≡ 100 ∷ [])
unfolding lit strlen
texts = (refl, refl, refl, refl)

path_of :
    (dbname : Bytes)
    → 0 < strlen dbname
    → strlen dbname < 100
    → Holds
        (full_path env.fill server.datadir dbname)
        (take (strlen (lit "d")) (lit "d") ++ separator 100 ++ take (strlen dbname) dbname)
path_of dbname some_name short =
    full_path_lem env.fill dbname [] 100 some_name (lit "d")
      (ap (λ n. take n (lit "d")) texts.0 ∙ texts.3) (omega (arith, texts.0))
      (omega (arith, texts.0))

two_path :
    Holds
      (full_path env.fill server.datadir (lit "two"))
      (take (strlen (lit "d")) (lit "d") ++ separator 100 ++ take (strlen (lit "two")) (lit "two"))
two_path = path_of (lit "two") (omega (arith, texts.2)) (omega (arith, texts.2))

two_request-NamesDb :
    NamesDb env two_request (balancer ℕ) (balancer-KeepsOrder ℕ) server (lit "two") two_path.result
unfolding lit bytes_eq strcmp proto_and_method_sanity_check
two_request-NamesDb = record {
  checked = refl;
  db_arg = refl;
  built = two_path.returned;
  sorted = pair-IsSorted (lit "one") (lit "two") 1 2 refl;
}

two-found : search server.reveldb (lit "two") ≡ some 2
unfolding lit strcmp search
two-found = refl

abbrev opened : Bytes → Option Pairs
opened path = some []

abbrev locked : Bytes → Option Bytes
locked path = some (lit "IO error")

destroy_cb_lem_example :
    (locked (contents two_path.result) ≡ none
      → ((destroy_cb env two_request (balancer ℕ) locked server).1
          ≡ done_200 env two_request (lit "Destroy db done."))
        × ((j : Bytes)
            → search (destroy_cb env two_request (balancer ℕ) locked server).0.reveldb j
              ≡ (if bytes_eq (lit "two") j then none else search server.reveldb j)))
    × ((e : Bytes)
        → locked (contents two_path.result) ≡ some e
        → ((destroy_cb env two_request (balancer ℕ) locked server).1 ≡ error_200 env two_request e)
          × (search (destroy_cb env two_request (balancer ℕ) locked server).0.reveldb (lit "two")
              ≡ some 2)
          × (((destroy_cb env two_request (balancer ℕ) locked server).0.heap 2).db
              ≡ engine.close (server.heap 2).db))
destroy_cb_lem_example =
    destroy_cb_lem env two_request (balancer ℕ) (balancer-KeepsOrder ℕ) server (lit "two")
      two_path.result two_request-NamesDb 2 locked two-found refl
