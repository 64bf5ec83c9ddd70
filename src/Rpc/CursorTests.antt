-- ===== src/Rpc/CursorTests.antt =====
-- Runs of the handlers /rpc/iter/... of src/rpc.c, with their theorems.
use reveldb.Prelude.{
  ◌<◌, ◌≡◌, refl, none, some, false, [], ◌∷◌, lit, bytes_eq, strcmp, arith, length,
}
use reveldb.Utility.Decimal.{decimal}
use reveldb.Utility.Parse.{safe_strtoul}
use reveldb.Utility.RoundTrip.{safe_strtoul-decimal}
use reveldb.Registry.{leaf, node, Color, search}
use reveldb.Registry.Order.{lookup}
use reveldb.Registry.Chain.{leaf-IsSorted, pair-IsSorted, balancer, balancer-KeepsOrder}
use reveldb.Rpc.Env.{Request}
use reveldb.Rpc.Reply.{sent, res_ok, kv_response, done_response}
use reveldb.Rpc.Server.{Server, IterEntry}
use reveldb.Rpc.Checks.{proto_and_method_sanity_check, query_quiet_check, query_database}
use reveldb.Rpc.Cursor.{iter_next_cb, iter_forward_cb, iter_backward_cb, iter_seek_cb}
use reveldb.Rpc.CursorRead.{iter_destroy_cb, iter_new_cb, iter_kv_cb}
use reveldb.Rpc.CursorLaws.{Names, Steps, walk, iter_forward_cb-walk}
use reveldb.Rpc.CursorEnds.{Ends, no_iter, iter_destroy_cb_lem}
use reveldb.Rpc.Scan.{
  Opens, Seeks, iter_kv_cb-walk, iter_kv_cb-iter_seek_cb, iter_backward_cb-iter_forward_cb,
}
use reveldb.Rpc.Sample.{env, engine, server, request, arg, sort_pairs, read_options}
use reveldb.Rpc.SampleLaws.{cursors, IsSorted-sort_pairs}

abbrev named : Request
named = request (arg "iter" "id" ∷ [])

named-Names : Names env (lit "id") named
unfolding lit bytes_eq proto_and_method_sanity_check
named-Names = record { checked = refl; iter_arg = refl }

new_request-Opens :
    Opens env cursors
      (balancer (IterEntry engine))
      (balancer-KeepsOrder (IterEntry engine))
      server
      (lit "id")
      1
      (request [])
unfolding lit bytes_eq strcmp search query_database proto_and_method_sanity_check
new_request-Opens = record {
  checked = refl;
  database = refl;
  no_snapshot = refl;
  latest = refl;
  sorted = leaf-IsSorted (IterEntry engine);
  unused = refl;
}

iter_kv_cb-walk_example :
    (iter_kv_cb env named (
      walk env
        (lit "id")
        (named ∷ [])
        (iter_new_cb env (request []) (balancer (IterEntry engine)) (lit "id") server).0)).1
    ≡ sent res_ok (kv_response env (query_quiet_check env named) (lit "w") (lit "abc"))
unfolding lit strcmp
iter_kv_cb-walk_example =
    iter_kv_cb-walk env cursors (balancer (IterEntry engine))
      (balancer-KeepsOrder (IterEntry engine)) server (lit "id") 1 (request []) named (named ∷ [])
      (lit "w") (lit "abc") new_request-Opens (named-Names, tt) named-Names refl

-- An iterator at the first entry of the first database
abbrev entry : IterEntry engine
entry = record {
  iter = engine.iter_seek_to_first (engine.create_iterator (server.heap 1).db read_options);
  reveldb = 1;
  external_roptions = none;
}

abbrev moving : Server engine
moving = record server { dbiter = node Color.black leaf (lit "id") entry leaf }

entry-found : search moving.dbiter (lit "id") ≡ some entry
unfolding lit search strcmp
entry-found = refl

abbrev step_request : Request
step_request = request (arg "iter" "id" ∷ record { key = lit "step"; val = decimal 1 } ∷ [])

numeral_1 : safe_strtoul (decimal 1) ≡ some 1
numeral_1 = safe_strtoul-decimal 1 (omega arith)

step_request-Steps : Steps env (lit "id") step_request 1
unfolding lit bytes_eq proto_and_method_sanity_check
step_request-Steps = record {
  names = record { checked = refl; iter_arg = refl };
  step_str = decimal 1;
  step_arg = refl;
  numeral = numeral_1;
}

iter_forward_cb-walk_example :
    (iter_forward_cb env step_request moving).0 ≡ walk env (lit "id") (named ∷ []) moving
iter_forward_cb-walk_example =
    iter_forward_cb-walk env (lit "id") step_request (named ∷ []) moving entry step_request-Steps
      (named-Names, tt) entry-found

two_entries : 1 < length (sort_pairs (server.heap 1).db)
unfolding lit strcmp
two_entries = omega arith

iter_backward_cb-iter_forward_cb_example :
    (iter_kv_cb env named
      (iter_backward_cb env step_request (iter_forward_cb env step_request moving).0).0).1
    ≡ (iter_kv_cb env named moving).1
iter_backward_cb-iter_forward_cb_example =
    iter_backward_cb-iter_forward_cb env (lit "id") cursors step_request step_request named 1 moving
      entry step_request-Steps step_request-Steps named-Names entry-found two_entries

abbrev seek_request : Request
seek_request = request (arg "iter" "id" ∷ arg "key" "w" ∷ [])

seek_request-Seeks : Seeks env (lit "id") cursors seek_request (lit "w")
unfolding lit bytes_eq proto_and_method_sanity_check
seek_request-Seeks = record { names = record { checked = refl; iter_arg = refl }; key_arg = refl }

iter_kv_cb-iter_seek_cb_example :
    ((iter_seek_cb env seek_request moving).1
      ≡ sent res_ok (
          done_response env
            (query_quiet_check env seek_request)
            res_ok
            (lit "OK")
            (lit "Iterator seek done")))
    × ((iter_kv_cb env named (iter_seek_cb env seek_request moving).0).1
        ≡ sent res_ok (kv_response env (query_quiet_check env named) (lit "w") (lit "abc")))
unfolding lit strcmp bytes_eq lookup
iter_kv_cb-iter_seek_cb_example =
    iter_kv_cb-iter_seek_cb env (lit "id") cursors seek_request named (lit "w") (lit "abc") moving
      entry seek_request-Seeks named-Names entry-found (IsSorted-sort_pairs (server.heap 1).db) refl

-- Two iterators, the second beside the first
abbrev two_moving : Server engine
two_moving = record server {
  dbiter = node Color.black leaf (lit "id") entry (node Color.red leaf (lit "other") entry leaf);
}

named-Ends :
    Ends env
      (balancer (IterEntry engine))
      (balancer-KeepsOrder (IterEntry engine))
      two_moving
      (lit "id")
      entry
      named
unfolding lit strcmp search
named-Ends = record {
  names = named-Names;
  registered = refl;
  sorted = pair-IsSorted (lit "id") (lit "other") entry entry refl;
}

abbrev other_request : Request
other_request = request (arg "iter" "other" ∷ [])

other_request-Names : Names env (lit "other") other_request
unfolding lit bytes_eq proto_and_method_sanity_check
other_request-Names = record { checked = refl; iter_arg = refl }

id-differs : bytes_eq (lit "id") (lit "other") ≡ false
unfolding lit bytes_eq
id-differs = refl

abbrev ended : Server engine
ended = (iter_destroy_cb env named (balancer (IterEntry engine)) two_moving).0

iter_destroy_cb_lem_example :
    ((iter_destroy_cb env named (balancer (IterEntry engine)) two_moving).1
      ≡ sent res_ok (
          done_response env
            (query_quiet_check env named)
            res_ok
            (lit "OK")
            (lit "Iterator destroyed")))
    × ((iter_kv_cb env named ended).1 ≡ no_iter env)
    × (iter_next_cb env named ended ≡ (ended, no_iter env))
    × ((iter_kv_cb env other_request ended).1 ≡ (iter_kv_cb env other_request two_moving).1)
    × (ended.heap ≡ two_moving.heap)
iter_destroy_cb_lem_example =
    iter_destroy_cb_lem env (balancer (IterEntry engine)) (balancer-KeepsOrder (IterEntry engine))
      two_moving (lit "id") entry named named-Ends named other_request (lit "other") named-Names
      other_request-Names id-differs
