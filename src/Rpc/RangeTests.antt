-- ===== src/Rpc/RangeTests.antt =====
-- Runs of the handlers of src/rpc.c that read or remove many entries, with their theorems.
use reveldb.Prelude.{
  ◌<◌, ◌≡◌, ◌≢◌, refl, none, some, [], ◌∷◌, Bytes, lit, bytes_eq, strcmp, arith, length, Ordering,
}
use reveldb.Utility.Decimal.{decimal}
use reveldb.Utility.RoundTrip.{safe_strtoul-decimal}
use reveldb.Engine.Views.{from}
use reveldb.Registry.{search}
use reveldb.Rpc.Env.{Request}
use reveldb.Rpc.Reply.{sent, res_ok, res_nocontent, done_response}
use reveldb.Rpc.Bodies.{kvs_response}
use reveldb.Rpc.Server.{Server}
use reveldb.Rpc.Checks.{proto_and_method_sanity_check, query_quiet_check, query_database}
use reveldb.Rpc.Contents.{value_at}
use reveldb.Rpc.Range.{range_cb, remove_cb}
use reveldb.Rpc.RangeLaws.{until, before}
use reveldb.Rpc.RangeReplies.{Spans, remove_cb_lem}
use reveldb.Rpc.RangeEnds.{range_cb-before}
use reveldb.Rpc.ManyLaws.{remove_all}
use reveldb.Rpc.Select.{Text, similar_cb, regex_cb, pattern_unescape}
use reveldb.Rpc.SelectLaws.{Scans, chosen}
use reveldb.Rpc.Similar.{near_both, matching, similar_cb_lem, regex_cb_lem}
use reveldb.Rpc.Admin.{property_cb, answer_property}
use reveldb.Rpc.AdminLaws.{Reaches, property_cb_lem}
use reveldb.Rpc.Sample.{env, engine, contract, server, request, arg, sort_pairs, Pairs}
use reveldb.Rpc.SampleLaws.{cursors}

abbrev entries : Pairs
entries = sort_pairs (server.heap 1).db

-- From the first entry up to "w", which is there
abbrev range_request : Request
range_request = request (arg "start" "a" ∷ arg "end" "w" ∷ [])

range_request-Spans : Spans env cursors range_request server 1 (some (lit "a")) (some (lit "w"))
unfolding lit bytes_eq strcmp search query_database proto_and_method_sanity_check
range_request-Spans = record {
  checked = refl;
  database = refl;
  start_arg = refl;
  end_arg = refl;
  latest = refl;
  end_key = (omega arith, tt);
}

enough : length (from (lit "a") entries) < 9
unfolding lit strcmp from
enough = omega arith

after : strcmp (lit "w") (lit "a") ≢ Ordering.lt
unfolding lit strcmp
after h = cc h

range_cb-before_example :
    ((w : Bytes)
      → value_at contract server 1 (lit "w") ≡ some w
      → range_cb env range_request 9 server
        ≡ some (
          server,
          sent res_ok (
              kvs_response env
                (query_quiet_check env range_request)
                (before (lit "w") (from (lit "a") entries))),
        ))
    × (value_at contract server 1 (lit "w") ≡ none
        → from (lit "a") entries ≢ []
        → range_cb env range_request 9 server
          ≡ some (
            server,
            sent res_ok
                (kvs_response env (query_quiet_check env range_request) (from (lit "a") entries)),
          ))
range_cb-before_example =
    range_cb-before env cursors range_request server 1 (lit "a") (lit "w") range_request-Spans after
      9 enough

first_entry : from (lit "a") entries ≡ (lit "n", lit "41") ∷ (lit "w", lit "abc") ∷ []
unfolding lit strcmp from
first_entry = refl

remove_cb_lem_example :
    (t : Server engine) × (remove_cb env range_request 9 server
      ≡ some (
        t,
        sent res_ok (
            done_response env
              (query_quiet_check env range_request)
              res_nocontent
              (lit "No Content")
              (lit "Range remove done.")),
      ))
    × ((j : Bytes)
        → value_at contract t 1 j ≡ remove_all (lit "n" ∷ []) (value_at contract server 1) j)
unfolding lit until bytes_eq
remove_cb_lem_example =
    remove_cb_lem env cursors range_request server 1 (some (lit "a")) (some (lit "w"))
      range_request-Spans 9 enough (lit "n", lit "41") ((lit "w", lit "abc") ∷ []) first_entry
      (λ d sync. refl, tt) refl

-- A pattern matches the texts that it is equal to.
abbrev text : Text
text = record { memory = λ b i. 0; re_match = bytes_eq }

abbrev similar_request : Request
similar_request = request (
    arg "ksimilar" "x"
    ∷ arg "vsimilar" "y"
    ∷ record { key = lit "kdistance"; val = decimal 0 }
    ∷ record { key = lit "vdistance"; val = decimal 0 }
    ∷ [])

similar_request-Scans : Scans text env cursors similar_request server 1
unfolding lit bytes_eq strcmp search query_database proto_and_method_sanity_check
similar_request-Scans = record {
  checked = refl;
  database = refl;
  no_snapshot = refl;
  latest = refl;
}

all_enough : length entries < 9
unfolding lit strcmp
all_enough = omega arith

similar_cb_lem_example :
    similar_cb text env similar_request 9 server
    ≡ some (
      server,
      sent res_ok (
          kvs_response env
            (query_quiet_check env similar_request)
            (chosen (near_both (lit "x") 0 (lit "y") 0) entries)),
    )
unfolding lit bytes_eq
similar_cb_lem_example =
    similar_cb_lem text env cursors similar_request server 1 similar_request-Scans 9 all_enough
      (lit "x") (lit "y") (decimal 0) (decimal 0) 0 0 refl refl refl refl
      (safe_strtoul-decimal 0 (omega arith)) (safe_strtoul-decimal 0 (omega arith))

abbrev regex_request : Request
regex_request = request (arg "kregex" "w" ∷ arg "vregex" "abc" ∷ [])

regex_request-Scans : Scans text env cursors regex_request server 1
unfolding lit bytes_eq strcmp search query_database proto_and_method_sanity_check
regex_request-Scans = record { checked = refl; database = refl; no_snapshot = refl; latest = refl }

regex_cb_lem_example :
    regex_cb text env regex_request 9 server
    ≡ some (
      server,
      sent res_ok (
          kvs_response env (query_quiet_check env regex_request) (
            chosen
              (matching text env cursors
                (pattern_unescape text env regex_request (lit "w"))
                (pattern_unescape text env regex_request (lit "abc")))
              entries)),
    )
unfolding lit bytes_eq
regex_cb_lem_example =
    regex_cb_lem text env cursors regex_request server 1 regex_request-Scans 9 all_enough (lit "w")
      (lit "abc") refl refl

abbrev property_request : Request
property_request = request (arg "property" "no.such.property" ∷ [])

property_request-Reaches : Reaches env property_request server 1
unfolding lit bytes_eq strcmp search query_database proto_and_method_sanity_check
property_request-Reaches = record { checked = refl; database = refl }

property_cb_lem_example :
    property_cb env property_request server ≡ (server, answer_property env property_request none)
unfolding lit bytes_eq
property_cb_lem_example =
    property_cb_lem env property_request server 1 property_request-Reaches (lit "no.such.property")
      refl
