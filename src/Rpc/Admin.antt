-- ===== src/Rpc/Admin.antt =====
-- The handlers of src/rpc.c that report on the server or on a database: /rpc/void, /rpc/head,
-- /rpc/echo, /rpc/version, /rpc/property, /rpc/size and /rpc/compact.
use reveldb.Prelude.{
  ℕ, Bool, not, ◌||◌, ◌++◌, Option, none, some, Bytes, lit, bytes_eq, length, if◌then◌else◌,
}
use reveldb.Utility.Decimal.{decimal}
use reveldb.Rpc.Json.{number, text, object, no_fields, ◌▸◌}
use reveldb.Rpc.Env.{Env, Request}
use reveldb.Rpc.Reply.{
  Answer, sent, fault, res_ok, res_badreq, res_serverr, response_on_sanity_check, response_on_error,
  error_response, done_response, jsonfy_kv_pairs,
}
use reveldb.Rpc.Bodies.{response_on_kv, quiet_response_on_kv, size_response}
use reveldb.Rpc.Server.{Server, store_at}
use reveldb.Rpc.Swap.{strncmp_eq}
use reveldb.Rpc.Checks.{
  Check, pass, stop, ◌>>=◌, ◌>>◌, finish, proto_and_method_sanity_check, query_param_sanity_check,
  query_quiet_check, find_database,
}

module _ (env : Env) (req : Request) where
  open env use {engine, kv_find, print_unformatted, now}

  -- The answer of `URI_rpc_void_cb` and of `URI_rpc_head_cb`
  unfoldable pub healthy : Answer
  healthy =
      sent res_ok
        (response_on_sanity_check env res_ok (lit "OK") (lit "Reveldb RPC is healthy! :-)"))

  -- `URI_rpc_void_cb`
  unfoldable pub void_cb : Server engine → Server engine × Answer
  unfolding healthy
  void_cb s = finish s do proto_and_method_sanity_check env req; pass (s, healthy)

  -- `URI_rpc_head_cb`
  unfoldable pub head_cb : Server engine → Server engine × Answer
  unfolding healthy
  head_cb s = finish s do proto_and_method_sanity_check env req; pass (s, healthy)

  -- The body of `URI_rpc_echo_cb`
  unfoldable pub echo_response : Bytes
  echo_response = print_unformatted (
      object (
        (lit "code", number res_ok)
        ▸ (lit "status", text (lit "OK"))
        ▸ (
          lit "message",
          text (lit "Reveldb echoed the HTTP headers and query arguments of your request."),
        )
        ▸ (lit "date", text now)
        ▸ (
          lit "request",
          object (
              (lit "headers", jsonfy_kv_pairs req.headers_in)
              ▸ (lit "arguments", jsonfy_kv_pairs req.query)
              ▸ no_fields),
        )
        ▸ no_fields))

  -- `URI_rpc_echo_cb`
  unfoldable pub echo_cb : Server engine → Server engine × Answer
  unfolding echo_response
  echo_cb s = finish s do proto_and_method_sanity_check env req; pass (s, sent res_ok echo_response)

  -- `_rpc_jsonfy_version_response`
  unfoldable pub version_response : ℕ → ℕ → Bool → Bytes
  version_response major minor quiet =
      if quiet
      then lit "{\"major\": " ++ decimal major ++ lit ", \"minor\": " ++ decimal minor ++ lit "}"
      else print_unformatted (
          object (
            (lit "code", number res_ok)
            ▸ (lit "status", text (lit "OK"))
            ▸ (lit "message", text (lit "Get leveldb storage engine version."))
            ▸ (lit "date", text now)
            ▸ (lit "major", number major)
            ▸ (lit "minor", number minor)
            ▸ no_fields))

  -- `URI_rpc_version_cb`, with the numbers that LevelDB gives
  unfoldable pub version_cb : ℕ → ℕ → Server engine → Server engine × Answer
  unfolding version_response
  version_cb major minor s = finish s do
    proto_and_method_sanity_check env req
    pass (s, sent res_ok (version_response major minor (query_quiet_check env req)))

  -- The test of `URI_rpc_property_cb` that is to reject a property: strcmp and strncmp are not 0
  -- where the texts differ.
  unfoldable pub is_invalid : Bytes → Bool
  is_invalid property = not (
      not (bytes_eq property (lit "leveldb.stats"))
      || not (bytes_eq property (lit "leveldb.sstables"))
      || not (
          strncmp_eq property (lit "leveldb.num-files-at-level")
            (length (lit "leveldb.num-files-at-level"))))

  -- The check of the property by that test
  unfoldable pub property_check : Bytes → Check (Unit {0})
  unfolding is_invalid
  property_check property =
      if is_invalid property
      then stop (
          sent res_badreq (
            response_on_error env req res_badreq (lit "Bad Request")
              (lit "Invalid leveldb property.")))
      else pass tt

  -- The end of `URI_rpc_property_cb`, behind leveldb_property_value
  unfoldable pub answer_property : Option Bytes → Answer
  answer_property (some content) = sent res_ok (
      if query_quiet_check env req
      then quiet_response_on_kv (lit "property") content
      else response_on_kv env (lit "property") content)
  answer_property none = sent res_serverr (
      error_response env req (query_quiet_check env req) res_serverr (lit "Internal Server Error")
        (lit "Failed to get leveldb property."))

  -- `URI_rpc_property_cb`
  unfoldable pub property_cb : Server engine → Server engine × Answer
  unfolding property_check answer_property
  property_cb s = finish s do
    proto_and_method_sanity_check env req
    property ←
        query_param_sanity_check env req (lit "property")
          (lit "Please specify valid leveldb property.")
    property_check property
    db ← find_database env req s
    pass (s, answer_property (engine.property_value (s.heap db).db property))

  -- The end of `URI_rpc_size_cb`, behind the checks: strlen of a limit that is not given reads NULL.
  unfoldable pub answer_size : Server engine → ℕ → Bytes → Option Bytes → Answer
  answer_size s db start_key none = fault
  answer_size s db start_key (some limit_key) = sent res_ok (
      size_response env start_key limit_key
        (engine.approximate_size (s.heap db).db start_key limit_key) (query_quiet_check env req))

  -- `URI_rpc_size_cb`: the answer of the check of "limit" is not stored, so that it does not stop.
  unfoldable pub size_cb : Server engine → Server engine × Answer
  unfolding answer_size
  size_cb s = finish s do
    proto_and_method_sanity_check env req
    start_key ←
        query_param_sanity_check env req (lit "start")
          (lit "Please specify start key from which to compute size")
    db ← find_database env req s
    pass (s, answer_size s db start_key (kv_find req.query (lit "limit")))

  -- leveldb_compact_range on the database behind `p`
  unfoldable pub leveldb_compact_range :
      Server engine → ℕ → Option Bytes → Option Bytes → Server engine
  unfolding store_at
  leveldb_compact_range s p start_key end_key =
      let i = s.heap p in
      store_at s p (record i { db = engine.compact_range i.db start_key end_key })

  -- `URI_rpc_compact_cb`
  unfoldable pub compact_cb : Server engine → Server engine × Answer
  unfolding leveldb_compact_range
  compact_cb s = finish s do
    proto_and_method_sanity_check env req
    db ← find_database env req s
    pass (
      leveldb_compact_range s db (kv_find req.query (lit "start")) (kv_find req.query (lit "end")),
      sent res_ok (
          done_response env (query_quiet_check env req) res_ok (lit "OK")
            (lit "Range compaction done.")),
    )
