-- ===== src/Rpc/Reply.antt =====
-- The response builders of src/rpc.c, and `_rpc_send_reply`.
use reveldb.Prelude.{ℕ, Bool, none, some, List, [], ◌∷◌, ◌++◌, Bytes, lit, bytes_eq, if◌then◌else◌}
use reveldb.Utility.Decimal.{decimal}
use reveldb.Utility.Parse.{safe_strtoul, c_str}
use reveldb.Rpc.Json.{
  Json, Fields, true_, false_, number, text, object, no_fields, ◌▸◌, append_field,
}
use reveldb.Rpc.Env.{Env, Kv, Request}

-- What a handler does in the end: it sends a status and a body, or it faults: an `assert` fails, a
-- NULL pointer is read or a buffer overflows.
pub data Answer : Type 0 where
  sent : ℕ → Bytes → Answer
  fault : Answer

-- EVHTTPX_RES_*
abbrev pub res_ok : ℕ
res_ok = 200

abbrev pub res_nocontent : ℕ
res_nocontent = 204

abbrev pub res_badreq : ℕ
res_badreq = 400

abbrev pub res_notfound : ℕ
res_notfound = 404

abbrev pub res_methnallowed : ℕ
res_methnallowed = 405

abbrev pub res_serverr : ℕ
res_serverr = 500

-- `_rpc_parse_kv_pair`: true, false, a number or a text
unfoldable pub parse_kv_pair : Kv → Fields → Fields
parse_kv_pair kv root =
    if bytes_eq kv.val (lit "true")
    then append_field root kv.key true_
    else if bytes_eq kv.val (lit "false")
    then append_field root kv.key false_
    else elim (safe_strtoul kv.val) [
      | some value ↦ append_field root kv.key (number value)
      | none ↦ append_field root kv.key (text kv.val)
    ]

jsonfy_loop : List Kv → Fields → Fields
jsonfy_loop [] root = root
jsonfy_loop (kv ∷ kvs) root = jsonfy_loop kvs (parse_kv_pair kv root)

-- `_rpc_jsonfy_kv_pairs`
unfoldable pub jsonfy_kv_pairs : List Kv → Json
unfolding jsonfy_loop
jsonfy_kv_pairs kvs = object (jsonfy_loop kvs no_fields)

-- `_rpc_jsonfy_quiet_response`
unfoldable pub quiet_response : ℕ → Bytes
quiet_response code = lit "{\"code\": " ++ decimal code ++ lit "}"

-- `_rpc_jsonfy_quiet_response_on_kv_with_len`: the key and the value are copied as they are, and
-- `_rpc_send_reply` prints the whole up to the first NUL.
unfoldable pub quiet_response_on_kv_with_len : Bytes → Bytes → Bytes
quiet_response_on_kv_with_len key value =
    c_str (lit "{\"" ++ key ++ lit "\": \"" ++ value ++ lit "\"}")

module _ (env : Env) where
  open env use {print_unformatted, now}

  -- `_rpc_jsonfy_general_response`
  unfoldable pub general_response : ℕ → Bytes → Bytes → Bytes
  general_response code status message = print_unformatted (
      object (
        (lit "code", number code)
        ▸ (lit "status", text status)
        ▸ (lit "message", text message)
        ▸ (lit "date", text now)
        ▸ no_fields))

  -- `_rpc_jsonfy_response_on_sanity_check`
  unfoldable pub response_on_sanity_check : ℕ → Bytes → Bytes → Bytes
  response_on_sanity_check code status message = print_unformatted (
      object (
        (lit "code", number code)
        ▸ (lit "status", text status)
        ▸ (lit "message", text message)
        ▸ (lit "date", text now)
        ▸ no_fields))

  -- `_rpc_jsonfy_response_on_error`, which adds the headers and the arguments of the request
  unfoldable pub response_on_error : Request → ℕ → Bytes → Bytes → Bytes
  response_on_error req code status message = print_unformatted (
      object (
        (lit "code", number code)
        ▸ (lit "status", text status)
        ▸ (lit "message", text message)
        ▸ (lit "date", text now)
        ▸ (
          lit "request",
          object (
              (lit "headers", jsonfy_kv_pairs req.headers_in)
              ▸ (lit "arguments", jsonfy_kv_pairs req.query)
              ▸ no_fields),
        )
        ▸ no_fields))

  -- `_rpc_jsonfy_msgalt_response_on_kv_with_len`
  unfoldable pub msgalt_response_on_kv_with_len : Bytes → Bytes → Bytes → Bytes
  msgalt_response_on_kv_with_len key value message = print_unformatted (
      object (
        (lit "code", number res_ok)
        ▸ (lit "status", text (lit "OK"))
        ▸ (lit "message", text message)
        ▸ (lit "date", text now)
        ▸ (lit "kv", object ((key, text value) ▸ no_fields))
        ▸ no_fields))

  -- `_rpc_jsonfy_response_on_kv_with_len`
  unfoldable pub response_on_kv_with_len : Bytes → Bytes → Bytes
  response_on_kv_with_len key value = print_unformatted (
      object (
        (lit "code", number res_ok)
        ▸ (lit "status", text (lit "OK"))
        ▸ (lit "message", text (lit "Get key-value pair done."))
        ▸ (lit "date", text now)
        ▸ (lit "kv", object ((key, text value) ▸ no_fields))
        ▸ no_fields))

  -- The two bodies of an error, with is_quiet or without
  unfoldable pub error_response : Request → Bool → ℕ → Bytes → Bytes → Bytes
  unfolding general_response response_on_error
  error_response req is_quiet code status message =
      if is_quiet
      then general_response code status message
      else response_on_error req code status message

  -- The two bodies of a success, with is_quiet or without
  unfoldable pub done_response : Bool → ℕ → Bytes → Bytes → Bytes
  unfolding general_response quiet_response
  done_response is_quiet code status message =
      if is_quiet then quiet_response code else general_response code status message

  -- The two bodies of a found pair, with is_quiet or without
  unfoldable pub kv_response : Bool → Bytes → Bytes → Bytes
  unfolding quiet_response_on_kv_with_len response_on_kv_with_len
  kv_response is_quiet key value =
      if is_quiet
      then quiet_response_on_kv_with_len key value
      else response_on_kv_with_len key value
