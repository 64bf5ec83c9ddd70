-- ===== src/Rpc/Bodies.antt =====
-- The response builders of src/rpc.c for identifiers, lists of pairs, sizes and versions.
use reveldb.Prelude.{ℕ, Bool, List, [], ◌∷◌, ◌++◌, Bytes, lit, if◌then◌else◌}
use reveldb.Utility.Decimal.{decimal}
use reveldb.Utility.Parse.{c_str}
use reveldb.Rpc.Json.{Items, text, number, array, object, no_items, item, no_fields, ◌▸◌}
use reveldb.Rpc.Env.{Env}
use reveldb.Rpc.Reply.{res_ok}

-- `_rpc_jsonfy_quiet_response_on_iter`
unfoldable pub quiet_response_on_iter : Bytes → Bytes
quiet_response_on_iter uuid = lit "{\"id\": \"" ++ uuid ++ lit "\"}"

-- `_rpc_jsonfy_quiet_response_on_kv`
unfoldable pub quiet_response_on_kv : Bytes → Bytes → Bytes
quiet_response_on_kv key value = lit "{\"" ++ c_str key ++ lit "\": \"" ++ c_str value ++ lit "\"}"

-- `_rpc_jsonfy_kv_pairs2nd`: an array of objects with one field each. The keys and the values are
-- read as C strings.
unfoldable pub kv_items : List (Bytes × Bytes) → Items
kv_items [] = no_items
kv_items ((k, v) ∷ kvs) = item (object ((c_str k, text (c_str v)) ▸ no_fields)) (kv_items kvs)

module _ (env : Env) where
  open env use {print_unformatted, now}

  -- `_rpc_jsonfy_response_on_iter`
  unfoldable pub response_on_iter : Bytes → Bytes
  response_on_iter uuid = print_unformatted (
      object (
        (lit "code", number res_ok)
        ▸ (lit "status", text (lit "OK"))
        ▸ (lit "message", text (lit "Create new iterator done."))
        ▸ (lit "date", text now)
        ▸ (lit "iter", object ((lit "id", text uuid) ▸ no_fields))
        ▸ no_fields))

  -- The two bodies of a new identifier
  unfoldable pub id_response : Bool → Bytes → Bytes
  unfolding quiet_response_on_iter response_on_iter
  id_response is_quiet uuid =
      if is_quiet then quiet_response_on_iter uuid else response_on_iter uuid

  -- `_rpc_jsonfy_response_on_kv`
  unfoldable pub response_on_kv : Bytes → Bytes → Bytes
  response_on_kv key value = print_unformatted (
      object (
        (lit "code", number res_ok)
        ▸ (lit "status", text (lit "OK"))
        ▸ (lit "message", text (lit "Get key-value pair done."))
        ▸ (lit "date", text now)
        ▸ (lit "kv", object ((key, text value) ▸ no_fields))
        ▸ no_fields))

  -- `_rpc_jsonfy_quiet_response_on_kvs`
  unfoldable pub quiet_response_on_kvs : List (Bytes × Bytes) → Bytes
  unfolding kv_items
  quiet_response_on_kvs kvs =
      print_unformatted (object ((lit "kvs", array (kv_items kvs)) ▸ no_fields))

  -- `_rpc_jsonfy_response_on_kvs`
  unfoldable pub response_on_kvs : List (Bytes × Bytes) → Bytes
  unfolding kv_items
  response_on_kvs kvs = print_unformatted (
      object (
        (lit "code", number res_ok)
        ▸ (lit "status", text (lit "OK"))
        ▸ (lit "message", text (lit "Get key-value pair done."))
        ▸ (lit "date", text now)
        ▸ (lit "kvs", array (kv_items kvs))
        ▸ no_fields))

  -- The two bodies of a list of pairs
  unfoldable pub kvs_response : Bool → List (Bytes × Bytes) → Bytes
  unfolding quiet_response_on_kvs response_on_kvs
  kvs_response is_quiet kvs = if is_quiet then quiet_response_on_kvs kvs else response_on_kvs kvs

  -- `_rpc_jsonfy_size_response`
  unfoldable pub size_response : Bytes → Bytes → ℕ → Bool → Bytes
  size_response start_key limit_key size quiet =
      if quiet
      then lit "{\"size\": " ++ decimal size ++ lit "}"
      else print_unformatted (
          object (
            (lit "code", number res_ok)
            ▸ (lit "status", text (lit "OK"))
            ▸ (lit "message", text (lit "Get leveldb storage engine version."))
            ▸ (lit "date", text now)
            ▸ (lit "start", text start_key)
            ▸ (lit "limit", text limit_key)
            ▸ (lit "size", number size)
            ▸ no_fields))
