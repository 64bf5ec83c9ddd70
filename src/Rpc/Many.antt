-- ===== src/Rpc/Many.antt =====
-- The handlers of src/rpc.c on several keys that come as a JSON document: /rpc/mset and /rpc/mdel.
-- cJSON and the line that libevent reads are parameters.
use reveldb.Prelude.{ℕ, zero, suc, ◌+◌, not, Option, none, some, Bytes, lit, ◌==◌, if◌then◌else◌}
use reveldb.Rpc.Env.{Env, Request}
use reveldb.Rpc.Reply.{
  Answer, sent, fault, res_ok, res_badreq, res_serverr, res_methnallowed, response_on_error,
  quiet_response, error_response, done_response, response_on_sanity_check,
}
use reveldb.Rpc.Server.{Server, leveldb_put, leveldb_delete, reset_err}
use reveldb.Rpc.Checks.{
  Check, pass, stop, ◌>>=◌, ◌>>◌, finish, is_11, is_post, query_quiet_check, find_database,
}

-- The calls of cJSON; `none` is NULL.
pub record CJson : Type 1 where
  pub Node : Type 0
  pub parse : Option Bytes → Option Node
  pub get_object_item : Node → Bytes → Option Node
  pub get_array_size : Node → ℕ
  pub get_array_item : Node → ℕ → Option Node
  pub valuestring : Node → Option Bytes

-- How a loop over the keys ends: behind the last key, at an error of the engine, or at a NULL
-- pointer that is read.
pub data Outcome : Type 0 where
  all_done : Outcome
  failed : Bytes → Outcome
  crashed : Outcome

module _ (json : CJson) (env : Env) (req : Request) where
  open env use {engine}

  -- cJSON_GetArrayItem(nodes, arridx)->valuestring, as strlen reads it
  unfoldable pub item_string : json.Node → ℕ → Option Bytes
  item_string nodes arridx = elim (json.get_array_item nodes arridx) [
    | none ↦ none
    | some item ↦ json.valuestring item
  ]

  -- The loop of `_rpc_do_mset`, with `n` items to go
  unfoldable pub mset_loop :
      Server engine → ℕ → json.Node → json.Node → ℕ → ℕ → Server engine × Outcome
  unfolding item_string
  mset_loop s db keys values zero arridx = (s, all_done)
  mset_loop s db keys values (suc n) arridx = elim (item_string keys arridx) [
    | none ↦ (s, crashed)
    | some key ↦ elim (item_string values arridx) [
      | none ↦ (s, crashed)
      | some value ↦
          let s' = leveldb_put s db key value in
          elim (s'.heap db).err [
            | some e ↦ (reset_err s' db, failed e)
            | none ↦ mset_loop s' db keys values n (arridx + 1)
          ]
    ]
  ]

  -- The loop of `_rpc_do_mdel`, with `n` items to go
  unfoldable pub mdel_loop : Server engine → ℕ → json.Node → ℕ → ℕ → Server engine × Outcome
  unfolding item_string
  mdel_loop s db keys zero arridx = (s, all_done)
  mdel_loop s db keys (suc n) arridx = elim (item_string keys arridx) [
    | none ↦ (s, crashed)
    | some key ↦
        let s' = leveldb_delete s db key in
        elim (s'.heap db).err [
          | some e ↦ (reset_err s' db, failed e)
          | none ↦ mdel_loop s' db keys n (arridx + 1)
        ]
  ]

  -- The bodies where the document is not of the form that is asked for
  unfoldable pub bad_document : Bytes → Answer
  bad_document message = sent res_ok (
      if query_quiet_check env req
      then quiet_response res_badreq
      else response_on_error env req res_badreq (lit "Bad Request") message)

  -- The bodies behind the loops. The status is 200 in any case, and /rpc/mdel also says "set".
  unfoldable pub answer_many : Outcome → Answer
  answer_many all_done =
      sent res_ok
        (done_response env (query_quiet_check env req) res_ok (lit "OK") (lit "Multiple set done."))
  answer_many (failed e) = sent res_ok (
      error_response env req (query_quiet_check env req) res_serverr (lit "Internal Server Error")
        e)
  answer_many crashed = fault

  -- `_rpc_do_mset` and the reply of its caller, on the first line of the body; `none` is NULL.
  unfoldable pub do_mset : Server engine → ℕ → Option Bytes → Server engine × Answer
  unfolding mset_loop bad_document answer_many
  do_mset s db inbuffer = elim (json.parse inbuffer) [
    | none ↦ (s, bad_document (lit "Invalid post filed format."))
    | some root ↦ elim (json.get_object_item root (lit "keys")) [
      | none ↦ (s, bad_document (lit "Invalid post filed format."))
      | some keys ↦ elim (json.get_object_item root (lit "values")) [
        | none ↦ (s, bad_document (lit "Invalid post filed format."))
        | some values ↦
            let items = json.get_array_size keys in
            if not (items == json.get_array_size values)
            then (s, bad_document (lit "Keys and values does not equal."))
            else (let (s', end) = mset_loop s db keys values items 0 in (s', answer_many end))
      ]
    ]
  ]

  -- `_rpc_do_mdel` and the reply of its caller
  unfoldable pub do_mdel : Server engine → ℕ → Option Bytes → Server engine × Answer
  unfolding mdel_loop bad_document answer_many
  do_mdel s db inbuffer = elim (json.parse inbuffer) [
    | none ↦ (s, bad_document (lit "Invalid post filed format."))
    | some root ↦ elim (json.get_object_item root (lit "keys")) [
      | none ↦ (s, bad_document (lit "Invalid post filed format."))
      | some keys ↦
          let (s', end) = mdel_loop s db keys (json.get_array_size keys) 0 in (s', answer_many end)
    ]
  ]

  -- `_rpc_proto_and_method_sanity_check2nd` for POST
  unfoldable pub proto_and_method_sanity_check2nd : Check (Unit {0})
  proto_and_method_sanity_check2nd =
      if is_11 req.proto
      then (if is_post req.method
          then pass tt
          else stop (
              sent res_methnallowed (
                response_on_sanity_check env res_methnallowed (lit "Method Not Allowed")
                  (lit "HTTP method error, you may have to use the right method to do request."))))
      else stop (
          sent res_badreq (
            response_on_sanity_check env res_badreq (lit "Bad Request")
              (lit "Protocal error, you may have to use HTTP/1.1 to do request.")))

  -- `URI_rpc_mset_cb`
  unfoldable pub mset_cb : Option Bytes → Server engine → Server engine × Answer
  unfolding do_mset
  mset_cb inbuffer s = finish s do
    proto_and_method_sanity_check2nd
    db ← find_database env req s
    pass (do_mset s db inbuffer)

  -- `URI_rpc_mdel_cb`
  unfoldable pub mdel_cb : Option Bytes → Server engine → Server engine × Answer
  unfolding do_mdel
  mdel_cb inbuffer s = finish s do
    proto_and_method_sanity_check2nd
    db ← find_database env req s
    pass (do_mdel s db inbuffer)
