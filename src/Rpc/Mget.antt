-- ===== src/Rpc/Mget.antt =====
-- The handlers /rpc/mget and /rpc/mseize of src/rpc.c on several keys that come as a JSON document.
use reveldb.Prelude.{ℕ, zero, suc, ◌+◌, Option, none, some, [], Bytes, lit}
use reveldb.Rpc.Env.{Env, Request}
use reveldb.Rpc.Reply.{Answer, sent, fault, res_ok}
use reveldb.Rpc.Bodies.{kvs_response}
use reveldb.Rpc.Server.{Server, leveldb_get, leveldb_delete}
use reveldb.Rpc.Checks.{pass, ◌>>=◌, ◌>>◌, finish, query_quiet_check, find_database}
use reveldb.Rpc.Range.{Listing, listed, crashed, running, list_first, drop_err}
use reveldb.Rpc.Many.{CJson, item_string, bad_document, proto_and_method_sanity_check2nd}

module _ (json : CJson) (env : Env) (req : Request) where
  open env use {engine}

  -- The loop of `_rpc_do_mget`, with `n` items to go: the pairs that it adds
  unfoldable pub mget_loop : Server engine → ℕ → json.Node → ℕ → ℕ → Server engine × Listing
  unfolding item_string list_first
  mget_loop s db keys zero arridx = (s, listed [])
  mget_loop s db keys (suc n) arridx = elim (item_string json env req keys arridx) [
    | none ↦ (s, crashed)
    | some key ↦
        let (value, s') = leveldb_get s db (s.heap db).roptions key in
        let (t, rest) = mget_loop s' db keys n (arridx + 1) in
        (t, elim value [ none ↦ rest | some v ↦ list_first key v rest ])
  ]

  -- The loop of `_rpc_do_mseize`: a pair that is found is deleted, an error is dropped.
  unfoldable pub mseize_loop : Server engine → ℕ → json.Node → ℕ → ℕ → Server engine × Listing
  unfolding item_string list_first drop_err
  mseize_loop s db keys zero arridx = (s, listed [])
  mseize_loop s db keys (suc n) arridx = elim (item_string json env req keys arridx) [
    | none ↦ (s, crashed)
    | some key ↦
        let (value, s') = leveldb_get s db (s.heap db).roptions key in
        elim value [
          | none ↦ mseize_loop s' db keys n (arridx + 1)
          | some v ↦
              let t = drop_err env (leveldb_delete s' db key) db in
              let (u, rest) = mseize_loop t db keys n (arridx + 1) in (u, list_first key v rest)
        ]
  ]

  -- The bodies behind the loops; the status is 200.
  unfoldable pub answer_kvs : Listing → Answer
  answer_kvs (listed kvs) = sent res_ok (kvs_response env (query_quiet_check env req) kvs)
  answer_kvs crashed = fault
  answer_kvs running = fault

  -- `_rpc_do_mget` and the reply of its caller, on the first line of the body; `none` is NULL.
  unfoldable pub do_mget : Server engine → ℕ → Option Bytes → Server engine × Answer
  unfolding mget_loop bad_document answer_kvs
  do_mget s db inbuffer = elim (json.parse inbuffer) [
    | none ↦ (s, bad_document json env req (lit "Invalid post filed format."))
    | some root ↦ elim (json.get_object_item root (lit "keys")) [
      | none ↦ (s, bad_document json env req (lit "Invalid post filed format."))
      | some keys ↦
          let (s', kvs) = mget_loop s db keys (json.get_array_size keys) 0 in (s', answer_kvs kvs)
    ]
  ]

  -- `_rpc_do_mseize` and the reply of its caller
  unfoldable pub do_mseize : Server engine → ℕ → Option Bytes → Server engine × Answer
  unfolding mseize_loop bad_document answer_kvs
  do_mseize s db inbuffer = elim (json.parse inbuffer) [
    | none ↦ (s, bad_document json env req (lit "Invalid post filed format."))
    | some root ↦ elim (json.get_object_item root (lit "keys")) [
      | none ↦ (s, bad_document json env req (lit "Invalid post filed format."))
      | some keys ↦
          let (s', kvs) = mseize_loop s db keys (json.get_array_size keys) 0 in (s', answer_kvs kvs)
    ]
  ]

  -- `URI_rpc_mget_cb`
  unfoldable pub mget_cb : Option Bytes → Server engine → Server engine × Answer
  unfolding do_mget proto_and_method_sanity_check2nd
  mget_cb inbuffer s = finish s do
    proto_and_method_sanity_check2nd json env req
    db ← find_database env req s
    pass (do_mget s db inbuffer)

  -- `URI_rpc_mseize_cb`
  unfoldable pub mseize_cb : Option Bytes → Server engine → Server engine × Answer
  unfolding do_mseize proto_and_method_sanity_check2nd
  mseize_cb inbuffer s = finish s do
    proto_and_method_sanity_check2nd json env req
    db ← find_database env req s
    pass (do_mseize s db inbuffer)
