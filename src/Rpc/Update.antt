-- ===== src/Rpc/Update.antt =====
-- The handlers of src/rpc.c that change the value of a key that is there: /rpc/append,
-- /rpc/prepend, /rpc/insert and /rpc/replace. The new value is built in a `tstring_t`.
use reveldb.Prelude.{
  ℕ, ◌-◌, ◌%◌, ◌^◌, Option, none, some, Bytes, lit, length, ltb, if◌then◌else◌, strlen,
}
use mathlib.Core.Option
use reveldb.Prelude.Int.{ℤ, pos, negsuc}
use reveldb.TString.{TString, contents, insert_len}
use reveldb.TString.Ops.{new_len, append_len, prepend_len}
use reveldb.Utility.Parse.{safe_strtoul}
use reveldb.Rpc.Env.{Env, Request}
use reveldb.Rpc.Reply.{
  Answer, sent, fault, res_ok, res_badreq, res_notfound, res_serverr, error_response, done_response,
  general_response,
}
use reveldb.Rpc.Server.{Server, leveldb_put, leveldb_get}
use reveldb.Rpc.Checks.{
  Check, pass, stop, ◌>>=◌, ◌>>◌, finish, proto_and_method_sanity_check, query_param_sanity_check,
  query_quiet_check, find_database,
}

-- A `size_t` or `uint32_t` that is passed on as `int32_t`
abbrev pub to_int32 : ℕ → ℤ
to_int32 n = let k = n % 2 ^ 32 in if ltb k 2147483648 then pos k else negsuc (2 ^ 32 - 1 - k)

module _ (env : Env) (req : Request) where
  open env use {engine, fill}

  -- The end of the four handlers, behind leveldb_put: an error is reported in the body alone, the
  -- status is 200, and the error stays in the instance.
  unfoldable pub answer_update : Server engine → Bytes → Option Bytes → Server engine × Answer
  answer_update s message none =
      (s, sent res_ok (done_response env (query_quiet_check env req) res_ok (lit "OK") message))
  answer_update s message (some e) = (
    s,
    sent res_ok (
        error_response env req (query_quiet_check env req) res_serverr (lit "Internal Server Error")
          e),
  )

  -- leveldb_put of the new value; `none` is an assert of tstring.c that failed.
  unfoldable pub put_update :
      Server engine → ℕ → Bytes → Bytes → Option TString → Server engine × Answer
  unfolding answer_update
  put_update s db key message none = (s, fault)
  put_update s db key message (some value_new) =
      let s' = leveldb_put s db key (contents value_new) in
      answer_update s' message (s'.heap db).err

  -- The answer where the key is not there
  unfoldable pub answer_missing : Bytes → Answer
  answer_missing message =
      sent res_notfound
        (error_response env req (query_quiet_check env req) res_notfound (lit "Not Found") message)

  -- `URI_rpc_append_cb` behind leveldb_get
  unfoldable pub append_value :
      Server engine → ℕ → Bytes → Bytes → Option Bytes → Server engine × Answer
  unfolding put_update answer_missing
  append_value s db key value none = (s, answer_missing (lit "Key not found."))
  append_value s db key value (some value_old) = put_update s db key (lit "Append value done.") (
      Option.bind (new_len fill (some value_old) (to_int32 (length value_old)))
        (λ t. append_len fill t value (to_int32 (strlen value))))

  -- `URI_rpc_append_cb`
  unfoldable pub append_cb : Server engine → Server engine × Answer
  unfolding append_value
  append_cb s = finish s do
    proto_and_method_sanity_check env req
    key ← query_param_sanity_check env req (lit "key") (lit "Please specify which key to append.")
    value ←
        query_param_sanity_check env req (lit "value")
          (lit "Please set value along with the key you specified.")
    db ← find_database env req s
    let (value_old, s') = leveldb_get s db (s.heap db).roptions key
    pass (append_value s' db key value value_old)

  -- `URI_rpc_prepend_cb` behind leveldb_get
  unfoldable pub prepend_value :
      Server engine → ℕ → Bytes → Bytes → Option Bytes → Server engine × Answer
  unfolding put_update answer_missing
  prepend_value s db key value none = (s, answer_missing (lit "Key not found."))
  prepend_value s db key value (some value_old) = put_update s db key (lit "Prepend value done.") (
      Option.bind (new_len fill (some value_old) (to_int32 (length value_old)))
        (λ t. prepend_len fill t value (to_int32 (strlen value))))

  -- `URI_rpc_prepend_cb`
  unfoldable pub prepend_cb : Server engine → Server engine × Answer
  unfolding prepend_value
  prepend_cb s = finish s do
    proto_and_method_sanity_check env req
    key ← query_param_sanity_check env req (lit "key") (lit "Please specify which key to prepend")
    value ←
        query_param_sanity_check env req (lit "value")
          (lit "You have to set value along with the key you specified.")
    db ← find_database env req s
    let (value_old, s') = leveldb_get s db (s.heap db).roptions key
    pass (prepend_value s' db key value value_old)

  -- The check of the position by safe_strtoul in `URI_rpc_insert_cb`
  unfoldable pub position_check : Bytes → Check ℕ
  position_check p = elim (safe_strtoul p) [
    | some inspos ↦ pass inspos
    | none ↦
        stop (
          sent res_badreq (general_response env res_badreq (lit "Bad Request") (lit "Pos invalid")))
  ]

  -- `URI_rpc_insert_cb` behind leveldb_get
  unfoldable pub insert_value :
      Server engine → ℕ → Bytes → Bytes → ℕ → Option Bytes → Server engine × Answer
  unfolding put_update answer_missing
  insert_value s db key value inspos none = (s, answer_missing (lit "Key not found."))
  insert_value s db key value inspos (some value_old) =
      put_update s db key (lit "Insert value done.") (
        Option.bind (new_len fill (some value_old) (to_int32 (length value_old)))
          (λ t. insert_len fill t (to_int32 inspos) value (to_int32 (strlen value))))

  -- `URI_rpc_insert_cb`
  unfoldable pub insert_cb : Server engine → Server engine × Answer
  unfolding insert_value position_check
  insert_cb s = finish s do
    proto_and_method_sanity_check env req
    key ← query_param_sanity_check env req (lit "key") (lit "Please specify which key to insert")
    value ←
        query_param_sanity_check env req (lit "value")
          (lit "Please set value along with the key you specified.")
    p ←
        query_param_sanity_check env req (lit "pos")
          (lit "You have to set position in which the value will be inserted.")
    inspos ← position_check p
    db ← find_database env req s
    let (value_old, s') = leveldb_get s db (s.heap db).roptions key
    pass (insert_value s' db key value inspos value_old)

  -- `URI_rpc_replace_cb` behind leveldb_get
  unfoldable pub replace_value :
      Server engine → ℕ → Bytes → Bytes → Option Bytes → Server engine × Answer
  unfolding put_update answer_missing
  replace_value s db key value none = (s, answer_missing (lit "Key value pair not found."))
  replace_value s db key value (some value_old) =
      put_update s db key (lit "Replace value done.")
        (new_len fill (some value) (to_int32 (strlen value)))

  -- `URI_rpc_replace_cb`
  unfoldable pub replace_cb : Server engine → Server engine × Answer
  unfolding replace_value
  replace_cb s = finish s do
    proto_and_method_sanity_check env req
    key ←
        query_param_sanity_check env req (lit "key")
          (lit "You have to specify which key to replace.")
    value ←
        query_param_sanity_check env req (lit "value")
          (lit "You have to set value along with the key you specified.")
    db ← find_database env req s
    let (value_old, s') = leveldb_get s db (s.heap db).roptions key
    pass (replace_value s' db key value value_old)
