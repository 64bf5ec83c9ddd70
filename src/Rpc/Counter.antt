-- ===== src/Rpc/Counter.antt =====
-- The handlers /rpc/incr and /rpc/decr of src/rpc.c.
use reveldb.Prelude.{ℕ, ◌-◌, ◌%◌, ◌^◌, Option, none, some, Bytes, lit, length, ltb, if◌then◌else◌}
use reveldb.Prelude.Int.{ℤ, pos, negsuc, ◌+ℤ◌, ◌-ℤ◌}
use reveldb.Utility.Decimal.{print_ℤ}
use reveldb.Utility.Parse.{safe_strtoll, safe_strntoll, Parsed, answer, overflow}
use reveldb.Rpc.Env.{Env, Request}
use reveldb.Rpc.Reply.{
  Answer, sent, fault, res_ok, res_badreq, res_notfound, res_serverr, error_response, done_response,
  general_response,
}
use reveldb.Rpc.Server.{Server, leveldb_put, leveldb_get}
use reveldb.Rpc.Checks.{
  Check, pass, stop, ◌>>=◌, ◌>>◌, finish, proto_and_method_sanity_check, query_param_sanity_check,
  query_quiet_check, find_database,
}

-- A sum of `long long`, in two's complement.
unfoldable pub wrap64 : ℤ → ℤ
wrap64 (pos n) = let k = n % 2 ^ 64 in if ltb k (2 ^ 63) then pos k else negsuc (2 ^ 64 - 1 - k)
wrap64 (negsuc n) = let k = n % 2 ^ 64 in if ltb k (2 ^ 63) then negsuc k else pos (2 ^ 64 - 1 - k)

module _ (env : Env) (req : Request) where
  open env use {engine, fill}

  -- The check of the step by safe_strtoll
  unfoldable pub step_check : Bytes → Check ℤ
  step_check step = elim (safe_strtoll step) [
    | some llstep ↦ pass llstep
    | none ↦ stop (
        sent res_badreq (
          general_response env res_badreq (lit "Bad Request")
            (lit "Step you have specified must be numerical.")))
  ]

  -- The end of the handlers, behind leveldb_put: an error stays in the instance.
  unfoldable pub answer_counter : Server engine → Bytes → Option Bytes → Server engine × Answer
  answer_counter s message none =
      (s, sent res_ok (done_response env (query_quiet_check env req) res_ok (lit "OK") message))
  answer_counter s message (some e) = (
    s,
    sent res_serverr (
        error_response env req (query_quiet_check env req) res_serverr (lit "Internal Server Error")
          e),
  )

  -- The handlers behind safe_strntoll: the value that `change` makes is printed and stored.
  unfoldable pub put_counter :
      Server engine → ℕ → Bytes → Bytes → (ℤ → ℤ) → Parsed → Server engine × Answer
  unfolding answer_counter
  put_counter s db key message change overflow = (s, fault)
  put_counter s db key message change (answer none) = (
    s,
    sent res_badreq (
        error_response env req (query_quiet_check env req) res_badreq (lit "Bad Request")
          (lit "Value is not numerical, incr is not allowed.")),
  )
  put_counter s db key message change (answer (some llvalue)) =
      let s' = leveldb_put s db key (print_ℤ (change llvalue)) in
      answer_counter s' message (s'.heap db).err

  -- The handlers behind leveldb_get
  unfoldable pub count_value :
      Server engine → ℕ → Bytes → Bytes → (ℤ → ℤ) → Option Bytes → Server engine × Answer
  unfolding put_counter
  count_value s db key message change none = (
    s,
    sent res_notfound (
        error_response env req (query_quiet_check env req) res_notfound (lit "Not Found")
          (lit "Key value pair not found.")),
  )
  count_value s db key message change (some value) =
      put_counter s db key message change (safe_strntoll value (length value))

  -- `URI_rpc_incr_cb`
  unfoldable pub incr_cb : Server engine → Server engine × Answer
  unfolding count_value step_check
  incr_cb s = finish s do
    proto_and_method_sanity_check env req
    key ←
        query_param_sanity_check env req (lit "key") (lit "You have to specify which key to incr.")
    step ←
        query_param_sanity_check env req (lit "step")
          (lit "You have to specify step length to incr.")
    llstep ← step_check step
    db ← find_database env req s
    let (value, s') = leveldb_get s db (s.heap db).roptions key
    pass (count_value s' db key (lit "Incr value done.") (λ v. wrap64 (v +ℤ llstep)) value)

  -- `URI_rpc_decr_cb`
  unfoldable pub decr_cb : Server engine → Server engine × Answer
  unfolding count_value step_check
  decr_cb s = finish s do
    proto_and_method_sanity_check env req
    key ←
        query_param_sanity_check env req (lit "key") (lit "You have to specify which key to decr.")
    step ←
        query_param_sanity_check env req (lit "step")
          (lit "You have to specify step length to decr.")
    llstep ← step_check step
    db ← find_database env req s
    let (value, s') = leveldb_get s db (s.heap db).roptions key
    pass (count_value s' db key (lit "Decr value done.") (λ v. wrap64 (v -ℤ llstep)) value)
