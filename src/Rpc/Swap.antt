-- ===== src/Rpc/Swap.antt =====
-- The handler /rpc/cas of src/rpc.c: compare and swap.
use reveldb.Prelude.{
  ℕ, zero, suc, Bool, true, false, not, Option, none, some, [], ◌∷◌, Bytes, lit, length, ◌==◌,
  if◌then◌else◌, strlen,
}
use reveldb.Rpc.Env.{Env, Request}
use reveldb.Rpc.Reply.{Answer, sent, res_ok, res_notfound, res_serverr, error_response, kv_response}
use reveldb.Rpc.Server.{Server, leveldb_put, leveldb_get, reset_err}
use reveldb.Rpc.Checks.{
  pass, ◌>>=◌, ◌>>◌, finish, proto_and_method_sanity_check, query_param_sanity_check,
  query_quiet_check, find_database,
}

-- strncmp(a, b, n) == 0: the bytes are compared up to the n-th, or to a NUL in both.
unfoldable pub strncmp_eq : Bytes → Bytes → ℕ → Bool
strncmp_eq a b zero = true
strncmp_eq [] [] (suc n) = true
strncmp_eq [] (b ∷ bs) (suc n) = b == 0
strncmp_eq (a ∷ as') [] (suc n) = a == 0
strncmp_eq (a ∷ as') (b ∷ bs) (suc n) =
    let rest = strncmp_eq as' bs n in if a == b then (if a == 0 then true else rest) else false

module _ (env : Env) (req : Request) where
  open env use {engine}

  -- The answer where the key, or the value, is not there
  unfoldable pub answer_absent : Bytes → Answer
  answer_absent message =
      sent res_notfound
        (error_response env req (query_quiet_check env req) res_notfound (lit "Not Found") message)

  -- The end of the handler, behind leveldb_put: the old value is sent, or an error, which is reset.
  unfoldable pub answer_cas :
      Server engine → ℕ → Bytes → Bytes → Option Bytes → Server engine × Answer
  answer_cas s db key value none =
      (s, sent res_ok (kv_response env (query_quiet_check env req) key value))
  answer_cas s db key value (some e) = (
    reset_err s db,
    sent res_serverr (
        error_response env req (query_quiet_check env req) res_serverr (lit "Internal Server Error")
          e),
  )

  -- The handler behind leveldb_get
  unfoldable pub cas_value :
      Server engine → ℕ → Bytes → Bytes → Bytes → Option Bytes → Server engine × Answer
  unfolding answer_cas answer_absent
  cas_value s db key oval nval none = (s, answer_absent (lit "Key not found."))
  cas_value s db key oval nval (some value) =
      if not (length value == strlen oval)
      then (s, answer_absent (lit "Value not found."))
      else if strncmp_eq value oval (length value)
      then (let s' = leveldb_put s db key nval in answer_cas s' db key value (s'.heap db).err)
      else (s, answer_absent (lit "Value not found."))

  -- `URI_rpc_cas_cb`
  unfoldable pub cas_cb : Server engine → Server engine × Answer
  unfolding cas_value
  cas_cb s = finish s do
    proto_and_method_sanity_check env req
    key ← query_param_sanity_check env req (lit "key") (lit "Please specify which key to get.")
    oval ←
        query_param_sanity_check env req (lit "oval") (lit "Please specify old value to compare.")
    nval ← query_param_sanity_check env req (lit "nval") (lit "Please specify new value to swap.")
    db ← find_database env req s
    let (value, s') = leveldb_get s db (s.heap db).roptions key
    pass (cas_value s' db key oval nval value)
