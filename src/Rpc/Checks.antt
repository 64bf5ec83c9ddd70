-- ===== src/Rpc/Checks.antt =====
-- The checks that open the handlers of src/rpc.c: each goes on with a value or ends the request
-- with an answer.
use reveldb.Prelude.{ℕ, Bool, true, false, none, some, Bytes, lit, bytes_eq, if◌then◌else◌, ◌||◌}
use reveldb.Registry.{search}
use reveldb.Rpc.Env.{Env, Proto, proto_11, Method, method_get, method_post, Request}
use reveldb.Rpc.Reply.{
  Answer, sent, res_badreq, res_notfound, res_methnallowed, response_on_sanity_check,
  general_response,
}
use reveldb.Rpc.Server.{Server}

pub data Check {ℓ} (A : Type ℓ) : Type ℓ where
  pass : A → Check A
  stop : Answer → Check A

infixl 5 ◌>>=◌ ◌>>◌
unfoldable pub ◌>>=◌ {ℓ κ} : {A : Type ℓ} {B : Type κ} → Check A → (A → Check B) → Check B
pass a >>= f = f a
stop r >>= f = stop r

unfoldable pub ◌>>◌ {ℓ} : {B : Type ℓ} → Check (Unit {0}) → Check B → Check B
unfolding ◌>>=◌
m >> k = m >>= λ _. k

-- A request that a check stops changes nothing.
unfoldable pub finish {ℓ} : {S : Type ℓ} → S → Check (S × Answer) → S × Answer
finish s (pass r) = r
finish s (stop a) = (s, a)

abbrev pub is_11 : Proto → Bool
is_11 proto_11 = true
is_11 _ = false

abbrev pub is_get : Method → Bool
is_get method_get = true
is_get _ = false

abbrev pub is_post : Method → Bool
is_post method_post = true
is_post _ = false

module _ (env : Env) (req : Request) where
  open env use {kv_find}

  -- `_rpc_proto_and_method_sanity_check`
  unfoldable pub proto_and_method_sanity_check : Check (Unit {0})
  proto_and_method_sanity_check =
      if is_11 req.proto
      then (if is_get req.method
          then pass tt
          else stop (
              sent res_methnallowed (
                response_on_sanity_check env res_methnallowed (lit "Method Not Allowed")
                  (lit "HTTP method error, you may have to use GET to do request."))))
      else stop (
          sent res_badreq (
            response_on_sanity_check env res_badreq (lit "Bad Request")
              (lit "Protocal error, you may have to use HTTP/1.1 to do request.")))

  -- `_rpc_query_param_sanity_check`, and the return of the handlers if it fails
  unfoldable pub query_param_sanity_check : Bytes → Bytes → Check Bytes
  query_param_sanity_check param_name errmsg_if_invalid = elim (kv_find req.query param_name) [
    | some param ↦ pass param
    | none ↦ stop (
        sent res_badreq
          (response_on_sanity_check env res_badreq (lit "Bad Request") errmsg_if_invalid))
  ]

  -- `_rpc_query_quiet_check`
  unfoldable pub query_quiet_check : Bool
  query_quiet_check = elim (kv_find req.query (lit "quiet")) [
    | none ↦ false
    | some quiet ↦
        if bytes_eq quiet (lit "1") || bytes_eq quiet (lit "true")
        then true
        else if bytes_eq quiet (lit "0") || bytes_eq quiet (lit "false")
        then false
        else false
  ]

  -- `_rpc_query_database_check` and the default that the handlers put in its place
  unfoldable pub query_database : Server env.engine → Bytes
  query_database s = elim (kv_find req.query (lit "db")) [
    | some dbname ↦ dbname
    | none ↦ s.db_config.dbname
  ]

  -- `reveldb_search_db` of that name, and the return of the handlers if it fails
  unfoldable pub find_database : Server env.engine → Check ℕ
  unfolding query_database
  find_database s = elim (search s.reveldb (query_database s)) [
    | some db ↦ pass db
    | none ↦ stop (
        sent res_notfound (
          general_response env res_notfound (lit "Not Found")
            (lit "Database not found, please check.")))
  ]
