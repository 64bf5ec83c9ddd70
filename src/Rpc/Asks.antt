-- ===== src/Rpc/Asks.antt =====
-- Requests that pass the checks of the handlers, and where a handler goes from there.
use reveldb.Prelude.{ℕ, ◌≡◌, some, Bytes, lit}
use reveldb.Registry.{search}
use reveldb.Rpc.Env.{Env, Request}
use reveldb.Rpc.Server.{Server}
use reveldb.Rpc.Checks.{
  pass, proto_and_method_sanity_check, query_param_sanity_check, query_database, find_database,
}

module _ (env : Env) (req : Request) where
  open env use {engine, kv_find}

  -- The request is a GET over HTTP/1.1, names the key, and names a database that is open.
  pub record Asks (s : Server engine) (key : Bytes) (db : ℕ) : Type 0 where
    pub checked : proto_and_method_sanity_check env req ≡ pass tt
    pub key_arg : kv_find req.query (lit "key") ≡ some key
    pub database : search s.reveldb (query_database env req s) ≡ some db

  -- The request has an argument.
  abbrev pub Gives : Bytes → Bytes → Type 0
  Gives name v = kv_find req.query name ≡ some v

  pub param-Gives :
      (name v msg : Bytes) → Gives name v → query_param_sanity_check env req name msg ≡ pass v
  unfolding query_param_sanity_check
  param-Gives name v msg h = rw (h, query_param_sanity_check)

  pub find_database-Asks :
      (s : Server engine) (key : Bytes) (db : ℕ) → Asks s key db → find_database env req s ≡ pass db
  unfolding find_database
  find_database-Asks s key db a = rw (a.database, find_database)
