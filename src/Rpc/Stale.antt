-- ===== src/Rpc/Stale.antt =====
-- An error that /rpc/append of src/rpc.c leaves in an instance, and the next request that writes.
use reveldb.Prelude.{ℕ, ◌≡◌, ◌++◌, Option, some, Bytes, lit}
use reveldb.Engine.{Contract}
use reveldb.Rpc.Env.{Env, Request}
use reveldb.Rpc.Reply.{res_serverr}
use reveldb.Rpc.Server.{Server}
use reveldb.Rpc.Checks.{query_database}
use reveldb.Rpc.Asks.{Asks, Gives}
use reveldb.Rpc.Store.{set_cb}
use reveldb.Rpc.Update.{append_cb}
use reveldb.Rpc.SetLaws.{status, set_cb_lem}
use reveldb.Rpc.UpdateLaws.{Edits, append_cb-failed}
use reveldb.Rpc.Dispatch.{append, serve}
use reveldb.Rpc.Isolation.{Within, target}
use reveldb.Rpc.Serve.{serve-Within}

Asks-Within :
    (env : Env) (req : Request) (s t : Server env.engine) (key : Bytes) (db : ℕ) (o : Option ℕ)
    → Within o s t
    → Asks env req s key db
    → Asks env req t key db
unfolding query_database
Asks-Within env req s t key db o w a = record {
  checked = a.checked;
  key_arg = a.key_arg;
  database = rw (w.same_registry, w.same_config) a.database;
}

module _ (env : Env) (req next : Request) (c : Contract env.engine) (s : Server env.engine) (db : ℕ)
    (key val old : Bytes) (e : Edits env req c s db key val old) where
  open env use {engine}

  append_cb-Within : Within (target env req s) s (append_cb env req s).0
  unfolding serve
  append_cb-Within = serve-Within env req s append

  -- If the write of /rpc/append fails, then the next request of /rpc/set on that database that
  -- passes the checks is answered with 500, with no condition on its own write. The request of
  -- /rpc/append passes the checks and finds a value, its argument is a C string, value and
  -- argument are shorter than 2 ^ 31 bytes, and the read succeeds.
  pub set_cb-append_cb :
      (message key2 val2 : Bytes)
      → (engine.put (s.heap db).db (s.heap db).woptions key (old ++ val)).1 ≡ some message
      → Asks env next s key2 db
      → Gives env next (lit "value") val2
      → status (set_cb env next (append_cb env req s).0).1 ≡ res_serverr
  set_cb-append_cb message key2 val2 f a v =
      let t = (append_cb env req s).0 in
      let left = (append_cb-failed env req c s db key val old e message f).1 in
      let r =
        set_cb_lem env next t key2 val2 db
          (Asks-Within env next s t key2 db (target env req s) append_cb-Within a) v c in
      (r.2 (λ ok. cc (left, (r.0.0 ok).0))).0
