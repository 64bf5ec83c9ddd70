-- ===== src/Rpc/RoundTrip.antt =====
-- A request of /rpc/set followed by one of /rpc/get, of src/rpc.c.
use reveldb.Prelude.{
  ℕ, ◌≡◌, refl, ◌∙◌, Bytes, lit, bytes_eq_iff, ==_iff, Option-cases, inl, inr, arith,
}
use reveldb.Engine.{Contract}
use reveldb.Rpc.Env.{Env, Request}
use reveldb.Rpc.Reply.{sent, res_ok, kv_response}
use reveldb.Rpc.Server.{Server, leveldb_put}
use reveldb.Rpc.Checks.{query_quiet_check, query_database}
use reveldb.Rpc.Asks.{Asks, Gives}
use reveldb.Rpc.Store.{set_cb, get_cb, answer_set}
use reveldb.Rpc.SetLaws.{status, set_cb-Asks, set_cb_lem}
use reveldb.Rpc.GetLaws.{NoSnapshot, Readable, get_cb_lem}

module _ (env : Env) (req next : Request) (s : Server env.engine) (key value : Bytes) (db : ℕ)
    (a : Asks env req s key db) (v : Gives env req (lit "value") value) (b : Asks env next s key db)
    (n : NoSnapshot env next) where
  -- A write does not change what a request asks for.
  Asks-set_cb : status (set_cb env req s).1 ≡ res_ok → Asks env next (set_cb env req s).0 key db
  unfolding answer_set leveldb_put query_database
  Asks-set_cb ok =
      rw (set_cb-Asks env req s key value db a v)
        (elim (Option-cases ((leveldb_put s db key value).heap db).err) [
          | inl e ↦
              rw (e, answer_set)
                (record { checked = b.checked; key_arg = b.key_arg; database = b.database })
          | inr (m, e) ↦
              absurd
                (omega (arith, rw (set_cb-Asks env req s key value db a v, e, answer_set) at ok))
        ])

  -- If /rpc/set answers a request with 200, then /rpc/get on the same key of the same database
  -- answers with the value that was set. Neither request is stopped by the checks, the second
  -- does not name a snapshot, and its read through the options of the instance succeeds and is
  -- not of a snapshot.
  pub get_cb-set_cb :
      (c : Contract env.engine)
      → status (set_cb env req s).1 ≡ res_ok
      → Readable env c (set_cb env req s).0 db key
      → (get_cb env next (set_cb env req s).0).1
        ≡ sent res_ok (kv_response env (query_quiet_check env next) key value)
  get_cb-set_cb c ok r =
      let stored =
        (set_cb_lem env req s key value db a v c).1 ok db key
        ∙ rw ((==_iff db db).1 refl, (bytes_eq_iff key key).1 refl) in
      (get_cb_lem env c (set_cb env req s).0 db key next (Asks-set_cb ok) n r).0 value stored
