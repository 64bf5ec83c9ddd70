-- ===== src/Rpc/SetLaws.antt =====
-- /rpc/set and /rpc/add of src/rpc.c: what a request that passes the checks does.
use reveldb.Prelude.{
  ℕ, ◌≡◌, ◌≢◌, refl, ◌∙◌, sym, ◌&&◌, ◌↔◌, Option, none, some, Bytes, lit, bytes_eq, ◌==◌,
  if◌then◌else◌, arith, Option-cases, inl, inr,
}
use reveldb.Engine.{Contract}
use reveldb.Rpc.Env.{Env, Request}
use reveldb.Rpc.Reply.{Answer, sent, fault, res_ok, res_serverr}
use reveldb.Rpc.Server.{Server, leveldb_put}
use reveldb.Rpc.Checks.{finish, ◌>>=◌, ◌>>◌}
use reveldb.Rpc.Contents.{
  value_at, value_at-put, save_error-none, save_error-some, err-put, err-reset,
}
use reveldb.Rpc.Asks.{Asks, Gives, param-Gives, find_database-Asks}
use reveldb.Rpc.Store.{set_cb, add_cb, answer_set}

-- The HTTP status of an answer; 0 where nothing is sent.
abbrev pub status : Answer → ℕ
status (sent code body) = code
status fault = 0

module _ (env : Env) (req : Request) (s : Server env.engine) (key value : Bytes) (db : ℕ)
    (a : Asks env req s key db) (v : Gives env req (lit "value") value) where
  open env use {engine}

  abbrev written : Server env.engine
  written = leveldb_put s db key value

  pub set_cb-Asks : set_cb env req s ≡ answer_set env req written db (written.heap db).err
  unfolding set_cb finish ◌>>=◌ ◌>>◌
  set_cb-Asks = rw (
    a.checked,
    param-Gives env req (lit "key") key _ a.key_arg,
    param-Gives env req (lit "value") value _ v,
    find_database-Asks env req s key db a,
  )

  pub add_cb-Asks : add_cb env req s ≡ answer_set env req written db (written.heap db).err
  unfolding add_cb finish ◌>>=◌ ◌>>◌
  add_cb-Asks = rw (
    a.checked,
    param-Gives env req (lit "key") key _ a.key_arg,
    param-Gives env req (lit "value") value _ v,
    find_database-Asks env req s key db a,
  )

  -- /rpc/add on a request that passes the checks does what /rpc/set does, also where the key
  -- has a value: the old one is replaced.
  pub add_cb-set_cb : add_cb env req s ≡ set_cb env req s
  add_cb-set_cb = add_cb-Asks ∙ sym set_cb-Asks

  -- What leveldb_put returns through `errptr`
  abbrev put_status : Option Bytes
  put_status = (engine.put (s.heap db).db (s.heap db).woptions key value).1

  -- A request of /rpc/set that passes the checks is answered with 200 exactly if no call before
  -- it left an error in the instance and its own write succeeds; then the key has the value,
  -- and every other key of every database has the value it had. Any other answer is 500, and
  -- the error is reset.
  pub set_cb_lem :
      (c : Contract engine)
      → ((status (set_cb env req s).1 ≡ res_ok) ↔ (((s.heap db).err ≡ none) × (put_status ≡ none)))
        × (status (set_cb env req s).1 ≡ res_ok
            → (q : ℕ) (j : Bytes)
            → value_at c (set_cb env req s).0 q j
              ≡ (if (q == db) && bytes_eq key j then some value else value_at c s q j))
        × (status (set_cb env req s).1 ≢ res_ok
            → (status (set_cb env req s).1 ≡ res_serverr)
              × (((set_cb env req s).0.heap db).err ≡ none))
  unfolding answer_set
  set_cb_lem c = elim (Option-cases (written.heap db).err) [
    | inl ok ↦
        rw (set_cb-Asks, ok, answer_set)
          (
            (
              λ _. save_error-none (s.heap db).err put_status (sym (err-put s db key value) ∙ ok),
              λ _. refl,
            ),
            λ _ q j. value_at-put c s db key value q j ok,
            λ n. absurd (n refl),
          )
    | inr (e, bad) ↦
        rw (set_cb-Asks, bad, answer_set)
          (
            (
              λ h. absurd (omega arith),
              λ h. absurd (
                  save_error-some (s.heap db).err put_status e (sym (err-put s db key value) ∙ bad)
                    h.0 h.1),
            ),
            λ h. absurd (omega arith),
            λ _. (refl, err-reset written db),
          )
  ]
