-- ===== src/Rpc/RemoveLaws.antt =====
-- /rpc/del and /rpc/seize of src/rpc.c: what a request that passes the checks removes.
use reveldb.Prelude.{
  ℕ, ◌≡◌, ◌≢◌, refl, ap, ◌∙◌, ◌&&◌, Option, none, some, Bytes, lit, bytes_eq, ◌==◌, if◌then◌else◌,
  arith, Option-cases, inl, inr,
}
use reveldb.Engine.{Contract}
use reveldb.Rpc.Env.{Env, Request}
use reveldb.Rpc.Reply.{
  sent, res_ok, res_notfound, res_serverr, quiet_response_on_kv_with_len,
  msgalt_response_on_kv_with_len,
}
use reveldb.Rpc.Checks.{finish, ◌>>=◌, ◌>>◌, query_quiet_check}
use reveldb.Rpc.Server.{Server, leveldb_delete, leveldb_get}
use reveldb.Rpc.Contents.{value_at, value_at-delete, db-get, err-reset}
use reveldb.Rpc.Asks.{Asks, param-Gives, find_database-Asks}
use reveldb.Rpc.Store.{del_cb, seize_cb, answer_del, answer_seize, seize_value}
use reveldb.Rpc.SetLaws.{status}
use reveldb.Rpc.GetLaws.{Readable, leveldb_get-Readable}

module _ (env : Env) (req : Request) (s : Server env.engine) (key : Bytes) (db : ℕ)
    (a : Asks env req s key db) where
  open env use {engine}

  abbrev deleted : Server env.engine
  deleted = leveldb_delete s db key

  abbrev read : Option Bytes × Server engine
  read = leveldb_get s db (s.heap db).roptions key

  del_cb-Asks : del_cb env req s ≡ answer_del env req deleted db (deleted.heap db).err
  unfolding del_cb finish ◌>>=◌ ◌>>◌
  del_cb-Asks = rw (
    a.checked,
    param-Gives env req (lit "key") key _ a.key_arg,
    find_database-Asks env req s key db a,
  )

  seize_cb-Asks : seize_cb env req s ≡ seize_value env req read.1 db key read.0
  unfolding seize_cb finish ◌>>=◌ ◌>>◌
  seize_cb-Asks = rw (
    a.checked,
    param-Gives env req (lit "key") key _ a.key_arg,
    find_database-Asks env req s key db a,
  )

  -- A request of /rpc/del that passes the checks and is answered with 200 leaves its key
  -- without a value, and changes no other key of any database. Any other answer is 500, and the
  -- error is reset.
  pub del_cb_lem :
      (c : Contract engine)
      → (status (del_cb env req s).1 ≡ res_ok
          → (q : ℕ) (j : Bytes)
          → value_at c (del_cb env req s).0 q j
            ≡ (if (q == db) && bytes_eq key j then none else value_at c s q j))
        × (status (del_cb env req s).1 ≢ res_ok
            → (status (del_cb env req s).1 ≡ res_serverr)
              × (((del_cb env req s).0.heap db).err ≡ none))
  unfolding answer_del
  del_cb_lem c = elim (Option-cases (deleted.heap db).err) [
    | inl ok ↦
        rw (del_cb-Asks, ok, answer_del)
          (λ _ q j. value_at-delete c s db key q j ok, λ n. absurd (n refl))
    | inr (e, bad) ↦
        rw (del_cb-Asks, bad, answer_del)
          (λ h. absurd (omega arith), λ _. (refl, err-reset deleted db))
  ]

  module _ (c : Contract engine) (r : Readable env c s db key) where
    abbrev seized : Server engine
    seized = leveldb_delete read.1 db key

    -- What the deletion leaves as the error, behind a read that succeeds.
    err-seized :
        (s.heap db).err ≡ none
        → (engine.delete (s.heap db).db (s.heap db).woptions key).1 ≡ none
        → (seized.heap db).err ≡ none
    unfolding leveldb_get leveldb_delete
    err-seized clean done = ground (arith, r.no_error, clean, done)

    -- A request of /rpc/seize that passes the checks and finds no value is answered with 404
    -- and changes no value of any database. If it finds one, and no call before it left an
    -- error and its deletion succeeds, it is answered with the value; the key has none
    -- afterwards, and no other key of any database changes. The read is one that succeeds.
    pub seize_cb_lem :
        (value_at c s db key ≡ none
          → (status (seize_cb env req s).1 ≡ res_notfound)
            × ((q : ℕ) (j : Bytes) → value_at c (seize_cb env req s).0 q j ≡ value_at c s q j))
        × ((value : Bytes)
            → value_at c s db key ≡ some value
            → (s.heap db).err ≡ none
            → (engine.delete (s.heap db).db (s.heap db).woptions key).1 ≡ none
            → ((seize_cb env req s).1
                ≡ sent res_ok (
                    if query_quiet_check env req
                    then quiet_response_on_kv_with_len key value
                    else msgalt_response_on_kv_with_len env key value (
                        lit
                          "Seize key value pair OK, but note that you have just deleted the pair on reveldb server")))
              × ((q : ℕ) (j : Bytes)
                  → value_at c (seize_cb env req s).0 q j
                    ≡ (if (q == db) && bytes_eq key j then none else value_at c s q j)))
    unfolding seize_value answer_seize
    seize_cb_lem = (
      λ h.
          rw (seize_cb-Asks, leveldb_get-Readable env c s db key r, h, seize_value)
            (refl, λ q j. ap (λ d. c.contents d j) (db-get s db q (s.heap db).roptions key)),
      λ value h clean done.
          let e = err-seized clean done in
          let kept : (q : ℕ) (j : Bytes) → value_at c read.1 q j ≡ value_at c s q j =
            λ q j. ap (λ d. c.contents d j) (db-get s db q (s.heap db).roptions key) in
          rw (seize_cb-Asks, leveldb_get-Readable env c s db key r, h, seize_value, e, answer_seize)
            (
              refl,
              λ q j.
                  value_at-delete c read.1 db key q j e
                  ∙ ap (λ o. if (q == db) && bytes_eq key j then none else o) (kept q j),
            ),
    )
