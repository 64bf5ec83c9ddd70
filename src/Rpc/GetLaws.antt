-- ===== src/Rpc/GetLaws.antt =====
-- /rpc/get, /rpc/check and /rpc/exists of src/rpc.c: what a request that passes the checks reads.
use reveldb.Prelude.{
  ℕ, ◌≡◌, ◌≢◌, refl, ap, ◌∙◌, sym, ◌↔◌, Option, none, some, Bytes, lit, arith, Option-cases, inl,
  inr,
}
use reveldb.Engine.{Contract}
use reveldb.Rpc.Env.{Env, Request}
use reveldb.Rpc.Reply.{sent, res_ok, res_notfound, kv_response}
use reveldb.Rpc.Server.{Server, leveldb_get}
use reveldb.Rpc.Checks.{finish, ◌>>=◌, ◌>>◌, query_quiet_check}
use reveldb.Rpc.Contents.{value_at, db-get}
use reveldb.Rpc.Asks.{Asks, param-Gives, find_database-Asks}
use reveldb.Rpc.Store.{
  get_cb, check_cb, exists_cb, answer_get, answer_exists, snapshot_roptions, read_through,
}
use reveldb.Rpc.SetLaws.{status}

-- The request does not name a snapshot.
abbrev pub NoSnapshot : Env → Request → Type 0
NoSnapshot env req = env.kv_find req.query (lit "snapshot") ≡ none

module _ (env : Env) (c : Contract env.engine) (s : Server env.engine) (db : ℕ) (key : Bytes) where
  open env use {engine}

  -- A read of the key through the options of the instance succeeds, and is not of a snapshot.
  pub record Readable : Type 0 where
    pub present_time : (s.heap db).roptions.snapshot ≡ none
    pub no_error : (engine.get (s.heap db).db (s.heap db).roptions key).1 ≡ none

  pub leveldb_get-Readable :
      Readable → (leveldb_get s db (s.heap db).roptions key).0 ≡ value_at c s db key
  unfolding leveldb_get
  leveldb_get-Readable r =
      c.get_contents (s.heap db).db (s.heap db).roptions key r.present_time r.no_error

  module _ (req : Request) (a : Asks env req s key db) (n : NoSnapshot env req) where
    abbrev read : Option Bytes × Server engine
    read = leveldb_get s db (s.heap db).roptions key

    roptions-NoSnapshot : snapshot_roptions env req s db ≡ some (s.heap db).roptions
    unfolding snapshot_roptions
    roptions-NoSnapshot = rw (n, snapshot_roptions)

    get_cb-Asks : get_cb env req s ≡ (read.1, answer_get env req key read.0)
    unfolding get_cb read_through finish ◌>>=◌ ◌>>◌
    get_cb-Asks = rw (
      a.checked,
      param-Gives env req (lit "key") key _ a.key_arg,
      find_database-Asks env req s key db a,
      roptions-NoSnapshot,
    )

    check_cb-Asks : check_cb env req s ≡ (read.1, answer_exists env req read.0)
    unfolding check_cb read_through finish ◌>>=◌ ◌>>◌
    check_cb-Asks = rw (
      a.checked,
      param-Gives env req (lit "key") key _ a.key_arg,
      find_database-Asks env req s key db a,
      roptions-NoSnapshot,
    )

    exists_cb-Asks : exists_cb env req s ≡ (read.1, answer_exists env req read.0)
    unfolding exists_cb read_through finish ◌>>=◌ ◌>>◌
    exists_cb-Asks = rw (
      a.checked,
      param-Gives env req (lit "key") key _ a.key_arg,
      find_database-Asks env req s key db a,
      roptions-NoSnapshot,
    )

    -- A request of /rpc/get that passes the checks, without a snapshot, is answered with the
    -- value of the key, and with 404 if there is none; no value of any database changes. The
    -- read through the options of the instance succeeds and is not of a snapshot.
    pub get_cb_lem :
        Readable
        → ((value : Bytes)
            → value_at c s db key ≡ some value
            → (get_cb env req s).1
              ≡ sent res_ok (kv_response env (query_quiet_check env req) key value))
          × (value_at c s db key ≡ none → status (get_cb env req s).1 ≡ res_notfound)
          × ((q : ℕ) (j : Bytes) → value_at c (get_cb env req s).0 q j ≡ value_at c s q j)
    unfolding answer_get
    get_cb_lem r =
        let e = leveldb_get-Readable r in
        rw (get_cb-Asks, e)
          (
            λ value h. rw (h, answer_get),
            λ h. rw (h, answer_get),
            λ q j. ap (λ d. c.contents d j) (db-get s db q (s.heap db).roptions key),
          )

    -- On a request that passes the checks, without a snapshot, /rpc/check and /rpc/exists do
    -- the same: they answer with 200 exactly if the key has a value, and change no value of any
    -- database. The read through the options of the instance succeeds and is not of a snapshot.
    pub exists_cb_lem :
        Readable
        → (exists_cb env req s ≡ check_cb env req s)
          × ((status (exists_cb env req s).1 ≡ res_ok) ↔ (value_at c s db key ≢ none))
          × ((q : ℕ) (j : Bytes) → value_at c (exists_cb env req s).0 q j ≡ value_at c s q j)
    unfolding answer_exists
    exists_cb_lem r = (
      exists_cb-Asks ∙ sym check_cb-Asks,
      elim (Option-cases (value_at c s db key)) [
        | inl absent ↦
            rw (exists_cb-Asks, leveldb_get-Readable r, absent, answer_exists)
              (λ h. absurd (omega arith), λ h. absurd (h refl))
        | inr (v, there) ↦
            rw (exists_cb-Asks, leveldb_get-Readable r, there, answer_exists) (λ _ h. cc, λ _. refl)
      ],
      λ q j.
          ap (λ o. value_at c o.0 q j) exists_cb-Asks
          ∙ ap (λ d. c.contents d j) (db-get s db q (s.heap db).roptions key),
    )
