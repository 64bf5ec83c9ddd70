-- ===== src/Rpc/Mseize.antt =====
-- The whole of a request of /rpc/mseize and of /rpc/mget of src/rpc.c.
use reveldb.Prelude.{
  ℕ, ◌+◌, ◌≡◌, refl, ap, ◌∙◌, fun_ext, Option, none, some, List, [], ◌∷◌, Bytes, length,
  Option-cases, inl, inr,
}
use reveldb.Engine.{Contract, ReadOptions}
use reveldb.Rpc.Env.{Env, Request}
use reveldb.Rpc.Reply.{sent, res_ok}
use reveldb.Rpc.Bodies.{kvs_response}
use reveldb.Rpc.Server.{Server, leveldb_get}
use reveldb.Rpc.Checks.{pass, finish, ◌>>=◌, ◌>>◌, query_quiet_check, find_database}
use reveldb.Rpc.Contents.{value_at}
use reveldb.Rpc.Range.{listed, list_first}
use reveldb.Rpc.Many.{CJson}
use reveldb.Rpc.ManyLaws.{HoldsKeys, remove_all}
use reveldb.Rpc.Mget.{mget_loop, do_mget, do_mseize, mget_cb, mseize_cb, answer_kvs}
use reveldb.Rpc.Mdel.{Names}
use reveldb.Rpc.MgetLaws.{take_all, Takes, read-value, mseize_loop-take_all}

-- The pairs of the keys that a store has
unfoldable pub found_all : List Bytes → (Bytes → Option Bytes) → List (Bytes × Bytes)
found_all [] m = []
found_all (k ∷ ks) m =
    let rest = found_all ks m in elim (m k) [ none ↦ rest | some v ↦ (k, v) ∷ rest ]

module _ (json : CJson) (env : Env) (req : Request) (c : Contract env.engine) (db : ℕ) where
  open env use {engine}

  -- The engine reads each of the keys, whatever it holds.
  abbrev pub Reads : List Bytes → Type 0
  Reads [] = Unit {0}
  Reads (k ∷ more) =
      ((d : engine.Store) (o : ReadOptions engine.Snapshot) → (engine.get d o k).1 ≡ none)
      × Reads more

  mget_loop-found_all :
      (ks : List Bytes) (s : Server engine) (keys : json.Node) (i : ℕ)
      → HoldsKeys json env req c db keys i ks
      → Reads ks
      → (s.heap db).err ≡ none
      → (s.heap db).roptions.snapshot ≡ none
      → ((mget_loop json env req s db keys (length ks) i).1
          ≡ listed (found_all ks (value_at c s db)))
        × ((j : Bytes)
            → value_at c (mget_loop json env req s db keys (length ks) i).0 db j
              ≡ value_at c s db j)
  unfolding mget_loop found_all list_first
  mget_loop-found_all [] s keys i h a e o = (refl, λ j. refl)
  mget_loop-found_all (k ∷ more) s keys i (hk, h) (get, a) e o =
      let t = (leveldb_get s db (s.heap db).roptions k).1 in
      let (value, ok, view, same) = read-value json env req c db s k get e o in
      let (kvs, left) = mget_loop-found_all more t keys (i + 1) h a ok view in
      let kvs' = kvs ∙ ap (λ m. listed (found_all more m)) (fun_ext same) in
      elim (Option-cases (value_at c s db k)) [
        | inl missing ↦ rw (hk, mget_loop, value, missing, found_all) (kvs', λ j. left j ∙ same j)
        | inr (v, found) ↦
            rw (hk, mget_loop, value, found, found_all)
              (ap (λ l. list_first k v l) kvs', λ j. left j ∙ same j)
      ]

module _ (json : CJson) (env : Env) (req : Request) (c : Contract env.engine)
    (s : Server env.engine) (db : ℕ) (inbuffer : Option Bytes) (ks : List Bytes)
    (d : Names json env req c s db inbuffer ks) (ok : (s.heap db).err ≡ none)
    (latest : (s.heap db).roptions.snapshot ≡ none) where
  open env use {engine}

  found : find_database env req s ≡ pass db
  unfolding find_database
  found = rw (d.database, find_database)

  -- A POST request of /rpc/mseize over HTTP/1.1 on an open database, whose first line is a
  -- document with keys, all of them strings, is answered with 200 and the pairs of the keys
  -- that are there, where a key that comes twice is taken once; the database holds what it
  -- held, without the keys. No earlier call left an error, the options of the instance name no
  -- snapshot, and the engine reads and deletes each of the keys.
  pub mseize_cb_lem :
      Takes json env req c db ks
      → ((mseize_cb json env req inbuffer s).1
          ≡ sent res_ok
              (kvs_response env (query_quiet_check env req) (take_all ks (value_at c s db))))
        × ((j : Bytes)
            → value_at c (mseize_cb json env req inbuffer s).0 db j
              ≡ remove_all ks (value_at c s db) j)
  unfolding mseize_cb do_mseize answer_kvs finish ◌>>=◌ ◌>>◌
  mseize_cb_lem a =
      let (kvs, left) =
        mseize_loop-take_all json env req c db ks s d.keys 0 d.strings a ok latest in
      rw (d.checked, found, d.parsed, do_mseize, d.keys_item, d.keys_size, kvs) (refl, left)

  -- A request of /rpc/mget lists the pairs of the keys that are there, and changes no value.
  pub mget_cb_lem :
      Reads json env req c db ks
      → ((mget_cb json env req inbuffer s).1
          ≡ sent res_ok
              (kvs_response env (query_quiet_check env req) (found_all ks (value_at c s db))))
        × ((j : Bytes) → value_at c (mget_cb json env req inbuffer s).0 db j ≡ value_at c s db j)
  unfolding mget_cb do_mget answer_kvs finish ◌>>=◌ ◌>>◌
  mget_cb_lem a =
      let (kvs, same) = mget_loop-found_all json env req c db ks s d.keys 0 d.strings a ok latest in
      rw (d.checked, found, d.parsed, do_mget, d.keys_item, d.keys_size, kvs) (refl, same)
