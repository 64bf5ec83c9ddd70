-- ===== src/Rpc/Mset.antt =====
-- The whole of a request of /rpc/mset of src/rpc.c.
use reveldb.Prelude.{
  ℕ, ◌+◌, ◌≡◌, refl, ◌∙◌, Bool, Option, none, some, List, [], ◌∷◌, Bytes, lit, ==_iff, length,
}
use reveldb.Engine.{Contract}
use reveldb.Registry.{search}
use reveldb.Rpc.Env.{Env, Request}
use reveldb.Rpc.Reply.{sent, res_ok, done_response}
use reveldb.Rpc.Server.{Server, leveldb_put}
use reveldb.Rpc.Checks.{pass, finish, ◌>>=◌, ◌>>◌, query_quiet_check, query_database, find_database}
use reveldb.Rpc.Contents.{value_at, err-put}
use reveldb.Rpc.Many.{
  CJson, all_done, mset_loop, do_mset, answer_many, mset_cb, proto_and_method_sanity_check2nd,
}
use reveldb.Rpc.ManyLaws.{assign_all, HoldsPairs, mset_loop-assign_all}

module _ (json : CJson) (env : Env) (req : Request) (c : Contract env.engine)
    (s : Server env.engine) (db : ℕ) (inbuffer : Option Bytes) (ps : List (Bytes × Bytes)) where
  open env use {engine}

  -- The engine takes each of the pairs, whatever it holds already.
  abbrev pub Accepts : List (Bytes × Bytes) → Type 0
  Accepts [] = Unit {0}
  Accepts ((k, v) ∷ more) =
      ((d : engine.Store) (sync : Bool) → (engine.put d sync k v).1 ≡ none) × Accepts more

  -- A POST request over HTTP/1.1 on an open database, whose first line is a document with as many
  -- values as keys, all of them strings.
  pub record Sets : Type 0 where
    pub root : json.Node
    pub keys : json.Node
    pub values : json.Node
    pub checked : proto_and_method_sanity_check2nd json env req ≡ pass tt
    pub database : search s.reveldb (query_database env req s) ≡ some db
    pub parsed : json.parse inbuffer ≡ some root
    pub keys_item : json.get_object_item root (lit "keys") ≡ some keys
    pub values_item : json.get_object_item root (lit "values") ≡ some values
    pub keys_size : json.get_array_size keys ≡ length ps
    pub values_size : json.get_array_size values ≡ length ps
    pub pairs : HoldsPairs json env req c db keys values 0 ps

  mset_loop-done :
      (qs : List (Bytes × Bytes)) (t : Server engine) (keys values : json.Node) (i : ℕ)
      → HoldsPairs json env req c db keys values i qs
      → Accepts qs
      → (t.heap db).err ≡ none
      → (mset_loop json env req t db keys values (length qs) i).1 ≡ all_done
  unfolding mset_loop
  mset_loop-done [] t keys values i h a e = refl
  mset_loop-done ((k, v) ∷ more) t keys values i (hk, hv, h) (p, a) e =
      let ok : ((leveldb_put t db k v).heap db).err ≡ none =
        err-put t db k v ∙ rw (e, p (t.heap db).db (t.heap db).woptions) in
      rw (hk, hv, ok, mset_loop)
        (mset_loop-done more (leveldb_put t db k v) keys values (i + 1) h a ok)

  do_mset-Sets :
      (d : Sets)
      → (mset_loop json env req s db d.keys d.values (length ps) 0).1 ≡ all_done
      → do_mset json env req s db inbuffer ≡ (
        (mset_loop json env req s db d.keys d.values (length ps) 0).0,
        answer_many json env req all_done,
      )
  unfolding do_mset
  do_mset-Sets d done = rw (
    d.parsed,
    do_mset,
    d.keys_item,
    d.values_item,
    d.keys_size,
    d.values_size,
    (==_iff (length ps) (length ps)).1 refl,
    done,
  )

  mset_cb-Sets : Sets → mset_cb json env req inbuffer s ≡ do_mset json env req s db inbuffer
  unfolding mset_cb finish ◌>>=◌ ◌>>◌ find_database
  mset_cb-Sets d =
      let found : find_database env req s ≡ pass db = rw (d.database, find_database) in
      rw (d.checked, found)

  -- A POST request of /rpc/mset over HTTP/1.1 on an open database, whose first line is a
  -- document with as many values as keys, all of them strings, is answered with 200, and the
  -- database holds what the pairs make of it, one behind the other. No earlier call left an
  -- error, and the engine accepts each of the pairs.
  pub mset_cb_lem :
      Sets
      → Accepts ps
      → (s.heap db).err ≡ none
      → ((mset_cb json env req inbuffer s).1
          ≡ sent res_ok (
              done_response env
                (query_quiet_check env req)
                res_ok
                (lit "OK")
                (lit "Multiple set done.")))
        × ((j : Bytes)
            → value_at c (mset_cb json env req inbuffer s).0 db j
              ≡ assign_all ps (value_at c s db) j)
  unfolding answer_many
  mset_cb_lem d a e =
      let done = mset_loop-done ps s d.keys d.values 0 d.pairs a e in
      rw (mset_cb-Sets d, do_mset-Sets d done, answer_many)
        (refl, mset_loop-assign_all json env req c db ps s d.keys d.values 0 d.pairs done)
