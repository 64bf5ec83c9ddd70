-- ===== src/Rpc/Mdel.antt =====
-- The whole of a request of /rpc/mdel of src/rpc.c.
use reveldb.Prelude.{
  ℕ, ◌+◌, ◌≡◌, refl, ◌∙◌, Bool, Option, none, some, List, [], ◌∷◌, Bytes, lit, length,
}
use reveldb.Engine.{Contract}
use reveldb.Registry.{search}
use reveldb.Rpc.Env.{Env, Request}
use reveldb.Rpc.Reply.{sent, res_ok, done_response}
use reveldb.Rpc.Server.{Server, leveldb_delete}
use reveldb.Rpc.Checks.{pass, finish, ◌>>=◌, ◌>>◌, query_quiet_check, query_database, find_database}
use reveldb.Rpc.Contents.{value_at, err-delete}
use reveldb.Rpc.Many.{
  CJson, all_done, mdel_loop, do_mdel, answer_many, mdel_cb, proto_and_method_sanity_check2nd,
}
use reveldb.Rpc.ManyLaws.{remove_all, HoldsKeys, mdel_loop-remove_all}

module _ (json : CJson) (env : Env) (req : Request) (c : Contract env.engine)
    (s : Server env.engine) (db : ℕ) (inbuffer : Option Bytes) (ks : List Bytes) where
  open env use {engine}

  -- The engine deletes each of the keys, whatever it holds.
  abbrev pub Deletes : List Bytes → Type 0
  Deletes [] = Unit {0}
  Deletes (k ∷ more) =
      ((d : engine.Store) (sync : Bool) → (engine.delete d sync k).1 ≡ none) × Deletes more

  -- A POST request over HTTP/1.1 on an open database, whose first line is a document with keys,
  -- all of them strings.
  pub record Names : Type 0 where
    pub root : json.Node
    pub keys : json.Node
    pub checked : proto_and_method_sanity_check2nd json env req ≡ pass tt
    pub database : search s.reveldb (query_database env req s) ≡ some db
    pub parsed : json.parse inbuffer ≡ some root
    pub keys_item : json.get_object_item root (lit "keys") ≡ some keys
    pub keys_size : json.get_array_size keys ≡ length ks
    pub strings : HoldsKeys json env req c db keys 0 ks

  mdel_loop-done :
      (js : List Bytes) (t : Server engine) (keys : json.Node) (i : ℕ)
      → HoldsKeys json env req c db keys i js
      → Deletes js
      → (t.heap db).err ≡ none
      → (mdel_loop json env req t db keys (length js) i).1 ≡ all_done
  unfolding mdel_loop
  mdel_loop-done [] t keys i h a e = refl
  mdel_loop-done (k ∷ more) t keys i (hk, h) (p, a) e =
      let ok : ((leveldb_delete t db k).heap db).err ≡ none =
        err-delete t db k ∙ rw (e, p (t.heap db).db (t.heap db).woptions) in
      rw (hk, ok, mdel_loop) (mdel_loop-done more (leveldb_delete t db k) keys (i + 1) h a ok)

  do_mdel-Names :
      (d : Names)
      → (mdel_loop json env req s db d.keys (length ks) 0).1 ≡ all_done
      → do_mdel json env req s db inbuffer
        ≡ ((mdel_loop json env req s db d.keys (length ks) 0).0, answer_many json env req all_done)
  unfolding do_mdel
  do_mdel-Names d done = rw (d.parsed, do_mdel, d.keys_item, d.keys_size, done)

  mdel_cb-Names : Names → mdel_cb json env req inbuffer s ≡ do_mdel json env req s db inbuffer
  unfolding mdel_cb finish ◌>>=◌ ◌>>◌ find_database
  mdel_cb-Names d =
      let found : find_database env req s ≡ pass db = rw (d.database, find_database) in
      rw (d.checked, found)

  -- A POST request of /rpc/mdel over HTTP/1.1 on an open database, whose first line is a
  -- document with keys, all of them strings, is answered with 200, and the database holds what
  -- it held, without the keys. No earlier call left an error, and the engine deletes each of
  -- the keys.
  pub mdel_cb_lem :
      Names
      → Deletes ks
      → (s.heap db).err ≡ none
      → ((mdel_cb json env req inbuffer s).1
          ≡ sent res_ok (
              done_response env
                (query_quiet_check env req)
                res_ok
                (lit "OK")
                (lit "Multiple set done.")))
        × ((j : Bytes)
            → value_at c (mdel_cb json env req inbuffer s).0 db j
              ≡ remove_all ks (value_at c s db) j)
  unfolding answer_many
  mdel_cb_lem d a e =
      let done = mdel_loop-done ks s d.keys 0 d.strings a e in
      rw (mdel_cb-Names d, do_mdel-Names d done, answer_many)
        (refl, mdel_loop-remove_all json env req c db ks s d.keys 0 d.strings done)
