-- ===== src/Rpc/MgetLaws.antt =====
-- /rpc/mseize and /rpc/mget of src/rpc.c against a store from which keys are taken one by one.
use reveldb.Prelude.{
  ℕ, ◌+◌, ◌≡◌, fun_ext, refl, ap, ◌∙◌, sym, Option, none, some, List, [], ◌∷◌, Bytes, bytes_eq,
  bytes_eq_iff, ==_iff, if◌then◌else◌, Option-cases, Bool-cases, inl, inr, length, Bool,
}
use reveldb.Engine.{Contract, ReadOptions}
use reveldb.Rpc.Env.{Env, Request}
use reveldb.Rpc.Server.{Server, leveldb_get, leveldb_delete}
use reveldb.Rpc.Contents.{value_at, value_at-delete, err-delete, err-get, db-get}
use reveldb.Rpc.Range.{listed, list_first}
use reveldb.Rpc.Many.{CJson}
use reveldb.Rpc.Isolation.{Within-get, Within-delete}
use reveldb.Rpc.RangeLaws.{drop_err-none}
use reveldb.Rpc.ManyLaws.{HoldsKeys, remove_all, remove_all-same}
use reveldb.Rpc.Mget.{mseize_loop}

-- The pairs that are taken from a store, key by key: a key that comes twice is taken once.
unfoldable pub take_all : List Bytes → (Bytes → Option Bytes) → List (Bytes × Bytes)
take_all [] m = []
take_all (k ∷ ks) m =
    let rest = take_all ks (λ i. if bytes_eq k i then none else m i) in
    elim (m k) [ none ↦ rest | some v ↦ (k, v) ∷ rest ]

take_all-same :
    (ks : List Bytes) (m n : Bytes → Option Bytes)
    → ((i : Bytes) → m i ≡ n i)
    → take_all ks m ≡ take_all ks n
take_all-same ks m n h = ap (take_all ks) (fun_ext h)

module _ (json : CJson) (env : Env) (req : Request) (c : Contract env.engine) (db : ℕ) where
  open env use {engine}

  -- The engine reads and deletes each of the keys, whatever it holds.
  abbrev pub Takes : List Bytes → Type 0
  Takes [] = Unit {0}
  Takes (k ∷ more) =
      ((d : engine.Store) (o : ReadOptions engine.Snapshot) → (engine.get d o k).1 ≡ none)
      × ((d : engine.Store) (sync : Bool) → (engine.delete d sync k).1 ≡ none)
      × Takes more

  -- The store without a key
  abbrev without : Bytes → (Bytes → Option Bytes) → Bytes → Option Bytes
  without k m i = if bytes_eq k i then none else m i

  without-none :
      (k : Bytes) (m : Bytes → Option Bytes) (i : Bytes) → m k ≡ none → m i ≡ without k m i
  without-none k m i h = elim (Bool-cases (bytes_eq k i)) [
    | inl same ↦ rw same (ap m (sym ((bytes_eq_iff k i).0 same)) ∙ h)
    | inr other ↦ rw other
  ]

  -- What a read of the loops returns and leaves
  pub read-value :
      (s : Server engine) (k : Bytes)
      → ((d : engine.Store) (o : ReadOptions engine.Snapshot) → (engine.get d o k).1 ≡ none)
      → (s.heap db).err ≡ none
      → (s.heap db).roptions.snapshot ≡ none
      → ((leveldb_get s db (s.heap db).roptions k).0 ≡ value_at c s db k)
        × (((leveldb_get s db (s.heap db).roptions k).1.heap db).err ≡ none)
        × (((leveldb_get s db (s.heap db).roptions k).1.heap db).roptions.snapshot ≡ none)
        × ((i : Bytes)
            → value_at c (leveldb_get s db (s.heap db).roptions k).1 db i ≡ value_at c s db i)
  unfolding leveldb_get
  read-value s k get e o =
      let ro = (s.heap db).roptions in
      (
        c.get_contents (s.heap db).db ro k o (get (s.heap db).db ro),
        err-get s db ro k ∙ rw (e, get (s.heap db).db ro),
        ap (λ r. r.snapshot) ((Within-get s db ro k).same_roptions db) ∙ o,
        λ i. ap (λ d. c.contents d i) (db-get s db db ro k),
      )

  pub mseize_loop-take_all :
      (ks : List Bytes) (s : Server engine) (keys : json.Node) (i : ℕ)
      → HoldsKeys json env req c db keys i ks
      → Takes ks
      → (s.heap db).err ≡ none
      → (s.heap db).roptions.snapshot ≡ none
      → ((mseize_loop json env req s db keys (length ks) i).1
          ≡ listed (take_all ks (value_at c s db)))
        × ((j : Bytes)
            → value_at c (mseize_loop json env req s db keys (length ks) i).0 db j
              ≡ remove_all ks (value_at c s db) j)
  unfolding mseize_loop take_all remove_all list_first
  mseize_loop-take_all [] s keys i h a e o = (refl, λ j. refl)
  mseize_loop-take_all (k ∷ more) s keys i (hk, h) (get, delete, a) e o =
      let t = (leveldb_get s db (s.heap db).roptions k).1 in
      let m = value_at c s db in
      let (value, ok, view, same) = read-value s k get e o in
      elim (Option-cases (m k)) [
        | inl missing ↦
            let equal : (x : Bytes) → value_at c t db x ≡ without k m x =
              λ x. same x ∙ without-none k m x missing in
            let (kvs, left) = mseize_loop-take_all more t keys (i + 1) h a ok view in
            rw (hk, mseize_loop, value, missing, take_all)
              (
                kvs ∙ ap listed (take_all-same more (value_at c t db) (without k m) equal),
                λ j. left j ∙ remove_all-same more (value_at c t db) (without k m) j equal,
              )
        | inr (v, found) ↦
            let u = leveldb_delete t db k in
            let done : (u.heap db).err ≡ none =
              err-delete t db k ∙ rw (ok, delete (t.heap db).db (t.heap db).woptions) in
            let equal : (x : Bytes) → value_at c u db x ≡ without k m x =
              λ x. value_at-delete c t db k db x done ∙ rw ((==_iff db db).1 refl, same x) in
            let snapshot = ap (λ r. r.snapshot) ((Within-delete t db k).same_roptions db) ∙ view in
            let (kvs, left) = mseize_loop-take_all more u keys (i + 1) h a done snapshot in
            rw (hk, mseize_loop, value, found, drop_err-none env u db done, kvs, take_all)
              (
                ap (λ l. listed ((k, v) ∷ l))
                    (take_all-same more (value_at c u db) (without k m) equal),
                λ j. left j ∙ remove_all-same more (value_at c u db) (without k m) j equal,
              )
      ]
