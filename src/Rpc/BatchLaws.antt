-- ===== src/Rpc/BatchLaws.antt =====
-- Batches of src/rpc.c: what is collected request by request is applied as a whole.
use reveldb.Prelude.{◌≡◌, refl, ap, ◌∙◌, sym, some, List, [], ◌∷◌, ◌++◌, Bytes, lit, bytes_eq_iff}
use mathlib.Core.List.{append_assoc, append-nil}
use reveldb.Engine.{Contract}
use reveldb.Engine.Views.{Batches, Update, put, delete}
use reveldb.Registry.{search}
use reveldb.Registry.Adjust.{search-adjust}
use reveldb.Rpc.Env.{Env, Request}
use reveldb.Rpc.Reply.{Answer}
use reveldb.Rpc.Server.{Server, BatchEntry}
use reveldb.Rpc.Checks.{pass, finish, ◌>>=◌, ◌>>◌, proto_and_method_sanity_check}
use reveldb.Rpc.Asks.{Gives, param-Gives}
use reveldb.Rpc.Snapshot.{found_or}
use reveldb.Rpc.Batch.{
  writebatch_put_cb, writebatch_del_cb, query_batch_check, find_batch, update_batch,
}

module _ (env : Env) (id : Bytes) where
  open env use {engine}

  abbrev key_of : Update → Bytes
  key_of (put k v) = k
  key_of (delete k) = k

  abbrev HasValue : Request → Update → Type 0
  HasValue req (put k v) = Gives env req (lit "value") v
  HasValue req (delete k) = Unit {0}

  -- A request for an update of the batch: it passes the checks, and has the arguments of the update.
  pub record Requests (req : Request) (u : Update) : Type 0 where
    pub checked : proto_and_method_sanity_check env req ≡ pass tt
    pub batch_arg : Gives env req (lit "batch") id
    pub key_arg : Gives env req (lit "key") (key_of u)
    pub value_arg : HasValue req u

  -- The handler of an update
  unfoldable pub update_cb : Update → Request → Server engine → Server engine × Answer
  unfolding writebatch_put_cb writebatch_del_cb
  update_cb (put k v) req s = writebatch_put_cb env req s
  update_cb (delete k) req s = writebatch_del_cb env req s

  -- The requests for some updates, one behind the other
  unfoldable pub collect : List (Update × Request) → Server engine → Server engine
  unfolding update_cb
  collect [] s = s
  collect ((u, req) ∷ more) s = collect more (update_cb u req s).0

  abbrev pub updates_of : List (Update × Request) → List Update
  updates_of [] = []
  updates_of ((u, req) ∷ more) = u ∷ updates_of more

  abbrev pub AllRequest : List (Update × Request) → Type 0
  AllRequest [] = Unit {0}
  AllRequest ((u, req) ∷ more) = Requests req u × AllRequest more

  -- What an update does to the batch
  abbrev change : Update → engine.WriteBatch → engine.WriteBatch
  change (put k v) b = engine.writebatch_put b k v
  change (delete k) b = engine.writebatch_delete b k

  pub batch_arg-Gives :
      (req : Request) → Gives env req (lit "batch") id → query_batch_check env req ≡ pass id
  unfolding query_batch_check
  batch_arg-Gives req h = rw (h, query_batch_check)

  pub find_batch-search :
      (req : Request) (s : Server engine) (e : BatchEntry engine)
      → search s.dbwritebatch id ≡ some e
      → find_batch env req s id ≡ pass e
  unfolding find_batch found_or
  find_batch-search req s e h = rw (h, found_or)

  update_cb-Requests :
      (u : Update) (req : Request) (s : Server engine) (e : BatchEntry engine)
      → Requests req u
      → search s.dbwritebatch id ≡ some e
      → (update_cb u req s).0 ≡ update_batch env req s id (change u)
  unfolding update_cb writebatch_put_cb writebatch_del_cb finish ◌>>=◌ ◌>>◌
  update_cb-Requests (put k v) req s e r h = rw (
    r.checked,
    param-Gives env req (lit "key") k _ r.key_arg,
    param-Gives env req (lit "value") v _ r.value_arg,
    batch_arg-Gives req r.batch_arg,
    find_batch-search req s e h,
  )
  update_cb-Requests (delete k) req s e r h = rw (
    r.checked,
    param-Gives env req (lit "key") k _ r.key_arg,
    batch_arg-Gives req r.batch_arg,
    find_batch-search req s e h,
  )

  search-update_batch :
      (req : Request) (s : Server engine) (e : BatchEntry engine)
      (f : engine.WriteBatch → engine.WriteBatch)
      → search s.dbwritebatch id ≡ some e
      → search (update_batch env req s id f).dbwritebatch id
        ≡ some (record e { writebatch = f e.writebatch })
  unfolding update_batch
  search-update_batch req s e f h =
      search-adjust s.dbwritebatch id (λ d. record d { writebatch = f d.writebatch }) id
      ∙ rw ((bytes_eq_iff id id).1 refl, h)

  module _ (c : Contract engine) (b : Batches c) where
    updates-change :
        (u : Update) (w : engine.WriteBatch) → b.updates (change u w) ≡ b.updates w ++ u ∷ []
    updates-change (put k v) w = b.updates_put w k v
    updates-change (delete k) w = b.updates_delete w k

    -- Requests for updates of a batch put them behind those that it has, and change no database.
    pub collect-updates :
        (us : List (Update × Request)) (s : Server engine) (e : BatchEntry engine)
        → AllRequest us
        → search s.dbwritebatch id ≡ some e
        → (d : BatchEntry engine) × (search (collect us s).dbwritebatch id ≡ some d)
          × (b.updates d.writebatch ≡ b.updates e.writebatch ++ updates_of us)
          × ((collect us s).heap ≡ s.heap)
          × ((collect us s).reveldb ≡ s.reveldb)
          × ((collect us s).db_config ≡ s.db_config)
    unfolding collect update_batch
    collect-updates [] s e r h = (e, h, sym (append-nil (b.updates e.writebatch)), refl, refl, refl)
    collect-updates ((u, req) ∷ more) s e (r, rs) h =
        let t = update_batch env req s id (change u) in
        let e' = record e { writebatch = change u e.writebatch } in
        let step : (update_cb u req s).0 ≡ t = update_cb-Requests u req s e r h in
        let (d, found, text, heap, db, config) =
          collect-updates more t e' rs (search-update_batch req s e (change u) h) in
        rw (step, collect)
          (
            d,
            found,
            text
                ∙ ap (λ l. l ++ updates_of more) (updates-change u e.writebatch)
                ∙ append_assoc (b.updates e.writebatch) (u ∷ []) (updates_of more),
            heap,
            db,
            config,
          )
