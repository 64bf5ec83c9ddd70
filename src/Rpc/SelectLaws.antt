-- ===== src/Rpc/SelectLaws.antt =====
-- What the handlers of src/rpc.c that read every entry of a database list, and that their loops end.
use reveldb.Prelude.{
  ℕ, zero, suc, ◌<◌, ◌≡◌, ap, ◌∙◌, Option, none, some, List, [], ◌∷◌, Bytes, lit, length, arith,
  Option-cases, inl, inr,
}
use reveldb.Engine.{Contract}
use reveldb.Engine.Views.{Cursors}
use reveldb.Registry.{search}
use reveldb.Rpc.Env.{Env, Request}
use reveldb.Rpc.Reply.{Answer, sent, res_ok}
use reveldb.Rpc.Bodies.{kvs_response}
use reveldb.Rpc.Server.{Server}
use reveldb.Rpc.Checks.{
  pass, query_quiet_check, query_database, find_database, proto_and_method_sanity_check,
}
use reveldb.Rpc.Store.{snapshot_roptions}
use reveldb.Rpc.Range.{listed, list_first, answer_range}
use reveldb.Rpc.Select.{Text, Pick, skip, take_kv, scan_loop, scan_entries, scan_db}

-- The entries of which a function makes a pair
unfoldable pub chosen :
    (Bytes → Bytes → Option (Bytes × Bytes)) → List (Bytes × Bytes) → List (Bytes × Bytes)
chosen choose [] = []
chosen choose ((k, v) ∷ es) =
    let rest = chosen choose es in elim (choose k v) [ none ↦ rest | some kv ↦ kv ∷ rest ]

abbrev pub pick : Option (Bytes × Bytes) → Pick
pick none = skip
pick (some (k, v)) = take_kv k v

module _ (text : Text) (env : Env) {c : Contract env.engine} (cu : Cursors c) where
  open env use {engine}

  -- A loop body that depends on the entry alone
  abbrev pub Chooses : (engine.Iterator → Pick) → (Bytes → Bytes → Option (Bytes × Bytes)) → Type 0
  Chooses select choose =
      (i : engine.Iterator) (k v : Bytes) (es : List (Bytes × Bytes))
      → cu.ahead i ≡ (k, v) ∷ es
      → select i ≡ pick (choose k v)

  -- With more fuel than there are entries, the loop lists the pairs that are made of them.
  scan_loop-chosen :
      (select : engine.Iterator → Pick) (choose : Bytes → Bytes → Option (Bytes × Bytes))
      → Chooses select choose
      → (fuel : ℕ) (i : engine.Iterator) (es : List (Bytes × Bytes)) → cu.ahead i ≡ es
      → length es < fuel
      → scan_loop text env fuel select i ≡ listed (chosen choose es)
  unfolding scan_loop chosen list_first
  scan_loop-chosen select choose p zero i es h lt = absurd (omega arith)
  scan_loop-chosen select choose p (suc fuel) i [] h lt = rw (cu.valid_ahead i, h)
  scan_loop-chosen select choose p (suc fuel) i ((k, v) ∷ es) h lt =
      let more =
        scan_loop-chosen select choose p fuel (engine.iter_next i) es (cu.next_ahead i (k, v) es h)
          (omega arith) in
      elim (Option-cases (choose k v)) [
        | inl missed ↦ rw (cu.valid_ahead i, h, p i k v es h, missed, chosen) more
        | inr ((j, w), held) ↦
            rw (cu.valid_ahead i, h, p i k v es h, held, chosen) (ap (λ l. list_first j w l) more)
      ]

  module _ (req : Request) (s : Server env.engine) (db : ℕ) where
    -- A request on an open database, outside every snapshot
    pub record Scans : Type 0 where
      pub checked : proto_and_method_sanity_check env req ≡ pass tt
      pub database : search s.reveldb (query_database env req s) ≡ some db
      pub no_snapshot : env.kv_find req.query (lit "snapshot") ≡ none
      pub latest : (s.heap db).roptions.snapshot ≡ none

    -- The answer that lists the pairs
    abbrev pub listing : (Bytes → Bytes → Option (Bytes × Bytes)) → Option (Server engine × Answer)
    listing choose = some (
      s,
      sent res_ok (
          kvs_response env (query_quiet_check env req) (chosen choose (cu.entries (s.heap db).db))),
    )

    pub scan_entries-Chooses :
        (select : engine.Iterator → Pick) (choose : Bytes → Bytes → Option (Bytes × Bytes))
        (fuel : ℕ)
        → Scans
        → Chooses select choose
        → length (cu.entries (s.heap db).db) < fuel
        → scan_entries text env req fuel s (pass (db, select)) ≡ listing choose
    unfolding scan_entries scan_db answer_range
    scan_entries-Chooses select choose fuel r p enough =
        let roptions : snapshot_roptions env req s db ≡ some (s.heap db).roptions =
          rw (r.no_snapshot, snapshot_roptions) in
        let i = engine.create_iterator (s.heap db).db (s.heap db).roptions in
        let ahead = cu.first_ahead i ∙ cu.all_create (s.heap db).db (s.heap db).roptions r.latest in
        rw (
          roptions,
          scan_db,
          scan_loop-chosen select choose p fuel (engine.iter_seek_to_first i) _ ahead enough,
        )

    pub find_database-Scans : Scans → find_database env req s ≡ pass db
    unfolding find_database
    find_database-Scans r = rw (r.database, find_database)
