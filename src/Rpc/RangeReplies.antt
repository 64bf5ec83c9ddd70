-- ===== src/Rpc/RangeReplies.antt =====
-- The answers of /rpc/range and /rpc/remove of src/rpc.c, for a range of a database.
use reveldb.Prelude.{
  ℕ, ◌<◌, ◌≡◌, ap, ◌∙◌, Bool, true, false, Option, none, some, List, [], ◌∷◌, Bytes, lit, length,
  subst,
}
use reveldb.Engine.{Contract}
use reveldb.Engine.Views.{Cursors, from}
use reveldb.Registry.{search}
use reveldb.Rpc.Env.{Env, Request}
use reveldb.Rpc.Reply.{sent, fault, res_ok, res_nocontent, done_response}
use reveldb.Rpc.Bodies.{kvs_response}
use reveldb.Rpc.Server.{Server}
use reveldb.Rpc.Checks.{
  pass, ◌>>=◌, ◌>>◌, query_quiet_check, query_database, find_database,
  proto_and_method_sanity_check,
}
use reveldb.Rpc.Contents.{value_at}
use reveldb.Rpc.ManyLaws.{remove_all}
use reveldb.Rpc.Range.{
  range_cb, remove_cb, range_check, remove_loop, start_iter, seek_start, answer_range,
  answer_remove, listed,
}
use reveldb.Rpc.RangeLaws.{until, IsCString, keys, Deletes, range_loop-until, remove_loop-until}

-- The entries from the start of a range
abbrev pub starting : Option Bytes → List (Bytes × Bytes) → List (Bytes × Bytes)
starting none es = es
starting (some start_key) es = from start_key es

abbrev nonempty : List (Bytes × Bytes) → Bool
nonempty [] = false
nonempty (e ∷ es) = true

module _ (env : Env) {c : Contract env.engine} (cu : Cursors c) (req : Request)
    (s : Server env.engine) (db : ℕ) (start end : Option Bytes) where
  open env use {engine}

  -- A request of /rpc/range or /rpc/remove for a range of an open database
  pub record Spans : Type 0 where
    pub checked : proto_and_method_sanity_check env req ≡ pass tt
    pub database : search s.reveldb (query_database env req s) ≡ some db
    pub start_arg : env.kv_find req.query (lit "start") ≡ start
    pub end_arg : env.kv_find req.query (lit "end") ≡ end
    pub latest : (s.heap db).roptions.snapshot ≡ none
    pub end_key : IsCString end

  abbrev pub entries : List (Bytes × Bytes)
  entries = cu.entries (s.heap db).db

  range_check-Spans : Spans → range_check env req s ≡ pass db
  unfolding range_check ◌>>=◌ ◌>>◌ find_database
  range_check-Spans r =
      let named : find_database env req s ≡ pass db = rw (r.database, find_database) in
      rw (r.checked, named)

  ahead-seek_start :
      (o : Option Bytes) (i : engine.Iterator)
      → cu.ahead (seek_start env o i) ≡ starting o (cu.all i)
  unfolding seek_start
  ahead-seek_start none i = cu.first_ahead i
  ahead-seek_start (some k) i = cu.seek_ahead i k

  ahead-start : Spans → cu.ahead (start_iter env req s db) ≡ starting start entries
  unfolding start_iter
  ahead-start r =
      let i = engine.create_iterator (s.heap db).db (s.heap db).roptions in
      rw (r.start_arg, start_iter)
        (ahead-seek_start start i
          ∙ ap (starting start) (cu.all_create (s.heap db).db (s.heap db).roptions r.latest))

  module _ (r : Spans) (fuel : ℕ) (enough : length (starting start entries) < fuel) where
    pub range_cb_lem :
        (starting start entries ≡ [] → range_cb env req fuel s ≡ some (s, fault))
        × ((e : Bytes × Bytes) (es : List (Bytes × Bytes))
            → starting start entries ≡ e ∷ es
            → range_cb env req fuel s
              ≡ some (
                s,
                sent res_ok (kvs_response env (query_quiet_check env req) (until end (e ∷ es))),
              ))
    unfolding range_cb answer_range
    range_cb_lem =
        let i = start_iter env req s db in
        let ahead = ahead-start r in
        let listing =
          range_loop-until env cu end r.end_key fuel i (starting start entries) ahead enough in
        (
          λ h. rw (range_check-Spans r, range_cb, cu.valid_ahead i, ahead, h),
          λ e es h. rw (
            range_check-Spans r,
            range_cb,
            cu.valid_ahead i,
            ahead,
            h,
            r.end_arg,
            listing ∙ ap (λ l. listed (until end l)) h,
          ),
        )

    -- /rpc/remove on a range that is not empty ends, is answered with 200, and leaves the
    -- database without the keys from the start of the range up to its end key, with all others
    -- as they were. There is more fuel than entries, the engine deletes each of the keys, no
    -- earlier call left an error, the request passes the checks on an open database, and the
    -- options of the instance name no snapshot.
    pub remove_cb_lem :
        (e : Bytes × Bytes) (es : List (Bytes × Bytes))
        → starting start entries ≡ e ∷ es
        → Deletes env cu end r.end_key (keys env cu end r.end_key (until end (e ∷ es)))
        → (s.heap db).err ≡ none
        → (t : Server engine) × (remove_cb env req fuel s
            ≡ some (
              t,
              sent res_ok (
                  done_response env
                    (query_quiet_check env req)
                    res_nocontent
                    (lit "No Content")
                    (lit "Range remove done.")),
            ))
          × ((j : Bytes)
              → value_at c t db j
                ≡ remove_all (keys env cu end r.end_key (until end (e ∷ es))) (value_at c s db) j)
    unfolding remove_cb answer_remove
    remove_cb_lem e es h d ok =
        let i = start_iter env req s db in
        let ahead = ahead-start r ∙ h in
        let less = subst (λ l. length l < fuel) h enough in
        let (ended, removed) =
          remove_loop-until env cu end r.end_key fuel s db i (e ∷ es) ahead less d ok in
        (
          (remove_loop env fuel s db end i).0,
          rw (range_check-Spans r, remove_cb, cu.valid_ahead i, ahead, r.end_arg)
              (ap (λ x. answer_remove env req ((remove_loop env fuel s db end i).0, x)) ended),
          removed,
        )
