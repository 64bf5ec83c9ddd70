-- ===== src/Rpc/Scan.antt =====
-- What a client reads through an iterator of src/rpc.c.
use reveldb.Prelude.{
  ℕ, ◌<◌, ◌≡◌, refl, ◌∙◌, sym, none, some, List, [], ◌∷◌, Bytes, lit, length, get_elem?, arith,
  bytes_eq_iff,
}
use reveldb.Engine.{Contract}
use reveldb.Engine.Views.{Cursors}
use reveldb.Registry.{Balancer, KeepsOrder, in_order, search}
use reveldb.Registry.Order.{IsSorted, lookup}
use reveldb.Registry.Laws.{search-insert}
use reveldb.Rpc.Env.{Env, Request}
use reveldb.Rpc.Reply.{sent, res_ok, kv_response, done_response}
use reveldb.Rpc.Server.{Server, IterEntry}
use reveldb.Rpc.Checks.{
  pass, finish, ◌>>=◌, ◌>>◌, query_quiet_check, query_database, find_database,
  proto_and_method_sanity_check,
}
use reveldb.Rpc.Store.{snapshot_roptions}
use reveldb.Rpc.Asks.{Gives, param-Gives}
use reveldb.Rpc.Cursor.{
  iter_forward, iter_backward, iter_forward_cb, iter_backward_cb, iter_seek_cb, move_iter, moved,
  answer_move,
}
use reveldb.Rpc.CursorRead.{iter_kv_cb, answer_kv, iter_new_cb, new_iter, own_roptions}
use reveldb.Rpc.CursorLaws.{
  Names, AllNames, Steps, walk, walk-forward, iter_check-Names, find_iter-search, search-move_iter,
  iter_forward_cb-Steps, iter_backward_cb-Steps,
}
use reveldb.Rpc.Walks.{ahead-iter_forward, iter_backward-iter_forward, from-lookup}

module _ (env : Env) (id : Bytes) where
  open env use {engine}

  iter_kv_cb-Names :
      (req : Request) (s : Server engine) (e : IterEntry engine)
      → Names env id req
      → search s.dbiter id ≡ some e
      → iter_kv_cb env req s
        ≡ (s, answer_kv env req (engine.iter_key e.iter) (engine.iter_value e.iter))
  unfolding iter_kv_cb finish ◌>>=◌ ◌>>◌
  iter_kv_cb-Names req s e r h =
      rw (r.checked, iter_check-Names env id req _ r, find_iter-search env id req s e h)

  module _ {c : Contract engine} (cu : Cursors c) where
    -- The answer where the iterator stands at an entry
    iter_kv_cb-ahead :
        (req : Request) (s : Server engine) (e : IterEntry engine) (k v : Bytes)
        (es : List (Bytes × Bytes))
        → Names env id req
        → search s.dbiter id ≡ some e
        → cu.ahead e.iter ≡ (k, v) ∷ es
        → (iter_kv_cb env req s).1 ≡ sent res_ok (kv_response env (query_quiet_check env req) k v)
    unfolding answer_kv
    iter_kv_cb-ahead req s e k v es r h a =
        rw (
          iter_kv_cb-Names req s e r h,
          cu.key_ahead e.iter k v es a,
          cu.value_ahead e.iter k v es a,
        )

    -- Where two iterators stand at the same entry, they answer the same.
    iter_kv_cb-same :
        (req : Request) (s t : Server engine) (e d : IterEntry engine) (es : List (Bytes × Bytes))
        → Names env id req
        → search s.dbiter id ≡ some e
        → search t.dbiter id ≡ some d
        → cu.ahead e.iter ≡ es
        → cu.ahead d.iter ≡ es
        → 0 < length es
        → (iter_kv_cb env req s).1 ≡ (iter_kv_cb env req t).1
    iter_kv_cb-same req s t e d [] r h g a b lt = absurd (omega arith)
    iter_kv_cb-same req s t e d ((k, v) ∷ es) r h g a b lt =
        iter_kv_cb-ahead req s e k v es r h a ∙ sym (iter_kv_cb-ahead req t d k v es r g b)

    -- After /rpc/iter/forward and /rpc/iter/backward by the same number of steps, /rpc/iter/kv
    -- answers what it answered before, if the iterator has more entries ahead than that. The
    -- iterator is registered, and the requests pass the checks.
    pub iter_backward_cb-iter_forward_cb :
        (forward backward kv : Request) (n : ℕ) (s : Server engine) (e : IterEntry engine)
        → Steps env id forward n
        → Steps env id backward n
        → Names env id kv
        → search s.dbiter id ≡ some e
        → n < length (cu.ahead e.iter)
        → (iter_kv_cb env kv (iter_backward_cb env backward (iter_forward_cb env forward s).0).0).1
          ≡ (iter_kv_cb env kv s).1
    iter_backward_cb-iter_forward_cb forward backward kv n s e f b r h lt =
        let there = λ (i : engine.Iterator). iter_forward env n i in
        let back = λ (i : engine.Iterator). iter_backward env n i in
        let t = move_iter env s id there in
        let d = record e { iter = there e.iter } in
        let h' = search-move_iter env id s e there h in
        let (ahead, _) = iter_backward-iter_forward env cu n e.iter (cu.ahead e.iter) refl lt in
        rw
          (
            iter_forward_cb-Steps env id forward n s e f h,
            iter_backward_cb-Steps env id backward n t d b h',
          )
          (iter_kv_cb-same kv (move_iter env t id back) s (record d { iter = back d.iter }) e
            (cu.ahead e.iter) r (search-move_iter env id t d back h') h ahead refl (omega arith))

    -- A request of /rpc/iter/seek for a key
    pub record Seeks (req : Request) (key : Bytes) : Type 0 where
      pub names : Names env id req
      pub key_arg : Gives env req (lit "key") key

    -- If the entries that a registered iterator runs over are sorted and have a key,
    -- /rpc/iter/seek for the key is answered with 200, and /rpc/iter/kv then answers with the
    -- key and its value. The requests pass the checks.
    pub iter_kv_cb-iter_seek_cb :
        (seek kv : Request) (key value : Bytes) (s : Server engine) (e : IterEntry engine)
        → Seeks seek key
        → Names env id kv
        → search s.dbiter id ≡ some e
        → IsSorted (cu.all e.iter)
        → lookup (cu.all e.iter) key ≡ some value
        → ((iter_seek_cb env seek s).1
            ≡ sent res_ok (
                done_response env
                  (query_quiet_check env seek)
                  res_ok
                  (lit "OK")
                  (lit "Iterator seek done")))
          × ((iter_kv_cb env kv (iter_seek_cb env seek s).0).1
              ≡ sent res_ok (kv_response env (query_quiet_check env kv) key value))
    unfolding iter_seek_cb moved answer_move finish ◌>>=◌ ◌>>◌
    iter_kv_cb-iter_seek_cb seek kv key value s e k r h sorted found =
        let (rest, begins) = from-lookup key value (cu.all e.iter) sorted found in
        let ahead = cu.seek_ahead e.iter key ∙ begins in
        let read =
          iter_kv_cb-ahead kv (move_iter env s id (λ i. engine.iter_seek i key)) _ key value rest r
            (search-move_iter env id s e (λ i. engine.iter_seek i key) h) ahead in
        rw
          (
            k.names.checked,
            iter_check-Names env id seek _ k.names,
            param-Gives env seek (lit "key") key _ k.key_arg,
            find_iter-search env id seek s e h,
            cu.valid_ahead (engine.iter_seek e.iter key),
            ahead,
          )
          (refl, read)

-- An iterator that is made for a database, and requests of /rpc/iter/next.
module _ (env : Env) {c : Contract env.engine} (cu : Cursors c)
    (rb : Balancer (IterEntry env.engine)) (ko : KeepsOrder rb) (s : Server env.engine) (id : Bytes)
    (db : ℕ) where
  open env use {engine}

  -- A request of /rpc/iter/new for an open database, outside every snapshot, with an identifier
  -- that is new.
  pub record Opens (req : Request) : Type 0 where
    pub checked : proto_and_method_sanity_check env req ≡ pass tt
    pub database : search s.reveldb (query_database env req s) ≡ some db
    pub no_snapshot : env.kv_find req.query (lit "snapshot") ≡ none
    pub latest : (s.heap db).roptions.snapshot ≡ none
    pub sorted : IsSorted (in_order s.dbiter)
    pub unused : search s.dbiter id ≡ none

  abbrev first : engine.Iterator
  first = engine.iter_seek_to_first (engine.create_iterator (s.heap db).db (s.heap db).roptions)

  abbrev opened : IterEntry engine
  opened = record { iter = first; reveldb = db; external_roptions = none }

  search-iter_new_cb :
      (req : Request) → Opens req → search (iter_new_cb env req rb id s).0.dbiter id ≡ some opened
  unfolding iter_new_cb new_iter snapshot_roptions own_roptions finish ◌>>=◌ ◌>>◌ find_database
  search-iter_new_cb req o =
      let named : find_database env req s ≡ pass db = rw (o.database, find_database) in
      let roptions : snapshot_roptions env req s db ≡ some (s.heap db).roptions =
        rw (o.no_snapshot, snapshot_roptions) in
      let own : own_roptions env req (s.heap db).roptions ≡ none =
        rw (o.no_snapshot, own_roptions) in
      let laws = search-insert rb ko s.dbiter id opened o.sorted in
      rw (o.checked, named, roptions, own)
        (laws.3 id (laws.1.1 o.unused) ∙ rw ((bytes_eq_iff id id).1 refl))

  -- A client reaches every entry: after /rpc/iter/new on an open database and n requests of
  -- /rpc/iter/next, /rpc/iter/kv answers with the n-th entry of the database in the order of
  -- the keys, counted from 0, if there is one. No snapshot is named, the identifier is new in
  -- the sorted registry, and the requests pass the checks.
  pub iter_kv_cb-walk :
      (new kv : Request) (requests : List Request) (k v : Bytes)
      → Opens new
      → AllNames env id requests
      → Names env id kv
      → get_elem? (cu.entries (s.heap db).db) (length requests) ≡ some (k, v)
      → (iter_kv_cb env kv (walk env id requests (iter_new_cb env new rb id s).0)).1
        ≡ sent res_ok (kv_response env (query_quiet_check env kv) k v)
  iter_kv_cb-walk new kv requests k v o a r h =
      let n = length requests in
      let t = (iter_new_cb env new rb id s).0 in
      let found = search-iter_new_cb new o in
      let all = cu.first_ahead _ ∙ cu.all_create (s.heap db).db (s.heap db).roptions o.latest in
      let (rest, ahead) = ahead-iter_forward env cu n first _ (k, v) all h in
      rw (walk-forward env id requests t opened a found) (
        iter_kv_cb-ahead env id cu kv (move_iter env t id (λ i. iter_forward env n i)) _ k v rest r
          (search-move_iter env id t opened (λ i. iter_forward env n i) found) ahead)
