-- ===== src/Rpc/CursorEnds.antt =====
-- The end of an iterator of src/rpc.c: what /rpc/iter/destroy leaves for the requests behind it.
use reveldb.Prelude.{
  ◌≡◌, refl, ap, ◌∙◌, sym, Option-cases, inl, inr, false, none, some, Bytes, lit, bytes_eq,
  bytes_eq_iff,
}
use reveldb.Registry.{Balancer, KeepsOrder, in_order, search}
use reveldb.Registry.Order.{IsSorted}
use reveldb.Registry.Laws.{search-erase}
use reveldb.Rpc.Env.{Env, Request}
use reveldb.Rpc.Reply.{Answer, sent, res_ok, res_notfound, done_response, general_response}
use reveldb.Rpc.Server.{Server, IterEntry}
use reveldb.Rpc.Checks.{stop, ◌>>=◌, ◌>>◌, finish, query_quiet_check}
use reveldb.Rpc.Snapshot.{found_or}
use reveldb.Rpc.Cursor.{find_iter, iter_next_cb}
use reveldb.Rpc.CursorRead.{answer_kv, iter_kv_cb, iter_destroy_cb}
use reveldb.Rpc.CursorLaws.{Names, iter_check-Names, find_iter-search}

-- The answer where no iterator has the name
abbrev pub no_iter : Env → Answer
no_iter env =
    sent res_notfound (
      general_response env res_notfound (lit "Not Found") (lit "Iterator not found, please check."))

module _ (env : Env) (id : Bytes) (req : Request) (r : Names env id req)
    (s : Server env.engine) where
  find_iter-missing : search s.dbiter id ≡ none → find_iter env req s id ≡ stop (no_iter env)
  unfolding find_iter found_or
  find_iter-missing h = rw (h, found_or)

  iter_next_cb-missing : search s.dbiter id ≡ none → iter_next_cb env req s ≡ (s, no_iter env)
  unfolding iter_next_cb finish ◌>>=◌ ◌>>◌
  iter_next_cb-missing h = rw (r.checked, iter_check-Names env id req _ r, find_iter-missing h)

  iter_kv_cb-missing : search s.dbiter id ≡ none → iter_kv_cb env req s ≡ (s, no_iter env)
  unfolding iter_kv_cb finish ◌>>=◌ ◌>>◌
  iter_kv_cb-missing h = rw (r.checked, iter_check-Names env id req _ r, find_iter-missing h)

  iter_kv_cb-found :
      (e : IterEntry env.engine)
      → search s.dbiter id ≡ some e
      → (iter_kv_cb env req s).1
        ≡ answer_kv env req (env.engine.iter_key e.iter) (env.engine.iter_value e.iter)
  unfolding iter_kv_cb finish ◌>>=◌ ◌>>◌
  iter_kv_cb-found e h =
      rw (r.checked, iter_check-Names env id req _ r, find_iter-search env id req s e h)

-- What /rpc/iter/kv answers depends on the entry of its iterator only.
iter_kv_cb-same :
    (env : Env) (id : Bytes) (req : Request) (r : Names env id req) (s t : Server env.engine)
    → search t.dbiter id ≡ search s.dbiter id
    → (iter_kv_cb env req t).1 ≡ (iter_kv_cb env req s).1
iter_kv_cb-same env id req r s t h = elim (Option-cases (search s.dbiter id)) [
  | inl missing ↦
      ap (λ x. x.1) (iter_kv_cb-missing env id req r t (h ∙ missing))
      ∙ sym (ap (λ x. x.1) (iter_kv_cb-missing env id req r s missing))
  | inr (e, found) ↦
      iter_kv_cb-found env id req r t e (h ∙ found) ∙ sym (iter_kv_cb-found env id req r s e found)
]

module _ (env : Env) (rb : Balancer (IterEntry env.engine)) (ko : KeepsOrder rb)
    (s : Server env.engine) (id : Bytes) (e : IterEntry env.engine) (req : Request) where
  -- A request of /rpc/iter/destroy that names a registered iterator
  pub record Ends : Type 0 where
    pub names : Names env id req
    pub registered : search s.dbiter id ≡ some e
    pub sorted : IsSorted (in_order s.dbiter)

  iter_destroy_cb-Ends :
      Ends
      → iter_destroy_cb env req rb s ≡ (
        record s { dbiter = rb.erase s.dbiter id },
        sent res_ok (
            done_response env
              (query_quiet_check env req)
              res_ok
              (lit "OK")
              (lit "Iterator destroyed")),
      )
  unfolding iter_destroy_cb finish ◌>>=◌ ◌>>◌
  iter_destroy_cb-Ends r = rw (
    r.names.checked,
    iter_check-Names env id req _ r.names,
    find_iter-search env id req s e r.registered,
  )

  -- /rpc/iter/destroy on a registered iterator is answered with 200. Behind it, /rpc/iter/kv
  -- and /rpc/iter/next on that iterator are answered that it is not found, the second without a
  -- change, /rpc/iter/kv on any other name answers what it answered before, and all databases
  -- are as before. The requests pass the checks, the registry is sorted, the balancing code
  -- takes the erased entry out and keeps the order, and the freed entry is read as it was.
  pub iter_destroy_cb_lem :
      Ends
      → (later other : Request) (j : Bytes) → Names env id later
      → Names env j other
      → bytes_eq id j ≡ false
      → ((iter_destroy_cb env req rb s).1
          ≡ sent res_ok (
              done_response env
                (query_quiet_check env req)
                res_ok
                (lit "OK")
                (lit "Iterator destroyed")))
        × ((iter_kv_cb env later (iter_destroy_cb env req rb s).0).1 ≡ no_iter env)
        × (iter_next_cb env later (iter_destroy_cb env req rb s).0
            ≡ ((iter_destroy_cb env req rb s).0, no_iter env))
        × ((iter_kv_cb env other (iter_destroy_cb env req rb s).0).1 ≡ (iter_kv_cb env other s).1)
        × ((iter_destroy_cb env req rb s).0.heap ≡ s.heap)
  iter_destroy_cb_lem r later other j l o differs =
      let t = record s { dbiter = rb.erase s.dbiter id } in
      let erased = search-erase rb ko s.dbiter id r.sorted in
      let gone : search t.dbiter id ≡ none = erased.1 id ∙ rw ((bytes_eq_iff id id).1 refl) in
      let kept : search t.dbiter j ≡ search s.dbiter j = erased.1 j ∙ rw differs in
      rw (iter_destroy_cb-Ends r) (
        refl,
        ap (λ x. x.1) (iter_kv_cb-missing env id later l t gone),
        iter_next_cb-missing env id later l t gone,
        iter_kv_cb-same env j other o s t kept,
        refl,
      )
