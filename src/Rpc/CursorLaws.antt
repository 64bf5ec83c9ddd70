-- ===== src/Rpc/CursorLaws.antt =====
-- The iterators of src/rpc.c and src/iter.c step by step: the moves of a handler as moves of the
-- iterator behind its identifier.
use reveldb.Prelude.{
  ℕ, ◌≡◌, refl, ap, ◌∙◌, sym, some, List, [], ◌∷◌, Bytes, lit, length, bytes_eq_iff,
}
use reveldb.Utility.Parse.{safe_strtoul}
use reveldb.Registry.{search}
use reveldb.Registry.Adjust.{search-adjust, adjust-adjust, adjust-same}
use reveldb.Rpc.Env.{Env, Request}
use reveldb.Rpc.Server.{Server, IterEntry}
use reveldb.Rpc.Checks.{pass, finish, ◌>>=◌, ◌>>◌, proto_and_method_sanity_check}
use reveldb.Rpc.Asks.{Gives, param-Gives}
use reveldb.Rpc.Snapshot.{query_iter_check, found_or}
use reveldb.Rpc.Cursor.{
  iter_forward, iter_backward, move_iter, find_iter, moved, iter_step_check, iter_next_cb,
  iter_forward_cb, iter_backward_cb,
}

module _ (env : Env) (id : Bytes) where
  open env use {engine}

  -- A request of one of the handlers that passes the checks and names the iterator
  pub record Names (req : Request) : Type 0 where
    pub checked : proto_and_method_sanity_check env req ≡ pass tt
    pub iter_arg : Gives env req (lit "iter") id

  pub iter_check-Names :
      (req : Request) (message : Bytes) → Names req → query_iter_check env req message ≡ pass id
  unfolding query_iter_check
  iter_check-Names req message r = rw (r.iter_arg, query_iter_check)

  pub find_iter-search :
      (req : Request) (s : Server engine) (e : IterEntry engine)
      → search s.dbiter id ≡ some e
      → find_iter env req s id ≡ pass e
  unfolding find_iter found_or
  find_iter-search req s e h = rw (h, found_or)

  pub search-move_iter :
      (s : Server engine) (e : IterEntry engine) (f : engine.Iterator → engine.Iterator)
      → search s.dbiter id ≡ some e
      → search (move_iter env s id f).dbiter id ≡ some (record e { iter = f e.iter })
  unfolding move_iter
  search-move_iter s e f h =
      search-adjust s.dbiter id (λ d. record d { iter = f d.iter }) id
      ∙ rw ((bytes_eq_iff id id).1 refl, h)

  pub move_iter-move_iter :
      (s : Server engine) (f g : engine.Iterator → engine.Iterator)
      → move_iter env (move_iter env s id f) id g ≡ move_iter env s id (λ i. g (f i))
  unfolding move_iter
  move_iter-move_iter s f g =
      ap (λ t. record s { dbiter = t })
        (adjust-adjust s.dbiter id (λ d. record d { iter = f d.iter })
          (λ d. record d { iter = g d.iter }))

  pub move_iter-same : (s : Server engine) → move_iter env s id (λ i. i) ≡ s
  unfolding move_iter
  move_iter-same s = ap (λ t. record s { dbiter = t }) (adjust-same s.dbiter id)

  -- Requests of /rpc/iter/next, one behind the other
  unfoldable pub walk : List Request → Server engine → Server engine
  walk [] s = s
  walk (req ∷ more) s = walk more (iter_next_cb env req s).0

  abbrev pub AllNames : List Request → Type 0
  AllNames [] = Unit {0}
  AllNames (req ∷ more) = Names req × AllNames more

  iter_next_cb-Names :
      (req : Request) (s : Server engine) (e : IterEntry engine)
      → Names req
      → search s.dbiter id ≡ some e
      → (iter_next_cb env req s).0 ≡ move_iter env s id (λ i. engine.iter_next i)
  unfolding iter_next_cb moved finish ◌>>=◌ ◌>>◌
  iter_next_cb-Names req s e r h =
      rw (r.checked, iter_check-Names req _ r, find_iter-search req s e h)

  pub walk-forward :
      (requests : List Request) (s : Server engine) (e : IterEntry engine)
      → AllNames requests
      → search s.dbiter id ≡ some e
      → walk requests s ≡ move_iter env s id (λ i. iter_forward env (length requests) i)
  unfolding walk iter_forward
  walk-forward [] s e a h = sym (move_iter-same s)
  walk-forward (req ∷ more) s e (r, a) h =
      let t = move_iter env s id (λ i. engine.iter_next i) in
      ap (walk more) (iter_next_cb-Names req s e r h)
      ∙ walk-forward more t (record e { iter = engine.iter_next e.iter }) a
          (search-move_iter s e (λ i. engine.iter_next i) h)
      ∙ move_iter-move_iter s (λ i. engine.iter_next i) (λ i. iter_forward env (length more) i)

  -- A request of /rpc/iter/forward or /rpc/iter/backward with a number
  pub record Steps (req : Request) (n : ℕ) : Type 0 where
    pub names : Names req
    pub step_str : Bytes
    pub step_arg : Gives env req (lit "step") step_str
    pub numeral : safe_strtoul step_str ≡ some n

  iter_step_check-Steps :
      (req : Request) (n : ℕ) (r : Steps req n) → iter_step_check env req r.step_str ≡ pass n
  unfolding iter_step_check
  iter_step_check-Steps req n r = rw (r.numeral, iter_step_check)

  pub iter_forward_cb-Steps :
      (req : Request) (n : ℕ) (s : Server engine) (e : IterEntry engine)
      → Steps req n
      → search s.dbiter id ≡ some e
      → (iter_forward_cb env req s).0 ≡ move_iter env s id (λ i. iter_forward env n i)
  unfolding iter_forward_cb moved finish ◌>>=◌ ◌>>◌
  iter_forward_cb-Steps req n s e r h = rw (
    r.names.checked,
    iter_check-Names req _ r.names,
    param-Gives env req (lit "step") r.step_str _ r.step_arg,
    iter_step_check-Steps req n r,
    find_iter-search req s e h,
  )

  pub iter_backward_cb-Steps :
      (req : Request) (n : ℕ) (s : Server engine) (e : IterEntry engine)
      → Steps req n
      → search s.dbiter id ≡ some e
      → (iter_backward_cb env req s).0 ≡ move_iter env s id (λ i. iter_backward env n i)
  unfolding iter_backward_cb moved finish ◌>>=◌ ◌>>◌
  iter_backward_cb-Steps req n s e r h = rw (
    r.names.checked,
    iter_check-Names req _ r.names,
    param-Gives env req (lit "step") r.step_str _ r.step_arg,
    iter_step_check-Steps req n r,
    find_iter-search req s e h,
  )

  -- One request of /rpc/iter/forward by n steps leaves the server as n requests of
  -- /rpc/iter/next leave it, where the iterator is registered and the requests pass the checks.
  pub iter_forward_cb-walk :
      (req : Request) (requests : List Request) (s : Server engine) (e : IterEntry engine)
      → Steps req (length requests)
      → AllNames requests
      → search s.dbiter id ≡ some e
      → (iter_forward_cb env req s).0 ≡ walk requests s
  iter_forward_cb-walk req requests s e r a h =
      iter_forward_cb-Steps req (length requests) s e r h ∙ sym (walk-forward requests s e a h)
