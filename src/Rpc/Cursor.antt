-- ===== src/Rpc/Cursor.antt =====
-- The handlers /rpc/iter/... of src/rpc.c, on src/iter.c.
use reveldb.Prelude.{ℕ, zero, suc, Bool, true, false, none, some, Bytes, lit}
use reveldb.Utility.Parse.{safe_strtoul}
use reveldb.Registry.{search}
use reveldb.Registry.Adjust.{adjust}
use reveldb.Rpc.Env.{Env, Request}
use reveldb.Rpc.Reply.{
  Answer, sent, res_ok, res_badreq, res_serverr, response_on_error, done_response,
}
use reveldb.Rpc.Server.{Server, IterEntry}
use reveldb.Rpc.Checks.{
  Check, pass, stop, ◌>>=◌, ◌>>◌, finish, proto_and_method_sanity_check, query_param_sanity_check,
  query_quiet_check,
}
use reveldb.Rpc.Snapshot.{query_iter_check, found_or}

module _ (env : Env) where
  open env use {engine}

  -- `xleveldb_iter_forward`: the loop from 0 to `step`
  unfoldable pub iter_forward : ℕ → engine.Iterator → engine.Iterator
  iter_forward zero i = i
  iter_forward (suc step) i = iter_forward step (engine.iter_next i)

  -- `xleveldb_iter_backward`
  unfoldable pub iter_backward : ℕ → engine.Iterator → engine.Iterator
  iter_backward zero i = i
  iter_backward (suc step) i = iter_backward step (engine.iter_prev i)

  -- A move of the iterator behind the pointer that the search returns
  unfoldable pub move_iter :
      Server engine → Bytes → (engine.Iterator → engine.Iterator) → Server engine
  unfolding adjust
  move_iter s id f = record s { dbiter = adjust s.dbiter id (λ e. record e { iter = f e.iter }) }

module _ (env : Env) (req : Request) where
  open env use {engine, kv_find}

  -- The search for the iterator of the handlers, and their return if there is none
  unfoldable pub find_iter : Server engine → Bytes → Check (IterEntry engine)
  unfolding found_or
  find_iter s id = found_or env req (lit "Iterator not found, please check.") (search s.dbiter id)

  -- The end of the handlers that move, behind xleveldb_iter_valid
  unfoldable pub answer_move : Bytes → Bytes → Bool → Answer
  answer_move done failed true =
      sent res_ok (done_response env (query_quiet_check env req) res_ok (lit "OK") done)
  answer_move done failed false = sent res_serverr (
      done_response env (query_quiet_check env req) res_serverr (lit "Internal Server Error")
        failed)

  -- A move and its answer
  unfoldable pub moved :
      Server engine
      → Bytes
      → IterEntry engine
      → (engine.Iterator → engine.Iterator)
      → Bytes
      → Bytes
      → Server engine × Answer
  unfolding move_iter answer_move
  moved s id e f done failed =
      (move_iter env s id f, answer_move done failed (engine.iter_valid (f e.iter)))

  -- The check of the step by safe_strtoul
  unfoldable pub iter_step_check : Bytes → Check ℕ
  iter_step_check step_str = elim (safe_strtoul step_str) [
    | some step ↦ pass step
    | none ↦ stop (
        sent res_badreq
          (response_on_error env req res_badreq (lit "Bad Request") (lit "Step is not numerical.")))
  ]

  -- `URI_rpc_iter_first_cb`
  unfoldable pub iter_first_cb : Server engine → Server engine × Answer
  unfolding query_iter_check find_iter moved
  iter_first_cb s = finish s do
    proto_and_method_sanity_check env req
    id ← query_iter_check env req (lit "Iterator ID must be specified.")
    iter ← find_iter s id
    pass (
        moved s id iter (λ i. engine.iter_seek_to_first i) (lit "Iterator moved to first.")
          (lit "Invalid iterator."))

  -- `URI_rpc_iter_last_cb`
  unfoldable pub iter_last_cb : Server engine → Server engine × Answer
  unfolding query_iter_check find_iter moved
  iter_last_cb s = finish s do
    proto_and_method_sanity_check env req
    id ← query_iter_check env req (lit "Iterator ID must be specified.")
    iter ← find_iter s id
    pass (
        moved s id iter (λ i. engine.iter_seek_to_last i) (lit "Iterator moved to last")
          (lit "Invalid iterator."))

  -- `URI_rpc_iter_next_cb`: the iterator is moved whether it is valid or not.
  unfoldable pub iter_next_cb : Server engine → Server engine × Answer
  unfolding query_iter_check find_iter moved
  iter_next_cb s = finish s do
    proto_and_method_sanity_check env req
    id ← query_iter_check env req (lit "Iterator ID must be specified.")
    iter ← find_iter s id
    pass (
        moved s id iter (λ i. engine.iter_next i) (lit "Iterator moved to the next.")
          (lit "Invalid iterator, out of bounds."))

  -- `URI_rpc_iter_prev_cb`
  unfoldable pub iter_prev_cb : Server engine → Server engine × Answer
  unfolding query_iter_check find_iter moved
  iter_prev_cb s = finish s do
    proto_and_method_sanity_check env req
    id ← query_iter_check env req (lit "Iterator ID must be specified.")
    iter ← find_iter s id
    pass (
        moved s id iter (λ i. engine.iter_prev i) (lit "Iterator moved to the previous")
          (lit "Invalid iterator, out of bounds."))

  -- `URI_rpc_iter_forward_cb`
  unfoldable pub iter_forward_cb : Server engine → Server engine × Answer
  unfolding query_iter_check find_iter moved iter_step_check iter_forward
  iter_forward_cb s = finish s do
    proto_and_method_sanity_check env req
    id ← query_iter_check env req (lit "Iterator ID must be specified.")
    step_str ←
        query_param_sanity_check env req (lit "step")
          (lit "Please set the step you want to move forward")
    step ← iter_step_check step_str
    iter ← find_iter s id
    pass (
        moved s id iter (λ i. iter_forward env step i) (lit "Iterator step forward done")
          (lit "Invalid iterator, out of bounds."))

  -- `URI_rpc_iter_backward_cb`
  unfoldable pub iter_backward_cb : Server engine → Server engine × Answer
  unfolding query_iter_check find_iter moved iter_step_check iter_backward
  iter_backward_cb s = finish s do
    proto_and_method_sanity_check env req
    id ← query_iter_check env req (lit "Iterator ID must be specified.")
    step_str ←
        query_param_sanity_check env req (lit "step")
          (lit "Please set the step you want to move forward")
    step ← iter_step_check step_str
    iter ← find_iter s id
    pass (
        moved s id iter (λ i. iter_backward env step i) (lit "Iterator step backward done")
          (lit "Invalid iterator, out of bounds."))

  -- `URI_rpc_iter_seek_cb`
  unfoldable pub iter_seek_cb : Server engine → Server engine × Answer
  unfolding query_iter_check find_iter moved
  iter_seek_cb s = finish s do
    proto_and_method_sanity_check env req
    id ← query_iter_check env req (lit "Iterator ID must be specified.")
    key ← query_param_sanity_check env req (lit "key") (lit "Please set the key you want to seek")
    iter ← find_iter s id
    pass (
        moved s id iter (λ i. engine.iter_seek i key) (lit "Iterator seek done")
          (lit "Invalid iterator, out of bounds."))
