-- ===== src/Rpc/Range.antt =====
-- The handlers /rpc/range and /rpc/remove of src/rpc.c: loops over an iterator from one key to
-- another, on fuel.
use reveldb.Prelude.{
  ℕ, zero, suc, Bool, true, false, ◌&&◌, Option, none, some, List, [], ◌∷◌, Bytes, lit, ◌==◌,
  strlen, length, if◌then◌else◌,
}
use reveldb.Rpc.Env.{Env, Request}
use reveldb.Rpc.Reply.{Answer, sent, fault, res_ok, res_nocontent, done_response}
use reveldb.Rpc.Bodies.{kvs_response}
use reveldb.Rpc.Server.{Server, leveldb_delete, reset_err}
use reveldb.Rpc.Swap.{strncmp_eq}
use reveldb.Rpc.Checks.{
  Check, pass, stop, ◌>>◌, proto_and_method_sanity_check, query_quiet_check, find_database,
}

-- The test for the end of the range, with `has_end_key`
unfoldable pub is_end_key : Option Bytes → Bytes → Bool
unfolding strncmp_eq
is_end_key none key = false
is_end_key (some end_key) key =
    (strlen end_key == length key) && strncmp_eq key end_key (length key)

-- How a loop over an iterator ends: with pairs, at a NULL pointer that is read, or out of fuel.
pub data Listing : Type 0 where
  listed : List (Bytes × Bytes) → Listing
  crashed : Listing
  running : Listing

unfoldable pub list_first : Bytes → Bytes → Listing → Listing
list_first key value (listed kvs) = listed ((key, value) ∷ kvs)
list_first key value crashed = crashed
list_first key value running = running

-- How the loop of /rpc/remove ends
pub data Ending : Type 0 where
  done : Ending
  null_key : Ending
  no_fuel : Ending

module _ (env : Env) where
  open env use {engine}

  -- The loop of `URI_rpc_range_cb`
  unfoldable pub range_loop : ℕ → Option Bytes → engine.Iterator → Listing
  unfolding is_end_key list_first
  range_loop zero end i = running
  range_loop (suc fuel) end i =
      let rest = range_loop fuel end (engine.iter_next i) in
      if engine.iter_valid i
      then elim (engine.iter_key i) [
        | none ↦ crashed
        | some key ↦
            if is_end_key end key
            then listed []
            else elim (engine.iter_value i) [ none ↦ rest | some value ↦ list_first key value rest ]
      ]
      else listed []

  -- xleveldb_reset_err if the call left an error
  unfoldable pub drop_err : Server engine → ℕ → Server engine
  drop_err s db = elim (s.heap db).err [ none ↦ s | some e ↦ reset_err s db ]

  -- The loop of `URI_rpc_remove_cb`: an error of leveldb_delete is dropped.
  unfoldable pub remove_loop :
      ℕ → Server engine → ℕ → Option Bytes → engine.Iterator → Server engine × Ending
  unfolding is_end_key drop_err
  remove_loop zero s db end i = (s, no_fuel)
  remove_loop (suc fuel) s db end i = elim (engine.iter_valid i) [
    | false ↦ (s, done)
    | true ↦ elim (engine.iter_key i) [
      | none ↦ (s, null_key)
      | some key ↦ elim (is_end_key end key) [
        | true ↦ (s, done)
        | false ↦
            remove_loop fuel (drop_err (leveldb_delete s db key) db) db end (engine.iter_next i)
      ]
    ]
  ]

  -- The seek to the start of the range; behind it both handlers assert that the iterator is valid.
  unfoldable pub seek_start : Option Bytes → engine.Iterator → engine.Iterator
  seek_start none i = engine.iter_seek_to_first i
  seek_start (some start_key) i = engine.iter_seek i start_key

module _ (env : Env) (req : Request) where
  open env use {engine, kv_find}

  -- The iterator that both handlers start from
  unfoldable pub start_iter : Server engine → ℕ → engine.Iterator
  unfolding seek_start
  start_iter s db =
      seek_start env (kv_find req.query (lit "start"))
        (engine.create_iterator (s.heap db).db (s.heap db).roptions)

  -- The checks of both handlers
  unfoldable pub range_check : Server engine → Check ℕ
  range_check s = do proto_and_method_sanity_check env req; find_database env req s

  -- The end of `URI_rpc_range_cb`; `none` if the fuel does not suffice
  unfoldable pub answer_range : Listing → Option Answer
  answer_range (listed kvs) = some (sent res_ok (kvs_response env (query_quiet_check env req) kvs))
  answer_range crashed = some fault
  answer_range running = none

  -- `URI_rpc_range_cb`
  unfoldable pub range_cb : ℕ → Server engine → Option (Server engine × Answer)
  unfolding range_check start_iter answer_range range_loop
  range_cb fuel s = elim (range_check s) [
    | stop a ↦ some (s, a)
    | pass db ↦
        let i = start_iter s db in
        elim (engine.iter_valid i) [
          | false ↦ some (s, fault)
          | true ↦ elim (answer_range (range_loop env fuel (kv_find req.query (lit "end")) i)) [
            | none ↦ none
            | some a ↦ some (s, a)
          ]
        ]
  ]

  -- The end of `URI_rpc_remove_cb`: the status is 200, the code of the body 204.
  unfoldable pub answer_remove : Server engine × Ending → Option (Server engine × Answer)
  answer_remove (s, done) = some (
    s,
    sent res_ok (
        done_response env (query_quiet_check env req) res_nocontent (lit "No Content")
          (lit "Range remove done.")),
  )
  answer_remove (s, null_key) = some (s, fault)
  answer_remove (s, no_fuel) = none

  -- `URI_rpc_remove_cb`
  unfoldable pub remove_cb : ℕ → Server engine → Option (Server engine × Answer)
  unfolding range_check start_iter answer_remove remove_loop
  remove_cb fuel s = elim (range_check s) [
    | stop a ↦ some (s, a)
    | pass db ↦
        let i = start_iter s db in
        elim (engine.iter_valid i) [
          | false ↦ some (s, fault)
          | true ↦ answer_remove (remove_loop env fuel s db (kv_find req.query (lit "end")) i)
        ]
  ]
