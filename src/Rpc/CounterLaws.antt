-- ===== src/Rpc/CounterLaws.antt =====
-- /rpc/incr and /rpc/decr of src/rpc.c as operations on integers that the store holds as text.
use reveldb.Prelude.{ℕ, ◌≡◌, ◌∙◌, some, Bytes, lit, arith}
use reveldb.Prelude.Int.{ℤ, pos, negsuc, ◌+ℤ◌, ◌-ℤ◌}
use reveldb.Engine.{Contract}
use reveldb.Utility.Decimal.{print_ℤ}
use reveldb.Utility.RoundTrip.{InLong, safe_strtoll-print_ℤ, safe_strntoll-print_ℤ}
use reveldb.Rpc.Env.{Env, Request}
use reveldb.Rpc.Server.{Server, leveldb_put, leveldb_get}
use reveldb.Rpc.Checks.{finish, ◌>>=◌, ◌>>◌, pass}
use reveldb.Rpc.Contents.{value_at}
use reveldb.Rpc.Asks.{Asks, Gives, param-Gives, find_database-Asks}
use reveldb.Rpc.Update.{answer_update}
use reveldb.Rpc.Counter.{
  incr_cb, decr_cb, step_check, count_value, put_counter, answer_counter, wrap64,
}
use reveldb.Rpc.GetLaws.{Readable, leveldb_get-Readable}
use reveldb.Rpc.Updated.{Updated, Writable, written-Updated, err-written}

pub wrap64-InLong : (v : ℤ) → InLong v → wrap64 v ≡ v
unfolding wrap64
wrap64-InLong (pos n) h = ground arith
wrap64-InLong (negsuc n) h = ground arith

module _ (env : Env) (req : Request) (c : Contract env.engine) (s : Server env.engine) (db : ℕ)
    (key : Bytes) where
  open env use {engine}

  abbrev read : Server engine
  read = (leveldb_get s db (s.heap db).roptions key).1

  -- A request of /rpc/incr or /rpc/decr that passes the checks, with the text of `step`, on a key
  -- that holds the text of `value`.
  pub record Counts (value step : ℤ) : Type 0 where
    pub asks : Asks env req s key db
    pub gives : Gives env req (lit "step") (print_ℤ step)
    pub step_range : InLong step
    pub readable : Readable env c s db key
    pub found : value_at c s db key ≡ some (print_ℤ value)
    pub value_range : InLong value

  module _ (value step : ℤ) (e : Counts value step) where
    value_read : (leveldb_get s db (s.heap db).roptions key).0 ≡ some (print_ℤ value)
    value_read = leveldb_get-Readable env c s db key e.readable ∙ e.found

    step_check-Counts : step_check env req (print_ℤ step) ≡ pass step
    unfolding step_check
    step_check-Counts = rw (safe_strtoll-print_ℤ step e.step_range, step_check)

    -- The value that the handlers store, behind the read
    count_value-Counts :
        (message : Bytes) (change : ℤ → ℤ)
        → count_value env req read db key message change (some (print_ℤ value))
          ≡ answer_counter env req
              (leveldb_put read db key (print_ℤ (change value)))
              message
              ((leveldb_put read db key (print_ℤ (change value))).heap db).err
    unfolding count_value put_counter
    count_value-Counts message change = rw (safe_strntoll-print_ℤ value e.value_range)

    answer_counter-Updated :
        (message text : Bytes)
        → Writable env req c s db key text
        → Updated env req c s db key message text (
            answer_counter env req
              (leveldb_put read db key text)
              message
              ((leveldb_put read db key text).heap db).err)
    unfolding answer_counter answer_update
    answer_counter-Updated message text w =
        let updated = written-Updated env req c s db key e.readable message text w in
        let done = err-written env req c s db key e.readable text w in
        rw (done, answer_counter) (rw (done, answer_update) at updated)

    incr_cb-Counts :
        incr_cb env req s
        ≡ count_value env req read db key
            (lit "Incr value done.")
            (λ v. wrap64 (v +ℤ step))
            (some (print_ℤ value))
    unfolding incr_cb finish ◌>>=◌ ◌>>◌
    incr_cb-Counts = rw (
      e.asks.checked,
      param-Gives env req (lit "key") key _ e.asks.key_arg,
      param-Gives env req (lit "step") (print_ℤ step) _ e.gives,
      step_check-Counts,
      find_database-Asks env req s key db e.asks,
      value_read,
    )

    decr_cb-Counts :
        decr_cb env req s
        ≡ count_value env req read db key
            (lit "Decr value done.")
            (λ v. wrap64 (v -ℤ step))
            (some (print_ℤ value))
    unfolding decr_cb finish ◌>>=◌ ◌>>◌
    decr_cb-Counts = rw (
      e.asks.checked,
      param-Gives env req (lit "key") key _ e.asks.key_arg,
      param-Gives env req (lit "step") (print_ℤ step) _ e.gives,
      step_check-Counts,
      find_database-Asks env req s key db e.asks,
      value_read,
    )

    -- /rpc/incr on a key that has the text of an integer stores the text of its sum with the
    -- step, answers with 200 and changes no other key of any database. The request passes the
    -- checks, the integer, the step and the sum are in the range of `long long`, no earlier
    -- call left an error, and the read and the write succeed.
    pub incr_cb_lem :
        InLong (value +ℤ step)
        → Writable env req c s db key (print_ℤ (value +ℤ step))
        → Updated env req c s db key
            (lit "Incr value done.")
            (print_ℤ (value +ℤ step))
            (incr_cb env req s)
    incr_cb_lem h w =
        rw (incr_cb-Counts, count_value-Counts, wrap64-InLong (value +ℤ step) h)
          (answer_counter-Updated (lit "Incr value done.") (print_ℤ (value +ℤ step)) w)

    -- /rpc/decr on a key that has the text of an integer stores the text of its difference with
    -- the step, answers with 200 and changes no other key of any database. The request passes
    -- the checks, the integer, the step and the difference are in the range of `long long`, no
    -- earlier call left an error, and the read and the write succeed.
    pub decr_cb_lem :
        InLong (value -ℤ step)
        → Writable env req c s db key (print_ℤ (value -ℤ step))
        → Updated env req c s db key
            (lit "Decr value done.")
            (print_ℤ (value -ℤ step))
            (decr_cb env req s)
    decr_cb_lem h w =
        rw (decr_cb-Counts, count_value-Counts, wrap64-InLong (value -ℤ step) h)
          (answer_counter-Updated (lit "Decr value done.") (print_ℤ (value -ℤ step)) w)
