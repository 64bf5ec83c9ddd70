-- ===== src/Rpc/UpdateLaws.antt =====
-- /rpc/append, /rpc/prepend, /rpc/insert and /rpc/replace of src/rpc.c: the value that a key has
-- behind a request that passes the checks.
use reveldb.Prelude.{
  ℕ, ◌≡◌, ◌≤◌, ◌<◌, ◌∙◌, subst, ◌++◌, some, Bytes, lit, length, take, drop, arith, NoNul,
}
use reveldb.Engine.{Contract}
use reveldb.TString.Edit.{Holds, new_len_lem}
use reveldb.Rpc.Env.{Env, Request}
use reveldb.Rpc.Reply.{res_ok}
use reveldb.Rpc.Server.{Server, leveldb_get}
use reveldb.Rpc.Checks.{finish, ◌>>=◌, ◌>>◌, pass}
use reveldb.Rpc.Contents.{value_at}
use reveldb.Rpc.Asks.{Asks, Gives, param-Gives, find_database-Asks}
use reveldb.Rpc.Update.{
  append_cb, append_value, prepend_cb, prepend_value, insert_cb, insert_value, replace_cb,
  replace_value, position_check,
}
use reveldb.Rpc.SetLaws.{status}
use reveldb.Rpc.GetLaws.{Readable, leveldb_get-Readable}
use reveldb.Rpc.Updated.{
  to_int32-strlen, take_whole, Updated, Writable, put_update-Updated, put_update-failed,
}
use reveldb.Rpc.Texts.{Holds-append, Holds-prepend, Holds-insert}

module _ (env : Env) (req : Request) (c : Contract env.engine) (s : Server env.engine) (db : ℕ)
    (key val old : Bytes) where
  open env use {engine, fill}

  -- A request of the four handlers that passes the checks and finds a value: its argument is a
  -- C string, and the value and the argument are shorter than 2 ^ 31 bytes.
  pub record Edits : Type 0 where
    pub asks : Asks env req s key db
    pub gives : Gives env req (lit "value") val
    pub readable : Readable env c s db key
    pub found : value_at c s db key ≡ some old
    pub c_string : NoNul val
    pub small_old : length old < 2147483648
    pub small_val : length val < 2147483648

  abbrev read : Server engine
  read = (leveldb_get s db (s.heap db).roptions key).1

  module _ (e : Edits) where
    value_read : (leveldb_get s db (s.heap db).roptions key).0 ≡ some old
    value_read = leveldb_get-Readable env c s db key e.readable ∙ e.found

    append_cb-Edits : append_cb env req s ≡ append_value env req read db key val (some old)
    unfolding append_cb finish ◌>>=◌ ◌>>◌
    append_cb-Edits = rw (
      e.asks.checked,
      param-Gives env req (lit "key") key _ e.asks.key_arg,
      param-Gives env req (lit "value") val _ e.gives,
      find_database-Asks env req s key db e.asks,
      value_read,
    )

    prepend_cb-Edits : prepend_cb env req s ≡ prepend_value env req read db key val (some old)
    unfolding prepend_cb finish ◌>>=◌ ◌>>◌
    prepend_cb-Edits = rw (
      e.asks.checked,
      param-Gives env req (lit "key") key _ e.asks.key_arg,
      param-Gives env req (lit "value") val _ e.gives,
      find_database-Asks env req s key db e.asks,
      value_read,
    )

    replace_cb-Edits : replace_cb env req s ≡ replace_value env req read db key val (some old)
    unfolding replace_cb finish ◌>>=◌ ◌>>◌
    replace_cb-Edits = rw (
      e.asks.checked,
      param-Gives env req (lit "key") key _ e.asks.key_arg,
      param-Gives env req (lit "value") val _ e.gives,
      find_database-Asks env req s key db e.asks,
      value_read,
    )

    insert_cb-Edits :
        (p : Bytes) (at : ℕ)
        → Gives env req (lit "pos") p
        → position_check env req p ≡ pass at
        → insert_cb env req s ≡ insert_value env req read db key val at (some old)
    unfolding insert_cb finish ◌>>=◌ ◌>>◌
    insert_cb-Edits p at g h = rw (
      e.asks.checked,
      param-Gives env req (lit "key") key _ e.asks.key_arg,
      param-Gives env req (lit "value") val _ e.gives,
      param-Gives env req (lit "pos") p _ g,
      h,
      find_database-Asks env req s key db e.asks,
      value_read,
    )

    -- /rpc/append on a key that has a value puts the argument behind it, answers with 200 and
    -- changes no other key of any database. The request passes the checks, its argument is a C
    -- string, value and argument are shorter than 2 ^ 31 bytes, no earlier call left an error,
    -- and the read and the write succeed.
    pub append_cb_lem :
        Writable env req c s db key (old ++ val)
        → Updated env req c s db key (lit "Append value done.") (old ++ val) (append_cb env req s)
    unfolding append_value
    append_cb_lem w =
        rw (append_cb-Edits, append_value)
          (put_update-Updated env req c s db key e.readable (lit "Append value done.") (old ++ val)
            _ (Holds-append fill old val e.c_string e.small_old e.small_val) w)

    -- /rpc/prepend on a key that has a value puts the argument in front of it, answers with 200
    -- and changes no other key of any database. The request passes the checks, its argument is
    -- a C string, value and argument are shorter than 2 ^ 31 bytes, no earlier call left an
    -- error, and the read and the write succeed.
    pub prepend_cb_lem :
        Writable env req c s db key (val ++ old)
        → Updated env req c s db key (lit "Prepend value done.") (val ++ old) (prepend_cb env req s)
    unfolding prepend_value
    prepend_cb_lem w =
        rw (prepend_cb-Edits, prepend_value)
          (put_update-Updated env req c s db key e.readable (lit "Prepend value done.") (val ++ old)
            _ (Holds-prepend fill old val e.c_string e.small_old e.small_val) w)

    -- /rpc/insert on a key that has a value puts the argument into it, at a position that is
    -- not behind its end, answers with 200 and changes no other key of any database. The
    -- request passes the checks, its argument is a C string, value and argument are shorter
    -- than 2 ^ 31 bytes, no earlier call left an error, and the read and the write succeed.
    pub insert_cb_lem :
        (p : Bytes) (at : ℕ)
        → Gives env req (lit "pos") p
        → position_check env req p ≡ pass at
        → at ≤ length old
        → Writable env req c s db key (take at old ++ val ++ drop at old)
        → Updated env req c s db key
            (lit "Insert value done.")
            (take at old ++ val ++ drop at old)
            (insert_cb env req s)
    unfolding insert_value
    insert_cb_lem p at g h inside w =
        rw (insert_cb-Edits p at g h, insert_value)
          (put_update-Updated env req c s db key e.readable (lit "Insert value done.")
            (take at old ++ val ++ drop at old) _
            (Holds-insert fill old val e.c_string e.small_old e.small_val at inside) w)

    -- /rpc/replace on a key that has a value puts the argument in its place, answers with 200
    -- and changes no other key of any database. The request passes the checks, its argument is
    -- a C string, value and argument are shorter than 2 ^ 31 bytes, no earlier call left an
    -- error, and the read and the write succeed.
    pub replace_cb_lem :
        Writable env req c s db key val
        → Updated env req c s db key (lit "Replace value done.") val (replace_cb env req s)
    unfolding replace_value
    replace_cb_lem w =
        rw (replace_cb-Edits, replace_value, to_int32-strlen val e.c_string e.small_val)
          (put_update-Updated env req c s db key e.readable (lit "Replace value done.") val _
            (subst (Holds _) (take_whole val)
              (new_len_lem fill val (length val) (omega arith) e.small_val))
            w)

    -- Where the write of /rpc/append fails, the request is answered with the status 200, and
    -- the error stays in the instance. The request passes the checks and finds a value, its
    -- argument is a C string, value and argument are shorter than 2 ^ 31 bytes, and the read
    -- succeeds.
    pub append_cb-failed :
        (message : Bytes)
        → (engine.put (s.heap db).db (s.heap db).woptions key (old ++ val)).1 ≡ some message
        → (status (append_cb env req s).1 ≡ res_ok)
          × (((append_cb env req s).0.heap db).err ≡ some message)
    unfolding append_value
    append_cb-failed message w =
        rw (append_cb-Edits, append_value)
          (put_update-failed env req c s db key e.readable (lit "Append value done.") (old ++ val)
            message _ (Holds-append fill old val e.c_string e.small_old e.small_val) w)
