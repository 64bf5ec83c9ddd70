-- ===== src/Rpc/Frame.antt =====
-- Each handler of src/rpc.c works on the database that its request names, and on nothing else.
use reveldb.Prelude.{
  ℕ, Option, none, some, Bytes, length, strlen, ◌==◌, Bool-cases, Option-cases, inl, inr,
}
use reveldb.Engine.{ReadOptions}
use reveldb.Prelude.Int.{ℤ}
use reveldb.Utility.Decimal.{print_ℤ}
use reveldb.Utility.Parse.{safe_strntoll, Parsed, answer, overflow}
use reveldb.TString.{TString, contents}
use reveldb.Rpc.Env.{Env, Request}
use reveldb.Rpc.Reply.{Answer}
use reveldb.Rpc.Server.{Server, leveldb_put, leveldb_delete, reset_err}
use reveldb.Rpc.Store.{answer_set, answer_seize, answer_del, seize_value, read_through}
use reveldb.Rpc.Update.{
  append_value, prepend_value, insert_value, replace_value, put_update, answer_update,
}
use reveldb.Rpc.Counter.{count_value, put_counter, answer_counter}
use reveldb.Rpc.Swap.{cas_value, answer_cas, strncmp_eq}
use reveldb.Rpc.Isolation.{
  Within, Within-refl, Within-trans, Within-put, Within-delete, Within-get, Within-reset,
}

module _ (env : Env) (req : Request) (s : Server env.engine) where
  open env use {engine}

  module _ (db : ℕ) where
    -- The ends of the handlers, behind a server `t` that is within the database
    pub Within-set :
        (t : Server engine) (e : Option Bytes)
        → Within (some db) s t
        → Within (some db) s (answer_set env req t db e).0
    unfolding answer_set
    Within-set t none w = w
    Within-set t (some e) w = Within-trans (some db) s t (reset_err t db) w (Within-reset t db)

    pub Within-del :
        (t : Server engine) (e : Option Bytes)
        → Within (some db) s t
        → Within (some db) s (answer_del env req t db e).0
    unfolding answer_del
    Within-del t none w = w
    Within-del t (some e) w = Within-trans (some db) s t (reset_err t db) w (Within-reset t db)

    pub Within-seize :
        (t : Server engine) (key : Bytes) (v : Option Bytes)
        → Within (some db) s t
        → Within (some db) s (seize_value env req t db key v).0
    unfolding seize_value answer_seize
    Within-seize t key none w = w
    Within-seize t key (some v) w =
        let u = leveldb_delete t db key in
        let x = Within-trans (some db) s t u w (Within-delete t db key) in
        elim (Option-cases (u.heap db).err) [
          | inl e ↦ rw (e, answer_seize) x
          | inr (m, e) ↦
              rw (e, answer_seize)
                (Within-trans (some db) s u (reset_err u db) x (Within-reset u db))
        ]

    pub Within-put_update :
        (t : Server engine) (key message : Bytes) (o : Option TString)
        → Within (some db) s t
        → Within (some db) s (put_update env req t db key message o).0
    unfolding put_update answer_update
    Within-put_update t key message none w = w
    Within-put_update t key message (some v) w =
        let u = leveldb_put t db key (contents v) in
        let x = Within-trans (some db) s t u w (Within-put t db key (contents v)) in
        elim (Option-cases (u.heap db).err) [
          | inl e ↦ rw (e, answer_update) x
          | inr (m, e) ↦ rw (e, answer_update) x
        ]

    pub Within-append :
        (t : Server engine) (key v : Bytes) (o : Option Bytes)
        → Within (some db) s t
        → Within (some db) s (append_value env req t db key v o).0
    unfolding append_value
    Within-append t key v none w = w
    Within-append t key v (some old) w = Within-put_update t key _ _ w

    pub Within-prepend :
        (t : Server engine) (key v : Bytes) (o : Option Bytes)
        → Within (some db) s t
        → Within (some db) s (prepend_value env req t db key v o).0
    unfolding prepend_value
    Within-prepend t key v none w = w
    Within-prepend t key v (some old) w = Within-put_update t key _ _ w

    pub Within-insert :
        (t : Server engine) (key v : Bytes) (p : ℕ) (o : Option Bytes)
        → Within (some db) s t
        → Within (some db) s (insert_value env req t db key v p o).0
    unfolding insert_value
    Within-insert t key v p none w = w
    Within-insert t key v p (some old) w = Within-put_update t key _ _ w

    pub Within-replace :
        (t : Server engine) (key v : Bytes) (o : Option Bytes)
        → Within (some db) s t
        → Within (some db) s (replace_value env req t db key v o).0
    unfolding replace_value
    Within-replace t key v none w = w
    Within-replace t key v (some old) w = Within-put_update t key _ _ w

    pub Within-counter :
        (t : Server engine) (key message : Bytes) (change : ℤ → ℤ) (o : Parsed)
        → Within (some db) s t
        → Within (some db) s (put_counter env req t db key message change o).0
    unfolding put_counter answer_counter
    Within-counter t key message change overflow w = w
    Within-counter t key message change (answer none) w = w
    Within-counter t key message change (answer (some v)) w =
        let text = print_ℤ (change v) in
        let u = leveldb_put t db key text in
        let x = Within-trans (some db) s t u w (Within-put t db key text) in
        elim (Option-cases (u.heap db).err) [
          | inl e ↦ rw (e, answer_counter) x
          | inr (m, e) ↦ rw (e, answer_counter) x
        ]

    pub Within-count :
        (t : Server engine) (key message : Bytes) (change : ℤ → ℤ) (o : Option Bytes)
        → Within (some db) s t
        → Within (some db) s (count_value env req t db key message change o).0
    unfolding count_value
    Within-count t key message change none w = w
    Within-count t key message change (some v) w =
        Within-counter t key message change (safe_strntoll v (length v)) w

    pub Within-cas_put :
        (t : Server engine) (key nval v : Bytes)
        → Within (some db) s t
        → Within
            (some db)
            s
            (answer_cas env req
              (leveldb_put t db key nval)
              db
              key
              v
              ((leveldb_put t db key nval).heap db).err).0
    unfolding answer_cas
    Within-cas_put t key nval v w =
        let u = leveldb_put t db key nval in
        let x = Within-trans (some db) s t u w (Within-put t db key nval) in
        elim (Option-cases (u.heap db).err) [
          | inl e ↦ rw (e, answer_cas) x
          | inr (m, e) ↦
              rw (e, answer_cas) (Within-trans (some db) s u (reset_err u db) x (Within-reset u db))
        ]

    pub Within-cas :
        (t : Server engine) (key oval nval : Bytes) (o : Option Bytes)
        → Within (some db) s t
        → Within (some db) s (cas_value env req t db key oval nval o).0
    unfolding cas_value
    Within-cas t key oval nval none w = w
    Within-cas t key oval nval (some v) w = elim (Bool-cases (length v == strlen oval)) [
      | inr other ↦ rw other w
      | inl same ↦ elim (Bool-cases (strncmp_eq v oval (length v))) [
        | inl equal ↦ rw (same, equal) (Within-cas_put t key nval v w)
        | inr differs ↦ rw (same, differs) w
      ]
    ]

    -- A read through the options that the request asks for
    pub Within-read :
        (key : Bytes) (f : Option Bytes → Answer) (o : Option (ReadOptions engine.Snapshot))
        → Within (some db) s (read_through env req s db key f o).0
    unfolding read_through
    Within-read key f none = Within-refl (some db) s
    Within-read key f (some o) = Within-get s db o key
