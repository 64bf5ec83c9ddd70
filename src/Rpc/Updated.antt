-- ===== src/Rpc/Updated.antt =====
-- What the handlers /rpc/append, /rpc/prepend, /rpc/insert and /rpc/replace of src/rpc.c have in
-- common: a new text is built in a `tstring_t` and written over the old value.
use reveldb.Prelude.{
  ℕ, ◌≡◌, ◌<◌, refl, ap, ◌∙◌, sym, subst, ◌&&◌, Option, none, some, Bytes, lit, length, take,
  bytes_eq, ◌==◌, if◌then◌else◌, arith, strlen, NoNul, strlen-NoNul,
}
use mathlib.Core.Option
use reveldb.Prelude.Int.{pos}
use reveldb.Engine.{Contract}
use reveldb.TString.{TString, IsValid, contents}
use reveldb.TString.Ops.{new_len}
use reveldb.TString.Edit.{Holds, new_len_lem}
use reveldb.TString.Memory.{take_all}
use reveldb.Rpc.Env.{Env, Request}
use reveldb.Rpc.Reply.{Answer, sent, res_ok, done_response}
use reveldb.Rpc.Server.{Server, leveldb_put, leveldb_get}
use reveldb.Rpc.Checks.{query_quiet_check}
use reveldb.Rpc.Contents.{value_at, value_at-put, db-get}
use reveldb.Rpc.Update.{to_int32, answer_update, put_update}
use reveldb.Rpc.SetLaws.{status}
use reveldb.Rpc.GetLaws.{Readable}

-- A size below 2 ^ 31 is passed on as it is.
pub to_int32_small : (n : ℕ) → n < 2147483648 → to_int32 n ≡ pos n
to_int32_small n h = ground arith

-- A C string is passed on whole.
pub to_int32-strlen :
    (val : Bytes) → NoNul val → length val < 2147483648 → to_int32 (strlen val) ≡ pos (length val)
to_int32-strlen val z h = rw (strlen-NoNul val z) (to_int32_small (length val) h)

pub take_whole : (val : Bytes) → take (length val) val ≡ val
take_whole val = take_all (length val) val (omega arith)

pub Holds-bind :
    (o : Option TString) (f : TString → Option TString) (c d : Bytes)
    → Holds o c
    → ((t : TString) → IsValid t → contents t ≡ c → Holds (f t) d)
    → Holds (Option.bind o f) d
unfolding Option.bind
Holds-bind o f c d h k =
    subst (λ p. Holds (Option.bind p f) d) (sym h.returned) (k h.result h.valid h.text)

-- The new string that the handlers make of the old value.
pub Holds-old :
    (fill : ℕ → ℕ) (old : Bytes)
    → length old < 2147483648
    → Holds (new_len fill (some old) (to_int32 (length old))) old
Holds-old fill old h = rw (to_int32_small (length old) h) (
    subst (Holds (new_len fill (some old) (pos (length old)))) (take_whole old)
      (new_len_lem fill old (length old) (omega arith) h))

module _ (env : Env) (req : Request) (c : Contract env.engine) (s : Server env.engine) (db : ℕ)
    (key : Bytes) where
  open env use {engine}

  -- The request is answered with 200, its key has the value `text`, and every other key of every
  -- database the value it had in `s`.
  abbrev pub Updated : Bytes → Bytes → Server engine × Answer → Type 0
  Updated message text r =
      (r.1 ≡ sent res_ok (done_response env (query_quiet_check env req) res_ok (lit "OK") message))
      × ((q : ℕ) (j : Bytes)
          → value_at c r.0 q j
            ≡ (if (q == db) && bytes_eq key j then some text else value_at c s q j))

  -- No call before the request left an error in the instance, and the write of `text` that the
  -- request makes succeeds.
  pub record Writable (text : Bytes) : Type 0 where
    pub clean : (s.heap db).err ≡ none
    pub written : (engine.put (s.heap db).db (s.heap db).woptions key text).1 ≡ none

  module _ (r : Readable env c s db key) where
    abbrev read : Server engine
    read = (leveldb_get s db (s.heap db).roptions key).1

    pub err-written :
        (text : Bytes) → Writable text → ((leveldb_put read db key text).heap db).err ≡ none
    unfolding leveldb_get leveldb_put
    err-written text w = ground (arith, r.no_error, w.clean, w.written)

    err-failed :
        (text e : Bytes)
        → (engine.put (s.heap db).db (s.heap db).woptions key text).1 ≡ some e
        → ((leveldb_put read db key text).heap db).err ≡ some e
    unfolding leveldb_get leveldb_put
    err-failed text e h = ground (arith, r.no_error, h)

    -- Behind the read, a write of the text without an error updates the key.
    pub written-Updated :
        (message text : Bytes)
        → Writable text
        → Updated message text (
            answer_update env req
              (leveldb_put read db key text)
              message
              ((leveldb_put read db key text).heap db).err)
    unfolding answer_update
    written-Updated message text w =
        let e = err-written text w in
        rw (e, answer_update)
          (
            refl,
            λ q j.
                value_at-put c read db key text q j e
                ∙ ap (λ o. if (q == db) && bytes_eq key j then some text else o)
                    (ap (λ d. c.contents d j) (db-get s db q (s.heap db).roptions key)),
          )

    -- So does the string that the handlers build.
    pub put_update-Updated :
        (message text : Bytes) (o : Option TString)
        → Holds o text
        → Writable text
        → Updated message text (put_update env req read db key message o)
    unfolding put_update
    put_update-Updated message text o h w =
        rw (h.returned, put_update, h.text) (written-Updated message text w)

    -- A write that fails is answered with the status 200 nevertheless, and leaves its error in
    -- the instance.
    pub put_update-failed :
        (message text e : Bytes) (o : Option TString)
        → Holds o text
        → (engine.put (s.heap db).db (s.heap db).woptions key text).1 ≡ some e
        → (status (put_update env req read db key message o).1 ≡ res_ok)
          × (((put_update env req read db key message o).0.heap db).err ≡ some e)
    unfolding put_update answer_update
    put_update-failed message text e o h w =
        let f = err-failed text e w in
        rw (h.returned, put_update, h.text, f, answer_update)
          (refl, ap (λ t. ((leveldb_put read db key t).heap db).err) h.text ∙ f)
