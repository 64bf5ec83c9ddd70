-- ===== src/Rpc/SwapLaws.antt =====
-- /rpc/cas of src/rpc.c: the swap is made exactly if the stored value is the expected one.
use reveldb.Prelude.{
  ℕ, ◌≡◌, ◌≢◌, ◌↔◌, refl, ap, ◌∙◌, sym, true, ◌&&◌, some, [], ◌∷◌, Bytes, lit, length, bytes_eq,
  ◌==◌, ==_iff, if◌then◌else◌, arith, strlen, NoNul, strlen-NoNul, same_char, Option-cases,
  Bool-cases, inl, inr,
}
use reveldb.Engine.{Contract}
use reveldb.Rpc.Env.{Env, Request}
use reveldb.Rpc.Reply.{sent, res_ok, res_notfound, kv_response}
use reveldb.Rpc.Server.{Server, leveldb_put, leveldb_get}
use reveldb.Rpc.Checks.{finish, ◌>>=◌, ◌>>◌, query_quiet_check}
use reveldb.Rpc.Contents.{value_at, value_at-put, db-get}
use reveldb.Rpc.Asks.{Asks, Gives, param-Gives, find_database-Asks}
use reveldb.Rpc.Swap.{cas_cb, cas_value, answer_cas, answer_absent, strncmp_eq}
use reveldb.Rpc.SetLaws.{status}
use reveldb.Rpc.GetLaws.{Readable, leveldb_get-Readable}
use reveldb.Rpc.Updated.{Writable, err-written}

strncmp_eq_to :
    (a b : Bytes) → NoNul b → length a ≡ length b → strncmp_eq a b (length a) ≡ true → a ≡ b
unfolding strncmp_eq
strncmp_eq_to [] [] z h e = refl
strncmp_eq_to [] (y ∷ b) z h e = absurd (omega arith)
strncmp_eq_to (x ∷ a) [] z h e = absurd (omega arith)
strncmp_eq_to (x ∷ a) (y ∷ b) (p, z) h e =
    same_char (ground arith) (strncmp_eq_to a b z (omega arith) (ground arith))

strncmp_eq_refl : (a : Bytes) → strncmp_eq a a (length a) ≡ true
unfolding strncmp_eq
strncmp_eq_refl [] = refl
strncmp_eq_refl (x ∷ a) = ground (arith, strncmp_eq_refl a)

-- The comparison of the handler, of a value with a C string.
pub strncmp_eq_iff :
    (a b : Bytes) → NoNul b → length a ≡ strlen b → (strncmp_eq a b (length a) ≡ true) ↔ (a ≡ b)
strncmp_eq_iff a b z h =
    (strncmp_eq_to a b z (h ∙ strlen-NoNul b z), λ p. rw (sym p) (strncmp_eq_refl a))

module _ (env : Env) (req : Request) (c : Contract env.engine) (s : Server env.engine) (db : ℕ)
    (key oval nval : Bytes) where
  open env use {engine}

  -- A request of /rpc/cas that passes the checks; its `oval` is a C string, and the read succeeds.
  pub record Swaps : Type 0 where
    pub asks : Asks env req s key db
    pub gives_old : Gives env req (lit "oval") oval
    pub gives_new : Gives env req (lit "nval") nval
    pub c_string : NoNul oval
    pub readable : Readable env c s db key

  abbrev read : Server engine
  read = (leveldb_get s db (s.heap db).roptions key).1

  module _ (e : Swaps) where
    cas_cb-Swaps : cas_cb env req s ≡ cas_value env req read db key oval nval (value_at c s db key)
    unfolding cas_cb finish ◌>>=◌ ◌>>◌
    cas_cb-Swaps = rw (
      e.asks.checked,
      param-Gives env req (lit "key") key _ e.asks.key_arg,
      param-Gives env req (lit "oval") oval _ e.gives_old,
      param-Gives env req (lit "nval") nval _ e.gives_new,
      find_database-Asks env req s key db e.asks,
      leveldb_get-Readable env c s db key e.readable,
    )

    kept : (q : ℕ) (j : Bytes) → value_at c read q j ≡ value_at c s q j
    kept q j = ap (λ d. c.contents d j) (db-get s db q (s.heap db).roptions key)

    cas_value-same :
        cas_value env req read db key oval nval (some oval)
        ≡ answer_cas env req
            (leveldb_put read db key nval)
            db
            key
            oval
            ((leveldb_put read db key nval).heap db).err
    unfolding cas_value
    cas_value-same = rw (
      strlen-NoNul oval e.c_string,
      (==_iff (length oval) (length oval)).1 refl,
      strncmp_eq_refl oval,
    )

    cas_value-other :
        (value : Bytes)
        → value ≢ oval
        → cas_value env req read db key oval nval (some value)
          ≡ (read, answer_absent env req (lit "Value not found."))
    unfolding cas_value
    cas_value-other value n = elim (Bool-cases (length value == strlen oval)) [
      | inr other ↦ rw other
      | inl same ↦ elim (Bool-cases (strncmp_eq value oval (length value))) [
        | inl equal ↦ absurd (
            n (
              (strncmp_eq_iff value oval e.c_string
                  ((==_iff (length value) (strlen oval)).0 same)).0
                equal))
        | inr differs ↦ rw (same, differs)
      ]
    ]

    -- If the key has the value `oval`, a request of /rpc/cas that passes the checks is answered
    -- with it and stores `nval`, where no earlier call left an error and the read and the write
    -- succeed; no other key of any database changes.
    pub cas_cb-swapped :
        value_at c s db key ≡ some oval
        → Writable env req c s db key nval
        → ((cas_cb env req s).1
            ≡ sent res_ok (kv_response env (query_quiet_check env req) key oval))
          × ((q : ℕ) (j : Bytes)
              → value_at c (cas_cb env req s).0 q j
                ≡ (if (q == db) && bytes_eq key j then some nval else value_at c s q j))
    unfolding answer_cas
    cas_cb-swapped h w =
        let done = err-written env req c s db key e.readable nval w in
        rw (cas_cb-Swaps, h, cas_value-same, done, answer_cas)
          (
            refl,
            λ q j.
                value_at-put c read db key nval q j done
                ∙ ap (λ o. if (q == db) && bytes_eq key j then some nval else o) (kept q j),
          )

    -- If the key has no value or another one than `oval`, a request of /rpc/cas that passes the
    -- checks and whose read succeeds is answered with 404 and changes no value of any database.
    pub cas_cb-refused :
        value_at c s db key ≢ some oval
        → (status (cas_cb env req s).1 ≡ res_notfound)
          × ((q : ℕ) (j : Bytes) → value_at c (cas_cb env req s).0 q j ≡ value_at c s q j)
    unfolding answer_absent cas_value
    cas_cb-refused n = elim (Option-cases (value_at c s db key)) [
      | inl absent ↦ rw (cas_cb-Swaps, absent, cas_value) (refl, kept)
      | inr (value, there) ↦
          rw (cas_cb-Swaps, there, cas_value-other value (λ p. n (there ∙ ap some p))) (refl, kept)
    ]
