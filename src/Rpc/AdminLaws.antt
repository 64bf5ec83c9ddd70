-- ===== src/Rpc/AdminLaws.antt =====
-- The answers of /rpc/size and /rpc/property of src/rpc.c.
use reveldb.Prelude.{
  ℕ, ◌≡◌, refl, sym, subst, false, none, some, Bytes, lit, bytes_eq, bytes_eq_iff, Bool-cases, inl,
  inr,
}
use reveldb.Registry.{search}
use reveldb.Rpc.Env.{Env, Request}
use reveldb.Rpc.Reply.{sent, fault, res_ok}
use reveldb.Rpc.Bodies.{size_response}
use reveldb.Rpc.Server.{Server}
use reveldb.Rpc.Checks.{
  pass, ◌>>=◌, ◌>>◌, finish, proto_and_method_sanity_check, query_quiet_check, query_database,
  find_database,
}
use reveldb.Rpc.Asks.{Gives, param-Gives}
use reveldb.Rpc.Admin.{
  size_cb, answer_size, is_invalid, property_check, answer_property, property_cb,
}

module _ (env : Env) (req : Request) where
  open env use {engine, kv_find}

  module _ (s : Server env.engine) (db : ℕ) where
    -- A request on an open database
    pub record Reaches : Type 0 where
      pub checked : proto_and_method_sanity_check env req ≡ pass tt
      pub database : search s.reveldb (query_database env req s) ≡ some db

    find_database-Reaches : Reaches → find_database env req s ≡ pass db
    unfolding find_database
    find_database-Reaches r = rw (r.database, find_database)

    -- A request of /rpc/size on an open database is answered with the size that LevelDB gives; without
    -- a limit a NULL pointer is read.
    pub size_cb_lem :
        Reaches
        → (start_key : Bytes) → Gives env req (lit "start") start_key
        → ((limit_key : Bytes)
            → Gives env req (lit "limit") limit_key
            → (size_cb env req s).1
              ≡ sent res_ok (
                  size_response env start_key limit_key
                    (engine.approximate_size (s.heap db).db start_key limit_key)
                    (query_quiet_check env req)))
          × (kv_find req.query (lit "limit") ≡ none → (size_cb env req s).1 ≡ fault)
    unfolding size_cb answer_size finish ◌>>=◌ ◌>>◌
    size_cb_lem r start_key h =
        let reached : size_cb env req s
            ≡ (s, answer_size env req s db start_key (kv_find req.query (lit "limit"))) =
          rw
            (r.checked, param-Gives env req (lit "start") start_key _ h, find_database-Reaches r) in
        rw reached (λ limit_key l. rw (l, answer_size), λ l. rw (l, answer_size))

    not_stats : bytes_eq (lit "leveldb.stats") (lit "leveldb.sstables") ≡ false
    unfolding lit bytes_eq
    not_stats = refl

    -- No text is equal to two of the names.
    is_invalid_lem : (property : Bytes) → is_invalid env req property ≡ false
    unfolding is_invalid
    is_invalid_lem property = elim (Bool-cases (bytes_eq property (lit "leveldb.stats"))) [
      | inl same ↦
          let other : bytes_eq property (lit "leveldb.sstables") ≡ false =
            subst (λ p. bytes_eq p (lit "leveldb.sstables") ≡ false)
              (sym ((bytes_eq_iff property (lit "leveldb.stats")).0 same)) not_stats in
          rw (same, other)
      | inr other ↦ rw other
    ]

    -- /rpc/property passes every property on to LevelDB, as its check rejects none: a request
    -- on an open database that names a property is answered by what LevelDB returns for it, and
    -- nothing of the server changes.
    pub property_cb_lem :
        Reaches
        → (property : Bytes) → Gives env req (lit "property") property
        → property_cb env req s
          ≡ (s, answer_property env req (engine.property_value (s.heap db).db property))
    unfolding property_cb property_check finish ◌>>=◌ ◌>>◌
    property_cb_lem r property h =
        let valid : property_check env req property ≡ pass tt =
          rw (is_invalid_lem property, property_check) in
        rw (
          r.checked,
          param-Gives env req (lit "property") property _ h,
          valid,
          find_database-Reaches r,
        )
