-- ===== src/Rpc/Serve.antt =====
-- Requests of src/rpc.c, one and many, change the databases that they name, and nothing else.
use reveldb.Prelude.{◌≡◌, ◌≢◌, refl, ◌∙◌, sym, ℕ, Option, some, Bytes, List, [], ◌∷◌}
use reveldb.Rpc.Env.{Env, Request}
use reveldb.Rpc.Server.{Server, leveldb_get}
use reveldb.Rpc.Checks.{query_database}
use reveldb.Rpc.Store.{
  set_cb, add_cb, get_cb, check_cb, exists_cb, seize_cb, del_cb, answer_get, answer_exists,
}
use reveldb.Rpc.Update.{append_cb, prepend_cb, insert_cb, replace_cb}
use reveldb.Rpc.Counter.{incr_cb, decr_cb}
use reveldb.Rpc.Swap.{cas_cb}
use reveldb.Rpc.Dispatch.{
  Command, add, set, get, check, exists, seize, del, append, prepend, insert, replace, incr, decr,
  cas, serve, serve_all,
}
use reveldb.Rpc.Isolation.{
  Within, Within-put, Within-delete, Within-get, Within-pass, Within-then, Within-check,
  Within-find, target,
}
use reveldb.Rpc.Frame.{
  Within-set, Within-del, Within-seize, Within-append, Within-prepend, Within-insert,
  Within-replace, Within-count, Within-cas, Within-read,
}

module _ (env : Env) (req : Request) (s : Server env.engine) where
  -- The read that most handlers begin with
  read_value :
      (db : ℕ) (key : Bytes) → Within (some db) s (leveldb_get s db (s.heap db).roptions key).1
  read_value db key = Within-get s db (s.heap db).roptions key

  -- Serving a request, of whatever handler on one key and with whatever arguments, changes the
  -- store and the error of the database that it names at most: the registries, the
  -- configuration, the options and every other database stay as they are, and all of it if no
  -- database has the name.
  pub serve-Within : (cmd : Command) → Within (target env req s) s (serve env cmd req s).0
  unfolding serve add_cb set_cb get_cb check_cb exists_cb seize_cb del_cb append_cb prepend_cb
      insert_cb replace_cb incr_cb decr_cb cas_cb
  serve-Within set = Within-then _ s _ _ (
      Within-check _ s _ _ λ key. Within-check _ s _ _ λ value.
        Within-find env req s _
          λ db. Within-pass _ s _ (Within-set env req s db _ _ (Within-put s db key value)))
  serve-Within add = Within-then _ s _ _ (
      Within-check _ s _ _ λ key. Within-check _ s _ _ λ value.
        Within-find env req s _
          λ db. Within-pass _ s _ (Within-set env req s db _ _ (Within-put s db key value)))
  serve-Within get = Within-then _ s _ _ (
      Within-check _ s _ _ λ key.
        Within-find env req s _
          λ db. Within-pass _ s _ (Within-read env req s db key (answer_get env req key) _))
  serve-Within check = Within-then _ s _ _ (
      Within-check _ s _ _ λ key.
        Within-find env req s _
          λ db. Within-pass _ s _ (Within-read env req s db key (answer_exists env req) _))
  serve-Within exists = Within-then _ s _ _ (
      Within-check _ s _ _ λ key.
        Within-find env req s _
          λ db. Within-pass _ s _ (Within-read env req s db key (answer_exists env req) _))
  serve-Within seize = Within-then _ s _ _ (
      Within-check _ s _ _ λ key.
        Within-find env req s _
          λ db. Within-pass _ s _ (Within-seize env req s db _ key _ (read_value db key)))
  serve-Within del = Within-then _ s _ _ (
      Within-check _ s _ _ λ key.
        Within-find env req s _
          λ db. Within-pass _ s _ (Within-del env req s db _ _ (Within-delete s db key)))
  serve-Within append = Within-then _ s _ _ (
      Within-check _ s _ _ λ key. Within-check _ s _ _ λ value.
        Within-find env req s _
          λ db. Within-pass _ s _ (Within-append env req s db _ key value _ (read_value db key)))
  serve-Within prepend = Within-then _ s _ _ (
      Within-check _ s _ _ λ key. Within-check _ s _ _ λ value.
        Within-find env req s _
          λ db. Within-pass _ s _ (Within-prepend env req s db _ key value _ (read_value db key)))
  serve-Within insert = Within-then _ s _ _ (
      Within-check _ s _ _ λ key. Within-check _ s _ _ λ value. Within-check _ s _ _ λ p.
        Within-check _ s _ _ λ pos. Within-find env req s _ λ db.
          Within-pass _ s _ (Within-insert env req s db _ key value pos _ (read_value db key)))
  serve-Within replace = Within-then _ s _ _ (
      Within-check _ s _ _ λ key. Within-check _ s _ _ λ value.
        Within-find env req s _
          λ db. Within-pass _ s _ (Within-replace env req s db _ key value _ (read_value db key)))
  serve-Within incr = Within-then _ s _ _ (
      Within-check _ s _ _ λ key. Within-check _ s _ _ λ step. Within-check _ s _ _ λ llstep.
        Within-find env req s _
          λ db. Within-pass _ s _ (Within-count env req s db _ key _ _ _ (read_value db key)))
  serve-Within decr = Within-then _ s _ _ (
      Within-check _ s _ _ λ key. Within-check _ s _ _ λ step. Within-check _ s _ _ λ llstep.
        Within-find env req s _
          λ db. Within-pass _ s _ (Within-count env req s db _ key _ _ _ (read_value db key)))
  serve-Within cas = Within-then _ s _ _ (
      Within-check _ s _ _ λ key. Within-check _ s _ _ λ oval. Within-check _ s _ _ λ nval.
        Within-find env req s _
          λ db. Within-pass _ s _ (Within-cas env req s db _ key oval nval _ (read_value db key)))

-- No request names the database `q`.
abbrev pub Avoids : (env : Env) → ℕ → Server env.engine → List (Command × Request) → Type 0
Avoids env q s [] = Unit {0}
Avoids env q s ((cmd, req) ∷ more) = (target env req s ≢ some q) × Avoids env q s more

module _ (env : Env) (s t : Server env.engine) (o : Option ℕ) (w : Within o s t) where
  target-Within : (req : Request) → target env req t ≡ target env req s
  unfolding query_database
  target-Within req = rw (w.same_registry, w.same_config)

  Avoids-Within :
      (q : ℕ) (requests : List (Command × Request))
      → Avoids env q s requests
      → Avoids env q t requests
  Avoids-Within q [] a = tt
  Avoids-Within q ((cmd, req) ∷ more) (n, a) =
      (λ h. n (sym (target-Within req) ∙ h), Avoids-Within q more a)

-- A database that no request of a sequence names, under the registry that the sequence starts
-- with, is the same behind it, whatever the requests of the handlers on one key are; so are the
-- four registries, the database configuration and the data directory.
pub serve_all-Avoids :
    (env : Env) (requests : List (Command × Request)) (s : Server env.engine) (q : ℕ)
    → Avoids env q s requests
    → ((serve_all env requests s).heap q ≡ s.heap q)
      × ((serve_all env requests s).reveldb ≡ s.reveldb)
      × ((serve_all env requests s).dbsnapshot ≡ s.dbsnapshot)
      × ((serve_all env requests s).dbiter ≡ s.dbiter)
      × ((serve_all env requests s).dbwritebatch ≡ s.dbwritebatch)
      × ((serve_all env requests s).db_config ≡ s.db_config)
      × ((serve_all env requests s).datadir ≡ s.datadir)
unfolding serve_all
serve_all-Avoids env [] s q a = (refl, refl, refl, refl, refl, refl, refl)
serve_all-Avoids env ((cmd, req) ∷ more) s q (n, a) =
    let t = (serve env cmd req s).0 in
    let w = serve-Within env req s cmd in
    let (h, r, d, i, b, c, p) =
      serve_all-Avoids env more t q (Avoids-Within env s t (target env req s) w q more a) in
    (
      h ∙ w.elsewhere q n,
      r ∙ w.same_registry,
      d ∙ w.same_snapshots,
      i ∙ w.same_iters,
      b ∙ w.same_batches,
      c ∙ w.same_config,
      p ∙ w.same_datadir,
    )

-- What no request changes
pub serve_all-registries :
    (env : Env) (requests : List (Command × Request)) (s : Server env.engine)
    → ((serve_all env requests s).reveldb ≡ s.reveldb)
      × ((serve_all env requests s).dbsnapshot ≡ s.dbsnapshot)
      × ((serve_all env requests s).db_config ≡ s.db_config)
unfolding serve_all
serve_all-registries env [] s = (refl, refl, refl)
serve_all-registries env ((cmd, req) ∷ more) s =
    let w = serve-Within env req s cmd in
    let (r, d, c) = serve_all-registries env more (serve env cmd req s).0 in
    (r ∙ w.same_registry, d ∙ w.same_snapshots, c ∙ w.same_config)
