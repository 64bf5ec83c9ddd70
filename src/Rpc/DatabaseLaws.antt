-- ===== src/Rpc/DatabaseLaws.antt =====
-- The registry behind /rpc/new and /rpc/destroy of src/rpc.c.
use reveldb.Prelude.{ℕ, ◌≡◌, refl, Option, none, some, Bytes, lit, bytes_eq, ==_iff, if◌then◌else◌}
use reveldb.TString.{TString, contents}
use reveldb.Registry.{Balancer, KeepsOrder, in_order, search}
use reveldb.Registry.Order.{IsSorted}
use reveldb.Registry.Laws.{search-erase}
use reveldb.Rpc.Env.{Env, Request}
use reveldb.Rpc.Server.{Server, store_at, reset_err}
use reveldb.Rpc.Checks.{pass, ◌>>=◌, ◌>>◌, finish, proto_and_method_sanity_check}
use reveldb.Rpc.Asks.{Gives, param-Gives}
use reveldb.Rpc.Snapshot.{found_or}
use reveldb.Rpc.Database.{
  full_path, path_or_fault, done_200, error_200, answer_destroy, close_and_destroy, destroy_cb,
}

module _ (env : Env) (req : Request) (rb : Balancer ℕ) (ko : KeepsOrder rb) (s : Server env.engine)
    (dbname : Bytes) (path : TString) where
  open env use {engine}

  -- A request that names a database, whose path tstring.c builds
  pub record NamesDb : Type 0 where
    pub checked : proto_and_method_sanity_check env req ≡ pass tt
    pub db_arg : Gives env req (lit "db") dbname
    pub built : full_path env.fill s.datadir dbname ≡ some path
    pub sorted : IsSorted (in_order s.reveldb)

  path-NamesDb :
      NamesDb → path_or_fault env req (full_path env.fill s.datadir dbname) ≡ pass (contents path)
  unfolding path_or_fault
  path-NamesDb r = rw (r.built, path_or_fault)

  -- If LevelDB destroys the files without an error, /rpc/destroy takes the database out of the
  -- registry, with all other names as before. If LevelDB leaves an error, the status is 200 as
  -- well, the body has the error, and the database stays in the registry with its store closed.
  -- The request passes the checks and names an open database without an earlier error in a
  -- sorted registry, tstring.c builds its path, and the balancing code keeps the order.
  pub destroy_cb_lem :
      NamesDb
      → (db : ℕ) (destroyed : Bytes → Option Bytes) → search s.reveldb dbname ≡ some db
      → (s.heap db).err ≡ none
      → (destroyed (contents path) ≡ none
          → ((destroy_cb env req rb destroyed s).1 ≡ done_200 env req (lit "Destroy db done."))
            × ((j : Bytes)
                → search (destroy_cb env req rb destroyed s).0.reveldb j
                  ≡ (if bytes_eq dbname j then none else search s.reveldb j)))
        × ((e : Bytes)
            → destroyed (contents path) ≡ some e
            → ((destroy_cb env req rb destroyed s).1 ≡ error_200 env req e)
              × (search (destroy_cb env req rb destroyed s).0.reveldb dbname ≡ some db)
              × (((destroy_cb env req rb destroyed s).0.heap db).db ≡ engine.close (s.heap db).db))
  unfolding destroy_cb close_and_destroy answer_destroy finish ◌>>=◌ ◌>>◌ store_at reset_err
  destroy_cb_lem r db destroyed found clean =
      let named : found_or env req (lit "Database not found, please check.")
            (search s.reveldb dbname)
          ≡ pass db =
        rw (found, found_or) in
      let here = (==_iff db db).1 refl in
      let laws = search-erase rb ko s.reveldb dbname r.sorted in
      rw (r.checked, param-Gives env req (lit "db") dbname _ r.db_arg, named, path-NamesDb r)
        (λ h. rw (here, clean, h) (refl, laws.1), λ e h. rw (here, clean, h) (refl, found, rw here))
