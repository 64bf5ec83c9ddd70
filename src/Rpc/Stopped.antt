-- ===== src/Rpc/Stopped.antt =====
-- Requests that the first check of every handler of src/rpc.c stops.
use reveldb.Prelude.{◌≡◌, refl, false, ◌&&◌, if◌then◌else◌, Bool-cases, inl, inr}
use reveldb.Rpc.Env.{Env, Request}
use reveldb.Rpc.Reply.{Answer, res_badreq, res_methnallowed}
use reveldb.Rpc.Server.{Server}
use reveldb.Rpc.Checks.{stop, finish, ◌>>=◌, ◌>>◌, is_11, is_get, proto_and_method_sanity_check}
use reveldb.Rpc.Store.{set_cb, add_cb, get_cb, check_cb, exists_cb, seize_cb, del_cb}
use reveldb.Rpc.Update.{append_cb, prepend_cb, insert_cb, replace_cb}
use reveldb.Rpc.Counter.{incr_cb, decr_cb}
use reveldb.Rpc.Swap.{cas_cb}
use reveldb.Rpc.Dispatch.{
  Command, add, set, get, check, exists, seize, del, append, prepend, insert, replace, incr, decr,
  cas, serve,
}
use reveldb.Rpc.SetLaws.{status}

module _ (env : Env) (req : Request) (s : Server env.engine) where
  serve-stop :
      (cmd : Command) (a : Answer)
      → proto_and_method_sanity_check env req ≡ stop a
      → serve env cmd req s ≡ (s, a)
  unfolding serve add_cb set_cb get_cb check_cb exists_cb seize_cb del_cb append_cb prepend_cb
      insert_cb replace_cb incr_cb decr_cb cas_cb finish ◌>>=◌ ◌>>◌
  serve-stop set a h = rw h
  serve-stop add a h = rw h
  serve-stop get a h = rw h
  serve-stop check a h = rw h
  serve-stop exists a h = rw h
  serve-stop seize a h = rw h
  serve-stop del a h = rw h
  serve-stop append a h = rw h
  serve-stop prepend a h = rw h
  serve-stop insert a h = rw h
  serve-stop replace a h = rw h
  serve-stop incr a h = rw h
  serve-stop decr a h = rw h
  serve-stop cas a h = rw h

  first_check :
      is_11 req.proto && is_get req.method ≡ false
      → (a : Answer) × (proto_and_method_sanity_check env req ≡ stop a)
        × (status a ≡ (if is_11 req.proto then res_methnallowed else res_badreq))
  unfolding proto_and_method_sanity_check
  first_check h = elim (Bool-cases (is_11 req.proto)) [
    | inr other ↦ rw (other, proto_and_method_sanity_check) (_, refl, refl)
    | inl http_11 ↦
        let other = rw http_11 at h in
        rw (http_11, other, proto_and_method_sanity_check) (_, refl, refl)
  ]

  -- A request that is not sent over HTTP/1.1 is answered with 400, and one over HTTP/1.1 that
  -- is no GET with 405, by every handler on one key; nothing of the server changes.
  pub serve-unchecked :
      (cmd : Command)
      → is_11 req.proto && is_get req.method ≡ false
      → ((serve env cmd req s).0 ≡ s)
        × (status (serve env cmd req s).1
            ≡ (if is_11 req.proto then res_methnallowed else res_badreq))
  serve-unchecked cmd h = let (a, e, code) = first_check h in rw (serve-stop cmd a e) (refl, code)
