-- ===== src/Rpc/Dispatch.antt =====
-- The dispatch of src/rpc.c to the handlers on one key: a command for each of their callbacks that
-- `reveldb_rpc_init` registers (its lines on updates and deletions, and, among those of other handlers,
-- its lines on add, set, append, prepend, insert, get, seize, check and exists), and requests served one
-- behind the other.
use reveldb.Prelude.{List, [], ◌∷◌}
use reveldb.Rpc.Env.{Env, Request}
use reveldb.Rpc.Reply.{Answer}
use reveldb.Rpc.Server.{Server}
use reveldb.Rpc.Store.{set_cb, add_cb, get_cb, check_cb, exists_cb, seize_cb, del_cb}
use reveldb.Rpc.Update.{append_cb, prepend_cb, insert_cb, replace_cb}
use reveldb.Rpc.Counter.{incr_cb, decr_cb}
use reveldb.Rpc.Swap.{cas_cb}

pub data Command : Type 0 where
  add set get check exists seize del append prepend insert replace incr decr cas : Command

unfoldable pub serve :
    (env : Env) → Command → Request → Server env.engine → Server env.engine × Answer
serve env add req s = add_cb env req s
serve env set req s = set_cb env req s
serve env get req s = get_cb env req s
serve env check req s = check_cb env req s
serve env exists req s = exists_cb env req s
serve env seize req s = seize_cb env req s
serve env del req s = del_cb env req s
serve env append req s = append_cb env req s
serve env prepend req s = prepend_cb env req s
serve env insert req s = insert_cb env req s
serve env replace req s = replace_cb env req s
serve env incr req s = incr_cb env req s
serve env decr req s = decr_cb env req s
serve env cas req s = cas_cb env req s

-- The requests of one worker, in the order in which it serves them
unfoldable pub serve_all :
    (env : Env) → List (Command × Request) → Server env.engine → Server env.engine
unfolding serve
serve_all env [] s = s
serve_all env ((cmd, req) ∷ more) s = serve_all env more (serve env cmd req s).0
