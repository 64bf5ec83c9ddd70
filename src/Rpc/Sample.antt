-- ===== src/Rpc/Sample.antt =====
-- A concrete engine, environment and server for the tests of the handlers of src/rpc.c: stores are
-- association lists, and a write of more than 8 bytes fails.
use reveldb.Prelude.{
  strcmp, Ordering, ◌++◌, ◌≡◌, Bool, true, false, Option, none, some, List, [], ◌∷◌, Bytes, lit,
  bytes_eq, length, ltb, leb, if◌then◌else◌, Bool-cases, inl, inr, String,
}
use reveldb.Engine.{LevelDb, ReadOptions, Contract}
use reveldb.Engine.Views.{from, Update}
use reveldb.Registry.{leaf, node, Color, without}
use reveldb.Registry.Order.{lookup}
use reveldb.Registry.Laws.{lookup-without}
use reveldb.Rpc.Env.{Env, Kv, proto_11, method_get, Request}
use reveldb.Rpc.Server.{Instance, Server}

abbrev pub Pairs : Type 0
Pairs = List (Bytes × Bytes)

abbrev pub put_pair : Pairs → Bool → Bytes → Bytes → Pairs × Option Bytes
put_pair s sync k v = if ltb 8 (length v) then (s, some (lit "IO error")) else ((k, v) ∷ s, none)

-- A place in the sorted entries of a store
pub record Cursor : Type 0 where
  pub all : Pairs
  pub ahead : Pairs
  pub behind : Pairs

-- The store as a sorted list: of equal keys the first counts.
abbrev pub insert_pair : Bytes → Bytes → Pairs → Pairs
insert_pair k v [] = (k, v) ∷ []
insert_pair k v ((j, w) ∷ es) =
    let rest = insert_pair k v es in
    elim (strcmp k j) [
      | Ordering.lt ↦ (k, v) ∷ (j, w) ∷ es
      | Ordering.eq ↦ (k, v) ∷ es
      | Ordering.gt ↦ (j, w) ∷ rest
    ]

abbrev pub sort_pairs : Pairs → Pairs
sort_pairs [] = []
sort_pairs ((k, v) ∷ es) = insert_pair k v (sort_pairs es)

abbrev pub cursor_of : Pairs → Cursor
cursor_of s = record { all = sort_pairs s; ahead = []; behind = [] }

abbrev pub last_of : Pairs → Pairs → Cursor → Cursor
last_of [] before i = record i { ahead = []; behind = before }
last_of (e ∷ []) before i = record i { ahead = e ∷ []; behind = before }
last_of (e ∷ d ∷ es) before i = last_of (d ∷ es) (e ∷ before) i

abbrev pub next_of : Cursor → Cursor
next_of i = elim i.ahead [ [] ↦ i | e ∷ es ↦ record i { ahead = es; behind = e ∷ i.behind } ]

abbrev pub prev_of : Cursor → Cursor
prev_of i = elim i.behind [
  | [] ↦ record i { ahead = [] }
  | e ∷ es ↦ record i { ahead = e ∷ i.ahead; behind = es }
]

abbrev pub update_pairs : List Update → Pairs → Pairs
update_pairs [] s = s
update_pairs (Update.put k v ∷ us) s = update_pairs us ((k, v) ∷ s)
update_pairs (Update.delete k ∷ us) s = update_pairs us (without k s)

abbrev pub engine : LevelDb
engine = record {
  Store = Pairs;
  Snapshot = Pairs;
  get = λ s o k. (elim o.snapshot [ none ↦ lookup s k | some t ↦ lookup t k ], none);
  put = put_pair;
  delete = λ s sync k. (without k s, none);
  create_snapshot = λ s. s;
  Iterator = Cursor;
  create_iterator = λ s o. cursor_of (elim o.snapshot [ none ↦ s | some t ↦ t ]);
  iter_valid = λ i. elim i.ahead [ [] ↦ false | _ ∷ _ ↦ true ];
  iter_seek_to_first = λ i. record i { ahead = i.all; behind = [] };
  iter_seek_to_last = λ i. last_of i.all [] i;
  iter_seek = λ i k. record i { ahead = from k i.all; behind = [] };
  iter_next = next_of;
  iter_prev = prev_of;
  iter_key = λ i. elim i.ahead [ [] ↦ none | e ∷ _ ↦ some e.0 ];
  iter_value = λ i. elim i.ahead [ [] ↦ none | e ∷ _ ↦ some e.1 ];
  WriteBatch = List Update;
  writebatch_create = [];
  writebatch_put = λ b k v. b ++ Update.put k v ∷ [];
  writebatch_delete = λ b k. b ++ Update.delete k ∷ [];
  writebatch_clear = λ b. [];
  write = λ s sync b. (update_pairs b s, none);
  property_value = λ s p. none;
  null_store = [];
  close = λ s. s;
  compact_range = λ s a b. s;
  approximate_size = λ s a b. 0;
}

pub put-lookup :
    (s : Pairs) (sync : Bool) (k v j : Bytes)
    → (put_pair s sync k v).1 ≡ none
    → lookup (put_pair s sync k v).0 j ≡ (if bytes_eq k j then some v else lookup s j)
unfolding lookup
put-lookup s sync k v j h = elim (Bool-cases (ltb 8 (length v))) [
  | inl long ↦ cc (rw long at h)
  | inr short ↦ rw short
]

pub get_none :
    (s : Pairs) (o : ReadOptions Pairs) (k e : Bytes)
    → (engine.get s o k).1 ≡ some e
    → (engine.get s o k).0 ≡ none
get_none s o k e h = cc

abbrev pub contract : Contract engine
contract = record {
  contents = lookup;
  get_contents = λ s o k h g. rw h;
  get_error = get_none;
  put_contents = put-lookup;
  delete_contents = λ s sync k j h. lookup-without k s j;
}

abbrev pub find_key : List Kv → Bytes → Option Bytes
find_key [] name = none
find_key (kv ∷ kvs) name = if bytes_eq kv.key name then some kv.val else find_key kvs name

abbrev pub env : Env
env = record {
  engine = engine;
  kv_find = find_key;
  print_unformatted = λ j. lit "{}";
  now = lit "now";
  fill = λ i. 0;
}

abbrev pub read_options : ReadOptions Pairs
read_options = record { verify_checksums = false; fill_cache = true; snapshot = none }

abbrev pub instance_of : Pairs → Instance engine
instance_of d = record { db = d; roptions = read_options; woptions = false; err = none }

-- Two open databases; the first holds two keys.
abbrev pub server : Server engine
server = record {
  reveldb = node Color.black leaf (lit "one") 1 (node Color.red leaf (lit "two") 2 leaf);
  dbsnapshot = leaf;
  dbiter = leaf;
  dbwritebatch = leaf;
  heap = λ p. instance_of (if leb p 1 then (lit "n", lit "41") ∷ (lit "w", lit "abc") ∷ [] else []);
  db_config = record {
    dbname = lit "one";
    verify_checksums = false;
    fill_cache = true;
    sync = false;
  };
  datadir = lit "d";
}

abbrev pub arg : String → String → Kv
arg k v = record { key = lit k; val = lit v }

abbrev pub request : List Kv → Request
request args = record { proto = proto_11; method = method_get; headers_in = []; query = args }
