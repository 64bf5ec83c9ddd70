-- ===== src/Rpc/ManyTests.antt =====
-- A run of /rpc/mset and /rpc/mdel of src/rpc.c, with their theorems, on a document that is parsed
-- already.
use reveldb.Prelude.{
  ℕ, ◌≡◌, refl, Option, none, some, List, [], ◌∷◌, Bytes, lit, bytes_eq, strcmp, length, get_elem?,
  if◌then◌else◌,
}
use mathlib.Core.Option
use reveldb.Registry.{search}
use reveldb.Rpc.Env.{Request, proto_11, method_post}
use reveldb.Rpc.Reply.{sent, res_ok, done_response}
use reveldb.Rpc.Checks.{query_quiet_check, query_database}
use reveldb.Rpc.Contents.{value_at}
use reveldb.Rpc.Many.{CJson, item_string, mset_cb, mdel_cb, proto_and_method_sanity_check2nd}
use reveldb.Rpc.ManyLaws.{assign_all, remove_all}
use reveldb.Rpc.Mdel.{Names, mdel_cb_lem}
use reveldb.Rpc.Bodies.{kvs_response}
use reveldb.Rpc.Mget.{mseize_cb}
use reveldb.Rpc.MgetLaws.{take_all, Takes}
use reveldb.Rpc.Mseize.{mseize_cb_lem}
use reveldb.Rpc.Mset.{Sets, Accepts, mset_cb_lem}
use reveldb.Rpc.Sample.{env, contract, server}

data Doc : Type 0 where
  str : Bytes → Doc
  arr : List Bytes → Doc
  obj : List Bytes → List Bytes → Doc

abbrev fields_of : Doc → Bytes → Option Doc
fields_of (obj ks vs) name =
    if bytes_eq name (lit "keys")
    then some (arr ks)
    else if bytes_eq name (lit "values")
    then some (arr vs)
    else none
fields_of _ name = none

abbrev size_of : Doc → ℕ
size_of (arr l) = length l
size_of _ = 0

abbrev item_of : Doc → ℕ → Option Doc
item_of (arr l) i = Option.map str (get_elem? l i)
item_of _ i = none

abbrev string_of : Doc → Option Bytes
string_of (str b) = some b
string_of _ = none

abbrev ks : List Bytes
ks = lit "w" ∷ lit "x" ∷ []

abbrev vs : List Bytes
vs = lit "1" ∷ lit "2" ∷ []

abbrev json : CJson
json = record {
  Node = Doc;
  parse = λ line. some (obj ks vs);
  get_object_item = fields_of;
  get_array_size = size_of;
  get_array_item = item_of;
  valuestring = string_of;
}

abbrev post : Request
post = record { proto = proto_11; method = method_post; headers_in = []; query = [] }

abbrev pairs_of : List (Bytes × Bytes)
pairs_of = (lit "w", lit "1") ∷ (lit "x", lit "2") ∷ []

post-Sets : Sets json env post contract server 1 (some (lit "{}")) pairs_of
unfolding lit bytes_eq strcmp search query_database proto_and_method_sanity_check2nd item_string
post-Sets = record {
  root = obj ks vs;
  keys = arr ks;
  values = arr vs;
  checked = refl;
  database = refl;
  parsed = refl;
  keys_item = refl;
  values_item = refl;
  keys_size = refl;
  values_size = refl;
  pairs = (refl, refl, (refl, refl, tt));
}

pairs-Accepts : Accepts json env post contract server 1 (some (lit "{}")) pairs_of pairs_of
unfolding lit
pairs-Accepts = (λ d sync. refl, (λ d sync. refl, tt))

mset_cb_lem_example :
    ((mset_cb json env post (some (lit "{}")) server).1
      ≡ sent res_ok (
          done_response env
            (query_quiet_check env post)
            res_ok
            (lit "OK")
            (lit "Multiple set done.")))
    × ((j : Bytes)
        → value_at contract (mset_cb json env post (some (lit "{}")) server).0 1 j
          ≡ assign_all pairs_of (value_at contract server 1) j)
mset_cb_lem_example =
    mset_cb_lem json env post contract server 1 (some (lit "{}")) pairs_of post-Sets pairs-Accepts
      refl

post-Names : Names json env post contract server 1 (some (lit "{}")) ks
unfolding lit bytes_eq strcmp search query_database proto_and_method_sanity_check2nd item_string
post-Names = record {
  root = obj ks vs;
  keys = arr ks;
  checked = refl;
  database = refl;
  parsed = refl;
  keys_item = refl;
  keys_size = refl;
  strings = (refl, (refl, tt));
}

mdel_cb_lem_example :
    ((mdel_cb json env post (some (lit "{}")) server).1
      ≡ sent res_ok (
          done_response env
            (query_quiet_check env post)
            res_ok
            (lit "OK")
            (lit "Multiple set done.")))
    × ((j : Bytes)
        → value_at contract (mdel_cb json env post (some (lit "{}")) server).0 1 j
          ≡ remove_all ks (value_at contract server 1) j)
mdel_cb_lem_example =
    mdel_cb_lem json env post contract server 1 (some (lit "{}")) ks post-Names
      (λ d sync. refl, (λ d sync. refl, tt)) refl

ks-Takes : Takes json env post contract 1 ks
ks-Takes = (λ d o. refl, λ d sync. refl, (λ d o. refl, λ d sync. refl, tt))

mseize_cb_lem_example :
    ((mseize_cb json env post (some (lit "{}")) server).1
      ≡ sent res_ok (
          kvs_response env (query_quiet_check env post) (take_all ks (value_at contract server 1))))
    × ((j : Bytes)
        → value_at contract (mseize_cb json env post (some (lit "{}")) server).0 1 j
          ≡ remove_all ks (value_at contract server 1) j)
mseize_cb_lem_example =
    mseize_cb_lem json env post contract server 1 (some (lit "{}")) ks post-Names refl refl ks-Takes
