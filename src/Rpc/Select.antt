-- ===== src/Rpc/Select.antt =====
-- The handlers of src/rpc.c that read every entry of a database: /rpc/similar, /rpc/ksimilar,
-- /rpc/vsimilar, /rpc/regex, /rpc/kregex and /rpc/vregex. The loops run on fuel.
use reveldb.Prelude.{
  ℕ, zero, suc, Bool, Option, none, some, [], Bytes, lit, leb, length, if◌then◌else◌,
}
use reveldb.Utility.Parse.{c_str, safe_strtoul}
use reveldb.Utility.Url.{safe_urldecode}
use reveldb.Engine.{ReadOptions}
use reveldb.Rpc.Env.{Env, Request}
use reveldb.Rpc.Reply.{Answer, sent, fault, res_badreq, response_on_error}
use reveldb.Rpc.Server.{Server}
use reveldb.Rpc.Checks.{
  Check, pass, stop, ◌>>=◌, ◌>>◌, proto_and_method_sanity_check, query_param_sanity_check,
  find_database,
}
use reveldb.Rpc.Store.{snapshot_roptions}
use reveldb.Rpc.Range.{Listing, listed, crashed, running, list_first, answer_range}
use reveldb.Rpc.Distance.{levenshtein}

-- What a handler does with an entry: it leaves it out, takes it, or reads a NULL pointer.
pub data Pick : Type 0 where
  skip : Pick
  take_kv : Bytes → Bytes → Pick
  null_read : Pick

-- The memory that a pointer to some bytes points to, the bytes behind them included; and
-- whether a pattern, compiled by re_compile_pattern, matches a text by re_match.
pub record Text : Type 0 where
  pub memory : Bytes → ℕ → ℕ
  pub re_match : Bytes → Bytes → Bool

module _ (text : Text) (env : Env) where
  open env use {engine}

  -- The loops `while(true)` of the handlers
  unfoldable pub scan_loop : ℕ → (engine.Iterator → Pick) → engine.Iterator → Listing
  unfolding list_first
  scan_loop zero select i = running
  scan_loop (suc fuel) select i =
      let rest = scan_loop fuel select (engine.iter_next i) in
      if engine.iter_valid i
      then elim (select i) [
        | skip ↦ rest
        | take_kv key value ↦ list_first key value rest
        | null_read ↦ crashed
      ]
      else listed []

  -- _rpc_levenshtein(a, a_len, similar, strlen(similar)) <= limit
  unfoldable pub similar : Bytes → Bytes → ℕ → Bool
  unfolding levenshtein
  similar a b limit = leb (levenshtein (text.memory a) (length a) (length b)) limit

  -- The loop body of `URI_rpc_similar_cb`: the "value" is the key once more.
  unfoldable pub select_similar : Bytes → ℕ → Bytes → ℕ → engine.Iterator → Pick
  unfolding similar
  select_similar ksimilar klimit vsimilar vlimit i = elim (engine.iter_key i) [
    | none ↦ null_read
    | some key ↦
        if similar key ksimilar klimit
        then if similar key vsimilar vlimit then take_kv key key else skip
        else skip
  ]

  -- The loop body of `URI_rpc_ksimilar_cb`
  unfoldable pub select_ksimilar : Bytes → ℕ → engine.Iterator → Pick
  unfolding similar
  select_ksimilar pattern limit i = elim (engine.iter_key i) [
    | none ↦ null_read
    | some key ↦ elim (engine.iter_value i) [
      | none ↦ if similar key pattern limit then null_read else skip
      | some value ↦ if similar key pattern limit then take_kv key value else skip
    ]
  ]

  -- The loop body of `URI_rpc_vsimilar_cb`
  unfoldable pub select_vsimilar : Bytes → ℕ → engine.Iterator → Pick
  unfolding similar
  select_vsimilar pattern limit i = elim (engine.iter_value i) [
    | none ↦ null_read
    | some value ↦ elim (engine.iter_key i) [
      | none ↦ if similar value pattern limit then null_read else skip
      | some key ↦ if similar value pattern limit then take_kv key value else skip
    ]
  ]

  -- The loop body of `URI_rpc_regex_cb`
  unfoldable pub select_regex : Bytes → Bytes → engine.Iterator → Pick
  select_regex key_pattern val_pattern i = elim (engine.iter_key i) [
    | none ↦ null_read
    | some key ↦ elim (engine.iter_value i) [
      | none ↦ if text.re_match key_pattern key then null_read else skip
      | some value ↦
          if text.re_match key_pattern key
          then if text.re_match val_pattern value then take_kv key value else skip
          else skip
    ]
  ]

  -- The loop body of `URI_rpc_kregex_cb`, which looks at the pointer to the value
  unfoldable pub select_kregex : Bytes → engine.Iterator → Pick
  select_kregex pattern i = elim (engine.iter_key i) [
    | none ↦ null_read
    | some key ↦ elim (engine.iter_value i) [
      | none ↦ skip
      | some value ↦ if text.re_match pattern key then take_kv key value else skip
    ]
  ]

  -- The loop body of `URI_rpc_vregex_cb`
  unfoldable pub select_vregex : Bytes → engine.Iterator → Pick
  select_vregex pattern i = elim (engine.iter_value i) [
    | none ↦ null_read
    | some value ↦ elim (engine.iter_key i) [
      | none ↦ if text.re_match pattern value then null_read else skip
      | some key ↦ if text.re_match pattern value then take_kv key value else skip
    ]
  ]

module _ (text : Text) (env : Env) (req : Request) where
  open env use {engine}

  -- The iterator over the database, or over the snapshot that the request names, the loop and the
  -- answer; `none` if the fuel does not suffice
  unfoldable pub scan_db :
      ℕ
      → Server engine
      → ℕ
      → (engine.Iterator → Pick)
      → Option (ReadOptions engine.Snapshot)
      → Option (Server engine × Answer)
  unfolding scan_loop answer_range
  scan_db fuel s db select none = some (s, fault)
  scan_db fuel s db select (some roptions) =
      elim (answer_range env req (
        scan_loop text env fuel select
          (engine.iter_seek_to_first (engine.create_iterator (s.heap db).db roptions)))) [
            | none ↦ none
            | some a ↦ some (s, a)
          ]

  -- A handler behind its checks, which give the database and the loop body
  unfoldable pub scan_entries :
      ℕ → Server engine → Check (ℕ × (engine.Iterator → Pick)) → Option (Server engine × Answer)
  unfolding scan_db snapshot_roptions
  scan_entries fuel s (stop a) = some (s, a)
  scan_entries fuel s (pass (db, select)) =
      scan_db fuel s db select (snapshot_roptions env req s db)

  -- A distance of the request, by safe_strtoul
  unfoldable pub distance_check : Bytes → Bytes → Check ℕ
  distance_check distance message = elim (safe_strtoul distance) [
    | some limit ↦ pass limit
    | none ↦
        stop (sent res_badreq (response_on_error env req res_badreq (lit "Bad Request") message))
  ]

  -- A pattern as re_compile_pattern reads it, up to strlen of what safe_urldecode returns
  unfoldable pub pattern_unescape : Bytes → Bytes
  unfolding safe_urldecode
  pattern_unescape pattern = c_str (safe_urldecode pattern)

  -- `URI_rpc_similar_cb`
  unfoldable pub similar_cb : ℕ → Server engine → Option (Server engine × Answer)
  unfolding scan_entries select_similar distance_check
  similar_cb fuel s = scan_entries fuel s do
    proto_and_method_sanity_check env req
    ksimilar ←
        query_param_sanity_check env req (lit "ksimilar")
          (lit "You have to specify the similar key to match.")
    vsimilar ←
        query_param_sanity_check env req (lit "vsimilar")
          (lit "You have to specify the similar value to match.")
    kdistance ←
        query_param_sanity_check env req (lit "kdistance")
          (lit "You have to specify the distance of keys to adopt.")
    klimit ← distance_check kdistance (lit "Key distance is not numerical.")
    vdistance ←
        query_param_sanity_check env req (lit "vdistance")
          (lit "You have to specify the distance of values to adopt.")
    vlimit ← distance_check vdistance (lit "Distance is not numerical.")
    db ← find_database env req s
    pass (db, λ i. select_similar text env ksimilar klimit vsimilar vlimit i)

  -- `URI_rpc_ksimilar_cb`
  unfoldable pub ksimilar_cb : ℕ → Server engine → Option (Server engine × Answer)
  unfolding scan_entries select_ksimilar distance_check
  ksimilar_cb fuel s = scan_entries fuel s do
    proto_and_method_sanity_check env req
    pattern ←
        query_param_sanity_check env req (lit "similar")
          (lit "You have to specify the similar value to match.")
    distance ←
        query_param_sanity_check env req (lit "distance")
          (lit "You have to specify the distance of values to adopt.")
    limit ← distance_check distance (lit "Distance is not numerical.")
    db ← find_database env req s
    pass (db, λ i. select_ksimilar text env pattern limit i)

  -- `URI_rpc_vsimilar_cb`
  unfoldable pub vsimilar_cb : ℕ → Server engine → Option (Server engine × Answer)
  unfolding scan_entries select_vsimilar distance_check
  vsimilar_cb fuel s = scan_entries fuel s do
    proto_and_method_sanity_check env req
    pattern ←
        query_param_sanity_check env req (lit "similar")
          (lit "You have to specify the similar value to match.")
    distance ←
        query_param_sanity_check env req (lit "distance")
          (lit "You have to specify the distance of values to adopt.")
    limit ← distance_check distance (lit "Distance is not numerical.")
    db ← find_database env req s
    pass (db, λ i. select_vsimilar text env pattern limit i)

  -- `URI_rpc_regex_cb`
  unfoldable pub regex_cb : ℕ → Server engine → Option (Server engine × Answer)
  unfolding scan_entries select_regex pattern_unescape
  regex_cb fuel s = scan_entries fuel s do
    proto_and_method_sanity_check env req
    kregex ←
        query_param_sanity_check env req (lit "kregex")
          (lit "You have to specify key pattern to match.")
    vregex ←
        query_param_sanity_check env req (lit "vregex")
          (lit "You have to specify value pattern to match.")
    db ← find_database env req s
    pass (db, λ i. select_regex text env (pattern_unescape kregex) (pattern_unescape vregex) i)

  -- `URI_rpc_kregex_cb`
  unfoldable pub kregex_cb : ℕ → Server engine → Option (Server engine × Answer)
  unfolding scan_entries select_kregex pattern_unescape
  kregex_cb fuel s = scan_entries fuel s do
    proto_and_method_sanity_check env req
    pattern ←
        query_param_sanity_check env req (lit "pattern")
          (lit "You have to specify key pattern to match.")
    db ← find_database env req s
    pass (db, λ i. select_kregex text env (pattern_unescape pattern) i)

  -- `URI_rpc_vregex_cb`
  unfoldable pub vregex_cb : ℕ → Server engine → Option (Server engine × Answer)
  unfolding scan_entries select_vregex pattern_unescape
  vregex_cb fuel s = scan_entries fuel s do
    proto_and_method_sanity_check env req
    pattern ←
        query_param_sanity_check env req (lit "pattern")
          (lit "You have to specify value pattern to match.")
    db ← find_database env req s
    pass (db, λ i. select_vregex text env (pattern_unescape pattern) i)
