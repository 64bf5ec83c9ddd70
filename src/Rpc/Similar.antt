-- ===== src/Rpc/Similar.antt =====
-- What /rpc/ksimilar, /rpc/similar and /rpc/regex of src/rpc.c list.
use reveldb.Prelude.{
  ℕ, ◌+◌, ◌-◌, ◌<◌, ◌≡◌, Bool, Option, none, some, Bytes, lit, length, leb, if◌then◌else◌,
  Bool-cases, inl, inr,
}
use reveldb.Utility.Parse.{safe_strtoul}
use reveldb.Engine.{Contract}
use reveldb.Engine.Views.{Cursors}
use reveldb.Rpc.Env.{Env, Request}
use reveldb.Rpc.Server.{Server}
use reveldb.Rpc.Checks.{pass, ◌>>=◌, ◌>>◌}
use reveldb.Rpc.Asks.{Gives, param-Gives}
use reveldb.Rpc.Distance.{uint, levenshtein_lem}
use reveldb.Rpc.Select.{
  Text, similar, select_similar, select_ksimilar, select_regex, distance_check, pattern_unescape,
  similar_cb, ksimilar_cb, regex_cb,
}
use reveldb.Rpc.SelectLaws.{Chooses, Scans, listing, scan_entries-Chooses, find_database-Scans}

-- The difference of two lengths is within a limit.
abbrev pub near : Bytes → Bytes → ℕ → Bool
near a b limit =
    leb ((uint (length a) - uint (length b)) + (uint (length b) - uint (length a))) limit

-- Pairs that /rpc/ksimilar, /rpc/similar and /rpc/regex make of an entry
abbrev pub near_key : Bytes → ℕ → Bytes → Bytes → Option (Bytes × Bytes)
near_key pattern limit k v = if near k pattern limit then some (k, v) else none

abbrev pub near_both : Bytes → ℕ → Bytes → ℕ → Bytes → Bytes → Option (Bytes × Bytes)
near_both ksimilar klimit vsimilar vlimit k v =
    if near k ksimilar klimit then (if near k vsimilar vlimit then some (k, k) else none) else none

module _ (text : Text) (env : Env) {c : Contract env.engine} (cu : Cursors c) where
  open env use {engine}

  abbrev pub matching : Bytes → Bytes → Bytes → Bytes → Option (Bytes × Bytes)
  matching kregex vregex k v =
      if text.re_match kregex k
      then (if text.re_match vregex v then some (k, v) else none)
      else none

  similar-near : (a b : Bytes) (limit : ℕ) → similar text env a b limit ≡ near a b limit
  unfolding similar
  similar-near a b limit = rw (levenshtein_lem (text.memory a) (length a) (length b))

  Chooses-ksimilar :
      (pattern : Bytes) (limit : ℕ)
      → Chooses text env cu (select_ksimilar text env pattern limit) (near_key pattern limit)
  unfolding select_ksimilar
  Chooses-ksimilar pattern limit i k v es h =
      rw
        (
          cu.key_ahead i k v es h,
          select_ksimilar,
          cu.value_ahead i k v es h,
          similar-near k pattern limit,
        )
        (elim (Bool-cases (near k pattern limit)) [ inl held ↦ rw held | inr missed ↦ rw missed ])

  Chooses-similar :
      (ksimilar : Bytes) (klimit : ℕ) (vsimilar : Bytes) (vlimit : ℕ)
      → Chooses text env cu
          (select_similar text env ksimilar klimit vsimilar vlimit)
          (near_both ksimilar klimit vsimilar vlimit)
  unfolding select_similar
  Chooses-similar ksimilar klimit vsimilar vlimit i k v es h =
      let near_key = similar-near k ksimilar klimit in
      let near_value = similar-near k vsimilar vlimit in
      elim (Bool-cases (near k ksimilar klimit)) [
        | inr missed ↦ rw (cu.key_ahead i k v es h, select_similar, near_key, missed)
        | inl held ↦ elim (Bool-cases (near k vsimilar vlimit)) [
          | inl too ↦ rw (cu.key_ahead i k v es h, select_similar, near_key, near_value, held, too)
          | inr missed ↦
              rw (cu.key_ahead i k v es h, select_similar, near_key, near_value, held, missed)
        ]
      ]

  Chooses-regex :
      (kregex vregex : Bytes)
      → Chooses text env cu (select_regex text env kregex vregex) (matching kregex vregex)
  unfolding select_regex
  Chooses-regex kregex vregex i k v es h =
      let key = cu.key_ahead i k v es h in
      let value = cu.value_ahead i k v es h in
      elim (Bool-cases (text.re_match kregex k)) [
        | inr missed ↦ rw (key, select_regex, value, missed)
        | inl held ↦ elim (Bool-cases (text.re_match vregex v)) [
          | inl too ↦ rw (key, select_regex, value, held, too)
          | inr missed ↦ rw (key, select_regex, value, held, missed)
        ]
      ]

  module _ (req : Request) (s : Server env.engine) (db : ℕ) (r : Scans text env cu req s db)
      (fuel : ℕ) (enough : length (cu.entries (s.heap db).db) < fuel) where
    distance_check-numeral :
        (distance message : Bytes) (n : ℕ)
        → safe_strtoul distance ≡ some n
        → distance_check text env req distance message ≡ pass n
    unfolding distance_check
    distance_check-numeral distance message n h = rw (h, distance_check)

    -- The entries that /rpc/ksimilar lists are those whose keys differ in length from the wanted one
    -- by at most the limit.
    pub ksimilar_cb_lem :
        (pattern distance : Bytes) (limit : ℕ)
        → Gives env req (lit "similar") pattern
        → Gives env req (lit "distance") distance
        → safe_strtoul distance ≡ some limit
        → ksimilar_cb text env req fuel s ≡ listing text env cu req s db (near_key pattern limit)
    unfolding ksimilar_cb ◌>>=◌ ◌>>◌
    ksimilar_cb_lem pattern distance limit p d n =
        rw
          (
            r.checked,
            param-Gives env req (lit "similar") pattern _ p,
            param-Gives env req (lit "distance") distance _ d,
            distance_check-numeral distance _ limit n,
            find_database-Scans text env cu req s db r,
          )
          (scan_entries-Chooses text env cu req s db (λ i. select_ksimilar text env pattern limit i)
            (near_key pattern limit) fuel r (Chooses-ksimilar pattern limit) enough)

    -- /rpc/similar ends, with more fuel than there are entries, and lists for each entry whose
    -- key differs in length from the wanted key, and from the wanted value, by at most the
    -- limits, the pair of the key with itself: the bytes are not compared, and the value is not
    -- read. The request passes the checks on an open database and names no snapshot, nor do the
    -- options of the instance.
    pub similar_cb_lem :
        (ksimilar vsimilar kdistance vdistance : Bytes) (klimit vlimit : ℕ)
        → Gives env req (lit "ksimilar") ksimilar
        → Gives env req (lit "vsimilar") vsimilar
        → Gives env req (lit "kdistance") kdistance
        → Gives env req (lit "vdistance") vdistance
        → safe_strtoul kdistance ≡ some klimit
        → safe_strtoul vdistance ≡ some vlimit
        → similar_cb text env req fuel s
          ≡ listing text env cu req s db (near_both ksimilar klimit vsimilar vlimit)
    unfolding similar_cb ◌>>=◌ ◌>>◌
    similar_cb_lem ks vs kd vd kl vl p q d e n m =
        rw
          (
            r.checked,
            param-Gives env req (lit "ksimilar") ks _ p,
            param-Gives env req (lit "vsimilar") vs _ q,
            param-Gives env req (lit "kdistance") kd _ d,
            distance_check-numeral kd _ kl n,
            param-Gives env req (lit "vdistance") vd _ e,
            distance_check-numeral vd _ vl m,
            find_database-Scans text env cu req s db r,
          )
          (scan_entries-Chooses text env cu req s db (λ i. select_similar text env ks kl vs vl i)
            (near_both ks kl vs vl) fuel r (Chooses-similar ks kl vs vl) enough)

    -- /rpc/regex ends, with more fuel than there are entries, and lists the entries whose key
    -- and whose value match the decoded patterns. The request passes the checks on an open
    -- database and names no snapshot, nor do the options of the instance.
    pub regex_cb_lem :
        (kregex vregex : Bytes)
        → Gives env req (lit "kregex") kregex
        → Gives env req (lit "vregex") vregex
        → regex_cb text env req fuel s
          ≡ listing text env cu req s db (
              matching
                (pattern_unescape text env req kregex)
                (pattern_unescape text env req vregex))
    unfolding regex_cb ◌>>=◌ ◌>>◌
    regex_cb_lem kr vr p q =
        let k = pattern_unescape text env req kr in
        let v = pattern_unescape text env req vr in
        rw
          (
            r.checked,
            param-Gives env req (lit "kregex") kr _ p,
            param-Gives env req (lit "vregex") vr _ q,
            find_database-Scans text env cu req s db r,
          )
          (scan_entries-Chooses text env cu req s db (λ i. select_regex text env k v i)
            (matching k v) fuel r (Chooses-regex k v) enough)
