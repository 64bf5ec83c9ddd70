-- ===== src/Rpc/RangeEnds.antt =====
-- Where a range of /rpc/range of src/rpc.c ends.
use reveldb.Prelude.{
  ℕ, ◌<◌, ◌≡◌, ◌≢◌, ◌⊎◌, refl, ap, ◌∙◌, sym, subst, none, some, List, [], ◌∷◌, Bytes, length,
  bytes_eq, bytes_eq_iff, bytes_eq_of_lt, bytes_eq_of_gt, strcmp, strcmp_eq_iff, strcmp_flip,
  strcmp_flip_lt, Bool-cases, Ordering, Ordering-cases, inl, inr,
}
use reveldb.Engine.{Contract}
use reveldb.Engine.Views.{Cursors, from}
use reveldb.Registry.Order.{IsSorted, lookup, Above, Above-trans, lookup-Above}
use reveldb.Rpc.Env.{Env, Request}
use reveldb.Rpc.Reply.{sent, res_ok}
use reveldb.Rpc.Bodies.{kvs_response}
use reveldb.Rpc.Server.{Server}
use reveldb.Rpc.Checks.{query_quiet_check}
use reveldb.Rpc.Contents.{value_at}
use reveldb.Rpc.Range.{range_cb}
use reveldb.Rpc.RangeLaws.{until, before}
use reveldb.Rpc.RangeReplies.{Spans, entries, range_cb_lem}

-- Where the end key of a range is there, the range ends before it; else it goes on to the last entry.
until-missing :
    (k : Bytes) (es : List (Bytes × Bytes)) → lookup es k ≡ none → until (some k) es ≡ es
unfolding until lookup
until-missing k [] h = refl
until-missing k ((j, v) ∷ es) h = elim (Bool-cases (bytes_eq j k)) [
  | inl same ↦ cc (rw same at h)
  | inr other ↦ rw other (ap (λ l. (j, v) ∷ l) (until-missing k es (rw other at h)))
]

before-Above : (k : Bytes) (es : List (Bytes × Bytes)) → Above k es → before k es ≡ []
unfolding before
before-Above k [] a = refl
before-Above k ((j, v) ∷ es) (p, a) = rw (strcmp_flip_lt k j p, before) (before-Above k es a)

until-before :
    (k w : Bytes) (es : List (Bytes × Bytes))
    → IsSorted es
    → lookup es k ≡ some w
    → until (some k) es ≡ before k es
unfolding until before lookup
until-before k w [] s h = refl
until-before k w ((j, v) ∷ es) (a, s) h = elim (Ordering-cases (strcmp j k)) [
  | inl lt ↦
      let other = bytes_eq_of_lt j k lt in
      rw (lt, other, before) (ap (λ l. (j, v) ∷ l) (until-before k w es s (rw other at h)))
  | inr (inl eq) ↦
      let same = (strcmp_eq_iff j k).0 eq in
      rw (eq, (bytes_eq_iff j k).1 same, before)
        (sym (before-Above k es (subst (λ b. Above b es) same a)))
  | inr (inr gt) ↦
      let after = strcmp_flip j k gt in
      cc (lookup-Above k es (Above-trans k j es after a), rw (bytes_eq_of_gt j k after) at h)
]

-- The entries from a key on
from-Above : (a k : Bytes) (es : List (Bytes × Bytes)) → Above a es → Above a (from k es)
unfolding from
from-Above a k [] h = h
from-Above a k ((j, v) ∷ es) (p, h) = elim (Ordering-cases (strcmp j k)) [
  | inl lt ↦ rw (lt, from) (from-Above a k es h)
  | inr (inl eq) ↦ rw (eq, from) (p, h)
  | inr (inr gt) ↦ rw (gt, from) (p, h)
]

from-IsSorted : (k : Bytes) (es : List (Bytes × Bytes)) → IsSorted es → IsSorted (from k es)
unfolding from
from-IsSorted k [] s = s
from-IsSorted k ((j, v) ∷ es) (a, s) = elim (Ordering-cases (strcmp j k)) [
  | inl lt ↦ rw (lt, from) (from-IsSorted k es s)
  | inr (inl eq) ↦ rw (eq, from) (a, s)
  | inr (inr gt) ↦ rw (gt, from) (a, s)
]

lookup-from :
    (k e : Bytes) (es : List (Bytes × Bytes))
    → strcmp e k ≢ Ordering.lt
    → lookup (from k es) e ≡ lookup es e
unfolding from lookup
lookup-from k e [] n = refl
lookup-from k e ((j, v) ∷ es) n = elim (Ordering-cases (strcmp j k)) [
  | inl lt ↦ elim (Bool-cases (bytes_eq j e)) [
    | inl same ↦ absurd (n (subst (λ b. strcmp b k ≡ Ordering.lt) ((bytes_eq_iff j e).0 same) lt))
    | inr other ↦ rw (lt, from, other) (lookup-from k e es n)
  ]
  | inr (inl eq) ↦ rw (eq, from)
  | inr (inr gt) ↦ rw (gt, from)
]

missing-[] : (k w : Bytes) → lookup {V = Bytes} [] k ≢ some w
unfolding lookup
missing-[] k w h = cc h

List-cases :
    (es : List (Bytes × Bytes))
    → (es ≡ []) ⊎ ((e : Bytes × Bytes) × (ds : List (Bytes × Bytes)) × (es ≡ e ∷ ds))
List-cases [] = inl refl
List-cases (e ∷ es) = inr (e, es, refl)

module _ (env : Env) {c : Contract env.engine} (cu : Cursors c) (req : Request)
    (s : Server env.engine) (db : ℕ) (start end : Bytes) where
  open env use {engine}

  abbrev begun : List (Bytes × Bytes)
  begun = from start (entries env cu req s db (some start) (some end))

  lists :
      (r : Spans env cu req s db (some start) (some end)) (fuel : ℕ)
      → length begun < fuel
      → begun ≢ []
      → range_cb env req fuel s
        ≡ some
            (s, sent res_ok (kvs_response env (query_quiet_check env req) (until (some end) begun)))
  lists r fuel enough n = elim (List-cases begun) [
    | inl h ↦ absurd (n h)
    | inr (e, es, h) ↦
        (range_cb_lem env cu req s db (some start) (some end) r fuel enough).1 e es h
        ∙ ap
            (λ l.
              some (
                s,
                sent res_ok (kvs_response env (query_quiet_check env req) (until (some end) l)),
              ))
            (sym h)
  ]

  -- /rpc/range from a start key to an end key that does not come before it lists the entries
  -- from the start key on whose keys come before the end key, if the end key is there. If it is
  -- not there, all entries from the start key on are listed, those behind the end key too.
  -- There is more fuel than entries, the request passes the checks on an open database, and the
  -- options of the instance name no snapshot.
  pub range_cb-before :
      Spans env cu req s db (some start) (some end)
      → strcmp end start ≢ Ordering.lt
      → (fuel : ℕ) → length begun < fuel
      → ((w : Bytes)
          → value_at c s db end ≡ some w
          → range_cb env req fuel s
            ≡ some
                (s, sent res_ok (kvs_response env (query_quiet_check env req) (before end begun))))
        × (value_at c s db end ≡ none
            → begun ≢ []
            → range_cb env req fuel s
              ≡ some (s, sent res_ok (kvs_response env (query_quiet_check env req) begun)))
  range_cb-before r order fuel enough =
      let es = entries env cu req s db (some start) (some end) in
      let view : lookup begun end ≡ value_at c s db end =
        lookup-from start end es order ∙ cu.lookup_entries (s.heap db).db end in
      (
        λ w h.
            let found = view ∙ h in
            rw
              (sym (
                until-before end w begun (from-IsSorted start es (cu.sorted (s.heap db).db)) found))
              (lists r fuel enough
                (λ e. missing-[] end w (subst (λ l. lookup l end ≡ some w) e found))),
        λ h n. rw (sym (until-missing end begun (view ∙ h))) (lists r fuel enough n),
      )
