-- ===== src/Rpc/SampleLaws.antt =====
-- That the engine of the tests does what the documentation of LevelDB says.
use reveldb.Prelude.{
  ◌≡◌, refl, ap, ◌∙◌, sym, fun_ext, subst, false, some, List, [], ◌∷◌, Bytes, bytes_eq,
  bytes_eq_iff, bytes_eq_of_gt, strcmp, strcmp_eq_iff, strcmp_flip, if◌then◌else◌, Ordering,
  Ordering-cases, Bool-cases, inl, inr,
}
use reveldb.Engine.Views.{Snapshots, Cursors, Batches, Update, put, delete, apply_all}
use reveldb.Registry.{without}
use reveldb.Registry.Order.{IsSorted, Above, Above-trans, lookup}
use reveldb.Registry.Laws.{lookup-without}
use reveldb.Rpc.Sample.{Pairs, Cursor, contract, insert_pair, sort_pairs, update_pairs, prev_of}

Above-insert_pair :
    (a k v : Bytes) (es : Pairs)
    → strcmp a k ≡ Ordering.lt
    → Above a es
    → Above a (insert_pair k v es)
Above-insert_pair a k v [] p h = (p, tt)
Above-insert_pair a k v ((j, w) ∷ es) p (q, h) = elim (Ordering-cases (strcmp k j)) [
  | inl lt ↦ rw (lt, Above) (p, (q, h))
  | inr (inl eq) ↦ rw (eq, Above) (p, h)
  | inr (inr gt) ↦ rw (gt, Above) (q, Above-insert_pair a k v es p h)
]

IsSorted-insert_pair : (k v : Bytes) (es : Pairs) → IsSorted es → IsSorted (insert_pair k v es)
IsSorted-insert_pair k v [] s = (tt, tt)
IsSorted-insert_pair k v ((j, w) ∷ es) (a, s) = elim (Ordering-cases (strcmp k j)) [
  | inl lt ↦ rw (lt, IsSorted) ((lt, Above-trans k j es lt a), (a, s))
  | inr (inl eq) ↦ rw (eq, IsSorted) (subst (λ b. Above b es) (sym ((strcmp_eq_iff k j).0 eq)) a, s)
  | inr (inr gt) ↦
      rw (gt, IsSorted)
        (Above-insert_pair j k v es (strcmp_flip k j gt) a, IsSorted-insert_pair k v es s)
]

lookup-insert_pair :
    (k v : Bytes) (es : Pairs) (i : Bytes)
    → lookup (insert_pair k v es) i ≡ (if bytes_eq k i then some v else lookup es i)
unfolding lookup
lookup-insert_pair k v [] i = refl
lookup-insert_pair k v ((j, w) ∷ es) i = elim (Ordering-cases (strcmp k j)) [
  | inl lt ↦ rw (lt, lookup)
  | inr (inl eq) ↦
      rw (eq, lookup)
        (elim (Bool-cases (bytes_eq k i)) [
          | inl same ↦ rw same
          | inr other ↦
              rw (other, subst (λ b. bytes_eq b i ≡ false) ((strcmp_eq_iff k j).0 eq) other)
        ])
  | inr (inr gt) ↦
      rw (gt, lookup)
        (elim (Bool-cases (bytes_eq j i)) [
          | inl here ↦ rw (
            here,
            subst (λ b. bytes_eq k b ≡ false) ((bytes_eq_iff j i).0 here)
                (bytes_eq_of_gt k j (strcmp_flip k j gt)),
          )
          | inr there ↦ rw there (lookup-insert_pair k v es i)
        ])
]

pub IsSorted-sort_pairs : (s : Pairs) → IsSorted (sort_pairs s)
IsSorted-sort_pairs [] = tt
IsSorted-sort_pairs ((k, v) ∷ es) =
    IsSorted-insert_pair k v (sort_pairs es) (IsSorted-sort_pairs es)

pub lookup-sort_pairs : (s : Pairs) (k : Bytes) → lookup (sort_pairs s) k ≡ lookup s k
unfolding lookup
lookup-sort_pairs [] k = refl
lookup-sort_pairs ((j, w) ∷ es) k =
    lookup-insert_pair j w (sort_pairs es) k
    ∙ ap (λ o. if bytes_eq j k then some w else o) (lookup-sort_pairs es k)

abbrev pub snapshots : Snapshots contract
snapshots = record { held = lookup; held_create = λ s k. refl; get_held = λ s o n k h g. rw h }

pub prev-ahead :
    (i : Cursor) (d : Bytes × Bytes) (ds : Pairs)
    → i.behind ≡ d ∷ ds
    → (prev_of i).ahead ≡ d ∷ i.ahead
prev-ahead i d ds h = rw h

pub prev-behind :
    (i : Cursor) (d : Bytes × Bytes) (ds : Pairs) → i.behind ≡ d ∷ ds → (prev_of i).behind ≡ ds
prev-behind i d ds h = rw h

abbrev pub cursors : Cursors contract
cursors = record {
  entries = sort_pairs;
  sorted = IsSorted-sort_pairs;
  lookup_entries = lookup-sort_pairs;
  all = λ i. i.all;
  ahead = λ i. i.ahead;
  behind = λ i. i.behind;
  all_create = λ s o h. rw h;
  valid_ahead = λ i. refl;
  key_ahead = λ i k v es h. rw h;
  value_ahead = λ i k v es h. rw h;
  first_ahead = λ i. refl;
  first_behind = λ i. refl;
  first_all = λ i. refl;
  seek_ahead = λ i k. refl;
  next_ahead = λ i e es h. rw h;
  next_behind = λ i e es h. rw h;
  prev_ahead = λ i e d es ds h g. prev-ahead i d ds g ∙ ap (λ l. d ∷ l) h;
  prev_behind = λ i e d es ds h g. prev-behind i d ds g;
}

pub lookup-update_pairs :
    (us : List Update) (s : Pairs) (j : Bytes)
    → lookup (update_pairs us s) j ≡ apply_all us (lookup s) j
unfolding apply_all lookup
lookup-update_pairs [] s j = refl
lookup-update_pairs (put k v ∷ us) s j = lookup-update_pairs us ((k, v) ∷ s) j
lookup-update_pairs (delete k ∷ us) s j =
    lookup-update_pairs us (without k s) j
    ∙ ap (λ m. apply_all us m j) (fun_ext (lookup-without k s))

abbrev pub batches : Batches contract
batches = record {
  updates = λ b. b;
  updates_create = refl;
  updates_put = λ b k v. refl;
  updates_delete = λ b k. refl;
  updates_clear = λ b. refl;
  write_contents = λ s sync b j h. lookup-update_pairs b s j;
}
