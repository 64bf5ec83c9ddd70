-- ===== src/Rpc/RangeLaws.antt =====
-- What the loops of /rpc/range and /rpc/remove of src/rpc.c run over, and that they end.
use reveldb.Prelude.{
  ℕ, zero, suc, ◌<◌, ◌≡◌, refl, ap, ◌∙◌, sym, Bool, true, false, Option, none, some, List, [], ◌∷◌,
  Bytes, length, arith, bytes_eq, bytes_eq_iff, strcmp, strlen-NoNul, NoNul, if◌then◌else◌, ◌==◌,
  ==_iff, Bool-cases, Ordering, inl, inr,
}
use reveldb.Engine.{Contract}
use reveldb.Engine.Views.{Cursors}
use reveldb.Rpc.Env.{Env}
use reveldb.Rpc.Server.{Server, leveldb_delete}
use reveldb.Rpc.Contents.{value_at, value_at-delete, err-delete}
use reveldb.Rpc.ManyLaws.{remove_all, remove_all-same}
use reveldb.Rpc.Swap.{strncmp_eq}
use reveldb.Rpc.Range.{is_end_key, listed, list_first, range_loop, remove_loop, done, drop_err}

-- The range ends before its end key, if it has one and the key is there.
abbrev pub ends : Option Bytes → Bytes → Bool
ends none key = false
ends (some end_key) key = bytes_eq key end_key

unfoldable pub until : Option Bytes → List (Bytes × Bytes) → List (Bytes × Bytes)
until end [] = []
until end ((k, v) ∷ es) = let rest = until end es in if ends end k then [] else (k, v) ∷ rest

-- The entries whose keys come before `k`
unfoldable pub before : Bytes → List (Bytes × Bytes) → List (Bytes × Bytes)
before k [] = []
before k ((j, v) ∷ es) =
    let rest = before k es in elim (strcmp j k) [ Ordering.lt ↦ (j, v) ∷ rest | _ ↦ rest ]

-- An end key is a C string.
abbrev pub IsCString : Option Bytes → Type 0
IsCString none = Unit {0}
IsCString (some end_key) = NoNul end_key

strncmp_eq-NoNul :
    (a b : Bytes) → NoNul b → length b ≡ length a → strncmp_eq a b (length a) ≡ bytes_eq a b
unfolding strncmp_eq bytes_eq
strncmp_eq-NoNul [] [] n h = refl
strncmp_eq-NoNul [] (y ∷ b) n h = absurd (omega arith)
strncmp_eq-NoNul (x ∷ a) [] n h = absurd (omega arith)
strncmp_eq-NoNul (x ∷ a) (y ∷ b) (p, n) h = ground (arith, strncmp_eq-NoNul a b n)

bytes_eq-length : (a b : Bytes) → bytes_eq a b ≡ true → length b ≡ length a
bytes_eq-length a b h = ap length (sym ((bytes_eq_iff a b).0 h))

pub is_end_key-ends :
    (end : Option Bytes) (key : Bytes) → IsCString end → is_end_key end key ≡ ends end key
unfolding is_end_key
is_end_key-ends none key n = refl
is_end_key-ends (some e) key n = elim (Bool-cases (length e == length key)) [
  | inl same ↦
      rw (strlen-NoNul e n, same)
        (strncmp_eq-NoNul key e n ((==_iff (length e) (length key)).0 same))
  | inr other ↦ elim (Bool-cases (bytes_eq key e)) [
    | inl eq ↦ cc (other, (==_iff (length e) (length key)).1 (bytes_eq-length key e eq))
    | inr ne ↦ rw (strlen-NoNul e n, other, ne)
  ]
]

pub drop_err-none :
    (env : Env) (s : Server env.engine) (db : ℕ) → (s.heap db).err ≡ none → drop_err env s db ≡ s
unfolding drop_err
drop_err-none env s db h = rw (h, drop_err)

module _ (env : Env) {c : Contract env.engine} (cu : Cursors c) (end : Option Bytes)
    (n : IsCString end) where
  open env use {engine}

  -- With more fuel than there are entries ahead, the loop lists those before the end.
  pub range_loop-until :
      (fuel : ℕ) (i : engine.Iterator) (es : List (Bytes × Bytes))
      → cu.ahead i ≡ es
      → length es < fuel
      → range_loop env fuel end i ≡ listed (until end es)
  unfolding range_loop until list_first
  range_loop-until zero i es h lt = absurd (omega arith)
  range_loop-until (suc fuel) i [] h lt = rw (cu.valid_ahead i, h)
  range_loop-until (suc fuel) i ((k, v) ∷ es) h lt =
      let more =
        range_loop-until fuel (engine.iter_next i) es (cu.next_ahead i (k, v) es h) (omega arith) in
      rw
        (
          cu.valid_ahead i,
          h,
          cu.key_ahead i k v es h,
          cu.value_ahead i k v es h,
          is_end_key-ends end k n,
          more,
        )
        (elim (Bool-cases (ends end k)) [ inl stop ↦ rw stop | inr go ↦ rw go ])

  abbrev pub keys : List (Bytes × Bytes) → List Bytes
  keys [] = []
  keys ((k, v) ∷ es) = k ∷ keys es

  -- The engine deletes each of the keys, whatever it holds.
  abbrev pub Deletes : List Bytes → Type 0
  Deletes [] = Unit {0}
  Deletes (k ∷ more) =
      ((d : engine.Store) (sync : Bool) → (engine.delete d sync k).1 ≡ none) × Deletes more

  -- With more fuel than there are entries ahead, the loop deletes those before the end.
  pub remove_loop-until :
      (fuel : ℕ) (s : Server engine) (db : ℕ) (i : engine.Iterator) (es : List (Bytes × Bytes))
      → cu.ahead i ≡ es
      → length es < fuel
      → Deletes (keys (until end es))
      → (s.heap db).err ≡ none
      → ((remove_loop env fuel s db end i).1 ≡ done)
        × ((j : Bytes)
            → value_at c (remove_loop env fuel s db end i).0 db j
              ≡ remove_all (keys (until end es)) (value_at c s db) j)
  unfolding remove_loop until remove_all
  remove_loop-until zero s db i es h lt d e = absurd (omega arith)
  remove_loop-until (suc fuel) s db i [] h lt d e =
      rw (cu.valid_ahead i, remove_loop, h) (refl, λ j. refl)
  remove_loop-until (suc fuel) s db i ((k, v) ∷ es) h lt d e = elim (Bool-cases (ends end k)) [
    | inl stop ↦
        rw
          (cu.valid_ahead i, remove_loop, h, cu.key_ahead i k v es h, is_end_key-ends end k n, stop)
          (refl, λ j. refl)
    | inr go ↦
        let t = leveldb_delete s db k in
        let (p, ps) = rw go at d in
        let ok : (t.heap db).err ≡ none =
          err-delete s db k ∙ rw (e, p (s.heap db).db (s.heap db).woptions) in
        let (end', removed) =
          remove_loop-until fuel t db (engine.iter_next i) es (cu.next_ahead i (k, v) es h)
            (omega arith) ps ok in
        rw
          (
            cu.valid_ahead i,
            remove_loop,
            h,
            cu.key_ahead i k v es h,
            is_end_key-ends end k n,
            go,
            drop_err-none env t db ok,
          )
          (
            end',
            λ j.
                removed j
                ∙ remove_all-same (keys (until end es)) (value_at c t db)
                    (λ i. if bytes_eq k i then none else value_at c s db i) j
                    (λ i. value_at-delete c s db k db i ok ∙ rw ((==_iff db db).1 refl)),
          )
  ]
