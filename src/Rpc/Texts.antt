-- ===== src/Rpc/Texts.antt =====
-- The strings that /rpc/append, /rpc/prepend and /rpc/insert of src/rpc.c build with src/tstring.c.
use reveldb.Prelude.{
  ℕ, ◌≡◌, ◌≤◌, ◌<◌, ◌+◌, ap, ◌∙◌, sym, subst, ◌++◌, some, Bytes, length, take, drop, arith, strlen,
  NoNul,
}
use mathlib.Core.Option
use reveldb.Prelude.Int.{pos}
use reveldb.TString.{TString, IsValid, contents, max_size, insert_len}
use reveldb.TString.Ops.{new_len, append_len, prepend_len}
use reveldb.TString.Edit.{Holds, append_len_lem, prepend_len_lem, insert_len_lem, length-contents}
use reveldb.Rpc.Update.{to_int32}
use reveldb.Rpc.Updated.{to_int32_small, to_int32-strlen, take_whole, Holds-bind, Holds-old}

-- The text of a string built from the old value, by the argument of the request.
module _ (fill : ℕ → ℕ) (old val : Bytes) (z : NoNul val) (h : length old < 2147483648)
    (k : length val < 2147483648) where
  size-old : (t : TString) → IsValid t → contents t ≡ old → t.len + length val < max_size
  size-old t v e = omega (arith, length-contents t v, ap length e)

  small-old : (t : TString) → IsValid t → contents t ≡ old → t.len < 2147483648
  small-old t v e = omega (arith, length-contents t v, ap length e)

  pub Holds-append :
      Holds
        (Option.bind
          (new_len fill (some old) (to_int32 (length old)))
          (λ t. append_len fill t val (to_int32 (strlen val))))
        (old ++ val)
  Holds-append =
      Holds-bind (new_len fill (some old) (to_int32 (length old)))
        (λ t. append_len fill t val (to_int32 (strlen val))) old (old ++ val) (Holds-old fill old h)
        (λ t v e. rw (to_int32-strlen val z k) (
          subst (Holds (append_len fill t val (pos (length val))))
            (ap (λ c. c ++ take (length val) val) e ∙ ap (λ c. old ++ c) (take_whole val))
            (append_len_lem fill t v val (length val) (omega arith) (size-old t v e)
              (small-old t v e))))

  pub Holds-prepend :
      Holds
        (Option.bind
          (new_len fill (some old) (to_int32 (length old)))
          (λ t. prepend_len fill t val (to_int32 (strlen val))))
        (val ++ old)
  Holds-prepend =
      Holds-bind (new_len fill (some old) (to_int32 (length old)))
        (λ t. prepend_len fill t val (to_int32 (strlen val))) old (val ++ old)
        (Holds-old fill old h)
        (λ t v e. rw (to_int32-strlen val z k) (
          subst (Holds (prepend_len fill t val (pos (length val))))
            (ap (λ c. take (length val) val ++ c) e ∙ ap (λ c. c ++ old) (take_whole val))
            (prepend_len_lem fill t v val (length val) (omega arith) (size-old t v e))))

  pub Holds-insert :
      (at : ℕ)
      → at ≤ length old
      → Holds
          (Option.bind
            (new_len fill (some old) (to_int32 (length old)))
            (λ t. insert_len fill t (to_int32 at) val (to_int32 (strlen val))))
          (take at old ++ val ++ drop at old)
  Holds-insert at inside =
      Holds-bind (new_len fill (some old) (to_int32 (length old)))
        (λ t. insert_len fill t (to_int32 at) val (to_int32 (strlen val))) old
        (take at old ++ val ++ drop at old) (Holds-old fill old h)
        (λ t v e.
          let size : t.len ≡ length old = sym (length-contents t v) ∙ ap length e in
          rw (to_int32-strlen val z k, to_int32_small at (omega arith))
            (subst (Holds (insert_len fill t (pos at) val (pos (length val))))
              (ap (λ c. take at c ++ take (length val) val ++ drop at c) e
                ∙ ap (λ c. take at old ++ c ++ drop at old) (take_whole val))
              (insert_len_lem fill t v (pos at) val (pos (length val)) at (ground arith)
                (λ q. ground arith) (omega arith) (size-old t v e))))
