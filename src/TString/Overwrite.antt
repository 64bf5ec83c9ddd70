-- ===== src/TString/Overwrite.antt =====
-- `tstring_overwrite_len` of tstring.c.
use reveldb.Prelude.{
  ℕ, ◌+◌, ◌-◌, ◌≤◌, ◌<◌, ◌≡◌, sym, ap, ◌∙◌, ◌++◌, Bytes, arith, length, take, drop, ltb, ltb→lt,
  inl, inr, Bool-cases, length-take,
}
use mathlib.Core.List.{append-nil}
use reveldb.TString.{TString, IsValid, contents, blit, maybe_expand}
use reveldb.TString.Ops.{overwrite_at}
use reveldb.TString.Memory.{
  length-blit, take-blit, take-blit-inside, take-set, take-take, drop_all, blit-middle, get_or-blit,
}
use reveldb.TString.Growth.{IsBlock, maybe_expand_bounds, terminate-IsValid}
use reveldb.TString.Edit.{length-contents, IsBlock-IsValid}

module _ (fill : ℕ → ℕ) (t : TString) (v : IsValid t) (p : ℕ) (val : Bytes) (n : ℕ) where
  -- The part of `tstring_overwrite_len` behind its checks, on a valid string and `n` readable
  -- bytes: the bytes from `p` on are replaced, the string grows if they reach past its end, and
  -- it stays valid. The position is not behind the end, and the last byte is written below 2 ^
  -- 31.
  pub overwrite_at_lem :
      p ≤ t.len
      → n ≤ length val
      → p + n < 2147483648
      → IsValid (overwrite_at fill t p val n)
        × (contents (overwrite_at fill t p val n)
            ≡ take p (contents t) ++ take n val ++ drop (p + n) (contents t))
  unfolding overwrite_at
  overwrite_at_lem inside readable fits =
      let size : length (take n val) ≡ n = omega (arith, length-take n val) in
      let text = length-contents t v in
      elim (Bool-cases (ltb t.len (p + n))) [
        | inl longer ↦
            let m = p + n - t.len in
            let e = maybe_expand fill t m in
            let b =
              maybe_expand_bounds fill t m (IsBlock-IsValid t v)
                (let more = ltb→lt _ _ longer in omega arith) in
            let more = ltb→lt _ _ longer in
            let w = blit e.str p (take n val) in
            let block : IsBlock (record e { str = w }) = record {
              block = length-blit e.str p (take n val) ∙ b.0.block;
              room = b.0.room;
              word = b.0.word;
            } in
            rw longer (
              terminate-IsValid (record e { str = w }) (p + n) block (omega arith),
              take-set (p + n) w 0
                  ∙ take-blit (p + n) e.str p (take n val) (omega arith) (omega (arith, b.0.block))
                  ∙ ap (λ c. c ++ take n val)
                      (sym (take-take p t.len e.str inside) ∙ ap (λ c. take p c) b.3)
                  ∙ sym (append-nil (take p (contents t) ++ take n val))
                  ∙ ap (λ c. take p (contents t) ++ take n val ++ c)
                      (sym (drop_all (p + n) (contents t) (omega arith))),
            )
        | inr within ↦ rw within (
          record {
            block = length-blit t.str p (take n val) ∙ v.block;
            room = v.room;
            word = v.word;
            terminated = get_or-blit t.str p (take n val) t.len 1 (ground arith) ∙ v.terminated;
          },
          take-blit-inside t.len t.str p (take n val) (ground arith)
              ∙ blit-middle (contents t) p (take n val) (ground arith)
              ∙ ap (λ k. take p (contents t) ++ take n val ++ drop (p + k) (contents t)) size,
        )
      ]
