-- ===== src/Rpc/Paths.antt =====
-- The path of a database that `reveldb_init` of src/reveldb.c joins.
use reveldb.Prelude.{
  ℕ, suc, ◌<◌, ◌+◌, ◌-◌, ◌≡◌, refl, sym, ap, ◌∙◌, subst, true, false, ◌++◌, [], ◌∷◌, Bytes, lit,
  strlen, arith, length, length-take, strlen-le-length, take, ◌==◌, if◌then◌else◌, Bool-cases, inl,
  inr,
}
use mathlib.Core.Option
use mathlib.Core.List.{append-nil}
use reveldb.TString.{TString, IsValid, contents}
use reveldb.TString.Ops
use reveldb.TString.Edit.{Holds, length-contents}
use reveldb.TString.Join.{append_lem, new_lem, last-contents}
use reveldb.Rpc.Database.{add_name, full_path}

slash_text :
    (take (strlen (lit "/")) (lit "/") ≡ 47 ∷ []) × (lit "/" ≡ 47 ∷ []) × (strlen (lit "/") ≡ 1)
unfolding lit strlen
slash_text = (refl, refl, refl)

-- What stands between a directory whose last byte is `c` and the name
abbrev pub separator : ℕ → Bytes
separator c = if c == 47 then [] else 47 ∷ []

module _ (fill : ℕ → ℕ) (dbname d : Bytes) (c : ℕ) (some_name : 0 < strlen dbname) where
  abbrev pub name : Bytes
  name = take (strlen dbname) dbname

  separator-slash : (c == 47) ≡ true → separator c ≡ []
  separator-slash h = rw h

  separator-no_slash : (c == 47) ≡ false → separator c ≡ 47 ∷ []
  separator-no_slash h = rw h

  add_name_lem :
      (t : TString) (v : IsValid t)
      → contents t ≡ d ++ c ∷ []
      → t.len + strlen dbname + 2 < 2147483648
      → Holds (add_name fill t dbname) (contents t ++ separator c ++ name)
  unfolding add_name Option.bind
  add_name_lem t v text small =
      let size = last-contents t v d c text in
      let before : t.len - 1 ≡ length d = omega (arith, size.0) in
      let nonempty : (t.len == 0) ≡ false = ground (arith, size.0) in
      let to_name : (c == 47) ≡ true → add_name fill t dbname ≡ Ops.append fill t dbname =
        λ h. rw (nonempty, before, size.1, h) in
      let to_slash : (c == 47) ≡ false
          → add_name fill t dbname
            ≡ Option.bind (Ops.append fill t (lit "/")) (λ u. Ops.append fill u dbname) =
        λ h. rw (nonempty, before, size.1, h) in
      elim (Bool-cases (c == 47)) [
        | inl is_slash ↦
            let added =
              append_lem fill t v dbname some_name (omega arith) (omega arith) (omega arith) in
            record {
              result = added.result;
              returned = to_name is_slash ∙ added.returned;
              valid = added.valid;
              text =
                  added.text
                  ∙ ap (λ x. x ++ name)
                      (sym (append-nil (contents t))
                        ∙ ap (λ x. contents t ++ x) (sym (separator-slash is_slash)));
            }
        | inr no_slash ↦
            let first =
              append_lem fill t v (lit "/") (omega (arith, slash_text.2))
                (omega (arith, slash_text.2)) (omega arith) (omega (arith, slash_text.2)) in
            let joined : contents first.result ≡ contents t ++ 47 ∷ [] =
              first.text ∙ ap (λ x. contents t ++ x) slash_text.0 in
            let longer = last-contents first.result first.valid (contents t) 47 joined in
            let len : first.result.len ≡ suc t.len = longer.0 ∙ ap suc (length-contents t v) in
            let second =
              append_lem fill first.result first.valid dbname some_name (omega arith)
                (omega (arith, len)) (omega (arith, len)) in
            record {
              result = second.result;
              returned = to_slash no_slash ∙ rw (first.returned, second.returned);
              valid = second.valid;
              text =
                  second.text
                  ∙ ap (λ x. x ++ name)
                      (joined ∙ ap (λ x. contents t ++ x) (sym (separator-no_slash no_slash)));
            }
      ]

  -- The path of a database is the directory, a slash unless its last byte is one, and the name.
  -- Directory and name are C strings that are not empty, together shorter than 2 ^ 31 - 4 bytes.
  pub full_path_lem :
      (datadir : Bytes)
      → take (strlen datadir) datadir ≡ d ++ c ∷ []
      → 0 < strlen datadir
      → strlen datadir + strlen dbname + 4 < 2147483648
      → Holds (full_path fill datadir dbname) (take (strlen datadir) datadir ++ separator c ++ name)
  unfolding full_path Option.bind
  full_path_lem datadir dir some_dir small =
      let made = new_lem fill datadir some_dir (omega arith) in
      let len : made.result.len ≡ strlen datadir =
        sym (length-contents made.result made.valid)
        ∙ ap length made.text
        ∙ omega (arith, length-take (strlen datadir) datadir, strlen-le-length datadir) in
      rw (made.returned) (
        subst (λ x. Holds (add_name fill made.result dbname) (x ++ separator c ++ name)) made.text
          (add_name_lem made.result made.valid (made.text ∙ dir) (omega (arith, len))))
