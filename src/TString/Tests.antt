-- ===== src/TString/Tests.antt =====
-- Runs of src/tstring.c, and its theorems at concrete strings.
use reveldb.Prelude.{ℕ, refl, [], ◌∷◌, ◌++◌, Bytes, take, drop, arith}
use reveldb.Prelude.Int.{pos}
use reveldb.TString.{TString, IsValid, contents, insert_len}
use reveldb.TString.Edit.{Holds, insert_len_lem}

-- What `realloc` adds
abbrev fill : ℕ → ℕ
fill i = 7

-- "hi" in a block of four bytes
abbrev hi : TString
hi = record { str = 104 ∷ 105 ∷ 0 ∷ 9 ∷ []; len = 2; allocated_len = 4 }

hi-IsValid : IsValid hi
hi-IsValid = record { block = refl; room = omega arith; word = omega arith; terminated = refl }

abbrev abc : Bytes
abc = 97 ∷ 98 ∷ 99 ∷ []

insert_len_lem_example :
    Holds
      (insert_len fill hi (pos 1) abc (pos 3))
      (take 1 (contents hi) ++ take 3 abc ++ drop 1 (contents hi))
insert_len_lem_example =
    insert_len_lem fill hi hi-IsValid (pos 1) abc (pos 3) 1 refl (λ q. refl) (omega arith)
      (omega arith)
