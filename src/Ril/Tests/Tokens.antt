-- ===== src/Ril/Tests/Tokens.antt =====
-- A response of a modem, read by android2.1_init/hard_ril/reference-ril/at_tok.c.
use demonstratortool.Base.{ℕ, ◌≡◌, some, [], ◌∷◌, arith, codes}
use demonstratortool.Ril.AtTok.Fields.{fields_text, read_all, read_all-fields_text}

read_all-fields_text_example :
    read_all 3 (some (fields_text (codes "+1,5") (codes "" ∷ [])))
    ≡ some (codes "+1,5") ∷ some (codes "") ∷ []
read_all-fields_text_example =
    read_all-fields_text 3 (codes "+1,5") (codes "" ∷ []) (ground arith) (omega arith)

abbrev flag : ℕ
flag = 1
