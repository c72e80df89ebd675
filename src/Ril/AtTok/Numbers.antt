-- ===== src/Ril/AtTok/Numbers.antt =====
-- What android2.1_init/hard_ril/reference-ril/at_tok.c answers for numbers and flags.
use demonstratortool.Base.{ℕ, ◌≡◌, ◌↔◌, ◌⊎◌, inl, inr, true, some, arith, Option-cases}
use demonstratortool.Ril.AtTok.{Cursor, at_tok_nextint, at_tok_nextbool}

-- `at_tok_nextbool` succeeds and writes a value exactly if `at_tok_nextint` succeeds and writes
-- that value, and it is 0 or 1.
at_tok_nextbool_iff :
    (cur : Cursor) (v : ℕ)
    → (((at_tok_nextbool cur).ok ≡ true) × ((at_tok_nextbool cur).out ≡ some v)) ↔ (
        ((at_tok_nextint cur).ok ≡ true)
        × ((at_tok_nextint cur).out ≡ some v)
        × ((v ≡ 0) ⊎ (v ≡ 1)))
unfolding at_tok_nextbool
at_tok_nextbool_iff cur v = elim (Option-cases (at_tok_nextint cur).out) [
  | inl e ↦ ground arith
  | inr (u, e) ↦ ground arith
]
