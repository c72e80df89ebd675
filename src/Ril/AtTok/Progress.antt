-- ===== src/Ril/AtTok/Progress.antt =====
-- Every token brings the reader of android2.1_init/hard_ril/reference-ril/at_tok.c nearer to the end.
use demonstratortool.Base.{
  ℕ, ◌+◌, ◌≤◌, ◌<◌, inl, inr, none, some, [], ◌∷◌, arith, Option-cases, length, length-append,
  Bytes, strchr, strchr-append, skip_spaces,
}
use demonstratortool.Ril.AtTok.{
  Cursor, take_tok, skip_white_space, behind_comma, skip_next_comma, strsep, next_tok,
  at_tok_nextstr,
}

-- NULL is behind every position.
pub size : Cursor → ℕ
size none = 0
size (some s) = 1 + length s

length-skip_spaces : (s : Bytes) → length (skip_spaces s) ≤ length s
unfolding skip_spaces
length-skip_spaces [] = omega arith
length-skip_spaces (c ∷ cs) = ground (arith, length-skip_spaces cs)

length-behind_comma : (s : Bytes) → length (behind_comma s) ≤ length s
unfolding behind_comma
length-behind_comma [] = omega arith
length-behind_comma (c ∷ cs) = ground (arith, length-behind_comma cs)

strsep-size : (s : Bytes) (c : ℕ) → size (strsep (some s) c).1 ≤ length s
unfolding strsep size
strsep-size s c = elim (Option-cases (strchr s c)) [
  | inl e ↦ rw (e, strsep) (omega arith)
  | inr ((b, a), e) ↦
      let split = strchr-append s c b a e in
      rw (e, strsep) (ground (arith, split, length-append b (c ∷ a)))
]

skip_next_comma-size : (cur : Cursor) → size (skip_next_comma cur) ≤ size cur
unfolding skip_next_comma size
skip_next_comma-size none = omega arith
skip_next_comma-size (some s) = ground (arith, length-behind_comma s)

take_tok-size : (s : Bytes) → size (take_tok s).1 ≤ length s
unfolding take_tok
take_tok-size [] = strsep-size [] b','
take_tok-size (c ∷ cs) = ground (
  arith,
  strsep-size cs b'"',
  skip_next_comma-size (strsep (some cs) b'"').1,
  strsep-size (c ∷ cs) b',',
)

-- Reading a token as a text moves a cursor that is not NULL nearer to the end.
at_tok_nextstr-progress : (s : Bytes) → size (at_tok_nextstr (some s)).cur < size (some s)
unfolding at_tok_nextstr size next_tok skip_white_space
at_tok_nextstr-progress s = omega (arith, take_tok-size (skip_spaces s), length-skip_spaces s)
