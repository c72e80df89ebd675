-- ===== src/Ril/AtTok/Tokens.antt =====
-- The token that at_tok_nextstr of android2.1_init/hard_ril/reference-ril/at_tok.c writes.
use demonstratortool.Base.{
  ℕ, ◌≡◌, refl, ap, inl, inr, true, none, some, [], ◌∷◌, ◌==◌, Bool-cases, Option-cases, Bytes,
  strchr, skip_spaces,
}
use demonstratortool.Ril.AtTok.{
  Cursor, skip_white_space, strsep, take_tok, next_tok, at_tok_nextstr,
}

strsep-some : (s : Bytes) (c : ℕ) → (t : Bytes) × ((strsep (some s) c).0 ≡ some t)
unfolding strsep
strsep-some s c = elim (Option-cases (strchr s c)) [
  | inl e ↦ (s, rw (e, strsep) refl)
  | inr (v, e) ↦ (v.0, rw (e, strsep) refl)
]

take_tok-some : (s : Bytes) → (t : Bytes) × ((take_tok s).0 ≡ some t)
unfolding take_tok
take_tok-some [] = strsep-some [] b','
take_tok-some (c ∷ cs) = elim (Bool-cases (c == b'"')) [
  | inl e ↦ let (t, q) = strsep-some cs b'"' in (t, rw (e, take_tok) q)
  | inr e ↦ let (t, q) = strsep-some (c ∷ cs) b',' in (t, rw (e, take_tok) q)
]

-- A call that does not fail writes a token that is not NULL.
pub at_tok_nextstr-some :
    (cur : Cursor)
    → (at_tok_nextstr cur).ok ≡ true
    → (t : Bytes) × ((at_tok_nextstr cur).out ≡ some (some t))
unfolding at_tok_nextstr next_tok skip_white_space
at_tok_nextstr-some none h = cc h
at_tok_nextstr-some (some s) h = let (t, e) = take_tok-some (skip_spaces s) in (t, ap some e)
