-- ===== src/Ril/Fields.antt =====
-- How the functions of android2.1_init/hard_ril/reference-ril/reference-ril.c read a line: one call of a
-- function of at_tok.c after the other writes a field of what is read, and the first that fails is the
-- last. What is written before it stays written.
use demonstratortool.Base.{Option, ℕ, Bool, true, false, none, some, if◌then◌else◌, Bytes}
use demonstratortool.Ril.AtTok.{
  Cursor, Answer, at_tok_start, at_tok_nextint, at_tok_nexthexint, at_tok_nextbool,
}

-- A reader gets what is written so far and the position, and gives whether it comes to its end.
abbrev pub Reader {ℓ} : Type ℓ → Type ℓ
Reader A = A → Cursor → Bool × A

module _ {ℓ} {A : Type ℓ} where
  abbrev written : Option ℕ → (ℕ → A → A) → A → A
  written none put a = a
  written (some v) put a = put v a

  -- One call, and what follows if it does not fail.
  unfoldable pub field : Answer ℕ → (ℕ → A → A) → Reader A → A → Bool × A
  field answer put next a =
      let a' = written answer.out put a in if answer.ok then next a' answer.cur else (false, a')

  -- A call that writes a variable, from which a field is written if the call does not fail.
  unfoldable pub local_field : (ℕ → A → A) → Reader A → Reader A
  local_field put next a cur =
      let answer = at_tok_nextint cur in
      if answer.ok then next (written answer.out put a) answer.cur else (false, a)

  unfoldable pub int_field : (ℕ → A → A) → Reader A → Reader A
  int_field put next a cur = field (at_tok_nextint cur) put next a

  unfoldable pub hex_field : (ℕ → A → A) → Reader A → Reader A
  hex_field put next a cur = field (at_tok_nexthexint cur) put next a

  unfoldable pub bool_field : (ℕ → A → A) → Reader A → Reader A
  bool_field put next a cur = field (at_tok_nextbool cur) put next a

  abbrev pub finish : Reader A
  finish a cur = (true, a)

  unfoldable pub from_start : Reader A → A → Bytes → Bool × A
  from_start next a line =
      let (started, cur) = at_tok_start (some line) in if started then next a cur else (false, a)
