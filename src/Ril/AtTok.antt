-- ===== src/Ril/AtTok.antt =====
-- The tokenizer of AT responses (android2.1_init/hard_ril/reference-ril/at_tok.c).
pub mod Progress
pub mod Fields
pub mod Digits
pub mod Decimals
pub mod Tokens
pub mod Numbers
use demonstratortool.Base.{
  ℕ, zero, suc, ◌+◌, ◌-◌, ◌*◌, ◌/◌, ◌%◌, ◌^◌, ◌≤◌, ◌<◌, String, ◌≡◌, refl, sym, ap, ◌∙◌, subst, ◌≢◌,
  ◌↔◌, ◌⊎◌, inl, inr, Bool, true, false, not, ◌&&◌, ◌||◌, Option, none, some, List, [], ◌∷◌, ◌++◌,
  map, arith, ltb, leb, ◌==◌, if◌then◌else◌, ==_iff, ==_refl, ltb_iff, leb_iff, Bool-cases,
  Option-cases, ◌>>=◌, >>=-eq-some, length, get_elem?, set, take, drop, All, length-append,
  length-map, length-tail-le, length-set, get_elem?-set_self, get_elem?-set_ne, get_elem?-lt-length,
  get_elem?-append_self, All-append, All-get_elem?, All-set, Bytes, codes, streq, starts_with,
  strchr, is_space, is_alpha, is_digit, is_alnum, streq_iff, streq_refl, starts_with-append,
  strchr-append, ulong_mod, digit_value, strtoul, atoi, strtol, has_number, skip_spaces,
}

-- `*p_cur`: none is NULL.
abbrev pub Cursor : Type 0
Cursor = Option Bytes

-- Whether a function returns 0, the position that it leaves, and what it writes to `*p_out`, none if it
-- writes nothing.
pub record Answer {ℓ} (A : Type ℓ) : Type ℓ where
  pub ok : Bool
  pub cur : Cursor
  pub out : Option A

unfoldable pub at_tok_start : Cursor → Bool × Cursor
at_tok_start none = (false, none)
at_tok_start (some s) = elim (strchr s b':') [
  | none ↦ (false, none)
  | some (_, rest) ↦ (true, some rest)
]

unfoldable pub skip_white_space : Cursor → Cursor
unfolding skip_spaces
skip_white_space none = none
skip_white_space (some s) = some (skip_spaces s)

-- Behind the first comma, or at the end of the text.
unfoldable pub behind_comma : Bytes → Bytes
behind_comma [] = []
behind_comma (c ∷ cs) = if c == b',' then cs else behind_comma cs

unfoldable pub skip_next_comma : Cursor → Cursor
unfolding behind_comma
skip_next_comma none = none
skip_next_comma (some s) = some (behind_comma s)

-- `strsep(p_cur, delimiter)` for one delimiter
unfoldable pub strsep : Cursor → ℕ → Option Bytes × Cursor
strsep none c = (none, none)
strsep (some s) c = elim (strchr s c) [
  | none ↦ (some s, none)
  | some (before, after) ↦ (some before, some after)
]

-- `nextTok` behind the white space.
unfoldable pub take_tok : Bytes → Option Bytes × Cursor
unfolding skip_next_comma strsep
take_tok [] = strsep (some []) b','
take_tok (c ∷ cs) =
    if c == b'"'
    then (let (tok, rest) = strsep (some cs) b'"' in (tok, skip_next_comma rest))
    else strsep (some (c ∷ cs)) b','

unfoldable pub next_tok : Cursor → Option Bytes × Cursor
unfolding skip_white_space take_tok
next_tok cur = elim (skip_white_space cur) [ none ↦ (none, none) | some s ↦ take_tok s ]

unfoldable pub at_tok_nextint_base : ℕ → Bool → Cursor → Answer ℕ
unfolding next_tok
at_tok_nextint_base base uns none = record { ok = false; cur = none; out = none }
at_tok_nextint_base base uns (some s) =
    let (tok, rest) = next_tok (some s) in
    elim tok [
      | none ↦ record { ok = false; cur = rest; out = none }
      | some t ↦ record {
        ok = has_number t base;
        cur = rest;
        out = some (if uns then (strtoul t base).0 else strtol t base);
      }
    ]

unfoldable pub at_tok_nextint : Cursor → Answer ℕ
unfolding at_tok_nextint_base
at_tok_nextint = at_tok_nextint_base 10 false

unfoldable pub at_tok_nexthexint : Cursor → Answer ℕ
unfolding at_tok_nextint_base
at_tok_nexthexint = at_tok_nextint_base 16 true

unfoldable pub at_tok_nextbool : Cursor → Answer ℕ
unfolding at_tok_nextint
at_tok_nextbool cur =
    let result = at_tok_nextint cur in
    elim result.out [
      | none ↦ record { ok = false; cur = result.cur; out = none }
      | some v ↦
          if result.ok && (v == 0 || v == 1)
          then record { ok = true; cur = result.cur; out = some v }
          else record { ok = false; cur = result.cur; out = none }
    ]

-- The token itself may be NULL.
unfoldable pub at_tok_nextstr : Cursor → Answer (Option Bytes)
unfolding next_tok
at_tok_nextstr none = record { ok = false; cur = none; out = none }
at_tok_nextstr (some s) =
    let (tok, rest) = next_tok (some s) in record { ok = true; cur = rest; out = some tok }

unfoldable pub at_tok_hasmore : Cursor → Bool
at_tok_hasmore none = false
at_tok_hasmore (some []) = false
at_tok_hasmore (some (c ∷ cs)) = true
