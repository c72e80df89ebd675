-- ===== src/Ril/AtTok/Decimals.antt =====
-- Decimal numbers that at_tok_nextint and at_tok_nextbool of
-- android2.1_init/hard_ril/reference-ril/at_tok.c read.
use demonstratortool.Ril.AtTok.Digits.{
  AreDigits, Lacks-AreDigits, decimal_onto-AreDigits, digits_value, has_number-AreDigits,
  length-decimal_onto, read_digits-decimal_onto, strsep-end, strtol-AreDigits, ten_to,
}
use demonstratortool.Base.{
  ℕ, ◌+◌, ◌/◌, ◌%◌, ◌^◌, ◌≤◌, ◌<◌, ◌≡◌, refl, ap, ◌∙◌, Bool, true, false, ◌&&◌, ◌||◌, Option, none,
  some, [], ◌∷◌, ◌++◌, arith, ltb, leb, ◌==◌, if◌then◌else◌, length, Bytes, is_space, is_digit,
  strtol, has_number, skip_spaces, pick, Lacks, strchr-first, append-nil,
}
use demonstratortool.Base.{read_digits}
use demonstratortool.Init.Options.{decimal, decimal_onto}
use demonstratortool.Ril.AtTok.{
  Cursor, Answer, strsep, take_tok, next_tok, skip_white_space, at_tok_nextint_base, at_tok_nextint,
  at_tok_nextbool,
}

-- What stands behind a token: the end of the text, or a comma and more text.
abbrev pub behind : Cursor → Bytes
behind none = []
behind (some rest) = b',' ∷ rest

strsep-behind :
    (w : Bytes) (cur : Cursor) → Lacks b',' w → strsep (some (w ++ behind cur)) b',' ≡ (some w, cur)
unfolding strsep
strsep-behind w none h = rw (append-nil w) (strsep-end b',' w h)
strsep-behind w (some rest) h = rw (strsep, strchr-first b',' w rest h) refl

nextint_of :
    (s w : Bytes) (cur : Cursor)
    → next_tok (some s) ≡ (some w, cur)
    → at_tok_nextint (some s) ≡ record { ok = has_number w 10; cur = cur; out = some (strtol w 10) }
unfolding at_tok_nextint at_tok_nextint_base
nextint_of s w cur e = ap answer_of e
  where
    answer_of : Option Bytes × Cursor → Answer ℕ
    answer_of p = elim p.0 [
      | none ↦ record { ok = false; cur = p.1; out = none }
      | some t ↦ record { ok = has_number t 10; cur = p.1; out = some (strtol t 10) }
    ]

module _ (c : ℕ) (cs : Bytes) (cur : Cursor) (h : AreDigits (c ∷ cs)) where
  first_byte : (is_space c ≡ false) × ((c == b'"') ≡ false)
  unfolding is_space is_digit
  first_byte = (ground (arith, h.0), ground (arith, h.0))

  next_tok-AreDigits : next_tok (some (c ∷ cs ++ behind cur)) ≡ (some (c ∷ cs), cur)
  unfolding next_tok skip_white_space skip_spaces take_tok is_digit
  next_tok-AreDigits =
      rw (next_tok, first_byte.0, take_tok, first_byte.1)
        (strsep-behind (c ∷ cs) cur (Lacks-AreDigits b',' (c ∷ cs) refl h))

  -- Digits up to a comma or to the end of the text are read as their value.
  pub at_tok_nextint-AreDigits :
      digits_value (c ∷ cs) < 2 ^ 31
      → at_tok_nextint (some (c ∷ cs ++ behind cur))
        ≡ record { ok = true; cur = cur; out = some (digits_value (c ∷ cs)) }
  at_tok_nextint-AreDigits k =
      nextint_of _ (c ∷ cs) cur next_tok-AreDigits
      ∙ ap (λ (a : Bool × ℕ). record { ok = a.0; cur = cur; out = some a.1 })
          (cc (has_number-AreDigits c cs h.0, strtol-AreDigits c cs h.0 k))

nextint_word :
    (w : Bytes) (cur : Cursor)
    → AreDigits w
    → 0 < length w
    → digits_value w < 2 ^ 31
    → at_tok_nextint (some (w ++ behind cur))
      ≡ record { ok = true; cur = cur; out = some (digits_value w) }
nextint_word [] cur h l k = absurd (omega arith)
nextint_word (c ∷ cs) cur h l k = at_tok_nextint-AreDigits c cs cur h k

decimal-below : (n : ℕ) → n < 2 ^ 31 → decimal n ≡ decimal_onto 10 n []
unfolding decimal
decimal-below n h = let below : leb (2 ^ 31) n ≡ false = ground arith in rw (below, decimal) refl

digits_value-decimal : (n : ℕ) → n < 2 ^ 31 → digits_value (decimal_onto 10 n []) ≡ n
unfolding read_digits ten_to
digits_value-decimal n h =
    ap (λ (p : ℕ × Bytes). p.0) (read_digits-decimal_onto 10 n [] (omega arith))

not_empty : (n : ℕ) → 0 < length (decimal_onto 10 n [])
unfolding decimal_onto
not_empty n =
    pick (λ t. 0 < length t) (ltb n 10) ((b'0' + n % 10) ∷ [])
      (decimal_onto 9 (n / 10) ((b'0' + n % 10) ∷ [])) (omega arith)
      (omega (arith, length-decimal_onto 9 (n / 10) ((b'0' + n % 10) ∷ [])))

-- A number below 2 ^ 31 in decimal, with a comma or the end of the text behind it.
abbrev pub number_text : ℕ → Cursor → Bytes
number_text n cur = decimal n ++ behind cur

-- A number below 2 ^ 31 that is written in decimal, up to a comma or to the end of the text, is read as
-- this number, and the reader is behind the comma.
pub at_tok_nextint-decimal :
    (n : ℕ) (cur : Cursor)
    → n < 2 ^ 31
    → at_tok_nextint (some (number_text n cur)) ≡ record { ok = true; cur = cur; out = some n }
at_tok_nextint-decimal n cur h =
    let w : Bytes = decimal_onto 10 n [] in
    let value : digits_value w ≡ n = digits_value-decimal n h in
    rw (decimal-below n h) (
      nextint_word w cur (decimal_onto-AreDigits 10 n [] tt) (not_empty n) (omega arith)
      ∙ ap (λ v. record { ok = true; cur = cur; out = some v }) value)

pub at_tok_nextbool-decimal :
    (n : ℕ) (cur : Cursor)
    → n ≤ 1
    → at_tok_nextbool (some (number_text n cur)) ≡ record { ok = true; cur = cur; out = some n }
unfolding at_tok_nextbool
at_tok_nextbool-decimal n cur h =
    ap bool_of (at_tok_nextint-decimal n cur (omega arith))
    ∙ is_flag (n == 0 || n == 1) _ _ (ground arith)
  where
    bool_of : Answer ℕ → Answer ℕ
    bool_of result = elim result.out [
      | none ↦ record { ok = false; cur = result.cur; out = none }
      | some v ↦
          if result.ok && (v == 0 || v == 1)
          then record { ok = true; cur = result.cur; out = some v }
          else record { ok = false; cur = result.cur; out = none }
    ]

    is_flag : (b : Bool) (x y : Answer ℕ) → b ≡ true → (if true && b then x else y) ≡ x
    is_flag b x y e = rw e refl
