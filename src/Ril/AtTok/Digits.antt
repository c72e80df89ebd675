-- ===== src/Ril/AtTok/Digits.antt =====
-- Texts of digits, and what <stdlib.h> and android2.1_init/hard_ril/reference-ril/at_tok.c make of them.
use demonstratortool.Base.{
  ℕ, zero, suc, ◌+◌, ◌*◌, ◌/◌, ◌%◌, ◌^◌, ◌≤◌, ◌<◌, ◌≡◌, refl, ap, ◌∙◌, inl, inr, Bool, true, false,
  none, some, [], ◌∷◌, arith, ltb, ◌==◌, if◌then◌else◌, Bool-cases, length, All, Bytes, strchr,
  is_space, is_digit, digit_value, strtol, has_number, skip_spaces, pick, Lacks,
}
use demonstratortool.Base.{read_digits, detect_base, strip_sign}
use demonstratortool.Init.Options.{decimal_onto}
use demonstratortool.Ril.AtTok.{strsep}

abbrev pub AreDigits : Bytes → Type 0
AreDigits s = All (λ c. is_digit c ≡ true) s

digit-is_digit : (n : ℕ) → is_digit (b'0' + n % 10) ≡ true
unfolding is_digit
digit-is_digit n = ground arith

pub decimal_onto-AreDigits :
    (fuel n : ℕ) (s : Bytes) → AreDigits s → AreDigits (decimal_onto fuel n s)
unfolding decimal_onto
decimal_onto-AreDigits zero n s h = h
decimal_onto-AreDigits (suc fuel) n s h =
    pick AreDigits (ltb n 10) _ _ (digit-is_digit n, h)
      (decimal_onto-AreDigits fuel (n / 10) _ (digit-is_digit n, h))

pub length-decimal_onto : (fuel n : ℕ) (s : Bytes) → length s ≤ length (decimal_onto fuel n s)
unfolding decimal_onto
length-decimal_onto zero n s = omega arith
length-decimal_onto (suc fuel) n s =
    pick (λ t. length s ≤ length t) (ltb n 10) ((b'0' + n % 10) ∷ s)
      (decimal_onto fuel (n / 10) ((b'0' + n % 10) ∷ s)) (omega arith)
      (omega (arith, length-decimal_onto fuel (n / 10) ((b'0' + n % 10) ∷ s)))

-- The powers of ten.
unfoldable pub ten_to : ℕ → ℕ
ten_to zero = 1
ten_to (suc k) = 10 * ten_to k

digit_value-digit : (n : ℕ) → digit_value (b'0' + n % 10) ≡ n % 10
unfolding digit_value
digit_value-digit n = ground arith

read_digit :
    (acc n : ℕ) (s : Bytes)
    → read_digits 10 acc ((b'0' + n % 10) ∷ s) ≡ read_digits 10 (acc * 10 + n % 10) s
unfolding read_digits
read_digit acc n s =
    let small : ltb (n % 10) 10 ≡ true = ground arith in rw (digit_value-digit n, small) refl

pub read_digits-decimal_onto :
    (fuel n : ℕ) (s : Bytes)
    → n < ten_to fuel
    → read_digits 10 0 (decimal_onto fuel n s) ≡ read_digits 10 n s
unfolding decimal_onto ten_to
read_digits-decimal_onto zero n s h = ap (λ k. read_digits 10 k s) (omega arith)
read_digits-decimal_onto (suc fuel) n s h = elim (Bool-cases (ltb n 10)) [
  | inl e ↦ rw (e, decimal_onto) (read_digit 0 n s ∙ ap (λ k. read_digits 10 k s) (ground arith))
  | inr e ↦
      rw (e, decimal_onto)
        (read_digits-decimal_onto fuel (n / 10) ((b'0' + n % 10) ∷ s) (omega arith)
          ∙ read_digit (n / 10) n s
          ∙ ap (λ k. read_digits 10 k s) (omega arith))
]

detect_base-ten : (s : Bytes) → detect_base 10 s ≡ (10, s)
unfolding detect_base
detect_base-ten [] = refl
detect_base-ten (z ∷ []) = refl
detect_base-ten (z ∷ x ∷ []) = refl
detect_base-ten (z ∷ x ∷ d ∷ rest) = ground arith

-- The value of a text of digits.
abbrev pub digits_value : Bytes → ℕ
digits_value w = (read_digits 10 0 w).0

no_sign :
    (c : ℕ) (cs : Bytes) → is_digit c ≡ true → strip_sign (skip_spaces (c ∷ cs)) ≡ (false, c ∷ cs)
unfolding strip_sign skip_spaces is_space is_digit
no_sign c cs h = ground arith

in_range : (v : ℕ) → v < 2 ^ 31 → (if ltb 0x7fffffff v then 0x7fffffff else v) ≡ v
in_range v h = ground arith

pub strtol-AreDigits :
    (c : ℕ) (cs : Bytes)
    → is_digit c ≡ true
    → digits_value (c ∷ cs) < 2 ^ 31
    → strtol (c ∷ cs) 10 ≡ digits_value (c ∷ cs)
unfolding strtol
strtol-AreDigits c cs h k = rw (strtol, no_sign c cs h, detect_base-ten (c ∷ cs)) (in_range _ k)

digit_value-is_digit : (c : ℕ) → is_digit c ≡ true → ltb (digit_value c) 10 ≡ true
unfolding digit_value is_digit
digit_value-is_digit c h = ground arith

body_of :
    (c : ℕ) (cs : Bytes)
    → is_digit c ≡ true
    → detect_base 10 (strip_sign (skip_spaces (c ∷ cs))).1 ≡ (10, c ∷ cs)
body_of c cs h = rw (no_sign c cs h) (detect_base-ten (c ∷ cs))

pub has_number-AreDigits : (c : ℕ) (cs : Bytes) → is_digit c ≡ true → has_number (c ∷ cs) 10 ≡ true
unfolding has_number
has_number-AreDigits c cs h = ap starts_well (body_of c cs h) ∙ digit_value-is_digit c h
  where
    starts_well : ℕ × Bytes → Bool
    starts_well p = elim p.1 [ [] ↦ false | c ∷ rest ↦ ltb (digit_value c) p.0 ]

pub Lacks-AreDigits : (d : ℕ) (w : Bytes) → is_digit d ≡ false → AreDigits w → Lacks d w
Lacks-AreDigits d [] e h = tt
Lacks-AreDigits d (c ∷ w) e h = (λ q. cc (q, h.0, e), Lacks-AreDigits d w e h.1)

strchr-Lacks : (d : ℕ) (w : Bytes) → Lacks d w → strchr w d ≡ none
unfolding strchr
strchr-Lacks d [] h = refl
strchr-Lacks d (x ∷ w) h =
    let other : (x == d) ≡ false = ground arith in rw (other, strchr-Lacks d w h.1) refl

pub strsep-end : (d : ℕ) (w : Bytes) → Lacks d w → strsep (some w) d ≡ (some w, none)
unfolding strsep
strsep-end d w h = rw (strsep, strchr-Lacks d w h) refl
