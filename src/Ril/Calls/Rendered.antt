-- ===== src/Ril/Calls/Rendered.antt =====
-- The lines of the call list that callFromCLCCLine of
-- android2.1_init/hard_ril/reference-ril/reference-ril.c reads.
use demonstratortool.Base.{
  ℕ, ◌^◌, ◌≤◌, ◌<◌, ◌≡◌, refl, ap, ◌∙◌, Bool, true, false, not, Option, none, some, ◌∷◌, ◌++◌,
  arith, ◌==◌, if◌then◌else◌, Bytes, codes, strchr, is_space, skip_spaces, Lacks,
}
use demonstratortool.Ril.AtTok.{
  Cursor, Answer, next_tok, skip_white_space, at_tok_nextint_base, behind_comma, at_tok_start,
  at_tok_nextint, at_tok_hasmore,
}
use demonstratortool.Ril.AtTok.Fields.{quote, at_tok_nextstr-quote}
use demonstratortool.Ril.AtTok.Decimals.{
  number_text, at_tok_nextint-decimal, at_tok_nextbool-decimal,
}
use demonstratortool.Ril.Fields.{
  Reader, field, int_field, local_field, bool_field, finish, from_start,
}
use demonstratortool.Ril.Telephony.{
  CallState, active, holding, dialing, alerting, incoming, call_waiting, CallInfo,
}
use demonstratortool.Ril.Calls.{
  clcc_state_to_ril_state, is_lame, number_field, state_field, state_of, call_from_clcc_line,
}

unfoldable pub call_state_number : CallState → ℕ
call_state_number active = 0
call_state_number holding = 1
call_state_number dialing = 2
call_state_number alerting = 3
call_state_number incoming = 4
call_state_number call_waiting = 5

-- The fields of a line from the first one on, with the number in quotes.
abbrev pub clcc_fields : CallInfo → Bytes → Bytes
unfolding call_state_number
clcc_fields p n = number_text p.index (
    some (
      number_text p.is_mt (
        some (
          number_text (call_state_number p.call_state) (
            some (
              number_text (if p.is_voice then 0 else 1) (
                some (number_text p.is_mpty (some (quote n (b',' ∷ number_text p.toa none)))))))))))

-- `+CLCC: 1,0,2,0,0,"+18005551212",145`
unfoldable pub clcc_line : CallInfo → Bytes → Bytes
clcc_line p n = codes "+CLCC" ++ b':' ∷ (b' ' ∷ clcc_fields p n)

-- The numbers fit an `int`, the flags are 0 or 1, and the number can be told from a text like
-- `NOT AVAILABLE`.
pub record IsCall (p : CallInfo) (n : Bytes) : Type 0 where
  pub small_index : p.index < 2 ^ 31
  pub small_toa : p.toa < 2 ^ 31
  pub flag_mt : p.is_mt ≤ 1
  pub flag_mpty : p.is_mpty ≤ 1
  pub has_number : p.number ≡ some n
  pub no_quote : Lacks b'"' n
  pub is_a_number : is_lame n ≡ false

int_field-decimal :
    {A : Type 0} (put : ℕ → A → A) (next : Reader A) (a : A) (n : ℕ) (cur : Cursor)
    → n < 2 ^ 31
    → int_field put next a (some (number_text n cur)) ≡ next (put n a) cur
unfolding int_field field
int_field-decimal put next a n cur h =
    ap (λ answer. field answer put next a) (at_tok_nextint-decimal n cur h)

local_field-decimal :
    {A : Type 0} (put : ℕ → A → A) (next : Reader A) (a : A) (n : ℕ) (cur : Cursor)
    → n < 2 ^ 31
    → local_field put next a (some (number_text n cur)) ≡ next (put n a) cur
unfolding local_field
local_field-decimal put next a n cur h = rw (at_tok_nextint-decimal n cur h) refl

bool_field-decimal :
    {A : Type 0} (put : ℕ → A → A) (next : Reader A) (a : A) (n : ℕ) (cur : Cursor)
    → n ≤ 1
    → bool_field put next a (some (number_text n cur)) ≡ next (put n a) cur
unfolding bool_field field
bool_field-decimal put next a n cur h =
    ap (λ answer. field answer put next a) (at_tok_nextbool-decimal n cur h)

clcc_state-number : (s : CallState) → clcc_state_to_ril_state (call_state_number s) ≡ some s
unfolding clcc_state_to_ril_state call_state_number
clcc_state-number active = refl
clcc_state-number holding = refl
clcc_state-number dialing = refl
clcc_state-number alerting = refl
clcc_state-number incoming = refl
clcc_state-number call_waiting = refl

small_state : (s : CallState) → call_state_number s < 2 ^ 31
unfolding call_state_number
small_state active = omega arith
small_state holding = omega arith
small_state dialing = omega arith
small_state alerting = omega arith
small_state incoming = omega arith
small_state call_waiting = omega arith

state_field-decimal :
    (next : Reader CallInfo) (p : CallInfo) (s : CallState) (cur : Cursor)
    → state_field next p (some (number_text (call_state_number s) cur))
      ≡ next (record p { call_state = s }) cur
unfolding state_field
state_field-decimal next p s cur =
    ap go_on (at_tok_nextint-decimal (call_state_number s) cur (small_state s))
    ∙ rw (clcc_state-number s) refl
  where
    go_on : Answer ℕ → Bool × CallInfo
    go_on result = if not result.ok then (false, p) else elim (state_of result.out) [
      | none ↦ (false, p)
      | some state ↦ next (record p { call_state = state }) result.cur
    ]

number_field-quote :
    (p : CallInfo) (n : Bytes) (toa : ℕ)
    → Lacks b'"' n
    → is_lame n ≡ false
    → toa < 2 ^ 31
    → number_field p (some (quote n (b',' ∷ number_text toa none)))
      ≡ (true, record p { number = some n; toa = toa })
unfolding number_field at_tok_hasmore behind_comma
number_field-quote p n toa l q h =
    rw (at_tok_nextstr-quote n (b',' ∷ number_text toa none) l, q)
      (int_field-decimal (λ v (p : CallInfo). record p { toa = v }) finish
        (record p { number = some n }) toa none h)

-- The space behind the prefix is skipped.
int_field-space :
    {A : Type 0} (put : ℕ → A → A) (next : Reader A) (a : A) (s : Bytes)
    → int_field put next a (some (b' ' ∷ s)) ≡ int_field put next a (some s)
unfolding int_field at_tok_nextint at_tok_nextint_base next_tok skip_white_space skip_spaces
    is_space
int_field-space put next a s = refl

small_mode : (b : Bool) → (if b then 0 else 1) < 2 ^ 31
small_mode true = omega arith
small_mode false = omega arith

voice_flag : (b : Bool) → ((if b then 0 else 1) == 0) ≡ b
voice_flag true = refl
voice_flag false = refl

-- A call that is written in a line, with its number in quotes, is read back from the line, and nothing
-- stays of what was in the place before, if the numbers fit an `int`, the flags are 0 or 1, the number has
-- no quotes in it and begins with a digit or a plus, and the fields that are not in the line are 0.
pub call_from_clcc_line-clcc_line :
    (p : CallInfo) (n : Bytes) (slot : CallInfo)
    → IsCall p n
    → call_from_clcc_line (clcc_line p n) slot ≡ (true, p)
unfolding call_from_clcc_line clcc_line clcc_fields from_start at_tok_start strchr
call_from_clcc_line-clcc_line p n slot c =
    int_field-space _ _ slot (clcc_fields p n)
    ∙ int_field-decimal _ _ slot p.index _ c.small_index
    ∙ bool_field-decimal _ _ _ p.is_mt _ c.flag_mt
    ∙ state_field-decimal _ _ p.call_state _
    ∙ local_field-decimal _ _ _ (if p.is_voice then 0 else 1) _ (small_mode p.is_voice)
    ∙ bool_field-decimal _ _ _ p.is_mpty _ c.flag_mpty
    ∙ number_field-quote _ n p.toa c.no_quote c.is_a_number c.small_toa
    ∙ ap (λ (x : Bool × Option Bytes). (true, record p { is_voice = x.0; number = x.1 }))
        (cc (voice_flag p.is_voice, c.has_number))
