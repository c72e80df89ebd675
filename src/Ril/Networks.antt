-- ===== src/Ril/Networks.antt =====
-- The network that the modem is registered in (requestRegistrationState and requestOperator of
-- android2.1_init/hard_ril/reference-ril/reference-ril.c).
pub mod Crash
use demonstratortool.Base.{
  ℕ, zero, suc, ◌+◌, ◌-◌, ◌/◌, ◌%◌, Bool, false, not, ◌||◌, Option, none, some, List, [], ◌∷◌, ltb,
  ◌==◌, if◌then◌else◌, set, Bytes, codes,
}
use demonstratortool.Init.Options.{decimal}
use demonstratortool.Ril.AtTok.{at_tok_start, at_tok_nextint, at_tok_nextstr, at_tok_hasmore}
use demonstratortool.Ril.Fields.{Reader, int_field, hex_field, finish, from_start}
use demonstratortool.Ril.Commands.{is_given}
use demonstratortool.Ril.Telephony.{success, generic_failure}
use demonstratortool.Ril.Radio.{
  nothing, strings, Radio, Modem, Outcome, done, overrun, ◌>>=◌, complete, send, one_line,
  many_lines, intermediates_of, line_of,
}

-- `response` of `requestRegistrationState`, and `count`
pub record Registration : Type 0 where
  pub stat : ℕ
  pub lac : ℕ
  pub cell : ℕ
  pub network_type : ℕ
  pub count : ℕ

-- -1
abbrev pub unknown : ℕ
unknown = 0xffffffff

abbrev no_registration : Registration
no_registration = record { stat = 0; lac = unknown; cell = unknown; network_type = 0; count = 3 }

unfoldable pub commas : Bytes → ℕ
commas [] = 0
commas (c ∷ cs) = if c == b',' then suc (commas cs) else commas cs

abbrev pub stat_field : Reader Registration → Reader Registration
stat_field = int_field (λ v r. record r { stat = v })

abbrev pub place_fields : Reader Registration → Reader Registration
place_fields next =
    hex_field (λ v r. record r { lac = v }) (hex_field (λ v r. record r { cell = v }) next)

abbrev pub type_field : Reader Registration
type_field = hex_field (λ v r. record r { network_type = v; count = 4 }) finish

abbrev pub skip_field : Reader Registration → Reader Registration
skip_field = int_field (λ v r. r)

-- The `switch (commas)`
unfoldable pub registration_fields : ℕ → Reader Registration
registration_fields n =
    if n == 0
    then stat_field finish
    else if n == 1
    then skip_field (stat_field finish)
    else if n == 2
    then stat_field (place_fields finish)
    else if n == 3
    then skip_field (stat_field (place_fields finish))
    else if n == 4
    then skip_field (stat_field (place_fields type_field))
    else λ r cur. (false, r)

abbrev pub counted_fields : Reader Registration
counted_fields r none = (false, r)
counted_fields r (some s) = registration_fields (commas s) r (some s)

unfoldable pub registration_of_line : Bytes → Bool × Registration
registration_of_line line = from_start counted_fields no_registration line

-- `"%x"` for a 32-bit pattern: it has eight digits at most.
unfoldable pub hexadecimal_onto : ℕ → ℕ → Bytes → Bytes
hexadecimal_onto zero n s = s
hexadecimal_onto (suc fuel) n s =
    let digit = if ltb (n % 16) 10 then b'0' + n % 16 else b'a' + (n % 16 - 10) in
    let more = hexadecimal_onto fuel (n / 16) (digit ∷ s) in if ltb n 16 then digit ∷ s else more

unfoldable pub hexadecimal : ℕ → Bytes
hexadecimal n = hexadecimal_onto 8 n []

unfoldable pub response_strings : Registration → List (Option Bytes)
response_strings g =
    some (decimal g.stat)
    ∷ some (hexadecimal g.lac)
    ∷ some (hexadecimal g.cell)
    ∷ (if ltb 3 g.count then some (decimal g.network_type) ∷ [] else [])

-- A command that comes to an answer is taken for a success.
unfoldable pub request_registration_state : Modem → Bool → Radio → Outcome Radio
request_registration_state m is_gprs r =
    let cmd =
      if is_gprs
      then one_line (codes "AT+CGREG?") (codes "+CGREG:")
      else one_line (codes "AT+CREG?") (codes "+CREG:") in
    let (a, r') = send m cmd r in
    if is_given a.error
    then done (complete generic_failure nothing r')
    else (line_of a >>= λ line.
        let (ok, g) = registration_of_line line in
        done (
          if ok
          then complete success (strings (response_strings g)) r'
          else complete generic_failure nothing r'))

-- What a line says of the operator: none if it cannot be read, and NULL where there is no name.
unfoldable pub operator_of_line : Bytes → Option (Option Bytes)
operator_of_line line =
    let (started, cur) = at_tok_start (some line) in
    let mode = at_tok_nextint cur in
    let format = at_tok_nextint mode.cur in
    let name = at_tok_nextstr format.cur in
    if not started || not mode.ok
    then none
    else if not (at_tok_hasmore mode.cur)
    then some none
    else if not format.ok
    then none
    else if not (at_tok_hasmore format.cur)
    then some none
    else if name.ok
    then name.out
    else none

-- The loop over the lines, with the array of three: none at the label `error`.
unfoldable pub operator_lines :
    ℕ → List (Option Bytes) → List Bytes → Outcome (Option (List (Option Bytes)))
operator_lines i response [] = done (if i == 3 then some response else none)
operator_lines i response (line ∷ lines) =
    let more : Option Bytes → Outcome (Option (List (Option Bytes))) =
      λ v. operator_lines (i + 1) (set response i v) lines in
    elim (operator_of_line line) [ none ↦ done none | some v ↦ if ltb i 3 then more v else overrun ]

abbrev pub operator_command : Bytes
operator_command = codes "AT+COPS=3,0;+COPS?;+COPS=3,1;+COPS?;+COPS=3,2;+COPS?"

unfoldable pub request_operator : Modem → Radio → Outcome Radio
request_operator m r =
    let (a, r') = send m (many_lines operator_command (codes "+COPS:")) r in
    if is_given a.error
    then done (complete generic_failure nothing r')
    else (intermediates_of a >>= operator_lines 0 (none ∷ none ∷ none ∷ []) >>= λ o. elim o [
      | none ↦ done (complete generic_failure nothing r')
      | some response ↦ done (complete success (strings response) r')
    ])
