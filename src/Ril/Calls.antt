-- ===== src/Ril/Calls.antt =====
-- The call list (callFromCLCCLine and requestGetCurrentCalls of
-- android2.1_init/hard_ril/reference-ril/reference-ril.c).
pub mod Rendered
pub mod Listed
use demonstratortool.Base.{
  ℕ, ◌+◌, ◌^◌, Bool, true, false, not, ◌&&◌, ◌||◌, Option, none, some, List, [], ◌∷◌, ◌++◌, ltb,
  ◌==◌, if◌then◌else◌, Bytes, codes, is_digit,
}
use demonstratortool.Ril.AtTok.{at_tok_nextint, at_tok_nextstr, at_tok_hasmore}
use demonstratortool.Ril.Fields.{Reader, int_field, local_field, bool_field, finish, from_start}
use demonstratortool.Ril.Telephony.{
  success, generic_failure, CallState, active, holding, dialing, alerting, incoming, call_waiting,
  CallInfo,
}
use demonstratortool.Ril.Radio.{
  nothing, call_list, timed, send_call_state_changed, Radio, Modem, Outcome, done, ◌>>=◌, note,
  complete, send, many_lines, has_failed, intermediates_of,
}

-- `clccStateToRILState`
unfoldable pub clcc_state_to_ril_state : ℕ → Option CallState
clcc_state_to_ril_state state =
    if state == 0
    then some active
    else if state == 1
    then some holding
    else if state == 2
    then some dialing
    else if state == 3
    then some alerting
    else if state == 4
    then some incoming
    else if state == 5
    then some call_waiting
    else none

-- `strspn(number, "+0123456789")` is 0.
unfoldable pub is_lame : Bytes → Bool
is_lame [] = true
is_lame (c ∷ cs) = not (c == b'+' || is_digit c)

abbrev number_of : Option (Option Bytes) → Option Bytes
number_of none = none
number_of (some none) = none
number_of (some (some n)) = if is_lame n then none else some n

-- The number and its type, which need not be there. `*out` is written if the call does not fail.
unfoldable pub number_field : Reader CallInfo
number_field p cur =
    if not (at_tok_hasmore cur)
    then (true, p)
    else (let result = at_tok_nextstr cur in
        if not result.ok
        then (true, p)
        else int_field (λ v p. record p { toa = v }) finish
            (record p { number = number_of result.out }) result.cur)

abbrev state_of : Option ℕ → Option CallState
state_of none = none
state_of (some v) = clcc_state_to_ril_state v

-- The state, behind which the fields follow if it is one.
unfoldable pub state_field : Reader CallInfo → Reader CallInfo
state_field next p cur =
    let result = at_tok_nextint cur in
    if not result.ok then (false, p) else elim (state_of result.out) [
      | none ↦ (false, p)
      | some state ↦ next (record p { call_state = state }) result.cur
    ]

-- `callFromCLCCLine`: whether it returns 0, and what it leaves in `*p_call`.
unfoldable pub call_from_clcc_line : Bytes → CallInfo → Bool × CallInfo
call_from_clcc_line line p =
    from_start
      (int_field (λ v p. record p { index = v })
        (bool_field (λ v p. record p { is_mt = v })
          (state_field (
            local_field (λ v p. record p { is_voice = v == 0 })
              (bool_field (λ v p. record p { is_mpty = v }) number_field)))))
      p line

abbrev pub zero_call : CallInfo
zero_call = record {
  call_state = active;
  index = 0;
  toa = 0;
  is_mpty = 0;
  is_mt = 0;
  is_voice = false;
  number = none;
}

-- -1
abbrev pub no_line : ℕ
no_line = 0xffffffff

-- The loop over the lines: the valid calls so far, `p_calls[countValidCalls]`,
-- `s_incomingOrWaitingLine` and `needRepoll`.
pub record Scan : Type 0 where
  pub calls : List CallInfo
  pub slot : CallInfo
  pub waiting_line : ℕ
  pub need_repoll : Bool

abbrev pub is_waiting : CallState → Bool
is_waiting incoming = true
is_waiting call_waiting = true
is_waiting _ = false

abbrev pub is_settled : CallState → Bool
is_settled active = true
is_settled holding = true
is_settled _ = false

abbrev keep_call : CallInfo → Scan → Scan
keep_call p s = record {
  calls = s.calls ++ p ∷ [];
  slot = zero_call;
  waiting_line = if is_waiting p.call_state then p.index else s.waiting_line;
  need_repoll = s.need_repoll || not (is_settled p.call_state);
}

-- The slot of a line that is refused is used for the next one as it is.
unfoldable pub scan_line : Bytes → Scan → Scan
scan_line line s =
    let (valid, p) = call_from_clcc_line line s.slot in
    if valid then keep_call p s else record s { slot = p }

unfoldable pub scan_lines : List Bytes → Scan → Scan
scan_lines [] s = s
scan_lines (line ∷ lines) s = scan_lines lines (scan_line line s)

abbrev pub first_scan : Scan
first_scan = record { calls = []; slot = zero_call; waiting_line = no_line; need_repoll = false }

-- `REPOLL_CALLS_COUNT_MAX`
abbrev pub repoll_calls_count_max : ℕ
repoll_calls_count_max = 4

abbrev is_active : CallState → Bool
is_active active = true
is_active _ = false

unfoldable pub has_active : ℕ → List CallInfo → Bool
has_active line [] = false
has_active line (p ∷ ps) = (p.index == line && is_active p.call_state) || has_active line ps

-- The test of the workaround, for the line that was incoming or waiting before. An `int` is negative
-- from 2 ^ 31 on.
unfoldable pub is_erroneous_answer : ℕ → Scan → Radio → Bool
is_erroneous_answer previous s r =
    ltb previous (2 ^ 31)
    && not (ltb s.waiting_line (2 ^ 31))
    && not r.expect_answer
    && has_active previous s.calls
    && ltb r.repoll_calls_count repoll_calls_count_max

-- `requestGetCurrentCalls` behind the loop.
unfoldable pub answer_calls : ℕ → Scan → Radio → Radio
answer_calls previous s r =
    if is_erroneous_answer previous s r
    then complete generic_failure nothing (record r {
      incoming_or_waiting_line = s.waiting_line;
      repoll_calls_count = r.repoll_calls_count + 1;
    })
    else (let r' = complete success (call_list s.calls) (record r {
      incoming_or_waiting_line = s.waiting_line;
      expect_answer = false;
      repoll_calls_count = 0;
    }) in
        if s.need_repoll then note (timed send_call_state_changed) r' else r')

unfoldable pub request_get_current_calls : Modem → Radio → Outcome Radio
request_get_current_calls m r =
    let previous = r.incoming_or_waiting_line in
    let (a, r') =
      send m (many_lines (codes "AT+CLCC") (codes "+CLCC:"))
        (record r { incoming_or_waiting_line = no_line }) in
    has_failed a >>= λ failed.
    if failed
    then done (complete generic_failure nothing r')
    else (intermediates_of a >>= λ lines.
        done (answer_calls previous (scan_lines lines first_scan) r'))
