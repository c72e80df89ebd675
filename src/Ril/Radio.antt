-- ===== src/Ril/Radio.antt =====
-- The radio of android2.1_init/hard_ril/reference-ril/reference-ril.c: its static variables, what it tells
-- libril, and how it puts a command to the modem.
pub mod Ends
pub mod Frame
pub mod Moves
use demonstratortool.Base.{
  ℕ, ◌+◌, Bool, true, false, not, Option, none, some, List, [], ◌∷◌, ◌==◌, if◌then◌else◌, Bytes,
}
use demonstratortool.Ril.Telephony.{
  CallInfo, CardStatus, DataCall, Errno, RadioState, same_state, success, unavailable,
}
use demonstratortool.Ril.Channel.{
  CommandType, no_result, numeric, singleline, multiline, AtError, AtResponse,
}
use demonstratortool.Ril.Commands.{Command, is_given}

-- `SIM_Status`
pub data SimStatus : Type 0 where
  sim_absent not_ready ready sim_pin sim_puk network_personalization : SimStatus

-- What a pointer and a length for libril stand for.
pub data Reply : Type 0 where
  nothing : Reply
  numbers : List ℕ → Reply
  line_text : Bytes → Reply
  strings : List (Option Bytes) → Reply
  call_list : List CallInfo → Reply
  data_calls : List DataCall → Reply
  sim_io_response : ℕ → ℕ → Option Bytes → Reply
  empty_sms_response : Reply
  card : CardStatus → Reply

-- The `RIL_UNSOL_…` codes that the file gives.
pub data Unsol : Type 0 where
  radio_state_changed call_state_changed network_state_changed : Unsol
  data_call_list_changed nitz_time_received new_sms new_sms_status_report : Unsol

-- The functions that libril is asked to call: `pollSIMState` after a second, `sendCallStateChanged`
-- after half of one, and `onDataCallListChanged` at once.
pub data Timed : Type 0 where
  poll_later send_call_state_changed data_call_list : Timed

-- What the file does to the outside: a command to the channel, `RIL_onRequestComplete` for the request
-- at hand, `RIL_onUnsolicitedResponse`, `RIL_requestTimedCallback`, `at_close`, and what
-- `requestSetupDataCall` writes to `/dev/qmi` and gives to `system`.
pub data Call : Type 0 where
  issued : Command → Call
  completed : Errno → Reply → Call
  notified : Unsol → Reply → Call
  timed : Timed → Call
  at_closed : Call
  wrote_to_qmi : Bytes → Call
  started_dhcp : Call

-- `sState`, `s_closed`, `s_incomingOrWaitingLine`, `s_repollCallsCount` and `s_expectAnswer`, the number
-- of commands so far, and the calls made, the last one first.
pub record Radio : Type 0 where
  pub state : RadioState
  pub closed : Bool
  pub incoming_or_waiting_line : ℕ
  pub repoll_calls_count : ℕ
  pub expect_answer : Bool
  pub sent : ℕ
  pub trace : List Call

-- What the functions `at_send_command…` come back with: the result code, none for 0; `*pp_outResponse`,
-- NULL if it is not written; and whether one of the callbacks `onATTimeout` and `onATReaderClosed` was
-- called while the command was under way.
pub record Answered : Type 0 where
  pub error : Option AtError
  pub response : Option AtResponse
  pub closes : Bool

-- The answer to the n-th command.
pub record Modem : Type 0 where
  pub answer : ℕ → Command → Answered

-- The end of a function: a value; a read through a null pointer; a write behind the end of an array;
-- or no fuel left.
pub data Outcome {ℓ} (A : Type ℓ) : Type ℓ where
  done : A → Outcome A
  null_read overrun no_fuel : Outcome A

infixl 5 ◌>>=◌
abbrev pub ◌>>=◌ {ℓ κ} : {A : Type ℓ} {B : Type κ} → Outcome A → (A → Outcome B) → Outcome B
done a >>= f = f a
null_read >>= f = null_read
overrun >>= f = overrun
no_fuel >>= f = no_fuel

abbrev pub note : Call → Radio → Radio
note e r = record r { trace = e ∷ r.trace }

abbrev pub complete : Errno → Reply → Radio → Radio
complete e reply r = note (completed e reply) r

-- The first half of `setRadioState`: the new state, and the message that it has changed.
unfoldable pub enter_state : RadioState → Radio → Radio
enter_state new r =
    let next = if r.closed then unavailable else new in
    if same_state r.state next
    then r
    else note (notified radio_state_changed nothing) (record r { state = next })

-- `onATReaderClosed` and `onATTimeout`
unfoldable pub on_at_closed : Radio → Radio
on_at_closed r = enter_state unavailable (record (note at_closed r) { closed = true })

-- A command, and the callbacks in the course of it.
unfoldable pub send : Modem → Command → Radio → Answered × Radio
send m cmd r =
    let a = m.answer r.sent cmd in
    let r' = note (issued cmd) (record r { sent = r.sent + 1 }) in
    (a, if a.closes then on_at_closed r' else r')

module _ (text : Bytes) where
  abbrev command_of : CommandType → Option Bytes → Option Bytes → Bool → Command
  command_of type prefix pdu wants = record {
    text = text;
    type = type;
    response_prefix = prefix;
    sms_pdu = pdu;
    has_timeout = false;
    wants_response = wants;
  }

  -- `at_send_command` with and without a place for the response, and the others with one.
  abbrev pub plain : Command
  plain = command_of no_result none none false

  abbrev pub checked : Command
  checked = command_of no_result none none true

  abbrev pub one_line : Bytes → Command
  one_line prefix = command_of singleline (some prefix) none true

  abbrev pub one_number : Command
  one_number = command_of numeric none none true

  abbrev pub many_lines : Bytes → Command
  many_lines prefix = command_of multiline (some prefix) none true

  abbrev pub sms : Bytes → Bytes → Command
  sms pdu prefix = command_of singleline (some prefix) (some pdu) true

-- A command whose result is ignored.
abbrev pub send_plain : Modem → Bytes → Radio → Radio
send_plain m text r = (send m (plain text) r).1

-- `p_response->success` behind `err < 0 ||` or `err != 0 ||`: whether the command has failed.
unfoldable pub has_failed : Answered → Outcome Bool
has_failed a =
    if is_given a.error
    then done true
    else elim a.response [ none ↦ null_read | some p ↦ done (not p.success) ]

-- `p_response->p_intermediates`
unfoldable pub intermediates_of : Answered → Outcome (List Bytes)
intermediates_of a = elim a.response [ none ↦ null_read | some p ↦ done p.intermediates ]

-- `p_response->p_intermediates->line`
unfoldable pub line_of : Answered → Outcome Bytes
line_of a = elim a.response [
  | none ↦ null_read
  | some p ↦ elim p.intermediates [ [] ↦ null_read | line ∷ rest ↦ done line ]
]
