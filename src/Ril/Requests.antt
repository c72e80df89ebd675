-- ===== src/Ril/Requests.antt =====
-- Requests of libril that put a command and look at its success at most (requestDial to
-- requestEnterSimPin, and the branches of onRequest, of android2.1_init/hard_ril/reference-ril/reference-ril.c),
-- and the power of the radio.
pub mod Ends
use demonstratortool.Base.{
  ℕ, ◌/◌, ◌^◌, Bool, true, not, ◌&&◌, Option, none, some, List, [], ◌∷◌, ◌++◌, ltb, ◌==◌,
  if◌then◌else◌, length, Bytes, codes,
}
use demonstratortool.Init.Options.{decimal}
use demonstratortool.Ril.Commands.{Command}
use demonstratortool.Ril.Telephony.{
  success, generic_failure, password_incorrect, off, sim_not_ready, same_state,
}
use demonstratortool.Ril.Radio.{
  SimStatus, nothing, line_text, empty_sms_response, card, Reply, Radio, Modem, Outcome, done,
  ◌>>=◌, complete, send, checked, one_line, one_number, sms, send_plain, has_failed, line_of,
}
use demonstratortool.Ril.Cards.{card_status}
use demonstratortool.Ril.Sim.{get_sim_status, is_radio_on, set_radio_state}
use demonstratortool.Ril.Reports.{SimIo}

-- The request codes with what `data` points to. One constructor stands for the six requests with PINs,
-- with the strings.
pub data Request : Type 0 where
  get_sim_status_request get_current_calls : Request
  dial : Bytes → ℕ → Request
  hangup : ℕ → Request
  hangup_waiting_or_background hangup_foreground_resume_background : Request
  switch_waiting_or_holding_and_active answer_call conference udub : Request
  separate_connection : ℕ → Request
  signal_strength : Request
  registration_state : Bool → Request
  operator : Request
  radio_power : ℕ → Request
  dtmf : ℕ → Request
  send_sms : Option Bytes → Bytes → Request
  setup_data_call : Bytes → Request
  sms_acknowledge : ℕ → Request
  get_imsi get_imei : Request
  sim_io : SimIo → Request
  send_ussd cancel_ussd set_network_selection_automatic : Request
  get_data_call_list query_network_selection_mode : Request
  oem_hook_raw : Bytes → Request
  oem_hook_strings : List (Option Bytes) → Request
  write_sms_to_sim : Bytes → ℕ → Request
  delete_sms_on_sim : ℕ → Request
  enter_sim_pin : List Bytes → Request
  set_preferred_network_type cdma_set_subscription : Request
  other_request : ℕ → Request

-- A command whose result is ignored, and success.
unfoldable pub send_and_succeed : Modem → Bytes → Radio → Outcome Radio
send_and_succeed m text r = done (complete success nothing (send_plain m text r))

-- A command with a response, of which only the success is looked at.
abbrev pub send_checked : Modem → Command → Reply → Radio → Outcome Radio
send_checked m cmd reply r =
    let (a, r') = send m cmd r in
    has_failed a >>= λ failed.
    done (if failed then complete generic_failure nothing r' else complete success reply r')

unfoldable pub clir_text : ℕ → Bytes
clir_text clir = if clir == 1 then codes "I" else if clir == 2 then codes "i" else []

unfoldable pub request_dial : Modem → Bytes → ℕ → Radio → Outcome Radio
request_dial m address clir r =
    send_and_succeed m (codes "ATD" ++ address ++ clir_text clir ++ codes ";") r

unfoldable pub request_hangup : Modem → ℕ → Radio → Outcome Radio
request_hangup m line r = send_and_succeed m (codes "AT+CHLD=1" ++ decimal line) r

-- An answer is expected from here on.
unfoldable pub send_and_expect : Modem → Bytes → Radio → Outcome Radio
send_and_expect m text r =
    done (complete success nothing (record (send_plain m text r) { expect_answer = true }))

unfoldable pub request_separate_connection : Modem → ℕ → Radio → Outcome Radio
request_separate_connection m party r =
    if ltb 0 party && ltb party 10
    then send_and_succeed m (codes "AT+CHLD=2" ++ decimal party) r
    else done (complete generic_failure nothing r)

-- `AT+CFUN=1` that fails counts as a success if the radio is on.
unfoldable pub power_on : Modem → Radio → Outcome Radio
power_on m r =
    let (a, r') = send m (checked (codes "AT+CFUN=1")) r in
    let on =
      λ (r : Radio). set_radio_state m sim_not_ready r >>= λ r. done (complete success nothing r) in
    has_failed a >>= λ failed.
    if not failed
    then on r'
    else (is_radio_on m r' >>= λ (s : Option ℕ × Radio). elim s.0 [
      | none ↦ done (complete generic_failure nothing s.1)
      | some v ↦ if v == 1 then on s.1 else done (complete generic_failure nothing s.1)
    ])

unfoldable pub power_off : Modem → Radio → Outcome Radio
power_off m r =
    let (a, r') = send m (checked (codes "AT+CFUN=0")) r in
    has_failed a >>= λ failed.
    if failed
    then done (complete generic_failure nothing r')
    else (set_radio_state m off r' >>= λ r. done (complete success nothing r))

-- An `int` is positive below 2 ^ 31, but for 0.
unfoldable pub request_radio_power : Modem → ℕ → Radio → Outcome Radio
request_radio_power m on_off r =
    if on_off == 0 && not (same_state r.state off)
    then power_off m r
    else if ltb 0 on_off && ltb on_off (2 ^ 31) && same_state r.state off
    then power_on m r
    else done (complete success nothing r)

-- NULL is the default.
abbrev smsc_text : Option Bytes → Bytes
smsc_text none = codes "00"
smsc_text (some s) = s

unfoldable pub request_send_sms : Modem → Option Bytes → Bytes → Radio → Outcome Radio
request_send_sms m smsc pdu r =
    send_checked m
      (sms (codes "AT+CMGS=" ++ decimal (length pdu / 2)) (smsc_text smsc ++ pdu) (codes "+CMGS:"))
      empty_sms_response r

unfoldable pub request_write_sms_to_sim : Modem → Bytes → ℕ → Radio → Outcome Radio
request_write_sms_to_sim m pdu status r =
    send_checked m
      (sms (codes "AT+CMGW=" ++ decimal (length pdu / 2) ++ b',' ∷ decimal status) pdu
        (codes "+CMGW:"))
      nothing r

-- The request is completed with success, and once more behind the label `error`.
unfoldable pub request_sms_acknowledge : Modem → ℕ → Radio → Outcome Radio
request_sms_acknowledge m ack r =
    let both = λ (text : Bytes).
      complete generic_failure nothing (complete success nothing (send_plain m text r)) in
    done (
      if ack == 1
      then both (codes "AT+CNMA=1")
      else if ack == 0
      then both (codes "AT+CNMA=2")
      else complete generic_failure nothing r)

-- `AT+CIMI`, `AT+CGSN` and `AT+CUSD=2` of `onRequest`
unfoldable pub request_number : Modem → Bytes → Radio → Outcome Radio
request_number m text r =
    let (a, r') = send m (one_number text) r in
    has_failed a >>= λ failed.
    if failed
    then done (complete generic_failure nothing r')
    else (line_of a >>= λ line. done (complete success (line_text line) r'))

-- The command for one string or for two.
unfoldable pub pin_command : List Bytes → Option Bytes
pin_command (pin ∷ []) = some (codes "AT+CPIN=" ++ pin)
pin_command (pin ∷ new ∷ []) = some (codes "AT+CPIN=" ++ pin ++ b',' ∷ new)
pin_command _ = none

unfoldable pub request_enter_sim_pin : Modem → List Bytes → Radio → Outcome Radio
request_enter_sim_pin m texts r = elim (pin_command texts) [
  | none ↦ done (complete password_incorrect nothing r)
  | some text ↦
      let (a, r') = send m (one_line text (codes "+CPIN:")) r in
      has_failed a >>= λ failed.
      done (complete (if failed then password_incorrect else success) nothing r')
]

unfoldable pub request_get_sim_status : Modem → Radio → Outcome Radio
request_get_sim_status m r = get_sim_status m r >>= λ (s : SimStatus × Radio).
    done (complete success (card (card_status s.0)) s.1)

unfoldable pub request_delete_sms_on_sim : Modem → ℕ → Radio → Outcome Radio
request_delete_sms_on_sim m index r =
    send_checked m (checked (codes "AT+CMGD=" ++ decimal index)) nothing r
