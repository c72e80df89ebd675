-- ===== src/Ril/Dispatch.antt =====
-- Requests of libril, and unsolicited lines (onRequest and onUnsolicited of
-- android2.1_init/hard_ril/reference-ril/reference-ril.c).
pub mod Once
pub mod Events
pub mod Quiet
pub mod Miscounts
use demonstratortool.Base.{
  String, Bool, true, false, not, ◌||◌, Option, none, some, [], ◌∷◌, ◌++◌, if◌then◌else◌, Bytes,
  codes,
}
use demonstratortool.Ril.AtTok.{at_tok_start, at_tok_nextstr}
use demonstratortool.Ril.Misc.{str_starts_with}
use demonstratortool.Ril.Telephony.{
  radio_not_available, request_not_supported, success, off, unavailable, same_state,
}
use demonstratortool.Ril.Radio.{
  nothing, line_text, strings, call_state_changed, network_state_changed, nitz_time_received,
  new_sms, new_sms_status_report, notified, timed, data_call_list, Radio, Modem, Outcome, done,
  null_read, note, complete, send_plain,
}
use demonstratortool.Ril.Calls.{request_get_current_calls}
use demonstratortool.Ril.Networks.{request_registration_state, request_operator}
use demonstratortool.Ril.DataCalls.{request_or_send_data_call_list}
use demonstratortool.Ril.Reports.{
  request_query_network_selection_mode, request_signal_strength, request_sim_io,
}
use demonstratortool.Ril.Setup.{Qmi, request_setup_data_call}
use demonstratortool.Ril.Requests.{
  Request, get_sim_status_request, get_current_calls, dial, hangup, hangup_waiting_or_background,
  hangup_foreground_resume_background, switch_waiting_or_holding_and_active, answer_call,
  conference, udub, separate_connection, signal_strength, registration_state, operator, radio_power,
  dtmf, send_sms, setup_data_call, sms_acknowledge, get_imsi, get_imei, sim_io, send_ussd,
  cancel_ussd, set_network_selection_automatic, get_data_call_list, query_network_selection_mode,
  oem_hook_raw, oem_hook_strings, write_sms_to_sim, delete_sms_on_sim, enter_sim_pin,
  set_preferred_network_type, cdma_set_subscription, other_request, send_and_succeed, request_dial,
  request_hangup, send_and_expect, request_separate_connection, request_radio_power,
  request_send_sms, request_write_sms_to_sim, request_sms_acknowledge, request_number,
  request_enter_sim_pin, request_get_sim_status, request_delete_sms_on_sim,
}

-- The tests before the `switch`: whether the request is turned down.
unfoldable pub is_turned_down : Radio → Request → Bool
is_turned_down r get_sim_status_request = false
is_turned_down r (radio_power on_off) = same_state r.state unavailable
is_turned_down r _ = same_state r.state unavailable || same_state r.state off

unfoldable pub switch_request : Modem → Qmi → Request → Radio → Outcome Radio
switch_request m q get_sim_status_request = request_get_sim_status m
switch_request m q get_current_calls = request_get_current_calls m
switch_request m q (dial address clir) = request_dial m address clir
switch_request m q (hangup line) = request_hangup m line
switch_request m q hangup_waiting_or_background = send_and_succeed m (codes "AT+CHLD=0")
switch_request m q hangup_foreground_resume_background = send_and_succeed m (codes "AT+CHLD=1")
switch_request m q switch_waiting_or_holding_and_active = send_and_expect m (codes "AT+CHLD=2")
switch_request m q answer_call = send_and_expect m (codes "ATA")
switch_request m q conference = send_and_succeed m (codes "AT+CHLD=3")
switch_request m q udub = send_and_succeed m (codes "ATH")
switch_request m q (separate_connection party) = request_separate_connection m party
switch_request m q signal_strength = request_signal_strength m
switch_request m q (registration_state is_gprs) = request_registration_state m is_gprs
switch_request m q operator = request_operator m
switch_request m q (radio_power on_off) = request_radio_power m on_off
switch_request m q (dtmf c) = send_and_succeed m (codes "AT+VTS=" ++ c ∷ [])
switch_request m q (send_sms smsc pdu) = request_send_sms m smsc pdu
switch_request m q (setup_data_call apn) = request_setup_data_call m q apn
switch_request m q (sms_acknowledge ack) = request_sms_acknowledge m ack
switch_request m q get_imsi = request_number m (codes "AT+CIMI")
switch_request m q get_imei = request_number m (codes "AT+CGSN")
switch_request m q (sim_io args) = request_sim_io m args
switch_request m q send_ussd = λ r. done (complete request_not_supported nothing r)
switch_request m q cancel_ussd = request_number m (codes "AT+CUSD=2")
switch_request m q set_network_selection_automatic = λ r. done (send_plain m (codes "AT+COPS=0") r)
switch_request m q get_data_call_list = request_or_send_data_call_list m true
switch_request m q query_network_selection_mode = request_query_network_selection_mode m
switch_request m q (oem_hook_raw data_bytes) = λ r. done (complete success (line_text data_bytes) r)
switch_request m q (oem_hook_strings texts) = λ r. done (complete success (strings texts) r)
switch_request m q (write_sms_to_sim pdu status) = request_write_sms_to_sim m pdu status
switch_request m q (delete_sms_on_sim index) = request_delete_sms_on_sim m index
switch_request m q (enter_sim_pin texts) = request_enter_sim_pin m texts
switch_request m q set_preferred_network_type = λ r. done (complete success nothing r)
switch_request m q cdma_set_subscription = λ r. done (complete success nothing r)
switch_request m q (other_request code) = λ r. done (complete request_not_supported nothing r)

unfoldable pub on_request : Modem → Qmi → Request → Radio → Outcome Radio
on_request m q request r =
    if is_turned_down r request
    then done (complete radio_not_available nothing r)
    else switch_request m q request r

abbrev pub later_data_calls : Radio → Radio
later_data_calls r = note (timed data_call_list) r

-- `sms_pdu` is NULL where the line is not the first of two.
abbrev pub with_pdu : Option Bytes → (Bytes → Radio) → Outcome Radio
with_pdu none f = null_read
with_pdu (some pdu) f = done (f pdu)

-- The time that is behind `%CTZV:`. The token is not NULL where it is read.
unfoldable pub nitz : Bytes → Radio → Outcome Radio
nitz s r =
    let (started, cur) = at_tok_start (some s) in
    let result = at_tok_nextstr cur in
    if not result.ok then done r else elim result.out [
      | none ↦ null_read
      | some none ↦ null_read
      | some (some t) ↦ done (note (notified nitz_time_received (line_text t)) r)
    ]

abbrev pub starts : Bytes → String → Bool
starts s prefix = str_starts_with s (codes prefix)

-- The branches of `onUnsolicited` behind that for `%CTZV:`.
unfoldable pub on_unsolicited_line : Bytes → Option Bytes → Radio → Outcome Radio
on_unsolicited_line s sms_pdu r =
    if starts s "+CRING:" || starts s "RING" || starts s "NO CARRIER" || starts s "+CCWA"
    then done (later_data_calls (note (notified call_state_changed nothing) r))
    else if starts s "+CREG:" || starts s "+CGREG:"
    then done (later_data_calls (note (notified network_state_changed nothing) r))
    else if starts s "+CMT:"
    then with_pdu sms_pdu (λ pdu. note (notified new_sms (line_text pdu)) r)
    else if starts s "+CDS:"
    then with_pdu sms_pdu (λ pdu. note (notified new_sms_status_report (line_text pdu)) r)
    else if starts s "+CGEV:" || starts s "+CME ERROR: 150"
    then done (later_data_calls r)
    else done r

unfoldable pub on_unsolicited : Bytes → Option Bytes → Radio → Outcome Radio
on_unsolicited s sms_pdu r =
    if same_state r.state unavailable
    then done r
    else if starts s "%CTZV:"
    then nitz s r
    else on_unsolicited_line s sms_pdu r
