-- ===== src/Ril/Dispatch/Once.antt =====
-- How often a request of libril is completed (onRequest of
-- android2.1_init/hard_ril/reference-ril/reference-ril.c).
use demonstratortool.Base.{ℕ, ◌+◌, ◌≡◌, refl, Bool, true, false}
use demonstratortool.Ril.Telephony.{radio_not_available, request_not_supported, success}
use demonstratortool.Ril.Radio.{nothing, Radio, Modem}
use demonstratortool.Ril.Radio.Ends.{Ends-weaken, Ends, Ends-done, Ends-if}
use demonstratortool.Ril.Radio.Frame.{IsModem, times_completed}
use demonstratortool.Ril.Radio.Moves.{Moves, stays, completes, Moves-times}
use demonstratortool.Ril.Setup.{Qmi, IsQmi}
use demonstratortool.Ril.Requests.{
  Request, get_sim_status_request, get_current_calls, dial, hangup, hangup_waiting_or_background,
  hangup_foreground_resume_background, switch_waiting_or_holding_and_active, answer_call,
  conference, udub, separate_connection, signal_strength, registration_state, operator, radio_power,
  dtmf, send_sms, setup_data_call, sms_acknowledge, get_imsi, get_imei, sim_io, send_ussd,
  cancel_ussd, set_network_selection_automatic, get_data_call_list, query_network_selection_mode,
  oem_hook_raw, oem_hook_strings, write_sms_to_sim, delete_sms_on_sim, enter_sim_pin,
  set_preferred_network_type, cdma_set_subscription, other_request, request_dial, request_hangup,
  request_send_sms, request_write_sms_to_sim, request_delete_sms_on_sim,
}
use demonstratortool.Ril.Requests.Ends.{
  Once, completes_now, send_and_succeed-Ends, send_and_expect-Ends,
  request_separate_connection-Ends, send_checked-Ends, request_number-Ends,
  request_enter_sim_pin-Ends, request_get_sim_status-Ends, request_radio_power-Ends,
}
use demonstratortool.Ril.Reports.Ends.{
  request_query_network_selection_mode-Ends, request_sim_io-Ends, request_registration_state-Ends,
  request_operator-Ends, request_get_current_calls-Ends,
}
use demonstratortool.Ril.DataCalls.Ends.{request_or_send_data_call_list-Ends}
use demonstratortool.Ril.Setup.Ends.{request_setup_data_call-Ends}
use demonstratortool.Ril.Dispatch.{is_turned_down, switch_request, on_request}

-- All requests but three.
unfoldable pub is_counted : Request → Bool
is_counted signal_strength = false
is_counted (sms_acknowledge ack) = false
is_counted set_network_selection_automatic = false
is_counted _ = true

-- The requests that may come to a read through a null pointer or a write behind an array, whatever the
-- channel promises.
unfoldable pub may_crash : Request → Bool
may_crash get_sim_status_request = true
may_crash (registration_state is_gprs) = true
may_crash operator = true
may_crash (radio_power on_off) = true
may_crash _ = false

module _ (first : Radio) (m : Modem) (q : Qmi) (good : IsModem m) (kind : IsQmi q) where
  module _ {n : ℕ} (r : Radio) (h : Moves first n r) where
    pub switch_request-Ends :
        (request : Request)
        → is_counted request ≡ true
        → Once first m n (may_crash request) (switch_request m q request r)
    unfolding switch_request is_counted may_crash request_dial request_hangup request_send_sms
        request_write_sms_to_sim request_delete_sms_on_sim
    switch_request-Ends get_sim_status_request c = request_get_sim_status-Ends first m r h
    switch_request-Ends get_current_calls c = request_get_current_calls-Ends first m r h false good
    switch_request-Ends (dial address clir) c = send_and_succeed-Ends first m false r h _
    switch_request-Ends (hangup line) c = send_and_succeed-Ends first m false r h _
    switch_request-Ends hangup_waiting_or_background c = send_and_succeed-Ends first m false r h _
    switch_request-Ends hangup_foreground_resume_background c =
        send_and_succeed-Ends first m false r h _
    switch_request-Ends switch_waiting_or_holding_and_active c =
        send_and_expect-Ends first m false r h _
    switch_request-Ends answer_call c = send_and_expect-Ends first m false r h _
    switch_request-Ends conference c = send_and_succeed-Ends first m false r h _
    switch_request-Ends udub c = send_and_succeed-Ends first m false r h _
    switch_request-Ends (separate_connection party) c =
        request_separate_connection-Ends first m false r h party
    switch_request-Ends signal_strength c = cc c
    switch_request-Ends (registration_state is_gprs) c =
        request_registration_state-Ends first m r h is_gprs
    switch_request-Ends operator c = request_operator-Ends first m r h
    switch_request-Ends (radio_power on_off) c = request_radio_power-Ends first m r h good on_off
    switch_request-Ends (dtmf d) c = send_and_succeed-Ends first m false r h _
    switch_request-Ends (send_sms smsc pdu) c = send_checked-Ends first m false r h good _ _ refl
    switch_request-Ends (setup_data_call apn) c =
        request_setup_data_call-Ends first m q false r h apn good kind
    switch_request-Ends (sms_acknowledge ack) c = cc c
    switch_request-Ends get_imsi c = request_number-Ends first m false r h good _
    switch_request-Ends get_imei c = request_number-Ends first m false r h good _
    switch_request-Ends (sim_io args) c = request_sim_io-Ends first m r h false args good
    switch_request-Ends send_ussd c = completes_now first m false r h request_not_supported nothing
    switch_request-Ends cancel_ussd c = request_number-Ends first m false r h good _
    switch_request-Ends set_network_selection_automatic c = cc c
    switch_request-Ends get_data_call_list c =
        request_or_send_data_call_list-Ends first m false good true r h
    switch_request-Ends query_network_selection_mode c =
        request_query_network_selection_mode-Ends first m r h false good
    switch_request-Ends (oem_hook_raw s) c = completes_now first m false r h success _
    switch_request-Ends (oem_hook_strings texts) c = completes_now first m false r h success _
    switch_request-Ends (write_sms_to_sim pdu status) c =
        send_checked-Ends first m false r h good _ _ refl
    switch_request-Ends (delete_sms_on_sim index) c =
        send_checked-Ends first m false r h good _ _ refl
    switch_request-Ends (enter_sim_pin texts) c =
        request_enter_sim_pin-Ends first m false r h good texts
    switch_request-Ends set_preferred_network_type c = completes_now first m false r h success _
    switch_request-Ends cdma_set_subscription c = completes_now first m false r h success _
    switch_request-Ends (other_request code) c =
        completes_now first m false r h request_not_supported _

-- A request, but for SIGNAL_STRENGTH, SMS_ACKNOWLEDGE and SET_NETWORK_SELECTION_AUTOMATIC, is completed
-- exactly once by the time `onRequest` returns, and it returns, whatever the modem answers, if the
-- functions of the channel keep their promise on responses, and a `write` to the device takes a byte at
-- least. Four requests may come to a wrong access to memory instead: GET_SIM_STATUS, RADIO_POWER, OPERATOR
-- and the two for the registration state.
pub on_request-once :
    (m : Modem) (q : Qmi) (request : Request) (r : Radio)
    → IsModem m
    → IsQmi q
    → is_counted request ≡ true
    → Ends
        (may_crash request)
        (λ r'. times_completed r' ≡ times_completed r + 1)
        (on_request m q request r)
unfolding on_request
on_request-once m q request r good kind c =
    Ends-weaken _ _ (Moves r 1) _ (λ r' h. Moves-times r h)
      (Ends-if _ _ (is_turned_down r request) _ _
        (λ _. Ends-done _ _ _ (completes radio_not_available nothing stays))
        (λ _. switch_request-Ends r m q good kind r stays request c))
