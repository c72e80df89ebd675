-- ===== src/Ril/Tests/Radio.antt =====
-- Requests to the radio (android2.1_init/hard_ril/reference-ril/reference-ril.c) on concrete inputs.
use demonstratortool.Base.{
  ℕ, ◌+◌, ◌<◌, ◌≡◌, refl, ◌↔◌, inl, true, false, ◌||◌, none, some, List, [], ◌∷◌, arith, length,
  Bytes, codes,
}
use demonstratortool.Ril.Channel.{timeout, AtResponse}
use demonstratortool.Ril.Channel.Pending.{Ensures}
use demonstratortool.Ril.Commands.{Event, line}
use demonstratortool.Ril.Issue.{
  at_send_command, at_send_command_singleline, at_send_command_numeric, at_send_command_sms,
  at_send_command_multiline, at_get_cme_error, cme_success,
}
use demonstratortool.Ril.Issue.Fits.{answered_of, at_send_command-Fits}
use demonstratortool.Ril.Telephony.{
  off, unavailable, same_state, state_number, sim_ready, incoming, success, CallInfo,
}
use demonstratortool.Ril.Radio.{
  call_list, done, Radio, Modem, null_read, checked, one_line, one_number, sms, many_lines,
}
use demonstratortool.Ril.Radio.Ends.{Ends}
use demonstratortool.Ril.Radio.Frame.{Fits, IsModem, times_completed}
use demonstratortool.Ril.Radio.Moves.{IsSound}
use demonstratortool.Ril.Sim.{get_sim_status}
use demonstratortool.Ril.Sim.Crash.{get_sim_status-null_read}
use demonstratortool.Ril.Calls.{is_lame, zero_call, request_get_current_calls}
use demonstratortool.Ril.Calls.Listed.{
  Numbered, calls_of, lines_of, last_completion, request_get_current_calls-lines_of,
}
use demonstratortool.Ril.Calls.Rendered.{IsCall}
use demonstratortool.Ril.Networks.{request_registration_state}
use demonstratortool.Ril.Networks.Crash.{request_registration_state-null_read}
use demonstratortool.Ril.Setup.{Qmi, IsQmi}
use demonstratortool.Ril.Requests.{
  Request, dial, setup_data_call, radio_power, sms_acknowledge, signal_strength,
  set_network_selection_automatic,
}
use demonstratortool.Ril.Dispatch.{is_turned_down, on_request}
use demonstratortool.Ril.Dispatch.Once.{is_counted, may_crash, on_request-once}
use demonstratortool.Ril.Dispatch.Quiet.{OnlyCompletes, on_request-quiet}
use demonstratortool.Ril.Dispatch.Miscounts.{on_request-miscounted}
use demonstratortool.Ril.Dispatch.Events.{
  requested, time_to_initialize, reader_closed, first_radio, handle_all, handle_all-IsSound,
}
use demonstratortool.Ril.Tests.Modem.{idle, modem}

-- Every command is a success, with one line.
abbrev ready_modem : Modem
ready_modem = record {
  answer = λ n cmd. record {
    error = none;
    response = some (record {
      success = true;
      final_response = some (codes "OK");
      intermediates = codes "+CFUN: 1" ∷ [];
    });
    closes = false;
  };
}

ready_modem-IsModem : IsModem ready_modem
ready_modem-IsModem = record { fits = λ n cmd w e. (_, refl, λ ok a. refl) }

-- Takes all bytes, and is up at once.
abbrev device : Qmi
device = record {
  opens = true;
  write = λ n s. some (length s);
  read = λ n. some (codes "online");
  dhcp_fails = false;
}

device-IsQmi : IsQmi device
device-IsQmi = record { some_bytes = takes }
  where
    takes : (n : ℕ) (s : Bytes) (k : ℕ) → some (length s) ≡ some k → 0 < length s → 0 < k
    takes n s k e h = let same : length s ≡ k = cc in omega arith

abbrev radio_on : Radio
radio_on = record first_radio { state = sim_ready }

abbrev internet : Request
internet = setup_data_call (codes "internet")

counted : is_counted internet ≡ true
unfolding is_counted
counted = refl

on_request-once_example :
    Ends
      (may_crash internet)
      (λ r'. times_completed r' ≡ times_completed radio_on + 1)
      (on_request ready_modem device internet radio_on)
on_request-once_example =
    on_request-once ready_modem device internet radio_on ready_modem-IsModem device-IsQmi counted

handle_all-IsSound_example : Ends true IsSound (
    handle_all ready_modem device
      (time_to_initialize ∷ requested (radio_power 0) ∷ reader_closed ∷ [])
      first_radio)
handle_all-IsSound_example =
    handle_all-IsSound ready_modem device
      (time_to_initialize ∷ requested (radio_power 0) ∷ reader_closed ∷ []) ready_modem-IsModem
      device-IsQmi

on_request-quiet_example :
    Ends false
      (OnlyCompletes first_radio)
      (on_request ready_modem device (dial (codes "112") 0) first_radio)
on_request-quiet_example =
    on_request-quiet ready_modem device (dial (codes "112") 0) first_radio (inl refl)

abbrev csq_text : Bytes
csq_text = codes "AT+CSQ"

abbrev csq_prefix : Bytes
csq_prefix = codes "+CSQ:"

abbrev pdu_text : Bytes
pdu_text = codes "00"

abbrev happenings : List Event
happenings = line (codes "+CSQ: 7,99") ∷ line (codes "OK") ∷ []

at_send_command-Fits_example :
    Ensures
      (λ s. Fits (checked csq_text) (answered_of idle s))
      (at_send_command modem false true happenings idle csq_text)
    × Ensures
        (λ s. Fits (one_line csq_text csq_prefix) (answered_of idle s))
        (at_send_command_singleline modem false true happenings idle csq_text csq_prefix)
    × Ensures
        (λ s. Fits (one_number csq_text) (answered_of idle s))
        (at_send_command_numeric modem false true happenings idle csq_text)
    × Ensures
        (λ s. Fits (sms csq_text pdu_text csq_prefix) (answered_of idle s))
        (at_send_command_sms modem false true happenings idle csq_text pdu_text csq_prefix)
    × Ensures
        (λ s. Fits (many_lines csq_text csq_prefix) (answered_of idle s))
        (at_send_command_multiline modem false true happenings idle csq_text csq_prefix)
at_send_command-Fits_example =
    at_send_command-Fits modem happenings idle csq_text csq_prefix pdu_text

abbrev ringing : CallInfo
ringing = record zero_call {
  call_state = incoming;
  index = 2;
  toa = 145;
  is_mt = 1;
  is_voice = true;
  number = some (codes "+18005551212");
}

is_number : is_lame (codes "+18005551212") ≡ false
unfolding is_lame
is_number = refl

ringing-IsCall : IsCall ringing (codes "+18005551212")
ringing-IsCall = record {
  small_index = omega arith;
  small_toa = omega arith;
  flag_mt = omega arith;
  flag_mpty = omega arith;
  has_number = refl;
  no_quote = ground arith;
  is_a_number = is_number;
}

abbrev one_call : List Numbered
one_call = (ringing, codes "+18005551212") ∷ []

abbrev call_lines : AtResponse
call_lines = record {
  success = true;
  final_response = some (codes "OK");
  intermediates = lines_of one_call;
}

abbrev lister : Modem
lister = record {
  answer = λ n cmd. record { error = none; response = some call_lines; closes = false };
}

request_get_current_calls-lines_of_example :
    (r' : Radio) × (request_get_current_calls lister radio_on ≡ done r')
    × (last_completion r'.trace ≡ some (success, call_list (calls_of one_call)))
request_get_current_calls-lines_of_example =
    request_get_current_calls-lines_of lister radio_on call_lines one_call (omega arith) refl refl
      refl refl (ringing-IsCall, tt)

-- Every command fails, without a line.
abbrev refusal : AtResponse
refusal = record {
  success = false;
  final_response = some (codes "+CME ERROR: 0");
  intermediates = [];
}

abbrev refusing : Modem
refusing = record {
  answer = λ n cmd. record { error = none; response = some refusal; closes = false };
}

request_registration_state-null_read_example :
    (request_registration_state refusing false radio_on ≡ null_read) ↔ (refusal.intermediates ≡ [])
request_registration_state-null_read_example =
    request_registration_state-null_read refusing false radio_on refusal refl refl

is_on : same_state radio_on.state off || same_state radio_on.state unavailable ≡ false
unfolding state_number
is_on = refl

get_sim_status-null_read_example :
    (get_sim_status refusing radio_on ≡ null_read)
    ↔ ((at_get_cme_error refusal ≡ cme_success) × (refusal.intermediates ≡ []))
get_sim_status-null_read_example =
    get_sim_status-null_read refusing radio_on refusal is_on refl refl

-- The modem is silent.
abbrev silent : Modem
silent = record {
  answer = λ n cmd. record { error = some timeout; response = none; closes = true };
}

is_up : is_turned_down radio_on signal_strength ≡ false
unfolding is_turned_down state_number
is_up = refl

on_request-miscounted_example :
    Ends false
      (λ r'. times_completed r' ≡ times_completed radio_on + 2)
      (on_request silent device (sms_acknowledge 1) radio_on)
    × Ends false
        (λ r'. times_completed r' ≡ times_completed radio_on + 2)
        (on_request silent device signal_strength radio_on)
    × Ends false
        (λ r'. times_completed r' ≡ times_completed radio_on)
        (on_request silent device set_network_selection_automatic radio_on)
on_request-miscounted_example =
    on_request-miscounted silent device radio_on 1 timeout (omega arith) is_up refl
