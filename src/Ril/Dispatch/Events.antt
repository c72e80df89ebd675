-- ===== src/Ril/Dispatch/Events.antt =====
-- What the radio of android2.1_init/hard_ril/reference-ril/reference-ril.c is called for, one after the
-- other: libril calls for requests and the functions that it was asked to call, the AT channel for
-- unsolicited lines and for its end.
use demonstratortool.Base.{
  refl, true, false, not, ◌||◌, Option, none, some, List, [], ◌∷◌, arith, Bytes,
}
use demonstratortool.Ril.AtTok.{at_tok_start, at_tok_nextstr}
use demonstratortool.Ril.Telephony.{unavailable, same_state}
use demonstratortool.Ril.Radio.{
  nothing, line_text, call_state_changed, network_state_changed, nitz_time_received, new_sms,
  new_sms_status_report, notified, timed, data_call_list, Radio, Modem, Outcome, done, ◌>>=◌,
  on_at_closed,
}
use demonstratortool.Ril.Radio.Ends.{
  Ends, null_read-Ends, Ends-done, Ends-bind, Ends-if, Ends-option, Ends-weaken,
}
use demonstratortool.Ril.Radio.Frame.{IsModem}
use demonstratortool.Ril.Radio.Moves.{
  Moves, stays, tells, IsSound, Moves-IsSound, on_at_closed-IsSound,
}
use demonstratortool.Ril.Calls.{no_line}
use demonstratortool.Ril.Setup.{Qmi, IsQmi}
use demonstratortool.Ril.Sim.{poll_sim_state, initialize_callback}
use demonstratortool.Ril.Sim.Ends.{poll_sim_state-Ends}
use demonstratortool.Ril.Sim.Start.{initialize_callback-Ends}
use demonstratortool.Ril.DataCalls.{request_or_send_data_call_list}
use demonstratortool.Ril.DataCalls.Ends.{request_or_send_data_call_list-Ends}
use demonstratortool.Ril.Requests.{Request}
use demonstratortool.Ril.Dispatch.{
  on_request, on_unsolicited, on_unsolicited_line, nitz, later_data_calls, with_pdu, starts,
}
use demonstratortool.Ril.Dispatch.Miscounts.{on_request-IsSound}

pub data Event : Type 0 where
  requested : Request → Event
  time_to_poll time_to_initialize time_for_data_calls reader_closed : Event
  unsolicited_line : Bytes → Option Bytes → Event

-- The variables when the program starts.
abbrev pub first_radio : Radio
first_radio = record {
  state = unavailable;
  closed = false;
  incoming_or_waiting_line = no_line;
  repoll_calls_count = 0;
  expect_answer = false;
  sent = 0;
  trace = [];
}

unfoldable pub handle : Modem → Qmi → Event → Radio → Outcome Radio
handle m q (requested request) r = on_request m q request r
handle m q time_to_poll r = poll_sim_state m r
handle m q time_to_initialize r = initialize_callback m r
handle m q time_for_data_calls r = request_or_send_data_call_list m false r
handle m q reader_closed r = done (on_at_closed r)
handle m q (unsolicited_line s pdu) r = on_unsolicited s pdu r

unfoldable pub handle_all : Modem → Qmi → List Event → Radio → Outcome Radio
handle_all m q [] r = done r
handle_all m q (e ∷ es) r = handle m q e r >>= handle_all m q es

told :
    (first : Radio) (pdu : Option Bytes) (f : Bytes → Radio)
    → ((s : Bytes) → Moves first 0 (f s))
    → Ends true (Moves first 0) (with_pdu pdu f)
told first none f h = null_read-Ends _
told first (some pdu) f h = Ends-done true _ _ (h pdu)

nitz-Ends : (s : Bytes) (r : Radio) → Ends true (Moves r 0) (nitz s r)
unfolding nitz
nitz-Ends s r =
    Ends-if true _ (not (at_tok_nextstr (at_tok_start (some s)).1).ok) _ _
      (λ _. Ends-done true _ _ stays)
      (λ _.
        Ends-option true _ (at_tok_nextstr (at_tok_start (some s)).1).out _ _ (null_read-Ends _)
          (λ o. Ends-option true _ o _ _ (null_read-Ends _) (λ t.
            Ends-done true _ _ (tells (notified nitz_time_received (line_text t)) refl stays))))

on_unsolicited_line-Ends :
    (s : Bytes) (pdu : Option Bytes) (r : Radio)
    → Ends true (Moves r 0) (on_unsolicited_line s pdu r)
unfolding on_unsolicited_line
on_unsolicited_line-Ends s pdu r =
    Ends-if true _
      (starts s "+CRING:" || starts s "RING" || starts s "NO CARRIER" || starts s "+CCWA") _ _
      (λ _. Ends-done true _ _ (later (tells (notified call_state_changed nothing) refl stays)))
      (λ _.
        Ends-if true _ (starts s "+CREG:" || starts s "+CGREG:") _ _
          (λ _.
            Ends-done true _ _ (later (tells (notified network_state_changed nothing) refl stays)))
          (λ _.
            Ends-if true _ (starts s "+CMT:") _ _
              (λ _. told r pdu _ (λ p. tells (notified new_sms (line_text p)) refl stays))
              (λ _.
                Ends-if true _ (starts s "+CDS:") _ _
                  (λ _.
                    told r pdu _
                      (λ p. tells (notified new_sms_status_report (line_text p)) refl stays))
                  (λ _.
                    Ends-if true _ (starts s "+CGEV:" || starts s "+CME ERROR: 150") _ _
                      (λ _. Ends-done true _ _ (later stays)) (λ _. Ends-done true _ _ stays)))))
  where
    later : {r' : Radio} → Moves r 0 r' → Moves r 0 (later_data_calls r')
    later h = tells (timed data_call_list) refl h

on_unsolicited-Ends :
    (s : Bytes) (pdu : Option Bytes) (r : Radio) → Ends true (Moves r 0) (on_unsolicited s pdu r)
unfolding on_unsolicited
on_unsolicited-Ends s pdu r =
    Ends-if true _ (same_state r.state unavailable) _ _ (λ _. Ends-done true _ _ stays)
      (λ _.
        Ends-if true _ (starts s "%CTZV:") _ _ (λ _. nitz-Ends s r)
          (λ _. on_unsolicited_line-Ends s pdu r))

module _ (m : Modem) (q : Qmi) (good : IsModem m) (kind : IsQmi q) where
  handle-IsSound : (e : Event) (r : Radio) → IsSound r → Ends true IsSound (handle m q e r)
  unfolding handle
  handle-IsSound (requested request) r s = on_request-IsSound m q request r good kind s
  handle-IsSound time_to_poll r s =
      Ends-weaken true _ (Moves r 0) _ (λ r' h. Moves-IsSound r h s)
        (poll_sim_state-Ends r m r stays)
  handle-IsSound time_to_initialize r s =
      Ends-weaken true _ (Moves r 0) _ (λ r' h. Moves-IsSound r h s)
        (initialize_callback-Ends r m r good stays)
  handle-IsSound time_for_data_calls r s =
      Ends-weaken true _ (Moves r 0) _ (λ r' h. Moves-IsSound r h s)
        (request_or_send_data_call_list-Ends r m true good false r stays)
  handle-IsSound reader_closed r s = Ends-done true _ _ (on_at_closed-IsSound r s)
  handle-IsSound (unsolicited_line line pdu) r s =
      Ends-weaken true _ (Moves r 0) _ (λ r' h. Moves-IsSound r h s)
        (on_unsolicited-Ends line pdu r)

  handle_all_from :
      (es : List Event) (r : Radio) → IsSound r → Ends true IsSound (handle_all m q es r)
  unfolding handle_all
  handle_all_from [] r s = Ends-done true _ _ s
  handle_all_from (e ∷ es) r s =
      Ends-bind true _ IsSound _ _ (handle-IsSound e r s) (λ r' s'. handle_all_from es r' s')

-- Whatever the radio is called for from the start on, and whatever the modem answers: once the channel is
-- closed, the radio is unavailable, and the polls that the workaround for calls counts are
-- four at most; if the functions of the channel keep their promise on responses, and a `write` to the
-- device takes a byte at least. Where a call comes to a wrong access to memory nothing is said.
pub handle_all-IsSound :
    (m : Modem) (q : Qmi) (es : List Event)
    → IsModem m
    → IsQmi q
    → Ends true IsSound (handle_all m q es first_radio)
handle_all-IsSound m q es good kind =
    handle_all_from m q good kind es first_radio
      (record { closed_unavailable = λ _. refl; few_repolls = omega arith })
