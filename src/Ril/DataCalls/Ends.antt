-- ===== src/Ril/DataCalls/Ends.antt =====
-- How requestOrSendDataCallList of android2.1_init/hard_ril/reference-ril/reference-ril.c ends.
use demonstratortool.Base.{ℕ, suc, refl, Bool, true, false, Option, none, some, List, codes}
use demonstratortool.Ril.Channel.{multiline}
use demonstratortool.Ril.Telephony.{success, generic_failure, DataCall}
use demonstratortool.Ril.Radio.{
  nothing, data_calls, data_call_list_changed, notified, Radio, Modem, done, many_lines,
}
use demonstratortool.Ril.Radio.Ends.{Ends, Ends-done, Ends-option}
use demonstratortool.Ril.Radio.Frame.{IsModem, has_failed-bind, intermediates_of-bind}
use demonstratortool.Ril.Radio.Moves.{Moves, tells, completes, sends}
use demonstratortool.Ril.DataCalls.{
  contexts_of_lines, describe_all, tell, send_details, request_or_send_data_call_list,
}

-- A request is completed if there is one.
abbrev pub after_telling : Bool → ℕ → ℕ
after_telling true n = suc n
after_telling false n = n

module _ (first : Radio) (m : Modem) (b : Bool) (good : IsModem m) where
  tell-Moves :
      {n : ℕ} (has_token : Bool) (o : Option (List DataCall)) (r : Radio)
      → Moves first n r
      → Moves first (after_telling has_token n) (tell has_token o r)
  tell-Moves true none r h = completes generic_failure nothing h
  tell-Moves true (some ds) r h = completes success (data_calls ds) h
  tell-Moves false none r h = tells (notified data_call_list_changed nothing) refl h
  tell-Moves false (some ds) r h = tells (notified data_call_list_changed (data_calls ds)) refl h

  tell-Ends :
      {n : ℕ} (has_token : Bool) (o : Option (List DataCall)) (r : Radio)
      → Moves first n r
      → Ends b (Moves first (after_telling has_token n)) (done (tell has_token o r))
  tell-Ends t o r h = Ends-done b _ _ (tell-Moves t o r h)

  send_details-Ends :
      {n : ℕ} (has_token : Bool) (ds : List DataCall) (r : Radio)
      → Moves first n r
      → Ends b (Moves first (after_telling has_token n)) (send_details m has_token ds r)
  unfolding send_details
  send_details-Ends t ds r h =
      has_failed-bind b _ m (many_lines (codes "AT+CGDCONT?") (codes "+CGDCONT:")) r _ good refl
        (tell-Ends t none _ (sends m _ h))
        (λ g.
          intermediates_of-bind b _ multiline _ _ g
            (λ lines. tell-Ends t (describe_all lines ds) _ (sends m _ h)))

  pub request_or_send_data_call_list-Ends :
      {n : ℕ} (has_token : Bool) (r : Radio)
      → Moves first n r
      → Ends b
          (Moves first (after_telling has_token n))
          (request_or_send_data_call_list m has_token r)
  unfolding request_or_send_data_call_list
  request_or_send_data_call_list-Ends t r h =
      has_failed-bind b _ m (many_lines (codes "AT+CGACT?") (codes "+CGACT:")) r _ good refl
        (tell-Ends t none _ (sends m _ h))
        (λ g. intermediates_of-bind b _ multiline _ _ g (λ lines.
          Ends-option b _ (contexts_of_lines lines) _ _ (tell-Ends t none _ (sends m _ h))
            (λ ds. send_details-Ends t ds _ (sends m _ h))))
