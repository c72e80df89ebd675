-- ===== src/Ril/Reports/Ends.antt =====
-- How often requests are completed that report what the modem answers
-- (android2.1_init/hard_ril/reference-ril/reference-ril.c).
use demonstratortool.Base.{
  ℕ, suc, ◌+◌, ◌<◌, ◌≡◌, refl, Bool, true, Option, List, [], ◌∷◌, arith, ltb, if◌then◌else◌, set,
  Bytes, codes, pick, pick_by,
}
use demonstratortool.Ril.Channel.{singleline, multiline}
use demonstratortool.Ril.Commands.{Command, is_given}
use demonstratortool.Ril.Telephony.{success, generic_failure}
use demonstratortool.Ril.Radio.{
  nothing, strings, send_call_state_changed, timed, Reply, Radio, Answered, Modem, done, ◌>>=◌,
  complete, send, one_line, many_lines, line_of,
}
use demonstratortool.Ril.Radio.Ends.{Ends, Ends-done, Ends-bind, Ends-if, Ends-option}
use demonstratortool.Ril.Radio.Frame.{
  IsModem, has_failed-bind, line_of-bind, line_of-crash, intermediates_of-bind,
  intermediates_of-crash,
}
use demonstratortool.Ril.Radio.Moves.{Moves, tells, completes, sends, waits_on, repolls, settles}
use demonstratortool.Ril.Reports.{
  answer_line, request_query_network_selection_mode, SimIo, request_sim_io,
}
use demonstratortool.Ril.Networks.{
  registration_of_line, response_strings, request_registration_state, operator_lines,
  operator_of_line, operator_command, request_operator,
}
use demonstratortool.Ril.Calls.{
  Scan, repoll_calls_count_max, first_scan, no_line, scan_lines, is_erroneous_answer, answer_calls,
  request_get_current_calls,
}
use demonstratortool.Ril.Requests.Ends.{Once}

few_repolls :
    (previous : ℕ) (s : Scan) (r : Radio)
    → is_erroneous_answer previous s r ≡ true
    → r.repoll_calls_count < repoll_calls_count_max
unfolding is_erroneous_answer
few_repolls previous s r e = ground arith

module _ (first : Radio) (m : Modem) {n : ℕ} (r : Radio) (h : Moves first n r) where
  answer_line-Ends :
      (b : Bool) (cmd : Command) (read : Bytes → Option Reply)
      → IsModem m
      → cmd.wants_response ≡ true
      → cmd.type ≡ singleline
      → Once first m n b (
          answer_line
            (send m cmd r).0
            read
            (λ _. complete generic_failure nothing (send m cmd r).1)
            (send m cmd r).1)
  answer_line-Ends b cmd read good w t =
      has_failed-bind b _ m cmd r _ good w
        (Ends-done b _ _ (completes generic_failure nothing (sends m cmd h)))
        (λ g. line_of-bind b _ cmd.type _ _ g (rw t refl) (λ line.
          Ends-option b _ (read line) _ _
            (Ends-done b _ _ (completes generic_failure nothing (sends m cmd h)))
            (λ reply. Ends-done b _ _ (completes success reply (sends m cmd h)))))

  pub request_query_network_selection_mode-Ends :
      (b : Bool) → IsModem m → Once first m n b (request_query_network_selection_mode m r)
  unfolding request_query_network_selection_mode
  request_query_network_selection_mode-Ends b good = answer_line-Ends b _ _ good refl refl

  pub request_sim_io-Ends :
      (b : Bool) (args : SimIo) → IsModem m → Once first m n b (request_sim_io m args r)
  unfolding request_sim_io
  request_sim_io-Ends b args good = answer_line-Ends b _ _ good refl refl

  register_with :
      (a : Answered) (r : Radio)
      → Moves first n r
      → Once first m n true (
          line_of a >>= λ line.
          let (ok, g) = registration_of_line line in
          done (
            if ok
            then complete success (strings (response_strings g)) r
            else complete generic_failure nothing r))
  register_with a r h =
      Ends-bind true _ (λ _. Unit) _ _ (line_of-crash a)
        (λ line _. Ends-done true _ _ (
          pick (Moves first (suc n)) (registration_of_line line).0 _ _ (completes success _ h)
            (completes generic_failure nothing h)))

  pub request_registration_state-Ends :
      (is_gprs : Bool) → Once first m n true (request_registration_state m is_gprs r)
  unfolding request_registration_state
  request_registration_state-Ends is_gprs =
      let cmd : Command =
        if is_gprs
        then one_line (codes "AT+CGREG?") (codes "+CGREG:")
        else one_line (codes "AT+CREG?") (codes "+CREG:") in
      Ends-if true _ (is_given (send m cmd r).0.error) _ _
        (λ _. Ends-done true _ _ (completes generic_failure nothing (sends m cmd h)))
        (λ _. register_with _ _ (sends m cmd h))

  operator_lines-Ends :
      (i : ℕ) (response : List (Option Bytes)) (lines : List Bytes)
      → Ends true (λ _. Unit) (operator_lines i response lines)
  unfolding operator_lines
  operator_lines-Ends i response [] = Ends-done true _ _ tt
  operator_lines-Ends i response (line ∷ lines) =
      Ends-option true _ (operator_of_line line) _ _ (Ends-done true _ _ tt) (λ v.
        Ends-if true _ (ltb i 3) _ _ (λ _. operator_lines-Ends (i + 1) (set response i v) lines)
          (λ _. record { ends = refl }))

  pub request_operator-Ends : Once first m n true (request_operator m r)
  unfolding request_operator
  request_operator-Ends =
      let cmd : Command = many_lines operator_command (codes "+COPS:") in
      let failed : Once first m n true (done (complete generic_failure nothing (send m cmd r).1)) =
        Ends-done true _ _ (completes generic_failure nothing (sends m cmd h)) in
      Ends-if true _ (is_given (send m cmd r).0.error) _ _ (λ _. failed)
        (λ _.
          Ends-bind true _ (λ _. Unit) _ _
            (Ends-bind true _ (λ _. Unit) _ _ (intermediates_of-crash _)
              (λ lines _. operator_lines-Ends 0 _ lines))
            (λ o _.
              Ends-option true _ o _ _ failed
                (λ response. Ends-done true _ _ (completes success _ (sends m cmd h)))))

  answer_calls-Moves :
      (previous : ℕ) (s : Scan) (r : Radio)
      → Moves first n r
      → Moves first (suc n) (answer_calls previous s r)
  unfolding answer_calls
  answer_calls-Moves previous s r h =
      pick_by (Moves first (suc n)) (is_erroneous_answer previous s r) _ _
        (λ e.
          completes generic_failure nothing
            (repolls (few_repolls previous s r e) (waits_on s.waiting_line h)))
        (λ _.
          pick (Moves first (suc n)) s.need_repoll _ _
            (tells (timed send_call_state_changed) refl
              (completes success _ (settles (waits_on s.waiting_line h))))
            (completes success _ (settles (waits_on s.waiting_line h))))

  pub request_get_current_calls-Ends :
      (b : Bool) → IsModem m → Once first m n b (request_get_current_calls m r)
  unfolding request_get_current_calls
  request_get_current_calls-Ends b good =
      has_failed-bind b _ m (many_lines (codes "AT+CLCC") (codes "+CLCC:")) _ _ good refl
        (Ends-done b _ _ (completes generic_failure nothing (sends m _ (waits_on no_line h))))
        (λ g. intermediates_of-bind b _ multiline _ _ g (λ lines.
          Ends-done b _ _ (
            answer_calls-Moves _ (scan_lines lines first_scan) _ (sends m _ (waits_on no_line h)))))
