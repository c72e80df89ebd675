-- ===== src/Ril/Requests/Ends.antt =====
-- How often the requests of android2.1_init/hard_ril/reference-ril/reference-ril.c are completed that
-- look at the success of a command at most, and the power of the radio.
use demonstratortool.Base.{
  ℕ, suc, ◌^◌, ◌≡◌, refl, Bool, true, not, ◌&&◌, Option, List, ltb, ◌==◌, Bytes, codes,
}
use demonstratortool.Ril.Channel.{numeric}
use demonstratortool.Ril.Commands.{Command}
use demonstratortool.Ril.Telephony.{
  Errno, success, generic_failure, password_incorrect, off, sim_not_ready, same_state,
}
use demonstratortool.Ril.Radio.{
  SimStatus, nothing, line_text, Reply, Radio, Modem, Outcome, done, ◌>>=◌, complete, checked,
  one_line, one_number,
}
use demonstratortool.Ril.Radio.Ends.{Ends, Ends-done, Ends-bind, Ends-if, Ends-option}
use demonstratortool.Ril.Radio.Frame.{IsModem, has_failed-bind, line_of-bind}
use demonstratortool.Ril.Radio.Moves.{Moves, completes, sends, expects}
use demonstratortool.Ril.Sim.{set_radio_state}
use demonstratortool.Ril.Sim.Ends.{get_sim_status-Ends, set_radio_state-Ends}
use demonstratortool.Ril.Sim.Start.{is_radio_on-Ends}
use demonstratortool.Ril.Requests.{
  send_and_succeed, send_and_expect, request_separate_connection, power_on, power_off,
  request_radio_power, request_number, pin_command, request_enter_sim_pin, request_get_sim_status,
  send_checked,
}

module _ (first : Radio) (m : Modem) where
  -- The outcome is a request completed once more.
  abbrev pub Once : ℕ → Bool → Outcome Radio → Type 0
  Once n b o = Ends b (Moves first (suc n)) o

  module _ {n : ℕ} (b : Bool) (r : Radio) (h : Moves first n r) where
    pub completes_now : (e : Errno) (reply : Reply) → Once n b (done (complete e reply r))
    completes_now e reply = Ends-done b _ _ (completes e reply h)

    pub send_and_succeed-Ends : (text : Bytes) → Once n b (send_and_succeed m text r)
    unfolding send_and_succeed
    send_and_succeed-Ends text = Ends-done b _ _ (completes success nothing (sends m _ h))

    pub send_and_expect-Ends : (text : Bytes) → Once n b (send_and_expect m text r)
    unfolding send_and_expect
    send_and_expect-Ends text = Ends-done b _ _ (completes success nothing (expects (sends m _ h)))

    pub request_separate_connection-Ends :
        (party : ℕ) → Once n b (request_separate_connection m party r)
    unfolding request_separate_connection
    request_separate_connection-Ends party =
        Ends-if b _ (ltb 0 party && ltb party 10) _ _ (λ _. send_and_succeed-Ends _)
          (λ _. completes_now generic_failure nothing)

    module _ (good : IsModem m) where
      pub send_checked-Ends :
          (cmd : Command) (reply : Reply)
          → cmd.wants_response ≡ true
          → Once n b (send_checked m cmd reply r)
      send_checked-Ends cmd reply w =
          has_failed-bind b _ m cmd r _ good w
            (Ends-done b _ _ (completes generic_failure nothing (sends m cmd h)))
            (λ _. Ends-done b _ _ (completes success reply (sends m cmd h)))

      pub request_number-Ends : (text : Bytes) → Once n b (request_number m text r)
      unfolding request_number
      request_number-Ends text =
          has_failed-bind b _ m (one_number text) r _ good refl
            (Ends-done b _ _ (completes generic_failure nothing (sends m _ h)))
            (λ g.
              line_of-bind b _ numeric _ _ g refl
                (λ line. Ends-done b _ _ (completes success (line_text line) (sends m _ h))))

      pub request_enter_sim_pin-Ends :
          (texts : List Bytes) → Once n b (request_enter_sim_pin m texts r)
      unfolding request_enter_sim_pin
      request_enter_sim_pin-Ends texts =
          Ends-option b _ (pin_command texts) _ _ (completes_now password_incorrect nothing)
            (λ text.
              has_failed-bind b _ m (one_line text (codes "+CPIN:")) r _ good refl
                (Ends-done b _ _ (completes _ nothing (sends m _ h)))
                (λ _. Ends-done b _ _ (completes _ nothing (sends m _ h))))

  module _ {n : ℕ} (r : Radio) (h : Moves first n r) where
    pub request_get_sim_status-Ends : Once n true (request_get_sim_status m r)
    unfolding request_get_sim_status
    request_get_sim_status-Ends =
        Ends-bind true _ (λ (s : SimStatus × Radio). Moves first n s.1) _ _
          (get_sim_status-Ends first m r h) (λ s h. Ends-done true _ _ (completes success _ h))

    power_is_on :
        Once n true (set_radio_state m sim_not_ready r >>= λ r. done (complete success nothing r))
    power_is_on =
        Ends-bind true _ (Moves first n) _ _ (set_radio_state-Ends first m sim_not_ready r h)
          (λ r h. Ends-done true _ _ (completes success nothing h))

  module _ {n : ℕ} (r : Radio) (h : Moves first n r) (good : IsModem m) where
    power_on-Ends : Once n true (power_on m r)
    unfolding power_on
    power_on-Ends =
        has_failed-bind true _ m (checked (codes "AT+CFUN=1")) r _ good refl
          (Ends-bind true _ (λ (s : Option ℕ × Radio). Moves first n s.1) _ _
            (is_radio_on-Ends first m true _ good (sends m _ h))
            (λ s h.
              Ends-option true _ s.0 _ _ (Ends-done true _ _ (completes generic_failure nothing h))
                (λ v.
                  Ends-if true _ (v == 1) _ _ (λ _. power_is_on s.1 h)
                    (λ _. Ends-done true _ _ (completes generic_failure nothing h)))))
          (λ _. power_is_on _ (sends m _ h))

    power_off-Ends : Once n true (power_off m r)
    unfolding power_off
    power_off-Ends =
        has_failed-bind true _ m (checked (codes "AT+CFUN=0")) r _ good refl
          (Ends-done true _ _ (completes generic_failure nothing (sends m _ h)))
          (λ _.
            Ends-bind true _ (Moves first n) _ _ (set_radio_state-Ends first m off _ (sends m _ h))
              (λ r h. Ends-done true _ _ (completes success nothing h)))

    pub request_radio_power-Ends : (on_off : ℕ) → Once n true (request_radio_power m on_off r)
    unfolding request_radio_power
    request_radio_power-Ends on_off =
        Ends-if true _ (on_off == 0 && not (same_state r.state off)) _ _ (λ _. power_off-Ends)
          (λ _.
            Ends-if true _ (ltb 0 on_off && ltb on_off (2 ^ 31) && same_state r.state off) _ _
              (λ _. power_on-Ends) (λ _. completes_now true r h success nothing))
