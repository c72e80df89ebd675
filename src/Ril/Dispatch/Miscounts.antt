-- ===== src/Ril/Dispatch/Miscounts.antt =====
-- The three requests that onRequest of android2.1_init/hard_ril/reference-ril/reference-ril.c completes
-- twice or not at all, and what holds of the radio after any request.
use demonstratortool.Base.{
  ℕ, suc, ◌+◌, ◌≤◌, ◌≡◌, refl, ◌∙◌, inl, inr, Bool, true, false, some, arith, ◌==◌, Bool-cases,
  Bytes, codes, pick, pick_by,
}
use demonstratortool.Ril.Commands.{Command}
use demonstratortool.Ril.Channel.{AtError, singleline}
use demonstratortool.Ril.Telephony.{radio_not_available, success, generic_failure}
use demonstratortool.Ril.Radio.{nothing, Radio, Modem, complete, one_line, send, send_plain}
use demonstratortool.Ril.Radio.Ends.{Ends, Ends-done, Ends-if, Ends-weaken, Ends-crash, Ends-option}
use demonstratortool.Ril.Radio.Frame.{
  IsModem, times_completed, has_failed-bind, has_failed-error, line_of-bind,
}
use demonstratortool.Ril.Radio.Moves.{
  Moves, stays, completes, sends, Moves-times, IsSound, Moves-IsSound,
}
use demonstratortool.Ril.Setup.{Qmi, IsQmi}
use demonstratortool.Ril.Reports.{ints_of_line, numbers_of, request_signal_strength}
use demonstratortool.Ril.Requests.{
  Request, signal_strength, sms_acknowledge, set_network_selection_automatic,
  request_sms_acknowledge,
}
use demonstratortool.Ril.Dispatch.{is_turned_down, switch_request, on_request}
use demonstratortool.Ril.Dispatch.Once.{is_counted, may_crash, switch_request-Ends}

abbrev pub csq : Command
csq = one_line (codes "AT+CSQ") (codes "+CSQ:")

module _ (first : Radio) (m : Modem) {n : ℕ} (r : Radio) (h : Moves first n r) where
  both :
      (text : Bytes)
      → Moves first
          (suc (suc n))
          (complete generic_failure nothing (complete success nothing (send_plain m text r)))
  both text = completes generic_failure nothing (completes success nothing (sends m _ h))

  request_sms_acknowledge-Ends :
      (ack : ℕ) → ack ≤ 1 → Ends false (Moves first (suc (suc n))) (request_sms_acknowledge m ack r)
  unfolding request_sms_acknowledge
  request_sms_acknowledge-Ends ack le = Ends-done false _ _ (
      pick_by (Moves first (suc (suc n))) (ack == 1) _ _ (λ _. both _)
        (λ d.
          pick_by (Moves first (suc (suc n))) (ack == 0) _ _ (λ _. both _)
            (λ e. absurd (ground arith))))

  request_sms_acknowledge-Moves :
      (b : Bool) (ack : ℕ)
      → Ends b (λ r'. (k : ℕ) × Moves first k r') (request_sms_acknowledge m ack r)
  unfolding request_sms_acknowledge
  request_sms_acknowledge-Moves b ack = Ends-done b _ _ (
      pick (λ r'. (k : ℕ) × Moves first k r') (ack == 1) _ _ (_, both _)
        (pick (λ r'. (k : ℕ) × Moves first k r') (ack == 0) _ _ (_, both _)
          (_, completes generic_failure nothing h)))

  -- Two or one, as the command or the line fails.
  request_signal_strength-Moves :
      (b : Bool)
      → IsModem m
      → Ends b (λ r'. (k : ℕ) × Moves first k r') (request_signal_strength m r)
  unfolding request_signal_strength
  request_signal_strength-Moves b good =
      has_failed-bind b _ m csq r _ good refl (Ends-done b _ _ (_, fail2)) (λ g.
        line_of-bind b _ singleline _ _ g refl (λ line.
          Ends-option b _ (numbers_of (ints_of_line 2 line)) _ _ (Ends-done b _ _ (_, fail1))
            (λ reply. Ends-done b _ _ (_, completes success reply (sends m csq h)))))
    where
      fail1 : Moves first (suc n) (complete generic_failure nothing (send m csq r).1)
      fail1 = completes generic_failure nothing (sends m csq h)

      fail2 :
          Moves first
            (suc (suc n))
            (complete generic_failure nothing (complete generic_failure nothing (send m csq r).1))
      fail2 = completes generic_failure nothing fail1

  request_signal_strength-fails :
      (x : AtError)
      → (m.answer r.sent csq).error ≡ some x
      → Ends false (Moves first (suc (suc n))) (request_signal_strength m r)
  unfolding request_signal_strength
  request_signal_strength-fails x e = rw (has_failed-error m csq r x e) (
      Ends-done false _ _
        (completes generic_failure nothing (completes generic_failure nothing (sends m csq h))))

module _ (m : Modem) (q : Qmi) (r : Radio) where
  uncounted_request-Ends :
      (request : Request)
      → is_counted request ≡ false
      → IsModem m
      → Ends true (λ r'. (k : ℕ) × Moves r k r') (switch_request m q request r)
  unfolding is_counted switch_request
  uncounted_request-Ends signal_strength c good =
      request_signal_strength-Moves r m r stays true good
  uncounted_request-Ends (sms_acknowledge ack) c good =
      request_sms_acknowledge-Moves r m r stays true ack
  uncounted_request-Ends set_network_selection_automatic c good =
      Ends-done true _ _ (0, sends m _ stays)
  uncounted_request-Ends _ c good = cc c

  switch_request-Moves :
      (request : Request)
      → IsModem m
      → IsQmi q
      → Ends true (λ r'. (k : ℕ) × Moves r k r') (switch_request m q request r)
  switch_request-Moves request good kind = elim (Bool-cases (is_counted request)) [
    | inl c ↦ Ends-crash (may_crash request) _ _ (
        Ends-weaken _ _ (Moves r 1) _ (λ r' h. (1, h))
          (switch_request-Ends r m q good kind r stays request c))
    | inr c ↦ uncounted_request-Ends request c good
  ]

-- Whatever the modem answers to a request: once the channel is closed, the radio is unavailable, and the
-- polls that the workaround for calls counts are four at most, if this holds before, if the functions of
-- the channel keep their promise on responses, and a `write` to the device takes a byte at least. Where
-- the request comes to a wrong access to memory nothing is said.
pub on_request-IsSound :
    (m : Modem) (q : Qmi) (request : Request) (r : Radio)
    → IsModem m
    → IsQmi q
    → IsSound r
    → Ends true IsSound (on_request m q request r)
unfolding on_request
on_request-IsSound m q request r good kind s =
    Ends-weaken _ _ (λ r'. (k : ℕ) × Moves r k r') _ (λ r' h. Moves-IsSound r h.1 s)
      (Ends-if _ _ (is_turned_down r request) _ _
        (λ _. Ends-done _ _ _ (1, completes radio_not_available nothing stays))
        (λ _. switch_request-Moves m q r request good kind))

-- Three requests are not completed once when the radio is on: SMS_ACKNOWLEDGE with 0 or 1 and
-- SIGNAL_STRENGTH with a command that comes back with an error are completed twice, and
-- SET_NETWORK_SELECTION_AUTOMATIC is not completed at all.
pub on_request-miscounted :
    (m : Modem) (q : Qmi) (r : Radio) (ack : ℕ) (x : AtError)
    → ack ≤ 1
    → is_turned_down r signal_strength ≡ false
    → (m.answer r.sent csq).error ≡ some x
    → Ends false
        (λ r'. times_completed r' ≡ times_completed r + 2)
        (on_request m q (sms_acknowledge ack) r)
      × Ends false
          (λ r'. times_completed r' ≡ times_completed r + 2)
          (on_request m q signal_strength r)
      × Ends false
          (λ r'. times_completed r' ≡ times_completed r)
          (on_request m q set_network_selection_automatic r)
unfolding on_request is_turned_down switch_request
on_request-miscounted m q r ack x le up e = (
  rw up (
      Ends-weaken _ _ (Moves r 2) _ (λ r' h. Moves-times r h)
        (request_sms_acknowledge-Ends r m r stays ack le)),
  rw up (
      Ends-weaken _ _ (Moves r 2) _ (λ r' h. Moves-times r h)
        (request_signal_strength-fails r m r stays x e)),
  rw up (
      Ends-weaken _ _ (Moves r 0) _ (λ r' h. Moves-times r h ∙ omega arith)
        (Ends-done _ _ _ (sends m _ stays))),
)
