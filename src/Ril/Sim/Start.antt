-- ===== src/Ril/Sim/Start.antt =====
-- How isRadioOn and initializeCallback of android2.1_init/hard_ril/reference-ril/reference-ril.c end.
use demonstratortool.Base.{ℕ, refl, Bool, true, Option, List, [], ◌∷◌, ltb, Bytes, codes}
use demonstratortool.Ril.Channel.{singleline}
use demonstratortool.Ril.Commands.{Command}
use demonstratortool.Ril.Telephony.{off, sim_not_ready}
use demonstratortool.Ril.Radio.{Radio, Modem, checked, one_line}
use demonstratortool.Ril.Radio.Ends.{Ends, Ends-done, Ends-bind, Ends-if, Ends-option}
use demonstratortool.Ril.Radio.Frame.{IsModem, has_failed-bind, line_of-bind}
use demonstratortool.Ril.Radio.Moves.{Moves, sends}
use demonstratortool.Ril.Sim.{is_radio_on, send_all, register_events, initialize_callback}
use demonstratortool.Ril.Sim.Ends.{set_radio_state-Ends}

module _ (first : Radio) (m : Modem) where
  pub is_radio_on-Ends :
      {n : ℕ} (b : Bool) (r : Radio)
      → IsModem m
      → Moves first n r
      → Ends b (λ (s : Option ℕ × Radio). Moves first n s.1) (is_radio_on m r)
  unfolding is_radio_on
  is_radio_on-Ends b r good h =
      has_failed-bind b _ m cmd r _ good refl (Ends-done b _ _ (sends m cmd h))
        (λ g. line_of-bind b _ singleline _ _ g refl (λ line. Ends-done b _ _ (sends m cmd h)))
    where
      cmd : Command
      cmd = one_line (codes "AT+CFUN?") (codes "+CFUN:")

  send_all-Moves :
      {n : ℕ} (texts : List Bytes) (r : Radio)
      → Moves first n r
      → Moves first n (send_all m texts r)
  unfolding send_all
  send_all-Moves [] r h = h
  send_all-Moves (text ∷ texts) r h = send_all-Moves texts _ (sends m _ h)

  register_events-Ends :
      {n : ℕ} (b : Bool) (r : Radio)
      → IsModem m
      → Moves first n r
      → Ends b (Moves first n) (register_events m r)
  unfolding register_events
  register_events-Ends b r good h =
      has_failed-bind b _ m cmd r _ good refl (Ends-done b _ _ (sends m _ (sends m cmd h)))
        (λ g. Ends-done b _ _ (sends m cmd h))
    where
      cmd : Command
      cmd = checked (codes "AT+CREG=2")

  pub initialize_callback-Ends :
      {n : ℕ} (r : Radio)
      → IsModem m
      → Moves first n r
      → Ends true (Moves first n) (initialize_callback m r)
  unfolding initialize_callback
  initialize_callback-Ends r good h =
      Ends-bind true _ (Moves first _) _ _ (set_radio_state-Ends first m off r h) (λ r h.
        Ends-bind true _ (Moves first _) _ _
          (register_events-Ends true _ good (send_all-Moves _ _ (sends m _ h)))
          (λ r h.
            Ends-bind true _ (λ (s : Option ℕ × Radio). Moves first _ s.1) _ _
              (is_radio_on-Ends true _ good (send_all-Moves _ r h))
              (λ s h. Ends-option true _ s.0 _ _ (Ends-done true _ _ h) (λ v.
                Ends-if true _ (ltb 0 v) _ _ (λ _. set_radio_state-Ends first m sim_not_ready s.1 h)
                  (λ _. Ends-done true _ _ h)))))
