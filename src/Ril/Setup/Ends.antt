-- ===== src/Ril/Setup/Ends.antt =====
-- How requestSetupDataCall of android2.1_init/hard_ril/reference-ril/reference-ril.c ends.
use demonstratortool.Base.{
  ℕ, zero, suc, ◌+◌, ◌≤◌, ◌<◌, refl, inl, inr, Bool, true, false, Option, none, some, [], ◌∷◌, ◌++◌,
  arith, Option-cases, length, drop, Bytes, codes, length-drop, pick,
}
use demonstratortool.Ril.Telephony.{success, generic_failure}
use demonstratortool.Ril.Radio.{nothing, strings, started_dhcp, Radio, Modem, send, checked}
use demonstratortool.Ril.Radio.Ends.{Ends, Ends-done, Ends-bind, Ends-if}
use demonstratortool.Ril.Radio.Frame.{IsModem, has_failed-bind}
use demonstratortool.Ril.Radio.Moves.{Moves, tells, completes, sends}
use demonstratortool.Ril.Setup.{
  Qmi, IsQmi, qmi_write, qmi_wait, qmi_tries, qmi_finish, qmi_connect, data_call_response, dial_up,
  modem_connect, request_setup_data_call,
}
use demonstratortool.Ril.Requests.Ends.{Once}

module _ (first : Radio) (m : Modem) (q : Qmi) (b : Bool) where
  -- With fuel for each byte, the loop ends.
  qmi_write-Ends :
      {n : ℕ} (fuel k : ℕ) (s : Bytes) (r : Radio)
      → IsQmi q
      → length s ≤ fuel
      → Moves first n r
      → Ends b (λ (w : Bool × Radio). Moves first n w.1) (qmi_write q fuel k s r)
  unfolding qmi_write
  qmi_write-Ends fuel k [] r good l h = Ends-done b _ _ h
  qmi_write-Ends zero k (c ∷ s) r good l h = absurd (omega arith)
  qmi_write-Ends (suc fuel) k (c ∷ s) r good l h = elim (Option-cases (q.write k (c ∷ s))) [
    | inl e ↦ rw (e, qmi_write) (Ends-done b _ _ h)
    | inr (t, e) ↦
        let taken : 0 < t = good.some_bytes k (c ∷ s) t e (omega arith) in
        rw (e, qmi_write)
          (qmi_write-Ends fuel (k + 1) (drop t (c ∷ s)) _ good
            (omega (arith, length-drop t (c ∷ s), l, taken)) (tells _ refl h))
  ]

  module _ {n : ℕ} (r : Radio) (h : Moves first n r) where
    qmi_finish-Moves : (up : Option Bool) → Moves first (suc n) (qmi_finish q up r)
    unfolding qmi_finish
    qmi_finish-Moves none = completes generic_failure nothing h
    qmi_finish-Moves (some false) = completes generic_failure nothing h
    qmi_finish-Moves (some true) =
        pick (Moves first (suc n)) q.dhcp_fails _ _
          (completes generic_failure nothing (tells started_dhcp refl h))
          (completes success (strings data_call_response) (tells started_dhcp refl h))

  module _ {n : ℕ} (r : Radio) (h : Moves first n r) where
    qmi_connect-Ends : (apn : Bytes) → IsQmi q → Once first m n b (qmi_connect q apn r)
    unfolding qmi_connect
    qmi_connect-Ends apn good =
        Ends-bind b _ (λ (w : Bool × Radio). Moves first n w.1) _ _
          (qmi_write-Ends _ 0 (codes "up:" ++ apn) r good (omega arith) h)
          (λ w g. Ends-done b _ _ (
            pick (Moves first (suc n)) w.0 _ _ (qmi_finish-Moves w.1 g (qmi_wait q qmi_tries 0))
              (completes generic_failure nothing g)))

    modem_connect-Ends : (apn : Bytes) → IsModem m → Once first m n b (modem_connect m apn r)
    unfolding modem_connect
    modem_connect-Ends apn good =
        has_failed-bind b _ m (checked (codes "ATD*99***1#")) (dial_up m apn r) _ good refl
          (Ends-done b _ _ (completes generic_failure nothing dialled))
          (λ _. Ends-done b _ _ (completes success (strings data_call_response) dialled))
      where
        dialled : Moves first n (send m (checked (codes "ATD*99***1#")) (dial_up m apn r)).1
        dialled = sends m _ (sends m _ (sends m _ (sends m _ (sends m _ (sends m _ h)))))

    pub request_setup_data_call-Ends :
        (apn : Bytes) → IsModem m → IsQmi q → Once first m n b (request_setup_data_call m q apn r)
    unfolding request_setup_data_call
    request_setup_data_call-Ends apn good kind =
        Ends-if b _ q.opens _ _ (λ _. qmi_connect-Ends apn kind) (λ _. modem_connect-Ends apn good)
