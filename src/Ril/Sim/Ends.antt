-- ===== src/Ril/Sim/Ends.antt =====
-- How setRadioState, pollSIMState, getSIMStatus, isRadioOn and initializeCallback of
-- android2.1_init/hard_ril/reference-ril/reference-ril.c end.
use demonstratortool.Base.{
  ℕ, suc, ◌≡◌, refl, sym, ◌∙◌, ◌≢◌, inl, inr, Bool, true, false, ◌||◌, arith, ◌==◌, if◌then◌else◌,
  ==_refl, Bool-cases, set, Bytes,
}
use demonstratortool.Ril.Issue.{at_get_cme_error, cme_success}
use demonstratortool.Ril.Commands.{is_given}
use demonstratortool.Ril.Telephony.{
  state_number, RadioState, off, unavailable, sim_not_ready, sim_locked_or_absent, sim_ready,
  same_state,
}
use demonstratortool.Ril.Radio.{
  SimStatus, not_ready, ready, timed, poll_later, Radio, Answered, Modem, Outcome, enter_state,
  line_of,
}
use demonstratortool.Ril.Radio.Ends.{Ends-option, Ends-done, Ends, Ends-bind, Ends-if}
use demonstratortool.Ril.Radio.Frame.{line_of-crash}
use demonstratortool.Ril.Radio.Moves.{Moves, tells, enters, sends}
use demonstratortool.Ril.Sim.{
  status_of_line, status_of_answer, get_sim_status, on_sim_ready, poll_by, poll_with, after_change,
  set_radio_state_in, set_radio_state, poll_sim_state,
}

-- Behind the command, a crash is all that can go wrong.
pub status_of_line-Ends : (line : Bytes) → Ends true (λ _. Unit) (status_of_line line)
unfolding status_of_line
status_of_line-Ends line = record { ends = ground arith }

status_of_answer-Ends : (a : Answered) → Ends true (λ _. Unit) (status_of_answer a)
unfolding status_of_answer
status_of_answer-Ends a =
    Ends-if true _ (is_given a.error) _ _ (λ _. Ends-done true _ _ tt)
      (λ _.
        Ends-option true _ a.response _ _ (record { ends = refl })
          (λ p.
            Ends-if true _ (at_get_cme_error p == cme_success) _ _
              (λ _.
                Ends-bind true _ (λ _. Unit) (line_of a) _ (line_of-crash a)
                  (λ line _. status_of_line-Ends line))
              (λ _. record { ends = ground arith })))

enter_state-same :
    (new : RadioState) (r : Radio)
    → same_state r.state (if r.closed then unavailable else new) ≡ true
    → enter_state new r ≡ r
unfolding enter_state
enter_state-same new r e = rw (e, enter_state) refl

-- The state that is entered, if it is another one.
entered_state :
    (new : RadioState) (r : Radio)
    → same_state (enter_state new r).state r.state ≡ false
    → (enter_state new r).state ≡ (if r.closed then unavailable else new)
unfolding enter_state
entered_state new r h =
    let next : RadioState = if r.closed then unavailable else new in
    elim (Bool-cases (same_state r.state next)) [
      | inl e ↦ absurd (cc (h, enter_state-same new r e, ==_refl (state_number r.state)))
      | inr e ↦ rw (e, enter_state) refl
    ]

not_entered :
    (b : Bool) (new : RadioState)
    → new ≢ sim_not_ready
    → (if b then unavailable else new) ≢ sim_not_ready
not_entered true new d e = cc e
not_entered false new d e = d e

module _ (first : Radio) (m : Modem) where
  abbrev Reaches : ℕ → Radio → Type 0
  Reaches n r = Moves first n r

  pub get_sim_status-Ends :
      {n : ℕ} (r : Radio)
      → Moves first n r
      → Ends true (λ (s : SimStatus × Radio). Moves first n s.1) (get_sim_status m r)
  unfolding get_sim_status
  get_sim_status-Ends r h =
      Ends-if true _ (same_state r.state off || same_state r.state unavailable) _ _
        (λ _. Ends-done true _ _ h)
        (λ _.
          Ends-bind true _ (λ _. Unit) _ _ (status_of_answer-Ends _)
            (λ s _. Ends-done true _ _ (sends m _ h)))

  on_sim_ready-Moves : {n : ℕ} (r : Radio) → Moves first n r → Moves first n (on_sim_ready m r)
  unfolding on_sim_ready
  on_sim_ready-Moves r h = sends m _ (sends m _ h)

  -- `after_change` goes on only for one state.
  after_change-Ends :
      {n : ℕ} (set : RadioState → Radio → Outcome Radio) (s : RadioState) (r : Radio)
      → Moves first n r
      → (s ≡ sim_not_ready → Ends true (Moves first n) (poll_with m set r))
      → Ends true (Moves first n) (after_change m set s r)
  unfolding after_change
  after_change-Ends set sim_ready r h k = Ends-done true _ _ (on_sim_ready-Moves r h)
  after_change-Ends set sim_not_ready r h k = k refl
  after_change-Ends set _ r h k = Ends-done true _ _ h

  -- The states that `pollSIMState` enters need no more than one call.
  set_radio_state-settled :
      {n : ℕ} (fuel : ℕ) (new : RadioState) (r : Radio)
      → new ≢ sim_not_ready
      → Moves first n r
      → Ends true (Moves first n) (set_radio_state_in (suc fuel) m new r)
  unfolding set_radio_state_in
  set_radio_state-settled fuel new r d h =
      Ends-if true _ (same_state (enter_state new r).state r.state) _ _
        (λ _. Ends-done true _ _ (enters new h))
        (λ e.
          after_change-Ends (set_radio_state_in fuel m) (enter_state new r).state _ (enters new h)
            (λ q. absurd (not_entered r.closed new d (sym (entered_state new r e) ∙ q))))

  poll_by-Ends :
      {n : ℕ} (set : RadioState → Radio → Outcome Radio) (s : SimStatus) (r : Radio)
      → ((new : RadioState) (r : Radio)
          → new ≢ sim_not_ready
          → Moves first n r
          → Ends true (Moves first n) (set new r))
      → Moves first n r
      → Ends true (Moves first n) (poll_by set s r)
  unfolding poll_by
  poll_by-Ends set not_ready r k h = Ends-done true _ _ (tells (timed poll_later) refl h)
  poll_by-Ends set ready r k h = k sim_ready r (λ e. cc e) h
  poll_by-Ends set _ r k h = k sim_locked_or_absent r (λ e. cc e) h

  poll_with-Ends :
      {n : ℕ} (set : RadioState → Radio → Outcome Radio) (r : Radio)
      → ((new : RadioState) (r : Radio)
          → new ≢ sim_not_ready
          → Moves first n r
          → Ends true (Moves first n) (set new r))
      → Moves first n r
      → Ends true (Moves first n) (poll_with m set r)
  unfolding poll_with
  poll_with-Ends set r k h =
      Ends-if true _ _ _ _ (λ _. Ends-done true _ _ h)
        (λ _.
          Ends-bind true _ (λ (s : SimStatus × Radio). Moves first _ s.1) _ _
            (get_sim_status-Ends r h) (λ s g. poll_by-Ends set s.0 s.1 k g))

  set_radio_state_in-Ends :
      {n : ℕ} (fuel : ℕ) (new : RadioState) (r : Radio)
      → Moves first n r
      → Ends true (Moves first n) (set_radio_state_in (suc (suc fuel)) m new r)
  unfolding set_radio_state_in
  set_radio_state_in-Ends fuel new r h =
      let set : RadioState → Radio → Outcome Radio = set_radio_state_in (suc fuel) m in
      Ends-if true _ (same_state (enter_state new r).state r.state) _ _
        (λ _. Ends-done true _ _ (enters new h))
        (λ e.
          after_change-Ends set (enter_state new r).state _ (enters new h)
            (λ _. poll_with-Ends set _ (set_radio_state-settled fuel) (enters new h)))

  pub set_radio_state-Ends :
      {n : ℕ} (new : RadioState) (r : Radio)
      → Moves first n r
      → Ends true (Moves first n) (set_radio_state m new r)
  unfolding set_radio_state
  set_radio_state-Ends new r h = set_radio_state_in-Ends 0 new r h

  pub poll_sim_state-Ends :
      {n : ℕ} (r : Radio) → Moves first n r → Ends true (Moves first n) (poll_sim_state m r)
  unfolding poll_sim_state
  poll_sim_state-Ends r h = poll_with-Ends _ r (λ new r _ g. set_radio_state-Ends new r g) h
