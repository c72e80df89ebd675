-- ===== src/Ril/Dispatch/Quiet.antt =====
-- Requests while the radio is off or unavailable (onRequest of
-- android2.1_init/hard_ril/reference-ril/reference-ril.c).
use demonstratortool.Base.{
  ◌≡◌, refl, sym, subst, ◌⊎◌, inl, inr, Bool, true, false, ◌||◌, Bool-cases,
}
use demonstratortool.Ril.Telephony.{
  success, radio_not_available, Errno, RadioState, off, unavailable, same_state, state_number,
}
use demonstratortool.Ril.Radio.{nothing, Reply, Radio, Modem, complete}
use demonstratortool.Ril.Radio.Ends.{Ends, Ends-done}
use demonstratortool.Ril.Sim.{get_sim_status}
use demonstratortool.Ril.Setup.{Qmi}
use demonstratortool.Ril.Requests.{
  Request, get_sim_status_request, radio_power, request_get_sim_status,
}
use demonstratortool.Ril.Dispatch.{is_turned_down, switch_request, on_request}

abbrev pub is_power : Request → Bool
is_power (radio_power on_off) = true
is_power _ = false

-- The radio cannot take a request: it is unavailable, or it is off and not to be switched on or off.
abbrev pub CannotTake : RadioState → Request → Type 0
CannotTake s request = (s ≡ unavailable) ⊎ ((s ≡ off) × (is_power request ≡ false))

is_down :
    (s : RadioState) (request : Request)
    → CannotTake s request
    → same_state s off || same_state s unavailable ≡ true
unfolding state_number
is_down s request (inl e) = rw e refl
is_down s request (inr (e, p)) = rw e refl

down_too :
    (s : RadioState) (request : Request)
    → CannotTake s request
    → same_state s unavailable || same_state s off ≡ true
unfolding state_number
down_too s request (inl e) = rw e refl
down_too s request (inr (e, p)) = rw e refl

is_unavailable : (s : RadioState) → s ≡ unavailable → same_state s unavailable ≡ true
unfolding state_number
is_unavailable s e = rw e refl

turned_down :
    (r : Radio) (request : Request)
    → CannotTake r.state request
    → is_turned_down r request ≡ false
    → request ≡ get_sim_status_request
unfolding is_turned_down
turned_down r get_sim_status_request h d = refl
turned_down r (radio_power on_off) (inl e) d = absurd (cc (is_unavailable r.state e, d))
turned_down r (radio_power on_off) (inr (e, p)) d = cc p
turned_down r request h d = absurd (cc (down_too r.state request h, d))

-- The request is completed, and nothing else happens.
abbrev pub OnlyCompletes : Radio → Radio → Type 0
OnlyCompletes r r' = (e : Errno) × (reply : Reply) × (r' ≡ complete e reply r)

asked_for_status :
    (m : Modem) (q : Qmi) (r : Radio)
    → CannotTake r.state get_sim_status_request
    → Ends false (OnlyCompletes r) (on_request m q get_sim_status_request r)
unfolding on_request is_turned_down switch_request request_get_sim_status get_sim_status
asked_for_status m q r h =
    rw (is_down r.state get_sim_status_request h) (Ends-done false _ _ (success, _, refl))

-- While the radio is unavailable, and while it is off, a request, when it is off any but RADIO_POWER,
-- puts no command to the modem, and does nothing but complete itself, once.
pub on_request-quiet :
    (m : Modem) (q : Qmi) (request : Request) (r : Radio)
    → CannotTake r.state request
    → Ends false (OnlyCompletes r) (on_request m q request r)
unfolding on_request
on_request-quiet m q request r h = elim (Bool-cases (is_turned_down r request)) [
  | inl e ↦ rw (e, on_request) (Ends-done false _ _ (radio_not_available, nothing, refl))
  | inr e ↦
      let same : request ≡ get_sim_status_request = turned_down r request h e in
      subst (λ request. Ends false (OnlyCompletes r) (on_request m q request r)) (sym same)
        (asked_for_status m q r (subst (CannotTake r.state) same h))
]
