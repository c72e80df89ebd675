-- ===== src/Ril/Sim.antt =====
-- The state of the SIM and of the radio in android2.1_init/hard_ril/reference-ril/reference-ril.c.
pub mod Ends
pub mod Crash
pub mod Start
use demonstratortool.Ril.Cards.{}
use demonstratortool.Base.{
  ℕ, zero, suc, true, false, not, ◌||◌, Option, none, some, List, [], ◌∷◌, ltb, ◌==◌, if◌then◌else◌,
  set, Bytes, codes, streq,
}
use demonstratortool.Ril.AtTok.{at_tok_start, at_tok_nextbool, at_tok_nextstr}
use demonstratortool.Ril.Issue.{at_get_cme_error, cme_success}
use demonstratortool.Ril.Commands.{Command, is_given}
use demonstratortool.Ril.Telephony.{
  RadioState, off, unavailable, sim_not_ready, sim_locked_or_absent, sim_ready, same_state,
  AppStatus, apptype_unknown, apptype_sim, appstate_unknown, appstate_detected, appstate_pin,
  appstate_puk, appstate_subscription_perso, appstate_ready, perso_unknown, perso_ready,
  perso_sim_network, pin_unknown, pin_enabled_not_verified, pin_enabled_blocked, CardStatus,
  state_number,
}
use demonstratortool.Ril.Radio.{
  SimStatus, sim_absent, not_ready, ready, sim_pin, sim_puk, network_personalization, timed,
  poll_later, Radio, Answered, Modem, Outcome, done, null_read, no_fuel, ◌>>=◌, note, enter_state,
  send, plain, checked, one_line, send_plain, has_failed, line_of,
}

-- `CME_SIM_NOT_INSERTED`
abbrev pub cme_sim_not_inserted : ℕ
cme_sim_not_inserted = 10

-- What the answer to `AT+CPIN?` says, behind the prefix. The token is never NULL.
unfoldable pub status_of_token : Bytes → SimStatus
status_of_token token =
    if streq token (codes "SIM PIN")
    then sim_pin
    else if streq token (codes "SIM PUK")
    then sim_puk
    else if streq token (codes "PH-NET PIN")
    then network_personalization
    else if streq token (codes "READY")
    then ready
    else sim_absent

unfoldable pub status_of_line : Bytes → Outcome SimStatus
status_of_line line =
    let (started, cur) = at_tok_start (some line) in
    if not started
    then done not_ready
    else (let result = at_tok_nextstr cur in
        if not result.ok then done not_ready else elim result.out [
          | none ↦ null_read
          | some none ↦ null_read
          | some (some token) ↦ done (status_of_token token)
        ])

-- `getSIMStatus` behind the command.
unfoldable pub status_of_answer : Answered → Outcome SimStatus
status_of_answer a = if is_given a.error then done not_ready else elim a.response [
  | none ↦ null_read
  | some p ↦
      let cme = at_get_cme_error p in
      if cme == cme_success
      then line_of a >>= status_of_line
      else if cme == cme_sim_not_inserted
      then done sim_absent
      else done not_ready
]

unfoldable pub get_sim_status : Modem → Radio → Outcome (SimStatus × Radio)
get_sim_status m r =
    if same_state r.state off || same_state r.state unavailable
    then done (not_ready, r)
    else (let (a, r') = send m (one_line (codes "AT+CPIN?") (codes "+CPIN:")) r in
        status_of_answer a >>= λ s. done (s, r'))

-- `onSIMReady`
unfoldable pub on_sim_ready : Modem → Radio → Radio
on_sim_ready m r =
    let (a, r') =
      send m (record (one_line (codes "AT+CSMS=1") (codes "+CSMS:")) { wants_response = false })
        r in
    send_plain m (codes "AT+CNMI=2,2") r'

-- The `switch` of `pollSIMState`; `set` is `setRadioState`.
unfoldable pub poll_by : (RadioState → Radio → Outcome Radio) → SimStatus → Radio → Outcome Radio
poll_by set not_ready r = done (note (timed poll_later) r)
poll_by set ready r = set sim_ready r
poll_by set _ r = set sim_locked_or_absent r

unfoldable pub poll_with : Modem → (RadioState → Radio → Outcome Radio) → Radio → Outcome Radio
poll_with m set r =
    if not (same_state r.state sim_not_ready)
    then done r
    else get_sim_status m r >>= λ (s : SimStatus × Radio). poll_by set s.0 s.1

-- What `setRadioState` calls for the new state; `onRadioPowerOn` calls `pollSIMState` alone.
unfoldable pub after_change :
    Modem → (RadioState → Radio → Outcome Radio) → RadioState → Radio → Outcome Radio
after_change m set sim_ready r = done (on_sim_ready m r)
after_change m set sim_not_ready r = poll_with m set r
after_change m set _ r = done r

-- `setRadioState` may call itself through `pollSIMState`; the fuel is the depth of its calls.
unfoldable pub set_radio_state_in : ℕ → Modem → RadioState → Radio → Outcome Radio
set_radio_state_in zero m new r = no_fuel
set_radio_state_in (suc fuel) m new r =
    let set = set_radio_state_in fuel m in
    let r' = enter_state new r in
    if same_state r'.state r.state then done r' else after_change m set r'.state r'

-- The state that `pollSIMState` enters calls for no other.
abbrev pub call_depth : ℕ
call_depth = 2

unfoldable pub set_radio_state : Modem → RadioState → Radio → Outcome Radio
set_radio_state = set_radio_state_in call_depth

unfoldable pub poll_sim_state : Modem → Radio → Outcome Radio
poll_sim_state m = poll_with m (set_radio_state m)

-- `isRadioOn`: some 1 and some 0 for on and off, none for -1.
unfoldable pub radio_on_of_line : Bytes → Option ℕ
radio_on_of_line line =
    let (started, cur) = at_tok_start (some line) in
    if not started
    then none
    else (let result = at_tok_nextbool cur in if result.ok then result.out else none)

unfoldable pub is_radio_on : Modem → Radio → Outcome (Option ℕ × Radio)
is_radio_on m r =
    let (a, r') = send m (one_line (codes "AT+CFUN?") (codes "+CFUN:")) r in
    has_failed a >>= λ failed.
    if failed then done (none, r') else line_of a >>= λ line. done (radio_on_of_line line, r')

-- `at_handshake`, as one command
abbrev handshake : Command
handshake = record (plain (codes "ATE0Q0V1")) { has_timeout = true }

abbrev set_up_commands : List Bytes
set_up_commands =
    codes "AT+CGREG=1"
    ∷ codes "AT+CCWA=1"
    ∷ codes "AT+CMOD=0"
    ∷ codes "AT+CMUT=0"
    ∷ codes "AT+CSSN=0,1"
    ∷ codes "AT+COLP=0"
    ∷ codes "AT+CSCS=\"HEX\""
    ∷ codes "AT+CUSD=1"
    ∷ codes "AT+CGEREP=1,0"
    ∷ codes "AT+CMGF=0"
    ∷ []

unfoldable pub send_all : Modem → List Bytes → Radio → Radio
send_all m [] r = r
send_all m (text ∷ texts) r = send_all m texts (send_plain m text r)

-- `AT+CREG=2`, and `AT+CREG=1` if that fails.
unfoldable pub register_events : Modem → Radio → Outcome Radio
register_events m r =
    let (a, r') = send m (checked (codes "AT+CREG=2")) r in
    has_failed a >>= λ failed. done (if failed then send_plain m (codes "AT+CREG=1") r' else r')

unfoldable pub initialize_callback : Modem → Radio → Outcome Radio
initialize_callback m r = set_radio_state m off r >>= λ r.
    register_events m (send_all m (codes "ATS0=0" ∷ codes "AT+CMEE=1" ∷ []) (send m handshake r).1)
    >>= λ r. is_radio_on m (send_all m set_up_commands r) >>= λ (s : Option ℕ × Radio). elim s.0 [
      | none ↦ done s.1
      | some v ↦ if ltb 0 v then set_radio_state m sim_not_ready s.1 else done s.1
    ]
