-- ===== src/Ril/Cards.antt =====
-- The state of the card (getCardStatus of
-- android2.1_init/hard_ril/reference-ril/reference-ril.c).
use demonstratortool.Base.{ℕ, zero, suc, true, false, List, [], ◌∷◌, set}
use demonstratortool.Ril.Telephony.{
  AppStatus, apptype_unknown, apptype_sim, appstate_unknown, appstate_detected, appstate_pin,
  appstate_puk, appstate_subscription_perso, appstate_ready, perso_unknown, perso_ready,
  perso_sim_network, pin_unknown, pin_enabled_not_verified, pin_enabled_blocked, CardStatus,
}
use demonstratortool.Ril.Radio.{
  SimStatus, sim_absent, not_ready, ready, sim_pin, sim_puk, network_personalization,
}

unfoldable pub app_status : SimStatus → AppStatus
app_status s = elim s [
  | sim_absent ↦ record {
    app_type = apptype_unknown;
    app_state = appstate_unknown;
    perso_substate = perso_unknown;
    pin1 = pin_unknown;
    pin2 = pin_unknown;
  }
  | not_ready ↦ record {
    app_type = apptype_sim;
    app_state = appstate_detected;
    perso_substate = perso_unknown;
    pin1 = pin_unknown;
    pin2 = pin_unknown;
  }
  | ready ↦ record {
    app_type = apptype_sim;
    app_state = appstate_ready;
    perso_substate = perso_ready;
    pin1 = pin_unknown;
    pin2 = pin_unknown;
  }
  | sim_pin ↦ record {
    app_type = apptype_sim;
    app_state = appstate_pin;
    perso_substate = perso_unknown;
    pin1 = pin_enabled_not_verified;
    pin2 = pin_unknown;
  }
  | sim_puk ↦ record {
    app_type = apptype_sim;
    app_state = appstate_puk;
    perso_substate = perso_unknown;
    pin1 = pin_enabled_blocked;
    pin2 = pin_unknown;
  }
  | network_personalization ↦ record {
    app_type = apptype_sim;
    app_state = appstate_subscription_perso;
    perso_substate = perso_sim_network;
    pin1 = pin_enabled_not_verified;
    pin2 = pin_unknown;
  }
]

abbrev pub card_max_apps : ℕ
card_max_apps = 8

unfoldable pub repeat {ℓ} : {A : Type ℓ} → ℕ → A → List A
repeat zero a = []
repeat (suc n) a = a ∷ repeat n a

-- `getCardStatus` behind `getSIMStatus`.
unfoldable pub card_status : SimStatus → CardStatus
card_status sim_absent = record {
  is_present = false;
  gsm_umts_subscription_app_index = card_max_apps;
  cdma_subscription_app_index = card_max_apps;
  num_applications = 0;
  applications = repeat card_max_apps (app_status sim_absent);
}
card_status s = record {
  is_present = true;
  gsm_umts_subscription_app_index = 0;
  cdma_subscription_app_index = card_max_apps;
  num_applications = 1;
  applications = set (repeat card_max_apps (app_status sim_absent)) 0 (app_status s);
}
