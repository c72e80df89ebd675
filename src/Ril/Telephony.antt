-- ===== src/Ril/Telephony.antt =====
-- Types of android2.1_init/hard_ril/include/telephony/ril.h.
use demonstratortool.Base.{ℕ, Bool, Option, List, ◌==◌, Bytes}

-- `RIL_Errno`
pub data Errno : Type 0 where
  success radio_not_available generic_failure password_incorrect : Errno
  sim_pin2 sim_puk2 request_not_supported cancelled : Errno
  op_not_allowed_during_voice_call op_not_allowed_before_reg_to_nw sms_send_fail_retry : Errno
  sim_is_absent subscription_not_available mode_not_supported fdn_check_failure : Errno

-- `RIL_RadioState`
pub data RadioState : Type 0 where
  off unavailable sim_not_ready sim_locked_or_absent sim_ready : RadioState
  ruim_not_ready ruim_ready ruim_locked_or_absent nv_not_ready nv_ready : RadioState

unfoldable pub state_number : RadioState → ℕ
state_number off = 0
state_number unavailable = 1
state_number sim_not_ready = 2
state_number sim_locked_or_absent = 3
state_number sim_ready = 4
state_number ruim_not_ready = 5
state_number ruim_ready = 6
state_number ruim_locked_or_absent = 7
state_number nv_not_ready = 8
state_number nv_ready = 9

abbrev pub same_state : RadioState → RadioState → Bool
same_state a b = state_number a == state_number b

-- `RIL_CallState`
pub data CallState : Type 0 where
  active holding dialing alerting incoming call_waiting : CallState

-- `RIL_Call`, without the fields that stay 0.
pub record CallInfo : Type 0 where
  pub call_state : CallState
  pub index : ℕ
  pub toa : ℕ
  pub is_mpty : ℕ
  pub is_mt : ℕ
  pub is_voice : Bool
  pub number : Option Bytes

-- `RIL_Data_Call_Response`
pub record DataCall : Type 0 where
  pub cid : ℕ
  pub activity : ℕ
  pub pdp_type : Bytes
  pub apn : Bytes
  pub address : Bytes

-- `RIL_AppType`
pub data AppType : Type 0 where
  apptype_unknown apptype_sim apptype_usim apptype_ruim apptype_csim : AppType

-- `RIL_AppState`
pub data AppState : Type 0 where
  appstate_unknown appstate_detected appstate_pin appstate_puk : AppState
  appstate_subscription_perso appstate_ready : AppState

-- `RIL_PersoSubstate`
pub data PersoSubstate : Type 0 where
  perso_unknown perso_in_progress perso_ready : PersoSubstate
  perso_sim_network perso_sim_network_subset perso_sim_corporate : PersoSubstate
  perso_sim_service_provider perso_sim_sim : PersoSubstate
  perso_sim_network_puk perso_sim_network_subset_puk perso_sim_corporate_puk : PersoSubstate
  perso_sim_service_provider_puk perso_sim_sim_puk : PersoSubstate
  perso_ruim_network1 perso_ruim_network2 perso_ruim_hrpd perso_ruim_corporate : PersoSubstate
  perso_ruim_service_provider perso_ruim_ruim : PersoSubstate
  perso_ruim_network1_puk perso_ruim_network2_puk perso_ruim_hrpd_puk : PersoSubstate
  perso_ruim_corporate_puk perso_ruim_service_provider_puk perso_ruim_ruim_puk : PersoSubstate

-- `RIL_PinState`
pub data PinState : Type 0 where
  pin_unknown pin_enabled_not_verified pin_enabled_verified pin_disabled : PinState
  pin_enabled_blocked pin_enabled_perm_blocked : PinState

-- `RIL_AppStatus`, without the two names and the flag, which are always NULL and 0.
pub record AppStatus : Type 0 where
  pub app_type : AppType
  pub app_state : AppState
  pub perso_substate : PersoSubstate
  pub pin1 : PinState
  pub pin2 : PinState

-- `RIL_CardStatus`: whether a card is present, the indices of the two subscriptions, the number of
-- applications and the array of them. The universal PIN is always unknown.
pub record CardStatus : Type 0 where
  pub is_present : Bool
  pub gsm_umts_subscription_app_index : ℕ
  pub cdma_subscription_app_index : ℕ
  pub num_applications : ℕ
  pub applications : List AppStatus
