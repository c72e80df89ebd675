-- ===== src/Ril/Issue.antt =====
-- The functions of android2.1_init/hard_ril/reference-ril/atchannel.c for its clients.
pub mod Singleline
pub mod Fits
use demonstratortool.Base.{
  ℕ, zero, suc, ◌+◌, ◌-◌, ◌*◌, ◌/◌, ◌%◌, ◌^◌, ◌≤◌, ◌<◌, String, ◌≡◌, refl, sym, ap, ◌∙◌, subst, ◌≢◌,
  ◌↔◌, ◌⊎◌, inl, inr, Bool, true, false, not, ◌&&◌, ◌||◌, Option, none, some, List, [], ◌∷◌, ◌++◌,
  map, arith, ltb, leb, ◌==◌, if◌then◌else◌, ==_iff, ==_refl, ltb_iff, leb_iff, Bool-cases,
  Option-cases, length, get_elem?, set, take, drop, All, length-append, length-map, length-tail-le,
  length-set, get_elem?-set_self, get_elem?-set_ne, get_elem?-lt-length, get_elem?-append_self,
  All-append, All-get_elem?, All-set, Bytes, codes, streq, starts_with, strchr, is_space, is_alpha,
  is_digit, is_alnum, streq_iff, streq_refl, starts_with-append, strchr-append, ulong_mod,
  digit_value, strtoul, atoi, strtol, has_number, skip_spaces, drop-append, take-append, drop-drop,
  drop-set, length-drop, length-take, length-take-le, take-all, All-drop, pick, pick_by,
}
use demonstratortool.Ril.AtTok.{Cursor, Answer, at_tok_start, at_tok_nextint}
use demonstratortool.Ril.Misc.{str_starts_with}
use demonstratortool.Ril.Channel.{
  CommandType, no_result, numeric, singleline, multiline, AtError, invalid_thread, invalid_response,
  AtResponse, Channel, Link, Run, done, ◌>>=◌, is_empty,
}
use demonstratortool.Ril.Commands.{
  Event, Command, Sent, is_given, at_send_command_full_nolock, at_send_command_full,
}

-- A successful response without an intermediate line is refused.
unfoldable pub need_by : Option AtResponse → Sent → Sent
need_by none s = s
need_by (some r) s =
    if not (is_given s.error) && r.success && is_empty r.intermediates
    then record s { error = some invalid_response; out = none }
    else s

unfoldable pub need_intermediate : Sent → Sent
unfolding need_by
need_intermediate s = need_by s.out s

module _ (link : Link) (on_reader_thread wants : Bool) (es : List Event) (c : Channel) where
  abbrev send : Bytes → CommandType → Option Bytes → Option Bytes → Run Sent
  send text type prefix pdu =
      at_send_command_full link on_reader_thread
        (record {
          text = text;
          type = type;
          response_prefix = prefix;
          sms_pdu = pdu;
          has_timeout = false;
          wants_response = wants;
        })
        es c

  unfoldable pub at_send_command : Bytes → Run Sent
  at_send_command command = send command no_result none none

  unfoldable pub at_send_command_singleline : Bytes → Bytes → Run Sent
  unfolding need_intermediate
  at_send_command_singleline command prefix =
      send command singleline (some prefix) none >>= λ s. done (need_intermediate s)

  unfoldable pub at_send_command_numeric : Bytes → Run Sent
  unfolding need_intermediate
  at_send_command_numeric command =
      send command numeric none none >>= λ s. done (need_intermediate s)

  unfoldable pub at_send_command_sms : Bytes → Bytes → Bytes → Run Sent
  unfolding need_intermediate
  at_send_command_sms command pdu prefix =
      send command singleline (some prefix) (some pdu) >>= λ s. done (need_intermediate s)

  unfoldable pub at_send_command_multiline : Bytes → Bytes → Run Sent
  at_send_command_multiline command prefix = send command multiline (some prefix) none

abbrev pub handshake_retry_count : ℕ
handshake_retry_count = 8

abbrev handshake_command : Command
handshake_command = record {
  text = codes "ATE0Q0V1";
  type = no_result;
  response_prefix = none;
  sms_pdu = none;
  has_timeout = true;
  wants_response = false;
}

-- The loop of `at_handshake` with the tries that are left; `last` is the error of the try before.
unfoldable pub handshake_loop : Link → ℕ → Option AtError → List Event → Channel → Run Sent
unfolding at_send_command_full_nolock
handshake_loop link zero last es c =
    done (record { error = last; out = none; channel = c; later = es })
handshake_loop link (suc left) last es c =
    at_send_command_full_nolock link handshake_command es c >>= λ s. elim s.error [
      | none ↦ done s
      | some e ↦ handshake_loop link left (some e) s.later s.channel
    ]

unfoldable pub at_handshake : Link → Bool → List Event → Channel → Run Sent
unfolding handshake_loop
at_handshake link on_reader_thread es c =
    if on_reader_thread
    then done (record { error = some invalid_thread; out = none; channel = c; later = es })
    else handshake_loop link handshake_retry_count none es c

-- `AT_CME_Error`, as a 32-bit pattern
abbrev pub cme_error_non_cme : ℕ
cme_error_non_cme = 0xffffffff

abbrev pub cme_success : ℕ
cme_success = 0

-- The number behind the colon, if there is one.
unfoldable pub cme_number : Bytes → ℕ
cme_number final =
    let (started, cur) = at_tok_start (some final) in
    if not started
    then cme_error_non_cme
    else (let answer = at_tok_nextint cur in
        if not answer.ok
        then cme_error_non_cme
        else elim answer.out [ none ↦ cme_error_non_cme | some v ↦ v ])

unfoldable pub at_get_cme_error : AtResponse → ℕ
unfolding cme_number str_starts_with
at_get_cme_error r = if r.success then cme_success else elim r.final_response [
  | none ↦ cme_error_non_cme
  | some final ↦
      if not (str_starts_with final (codes "+CME ERROR:"))
      then cme_error_non_cme
      else cme_number final
]

-- `at_open`, with the thread that reads started, and `at_close`.
unfoldable pub at_open : Bool → Channel → Channel
at_open has_handler c = record c {
  fd_open = true;
  has_unsol_handler = has_handler;
  reader_closed = false;
  response_prefix = none;
  sms_pdu = none;
  response = none;
}

unfoldable pub at_close : Channel → Channel
at_close c = record c { fd_open = false; reader_closed = true }

unfoldable pub at_set_on_timeout : Bool → Channel → Channel
at_set_on_timeout has c = record c { has_on_timeout = has }

unfoldable pub at_set_on_reader_closed : Bool → Channel → Channel
at_set_on_reader_closed has c = record c { has_on_reader_closed = has }
