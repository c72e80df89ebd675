-- ===== src/Ril/Tests/Modem.antt =====
-- Commands to a modem (android2.1_init/hard_ril/reference-ril/atchannel.c) on concrete inputs.
use demonstratortool.Base.{
  ℕ, ◌≤◌, ◌<◌, ◌≡◌, refl, true, false, none, some, List, [], ◌∷◌, ◌++◌, arith, length, Bytes, codes,
}
use demonstratortool.Ril.Channel.{
  wrote, no_result, singleline, Channel, Link, IsLink, done, null_read, command_pending, writeline,
}
use demonstratortool.Ril.Responses.{
  is_sms_unsolicited, is_final_response_success, is_final_response_success, is_final_response_error,
}
use demonstratortool.Ril.Channel.Writes.{WriteEnds, writeline-WriteEnds}
use demonstratortool.Ril.Channel.Pending.{Ensures}
use demonstratortool.Ril.Commands.{
  line, woken, Event, Command, Sent, sleep, at_send_command_full_nolock,
}
use demonstratortool.Ril.Issue.{at_send_command_singleline}
use demonstratortool.Ril.Commands.Safe.{IsSent, at_send_command_full_nolock-IsSent}
use demonstratortool.Ril.Issue.Singleline.{OneLine, at_send_command_singleline-OneLine}
use demonstratortool.Ril.Commands.Select.{select, reject}
use demonstratortool.Ril.Commands.Answers.{command, lines, fits, report, at_send_command_answer}
use demonstratortool.Ril.Commands.Interloper.{interloper_null_read}

-- Takes up to two bytes at a time.
abbrev pair_write : Bytes → ℕ
pair_write [] = 0
pair_write (a ∷ []) = 1
pair_write (a ∷ b ∷ s) = 2

abbrev pub modem : Link
modem = record { write = λ n s. some (pair_write s) }

modem-IsLink : IsLink modem
modem-IsLink = record { some_bytes = takes }
  where
    takes :
        (n : ℕ) (s : Bytes) (k : ℕ)
        → some (pair_write s) ≡ some k
        → 0 < length s
        → (0 < k) × (k ≤ length s)
    takes n [] k e h = absurd (omega arith)
    takes n (a ∷ []) k e h = let same : 1 ≡ k = cc in omega arith
    takes n (a ∷ b ∷ s) k e h = let same : 2 ≡ k = cc in omega arith

abbrev pub idle : Channel
idle = record {
  fd_open = true;
  reader_closed = false;
  has_unsol_handler = true;
  has_on_timeout = false;
  has_on_reader_closed = false;
  type = no_result;
  response_prefix = none;
  sms_pdu = none;
  response = none;
  writes = 0;
  trace = [];
}

writeline-WriteEnds_example :
    WriteEnds idle (codes "ATZ" ++ b'\r' ∷ []) (writeline modem (codes "ATZ") idle)
writeline-WriteEnds_example = writeline-WriteEnds modem (codes "ATZ") idle modem-IsLink refl refl

abbrev signal : Command
signal = command singleline (codes "+CSQ:") (codes "AT+CSQ")

abbrev answer_events : List Event
answer_events =
    lines (codes "RING" ∷ codes "+CSQ: 9,9" ∷ codes "+CSQ: 1,1" ∷ [])
      (line (codes "OK") ∷ woken ∷ [])

at_send_command_full_nolock-IsSent_example :
    Ensures (IsSent signal) (at_send_command_full_nolock modem signal answer_events idle)
at_send_command_full_nolock-IsSent_example =
    at_send_command_full_nolock-IsSent modem signal answer_events idle (omega arith, tt)

at_send_command_singleline-OneLine_example : Ensures (OneLine (codes "+CSQ:")) (
    at_send_command_singleline modem false true answer_events idle (codes "AT+CSQ") (codes "+CSQ:"))
at_send_command_singleline-OneLine_example =
    at_send_command_singleline-OneLine modem answer_events idle (codes "AT+CSQ") (codes "+CSQ:")

-- The channel behind the write of "AT+CSQ"
abbrev asked : Channel
asked = record idle {
  writes = 4;
  trace = wrote (codes "\r") ∷ wrote (codes "SQ") ∷ wrote (codes "+C") ∷ wrote (codes "AT") ∷ [];
}

asks : writeline modem (codes "AT+CSQ") idle ≡ done (none, asked)
unfolding writeline
asks = refl

at_send_command_answer_example :
    (s : Sent) × (at_send_command_full_nolock modem signal answer_events idle ≡ done s)
    × (s.error ≡ none)
    × (s.out
        ≡ some (record {
          success = is_final_response_success (codes "OK");
          final_response = some (codes "OK");
          intermediates =
              select
                (fits singleline (codes "+CSQ:"))
                true
                (codes "RING" ∷ codes "+CSQ: 9,9" ∷ codes "+CSQ: 1,1" ∷ []);
        }))
    × (s.channel.trace
        ≡ report
            (reject
              (fits singleline (codes "+CSQ:"))
              true
              (codes "RING" ∷ codes "+CSQ: 9,9" ∷ codes "+CSQ: 1,1" ∷ []))
            asked.trace)
    × (s.later ≡ [])
unfolding is_final_response_success is_final_response_error is_sms_unsolicited
at_send_command_answer_example =
    at_send_command_answer modem singleline (codes "+CSQ:") (codes "AT+CSQ") idle asked
      (codes "RING" ∷ codes "+CSQ: 9,9" ∷ codes "+CSQ: 1,1" ∷ []) (codes "OK") [] refl asks refl
      refl ((refl, refl, refl), ((refl, refl, refl), ((refl, refl, refl), tt))) refl

-- A command that waits for its response.
abbrev waits : Channel
waits = record asked {
  type = singleline;
  response_prefix = some (codes "+CSQ:");
  response = some (record { success = false; final_response = none; intermediates = [] });
}

interloper_null_read_example :
    (s : Sent) × (at_send_command_full_nolock modem signal [] waits ≡ done s)
    × (s.error ≡ some command_pending)
    × (sleep modem false (woken ∷ []) s.channel ≡ null_read)
interloper_null_read_example =
    interloper_null_read modem modem signal [] [] false
      (record { success = false; final_response = none; intermediates = [] }) waits refl
