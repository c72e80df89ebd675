-- ===== src/Ril/Commands.antt =====
-- The commands of android2.1_init/hard_ril/reference-ril/atchannel.c: a thread sends a command and
-- sleeps until the reader thread has its final response. What happens meanwhile is a list of events.
pub mod Safe
pub mod Select
pub mod Answers
pub mod Interloper
use demonstratortool.Base.{
  ℕ, zero, suc, ◌+◌, ◌-◌, ◌*◌, ◌/◌, ◌%◌, ◌^◌, ◌≤◌, ◌<◌, String, ◌≡◌, refl, sym, ap, ◌∙◌, subst, ◌≢◌,
  ◌↔◌, ◌⊎◌, inl, inr, Bool, true, false, not, ◌&&◌, ◌||◌, Option, none, some, List, [], ◌∷◌, ◌++◌,
  map, arith, ltb, leb, ◌==◌, if◌then◌else◌, ==_iff, ==_refl, ltb_iff, leb_iff, Bool-cases,
  Option-cases, length, get_elem?, set, take, drop, All, length-append, length-map, length-tail-le,
  length-set, get_elem?-set_self, get_elem?-set_ne, get_elem?-lt-length, get_elem?-append_self,
  All-append, All-get_elem?, All-set, Bytes, codes, streq, starts_with, strchr, is_space, is_alpha,
  is_digit, is_alnum, streq_iff, streq_refl, starts_with-append, strchr-append, ulong_mod,
  digit_value, strtoul, atoi, strtol, has_number, skip_spaces,
}
use mathlib.Core.List.{reverse}
use demonstratortool.Ril.AtTok.{Cursor, Answer, at_tok_start, at_tok_nextint}
use demonstratortool.Ril.Misc.{str_starts_with}
use demonstratortool.Ril.Channel.{
  CommandType, no_result, numeric, singleline, multiline, AtError, command_pending, channel_closed,
  timeout, invalid_thread, invalid_response, AtResponse, on_timeout, Channel, Link, Run, done,
  null_read, waiting, ◌>>=◌, emit, is_empty, writeline, process_line, reader_ends,
  handle_unsolicited,
}

-- While a thread waits for `s_commandcond`: the reader thread handles a line, or the two lines of an SMS,
-- or comes to its end; the waiting thread wakes up, or wakes up since its time is over.
pub data Event : Type 0 where
  line : Bytes → Event
  sms : Bytes → Bytes → Event
  reader_ended woken timed_out : Event

-- A command, as `at_send_command_full` gets it: whether there is a time limit, and whether
-- `pp_outResponse` is not NULL.
pub record Command : Type 0 where
  pub text : Bytes
  pub type : CommandType
  pub response_prefix : Option Bytes
  pub sms_pdu : Option Bytes
  pub has_timeout : Bool
  pub wants_response : Bool

-- The result code, none for 0; `*pp_outResponse` if it is written; the channel and what happens after.
pub record Sent : Type 0 where
  pub error : Option AtError
  pub out : Option AtResponse
  pub channel : Channel
  pub later : List Event

unfoldable pub clear_pending_command : Channel → Channel
clear_pending_command c = record c { response = none; response_prefix = none; sms_pdu = none }

-- `reverseIntermediates`: one node after the other moves to the front of the new list.
unfoldable pub reverse_onto : List Bytes → List Bytes → List Bytes
reverse_onto [] done_lines = done_lines
reverse_onto (cur ∷ next) done_lines = reverse_onto next (cur ∷ done_lines)

unfoldable pub reverse_intermediates : AtResponse → AtResponse
unfolding reverse_onto
reverse_intermediates r = record r { intermediates = reverse_onto r.intermediates [] }

abbrev pub is_given {ℓ} : {A : Type ℓ} → Option A → Bool
is_given none = false
is_given (some a) = true

-- `sp_response->finalResponse == NULL && s_readerClosed == 0`, none if it reads through a null pointer.
unfoldable pub must_wait : Channel → Option Bool
must_wait c = elim c.response [
  | none ↦ none
  | some r ↦ some (not (is_given r.final_response) && not c.reader_closed)
]

-- A thread that has woken up tests the condition of its loop again.
abbrev pub wake {ℓ} : {A : Type ℓ} → Option Bool → Run A → A → Run A
wake none more out = null_read
wake (some true) more out = more
wake (some false) more out = done out

-- A thread that sleeps in the loop of `at_send_command_full_nolock`: whether its time was over, the
-- channel, and what happens after it has left the loop.
unfoldable pub sleep : Link → Bool → List Event → Channel → Run (Bool × Channel × List Event)
unfolding must_wait handle_unsolicited reader_ends
sleep link limited [] c = waiting
sleep link limited (line text ∷ es) c = process_line link text c >>= sleep link limited es
sleep link limited (sms text pdu ∷ es) c =
    sleep link limited es (handle_unsolicited text (some pdu) c)
sleep link limited (reader_ended ∷ es) c = sleep link limited es (reader_ends c)
sleep link limited (woken ∷ es) c = wake (must_wait c) (sleep link limited es c) (false, c, es)
sleep link true (timed_out ∷ es) c = done (true, c, es)
sleep link false (timed_out ∷ es) c = wake (must_wait c) (sleep link false es c) (false, c, es)

-- Behind the loop: the response goes to the issuer, if it wants it.
unfoldable pub finish : Bool → Channel → List Event → Run Sent
unfolding reverse_intermediates clear_pending_command
finish wants c es = elim c.response [
  | none ↦ null_read
  | some r ↦ done (record {
    error = if c.reader_closed then some channel_closed else none;
    out = if wants then some (reverse_intermediates r) else none;
    channel = clear_pending_command c;
    later = es;
  })
]

-- The command is pending, with a new response.
unfoldable pub pend : Command → Channel → Channel
pend cmd c = record c {
  type = cmd.type;
  response_prefix = cmd.response_prefix;
  sms_pdu = cmd.sms_pdu;
  response = some (record { success = false; final_response = none; intermediates = [] });
}

-- How the thread leaves its loop: its time is over, or it need not wait.
unfoldable pub leave : Command → Bool × Channel × List Event → Run Sent
unfolding finish clear_pending_command
leave cmd (true, c, es) =
    done
      (record { error = some timeout; out = none; channel = clear_pending_command c; later = es })
leave cmd (false, c, es) = finish cmd.wants_response c es

-- Behind the write.
unfoldable pub await_response : Link → Command → List Event → Channel → Run Sent
unfolding pend must_wait sleep leave
await_response link cmd es c =
    wake (must_wait (pend cmd c)) (sleep link cmd.has_timeout es (pend cmd c))
      (false, pend cmd c, es)
    >>= leave cmd

unfoldable pub at_send_command_full_nolock : Link → Command → List Event → Channel → Run Sent
unfolding writeline await_response clear_pending_command
at_send_command_full_nolock link cmd es c = elim c.response [
  | some r ↦ done (record {
    error = some command_pending;
    out = none;
    channel = clear_pending_command c;
    later = es;
  })
  | none ↦ writeline link cmd.text c >>= λ (w : Option AtError × Channel). elim w.0 [
    | some e ↦
        done
          (record { error = some e; out = none; channel = clear_pending_command w.1; later = es })
    | none ↦ await_response link cmd es w.1
  ]
]

-- The callback for a command whose time was over.
unfoldable pub report_by : Option AtError → Sent → Sent
report_by (some timeout) s =
    if s.channel.has_on_timeout then record s { channel = emit on_timeout s.channel } else s
report_by _ s = s

unfoldable pub report_timeout : Sent → Sent
unfolding report_by
report_timeout s = report_by s.error s

unfoldable pub at_send_command_full : Link → Bool → Command → List Event → Channel → Run Sent
unfolding at_send_command_full_nolock report_timeout
at_send_command_full link on_reader_thread cmd es c =
    if on_reader_thread
    then done (record { error = some invalid_thread; out = none; channel = c; later = es })
    else (at_send_command_full_nolock link cmd es c >>= λ s. done (report_timeout s))
