-- ===== src/Ril/Commands/Answers.antt =====
-- Which lines of the modem are the answer to a command, and which are unsolicited
-- (android2.1_init/hard_ril/reference-ril/atchannel.c).
use demonstratortool.Base.{
  ◌≡◌, refl, ◌∙◌, inl, inr, Bool, true, false, ◌||◌, Option, none, some, List, [], ◌∷◌, arith,
  if◌then◌else◌, Bool-cases, All, Bytes,
}
use demonstratortool.Ril.Commands.Select.{
  select, reject, keeps, answer_of, passed_of, answer_of-select, passed_of-reject,
}
use demonstratortool.Ril.Misc.{str_starts_with}
use demonstratortool.Ril.Channel.{
  CommandType, no_result, numeric, singleline, multiline, Effect, unsolicited, Channel, Link, done,
  ◌>>=◌, starts_with_digit, handle_unsolicited, add_intermediate, handle_final_response,
  process_by_type, process_other, process_pending, process_line, writeline,
}
use demonstratortool.Ril.Responses.{
  is_final_response_success, is_final_response_error, is_sms_unsolicited,
}
use demonstratortool.Ril.Commands.{
  Event, line, woken, Command, Sent, pend, must_wait, sleep, finish, leave, await_response,
  at_send_command_full_nolock, reverse_onto, reverse_intermediates, clear_pending_command,
}

-- Whether a line has the form that a command of this type asks for.
abbrev pub fits : CommandType → Bytes → Bytes → Bool
fits no_result prefix l = false
fits numeric prefix l = starts_with_digit l
fits singleline prefix l = str_starts_with l prefix
fits multiline prefix l = str_starts_with l prefix

abbrev pub is_once : CommandType → Bool
is_once multiline = false
is_once _ = true

-- A line that neither ends the response nor begins an SMS, which the reader thread takes with the line
-- behind it to the handler.
abbrev pub IsInner : Bytes → Type 0
IsInner l =
    (is_final_response_success l ≡ false)
    × (is_final_response_error l ≡ false)
    × (is_sms_unsolicited l ≡ false)

-- Unsolicited lines, as the handler gets them, with the last one first.
abbrev pub report : List Bytes → List Effect → List Effect
report [] t = t
report (l ∷ ls) t = report ls (unsolicited l none ∷ t)

-- The prefix that the functions of the channel pass for a type.
abbrev pub prefix_of : CommandType → Bytes → Option Bytes
prefix_of no_result p = none
prefix_of numeric p = none
prefix_of singleline p = some p
prefix_of multiline p = some p

abbrev pub command : CommandType → Bytes → Bytes → Command
command t p text = record {
  text = text;
  type = t;
  response_prefix = prefix_of t p;
  sms_pdu = none;
  has_timeout = false;
  wants_response = true;
}

-- The channel with the command pending: the answer so far, with the last line first.
abbrev state : CommandType → Bytes → Bytes → Channel → List Bytes → List Effect → Channel
state t p text d acc tr = record (pend (command t p text) d) {
  response = some (record { success = false; final_response = none; intermediates = acc });
  trace = tr;
}

step_line :
    (link : Link) (t : CommandType) (p text : Bytes) (d : Channel) (acc : List Bytes)
    (tr : List Effect) (l : Bytes)
    → d.has_unsol_handler ≡ true
    → IsInner l
    → process_line link l (state t p text d acc tr)
      ≡ done (
          if keeps (fits t p) (is_once t) acc l
          then state t p text d (l ∷ acc) tr
          else state t p text d acc (unsolicited l none ∷ tr))
unfolding process_line process_pending process_other process_by_type pend handle_unsolicited
    add_intermediate
step_line link no_result p text d acc tr l h (a, b, _) = simp (a, b, h)
step_line link numeric p text d [] tr l h (a, b, _) = elim (Bool-cases (starts_with_digit l)) [
  | inl e ↦ simp (a, b, h, e)
  | inr e ↦ simp (a, b, h, e)
]
step_line link numeric p text d (x ∷ acc) tr l h (a, b, _) =
    elim (Bool-cases (starts_with_digit l)) [
      | inl e ↦ simp (a, b, h, e)
      | inr e ↦ simp (a, b, h, e)
    ]
step_line link singleline p text d [] tr l h (a, b, _) = elim (Bool-cases (str_starts_with l p)) [
  | inl e ↦ simp (a, b, h, e)
  | inr e ↦ simp (a, b, h, e)
]
step_line link singleline p text d (x ∷ acc) tr l h (a, b, _) =
    elim (Bool-cases (str_starts_with l p)) [
      | inl e ↦ simp (a, b, h, e)
      | inr e ↦ simp (a, b, h, e)
    ]
step_line link multiline p text d acc tr l h (a, b, _) = elim (Bool-cases (str_starts_with l p)) [
  | inl e ↦ simp (a, b, h, e)
  | inr e ↦ simp (a, b, h, e)
]

-- The events of a reader that handles these lines.
abbrev pub lines : List Bytes → List Event → List Event
lines [] es = es
lines (l ∷ ls) es = line l ∷ lines ls es

sleep-lines :
    (link : Link) (t : CommandType) (p text : Bytes) (d : Channel) (acc : List Bytes)
    (tr : List Effect) (ls : List Bytes) (es : List Event)
    → d.has_unsol_handler ≡ true
    → All IsInner ls
    → sleep link false (lines ls es) (state t p text d acc tr)
      ≡ sleep link false es (
          state t p text d
            (answer_of (fits t p) (is_once t) acc ls)
            (report (passed_of (fits t p) (is_once t) acc ls) tr))
unfolding sleep answer_of passed_of
sleep-lines link t p text d acc tr [] es h inner = refl
sleep-lines link t p text d acc tr (l ∷ ls) es h inner =
    elim (Bool-cases (keeps (fits t p) (is_once t) acc l)) [
      | inl e ↦
          rw (step_line link t p text d acc tr l h inner.0, e)
            (sleep-lines link t p text d (l ∷ acc) tr ls es h inner.1)
      | inr e ↦
          rw (step_line link t p text d acc tr l h inner.0, e)
            (sleep-lines link t p text d acc (unsolicited l none ∷ tr) ls es h inner.1)
    ]

-- The final response, and the thread wakes up.
final_line :
    (link : Link) (t : CommandType) (p text : Bytes) (d : Channel) (acc : List Bytes)
    (tr : List Effect) (final : Bytes) (es : List Event)
    → (is_final_response_success final || is_final_response_error final) ≡ true
    → d.reader_closed ≡ false
    → (sleep link false (line final ∷ woken ∷ es) (state t p text d acc tr)
        >>= leave (command t p text))
      ≡ done (record {
        error = none;
        out = some (record {
          success = is_final_response_success final;
          final_response = some final;
          intermediates = reverse_onto acc [];
        });
        channel = clear_pending_command (state t p text d acc tr);
        later = es;
      })
unfolding sleep process_line process_pending pend handle_final_response must_wait leave finish
    reverse_intermediates clear_pending_command
final_line link t p text d acc tr final es f o =
    elim (Bool-cases (is_final_response_success final)) [
      | inl e ↦ simp (e, o)
      | inr e ↦ let g : is_final_response_error final ≡ true = ground arith in simp (e, g, o)
    ]

await_answer :
    (link : Link) (t : CommandType) (p text : Bytes) (d : Channel) (ls : List Bytes) (final : Bytes)
    (es : List Event)
    → d.has_unsol_handler ≡ true
    → d.reader_closed ≡ false
    → All IsInner ls
    → (is_final_response_success final || is_final_response_error final) ≡ true
    → await_response link (command t p text) (lines ls (line final ∷ woken ∷ es)) d
      ≡ done (record {
        error = none;
        out = some (record {
          success = is_final_response_success final;
          final_response = some final;
          intermediates = select (fits t p) (is_once t) ls;
        });
        channel = clear_pending_command (record (pend (command t p text) d) {
          trace = report (reject (fits t p) (is_once t) ls) d.trace;
        });
        later = es;
      })
unfolding await_response must_wait pend clear_pending_command
await_answer link t p text d ls final es h o inner f =
    let acc = answer_of (fits t p) (is_once t) [] ls in
    let tr = report (passed_of (fits t p) (is_once t) [] ls) d.trace in
    let open_channel : must_wait (state t p text d [] d.trace) ≡ some true = simp o in
    rw (open_channel, sleep-lines link t p text d [] d.trace ls (line final ∷ woken ∷ es) h inner)
      (final_line link t p text d acc tr final es f o
        ∙ rw (
          answer_of-select (fits t p) (is_once t) ls,
          passed_of-reject (fits t p) (is_once t) ls,
        ))

written_lem :
    (link : Link) (cmd : Command) (es : List Event) (c d : Channel)
    → c.response ≡ none
    → writeline link cmd.text c ≡ done (none, d)
    → at_send_command_full_nolock link cmd es c ≡ await_response link cmd es d
unfolding at_send_command_full_nolock
written_lem link cmd es c d e w = rw (e, at_send_command_full_nolock, w)

-- When a command has been written to an open channel with no command pending, and the modem sends
-- lines that are no final responses and begin no SMS, and then a final response, the issuer gets the final response,
-- success if it is one of success, and the lines that fit the command in their order, for a command
-- for one line the first such line; the handler gets the other lines, in their order.
pub at_send_command_answer :
    (link : Link) (t : CommandType) (p text : Bytes) (c d : Channel) (ls : List Bytes)
    (final : Bytes) (es : List Event)
    → c.response ≡ none
    → writeline link text c ≡ done (none, d)
    → d.has_unsol_handler ≡ true
    → d.reader_closed ≡ false
    → All IsInner ls
    → (is_final_response_success final || is_final_response_error final) ≡ true
    → (s : Sent) × (at_send_command_full_nolock link
          (command t p text)
          (lines ls (line final ∷ woken ∷ es))
          c
        ≡ done s)
      × (s.error ≡ none)
      × (s.out
          ≡ some (record {
            success = is_final_response_success final;
            final_response = some final;
            intermediates = select (fits t p) (is_once t) ls;
          }))
      × (s.channel.trace ≡ report (reject (fits t p) (is_once t) ls) d.trace)
      × (s.later ≡ es)
unfolding at_send_command_full_nolock clear_pending_command pend
at_send_command_answer link t p text c d ls final es e w h o inner f = (
  _,
  written_lem link (command t p text) (lines ls (line final ∷ woken ∷ es)) c d e w
      ∙ await_answer link t p text d ls final es h o inner f,
  refl,
  refl,
  refl,
  refl,
)
