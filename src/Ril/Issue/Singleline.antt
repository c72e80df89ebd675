-- ===== src/Ril/Issue/Singleline.antt =====
-- What `at_send_command_singleline` of android2.1_init/hard_ril/reference-ril/atchannel.c promises.
use demonstratortool.Base.{
  ◌≡◌, refl, inl, inr, Bool, true, false, not, ◌&&◌, Option, none, some, List, [], ◌∷◌, arith,
  if◌then◌else◌, Bool-cases, Bytes,
}
use demonstratortool.Ril.Misc.{str_starts_with}
use demonstratortool.Ril.Channel.{
  singleline, AtError, timeout, invalid_response, AtResponse, Channel, Link, is_empty,
}
use demonstratortool.Ril.Channel.Pending.{Ensures, Ensures-bind, IsAnswer}
use demonstratortool.Ril.Commands.{
  Event, Command, Sent, is_given, report_by, report_timeout, at_send_command_full,
}
use demonstratortool.Ril.Issue.{need_by, need_intermediate, at_send_command_singleline}
use demonstratortool.Ril.Commands.Safe.{IsSent, at_send_command_full_nolock-IsSent}

IsSent-if :
    (cmd : Command) (b : Bool) (s t : Sent)
    → IsSent cmd s
    → IsSent cmd t
    → IsSent cmd (if b then s else t)
IsSent-if cmd true s t h k = h
IsSent-if cmd false s t h k = k

pub report_by-IsSent :
    (cmd : Command) (o : Option AtError) (s : Sent) → IsSent cmd s → IsSent cmd (report_by o s)
unfolding report_by
report_by-IsSent cmd (some timeout) s v =
    IsSent-if cmd s.channel.has_on_timeout _ s
      (record { idle = v.idle; answer = v.answer; final = v.final; given = v.given }) v
report_by-IsSent cmd _ s v = v

-- What the issuer of a command for one line gets if there is no error.
abbrev pub OneLine : Bytes → Sent → Type 0
OneLine prefix s =
    s.error ≡ none
    → (r : AtResponse) × (s.out ≡ some r)
      × (r.success ≡ true
          → (l : Bytes) × (r.intermediates ≡ l ∷ []) × (str_starts_with l prefix ≡ true))

one_line :
    (prefix : Bytes) (xs : List Bytes)
    → IsAnswer singleline (some prefix) xs
    → is_empty xs ≡ false
    → (l : Bytes) × (xs ≡ l ∷ []) × (str_starts_with l prefix ≡ true)
one_line prefix [] h e = cc
one_line prefix (x ∷ []) h e = (x, refl, h.1.0)
one_line prefix (x ∷ y ∷ xs) h e = absurd (omega (arith, h.0))

pub no_error : (o : Option AtError) → o ≡ none → is_given o ≡ false
no_error none e = refl
no_error (some x) e = cc

need-OneLine :
    (prefix : Bytes) (o : Option AtResponse) (s : Sent)
    → s.out ≡ o
    → ((r : AtResponse) → s.out ≡ some r → IsAnswer singleline (some prefix) r.intermediates)
    → (s.error ≡ none → (r : AtResponse) × (s.out ≡ some r))
    → OneLine prefix (need_by o s)
unfolding need_by
need-OneLine prefix none s e h g = λ n. absurd (cc (e, (g n).1))
need-OneLine prefix (some r) s e h g =
    elim (Bool-cases (not (is_given s.error) && r.success && is_empty r.intermediates)) [
      | inl t ↦ rw t (λ (n : some invalid_response ≡ none). absurd (cc n))
      | inr t ↦ rw t (λ n. (
        r,
        e,
        λ (ok : r.success ≡ true).
            one_line prefix r.intermediates (h r e) (ground (arith, no_error s.error n)),
      ))
    ]

-- A command for one line, whose response is wanted, gives an error, or a response which, if it is a
-- success, has exactly one line, and that starts with the prefix; and it reads through no null pointer.
pub at_send_command_singleline-OneLine :
    (link : Link) (es : List Event) (c : Channel) (command prefix : Bytes)
    → Ensures (OneLine prefix) (at_send_command_singleline link false true es c command prefix)
unfolding at_send_command_singleline at_send_command_full report_timeout need_intermediate
at_send_command_singleline-OneLine link es c command prefix =
    Ensures-bind (IsSent cmd) (OneLine prefix) _ _
      (Ensures-bind (IsSent cmd) (IsSent cmd) _ _
        (at_send_command_full_nolock-IsSent link cmd es c (omega arith, tt))
        (λ s v. report_by-IsSent cmd s.error s v))
      (λ s v. need-OneLine prefix s.out s refl (λ r e. (v.answer r e).0) (λ n. v.given n refl))
  where
    cmd : Command
    cmd = record {
      text = command;
      type = singleline;
      response_prefix = some prefix;
      sms_pdu = none;
      has_timeout = false;
      wants_response = true;
    }
