-- ===== src/Ril/Issue/Fits.antt =====
-- The functions of android2.1_init/hard_ril/reference-ril/atchannel.c that put a command keep the promise
-- that reference-ril.c relies on.
use demonstratortool.Base.{
  ℕ, suc, ◌≡◌, refl, inl, inr, true, false, not, ◌&&◌, Option, none, some, List, [], ◌∷◌, arith,
  ltb, Bool-cases, Bytes,
}
use demonstratortool.Ril.Channel.{
  invalid_response, AtResponse, Channel, Link, done, ◌>>=◌, is_empty, Effect, wrote, unsolicited,
  on_timeout, on_reader_closed,
}
use demonstratortool.Ril.Channel.Pending.{Ensures, Ensures-bind, weaken}
use demonstratortool.Ril.Commands.{
  Event, Command, Sent, is_given, report_timeout, at_send_command_full,
}
use demonstratortool.Ril.Commands.Safe.{IsSent, HasPrefix, at_send_command_full_nolock-IsSent}
use demonstratortool.Ril.Issue.{
  need_by, need_intermediate, at_send_command, at_send_command_singleline, at_send_command_numeric,
  at_send_command_sms, at_send_command_multiline,
}
use demonstratortool.Ril.Issue.Singleline.{report_by-IsSent, no_error}
use demonstratortool.Ril.Radio.{Answered, checked, one_line, one_number, sms, many_lines}
use demonstratortool.Ril.Radio.Frame.{asks_for_line, Fits}

-- How often the callbacks for a timeout and for the end of the reader thread are called.
unfoldable pub closings : List Effect → ℕ
closings [] = 0
closings (wrote s ∷ es) = closings es
closings (unsolicited s pdu ∷ es) = closings es
closings (on_timeout ∷ es) = suc (closings es)
closings (on_reader_closed ∷ es) = suc (closings es)

-- What a command comes back with, on a channel that was `c` before.
unfoldable pub answered_of : Channel → Sent → Answered
answered_of c s = record {
  error = s.error;
  response = s.out;
  closes = ltb (closings c.trace) (closings s.channel.trace);
}

full-IsSent :
    (link : Link) (cmd : Command) (es : List Event) (c : Channel)
    → HasPrefix cmd
    → Ensures (IsSent cmd) (at_send_command_full link false cmd es c)
unfolding at_send_command_full report_timeout
full-IsSent link cmd es c h =
    Ensures-bind (IsSent cmd) (IsSent cmd) _ _ (at_send_command_full_nolock-IsSent link cmd es c h)
      (λ s v. report_by-IsSent cmd s.error s v)

sent-Fits :
    (c : Channel) (cmd : Command) (s : Sent)
    → cmd.wants_response ≡ true
    → asks_for_line cmd.type ≡ false
    → IsSent cmd s
    → Fits cmd (answered_of c s)
unfolding answered_of
sent-Fits c cmd s w t v n = let (r, e) = v.given n w in (r, e, λ ok a. absurd (cc (a, t)))

need-Fits :
    (c : Channel) (cmd : Command) (o : Option AtResponse) (s : Sent)
    → s.out ≡ o
    → (s.error ≡ none → (r : AtResponse) × (s.out ≡ some r))
    → Fits cmd (answered_of c (need_by o s))
unfolding need_by answered_of
need-Fits c cmd none s e g = λ n. absurd (cc (e, (g n).1))
need-Fits c cmd (some r) s e g =
    elim (Bool-cases (not (is_given s.error) && r.success && is_empty r.intermediates)) [
      | inl t ↦ rw t (λ (n : some invalid_response ≡ none). absurd (cc n))
      | inr t ↦ rw t (λ n. (r, e, λ ok a. ground (arith, no_error s.error n)))
    ]

module _ (link : Link) (es : List Event) (c : Channel) where
  need_intermediate-Fits :
      (cmd : Command)
      → HasPrefix cmd
      → cmd.wants_response ≡ true
      → Ensures
          (λ s. Fits cmd (answered_of c s))
          (at_send_command_full link false cmd es c >>= λ s. done (need_intermediate s))
  unfolding need_intermediate
  need_intermediate-Fits cmd h w =
      Ensures-bind (IsSent cmd) _ _ _ (full-IsSent link cmd es c h)
        (λ s v. need-Fits c cmd s.out s refl (λ n. v.given n w))

  -- A command that the file puts with a place for the response, by any of the five functions of the
  -- channel, comes back, if it does, with an error or with a response, and a success has a line where the
  -- function is one that asks for a line; and it reads through no null pointer.
  pub at_send_command-Fits :
      (text prefix pdu : Bytes)
      → Ensures
          (λ s. Fits (checked text) (answered_of c s))
          (at_send_command link false true es c text)
        × Ensures
            (λ s. Fits (one_line text prefix) (answered_of c s))
            (at_send_command_singleline link false true es c text prefix)
        × Ensures
            (λ s. Fits (one_number text) (answered_of c s))
            (at_send_command_numeric link false true es c text)
        × Ensures
            (λ s. Fits (sms text pdu prefix) (answered_of c s))
            (at_send_command_sms link false true es c text pdu prefix)
        × Ensures
            (λ s. Fits (many_lines text prefix) (answered_of c s))
            (at_send_command_multiline link false true es c text prefix)
  unfolding at_send_command at_send_command_singleline at_send_command_numeric at_send_command_sms
      at_send_command_multiline
  at_send_command-Fits text prefix pdu = (
    weaken (IsSent (checked text)) _ _ (λ s v. sent-Fits c (checked text) s refl refl v)
        (full-IsSent link (checked text) es c refl),
    need_intermediate-Fits (one_line text prefix) (omega arith, tt) refl,
    need_intermediate-Fits (one_number text) (omega arith, tt) refl,
    need_intermediate-Fits (sms text pdu prefix) (omega arith, tt) refl,
    weaken (IsSent (many_lines text prefix)) _ _
        (λ s v. sent-Fits c (many_lines text prefix) s refl refl v)
        (full-IsSent link (many_lines text prefix) es c tt),
  )
