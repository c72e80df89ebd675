-- ===== src/Ril/Networks/Crash.antt =====
-- When requestRegistrationState and requestOperator of
-- android2.1_init/hard_ril/reference-ril/reference-ril.c come to a wrong access to memory.
use demonstratortool.Base.{
  ℕ, ◌+◌, ◌≤◌, ◌<◌, ◌≡◌, refl, ◌↔◌, inl, inr, Bool, Option, none, some, List, [], ◌∷◌, arith, ltb,
  if◌then◌else◌, Bool-cases, length, set, All, Bytes, codes,
}
use demonstratortool.Ril.Channel.{AtResponse}
use demonstratortool.Ril.Commands.{Command}
use demonstratortool.Ril.Radio.{
  Radio, Modem, Outcome, done, null_read, overrun, no_fuel, ◌>>=◌, send, one_line, many_lines,
  line_of, intermediates_of,
}
use demonstratortool.Ril.Networks.{
  request_registration_state, operator_of_line, operator_lines, operator_command, request_operator,
}

-- The command that a request for the registration state puts.
abbrev pub registration_command : Bool → Command
registration_command is_gprs =
    if is_gprs
    then one_line (codes "AT+CGREG?") (codes "+CGREG:")
    else one_line (codes "AT+CREG?") (codes "+CREG:")

first_or_crash {ℓ} :
    {A : Type ℓ} (xs : List Bytes) (f : Bytes → A)
    → ((elim xs [ [] ↦ null_read | line ∷ rest ↦ done line ]) >>= (λ line. done (f line))
        ≡ null_read)
      ↔ (xs ≡ [])
first_or_crash [] f = (λ _. refl, λ _. refl)
first_or_crash (x ∷ xs) f = (λ e. cc e, λ e. cc e)

-- If the modem answers to the command without an error of the channel, a request for the registration
-- state reads through a null pointer exactly if the response has no intermediate line, as when the
-- modem answers with `ERROR`.
pub request_registration_state-null_read :
    (m : Modem) (is_gprs : Bool) (r : Radio) (p : AtResponse)
    → (m.answer r.sent (registration_command is_gprs)).error ≡ none
    → (m.answer r.sent (registration_command is_gprs)).response ≡ some p
    → (request_registration_state m is_gprs r ≡ null_read) ↔ (p.intermediates ≡ [])
unfolding request_registration_state send line_of
request_registration_state-null_read m is_gprs r p e f =
    rw (e, f) (first_or_crash p.intermediates _)

-- The names of the operator can be read from each of these lines.
abbrev pub AreReadable : List Bytes → Type 0
AreReadable lines = All (λ l. (v : Option Bytes) × (operator_of_line l ≡ some v)) lines

operator_lines-overrun :
    (i : ℕ) (response : List (Option Bytes)) (lines : List Bytes)
    → AreReadable lines
    → i ≤ 3
    → (operator_lines i response lines ≡ overrun) ↔ (3 < i + length lines)
unfolding operator_lines
operator_lines-overrun i response [] h le = (λ e. cc e, λ lt. absurd (omega arith))
operator_lines-overrun i response (line ∷ lines) h le =
    let (v, e) = h.0 in
    elim (Bool-cases (ltb i 3)) [
      | inl t ↦
          let more : (operator_lines (i + 1) (set response i v) lines ≡ overrun)
              ↔ (3 < i + 1 + length lines) =
            operator_lines-overrun (i + 1) (set response i v) lines h.1 (ground arith) in
          rw (e, operator_lines, t) (λ q. omega (arith, more.0 q), λ lt. more.1 (omega arith))
      | inr t ↦ rw (e, operator_lines, t) (λ _. ground arith, λ _. refl)
    ]

bind_overrun :
    {A : Type 0} (o : Outcome (Option A)) (r : Radio) (f : A → Radio)
    → ((o >>= λ v. elim v [ none ↦ done r | some a ↦ done (f a) ]) ≡ overrun) ↔ (o ≡ overrun)
bind_overrun (done none) r f = (λ e. cc e, λ e. cc e)
bind_overrun (done (some a)) r f = (λ e. cc e, λ e. cc e)
bind_overrun null_read r f = (λ e. cc e, λ e. cc e)
bind_overrun overrun r f = (λ _. refl, λ _. refl)
bind_overrun no_fuel r f = (λ e. cc e, λ e. cc e)

-- If the modem answers to the command without an error of the channel, and the name can be read from each
-- line, a request for the operator writes behind the end of its array of three exactly if there are more
-- than three lines.
pub request_operator-overrun :
    (m : Modem) (r : Radio) (p : AtResponse)
    → (m.answer r.sent (many_lines operator_command (codes "+COPS:"))).error ≡ none
    → (m.answer r.sent (many_lines operator_command (codes "+COPS:"))).response ≡ some p
    → AreReadable p.intermediates
    → (request_operator m r ≡ overrun) ↔ (3 < length p.intermediates)
unfolding request_operator send intermediates_of
request_operator-overrun m r p e f h =
    let none3 : List (Option Bytes) = none ∷ none ∷ none ∷ [] in
    let bound : (operator_lines 0 none3 p.intermediates ≡ overrun)
        ↔ (3 < 0 + length p.intermediates) =
      operator_lines-overrun 0 none3 p.intermediates h (omega arith) in
    let names : Outcome (Option (List (Option Bytes))) = operator_lines 0 none3 p.intermediates in
    rw (e, f)
      (
        λ q. omega (arith, bound.0 ((bind_overrun names _ _).0 q)),
        λ lt. (bind_overrun names _ _).1 (bound.1 (omega arith)),
      )
