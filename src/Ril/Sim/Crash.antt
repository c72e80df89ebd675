-- ===== src/Ril/Sim/Crash.antt =====
-- When getSIMStatus of android2.1_init/hard_ril/reference-ril/reference-ril.c reads through a null pointer.
use demonstratortool.Base.{
  ◌≡◌, refl, ◌≢◌, ◌↔◌, inl, inr, Bool, true, false, ◌||◌, none, some, List, [], ◌∷◌, arith, ◌==◌,
  if◌then◌else◌, Bool-cases, Bytes, codes,
}
use demonstratortool.Ril.Channel.{AtResponse}
use demonstratortool.Ril.Commands.{Command}
use demonstratortool.Ril.AtTok.{at_tok_start, at_tok_nextstr}
use demonstratortool.Ril.AtTok.Tokens.{at_tok_nextstr-some}
use demonstratortool.Ril.Issue.{at_get_cme_error, cme_success}
use demonstratortool.Ril.Telephony.{off, unavailable, same_state}
use demonstratortool.Ril.Radio.{
  SimStatus, not_ready, Radio, Answered, Modem, Outcome, done, null_read, overrun, no_fuel, ◌>>=◌,
  send, one_line, line_of,
}
use demonstratortool.Ril.Sim.{status_of_token, status_of_line, status_of_answer, get_sim_status}

-- The line itself is always read.
status_of_line-done : (line : Bytes) → (s : SimStatus) × (status_of_line line ≡ done s)
unfolding status_of_line
status_of_line-done line = elim (Bool-cases (at_tok_start (some line)).0) [
  | inr e ↦ (not_ready, rw (e, status_of_line) refl)
  | inl e ↦ elim (Bool-cases (at_tok_nextstr (at_tok_start (some line)).1).ok) [
    | inr f ↦ (not_ready, rw (e, f, status_of_line) refl)
    | inl f ↦
        let (t, g) = at_tok_nextstr-some _ f in
        (status_of_token t, rw (e, f, g, status_of_line) refl)
  ]
]

abbrev pub cpin : Command
cpin = one_line (codes "AT+CPIN?") (codes "+CPIN:")

first_null_read :
    (xs : List Bytes)
    → ((elim xs [ [] ↦ null_read | line ∷ rest ↦ done line ] >>= status_of_line) ≡ null_read)
      ↔ (xs ≡ [])
first_null_read [] = (λ _. refl, λ _. refl)
first_null_read (x ∷ xs) = (λ e. absurd (cc (e, (status_of_line-done x).1)), λ e. cc e)

line_null_read :
    (a : Answered) (p : AtResponse)
    → a.response ≡ some p
    → ((line_of a >>= status_of_line) ≡ null_read) ↔ (p.intermediates ≡ [])
unfolding line_of
line_null_read a p f = rw (f, line_of) (first_null_read p.intermediates)

done_either : {A : Type 0} (b : Bool) (x y : A) → (if b then done x else done y) ≢ null_read
done_either true x y e = cc e
done_either false x y e = cc e

bind_done :
    {A B : Type 0} (o : Outcome A) (f : A → B)
    → ((o >>= λ a. done (f a)) ≡ null_read) ↔ (o ≡ null_read)
bind_done (done a) f = (λ e. cc e, λ e. cc e)
bind_done null_read f = (λ _. refl, λ _. refl)
bind_done overrun f = (λ e. cc e, λ e. cc e)
bind_done no_fuel f = (λ e. cc e, λ e. cc e)

status_of_answer-null_read :
    (a : Answered) (p : AtResponse)
    → a.error ≡ none
    → a.response ≡ some p
    → (status_of_answer a ≡ null_read)
      ↔ ((at_get_cme_error p ≡ cme_success) × (p.intermediates ≡ []))
unfolding status_of_answer
status_of_answer-null_read a p e f =
    let shut : ((line_of a >>= status_of_line) ≡ null_read) ↔ (p.intermediates ≡ []) =
      line_null_read a p f in
    elim (Bool-cases (at_get_cme_error p == cme_success)) [
      | inl c ↦ rw (e, f, c, status_of_answer) (λ q. (ground arith, shut.0 q), λ q. shut.1 q.1)
      | inr c ↦
          rw (e, f, c, status_of_answer)
            (λ q. absurd (done_either _ _ _ q), λ q. absurd (ground arith))
    ]

-- If the radio is on, and the modem answers to `AT+CPIN?` without an error of the channel, `getSIMStatus`
-- reads through a null pointer exactly if the CME error is 0, which stands for success, and there is no
-- intermediate line, as when the modem answers with `+CME ERROR: 0`.
pub get_sim_status-null_read :
    (m : Modem) (r : Radio) (p : AtResponse)
    → same_state r.state off || same_state r.state unavailable ≡ false
    → (m.answer r.sent cpin).error ≡ none
    → (m.answer r.sent cpin).response ≡ some p
    → (get_sim_status m r ≡ null_read)
      ↔ ((at_get_cme_error p ≡ cme_success) × (p.intermediates ≡ []))
unfolding get_sim_status send
get_sim_status-null_read m r p up e f =
    let status : Outcome SimStatus = status_of_answer (m.answer r.sent cpin) in
    let ends : (status ≡ null_read)
        ↔ ((at_get_cme_error p ≡ cme_success) × (p.intermediates ≡ [])) =
      status_of_answer-null_read (m.answer r.sent cpin) p e f in
    rw up (λ q. ends.0 ((bind_done status _).0 q), λ q. (bind_done status _).1 (ends.1 q))
