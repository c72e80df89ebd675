-- ===== src/Ril/Radio/Frame.antt =====
-- What the functions of android2.1_init/hard_ril/reference-ril/reference-ril.c rely on in the AT
-- channel, and how often a request is completed.
use demonstratortool.Ril.Radio.Ends.{Ends, Ends-bind, Ends-loosen}
use demonstratortool.Base.{
  sym, subst, ℕ, suc, ◌≡◌, refl, inl, inr, Bool, true, false, not, Option, none, some, List, [],
  ◌∷◌, arith, Bool-cases, Bytes,
}
use demonstratortool.Ril.Channel.{CommandType, AtError, numeric, singleline, AtResponse, is_empty}
use demonstratortool.Ril.Commands.{Command, is_given}
use demonstratortool.Ril.Telephony.{RadioState}
use demonstratortool.Ril.Radio.{
  issued, completed, notified, timed, at_closed, wrote_to_qmi, started_dhcp, Call, Radio, Answered,
  Modem, Outcome, done, null_read, ◌>>=◌, enter_state, on_at_closed, send, has_failed,
  intermediates_of, line_of,
}

-- A successful response has a line where the type of the command asks for one.
abbrev pub asks_for_line : CommandType → Bool
asks_for_line singleline = true
asks_for_line numeric = true
asks_for_line _ = false

-- What the client of the channel gets for a command whose response is wanted: an error, or a response,
-- which, if it is a success, has a line where one is asked for.
abbrev pub Fits : Command → Answered → Type 0
Fits cmd a =
    a.error ≡ none
    → (p : AtResponse) × (a.response ≡ some p)
      × (p.success ≡ true → asks_for_line cmd.type ≡ true → is_empty p.intermediates ≡ false)

pub record IsModem (m : Modem) : Type 0 where
  pub fits : (n : ℕ) (cmd : Command) → cmd.wants_response ≡ true → Fits cmd (m.answer n cmd)

-- A response that is a success, with a line where one is asked for.
pub record IsGood (type : CommandType) (a : Answered) : Type 0 where
  pub good : AtResponse
  pub is_response : a.response ≡ some good
  pub is_success : good.success ≡ true
  pub has_line : asks_for_line type ≡ true → is_empty good.intermediates ≡ false

no_error : (o : Option AtError) → is_given o ≡ false → o ≡ none
no_error none h = refl
no_error (some x) h = cc h

response_given :
    (cmd : Command) (a : Answered)
    → Fits cmd a
    → is_given a.error ≡ false
    → (p : AtResponse) × (a.response ≡ some p) × (p.success ≡ true → IsGood cmd.type a)
response_given cmd a h e =
    let (p, q, k) = h (no_error a.error e) in
    (p, q, λ t. record { good = p; is_response = q; is_success = t; has_line = k t })

has_failed-response :
    (a : Answered) (p : AtResponse)
    → is_given a.error ≡ false
    → a.response ≡ some p
    → has_failed a ≡ done (not p.success)
unfolding has_failed
has_failed-response a p e q = ground (arith, e, q)

has_failed-Ends :
    (cmd : Command) (a : Answered)
    → Fits cmd a
    → Ends false (λ failed. failed ≡ false → IsGood cmd.type a) (has_failed a)
unfolding has_failed
has_failed-Ends cmd a h = elim (Bool-cases (is_given a.error)) [
  | inl e ↦ rw (e, has_failed) (record { ends = λ (t : true ≡ false). cc t })
  | inr e ↦
      let (p, q, k) = response_given cmd a h e in
      let ends : has_failed a ≡ done (not p.success) = has_failed-response a p e q in
      subst (Ends false (λ failed. failed ≡ false → IsGood cmd.type a)) (sym ends)
        (record { ends = λ (t : not p.success ≡ false). k (ground arith) })
]

first_line :
    (xs : List Bytes)
    → is_empty xs ≡ false
    → Ends false (λ _. Unit) (elim xs [ [] ↦ null_read | line ∷ rest ↦ done line ])
first_line [] h = cc h
first_line (x ∷ xs) h = record { ends = tt }

pub line_of-Ends :
    (type : CommandType) (a : Answered)
    → IsGood type a
    → asks_for_line type ≡ true
    → Ends false (λ _. Unit) (line_of a)
unfolding line_of
line_of-Ends type a g t =
    rw (g.is_response, line_of) (first_line g.good.intermediates (g.has_line t))

pub line_of-crash : (a : Answered) → Ends true (λ _. Unit) (line_of a)
unfolding line_of
line_of-crash a = record { ends = ground arith }

pub intermediates_of-crash : (a : Answered) → Ends true (λ _. Unit) (intermediates_of a)
unfolding intermediates_of
intermediates_of-crash a = record { ends = ground arith }

pub intermediates_of-Ends :
    (type : CommandType) (a : Answered)
    → IsGood type a
    → Ends false (λ _. Unit) (intermediates_of a)
unfolding intermediates_of
intermediates_of-Ends type a g = rw (g.is_response, intermediates_of) (record { ends = tt })

-- How often `RIL_onRequestComplete` is called.
unfoldable pub completions : List Call → ℕ
completions [] = 0
completions (completed e reply ∷ es) = suc (completions es)
completions (issued cmd ∷ es) = completions es
completions (notified u reply ∷ es) = completions es
completions (timed f ∷ es) = completions es
completions (at_closed ∷ es) = completions es
completions (wrote_to_qmi s ∷ es) = completions es
completions (started_dhcp ∷ es) = completions es

abbrev pub times_completed : Radio → ℕ
unfolding completions
times_completed r = completions r.trace

pub enter_state-times :
    (new : RadioState) (r : Radio) → times_completed (enter_state new r) ≡ times_completed r
unfolding enter_state completions
enter_state-times new r = ground arith

pub send-times :
    (m : Modem) (cmd : Command) (r : Radio) → times_completed (send m cmd r).1 ≡ times_completed r
unfolding send on_at_closed completions enter_state
send-times m cmd r = ground arith

-- A function that puts a command and goes one way if it fails, and another way if it does not.
pub has_failed-bind {ℓ} :
    {A : Type ℓ} (b : Bool) (P : A → Type 0) (m : Modem) (cmd : Command) (r : Radio)
    (k : Bool → Outcome A)
    → IsModem m
    → cmd.wants_response ≡ true
    → Ends b P (k true)
    → (IsGood cmd.type (send m cmd r).0 → Ends b P (k false))
    → Ends b P (has_failed (send m cmd r).0 >>= k)
unfolding send
has_failed-bind b P m cmd r k good w t f =
    Ends-bind b P (λ failed. failed ≡ false → IsGood cmd.type (send m cmd r).0)
      (has_failed (send m cmd r).0) k
      (Ends-loosen b _ _ (has_failed-Ends cmd (m.answer r.sent cmd) (good.fits r.sent cmd w))) next
  where
    next :
        (failed : Bool) → (failed ≡ false → IsGood cmd.type (send m cmd r).0) → Ends b P (k failed)
    next true g = t
    next false g = f (g refl)

-- The way that is gone on an error.
pub has_failed-error :
    (m : Modem) (cmd : Command) (r : Radio) (x : AtError)
    → (m.answer r.sent cmd).error ≡ some x
    → has_failed (send m cmd r).0 ≡ done true
unfolding has_failed send
has_failed-error m cmd r x e = rw (e, has_failed, send) refl

-- A function that goes on with the first line of a good answer.
pub line_of-bind {ℓ} :
    {A : Type ℓ} (b : Bool) (P : A → Type 0) (type : CommandType) (a : Answered)
    (k : Bytes → Outcome A)
    → IsGood type a
    → asks_for_line type ≡ true
    → ((line : Bytes) → Ends b P (k line))
    → Ends b P (line_of a >>= k)
line_of-bind b P type a k g t h =
    Ends-bind b P (λ _. Unit) (line_of a) k (Ends-loosen b _ (line_of a) (line_of-Ends type a g t))
      (λ line _. h line)

pub intermediates_of-bind {ℓ} :
    {A : Type ℓ} (b : Bool) (P : A → Type 0) (type : CommandType) (a : Answered)
    (k : List Bytes → Outcome A)
    → IsGood type a
    → ((lines : List Bytes) → Ends b P (k lines))
    → Ends b P (intermediates_of a >>= k)
intermediates_of-bind b P type a k g h =
    Ends-bind b P (λ _. Unit) (intermediates_of a) k
      (Ends-loosen b _ (intermediates_of a) (intermediates_of-Ends type a g)) (λ lines _. h lines)
