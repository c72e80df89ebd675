-- ===== src/Ril/Commands/Safe.antt =====
-- What a command of android2.1_init/hard_ril/reference-ril/atchannel.c gets, whatever the modem sends
-- and whenever the threads run.
use demonstratortool.Base.{
  ◌+◌, ◌≡◌, refl, sym, ◌∙◌, subst, inl, inr, Bool, true, false, not, ◌&&◌, Option, none, some, List,
  [], ◌∷◌, arith, if◌then◌else◌, Option-cases, length, All, Bytes,
}
use demonstratortool.Ril.Channel.{
  CommandType, no_result, numeric, singleline, multiline, AtError, timeout, command_pending,
  channel_closed, AtResponse, Channel, Link, Run, done, writeline, reader_ends,
}
use demonstratortool.Ril.Channel.Pending.{
  Ensures, Ensures-bind, either_way, IsAnswer, IsFinal, IsPending, SameBut, write_ended-SameBut,
  process_line-IsPending, handle_unsolicited-IsPending,
}
use demonstratortool.Ril.Commands.{
  wake, Event, line, sms, reader_ended, woken, timed_out, Command, Sent, clear_pending_command,
  reverse_onto, reverse_intermediates, must_wait, is_given, wake, sleep, finish, pend, leave,
  await_response, at_send_command_full_nolock,
}

reader_ends-IsPending :
    (type : CommandType) (prefix : Option Bytes) (c : Channel)
    → IsPending type prefix c
    → IsPending type prefix (reader_ends c)
unfolding reader_ends
reader_ends-IsPending type prefix c v =
    either_way (IsPending type prefix) (c.has_on_reader_closed && not c.reader_closed) _ c
      (record { same_type = v.same_type; same_prefix = v.same_prefix; pending = v.pending }) v

-- The sleeping thread finds its command pending when it wakes up, also by its time limit; otherwise
-- it has found that it need not wait.
pub record Awake (type : CommandType) (prefix : Option Bytes) (r : Bool × Channel × List Event)
    : Type 0 where
  pub pending : IsPending type prefix r.1
  pub free : r.0 ≡ false → must_wait r.1 ≡ some false

wake-Awake :
    (type : CommandType) (prefix : Option Bytes) (c : Channel) (es : List Event) (o : Option Bool)
    (more : Run (Bool × Channel × List Event))
    → must_wait c ≡ o
    → IsPending type prefix c
    → Ensures (Awake type prefix) more
    → Ensures (Awake type prefix) (wake o more (false, c, es))
unfolding must_wait
wake-Awake type prefix c es none more e v h = ground (arith, v.pending.1)
wake-Awake type prefix c es (some true) more e v h = h
wake-Awake type prefix c es (some false) more e v h = record { pending = v; free = λ _. e }

sleep-Awake :
    (link : Link) (type : CommandType) (prefix : Option Bytes) (limited : Bool) (es : List Event)
    (c : Channel)
    → IsPending type prefix c
    → Ensures (Awake type prefix) (sleep link limited es c)
unfolding sleep
sleep-Awake link type prefix limited [] c v = tt
sleep-Awake link type prefix limited (line text ∷ es) c v =
    Ensures-bind (IsPending type prefix) (Awake type prefix) _ _
      (process_line-IsPending link type prefix text c v)
      (λ d w. sleep-Awake link type prefix limited es d w)
sleep-Awake link type prefix limited (sms text pdu ∷ es) c v =
    sleep-Awake link type prefix limited es _
      (handle_unsolicited-IsPending type prefix text (some pdu) c v)
sleep-Awake link type prefix limited (reader_ended ∷ es) c v =
    sleep-Awake link type prefix limited es _ (reader_ends-IsPending type prefix c v)
sleep-Awake link type prefix limited (woken ∷ es) c v =
    wake-Awake type prefix c es (must_wait c) _ refl v (sleep-Awake link type prefix limited es c v)
sleep-Awake link type prefix true (timed_out ∷ es) c v = record { pending = v; free = λ e. cc }
sleep-Awake link type prefix false (timed_out ∷ es) c v =
    wake-Awake type prefix c es (must_wait c) _ refl v (sleep-Awake link type prefix false es c v)

-- What a command leaves: nothing is pending; a response that the issuer gets has the lines that the
-- type of the command admits, and tells success by its final response; with no error there is a
-- final response, and the issuer gets the response if it wants one.
pub record IsSent (cmd : Command) (s : Sent) : Type 0 where
  pub idle : s.channel.response ≡ none
  pub answer :
      (r : AtResponse)
      → s.out ≡ some r
      → IsAnswer cmd.type cmd.response_prefix r.intermediates × IsFinal r
  pub final :
      (r : AtResponse) → s.out ≡ some r → s.error ≡ none → (l : Bytes) × (r.final_response ≡ some l)
  pub given : s.error ≡ none → cmd.wants_response ≡ true → (r : AtResponse) × (s.out ≡ some r)

reverse_onto-All :
    (P : Bytes → Type 0) (xs ys : List Bytes) → All P xs → All P ys → All P (reverse_onto xs ys)
unfolding reverse_onto
reverse_onto-All P [] ys h k = k
reverse_onto-All P (x ∷ xs) ys h k = reverse_onto-All P xs (x ∷ ys) h.1 (h.0, k)

length-reverse_onto : (xs ys : List Bytes) → length (reverse_onto xs ys) ≡ length xs + length ys
unfolding reverse_onto
length-reverse_onto [] ys = omega arith
length-reverse_onto (x ∷ xs) ys = omega (arith, length-reverse_onto xs (x ∷ ys))

reverse-IsAnswer :
    (type : CommandType) (prefix : Option Bytes) (xs : List Bytes)
    → IsAnswer type prefix xs
    → IsAnswer type prefix (reverse_onto xs [])
reverse-IsAnswer no_result prefix xs e =
    subst (λ ys. reverse_onto ys [] ≡ []) (sym e) (unfold reverse_onto in refl)
reverse-IsAnswer numeric prefix xs h =
    (omega (arith, length-reverse_onto xs []), reverse_onto-All _ xs [] h.1 tt)
reverse-IsAnswer singleline none xs h = absurd h
reverse-IsAnswer singleline (some p) xs h =
    (omega (arith, length-reverse_onto xs []), reverse_onto-All _ xs [] h.1 tt)
reverse-IsAnswer multiline none xs h = absurd h
reverse-IsAnswer multiline (some p) xs h = reverse_onto-All _ xs [] h tt

given_same {ℓ} : {A : Type ℓ} (b : Bool) (x y : A) → (if b then some x else none) ≡ some y → x ≡ y
given_same true x y e = cc
given_same false x y e = cc

final_found :
    (final : Option Bytes) (closed : Bool)
    → some (not (is_given final) && not closed) ≡ some false
    → (if closed then some channel_closed else none) ≡ none
    → (l : Bytes) × (final ≡ some l)
final_found none true e n = cc
final_found none false e n = cc
final_found (some l) closed e n = (l, refl)

must_wait_of :
    (c : Channel) (r : AtResponse)
    → c.response ≡ some r
    → must_wait c ≡ some (not (is_given r.final_response) && not c.reader_closed)
unfolding must_wait
must_wait_of c r e = rw (e, must_wait)

-- Behind the loop, with what `finish` makes of the response.
answered :
    (cmd : Command) (es : List Event) (c : Channel) (r : AtResponse)
    → IsAnswer cmd.type cmd.response_prefix r.intermediates
    → IsFinal r
    → some (not (is_given r.final_response) && not c.reader_closed) ≡ some false
    → IsSent cmd (record {
      error = if c.reader_closed then some channel_closed else none;
      out = if cmd.wants_response then some (reverse_intermediates r) else none;
      channel = clear_pending_command c;
      later = es;
    })
unfolding clear_pending_command reverse_intermediates
answered cmd es c r a f free = record {
  idle = refl;
  answer = λ r' h.
      subst (λ (x : AtResponse). IsAnswer cmd.type cmd.response_prefix x.intermediates × IsFinal x)
        (given_same cmd.wants_response _ r' h)
        (reverse-IsAnswer cmd.type cmd.response_prefix r.intermediates a, f);
  final = λ r' h n.
      subst (λ (x : AtResponse). (l : Bytes) × (x.final_response ≡ some l))
        (given_same cmd.wants_response _ r' h)
        (final_found r.final_response c.reader_closed free n);
  given = λ n w. (reverse_intermediates r, rw w refl);
}

finish-IsSent :
    (cmd : Command) (es : List Event) (c : Channel)
    → IsPending cmd.type cmd.response_prefix c
    → must_wait c ≡ some false
    → Ensures (IsSent cmd) (finish cmd.wants_response c es)
unfolding finish
finish-IsSent cmd es c v free =
    let (r, e, a, f) = v.pending in
    rw (e, finish) (answered cmd es c r a f (sym (must_wait_of c r e) ∙ free))

-- An error before a response is there.
refused-IsSent :
    (cmd : Command) (e : AtError) (c : Channel) (es : List Event)
    → IsSent cmd
        (record { error = some e; out = none; channel = clear_pending_command c; later = es })
unfolding clear_pending_command
refused-IsSent cmd e c es = record {
  idle = refl;
  answer = λ r h. cc;
  final = λ r h n. cc;
  given = λ n w. cc;
}

-- A command with a prefix, where its type asks for one.
abbrev pub HasPrefix : Command → Type 0
HasPrefix cmd = IsAnswer cmd.type cmd.response_prefix []

pend-IsPending :
    (cmd : Command) (c : Channel)
    → HasPrefix cmd
    → IsPending cmd.type cmd.response_prefix (pend cmd c)
unfolding pend
pend-IsPending cmd c h = record {
  same_type = refl;
  same_prefix = refl;
  pending = (_, refl, h, refl);
}

leave-IsSent :
    (cmd : Command) (r : Bool × Channel × List Event)
    → Awake cmd.type cmd.response_prefix r
    → Ensures (IsSent cmd) (leave cmd r)
unfolding leave
leave-IsSent cmd (true, c, es) v = refused-IsSent cmd timeout c es
leave-IsSent cmd (false, c, es) v = finish-IsSent cmd es c v.pending (v.free refl)

await_response-IsSent :
    (link : Link) (cmd : Command) (es : List Event) (c : Channel)
    → HasPrefix cmd
    → Ensures (IsSent cmd) (await_response link cmd es c)
unfolding await_response
await_response-IsSent link cmd es c h =
    let v = pend-IsPending cmd c h in
    Ensures-bind (Awake cmd.type cmd.response_prefix) (IsSent cmd) _ (leave cmd)
      (wake-Awake cmd.type cmd.response_prefix (pend cmd c) es (must_wait (pend cmd c)) _ refl v
        (sleep-Awake link cmd.type cmd.response_prefix cmd.has_timeout es (pend cmd c) v))
      (leave-IsSent cmd)

-- Whatever the modem sends and whenever the threads run, a command that has a prefix where its type
-- asks for one reads through no null pointer; and if it comes back, nothing is pending, the response
-- that it gives has the lines that the type of the command admits and tells success by its final
-- response, and with no error there is a final response, and a response if one is wanted.
pub at_send_command_full_nolock-IsSent :
    (link : Link) (cmd : Command) (es : List Event) (c : Channel)
    → HasPrefix cmd
    → Ensures (IsSent cmd) (at_send_command_full_nolock link cmd es c)
unfolding at_send_command_full_nolock writeline
at_send_command_full_nolock-IsSent link cmd es c h = elim (Option-cases c.response) [
  | inr (r, e) ↦ rw (e, at_send_command_full_nolock) (refused-IsSent cmd command_pending c es)
  | inl e ↦
      rw (e, at_send_command_full_nolock)
        (Ensures-bind (λ (w : Option AtError × Channel). SameBut c w.1) (IsSent cmd) _ _
          (write_ended-SameBut link cmd.text b'\r' c) after)
]
  where
    after :
        (w : Option AtError × Channel)
        → SameBut c w.1
        → Ensures (IsSent cmd) (elim w.0 [
          | some e ↦ done (record {
            error = some e;
            out = none;
            channel = clear_pending_command w.1;
            later = es;
          })
          | none ↦ await_response link cmd es w.1
        ])
    after (some e, d) k = refused-IsSent cmd e d es
    after (none, d) k = await_response-IsSent link cmd es d h
