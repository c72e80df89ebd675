-- ===== src/Ril/Radio/Moves.antt =====
-- The moves of the radio of android2.1_init/hard_ril/reference-ril/reference-ril.c, one by one.
use demonstratortool.Base.{
  pick, ℕ, suc, ◌+◌, ◌≤◌, ◌<◌, ◌≡◌, refl, ap, ◌∙◌, inl, inr, Bool, true, false, List, ◌∷◌, arith,
  if◌then◌else◌, Bool-cases,
}
use demonstratortool.Ril.Commands.{Command}
use demonstratortool.Ril.Telephony.{
  Errno, RadioState, off, unavailable, sim_not_ready, sim_locked_or_absent, sim_ready,
  ruim_not_ready, ruim_ready, ruim_locked_or_absent, nv_not_ready, nv_ready, state_number,
  same_state,
}
use demonstratortool.Ril.Radio.{
  Reply, issued, completed, notified, timed, at_closed, wrote_to_qmi, started_dhcp, Call, Radio,
  Modem, note, complete, enter_state, on_at_closed, send,
}
use demonstratortool.Ril.Radio.Frame.{completions, times_completed, send-times, enter_state-times}
use demonstratortool.Ril.Calls.{repoll_calls_count_max}

abbrev pub is_completion : Call → Bool
is_completion (completed e reply) = true
is_completion _ = false

-- What can be reached from a state, and how often a request is completed on the way: anything but that
-- is told to the outside; a request is completed; a state is entered, if the channel is not closed; a
-- command is put to the modem; and the three variables of the workaround for calls are set, the count
-- being 0 or one more than below its limit.
pub data Moves (first : Radio) : ℕ → Radio → Type 0 where
  stays : Moves first 0 first
  tells :
      {n : ℕ} {r : Radio} (e : Call)
      → is_completion e ≡ false
      → Moves first n r
      → Moves first n (note e r)
  completes :
      {n : ℕ} {r : Radio} (e : Errno) (reply : Reply)
      → Moves first n r
      → Moves first (suc n) (complete e reply r)
  enters :
      {n : ℕ} {r : Radio} (new : RadioState) → Moves first n r → Moves first n (enter_state new r)
  sends :
      {n : ℕ} {r : Radio} (m : Modem) (cmd : Command)
      → Moves first n r
      → Moves first n (send m cmd r).1
  expects :
      {n : ℕ} {r : Radio} → Moves first n r → Moves first n (record r { expect_answer = true })
  waits_on :
      {n : ℕ} {r : Radio} (line : ℕ)
      → Moves first n r
      → Moves first n (record r { incoming_or_waiting_line = line })
  repolls :
      {n : ℕ} {r : Radio}
      → r.repoll_calls_count < repoll_calls_count_max
      → Moves first n r
      → Moves first n (record r { repoll_calls_count = r.repoll_calls_count + 1 })
  settles :
      {n : ℕ} {r : Radio}
      → Moves first n r
      → Moves first n (record r { expect_answer = false; repoll_calls_count = 0 })

-- Once the channel is closed, the radio is unavailable; and the count of polls is within its limit.
pub record SoundAs (state : RadioState) (closed : Bool) (repolls : ℕ) : Type 0 where
  pub closed_unavailable : closed ≡ true → state ≡ unavailable
  pub few_repolls : repolls ≤ repoll_calls_count_max

abbrev pub IsSound : Radio → Type 0
IsSound r = SoundAs r.state r.closed r.repoll_calls_count

other_times :
    (e : Call) (es : List Call) → is_completion e ≡ false → completions (e ∷ es) ≡ completions es
unfolding completions
other_times (completed e reply) es h = cc h
other_times (issued cmd) es h = refl
other_times (notified u reply) es h = refl
other_times (timed f) es h = refl
other_times at_closed es h = refl
other_times (wrote_to_qmi s) es h = refl
other_times started_dhcp es h = refl

pub Moves-times :
    (first : Radio) {n : ℕ} {r : Radio}
    → Moves first n r
    → times_completed r ≡ times_completed first + n
unfolding completions
Moves-times first stays = omega arith
Moves-times first (tells e h k) = other_times e _ h ∙ Moves-times first k
Moves-times first (completes e reply k) = ap suc (Moves-times first k) ∙ omega arith
Moves-times first (enters new k) = enter_state-times new _ ∙ Moves-times first k
Moves-times first (sends m cmd k) = send-times m cmd _ ∙ Moves-times first k
Moves-times first (expects k) = Moves-times first k
Moves-times first (waits_on line k) = Moves-times first k
Moves-times first (repolls h k) = Moves-times first k
Moves-times first (settles k) = Moves-times first k

enter_state-IsSound : (new : RadioState) (r : Radio) → IsSound r → IsSound (enter_state new r)
unfolding enter_state
enter_state-IsSound new r s =
    let next : RadioState = if r.closed then unavailable else new in
    elim (Bool-cases (same_state r.state next)) [
      | inl e ↦ rw (e, enter_state) s
      | inr e ↦
          rw (e, enter_state)
            (record { closed_unavailable = λ c. rw c refl; few_repolls = s.few_repolls })
    ]

is_unavailable : (s : RadioState) → same_state s unavailable ≡ true → s ≡ unavailable
unfolding state_number
is_unavailable unavailable h = refl
is_unavailable off h = cc h
is_unavailable sim_not_ready h = cc h
is_unavailable sim_locked_or_absent h = cc h
is_unavailable sim_ready h = cc h
is_unavailable ruim_not_ready h = cc h
is_unavailable ruim_ready h = cc h
is_unavailable ruim_locked_or_absent h = cc h
is_unavailable nv_not_ready h = cc h
is_unavailable nv_ready h = cc h

-- Whatever state is asked for, a closed radio is unavailable then.
pub enter_state-closed :
    (new : RadioState) (r : Radio) → r.closed ≡ true → (enter_state new r).state ≡ unavailable
unfolding enter_state
enter_state-closed new r c = elim (Bool-cases (same_state r.state unavailable)) [
  | inl e ↦ rw (enter_state, c, e) (is_unavailable r.state e)
  | inr e ↦ rw (enter_state, c, e) refl
]

enter_state-repolls :
    (new : RadioState) (r : Radio) → (enter_state new r).repoll_calls_count ≡ r.repoll_calls_count
unfolding enter_state
enter_state-repolls new r =
    pick (λ (r' : Radio). r'.repoll_calls_count ≡ r.repoll_calls_count)
      (same_state r.state (if r.closed then unavailable else new)) _ _ refl refl

pub on_at_closed-IsSound : (r : Radio) → IsSound r → IsSound (on_at_closed r)
unfolding on_at_closed
on_at_closed-IsSound r s =
    let shut : Radio = record (note at_closed r) { closed = true } in
    record {
      closed_unavailable = λ _. enter_state-closed unavailable shut refl;
      few_repolls = rw (enter_state-repolls unavailable shut) s.few_repolls;
    }

send-IsSound : (m : Modem) (cmd : Command) (r : Radio) → IsSound r → IsSound (send m cmd r).1
unfolding send on_at_closed enter_state
send-IsSound m cmd r s = elim (Bool-cases (m.answer r.sent cmd).closes) [
  | inl e ↦ rw (e, send) (on_at_closed-IsSound _ s)
  | inr e ↦ rw (e, send) s
]

pub Moves-IsSound :
    (first : Radio) {n : ℕ} {r : Radio} → Moves first n r → IsSound first → IsSound r
Moves-IsSound first stays s = s
Moves-IsSound first (tells e h k) s = Moves-IsSound first k s
Moves-IsSound first (completes e reply k) s = Moves-IsSound first k s
Moves-IsSound first (enters new k) s = enter_state-IsSound new _ (Moves-IsSound first k s)
Moves-IsSound first (sends m cmd k) s = send-IsSound m cmd _ (Moves-IsSound first k s)
Moves-IsSound first (expects k) s = Moves-IsSound first k s
Moves-IsSound first (waits_on line k) s = Moves-IsSound first k s
Moves-IsSound first (repolls h k) s = record {
  closed_unavailable = (Moves-IsSound first k s).closed_unavailable;
  few_repolls = omega (arith, h);
}
Moves-IsSound first (settles k) s = record {
  closed_unavailable = (Moves-IsSound first k s).closed_unavailable;
  few_repolls = omega arith;
}
