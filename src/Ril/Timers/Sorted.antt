-- ===== src/Ril/Timers/Sorted.antt =====
-- The timers of android2.1_init/hard_ril/libril/ril_event.cpp in their order.
use demonstratortool.Base.{
  ◌≡◌, refl, ap, true, false, none, some, List, [], ◌∷◌, ◌++◌, arith, All, pick, pick_by,
}
use demonstratortool.Ril.Timers.{
  TimeVal, Timer, is_before, add_sorted, Lists, no_events, ril_timer_add, take_expired,
  process_timeouts, Call, add, process, fire, call, calls,
}

-- A timer does not fire before a time.
abbrev pub NotBefore : TimeVal → Timer → Type 0
NotBefore time t = is_before t.timeout time ≡ false

abbrev pub IsSorted : List Timer → Type 0
IsSorted [] = Unit
IsSorted (t ∷ ts) = All (NotBefore t.timeout) ts × IsSorted ts

not_before_trans :
    (a b c : TimeVal) → is_before a b ≡ false → is_before b c ≡ false → is_before a c ≡ false
unfolding is_before
not_before_trans a b c h k = ground arith

before_not : (a b : TimeVal) → is_before a b ≡ true → is_before b a ≡ false
unfolding is_before
before_not a b h = ground arith

weaken :
    (a b : TimeVal) (ts : List Timer)
    → is_before a b ≡ false
    → All (NotBefore a) ts
    → All (NotBefore b) ts
weaken a b [] h k = tt
weaken a b (t ∷ ts) h k = (not_before_trans t.timeout a b k.0 h, weaken a b ts h k.1)

All-add_sorted :
    (P : Timer → Type 0) (ev : Timer) (ts : List Timer) → P ev → All P ts → All P (add_sorted ev ts)
unfolding add_sorted
All-add_sorted P ev [] h k = (h, tt)
All-add_sorted P ev (t ∷ ts) h k =
    pick (All P) (is_before t.timeout ev.timeout) _ _ (k.0, All-add_sorted P ev ts h k.1) (h, k)

add_sorted-IsSorted : (ev : Timer) (ts : List Timer) → IsSorted ts → IsSorted (add_sorted ev ts)
unfolding add_sorted
add_sorted-IsSorted ev [] h = (tt, tt)
add_sorted-IsSorted ev (t ∷ ts) h =
    pick_by IsSorted (is_before t.timeout ev.timeout) _ _
      (λ e. (
        All-add_sorted (NotBefore t.timeout) ev ts (before_not t.timeout ev.timeout e) h.0,
        add_sorted-IsSorted ev ts h.1,
      ))
      (λ e. ((e, weaken t.timeout ev.timeout ts e h.0), h))

-- What one call of `processTimeouts` does to a list of timers.
pub record Expired (now : TimeVal) (ts fired left : List Timer) : Type 0 where
  pub same : fired ++ left ≡ ts
  pub due : All (λ t. is_before t.timeout now ≡ true) fired
  pub later : All (NotBefore now) left

abbrev Splits : TimeVal → List Timer → List Timer × List Timer → Type 0
Splits now ts r = Expired now ts r.0 r.1 × IsSorted r.1

take_expired-Splits :
    (now : TimeVal) (ts : List Timer) → IsSorted ts → Splits now ts (take_expired now ts)
unfolding take_expired
take_expired-Splits now [] h = (record { same = refl; due = tt; later = tt }, tt)
take_expired-Splits now (t ∷ ts) h =
    let (v, sorted) = take_expired-Splits now ts h.1 in
    pick_by (Splits now (t ∷ ts)) (is_before t.timeout now) _ _
      (λ e. (
        record { same = ap (λ (r : List Timer). t ∷ r) v.same; due = (e, v.due); later = v.later },
        sorted,
      ))
      (λ e. (record { same = refl; due = tt; later = (e, weaken t.timeout now ts e h.0) }, h))

call-IsSorted : (c : Call) (s : Lists) → IsSorted s.timers → IsSorted (call c s).timers
unfolding call ril_timer_add process_timeouts
call-IsSorted (add now id none) s h = h
call-IsSorted (add now id (some tv)) s h = add_sorted-IsSorted _ s.timers h
call-IsSorted (process now) s h = (take_expired-Splits now s.timers h).1
call-IsSorted fire s h = h

calls-IsSorted : (cs : List Call) (s : Lists) → IsSorted s.timers → IsSorted (calls cs s).timers
unfolding calls
calls-IsSorted [] s h = h
calls-IsSorted (c ∷ cs) s h = calls-IsSorted cs (call c s) (call-IsSorted c s h)

-- After any calls that add timers, process them and fire what is pending, one more call of
-- `processTimeouts` makes exactly the timers pending whose time is before now, in their order, and leaves
-- the others, also one whose time is now.
pub process_timeouts-Expired :
    (cs : List Call) (now : TimeVal)
    → let s = calls cs no_events in
      let s' = process_timeouts now s in
      (fired : List Timer) × (s'.pending ≡ s.pending ++ fired)
      × Expired now s.timers fired s'.timers
unfolding process_timeouts
process_timeouts-Expired cs now =
    let s = calls cs no_events in
    (
      (take_expired now s.timers).0,
      refl,
      (take_expired-Splits now s.timers (calls-IsSorted cs no_events tt)).0,
    )
