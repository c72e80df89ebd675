-- ===== src/Ril/Timers.antt =====
-- The timers of android2.1_init/hard_ril/libril/ril_event.cpp. A list with links is the list of its nodes.
pub mod Sorted
use demonstratortool.Base.{
  ℕ, zero, suc, ◌+◌, ◌-◌, ◌*◌, ◌/◌, ◌%◌, ◌^◌, ◌≤◌, ◌<◌, String, ◌≡◌, refl, sym, ap, ◌∙◌, subst, ◌≢◌,
  ◌↔◌, ◌⊎◌, inl, inr, Bool, true, false, not, ◌&&◌, ◌||◌, Option, none, some, List, [], ◌∷◌, ◌++◌,
  map, arith, ltb, leb, ◌==◌, if◌then◌else◌, ==_iff, ==_refl, ltb_iff, leb_iff, Bool-cases,
  Option-cases, ◌>>=◌, >>=-eq-some, length, get_elem?, set, take, drop, All, length-append,
  length-map, length-tail-le, length-set, get_elem?-set_self, get_elem?-set_ne, get_elem?-lt-length,
  get_elem?-append_self, All-append, All-get_elem?, All-set, Bytes, codes, streq, starts_with,
  strchr, is_space, is_alpha, is_digit, is_alnum, streq_iff, streq_refl, starts_with-append,
  strchr-append, ulong_mod, digit_value, strtoul, atoi, strtol, has_number, skip_spaces,
  drop-append, take-append, drop-drop, drop-set, length-drop, length-take, length-take-le, take-all,
  All-drop, pick, pick_by, Lacks, strchr-first, append-nil, append_assoc,
}

-- `struct timeval`
pub record TimeVal : Type 0 where
  pub sec : ℕ
  pub usec : ℕ

-- A timer, known by a number, with the time at which it fires.
pub record Timer : Type 0 where
  pub id : ℕ
  pub timeout : TimeVal

-- `timercmp(a, b, <)`
unfoldable pub is_before : TimeVal → TimeVal → Bool
is_before a b = if a.sec == b.sec then ltb a.usec b.usec else ltb a.sec b.sec

unfoldable pub timeradd : TimeVal → TimeVal → TimeVal
timeradd a b =
    let usec = a.usec + b.usec in
    if leb 1000000 usec
    then record { sec = a.sec + b.sec + 1; usec = usec - 1000000 }
    else record { sec = a.sec + b.sec; usec = usec }

-- For a time that is not before the other one.
unfoldable pub timersub : TimeVal → TimeVal → TimeVal
timersub a b =
    if ltb a.usec b.usec
    then record { sec = a.sec - b.sec - 1; usec = a.usec + 1000000 - b.usec }
    else record { sec = a.sec - b.sec; usec = a.usec - b.usec }

-- In front of the first timer that does not fire earlier.
unfoldable pub add_sorted : Timer → List Timer → List Timer
unfolding is_before
add_sorted ev [] = ev ∷ []
add_sorted ev (t ∷ ts) =
    let rest = add_sorted ev ts in if is_before t.timeout ev.timeout then t ∷ rest else ev ∷ t ∷ ts

-- `timer_list` and `pending_list`
pub record Lists : Type 0 where
  pub timers : List Timer
  pub pending : List Timer

abbrev pub no_events : Lists
no_events = record { timers = []; pending = [] }

-- With what `getNow` gives; without a time nothing is added.
unfoldable pub ril_timer_add : TimeVal → ℕ → Option TimeVal → Lists → Lists
unfolding add_sorted timeradd
ril_timer_add now id none s = s
ril_timer_add now id (some tv) s = record s {
  timers = add_sorted (record { id = id; timeout = timeradd now tv }) s.timers;
}

-- The timers that have fired, and those that are left.
unfoldable pub take_expired : TimeVal → List Timer → List Timer × List Timer
unfolding is_before
take_expired now [] = ([], [])
take_expired now (t ∷ ts) =
    let (fired, left) = take_expired now ts in
    if is_before t.timeout now then (t ∷ fired, left) else ([], t ∷ ts)

unfoldable pub process_timeouts : TimeVal → Lists → Lists
unfolding take_expired
process_timeouts now s =
    let (fired, left) = take_expired now s.timers in
    record { timers = left; pending = s.pending ++ fired }

-- `firePending`, with the callbacks that it makes in order.
unfoldable pub fire_pending : Lists → Lists × List ℕ
fire_pending s = (record s { pending = [] }, map (λ t. t.id) s.pending)

-- The time to wait, none if there is no timer.
unfoldable pub calc_next_timeout : TimeVal → List Timer → Option TimeVal
unfolding is_before timersub
calc_next_timeout now [] = none
calc_next_timeout now (t ∷ ts) =
    some (if is_before now t.timeout then timersub t.timeout now else record { sec = 0; usec = 0 })

-- What is done to the lists, with the time of the call.
pub data Call : Type 0 where
  add : TimeVal → ℕ → Option TimeVal → Call
  process : TimeVal → Call
  fire : Call

unfoldable pub call : Call → Lists → Lists
unfolding ril_timer_add process_timeouts fire_pending
call (add now id tv) s = ril_timer_add now id tv s
call (process now) s = process_timeouts now s
call fire s = (fire_pending s).0

unfoldable pub calls : List Call → Lists → Lists
unfolding call
calls [] s = s
calls (c ∷ cs) s = calls cs (call c s)
