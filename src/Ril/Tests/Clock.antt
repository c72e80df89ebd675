-- ===== src/Ril/Tests/Clock.antt =====
-- Timers and watched descriptors of android2.1_init/hard_ril/libril/ril_event.cpp on concrete calls.
use demonstratortool.Base.{arith, false, true, ℕ, ◌≡◌, refl, some, List, [], ◌∷◌, ◌++◌}
use demonstratortool.Ril.Timers.{
  fire_pending, take_expired, is_before, timeradd, add_sorted, ril_timer_add, call, TimeVal, Timer,
  no_events, process_timeouts, Call, add, process, fire, calls,
}
use demonstratortool.Ril.Watches.{
  remove_watch, ready_from, first_free, put_watch, process_read_readies, ril_event_del,
  ril_event_add, watch_call, Watch, WatchCall, watch, unwatch, ready, no_watches, watch_calls,
}
use demonstratortool.Ril.Watches.Covered.{Returns}
use demonstratortool.Ril.Watches.Selected.{IsSelected, watch_calls-IsSelected}
use demonstratortool.Ril.Timers.Sorted.{Expired, process_timeouts-Expired}

abbrev at : ℕ → ℕ → TimeVal
at sec usec = record { sec = sec; usec = usec }

-- Three timers, the second one before the first.
abbrev three : List Call
three =
    add (at 10 900000) 1 (some (at 3 200000))
    ∷ add (at 11 0) 2 (some (at 1 0))
    ∷ process (at 11 5)
    ∷ fire
    ∷ add (at 12 0) 3 (some (at 30 0))
    ∷ []

process_timeouts-Expired_example :
    (fired : List Timer) × ((process_timeouts (at 14 200000) (calls three no_events)).pending
      ≡ (calls three no_events).pending ++ fired)
    × Expired
        (at 14 200000)
        (calls three no_events).timers
        fired
        (process_timeouts (at 14 200000) (calls three no_events)).timers
process_timeouts-Expired_example = process_timeouts-Expired three (at 14 200000)

-- The first two have fired by then.
fires :
    (process_timeouts (at 14 200000) (calls three no_events)).pending
    ≡ record { id = 2; timeout = at 12 0 } ∷ record { id = 1; timeout = at 14 100000 } ∷ []
unfolding process_timeouts calls call ril_timer_add add_sorted timeradd is_before take_expired
    fire_pending
fires = refl

abbrev socket : Watch
socket = record { id = 1; fd = 7; persist = true }

abbrev pipe : Watch
pipe = record { id = 2; fd = 4; persist = false }

abbrev both_ready : List WatchCall
both_ready = watch socket ∷ watch pipe ∷ ready (λ fd. true) 2 ∷ unwatch socket (some 0) ∷ []

watch_calls-IsSelected_example : Returns IsSelected (watch_calls both_ready no_watches)
unfolding watch_call ril_event_add ril_event_del process_read_readies put_watch first_free
    ready_from remove_watch
watch_calls-IsSelected_example = watch_calls-IsSelected both_ready (
  (tt, (tt, (tt, (tt, (tt, (tt, (tt, (tt, tt)))))))),
  (((λ e. omega arith), (tt, (tt, (tt, (tt, (tt, (tt, (tt, tt)))))))), (tt, (refl, tt))),
)
