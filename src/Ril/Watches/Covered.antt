-- ===== src/Ril/Watches/Covered.antt =====
-- The number of descriptors that `select` looks at (android2.1_init/hard_ril/libril/ril_event.cpp).
use demonstratortool.Base.{
  ℕ, zero, suc, ◌+◌, ◌-◌, ◌≤◌, ◌<◌, ◌≡◌, refl, inl, inr, Bool, true, false, Option, none, some,
  List, [], ◌∷◌, arith, ltb, leb, ◌==◌, if◌then◌else◌, Option-cases, get_elem?, set, All, All-set,
  pick,
}
use demonstratortool.Ril.Watches.{
  Watch, Watches, first_free, put_watch, highest, remove_watch, ready_from, ril_event_add,
  ril_event_del, process_read_readies, WatchCall, watch, unwatch, ready, watch_call, watch_calls,
  max_fd_events,
}

abbrev pub IsBelow : ℕ → Option Watch → Type 0
IsBelow n none = Unit
IsBelow n (some w) = w.fd < n

-- Every watched descriptor is below `nfds`.
abbrev pub IsCovered : Watches → Type 0
IsCovered s = All (IsBelow s.nfds) s.slots

IsBelow-more : (n m : ℕ) (o : Option Watch) → n ≤ m → IsBelow n o → IsBelow m o
IsBelow-more n m none h k = tt
IsBelow-more n m (some w) h k = omega (arith, k, h)

more : (n m : ℕ) (os : List (Option Watch)) → n ≤ m → All (IsBelow n) os → All (IsBelow m) os
more n m [] h k = tt
more n m (o ∷ os) h k = (IsBelow-more n m o h k.0, more n m os h k.1)

highest_from : (n : ℕ) (os : List (Option Watch)) → n ≤ highest n os
unfolding highest
highest_from n [] = omega arith
highest_from n (none ∷ os) = highest_from n os
highest_from n (some w ∷ os) = ground (arith, highest_from (if ltb n w.fd then w.fd else n) os)

highest-IsBelow : (n : ℕ) (os : List (Option Watch)) → All (IsBelow (highest n os + 1)) os
unfolding highest
highest-IsBelow n [] = tt
highest-IsBelow n (none ∷ os) = (tt, highest-IsBelow n os)
highest-IsBelow n (some w ∷ os) =
    let m : ℕ = if ltb n w.fd then w.fd else n in
    let up : w.fd ≤ m = ground arith in (omega (arith, highest_from m os, up), highest-IsBelow m os)

put_watch-IsCovered : (w : Watch) (s : Watches) → IsCovered s → IsCovered (put_watch w s)
unfolding put_watch
put_watch-IsCovered w s h = elim (Option-cases (first_free s.slots)) [
  | inl e ↦ rw (e, put_watch) h
  | inr (i, e) ↦
      let n : ℕ = if leb s.nfds w.fd then w.fd + 1 else s.nfds in
      let old : s.nfds ≤ n = ground arith in
      let new : w.fd < n = ground arith in
      rw (e, put_watch) (All-set (IsBelow n) s.slots i (some w) (more s.nfds n s.slots old h) new)
]

remove_watch-IsCovered :
    (w : Watch) (i : ℕ) (s : Watches) → IsCovered s → IsCovered (remove_watch w i s)
unfolding remove_watch
remove_watch-IsCovered w i s h =
    pick (λ n. All (IsBelow n) (set s.slots i none)) (w.fd + 1 == s.nfds) _ _
      (highest-IsBelow 0 (set s.slots i none)) (All-set (IsBelow s.nfds) s.slots i none h tt)

ready_from-IsCovered :
    (left i : ℕ) (fds : ℕ → Bool) (n : ℕ) (s : Watches)
    → IsCovered s
    → IsCovered (ready_from left i fds n s).0
unfolding ready_from
ready_from-IsCovered zero i fds n s h = h
ready_from-IsCovered (suc left) i fds n s h =
    pick (λ (r : Watches × List Watch). IsCovered r.0) (n == 0) _ _ h
      (elim (Option-cases (get_elem? s.slots i)) [
        | inl e ↦ rw e h
        | inr (none, e) ↦ rw e (ready_from-IsCovered left (i + 1) fds n s h)
        | inr (some w, e) ↦ rw e (
            pick (λ (r : Watches × List Watch). IsCovered r.0) (fds w.fd) _ _
              (ready_from-IsCovered left (i + 1) fds (n - 1) _
                (pick IsCovered w.persist _ _ h (remove_watch-IsCovered w i s h)))
              (ready_from-IsCovered left (i + 1) fds n s h))
      ])

-- A call that comes back leaves a table with the property.
abbrev pub Returns : (Watches → Type 0) → Option Watches → Type 0
Returns P none = Unit
Returns P (some s) = P s

pub free_case :
    (P : Watches → Type 0) (b : Bool) (s : Watches) → P s → Returns P (if b then none else some s)
free_case P true s h = tt
free_case P false s h = h

pub watch_call-IsCovered :
    (c : WatchCall) (s : Watches) → IsCovered s → Returns IsCovered (watch_call c s)
unfolding watch_call ril_event_add ril_event_del process_read_readies
watch_call-IsCovered (watch w) s h = free_case IsCovered s.locked _ (put_watch-IsCovered w s h)
watch_call-IsCovered (unwatch w none) s h = free_case IsCovered s.locked _ h
watch_call-IsCovered (unwatch w (some i)) s h =
    free_case IsCovered s.locked _
      (pick IsCovered (leb max_fd_events i) _ _ h (remove_watch-IsCovered w i s h))
watch_call-IsCovered (ready fds n) s h =
    free_case IsCovered s.locked _ (ready_from-IsCovered max_fd_events 0 fds n s h)

-- Deleting an event that is not watched, when nothing blocks, leaves the mutex held: no call comes back
-- after it.
pub unwatch_blocks :
    (w : Watch) (c : WatchCall) (cs : List WatchCall) (s : Watches)
    → s.locked ≡ false
    → watch_calls (unwatch w none ∷ c ∷ cs) s ≡ none
unfolding watch_calls watch_call ril_event_add ril_event_del process_read_readies
unwatch_blocks w (watch v) cs s h = rw h refl
unwatch_blocks w (unwatch v none) cs s h = rw h refl
unwatch_blocks w (unwatch v (some i)) cs s h = rw h refl
unwatch_blocks w (ready fds n) cs s h = rw h refl
