-- ===== src/Ril/Watches/Selected.antt =====
-- The descriptors that `select` looks at (android2.1_init/hard_ril/libril/ril_event.cpp).
use demonstratortool.Base.{
  leb, ℕ, zero, suc, ◌+◌, ◌-◌, ◌≡◌, refl, sym, subst, ◌≢◌, inl, inr, Bool, true, false, Option,
  none, some, List, [], ◌∷◌, arith, ◌==◌, ◌||◌, ◌&&◌, not, leb, if◌then◌else◌, Option-cases,
  get_elem?, set, All, All-set, All-get_elem?, pick,
}
use demonstratortool.Ril.Watches.{
  Watch, Watches, no_watches, first_free, put_watch, remove_watch, ready_from, ril_event_add,
  ril_event_del, process_read_readies, WatchCall, watch, unwatch, ready, watch_call, watch_calls,
  max_fd_events,
}
use demonstratortool.Ril.Watches.Covered.{IsCovered, Returns, free_case, watch_call-IsCovered}

-- The bit of a watched descriptor is set.
abbrev pub HasBit : (ℕ → Bool) → Option Watch → Type 0
HasBit fds none = Unit
HasBit fds (some w) = fds w.fd ≡ true

-- `select` looks at every watched descriptor: it is below `nfds`, and its bit in `readFds` is set.
abbrev pub IsSelected : Watches → Type 0
IsSelected s = IsCovered s × All (HasBit s.read_fds) s.slots

-- The slot does not watch the descriptor.
abbrev pub IsOther : ℕ → Option Watch → Type 0
IsOther fd none = Unit
IsOther fd (some w) = w.fd ≢ fd

-- What the callers heed: no descriptor is watched twice at a time, and an event is deleted with the
-- index of a slot that holds it, or of none.
abbrev pub IsHeeded : WatchCall → Watches → Type 0
IsHeeded (watch w) s = All (IsOther w.fd) s.slots
IsHeeded (unwatch w none) s = Unit
IsHeeded (unwatch w (some i)) s =
    if leb max_fd_events i then Unit else (get_elem? s.slots i ≡ some (some w))
IsHeeded (ready fds n) s = Unit

abbrev pub AreHeeded : List WatchCall → Watches → Type 0
AreHeeded [] s = Unit
AreHeeded (c ∷ cs) s = IsHeeded c s × Returns (AreHeeded cs) (watch_call c s)

-- No two slots watch one descriptor.
abbrev IsApart : List (Option Watch) → Type 0
IsApart [] = Unit
IsApart (none ∷ os) = IsApart os
IsApart (some w ∷ os) = All (IsOther w.fd) os × IsApart os

record Heard (s : Watches) : Type 0 where
  set_bits : All (HasBit s.read_fds) s.slots
  apart : IsApart s.slots

put-IsApart :
    (os : List (Option Watch)) (i : ℕ) (w : Watch)
    → All (IsOther w.fd) os
    → IsApart os
    → IsApart (set os i (some w))
put-IsApart [] i w h k = tt
put-IsApart (none ∷ os) zero w h k = (h.1, k)
put-IsApart (none ∷ os) (suc i) w h k = put-IsApart os i w h.1 k
put-IsApart (some v ∷ os) zero w h k = (h.1, k.1)
put-IsApart (some v ∷ os) (suc i) w h k =
    (All-set (IsOther v.fd) os i (some w) k.0 (λ e. h.0 (sym e)), put-IsApart os i w h.1 k.1)

clear-IsApart : (os : List (Option Watch)) (i : ℕ) → IsApart os → IsApart (set os i none)
clear-IsApart [] i k = tt
clear-IsApart (none ∷ os) zero k = k
clear-IsApart (none ∷ os) (suc i) k = clear-IsApart os i k
clear-IsApart (some v ∷ os) zero k = k.1
clear-IsApart (some v ∷ os) (suc i) k =
    (All-set (IsOther v.fd) os i none k.0 tt, clear-IsApart os i k.1)

-- With its slot cleared, no slot watches the descriptor.
clear-IsOther :
    (os : List (Option Watch)) (i : ℕ) (w : Watch)
    → get_elem? os i ≡ some (some w)
    → IsApart os
    → All (IsOther w.fd) (set os i none)
clear-IsOther [] i w e k = cc
clear-IsOther (none ∷ os) zero w e k = cc
clear-IsOther (some v ∷ os) zero w e k =
    let same : v ≡ w = cc in (tt, subst (λ (u : Watch). All (IsOther u.fd) os) same k.0)
clear-IsOther (none ∷ os) (suc i) w e k = (tt, clear-IsOther os i w e k)
clear-IsOther (some v ∷ os) (suc i) w e k =
    let apart : w.fd ≢ v.fd = All-get_elem? (IsOther v.fd) os i k.0 e in
    ((λ f. apart (sym f)), clear-IsOther os i w e k.1)

more_bits :
    (fds : ℕ → Bool) (n : ℕ) (os : List (Option Watch))
    → All (HasBit fds) os
    → All (HasBit (λ fd. fd == n || fds fd)) os
more_bits fds n [] h = tt
more_bits fds n (none ∷ os) h = (tt, more_bits fds n os h.1)
more_bits fds n (some w ∷ os) h = (ground (arith, h.0), more_bits fds n os h.1)

-- Clearing the bit of a descriptor leaves those of the others.
fewer_bits :
    (fds : ℕ → Bool) (n : ℕ) (os : List (Option Watch))
    → All (HasBit fds) os
    → All (IsOther n) os
    → All (HasBit (λ fd. not (fd == n) && fds fd)) os
fewer_bits fds n [] h k = tt
fewer_bits fds n (none ∷ os) h k = (tt, fewer_bits fds n os h.1 k.1)
fewer_bits fds n (some w ∷ os) h k = (ground (arith, h.0, k.0), fewer_bits fds n os h.1 k.1)

put_watch-Heard :
    (w : Watch) (s : Watches) → All (IsOther w.fd) s.slots → Heard s → Heard (put_watch w s)
unfolding put_watch
put_watch-Heard w s o h = elim (Option-cases (first_free s.slots)) [
  | inl e ↦ rw (e, put_watch) h
  | inr (i, e) ↦
      rw (e, put_watch)
        (record {
          set_bits =
              All-set (HasBit (λ fd. fd == w.fd || s.read_fds fd)) s.slots i (some w)
                (more_bits s.read_fds w.fd s.slots h.set_bits) (ground arith);
          apart = put-IsApart s.slots i w o h.apart;
        })
]

remove_watch-Heard :
    (w : Watch) (i : ℕ) (s : Watches)
    → get_elem? s.slots i ≡ some (some w)
    → Heard s
    → Heard (remove_watch w i s)
unfolding remove_watch
remove_watch-Heard w i s e h = record {
  set_bits =
      fewer_bits s.read_fds w.fd (set s.slots i none)
        (All-set (HasBit s.read_fds) s.slots i none h.set_bits tt)
        (clear-IsOther s.slots i w e h.apart);
  apart = clear-IsApart s.slots i h.apart;
}

ready_from-Heard :
    (left i : ℕ) (fds : ℕ → Bool) (n : ℕ) (s : Watches)
    → Heard s
    → Heard (ready_from left i fds n s).0
unfolding ready_from
ready_from-Heard zero i fds n s h = h
ready_from-Heard (suc left) i fds n s h =
    pick (λ (r : Watches × List Watch). Heard r.0) (n == 0) _ _ h
      (elim (Option-cases (get_elem? s.slots i)) [
        | inl e ↦ rw e h
        | inr (none, e) ↦ rw e (ready_from-Heard left (i + 1) fds n s h)
        | inr (some w, e) ↦ rw e (
            pick (λ (r : Watches × List Watch). Heard r.0) (fds w.fd) _ _
              (ready_from-Heard left (i + 1) fds (n - 1) _
                (pick Heard w.persist _ _ h (remove_watch-Heard w i s e h)))
              (ready_from-Heard left (i + 1) fds n s h))
      ])

delete-Heard :
    (w : Watch) (i : ℕ) (s : Watches) (b : Bool)
    → (if b then Unit else (get_elem? s.slots i ≡ some (some w)))
    → Heard s
    → Heard (if b then record s { locked = true } else remove_watch w i s)
delete-Heard w i s true o h = record { set_bits = h.set_bits; apart = h.apart }
delete-Heard w i s false o h = remove_watch-Heard w i s o h

watch_call-Heard :
    (c : WatchCall) (s : Watches) → IsHeeded c s → Heard s → Returns Heard (watch_call c s)
unfolding watch_call ril_event_add ril_event_del process_read_readies
watch_call-Heard (watch w) s o h = free_case Heard s.locked _ (put_watch-Heard w s o h)
watch_call-Heard (unwatch w none) s o h =
    free_case Heard s.locked _ (record { set_bits = h.set_bits; apart = h.apart })
watch_call-Heard (unwatch w (some i)) s o h =
    free_case Heard s.locked _ (delete-Heard w i s (leb max_fd_events i) o h)
watch_call-Heard (ready fds n) s o h =
    free_case Heard s.locked _ (ready_from-Heard max_fd_events 0 fds n s h)

calls_from :
    (cs : List WatchCall) (s : Watches)
    → AreHeeded cs s
    → IsCovered s
    → Heard s
    → Returns IsSelected (watch_calls cs s)
unfolding watch_calls
calls_from [] s o c h = (c, h.set_bits)
calls_from (x ∷ cs) s o c h = elim (Option-cases (watch_call x s)) [
  | inl e ↦ rw (e, watch_calls) tt
  | inr (s', e) ↦
      rw (e, watch_calls)
        (calls_from cs s' (subst (Returns (AreHeeded cs)) e o.1)
          (subst (Returns IsCovered) e (watch_call-IsCovered x s c))
          (subst (Returns Heard) e (watch_call-Heard x s o.0 h)))
]

-- After any calls that add, delete and process watched events and come back, when no descriptor is added
-- while it is watched and an event is deleted with the index of its slot or of none, `select` looks at
-- every watched descriptor: it is below `nfds`, and its bit in `readFds` is set.
pub watch_calls-IsSelected :
    (cs : List WatchCall) → AreHeeded cs no_watches → Returns IsSelected (watch_calls cs no_watches)
watch_calls-IsSelected cs o =
    calls_from cs no_watches o (tt, (tt, (tt, (tt, (tt, (tt, (tt, (tt, tt))))))))
      (record { set_bits = (tt, (tt, (tt, (tt, (tt, (tt, (tt, (tt, tt)))))))); apart = tt })

-- Of two events for one descriptor, deleting the first one clears the bit of the other, which stays in
-- its slot.
pub unwatch_deafens :
    (v w : Watch) (s : Watches)
    → v.fd ≡ w.fd
    → get_elem? s.slots 1 ≡ some (some w)
    → s.locked ≡ false
    → (s' : Watches) × (watch_call (unwatch v (some 0)) s ≡ some s')
      × (get_elem? s'.slots 1 ≡ some (some w))
      × (s'.read_fds w.fd ≡ false)
unfolding watch_call ril_event_del remove_watch
unwatch_deafens v w s e at h = (remove_watch v 0 s, rw h refl, kept s.slots at, ground arith)
  where
    kept :
        (os : List (Option Watch))
        → get_elem? os 1 ≡ some (some w)
        → get_elem? (set os 0 none) 1 ≡ some (some w)
    kept [] k = k
    kept (o ∷ os) k = k
