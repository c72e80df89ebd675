-- ===== src/Ril/Watches.antt =====
-- The table of watched descriptors in android2.1_init/hard_ril/libril/ril_event.cpp.
pub mod Covered
pub mod Selected
use demonstratortool.Base.{
  ℕ, zero, suc, ◌+◌, ◌-◌, ◌*◌, ◌/◌, ◌%◌, ◌^◌, ◌≤◌, ◌<◌, String, ◌≡◌, refl, sym, ap, ◌∙◌, subst, ◌≢◌,
  ◌↔◌, ◌⊎◌, inl, inr, Bool, true, false, not, ◌&&◌, ◌||◌, Option, none, some, List, [], ◌∷◌, ◌++◌,
  map, arith, ltb, leb, ◌==◌, if◌then◌else◌, ==_iff, ==_refl, ltb_iff, leb_iff, Bool-cases,
  Option-cases, ◌>>=◌, >>=-eq-some, length, get_elem?, set, take, drop, All, length-append,
  length-map, length-tail-le, length-set, get_elem?-set_self, get_elem?-set_ne, get_elem?-lt-length,
  get_elem?-append_self, All-append, All-get_elem?, All-set, Bytes, codes, streq, starts_with,
  strchr, is_space, is_alpha, is_digit, is_alnum, streq_iff, streq_refl, starts_with-append,
  strchr-append, ulong_mod, digit_value, strtoul, atoi, strtol, has_number, skip_spaces,
  drop-append, take-append, drop-drop, drop-set, length-drop, length-take, length-take-le, take-all,
  All-drop, pick, pick_by, Lacks, strchr-first, append-nil, append_assoc,
}

-- A watched event, known by a number.
pub record Watch : Type 0 where
  pub id : ℕ
  pub fd : ℕ
  pub persist : Bool

-- `watch_table`, `nfds`, `readFds`, and whether `listMutex` is held by a call that has come back.
pub record Watches : Type 0 where
  pub slots : List (Option Watch)
  pub nfds : ℕ
  pub read_fds : ℕ → Bool
  pub locked : Bool

abbrev pub max_fd_events : ℕ
max_fd_events = 8

-- `ril_event_init`
abbrev pub no_watches : Watches
no_watches = record {
  slots = none ∷ none ∷ none ∷ none ∷ none ∷ none ∷ none ∷ none ∷ [];
  nfds = 0;
  read_fds = λ fd. false;
  locked = false;
}

unfoldable pub first_free : List (Option Watch) → Option ℕ
first_free [] = none
first_free (none ∷ rest) = some 0
first_free (some w ∷ rest) = elim (first_free rest) [ none ↦ none | some i ↦ some (suc i) ]

-- Behind the lock: with the table full, the event is not watched.
unfoldable pub put_watch : Watch → Watches → Watches
unfolding first_free
put_watch w s = elim (first_free s.slots) [
  | none ↦ s
  | some i ↦ record s {
    slots = set s.slots i (some w);
    nfds = if leb s.nfds w.fd then w.fd + 1 else s.nfds;
    read_fds = λ fd. fd == w.fd || s.read_fds fd;
  }
]

-- The highest descriptor, from a number on.
unfoldable pub highest : ℕ → List (Option Watch) → ℕ
highest n [] = n
highest n (none ∷ rest) = highest n rest
highest n (some w ∷ rest) = highest (if ltb n w.fd then w.fd else n) rest

unfoldable pub remove_watch : Watch → ℕ → Watches → Watches
unfolding highest
remove_watch w index s =
    let slots = set s.slots index none in
    record s {
      slots = slots;
      nfds = if w.fd + 1 == s.nfds then highest 0 slots + 1 else s.nfds;
      read_fds = λ fd. not (fd == w.fd) && s.read_fds fd;
    }

-- The loop of `processReadReadies` from index `i` on, for so many slots and ready descriptors, with the
-- events that become pending.
unfoldable pub ready_from : ℕ → ℕ → (ℕ → Bool) → ℕ → Watches → Watches × List Watch
unfolding remove_watch
ready_from zero i ready n s = (s, [])
ready_from (suc left) i ready n s = if n == 0 then (s, []) else elim (get_elem? s.slots i) [
  | none ↦ (s, [])
  | some none ↦ ready_from left (i + 1) ready n s
  | some (some w) ↦
      let s' = if w.persist then s else remove_watch w i s in
      let next = ready_from left (i + 1) ready (n - 1) s' in
      let skip = ready_from left (i + 1) ready n s in
      if ready w.fd then (next.0, w ∷ next.1) else skip
]

-- A call that waits for the mutex that is never released does not come back.
abbrev when_free : Watches → Watches → Option Watches
when_free s s' = if s.locked then none else some s'

unfoldable pub ril_event_add : Watch → Watches → Option Watches
unfolding put_watch
ril_event_add w s = when_free s (put_watch w s)

unfoldable pub process_read_readies : (ℕ → Bool) → ℕ → Watches → Option Watches
unfolding ready_from
process_read_readies ready n s = when_free s (ready_from max_fd_events 0 ready n s).0

-- For the index in the event, none for -1: then it returns with the mutex held.
unfoldable pub ril_event_del : Watch → Option ℕ → Watches → Option Watches
unfolding remove_watch
ril_event_del w none s = when_free s (record s { locked = true })
ril_event_del w (some i) s =
    when_free s (if leb max_fd_events i then record s { locked = true } else remove_watch w i s)

-- What is done to the table.
pub data WatchCall : Type 0 where
  watch : Watch → WatchCall
  unwatch : Watch → Option ℕ → WatchCall
  ready : (ℕ → Bool) → ℕ → WatchCall

unfoldable pub watch_call : WatchCall → Watches → Option Watches
unfolding ril_event_add ril_event_del process_read_readies
watch_call (watch w) s = ril_event_add w s
watch_call (unwatch w index) s = ril_event_del w index s
watch_call (ready fds n) s = process_read_readies fds n s

unfoldable pub watch_calls : List WatchCall → Watches → Option Watches
unfolding watch_call
watch_calls [] s = some s
watch_calls (c ∷ cs) s = elim (watch_call c s) [ none ↦ none | some s' ↦ watch_calls cs s' ]
