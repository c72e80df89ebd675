-- ===== src/Init/Services.antt =====
-- Setting properties, and the life of services (android2.1_init/init/property_service.c and
-- init.c). Setting a property may run queued actions, and an action may set properties: `drain` is
-- `drain_action_queue`, which Machine closes the circle with.
pub mod Life
use demonstratortool.Base.{
  ℕ, zero, suc, ◌+◌, ◌-◌, ◌*◌, ◌/◌, ◌%◌, ◌^◌, ◌≤◌, ◌<◌, String, ◌≡◌, refl, sym, ap, ◌∙◌, subst, ◌≢◌,
  ◌↔◌, ◌⊎◌, inl, inr, Bool, true, false, not, ◌&&◌, ◌||◌, Option, none, some, List, [], ◌∷◌, ◌++◌,
  map, arith, ltb, leb, ◌==◌, if◌then◌else◌, ==_iff, ==_refl, ltb_iff, leb_iff, Bool-cases,
  Option-cases, length, get_elem?, set, take, drop, All, length-append, length-map, length-tail-le,
  length-set, get_elem?-set_self, get_elem?-set_ne, get_elem?-lt-length, get_elem?-append_self,
  All-append, All-get_elem?, All-set, Bytes, codes, streq, starts_with, strchr, is_space, is_alpha,
  is_digit, is_alnum, streq_iff, streq_refl, starts_with-append, strchr-append, ulong_mod,
  digit_value, strtoul,
}
use demonstratortool.Init.Platform.{Platform}
use demonstratortool.Init.Config.{Service, Flags, SocketInfo, Command, svc_max_args}
use demonstratortool.Init.Properties.{PropArea, write_entry}
use demonstratortool.Init.Queue.{queue_property_triggers}
use demonstratortool.Init.World.{
  ChildImage, Event, spawned, terminated, killed, unlinked, rebooted_to_recovery, saved, World, Run,
  done, no_fuel, bad_argument, ◌>>=◌, emit, ask, put_service,
}

-- The write of `property_set`, and whether it was made.
unfoldable pub write_property : Platform → Bytes → Bytes → World → World × Bool
write_property p name value w = elim (write_entry p w.props name value) [
  | none ↦ (w, false)
  | some pa ↦ (record w { props = pa }, true)
]

-- `strsep(&next, " ")` until it returns no more.
unfoldable pub split_words : Bytes → Bytes → List Bytes
split_words word [] = word ∷ []
split_words word (c ∷ cs) =
    let next = split_words (if c == b' ' then [] else word ++ c ∷ []) cs in
    if c == b' ' then word ∷ next else next

-- `arg_ptrs[arg_idx++] = bword; if (arg_idx == SVC_MAXARGS) break;`
unfoldable pub append_words : List Bytes → List Bytes → List Bytes
append_words args [] = args
append_words args (word ∷ words) =
    let more = append_words (args ++ word ∷ []) words in
    if length (args ++ word ∷ []) == svc_max_args then args ++ word ∷ [] else more

unfoldable pub child_argv : Service → Option Bytes → List Bytes
unfolding split_words append_words
child_argv svc none = svc.args
child_argv svc (some dynamic_args) = append_words svc.args (split_words [] dynamic_args)

abbrev program : List Bytes → Bytes
program [] = []
program (path ∷ rest) = path

unfoldable pub child_image : Service → Option Bytes → ChildImage
child_image svc dynamic_args = record {
  path = program svc.args;
  argv = child_argv svc dynamic_args;
  uid = svc.uid;
  gid = svc.gid;
  supp_gids = svc.supp_gids;
  needs_console = svc.flags.console;
}

-- The steps of a service's state, each an assignment or two of the source.
-- `svc->flags &= (~(SVC_DISABLED|SVC_RESTARTING)); svc->time_started = 0;`
abbrev pub clear_for_start : Service → Service
clear_for_start svc = record svc {
  flags = record svc.flags { disabled = false; restarting = false };
  time_started = 0;
}

abbrev pub disable : Service → Service
disable svc = record svc { flags = record svc.flags { disabled = true } }

abbrev pub mark_running : ℕ → ℕ → Service → Service
mark_running now pid svc = record svc {
  flags = record svc.flags { running = true };
  pid = pid;
  time_started = now;
}

abbrev pub mark_stopped : Service → Service
mark_stopped svc = record svc {
  flags = record svc.flags { running = false; restarting = false; disabled = true };
}

-- The process is gone; a one-shot service is disabled with it.
abbrev pub mark_exited : Service → Service
mark_exited svc = record svc {
  pid = 0;
  flags = record svc.flags { running = false; disabled = svc.flags.oneshot || svc.flags.disabled };
}

abbrev pub mark_restarting : Service → Service
mark_restarting svc = record svc { flags = record svc.flags { restarting = true } }

-- `svc->flags &= (~SVC_RESTARTING);`
abbrev pub mark_due : Service → Service
mark_due svc = record svc { flags = record svc.flags { restarting = false } }

abbrev pub critical_crash_threshold : ℕ
critical_crash_threshold = 4

abbrev pub critical_crash_window : ℕ
critical_crash_window = 4 * 60

-- The count of crashes within the window that began at `time_crashed`, for a critical service.
abbrev pub count_crash : ℕ → Service → Service
count_crash now svc =
    if svc.flags.critical
    then (if leb now (svc.time_crashed + critical_crash_window)
        then record svc { nr_crashed = svc.nr_crashed + 1 }
        else record svc { time_crashed = now; nr_crashed = 1 })
    else svc

-- Whether a critical service has crashed too often: only inside the window.
abbrev pub is_doomed : ℕ → Service → Bool
is_doomed now svc =
    svc.flags.critical
    && leb now (svc.time_crashed + critical_crash_window)
    && ltb critical_crash_threshold (svc.nr_crashed + 1)

-- `unlink` of every socket of a service
unfoldable pub unlink_sockets : List SocketInfo → World → World
unlink_sockets [] w = w
unlink_sockets (si ∷ rest) w = unlink_sockets rest (emit (unlinked si.name) w)

-- The index of the first service with the process.
unfoldable pub service_find_by_pid : List Service → ℕ → Option ℕ
service_find_by_pid [] pid = none
service_find_by_pid (svc ∷ rest) pid =
    if svc.pid == pid
    then some 0
    else elim (service_find_by_pid rest pid) [ none ↦ none | some i ↦ some (suc i) ]

module _ (p : Platform) (drain : World → Run World) where
  unfoldable pub property_changed : Bytes → Bytes → World → Run World
  property_changed name value w =
      if w.triggers_enabled then drain (queue_property_triggers name value w) else done w

  -- Behind a successful write: a `net.` property is noted in `net.change`, by a call of `property_set`
  -- that returns right behind its write, and a `persist.` property is saved.
  unfoldable pub note_change : Bytes → Bytes → World → World
  note_change name value w =
      if starts_with name (codes "net.")
      then (write_property p (codes "net.change") name w).0
      else if w.persistent_loaded && starts_with name (codes "persist.")
      then emit (saved name value) w
      else w

  unfoldable pub property_set : Bytes → Bytes → World → Run World
  unfolding write_property note_change property_changed
  property_set name value w =
      let (w', written) = write_property p name value w in
      if not written
      then done w
      else if starts_with name (codes "net.") && streq (codes "net.change") name
      then done w'
      else property_changed name value (note_change name value w')

  unfoldable pub notify_service_state : Bytes → Bytes → World → Run World
  notify_service_state name state w =
      if ltb p.prop_name_max (length name + 10)
      then done w
      else property_set (codes "init.svc." ++ name) state w

  -- Behind the tests of `service_start`: the fork.
  unfoldable pub spawn : ℕ → Service → Option Bytes → World → Run World
  unfolding notify_service_state
  spawn i svc dynamic_args w = elim (p.fork w.calls) [
    | none ↦ done (put_service (ask w) i (record svc { pid = 0 }))
    | some pid ↦
        let now = p.clock (w.calls + 1) in
        let image = child_image svc dynamic_args in
        let w' =
          put_service (emit (spawned pid image) (ask (ask w))) i (mark_running now pid svc) in
        notify_service_state svc.name (codes "running") w'
  ]

  unfoldable pub is_given : Option Bytes → Bool
  is_given none = false
  is_given (some _) = true

  unfoldable pub start : ℕ → Service → Option Bytes → World → Run World
  unfolding spawn is_given
  start i svc0 dynamic_args w =
      let svc = clear_for_start svc0 in
      if svc.flags.running
      then done (put_service w i svc)
      else if svc.flags.console && not w.have_console
      then done (put_service w i (disable svc))
      else if not (p.stat w.calls (program svc.args))
      then done (put_service (ask w) i (disable svc))
      else if not svc.flags.oneshot && is_given dynamic_args
      then done (put_service (ask w) i (disable svc))
      else spawn i svc dynamic_args (ask w)

  unfoldable pub stop : ℕ → Service → World → Run World
  unfolding notify_service_state
  stop i svc w =
      let w' = put_service w i (mark_stopped svc) in
      if not (svc.pid == 0)
      then notify_service_state svc.name (codes "stopping") (emit (terminated svc.pid) w')
      else notify_service_state svc.name (codes "stopped") w'

  -- A function of a service, at the service with an index.
  abbrev pub at_service : ℕ → (Service → World → Run World) → World → Run World
  at_service i f w = elim (get_elem? w.services i) [ none ↦ done w | some svc ↦ f svc w ]

  unfoldable pub service_start : ℕ → Option Bytes → World → Run World
  service_start i dynamic_args = at_service i (λ svc. start i svc dynamic_args)

  unfoldable pub service_stop : ℕ → World → Run World
  service_stop i = at_service i (stop i)

  unfoldable pub restart_service_if_needed : ℕ → Service → World → Run World
  unfolding service_start
  restart_service_if_needed i svc w =
      let next = svc.time_started + 5 in
      if leb next (p.clock w.calls)
      then service_start i none (put_service (ask w) i (mark_due svc))
      else if ltb next w.needs_restart || w.needs_restart == 0
      then done (record (ask w) { needs_restart = next })
      else done (ask w)

-- `list_for_each` over the services from index `i` on: the list is read anew at each turn, since
-- what is called may add to it.
unfoldable pub service_for_each_from :
    (Service → Bool) → (ℕ → Service → World → Run World) → ℕ → ℕ → World → Run World
service_for_each_from test f zero i w = no_fuel
service_for_each_from test f (suc fuel) i w = elim (get_elem? w.services i) [
  | none ↦ done w
  | some svc ↦ (if test svc then f i svc w else done w) >>= λ w'.
      service_for_each_from test f fuel (i + 1) w'
]
