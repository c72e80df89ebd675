-- ===== src/Init/Machine/ServiceSteps.antt =====
-- Setting a property and starting or stopping a service make only the moves of Steps
-- (android2.1_init/init/property_service.c and init.c).
use demonstratortool.Base.{
  ℕ, zero, suc, ◌+◌, ◌≡◌, refl, ap, ◌∙◌, if◌then◌else◌, arith, true, inl, inr, Bool, false, not,
  ◌&&◌, ◌||◌, Option, none, some, List, [], ◌∷◌, ◌++◌, ltb, leb, ◌==◌, Option-cases, length,
  get_elem?, Bytes, codes, streq, starts_with,
}
use demonstratortool.Init.Platform.{Platform, IsPlatform}
use demonstratortool.Init.Config.{Service, Action}
use demonstratortool.Init.Properties.{write_entry}
use demonstratortool.Init.Queue.{action_add_queue_tail, queue_matching, queue_property_triggers}
use demonstratortool.Init.Services.{
  write_property, property_changed, note_change, property_set, notify_service_state, spawn, start,
  stop, at_service, service_start, service_stop, restart_service_if_needed, service_for_each_from,
  clear_for_start, child_image,
}
use demonstratortool.Init.World.{World, Run, put_service, emit, ask, spawned}
use demonstratortool.Init.Machine.Steps.{
  Change, start_again, start_refused, start_failed, started, stopped, restart_due, service,
  property, enqueue, quiet, Steps, here, one, both, Reaches, Reaches-bind, Reaches-after,
  Reaches-if, Steps-if, ends, out_of_fuel,
}

pub quiet_step :
    (p : Platform) {w w' : World}
    → w'.config ≡ w.config
    → w'.props ≡ w.props
    → w'.queue ≡ w.queue
    → Steps p w w'
quiet_step p a b c = one (quiet (record { same_config = a; same_props = b; same_queue = c }))

queued_actions :
    (b : Bool) (i : ℕ) (w : World)
    → (if b then action_add_queue_tail i w else w).actions ≡ w.actions
unfolding action_add_queue_tail
queued_actions true i w = refl
queued_actions false i w = refl

-- The actions from index `i` on.
queue_from :
    (p : Platform) (test : Bytes → Bool) (acts : List Action) (i : ℕ) (w : World)
    → ((k : ℕ) (a : Action) → get_elem? acts k ≡ some a → get_elem? w.actions (i + k) ≡ some a)
    → Steps p w (queue_matching test acts i w)
unfolding queue_matching
queue_from p test [] i w h = here
queue_from p test (act ∷ rest) i w h =
    let first : get_elem? w.actions i ≡ some act =
      ap (get_elem? w.actions) (omega arith) ∙ h 0 act refl in
    both (Steps-if p (test act.name) (λ _. one (enqueue i act first)) (λ _. here)) (
      queue_from p test rest (i + 1) _ λ k a e.
        ap (λ l. get_elem? l (i + 1 + k)) (queued_actions (test act.name) i w)
        ∙ ap (get_elem? w.actions) (omega arith)
        ∙ h (suc k) a e)

pub queue_matching-Steps :
    (p : Platform) (test : Bytes → Bool) (w : World) → Steps p w (queue_matching test w.actions 0 w)
queue_matching-Steps p test w =
    queue_from p test w.actions 0 w (λ k a e. ap (get_elem? w.actions) (omega arith) ∙ e)

write_property-Steps :
    (p : Platform) (name value : Bytes) (w : World) → Steps p w (write_property p name value w).0
unfolding write_property
write_property-Steps p name value w = elim (Option-cases (write_entry p w.props name value)) [
  | inl e ↦ rw (e, write_property) here
  | inr (pa, e) ↦ rw (e, write_property) (one (property name value pa e))
]

note_change-Steps :
    (p : Platform) (drain : World → Run World) (name value : Bytes) (w : World)
    → Steps p w (note_change p drain name value w)
unfolding note_change
note_change-Steps p drain name value w =
    Steps-if p (starts_with name (codes "net."))
      (λ _. write_property-Steps p (codes "net.change") name w)
      λ _.
        Steps-if p (w.persistent_loaded && starts_with name (codes "persist."))
          (λ _. quiet_step p refl refl refl) (λ _. here)

-- Calls outside, and then a change of a service.
pub put_after :
    (p : Platform) {w : World} (w' : World) (i : ℕ) {svc svc' : Service}
    → w'.config ≡ w.config
    → w'.props ≡ w.props
    → w'.queue ≡ w.queue
    → get_elem? w'.services i ≡ some svc
    → Change svc svc'
    → Steps p w (put_service w' i svc')
put_after p w' i {svc} {svc'} a b q at c = both (quiet_step p a b q) (one (service i svc svc' at c))

-- The parts take `drain` as a parameter, and hold for any that makes such moves only.
module _ (p : Platform) (ok : IsPlatform p) (drain : World → Run World)
    (drain-Reaches : (w : World) → Reaches p w (drain w)) where
  property_changed-Reaches :
      (name value : Bytes) (w : World) → Reaches p w (property_changed p drain name value w)
  unfolding property_changed queue_property_triggers
  property_changed-Reaches name value w =
      Reaches-if p w.triggers_enabled
        (λ _. Reaches-after p (queue_matching-Steps p _ w) (drain-Reaches _)) (λ _. ends here)

  pub property_set-Reaches :
      (name value : Bytes) (w : World) → Reaches p w (property_set p drain name value w)
  unfolding property_set
  property_set-Reaches name value w =
      let wrote = write_property-Steps p name value w in
      Reaches-if p (not (write_property p name value w).1) (λ _. ends here)
        λ _.
          Reaches-if p (starts_with name (codes "net.") && streq (codes "net.change") name)
            (λ _. ends wrote)
            λ _.
              Reaches-after p (both wrote (note_change-Steps p drain name value _))
                (property_changed-Reaches name value _)

  pub notify_service_state-Reaches :
      (name state : Bytes) (w : World) → Reaches p w (notify_service_state p drain name state w)
  unfolding notify_service_state
  notify_service_state-Reaches name state w =
      Reaches-if p (ltb p.prop_name_max (length name + 10)) (λ _. ends here)
        (λ _. property_set-Reaches (codes "init.svc." ++ name) state w)

  spawn-Reaches :
      (i : ℕ) (svc : Service) (dynamic_args : Option Bytes) (w : World)
      → get_elem? w.services i ≡ some svc
      → svc.flags.running ≡ false
      → Reaches p w (spawn p drain i (clear_for_start svc) dynamic_args w)
  unfolding spawn
  spawn-Reaches i svc dynamic_args w at idle = elim (Option-cases (p.fork w.calls)) [
    | inl e ↦ rw (e, spawn) (ends (put_after p (ask w) i refl refl refl at (start_failed idle)))
    | inr (pid, e) ↦
        let image = child_image (clear_for_start svc) dynamic_args in
        rw (e, spawn)
          (Reaches-after p
            (put_after p (emit (spawned pid image) (ask (ask w))) i refl refl refl at
              (started (p.clock (w.calls + 1)) pid idle (ok.fork-pid w.calls pid e)))
            (notify_service_state-Reaches svc.name (codes "running") _))
  ]

  pub start-Reaches :
      (i : ℕ) (svc : Service) (dynamic_args : Option Bytes) (w : World)
      → get_elem? w.services i ≡ some svc
      → Reaches p w (start p drain i svc dynamic_args w)
  unfolding start
  start-Reaches i svc dynamic_args w at =
      Reaches-if p svc.flags.running (λ e. ends (put_after p w i refl refl refl at (start_again e)))
        λ e.
          Reaches-if p (svc.flags.console && not w.have_console)
            (λ _. ends (put_after p w i refl refl refl at (start_refused e)))
            λ _.
              Reaches-if p (not (p.stat w.calls _))
                (λ _. ends (put_after p (ask w) i refl refl refl at (start_refused e)))
                λ _.
                  Reaches-if p (not svc.flags.oneshot && _)
                    (λ _. ends (put_after p (ask w) i refl refl refl at (start_refused e)))
                    λ _.
                      Reaches-after p (quiet_step p refl refl refl)
                        (spawn-Reaches i svc dynamic_args (ask w) at e)

  pub stop-Reaches :
      (i : ℕ) (svc : Service) (w : World)
      → get_elem? w.services i ≡ some svc
      → Reaches p w (stop p drain i svc w)
  unfolding stop
  stop-Reaches i svc w at =
      let put = put_after p w i refl refl refl at stopped in
      Reaches-if p (not (svc.pid == 0))
        (λ _.
          Reaches-after p (both put (quiet_step p refl refl refl))
            (notify_service_state-Reaches svc.name (codes "stopping") _))
        (λ _. Reaches-after p put (notify_service_state-Reaches svc.name (codes "stopped") _))

  pub at_service-Reaches :
      (i : ℕ) (f : Service → World → Run World) (w : World)
      → ((svc : Service) → get_elem? w.services i ≡ some svc → Reaches p w (f svc w))
      → Reaches p w (at_service p drain i f w)
  at_service-Reaches i f w h = elim (Option-cases (get_elem? w.services i)) [
    | inl e ↦ rw (e, at_service) (ends here)
    | inr (svc, e) ↦ rw (e, at_service) (h svc e)
  ]

  pub service_start-Reaches :
      (i : ℕ) (dynamic_args : Option Bytes) (w : World)
      → Reaches p w (service_start p drain i dynamic_args w)
  unfolding service_start
  service_start-Reaches i dynamic_args w =
      at_service-Reaches i (λ svc. start p drain i svc dynamic_args) w
        (λ svc at. start-Reaches i svc dynamic_args w at)

  pub service_stop-Reaches : (i : ℕ) (w : World) → Reaches p w (service_stop p drain i w)
  unfolding service_stop
  service_stop-Reaches i w = at_service-Reaches i (stop p drain i) w (λ svc. stop-Reaches i svc w)

  pub restart_service_if_needed-Reaches :
      (i : ℕ) (svc : Service) (w : World)
      → get_elem? w.services i ≡ some svc
      → Reaches p w (restart_service_if_needed p drain i svc w)
  unfolding restart_service_if_needed
  restart_service_if_needed-Reaches i svc w at =
      Reaches-if p (leb (svc.time_started + 5) (p.clock w.calls))
        (λ _.
          Reaches-after p (put_after p (ask w) i refl refl refl at restart_due)
            (service_start-Reaches i none _))
        λ _.
          Reaches-if p (ltb (svc.time_started + 5) w.needs_restart || w.needs_restart == 0)
            (λ _. ends (quiet_step p refl refl refl)) (λ _. ends (quiet_step p refl refl refl))

  pub service_for_each_from-Reaches :
      (test : Service → Bool) (f : ℕ → Service → World → Run World) (fuel i : ℕ) (w : World)
      → ((i : ℕ) (svc : Service) (w : World)
          → get_elem? w.services i ≡ some svc
          → Reaches p w (f i svc w))
      → Reaches p w (service_for_each_from test f fuel i w)
  unfolding service_for_each_from
  service_for_each_from-Reaches test f zero i w h = out_of_fuel
  service_for_each_from-Reaches test f (suc fuel) i w h =
      elim (Option-cases (get_elem? w.services i)) [
        | inl e ↦ rw (e, service_for_each_from) (ends here)
        | inr (svc, e) ↦
            rw (e, service_for_each_from)
              (Reaches-bind p (service_for_each_from test f fuel (i + 1))
                (Reaches-if p (test svc) (λ _. h i svc w e) (λ _. ends here))
                (λ w'. service_for_each_from-Reaches test f fuel (i + 1) w' h))
      ]
