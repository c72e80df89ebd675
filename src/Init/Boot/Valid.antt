-- ===== src/Init/Boot/Valid.antt =====
-- What holds from the start of `main` on (android2.1_init/init/init.c).
use demonstratortool.Base.{
  ℕ, zero, suc, ◌+◌, ◌-◌, ◌≡◌, refl, inl, inr, Bool, Option, none, some, List, [], ◌∷◌, ◌++◌, arith,
  ltb, Option-cases, length, get_elem?, Bytes, codes, streq,
}
use demonstratortool.Init.Platform.{Platform, IsPlatform}
use demonstratortool.Init.World.{World, Run, done, no_fuel, bad_argument, ask}
use demonstratortool.Init.Config.{Service}
use demonstratortool.Init.Properties.{property_get}
use demonstratortool.Init.Properties.Area.{IsSized}
use demonstratortool.Init.Queue.{queue_trigger, queue_all_property_triggers}
use demonstratortool.Init.Services.{property_set}
use demonstratortool.Init.Load.{
  DirEntry, is_persistent, until_nul, set_all, load_properties, load_properties_from_file,
  load_entries, load_persistent_properties, start_property_service,
}
use demonstratortool.Init.Keychords.{Keychord, add_service_keycodes, keycodes_from, open_keychord}
use demonstratortool.Init.Options.{Options, option_parts}
use demonstratortool.Init.Machine.{Input, drain_action_queue}
use demonstratortool.Init.Machine.Steps.{
  Steps, service, keychord_given, here, one, both, Reaches, Reaches-bind, Reaches-after, Reaches-if,
  Steps-if, ends, out_of_fuel, faults,
}
use demonstratortool.Init.Machine.ServiceSteps.{
  quiet_step, queue_matching-Steps, property_set-Reaches,
}
use demonstratortool.Init.Machine.CommandSteps.{parse_config_file-Reaches}
use demonstratortool.Init.Machine.DrainSteps.{drain_action_queue-Reaches, handle_all-Reaches}
use demonstratortool.Init.Machine.Invariant.{IsWorld, Steps-IsWorld}
use demonstratortool.Init.Boot.{
  Host, first_world, export_option, export_options, set_boot_properties, pull_trigger,
  open_if_debuggable, options, read_config, read_defaults, init_properties, start_services, main,
}

add_service_keycodes-Steps :
    (p : Platform) (i : ℕ) (svc : Service) (codes' : List ℕ) (ks : List Keychord) (w : World)
    → get_elem? w.services i ≡ some svc
    → svc.keycodes ≡ codes'
    → Steps p w (add_service_keycodes i svc ks w).0
unfolding add_service_keycodes
add_service_keycodes-Steps p i svc [] ks w at e = rw (add_service_keycodes, e) here
add_service_keycodes-Steps p i svc (c ∷ cs) ks w at e =
    rw (add_service_keycodes, e) (one (service i svc _ at (keychord_given _)))

keycodes_from-Steps :
    (p : Platform) (n i : ℕ) (ks : List Keychord) (w : World) → Steps p w (keycodes_from n i ks w).0
unfolding keycodes_from
keycodes_from-Steps p zero i ks w = here
keycodes_from-Steps p (suc n) i ks w = elim (Option-cases (get_elem? w.services i)) [
  | inl e ↦ rw (e, keycodes_from) here
  | inr (svc, e) ↦
      rw (e, keycodes_from)
        (both (add_service_keycodes-Steps p i svc svc.keycodes ks w e refl)
          (keycodes_from-Steps p n (i + 1) _ _))
]

module _ (p : Platform) (ok : IsPlatform p) (fuel : ℕ) where
  abbrev drained : World → Run World
  drained = drain_action_queue p fuel

  set-Reaches : (name value : Bytes) (w : World) → Reaches p w (property_set p drained name value w)
  set-Reaches name value w =
      property_set-Reaches p ok drained (drain_action_queue-Reaches p ok fuel) name value w

  set_all-Reaches : (ss : List (Bytes × Bytes)) (w : World) → Reaches p w (set_all p drained ss w)
  unfolding set_all
  set_all-Reaches [] w = ends here
  set_all-Reaches ((name, value) ∷ rest) w =
      Reaches-bind p (set_all p drained rest) (set-Reaches name value w) (set_all-Reaches rest)

  load_properties_from_file-Reaches :
      (fn : Bytes) (w : World) → Reaches p w (load_properties_from_file p drained fn w)
  unfolding load_properties_from_file load_properties
  load_properties_from_file-Reaches fn w = elim (Option-cases (p.contents w.calls fn)) [
    | inl e ↦ rw (e, load_properties_from_file) (ends (quiet_step p refl refl refl))
    | inr (file, e) ↦
        rw (e, load_properties_from_file)
          (Reaches-after p (quiet_step p refl refl refl) (set_all-Reaches _ (ask w)))
  ]

  load_entries-Reaches :
      (have_type : Bool) (es : List DirEntry) (w : World)
      → Reaches p w (load_entries p drained have_type es w)
  unfolding load_entries
  load_entries-Reaches have_type [] w = ends here
  load_entries-Reaches have_type (x ∷ es) w =
      Reaches-if p (is_persistent have_type x)
        (λ _. elim (Option-cases (x.read (p.prop_value_max - 1))) [
          | inl e ↦ rw e (load_entries-Reaches have_type es w)
          | inr (value, e) ↦ rw e (
              Reaches-bind p (load_entries p drained have_type es)
                (set-Reaches x.name (until_nul value) w) (load_entries-Reaches have_type es))
        ])
        (λ _. load_entries-Reaches have_type es w)

  load_persistent_properties-Reaches :
      (have_type : Bool) (dir : Option (List DirEntry)) (w : World)
      → Reaches p w (load_persistent_properties p drained have_type dir w)
  unfolding load_persistent_properties
  load_persistent_properties-Reaches have_type none w = ends (quiet_step p refl refl refl)
  load_persistent_properties-Reaches have_type (some es) w =
      Reaches-bind p _ (load_entries-Reaches have_type es w)
        (λ w'. ends (quiet_step p refl refl refl))

  export_options-Reaches :
      (host : Host) (os : List Bytes) (w : World) → Reaches p w (export_options p fuel host os w)
  unfolding export_options export_option
  export_options-Reaches host [] w = ends here
  export_options-Reaches host (option ∷ rest) w =
      Reaches-bind p (export_options p fuel host rest)
        (elim (Option-cases (option_parts option)) [
          | inl e ↦ rw (e, export_option) (ends here)
          | inr ((name, value), e) ↦
              rw (e, export_option)
                (Reaches-if p (ltb (length (codes "ro.kernel." ++ name)) 32)
                  (λ _. set-Reaches (codes "ro.kernel." ++ name) value w) (λ _. ends here))
        ])
        (export_options-Reaches host rest)

  pull_trigger-Reaches :
      (host : Host) (trigger : Bytes) (w : World) → Reaches p w (pull_trigger p fuel host trigger w)
  unfolding pull_trigger queue_trigger
  pull_trigger-Reaches host trigger w =
      Reaches-after p (queue_matching-Steps p _ w) (drain_action_queue-Reaches p ok fuel _)

  set_boot_properties-Reaches :
      (host : Host) (o : Options) (w : World) → Reaches p w (set_boot_properties p fuel host o w)
  unfolding set_boot_properties
  set_boot_properties-Reaches host o w =
      Reaches-bind p _
        (Reaches-bind p _
          (Reaches-bind p _
            (Reaches-bind p _
              (Reaches-bind p _
                (Reaches-bind p _ (Reaches-bind p _ (set-Reaches _ _ w) (set-Reaches _ _))
                  (set-Reaches _ _))
                (set-Reaches _ _))
              (set-Reaches _ _))
            (set-Reaches _ _))
          (set-Reaches _ _))
        (set-Reaches _ _)

  open_if_debuggable-Steps :
      (host : Host) (w : World) → Steps p w (open_if_debuggable p fuel host w)
  unfolding open_if_debuggable open_keychord
  open_if_debuggable-Steps host w =
      elim (Option-cases (property_get p w.props (codes "ro.debuggable"))) [
        | inl e ↦ rw (e, open_if_debuggable) here
        | inr (value, e) ↦
            rw (e, open_if_debuggable)
              (Steps-if p (streq value (codes "1"))
                (λ _. keycodes_from-Steps p (length w.services) 0 [] w) (λ _. here))
      ]

  read_config-Reaches : (host : Host) (w : World) → Reaches p w (read_config p fuel host w)
  unfolding read_config
  read_config-Reaches host w =
      Reaches-bind p _
        (Reaches-bind p _ (parse_config_file-Reaches p (codes "/init.rc") w)
          (parse_config_file-Reaches p _))
        (pull_trigger-Reaches host (codes "early-init"))

  read_defaults-Reaches : (host : Host) (w : World) → Reaches p w (read_defaults p fuel host w)
  unfolding read_defaults
  read_defaults-Reaches host w =
      Reaches-bind p _ (load_properties_from_file-Reaches host.ramdisk_default w)
        λ w'. ends (both (open_if_debuggable-Steps host w') (quiet_step p refl refl refl))

  init_properties-Reaches : (host : Host) (w : World) → Reaches p w (init_properties p fuel host w)
  unfolding init_properties
  init_properties-Reaches host w =
      Reaches-bind p _
        (Reaches-bind p _ (export_options-Reaches host _ w)
          (set_boot_properties-Reaches host (options p fuel host)))
        (pull_trigger-Reaches host (codes "init"))

  start_services-Reaches : (host : Host) (w : World) → Reaches p w (start_services p fuel host w)
  unfolding start_services start_property_service queue_trigger queue_all_property_triggers
  start_services-Reaches host w =
      Reaches-bind p _
        (Reaches-bind p _
          (Reaches-bind p _
            (Reaches-bind p _ (load_properties_from_file-Reaches host.system_build w)
              (load_properties_from_file-Reaches host.system_default))
            (load_properties_from_file-Reaches host.local_override))
          (load_persistent_properties-Reaches host.have_type host.persistent))
        λ a.
          Reaches-bind p _
            (Reaches-after p (both (queue_matching-Steps p _ a) (queue_matching-Steps p _ _))
              (drain_action_queue-Reaches p ok fuel _))
            λ b.
              Reaches-bind p _
                (Reaches-after p (queue_matching-Steps p _ b)
                  (drain_action_queue-Reaches p ok fuel _))
                (λ c. ends (quiet_step p refl refl refl))

  main-Reaches :
      (host : Host) (inputs : List Input) → Reaches p first_world (main p fuel host inputs)
  unfolding main
  main-Reaches host inputs =
      Reaches-bind p _
        (Reaches-bind p _
          (Reaches-bind p _
            (Reaches-bind p _ (read_config-Reaches host first_world) (read_defaults-Reaches host))
            (init_properties-Reaches host))
          (start_services-Reaches host))
        (handle_all-Reaches p ok fuel inputs)

first_world-IsWorld : (p : Platform) → IsWorld p first_world
first_world-IsWorld p = record {
  config = record { services = tt; names = tt; actions = tt };
  props = record { valid = tt; names = tt; room = omega arith; indexed = refl };
}

-- The world in which a computation ends, if it ends, has a property.
abbrev pub Ends : (World → Type 0) → Run World → Type 0
Ends P (done w) = P w
Ends P no_fuel = Unit
Ends P bad_argument = Unit

Reaches-Ends :
    (p : Platform) (P : World → Type 0) {w : World} {m : Run World}
    → ((w' : World) → Steps p w w' → P w')
    → Reaches p w m
    → Ends P m
Reaches-Ends p P k (ends {w'} s) = k w' s
Reaches-Ends p P k out_of_fuel = tt
Reaches-Ends p P k faults = tt

-- If the platform is as described and a value leaves room in the serial number, then whatever init reads
-- at its start and whatever it handles after it, when it is done the configuration and the property area
-- are valid.
pub main-IsWorld :
    (p : Platform) (fuel : ℕ) (host : Host) (inputs : List Input)
    → IsPlatform p
    → IsSized p
    → Ends (IsWorld p) (main p fuel host inputs)
main-IsWorld p fuel host inputs ok sized =
    Reaches-Ends p (IsWorld p) (λ w s. Steps-IsWorld p ok sized s (first_world-IsWorld p))
      (main-Reaches p ok fuel host inputs)
