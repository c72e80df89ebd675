-- ===== src/Init/Boot.antt =====
-- The start of `main` in android2.1_init/init/init.c, up to its loop, with what it reads. The area of
-- properties is taken to be there from the start; mounts, sockets and the image on the screen are left
-- out.
pub mod Valid
use demonstratortool.Base.{
  ℕ, zero, suc, ◌+◌, ◌-◌, ◌*◌, ◌/◌, ◌%◌, ◌^◌, ◌≤◌, ◌<◌, String, ◌≡◌, refl, sym, ap, ◌∙◌, subst, ◌≢◌,
  ◌↔◌, ◌⊎◌, inl, inr, Bool, true, false, not, ◌&&◌, ◌||◌, Option, none, some, List, [], ◌∷◌, ◌++◌,
  map, arith, ltb, leb, ◌==◌, if◌then◌else◌, ==_iff, ==_refl, ltb_iff, leb_iff, Bool-cases,
  Option-cases, length, get_elem?, set, take, drop, All, length-append, length-map, length-tail-le,
  length-set, get_elem?-set_self, get_elem?-set_ne, get_elem?-lt-length, get_elem?-append_self,
  All-append, All-get_elem?, All-set, Bytes, codes, streq, starts_with, strchr, is_space, is_alpha,
  is_digit, is_alnum, streq_iff, streq_refl, starts_with-append, strchr-append, ulong_mod,
  digit_value, strtoul, atoi, strtol, has_number, skip_spaces, drop-append, take-append, drop-drop,
  drop-set, length-drop, length-take, length-take-le, take-all, All-drop, pick, pick_by, Lacks,
  strchr-first, append-nil, append_assoc,
}
use demonstratortool.Init.Platform.{Platform}
use demonstratortool.Init.World.{World, Run, done, ◌>>=◌}
use demonstratortool.Init.Config.{Config}
use demonstratortool.Init.Links.{list_init}
use demonstratortool.Init.Properties.{PropArea, property_get}
use demonstratortool.Init.Queue.{queue_trigger, queue_all_property_triggers}
use demonstratortool.Init.Services.{property_set}
use demonstratortool.Init.Builtins.{parse_config_file}
use demonstratortool.Init.Devices.Table.{DeviceIds}
use demonstratortool.Init.Load.{DirEntry, load_properties_from_file, start_property_service}
use demonstratortool.Init.Keychords.{open_keychord}
use demonstratortool.Init.Options.{
  Options, no_options, option_parts, kernel_options, import_options, get_hardware_name, decimal,
}
use demonstratortool.Init.Machine.{Input, drain_action_queue, handle_all}

-- What the start of init meets: the paths of <sys/_system_properties.h>, whether `HAVE_DIRENT_D_TYPE` is
-- set, the directory of persistent properties, /proc/cmdline, /proc/cpuinfo, and whether the console
-- opens.
pub record Host : Type 0 where
  pub ids : DeviceIds
  pub ramdisk_default : Bytes
  pub system_build : Bytes
  pub system_default : Bytes
  pub local_override : Bytes
  pub have_type : Bool
  pub persistent : Option (List DirEntry)
  pub cmdline : Option Bytes
  pub cpuinfo : Option Bytes
  pub console_opens : Bool

abbrev or_unknown : Bytes → Bytes
or_unknown s = if length s == 0 then codes "unknown" else s

abbrev factory_test : Bytes → Bytes
factory_test mode =
    if streq mode (codes "factory")
    then codes "1"
    else if streq mode (codes "factory2")
    then codes "2"
    else codes "0"

-- Before the first service: lists, properties and queue are empty.
abbrev pub first_world : World
first_world = record {
  config = record { services = []; actions = []; errors = [] };
  props = record { entries = []; toc = []; serial = 0 };
  persistent_loaded = false;
  queue = list_init (record { next = λ j. j; prev = λ j. j }) 0;
  triggers_enabled = false;
  have_console = false;
  needs_restart = 0;
  env = [];
  log_level = 3;
  calls = 0;
  trace = [];
}

module _ (p : Platform) (fuel : ℕ) (host : Host) where
  abbrev drain : World → Run World
  drain = drain_action_queue p fuel

  -- The options of the kernel, and those of /proc/cpuinfo.
  unfoldable pub options : Options
  unfolding import_options kernel_options get_hardware_name
  options =
      get_hardware_name host.cpuinfo
        (import_options host.ids (kernel_options host.cmdline) no_options)

  -- `import_kernel_nv(name, 1)`, where the name fits an array of 32 bytes.
  unfoldable pub export_option : Bytes → World → Run World
  unfolding option_parts
  export_option option w = elim (option_parts option) [
    | none ↦ done w
    | some (name, value) ↦
        if ltb (length (codes "ro.kernel." ++ name)) 32
        then property_set p drain (codes "ro.kernel." ++ name) value w
        else done w
  ]

  unfoldable pub export_options : List Bytes → World → Run World
  unfolding export_option
  export_options [] w = done w
  export_options (option ∷ rest) w = export_option option w >>= export_options rest

  unfoldable pub set_boot_properties : Options → World → Run World
  unfolding decimal
  set_boot_properties o w =
      property_set p drain (codes "ro.factorytest") (factory_test o.bootmode) w
      >>= property_set p drain (codes "ro.serialno") o.serialno
      >>= property_set p drain (codes "ro.bootmode") (or_unknown o.bootmode)
      >>= property_set p drain (codes "ro.baseband") (or_unknown o.baseband)
      >>= property_set p drain (codes "ro.carrier") (or_unknown o.carrier)
      >>= property_set p drain (codes "ro.bootloader") (or_unknown o.bootloader)
      >>= property_set p drain (codes "ro.hardware") o.hardware
      >>= property_set p drain (codes "ro.revision") (decimal o.revision)

  -- `action_for_each_trigger(trigger, action_add_queue_tail); drain_action_queue();`
  unfoldable pub pull_trigger : Bytes → World → Run World
  pull_trigger trigger w = drain (queue_trigger trigger w)

  -- Keychords are given only if ro.debuggable is 1.
  unfoldable pub open_if_debuggable : World → World
  unfolding open_keychord
  open_if_debuggable w = elim (property_get p w.props (codes "ro.debuggable")) [
    | none ↦ w
    | some value ↦ if streq value (codes "1") then (open_keychord w).0 else w
  ]

  unfoldable pub read_config : World → Run World
  unfolding options
  read_config w =
      parse_config_file p (codes "/init.rc") w
      >>= parse_config_file p
          (take (p.prop_value_max - 1) (codes "/init." ++ (options.hardware ++ codes ".rc")))
      >>= pull_trigger (codes "early-init")

  -- From `property_init` to the console.
  unfoldable pub read_defaults : World → Run World
  unfolding open_if_debuggable
  read_defaults w = load_properties_from_file p drain host.ramdisk_default w >>= λ (w' : World).
      done (record (open_if_debuggable w') { have_console = host.console_opens })

  -- From the options of the kernel in the emulator to the actions for "init".
  unfoldable pub init_properties : World → Run World
  unfolding options export_options set_boot_properties pull_trigger
  init_properties w =
      export_options (if length options.qemu == 0 then [] else kernel_options host.cmdline) w
      >>= set_boot_properties options
      >>= pull_trigger (codes "init")

  -- From `start_property_service` to the loop.
  unfoldable pub start_services : World → Run World
  unfolding pull_trigger
  start_services w =
      start_property_service p drain host.system_build host.system_default host.local_override
        host.have_type host.persistent w
      >>= λ (w' : World).
          drain (queue_trigger (codes "boot") (queue_trigger (codes "early-boot") w'))
          >>= λ (w' : World). drain (queue_all_property_triggers p w') >>= λ (w' : World).
              done (record w' { triggers_enabled = true })

  -- `main`, for what comes in its loop.
  unfoldable pub main : List Input → Run World
  unfolding read_config read_defaults init_properties start_services
  main inputs =
      read_config first_world
      >>= read_defaults
      >>= init_properties
      >>= start_services
      >>= handle_all p fuel inputs
