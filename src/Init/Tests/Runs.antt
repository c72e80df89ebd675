-- ===== src/Init/Tests/Runs.antt =====
-- A run of the main loop of android2.1_init/init.
use demonstratortool.Base.{
  ◌≡◌, refl, false, some, List, [], ◌∷◌, ◌++◌, arith, codes, streq, starts_with, strchr,
}
use demonstratortool.Init.Links.{Links, list_init, list_empty, list_head}
use demonstratortool.Init.Links.Ring.{IsRing, list_init-IsRing, list_add_tail-IsRing}
use demonstratortool.Init.Keywords.{Keyword}
use demonstratortool.Init.Config.{Service}
use demonstratortool.Init.World.{World, done, no_fuel}
use demonstratortool.Init.Queue.{
  action_remove_queue_head, matches_property, queue_matching, queue_property_triggers,
  action_add_queue_tail,
}
use demonstratortool.Init.Properties.Lookup.{value_of}
use demonstratortool.Init.Machine.{
  split_message, msg_start, handle_control_message, handle_property_set, handle, Input, request,
  handle_all, drain_action_queue,
}
use demonstratortool.Init.Machine.Steps.{Reaches}
use demonstratortool.Init.Machine.DrainSteps.{handle_all-Reaches}
use demonstratortool.Init.Machine.Invariant.{IsWorld, handle_all-IsWorld}
use demonstratortool.Init.Machine.ReadOnly.{handle_all-read_only}
use demonstratortool.Init.Machine.Drain.{drain_action_queue-requeue}
use demonstratortool.Init.Tests.Given.{
  device, boot_world, device-IsPlatform, device-IsSized, boot_config-IsConfig, boot_props-IsArea,
  find_entry, boot_config, ril_daemon, secure,
}
use demonstratortool.Init.Properties.{
  search_control_perms, control_perms, search_property_perms, skip_ro, property_perms,
  new_prop_info, toc_entry, write_entry, check_perms, check_control_perms,
}
use demonstratortool.Init.World.{ChildImage, spawned}
use demonstratortool.Init.Parser.{service_find_by_name}
use demonstratortool.Init.Services.{
  is_given, child_argv, child_image, note_change, property_changed, write_property,
  notify_service_state, property_set, spawn, start, service_start, mark_running,
}

-- The system server starts the service and sets a property.
abbrev inputs : List Input
inputs =
    request (codes "ctl.start") (codes "ril") 1000 1000
    ∷ request (codes "hw.mode") (codes "1") 1000 1000
    ∷ []

abbrev running_ril : Service
running_ril = mark_running 102 41 ril_daemon

abbrev rild : ChildImage
rild = record {
  path = codes "/system/bin/rild";
  argv = codes "/system/bin/rild" ∷ [];
  uid = 0;
  gid = 0;
  supp_gids = [];
  needs_console = false;
}

abbrev ril_started : World
ril_started = record boot_world {
  config = record boot_config { services = running_ril ∷ [] };
  props = record {
    entries = secure ∷ new_prop_info (codes "init.svc.ril") (codes "running") ∷ [];
    toc = 0 ∷ toc_entry (codes "init.svc.ril") 1 ∷ [];
    serial = 1;
  };
  calls = 3;
  trace = spawned 41 rild ∷ [];
}

boot_world-IsWorld : IsWorld device boot_world
boot_world-IsWorld = record { config = boot_config-IsConfig; props = boot_props-IsArea }

abbrev final : World
final = record ril_started {
  props = record {
    entries = ril_started.props.entries ++ new_prop_info (codes "hw.mode") (codes "1") ∷ [];
    toc = ril_started.props.toc ++ toc_entry (codes "hw.mode") 2 ∷ [];
    serial = 2;
  };
}

starts :
    handle device 20 (request (codes "ctl.start") (codes "ril") 1000 1000) boot_world
    ≡ done ril_started
unfolding handle handle_property_set starts_with check_control_perms handle_control_message
    msg_start streq service_find_by_name service_start start spawn notify_service_state property_set
    write_property write_entry find_entry property_changed queue_property_triggers queue_matching
    matches_property drain_action_queue action_remove_queue_head list_head list_empty list_init
    new_prop_info toc_entry child_image child_argv split_message control_perms search_control_perms
    is_given note_change strchr
starts = refl

sets : handle device 20 (request (codes "hw.mode") (codes "1") 1000 1000) ril_started ≡ done final
unfolding handle handle_property_set starts_with check_perms property_perms skip_ro
    search_property_perms streq property_set write_property note_change write_entry find_entry
    property_changed queue_property_triggers queue_matching matches_property drain_action_queue
    action_remove_queue_head list_head list_empty list_init new_prop_info toc_entry
sets = refl

ends_well : handle_all device 20 inputs boot_world ≡ done final
unfolding handle_all
ends_well = rw (starts, sets) refl

handle_all-IsWorld_example : IsWorld device final
handle_all-IsWorld_example =
    handle_all-IsWorld device device-IsPlatform device-IsSized 20 inputs boot_world final
      boot_world-IsWorld ends_well

handle_all-Reaches_example : Reaches device boot_world (handle_all device 20 inputs boot_world)
handle_all-Reaches_example = handle_all-Reaches device device-IsPlatform 20 inputs boot_world

handle_all-read_only_example : value_of final.props.entries (codes "ro.secure") ≡ some (codes "1")
unfolding value_of streq starts_with
handle_all-read_only_example =
    handle_all-read_only device device-IsPlatform device-IsSized 20 inputs boot_world final
      (codes "ro.secure") (codes "1") boot_world-IsWorld ends_well refl refl

abbrev queued : World
queued = action_add_queue_tail 0 boot_world

queued-IsRing : IsRing queued.queue 0 (1 ∷ [])
unfolding action_add_queue_tail
queued-IsRing = list_add_tail-IsRing boot_world.queue 0 1 [] (list_init-IsRing _ 0) (ground arith)

abbrev two_actions : World
two_actions = record boot_world {
  config = record boot_config {
    actions =
        record {
          name = codes "boot";
          commands =
              record { func = Keyword.mkdir; args = codes "mkdir" ∷ codes "/data" ∷ [] }
              ∷ record { func = Keyword.chdir; args = codes "chdir" ∷ codes "/data" ∷ [] }
              ∷ [];
        }
        ∷ record {
          name = codes "late";
          commands = record { func = Keyword.chroot; args = codes "chroot" ∷ codes "/" ∷ [] } ∷ [];
        }
        ∷ [];
  };
}

abbrev both_queued : World
both_queued = action_add_queue_tail 1 (action_add_queue_tail 0 two_actions)

drain_action_queue-requeue_example :
    drain_action_queue device 9 (action_add_queue_tail 0 queued) ≡ no_fuel
unfolding action_add_queue_tail
drain_action_queue-requeue_example =
    drain_action_queue-requeue device 9 queued 0 [] queued-IsRing refl
