-- ===== src/Init/Tests/Lives.antt =====
-- The service of the test world, started and crashed (android2.1_init/init/init.c).
use demonstratortool.Base.{◌<◌, ◌≤◌, ◌⊎◌, refl, true, [], ◌∷◌, arith}
use demonstratortool.Init.Config.{Service}
use demonstratortool.Init.World.{World}
use demonstratortool.Init.Services.{service_find_by_pid}
use demonstratortool.Init.Machine.{drain_action_queue}
use demonstratortool.Init.Machine.Crashes.{
  counted, Reboots, Restarts, wait_for_one_process-critical,
}
use demonstratortool.Init.Tests.Given.{device, boot_world, boot_config, ril_daemon}

-- It has crashed at 300, 310, 320 and 330, and now its process ends at 340.
abbrev crashed_often : Service
crashed_often = record ril_daemon {
  pid = 41;
  flags = record ril_daemon.flags { running = true };
  time_crashed = 300;
  nr_crashed = 4;
}

abbrev ending : World
ending = record boot_world {
  config = record boot_config { services = crashed_often ∷ [] };
  calls = 240;
}

wait_for_one_process-critical_example :
    ((4 < 5) × Reboots device (drain_action_queue device 3) 3 ending 41)
    ⊎ ((5 ≤ 4) × Restarts device (drain_action_queue device 3) 3 ending 41 0 crashed_often 300 5)
unfolding service_find_by_pid counted
wait_for_one_process-critical_example =
    wait_for_one_process-critical device (drain_action_queue device 3) 3 ending 41 0 300
      (310 ∷ 320 ∷ 330 ∷ []) crashed_often ril_daemon
      (record { a_process = λ e. omega arith; found = refl; at = refl; lasting = refl; on = refl })
      refl refl (omega arith) (omega arith) (record { same_time = refl; same_number = refl })
      (omega arith)

abbrev just_started : Service
just_started = record ril_daemon { time_started = 99 }
