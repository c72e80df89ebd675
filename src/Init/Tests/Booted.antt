-- ===== src/Init/Tests/Booted.antt =====
-- A start of android2.1_init/init on a concrete device.
use demonstratortool.Base.{true, none, some, [], ◌∷◌, if◌then◌else◌, codes, streq}
use demonstratortool.Init.Platform.{Platform, IsPlatform}
use demonstratortool.Init.Machine.{turn, keychord_pressed}
use demonstratortool.Init.Machine.Invariant.{IsWorld}
use demonstratortool.Init.Boot.{Host, main}
use demonstratortool.Init.Boot.Valid.{Ends, main-IsWorld}
use demonstratortool.Init.Tests.Given.{device, device-IsPlatform, device-IsSized}
use demonstratortool.Init.Tests.Nodes.{ids}

abbrev host : Host
host = record {
  ids = ids;
  ramdisk_default = codes "/default.prop";
  system_build = codes "/system/build.prop";
  system_default = codes "/system/default.prop";
  local_override = codes "/data/local.prop";
  have_type = true;
  persistent = none;
  cmdline = some (codes "androidboot.mode=factory\n");
  cpuinfo = none;
  console_opens = true;
}

-- The device with an init.rc.
abbrev disk : Platform
disk = record device {
  contents = λ n path.
      if streq path (codes "/init.rc")
      then some
          (codes "service ril /system/bin/rild\n  onrestart start ril\non boot\n  start ril\n")
      else none;
}

disk-IsPlatform : IsPlatform disk
disk-IsPlatform = record {
  find-some = device-IsPlatform.find-some;
  fork-pid = device-IsPlatform.fork-pid;
  find-none = device-IsPlatform.find-none;
}

main-IsWorld_example : Ends (IsWorld disk) (main disk 50 host (turn ∷ keychord_pressed 1 ∷ []))
main-IsWorld_example =
    main-IsWorld disk 50 host (turn ∷ keychord_pressed 1 ∷ []) disk-IsPlatform device-IsSized
