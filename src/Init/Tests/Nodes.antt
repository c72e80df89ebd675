-- ===== src/Init/Tests/Nodes.antt =====
-- Events and firmware that android2.1_init/init/devices.c handles.
use demonstratortool.Base.{
  ◌≡◌, refl, true, some, [], ◌∷◌, arith, ◌==◌, if◌then◌else◌, length, All, codes,
}
use demonstratortool.Init.Devices.{handle_device_event}
use demonstratortool.Init.Devices.Access.{Overrides}
use demonstratortool.Init.Devices.Uevents.{Uevent}
use demonstratortool.Init.Devices.Table.{DeviceIds}
use demonstratortool.Init.Devices.Paths.{IsDeviceCall, handle_device_event-IsDeviceCall}
use demonstratortool.Init.Devices.Copy.{
  Driver, IsDriver, Page, Repeats, send_page, send_page-Repeats, load_firmware, load_firmware-whole,
  joined,
}

abbrev pub ids : DeviceIds
ids = record {
  adb = 1011;
  audio = 1005;
  bluetooth = 1002;
  camera = 1006;
  compass = 1008;
  graphics = 1003;
  input = 1004;
  log = 1007;
  radio = 1001;
  root = 0;
  system = 1000;
  vpn = 1016;
}

abbrev touch : Uevent
touch = record {
  action = codes "add";
  path = codes "/devices/virtual/input/event0";
  subsystem = codes "input";
  firmware = [];
  major = 13;
  minor = 64;
}

abbrev no_overrides : Overrides
no_overrides = record { qemu_perms = []; partners = [] }

handle_device_event-IsDeviceCall_example :
    All (IsDeviceCall touch.path) (handle_device_event ids no_overrides touch)
handle_device_event-IsDeviceCall_example = handle_device_event-IsDeviceCall ids no_overrides touch

-- Takes everything.
abbrev whole : Driver
whole = λ i xs. some (length xs)

whole-IsDriver : IsDriver whole
whole-IsDriver = record { at_most = λ i xs k e. let same : length xs ≡ k = cc in omega arith }

-- Takes one byte at a time.
abbrev single : Driver
single = λ i xs. some (if length xs == 0 then 0 else 1)

single-IsDriver : IsDriver single
single-IsDriver = record { at_most = λ i xs k e. ground arith }

send_page-Repeats_example :
    (p : Page) × (send_page 3 single (codes "abc") 3 0 [] ≡ some p)
    × (p.ok ≡ true → Repeats single (codes "abc") 3 0 [] p)
send_page-Repeats_example =
    send_page-Repeats single single-IsDriver 3 (codes "abc") 3 0 [] (omega arith)

-- A driver that takes one byte at a time gets the first byte three times.
repeats :
    send_page 3 single (codes "abc") 3 0 []
    ≡ some (record { ok = true; next = 3; taken = codes "aaa" })
unfolding send_page
repeats = refl

load_firmware-whole_example :
    load_firmware whole (some 5) (some (codes "abc") ∷ some (codes "de") ∷ [])
    ≡ some (some (record { mark = codes "0"; taken = codes "abcde" }))
unfolding joined
load_firmware-whole_example =
    load_firmware-whole whole (codes "abc" ∷ codes "de" ∷ []) (record { all_of = λ i xs. refl })
      (refl, (refl, tt))
