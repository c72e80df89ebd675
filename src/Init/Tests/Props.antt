-- ===== src/Init/Tests/Props.antt =====
-- Properties that are written and read (android2.1_init/init/property_service.c).
use demonstratortool.Base.{◌≡◌, refl, ◌⊎◌, true, none, some, codes, streq, starts_with}
use demonstratortool.Init.Properties.{
  PropArea, write_entry, property_get, check_perms, check_control_perms, property_perms,
  control_perms, search_property_perms, search_control_perms, skip_ro,
}
use demonstratortool.Init.Properties.Area.{IsArea, write_entry-IsArea}
use demonstratortool.Init.Properties.Lookup.{property_get-write_entry}
use demonstratortool.Init.Properties.Access.{
  IsPropertyOwner, check_perms-owner, check_control_perms-service,
}
use demonstratortool.Init.Tests.Given.{
  device, boot_props, boot_props-IsArea, device-IsPlatform, device-IsSized, find_entry,
}

abbrev written : PropArea
written = elim (write_entry device boot_props (codes "sys.mode") (codes "1")) [
  | none ↦ boot_props
  | some pa ↦ pa
]

writes : write_entry device boot_props (codes "sys.mode") (codes "1") ≡ some written
unfolding write_entry find_entry streq
writes = refl

property_get-write_entry_example : property_get device written (codes "sys.mode") ≡ some (codes "1")
unfolding streq
property_get-write_entry_example =
    property_get-write_entry device boot_props (codes "sys.mode") (codes "1") written
      (codes "sys.mode") device-IsPlatform boot_props-IsArea writes

write_entry-IsArea_example : IsArea device written
write_entry-IsArea_example =
    write_entry-IsArea device boot_props (codes "sys.mode") (codes "1") written device-IsPlatform
      device-IsSized boot_props-IsArea writes

system_may : check_perms device (codes "sys.mode") 1000 1000 ≡ true
unfolding check_perms property_perms search_property_perms skip_ro starts_with
system_may = refl

check_perms-owner_example : (device.aid_system ≡ 0) ⊎ IsPropertyOwner device device.aid_system
check_perms-owner_example = check_perms-owner device (codes "sys.mode") 1000 1000 system_may

shell_may : check_control_perms device (codes "dumpstate") 2000 2000 ≡ true
unfolding check_control_perms control_perms search_control_perms streq
shell_may = refl

check_control_perms-service_example :
    (device.aid_shell ≡ device.aid_system)
    ⊎ (device.aid_shell ≡ device.aid_root)
    ⊎ (codes "dumpstate" ≡ codes "dumpstate")
    ⊎ (codes "dumpstate" ≡ codes "pppd_gprs")
check_control_perms-service_example =
    check_control_perms-service device (codes "dumpstate") 2000 2000 shell_may
