-- ===== src/Init/Devices/Access.antt =====
-- Who may use a device (android2.1_init/init/devices.c).
use demonstratortool.Base.{
  ℕ, Bool, true, false, Option, none, some, List, [], ◌∷◌, ◌++◌, ◌==◌, if◌then◌else◌, length, Bytes,
  codes, streq, starts_with,
}
use demonstratortool.Init.Devices.Table.{DeviceIds, DevPerm, devperms}

-- `qemu_perms` and `devperms_partners`
pub record Overrides : Type 0 where
  pub qemu_perms : List DevPerm
  pub partners : List DevPerm

abbrev pub max_qemu_perm : ℕ
max_qemu_perm = 6

-- At the end of the list; the result tells whether there is room for it.
unfoldable pub qemu_perm : DevPerm → Overrides → Overrides × Bool
qemu_perm p o =
    if length o.qemu_perms == max_qemu_perm
    then (o, false)
    else (record o { qemu_perms = o.qemu_perms ++ p ∷ [] }, true)

unfoldable pub add_devperms_partners : DevPerm → Overrides → Overrides
add_devperms_partners p o = record o { partners = o.partners ++ p ∷ [] }

-- An option of the kernel command line
unfoldable pub qemu_cmdline : DeviceIds → Bytes → Bytes → Overrides → Overrides
unfolding qemu_perm
qemu_cmdline ids name value o =
    if streq name (codes "android.ril")
    then (qemu_perm
        (record {
          name = codes "/dev/" ++ value;
          perm = 0b110110000;
          uid = ids.radio;
          gid = ids.root;
          prefix = false;
        })
        o).0
    else o

unfoldable pub perm_matches : DevPerm → Bytes → Bool
perm_matches p path = if p.prefix then starts_with path p.name else streq path p.name

-- `get_device_perm_inner`, and the loop over the partners: the first row that matches.
unfoldable pub get_device_perm_inner : List DevPerm → Bytes → Option DevPerm
unfolding perm_matches
get_device_perm_inner [] path = none
get_device_perm_inner (p ∷ ps) path =
    if perm_matches p path then some p else get_device_perm_inner ps path

-- The mode, the uid and the gid.
unfoldable pub get_device_perm : DeviceIds → Overrides → Bytes → ℕ × ℕ × ℕ
unfolding get_device_perm_inner
get_device_perm ids o path = elim (get_device_perm_inner o.qemu_perms path) [
  | some p ↦ (p.perm, p.uid, p.gid)
  | none ↦ elim (get_device_perm_inner (devperms ids) path) [
    | some p ↦ (p.perm, p.uid, p.gid)
    | none ↦ elim (get_device_perm_inner o.partners path) [
      | some p ↦ (p.perm, p.uid, p.gid)
      | none ↦ (0b110000000, 0, 0)
    ]
  ]
]
