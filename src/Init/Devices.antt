-- ===== src/Init/Devices.antt =====
-- android2.1_init/init/devices.c: device nodes for the events of the kernel, and firmware.
pub mod Table
pub mod Uevents
pub mod Access
pub mod Names
pub mod Paths
pub mod Copy
use demonstratortool.Init.Devices.Access.{
  Overrides, max_qemu_perm, qemu_perm, add_devperms_partners, qemu_cmdline, perm_matches,
  get_device_perm_inner, get_device_perm,
}
use demonstratortool.Init.Devices.Uevents.{Uevent, strings, set_field, set_fields, parse_event}
use demonstratortool.Base.{
  ℕ, zero, suc, ◌+◌, ◌-◌, ◌*◌, ◌/◌, ◌%◌, ◌^◌, ◌≤◌, ◌<◌, String, ◌≡◌, refl, sym, ap, ◌∙◌, subst, ◌≢◌,
  ◌↔◌, ◌⊎◌, inl, inr, Bool, true, false, not, ◌&&◌, ◌||◌, Option, none, some, List, [], ◌∷◌, ◌++◌,
  map, arith, ltb, leb, ◌==◌, if◌then◌else◌, ==_iff, ==_refl, ltb_iff, leb_iff, Bool-cases,
  Option-cases, length, get_elem?, set, take, drop, All, length-append, length-map, length-tail-le,
  length-set, get_elem?-set_self, get_elem?-set_ne, get_elem?-lt-length, get_elem?-append_self,
  All-append, All-get_elem?, All-set, Bytes, codes, streq, starts_with, strchr, is_space, is_alpha,
  is_digit, is_alnum, streq_iff, streq_refl, starts_with-append, strchr-append, ulong_mod,
  digit_value, strtoul, atoi, strtol, has_number, skip_spaces, drop-append, take-append, drop-drop,
  drop-set, length-drop, length-take,
}
use Prim.Native.Nat.{bit_or}
use demonstratortool.Init.Devices.Table.{DeviceIds, DevPerm, devperms}

-- Calls that change the file system: `mkdir`, `mknod` with mode and device number, `chown`, `unlink`,
-- and the copy of a firmware file in a child process.
pub data FileCall : Type 0 where
  mkdir : Bytes → ℕ → FileCall
  mknod : Bytes → ℕ → ℕ → FileCall
  chown : Bytes → ℕ → ℕ → FileCall
  unlink : Bytes → FileCall
  copy_firmware : Bytes → Bytes → FileCall

-- An `int` below zero
abbrev pub is_negative : ℕ → Bool
is_negative n = leb (2 ^ 31) n

abbrev pub s_ifblk : ℕ
s_ifblk = 0x6000

abbrev pub s_ifchr : ℕ
s_ifchr = 0x2000

unfoldable pub make_device : DeviceIds → Overrides → Bytes → Bool → ℕ → ℕ → List FileCall
unfolding get_device_perm
make_device ids o path block major minor =
    if (not (is_negative major) && ltb 255 major) || (not (is_negative minor) && ltb 255 minor)
    then []
    else (let (perm, uid, gid) = get_device_perm ids o path in
        mknod path (bit_or perm (if block then s_ifblk else s_ifchr)) (major * 256 + minor)
        ∷ chown path uid gid
        ∷ [])

-- `strrchr`: the text behind the last byte of the kind.
unfoldable pub behind_last : ℕ → Bytes → Option Bytes
behind_last c [] = none
behind_last c (x ∷ xs) = elim (behind_last c xs) [
  | some rest ↦ some rest
  | none ↦ if x == c then some xs else none
]

-- Where the node of a device lives: whether it is a block device, its directory, whether the directory is
-- made, and its name there.
pub record Place : Type 0 where
  pub block : Bool
  pub base : Bytes
  pub made : Bool
  pub name : Bytes

abbrev char_place : Bytes → Bytes → Place
char_place base name = record { block = false; base = base; made = true; name = name }

unfoldable pub place_of : Bytes → Bytes → Place
place_of subsystem name =
    if starts_with subsystem (codes "block")
    then record { block = true; base = codes "/dev/block/"; made = true; name = name }
    else if starts_with subsystem (codes "graphics")
    then char_place (codes "/dev/graphics/") name
    else if starts_with subsystem (codes "oncrpc")
    then char_place (codes "/dev/oncrpc/") name
    else if starts_with subsystem (codes "adsp")
    then char_place (codes "/dev/adsp/") name
    else if starts_with subsystem (codes "msm_camera")
    then char_place (codes "/dev/msm_camera/") name
    else if starts_with subsystem (codes "input")
    then char_place (codes "/dev/input/") name
    else if starts_with subsystem (codes "mtd")
    then char_place (codes "/dev/mtd/") name
    else if starts_with subsystem (codes "sound")
    then char_place (codes "/dev/snd/") name
    else if starts_with subsystem (codes "misc") && starts_with name (codes "log_")
    then char_place (codes "/dev/log/") (drop 4 name)
    else record { block = false; base = codes "/dev/"; made = false; name = name }

-- `char devpath[96]`
abbrev pub devpath_size : ℕ
devpath_size = 96

-- `snprintf(devpath, sizeof(devpath), "%s%s", base, name)`
unfoldable pub devpath : Place → Bytes
devpath pl = take (devpath_size - 1) (pl.base ++ pl.name)

-- The node is made or removed; another action does neither.
unfoldable pub act_on_device : DeviceIds → Overrides → Uevent → Place → List FileCall
unfolding devpath make_device
act_on_device ids o u pl =
    if streq u.action (codes "add")
    then make_device ids o (devpath pl) pl.block u.major u.minor
    else if streq u.action (codes "remove")
    then unlink (devpath pl) ∷ []
    else []

unfoldable pub handle_device_event : DeviceIds → Overrides → Uevent → List FileCall
unfolding behind_last place_of act_on_device
handle_device_event ids o u =
    if is_negative u.major || is_negative u.minor then [] else elim (behind_last b'/' u.path) [
      | none ↦ []
      | some name ↦
          if ltb 64 (length name)
          then []
          else (let pl = place_of u.subsystem name in
              (if pl.made then mkdir pl.base 0b111101101 ∷ [] else []) ++ act_on_device ids o u pl)
    ]

-- The child process copies the file with the name to the device with the path.
unfoldable pub handle_firmware_event : Uevent → List FileCall
handle_firmware_event u =
    if streq u.subsystem (codes "firmware") && streq u.action (codes "add")
    then copy_firmware (codes "/etc/firmware/" ++ u.firmware) (codes "/sys" ++ u.path ++ codes "/")
      ∷ []
    else []

abbrev pub uevent_msg_len : ℕ
uevent_msg_len = 1024

-- One message of the socket: a full buffer is discarded, since the message may be longer.
unfoldable pub handle_device_message : DeviceIds → Overrides → Bytes → List FileCall
unfolding parse_event handle_device_event handle_firmware_event
handle_device_message ids o msg =
    if length msg == uevent_msg_len
    then []
    else (let u = parse_event (msg ++ 0 ∷ 0 ∷ []) in
        handle_device_event ids o u ++ handle_firmware_event u)

-- `handle_device_fd`, for the messages that are pending.
unfoldable pub handle_device_fd : DeviceIds → Overrides → List Bytes → List FileCall
unfolding handle_device_message
handle_device_fd ids o [] = []
handle_device_fd ids o (msg ∷ rest) = handle_device_message ids o msg ++ handle_device_fd ids o rest
