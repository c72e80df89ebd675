-- ===== src/Init/Devices/Paths.antt =====
-- Where android2.1_init/init/devices.c makes and removes device nodes.
use demonstratortool.Base.{
  Lacks, List, ℕ, ◌+◌, ◌*◌, ◌^◌, ◌≤◌, ◌<◌, ◌≡◌, refl, inl, inr, Bool, true, false, not, ◌&&◌, ◌||◌,
  [], ◌∷◌, ◌++◌, arith, ltb, if◌then◌else◌, Option-cases, length, drop, All, length-append,
  All-append, Bytes, codes, streq, pick_by, take-all, pick,
}
use demonstratortool.Init.Devices.{
  FileCall, mkdir, mknod, chown, unlink, copy_firmware, is_negative, make_device, s_ifblk, s_ifchr,
  behind_last, Place, place_of, devpath, act_on_device, handle_device_event,
}
use demonstratortool.Init.Devices.Access.{Overrides, get_device_perm}
use demonstratortool.Init.Devices.Uevents.{Uevent}
use Prim.Native.Nat.{bit_or}
use demonstratortool.Init.Devices.Table.{DeviceIds}
use demonstratortool.Init.Devices.Names.{
  behind_last-Lacks, behind_last-ends_in_dot, implied, implies, is_dots-ends_in_dot, drop-IsName,
  IsName, is_dots, ends_in_dot,
}

-- The directories of devices.
abbrev pub directories : List Bytes
directories =
    codes "/dev/block/"
    ∷ codes "/dev/graphics/"
    ∷ codes "/dev/oncrpc/"
    ∷ codes "/dev/adsp/"
    ∷ codes "/dev/msm_camera/"
    ∷ codes "/dev/input/"
    ∷ codes "/dev/mtd/"
    ∷ codes "/dev/snd/"
    ∷ codes "/dev/log/"
    ∷ codes "/dev/"
    ∷ []

abbrev pub is_one_of : Bytes → List Bytes → Bool
is_one_of s [] = false
is_one_of s (t ∷ ts) = streq s t || is_one_of s ts

abbrev pub IsBase : Bytes → Type 0
IsBase base = is_one_of base directories ≡ true

-- A path right in such a directory, for an event with this path: a name of at most 64 bytes without a
-- `/`, which is `.` or `..` only if the path of the event ends in a dot.
pub record IsNode (event_path path : Bytes) : Type 0 where
  pub base : Bytes
  pub name : Bytes
  pub joined : path ≡ base ++ name
  pub under_dev : IsBase base
  pub direct : Lacks b'/' name
  pub short : length name ≤ 64
  pub plain : (not (is_dots name) || ends_in_dot event_path) ≡ true

record IsPlace (event_path : Bytes) (pl : Place) : Type 0 where
  under_dev : IsBase pl.base
  room : length pl.base ≤ 16
  name : IsName event_path pl.name

place :
    (path : Bytes) (b : Bool) (base : Bytes) (made : Bool) (name : Bytes)
    → IsBase base
    → length base ≤ 16
    → IsName path name
    → IsPlace path (record { block = b; base = base; made = made; name = name })
place path b base made name h k v = record { under_dev = h; room = k; name = v }

place_of-IsPlace :
    (path subsystem name : Bytes) → IsName path name → IsPlace path (place_of subsystem name)
unfolding place_of streq
place_of-IsPlace path subsystem name h =
    pick (IsPlace path) _ _ _ (place path true (codes "/dev/block/") true name refl (omega arith) h)
      (pick (IsPlace path) _ _ _
        (place path false (codes "/dev/graphics/") true name refl (omega arith) h)
        (pick (IsPlace path) _ _ _
          (place path false (codes "/dev/oncrpc/") true name refl (omega arith) h)
          (pick (IsPlace path) _ _ _
            (place path false (codes "/dev/adsp/") true name refl (omega arith) h)
            (pick (IsPlace path) _ _ _
              (place path false (codes "/dev/msm_camera/") true name refl (omega arith) h)
              (pick (IsPlace path) _ _ _
                (place path false (codes "/dev/input/") true name refl (omega arith) h)
                (pick (IsPlace path) _ _ _
                  (place path false (codes "/dev/mtd/") true name refl (omega arith) h)
                  (pick (IsPlace path) _ _ _
                    (place path false (codes "/dev/snd/") true name refl (omega arith) h)
                    (pick (IsPlace path) _ _ _
                      (place path false (codes "/dev/log/") true (drop 4 name) refl (omega arith)
                        (drop-IsName path 4 name h))
                      (place path false (codes "/dev/") false name refl (omega arith) h)))))))))

-- The path fits the array: nothing is cut off.
devpath-IsNode : (path : Bytes) (pl : Place) → IsPlace path pl → IsNode path (devpath pl)
unfolding devpath
devpath-IsNode path pl v = record {
  base = pl.base;
  name = pl.name;
  joined =
      take-all 95 (pl.base ++ pl.name)
        (omega (arith, length-append pl.base pl.name, v.room, v.name.short));
  under_dev = v.under_dev;
  direct = v.name.direct;
  short = v.name.short;
  plain = implied (is_dots pl.name) (ends_in_dot path) λ e.
      implies (ends_in_dot pl.name) (ends_in_dot path) v.name.dotted
        (is_dots-ends_in_dot pl.name e);
}

-- A call that makes one of the directories, or makes, gives away or removes a node right in one, with
-- a device number of 16 bits.
abbrev pub IsDeviceCall : Bytes → FileCall → Type 0
IsDeviceCall event_path (mkdir base mode) = IsBase base
IsDeviceCall event_path (mknod path mode dev) = IsNode event_path path × (dev < 2 ^ 16)
IsDeviceCall event_path (chown path uid gid) = IsNode event_path path
IsDeviceCall event_path (unlink path) = IsNode event_path path
IsDeviceCall event_path (copy_firmware file path) = ⊥

device_number :
    (major minor : ℕ)
    → is_negative major ≡ false
    → is_negative minor ≡ false
    → ((not (is_negative major) && ltb 255 major) || (not (is_negative minor) && ltb 255 minor))
      ≡ false
    → major * 256 + minor < 2 ^ 16
device_number major minor a b f = ground arith

node_calls :
    (event_path path : Bytes) (mode dev uid gid : ℕ)
    → IsNode event_path path
    → dev < 2 ^ 16
    → All (IsDeviceCall event_path) (mknod path mode dev ∷ chown path uid gid ∷ [])
node_calls event_path path mode dev uid gid v h = ((v, h), (v, tt))

make_device-IsDeviceCall :
    (ids : DeviceIds) (o : Overrides) (event_path path : Bytes) (block : Bool) (major minor : ℕ)
    → IsNode event_path path
    → is_negative major ≡ false
    → is_negative minor ≡ false
    → All (IsDeviceCall event_path) (make_device ids o path block major minor)
unfolding make_device
make_device-IsDeviceCall ids o event_path path block major minor v a b =
    pick_by (All (IsDeviceCall event_path)) _ _ _ (λ _. tt)
      (λ f.
        let (perm, uid, gid) = get_device_perm ids o path in
        node_calls event_path path (bit_or perm (if block then s_ifblk else s_ifchr))
          (major * 256 + minor) uid gid v (device_number major minor a b f))

act_on_device-IsDeviceCall :
    (ids : DeviceIds) (o : Overrides) (u : Uevent) (pl : Place)
    → IsPlace u.path pl
    → is_negative u.major ≡ false
    → is_negative u.minor ≡ false
    → All (IsDeviceCall u.path) (act_on_device ids o u pl)
unfolding act_on_device
act_on_device-IsDeviceCall ids o u pl v a b =
    pick (All (IsDeviceCall u.path)) (streq u.action (codes "add")) _ _
      (make_device-IsDeviceCall ids o u.path (devpath pl) pl.block u.major u.minor
        (devpath-IsNode u.path pl v) a b)
      (pick (All (IsDeviceCall u.path)) (streq u.action (codes "remove")) _ _
        (devpath-IsNode u.path pl v, tt) tt)

device_calls :
    (ids : DeviceIds) (o : Overrides) (u : Uevent) (name : Bytes)
    → IsName u.path name
    → is_negative u.major ≡ false
    → is_negative u.minor ≡ false
    → All (IsDeviceCall u.path) (
        (if (place_of u.subsystem name).made
          then mkdir (place_of u.subsystem name).base 0b111101101 ∷ []
          else [])
        ++ act_on_device ids o u (place_of u.subsystem name))
device_calls ids o u name h a b =
    let v : IsPlace u.path (place_of u.subsystem name) =
      place_of-IsPlace u.path u.subsystem name h in
    All-append _ _ _
      (pick (All (IsDeviceCall u.path)) (place_of u.subsystem name).made _ _ (v.under_dev, tt) tt)
      (act_on_device-IsDeviceCall ids o u (place_of u.subsystem name) v a b)

-- Whatever event the kernel sends, the calls for its device make one of the ten directories of devices, or
-- act on a path that is one of them with a name behind it: the name has no `/` and at most 64 bytes, it is
-- `.` or `..` only if the path of the event ends in a dot, the path is not cut off by the array of 96, and the
-- device number has 16 bits.
pub handle_device_event-IsDeviceCall :
    (ids : DeviceIds) (o : Overrides) (u : Uevent)
    → All (IsDeviceCall u.path) (handle_device_event ids o u)
unfolding handle_device_event
handle_device_event-IsDeviceCall ids o u =
    pick_by (All (IsDeviceCall u.path)) (is_negative u.major || is_negative u.minor) _ _ (λ _. tt)
      (λ f. elim (Option-cases (behind_last b'/' u.path)) [
        | inl e ↦ rw e tt
        | inr (name, e) ↦ rw e (
            pick_by (All (IsDeviceCall u.path)) (ltb 64 (length name)) _ _ (λ _. tt)
              (λ g.
                device_calls ids o u name
                  (record {
                    direct = behind_last-Lacks b'/' u.path name e;
                    short = ground arith;
                    dotted = implied _ _ (behind_last-ends_in_dot b'/' u.path name e);
                  })
                  (ground arith) (ground arith)))
      ])
