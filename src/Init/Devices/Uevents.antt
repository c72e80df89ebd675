-- ===== src/Init/Devices/Uevents.antt =====
-- Messages of the kernel about devices (android2.1_init/init/devices.c).
use demonstratortool.Base.{
  ℕ, List, [], ◌∷◌, ◌++◌, ◌==◌, if◌then◌else◌, length, drop, Bytes, codes, starts_with, atoi,
}

-- `struct uevent`; a number is the 32-bit pattern of an `int`.
pub record Uevent : Type 0 where
  pub action : Bytes
  pub path : Bytes
  pub subsystem : Bytes
  pub firmware : Bytes
  pub major : ℕ
  pub minor : ℕ

-- The texts of a message, up to an empty one; `cur` is the text that is being read.
unfoldable pub strings : Bytes → Bytes → List Bytes
strings [] [] = []
strings (c ∷ cs) [] = (c ∷ cs) ∷ []
strings cur (x ∷ xs) =
    let next = strings [] xs in
    let more = strings (cur ++ x ∷ []) xs in
    if x == 0 then (if length cur == 0 then [] else cur ∷ next) else more

-- What one text of a message sets.
unfoldable pub set_field : Bytes → Uevent → Uevent
set_field s u =
    if starts_with s (codes "ACTION=")
    then record u { action = drop 7 s }
    else if starts_with s (codes "DEVPATH=")
    then record u { path = drop 8 s }
    else if starts_with s (codes "SUBSYSTEM=")
    then record u { subsystem = drop 10 s }
    else if starts_with s (codes "FIRMWARE=")
    then record u { firmware = drop 9 s }
    else if starts_with s (codes "MAJOR=")
    then record u { major = atoi (drop 6 s) }
    else if starts_with s (codes "MINOR=")
    then record u { minor = atoi (drop 6 s) }
    else u

unfoldable pub set_fields : List Bytes → Uevent → Uevent
unfolding set_field
set_fields [] u = u
set_fields (s ∷ ss) u = set_fields ss (set_field s u)

unfoldable pub parse_event : Bytes → Uevent
unfolding strings set_fields
parse_event msg = set_fields (strings [] msg) (record {
  action = [];
  path = [];
  subsystem = [];
  firmware = [];
  major = 0xffffffff;
  minor = 0xffffffff;
})
