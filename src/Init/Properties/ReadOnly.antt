-- ===== src/Init/Properties/ReadOnly.antt =====
-- `ro.` properties (android2.1_init/init/property_service.c): set once, and never changed.
use demonstratortool.Base.{◌≡◌, true, some, arith, Bytes, starts_with, streq_iff}
use demonstratortool.Init.Platform.{Platform}
use demonstratortool.Init.Properties.{PropArea, ro_prefix}
use demonstratortool.Init.Properties.Area.{HasNames, Written, changed, added}
use demonstratortool.Init.Properties.Lookup.{value_of, value_of-IsUnused, Written-value_of}

-- Every `ro.` property of one area has the same value in another.
abbrev pub KeepsReadOnly : PropArea → PropArea → Type 0
KeepsReadOnly pa pa' =
    (n v : Bytes)
    → starts_with n ro_prefix ≡ true
    → value_of pa.entries n ≡ some v
    → value_of pa'.entries n ≡ some v

pub Written-KeepsReadOnly :
    (p : Platform) (pa : PropArea) (name value : Bytes) (pa' : PropArea)
    → HasNames pa.entries
    → Written p pa name value pa'
    → KeepsReadOnly pa pa'
Written-KeepsReadOnly p pa name value pa' h (changed i pi at named ro e) n v r k =
    ground (
      arith,
      streq_iff name n,
      Written-value_of p pa name value pa' n h (changed i pi at named ro e),
    )
Written-KeepsReadOnly p pa name value pa' h (added unused room e) n v r k = ground (
  arith,
  streq_iff name n,
  value_of-IsUnused pa.entries name unused,
  Written-value_of p pa name value pa' n h (added unused room e),
)
