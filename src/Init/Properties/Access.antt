-- ===== src/Init/Properties/Access.antt =====
-- Who may set properties and control services (`check_perms` and `check_control_perms` of
-- android2.1_init/init/property_service.c).
use demonstratortool.Base.{
  ℕ, ◌≡◌, refl, ◌⊎◌, inl, inr, true, List, [], ◌∷◌, arith, ◌==◌, ==_iff, Bool-cases, All, Bytes,
  codes, streq_iff,
}
use demonstratortool.Init.Platform.{Platform}
use demonstratortool.Init.Properties.{
  Perm, property_perms, control_perms, search_control_perms, check_control_perms,
  search_property_perms, skip_ro, check_perms,
}

-- The uids that `property_perms` names.
abbrev pub IsPropertyOwner : Platform → ℕ → Type 0
IsPropertyOwner p uid =
    (uid ≡ p.aid_radio)
    ⊎ (uid ≡ p.aid_system)
    ⊎ (uid ≡ p.aid_dhcp)
    ⊎ (uid ≡ p.aid_vpn)
    ⊎ (uid ≡ p.aid_shell)

abbrev OwnedRow : Platform → Perm → Type 0
OwnedRow p (_, u, g) = IsPropertyOwner p u × (g ≡ 0)

property_perms-OwnedRow : (p : Platform) → All (OwnedRow p) (property_perms p)
unfolding property_perms
property_perms-OwnedRow p = omega arith

search_property_perms-owner :
    (p : Platform) (rows : List Perm) (name : Bytes) (uid gid : ℕ)
    → All (OwnedRow p) rows
    → search_property_perms rows name uid gid ≡ true
    → IsPropertyOwner p uid
unfolding search_property_perms
search_property_perms-owner p [] name uid gid h e = cc
search_property_perms-owner p ((prefix, u, g) ∷ rows) name uid gid h e =
    ground (arith, search_property_perms-owner p rows name uid gid h.1)

-- A client other than root that may set some property runs as radio, system, dhcp, vpn or shell.
pub check_perms-owner :
    (p : Platform) (name : Bytes) (uid gid : ℕ)
    → check_perms p name uid gid ≡ true
    → (uid ≡ 0) ⊎ IsPropertyOwner p uid
unfolding check_perms
check_perms-owner p name uid gid e = elim (Bool-cases (uid == 0)) [
  | inl root ↦ inl ((==_iff uid 0).0 root)
  | inr other ↦ inr (
      search_property_perms-owner p (property_perms p) (skip_ro name) uid gid
        (property_perms-OwnedRow p) (rw other at e))
]

search_property_perms-gid :
    (p : Platform) (rows : List Perm) (name : Bytes) (uid gid gid' : ℕ)
    → All (OwnedRow p) rows
    → search_property_perms rows name uid gid ≡ search_property_perms rows name uid gid'
unfolding search_property_perms
search_property_perms-gid p [] name uid gid gid' h = refl
search_property_perms-gid p ((prefix, u, g) ∷ rows) name uid gid gid' h =
    ground (arith, search_property_perms-gid p rows name uid gid gid' h.1)

-- The group of a client makes no difference to what properties it may set.
check_perms-gid :
    (p : Platform) (name : Bytes) (uid gid gid' : ℕ)
    → check_perms p name uid gid ≡ check_perms p name uid gid'
unfolding check_perms
check_perms-gid p name uid gid gid' = rw (
    search_property_perms-gid p (property_perms p) (skip_ro name) uid gid gid'
      (property_perms-OwnedRow p))

-- A client other than system and root that may control a service may control `dumpstate` or
-- `pppd_gprs`: whatever it is granted is one of these two.
pub check_control_perms-service :
    (p : Platform) (name : Bytes) (uid gid : ℕ)
    → check_control_perms p name uid gid ≡ true
    → (uid ≡ p.aid_system)
      ⊎ (uid ≡ p.aid_root)
      ⊎ (name ≡ codes "dumpstate")
      ⊎ (name ≡ codes "pppd_gprs")
unfolding check_control_perms control_perms search_control_perms
check_control_perms-service p name uid gid e =
    ground (arith, streq_iff (codes "dumpstate") name, streq_iff (codes "pppd_gprs") name)
