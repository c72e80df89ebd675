-- ===== src/Init/Properties.antt =====
-- The property area of android2.1_init/init/property_service.c, and its two access lists.
pub mod Area
pub mod Lookup
pub mod ReadOnly
pub mod Access
use demonstratortool.Base.{
  ℕ, zero, suc, ◌+◌, ◌-◌, ◌*◌, ◌/◌, ◌%◌, ◌^◌, ◌≤◌, ◌<◌, String, ◌≡◌, refl, sym, ap, ◌∙◌, subst, ◌≢◌,
  ◌↔◌, ◌⊎◌, inl, inr, Bool, true, false, not, ◌&&◌, ◌||◌, Option, none, some, List, [], ◌∷◌, ◌++◌,
  map, arith, ltb, leb, ◌==◌, if◌then◌else◌, ==_iff, ==_refl, ltb_iff, leb_iff, Bool-cases,
  Option-cases, ◌>>=◌, >>=-eq-some, length, get_elem?, set, take, drop, All, length-append,
  length-map, length-tail-le, length-set, get_elem?-set_self, get_elem?-set_ne, get_elem?-lt-length,
  get_elem?-append_self, All-append, All-get_elem?, All-set, Bytes, codes, streq, starts_with,
  strchr, is_space, is_alpha, is_digit, is_alnum, streq_iff, streq_refl, starts_with-append,
  strchr-append, ulong_mod, digit_value, strtoul,
}
use demonstratortool.Init.Platform.{Platform, PropInfo}

abbrev pub pa_count_max : ℕ
pa_count_max = 247

abbrev pub pa_info_start : ℕ
pa_info_start = 1024

-- The size of a `prop_info`, as the comment above `PA_COUNT_MAX` gives it.
abbrev pub prop_info_size : ℕ
prop_info_size = 128

-- `prop_area`, with `pa_info_array[0]` to `pa_info_array[count - 1]` as `entries`.
pub record PropArea : Type 0 where
  pub entries : List PropInfo
  pub toc : List ℕ
  pub serial : ℕ

-- `n | 1`
abbrev set_low_bit : ℕ → ℕ
set_low_bit n = n - n % 2 + 1

-- `(len << 24) | ((serial + 1) & 0xffffff)` with `serial | 1` written before; `len` is below 256.
unfoldable pub next_serial : ℕ → ℕ → ℕ
next_serial len serial = (len * 2 ^ 24 + (set_low_bit serial + 1) % 2 ^ 24) % 2 ^ 32

unfoldable pub update_prop_info : PropInfo → Bytes → PropInfo
unfolding next_serial
update_prop_info pi value = record pi {
  value = value;
  serial = next_serial (length value) pi.serial;
}

unfoldable pub new_prop_info : Bytes → Bytes → PropInfo
new_prop_info name value = record {
  name = name;
  serial = length value * 2 ^ 24 % 2 ^ 32;
  value = value;
}

-- `(namelen << 24) | (((unsigned) pi) - ((unsigned) pa))` of the entry with an index
unfoldable pub toc_entry : Bytes → ℕ → ℕ
toc_entry name i = (length name * 2 ^ 24 + (pa_info_start + i * prop_info_size)) % 2 ^ 32

abbrev pub ro_prefix : Bytes
ro_prefix = codes "ro."

-- The part of `property_set` that writes the area; none where it returns -1.
unfoldable pub write_entry : Platform → PropArea → Bytes → Bytes → Option PropArea
unfolding update_prop_info new_prop_info toc_entry
write_entry p pa name value =
    if leb p.prop_name_max (length name)
    then none
    else if leb p.prop_value_max (length value)
    then none
    else if ltb (length name) 1
    then none
    else elim (p.find pa.entries name) [
      | some i ↦ if starts_with name ro_prefix then none else elim (get_elem? pa.entries i) [
        | none ↦ none
        | some pi ↦ some (record pa {
          entries = set pa.entries i (update_prop_info pi value);
          serial = (pa.serial + 1) % 2 ^ 32;
        })
      ]
      | none ↦
          if length pa.entries == pa_count_max
          then none
          else some (record {
            entries = pa.entries ++ new_prop_info name value ∷ [];
            toc = pa.toc ++ toc_entry name (length pa.entries) ∷ [];
            serial = (pa.serial + 1) % 2 ^ 32;
          })
    ]

unfoldable pub property_get : Platform → PropArea → Bytes → Option Bytes
property_get p pa name =
    if leb p.prop_name_max (length name) then none else elim (p.find pa.entries name) [
      | none ↦ none
      | some i ↦ elim (get_elem? pa.entries i) [ none ↦ none | some pi ↦ some pi.value ]
    ]

-- An entry of `property_perms` or `control_perms`: a prefix or a service, a uid and a gid.
abbrev pub Perm : Type 0
Perm = Bytes × ℕ × ℕ

unfoldable pub property_perms : Platform → List Perm
property_perms p =
    (codes "net.rmnet0.", p.aid_radio, 0)
    ∷ (codes "net.gprs.", p.aid_radio, 0)
    ∷ (codes "net.ppp", p.aid_radio, 0)
    ∷ (codes "ril.", p.aid_radio, 0)
    ∷ (codes "gsm.", p.aid_radio, 0)
    ∷ (codes "persist.radio", p.aid_radio, 0)
    ∷ (codes "net.dns", p.aid_radio, 0)
    ∷ (codes "net.", p.aid_system, 0)
    ∷ (codes "dev.", p.aid_system, 0)
    ∷ (codes "runtime.", p.aid_system, 0)
    ∷ (codes "hw.", p.aid_system, 0)
    ∷ (codes "sys.", p.aid_system, 0)
    ∷ (codes "service.", p.aid_system, 0)
    ∷ (codes "wlan.", p.aid_system, 0)
    ∷ (codes "dhcp.", p.aid_system, 0)
    ∷ (codes "dhcp.", p.aid_dhcp, 0)
    ∷ (codes "vpn.", p.aid_system, 0)
    ∷ (codes "vpn.", p.aid_vpn, 0)
    ∷ (codes "debug.", p.aid_shell, 0)
    ∷ (codes "log.", p.aid_shell, 0)
    ∷ (codes "service.adb.root", p.aid_shell, 0)
    ∷ (codes "persist.sys.", p.aid_system, 0)
    ∷ (codes "persist.service.", p.aid_system, 0)
    ∷ []

unfoldable pub control_perms : Platform → List Perm
control_perms p =
    (codes "dumpstate", p.aid_shell, p.aid_log) ∷ (codes "pppd_gprs", p.aid_radio, p.aid_log) ∷ []

-- `(uid && perm.uid == uid) || (gid && perm.gid == gid)`
abbrev pub grants : ℕ → ℕ → ℕ → ℕ → Bool
grants uid gid u g = (not (uid == 0) && u == uid) || (not (gid == 0) && g == gid)

unfoldable pub search_control_perms : List Perm → Bytes → ℕ → ℕ → Bool
search_control_perms [] name uid gid = false
search_control_perms ((service, u, g) ∷ rest) name uid gid =
    if streq service name && grants uid gid u g
    then true
    else search_control_perms rest name uid gid

unfoldable pub check_control_perms : Platform → Bytes → ℕ → ℕ → Bool
unfolding control_perms
check_control_perms p name uid gid =
    if uid == p.aid_system || uid == p.aid_root
    then true
    else search_control_perms (control_perms p) name uid gid

unfoldable pub search_property_perms : List Perm → Bytes → ℕ → ℕ → Bool
search_property_perms [] name uid gid = false
search_property_perms ((prefix, u, g) ∷ rest) name uid gid =
    if starts_with name prefix && grants uid gid u g
    then true
    else search_property_perms rest name uid gid

-- `if(!strncmp(name, "ro.", 3)) name +=3;`
unfoldable pub skip_ro : Bytes → Bytes
skip_ro name = if starts_with name ro_prefix then drop 3 name else name

unfoldable pub check_perms : Platform → Bytes → ℕ → ℕ → Bool
unfolding property_perms skip_ro
check_perms p name uid gid =
    if uid == 0 then true else search_property_perms (property_perms p) (skip_ro name) uid gid
