-- ===== src/Init/Properties/Lookup.antt =====
-- `property_get` after `property_set` (android2.1_init/init/property_service.c).
use demonstratortool.Base.{
  ℕ, zero, suc, ◌≡◌, refl, ◌≢◌, inl, inr, Option, none, some, List, [], ◌∷◌, ◌++◌, arith, leb,
  if◌then◌else◌, Option-cases, length, get_elem?, set, All-get_elem?, Bytes, streq, streq_iff,
  streq_refl,
}
use demonstratortool.Init.Platform.{Platform, PropInfo, IsPlatform}
use demonstratortool.Init.Properties.{
  PropArea, update_prop_info, new_prop_info, write_entry, property_get,
}
use demonstratortool.Init.Properties.Area.{
  IsArea, IsUnused, HasNames, Written, changed, added, Written-HasNames, write_entry-Written,
}

-- The value under a name, in a list read as a map.
unfoldable pub value_of : List PropInfo → Bytes → Option Bytes
value_of [] n = none
value_of (e ∷ es) n = if streq e.name n then some e.value else value_of es n

pub value_of-IsUnused : (es : List PropInfo) (n : Bytes) → IsUnused n es → value_of es n ≡ none
unfolding value_of
value_of-IsUnused [] n u = refl
value_of-IsUnused (e ∷ es) n u = ground (arith, streq_iff e.name n, value_of-IsUnused es n u.1)

value_of-get_elem? :
    (es : List PropInfo) (i : ℕ) (e : PropInfo)
    → HasNames es
    → get_elem? es i ≡ some e
    → value_of es e.name ≡ some e.value
unfolding value_of
value_of-get_elem? [] i e h at = cc
value_of-get_elem? (x ∷ es) zero e h at = ground (arith, streq_refl e.name)
value_of-get_elem? (x ∷ es) (suc i) e h at = ground (
  arith,
  streq_iff x.name e.name,
  All-get_elem? (λ y. y.name ≢ x.name) es i h.0 at,
  value_of-get_elem? es i e h.1 at,
)

value_of-append :
    (es : List PropInfo) (e : PropInfo) (n : Bytes)
    → IsUnused e.name es
    → value_of (es ++ e ∷ []) n ≡ (if streq e.name n then some e.value else value_of es n)
unfolding value_of
value_of-append [] e n u = refl
value_of-append (x ∷ es) e n u =
    ground (arith, streq_iff x.name n, streq_iff e.name n, value_of-append es e n u.1)

value_of-set :
    (es : List PropInfo) (i : ℕ) (old new : PropInfo) (n : Bytes)
    → HasNames es
    → get_elem? es i ≡ some old
    → new.name ≡ old.name
    → value_of (set es i new) n ≡ (if streq new.name n then some new.value else value_of es n)
unfolding value_of
value_of-set [] i old new n h at k = cc
value_of-set (x ∷ es) zero old new n h at k = ground arith
value_of-set (x ∷ es) (suc i) old new n h at k = ground (
  arith,
  streq_iff x.name n,
  streq_iff new.name n,
  All-get_elem? (λ y. y.name ≢ x.name) es i h.0 at,
  value_of-set es i old new n h.1 at k,
)

-- `property_get` reads that map, and finds no name that is too long.
pub property_get-value_of :
    (p : Platform) (pa : PropArea) (n : Bytes)
    → IsPlatform p
    → HasNames pa.entries
    → property_get p pa n ≡ (if leb p.prop_name_max (length n) then none else value_of pa.entries n)
unfolding property_get
property_get-value_of p pa n ok h = elim (Option-cases (p.find pa.entries n)) [
  | inl f ↦ ground (arith, value_of-IsUnused pa.entries n (ok.find-none pa.entries n f))
  | inr (i, f) ↦
      let (e, at, named) = ok.find-some pa.entries n i f in
      ground (arith, value_of-get_elem? pa.entries i e h at)
]

pub Written-value_of :
    (p : Platform) (pa : PropArea) (name value : Bytes) (pa' : PropArea) (n : Bytes)
    → HasNames pa.entries
    → Written p pa name value pa'
    → value_of pa'.entries n ≡ (if streq name n then some value else value_of pa.entries n)
unfolding update_prop_info new_prop_info
Written-value_of p pa name value pa' n h (changed i pi at named ro e) =
    ground (arith, value_of-set pa.entries i pi (update_prop_info pi value) n h at refl)
Written-value_of p pa name value pa' n h (added unused room e) =
    ground (arith, value_of-append pa.entries (new_prop_info name value) n unused)

-- After a successful write to a valid area, on a platform that is as described, the written name
-- has the written value, and every other name has the value, or lack of one, that it had.
pub property_get-write_entry :
    (p : Platform) (pa : PropArea) (name value : Bytes) (pa' : PropArea) (n : Bytes)
    → IsPlatform p
    → IsArea p pa
    → write_entry p pa name value ≡ some pa'
    → property_get p pa' n ≡ (if streq name n then some value else property_get p pa n)
property_get-write_entry p pa name value pa' n ok v e =
    let (w, f) = write_entry-Written p pa name value pa' ok e in
    ground (
      arith,
      property_get-value_of p pa n ok v.names,
      property_get-value_of p pa' n ok (Written-HasNames p pa name value pa' v.names w),
      Written-value_of p pa name value pa' n v.names w,
      streq_iff name n,
    )
