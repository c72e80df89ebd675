-- ===== src/Init/Properties/Area.antt =====
-- What `property_set` of android2.1_init/init/property_service.c keeps of the property area.
use demonstratortool.Base.{
  ℕ, zero, suc, ◌+◌, ◌/◌, ◌%◌, ◌^◌, ◌≤◌, ◌<◌, ◌≡◌, refl, sym, subst, ◌≢◌, inl, inr, false, some,
  List, [], ◌∷◌, ◌++◌, arith, Option-cases, length, get_elem?, set, All, length-append, length-set,
  All-append, All-get_elem?, All-set, Bytes, starts_with,
}
use demonstratortool.Init.Platform.{Platform, PropInfo, IsPlatform}
use demonstratortool.Init.Properties.{
  PropArea, pa_count_max, next_serial, update_prop_info, new_prop_info, write_entry, ro_prefix,
  toc_entry,
}

-- An entry that a reader may copy: it fits the fixed fields, and the serial number holds the
-- length of the value and is even, which tells that no write is under way.
pub record IsEntry (p : Platform) (pi : PropInfo) : Type 0 where
  pub named : 1 ≤ length pi.name
  pub name_fits : length pi.name < p.prop_name_max
  pub value_fits : length pi.value < p.prop_value_max
  pub serial_length : pi.serial / 2 ^ 24 ≡ length pi.value
  pub serial_even : pi.serial % 2 ≡ 0

abbrev pub IsUnused : Bytes → List PropInfo → Type 0
IsUnused name es = All (λ e. e.name ≢ name) es

abbrev pub HasNames : List PropInfo → Type 0
HasNames [] = Unit
HasNames (e ∷ es) = IsUnused e.name es × HasNames es

pub record IsArea (p : Platform) (pa : PropArea) : Type 0 where
  pub valid : All (IsEntry p) pa.entries
  pub names : HasNames pa.entries
  pub room : length pa.entries ≤ pa_count_max
  pub indexed : length pa.toc ≡ length pa.entries

-- `PROP_VALUE_MAX` leaves the length of a value in the upper byte of the serial number.
abbrev pub IsSized : Platform → Type 0
IsSized p = p.prop_value_max ≤ 256

update_prop_info-IsEntry :
    (p : Platform) (pi : PropInfo) (value : Bytes)
    → IsSized p
    → length value < p.prop_value_max
    → IsEntry p pi
    → IsEntry p (update_prop_info pi value)
unfolding update_prop_info next_serial
update_prop_info-IsEntry p pi value h k v = omega arith

new_prop_info-IsEntry :
    (p : Platform) (name value : Bytes)
    → IsSized p
    → 1 ≤ length name
    → length name < p.prop_name_max
    → length value < p.prop_value_max
    → IsEntry p (new_prop_info name value)
unfolding new_prop_info
new_prop_info-IsEntry p name value h a b c = omega arith

-- The two ways in which `property_set` writes.
pub data Written (p : Platform) (pa : PropArea) (name value : Bytes) (pa' : PropArea) : Type 0 where
  changed :
      (i : ℕ) (pi : PropInfo)
      → get_elem? pa.entries i ≡ some pi
      → pi.name ≡ name
      → starts_with name ro_prefix ≡ false
      → pa' ≡ record pa {
        entries = set pa.entries i (update_prop_info pi value);
        serial = (pa.serial + 1) % 2 ^ 32;
      }
      → Written p pa name value pa'
  added :
      IsUnused name pa.entries
      → length pa.entries ≢ pa_count_max
      → pa' ≡ record {
        entries = pa.entries ++ new_prop_info name value ∷ [];
        toc = pa.toc ++ toc_entry name (length pa.entries) ∷ [];
        serial = (pa.serial + 1) % 2 ^ 32;
      }
      → Written p pa name value pa'

-- `property_set` writes only a name and a value that fit, and a name that is not empty.
abbrev pub FitsArea : Platform → Bytes → Bytes → Type 0
FitsArea p name value =
    (1 ≤ length name) × (length name < p.prop_name_max) × (length value < p.prop_value_max)

write_entry-FitsArea :
    (p : Platform) (pa : PropArea) (name value : Bytes) (pa' : PropArea)
    → write_entry p pa name value ≡ some pa'
    → FitsArea p name value
unfolding write_entry
write_entry-FitsArea p pa name value pa' e = ground arith

pub write_entry-Written :
    (p : Platform) (pa : PropArea) (name value : Bytes) (pa' : PropArea)
    → IsPlatform p
    → write_entry p pa name value ≡ some pa'
    → Written p pa name value pa' × FitsArea p name value
unfolding write_entry
write_entry-Written p pa name value pa' ok e = (
  elim (Option-cases (p.find pa.entries name)) [
    | inl f ↦ added (ok.find-none pa.entries name f) (ground arith) (ground arith)
    | inr (i, f) ↦
        let (pi, at, named) = ok.find-some pa.entries name i f in
        changed i pi at named (ground arith) (ground arith)
  ],
  write_entry-FitsArea p pa name value pa' e,
)

IsUnused-append :
    (n : Bytes) (es : List PropInfo) (e : PropInfo)
    → IsUnused n es
    → e.name ≢ n
    → IsUnused n (es ++ e ∷ [])
IsUnused-append n es e u k = All-append (λ x. x.name ≢ n) es (e ∷ []) u (k, tt)

HasNames-append :
    (es : List PropInfo) (e : PropInfo) → HasNames es → IsUnused e.name es → HasNames (es ++ e ∷ [])
HasNames-append [] e h u = (tt, tt)
HasNames-append (x ∷ es) e h u =
    (IsUnused-append x.name es e h.0 (λ q. u.0 (sym q)), HasNames-append es e h.1 u.1)

IsUnused-set :
    (n : Bytes) (es : List PropInfo) (i : ℕ) {old : PropInfo} (new : PropInfo)
    → get_elem? es i ≡ some old
    → new.name ≡ old.name
    → IsUnused n es
    → IsUnused n (set es i new)
IsUnused-set n es i new e k u =
    All-set (λ x. x.name ≢ n) es i new u (rw k (All-get_elem? (λ x. x.name ≢ n) es i u e))

HasNames-set :
    (es : List PropInfo) (i : ℕ) {old : PropInfo} (new : PropInfo)
    → get_elem? es i ≡ some old
    → new.name ≡ old.name
    → HasNames es
    → HasNames (set es i new)
HasNames-set [] i new e k h = tt
HasNames-set (x ∷ es) zero new e k h =
    (let same : x.name ≡ new.name = ground arith in subst (λ n. IsUnused n es) same h.0, h.1)
HasNames-set (x ∷ es) (suc i) new e k h =
    (IsUnused-set x.name es i new e k h.0, HasNames-set es i new e k h.1)

update_prop_info-name : (pi : PropInfo) (value : Bytes) → (update_prop_info pi value).name ≡ pi.name
unfolding update_prop_info
update_prop_info-name pi value = refl

pub Written-HasNames :
    (p : Platform) (pa : PropArea) (name value : Bytes) (pa' : PropArea)
    → HasNames pa.entries
    → Written p pa name value pa'
    → HasNames pa'.entries
Written-HasNames p pa name value pa' h (changed i pi at named ro e) =
    rw e (HasNames-set pa.entries i _ at (update_prop_info-name pi value) h)
Written-HasNames p pa name value pa' h (added unused room e) =
    rw e (HasNames-append pa.entries _ h (unfold new_prop_info in unused))

pub Written-IsArea :
    (p : Platform) (pa : PropArea) (name value : Bytes) (pa' : PropArea)
    → IsSized p
    → FitsArea p name value
    → IsArea p pa
    → Written p pa name value pa'
    → IsArea p pa'
Written-IsArea p pa name value pa' k f v (changed i pi at named ro e) = rw e (record {
  valid = All-set (IsEntry p) pa.entries i _ v.valid (
      update_prop_info-IsEntry p pi value k f.2
        (All-get_elem? (IsEntry p) pa.entries i v.valid at));
  names = rw e at (Written-HasNames p pa name value pa' v.names (changed i pi at named ro e));
  room = omega (arith, v.room, length-set pa.entries i (update_prop_info pi value));
  indexed = omega (arith, v.indexed, length-set pa.entries i (update_prop_info pi value));
})
Written-IsArea p pa name value pa' k f v (added unused room e) = rw e (record {
  valid =
      All-append (IsEntry p) pa.entries _ v.valid
        (new_prop_info-IsEntry p name value k f.0 f.1 f.2, tt);
  names = rw e at (Written-HasNames p pa name value pa' v.names (added unused room e));
  room = omega (arith, v.room, length-append pa.entries (new_prop_info name value ∷ []));
  indexed = omega (
    arith,
    v.indexed,
    length-append pa.entries (new_prop_info name value ∷ []),
    length-append pa.toc (toc_entry name (length pa.entries) ∷ []),
  );
})

-- If the platform is as described and a value leaves room in the serial number, a successful
-- write keeps a valid area valid: at most 247 entries with distinct names, each with a name and
-- a value that fit their fields, and a serial number that is even and holds the length of the
-- value.
pub write_entry-IsArea :
    (p : Platform) (pa : PropArea) (name value : Bytes) (pa' : PropArea)
    → IsPlatform p
    → IsSized p
    → IsArea p pa
    → write_entry p pa name value ≡ some pa'
    → IsArea p pa'
write_entry-IsArea p pa name value pa' ok k v e =
    let (w, f) = write_entry-Written p pa name value pa' ok e in
    Written-IsArea p pa name value pa' k f v w
