-- ===== src/Init/Load.antt =====
-- The files from which android2.1_init/init/property_service.c reads properties.
pub mod Settings
use demonstratortool.Base.{
  ℕ, zero, suc, ◌+◌, ◌-◌, ◌*◌, ◌/◌, ◌%◌, ◌^◌, ◌≤◌, ◌<◌, String, ◌≡◌, refl, sym, ap, ◌∙◌, subst, ◌≢◌,
  ◌↔◌, ◌⊎◌, inl, inr, Bool, true, false, not, ◌&&◌, ◌||◌, Option, none, some, List, [], ◌∷◌, ◌++◌,
  map, arith, ltb, leb, ◌==◌, if◌then◌else◌, ==_iff, ==_refl, ltb_iff, leb_iff, Bool-cases,
  Option-cases, length, get_elem?, set, take, drop, All, length-append, length-map, length-tail-le,
  length-set, get_elem?-set_self, get_elem?-set_ne, get_elem?-lt-length, get_elem?-append_self,
  All-append, All-get_elem?, All-set, Bytes, codes, streq, starts_with, strchr, is_space, is_alpha,
  is_digit, is_alnum, streq_iff, streq_refl, starts_with-append, strchr-append, ulong_mod,
  digit_value, strtoul, atoi, strtol, has_number, skip_spaces, drop-append, take-append, drop-drop,
  drop-set, length-drop, length-take, length-take-le, take-all, All-drop, pick, pick_by,
}
use demonstratortool.Init.Platform.{Platform}
use demonstratortool.Init.World.{World, Run, done, ◌>>=◌, ask}
use demonstratortool.Init.Services.{property_set}

-- The lines of a text that end in a newline; `cur` is the line that is being read.
unfoldable pub complete_lines : Bytes → Bytes → List Bytes
complete_lines cur [] = []
complete_lines cur (c ∷ cs) =
    let next = complete_lines [] cs in
    let more = complete_lines (cur ++ c ∷ []) cs in if c == b'\n' then cur ∷ next else more

-- Without the blanks at the end.
unfoldable pub drop_trailing : Bytes → Bytes
unfolding is_space
drop_trailing [] = []
drop_trailing (c ∷ cs) = elim (drop_trailing cs) [
  | [] ↦ if is_space c then [] else c ∷ []
  | d ∷ ds ↦ c ∷ d ∷ ds
]

-- `while((tmp > key) && isspace(*tmp)) *tmp-- = 0;`: the first byte stays.
unfoldable pub trim_end : Bytes → Bytes
unfolding drop_trailing
trim_end [] = []
trim_end (c ∷ cs) = c ∷ drop_trailing cs

-- The name and the value in a line, without the blanks around them; none for a comment and for a line
-- without `=`.
unfoldable pub setting_of : Bytes → Option (Bytes × Bytes)
unfolding trim_end skip_spaces
setting_of line = elim (strchr line b'=') [
  | none ↦ none
  | some (key, value) ↦
      if starts_with (skip_spaces key) (codes "#")
      then none
      else some (trim_end (skip_spaces key), trim_end (skip_spaces value))
]

unfoldable pub settings : List Bytes → List (Bytes × Bytes)
unfolding setting_of
settings [] = []
settings (line ∷ lines) = elim (setting_of line) [
  | none ↦ settings lines
  | some s ↦ s ∷ settings lines
]

-- A string ends at its first NUL.
unfoldable pub until_nul : Bytes → Bytes
until_nul [] = []
until_nul (c ∷ cs) = if c == 0 then [] else c ∷ until_nul cs

-- An entry of the directory for persistent properties: its name, whether it is a regular file, and what
-- `open` and `read` give for so many bytes.
pub record DirEntry : Type 0 where
  pub name : Bytes
  pub regular : Bool
  pub read : ℕ → Option Bytes

-- Whether `HAVE_DIRENT_D_TYPE` is set.
abbrev pub is_persistent : Bool → DirEntry → Bool
is_persistent have_type e = starts_with e.name (codes "persist.") && (not have_type || e.regular)

module _ (p : Platform) (drain : World → Run World) where
  unfoldable pub set_all : List (Bytes × Bytes) → World → Run World
  set_all [] w = done w
  set_all ((name, value) ∷ rest) w = property_set p drain name value w >>= set_all rest

  unfoldable pub load_properties : Bytes → World → Run World
  unfolding settings complete_lines set_all
  load_properties file w = set_all (settings (complete_lines [] file)) w

  -- `read_file` puts a newline behind the contents.
  unfoldable pub load_properties_from_file : Bytes → World → Run World
  unfolding load_properties until_nul
  load_properties_from_file fn w = elim (p.contents w.calls fn) [
    | none ↦ done (ask w)
    | some file ↦ load_properties (until_nul (file ++ b'\n' ∷ [])) (ask w)
  ]

  unfoldable pub load_entries : Bool → List DirEntry → World → Run World
  unfolding until_nul
  load_entries have_type [] w = done w
  load_entries have_type (e ∷ es) w =
      let rest = load_entries have_type es in
      if is_persistent have_type e
      then elim (e.read (p.prop_value_max - 1)) [
        | none ↦ rest w
        | some value ↦ property_set p drain e.name (until_nul value) w >>= rest
      ]
      else rest w

  -- With the entries of the directory, if it can be opened.
  unfoldable pub load_persistent_properties : Bool → Option (List DirEntry) → World → Run World
  unfolding load_entries
  load_persistent_properties have_type dir w =
      elim dir [ none ↦ done w | some es ↦ load_entries have_type es w ] >>= λ w'.
      done (record w' { persistent_loaded = true })

  -- The files of `start_property_service` in their order, and the persistent properties behind them; the
  -- socket is left out.
  unfoldable pub start_property_service :
      Bytes → Bytes → Bytes → Bool → Option (List DirEntry) → World → Run World
  unfolding load_properties_from_file load_persistent_properties
  start_property_service build default local have_type dir w =
      load_properties_from_file build w
      >>= load_properties_from_file default
      >>= load_properties_from_file local
      >>= load_persistent_properties have_type dir
