-- ===== src/Init/Keychords.antt =====
-- Chords of keys that start services (android2.1_init/init/init.c and parser.c).
use demonstratortool.Base.{
  ℕ, zero, suc, ◌+◌, Option, none, some, List, [], ◌∷◌, ◌++◌, ◌==◌, if◌then◌else◌, length,
  get_elem?,
}
use demonstratortool.Init.Platform.{Platform}
use demonstratortool.Init.Config.{Service}
use demonstratortool.Init.World.{World, Run, done, put_service}
use demonstratortool.Init.Services.{service_start}

-- A `struct input_keychord`: its id and its keycodes; the version is the same for all.
pub record Keychord : Type 0 where
  pub id : ℕ
  pub keycodes : List ℕ

-- With the keychords so far; ids are counted from 1.
unfoldable pub add_service_keycodes : ℕ → Service → List Keychord → World → World × List Keychord
add_service_keycodes i svc keychords w = elim svc.keycodes [
  | [] ↦ (w, keychords)
  | c ∷ cs ↦ (
    put_service w i (record svc { keychord_id = length keychords + 1 }),
    keychords ++ record { id = length keychords + 1; keycodes = svc.keycodes } ∷ [],
  )
]

-- `service_for_each(add_service_keycodes)` from index `i` on, for so many services.
unfoldable pub keycodes_from : ℕ → ℕ → List Keychord → World → World × List Keychord
unfolding add_service_keycodes
keycodes_from zero i keychords w = (w, keychords)
keycodes_from (suc n) i keychords w = elim (get_elem? w.services i) [
  | none ↦ (w, keychords)
  | some svc ↦
      let (w', keychords') = add_service_keycodes i svc keychords w in
      keycodes_from n (i + 1) keychords' w'
]

-- `open_keychord`, with what it writes to /dev/keychord if that is not empty.
unfoldable pub open_keychord : World → World × List Keychord
unfolding keycodes_from
open_keychord w = keycodes_from (length w.services) 0 [] w

-- The index of the first service with the id.
unfoldable pub service_find_by_keychord : List Service → ℕ → Option ℕ
service_find_by_keychord [] id = none
service_find_by_keychord (svc ∷ rest) id =
    if svc.keychord_id == id
    then some 0
    else elim (service_find_by_keychord rest id) [ none ↦ none | some i ↦ some (suc i) ]

-- For an id that has been read in full.
unfoldable pub handle_keychord : Platform → (World → Run World) → ℕ → World → Run World
unfolding service_find_by_keychord
handle_keychord p drain id w = elim (service_find_by_keychord w.services id) [
  | none ↦ done w
  | some i ↦ service_start p drain i none w
]
