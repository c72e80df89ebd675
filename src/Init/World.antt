-- ===== src/Init/World.antt =====
-- The global state of android2.1_init/init, the calls that it makes of the kernel, and
-- computations on that state.
use demonstratortool.Base.{ℕ, ◌+◌, Bool, List, ◌∷◌, set, Bytes}
use demonstratortool.Init.Keywords.{Keyword}
use demonstratortool.Init.Links.{Links}
use demonstratortool.Init.Config.{Service, Config}
use demonstratortool.Init.Properties.{PropArea}

-- What the child of `service_start` gives to `setgid`, `setgroups`, `setuid` and `execve`, but for its
-- environment, and whether it opens the console.
pub record ChildImage : Type 0 where
  pub path : Bytes
  pub argv : List Bytes
  pub uid : ℕ
  pub gid : ℕ
  pub supp_gids : List ℕ
  pub needs_console : Bool

-- Calls whose effect is outside init: `fork` with what the child becomes, the two kinds of `kill`
-- (of a process group), `unlink` of a socket, the reboot, a persistent property written to disk, and
-- a command that acts on the kernel alone.
pub data Event : Type 0 where
  spawned : ℕ → ChildImage → Event
  terminated killed : ℕ → Event
  unlinked : Bytes → Event
  rebooted_to_recovery : Event
  saved : Bytes → Bytes → Event
  ran : Keyword → List Bytes → Event

-- The lists of the parser, the property area, `persistent_properties_loaded`, the links of
-- `action_queue` (the head is node 0, and the `qlist` of action i is node i + 1),
-- `property_triggers_enabled`, `have_console`, `process_needs_restart`, `ENV`, `log_level`, the number
-- of questions put to the system so far, and the calls made, the last one first.
pub record World : Type 0 where
  pub config : Config
  pub open config use *
  pub props : PropArea
  pub persistent_loaded : Bool
  pub queue : Links
  pub triggers_enabled : Bool
  pub have_console : Bool
  pub needs_restart : ℕ
  pub env : List (Bytes × Bytes)
  pub log_level : ℕ
  pub calls : ℕ
  pub trace : List Event

-- A computation gives a value, runs out of fuel, or reads an argument that is not there.
pub data Run {ℓ} (A : Type ℓ) : Type ℓ where
  done : A → Run A
  no_fuel bad_argument : Run A

infixl 5 ◌>>=◌
abbrev pub ◌>>=◌ {ℓ κ} : {A : Type ℓ} {B : Type κ} → Run A → (A → Run B) → Run B
done a >>= f = f a
no_fuel >>= f = no_fuel
bad_argument >>= f = bad_argument

abbrev pub emit : Event → World → World
emit e w = record w { trace = e ∷ w.trace }

-- One more question has been put to the system.
abbrev pub ask : World → World
ask w = record w { calls = w.calls + 1 }

abbrev pub with_services : World → List Service → World
with_services w services = record w { config = record w.config { services = services } }

abbrev pub put_service : World → ℕ → Service → World
put_service w i svc = with_services w (set w.services i svc)
