-- ===== src/Init/Machine.antt =====
-- The loop of android2.1_init/init/init.c that runs queued actions, and the entries from outside:
-- requests to set properties, control messages, chords of keys and ended processes.
pub mod Steps
pub mod ServiceSteps
pub mod CommandSteps
pub mod DrainSteps
pub mod Drain
pub mod Crashes
pub mod Invariant
pub mod ReadOnly
use demonstratortool.Base.{
  ℕ, zero, suc, ◌+◌, ◌-◌, ◌*◌, ◌/◌, ◌%◌, ◌^◌, ◌≤◌, ◌<◌, String, ◌≡◌, refl, sym, ap, ◌∙◌, subst, ◌≢◌,
  ◌↔◌, ◌⊎◌, inl, inr, Bool, true, false, not, ◌&&◌, ◌||◌, Option, none, some, List, [], ◌∷◌, ◌++◌,
  map, arith, ltb, leb, ◌==◌, if◌then◌else◌, ==_iff, ==_refl, ltb_iff, leb_iff, Bool-cases,
  Option-cases, length, get_elem?, set, take, drop, All, length-append, length-map, length-tail-le,
  length-set, get_elem?-set_self, get_elem?-set_ne, get_elem?-lt-length, get_elem?-append_self,
  All-append, All-get_elem?, All-set, Bytes, codes, streq, starts_with, strchr, is_space, is_alpha,
  is_digit, is_alnum, streq_iff, streq_refl, starts_with-append, strchr-append, ulong_mod,
  digit_value, strtoul,
}
use demonstratortool.Init.Platform.{Platform}
use demonstratortool.Init.Config.{Action, Command}
use demonstratortool.Init.Parser.{service_find_by_name}
use demonstratortool.Init.Properties.{check_perms, check_control_perms}
use demonstratortool.Init.Queue.{action_remove_queue_head}
use demonstratortool.Init.Services.{property_set, service_start, service_stop}
use demonstratortool.Init.Keychords.{handle_keychord}
use demonstratortool.Init.Builtins.{run_commands, wait_for_one_process, restart_processes}
use demonstratortool.Init.World.{World, Run, done, no_fuel, bad_argument, ◌>>=◌}

-- The commands of the action with an index
abbrev pub commands_at : World → ℕ → List Command
commands_at w i = elim (get_elem? w.actions i) [ none ↦ [] | some act ↦ act.commands ]

-- `drain_action_queue` on fuel. Actions may queue actions, also for ever.
unfoldable pub drain_action_queue : Platform → ℕ → World → Run World
drain_action_queue p zero w = no_fuel
drain_action_queue p (suc fuel) w = elim (action_remove_queue_head w) [
  | none ↦ done w
  | some (i, w') ↦
      run_commands p (drain_action_queue p fuel) fuel (commands_at w' i) w'
      >>= drain_action_queue p fuel
]

-- "name" or "name:arguments"
unfoldable pub split_message : Bytes → Bytes × Option Bytes
split_message s = elim (strchr s b':') [ none ↦ (s, none) | some (name, args) ↦ (name, some args) ]

module _ (p : Platform) (fuel : ℕ) where
  unfoldable pub msg_start : Bytes → World → Run World
  unfolding split_message
  msg_start message w =
      let (name, args) = split_message message in
      elim (service_find_by_name w.services name) [
        | none ↦ done w
        | some i ↦ service_start p (drain_action_queue p fuel) i args w
      ]

  unfoldable pub msg_stop : Bytes → World → Run World
  msg_stop name w = elim (service_find_by_name w.services name) [
    | none ↦ done w
    | some i ↦ service_stop p (drain_action_queue p fuel) i w
  ]

  unfoldable pub handle_control_message : Bytes → Bytes → World → Run World
  unfolding msg_start msg_stop
  handle_control_message msg arg w =
      if streq msg (codes "start")
      then msg_start arg w
      else if streq msg (codes "stop")
      then msg_stop arg w
      else done w

  -- `case PROP_MSG_SETPROP` of `handle_property_set_fd`, for a message of the right size from a client
  -- with these ids; the last byte of each field is overwritten by a NUL.
  unfoldable pub handle_property_set : Bytes → Bytes → ℕ → ℕ → World → Run World
  unfolding handle_control_message
  handle_property_set msg_name msg_value uid gid w =
      let name = take (p.prop_name_max - 1) msg_name in
      let value = take (p.prop_value_max - 1) msg_value in
      if starts_with name (codes "ctl.")
      then (if check_control_perms p value uid gid
          then handle_control_message (drop 4 name) value w
          else done w)
      else if check_perms p name uid gid
      then property_set p (drain_action_queue p fuel) name value w
      else done w

-- What init is woken for, with the fuel for the actions that follow.
pub data Input : Type 0 where
  request : Bytes → Bytes → ℕ → ℕ → Input
  process_ended keychord_pressed : ℕ → Input
  turn : Input

-- The body of the main loop for one input: `turn` is `drain_action_queue` and `restart_processes`.
unfoldable pub handle : Platform → ℕ → Input → World → Run World
handle p fuel (request name value uid gid) w = handle_property_set p fuel name value uid gid w
handle p fuel (process_ended pid) w = wait_for_one_process p (drain_action_queue p fuel) fuel pid w
handle p fuel (keychord_pressed id) w = handle_keychord p (drain_action_queue p fuel) id w
handle p fuel turn w =
    drain_action_queue p fuel w >>= restart_processes p (drain_action_queue p fuel) fuel

unfoldable pub handle_all : Platform → ℕ → List Input → World → Run World
handle_all p fuel [] w = done w
handle_all p fuel (input ∷ rest) w = handle p fuel input w >>= handle_all p fuel rest
