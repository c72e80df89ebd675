-- ===== src/Init/Machine/DrainSteps.antt =====
-- The loop over the action queue and the entries from outside make only the moves of Steps
-- (android2.1_init/init/init.c and property_service.c).
use demonstratortool.Base.{
  ℕ, zero, suc, ◌-◌, refl, inl, inr, List, [], ◌∷◌, Option-cases, take, drop, Bytes, codes, streq,
  starts_with,
}
use demonstratortool.Init.Platform.{Platform, IsPlatform}
use demonstratortool.Init.Parser.{service_find_by_name}
use demonstratortool.Init.Properties.{check_perms, check_control_perms}
use demonstratortool.Init.Queue.{action_remove_queue_head}
use demonstratortool.Init.Config.{Command}
use demonstratortool.Init.Keychords.{service_find_by_keychord, handle_keychord}
use demonstratortool.Init.Builtins.{run_commands, restart_processes}
use demonstratortool.Init.World.{World}
use demonstratortool.Init.Machine.{
  Input, request, process_ended, keychord_pressed, turn, handle, handle_all, commands_at,
  drain_action_queue, split_message, msg_start, msg_stop, handle_control_message,
  handle_property_set,
}
use demonstratortool.Init.Machine.Steps.{
  Reaches-action, Runs, Runs-command, no_more, here, Reaches, Reaches-bind, Reaches-if, ends,
  out_of_fuel,
}
use demonstratortool.Init.Machine.ServiceSteps.{
  property_set-Reaches, service_start-Reaches, service_stop-Reaches,
}
use demonstratortool.Init.Machine.CommandSteps.{
  exec-Reaches, wait_for_one_process-Reaches, restart_processes-Reaches,
}

module _ (p : Platform) (ok : IsPlatform p) where
  run-Runs :
      (fuel : ℕ) (drained : (w : World) → Reaches p w (drain_action_queue p fuel w))
      (cmds : List Command) (w : World)
      → Runs p cmds w (run_commands p (drain_action_queue p fuel) fuel cmds w)
  unfolding run_commands
  run-Runs fuel drained [] w = Runs.ends no_more
  run-Runs fuel drained (cmd ∷ rest) w =
      Runs-command p fuel cmd rest _ refl
        (exec-Reaches p ok (drain_action_queue p fuel) drained fuel cmd.func cmd.args w)
        (run-Runs fuel drained rest)

  pub drain_action_queue-Reaches :
      (fuel : ℕ) (w : World) → Reaches p w (drain_action_queue p fuel w)
  unfolding drain_action_queue
  drain_action_queue-Reaches zero w = out_of_fuel
  drain_action_queue-Reaches (suc fuel) w = elim (Option-cases (action_remove_queue_head w)) [
    | inl e ↦ rw (e, drain_action_queue) (ends here)
    | inr ((i, w'), e) ↦
        rw (e, drain_action_queue)
          (Reaches-action p i (drain_action_queue p fuel) e
            (run-Runs fuel (drain_action_queue-Reaches fuel) (commands_at w' i) w')
            (drain_action_queue-Reaches fuel))
  ]

  msg_start-Reaches :
      (fuel : ℕ) (message : Bytes) (w : World) → Reaches p w (msg_start p fuel message w)
  unfolding msg_start
  msg_start-Reaches fuel message w =
      elim (Option-cases (service_find_by_name w.services (split_message message).0)) [
        | inl e ↦ rw (e, msg_start) (ends here)
        | inr (i, e) ↦
            rw (e, msg_start)
              (service_start-Reaches p ok (drain_action_queue p fuel)
                (drain_action_queue-Reaches fuel) i _ w)
      ]

  handle_keychord-Reaches :
      (fuel id : ℕ) (w : World) → Reaches p w (handle_keychord p (drain_action_queue p fuel) id w)
  unfolding handle_keychord
  handle_keychord-Reaches fuel id w = elim (Option-cases (service_find_by_keychord w.services id)) [
    | inl e ↦ rw (e, handle_keychord) (ends here)
    | inr (i, e) ↦
        rw (e, handle_keychord)
          (service_start-Reaches p ok (drain_action_queue p fuel) (drain_action_queue-Reaches fuel)
            i _ w)
  ]

  msg_stop-Reaches : (fuel : ℕ) (name : Bytes) (w : World) → Reaches p w (msg_stop p fuel name w)
  unfolding msg_stop
  msg_stop-Reaches fuel name w = elim (Option-cases (service_find_by_name w.services name)) [
    | inl e ↦ rw (e, msg_stop) (ends here)
    | inr (i, e) ↦
        rw (e, msg_stop)
          (service_stop-Reaches p ok (drain_action_queue p fuel) (drain_action_queue-Reaches fuel) i
            w)
  ]

  handle_control_message-Reaches :
      (fuel : ℕ) (msg arg : Bytes) (w : World)
      → Reaches p w (handle_control_message p fuel msg arg w)
  unfolding handle_control_message
  handle_control_message-Reaches fuel msg arg w =
      Reaches-if p (streq msg (codes "start")) (λ _. msg_start-Reaches fuel arg w)
        λ _.
          Reaches-if p (streq msg (codes "stop")) (λ _. msg_stop-Reaches fuel arg w)
            (λ _. ends here)

  handle_property_set-Reaches :
      (fuel : ℕ) (name value : Bytes) (uid gid : ℕ) (w : World)
      → Reaches p w (handle_property_set p fuel name value uid gid w)
  unfolding handle_property_set
  handle_property_set-Reaches fuel name value uid gid w =
      let n = take (p.prop_name_max - 1) name in
      let v = take (p.prop_value_max - 1) value in
      Reaches-if p (starts_with n (codes "ctl."))
        (λ _.
          Reaches-if p (check_control_perms p v uid gid)
            (λ _. handle_control_message-Reaches fuel (drop 4 n) v w) (λ _. ends here))
        λ _.
          Reaches-if p (check_perms p n uid gid)
            (λ _.
              property_set-Reaches p ok (drain_action_queue p fuel)
                (drain_action_queue-Reaches fuel) n v w)
            (λ _. ends here)

module _ (p : Platform) (ok : IsPlatform p) where
  handle-Reaches : (fuel : ℕ) (input : Input) (w : World) → Reaches p w (handle p fuel input w)
  unfolding handle
  handle-Reaches fuel (request name value uid gid) w =
      handle_property_set-Reaches p ok fuel name value uid gid w
  handle-Reaches fuel (process_ended pid) w =
      wait_for_one_process-Reaches p ok (drain_action_queue p fuel)
        (drain_action_queue-Reaches p ok fuel) fuel pid w
  handle-Reaches fuel (keychord_pressed id) w = handle_keychord-Reaches p ok fuel id w
  handle-Reaches fuel turn w =
      Reaches-bind p (restart_processes p (drain_action_queue p fuel) fuel)
        (drain_action_queue-Reaches p ok fuel w)
        (restart_processes-Reaches p ok (drain_action_queue p fuel)
          (drain_action_queue-Reaches p ok fuel) fuel)

  -- If the platform is as described, then whatever requests, ended processes, chords of keys and
  -- turns of the main loop init handles, the world in which a run ends, if it ends, is reached by moves of
  -- the specification alone. So an action of the configuration is queued, and it leaves the queue only to
  -- be run, with all its commands in their order; and a service, the properties and the lists change as the
  -- moves allow.
  pub handle_all-Reaches :
      (fuel : ℕ) (inputs : List Input) (w : World) → Reaches p w (handle_all p fuel inputs w)
  unfolding handle_all
  handle_all-Reaches fuel [] w = ends here
  handle_all-Reaches fuel (input ∷ rest) w =
      Reaches-bind p (handle_all p fuel rest) (handle-Reaches fuel input w)
        (handle_all-Reaches fuel rest)
