-- ===== src/Init/Machine/CommandSteps.antt =====
-- Every command, and the end of a process, make only the moves of Steps
-- (android2.1_init/init/builtins.c and init.c).
use demonstratortool.Base.{
  ℕ, zero, suc, ◌≡◌, refl, ap, ◌∙◌, ◌≢◌, inl, inr, false, not, ◌||◌, Option, none, some, List, [],
  ◌∷◌, ◌++◌, arith, ltb, ◌==◌, Option-cases, length, get_elem?, set, get_elem?-set_self,
  get_elem?-lt-length, Bytes, codes,
}
use demonstratortool.Init.Keywords.{Keyword}
use demonstratortool.Init.Platform.{Platform, IsPlatform}
use demonstratortool.Init.Config.{Service, Command, SocketInfo}
use demonstratortool.Init.Parser.{service_find_by_name, parse_config}
use demonstratortool.Init.Queue.{queue_trigger}
use demonstratortool.Init.Services.{
  mark_exited, is_doomed, unlink_sockets, service_find_by_pid, at_service, service_start,
  service_stop,
}
use demonstratortool.Init.Builtins.{
  arg, add_environment, parse_config_file, last_read, kernel_command, service_start_if_not_disabled,
  has_class, do_class_start, do_class_stop, do_export, do_import, do_setprop, by_name, do_start,
  do_stop, do_restart, do_trigger, do_loglevel, exec, run_commands, restart_or_reboot,
  service_exited, reap, wait_for_one_process, restart_processes,
}
use demonstratortool.Init.World.{World, Run, done, ◌>>=◌, emit, ask, unlinked}
use demonstratortool.Init.Machine.Steps.{
  exited, restarting, crashed, Steps, import_file, here, one, both, Reaches, Reaches-bind,
  Reaches-after, Reaches-if, Steps-if, ends, out_of_fuel, faults,
}
use demonstratortool.Init.Machine.ServiceSteps.{
  quiet_step, put_after, queue_matching-Steps, property_set-Reaches, notify_service_state-Reaches,
  start-Reaches, stop-Reaches, at_service-Reaches, service_start-Reaches, service_stop-Reaches,
  restart_service_if_needed-Reaches, service_for_each_from-Reaches,
}

arg-Reaches :
    (p : Platform) (args : List Bytes) (i : ℕ) (w : World) (f : Bytes → Run World)
    → ((a : Bytes) → Reaches p w (f a))
    → Reaches p w (arg args i >>= f)
arg-Reaches p args i w f h = elim (Option-cases (get_elem? args i)) [
  | inl e ↦ rw (e, arg) faults
  | inr (a, e) ↦ rw (e, arg) (h a)
]

add_environment-Steps :
    (p : Platform) (key value : Bytes) (w : World) → Steps p w (add_environment key value w)
unfolding add_environment
add_environment-Steps p key value w =
    Steps-if p (ltb (length w.env) 31) (λ _. quiet_step p refl refl refl) (λ _. here)

pub parse_config_file-Reaches :
    (p : Platform) (name : Bytes) (w : World) → Reaches p w (parse_config_file p name w)
unfolding parse_config_file
parse_config_file-Reaches p name w = elim (Option-cases (p.contents w.calls name)) [
  | inl e ↦ rw (e, parse_config_file) (ends (quiet_step p refl refl refl))
  | inr (file, e) ↦ elim (Option-cases (parse_config p (file ++ b'\n' ∷ []) w.config)) [
    | inl f ↦ rw (e, f, parse_config_file) out_of_fuel
    | inr (g, f) ↦
        rw (e, f, parse_config_file) (ends (one (import_file (file ++ b'\n' ∷ []) f refl refl)))
  ]
]

kernel_command-Reaches :
    (p : Platform) (kw : Keyword) (args : List Bytes) (w : World)
    → Reaches p w (kernel_command kw args w)
unfolding kernel_command
kernel_command-Reaches p kw args w = elim (Option-cases (last_read kw (length args))) [
  | inl e ↦ rw (e, kernel_command) (ends here)
  | inr (i, e) ↦
      rw (e, kernel_command) (arg-Reaches p args i w _ (λ _. ends (quiet_step p refl refl refl)))
]

unlink_sockets-Steps :
    (p : Platform) (sockets : List SocketInfo) (w : World) → Steps p w (unlink_sockets sockets w)
unfolding unlink_sockets
unlink_sockets-Steps p [] w = here
unlink_sockets-Steps p (si ∷ rest) w =
    both (quiet_step p {w' = emit (unlinked si.name) w} refl refl refl)
      (unlink_sockets-Steps p rest _)

-- Unlinking makes calls and changes no state.
unlink_sockets-services :
    (sockets : List SocketInfo) (w : World) → (unlink_sockets sockets w).services ≡ w.services
unfolding unlink_sockets
unlink_sockets-services [] w = refl
unlink_sockets-services (si ∷ rest) w = unlink_sockets-services rest (emit (unlinked si.name) w)

service_find_by_pid-pid :
    (services : List Service) (pid i : ℕ) (svc : Service)
    → service_find_by_pid services pid ≡ some i
    → get_elem? services i ≡ some svc
    → svc.pid ≡ pid
unfolding service_find_by_pid
service_find_by_pid-pid [] pid i svc e at = cc
service_find_by_pid-pid (s ∷ rest) pid zero svc e at = ground arith
service_find_by_pid-pid (s ∷ rest) pid (suc i) svc e at =
    ground (arith, service_find_by_pid-pid rest pid i svc)

reap-Steps : (p : Platform) (svc : Service) (w : World) → Steps p w (reap svc w)
unfolding reap
reap-Steps p svc w =
    both (Steps-if p (not svc.flags.oneshot) (λ _. quiet_step p refl refl refl) (λ _. here))
      (unlink_sockets-Steps p svc.sockets _)

pub reap-services : (svc : Service) (w : World) → (reap svc w).services ≡ w.services
unfolding reap
reap-services svc w = unlink_sockets-services svc.sockets _ ∙ ground arith

module _ (p : Platform) (ok : IsPlatform p) (drain : World → Run World)
    (drain-Reaches : (w : World) → Reaches p w (drain w)) (fuel : ℕ) where
  by_name-Reaches :
      (name : Bytes) (f : ℕ → World → Run World) (w : World)
      → ((i : ℕ) → Reaches p w (f i w))
      → Reaches p w (by_name p drain fuel name f w)
  by_name-Reaches name f w h = elim (Option-cases (service_find_by_name w.services name)) [
    | inl e ↦ rw (e, by_name) (ends here)
    | inr (i, e) ↦ rw (e, by_name) (h i)
  ]

  class_start-Reaches :
      (args : List Bytes) (w : World) → Reaches p w (do_class_start p drain fuel args w)
  unfolding do_class_start service_start_if_not_disabled
  class_start-Reaches args w = arg-Reaches p args 1 w _ λ name.
      service_for_each_from-Reaches p ok drain drain-Reaches (has_class p drain fuel name) _ fuel 0
        w
        λ i svc w' at.
          Reaches-if p (not svc.flags.disabled)
            (λ _. start-Reaches p ok drain drain-Reaches i svc none w' at) (λ _. ends here)

  class_stop-Reaches :
      (args : List Bytes) (w : World) → Reaches p w (do_class_stop p drain fuel args w)
  unfolding do_class_stop
  class_stop-Reaches args w = arg-Reaches p args 1 w _ λ name.
      service_for_each_from-Reaches p ok drain drain-Reaches (has_class p drain fuel name) _ fuel 0
        w (λ i svc w' at. stop-Reaches p ok drain drain-Reaches i svc w' at)

  restart-Reaches : (args : List Bytes) (w : World) → Reaches p w (do_restart p drain fuel args w)
  unfolding do_restart
  restart-Reaches args w = arg-Reaches p args 1 w _ λ name.
      by_name-Reaches name (λ i w'. service_stop p drain i w' >>= service_start p drain i none) w
        λ i.
          Reaches-bind p (service_start p drain i none)
            (service_stop-Reaches p ok drain drain-Reaches i w)
            (λ w'. service_start-Reaches p ok drain drain-Reaches i none w')

  pub exec-Reaches :
      (kw : Keyword) (args : List Bytes) (w : World) → Reaches p w (exec p drain fuel kw args w)
  unfolding exec do_export do_import do_setprop do_start do_stop do_trigger do_loglevel
      queue_trigger
  exec-Reaches Keyword.class_start args w = class_start-Reaches args w
  exec-Reaches Keyword.class_stop args w = class_stop-Reaches args w
  exec-Reaches Keyword.export args w =
      arg-Reaches p args 1 w _
        λ key. arg-Reaches p args 2 w _ (λ value. ends (add_environment-Steps p key value w))
  exec-Reaches Keyword.import args w =
      arg-Reaches p args 1 w _ (λ name. parse_config_file-Reaches p name w)
  exec-Reaches Keyword.setprop args w = arg-Reaches p args 1 w _ λ name.
      arg-Reaches p args 2 w _ (λ value. property_set-Reaches p ok drain drain-Reaches name value w)
  exec-Reaches Keyword.start args w = arg-Reaches p args 1 w _ λ name.
      by_name-Reaches name (λ i. service_start p drain i none) w
        (λ i. service_start-Reaches p ok drain drain-Reaches i none w)
  exec-Reaches Keyword.stop args w = arg-Reaches p args 1 w _ λ name.
      by_name-Reaches name (λ i. service_stop p drain i) w
        (λ i. service_stop-Reaches p ok drain drain-Reaches i w)
  exec-Reaches Keyword.restart args w = restart-Reaches args w
  exec-Reaches Keyword.trigger args w =
      arg-Reaches p args 1 w _
        λ name. Reaches-after p (queue_matching-Steps p _ w) (drain-Reaches _)
  exec-Reaches Keyword.loglevel args w =
      Reaches-if p (length args == 2)
        (λ _. arg-Reaches p args 1 w _ (λ level. ends (quiet_step p refl refl refl)))
        (λ _. ends here)
  exec-Reaches kw args w = kernel_command-Reaches p kw args w

  pub run_commands-Reaches :
      (cmds : List Command) (w : World) → Reaches p w (run_commands p drain fuel cmds w)
  unfolding run_commands
  run_commands-Reaches [] w = ends here
  run_commands-Reaches (cmd ∷ rest) w =
      Reaches-bind p (run_commands p drain fuel rest) (exec-Reaches cmd.func cmd.args w)
        (run_commands-Reaches rest)

  restart_or_reboot-Reaches :
      (i : ℕ) (svc : Service) (w : World)
      → get_elem? w.services i ≡ some svc
      → svc.pid ≡ 0
      → svc.flags.running ≡ false
      → svc.flags.disabled ≡ false
      → Reaches p w (restart_or_reboot p drain fuel i svc w)
  unfolding restart_or_reboot
  restart_or_reboot-Reaches i svc w at gone idle on =
      let now = p.clock w.calls in
      Reaches-if p (is_doomed now svc)
        (λ _. ends (
          both (put_after p (ask w) i refl refl refl at (crashed now))
            (quiet_step p refl refl refl)))
        λ _.
          Reaches-bind p _
            (Reaches-after p (put_after p (ask w) i refl refl refl at (restarting now gone idle on))
              (run_commands-Reaches svc.onrestart _))
            (notify_service_state-Reaches p ok drain drain-Reaches svc.name (codes "restarting"))

  service_exited-Reaches :
      (i : ℕ) (svc : Service) (w : World)
      → get_elem? w.services i ≡ some svc
      → svc.pid ≢ 0
      → Reaches p w (service_exited p drain fuel i svc w)
  unfolding service_exited
  service_exited-Reaches i svc w at ne =
      let at' : get_elem? (reap svc w).services i ≡ some svc =
        ap (λ l. get_elem? l i) (reap-services svc w) ∙ at in
      let gone =
        both (reap-Steps p svc w) (put_after p (reap svc w) i refl refl refl at' (exited ne)) in
      let put : get_elem? (set (reap svc w).services i (mark_exited svc)) i
          ≡ some (mark_exited svc) =
        get_elem?-set_self (reap svc w).services i _ (get_elem?-lt-length _ i at') in
      Reaches-if p (svc.flags.oneshot || svc.flags.disabled)
        (λ _.
          Reaches-after p gone
            (notify_service_state-Reaches p ok drain drain-Reaches svc.name (codes "stopped") _))
        (λ on.
          Reaches-after p gone (restart_or_reboot-Reaches i (mark_exited svc) _ put refl refl on))

  pub wait_for_one_process-Reaches :
      (pid : ℕ) (w : World) → Reaches p w (wait_for_one_process p drain fuel pid w)
  unfolding wait_for_one_process
  wait_for_one_process-Reaches pid w =
      Reaches-if p (pid == 0) (λ _. ends here)
        (λ ne. found ne (service_find_by_pid w.services pid) refl)
    where
      found :
          (pid == 0) ≡ false
          → (o : Option ℕ) → service_find_by_pid w.services pid ≡ o
          → Reaches p w (elim o [
            | none ↦ done w
            | some i ↦ at_service p drain i (service_exited p drain fuel i) w
          ])
      found ne none e = ends here
      found ne (some i) e =
          at_service-Reaches p ok drain drain-Reaches i (service_exited p drain fuel i) w λ svc at.
            service_exited-Reaches i svc w at
              (ground (arith, service_find_by_pid-pid w.services pid i svc e at))

  pub restart_processes-Reaches : (w : World) → Reaches p w (restart_processes p drain fuel w)
  unfolding restart_processes
  restart_processes-Reaches w = Reaches-after p (quiet_step p refl refl refl) (
      service_for_each_from-Reaches p ok drain drain-Reaches (λ svc. svc.flags.restarting) _ fuel 0
        _ (restart_service_if_needed-Reaches p ok drain drain-Reaches))
