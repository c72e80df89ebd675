-- ===== src/Init/Builtins.antt =====
-- The commands of android2.1_init/init/builtins.c, and what else runs commands: the end of a
-- process (`wait_for_one_process` of init.c). The return code of a command is only logged.
use demonstratortool.Base.{
  ℕ, ◌-◌, Bool, not, Option, none, some, List, [], ◌∷◌, ◌++◌, ltb, leb, ◌==◌, if◌then◌else◌, length,
  get_elem?, Bytes, codes, streq, atoi,
}
use demonstratortool.Init.Keywords.{Keyword}
use demonstratortool.Init.Platform.{Platform}
use demonstratortool.Init.Config.{Service, Command}
use demonstratortool.Init.Parser.{service_find_by_name, parse_config}
use demonstratortool.Init.Queue.{queue_trigger}
use demonstratortool.Init.Services.{
  mark_exited, mark_restarting, count_crash, is_doomed, unlink_sockets, service_find_by_pid,
  property_set, notify_service_state, start, stop, at_service, service_start, service_stop,
  restart_service_if_needed, service_for_each_from,
}
use demonstratortool.Init.World.{
  killed, rebooted_to_recovery, ran, World, Run, done, no_fuel, bad_argument, ◌>>=◌, emit, ask,
  put_service,
}

-- `args[i]`
abbrev pub arg : List Bytes → ℕ → Run Bytes
arg args i = elim (get_elem? args i) [ none ↦ bad_argument | some a ↦ done a ]

-- `add_environment` of init.c: 31 slots, the first free one is taken.
unfoldable pub add_environment : Bytes → Bytes → World → World
add_environment key value w =
    if ltb (length w.env) 31 then record w { env = w.env ++ (key, value) ∷ [] } else w

-- `parse_config_file` of parser.c; `read_file` of util.c puts a newline behind the file.
unfoldable pub parse_config_file : Platform → Bytes → World → Run World
parse_config_file p name w = elim (p.contents w.calls name) [
  | none ↦ done (ask w)
  | some file ↦ elim (parse_config p (file ++ b'\n' ∷ []) w.config) [
    | none ↦ no_fuel
    | some g ↦ done (record (ask w) { config = g })
  ]
]

-- The last index of `args` that a command on the kernel reads, by the number of arguments, or none
-- if it returns before that.
unfoldable pub last_read : Keyword → ℕ → Option ℕ
last_read Keyword.chdir n = some 1
last_read Keyword.chroot n = some 1
last_read Keyword.domainname n = some 1
last_read Keyword.hostname n = some 1
last_read Keyword.ifup n = some 1
last_read Keyword.insmod n = some (if ltb 2 n then n - 1 else 1)
last_read Keyword.mkdir n =
    some (if n == 5 then 4 else if leb 4 n then 3 else if n == 3 then 2 else 1)
last_read Keyword.mount n = some (if ltb 4 n then n - 1 else 3)
last_read Keyword.setkey n = some 3
last_read Keyword.setrlimit n = some 3
last_read Keyword.symlink n = some 2
last_read Keyword.sysclktz n = if n == 2 then some 1 else none
last_read Keyword.write n = some 2
last_read Keyword.copy n = if n == 3 then some 2 else none
last_read Keyword.chown n = if n == 3 then some 2 else if n == 4 then some 3 else none
last_read Keyword.chmod n = some 2
last_read Keyword.device n = if n == 5 then some 4 else none
last_read _ n = none

unfoldable pub kernel_command : Keyword → List Bytes → World → Run World
unfolding last_read
kernel_command kw args w = elim (last_read kw (length args)) [
  | none ↦ done w
  | some i ↦ arg args i >>= λ _. done (emit (ran kw args) w)
]

-- The process group is killed, unless the service is one-shot, and the sockets are removed.
unfoldable pub reap : Service → World → World
unfolding unlink_sockets
reap svc w =
    unlink_sockets svc.sockets (if not svc.flags.oneshot then emit (killed svc.pid) w else w)

module _ (p : Platform) (drain : World → Run World) (fuel : ℕ) where
  unfoldable pub service_start_if_not_disabled : ℕ → Service → World → Run World
  service_start_if_not_disabled i svc w =
      if not svc.flags.disabled then start p drain i svc none w else done w

  abbrev pub has_class : Bytes → Service → Bool
  has_class name svc = streq svc.classname name

  unfoldable pub do_class_start : List Bytes → World → Run World
  unfolding service_start_if_not_disabled service_for_each_from
  do_class_start args w = do
    name ← arg args 1
    service_for_each_from (has_class name) service_start_if_not_disabled fuel 0 w

  unfoldable pub do_class_stop : List Bytes → World → Run World
  unfolding stop service_for_each_from
  do_class_stop args w = do
    name ← arg args 1
    service_for_each_from (has_class name) (stop p drain) fuel 0 w

  unfoldable pub do_export : List Bytes → World → Run World
  unfolding add_environment
  do_export args w = do key ← arg args 1; value ← arg args 2; done (add_environment key value w)

  unfoldable pub do_import : List Bytes → World → Run World
  unfolding parse_config_file
  do_import args w = do name ← arg args 1; parse_config_file p name w

  unfoldable pub do_setprop : List Bytes → World → Run World
  unfolding property_set
  do_setprop args w = do name ← arg args 1; value ← arg args 2; property_set p drain name value w

  -- A function of the service with a name, if there is one
  abbrev pub by_name : Bytes → (ℕ → World → Run World) → World → Run World
  by_name name f w = elim (service_find_by_name w.services name) [ none ↦ done w | some i ↦ f i w ]

  unfoldable pub do_start : List Bytes → World → Run World
  unfolding service_start
  do_start args w = do name ← arg args 1; by_name name (λ i. service_start p drain i none) w

  unfoldable pub do_stop : List Bytes → World → Run World
  unfolding service_stop
  do_stop args w = do name ← arg args 1; by_name name (λ i. service_stop p drain i) w

  unfoldable pub do_restart : List Bytes → World → Run World
  unfolding service_start service_stop
  do_restart args w = do
    name ← arg args 1
    by_name name (λ i w'. service_stop p drain i w' >>= service_start p drain i none) w

  unfoldable pub do_trigger : List Bytes → World → Run World
  do_trigger args w = do name ← arg args 1; drain (queue_trigger name w)

  unfoldable pub do_loglevel : List Bytes → World → Run World
  do_loglevel args w =
      if length args == 2
      then (arg args 1 >>= λ level. done (record w { log_level = atoi level }))
      else done w

  -- `cmd->func(cmd->nargs, cmd->args)`
  unfoldable pub exec : Keyword → List Bytes → World → Run World
  unfolding do_class_start do_class_stop do_export do_import do_setprop do_start do_stop do_restart
      do_trigger do_loglevel kernel_command
  exec Keyword.class_start args w = do_class_start args w
  exec Keyword.class_stop args w = do_class_stop args w
  exec Keyword.export args w = do_export args w
  exec Keyword.import args w = do_import args w
  exec Keyword.setprop args w = do_setprop args w
  exec Keyword.start args w = do_start args w
  exec Keyword.stop args w = do_stop args w
  exec Keyword.restart args w = do_restart args w
  exec Keyword.trigger args w = do_trigger args w
  exec Keyword.loglevel args w = do_loglevel args w
  exec kw args w = kernel_command kw args w

  unfoldable pub run_commands : List Command → World → Run World
  run_commands [] w = done w
  run_commands (cmd ∷ rest) w = exec cmd.func cmd.args w >>= run_commands rest

  -- Behind the reaping of a process: what is done for its service, from where the state of the
  -- service has been cleared.
  unfoldable pub restart_or_reboot : ℕ → Service → World → Run World
  unfolding run_commands notify_service_state
  restart_or_reboot i svc w0 =
      let now = p.clock w0.calls in
      let w = ask w0 in
      if is_doomed now svc
      then done (emit rebooted_to_recovery (put_service w i (count_crash now svc)))
      else (run_commands svc.onrestart (put_service w i (mark_restarting (count_crash now svc)))
          >>= notify_service_state p drain svc.name (codes "restarting"))

  unfoldable pub service_exited : ℕ → Service → World → Run World
  unfolding restart_or_reboot notify_service_state reap
  service_exited i svc0 w0 =
      let svc = mark_exited svc0 in
      let w = put_service (reap svc0 w0) i svc in
      if svc.flags.disabled
      then notify_service_state p drain svc.name (codes "stopped") w
      else restart_or_reboot i svc w

  -- `wait_for_one_process` for what `waitpid` returns, 0 if there is no process or an error
  unfoldable pub wait_for_one_process : ℕ → World → Run World
  unfolding service_exited
  wait_for_one_process pid w =
      if pid == 0 then done w else elim (service_find_by_pid w.services pid) [
        | none ↦ done w
        | some i ↦ at_service p drain i (service_exited i) w
      ]

  unfoldable pub restart_processes : World → Run World
  unfolding service_for_each_from restart_service_if_needed
  restart_processes w =
      service_for_each_from (λ svc. svc.flags.restarting) (restart_service_if_needed p drain) fuel 0
        (record w { needs_restart = 0 })
