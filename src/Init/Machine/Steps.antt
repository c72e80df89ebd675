-- ===== src/Init/Machine/Steps.antt =====
-- The moves that the state of android2.1_init/init can make: a specification of the program as a
-- step relation, with the life of a service as a relation of its own.
use demonstratortool.Base.{
  ℕ, ◌≡◌, refl, ◌≢◌, Bool, true, false, some, List, [], ◌∷◌, if◌then◌else◌, get_elem?, Bytes,
}
use demonstratortool.Init.Platform.{Platform}
use demonstratortool.Init.Config.{Service, Action, Command}
use demonstratortool.Init.Builtins.{exec}
use demonstratortool.Init.Machine.{commands_at, drain_action_queue}
use demonstratortool.Init.Parser.{parse_config}
use demonstratortool.Init.Properties.{PropArea, write_entry}
use demonstratortool.Init.Queue.{action_add_queue_tail, action_remove_queue_head}
use demonstratortool.Init.Services.{
  clear_for_start, disable, mark_running, mark_stopped, mark_exited, mark_restarting, mark_due,
  count_crash,
}
use demonstratortool.Init.World.{World, Run, done, no_fuel, bad_argument, ◌>>=◌, put_service}

-- What may happen to a service. A start leaves a running service running; another one is disabled,
-- has failed to fork, or runs as a process. A process that ends leaves its service exited; an exited
-- service that is not disabled waits for its restart, or has crashed too often.
pub data Change (svc : Service) : Service → Type 0 where
  start_again : svc.flags.running ≡ true → Change svc (clear_for_start svc)
  start_refused : svc.flags.running ≡ false → Change svc (disable (clear_for_start svc))
  start_failed : svc.flags.running ≡ false → Change svc (record (clear_for_start svc) { pid = 0 })
  started :
      (now pid : ℕ)
      → svc.flags.running ≡ false
      → pid ≢ 0
      → Change svc (mark_running now pid (clear_for_start svc))
  stopped : Change svc (mark_stopped svc)
  exited : svc.pid ≢ 0 → Change svc (mark_exited svc)
  restarting :
      (now : ℕ)
      → svc.pid ≡ 0
      → svc.flags.running ≡ false
      → svc.flags.disabled ≡ false
      → Change svc (mark_restarting (count_crash now svc))
  restart_due : Change svc (mark_due svc)
  crashed : (now : ℕ) → Change svc (count_crash now svc)
  keychord_given : (id : ℕ) → Change svc (record svc { keychord_id = id })

-- The same lists, properties and queue; what else there is may differ.
pub record Quiet (w w' : World) : Type 0 where
  pub same_config : w'.config ≡ w.config
  pub same_props : w'.props ≡ w.props
  pub same_queue : w'.queue ≡ w.queue

-- An action leaves the queue only to be run: all its commands, in their order. A command ends where its
-- function does, and gets there by moves, in which further actions may be run.
mutual
  pub data Step (p : Platform) : World → World → Type 0 where
    service :
        {w : World} (i : ℕ) (svc svc' : Service)
        → get_elem? w.services i ≡ some svc
        → Change svc svc'
        → Step p w (put_service w i svc')
    property :
        {w : World} (name value : Bytes) (pa : PropArea)
        → write_entry p w.props name value ≡ some pa
        → Step p w (record w { props = pa })
    enqueue :
        {w : World} (i : ℕ) (act : Action)
        → get_elem? w.actions i ≡ some act
        → Step p w (action_add_queue_tail i w)
    run_action :
        {w w' w'' : World} (i : ℕ)
        → action_remove_queue_head w ≡ some (i, w')
        → Commands p (commands_at w' i) w' w''
        → Step p w w''
    import_file :
        {w w' : World} (file : Bytes)
        → parse_config p file w.config ≡ some w'.config
        → w'.props ≡ w.props
        → w'.queue ≡ w.queue
        → Step p w w'
    quiet : {w w' : World} → Quiet w w' → Step p w w'

  pub data Steps (p : Platform) : World → World → Type 0 where
    here : {w : World} → Steps p w w
    one : {w w' : World} → Step p w w' → Steps p w w'
    both : {w w' w'' : World} → Steps p w w' → Steps p w' w'' → Steps p w w''

  pub data Commands (p : Platform) : List Command → World → World → Type 0 where
    no_more : {w : World} → Commands p [] w w
    command :
        {w w' w'' : World} {rest : List Command} (fuel : ℕ) (cmd : Command)
        → exec p (drain_action_queue p fuel) fuel cmd.func cmd.args w ≡ done w'
        → Steps p w w'
        → Commands p rest w' w''
        → Commands p (cmd ∷ rest) w w''

-- Whatever world a computation ends in is reached by steps.
pub data Reaches (p : Platform) (w : World) : Run World → Type 0 where
  ends : {w' : World} → Steps p w w' → Reaches p w (done w')
  out_of_fuel : Reaches p w no_fuel
  faults : Reaches p w bad_argument

-- The same, for the commands of an action.
pub data Runs (p : Platform) (cmds : List Command) (w : World) : Run World → Type 0 where
  ends : {w' : World} → Commands p cmds w w' → Runs p cmds w (done w')
  out_of_fuel : Runs p cmds w no_fuel
  faults : Runs p cmds w bad_argument

Runs-after :
    (p : Platform) (fuel : ℕ) (cmd : Command) (rest : List Command) {w w' : World} {m : Run World}
    → exec p (drain_action_queue p fuel) fuel cmd.func cmd.args w ≡ done w'
    → Steps p w w'
    → Runs p rest w' m
    → Runs p (cmd ∷ rest) w m
Runs-after p fuel cmd rest e s (Runs.ends r) = Runs.ends (command fuel cmd e s r)
Runs-after p fuel cmd rest e s Runs.out_of_fuel = Runs.out_of_fuel
Runs-after p fuel cmd rest e s Runs.faults = Runs.faults

pub Runs-command :
    (p : Platform) (fuel : ℕ) (cmd : Command) (rest : List Command) {w : World} {m : Run World}
    (f : World → Run World)
    → exec p (drain_action_queue p fuel) fuel cmd.func cmd.args w ≡ m
    → Reaches p w m
    → ((w' : World) → Runs p rest w' (f w'))
    → Runs p (cmd ∷ rest) w (m >>= f)
Runs-command p fuel cmd rest f e (Reaches.ends {w'} s) k = Runs-after p fuel cmd rest e s (k w')
Runs-command p fuel cmd rest f e Reaches.out_of_fuel k = Runs.out_of_fuel
Runs-command p fuel cmd rest f e Reaches.faults k = Runs.faults

pub Reaches-after :
    (p : Platform) {w w' : World} {m : Run World} → Steps p w w' → Reaches p w' m → Reaches p w m
Reaches-after p s (ends r) = ends (both s r)
Reaches-after p s out_of_fuel = out_of_fuel
Reaches-after p s faults = faults

pub Reaches-action :
    (p : Platform) (i : ℕ) {w w' : World} {m : Run World} (f : World → Run World)
    → action_remove_queue_head w ≡ some (i, w')
    → Runs p (commands_at w' i) w' m
    → ((w'' : World) → Reaches p w'' (f w''))
    → Reaches p w (m >>= f)
Reaches-action p i f e (Runs.ends {w' = w''} r) k = Reaches-after p (one (run_action i e r)) (k w'')
Reaches-action p i f e Runs.out_of_fuel k = Reaches.out_of_fuel
Reaches-action p i f e Runs.faults k = Reaches.faults

pub Reaches-bind :
    (p : Platform) {w : World} {m : Run World} (f : World → Run World)
    → Reaches p w m
    → ((w' : World) → Reaches p w' (f w'))
    → Reaches p w (m >>= f)
Reaches-bind p f (ends {w'} s) k = Reaches-after p s (k w')
Reaches-bind p f out_of_fuel k = out_of_fuel
Reaches-bind p f faults k = faults

pub Reaches-if :
    (p : Platform) {w : World} (b : Bool) {x y : Run World}
    → (b ≡ true → Reaches p w x)
    → (b ≡ false → Reaches p w y)
    → Reaches p w (if b then x else y)
Reaches-if p true h k = h refl
Reaches-if p false h k = k refl

pub Steps-if :
    (p : Platform) {w : World} (b : Bool) {x y : World}
    → (b ≡ true → Steps p w x)
    → (b ≡ false → Steps p w y)
    → Steps p w (if b then x else y)
Steps-if p true h k = h refl
Steps-if p false h k = k refl

pub ends_in : (p : Platform) {w w' : World} → Reaches p w (done w') → Steps p w w'
ends_in p (ends s) = s
