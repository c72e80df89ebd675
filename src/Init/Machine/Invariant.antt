-- ===== src/Init/Machine/Invariant.antt =====
-- What every move of android2.1_init/init keeps: the configuration and the property area.
use demonstratortool.Base.{
  ℕ, ◌≡◌, sym, ap, subst, Bool, true, false, none, some, List, arith, if◌then◌else◌, get_elem?, set,
  All-get_elem?, All-set, Bytes,
}
use demonstratortool.Init.Links.{list_empty}
use demonstratortool.Init.Platform.{Platform, IsPlatform}
use demonstratortool.Init.Config.{Command, Service, Config}
use demonstratortool.Init.Config.Valid.{IsService, IsConfig, HasNames-set}
use demonstratortool.Init.Parser.{parse_config}
use demonstratortool.Init.Parser.Total.{parse_config-IsConfig}
use demonstratortool.Init.Properties.Area.{IsArea, IsSized, write_entry-IsArea}
use demonstratortool.Init.Queue.{action_add_queue_tail, action_remove_queue_head}
use demonstratortool.Init.World.{World, done}
use demonstratortool.Init.Machine.{Input, handle_all}
use demonstratortool.Init.Machine.DrainSteps.{handle_all-Reaches}
use demonstratortool.Init.Machine.Steps.{
  Change, start_again, start_refused, start_failed, started, stopped, exited, restarting,
  restart_due, crashed, keychord_given, Step, service, property, enqueue, run_action, import_file,
  Commands, no_more, command, quiet, Steps, here, one, both, ends_in,
}

pub record IsWorld (p : Platform) (w : World) : Type 0 where
  pub config : IsConfig w.config
  pub props : IsArea p w.props

abbrev KeepsService : Service → Service → Type 0
KeepsService svc svc' = IsService svc' × (svc'.name ≡ svc.name)

Change-KeepsService : {svc svc' : Service} → Change svc svc' → IsService svc → KeepsService svc svc'
Change-KeepsService (start_again e) v = ground arith
Change-KeepsService (start_refused e) v = ground arith
Change-KeepsService (start_failed e) v = ground arith
Change-KeepsService (started now pid e ne) v = ground arith
Change-KeepsService stopped v = ground arith
Change-KeepsService (exited ne) v = ground arith
Change-KeepsService (restarting now z e d) v = ground arith
Change-KeepsService restart_due v = ground arith
Change-KeepsService (crashed now) v = ground arith
Change-KeepsService (keychord_given id) v = ground arith

put_service-IsConfig :
    (g : Config) (i : ℕ) (svc svc' : Service)
    → IsConfig g
    → get_elem? g.services i ≡ some svc
    → KeepsService svc svc'
    → IsConfig (record g { services = set g.services i svc' })
put_service-IsConfig g i svc svc' v at k = record {
  services = All-set IsService g.services i svc' v.services k.0;
  names = HasNames-set g.services i svc' at k.1 v.names;
  actions = v.actions;
}

parse_config_result :
    (p : Platform) (file : Bytes) (g g' : Config)
    → IsConfig g
    → parse_config p file g ≡ some g'
    → IsConfig g'
parse_config_result p file g g' v e =
    let (h, f, k) = parse_config-IsConfig p file g v in
    let same : h ≡ g' = ground arith in subst IsConfig same k

given : (b : Bool) (x y : ℕ × World) → (if b then none else some x) ≡ some y → x ≡ y
given true x y e = cc
given false x y e = cc

-- Taking an action off the queue leaves the lists and the properties.
pub dequeue_same :
    (w w' : World) (i : ℕ)
    → action_remove_queue_head w ≡ some (i, w')
    → (w'.config ≡ w.config) × (w'.props ≡ w.props)
unfolding action_remove_queue_head
dequeue_same w w' i e =
    let taken = given (list_empty w.queue 0) _ (i, w') e in
    (sym (ap (λ (t : ℕ × World). t.1.config) taken), sym (ap (λ (t : ℕ × World). t.1.props) taken))

module _ (p : Platform) (ok : IsPlatform p) (sized : IsSized p) where
  mutual
    unfolding action_add_queue_tail

    Step-IsWorld : {w w' : World} → Step p w w' → IsWorld p w → IsWorld p w'
    Step-IsWorld {w} (service i svc svc' at c) v = record {
      config =
          put_service-IsConfig w.config i svc svc' v.config at
            (Change-KeepsService c (All-get_elem? IsService w.services i v.config.services at));
      props = v.props;
    }
    Step-IsWorld {w} (property name value pa e) v = record {
      config = v.config;
      props = write_entry-IsArea p w.props name value pa ok sized v.props e;
    }
    Step-IsWorld (enqueue i act at) v = record { config = v.config; props = v.props }
    Step-IsWorld {w} (run_action {w' = w1} i e c) v =
        let (a, b) = dequeue_same w w1 i e in
        Commands-IsWorld c (record {
          config = subst IsConfig (sym a) v.config;
          props = subst (IsArea p) (sym b) v.props;
        })
    Step-IsWorld {w} {w'} (import_file file e f q) v = record {
      config = parse_config_result p file w.config w'.config v.config e;
      props = subst (IsArea p) (sym f) v.props;
    }
    Step-IsWorld (quiet q) v = record {
      config = subst IsConfig (sym q.same_config) v.config;
      props = subst (IsArea p) (sym q.same_props) v.props;
    }

    pub Steps-IsWorld : {w w' : World} → Steps p w w' → IsWorld p w → IsWorld p w'
    Steps-IsWorld here v = v
    Steps-IsWorld (one s) v = Step-IsWorld s v
    Steps-IsWorld (both s t) v = Steps-IsWorld t (Steps-IsWorld s v)

    Commands-IsWorld :
        {cmds : List Command} {w w' : World} → Commands p cmds w w' → IsWorld p w → IsWorld p w'
    Commands-IsWorld no_more v = v
    Commands-IsWorld (command fuel cmd e s r) v = Commands-IsWorld r (Steps-IsWorld s v)

  -- If the platform is as described and a value leaves room in the serial number, then whatever
  -- init handles, when it is done the configuration and the property area are valid if they were
  -- at the start. So no service is in two of the states disabled, running and waiting for a
  -- restart, a running service has a process and a waiting one has none, service and property
  -- names are distinct, and there are at most 247 properties.
  pub handle_all-IsWorld :
      (fuel : ℕ) (inputs : List Input) (w w' : World)
      → IsWorld p w
      → handle_all p fuel inputs w ≡ done w'
      → IsWorld p w'
  handle_all-IsWorld fuel inputs w w' v e =
      Steps-IsWorld (ends_in p (rw e at (handle_all-Reaches p ok fuel inputs w))) v
