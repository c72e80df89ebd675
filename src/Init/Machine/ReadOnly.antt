-- ===== src/Init/Machine/ReadOnly.antt =====
-- `ro.` properties over a whole run of android2.1_init/init.
use demonstratortool.Base.{sym, subst, ℕ, ◌≡◌, true, some, List, Bytes, starts_with}
use demonstratortool.Init.Config.Valid.{IsConfig}
use demonstratortool.Init.Properties.Area.{IsArea}
use demonstratortool.Init.Platform.{Platform, IsPlatform}
use demonstratortool.Init.Properties.Area.{IsSized, write_entry-Written}
use demonstratortool.Init.Properties.Lookup.{value_of}
use demonstratortool.Init.Properties.{ro_prefix}
use demonstratortool.Init.Properties.ReadOnly.{KeepsReadOnly, Written-KeepsReadOnly}
use demonstratortool.Init.Queue.{action_add_queue_tail}
use demonstratortool.Init.World.{World, done}
use demonstratortool.Init.Machine.{Command, Input, handle_all}
use demonstratortool.Init.Machine.DrainSteps.{handle_all-Reaches}
use demonstratortool.Init.Machine.Invariant.{IsWorld, Steps-IsWorld, dequeue_same}
use demonstratortool.Init.Machine.Steps.{
  Step, service, property, enqueue, run_action, import_file, Commands, no_more, command, quiet,
  Steps, here, one, both, ends_in,
}

module _ (p : Platform) (ok : IsPlatform p) (sized : IsSized p) where
  mutual
    unfolding action_add_queue_tail

    Step-KeepsReadOnly : {w w' : World} → Step p w w' → IsWorld p w → KeepsReadOnly w.props w'.props
    Step-KeepsReadOnly (service i svc svc' at c) v n x r h = h
    Step-KeepsReadOnly {w} (property name value pa e) v n x r h =
        Written-KeepsReadOnly p w.props name value pa v.props.names
          (write_entry-Written p w.props name value pa ok e).0 n x r h
    Step-KeepsReadOnly (enqueue i act at) v n x r h = h
    Step-KeepsReadOnly {w} {w'} (run_action {w' = w1} i e c) v n x r h =
        let (a, b) = dequeue_same w w1 i e in
        Commands-KeepsReadOnly c
          (record {
            config = subst IsConfig (sym a) v.config;
            props = subst (IsArea p) (sym b) v.props;
          })
          n x r (rw b h)
    Step-KeepsReadOnly (import_file file e f q) v n x r h = rw f h
    Step-KeepsReadOnly (quiet q) v n x r h = rw q.same_props h

    Steps-KeepsReadOnly :
        {w w' : World} → Steps p w w' → IsWorld p w → KeepsReadOnly w.props w'.props
    Steps-KeepsReadOnly here v n x r h = h
    Steps-KeepsReadOnly (one s) v n x r h = Step-KeepsReadOnly s v n x r h
    Steps-KeepsReadOnly (both s t) v n x r h =
        Steps-KeepsReadOnly t (Steps-IsWorld p ok sized s v) n x r (Steps-KeepsReadOnly s v n x r h)

    Commands-KeepsReadOnly :
        {cmds : List Command} {w w' : World}
        → Commands p cmds w w'
        → IsWorld p w
        → KeepsReadOnly w.props w'.props
    Commands-KeepsReadOnly no_more v n x r h = h
    Commands-KeepsReadOnly (command fuel cmd e s c) v n x r h =
        Commands-KeepsReadOnly c (Steps-IsWorld p ok sized s v) n x r
          (Steps-KeepsReadOnly s v n x r h)

  -- If the platform is as described and the world is valid at the start, a `ro.` property that
  -- has a value has the same value when init is done, whatever it handles.
  pub handle_all-read_only :
      (fuel : ℕ) (inputs : List Input) (w w' : World) (name value : Bytes)
      → IsWorld p w
      → handle_all p fuel inputs w ≡ done w'
      → starts_with name ro_prefix ≡ true
      → value_of w.props.entries name ≡ some value
      → value_of w'.props.entries name ≡ some value
  handle_all-read_only fuel inputs w w' name value v e r h =
      Steps-KeepsReadOnly (ends_in p (rw e at (handle_all-Reaches p ok fuel inputs w))) v name value
        r h
