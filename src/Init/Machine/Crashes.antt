-- ===== src/Init/Machine/Crashes.antt =====
-- When a critical service that crashes makes init reboot (`wait_for_one_process` of
-- android2.1_init/init/init.c).
use demonstratortool.Base.{
  ℕ, ◌+◌, ◌≤◌, ◌<◌, ◌≡◌, refl, ap, ◌∙◌, ◌≢◌, ◌⊎◌, inl, inr, true, false, some, List, [], ◌∷◌, arith,
  leb, ◌==◌, leb_iff, Bool-cases, length, length-set, All, get_elem?, get_elem?-set_self,
  get_elem?-lt-length, codes,
}
use demonstratortool.Init.Platform.{Platform}
use demonstratortool.Init.Config.{Service, SocketInfo}
use demonstratortool.Init.World.{
  ask, put_service, World, Run, done, ◌>>=◌, emit, rebooted_to_recovery,
}
use demonstratortool.Init.Services.{
  at_service, mark_restarting, count_crash, is_doomed, critical_crash_threshold,
  critical_crash_window, unlink_sockets, service_find_by_pid, notify_service_state, mark_exited,
}
use demonstratortool.Init.Builtins.{
  reap, run_commands, restart_or_reboot, service_exited, wait_for_one_process,
}
use demonstratortool.Init.Machine.CommandSteps.{reap-services}

-- What is recorded of a service after crashes at the given times, one after the other.
unfoldable pub counted : List ℕ → Service → Service
counted [] svc = svc
counted (now ∷ later) svc = counted later (count_crash now svc)

abbrev InWindow : ℕ → ℕ → Type 0
InWindow first now = now ≤ first + critical_crash_window

-- Inside the window of a first crash, the crashes are counted.
counted-InWindow :
    (times : List ℕ) (svc : Service)
    → svc.flags.critical ≡ true
    → All (InWindow svc.time_crashed) times
    → counted times svc ≡ record svc { nr_crashed = svc.nr_crashed + length times }
unfolding counted
counted-InWindow [] svc c h = ap (λ n. record svc { nr_crashed = n }) (omega arith)
counted-InWindow (now ∷ later) svc c h =
    let once : count_crash now svc ≡ record svc { nr_crashed = svc.nr_crashed + 1 } =
      simp (c, (leb_iff now _).1 h.0) in
    ap (counted later) once
    ∙ counted-InWindow later (record svc { nr_crashed = svc.nr_crashed + 1 }) c h.1
    ∙ ap (λ n. record svc { nr_crashed = n }) (omega arith)

-- The process of the service with index `i`, which is neither one-shot nor disabled, has ended.
pub record HasEnded (w : World) (pid i : ℕ) (svc : Service) : Type 0 where
  pub a_process : pid ≢ 0
  pub found : service_find_by_pid w.services pid ≡ some i
  pub at : get_elem? w.services i ≡ some svc
  pub lasting : svc.flags.oneshot ≡ false
  pub on : svc.flags.disabled ≡ false

unlink_sockets-calls :
    (sockets : List SocketInfo) (w : World) → (unlink_sockets sockets w).calls ≡ w.calls
unfolding unlink_sockets
unlink_sockets-calls [] w = refl
unlink_sockets-calls (si ∷ rest) w = unlink_sockets-calls rest _

reap-calls : (svc : Service) (w : World) → (reap svc w).calls ≡ w.calls
unfolding reap
reap-calls svc w = unlink_sockets-calls svc.sockets _ ∙ ground arith

-- What init does behind the first test of wait_for_one_process.
ended_lem :
    (p : Platform) (drain : World → Run World) (fuel : ℕ) (w : World) (pid i : ℕ) (svc : Service)
    → HasEnded w pid i svc
    → wait_for_one_process p drain fuel pid w ≡ service_exited p drain fuel i svc w
unfolding wait_for_one_process
ended_lem p drain fuel w pid i svc v =
    let some_pid : (pid == 0) ≡ false = ground (arith, v.a_process) in
    rw (some_pid, wait_for_one_process, v.found) (rw (at_service, v.at) refl)

module _ (p : Platform) (drain : World → Run World) (fuel : ℕ) (w : World) (pid i : ℕ)
    (svc : Service) (v : HasEnded w pid i svc) where
  -- The world in which init reads the clock.
  abbrev reaped : World
  reaped = put_service (reap svc w) i (mark_exited svc)

  exited_lem :
      wait_for_one_process p drain fuel pid w
      ≡ restart_or_reboot p drain fuel i (mark_exited svc) reaped
  unfolding service_exited
  exited_lem = ended_lem p drain fuel w pid i svc v ∙ rw (v.lasting, v.on, service_exited) refl

  reboots :
      is_doomed (p.clock reaped.calls) (mark_exited svc) ≡ true
      → (w' : World) × (wait_for_one_process p drain fuel pid w
          ≡ done (emit rebooted_to_recovery w'))
  unfolding restart_or_reboot
  reboots e = (
    put_service (ask reaped) i (count_crash (p.clock reaped.calls) (mark_exited svc)),
    exited_lem ∙ rw (e, restart_or_reboot) refl,
  )

  restarts :
      is_doomed (p.clock reaped.calls) (mark_exited svc) ≡ false
      → wait_for_one_process p drain fuel pid w ≡ (
          run_commands p drain fuel svc.onrestart (
            put_service
              (ask reaped)
              i
              (mark_restarting (count_crash (p.clock reaped.calls) (mark_exited svc))))
          >>= notify_service_state p drain svc.name (codes "restarting"))
  unfolding restart_or_reboot
  restarts e = exited_lem ∙ rw (e, restart_or_reboot) refl

-- The record of a service whose first crash stands outside the window of the earlier ones.
recorded :
    (first : ℕ) (times : List ℕ) (svc : Service)
    → svc.flags.critical ≡ true
    → svc.time_crashed + critical_crash_window < first
    → All (InWindow first) times
    → counted (first ∷ times) svc
      ≡ record svc { time_crashed = first; nr_crashed = 1 + length times }
unfolding counted
recorded first times svc c outside h =
    let begun : Service = record svc { time_crashed = first; nr_crashed = 1 } in
    let once : count_crash first svc ≡ begun = simp (c, late) in
    ap (counted times) once ∙ counted-InWindow times begun c h
  where
    late : leb first (svc.time_crashed + critical_crash_window) ≡ false
    late = ground arith

-- The counters of a service are those of another one.
pub record SameCounts (svc svc' : Service) : Type 0 where
  pub same_time : svc.time_crashed ≡ svc'.time_crashed
  pub same_number : svc.nr_crashed ≡ svc'.nr_crashed

-- The end of the process makes init reboot into recovery.
abbrev pub Reboots : Platform → (World → Run World) → ℕ → World → ℕ → Type 0
Reboots p drain fuel w pid =
    (w' : World) × (wait_for_one_process p drain fuel pid w ≡ done (emit rebooted_to_recovery w'))

-- The service is to be restarted, with so many crashes since `first`; its onrestart commands run, and
-- its state is announced.
abbrev pub Restarts : Platform → (World → Run World) → ℕ → World → ℕ → ℕ → Service → ℕ → ℕ → Type 0
Restarts p drain fuel w pid i svc first number =
    (w' : World) × (svc' : Service) × (wait_for_one_process p drain fuel pid w ≡ (
      run_commands p drain fuel svc.onrestart w'
      >>= notify_service_state p drain svc.name (codes "restarting")))
    × (get_elem? w'.services i ≡ some svc')
    × (svc'.flags.restarting ≡ true)
    × (svc'.time_crashed ≡ first)
    × (svc'.nr_crashed ≡ number)

-- The process of a critical service ends, once more, within 240 seconds of `first`: its counters are what
-- crashes at `first`, outside the window of the crashes before that, and then at `times`, within 240
-- seconds of `first`, have left. If with this one these crashes are more than four, init reboots
-- into recovery; else the service is to be restarted with this crash counted, its onrestart commands
-- run, and its state is announced.
pub wait_for_one_process-critical :
    (p : Platform) (drain : World → Run World) (fuel : ℕ) (w : World) (pid i first : ℕ)
    (times : List ℕ) (svc earlier : Service)
    → HasEnded w pid i svc
    → svc.flags.critical ≡ true
    → earlier.flags.critical ≡ true
    → earlier.time_crashed + critical_crash_window < first
    → All (λ now. now ≤ first + critical_crash_window) times
    → SameCounts svc (counted (first ∷ times) earlier)
    → p.clock w.calls ≤ first + critical_crash_window
    → ((critical_crash_threshold < 2 + length times) × Reboots p drain fuel w pid)
      ⊎ ((2 + length times ≤ critical_crash_threshold)
          × Restarts p drain fuel w pid i svc first (2 + length times))
wait_for_one_process-critical p drain fuel w pid i first times svc earlier v c c0 outside h same
      soon =
    let old = recorded first times earlier c0 outside h in
    let time : svc.time_crashed ≡ first =
      same.same_time ∙ ap (λ (s : Service). s.time_crashed) old in
    let number : svc.nr_crashed ≡ 1 + length times =
      same.same_number ∙ ap (λ (s : Service). s.nr_crashed) old in
    let now : ℕ = p.clock (reaped p drain fuel w pid i svc v).calls in
    let read : now ≡ p.clock w.calls = ap p.clock (reap-calls svc w) in
    let inside : leb now (svc.time_crashed + critical_crash_window) ≡ true = ground arith in
    let inside_list : i < length (reap svc w).services =
      get_elem?-lt-length _ i (ap (λ l. get_elem? l i) (reap-services svc w) ∙ v.at) in
    let counts : count_crash now (mark_exited svc)
        ≡ record (mark_exited svc) { nr_crashed = svc.nr_crashed + 1 } =
      simp (c, inside) in
    elim (Bool-cases (is_doomed now (mark_exited svc))) [
      | inl e ↦ inl (ground arith, reboots p drain fuel w pid i svc v e)
      | inr e ↦ inr (
        ground arith,
        (
          put_service (ask (reaped p drain fuel w pid i svc v)) i
              (mark_restarting (count_crash now (mark_exited svc))),
          mark_restarting (count_crash now (mark_exited svc)),
          restarts p drain fuel w pid i svc v e,
          get_elem?-set_self (reaped p drain fuel w pid i svc v).services i _
              (ground (arith, length-set (reap svc w).services i (mark_exited svc), inside_list)),
          refl,
          ap (λ (s : Service). s.time_crashed) counts ∙ time,
          ap (λ (s : Service). s.nr_crashed) counts ∙ omega arith,
        ),
      )
    ]
