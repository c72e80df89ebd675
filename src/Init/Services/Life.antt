-- ===== src/Init/Services/Life.antt =====
-- The life of a service, branch by branch (android2.1_init/init/init.c).
use demonstratortool.Base.{
  ℕ, ◌+◌, ◌≤◌, ◌<◌, ◌≡◌, refl, inl, inr, false, ◌||◌, Option, none, some, List, [], ◌∷◌, ◌++◌,
  arith, ltb, leb, ◌==◌, Bool-cases, length, length-append, Bytes,
}
use demonstratortool.Init.Platform.{Platform}
use demonstratortool.Init.Config.{Service, svc_max_args}
use demonstratortool.Init.World.{World, Run, done, ask}
use demonstratortool.Init.Services.{
  restart_service_if_needed, append_words, child_argv, split_words,
}

length-append_words :
    (args words : List Bytes)
    → length args < svc_max_args
    → length (append_words args words) ≤ svc_max_args
unfolding append_words
length-append_words args [] h = omega arith
length-append_words args (word ∷ words) h =
    ground (arith, length-append args (word ∷ []), length-append_words (args ++ word ∷ []) words)

-- However many words a control message gives a service, its process gets at most 64 arguments, so
-- that the array of 65 with its end mark holds them, if the service has fewer than 64 of its own.
length-child_argv :
    (svc : Service) (dynamic_args : Option Bytes)
    → length svc.args < svc_max_args
    → length (child_argv svc dynamic_args) ≤ svc_max_args
unfolding child_argv
length-child_argv svc none h = omega arith
length-child_argv svc (some words) h = length-append_words svc.args (split_words [] words) h

-- A service that was started less than five seconds ago is left as it is, and the main
-- loop is told to come back, at a time that is set and no later than five seconds after the
-- start.
restart_too_early :
    (p : Platform) (drain : World → Run World) (i : ℕ) (svc : Service) (w : World)
    → p.clock w.calls < svc.time_started + 5
    → (w' : World) × (restart_service_if_needed p drain i svc w ≡ done w')
      × (w'.services ≡ w.services)
      × (w'.needs_restart ≤ svc.time_started + 5)
      × (0 < w'.needs_restart)
unfolding restart_service_if_needed
restart_too_early p drain i svc w early =
    elim (Bool-cases (ltb (svc.time_started + 5) w.needs_restart || w.needs_restart == 0)) [
      | inl e ↦ (
        record (ask w) { needs_restart = svc.time_started + 5 },
        simp (late, e),
        refl,
        omega arith,
        omega arith,
      )
      | inr e ↦ (ask w, simp (late, e), refl, ground arith, ground arith)
    ]
  where
    late : leb (svc.time_started + 5) (p.clock w.calls) ≡ false
    late = ground arith
