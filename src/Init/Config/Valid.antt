-- ===== src/Init/Config/Valid.antt =====
-- What the parser of android2.1_init/init/parser.c guarantees of the structures that it fills.
use demonstratortool.Base.{
  ℕ, zero, suc, ◌+◌, ◌≤◌, ◌≡◌, sym, subst, ◌≢◌, true, false, ◌&&◌, some, List, [], ◌∷◌, ◌++◌, arith,
  length, get_elem?, set, All, All-append, All-get_elem?, All-set, Bytes,
}
use demonstratortool.Init.Keywords.{keyword_info, is_command}
use demonstratortool.Init.Config.{
  Command, Action, Flags, Service, Config, nr_svc_supp_gids, svc_max_args,
}

-- A command stands behind its own keyword, with as many arguments as `keyword_info` asks for.
pub record IsCommand (cmd : Command) : Type 0 where
  pub kind : is_command cmd.func ≡ true
  pub enough : (keyword_info cmd.func).nargs ≤ length cmd.args
  pub bounded : length cmd.args ≤ svc_max_args

-- At most one of `SVC_DISABLED`, `SVC_RUNNING` and `SVC_RESTARTING` is set.
abbrev pub IsExclusive : Flags → Type 0
IsExclusive f =
    ((f.disabled && f.running) ≡ false)
    × ((f.disabled && f.restarting) ≡ false)
    × ((f.running && f.restarting) ≡ false)

pub record IsService (svc : Service) : Type 0 where
  pub exclusive : IsExclusive svc.flags
  pub running_pid : svc.flags.running ≡ true → svc.pid ≢ 0
  pub restarting_pid : svc.flags.restarting ≡ true → svc.pid ≡ 0
  pub groups : length svc.supp_gids ≤ nr_svc_supp_gids
  pub program : 1 ≤ length svc.args
  pub room : length svc.args + 2 ≤ svc_max_args
  pub restart_commands : All IsCommand svc.onrestart

abbrev pub IsAction : Action → Type 0
IsAction act = All IsCommand act.commands

abbrev pub IsUnnamed : Bytes → List Service → Type 0
IsUnnamed name services = All (λ svc. svc.name ≢ name) services

-- No two services have one name.
abbrev pub HasNames : List Service → Type 0
HasNames [] = Unit
HasNames (svc ∷ rest) = IsUnnamed svc.name rest × HasNames rest

pub record IsConfig (g : Config) : Type 0 where
  pub services : All IsService g.services
  pub names : HasNames g.services
  pub actions : All IsAction g.actions

IsUnnamed-append :
    (name : Bytes) (services : List Service) (svc : Service)
    → IsUnnamed name services
    → svc.name ≢ name
    → IsUnnamed name (services ++ svc ∷ [])
IsUnnamed-append name services svc h k =
    All-append (λ s. s.name ≢ name) services (svc ∷ []) h (k, tt)

pub HasNames-append :
    (services : List Service) (svc : Service)
    → HasNames services
    → IsUnnamed svc.name services
    → HasNames (services ++ svc ∷ [])
HasNames-append [] svc h u = (tt, tt)
HasNames-append (s ∷ rest) svc h u =
    (IsUnnamed-append s.name rest svc h.0 (λ e. u.0 (sym e)), HasNames-append rest svc h.1 u.1)

IsUnnamed-set :
    (name : Bytes) (services : List Service) (i : ℕ) {old : Service} (new : Service)
    → get_elem? services i ≡ some old
    → new.name ≡ old.name
    → IsUnnamed name services
    → IsUnnamed name (set services i new)
IsUnnamed-set name services i new e k u =
    All-set (λ s. s.name ≢ name) services i new u
      (rw k (All-get_elem? (λ s. s.name ≢ name) services i u e))

-- A service may change, but for its name.
pub HasNames-set :
    (services : List Service) (i : ℕ) {old : Service} (new : Service)
    → get_elem? services i ≡ some old
    → new.name ≡ old.name
    → HasNames services
    → HasNames (set services i new)
HasNames-set [] i new e k h = tt
HasNames-set (s ∷ rest) zero new e k h =
    (let same : s.name ≡ new.name = ground arith in subst (λ n. IsUnnamed n rest) same h.0, h.1)
HasNames-set (s ∷ rest) (suc i) new e k h =
    (IsUnnamed-set s.name rest i new e k h.0, HasNames-set rest i new e k h.1)
