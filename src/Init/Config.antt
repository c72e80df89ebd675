-- ===== src/Init/Config.antt =====
-- The structures of android2.1_init/init/init.h that the parser fills: services, actions and
-- their commands. A pointer to a service or an action is its index in `service_list` or
-- `action_list`, to which only new nodes are added.
pub mod Valid
use demonstratortool.Base.{ℕ, Bool, Option, List, Bytes}
use demonstratortool.Init.Keywords.{Keyword}

-- `func` is named by the keyword it belongs to; `nargs` is the length of `args`.
pub record Command : Type 0 where
  pub func : Keyword
  pub args : List Bytes

pub record Action : Type 0 where
  pub name : Bytes
  pub commands : List Command

pub record SocketInfo : Type 0 where
  pub name : Bytes
  pub type : Bytes
  pub perm : ℕ
  pub uid : ℕ
  pub gid : ℕ

-- `value` is none where the parser stores a slot of its array that was never filled.
pub record SvcEnvInfo : Type 0 where
  pub name : Bytes
  pub value : Option Bytes

-- The bits `SVC_…` of `flags`
pub record Flags : Type 0 where
  pub disabled : Bool
  pub oneshot : Bool
  pub running : Bool
  pub restarting : Bool
  pub console : Bool
  pub critical : Bool

pub record Service : Type 0 where
  pub name : Bytes
  pub classname : Bytes
  pub flags : Flags
  pub pid : ℕ
  pub time_started : ℕ
  pub time_crashed : ℕ
  pub nr_crashed : ℕ
  pub uid : ℕ
  pub gid : ℕ
  pub supp_gids : List ℕ
  pub sockets : List SocketInfo
  pub envvars : List SvcEnvInfo
  pub onrestart : List Command
  pub keycodes : List ℕ
  pub keychord_id : ℕ
  pub args : List Bytes

-- The messages of `parse_error`, and `unset_argument` where the code reads a slot of the argument
-- array that was never filled.
pub data ErrorKind : Type 0 where
  services_need_program invalid_service_name duplicate_service : ErrorKind
  class_needs_name group_needs_id group_too_many keycodes_needed : ErrorKind
  invalid_command too_few_arguments setenv_needs_value : ErrorKind
  socket_needs_arguments socket_type user_needs_id invalid_option : ErrorKind
  action_needs_trigger action_extra_parameters : ErrorKind
  unset_argument : ErrorKind

-- A message with the line that `parse_error` prints.
pub record ParseError : Type 0 where
  pub line : ℕ
  pub kind : ErrorKind

-- `service_list`, `action_list`, and the errors logged
pub record Config : Type 0 where
  pub services : List Service
  pub actions : List Action
  pub errors : List ParseError

abbrev pub nr_svc_supp_gids : ℕ
nr_svc_supp_gids = 6

abbrev pub svc_max_args : ℕ
svc_max_args = 64
