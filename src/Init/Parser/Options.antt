-- ===== src/Init/Parser/Options.antt =====
-- The options of a service, and what is asked of a command (android2.1_init/init/parser.c).
use demonstratortool.Base.{
  ℕ, ◌+◌, true, not, ◌&&◌, Option, none, some, List, [], ◌∷◌, ◌++◌, map, ltb, if◌then◌else◌, length,
  Bytes, codes, streq, strtoul, atoi,
}
use mathlib.Core.List.{tail}
use demonstratortool.Init.Keywords.{Keyword, keyword_info, is_command, lookup_keyword}
use demonstratortool.Init.Platform.{Platform}
use demonstratortool.Init.Uid.{decode_uid}
use demonstratortool.Init.Config.{
  Command, Flags, Service, ErrorKind, class_needs_name, group_needs_id, group_too_many,
  keycodes_needed, invalid_command, too_few_arguments, setenv_needs_value, socket_needs_arguments,
  socket_type, user_needs_id, invalid_option, unset_argument, nr_svc_supp_gids,
}

-- The part that `parse_line_action` and `case K_onrestart` share: a command is made if its keyword
-- is one and there are the arguments that the keyword asks for.
pub data Checked : Type 0 where
  made : Command → Checked
  rejected : ErrorKind → Checked

unfoldable pub check_command : List Bytes → Checked
check_command [] = rejected unset_argument
check_command (keyword ∷ rest) =
    let kw = lookup_keyword keyword in
    if not (is_command kw)
    then rejected invalid_command
    else if ltb (length (keyword ∷ rest)) (keyword_info kw).nargs
    then rejected too_few_arguments
    else made (record { func = kw; args = keyword ∷ rest })

-- What an option does to its service.
pub data Outcome : Type 0 where
  updated : Service → Outcome
  refused : ErrorKind → Outcome

unfoldable pub option_class : Service → List Bytes → Outcome
option_class svc args = elim args [
  | _ ∷ name ∷ [] ↦ updated (record svc { classname = name })
  | _ ↦ refused class_needs_name
]

unfoldable pub option_group : Platform → Service → List Bytes → Outcome
option_group p svc args = elim args [
  | _ ∷ group ∷ supp ↦
      if ltb (nr_svc_supp_gids + 2) (2 + length supp)
      then refused group_too_many
      else updated (record svc { gid = decode_uid p group; supp_gids = map (decode_uid p) supp })
  | _ ↦ refused group_needs_id
]

unfoldable pub option_keycodes : Service → List Bytes → Outcome
option_keycodes svc args = elim args [
  | _ ∷ code ∷ rest ↦ updated (record svc { keycodes = map atoi (code ∷ rest) })
  | _ ↦ refused keycodes_needed
]

unfoldable pub option_onrestart : Service → List Bytes → Outcome
option_onrestart svc args = elim (check_command (tail args)) [
  | made cmd ↦ updated (record svc { onrestart = svc.onrestart ++ cmd ∷ [] })
  | rejected kind ↦ refused kind
]

unfoldable pub add_envvar : Service → Bytes → Option Bytes → Outcome
add_envvar svc name value =
    updated (record svc { envvars = record { name = name; value = value } ∷ svc.envvars })

unfoldable pub option_setenv : Service → List Bytes → Outcome
unfolding add_envvar
option_setenv svc args = elim args [
  | _ ∷ name ∷ value ∷ _ ↦ add_envvar svc name (some value)
  | _ ∷ name ∷ [] ↦ add_envvar svc name none
  | _ ↦ refused setenv_needs_value
]

-- The user and group behind the permissions of a socket; both are 0 if they are left out.
unfoldable pub socket_owner : Platform → List Bytes → ℕ × ℕ
socket_owner p owner = elim owner [
  | user ∷ group ∷ _ ↦ (decode_uid p user, decode_uid p group)
  | user ∷ [] ↦ (decode_uid p user, 0)
  | [] ↦ (0, 0)
]

unfoldable pub option_socket : Platform → Service → List Bytes → Outcome
unfolding socket_owner
option_socket p svc args = elim args [
  | _ ∷ name ∷ type ∷ perm ∷ owner ↦
      if not (streq type (codes "dgram")) && not (streq type (codes "stream"))
      then refused socket_type
      else updated (record svc {
        sockets =
            record {
              name = name;
              type = type;
              perm = (strtoul perm 8).0;
              uid = (socket_owner p owner).0;
              gid = (socket_owner p owner).1;
            }
            ∷ svc.sockets;
      })
  | _ ↦ refused socket_needs_arguments
]

unfoldable pub option_user : Platform → Service → List Bytes → Outcome
option_user p svc args = elim args [
  | _ ∷ user ∷ [] ↦ updated (record svc { uid = decode_uid p user })
  | _ ↦ refused user_needs_id
]

abbrev with_flags : Service → Flags → Outcome
with_flags svc flags = updated (record svc { flags = flags })

-- The `switch` of `parse_line_service`
unfoldable pub service_option : Platform → Keyword → Service → List Bytes → Outcome
unfolding option_class option_group option_keycodes option_onrestart option_setenv option_socket
    option_user
service_option p Keyword.capability svc args = updated svc
service_option p Keyword.class svc args = option_class svc args
service_option p Keyword.console svc args = with_flags svc (record svc.flags { console = true })
service_option p Keyword.disabled svc args = with_flags svc (record svc.flags { disabled = true })
service_option p Keyword.group svc args = option_group p svc args
service_option p Keyword.keycodes svc args = option_keycodes svc args
service_option p Keyword.oneshot svc args = with_flags svc (record svc.flags { oneshot = true })
service_option p Keyword.onrestart svc args = option_onrestart svc args
service_option p Keyword.critical svc args = with_flags svc (record svc.flags { critical = true })
service_option p Keyword.setenv svc args = option_setenv svc args
service_option p Keyword.socket svc args = option_socket p svc args
service_option p Keyword.user svc args = option_user p svc args
service_option p _ svc args = refused invalid_option
