-- ===== src/Init/Parser.antt =====
-- The sections of android2.1_init/init/parser.c: `parse_config`, `parse_service`,
-- `parse_line_service`, `parse_action` and `parse_line_action`. Allocation never fails here.
pub mod Options
pub mod Lines
pub mod Total
use demonstratortool.Init.Parser.Options.{
  Checked, made, rejected, check_command, Outcome, updated, refused, option_class, option_group,
  option_keycodes, option_onrestart, add_envvar, option_setenv, socket_owner, option_socket,
  option_user, service_option,
}
use demonstratortool.Base.{
  atoi, ℕ, zero, suc, ◌+◌, ◌-◌, ◌*◌, ◌/◌, ◌%◌, ◌^◌, ◌≤◌, ◌<◌, String, ◌≡◌, refl, sym, ap, ◌∙◌,
  subst, ◌≢◌, ◌↔◌, ◌⊎◌, inl, inr, Bool, true, false, not, ◌&&◌, ◌||◌, Option, none, some, List, [],
  ◌∷◌, ◌++◌, map, arith, ltb, leb, ◌==◌, if◌then◌else◌, ==_iff, ==_refl, ltb_iff, leb_iff,
  Bool-cases, Option-cases, ◌>>=◌, >>=-eq-some, length, get_elem?, set, take, drop, All,
  length-append, length-set, get_elem?-set_self, get_elem?-set_ne, get_elem?-lt-length, All-append,
  All-get_elem?, All-set, Bytes, codes, streq, starts_with, strchr, is_space, is_alpha, is_digit,
  is_alnum, streq_iff, streq_refl, starts_with-append, strchr-append, ulong_mod, digit_value,
  strtoul,
}
use mathlib.Core.List.{tail}
use demonstratortool.Init.Keywords.{Keyword, keyword_info, is_section, is_command, lookup_keyword}
use demonstratortool.Init.Lexer.{Token, eof, text, newline, LexState, next_token}
use demonstratortool.Init.Platform.{Platform}
use demonstratortool.Init.Uid.{decode_uid}
use demonstratortool.Init.Config.{
  Command, Action, SocketInfo, SvcEnvInfo, Flags, Service, ErrorKind, services_need_program,
  invalid_service_name, duplicate_service, class_needs_name, group_needs_id, group_too_many,
  keycodes_needed, invalid_command, too_few_arguments, setenv_needs_value, socket_needs_arguments,
  socket_type, user_needs_id, invalid_option, action_needs_trigger, action_extra_parameters,
  unset_argument, ParseError, Config, nr_svc_supp_gids, svc_max_args,
}

-- `context` with `parse_line`: `parse_line_no_op`, `parse_line_service` on a service, or
-- `parse_line_action` on an action.
pub data Context : Type 0 where
  no_op : Context
  in_service in_action : ℕ → Context

pub parse_error : Config → ℕ → ErrorKind → Config
parse_error g line kind = record g { errors = g.errors ++ record { line = line; kind = kind } ∷ [] }

pub is_name_byte : ℕ → Bool
is_name_byte c = is_alnum c || c == b'_' || c == b'-'

all_name_bytes : Bytes → Bool
unfolding is_name_byte
all_name_bytes [] = true
all_name_bytes (c ∷ cs) = if not (is_name_byte c) then false else all_name_bytes cs

unfoldable pub valid_name : Bytes → Bool
unfolding all_name_bytes
valid_name name = if ltb 16 (length name) then false else all_name_bytes name

find_by_name : List Service → Bytes → ℕ → Option ℕ
find_by_name [] name i = none
find_by_name (svc ∷ rest) name i =
    if streq svc.name name then some i else find_by_name rest name (i + 1)

-- The index of the first service with the name.
unfoldable pub service_find_by_name : List Service → Bytes → Option ℕ
unfolding find_by_name
service_find_by_name services name = find_by_name services name 0

pub new_service : Bytes → List Bytes → Service
new_service name args = record {
  name = name;
  classname = codes "default";
  flags = record {
    disabled = false;
    oneshot = false;
    running = false;
    restarting = false;
    console = false;
    critical = false;
  };
  pid = 0;
  time_started = 0;
  time_crashed = 0;
  nr_crashed = 0;
  uid = 0;
  gid = 0;
  supp_gids = [];
  sockets = [];
  envvars = [];
  onrestart = [];
  keycodes = [];
  keychord_id = 0;
  args = args;
}

pub parse_service : Config → ℕ → List Bytes → Config × Context
unfolding parse_error new_service
parse_service g line args = elim args [
  | keyword ∷ name ∷ program ∷ rest ↦
      if not (valid_name name)
      then (parse_error g line invalid_service_name, no_op)
      else elim (service_find_by_name g.services name) [
        | some _ ↦ (parse_error g line duplicate_service, no_op)
        | none ↦ (
          record g { services = g.services ++ new_service name (program ∷ rest) ∷ [] },
          in_service (length g.services),
        )
      ]
  | _ ↦ (parse_error g line services_need_program, no_op)
]

pub parse_action : Config → ℕ → List Bytes → Config × Context
unfolding parse_error
parse_action g line args = elim args [
  | keyword ∷ name ∷ [] ↦ (
    record g { actions = g.actions ++ record { name = name; commands = [] } ∷ [] },
    in_action (length g.actions),
  )
  | keyword ∷ name ∷ extra ∷ rest ↦ (parse_error g line action_extra_parameters, no_op)
  | _ ↦ (parse_error g line action_needs_trigger, no_op)
]

-- `parse_line_service` at the service with an index
unfoldable pub parse_line_service : Platform → Config → ℕ → ℕ → List Bytes → Config
unfolding parse_error
parse_line_service p g line i [] = g
parse_line_service p g line i (keyword ∷ rest) = elim (get_elem? g.services i) [
  | none ↦ g
  | some svc ↦ elim (service_option p (lookup_keyword keyword) svc (keyword ∷ rest)) [
    | updated svc' ↦ record g { services = set g.services i svc' }
    | refused kind ↦ parse_error g line kind
  ]
]

abbrev add_command : Action → Command → Action
add_command act cmd = record act { commands = act.commands ++ cmd ∷ [] }

-- `parse_line_action` at the action with an index
unfoldable pub parse_line_action : Config → ℕ → ℕ → List Bytes → Config
unfolding parse_error
parse_line_action g line i [] = g
parse_line_action g line i (keyword ∷ rest) = elim (check_command (keyword ∷ rest)) [
  | rejected kind ↦ parse_error g line kind
  | made cmd ↦ elim (get_elem? g.actions i) [
    | none ↦ g
    | some act ↦ record g { actions = set g.actions i (add_command act cmd) }
  ]
]

-- `state->parse_line(state, nargs, args)`
unfoldable pub parse_line : Platform → Config → Context → ℕ → List Bytes → Config
unfolding parse_line_service parse_line_action
parse_line p g no_op line args = g
parse_line p g (in_service i) line args = parse_line_service p g line i args
parse_line p g (in_action i) line args = parse_line_action g line i args

unfoldable pub parse_new_section : Config → Keyword → ℕ → List Bytes → Config × Context
unfolding parse_service parse_action
parse_new_section g Keyword.service line args = parse_service g line args
parse_new_section g Keyword.on line args = parse_action g line args
parse_new_section g _ line args = (g, no_op)

-- A whole line, at its newline
unfoldable pub end_line : Platform → Config → Context → ℕ → List Bytes → Config × Context
end_line p g c line [] = (g, c)
end_line p g c line (keyword ∷ rest) =
    let kw = lookup_keyword keyword in
    if is_section kw
    then parse_new_section (parse_line p g c line []) kw line (keyword ∷ rest)
    else (parse_line p g c line (keyword ∷ rest), c)

-- `args[nargs++] = state.text`, if there is room
unfoldable pub add_arg : List Bytes → Bytes → List Bytes
add_arg args word = if ltb (length args) svc_max_args then args ++ word ∷ [] else args

-- The loop of `parse_config` on fuel
unfoldable pub parse_loop : ℕ → Platform → LexState → Context → List Bytes → Config → Option Config
parse_loop zero p s c args g = none
parse_loop (suc fuel) p s c args g =
    let (token, s') = next_token s in
    elim token [
      | eof ↦ some (parse_line p g c s'.line [])
      | text ↦ parse_loop fuel p s' c (add_arg args s'.text) g
      | newline ↦ let (g', c') = end_line p g c s'.line args in parse_loop fuel p s' c' [] g'
    ]

abbrev pub initial : Bytes → LexState
initial file = record { ptr = file; text = []; line = 1; nexttoken = false }

-- `parse_config` on the text of a file
unfoldable pub parse_config : Platform → Bytes → Config → Option Config
parse_config p file g = parse_loop (2 * length file + 1) p (initial file) no_op [] g
