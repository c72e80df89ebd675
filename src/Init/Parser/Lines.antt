-- ===== src/Init/Parser/Lines.antt =====
-- What one line inside a section of android2.1_init/init/parser.c does to a valid configuration.
use demonstratortool.Base.{
  ℕ, ◌≤◌, ◌≡◌, refl, sym, ◌∙◌, inl, inr, false, Option, none, some, List, [], ◌∷◌, ◌++◌, arith,
  Option-cases, length, get_elem?, set, length-map, length-tail-le, get_elem?-set_self,
  get_elem?-lt-length, All-append, All-get_elem?, All-set, Bytes,
}
use mathlib.Core.List.{tail}
use demonstratortool.Init.Uid.{decode_uid}
use demonstratortool.Init.Keywords.{Keyword, lookup_keyword}
use demonstratortool.Init.Platform.{Platform}
use demonstratortool.Init.Config.{Command, Action, Service, Config, svc_max_args}
use demonstratortool.Init.Config.Valid.{IsCommand, IsService, IsAction, IsConfig, HasNames-set}
use demonstratortool.Init.Parser.{
  Context, no_op, in_service, in_action, parse_line_service, parse_line_action, parse_line,
  parse_error,
}
use demonstratortool.Init.Parser.Options.{
  Checked, made, rejected, check_command, option_group, Outcome, updated, refused, service_option,
}

check_command-IsCommand :
    (args : List Bytes) (cmd : Command)
    → length args ≤ svc_max_args
    → check_command args ≡ made cmd
    → IsCommand cmd
unfolding check_command
check_command-IsCommand [] cmd h e = cc
check_command-IsCommand (k ∷ rest) cmd h e = ground arith

-- A service that the parser is still filling has not been started.
abbrev pub IsIdle : Service → Type 0
IsIdle svc = (svc.flags.running ≡ false) × (svc.flags.restarting ≡ false)

abbrev Keeps : Service → Outcome → Type 0
Keeps svc (updated svc') = IsService svc' × IsIdle svc' × (svc'.name ≡ svc.name)
Keeps svc (refused _) = Unit

option_onrestart-Keeps :
    (svc : Service) (c : Checked)
    → IsService svc
    → IsIdle svc
    → ((cmd : Command) → c ≡ made cmd → IsCommand cmd)
    → Keeps svc (elim c [
      | made cmd ↦ updated (record svc { onrestart = svc.onrestart ++ cmd ∷ [] })
      | rejected kind ↦ refused kind
    ])
option_onrestart-Keeps svc (made cmd) v idle k = (
  record {
    exclusive = v.exclusive;
    running_pid = v.running_pid;
    restarting_pid = v.restarting_pid;
    groups = v.groups;
    program = v.program;
    room = v.room;
    restart_commands =
        All-append IsCommand svc.onrestart (cmd ∷ []) v.restart_commands (k cmd refl, tt);
  },
  idle,
  refl,
)
option_onrestart-Keeps svc (rejected kind) v idle k = tt

option_group-Keeps :
    (p : Platform) (svc : Service) (args : List Bytes)
    → IsService svc
    → IsIdle svc
    → Keeps svc (option_group p svc args)
unfolding option_group
option_group-Keeps p svc [] v idle = tt
option_group-Keeps p svc (k ∷ []) v idle = tt
option_group-Keeps p svc (k ∷ group ∷ supp) v idle = ground (arith, length-map supp (decode_uid p))

service_option-Keeps :
    (p : Platform) (kw : Keyword) (svc : Service) (args : List Bytes)
    → length args ≤ svc_max_args
    → IsService svc
    → IsIdle svc
    → Keeps svc (service_option p kw svc args)
unfolding service_option
service_option-Keeps p Keyword.class svc args h v idle = ground arith
service_option-Keeps p Keyword.group svc args h v idle = option_group-Keeps p svc args v idle
service_option-Keeps p Keyword.onrestart svc args h v idle =
    option_onrestart-Keeps svc (check_command (tail args)) v idle
      λ cmd e. check_command-IsCommand (tail args) cmd (omega (arith, length-tail-le args)) e
service_option-Keeps p _ svc args h v idle = ground arith

-- The service that the parser is in, if any, has not been started.
abbrev pub IsContext : Config → Context → Type 0
IsContext g (in_service i) = (svc : Service) → get_elem? g.services i ≡ some svc → IsIdle svc
IsContext g _ = Unit

abbrev pub IsParsed : Config → Context → Type 0
IsParsed g c = IsConfig g × IsContext g c

set_service-IsParsed :
    (g : Config) (i : ℕ) (svc svc' : Service)
    → IsConfig g
    → get_elem? g.services i ≡ some svc
    → Keeps svc (updated svc')
    → IsParsed (record g { services = set g.services i svc' }) (in_service i)
set_service-IsParsed g i svc svc' v e k = (
  record {
    services = All-set IsService g.services i svc' v.services k.0;
    names = HasNames-set g.services i svc' e k.2 v.names;
    actions = v.actions;
  },
  λ other at.
      let same : some svc' ≡ some other =
        sym (get_elem?-set_self g.services i svc' (get_elem?-lt-length g.services i e)) ∙ at in
      ground arith,
)

outcome-IsParsed :
    (g : Config) (line i : ℕ) (svc : Service) (o : Outcome)
    → IsConfig g
    → IsContext g (in_service i)
    → get_elem? g.services i ≡ some svc
    → Keeps svc o
    → IsParsed
        (elim o [
          | updated svc' ↦ record g { services = set g.services i svc' }
          | refused kind ↦ parse_error g line kind
        ])
        (in_service i)
unfolding parse_error
outcome-IsParsed g line i svc (updated svc') v c e k = set_service-IsParsed g i svc svc' v e k
outcome-IsParsed g line i svc (refused kind) v c e k =
    (record { services = v.services; names = v.names; actions = v.actions }, c)

parse_line_service-IsParsed :
    (p : Platform) (g : Config) (line i : ℕ) (args : List Bytes)
    → length args ≤ svc_max_args
    → IsParsed g (in_service i)
    → IsParsed (parse_line_service p g line i args) (in_service i)
unfolding parse_line_service
parse_line_service-IsParsed p g line i [] h v = v
parse_line_service-IsParsed p g line i (k ∷ rest) h v =
    elim (Option-cases (get_elem? g.services i)) [
      | inl e ↦ rw (e, parse_line_service) v
      | inr (svc, e) ↦
          rw (e, parse_line_service)
            (outcome-IsParsed g line i svc _ v.0 v.1 e (
              service_option-Keeps p (lookup_keyword k) svc (k ∷ rest) h
                (All-get_elem? IsService g.services i v.0.services e) (v.1 svc e)))
    ]

add_command-IsAction :
    (act : Action) (cmd : Command)
    → IsAction act
    → IsCommand cmd
    → IsAction (record act { commands = act.commands ++ cmd ∷ [] })
add_command-IsAction act cmd v k = All-append IsCommand act.commands (cmd ∷ []) v (k, tt)

parse_line_action-IsConfig :
    (g : Config) (line i : ℕ) (args : List Bytes)
    → length args ≤ svc_max_args
    → IsConfig g
    → IsConfig (parse_line_action g line i args)
unfolding parse_line_action parse_error
parse_line_action-IsConfig g line i [] h v = v
parse_line_action-IsConfig g line i (k ∷ rest) h v =
    split (check_command (k ∷ rest)) refl (get_elem? g.actions i) refl
  where
    split :
        (c : Checked)
        → check_command (k ∷ rest) ≡ c
        → (o : Option Action) → get_elem? g.actions i ≡ o
        → IsConfig (parse_line_action g line i (k ∷ rest))
    split (rejected kind) e o f =
        rw (e, parse_line_action)
          (record { services = v.services; names = v.names; actions = v.actions })
    split (made cmd) e none f = rw (e, f, parse_line_action) v
    split (made cmd) e (some act) f =
        rw (e, f, parse_line_action)
          (record {
            services = v.services;
            names = v.names;
            actions = All-set IsAction g.actions i _ v.actions (
                add_command-IsAction act cmd (All-get_elem? IsAction g.actions i v.actions f)
                  (check_command-IsCommand (k ∷ rest) cmd h e));
          })

pub parse_line-IsParsed :
    (p : Platform) (g : Config) (c : Context) (line : ℕ) (args : List Bytes)
    → length args ≤ svc_max_args
    → IsParsed g c
    → IsParsed (parse_line p g c line args) c
unfolding parse_line
parse_line-IsParsed p g no_op line args h v = v
parse_line-IsParsed p g (in_service i) line args h v =
    parse_line_service-IsParsed p g line i args h v
parse_line-IsParsed p g (in_action i) line args h v =
    (parse_line_action-IsConfig g line i args h v.0, tt)
