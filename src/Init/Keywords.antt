-- ===== src/Init/Keywords.antt =====
-- android2.1_init/init/keywords.h and `lookup_keyword` of android2.1_init/init/parser.c.
pub mod Lookup
use demonstratortool.Base.{
  ℕ, ◌+◌, Bool, true, false, List, [], ◌∷◌, Bytes, String, codes, streq, ◌==◌, if◌then◌else◌,
}

-- The enumeration `K_…`
pub data Keyword : Type 0 where
  unknown : Keyword
  capability chdir chroot class class_start class_stop console critical disabled : Keyword
  domainname exec export group hostname ifup insmod import keycodes mkdir mount on : Keyword
  oneshot onrestart restart service setenv setkey setprop setrlimit socket start : Keyword
  stop trigger symlink sysclktz user write copy chown chmod loglevel device : Keyword

-- `SECTION`, `COMMAND` and `OPTION`; `keyword_info[K_UNKNOWN]` has no flag.
pub data Flag : Type 0 where
  no_flag section command option : Flag

-- An entry of `keyword_info`; `nargs` counts the keyword too.
pub record KeywordInfo : Type 0 where
  pub name : Bytes
  pub nargs : ℕ
  pub flags : Flag

abbrev entry : String → Flag → ℕ → KeywordInfo
entry name flags nargs = record { name = codes name; nargs = nargs + 1; flags = flags }

unfoldable pub keyword_info : Keyword → KeywordInfo
keyword_info Keyword.unknown = record { name = codes "unknown"; nargs = 0; flags = no_flag }
keyword_info Keyword.capability = entry "capability" option 0
keyword_info Keyword.chdir = entry "chdir" command 1
keyword_info Keyword.chroot = entry "chroot" command 1
keyword_info Keyword.class = entry "class" option 0
keyword_info Keyword.class_start = entry "class_start" command 1
keyword_info Keyword.class_stop = entry "class_stop" command 1
keyword_info Keyword.console = entry "console" option 0
keyword_info Keyword.critical = entry "critical" option 0
keyword_info Keyword.disabled = entry "disabled" option 0
keyword_info Keyword.domainname = entry "domainname" command 1
keyword_info Keyword.exec = entry "exec" command 1
keyword_info Keyword.export = entry "export" command 2
keyword_info Keyword.group = entry "group" option 0
keyword_info Keyword.hostname = entry "hostname" command 1
keyword_info Keyword.ifup = entry "ifup" command 1
keyword_info Keyword.insmod = entry "insmod" command 1
keyword_info Keyword.import = entry "import" command 1
keyword_info Keyword.keycodes = entry "keycodes" option 0
keyword_info Keyword.mkdir = entry "mkdir" command 1
keyword_info Keyword.mount = entry "mount" command 3
keyword_info Keyword.on = entry "on" section 0
keyword_info Keyword.oneshot = entry "oneshot" option 0
keyword_info Keyword.onrestart = entry "onrestart" option 0
keyword_info Keyword.restart = entry "restart" command 1
keyword_info Keyword.service = entry "service" section 0
keyword_info Keyword.setenv = entry "setenv" option 2
keyword_info Keyword.setkey = entry "setkey" command 0
keyword_info Keyword.setprop = entry "setprop" command 2
keyword_info Keyword.setrlimit = entry "setrlimit" command 3
keyword_info Keyword.socket = entry "socket" option 0
keyword_info Keyword.start = entry "start" command 1
keyword_info Keyword.stop = entry "stop" command 1
keyword_info Keyword.trigger = entry "trigger" command 1
keyword_info Keyword.symlink = entry "symlink" command 1
keyword_info Keyword.sysclktz = entry "sysclktz" command 1
keyword_info Keyword.user = entry "user" option 0
keyword_info Keyword.write = entry "write" command 2
keyword_info Keyword.copy = entry "copy" command 2
keyword_info Keyword.chown = entry "chown" command 2
keyword_info Keyword.chmod = entry "chmod" command 2
keyword_info Keyword.loglevel = entry "loglevel" command 1
keyword_info Keyword.device = entry "device" command 4

unfoldable pub is_section : Keyword → Bool
unfolding keyword_info
is_section kw = elim (keyword_info kw).flags [ section ↦ true | _ ↦ false ]

unfoldable pub is_command : Keyword → Bool
unfolding keyword_info
is_command kw = elim (keyword_info kw).flags [ command ↦ true | _ ↦ false ]

-- The `strcmp` lines of one `case`: the rests behind its letter, with their keywords.
first_match : Bytes → List (Bytes × Keyword) → Keyword
first_match s [] = Keyword.unknown
first_match s ((rest, kw) ∷ more) = if streq s rest then kw else first_match s more

abbrev case_c : List (Bytes × Keyword)
case_c =
    (codes "opy", Keyword.copy)
    ∷ (codes "apability", Keyword.capability)
    ∷ (codes "hdir", Keyword.chdir)
    ∷ (codes "hroot", Keyword.chroot)
    ∷ (codes "lass", Keyword.class)
    ∷ (codes "lass_start", Keyword.class_start)
    ∷ (codes "lass_stop", Keyword.class_stop)
    ∷ (codes "onsole", Keyword.console)
    ∷ (codes "hown", Keyword.chown)
    ∷ (codes "hmod", Keyword.chmod)
    ∷ (codes "ritical", Keyword.critical)
    ∷ []

abbrev case_d : List (Bytes × Keyword)
case_d =
    (codes "isabled", Keyword.disabled)
    ∷ (codes "omainname", Keyword.domainname)
    ∷ (codes "evice", Keyword.device)
    ∷ []

abbrev case_e : List (Bytes × Keyword)
case_e = (codes "xec", Keyword.exec) ∷ (codes "xport", Keyword.export) ∷ []

abbrev case_g : List (Bytes × Keyword)
case_g = (codes "roup", Keyword.group) ∷ []

abbrev case_h : List (Bytes × Keyword)
case_h = (codes "ostname", Keyword.hostname) ∷ []

abbrev case_i : List (Bytes × Keyword)
case_i =
    (codes "fup", Keyword.ifup)
    ∷ (codes "nsmod", Keyword.insmod)
    ∷ (codes "mport", Keyword.import)
    ∷ []

abbrev case_k : List (Bytes × Keyword)
case_k = (codes "eycodes", Keyword.keycodes) ∷ []

abbrev case_l : List (Bytes × Keyword)
case_l = (codes "oglevel", Keyword.loglevel) ∷ []

abbrev case_m : List (Bytes × Keyword)
case_m = (codes "kdir", Keyword.mkdir) ∷ (codes "ount", Keyword.mount) ∷ []

abbrev case_o : List (Bytes × Keyword)
case_o =
    (codes "n", Keyword.on)
    ∷ (codes "neshot", Keyword.oneshot)
    ∷ (codes "nrestart", Keyword.onrestart)
    ∷ []

abbrev case_r : List (Bytes × Keyword)
case_r = (codes "estart", Keyword.restart) ∷ []

abbrev case_s : List (Bytes × Keyword)
case_s =
    (codes "ervice", Keyword.service)
    ∷ (codes "etenv", Keyword.setenv)
    ∷ (codes "etkey", Keyword.setkey)
    ∷ (codes "etprop", Keyword.setprop)
    ∷ (codes "etrlimit", Keyword.setrlimit)
    ∷ (codes "ocket", Keyword.socket)
    ∷ (codes "tart", Keyword.start)
    ∷ (codes "top", Keyword.stop)
    ∷ (codes "ymlink", Keyword.symlink)
    ∷ (codes "ysclktz", Keyword.sysclktz)
    ∷ []

abbrev case_t : List (Bytes × Keyword)
case_t = (codes "rigger", Keyword.trigger) ∷ []

abbrev case_u : List (Bytes × Keyword)
case_u = (codes "ser", Keyword.user) ∷ []

abbrev case_w : List (Bytes × Keyword)
case_w = (codes "rite", Keyword.write) ∷ []

unfoldable pub lookup_keyword : Bytes → Keyword
unfolding first_match streq
lookup_keyword [] = Keyword.unknown
lookup_keyword (c ∷ s) =
    if c == b'c'
    then first_match s case_c
    else if c == b'd'
    then first_match s case_d
    else if c == b'e'
    then first_match s case_e
    else if c == b'g'
    then first_match s case_g
    else if c == b'h'
    then first_match s case_h
    else if c == b'i'
    then first_match s case_i
    else if c == b'k'
    then first_match s case_k
    else if c == b'l'
    then first_match s case_l
    else if c == b'm'
    then first_match s case_m
    else if c == b'o'
    then first_match s case_o
    else if c == b'r'
    then first_match s case_r
    else if c == b's'
    then first_match s case_s
    else if c == b't'
    then first_match s case_t
    else if c == b'u'
    then first_match s case_u
    else if c == b'w'
    then first_match s case_w
    else Keyword.unknown
