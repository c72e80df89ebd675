-- ===== src/Init/Tests/Given.antt =====
-- One possible environment of android2.1_init/init, and a world with one service in it.
use demonstratortool.Base.{
  ℕ, suc, ◌+◌, ◌^◌, ◌≡◌, refl, sym, ◌≢◌, inl, inr, true, false, Option, none, some, List, [], ◌∷◌,
  arith, if◌then◌else◌, Bool-cases, Option-cases, get_elem?, All, Bytes, codes, streq, streq_iff,
}
use demonstratortool.Init.Links.{list_init}
use demonstratortool.Init.Platform.{Platform, PropInfo, IsPlatform}
use demonstratortool.Init.Config.{Service, Config, Action}
use demonstratortool.Init.Config.Valid.{IsConfig}
use demonstratortool.Init.Properties.{PropArea}
use demonstratortool.Init.Properties.Area.{IsArea, IsSized}
use demonstratortool.Init.World.{World}

-- The first entry with the name
unfoldable pub find_entry : List PropInfo → Bytes → Option ℕ
find_entry [] name = none
find_entry (e ∷ es) name =
    let rest = find_entry es name in
    if streq e.name name then some 0 else elim rest [ none ↦ none | some i ↦ some (suc i) ]

abbrev pub device : Platform
device = record {
  prop_name_max = 32;
  prop_value_max = 92;
  aid_root = 0;
  aid_system = 1000;
  aid_radio = 1001;
  aid_dhcp = 1014;
  aid_vpn = 1016;
  aid_shell = 2000;
  aid_log = 1007;
  android_ids = (codes "radio", 1001) ∷ (codes "log", 1007) ∷ [];
  find = find_entry;
  clock = λ n. n + 100;
  stat = λ n path. true;
  fork = λ n. some (n + 40);
  socket = λ n. some (n + 3);
  contents = λ n path. none;
}

find_entry-some :
    (es : List PropInfo) (n : Bytes) (i : ℕ)
    → find_entry es n ≡ some i
    → (e : PropInfo) × (get_elem? es i ≡ some e) × (e.name ≡ n)
unfolding find_entry
find_entry-some [] n i h = cc
find_entry-some (e ∷ es) n i h = elim (Bool-cases (streq e.name n)) [
  | inl same ↦
      let first : 0 ≡ i = ground arith in (e, rw (sym first) refl, (streq_iff e.name n).0 same)
  | inr other ↦ elim (Option-cases (find_entry es n)) [
    | inl absent ↦ ground arith
    | inr (j, at) ↦
        let next : suc j ≡ i = ground arith in
        let (x, found, named) = find_entry-some es n j at in (x, rw (sym next) found, named)
  ]
]

find_entry-none :
    (es : List PropInfo) (n : Bytes) → find_entry es n ≡ none → All (λ e. e.name ≢ n) es
unfolding find_entry
find_entry-none [] n h = tt
find_entry-none (e ∷ es) n h = ground (arith, find_entry-none es n, streq_iff e.name n)

pub device-IsPlatform : IsPlatform device
device-IsPlatform = record {
  find-some = find_entry-some;
  fork-pid = λ n pid e. ground arith;
  find-none = find_entry-none;
}

pub device-IsSized : IsSized device
device-IsSized = omega arith

abbrev pub ril_daemon : Service
ril_daemon = record {
  name = codes "ril";
  classname = codes "default";
  flags = record {
    disabled = false;
    oneshot = false;
    running = false;
    restarting = false;
    console = false;
    critical = true;
  };
  pid = 0;
  time_started = 0;
  time_crashed = 0;
  nr_crashed = 0;
  uid = 0;
  gid = 0;
  supp_gids = [];
  sockets = [];
  envvars = [];
  onrestart = [];
  keycodes = [];
  keychord_id = 0;
  args = codes "/system/bin/rild" ∷ [];
}

abbrev pub boot_actions : List Action
boot_actions =
    record { name = codes "boot"; commands = [] }
    ∷ record { name = codes "property:sys.mode=1"; commands = [] }
    ∷ []

abbrev pub boot_config : Config
boot_config = record { services = ril_daemon ∷ []; actions = boot_actions; errors = [] }

abbrev pub secure : PropInfo
secure = record { name = codes "ro.secure"; serial = 2 ^ 24; value = codes "1" }

abbrev pub boot_props : PropArea
boot_props = record { entries = secure ∷ []; toc = 0 ∷ []; serial = 0 }

abbrev pub boot_world : World
boot_world = record {
  config = boot_config;
  props = boot_props;
  persistent_loaded = false;
  queue = list_init (record { next = λ j. j; prev = λ j. j }) 0;
  triggers_enabled = true;
  have_console = true;
  needs_restart = 0;
  env = [];
  log_level = 3;
  calls = 0;
  trace = [];
}

pub boot_config-IsConfig : IsConfig boot_config
boot_config-IsConfig = ground arith

pub boot_props-IsArea : IsArea device boot_props
boot_props-IsArea = omega arith
