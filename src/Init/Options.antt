-- ===== src/Init/Options.antt =====
-- What android2.1_init/init/init.c takes from the kernel command line and /proc/cpuinfo.
use demonstratortool.Base.{
  ℕ, zero, suc, ◌+◌, ◌-◌, ◌/◌, ◌%◌, ◌^◌, not, ◌&&◌, Option, none, some, List, [], ◌∷◌, ltb, leb,
  ◌==◌, if◌then◌else◌, length, take, drop, Bytes, codes, streq, starts_with, strchr, is_space,
  strtoul,
}
use demonstratortool.Init.Devices.Access.{Overrides, qemu_cmdline}
use demonstratortool.Init.Devices.Table.{DeviceIds}
use demonstratortool.Init.Services.{split_words}

-- The static variables of 32 bytes each, `revision`, and the overrides of devices.c.
pub record Options : Type 0 where
  pub console : Bytes
  pub serialno : Bytes
  pub bootmode : Bytes
  pub baseband : Bytes
  pub carrier : Bytes
  pub bootloader : Bytes
  pub hardware : Bytes
  pub revision : ℕ
  pub qemu : Bytes
  pub overrides : Overrides

abbrev pub no_options : Options
no_options = record {
  console = [];
  serialno = [];
  bootmode = [];
  baseband = [];
  carrier = [];
  bootloader = [];
  hardware = [];
  revision = 0;
  qemu = [];
  overrides = record { qemu_perms = []; partners = [] };
}

-- `strlcpy(dst, value, 32)`
abbrev copy : Bytes → Bytes
copy value = take 31 value

unfoldable pub set_option : DeviceIds → Bytes → Bytes → Options → Options
unfolding qemu_cmdline
set_option ids name value o =
    if streq name (codes "qemu")
    then record o { qemu = copy value }
    else if streq name (codes "androidboot.console")
    then record o { console = copy value }
    else if streq name (codes "androidboot.mode")
    then record o { bootmode = copy value }
    else if streq name (codes "androidboot.serialno")
    then record o { serialno = copy value }
    else if streq name (codes "androidboot.baseband")
    then record o { baseband = copy value }
    else if streq name (codes "androidboot.carrier")
    then record o { carrier = copy value }
    else if streq name (codes "androidboot.bootloader")
    then record o { bootloader = copy value }
    else if streq name (codes "androidboot.hardware")
    then record o { hardware = copy value }
    else record o { overrides = qemu_cmdline ids name value o.overrides }

-- The name and the value of an option, if it has both.
unfoldable pub option_parts : Bytes → Option (Bytes × Bytes)
option_parts option = elim (strchr option b'=') [
  | none ↦ none
  | some (name, value) ↦ if length name == 0 then none else some (name, value)
]

-- `import_kernel_nv(name, 0)`
unfoldable pub import_kernel_nv : DeviceIds → Bytes → Options → Options
unfolding option_parts set_option
import_kernel_nv ids option o = elim (option_parts option) [
  | none ↦ o
  | some (name, value) ↦ set_option ids name value o
]

-- What is read of the command line, without a newline at its end.
unfoldable pub drop_newline : Bytes → Bytes
drop_newline [] = []
drop_newline (c ∷ []) = if c == b'\n' then [] else c ∷ []
drop_newline (c ∷ d ∷ ds) = c ∷ drop_newline (d ∷ ds)

-- The options of the command line, if it can be read.
unfoldable pub kernel_options : Option Bytes → List Bytes
unfolding drop_newline split_words
kernel_options none = []
kernel_options (some cmdline) = split_words [] (drop_newline (take 1023 cmdline))

-- `import_kernel_cmdline(0)`, over the options.
unfoldable pub import_options : DeviceIds → List Bytes → Options → Options
unfolding import_kernel_nv
import_options ids [] o = o
import_options ids (option ∷ rest) o = import_options ids rest (import_kernel_nv ids option o)

-- `strstr`: the text from the first place where the other one stands.
unfoldable pub strstr : Bytes → Bytes → Option Bytes
unfolding starts_with
strstr [] part = if length part == 0 then some [] else none
strstr (c ∷ cs) part = if starts_with (c ∷ cs) part then some (c ∷ cs) else strstr cs part

abbrev tolower : ℕ → ℕ
tolower c = if leb b'A' c && leb c b'Z' then c + 32 else c

-- The bytes up to a blank, in lower case, so many at most.
unfoldable pub hardware_word : ℕ → Bytes → Bytes
unfolding is_space
hardware_word zero s = []
hardware_word (suc room) [] = []
hardware_word (suc room) (c ∷ cs) =
    let rest = hardware_word room cs in if is_space c then [] else tolower c ∷ rest

-- The text behind ": " in what begins with a label.
unfoldable pub behind_label : Bytes → Bytes → Option Bytes
unfolding strstr
behind_label label info = elim (strstr info label) [
  | none ↦ none
  | some found ↦ elim (strstr found (codes ": ")) [ none ↦ none | some x ↦ some (drop 2 x) ]
]

unfoldable pub get_hardware_name : Option Bytes → Options → Options
unfolding behind_label hardware_word strtoul
get_hardware_name cpuinfo o = if not (length o.hardware == 0) then o else elim cpuinfo [
  | none ↦ o
  | some file ↦
      let info = take 1023 file in
      record o {
        hardware = elim (behind_label (codes "\nHardware") info) [
          | none ↦ o.hardware
          | some x ↦ hardware_word 31 x
        ];
        revision = elim (behind_label (codes "\nRevision") info) [
          | none ↦ o.revision
          | some x ↦ (strtoul x 16).0
        ];
      }
]

-- The digits of a number, in front of a text.
unfoldable pub decimal_onto : ℕ → ℕ → Bytes → Bytes
decimal_onto zero n s = s
decimal_onto (suc fuel) n s =
    let digit = b'0' + n % 10 in
    let more = decimal_onto fuel (n / 10) (digit ∷ s) in if ltb n 10 then digit ∷ s else more

-- `"%d"` for a 32-bit pattern: it has ten digits at most.
unfoldable pub decimal : ℕ → Bytes
unfolding decimal_onto
decimal n = if leb (2 ^ 31) n then b'-' ∷ decimal_onto 10 (2 ^ 32 - n) [] else decimal_onto 10 n []
