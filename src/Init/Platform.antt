-- ===== src/Init/Platform.antt =====
-- What android2.1_init/init takes from outside the repository: constants and tables of bionic's
-- headers, the reader of the property area, and the answers of the system calls. The n-th answer
-- of the system is that of the n-th call, so a value of this type is one possible environment.
use demonstratortool.Base.{ℕ, ◌≡◌, ◌≢◌, Bool, Option, none, some, List, get_elem?, All, Bytes}

-- `prop_info` of <sys/_system_properties.h>; `serial` is a 32-bit word.
pub record PropInfo : Type 0 where
  pub name : Bytes
  pub serial : ℕ
  pub value : Bytes

pub record Platform : Type 0 where
  -- `PROP_NAME_MAX`, `PROP_VALUE_MAX`
  pub prop_name_max : ℕ
  pub prop_value_max : ℕ
  -- the ids of <private/android_filesystem_config.h>
  pub aid_root : ℕ
  pub aid_system : ℕ
  pub aid_radio : ℕ
  pub aid_dhcp : ℕ
  pub aid_vpn : ℕ
  pub aid_shell : ℕ
  pub aid_log : ℕ
  pub android_ids : List (Bytes × ℕ)
  -- `__system_property_find`: the index of the entry with a name
  pub find : List PropInfo → Bytes → Option ℕ
  -- `clock_gettime(CLOCK_MONOTONIC)` in seconds, 0 on error
  pub clock : ℕ → ℕ
  -- whether `stat` finds a path
  pub stat : ℕ → Bytes → Bool
  -- the child's id that `fork` returns to the parent, or none if it fails
  pub fork : ℕ → Option ℕ
  -- the file descriptor that `create_socket` returns, or none if it fails
  pub socket : ℕ → Option ℕ
  -- what `open`, `lseek` and `read` give for a file
  pub contents : ℕ → Bytes → Option Bytes

-- `__system_property_find` returns an entry with the name, and finds one if there is any.
pub record IsPlatform (p : Platform) : Type 0 where
  pub find-some :
      (es : List PropInfo) (n : Bytes) (i : ℕ)
      → p.find es n ≡ some i
      → (e : PropInfo) × (get_elem? es i ≡ some e) × (e.name ≡ n)
  -- a child's process id is never 0
  pub fork-pid : (n : ℕ) (pid : ℕ) → p.fork n ≡ some pid → pid ≢ 0
  pub find-none : (es : List PropInfo) (n : Bytes) → p.find es n ≡ none → All (λ e. e.name ≢ n) es
