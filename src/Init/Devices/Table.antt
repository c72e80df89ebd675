-- ===== src/Init/Devices/Table.antt =====
-- The table `devperms` of android2.1_init/init/devices.c.
use demonstratortool.Base.{ℕ, String, Bool, true, false, List, [], ◌∷◌, Bytes, codes}

-- The ids of <private/android_filesystem_config.h> that the table names
pub record DeviceIds : Type 0 where
  pub adb : ℕ
  pub audio : ℕ
  pub bluetooth : ℕ
  pub camera : ℕ
  pub compass : ℕ
  pub graphics : ℕ
  pub input : ℕ
  pub log : ℕ
  pub radio : ℕ
  pub root : ℕ
  pub system : ℕ
  pub vpn : ℕ

-- `struct perms_`
pub record DevPerm : Type 0 where
  pub name : Bytes
  pub perm : ℕ
  pub uid : ℕ
  pub gid : ℕ
  pub prefix : Bool

-- One name, or a prefix of names
abbrev row : String → ℕ → ℕ → ℕ → DevPerm
row name perm uid gid = record {
  name = codes name;
  perm = perm;
  uid = uid;
  gid = gid;
  prefix = false;
}

abbrev rows_under : String → ℕ → ℕ → ℕ → DevPerm
rows_under name perm uid gid = record {
  name = codes name;
  perm = perm;
  uid = uid;
  gid = gid;
  prefix = true;
}

-- Modes as in `chmod`: 0666, 0662, 0660, 0664, 0640, 0600.
abbrev pub mode_0666 : ℕ
mode_0666 = 0b110110110

abbrev pub mode_0662 : ℕ
mode_0662 = 0b110110010

abbrev pub mode_0660 : ℕ
mode_0660 = 0b110110000

abbrev pub mode_0600 : ℕ
mode_0600 = 0b110000000

abbrev pub mode_0664 : ℕ
mode_0664 = 0b110110100

abbrev pub mode_0640 : ℕ
mode_0640 = 0b110100000

unfoldable pub devperms : DeviceIds → List DevPerm
devperms ids =
    row "/dev/null" mode_0666 ids.root ids.root
    ∷ row "/dev/zero" mode_0666 ids.root ids.root
    ∷ row "/dev/full" mode_0666 ids.root ids.root
    ∷ row "/dev/ptmx" mode_0666 ids.root ids.root
    ∷ row "/dev/tty" mode_0666 ids.root ids.root
    ∷ row "/dev/random" mode_0666 ids.root ids.root
    ∷ row "/dev/urandom" mode_0666 ids.root ids.root
    ∷ row "/dev/ashmem" mode_0666 ids.root ids.root
    ∷ row "/dev/binder" mode_0666 ids.root ids.root
    ∷ rows_under "/dev/log/" mode_0662 ids.root ids.log
    ∷ row "/dev/msm_hw3dc" mode_0666 ids.root ids.root
    ∷ row "/dev/kgsl" mode_0666 ids.root ids.root
    ∷ row "/dev/diag" mode_0660 ids.radio ids.radio
    ∷ row "/dev/diag_arm9" mode_0660 ids.radio ids.radio
    ∷ row "/dev/android_adb" mode_0660 ids.adb ids.adb
    ∷ row "/dev/android_adb_enable" mode_0660 ids.adb ids.adb
    ∷ row "/dev/ttyMSM0" mode_0600 ids.bluetooth ids.bluetooth
    ∷ row "/dev/ttyHS0" mode_0600 ids.bluetooth ids.bluetooth
    ∷ row "/dev/uinput" mode_0660 ids.system ids.bluetooth
    ∷ row "/dev/alarm" mode_0664 ids.system ids.radio
    ∷ row "/dev/tty0" mode_0660 ids.root ids.system
    ∷ rows_under "/dev/graphics/" mode_0660 ids.root ids.graphics
    ∷ row "/dev/msm_hw3dm" mode_0660 ids.system ids.graphics
    ∷ rows_under "/dev/input/" mode_0660 ids.root ids.input
    ∷ row "/dev/eac" mode_0660 ids.root ids.audio
    ∷ row "/dev/cam" mode_0660 ids.root ids.camera
    ∷ row "/dev/pmem" mode_0660 ids.system ids.graphics
    ∷ rows_under "/dev/pmem_adsp" mode_0660 ids.system ids.audio
    ∷ rows_under "/dev/pmem_camera" mode_0660 ids.system ids.camera
    ∷ rows_under "/dev/oncrpc/" mode_0660 ids.root ids.system
    ∷ rows_under "/dev/adsp/" mode_0660 ids.system ids.audio
    ∷ rows_under "/dev/snd/" mode_0660 ids.system ids.audio
    ∷ row "/dev/mt9t013" mode_0660 ids.system ids.system
    ∷ rows_under "/dev/msm_camera/" mode_0660 ids.system ids.system
    ∷ row "/dev/akm8976_daemon" mode_0640 ids.compass ids.system
    ∷ row "/dev/akm8976_aot" mode_0640 ids.compass ids.system
    ∷ row "/dev/akm8973_daemon" mode_0640 ids.compass ids.system
    ∷ row "/dev/akm8973_aot" mode_0640 ids.compass ids.system
    ∷ row "/dev/bma150" mode_0640 ids.compass ids.system
    ∷ row "/dev/cm3602" mode_0640 ids.compass ids.system
    ∷ row "/dev/akm8976_pffd" mode_0640 ids.compass ids.system
    ∷ row "/dev/lightsensor" mode_0640 ids.system ids.system
    ∷ rows_under "/dev/msm_pcm_out" mode_0660 ids.system ids.audio
    ∷ rows_under "/dev/msm_pcm_in" mode_0660 ids.system ids.audio
    ∷ rows_under "/dev/msm_pcm_ctl" mode_0660 ids.system ids.audio
    ∷ rows_under "/dev/msm_snd" mode_0660 ids.system ids.audio
    ∷ rows_under "/dev/msm_mp3" mode_0660 ids.system ids.audio
    ∷ rows_under "/dev/audience_a1026" mode_0660 ids.system ids.audio
    ∷ rows_under "/dev/tpa2018d1" mode_0660 ids.system ids.audio
    ∷ row "/dev/msm_audpre" mode_0660 ids.system ids.audio
    ∷ row "/dev/msm_audio_ctl" mode_0660 ids.system ids.audio
    ∷ row "/dev/htc-acoustic" mode_0660 ids.system ids.audio
    ∷ row "/dev/vdec" mode_0660 ids.system ids.audio
    ∷ row "/dev/q6venc" mode_0660 ids.system ids.audio
    ∷ row "/dev/snd/dsp" mode_0660 ids.system ids.audio
    ∷ row "/dev/snd/dsp1" mode_0660 ids.system ids.audio
    ∷ row "/dev/snd/mixer" mode_0660 ids.system ids.audio
    ∷ row "/dev/smd0" mode_0640 ids.radio ids.radio
    ∷ row "/dev/qemu_trace" mode_0666 ids.system ids.system
    ∷ row "/dev/qmi" mode_0640 ids.radio ids.radio
    ∷ row "/dev/qmi0" mode_0640 ids.radio ids.radio
    ∷ row "/dev/qmi1" mode_0640 ids.radio ids.radio
    ∷ row "/dev/qmi2" mode_0640 ids.radio ids.radio
    ∷ rows_under "/dev/ts0710mux" mode_0640 ids.radio ids.radio
    ∷ row "/dev/ppp" mode_0660 ids.radio ids.vpn
    ∷ row "/dev/tun" mode_0640 ids.vpn ids.vpn
    ∷ []
