-- ===== src/Cred/Exec.antt =====
-- The identity that is configured, what a file's owner looks like under it, and set-id on exec:
-- cng_cred_seed, cng_cred_setup and cng_cred_exec of src/monitor/cred.c, and the inline functions
-- of include/cng/monitor.h.
use fake_chroot_ng.Prelude.{
  ℕ, Bool, ◌&&◌, Option, none, some, [], ◌==◌, ◌!=◌, if◌then◌else◌, bit_and,
}
use fake_chroot_ng.Cred.{Cred}

-- The globals `cng_g_fake_id` to `cng_g_setgid_root`.
pub record Identity : Type 0 where
  pub fake_id : Bool
  pub fake_id_explicit : Bool
  pub fake_uid : ℕ
  pub fake_gid : ℕ
  pub host_uid : ℕ
  pub host_gid : ℕ
  pub setuid_root : Bool
  pub setgid_root : Bool

-- The fields of a `struct stat` that are read here.
pub record Stat : Type 0 where
  pub mode : ℕ
  pub uid : ℕ
  pub gid : ℕ

-- (mode & bit) && (mode & S_IFMT) == S_IFREG
abbrev pub regular_with : ℕ → ℕ → Bool
regular_with bit mode = bit_and mode bit != 0 && bit_and mode 0o170000 == 0o100000

abbrev pub is_suid : ℕ → Bool
is_suid mode = regular_with 0o4000 mode

abbrev pub is_sgid : ℕ → Bool
is_sgid mode = regular_with 0o2000 mode

unfoldable pub remap_uid : Identity → ℕ → ℕ
remap_uid i u = if i.fake_id && u == i.host_uid then i.fake_uid else u

unfoldable pub remap_gid : Identity → ℕ → ℕ
remap_gid i g = if i.fake_id && g == i.host_gid then i.fake_gid else g

unfoldable pub exec_vis_uid : Identity → ℕ → ℕ → ℕ
exec_vis_uid i u mode = if i.setuid_root && is_suid mode then 0 else remap_uid i u

unfoldable pub exec_vis_gid : Identity → ℕ → ℕ → ℕ
exec_vis_gid i g mode = if i.setgid_root && is_sgid mode then 0 else remap_gid i g

-- `stat_remap` of src/monitor/dispatch.c
unfoldable pub stat_remap : Identity → Stat → Stat
stat_remap i st = record st {
  uid = exec_vis_uid i st.uid st.mode;
  gid = exec_vis_gid i st.gid st.mode;
}

unfoldable pub cred_seed : Identity → Cred
cred_seed i = record {
  ruid = i.fake_uid;
  euid = i.fake_uid;
  suid = i.fake_uid;
  fsuid = i.fake_uid;
  rgid = i.fake_gid;
  egid = i.fake_gid;
  sgid = i.fake_gid;
  fsgid = i.fake_gid;
  groups = [];
}

setup_identity : Identity → ℕ → ℕ → Identity
setup_identity i uid gid =
    if i.fake_id_explicit
    then record i { host_uid = uid; host_gid = gid }
    else record i { host_uid = uid; host_gid = gid; fake_uid = uid; fake_gid = gid }

unfoldable pub cred_setup : Identity → ℕ → ℕ → Identity × Cred
unfolding setup_identity cred_seed
cred_setup i uid gid = (setup_identity i uid gid, cred_seed (setup_identity i uid gid))

-- What the set-id bits of the file give.
set_id : Identity → Option Stat → Cred → Cred
set_id i none c = c
set_id i (some st) c = record c {
  euid = if i.setuid_root && is_suid st.mode then exec_vis_uid i st.uid st.mode else c.euid;
  egid = if i.setgid_root && is_sgid st.mode then exec_vis_gid i st.gid st.mode else c.egid;
}

-- The saved and fs ids follow the effective ones.
reset_saved : Cred → Cred
reset_saved c = record c { suid = c.euid; fsuid = c.euid; sgid = c.egid; fsgid = c.egid }

-- `file` is the stat of the program: `none` where there is no name or the stat fails.
unfoldable pub cred_exec : Identity → Option Stat → Cred → Cred
unfolding set_id reset_saved
cred_exec i file c = if i.fake_id then reset_saved (set_id i file c) else c
