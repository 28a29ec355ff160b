-- ===== src/Cred/ExecRules.antt =====
-- What an exec does to the fake set (cng_cred_exec of src/monitor/cred.c), and that capset accepts
-- what capget reports.
use fake_chroot_ng.Prelude.{
  ℕ, zero, suc, ◌-◌, ◌*◌, ◌^◌, ◌%◌, ◌≤◌, ◌<◌, ◌≡◌, refl, Bool, true, false, ◌&&◌, Option, none,
  some, arith, if◌then◌else◌, is_ok,
}
use fake_chroot_ng.Cred.{Cred}
use fake_chroot_ng.Cred.Exec.{
  Identity, Stat, is_suid, is_sgid, cred_exec, exec_vis_uid, exec_vis_gid,
}
use fake_chroot_ng.Cred.Caps.{cap_words, all_caps, cap_high_mask, highest_cap, capset_judge}

-- The file is a set-uid (set-gid) regular file.
abbrev pub file_suid : Option Stat → Bool
file_suid none = false
file_suid (some st) = is_suid st.mode

abbrev pub file_sgid : Option Stat → Bool
file_sgid none = false
file_sgid (some st) = is_sgid st.mode

-- With --fake-id an exec keeps the real ids and the groups, makes the effective uid 0 under
-- --setuid-root for a set-uid regular file and keeps it otherwise, the effective gid likewise, and
-- sets the saved and fs ids to the effective ones in every case, a failed stat included.
pub cred_exec_lem :
    (i : Identity) (file : Option Stat) (c : Cred)
    → i.fake_id ≡ true
    → cred_exec i file c ≡ (
        let e = (if i.setuid_root && file_suid file then 0 else c.euid) in
        let g = (if i.setgid_root && file_sgid file then 0 else c.egid) in
        record c { euid = e; suid = e; fsuid = e; egid = g; sgid = g; fsgid = g })
unfolding cred_exec exec_vis_uid exec_vis_gid
cred_exec_lem i file c on = ground arith

highest_cap_range :
    (known : ℕ → Bool) (k : ℕ) → k ≤ 32 → (32 ≤ highest_cap known k) × (highest_cap known k < 64)
unfolding highest_cap
highest_cap_range known zero h = omega arith
highest_cap_range known (suc k) h = ground (arith, highest_cap_range known k)

-- The judgement on a whole set, for the mask of `j + 1` high capabilities.
accepts : Bool → ℕ → ℕ → Bool
accepts root n j =
    is_ok (capset_judge root ((2 * 2 ^ j - 1) % 2 ^ 32) (some (cap_words n (all_caps root))))

-- A test on each of the shifts below `k`.
each_shift : (ℕ → Bool) → ℕ → Bool
each_shift test zero = true
each_shift test (suc k) = each_shift test k && test k

each_shift-at :
    (test : ℕ → Bool) (k : ℕ) → each_shift test k ≡ true → (j : ℕ) → j < k → test j ≡ true
unfolding each_shift
each_shift-at test zero e j lt = elim lt [ ]
each_shift-at test (suc k) e j lt = ground (arith, each_shift-at test k (ground arith) j)

accepts_table :
    (root : Bool)
    → (each_shift (accepts root 1) 32 ≡ true) × (each_shift (accepts root 2) 32 ≡ true)
unfolding each_shift accepts capset_judge cap_words
accepts_table true = (refl, refl)
accepts_table false = (refl, refl)

-- A process may give capset the set that capget reports to it, in one block or in two, whatever
-- capabilities the kernel knows: it is never refused.
pub capset_accepts_capget :
    (known : ℕ → Bool) (root : Bool)
    → (is_ok (capset_judge root (cap_high_mask known) (some (cap_words 1 (all_caps root)))) ≡ true)
      × (is_ok (capset_judge root (cap_high_mask known) (some (cap_words 2 (all_caps root))))
          ≡ true)
unfolding cap_high_mask accepts
capset_accepts_capget known root = (
  each_shift-at (accepts root 1) 32 (accepts_table root).0 (highest_cap known 32 - 32) in_range,
  each_shift-at (accepts root 2) 32 (accepts_table root).1 (highest_cap known 32 - 32) in_range,
)
  where
    in_range : highest_cap known 32 - 32 < 32
    in_range = omega (arith, highest_cap_range known 32 (omega arith))
