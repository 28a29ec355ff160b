-- ===== src/Cred/Rules.antt =====
-- The rules of the setters of src/monitor/cred.c: when each succeeds, what it sets, and that the
-- gid setters mirror the uid setters.
use fake_chroot_ng.Prelude.{
  ℕ, ◌≡◌, refl, ◌≢◌, ◌⊎◌, ◌↔◌, Bool, true, false, Option, List, arith, Ret, ok, err,
}
use fake_chroot_ng.Cred.{
  Cred, id_keep, do_setuid, do_setgid, do_setreuid, do_setregid, do_setresuid, do_setresgid,
  do_setfsuid, do_setfsgid, do_setgroups,
}
use fake_chroot_ng.Cred.Setter.{
  Setter, setuid, setgid, setreuid, setregid, setresuid, setresgid, setfsuid, setfsgid, setgroups,
  run_setter,
}

-- The set with uids and gids exchanged.
abbrev pub mirror : Cred → Cred
mirror c = record {
  ruid = c.rgid;
  euid = c.egid;
  suid = c.sgid;
  fsuid = c.fsgid;
  rgid = c.ruid;
  egid = c.euid;
  sgid = c.suid;
  fsgid = c.fsuid;
  groups = c.groups;
}

abbrev pub mirror_setter : Setter → Setter
mirror_setter (setuid u) = setgid u
mirror_setter (setgid g) = setuid g
mirror_setter (setreuid r e) = setregid r e
mirror_setter (setregid r e) = setreuid r e
mirror_setter (setresuid r e s) = setresgid r e s
mirror_setter (setresgid r e s) = setresuid r e s
mirror_setter (setfsuid u) = setfsgid u
mirror_setter (setfsgid g) = setfsuid g
mirror_setter (setgroups n a) = setgroups n a

abbrev pub mirror_result : Ret × Cred → Ret × Cred
mirror_result (r, c) = (r, mirror c)

module _ (copyin : ℕ → ℕ → Option (List ℕ)) where
  -- Each gid setter is the uid setter with uids and gids exchanged, and the other way round: on
  -- the exchanged set, with the exchanged privileges, it gives the same answer and the exchanged
  -- set (setgroups excepted).
  pub run_setter-mirror :
      (up gp : Bool) (call : Setter) (c : Cred)
      → ((n a : ℕ) → call ≢ setgroups n a)
      → run_setter copyin gp up (mirror_setter call) (mirror c)
        ≡ mirror_result (run_setter copyin up gp call c)
  unfolding run_setter do_setuid do_setgid do_setreuid do_setregid do_setresuid do_setresgid
      do_setfsuid do_setfsgid do_setgroups
  run_setter-mirror up gp (setgroups n a) c h = absurd (h n a refl)
  run_setter-mirror up gp call c h = ground arith

  -- A setter that fails leaves the set that it was given as it was, not only the published one.
  pub run_setter_fails :
      (up gp : Bool) (call : Setter) (c : Cred) (e : ℕ)
      → (run_setter copyin up gp call c).0 ≡ err e
      → (run_setter copyin up gp call c).1 ≡ c
  unfolding run_setter do_setuid do_setgid do_setreuid do_setregid do_setresuid do_setresgid
      do_setfsuid do_setfsgid do_setgroups
  run_setter_fails up gp (setuid u) c e h = ground arith
  run_setter_fails up gp call c e h = ground arith

-- An id that a setres call may be given without privilege.
abbrev pub MayBe : ℕ → Cred → Type 0
MayBe v c = (v ≡ id_keep) ⊎ ((v ≡ c.ruid) ⊎ ((v ≡ c.euid) ⊎ (v ≡ c.suid)))

-- setresuid succeeds exactly when the caller is privileged or each of the three ids is -1 or one
-- of the current real, effective and saved uids.
pub do_setresuid_iff :
    (c : Cred) (priv : Bool) (r e s : ℕ)
    → ((do_setresuid c priv r e s).0 ≡ ok 0) ↔ ((priv ≡ true) ⊎ (MayBe r c × MayBe e c × MayBe s c))
unfolding do_setresuid
do_setresuid_iff c priv r e s = (λ h. ground arith, λ h. ground arith)

-- Without privilege, setreuid(euid, ruid) exchanges the two ids, and done twice it restores both;
-- the saved and fs uids then are the effective uid. Neither id is -1.
pub do_setreuid_twice :
    (c : Cred)
    → c.ruid ≢ id_keep
    → c.euid ≢ id_keep
    → (do_setreuid c false c.euid c.ruid
        ≡ (ok 0, record c { ruid = c.euid; euid = c.ruid; suid = c.ruid; fsuid = c.ruid }))
      × (do_setreuid (do_setreuid c false c.euid c.ruid).1 false c.ruid c.euid
          ≡ (ok 0, record c { suid = c.euid; fsuid = c.euid }))
unfolding do_setreuid
do_setreuid_twice c hr he = (ground arith, ground arith)
