-- ===== src/Cred/Privilege.antt =====
-- What the setters of src/monitor/cred.c may do without privilege, and that a dropped root stays
-- dropped.
use fake_chroot_ng.Prelude.{ℕ, ◌≡◌, ◌≢◌, ◌⊎◌, true, false, Option, List, [], ◌∷◌, arith, ok}
use fake_chroot_ng.Cred.{
  Cred, id_keep, cred_priv, do_setuid, do_setgid, do_setreuid, do_setregid, do_setresuid,
  do_setresgid, do_setfsuid, do_setfsgid, do_setgroups,
}
use fake_chroot_ng.Cred.Exec.{Identity, Stat, cred_exec}
use fake_chroot_ng.Cred.Setter.{Setter, setuid, setresuid, run_setter, cred_set}

abbrev pub IsUidOf : ℕ → Cred → Type 0
IsUidOf u c = (u ≡ c.ruid) ⊎ ((u ≡ c.euid) ⊎ ((u ≡ c.suid) ⊎ (u ≡ c.fsuid)))

abbrev pub IsGidOf : ℕ → Cred → Type 0
IsGidOf g c = (g ≡ c.rgid) ⊎ ((g ≡ c.egid) ⊎ ((g ≡ c.sgid) ⊎ (g ≡ c.fsgid)))

-- Every id of `c` is one that `old` had, and the groups are the same.
pub record Within (old c : Cred) : Type 0 where
  pub ruid : IsUidOf c.ruid old
  pub euid : IsUidOf c.euid old
  pub suid : IsUidOf c.suid old
  pub fsuid : IsUidOf c.fsuid old
  pub rgid : IsGidOf c.rgid old
  pub egid : IsGidOf c.egid old
  pub sgid : IsGidOf c.sgid old
  pub fsgid : IsGidOf c.fsgid old
  pub groups : c.groups ≡ old.groups

module _ (copyin : ℕ → ℕ → Option (List ℕ)) where
  -- A setter called without privilege, whether it succeeds or fails, leaves only ids that the set
  -- already had, each on its own side (uids from uids, gids from gids), and the same groups.
  pub run_setter-Within :
      (call : Setter) (c : Cred) → Within c (run_setter copyin false false call c).1
  unfolding run_setter do_setuid do_setgid do_setreuid do_setregid do_setresuid do_setresgid
      do_setfsuid do_setfsgid do_setgroups
  run_setter-Within (setuid u) c = ground arith
  run_setter-Within call c = ground arith

-- Neither the real, the effective nor the saved uid is root's.
pub record NoRoot (c : Cred) : Type 0 where
  pub ruid : c.ruid ≢ 0
  pub euid : c.euid ≢ 0
  pub suid : c.suid ≢ 0

-- What can happen to the fake set of a process: a setter, or an exec of a file with the stat given.
pub data Event : Type 0 where
  call : Setter → Event
  exec : Option Stat → Event

module _ (copyin : ℕ → ℕ → Option (List ℕ)) (i : Identity) where
  unfoldable pub happen : Event → Cred → Cred
  happen (call s) c = (cred_set copyin s c).1
  happen (exec file) c = cred_exec i file c

  unfoldable pub history : List Event → Cred → Cred
  history [] c = c
  history (e ∷ es) c = history es (happen e c)

  module _ (no_flag : i.setuid_root ≡ false) where
    cred_set-NoRoot : (s : Setter) (c : Cred) → NoRoot c → NoRoot (cred_set copyin s c).1
    unfolding cred_set cred_priv run_setter do_setuid do_setgid do_setreuid do_setregid do_setresuid
        do_setresgid do_setfsuid do_setfsgid do_setgroups
    cred_set-NoRoot (setuid u) c h = ground arith
    cred_set-NoRoot s c h = ground arith

    exec-NoRoot :
        (file : Option Stat) (c : Cred)
        → c.ruid ≢ 0
        → c.euid ≢ 0
        → i.fake_id ≡ true
        → NoRoot (cred_exec i file c)
    unfolding cred_exec
    exec-NoRoot file c hr he on = ground arith

    exec-NoRoot_kept : (file : Option Stat) (c : Cred) → NoRoot c → NoRoot (cred_exec i file c)
    unfolding cred_exec
    exec-NoRoot_kept file c h = ground arith

    happen-NoRoot : (e : Event) (c : Cred) → NoRoot c → NoRoot (happen e c)
    unfolding happen
    happen-NoRoot (call s) c h = cred_set-NoRoot s c h
    happen-NoRoot (exec file) c h = exec-NoRoot_kept file c h

    -- Without --setuid-root, no sequence of setters and execs gives a process with no root id a
    -- root id back.
    pub history-NoRoot : (es : List Event) (c : Cred) → NoRoot c → NoRoot (history es c)
    unfolding history
    history-NoRoot [] c h = h
    history-NoRoot (e ∷ es) c h = history-NoRoot es (happen e c) (happen-NoRoot e c h)

    -- setuid(u) from root, with u a uid other than 0 and -1, succeeds and is a permanent drop: no
    -- later sequence of setters and execs, without --setuid-root, has the effective uid 0 again.
    pub setuid_drop_permanent :
        (u : ℕ) (c : Cred) (es : List Event)
        → c.euid ≡ 0
        → u ≢ 0
        → u ≢ id_keep
        → ((cred_set copyin (setuid u) c).0 ≡ ok 0) × ((history (call (setuid u) ∷ es) c).euid ≢ 0)
    unfolding history happen
    setuid_drop_permanent u c es root nz nk =
        (dropped.0, (history-NoRoot es (cred_set copyin (setuid u) c).1 dropped.1).euid)
      where
        dropped :
            ((cred_set copyin (setuid u) c).0 ≡ ok 0) × NoRoot (cred_set copyin (setuid u) c).1
        dropped = unfold cred_set cred_priv run_setter do_setuid in ground arith

    -- An exec makes a drop of the effective uid permanent: with --fake-id, without --setuid-root
    -- and with neither the real nor the effective uid 0, no sequence of setters and execs after an
    -- exec has the effective uid 0 again, whatever the saved uid was.
    pub exec_drop_permanent :
        (file : Option Stat) (c : Cred) (es : List Event)
        → i.fake_id ≡ true
        → c.ruid ≢ 0
        → c.euid ≢ 0
        → (history (exec file ∷ es) c).euid ≢ 0
    unfolding history happen
    exec_drop_permanent file c es on hr he =
        (history-NoRoot es (cred_exec i file c) (exec-NoRoot file c hr he on)).euid

  -- Before an exec a saved root comes back: whoever has the saved uid 0 may make the effective uid
  -- 0 again by seteuid(0), that is setresuid(-1, 0, -1), and keeps the real and saved ids.
  pub saved_root_returns :
      (c : Cred)
      → c.suid ≡ 0
      → (cred_set copyin (setresuid id_keep 0 id_keep) c) ≡ (ok 0, record c { euid = 0; fsuid = 0 })
  unfolding cred_set cred_priv run_setter do_setresuid
  saved_root_returns c h = ground arith
