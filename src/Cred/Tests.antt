-- ===== src/Cred/Tests.antt =====
-- Runs of the credential code at concrete inputs.
use fake_chroot_ng.Prelude.{
  ℕ, ◌≡◌, refl, ◌≢◌, true, false, Option, none, some, List, [], ◌∷◌, arith, ok, err, eperm,
}
use fake_chroot_ng.Cred.{Cred, id_keep, do_setuid, do_setgid}
use fake_chroot_ng.Cred.Exec.{Identity, Stat}
use fake_chroot_ng.Cred.Setter.{setuid, setgid, setresuid, run_setter, cred_set}
use fake_chroot_ng.Cred.Real.{HostIds, Real, real_ids, real_set, settle, sort_groups}
use fake_chroot_ng.Cred.Privilege.{
  NoRoot, Within, call, exec, history, run_setter-Within, history-NoRoot, setuid_drop_permanent,
  exec_drop_permanent, saved_root_returns,
}
use fake_chroot_ng.Cred.Groups.{SameIds}
use fake_chroot_ng.Cred.Refused.{real_set_changes_nothing}

abbrev uids : ℕ → ℕ → ℕ → Cred
uids r e s = record {
  ruid = r;
  euid = e;
  suid = s;
  fsuid = e;
  rgid = 1000;
  egid = 1000;
  sgid = 1000;
  fsgid = 1000;
  groups = 7 ∷ [];
}

abbrev root : Cred
root = uids 0 0 0

abbrev user : Cred
user = uids 1000 1000 1000

-- a program that has dropped its effective uid alone
abbrev lowered : Cred
lowered = uids 1000 1000 0

-- every list is readable, as three groups
abbrev readable : ℕ → ℕ → Option (List ℕ)
readable a n = some (30 ∷ 10 ∷ 20 ∷ [])

abbrev plain : Identity
plain = record {
  fake_id = true;
  fake_id_explicit = true;
  fake_uid = 0;
  fake_gid = 0;
  host_uid = 10123;
  host_gid = 10123;
  setuid_root = false;
  setgid_root = false;
}

abbrev su : Stat
su = record { mode = 0o104755; uid = 10123; gid = 10123 }

abbrev app : HostIds
app = record {
  resuid = some (10123, 10123, 10123);
  resgid = some (10123, 10123, 10123);
  fsuid = none;
  fsgid = none;
  capability = some 0;
  groups = none;
}

abbrev app_ids : Real
app_ids = record {
  ids = record {
    ruid = 10123;
    euid = 10123;
    suid = 10123;
    fsuid = 10123;
    rgid = 10123;
    egid = 10123;
    sgid = 10123;
    fsgid = 10123;
    groups = [];
  };
  upriv = false;
  gpriv = false;
}

app-real_ids : real_ids app ≡ some app_ids
unfolding real_ids
app-real_ids = refl

sort_groups_run : sort_groups (30 ∷ 10 ∷ 20 ∷ 10 ∷ []) ≡ 10 ∷ 10 ∷ 20 ∷ 30 ∷ []
unfolding sort_groups
sort_groups_run = refl

run_setter-Within_example : Within lowered (run_setter readable false false (setuid 0) lowered).1
run_setter-Within_example = run_setter-Within readable (setuid 0) lowered

history-NoRoot_example :
    NoRoot (history readable plain (call (setuid 0) ∷ exec (some su) ∷ []) user)
history-NoRoot_example =
    history-NoRoot readable plain refl (call (setuid 0) ∷ exec (some su) ∷ []) user (omega arith)

setuid_drop_permanent_example :
    ((cred_set readable (setuid 1000) root).0 ≡ ok 0)
    × ((history readable plain (call (setuid 1000) ∷ call (setuid 0) ∷ []) root).euid ≢ 0)
setuid_drop_permanent_example =
    setuid_drop_permanent readable plain refl 1000 root (call (setuid 0) ∷ []) refl (omega arith)
      (omega arith)

exec_drop_permanent_example :
    (history readable plain (exec (some su) ∷ call (setresuid id_keep 0 id_keep) ∷ []) lowered).euid
    ≢ 0
exec_drop_permanent_example =
    exec_drop_permanent readable plain refl (some su) lowered
      (call (setresuid id_keep 0 id_keep) ∷ []) refl (omega arith) (omega arith)

saved_root_returns_example :
    cred_set readable (setresuid id_keep 0 id_keep) lowered
    ≡ (ok 0, record lowered { euid = 0; fsuid = 0 })
saved_root_returns_example = saved_root_returns readable plain lowered refl

setuid_refused : (run_setter readable false false (setuid 5) user).0 ≡ err eperm
unfolding run_setter do_setuid
setuid_refused = refl

app_setgid : real_set readable app (setgid 10123) ≡ ok 0
unfolding real_set real_ids settle run_setter do_setgid
app_setgid = refl

real_set_changes_nothing_example :
    SameIds app_ids.ids (run_setter readable false false (setgid 10123) app_ids.ids).1
real_set_changes_nothing_example =
    real_set_changes_nothing readable app (setgid 10123) app_ids 0 tt app-real_ids app_setgid

abbrev grouped : List ℕ → Cred
grouped gs = record user { groups = gs }
