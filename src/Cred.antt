-- ===== src/Cred.antt =====
-- src/monitor/cred.c: the synthetic credential set and the setters that change it.
-- A setter takes the set, the caller's privilege and the ids, and returns its answer with the set.
pub mod Caps
pub mod Exec
pub mod Setter
pub mod Real
pub mod Handle
pub mod Privilege
pub mod Rules
pub mod Groups
pub mod Refused
pub mod ExecRules
mod Tests
use fake_chroot_ng.Prelude.{
  ℕ, ◌-◌, ◌^◌, Bool, not, ◌&&◌, ◌||◌, Option, none, some, List, [], ltb, ◌==◌, ◌!=◌, if◌then◌else◌,
  any, Ret, ok, err, eperm, einval, efault, neg32,
}

-- `struct cng_cred`; `groups` holds the first `ngroups` entries of the array.
pub record Cred : Type 0 where
  pub ruid : ℕ
  pub euid : ℕ
  pub suid : ℕ
  pub fsuid : ℕ
  pub rgid : ℕ
  pub egid : ℕ
  pub sgid : ℕ
  pub fsgid : ℕ
  pub groups : List ℕ

abbrev pub ngroups_max : ℕ
ngroups_max = 1024

-- (unsigned)-1
abbrev pub id_keep : ℕ
id_keep = 2 ^ 32 - 1

unfoldable pub cred_priv : Cred → Bool
cred_priv c = c.euid == 0

unfoldable pub in_uset : Cred → ℕ → Bool
in_uset c v = v == c.ruid || v == c.euid || v == c.suid

unfoldable pub in_gset : Cred → ℕ → Bool
in_gset c v = v == c.rgid || v == c.egid || v == c.sgid

unfoldable pub do_setuid : Cred → Bool → ℕ → Ret × Cred
do_setuid c priv u =
    if u == id_keep
    then (err einval, c)
    else if priv
    then (ok 0, record c { ruid = u; euid = u; suid = u; fsuid = u })
    else if u == c.ruid || u == c.suid
    then (ok 0, record c { euid = u; fsuid = u })
    else (err eperm, c)

unfoldable pub do_setgid : Cred → Bool → ℕ → Ret × Cred
do_setgid c priv g =
    if g == id_keep
    then (err einval, c)
    else if priv
    then (ok 0, record c { rgid = g; egid = g; sgid = g; fsgid = g })
    else if g == c.rgid || g == c.sgid
    then (ok 0, record c { egid = g; fsgid = g })
    else (err eperm, c)

-- The ids of a successful `do_setreuid`.
setreuid_ids : Cred → ℕ → ℕ → Cred
setreuid_ids c r e =
    let r' = if r != id_keep then r else c.ruid in
    let e' = if e != id_keep then e else c.euid in
    let s' = if r != id_keep || (e != id_keep && e != c.ruid) then e' else c.suid in
    record c { ruid = r'; euid = e'; suid = s'; fsuid = e' }

unfoldable pub do_setreuid : Cred → Bool → ℕ → ℕ → Ret × Cred
unfolding setreuid_ids
do_setreuid c priv r e =
    if r != id_keep && (not priv && r != c.ruid && r != c.euid)
    then (err eperm, c)
    else if e != id_keep && (not priv && e != c.ruid && e != c.euid && e != c.suid)
    then (err eperm, c)
    else (ok 0, setreuid_ids c r e)

-- The ids of a successful `do_setregid`.
setregid_ids : Cred → ℕ → ℕ → Cred
setregid_ids c r e =
    let r' = if r != id_keep then r else c.rgid in
    let e' = if e != id_keep then e else c.egid in
    let s' = if r != id_keep || (e != id_keep && e != c.rgid) then e' else c.sgid in
    record c { rgid = r'; egid = e'; sgid = s'; fsgid = e' }

unfoldable pub do_setregid : Cred → Bool → ℕ → ℕ → Ret × Cred
unfolding setregid_ids
do_setregid c priv r e =
    if r != id_keep && (not priv && r != c.rgid && r != c.egid)
    then (err eperm, c)
    else if e != id_keep && (not priv && e != c.rgid && e != c.egid && e != c.sgid)
    then (err eperm, c)
    else (ok 0, setregid_ids c r e)

-- One supplied id, or the old one for `id_keep`.
abbrev pub chosen : ℕ → ℕ → ℕ
chosen v old = if v != id_keep then v else old

unfoldable pub do_setresuid : Cred → Bool → ℕ → ℕ → ℕ → Ret × Cred
unfolding in_uset
do_setresuid c priv r e s =
    if not priv
      && ((r != id_keep && not (in_uset c r))
          || (e != id_keep && not (in_uset c e))
          || (s != id_keep && not (in_uset c s)))
    then (err eperm, c)
    else (
      ok 0,
      record c {
        ruid = chosen r c.ruid;
        euid = chosen e c.euid;
        suid = chosen s c.suid;
        fsuid = chosen e c.euid;
      },
    )

unfoldable pub do_setresgid : Cred → Bool → ℕ → ℕ → ℕ → Ret × Cred
unfolding in_gset
do_setresgid c priv r e s =
    if not priv
      && ((r != id_keep && not (in_gset c r))
          || (e != id_keep && not (in_gset c e))
          || (s != id_keep && not (in_gset c s)))
    then (err eperm, c)
    else (
      ok 0,
      record c {
        rgid = chosen r c.rgid;
        egid = chosen e c.egid;
        sgid = chosen s c.sgid;
        fsgid = chosen e c.egid;
      },
    )

unfoldable pub do_setfsuid : Cred → Bool → ℕ → Ret × Cred
do_setfsuid c priv u =
    if u != id_keep && (priv || u == c.ruid || u == c.euid || u == c.suid || u == c.fsuid)
    then (ok c.fsuid, record c { fsuid = u })
    else (ok c.fsuid, c)

unfoldable pub do_setfsgid : Cred → Bool → ℕ → Ret × Cred
do_setfsgid c priv g =
    if g != id_keep && (priv || g == c.rgid || g == c.egid || g == c.sgid || g == c.fsgid)
    then (ok c.fsgid, record c { fsgid = g })
    else (ok c.fsgid, c)

-- The list that was copied in is checked as a whole before it is installed.
install_groups : Cred → Option (List ℕ) → Ret × Cred
install_groups c none = (err efault, c)
install_groups c (some got) =
    if any (λ g. g == id_keep) got then (err einval, c) else (ok 0, record c { groups = got })

-- `copyin a n` is `cng_user_copyin` of `n` ids at the guest address `a`; `n` is an `int`.
unfoldable pub do_setgroups : (ℕ → ℕ → Option (List ℕ)) → Cred → Bool → ℕ → ℕ → Ret × Cred
unfolding install_groups
do_setgroups copyin c priv n a =
    if not priv
    then (err eperm, c)
    else if neg32 n || ltb ngroups_max n
    then (err einval, c)
    else install_groups c (if n == 0 then some [] else copyin a n)
