-- ===== src/Cred/Refused.antt =====
-- What a process without privilege is answered where the host refuses the setters:
-- `real_set` of src/monitor/cred.c.
use fake_chroot_ng.Prelude.{
  ℕ, ◌≡◌, ap, true, false, ◌&&◌, ◌||◌, Option, some, List, arith, ◌==◌, if◌then◌else◌, Ret, ok, err,
  eperm, einval,
}
use fake_chroot_ng.Cred.{Cred, id_keep, chosen, do_setuid, do_setresuid}
use fake_chroot_ng.Cred.Setter.{
  Setter, setuid, setresuid, setfsuid, setfsgid, setgroups, run_setter,
}
use fake_chroot_ng.Cred.Real.{HostIds, Real, real_ids, real_set, same_set, settle}
use fake_chroot_ng.Cred.Groups.{SameIds, same_set_iff, count}

-- A setter that is compared by ids alone.
abbrev pub IsIdSetter : Setter → Type 0
IsIdSetter (setfsuid u) = ⊥
IsIdSetter (setfsgid g) = ⊥
IsIdSetter (setgroups n a) = ⊥
IsIdSetter _ = Unit

settle_ok :
    (h : HostIds) (call : Setter) (was c : Cred) (r : Ret) (v : ℕ)
    → IsIdSetter call
    → settle h call was (r, c) ≡ ok v
    → SameIds was c
unfolding settle
settle_ok h (setuid u) was c (err e') v i e = cc
settle_ok h (setfsuid u) was c r v i e = absurd i
settle_ok h (setfsgid u) was c r v i e = absurd i
settle_ok h (setgroups u a) was c r v i e = absurd i
settle_ok h call was c (err e') v i e = cc
settle_ok h call was c (ok w) v i e = ((same_set_iff was c).0 (ground arith)).0

same_set_of_ids : (a b : Cred) → SameIds a b → a.groups ≡ b.groups → same_set a b ≡ true
same_set_of_ids a b s g = (same_set_iff a b).1 (s, λ v. ap (count v) g)

module _ (copyin : ℕ → ℕ → Option (List ℕ)) (h : HostIds) where
  -- real_set never reports a change that it did not make: where it answers anything but an error
  -- to a setter other than setfsuid, setfsgid and setgroups, the rules of the setters leave every
  -- one of the real ids as the host has it.
  pub real_set_changes_nothing :
      (call : Setter) (r : Real) (v : ℕ)
      → IsIdSetter call
      → real_ids h ≡ some r
      → real_set copyin h call ≡ ok v
      → SameIds r.ids (run_setter copyin r.upriv r.gpriv call r.ids).1
  unfolding real_set
  real_set_changes_nothing call r v i ids e =
      settle_ok h call r.ids (run_setter copyin r.upriv r.gpriv call r.ids).1
        (run_setter copyin r.upriv r.gpriv call r.ids).0 v i (rw ids at e)

  -- Where the host refuses the setters, a process with no capability and one uid in all four
  -- places gets 0 from setuid and setresuid for a call that leaves everything as it is, EINVAL
  -- from setuid(-1), and EPERM for everything else.
  pub real_set_app :
      (r : Real) (u v a b s : ℕ)
      → real_ids h ≡ some r
      → r.upriv ≡ false
      → (r.ids.ruid ≡ u) × (r.ids.euid ≡ u) × (r.ids.suid ≡ u) × (r.ids.fsuid ≡ u)
      → (real_set copyin h (setuid v)
          ≡ (if v == id_keep then err einval else if v == u then ok 0 else err eperm))
        × (real_set copyin h (setresuid a b s) ≡ (
            if (a == id_keep || a == u) && ((b == id_keep || b == u) && (s == id_keep || s == u))
            then ok 0
            else err eperm))
  unfolding real_set
  real_set_app r u v a b s ids p us = (rw ids one, rw ids two)
    where
      one :
          settle h (setuid v) r.ids (run_setter copyin r.upriv r.gpriv (setuid v) r.ids)
          ≡ (if v == id_keep then err einval else if v == u then ok 0 else err eperm)
      one =
          unfold settle run_setter do_setuid in
          ground (arith, same_set_of_ids r.ids (record r.ids { euid = v; fsuid = v }))

      two :
          settle h
            (setresuid a b s)
            r.ids
            (run_setter copyin r.upriv r.gpriv (setresuid a b s) r.ids)
          ≡ (if (a == id_keep || a == u) && ((b == id_keep || b == u) && (s == id_keep || s == u))
              then ok 0
              else err eperm)
      two =
          unfold settle run_setter do_setresuid in
          ground (
            arith,
            same_set_of_ids r.ids (record r.ids {
              ruid = chosen a r.ids.ruid;
              euid = chosen b r.ids.euid;
              suid = chosen s r.ids.suid;
              fsuid = chosen b r.ids.euid;
            }),
          )
