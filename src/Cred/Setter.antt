-- ===== src/Cred/Setter.antt =====
-- The setters of src/monitor/cred.c as one type of calls, and CRED_SET: a setter runs on a copy of
-- the set, and the copy is published if it succeeded.
use fake_chroot_ng.Prelude.{ℕ, Bool, Option, List, if◌then◌else◌, Ret, is_ok}
use fake_chroot_ng.Cred.{
  Cred, cred_priv, do_setuid, do_setgid, do_setreuid, do_setregid, do_setresuid, do_setresgid,
  do_setfsuid, do_setfsgid, do_setgroups,
}

-- A call with its arguments as `unsigned` patterns; `setgroups n a` reads `n` ids at `a`.
pub data Setter : Type 0 where
  setuid : ℕ → Setter
  setgid : ℕ → Setter
  setreuid : ℕ → ℕ → Setter
  setregid : ℕ → ℕ → Setter
  setresuid : ℕ → ℕ → ℕ → Setter
  setresgid : ℕ → ℕ → ℕ → Setter
  setfsuid : ℕ → Setter
  setfsgid : ℕ → Setter
  setgroups : ℕ → ℕ → Setter

-- The switch over the setters. `up` and `gp` are the privilege over uids and over gids.
-- `copyin a n` reads `n` words at `a`.
unfoldable pub run_setter : (ℕ → ℕ → Option (List ℕ)) → Bool → Bool → Setter → Cred → Ret × Cred
run_setter copyin up gp (setuid u) c = do_setuid c up u
run_setter copyin up gp (setgid g) c = do_setgid c gp g
run_setter copyin up gp (setreuid r e) c = do_setreuid c up r e
run_setter copyin up gp (setregid r e) c = do_setregid c gp r e
run_setter copyin up gp (setresuid r e s) c = do_setresuid c up r e s
run_setter copyin up gp (setresgid r e s) c = do_setresgid c gp r e s
run_setter copyin up gp (setfsuid u) c = do_setfsuid c up u
run_setter copyin up gp (setfsgid g) c = do_setfsgid c gp g
run_setter copyin up gp (setgroups n a) c = do_setgroups copyin c gp n a

-- The writer's copy is published only under an answer that is no error.
commit : Cred → Ret × Cred → Ret × Cred
commit old (r, new) = (r, if is_ok r then new else old)

-- CRED_SET over the fake set, whose privilege is an effective uid of 0.
unfoldable pub cred_set : (ℕ → ℕ → Option (List ℕ)) → Setter → Cred → Ret × Cred
unfolding commit
cred_set copyin call c = commit c (run_setter copyin (cred_priv c) (cred_priv c) call c)
