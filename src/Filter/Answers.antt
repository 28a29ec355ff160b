-- ===== src/Filter/Answers.antt =====
-- What holds of the answers of the policy for src/monitor/seccomp.c, holds of each of its cases.
use fake_chroot_ng.Prelude.{
  ℕ, ◌≡◌, Bool, true, false, ◌&&◌, ◌||◌, List, [], ◌∷◌, ◌==◌, ◌!=◌, if◌then◌else◌,
}
use fake_chroot_ng.Filter.Numbers
use fake_chroot_ng.Filter.Tables.{read_family}
use fake_chroot_ng.Filter.Build.{Config, mem, ret_trap, ret_allow, waits}
use fake_chroot_ng.Filter.Policy.{trap_if, arg_lo, arg_hi, wait_policy, rest_policy, call_policy}

pub pick :
    (p : ℕ → Bool) (b : Bool) (x y : ℕ) → p x ≡ true → p y ≡ true → p (if b then x else y) ≡ true
pick p true x y h k = h
pick p false x y h k = k

module _ (p : ℕ → Bool) where
  pick_trap : (b : Bool) → p ret_trap ≡ true → p ret_allow ≡ true → p (trap_if b) ≡ true
  pick_trap true t a = t
  pick_trap false t a = a

  wait_policy-answers :
      (d : ℕ → ℕ) (ws : List (ℕ × ℕ)) (other : ℕ)
      → p ret_trap ≡ true
      → p ret_allow ≡ true
      → p other ≡ true
      → p (wait_policy d ws other) ≡ true
  wait_policy-answers d [] other t a h = h
  wait_policy-answers d ((nr, arg) ∷ ws) other t a h =
      pick p (d 0 == nr) _ _ (pick_trap (arg_lo d arg != 0 || arg_hi d arg != 0) t a)
        (wait_policy-answers d ws other t a h)

  pub call_policy-answers :
      (c : Config) (d : ℕ → ℕ) → p ret_trap ≡ true → p ret_allow ≡ true → p (call_policy c d) ≡ true
  call_policy-answers c d t a = pick p (d 0 == Numbers.nr_clone) _ _ (pick_trap _ t a) (
      pick p (d 0 == Numbers.nr_prctl) _ _ (pick_trap _ t a) (
        pick p (d 0 == Numbers.nr_ioctl) _ _ (pick_trap _ t a) (
          pick p (d 0 == Numbers.nr_mmap) _ _ (pick_trap _ t a) (
            pick p (d 0 == Numbers.nr_mprotect) _ _ (pick_trap _ t a) (
              pick p (d 0 == Numbers.nr_mremap) _ _ (pick_trap _ t a) (
                wait_policy-answers d waits (rest_policy c d) t a (
                  pick p (c.synth_fd_base != 0 && mem (d 0) read_family) _ _ (pick_trap _ t a)
                    (pick_trap _ t a))))))))
