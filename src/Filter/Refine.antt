-- ===== src/Filter/Refine.antt =====
-- src/monitor/seccomp.c: what the filters answer, against the policies.
use fake_chroot_ng.Prelude.{
  ℕ, ◌%◌, ◌^◌, ◌<◌, ◌≡◌, refl, ap, ◌∙◌, Bool, true, false, not, ◌&&◌, Option, some, List, ◌++◌,
  arith, ◌==◌, ◌!=◌, if◌then◌else◌,
}
use fake_chroot_ng.Filter.{SockFilter, bpf_run}
use fake_chroot_ng.Filter.Exec.{exec, bpf_run-exec}
use fake_chroot_ng.Filter.Numbers
use fake_chroot_ng.Filter.Tables.{enosys_syscalls, read_family}
use fake_chroot_ng.Filter.Build.{
  Config, mem, ret_kill, ret_trap, ret_allow, audit_arch_aarch64, prot_exec, mremap_dontunmap,
  ioctl_requests, trapped, waits, clone_block, prctl_block, ioctl_block, mmap_block, bit_block,
  wait_blocks, synth_block, tail_block, base_filter,
}
use fake_chroot_ng.Filter.Policy.{trap_if, from_gate, rest_policy, call_policy, base_policy}
use fake_chroot_ng.Filter.Listed.{exec-tail_block, exec-enosys_block}
use fake_chroot_ng.Filter.Blocks.{
  exec-clone_block, exec-prctl_block, exec-mmap_block, exec-mprotect_block, exec-mremap_block,
  exec-arch_block, exec-gate_block, exec-ioctl_block, exec-synth_block, exec-waits,
}
use fake_chroot_ng.Filter.Trapped.{
  trapped-Words, length-trapped, ioctl_requests-Words, length-ioctl_requests,
}

-- A block that decides a call, before a program whose answer is known.
pub or_else :
    {x : Option ℕ} {other : ℕ} (b : Bool) (k : ℕ)
    → x ≡ some other
    → (if b then some k else x) ≡ some (if b then k else other)
or_else true k e = refl
or_else false k e = e

module _ (c : Config) (d : ℕ → ℕ) (h : c.synth_fd_base < 2 ^ 31) where
  exec-rest :
      exec d (synth_block c.synth_fd_base ++ tail_block (trapped c) ret_trap) 0 (d 0)
      ≡ some (rest_policy c d)
  exec-rest =
      exec-synth_block d (tail_block (trapped c) ret_trap) c.synth_fd_base h
      ∙ or_else (c.synth_fd_base != 0 && mem (d 0) read_family) _ (
          exec-tail_block d (trapped c) ret_trap (d 0) (omega (arith, length-trapped c))
            (trapped-Words c)
          ∙ ap some (judged (mem (d 0) (trapped c))))
    where
      judged : (b : Bool) → (if b then ret_trap % 2 ^ 32 else ret_allow) ≡ trap_if b
      judged true = refl
      judged false = refl

  from_mmap : List SockFilter
  from_mmap =
      mmap_block
      ++ (bit_block Numbers.nr_mprotect 2 prot_exec
          ++ (bit_block Numbers.nr_mremap 3 mremap_dontunmap
              ++ (wait_blocks waits
                  ++ (synth_block c.synth_fd_base ++ tail_block (trapped c) ret_trap))))

  exec-call :
      exec d (clone_block ++ (prctl_block ++ (ioctl_block (ioctl_requests c) ++ from_mmap))) 0 (d 0)
      ≡ some (call_policy c d)
  unfolding from_mmap
  exec-call =
      let (low, high) = length-ioctl_requests c in
      exec-clone_block d _
      ∙ or_else (d 0 == Numbers.nr_clone) _ (
          exec-prctl_block d _
          ∙ or_else (d 0 == Numbers.nr_prctl) _ (
              exec-ioctl_block d _ (ioctl_requests c) (omega (arith, low)) (omega (arith, high))
                (ioctl_requests-Words c)
              ∙ or_else (d 0 == Numbers.nr_ioctl) _ (
                  exec-mmap_block d _
                  ∙ or_else (d 0 == Numbers.nr_mmap) _ (
                      exec-mprotect_block d _
                      ∙ or_else (d 0 == Numbers.nr_mprotect) _ (
                          exec-mremap_block d _
                          ∙ or_else (d 0 == Numbers.nr_mremap) _
                              (exec-waits d _ (rest_policy c d) exec-rest))))))

  -- The base filter, run on any call's data, answers what the policy says of the call: another
  -- architecture is killed, a call of the refused set gets ENOSYS even from the gate, any other
  -- call from the gate is allowed, and then each call that is judged by its arguments is trapped
  -- or allowed by them and every other by the list. The base of the synthesized descriptors is
  -- below 2^31.
  pub bpf_run-base_filter : bpf_run (base_filter c) d ≡ some (base_policy c d)
  unfolding base_filter from_mmap
  bpf_run-base_filter =
      bpf_run-exec d (base_filter c)
      ∙ exec-arch_block d _ 0
      ∙ killed (d 1 == audit_arch_aarch64) (
          exec-enosys_block d _ (d 1)
          ∙ or_else (mem (d 0) enosys_syscalls) _
              (exec-gate_block d _ c (d 0) ∙ or_else (from_gate c d) _ exec-call))
    where
      killed :
          {x : Option ℕ} {other : ℕ} (b : Bool)
          → x ≡ some other
          → (if b then x else some ret_kill) ≡ some (if not b then ret_kill else other)
      killed true e = e
      killed false e = refl
