-- ===== src/Filter/Stack.antt =====
-- src/monitor/seccomp.c: the filters that a tracee and a tracer stack.
use fake_chroot_ng.Prelude.{
  ℕ, ◌≡◌, refl, ap, ◌∙◌, Bool, true, false, not, ◌&&◌, Option, some, List, ◌++◌, arith, ◌==◌,
  if◌then◌else◌,
}
use fake_chroot_ng.Filter.{SockFilter, bpf_run, step}
use fake_chroot_ng.Filter.Exec.{exec, bpf_run-exec}
use fake_chroot_ng.Filter.Numbers
use fake_chroot_ng.Filter.Tables.{tracer_nrs}
use fake_chroot_ng.Filter.Build.{
  Config, ret_kill, ret_allow, audit_arch_aarch64, arch_block, gate_block, tail_block, prologue,
  traceall_block, ret_traceall, ret_tracer,
}
use fake_chroot_ng.Filter.Policy.{arg_lo, from_gate, new_process, traceall_policy, tracer_policy}
use fake_chroot_ng.Filter.Listed.{exec-tail_block}
use fake_chroot_ng.Filter.Blocks.{exec-arch_block, exec-gate_block}
use fake_chroot_ng.Filter.Refine.{or_else}

module _ (c : Config) (d : ℕ → ℕ) where
  exec-prologue :
      (rest : List SockFilter)
      → exec d (prologue c ++ rest) 0 0 ≡ (
          if not (d 1 == audit_arch_aarch64)
          then some ret_kill
          else if from_gate c d
          then some ret_allow
          else exec d rest 0 (d 0))
  unfolding prologue arch_block
  exec-prologue rest =
      exec-arch_block d (gate_block c ++ rest) 0
      ∙ ap (λ x. if d 1 == audit_arch_aarch64 then x else some ret_kill)
          (exec-gate_block d rest c (d 1))
      ∙ swap (d 1 == audit_arch_aarch64) _
    where
      swap :
          (b : Bool) (x : Option ℕ)
          → (if b then x else some ret_kill) ≡ (if not b then some ret_kill else x)
      swap true x = refl
      swap false x = refl

  exec-traceall_block :
      exec d traceall_block 0 (d 0)
      ≡ some (
          if d 0 == Numbers.nr_rt_sigreturn
          then ret_allow
          else if d 0 == Numbers.nr_clone && not (new_process (arg_lo d 0))
          then ret_allow
          else ret_traceall)
  unfolding exec step traceall_block
  exec-traceall_block = ground arith

  -- The filter of a tracee answers its policy.
  pub bpf_run-traceall :
      bpf_run (prologue c ++ traceall_block) d ≡ some (traceall_policy c d ret_traceall)
  bpf_run-traceall =
      bpf_run-exec d (prologue c ++ traceall_block)
      ∙ exec-prologue traceall_block
      ∙ or_else (not (d 1 == audit_arch_aarch64)) _ (or_else (from_gate c d) _ exec-traceall_block)

  -- The filter of a tracer answers its policy.
  pub bpf_run-tracer :
      bpf_run (prologue c ++ tail_block tracer_nrs ret_tracer) d
      ≡ some (tracer_policy c d tracer_nrs ret_tracer)
  bpf_run-tracer =
      bpf_run-exec d (prologue c ++ tail_block tracer_nrs ret_tracer)
      ∙ exec-prologue (tail_block tracer_nrs ret_tracer)
      ∙ or_else (not (d 1 == audit_arch_aarch64)) _ (
          or_else (from_gate c d) _
            (exec-tail_block d tracer_nrs ret_tracer (d 0) (omega arith) (omega arith)))
