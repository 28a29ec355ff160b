-- ===== src/Filter/Tests.antt =====
-- The filters of src/monitor/seccomp.c at concrete calls.
use fake_chroot_ng.Prelude.{
  ℕ, ◌≤◌, ◌≡◌, refl, true, false, ◌&&◌, ◌||◌, none, some, List, [], ◌∷◌, arith, length, ltb, ◌==◌,
}
use fake_chroot_ng.Filter.{SockFilter, bpf_run}
use fake_chroot_ng.Filter.Exec.{exec, bpf_run-exec}
use fake_chroot_ng.Filter.Numbers
use fake_chroot_ng.Filter.Build.{
  Config, base_filter, build_seccomp, max_insns, ret_trap, ret_allow, load_nr, jeq, answer, mem,
  always_trapped, trapped, ioctl_requests,
}
use fake_chroot_ng.Filter.Policy.{base_policy}
use fake_chroot_ng.Filter.Refine.{bpf_run-base_filter}
use fake_chroot_ng.Filter.Bounds.{build_seccomp-some}
use fake_chroot_ng.Filter.Guard.{always_trapped-traps}
use fake_chroot_ng.Filter.Denied.{denied_syscall, refuses, denied_syscall-refused}
use fake_chroot_ng.Filter.Traps.{
  call_words, seccomp_traps, stacked_policy, seccomp_traps-stacked, seccomp_traps-gate,
}

abbrev faked : Config
faked = record {
  fake_id = true;
  setid_deny = false;
  l2s = true;
  no_proc = false;
  no_dev = false;
  registry = true;
  fs = none;
  synth_fd_base = 1008;
  gate_start = 0x5500001040;
  gate_end = 0x5500001080;
}

abbrev no_args : ℕ → ℕ
no_args i = 0

-- openat from guest code, and from the gate.
abbrev guest_open : ℕ → ℕ
guest_open = call_words Numbers.nr_openat no_args 0x7f00001234

abbrev thread_clone : ℕ → ℕ
thread_clone = call_words Numbers.nr_clone (λ i. 0x3d0f00) 0x7f00001234

guest_open-traps : base_policy faked guest_open ≡ ret_trap
unfolding trapped always_trapped ioctl_requests
guest_open-traps = refl

thread_clone-allowed : base_policy faked thread_clone ≡ ret_allow
unfolding ioctl_requests
thread_clone-allowed = refl

abbrev one_call : List SockFilter
one_call = load_nr ∷ jeq 56 0 1 ∷ answer ret_trap ∷ answer ret_allow ∷ []

bpf_run-exec_example : bpf_run one_call guest_open ≡ exec guest_open one_call 0 0
bpf_run-exec_example = bpf_run-exec guest_open one_call

bpf_run-base_filter_example :
    bpf_run (base_filter faked) thread_clone ≡ some (base_policy faked thread_clone)
bpf_run-base_filter_example = bpf_run-base_filter faked thread_clone (omega arith)

build_seccomp-some_example :
    (build_seccomp faked max_insns ≡ some (base_filter faked))
    × (length (base_filter faked) ≤ max_insns)
build_seccomp-some_example = build_seccomp-some faked max_insns (omega arith)

always_trapped-traps_example : bpf_run (base_filter faked) guest_open ≡ some ret_trap
unfolding always_trapped
always_trapped-traps_example = always_trapped-traps faked guest_open listed refl refl (omega arith)
  where
    listed : mem Numbers.nr_openat (always_trapped faked) ≡ true
    listed = refl

denied_syscall-refused_example :
    refuses (bpf_run (base_filter faked) (call_words Numbers.nr_clone3 no_args 0x7f00001234))
    ≡ denied_syscall Numbers.nr_clone3
denied_syscall-refused_example =
    denied_syscall-refused faked (call_words Numbers.nr_clone3 no_args 0x7f00001234) (omega arith)
      refl

seccomp_traps-stacked_example :
    seccomp_traps faked
      (some (base_filter faked))
      true
      (λ n. n == 435)
      Numbers.nr_wait4
      no_args
      0x7f00001234
      false
      true
    ≡ (stacked_policy faked faked (call_words Numbers.nr_wait4 no_args 0x7f00001234) false true
        || ltb Numbers.nr_wait4 512 && Numbers.nr_wait4 == 435)
seccomp_traps-stacked_example =
    seccomp_traps-stacked faked faked (λ n. n == 435) Numbers.nr_wait4 no_args 0x7f00001234 false
      true (omega arith)

seccomp_traps-gate_example :
    seccomp_traps faked
      (some (base_filter faked))
      true
      (λ n. n == 435)
      Numbers.nr_openat
      no_args
      0x5500001048
      true
      true
    ≡ (ltb Numbers.nr_openat 512 && Numbers.nr_openat == 435)
seccomp_traps-gate_example =
    seccomp_traps-gate faked faked (λ n. n == 435) Numbers.nr_openat no_args 0x5500001048 true true
      (omega arith) refl refl (omega arith) refl (omega arith) (omega arith)
