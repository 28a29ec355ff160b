-- ===== src/Filter/Traps.antt =====
-- `cng_seccomp_traps` of src/monitor/seccomp.c: whether the filters stacked on a task trap a call.
use fake_chroot_ng.Prelude.{
  ℕ, ◌-◌, ◌/◌, ◌%◌, ◌^◌, ◌≤◌, ◌<◌, ◌≡◌, refl, sym, ap, ap₂, ◌∙◌, Bool, true, false, not, ◌&&◌, ◌||◌,
  Option, none, some, List, arith, ltb, leb, ◌==◌, if◌then◌else◌, bit_and,
}
use fake_chroot_ng.Filter.{SockFilter, bpf_run}
use fake_chroot_ng.Filter.Numbers
use fake_chroot_ng.Filter.Tables.{enosys_syscalls, tracer_nrs}
use fake_chroot_ng.Filter.Build.{
  Config, mem, ret_trap, ret_enosys, ret_allow, audit_arch_aarch64, base_filter, ret_traceall,
  ret_tracer, small_insns, build_seccomp_traceall, build_seccomp_tracer,
}
use fake_chroot_ng.Filter.Policy.{
  arg_lo, from_gate, new_process, base_policy, traceall_policy, tracer_policy,
}
use fake_chroot_ng.Filter.Answers.{pick, call_policy-answers}
use fake_chroot_ng.Filter.Refine.{bpf_run-base_filter}
use fake_chroot_ng.Filter.Stack.{bpf_run-traceall, bpf_run-tracer}
use fake_chroot_ng.Filter.Bounds.{build_seccomp_traceall-some, build_seccomp_tracer-some}

-- `filter_traps`: the action without its data, and a program that cannot be run taken to trap.
abbrev pub answer_traps : Option ℕ → Bool
answer_traps none = true
answer_traps (some act) = bit_and act 0xffff0000 == ret_trap

unfoldable pub filter_traps : List SockFilter → (ℕ → ℕ) → Bool
filter_traps f d = answer_traps (bpf_run f d)

-- The 16 words of seccomp_data, of a call and the address behind its svc.
abbrev pub call_words : ℕ → (ℕ → ℕ) → ℕ → ℕ → ℕ
call_words nr a ip i =
    if i == 0
    then nr % 2 ^ 32
    else if i == 1
    then audit_arch_aarch64
    else if i == 2
    then ip % 2 ^ 32
    else if i == 3
    then ip / 2 ^ 32 % 2 ^ 32
    else if i % 2 == 0
    then a ((i - 4) / 2) % 2 ^ 32
    else a ((i - 4) / 2) / 2 ^ 32 % 2 ^ 32

-- A small filter that could be built.
unfoldable pub built_traps : Option (List SockFilter) → (ℕ → ℕ) → Bool
unfolding filter_traps
built_traps none d = false
built_traps (some f) d = filter_traps f d

-- `cng_seccomp_traps`; `installed` is `g_base`, `live` is cng_g_traps_live, and a number below 0
-- is one of 2 ^ 63 and more.
unfoldable pub seccomp_traps :
    Config → Option (List SockFilter) → Bool → (ℕ → Bool) → ℕ → (ℕ → ℕ) → ℕ → Bool → Bool → Bool
unfolding filter_traps built_traps build_seccomp_traceall build_seccomp_tracer
seccomp_traps c none live blocked nr a ip traceall tracer = false
seccomp_traps c (some base) live blocked nr a ip traceall tracer =
    let d = call_words nr a ip in
    if not live
    then false
    else if filter_traps base d
    then true
    else if traceall && built_traps (build_seccomp_traceall c small_insns) d
    then true
    else if tracer && built_traps (build_seccomp_tracer c small_insns) d
    then true
    else ltb nr 512 && blocked nr

-- An action traps if it is `trap`, for the actions that a filter answers with.
decides : ℕ → ℕ → Bool
decides trap act =
    if act == trap
    then bit_and act 0xffff0000 == ret_trap
    else not (bit_and act 0xffff0000 == ret_trap)

decided :
    (trap act : ℕ) → decides trap act ≡ true → (bit_and act 0xffff0000 == ret_trap) ≡ (act == trap)
unfolding decides
decided trap act = cases (act == trap) (bit_and act 0xffff0000 == ret_trap)
  where
    cases : (x y : Bool) → (if x then y else not y) ≡ true → y ≡ x
    cases true y h = h
    cases false true h = sym h
    cases false false h = refl

base_policy-decides : (c : Config) (d : ℕ → ℕ) → decides ret_trap (base_policy c d) ≡ true
base_policy-decides c d =
    pick (decides ret_trap) (not (d 1 == audit_arch_aarch64)) _ _ (unfold decides in refl) (
      pick (decides ret_trap) (mem (d 0) enosys_syscalls) _ _ (unfold decides in refl) (
        pick (decides ret_trap) (from_gate c d) _ _ (unfold decides in refl) (
          call_policy-answers (decides ret_trap) c d (unfold decides in refl)
            (unfold decides in refl))))

filter_traps-base :
    (c : Config) (d : ℕ → ℕ)
    → c.synth_fd_base < 2 ^ 31
    → filter_traps (base_filter c) d ≡ (base_policy c d == ret_trap)
unfolding filter_traps
filter_traps-base c d h =
    ap answer_traps (bpf_run-base_filter c d h)
    ∙ decided ret_trap (base_policy c d) (base_policy-decides c d)

traps_traceall :
    (c : Config) (d : ℕ → ℕ)
    → built_traps (build_seccomp_traceall c small_insns) d
      ≡ (traceall_policy c d ret_traceall == ret_traceall)
unfolding filter_traps built_traps
traps_traceall c d =
    ap (λ f. built_traps f d) (build_seccomp_traceall-some c small_insns (omega arith)).0
    ∙ ap answer_traps (bpf_run-traceall c d)
    ∙ (decided ret_traceall (traceall_policy c d ret_traceall) (
        pick (decides ret_traceall) (not (d 1 == audit_arch_aarch64)) _ _ (unfold decides in refl) (
          pick (decides ret_traceall) (from_gate c d) _ _ (unfold decides in refl) (
            pick (decides ret_traceall) (d 0 == Numbers.nr_rt_sigreturn) _ _
              (unfold decides in refl)
              (pick (decides ret_traceall)
                (d 0 == Numbers.nr_clone && not (new_process (arg_lo d 0))) _ _
                (unfold decides in refl) (unfold decides in refl))))))

traps_tracer :
    (c : Config) (d : ℕ → ℕ)
    → built_traps (build_seccomp_tracer c small_insns) d
      ≡ (tracer_policy c d tracer_nrs ret_tracer == ret_tracer)
unfolding filter_traps built_traps
traps_tracer c d =
    ap (λ f. built_traps f d) (build_seccomp_tracer-some c small_insns (omega arith)).0
    ∙ ap answer_traps (bpf_run-tracer c d)
    ∙ (decided ret_tracer (tracer_policy c d tracer_nrs ret_tracer) (
        pick (decides ret_tracer) (not (d 1 == audit_arch_aarch64)) _ _ (unfold decides in refl) (
          pick (decides ret_tracer) (from_gate c d) _ _ (unfold decides in refl) (
            pick (decides ret_tracer) (mem (d 0) tracer_nrs) _ _ (unfold decides in refl)
              (unfold decides in refl)))))

-- The policies of the filters on a task, and the calls that another filter refuses.
abbrev pub stacked_policy : Config → Config → (ℕ → ℕ) → Bool → Bool → Bool
stacked_policy c0 c d traceall tracer =
    base_policy c0 d == ret_trap
    || (traceall && traceall_policy c d ret_traceall == ret_traceall
        || tracer && tracer_policy c d tracer_nrs ret_tracer == ret_tracer)

-- The gate, where it does not cross a multiple of 2 ^ 32.
module _ (c : Config) (nr : ℕ) (a : ℕ → ℕ) (ip : ℕ) where
  pub from_gate-inside :
      ip < 2 ^ 64
      → c.gate_start < 2 ^ 64
      → c.gate_end < 2 ^ 64
      → c.gate_start / 2 ^ 32 ≡ c.gate_end / 2 ^ 32
      → from_gate c (call_words nr a ip) ≡ (leb c.gate_start ip && ltb ip c.gate_end)
  from_gate-inside hi hs he e = ground (arith, hi, hs, he, e)

module _ (c0 c : Config) (blocked : ℕ → Bool) (nr : ℕ) (a : ℕ → ℕ) (ip : ℕ)
    (traceall tracer : Bool) where
  -- With a base filter installed and live, cng_seccomp_traps says that a call is trapped exactly
  -- where the policy of the base filter traps it, or that of the tracee's filter where it is
  -- stacked, or that of the tracer's, or an ambient filter refuses it. The base of the synthesized
  -- descriptors is below 2^31.
  pub seccomp_traps-stacked :
      c0.synth_fd_base < 2 ^ 31
      → seccomp_traps c (some (base_filter c0)) true blocked nr a ip traceall tracer
        ≡ (stacked_policy c0 c (call_words nr a ip) traceall tracer || ltb nr 512 && blocked nr)
  unfolding seccomp_traps
  seccomp_traps-stacked h =
      let d = call_words nr a ip in
      rw (filter_traps-base c0 d h, traps_traceall c d, traps_tracer c d)
        (flat (base_policy c0 d == ret_trap)
          (traceall && traceall_policy c d ret_traceall == ret_traceall)
          (tracer && tracer_policy c d tracer_nrs ret_tracer == ret_tracer)
          (ltb nr 512 && blocked nr))
    where
      flat :
          (x y z w : Bool)
          → (if x then true else if y then true else if z then true else w) ≡ (x || (y || z) || w)
      flat true y z w = refl
      flat false true z w = refl
      flat false false true w = refl
      flat false false false w = refl

  -- A call from the gate is never trapped by the filters, whatever call it is and however many of
  -- them are stacked: with the base filter installed and live, cng_seccomp_traps answers only what
  -- an ambient filter was measured to refuse. The gate is where it was when the filter was built
  -- and does not cross a multiple of 2^32.
  pub seccomp_traps-gate :
      c0.synth_fd_base < 2 ^ 31
      → c0.gate_start ≡ c.gate_start
      → c0.gate_end ≡ c.gate_end
      → c.gate_end < 2 ^ 64
      → c.gate_start / 2 ^ 32 ≡ c.gate_end / 2 ^ 32
      → c.gate_start ≤ ip
      → ip < c.gate_end
      → seccomp_traps c (some (base_filter c0)) true blocked nr a ip traceall tracer
        ≡ (ltb nr 512 && blocked nr)
  seccomp_traps-gate h starts ends w e above below =
      seccomp_traps-stacked h ∙ ap (λ b. b || (ltb nr 512 && blocked nr)) untrapped
    where
      within : ℕ → ℕ → Bool
      within x y =
          call_words nr a ip 3 == x / 2 ^ 32 % 2 ^ 32
          && (leb (x % 2 ^ 32) (call_words nr a ip 2) && ltb (call_words nr a ip 2) (y % 2 ^ 32))

      neither : (x y : Bool) → (x && false || y && false) ≡ false
      neither true true = refl
      neither true false = refl
      neither false true = refl
      neither false false = refl

      open_gate : (b : Bool) → ((if b then ret_enosys else ret_allow) == ret_trap) ≡ false
      open_gate true = refl
      open_gate false = refl

      g : from_gate c (call_words nr a ip) ≡ true
      g = from_gate-inside c nr a ip (omega arith) (omega arith) w e ∙ ground (arith, above, below)

      g0 : from_gate c0 (call_words nr a ip) ≡ true
      g0 = ap₂ (λ x y. within x y) starts ends ∙ g

      untrapped : stacked_policy c0 c (call_words nr a ip) traceall tracer ≡ false
      untrapped =
          rw
            (g0, g, open_gate (mem (call_words nr a ip 0) enosys_syscalls), neither traceall tracer)
            refl
