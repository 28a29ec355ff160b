-- ===== src/Filter/Bounds.antt =====
-- src/monitor/seccomp.c: the filters fit the buffers that they are built into.
use fake_chroot_ng.Prelude.{
  ℕ, ◌+◌, ◌≤◌, ◌≡◌, some, List, [], ◌∷◌, ◌++◌, arith, ◌==◌, length, Bool-cases, inl, inr,
}
use fake_chroot_ng.Filter.{SockFilter}
use fake_chroot_ng.Filter.Numbers
use fake_chroot_ng.Filter.Tables.{tracer_nrs}
use fake_chroot_ng.Filter.Build.{
  Config, ret_trap, ret_allow, prot_exec, mremap_dontunmap, ioctl_requests, trapped, waits,
  arch_block, enosys_block, gate_block, clone_block, prctl_block, ioctl_block, mmap_block,
  bit_block, wait_blocks, synth_block, tail_block, base_filter, one_of, checks, answer, load_nr,
  wait_block, prologue, traceall_block, ret_tracer, build_seccomp, build_seccomp_traceall,
  build_seccomp_tracer, max_insns, small_insns,
}
use fake_chroot_ng.Filter.Trapped.{length-trapped, length-ioctl_requests}
use fake_chroot_ng.Prelude.{length-append}
use fake_chroot_ng.Filter.Listed.{length-one_of, length-checks}

length-tail_block : (l : List ℕ) (trap : ℕ) → length (tail_block l trap) ≡ length l + 2
unfolding tail_block
length-tail_block l trap =
    omega (arith, length-append (checks l) (answer ret_allow ∷ answer trap ∷ []), length-checks l)

length-ioctl_block : (l : List ℕ) → length (ioctl_block l) ≡ length l + 8
unfolding ioctl_block
length-ioctl_block l = omega (
  arith,
  length-append (one_of l 1) (answer ret_trap ∷ answer ret_allow ∷ load_nr ∷ []),
  length-one_of l 1,
)

length-synth_block : (base : ℕ) → length (synth_block base) ≤ 10
unfolding synth_block one_of
length-synth_block base = elim (Bool-cases (base == 0)) [
  | inl e ↦ rw e (omega arith)
  | inr e ↦ rw e (omega arith)
]

module _ (c : Config) where
  ends : List SockFilter
  ends = synth_block c.synth_fd_base ++ tail_block (trapped c) ret_trap

  length-ends : length ends ≤ 126
  unfolding ends
  length-ends = omega (
    arith,
    length-append (synth_block c.synth_fd_base) (tail_block (trapped c) ret_trap),
    length-synth_block c.synth_fd_base,
    length-tail_block (trapped c) ret_trap,
    length-trapped c,
  )

  after_ioctl : List SockFilter
  after_ioctl =
      mmap_block
      ++ (bit_block Numbers.nr_mprotect 2 prot_exec
          ++ (bit_block Numbers.nr_mremap 3 mremap_dontunmap ++ (wait_blocks waits ++ ends)))

  length-after_ioctl : length after_ioctl ≤ 182
  unfolding after_ioctl mmap_block bit_block wait_blocks wait_block
  length-after_ioctl = omega (arith, length-ends)

  -- The longest base filter.
  pub length-base_filter : length (base_filter c) ≤ 277
  unfolding base_filter enosys_block one_of arch_block gate_block clone_block prctl_block
      after_ioctl ends
  length-base_filter =
      let (low, high) = length-ioctl_requests c in
      omega (
        arith,
        length-append (ioctl_block (ioctl_requests c)) after_ioctl,
        length-ioctl_block (ioctl_requests c),
        high,
        length-after_ioctl,
      )

-- The base filter fits its buffer in every configuration: with room for 320 instructions or more
-- the builder succeeds, and what it wrote is not longer than the room.
pub build_seccomp-some :
    (c : Config) (cap : ℕ)
    → max_insns ≤ cap
    → (build_seccomp c cap ≡ some (base_filter c)) × (length (base_filter c) ≤ cap)
unfolding build_seccomp
build_seccomp-some c cap h = (ground (arith, h), omega (arith, h, length-base_filter c))

-- The small filters fit theirs.
pub build_seccomp_traceall-some :
    (c : Config) (cap : ℕ)
    → small_insns ≤ cap
    → (build_seccomp_traceall c cap ≡ some (prologue c ++ traceall_block))
      × (length (prologue c ++ traceall_block) ≤ cap)
unfolding build_seccomp_traceall prologue traceall_block arch_block gate_block
build_seccomp_traceall-some c cap h = (ground (arith, h), omega (arith, h))

pub build_seccomp_tracer-some :
    (c : Config) (cap : ℕ)
    → small_insns ≤ cap
    → (build_seccomp_tracer c cap ≡ some (prologue c ++ tail_block tracer_nrs ret_tracer))
      × (length (prologue c ++ tail_block tracer_nrs ret_tracer) ≤ cap)
unfolding build_seccomp_tracer prologue tail_block arch_block gate_block
build_seccomp_tracer-some c cap h = (ground (arith, h), omega (arith, h))
