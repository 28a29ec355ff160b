-- ===== src/Filter/Policy.antt =====
-- What the base filter of src/monitor/seccomp.c is to answer, said of the call and not of the
-- program.
use fake_chroot_ng.Prelude.{
  ℕ, ◌+◌, ◌*◌, ◌/◌, ◌%◌, ◌^◌, Bool, true, false, not, ◌&&◌, ◌||◌, List, [], ◌∷◌, ltb, leb, ◌==◌,
  ◌!=◌, if◌then◌else◌, bit_and,
}
use fake_chroot_ng.Filter.Numbers
use fake_chroot_ng.Filter.Tables.{enosys_syscalls, read_family}
use fake_chroot_ng.Filter.Build.{
  Config, mem, ret_kill, ret_trap, ret_enosys, ret_allow, audit_arch_aarch64, clone_vm, clone_vfork,
  prot_exec, map_anonymous, mremap_dontunmap, ioctl_requests, trapped, waits,
}

abbrev pub trap_if : Bool → ℕ
trap_if true = ret_trap
trap_if false = ret_allow

-- The word of argument `i` that comes first, and the one behind it.
abbrev pub arg_lo : (ℕ → ℕ) → ℕ → ℕ
arg_lo d i = d (4 + 2 * i)

abbrev pub arg_hi : (ℕ → ℕ) → ℕ → ℕ
arg_hi d i = d (5 + 2 * i)

-- The call comes from the gate.
abbrev pub from_gate : Config → (ℕ → ℕ) → Bool
from_gate c d =
    d 3 == c.gate_start / 2 ^ 32 % 2 ^ 32
    && (leb (c.gate_start % 2 ^ 32) (d 2) && ltb (d 2) (c.gate_end % 2 ^ 32))

-- A clone that makes a process, and not a thread.
abbrev pub new_process : ℕ → Bool
new_process flags = bit_and flags clone_vm == 0 || bit_and flags clone_vfork != 0

abbrev pub own_prctl : ℕ → Bool
own_prctl op = op == 21 || (op == 22 || (op == 38 || op == 39))

abbrev pub own_ioctl : List ℕ → ℕ → Bool
own_ioctl requests request = (leb 0x8910 request && leb request 0x8970) || mem request requests

abbrev pub exec_mapping : ℕ → ℕ → Bool
exec_mapping prot flags = bit_and prot prot_exec != 0 && bit_and flags map_anonymous == 0

-- A wait among these with a mask, or the answer for the others.
abbrev pub wait_policy : (ℕ → ℕ) → List (ℕ × ℕ) → ℕ → ℕ
wait_policy d [] other = other
wait_policy d ((nr, arg) ∷ ws) other =
    if d 0 == nr then trap_if (arg_lo d arg != 0 || arg_hi d arg != 0) else wait_policy d ws other

-- What is left when no call that is judged by its arguments is made.
abbrev pub rest_policy : Config → (ℕ → ℕ) → ℕ
rest_policy c d =
    if c.synth_fd_base != 0 && mem (d 0) read_family
    then trap_if (leb c.synth_fd_base (arg_lo d 0))
    else trap_if (mem (d 0) (trapped c))

-- The calls that are judged by their arguments.
abbrev pub call_policy : Config → (ℕ → ℕ) → ℕ
call_policy c d =
    if d 0 == Numbers.nr_clone
    then trap_if (new_process (arg_lo d 0))
    else if d 0 == Numbers.nr_prctl
    then trap_if (own_prctl (arg_lo d 0))
    else if d 0 == Numbers.nr_ioctl
    then trap_if (own_ioctl (ioctl_requests c) (arg_lo d 1))
    else if d 0 == Numbers.nr_mmap
    then trap_if (exec_mapping (arg_lo d 2) (arg_lo d 3))
    else if d 0 == Numbers.nr_mprotect
    then trap_if (bit_and (arg_lo d 2) prot_exec != 0)
    else if d 0 == Numbers.nr_mremap
    then trap_if (bit_and (arg_lo d 3) mremap_dontunmap != 0)
    else wait_policy d waits (rest_policy c d)

-- The whole of it: another architecture is killed, a call that is refused by design is refused
-- even from the gate, and any other call from the gate is allowed.
abbrev pub base_policy : Config → (ℕ → ℕ) → ℕ
base_policy c d =
    if not (d 1 == audit_arch_aarch64)
    then ret_kill
    else if mem (d 0) enosys_syscalls
    then ret_enosys
    else if from_gate c d
    then ret_allow
    else call_policy c d

-- The policy of a tracee's filter: everything but what has to run where it stands.
abbrev pub traceall_policy : Config → (ℕ → ℕ) → ℕ → ℕ
traceall_policy c d trap =
    if not (d 1 == audit_arch_aarch64)
    then ret_kill
    else if from_gate c d
    then ret_allow
    else if d 0 == Numbers.nr_rt_sigreturn
    then ret_allow
    else if d 0 == Numbers.nr_clone && not (new_process (arg_lo d 0))
    then ret_allow
    else trap

-- The policy of a tracer's filter.
abbrev pub tracer_policy : Config → (ℕ → ℕ) → List ℕ → ℕ → ℕ
tracer_policy c d nrs trap =
    if not (d 1 == audit_arch_aarch64)
    then ret_kill
    else if from_gate c d
    then ret_allow
    else if mem (d 0) nrs
    then trap
    else ret_allow
