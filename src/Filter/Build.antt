-- ===== src/Filter/Build.antt =====
-- src/monitor/seccomp.c: the filters that `cng_build_seccomp`, `cng_build_seccomp_traceall` and
-- `cng_build_seccomp_tracer` emit, block by block.
use fake_chroot_ng.Prelude.{
  ℕ, ◌+◌, ◌*◌, ◌/◌, ◌^◌, Bool, true, false, not, ◌&&◌, ◌||◌, Option, none, some, List, [], ◌∷◌,
  ◌++◌, ltb, ◌==◌, if◌then◌else◌, length, any,
}
use fake_chroot_ng.Path.View.{Fs}
use fake_chroot_ng.Filter.{
  SockFilter, ld_w_abs, alu_and_k, jmp_jeq_k, jmp_jge_k, jmp_jgt_k, ret_k, stmt, jump,
}
use fake_chroot_ng.Filter.Numbers
use fake_chroot_ng.Filter.Tables.{
  path_syscalls, id_syscalls, ipc_syscalls, enosys_syscalls, ro_fd_syscalls, setid_deny_nrs,
  ioctl_tty, ioctl_mnt_write, read_family, tracer_nrs,
}

abbrev pub ret_kill : ℕ
ret_kill = 0

abbrev pub ret_trap : ℕ
ret_trap = 0x30000

-- CNG_SECCOMP_RET_ERRNO | ENOSYS
abbrev pub ret_enosys : ℕ
ret_enosys = 0x50026

abbrev pub ret_allow : ℕ
ret_allow = 0x7fff0000

abbrev pub audit_arch_aarch64 : ℕ
audit_arch_aarch64 = 0xc00000b7

abbrev pub clone_vm : ℕ
clone_vm = 0x100

abbrev pub clone_vfork : ℕ
clone_vfork = 0x4000

abbrev pub prot_exec : ℕ
prot_exec = 4

abbrev pub map_anonymous : ℕ
map_anonymous = 0x20

abbrev pub mremap_dontunmap : ℕ
mremap_dontunmap = 4

-- What the builder reads: the switches, the view, the bounds of the gate, the base of the
-- synthesized descriptors (0 for none), and whether the process registry has a backing.
pub record Config : Type 0 where
  pub fake_id : Bool
  pub setid_deny : Bool
  pub l2s : Bool
  pub no_proc : Bool
  pub no_dev : Bool
  pub registry : Bool
  pub fs : Option Fs
  pub synth_fd_base : ℕ
  pub gate_start : ℕ
  pub gate_end : ℕ

-- The one instruction kinds, by what they do.
abbrev pub load : ℕ → SockFilter
load off = stmt ld_w_abs off

abbrev pub mask : ℕ → SockFilter
mask k = stmt alu_and_k k

abbrev pub answer : ℕ → SockFilter
answer k = stmt ret_k k

abbrev pub jeq : ℕ → ℕ → ℕ → SockFilter
jeq k jt jf = jump jmp_jeq_k k jt jf

abbrev pub jge : ℕ → ℕ → ℕ → SockFilter
jge k jt jf = jump jmp_jge_k k jt jf

abbrev pub jgt : ℕ → ℕ → ℕ → SockFilter
jgt k jt jf = jump jmp_jgt_k k jt jf

-- The number, and the low word of argument `i`.
abbrev pub load_nr : SockFilter
load_nr = load 0

abbrev pub load_arg : ℕ → SockFilter
load_arg i = load (16 + 8 * i)

-- `view_has_ro`
abbrev pub view_has_ro : Option Fs → Bool
view_has_ro none = false
view_has_ro (some fs) = any (λ b. b.ro) fs.binds

abbrev pub has_binds : Option Fs → Bool
has_binds none = false
has_binds (some fs) = ltb 0 (length fs.binds)

abbrev pub when : Bool → List ℕ → List ℕ
when true l = l
when false l = []

abbrev pub mem : ℕ → List ℕ → Bool
mem n l = any (λ m. n == m) l

-- The loop that lists each once.
abbrev pub add_new : List ℕ → List ℕ → List ℕ
add_new nr [] = nr
add_new nr (n ∷ l) = add_new (if mem n nr then nr else nr ++ n ∷ []) l

-- The array `nr` of `cng_build_seccomp`, up to `nsys`.
unfoldable pub always_trapped : Config → List ℕ
always_trapped c =
    path_syscalls
    ++ ipc_syscalls
    ++ (if c.fake_id then id_syscalls else when c.setid_deny setid_deny_nrs)

unfoldable pub trapped : Config → List ℕ
unfolding always_trapped
trapped c =
    add_new (always_trapped c) (when (view_has_ro c.fs) ro_fd_syscalls)
    ++ (when (c.l2s || c.fake_id || not c.no_proc) (Numbers.nr_fstat ∷ [])
        ++ (when (not c.no_proc) (Numbers.nr_fstatfs ∷ [])
            ++ (when (not c.no_proc) (
                  Numbers.nr_process_vm_readv ∷ Numbers.nr_process_vm_writev ∷ Numbers.nr_pidfd_open
                  ∷ [])
                ++ (when (not c.no_proc && c.registry) (
                      Numbers.nr_kill ∷ Numbers.nr_tkill ∷ Numbers.nr_tgkill
                      ∷ Numbers.nr_rt_sigqueueinfo ∷ Numbers.nr_rt_tgsigqueueinfo ∷ [])
                    ++ when (c.l2s || not c.no_proc || not c.no_dev || has_binds c.fs)
                        (Numbers.nr_getdents64 ∷ [])))))

-- Tests for each value of a list: each goes to behind the list, where the last goes past `over`
-- instructions if it fails.
unfoldable pub one_of : List ℕ → ℕ → List SockFilter
one_of [] over = []
one_of (n ∷ []) over = jeq n 0 over ∷ []
one_of (n ∷ m ∷ l) over = jeq n (length (m ∷ l)) 0 ∷ one_of (m ∷ l) over

unfoldable pub arch_block : List SockFilter
arch_block = load 4 ∷ jeq audit_arch_aarch64 1 0 ∷ answer ret_kill ∷ []

unfoldable pub enosys_block : List SockFilter
unfolding one_of
enosys_block = load_nr ∷ one_of enosys_syscalls 1 ++ answer ret_enosys ∷ []

unfoldable pub gate_block : Config → List SockFilter
gate_block c =
    load 12
    ∷ jeq (c.gate_start / 2 ^ 32) 0 4
    ∷ load 8
    ∷ jge c.gate_start 0 2
    ∷ jge c.gate_end 1 0
    ∷ answer ret_allow
    ∷ load_nr
    ∷ []

unfoldable pub clone_block : List SockFilter
clone_block =
    jeq Numbers.nr_clone 0 8
    ∷ load_arg 0
    ∷ mask clone_vm
    ∷ jeq 0 3 0
    ∷ load_arg 0
    ∷ mask clone_vfork
    ∷ jeq 0 1 0
    ∷ answer ret_trap
    ∷ answer ret_allow
    ∷ load_nr
    ∷ []

unfoldable pub prctl_block : List SockFilter
prctl_block =
    jeq Numbers.nr_prctl 0 7
    ∷ load_arg 0
    ∷ jeq 21 4 0
    ∷ jeq 22 3 0
    ∷ jeq 38 2 0
    ∷ jeq 39 1 0
    ∷ answer ret_allow
    ∷ answer ret_trap
    ∷ load_nr
    ∷ []

-- The requests that are tested one by one.
unfoldable pub ioctl_requests : Config → List ℕ
ioctl_requests c = ioctl_tty ++ when (view_has_ro c.fs) ioctl_mnt_write

unfoldable pub ioctl_block : List ℕ → List SockFilter
unfolding one_of
ioctl_block requests =
    jeq Numbers.nr_ioctl 0 (4 + length requests + 1 + 1)
      ∷ load_arg 1
      ∷ jge 0x8910 0 2
      ∷ jgt 0x8970 1 0
      ∷ answer ret_trap
      ∷ one_of requests 1
    ++ answer ret_trap ∷ answer ret_allow ∷ load_nr ∷ []

unfoldable pub mmap_block : List SockFilter
mmap_block =
    jeq Numbers.nr_mmap 0 8
    ∷ load_arg 2
    ∷ mask prot_exec
    ∷ jeq 0 4 0
    ∷ load_arg 3
    ∷ mask map_anonymous
    ∷ jeq 0 0 1
    ∷ answer ret_trap
    ∷ answer ret_allow
    ∷ load_nr
    ∷ []

-- The blocks of mprotect and of mremap: one call, and one bit of one argument.
unfoldable pub bit_block : ℕ → ℕ → ℕ → List SockFilter
bit_block nr arg bit =
    jeq nr 0 5
    ∷ load_arg arg
    ∷ mask bit
    ∷ jeq 0 1 0
    ∷ answer ret_trap
    ∷ answer ret_allow
    ∷ load_nr
    ∷ []

-- The block of a wait that may take a signal mask.
unfoldable pub wait_block : ℕ × ℕ → List SockFilter
wait_block (nr, arg) =
    jeq nr 0 6
    ∷ load_arg arg
    ∷ jeq 0 0 2
    ∷ load (16 + 8 * arg + 4)
    ∷ jeq 0 1 0
    ∷ answer ret_trap
    ∷ answer ret_allow
    ∷ load_nr
    ∷ []

abbrev pub waits : List (ℕ × ℕ)
waits =
    (Numbers.nr_ppoll, 3)
    ∷ (Numbers.nr_pselect6, 5)
    ∷ (Numbers.nr_epoll_pwait, 4)
    ∷ (Numbers.nr_epoll_pwait2, 4)
    ∷ []

unfoldable pub wait_blocks : List (ℕ × ℕ) → List SockFilter
unfolding wait_block
wait_blocks [] = []
wait_blocks (w ∷ ws) = wait_block w ++ wait_blocks ws

-- `if (cng_g_synth_fd_base > 0)`
unfoldable pub synth_block : ℕ → List SockFilter
unfolding one_of
synth_block base =
    if base == 0
    then []
    else one_of read_family 4
      ++ load_arg 0 ∷ jge base 0 1 ∷ answer ret_trap ∷ answer ret_allow ∷ load_nr ∷ []

-- The checks at the end: each goes to the last instruction.
unfoldable pub checks : List ℕ → List SockFilter
checks [] = []
checks (n ∷ l) = jeq n (length (n ∷ l)) 0 ∷ checks l

unfoldable pub tail_block : List ℕ → ℕ → List SockFilter
unfolding checks
tail_block nr trap = checks nr ++ answer ret_allow ∷ answer trap ∷ []

-- `cng_build_seccomp`; `none` where the buffer is too small.
abbrev pub max_insns : ℕ
max_insns = 320

unfoldable pub base_filter : Config → List SockFilter
base_filter c =
    arch_block
    ++ (enosys_block
        ++ (gate_block c
            ++ (clone_block
                ++ (prctl_block
                    ++ (ioctl_block (ioctl_requests c)
                        ++ (mmap_block
                            ++ (bit_block Numbers.nr_mprotect 2 prot_exec
                                ++ (bit_block Numbers.nr_mremap 3 mremap_dontunmap
                                    ++ (wait_blocks waits
                                        ++ (synth_block c.synth_fd_base
                                            ++ tail_block (trapped c) ret_trap))))))))))

unfoldable pub build_seccomp : Config → ℕ → Option (List SockFilter)
unfolding base_filter
build_seccomp c cap = if ltb cap max_insns then none else some (base_filter c)

-- `emit_prologue`
unfoldable pub prologue : Config → List SockFilter
unfolding arch_block gate_block
prologue c = arch_block ++ gate_block c

abbrev pub ret_traceall : ℕ
ret_traceall = 0x37ace

abbrev pub ret_tracer : ℕ
ret_tracer = 0x37acf

unfoldable pub traceall_block : List SockFilter
traceall_block =
    jeq Numbers.nr_rt_sigreturn 7 0
    ∷ jeq Numbers.nr_clone 0 7
    ∷ load_arg 0
    ∷ mask clone_vm
    ∷ jeq 0 4 0
    ∷ load_arg 0
    ∷ mask clone_vfork
    ∷ jeq 0 0 1
    ∷ answer ret_allow
    ∷ answer ret_traceall
    ∷ []

abbrev pub small_insns : ℕ
small_insns = 24

-- `cng_build_seccomp_traceall`
unfoldable pub build_seccomp_traceall : Config → ℕ → Option (List SockFilter)
unfolding prologue traceall_block
build_seccomp_traceall c cap =
    if ltb cap small_insns then none else some (prologue c ++ traceall_block)

-- `cng_build_seccomp_tracer`
unfoldable pub build_seccomp_tracer : Config → ℕ → Option (List SockFilter)
unfolding prologue tail_block
build_seccomp_tracer c cap =
    if ltb cap small_insns then none else some (prologue c ++ tail_block tracer_nrs ret_tracer)
