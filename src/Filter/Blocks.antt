-- ===== src/Filter/Blocks.antt =====
-- What each block of the filters of src/monitor/seccomp.c does in front of any other program.
use mathlib.Core.List.{append_assoc}
use fake_chroot_ng.Prelude.{
  ℕ, suc, ◌+◌, ◌^◌, ◌<◌, ◌≡◌, refl, ap, ap₂, ◌∙◌, inl, inr, Bool, true, false, ◌&&◌, ◌||◌, Option,
  some, List, [], ◌∷◌, ◌++◌, arith, leb, ◌==◌, ◌!=◌, if◌then◌else◌, length, Bool-cases, bit_and,
}
use fake_chroot_ng.Filter.{SockFilter, step}
use fake_chroot_ng.Filter.Exec.{exec}
use fake_chroot_ng.Filter.Numbers
use fake_chroot_ng.Filter.Tables.{read_family}
use fake_chroot_ng.Filter.Build.{
  Config, ioctl_block, synth_block, wait_blocks, waits, arch_block, gate_block, audit_arch_aarch64,
  ret_kill, mremap_dontunmap, mem, load, answer, jeq, jge, jgt, one_of, clone_block, prctl_block,
  mmap_block, bit_block, wait_block, ret_trap, ret_allow, prot_exec,
}
use fake_chroot_ng.Filter.Policy.{
  trap_if, arg_lo, arg_hi, own_ioctl, wait_policy, from_gate, new_process, own_prctl, exec_mapping,
}
use fake_chroot_ng.Filter.Listed.{Words, length-one_of, skip_all, exec-tests}

module _ (d : ℕ → ℕ) (rest : List SockFilter) where
  pub exec-clone_block : exec d (clone_block ++ rest) 0 (d 0) ≡ (
      if d 0 == Numbers.nr_clone
      then some (trap_if (new_process (arg_lo d 0)))
      else exec d rest 0 (d 0))
  unfolding exec step clone_block
  exec-clone_block = ground arith

  pub exec-prctl_block : exec d (prctl_block ++ rest) 0 (d 0) ≡ (
      if d 0 == Numbers.nr_prctl
      then some (trap_if (own_prctl (arg_lo d 0)))
      else exec d rest 0 (d 0))
  unfolding exec step prctl_block
  exec-prctl_block = ground arith

  pub exec-mmap_block : exec d (mmap_block ++ rest) 0 (d 0) ≡ (
      if d 0 == Numbers.nr_mmap
      then some (trap_if (exec_mapping (arg_lo d 2) (arg_lo d 3)))
      else exec d rest 0 (d 0))
  unfolding exec step mmap_block
  exec-mmap_block = ground arith

  pub exec-mprotect_block : exec d (bit_block Numbers.nr_mprotect 2 prot_exec ++ rest) 0 (d 0) ≡ (
      if d 0 == Numbers.nr_mprotect
      then some (trap_if (bit_and (arg_lo d 2) prot_exec != 0))
      else exec d rest 0 (d 0))
  unfolding exec step bit_block
  exec-mprotect_block = ground arith

  pub exec-mremap_block :
      exec d (bit_block Numbers.nr_mremap 3 mremap_dontunmap ++ rest) 0 (d 0) ≡ (
        if d 0 == Numbers.nr_mremap
        then some (trap_if (bit_and (arg_lo d 3) mremap_dontunmap != 0))
        else exec d rest 0 (d 0))
  unfolding exec step bit_block
  exec-mremap_block = ground arith

  pub exec-arch_block :
      (a : ℕ)
      → exec d (arch_block ++ rest) 0 a
        ≡ (if d 1 == audit_arch_aarch64 then exec d rest 0 (d 1) else some ret_kill)
  unfolding exec step arch_block
  exec-arch_block a = ground arith

  pub exec-gate_block :
      (c : Config) (a : ℕ)
      → exec d (gate_block c ++ rest) 0 a
        ≡ (if from_gate c d then some ret_allow else exec d rest 0 (d 0))
  unfolding exec step gate_block
  exec-gate_block c a = ground arith

module _ (d : ℕ → ℕ) where
  request_end : (rest : List SockFilter) → List SockFilter
  request_end rest = answer ret_trap ∷ answer ret_allow ∷ load 0 ∷ rest

  exec-ioctl_head :
      (rest tests : List SockFilter) (blk : ℕ)
      → blk < 256
      → exec d
          (jeq Numbers.nr_ioctl 0 blk
            ∷ load 24
            ∷ jge 0x8910 0 2
            ∷ jgt 0x8970 1 0
            ∷ answer ret_trap
            ∷ tests)
          0
          (d 0)
        ≡ (if d 0 == Numbers.nr_ioctl
            then (if leb 0x8910 (d 6) && leb (d 6) 0x8970
                then some ret_trap
                else exec d tests 0 (d 6))
            else exec d
                (load 24 ∷ jge 0x8910 0 2 ∷ jgt 0x8970 1 0 ∷ answer ret_trap ∷ tests)
                blk
                (d 0))
  unfolding exec step
  exec-ioctl_head rest tests blk h = ground (arith, h)

  exec-ioctl_end :
      (rest : List SockFilter) (l : List ℕ)
      → 0 < length l
      → length l < 250
      → Words l
      → exec d (one_of l 1 ++ request_end rest) 0 (d 6) ≡ some (trap_if (mem (d 6) l))
  unfolding exec step request_end
  exec-ioctl_end rest l p h w =
      exec-tests d (request_end rest) l 1 (d 6) p (omega (arith, h)) (omega arith) w
      ∙ ends (mem (d 6) l)
    where
      ends :
          (b : Bool)
          → (if b then exec d (request_end rest) 0 (d 6) else exec d (request_end rest) 1 (d 6))
            ≡ some (trap_if b)
      ends true = refl
      ends false = refl

  exec-ioctl_past :
      (rest : List SockFilter) (l : List ℕ) (i j k m : SockFilter)
      → exec d (i ∷ j ∷ k ∷ m ∷ (one_of l 1 ++ request_end rest)) (4 + length l + 1 + 1) (d 0)
        ≡ exec d rest 0 (d 0)
  unfolding exec step request_end
  exec-ioctl_past rest l i j k m =
      ap (λ n. exec d (i ∷ j ∷ k ∷ m ∷ (one_of l 1 ++ request_end rest)) n (d 0)) (shape (length l))
      ∙ skip_all d (one_of l 1) (request_end rest) (length l + 2) 2 (d 0)
          (omega (arith, length-one_of l 1))
    where
      shape : (n : ℕ) → 4 + n + 1 + 1 ≡ suc (suc (suc (suc (n + 2))))
      shape n = omega arith

  pub exec-ioctl_block :
      (rest : List SockFilter) (l : List ℕ)
      → 0 < length l
      → length l < 250
      → Words l
      → exec d (ioctl_block l ++ rest) 0 (d 0) ≡ (
          if d 0 == Numbers.nr_ioctl
          then some (trap_if (own_ioctl l (arg_lo d 1)))
          else exec d rest 0 (d 0))
  unfolding ioctl_block request_end
  exec-ioctl_block rest l p h w =
      ap
        (λ g.
          exec d
            (jeq Numbers.nr_ioctl 0 (4 + length l + 1 + 1)
              ∷ load 24
              ∷ jge 0x8910 0 2
              ∷ jgt 0x8970 1 0
              ∷ answer ret_trap
              ∷ g)
            0 (d 0))
        (append_assoc (one_of l 1) (answer ret_trap ∷ answer ret_allow ∷ load 0 ∷ []) rest)
      ∙ exec-ioctl_head rest (one_of l 1 ++ request_end rest) (4 + length l + 1 + 1)
          (omega (arith, h))
      ∙ rw
          (
            exec-ioctl_end rest l p h w,
            exec-ioctl_past rest l (load 24) (jge 0x8910 0 2) (jgt 0x8970 1 0) (answer ret_trap),
          )
          (ap (λ x. if d 0 == Numbers.nr_ioctl then x else exec d rest 0 (d 0))
            (judged (leb 0x8910 (d 6) && leb (d 6) 0x8970) (mem (d 6) l)))
    where
      judged :
          (b m : Bool) → (if b then some ret_trap else some (trap_if m)) ≡ some (trap_if (b || m))
      judged true m = refl
      judged false m = refl

  synth_end : (rest : List SockFilter) → ℕ → List SockFilter
  synth_end rest base = load 16 ∷ jge base 0 1 ∷ answer ret_trap ∷ answer ret_allow ∷ load 0 ∷ rest

  exec-synth_end :
      (rest : List SockFilter) (base a : ℕ)
      → base < 2 ^ 31
      → exec d (synth_end rest base) 0 a ≡ some (trap_if (leb base (arg_lo d 0)))
  unfolding exec step synth_end
  exec-synth_end rest base a h = ground (arith, h)

  exec-synth_past :
      (rest : List SockFilter) (base a : ℕ) → exec d (synth_end rest base) 4 a ≡ exec d rest 0 (d 0)
  unfolding exec step synth_end
  exec-synth_past rest base a = refl

  pub exec-synth_block :
      (rest : List SockFilter) (base : ℕ)
      → base < 2 ^ 31
      → exec d (synth_block base ++ rest) 0 (d 0) ≡ (
          if base != 0 && mem (d 0) read_family
          then some (trap_if (leb base (arg_lo d 0)))
          else exec d rest 0 (d 0))
  unfolding synth_block synth_end
  exec-synth_block rest base h = elim (Bool-cases (base == 0)) [
    | inl e ↦ rw e refl
    | inr e ↦ rw e (
        exec-tests d (synth_end rest base) read_family 4 (d 0) (omega arith) (omega arith)
          (omega arith) (omega arith)
        ∙ ap₂ (λ x y. if mem (d 0) read_family then x else y) (exec-synth_end rest base (d 0) h)
            (exec-synth_past rest base (d 0)))
  ]

  exec-wait_3 :
      (rest : List SockFilter) (nr : ℕ)
      → nr < 2 ^ 32
      → exec d (wait_block (nr, 3) ++ rest) 0 (d 0) ≡ (
          if d 0 == nr
          then some (trap_if (arg_lo d 3 != 0 || arg_hi d 3 != 0))
          else exec d rest 0 (d 0))
  unfolding exec step wait_block
  exec-wait_3 rest nr h = ground (arith, h)

  exec-wait_4 :
      (rest : List SockFilter) (nr : ℕ)
      → nr < 2 ^ 32
      → exec d (wait_block (nr, 4) ++ rest) 0 (d 0) ≡ (
          if d 0 == nr
          then some (trap_if (arg_lo d 4 != 0 || arg_hi d 4 != 0))
          else exec d rest 0 (d 0))
  unfolding exec step wait_block
  exec-wait_4 rest nr h = ground (arith, h)

  exec-wait_5 :
      (rest : List SockFilter) (nr : ℕ)
      → nr < 2 ^ 32
      → exec d (wait_block (nr, 5) ++ rest) 0 (d 0) ≡ (
          if d 0 == nr
          then some (trap_if (arg_lo d 5 != 0 || arg_hi d 5 != 0))
          else exec d rest 0 (d 0))
  unfolding exec step wait_block
  exec-wait_5 rest nr h = ground (arith, h)

  pub exec-waits :
      (rest : List SockFilter) (other : ℕ)
      → exec d rest 0 (d 0) ≡ some other
      → exec d (wait_blocks waits ++ rest) 0 (d 0) ≡ some (wait_policy d waits other)
  unfolding wait_blocks
  exec-waits rest other e =
      exec-wait_3 (wait_blocks ((Numbers.nr_pselect6, 5) ∷ two) ++ rest) Numbers.nr_ppoll
        (omega arith)
      ∙ or_else Numbers.nr_ppoll 3 (
          exec-wait_5 (wait_blocks two ++ rest) Numbers.nr_pselect6 (omega arith)
          ∙ or_else Numbers.nr_pselect6 5 (
              exec-wait_4 (wait_block (Numbers.nr_epoll_pwait2, 4) ++ rest) Numbers.nr_epoll_pwait
                (omega arith)
              ∙ or_else Numbers.nr_epoll_pwait 4 (
                  exec-wait_4 rest Numbers.nr_epoll_pwait2 (omega arith)
                  ∙ or_else Numbers.nr_epoll_pwait2 4 e)))
    where
      two : List (ℕ × ℕ)
      two = (Numbers.nr_epoll_pwait, 4) ∷ (Numbers.nr_epoll_pwait2, 4) ∷ []

      or_else :
          {x : Option ℕ} {other : ℕ} (nr arg : ℕ)
          → x ≡ some other
          → (if d 0 == nr then some (trap_if (arg_lo d arg != 0 || arg_hi d arg != 0)) else x)
            ≡ some (if d 0 == nr then trap_if (arg_lo d arg != 0 || arg_hi d arg != 0) else other)
      or_else nr arg e = ground (arith, e)
