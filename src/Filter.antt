-- ===== src/Filter.antt =====
-- src/monitor/seccomp.c: classic BPF programs and the interpreter of them. include/cng/seccomp.h
mod Tests
pub mod Numbers
pub mod Tables
pub mod Build
pub mod Exec
pub mod Policy
pub mod Listed
pub mod Blocks
pub mod Trapped
pub mod Answers
pub mod Refine
pub mod Stack
pub mod Bounds
pub mod Guard
pub mod Denied
pub mod Traps
use fake_chroot_ng.Prelude.{
  ℕ, zero, suc, ◌+◌, ◌-◌, ◌/◌, ◌%◌, ◌^◌, Bool, true, false, ◌&&◌, ◌||◌, Option, none, some, List,
  [], ◌∷◌, ltb, leb, ◌==◌, ◌!=◌, if◌then◌else◌, length, get_elem?, bit_and, bit_or,
}

-- `struct sock_filter`
pub record SockFilter : Type 0 where
  pub code : ℕ
  pub jt : ℕ
  pub jf : ℕ
  pub k : ℕ

-- CNG_BPF_LD | CNG_BPF_W | CNG_BPF_ABS and the other five codes
abbrev pub ld_w_abs : ℕ
ld_w_abs = 0x20

abbrev pub alu_and_k : ℕ
alu_and_k = 0x54

abbrev pub jmp_jeq_k : ℕ
jmp_jeq_k = 0x15

abbrev pub jmp_jge_k : ℕ
jmp_jge_k = 0x35

abbrev pub jmp_jgt_k : ℕ
jmp_jgt_k = 0x25

abbrev pub ret_k : ℕ
ret_k = 0x06

-- CNG_BPF_STMT and CNG_BPF_JUMP, with their casts
abbrev pub stmt : ℕ → ℕ → SockFilter
stmt code k = record { code = code; jt = 0; jf = 0; k = k % 2 ^ 32 }

abbrev pub jump : ℕ → ℕ → ℕ → ℕ → SockFilter
jump code k jt jf = record { code = code; jt = jt % 2 ^ 8; jf = jf % 2 ^ 8; k = k % 2 ^ 32 }

-- What one instruction does: go on with A, past some instructions, return, or stop as bad.
pub data Next : Type 0 where
  go_on : ℕ → ℕ → Next
  return : ℕ → Next
  bad : Next

-- The switch of `cng_bpf_run`; `d` is the 16 words of seccomp_data.
unfoldable pub step : (ℕ → ℕ) → SockFilter → ℕ → Next
step d i a =
    if i.code == ld_w_abs
    then (if bit_and i.k 3 != 0 || leb 64 i.k then bad else go_on (d (i.k / 4)) 0)
    else if i.code == alu_and_k
    then go_on (bit_and a i.k) 0
    else if i.code == jmp_jeq_k
    then go_on a (if a == i.k then i.jt else i.jf)
    else if i.code == jmp_jge_k
    then go_on a (if leb i.k a then i.jt else i.jf)
    else if i.code == jmp_jgt_k
    then go_on a (if ltb i.k a then i.jt else i.jf)
    else if i.code == ret_k
    then return i.k
    else bad

-- The loop of `cng_bpf_run` on the `n` instructions of `f`; `none` where `*bad` is set.
unfoldable pub bpf_loop : ℕ → List SockFilter → ℕ → (ℕ → ℕ) → ℕ → ℕ → Option ℕ
bpf_loop zero f n d pc a = none
bpf_loop (suc fuel) f n d pc a = elim (get_elem? f pc) [
  | none ↦ none
  | some i ↦ elim (step d i a) [
    | bad ↦ none
    | return k ↦ some k
    | go_on a' skip ↦ elim (leb n (pc + 1 + skip)) [
      | true ↦ none
      | false ↦ bpf_loop fuel f n d (pc + 1 + skip) a'
    ]
  ]
]

-- `cng_bpf_run(f, n, data, bad)`, where `n` is the length of `f`
unfoldable pub bpf_run : List SockFilter → (ℕ → ℕ) → Option ℕ
unfolding bpf_loop
bpf_run f d = bpf_loop (length f) f (length f) d 0 0
