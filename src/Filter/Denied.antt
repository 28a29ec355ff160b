-- ===== src/Filter/Denied.antt =====
-- `cng_denied_syscall` of src/monitor/seccomp.c, the bit set of the refused calls, which the tier of
-- rewritten sites asks, and the refusals of the base filter.
use fake_chroot_ng.Prelude.{
  ℕ, zero, suc, ◌/◌, ◌%◌, ◌^◌, ◌<◌, ◌≡◌, refl, sym, ap, ◌∙◌, Bool, true, false, not, ◌&&◌, Option,
  none, some, List, [], ◌∷◌, arith, ltb, leb, ◌==◌, if◌then◌else◌, Bool-cases, inl, inr, bit_or,
}
use fake_chroot_ng.Filter.{bpf_run}
use fake_chroot_ng.Filter.Tables.{enosys_syscalls}
use fake_chroot_ng.Filter.Build.{Config, mem, base_filter, ret_enosys, audit_arch_aarch64}
use fake_chroot_ng.Filter.Policy.{base_policy, call_policy, from_gate}
use fake_chroot_ng.Filter.Answers.{pick, call_policy-answers}
use fake_chroot_ng.Filter.Build.{ret_allow}
use fake_chroot_ng.Filter.Refine.{bpf_run-base_filter}

-- DENIED_WORDS * 64
abbrev pub denied_numbers : ℕ
denied_numbers = 512

-- The word `w` of the set that `denied_build` makes of a list.
abbrev pub denied_build : List ℕ → ℕ → ℕ
denied_build [] w = 0
denied_build (nr ∷ l) w =
    let rest = denied_build l w in
    if ltb nr denied_numbers && nr / 64 == w then bit_or (2 ^ (nr % 64)) rest else rest

-- `cng_denied_syscall`; a number below 0 is one of 2 ^ 63 and more.
unfoldable pub denied_syscall : ℕ → Bool
denied_syscall nr =
    if leb denied_numbers nr
    then mem nr enosys_syscalls
    else denied_build enosys_syscalls (nr / 64) / 2 ^ (nr % 64) % 2 == 1

-- What a test holds of below a bound.
all_below : (ℕ → Bool) → ℕ → Bool
all_below p zero = true
all_below p (suc n) = p n && all_below p n

all_below-at : (p : ℕ → Bool) (n m : ℕ) → all_below p n ≡ true → m < n → p m ≡ true
unfolding all_below
all_below-at p zero m h l = absurd (omega (arith, l))
all_below-at p (suc n) m h l = elim (Bool-cases (m == n)) [
  | inl e ↦ ap p (same e) ∙ ground (arith, h)
  | inr e ↦ all_below-at p n m (ground (arith, h)) (ground (arith, l, e))
]
  where
    same : (m == n) ≡ true → m ≡ n
    same e = ground (arith, e)

agrees : ℕ → Bool
agrees nr = if denied_syscall nr then mem nr enosys_syscalls else not (mem nr enosys_syscalls)

all_below-agrees : all_below agrees denied_numbers ≡ true
unfolding all_below agrees denied_syscall
all_below-agrees = refl

-- The bit set is the list, for every number.
pub denied_syscall-listed : (nr : ℕ) → denied_syscall nr ≡ mem nr enosys_syscalls
unfolding denied_syscall agrees
denied_syscall-listed nr = elim (Bool-cases (leb denied_numbers nr)) [
  | inl e ↦ rw e refl
  | inr e ↦
      same (denied_syscall nr) (mem nr enosys_syscalls)
        (all_below-at agrees denied_numbers nr all_below-agrees (ground (arith, e)))
]
  where
    same : (x y : Bool) → (if x then y else not y) ≡ true → x ≡ y
    same true true h = refl
    same false false h = refl
    same true false h = sym h
    same false true h = h

other_answer : ℕ → Bool
other_answer act = not (act == ret_enosys)

-- The filter refuses the call.
abbrev pub refuses : Option ℕ → Bool
refuses none = false
refuses (some act) = act == ret_enosys

-- The two tiers refuse the same calls: on AArch64, the base filter answers ENOSYS to exactly the
-- numbers that cng_denied_syscall, by its bit set, says are refused. The base of the synthesized
-- descriptors is below 2^31.
pub denied_syscall-refused :
    (c : Config) (d : ℕ → ℕ)
    → c.synth_fd_base < 2 ^ 31
    → d 1 ≡ audit_arch_aarch64
    → refuses (bpf_run (base_filter c) d) ≡ denied_syscall (d 0)
unfolding other_answer
denied_syscall-refused c d h a =
    ap refuses (bpf_run-base_filter c d h) ∙ policy ∙ sym (denied_syscall-listed (d 0))
  where
    apart : (act : ℕ) → other_answer act ≡ true → (act == ret_enosys) ≡ false
    apart act = flip (act == ret_enosys)
      where
        flip : (b : Bool) → not b ≡ true → b ≡ false
        flip true h = sym h
        flip false h = refl

    served : other_answer (if from_gate c d then ret_allow else call_policy c d) ≡ true
    served =
        pick other_answer (from_gate c d) _ _ refl (call_policy-answers other_answer c d refl refl)

    judged :
        (b : Bool) (x : ℕ)
        → other_answer x ≡ true
        → ((if b then ret_enosys else x) == ret_enosys) ≡ b
    judged true x k = refl
    judged false x k = apart x k

    policy : (base_policy c d == ret_enosys) ≡ mem (d 0) enosys_syscalls
    policy = rw a (judged (mem (d 0) enosys_syscalls) _ served)
