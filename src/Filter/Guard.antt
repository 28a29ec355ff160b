-- ===== src/Filter/Guard.antt =====
-- src/monitor/seccomp.c: that the calls which carry a path are trapped, and those of the gate not.
use fake_chroot_ng.Prelude.{
  ℕ, ◌^◌, ◌<◌, ◌≡◌, refl, sym, ap, ◌∙◌, Bool, true, false, not, ◌&&◌, some, List, [], ◌∷◌, ◌++◌,
  arith, leb, ◌==◌, ◌!=◌, if◌then◌else◌, Bool-cases, inl, inr,
}
use fake_chroot_ng.Filter.{bpf_run}
use fake_chroot_ng.Filter.Numbers
use fake_chroot_ng.Filter.Tables.{enosys_syscalls, read_family}
use fake_chroot_ng.Filter.Build.{
  Config, mem, ret_trap, audit_arch_aarch64, always_trapped, trapped, base_filter,
}
use fake_chroot_ng.Filter.Policy.{trap_if, arg_lo, from_gate, rest_policy, call_policy, base_policy}
use fake_chroot_ng.Filter.Trapped.{always_trapped-trapped, faked_calls}
use fake_chroot_ng.Filter.Refine.{bpf_run-base_filter}

every : (ℕ → Bool) → List ℕ → Bool
every p [] = true
every p (n ∷ l) = p n && every p l

-- A call of a list that a test holds of throughout.
every-mem : (p : ℕ → Bool) (l : List ℕ) (a : ℕ) → every p l ≡ true → mem a l ≡ true → p a ≡ true
unfolding every
every-mem p [] a h m = absurd (ground (arith, m))
every-mem p (n ∷ l) a h m = elim (Bool-cases (a == n)) [
  | inl e ↦ ap p (same e) ∙ ground (arith, h)
  | inr e ↦ every-mem p l a (ground (arith, h)) (ground (arith, m, e))
]
  where
    same : (a == n) ≡ true → a ≡ n
    same e = ground (arith, e)

every-append :
    (p : ℕ → Bool) (l k : List ℕ) → every p l ≡ true → every p k ≡ true → every p (l ++ k) ≡ true
unfolding every
every-append p [] k a b = b
every-append p (n ∷ l) k a b = ground (arith, every-append p l k (ground (arith, a)) b, a)

-- The calls that are judged by their arguments.
judged : List ℕ
judged =
    Numbers.nr_clone ∷ Numbers.nr_prctl ∷ Numbers.nr_ioctl ∷ Numbers.nr_mmap ∷ Numbers.nr_mprotect
    ∷ Numbers.nr_mremap ∷ Numbers.nr_ppoll ∷ Numbers.nr_pselect6 ∷ Numbers.nr_epoll_pwait
    ∷ Numbers.nr_epoll_pwait2 ∷ []

-- Neither refused nor judged.
plain : ℕ → Bool
plain n = not (mem n enosys_syscalls) && (not (mem n judged) && not (mem n read_family))

plain-cases :
    (n : ℕ)
    → plain n ≡ true
    → (mem n enosys_syscalls ≡ false) × (mem n judged ≡ false) × (mem n read_family ≡ false)
unfolding plain
plain-cases n = cases (mem n enosys_syscalls) (mem n judged) (mem n read_family)
  where
    cases :
        (x y z : Bool)
        → (not x && (not y && not z)) ≡ true
        → (x ≡ false) × (y ≡ false) × (z ≡ false)
    cases true y z h = absurd (ground (arith, h))
    cases false true z h = absurd (ground (arith, h))
    cases false false true h = absurd (ground (arith, h))
    cases false false false h = (refl, refl, refl)

-- A call that is not in a list is none of its calls.
other_call : (n : ℕ) (l : List ℕ) → mem n l ≡ false → (m : ℕ) → mem m l ≡ true → (n == m) ≡ false
other_call n l h m k = elim (Bool-cases (n == m)) [
  | inl e ↦ absurd (apart (ap (λ a. mem a l) (same e)))
  | inr e ↦ e
]
  where
    same : (n == m) ≡ true → n ≡ m
    same e = ground (arith, e)

    apart : mem n l ≡ mem m l → ⊥
    apart e = ground (arith, sym h ∙ e ∙ k)

faked_calls-plain : (f s : Bool) → every plain (faked_calls f s) ≡ true
unfolding faked_calls every plain judged
faked_calls-plain true s = refl
faked_calls-plain false true = refl
faked_calls-plain false false = refl

always_trapped-plain : (c : Config) → every plain (always_trapped c) ≡ true
unfolding always_trapped faked_calls every plain judged
always_trapped-plain c = faked_calls-plain c.fake_id c.setid_deny

module _ (c : Config) (d : ℕ → ℕ) where
  unjudged-call_policy : mem (d 0) judged ≡ false → call_policy c d ≡ rest_policy c d
  unfolding judged
  unjudged-call_policy h =
      rw
        (
          is_not Numbers.nr_clone refl,
          is_not Numbers.nr_prctl refl,
          is_not Numbers.nr_ioctl refl,
          is_not Numbers.nr_mmap refl,
          is_not Numbers.nr_mprotect refl,
          is_not Numbers.nr_mremap refl,
          is_not Numbers.nr_ppoll refl,
          is_not Numbers.nr_pselect6 refl,
          is_not Numbers.nr_epoll_pwait refl,
          is_not Numbers.nr_epoll_pwait2 refl,
        )
        refl
    where
      is_not : (m : ℕ) → mem m judged ≡ true → (d 0 == m) ≡ false
      is_not = other_call (d 0) judged h

  unread-rest_policy :
      mem (d 0) read_family ≡ false → rest_policy c d ≡ trap_if (mem (d 0) (trapped c))
  unread-rest_policy h =
      ap
        (λ b.
          if c.synth_fd_base != 0 && b
          then trap_if (leb c.synth_fd_base (arg_lo d 0))
          else trap_if (mem (d 0) (trapped c)))
        h
      ∙ never (c.synth_fd_base != 0) _ _
    where
      never : (b : Bool) (x y : ℕ) → (if b && false then x else y) ≡ y
      never true x y = refl
      never false x y = refl

  -- No path call is missed: a call of the path set, of System V IPC, and of the credential set
  -- where that applies, made on AArch64 from outside the gate, is trapped by the base filter,
  -- under every configuration with a base of the synthesized descriptors below 2^31.
  pub always_trapped-traps :
      mem (d 0) (always_trapped c) ≡ true
      → d 1 ≡ audit_arch_aarch64
      → from_gate c d ≡ false
      → c.synth_fd_base < 2 ^ 31
      → bpf_run (base_filter c) d ≡ some ret_trap
  always_trapped-traps m a g h = bpf_run-base_filter c d h ∙ ap some policy
    where
      policy : base_policy c d ≡ ret_trap
      policy =
          let (served, plain_call, unread) =
            plain-cases (d 0)
              (every-mem plain (always_trapped c) (d 0) (always_trapped-plain c) m) in
          rw
            (
              a,
              served,
              g,
              unjudged-call_policy plain_call,
              unread-rest_policy unread,
              always_trapped-trapped c (d 0) m,
            )
            refl
