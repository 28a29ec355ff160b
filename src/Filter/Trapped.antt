-- ===== src/Filter/Trapped.antt =====
-- The array of trapped calls that `cng_build_seccomp` of src/monitor/seccomp.c fills.
use fake_chroot_ng.Prelude.{
  ℕ, ◌+◌, ◌≤◌, ◌≡◌, refl, ap, ◌∙◌, Bool, true, false, not, ◌&&◌, ◌||◌, List, [], ◌∷◌, ◌++◌, arith,
  ◌==◌, if◌then◌else◌, length, length-append, Bool-cases, inl, inr,
}
use fake_chroot_ng.Filter.Numbers
use fake_chroot_ng.Filter.Tables.{
  path_syscalls, id_syscalls, ipc_syscalls, ro_fd_syscalls, setid_deny_nrs, ioctl_tty,
  ioctl_mnt_write,
}
use fake_chroot_ng.Filter.Build.{
  Config, view_has_ro, has_binds, when, mem, add_new, always_trapped, trapped, ioctl_requests,
}
use fake_chroot_ng.Filter.Listed.{Words}

Words-append : (l k : List ℕ) → Words l → Words k → Words (l ++ k)
Words-append [] k a b = b
Words-append (n ∷ l) k a b = (a.0, Words-append l k a.1 b)

when-Words : (b : Bool) (l : List ℕ) → Words l → Words (when b l)
when-Words true l a = a
when-Words false l a = tt

length-when : (b : Bool) (l : List ℕ) → length (when b l) ≤ length l
length-when true l = omega arith
length-when false l = omega arith

add_new-Words : (nr l : List ℕ) → Words nr → Words l → Words (add_new nr l)
add_new-Words nr [] a b = a
add_new-Words nr (n ∷ l) a b = elim (Bool-cases (mem n nr)) [
  | inl e ↦ rw e (add_new-Words nr l a b.1)
  | inr e ↦ rw e (add_new-Words (nr ++ n ∷ []) l (Words-append nr (n ∷ []) a (b.0, tt)) b.1)
]

length-add_new : (nr l : List ℕ) → length (add_new nr l) ≤ length nr + length l
length-add_new nr [] = omega arith
length-add_new nr (n ∷ l) = elim (Bool-cases (mem n nr)) [
  | inl e ↦ rw e (omega (arith, length-add_new nr l))
  | inr e ↦ rw e (omega (arith, length-add_new (nr ++ n ∷ []) l, length-append nr (n ∷ [])))
]

mem-append : (a : ℕ) (l k : List ℕ) → mem a (l ++ k) ≡ (mem a l || mem a k)
mem-append a [] k = refl
mem-append a (n ∷ l) k =
    ap (λ b. a == n || b) (mem-append a l k) ∙ or_assoc (a == n) (mem a l) (mem a k)
  where
    or_assoc : (x y z : Bool) → (x || (y || z)) ≡ ((x || y) || z)
    or_assoc true y z = refl
    or_assoc false y z = refl

-- Nothing that is listed already is lost,
mem-add_new : (a : ℕ) (nr l : List ℕ) → mem a nr ≡ true → mem a (add_new nr l) ≡ true
mem-add_new a nr [] h = h
mem-add_new a nr (n ∷ l) h = elim (Bool-cases (mem n nr)) [
  | inl e ↦ rw e (mem-add_new a nr l h)
  | inr e ↦
      rw e (
        mem-add_new a (nr ++ n ∷ []) l (mem-append a nr (n ∷ []) ∙ ap (λ b. b || mem a (n ∷ [])) h))
]

unfoldable pub faked_calls : Bool → Bool → List ℕ
faked_calls fake_id setid_deny = if fake_id then id_syscalls else when setid_deny setid_deny_nrs

faked_calls-Words : (f s : Bool) → Words (faked_calls f s)
unfolding faked_calls
faked_calls-Words true s = omega arith
faked_calls-Words false s = when-Words s setid_deny_nrs (omega arith)

length-faked_calls : (f s : Bool) → length (faked_calls f s) ≤ 21
unfolding faked_calls
length-faked_calls true s = omega arith
length-faked_calls false s = omega (arith, length-when s setid_deny_nrs)

always_trapped-Words : (c : Config) → Words (always_trapped c)
unfolding always_trapped faked_calls
always_trapped-Words c =
    Words-append path_syscalls (ipc_syscalls ++ faked_calls c.fake_id c.setid_deny) (omega arith) (
      Words-append ipc_syscalls (faked_calls c.fake_id c.setid_deny) (omega arith)
        (faked_calls-Words c.fake_id c.setid_deny))

length-always_trapped : (c : Config) → length (always_trapped c) ≤ 99
unfolding always_trapped faked_calls
length-always_trapped c = omega (arith, length-faked_calls c.fake_id c.setid_deny)

-- Lists that are behind each other: their words and their lengths.
behind-Words : (b : Bool) (l k : List ℕ) → Words l → Words k → Words (when b l ++ k)
behind-Words b l k a e = Words-append (when b l) k (when-Words b l a) e

length-behind :
    (b : Bool) (l k : List ℕ) (n : ℕ) → length k ≤ n → length (when b l ++ k) ≤ length l + n
length-behind b l k n h = omega (arith, length-append (when b l) k, length-when b l)

module _ (c : Config) where
  dents : List ℕ
  dents =
      when (c.l2s || not c.no_proc || not c.no_dev || has_binds c.fs) (Numbers.nr_getdents64 ∷ [])

  signals : List ℕ
  signals =
      when (not c.no_proc && c.registry) (
        Numbers.nr_kill ∷ Numbers.nr_tkill ∷ Numbers.nr_tgkill ∷ Numbers.nr_rt_sigqueueinfo
        ∷ Numbers.nr_rt_tgsigqueueinfo ∷ [])
      ++ dents

  peeks : List ℕ
  peeks =
      when (not c.no_proc)
        (Numbers.nr_process_vm_readv ∷ Numbers.nr_process_vm_writev ∷ Numbers.nr_pidfd_open ∷ [])
      ++ signals

  stats : List ℕ
  stats = when (not c.no_proc) (Numbers.nr_fstatfs ∷ []) ++ peeks

  later : List ℕ
  later = when (c.l2s || c.fake_id || not c.no_proc) (Numbers.nr_fstat ∷ []) ++ stats

  later-Words : Words later
  unfolding later stats peeks signals dents
  later-Words = behind-Words _ (Numbers.nr_fstat ∷ []) stats (omega arith) (
      behind-Words _ (Numbers.nr_fstatfs ∷ []) peeks (omega arith) (
        behind-Words _
          (Numbers.nr_process_vm_readv ∷ Numbers.nr_process_vm_writev ∷ Numbers.nr_pidfd_open ∷ [])
          signals (omega arith)
          (behind-Words _
            (Numbers.nr_kill ∷ Numbers.nr_tkill ∷ Numbers.nr_tgkill ∷ Numbers.nr_rt_sigqueueinfo
              ∷ Numbers.nr_rt_tgsigqueueinfo ∷ [])
            dents (omega arith) (when-Words _ (Numbers.nr_getdents64 ∷ []) (omega arith)))))

  length-later : length later ≤ 11
  unfolding later stats peeks signals dents
  length-later =
      length-behind (c.l2s || c.fake_id || not c.no_proc) (Numbers.nr_fstat ∷ []) stats 10 (
        length-behind (not c.no_proc) (Numbers.nr_fstatfs ∷ []) peeks 9 (
          length-behind (not c.no_proc)
            (Numbers.nr_process_vm_readv ∷ Numbers.nr_process_vm_writev ∷ Numbers.nr_pidfd_open
              ∷ [])
            signals 6
            (length-behind (not c.no_proc && c.registry)
              (Numbers.nr_kill ∷ Numbers.nr_tkill ∷ Numbers.nr_tgkill ∷ Numbers.nr_rt_sigqueueinfo
                ∷ Numbers.nr_rt_tgsigqueueinfo ∷ [])
              dents 1
              (length-when (c.l2s || not c.no_proc || not c.no_dev || has_binds c.fs)
                (Numbers.nr_getdents64 ∷ [])))))

  pub trapped-Words : Words (trapped c)
  unfolding trapped later stats peeks signals dents
  trapped-Words =
      Words-append (add_new (always_trapped c) (when (view_has_ro c.fs) ro_fd_syscalls)) later
        (add_new-Words (always_trapped c) (when (view_has_ro c.fs) ro_fd_syscalls)
          (always_trapped-Words c) (when-Words (view_has_ro c.fs) ro_fd_syscalls (omega arith)))
        later-Words

  -- The tail's offsets, a byte each, reach.
  pub length-trapped : length (trapped c) ≤ 114
  unfolding trapped later stats peeks signals dents
  length-trapped = omega (
    arith,
    length-append (add_new (always_trapped c) (when (view_has_ro c.fs) ro_fd_syscalls)) later,
    length-later,
    length-add_new (always_trapped c) (when (view_has_ro c.fs) ro_fd_syscalls),
    length-always_trapped c,
    length-when (view_has_ro c.fs) ro_fd_syscalls,
  )

  pub always_trapped-trapped : (n : ℕ) → mem n (always_trapped c) ≡ true → mem n (trapped c) ≡ true
  unfolding trapped later stats peeks signals dents
  always_trapped-trapped n h =
      mem-append n (add_new (always_trapped c) (when (view_has_ro c.fs) ro_fd_syscalls)) later
      ∙ ap (λ b. b || mem n later)
          (mem-add_new n (always_trapped c) (when (view_has_ro c.fs) ro_fd_syscalls) h)

-- The requests that are tested one by one.
pub ioctl_requests-Words : (c : Config) → Words (ioctl_requests c)
unfolding ioctl_requests
ioctl_requests-Words c =
    Words-append ioctl_tty (when (view_has_ro c.fs) ioctl_mnt_write) (omega arith)
      (when-Words (view_has_ro c.fs) ioctl_mnt_write (omega arith))

pub length-ioctl_requests :
    (c : Config) → (6 ≤ length (ioctl_requests c)) × (length (ioctl_requests c) ≤ 25)
unfolding ioctl_requests
length-ioctl_requests c =
    (omega arith, omega (arith, length-when (view_has_ro c.fs) ioctl_mnt_write))
