-- ===== src/Cred/Caps.antt =====
-- src/monitor/cred.c: capget and capset on the synthetic set.
-- The header crosses as its two words; what other tasks are comes from the process registry.
use fake_chroot_ng.Prelude.{
  ℕ, zero, suc, ◌+◌, ◌-◌, ◌*◌, ◌^◌, ◌%◌, Bool, true, false, ◌&&◌, ◌||◌, Option, none, some, List,
  [], ◌∷◌, ◌==◌, ◌!=◌, if◌then◌else◌, Ret, ok, err, eperm, efault, einval, neg32, bit_and, bit_or,
  bit_xor,
}
use fake_chroot_ng.Guest.{Guest}

abbrev pub cap_ver_1 : ℕ
cap_ver_1 = 0x19980330

abbrev pub cap_ver_2 : ℕ
cap_ver_2 = 0x20071026

abbrev pub cap_ver_3 : ℕ
cap_ver_3 = 0x20080522

-- `struct cap_header`; `pid` is the pattern of an `int`.
pub record CapHeader : Type 0 where
  pub version : ℕ
  pub pid : ℕ

-- `struct cap_data`
pub record CapData : Type 0 where
  pub effective : ℕ
  pub permitted : ℕ
  pub inheritable : ℕ

abbrev pub no_caps : CapData
no_caps = record { effective = 0; permitted = 0; inheritable = 0 }

-- How `cap_magic` leaves: with the header and the number of data blocks, or with an errno.
pub data Magic : Type 0 where
  accepted : CapHeader → ℕ → Magic
  refused : ℕ → Magic

-- What `do_capget` asks of the kernel and of the process registry (procreg.c) about a pid.
pub record Tasks : Type 0 where
  -- tgkill(getpid(), pid, 0) answers 0
  pub is_own : ℕ → Bool
  pub has_task : ℕ → Bool
  -- the effective id that the task's group leader has published, if it runs under a fake identity
  pub published : ℕ → Option ℕ
  -- the configured identity, `cng_g_fake_uid`
  pub fake_uid : ℕ

abbrev pub all_caps : Bool → ℕ
all_caps root = if root then 2 ^ 32 - 1 else 0

published_or : Tasks → Option ℕ → ℕ
published_or t none = t.fake_uid
published_or t (some e) = e

-- The capability word of the task that the header names; `none` is for the kernel to answer.
unfoldable pub capget_word : Tasks → Bool → ℕ → Option ℕ
unfolding published_or
capget_word t root pid =
    if pid == 0 || t.is_own pid
    then some (all_caps root)
    else if t.has_task pid
    then some (all_caps (published_or t (t.published pid) == 0))
    else none

-- `n` blocks of `effective`, `permitted` and `inheritable`, as words.
unfoldable pub cap_words : ℕ → ℕ → List ℕ
cap_words n w = if n == 1 then w ∷ w ∷ 0 ∷ [] else w ∷ w ∷ 0 ∷ w ∷ w ∷ 0 ∷ []

-- A 32-bit complement.
abbrev pub not32 : ℕ → ℕ
not32 w = bit_xor w (2 ^ 32 - 1)

-- The test of the loop of `do_capset` on one block.
unfoldable pub cap_refused : Bool → CapData → Bool
cap_refused root b =
    if root
    then bit_and b.effective (not32 b.permitted) != 0
    else bit_or (bit_or b.effective b.permitted) b.inheritable != 0

unfoldable pub mask_block : ℕ → CapData → CapData
mask_block hi b = record {
  effective = bit_and b.effective hi;
  permitted = bit_and b.permitted hi;
  inheritable = bit_and b.inheritable hi;
}

-- The decision of `do_capset` on the words that were copied in, one or two blocks of them.
unfoldable pub capset_judge : Bool → ℕ → Option (List ℕ) → Ret
unfolding cap_refused mask_block
capset_judge root hi (some (a ∷ b ∷ c ∷ [])) =
    if cap_refused root (record { effective = a; permitted = b; inheritable = c })
    then err eperm
    else ok 0
capset_judge root hi (some (a ∷ b ∷ c ∷ a' ∷ b' ∷ c' ∷ [])) =
    if cap_refused root (record { effective = a; permitted = b; inheritable = c })
      || cap_refused root
          (mask_block hi (record { effective = a'; permitted = b'; inheritable = c' }))
    then err eperm
    else ok 0
capset_judge root hi _ = err efault

-- `cap_high_mask`: the loop from 63 down to the last capability that PR_CAPBSET_READ knows, 40 if
-- it knows none of the high word.
unfoldable pub highest_cap : (ℕ → Bool) → ℕ → ℕ
highest_cap known zero = 40
highest_cap known (suc n) = elim (known (32 + n)) [ true ↦ 32 + n | false ↦ highest_cap known n ]

unfoldable pub cap_high_mask : (ℕ → Bool) → ℕ
unfolding highest_cap
cap_high_mask known = (2 * 2 ^ (highest_cap known 32 - 32) - 1) % 2 ^ 32

-- How capget ends, when it does not hand the call to the kernel.
pub data CapReply : Type 0 where
  answer : Ret → CapReply
  reissued : CapReply

module _ (g : Guest) where
  open g use {Mem, copyin, copyout}

  -- An unknown version is answered by writing back the version that is spoken.
  magic_of : Mem → ℕ → Option (List ℕ) → Magic × Mem
  magic_of m hdr (some (version ∷ pid ∷ [])) =
      if version == cap_ver_1
      then (accepted (record { version = version; pid = pid }) 1, m)
      else if version == cap_ver_2 || version == cap_ver_3
      then (accepted (record { version = version; pid = pid }) 2, m)
      else let (stored, m') = copyout m hdr (cap_ver_3 ∷ []) in
        (refused (if stored then einval else efault), m')
  magic_of m hdr _ = (refused efault, m)

  unfoldable pub cap_magic : Mem → ℕ → Magic × Mem
  unfolding magic_of
  cap_magic m hdr = magic_of m hdr (copyin m hdr 2)

  capget_store : Mem → ℕ → ℕ → Option ℕ → CapReply × Mem
  capget_store m dst n none = (reissued, m)
  capget_store m dst n (some w) =
      let (stored, m') = copyout m dst (cap_words n w) in
      (answer (if stored then ok 0 else err efault), m')

  capget_after : Tasks → Bool → ℕ → Magic → Mem → CapReply × Mem
  unfolding capget_word cap_words capget_store
  capget_after t root dst (refused e) m =
      (answer (if dst == 0 && (e == einval) then ok 0 else err e), m)
  capget_after t root dst (accepted h n) m =
      if dst == 0
      then (answer (ok 0), m)
      else if neg32 h.pid
      then (answer (err einval), m)
      else capget_store m dst n (capget_word t root h.pid)

  unfoldable pub do_capget : Tasks → Bool → Mem → ℕ → ℕ → CapReply × Mem
  unfolding cap_magic capget_after
  do_capget t root m hdr dst = let (magic, m') = cap_magic m hdr in capget_after t root dst magic m'

  capset_after : Bool → ℕ → ℕ → ℕ → Magic → Mem → Ret
  unfolding capset_judge
  capset_after root hi tid src (refused e) m = err e
  capset_after root hi tid src (accepted h n) m =
      if h.pid != 0 && h.pid != tid then err eperm else capset_judge root hi (copyin m src (3 * n))

  -- `tid` is the caller's thread id, `hi` the mask of the second word.
  unfoldable pub do_capset : Bool → ℕ → ℕ → Mem → ℕ → ℕ → Ret × Mem
  unfolding cap_magic capset_after
  do_capset root hi tid m hdr src =
      let (magic, m') = cap_magic m hdr in (capset_after root hi tid src magic m', m')
