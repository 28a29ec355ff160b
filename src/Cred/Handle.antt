-- ===== src/Cred/Handle.antt =====
-- cng_cred_handle of src/monitor/cred.c: the dispatch of the credential calls.
use fake_chroot_ng.Prelude.{
  ℕ, Bool, true, false, List, [], ◌∷◌, length, ltb, ◌==◌, ◌||◌, if◌then◌else◌, Ret, ok, err, efault,
  einval, enosys, neg32,
}
use fake_chroot_ng.Guest.{Guest}
use fake_chroot_ng.Cred.{Cred, cred_priv}
use fake_chroot_ng.Cred.Caps.{Tasks, CapReply, answer, reissued, do_capget, do_capset}
use fake_chroot_ng.Cred.Setter.{Setter, cred_set}
use fake_chroot_ng.Cred.Real.{HostIds, real_set}

-- The calls that reach the handler.
pub data Call : Type 0 where
  getuid geteuid getgid getegid : Call
  getresuid : ℕ → ℕ → ℕ → Call
  getresgid : ℕ → ℕ → ℕ → Call
  setter : Setter → Call
  getgroups : ℕ → ℕ → Call
  capget : ℕ → ℕ → Call
  capset : ℕ → ℕ → Call
  other : Call

-- The rest of the system, as the handler sees it.
pub record Host (g : Guest) : Type 0 where
  pub tasks : Tasks
  pub tid : ℕ
  pub high_mask : ℕ
  pub ids : HostIds
  -- `cng_blocked`
  pub blocked : Call → Bool
  -- the call issued to the kernel
  pub kernel : Call → g.Mem → Ret × g.Mem

module _ (g : Guest) where
  open g use {Mem, copyin, copyout}

  -- Three stores in order, up to the first that fails.
  store_ids : Mem → ℕ × ℕ × ℕ → ℕ × ℕ × ℕ → Ret × Mem
  store_ids m (a0, a1, a2) (r, e, s) =
      let (first, m1) = copyout m a0 (r ∷ []) in
      let (second, m2) = copyout m1 a1 (e ∷ []) in
      let (third, m3) = copyout m2 a2 (s ∷ []) in
      if first
      then if second then if third then (ok 0, m3) else (err efault, m3) else (err efault, m2)
      else (err efault, m1)

  -- `size` is an `int`: a negative one is below any count.
  unfoldable pub do_getgroups : Mem → List ℕ → ℕ → ℕ → Ret × Mem
  do_getgroups m got size a =
      if size == 0
      then (ok (length got), m)
      else if neg32 size || ltb size (length got)
      then (err einval, m)
      else if length got == 0
      then (ok 0, m)
      else let (stored, m') = copyout m a got in
        (if stored then ok (length got) else err efault, m')

  unfoldable pub reissue_cred : Host g → Call → Mem → Ret × Mem
  reissue_cred h call m = if h.blocked call then (err enosys, m) else h.kernel call m

  capget_finish : Host g → Call → CapReply × Mem → Ret × Mem
  unfolding reissue_cred
  capget_finish h call (answer r, m) = (r, m)
  capget_finish h call (reissued, m) = reissue_cred h call m

  abbrev keep : Cred → Ret × Mem → Ret × Cred × Mem
  keep c (r, m) = (r, c, m)

  abbrev after_set : Mem → Ret × Cred → Ret × Cred × Mem
  after_set m (r, c) = (r, c, m)

  -- With --fake-id: against the synthetic set.
  unfoldable pub fake_handle : Host g → Call → Cred → Mem → Ret × Cred × Mem
  unfolding store_ids do_getgroups capget_finish
  fake_handle h getuid c m = (ok c.ruid, c, m)
  fake_handle h geteuid c m = (ok c.euid, c, m)
  fake_handle h getgid c m = (ok c.rgid, c, m)
  fake_handle h getegid c m = (ok c.egid, c, m)
  fake_handle h (getresuid x y z) c m = keep c (store_ids m (x, y, z) (c.ruid, c.euid, c.suid))
  fake_handle h (getresgid x y z) c m = keep c (store_ids m (x, y, z) (c.rgid, c.egid, c.sgid))
  fake_handle h (setter call) c m = after_set m (cred_set (copyin m) call c)
  fake_handle h (getgroups size a) c m = keep c (do_getgroups m c.groups size a)
  fake_handle h (capget hdr dst) c m =
      keep c (capget_finish h (capget hdr dst) (do_capget g h.tasks (cred_priv c) m hdr dst))
  fake_handle h (capset hdr src) c m =
      keep c (do_capset g (cred_priv c) h.high_mask h.tid m hdr src)
  fake_handle h other c m = (err enosys, c, m)

  -- Without --fake-id: the kernel answers, or the rules do for a setter that the host refuses.
  unfoldable pub host_handle : Host g → Call → Mem → Ret × Mem
  unfolding reissue_cred
  host_handle h (setter call) m =
      if h.blocked (setter call)
      then (real_set (copyin m) h.ids call, m)
      else h.kernel (setter call) m
  host_handle h call m = reissue_cred h call m

  unfoldable pub cred_handle : Bool → Host g → Call → Cred → Mem → Ret × Cred × Mem
  unfolding fake_handle host_handle
  cred_handle true h call c m = fake_handle h call c m
  cred_handle false h call c m = keep c (host_handle h call m)
