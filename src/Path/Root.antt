-- ===== src/Path/Root.antt =====
-- `cng_fs_chroot` with a host path that does not fit the view's rootfs.
use fake_chroot_ng.Prelude.{ℕ, ◌≤◌, ◌<◌, ◌≡◌, some, [], arith, ◌==◌, length, if◌then◌else◌}
use fake_chroot_ng.Bytes.{Bytes}
use fake_chroot_ng.Bytes.Prefix.{fit_join-fits}
use fake_chroot_ng.Path.{path_max, path_canon}
use fake_chroot_ng.Path.View.{Fs, fill, rootfs}
use fake_chroot_ng.Path.Change.{normalize_root, chroot, chroot_to}

chroot_to-overlong :
    (fs : Fs) (root host_root : Bytes) (rlen : ℕ)
    → 512 ≤ length host_root
    → (chroot_to fs root rlen host_root).rootfs ≡ []
unfolding chroot_to normalize_root
chroot_to-overlong fs root host_root rlen h = ground arith

-- A chroot whose guest path canonicalizes and whose host path has 512 bytes or more does not fail:
-- it gives a view whose rootfs is the host's own root, so that a guest path that the rootfs
-- answers, and that fits the buffer, is then the host path of the same name.
pub chroot_overlong :
    (fs : Fs) (guest_root root host_root canon : Bytes) (outsz : ℕ)
    → path_canon guest_root path_max ≡ some root
    → 512 ≤ length host_root
    → length canon < outsz
    → fill (chroot fs guest_root host_root) rootfs canon outsz ≡ some canon
unfolding chroot fill
chroot_overlong fs guest_root root host_root canon outsz e h l =
    rw (e, chroot_to-overlong fs root host_root (if length root == 1 then 0 else length root) h)
      (fit_join-fits [] canon outsz (omega arith))
