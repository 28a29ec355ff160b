-- ===== src/Path/Change.antt =====
-- src/path/path.c: how the view is set up and changed: cng_fs_init, cng_fs_add_bind, cng_fs_chroot
-- and cng_fs_set_cwd.
use fake_chroot_ng.Prelude.{
  ℕ, ◌+◌, Bool, true, false, not, ◌||◌, Option, none, some, List, [], ◌∷◌, ◌++◌, reverse, leb, ◌==◌,
  ◌!=◌, if◌then◌else◌, length, drop, any,
}
use fake_chroot_ng.Bytes.{Bytes, byte_at, cut}
use fake_chroot_ng.Path.{slash, path_max, path_canon}
use fake_chroot_ng.Path.View.{Bind, Fs, is_end, under}

abbrev pub max_binds : ℕ
max_binds = 64

-- `while (n > 1 && dst[n - 1] == '/') n--;`, with the last byte first.
unfoldable pub trim_slashes : Bytes → Bytes
trim_slashes [] = []
trim_slashes (x ∷ []) = x ∷ []
trim_slashes (x ∷ y ∷ dst) =
    let rest = trim_slashes (y ∷ dst) in if x == slash then rest else x ∷ y ∷ dst

abbrev pub root_to_empty : Bytes → Bytes
root_to_empty (x ∷ []) = if x == slash then [] else x ∷ []
root_to_empty dst = dst

-- `normalize_root`: what the buffer holds, and whether the path fitted.
unfoldable pub normalize_root : Bytes → ℕ → Bytes × Bool
unfolding trim_slashes
normalize_root src dstsz =
    if leb dstsz (length src)
    then ([], false)
    else (root_to_empty (reverse (trim_slashes (reverse src))), true)

abbrev or_source : Option Bytes → Bytes → Bytes
or_source none src = src
or_source (some real) src = real

-- `canon_host_root`: `real` is the kernel's own name of the path, read back from a descriptor on it,
-- where it still names the same file.
unfoldable pub canon_host_root : (Bytes → Option Bytes) → Bytes → ℕ → Bytes × Bool
canon_host_root real src dstsz = normalize_root (or_source (real src) src) dstsz

-- `cng_fs_init`: the view, and whether the root fitted.
unfoldable pub fs_init : (Bytes → Option Bytes) → Bytes → Fs × Bool
fs_init real root =
    let (dst, fitted) = canon_host_root real root 512 in
    (
      record { rootfs = dst; rlen = length dst; binds = []; has_ro = false; cwd = slash ∷ [] },
      fitted,
    )

-- The loop of `bind_measure`: the offset behind the last slash.
unfoldable pub last_base : ℕ → ℕ → Bytes → ℕ
last_base i base [] = base
last_base i base (x ∷ xs) = last_base (i + 1) (if x == slash then i + 1 else base) xs

unfoldable pub bind_measure : Bytes → Bytes → Bool → Bind
unfolding last_base
bind_measure guest host ro = record {
  guest = guest;
  host = host;
  glen = length guest;
  hlen = length host;
  base = last_base 0 0 guest;
  ro = ro;
}

unfoldable pub add_measured : Fs → Bytes → Bytes × Bool → Bool → Option Fs
unfolding bind_measure
add_measured fs canon (host, fitted) ro =
    if not fitted
    then none
    else some (record fs {
      binds = fs.binds ++ bind_measure canon host ro ∷ [];
      has_ro = ro || fs.has_ro;
    })

unfoldable pub add_canon : (Bytes → Option Bytes) → Fs → Option Bytes → Bytes → Bool → Option Fs
unfolding add_measured
add_canon real fs none host ro = none
add_canon real fs (some canon) host ro =
    if leb 256 (length canon)
    then none
    else add_measured fs canon (canon_host_root real host 512) ro

-- `cng_fs_add_bind`: `none` for -1.
unfoldable pub add_bind : (Bytes → Option Bytes) → Fs → Bytes → Bytes → Bool → Option Fs
unfolding add_canon
add_bind real fs guest host ro =
    if leb max_binds (length fs.binds)
    then none
    else if byte_at guest 0 != slash
    then none
    else add_canon real fs (path_canon guest path_max) host ro

-- `rebase`: the name of a guest path under a new root, into a buffer of `dstsz` bytes.
unfoldable pub rebase : ℕ → Bytes → Bytes → ℕ → Option Bytes
rebase dstsz p root rlen =
    if rlen == 0
    then some (cut p dstsz)
    else if not (under p root rlen)
    then none
    else some (cut (if is_end (drop rlen p) then slash ∷ [] else drop rlen p) dstsz)

abbrev pub is_root : Bytes → Bool
is_root (x ∷ []) = x == slash
is_root _ = false

unfoldable pub keep_bind : Bind → Option Bytes → List Bind → List Bind
unfolding bind_measure
keep_bind b none rest = rest
keep_bind b (some g) rest = if is_root g then rest else bind_measure g b.host b.ro ∷ rest

-- The loop of `chroot_1` over the binds.
unfoldable pub rebase_binds : Bytes → ℕ → List Bind → List Bind
unfolding keep_bind
rebase_binds root rlen [] = []
rebase_binds root rlen (b ∷ bs) =
    keep_bind b (rebase 256 b.guest root rlen) (rebase_binds root rlen bs)

unfoldable pub or_slash : Option Bytes → Bytes
or_slash none = slash ∷ []
or_slash (some cwd) = cwd

-- The view under a new root, from the canonical name of the root and its length, 0 for "/".
unfoldable pub chroot_to : Fs → Bytes → ℕ → Bytes → Fs
unfolding or_slash
chroot_to fs root rlen host_root =
    let binds = rebase_binds root rlen fs.binds in
    let rootfs = (normalize_root host_root 512).0 in
    record {
      rootfs = rootfs;
      rlen = length rootfs;
      binds = binds;
      has_ro = any (λ b. b.ro) binds;
      cwd = or_slash (rebase path_max fs.cwd root rlen);
    }

chroot_canon : Fs → Option Bytes → Bytes → Fs
chroot_canon fs none host_root = fs
chroot_canon fs (some root) host_root =
    chroot_to fs root (if length root == 1 then 0 else length root) host_root

-- `chroot_1`
unfoldable pub chroot : Fs → Bytes → Bytes → Fs
unfolding chroot_canon chroot_to
chroot fs guest_root host_root = chroot_canon fs (path_canon guest_root path_max) host_root

set_canon : Fs → Option Bytes → Fs
set_canon fs none = fs
set_canon fs (some canon) = record fs { cwd = canon }

-- `set_cwd_1`
unfoldable pub set_cwd : Fs → Bytes → Fs
unfolding set_canon
set_cwd fs guest_cwd =
    if byte_at guest_cwd 0 == slash then set_canon fs (path_canon guest_cwd path_max) else fs
