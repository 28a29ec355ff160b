-- ===== src/Path/View.antt =====
-- src/path/path.c: the view (rootfs, binds, working directory), which mount answers a guest path,
-- and the translation to host paths and back.
use fake_chroot_ng.Prelude.{
  ℕ, ◌+◌, ◌-◌, ◌*◌, Bool, true, false, not, ◌&&◌, ◌||◌, Option, none, some, List, [], ◌∷◌, ◌++◌,
  ltb, leb, ◌==◌, ◌!=◌, if◌then◌else◌, length, drop,
}
use fake_chroot_ng.Bytes.{Bytes, bytes, byte_at, strncmp_eq, cut, fit, fit_join}
use fake_chroot_ng.Path.{slash, path_max, component, path_canon, wants_dir}

-- `struct cng_bind`
pub record Bind : Type 0 where
  pub guest : Bytes
  pub host : Bytes
  pub glen : ℕ
  pub hlen : ℕ
  pub base : ℕ
  pub ro : Bool

-- `struct cng_fs`; the length of `binds` is `nbinds`.
pub record Fs : Type 0 where
  pub rootfs : Bytes
  pub rlen : ℕ
  pub binds : List Bind
  pub has_ro : Bool
  pub cwd : Bytes

-- The globals of the /proc and /dev zones, and `cng_procreg_has`.
pub record Zones : Type 0 where
  pub no_proc : Bool
  pub no_dev : Bool
  pub shm_host : Bytes
  pub pts_host : Bytes
  pub has_pid : ℕ → Bool

-- The string ends here: `*s == '\0'`.
abbrev pub is_end : Bytes → Bool
is_end [] = true
is_end (x ∷ s) = false

-- A component ends here: a slash or the terminator.
abbrev pub at_boundary : Bytes → Bool
at_boundary [] = true
at_boundary (x ∷ s) = x == slash

-- `strncmp(s, pfx, n) == 0 && (s[n] == '/' || s[n] == '\0')`
abbrev pub under : Bytes → Bytes → ℕ → Bool
under s pfx n = strncmp_eq s pfx n && at_boundary (drop n s)

unfoldable pub proc_zone : Zones → Bytes → Bool
proc_zone z canon = not z.no_proc && under canon (bytes "/proc") 5

-- `cng_dev_nodes`: the names under /dev, and the host paths behind them.
unfoldable pub dev_nodes : Zones → List (Bytes × Bytes)
dev_nodes z =
    (bytes "null", bytes "/dev/null")
    ∷ (bytes "zero", bytes "/dev/zero")
    ∷ (bytes "full", bytes "/dev/full")
    ∷ (bytes "random", bytes "/dev/random")
    ∷ (bytes "urandom", bytes "/dev/urandom")
    ∷ (bytes "tty", bytes "/dev/tty")
    ∷ (bytes "ptmx", bytes "/dev/ptmx")
    ∷ (bytes "console", bytes "/dev/tty")
    ∷ (bytes "pts", z.pts_host)
    ∷ (bytes "shm", z.shm_host)
    ∷ (bytes "fd", bytes "/proc/self/fd")
    ∷ (bytes "stdin", bytes "/proc/self/fd/0")
    ∷ (bytes "stdout", bytes "/proc/self/fd/1")
    ∷ (bytes "stderr", bytes "/proc/self/fd/2")
    ∷ []

-- The loop of `dev_zone_node`: the host path of the first node that the leaf names or lies under,
-- and the rest of the leaf.
unfoldable pub find_node : Bytes → List (Bytes × Bytes) → Option (Bytes × Bytes)
find_node leaf [] = none
find_node leaf ((name, host) ∷ nodes) =
    let next = find_node leaf nodes in
    if under leaf name (length name) then some (host, drop (length name) leaf) else next

unfoldable pub dev_zone_node : Zones → Bytes → Option (Bytes × Bytes)
unfolding find_node
dev_zone_node z canon =
    if z.no_dev || not (under canon (bytes "/dev") 4) || is_end (drop 4 canon)
    then none
    else find_node (drop 5 canon) (dev_nodes z)

-- Which mount answers: a bind with its index, or one of the CNG_MOUNT_ codes.
pub data Mount : Type 0 where
  bind : ℕ → Bind → Mount
  proc : Mount
  dev : Bytes → Bytes → Mount
  rootfs : Mount

-- The loop over the binds from index `i`: the one that matches with the longest prefix, the first of
-- those if several are as long, where one is longer than `blen`.
unfoldable pub longest :
    (Bind → Bool) → (Bind → ℕ) → List Bind → ℕ → Option (ℕ × Bind) → ℕ → Option (ℕ × Bind)
longest matches len [] i best blen = best
longest matches len (b ∷ bs) i best blen =
    let hit = matches b && ltb blen (len b) in
    longest matches len bs (i + 1) (if hit then some (i, b) else best) (if hit then len b else blen)

abbrev pub guest_matches : Bytes → Bind → Bool
guest_matches canon b = under canon b.guest b.glen

abbrev pub zone_of : Option (Bytes × Bytes) → Mount
zone_of none = rootfs
zone_of (some (host, rest)) = dev host rest

unfoldable pub mount_or : Zones → Bytes → Option (ℕ × Bind) → Mount
mount_or z canon (some (i, b)) = bind i b
mount_or z canon none = if proc_zone z canon then proc else zone_of (dev_zone_node z canon)

-- `mount_of_1`
unfoldable pub mount_of : Zones → Fs → Bytes → Mount
unfolding mount_or
mount_of z fs canon =
    mount_or z canon (longest (guest_matches canon) (λ b. b.glen) fs.binds 0 none 0)

abbrev pub last_byte : Bytes → ℕ
last_byte p = byte_at p (length p - 1)

-- The working directory with a slash behind it, and the path behind that.
join_cwd : Bytes → Bytes → Option Bytes
join_cwd cwd path =
    if leb path_max (length cwd)
    then none
    else if ltb 0 (length cwd) && last_byte cwd != slash
    then (if leb path_max (length cwd + 1)
        then none
        else fit_join (cwd ++ slash ∷ []) path path_max)
    else fit_join cwd path path_max

unfoldable pub canon_option : Option Bytes → ℕ → Option Bytes
canon_option none outsz = none
canon_option (some p) outsz = path_canon p outsz

-- `abscanon_1`
unfoldable pub abscanon : Fs → Bytes → ℕ → Option Bytes
unfolding join_cwd canon_option
abscanon fs path outsz =
    canon_option (if byte_at path 0 == slash then fit path path_max else join_cwd fs.cwd path) outsz

-- The loop of `host_proc_hidden`: the pid that a name spells, if it is one that an int holds.
unfoldable pub pid_of : ℕ → Bytes → Option ℕ
pid_of pid [] = some pid
pid_of pid (x ∷ p) =
    let next = pid_of (pid * 10 + (x - b'0')) p in
    if x == slash
    then some pid
    else if ltb x b'0' || ltb b'9' x
    then none
    else if ltb 0x7fffffff (pid * 10 + (x - b'0'))
    then none
    else next

unfoldable pub hidden_pid : Zones → Option ℕ → Bool
hidden_pid z none = false
hidden_pid z (some pid) = not (z.has_pid pid)

-- A host path under a numeric entry of /proc that is no guest process.
unfoldable pub host_proc_hidden : Zones → Bytes → Bool
unfolding pid_of hidden_pid
host_proc_hidden z host =
    if z.no_proc || not (strncmp_eq host (bytes "/proc/") 6)
    then false
    else if ltb (byte_at host 6) b'0' || ltb b'9' (byte_at host 6)
    then false
    else hidden_pid z (pid_of 0 (drop 6 host))

-- The pid is replaced by 0, in buffers of `path_max` and `outsz` bytes.
unfoldable pub hide_proc_pid : Bytes → ℕ → Bytes
hide_proc_pid out outsz =
    cut (bytes "/proc/0" ++ cut (component (drop 6 out)).1 (path_max - 7)) outsz

-- The host path that the mount's verdict gives.
unfoldable pub fill : Fs → Mount → Bytes → ℕ → Option Bytes
fill fs (bind i b) canon outsz = fit_join b.host (drop b.glen canon) outsz
fill fs proc canon outsz = fit canon outsz
fill fs (dev host rest) canon outsz =
    if length rest == 0 then some (cut host outsz) else fit_join host rest outsz
fill fs rootfs canon outsz = fit_join fs.rootfs canon outsz

-- The trailing slash that says that a directory is wanted, put back.
unfoldable pub with_slash : Bytes → ℕ → Option Bytes
with_slash out outsz =
    if ltb 0 (length out) && last_byte out != slash
    then (if ltb outsz (length out + 2) then none else some (out ++ slash ∷ []))
    else some out

unfoldable pub finish_path : Zones → Bytes → ℕ → Option Bytes → Option Bytes
finish_path z path outsz none = none
finish_path z path outsz (some out) =
    let shown = if host_proc_hidden z out then hide_proc_pid out outsz else out in
    if wants_dir path then with_slash shown outsz else some shown

unfoldable pub with_mount : Mount → Option Bytes → Option (Bytes × Mount)
with_mount m none = none
with_mount m (some out) = some (out, m)

unfoldable pub translate_canon : Zones → Fs → Bytes → ℕ → Option Bytes → Option (Bytes × Mount)
unfolding with_mount
translate_canon z fs path outsz none = none
translate_canon z fs path outsz (some canon) =
    with_mount (mount_of z fs canon)
      (finish_path z path outsz (fill fs (mount_of z fs canon) canon outsz))

-- `translate_mnt_1`: the host path with the mount that answered, `none` for -1.
unfoldable pub translate_mnt : Zones → Fs → Bytes → ℕ → Option (Bytes × Mount)
unfolding translate_canon
translate_mnt z fs path outsz = translate_canon z fs path outsz (abscanon fs path path_max)

-- `host_under`: a zero-length prefix is the identity root, and matches everything.
unfoldable pub host_under : Bytes → Bytes → ℕ → Bool
host_under host pfx len = len == 0 || under host pfx len

abbrev pub host_matches : Bytes → Bind → Bool
host_matches host b = host_under host b.host b.hlen

unfoldable pub root_if_empty : Option Bytes → Option Bytes
root_if_empty none = none
root_if_empty (some []) = some (slash ∷ [])
root_if_empty (some (x ∷ out)) = some (x ∷ out)

-- The guest path of a host path under the bind found, else under the rootfs, else none.
unfoldable pub guest_of : Fs → Bytes → ℕ → Option (ℕ × Bind) → Option Bytes
unfolding root_if_empty
guest_of fs host outsz (some (i, b)) = root_if_empty (fit_join b.guest (drop b.hlen host) outsz)
guest_of fs host outsz none =
    if host_under host fs.rootfs fs.rlen
    then root_if_empty (fit_join [] (drop fs.rlen host) outsz)
    else none

-- `untranslate_1`: the rootfs stands in the same contest as the binds.
unfoldable pub untranslate : Fs → Bytes → ℕ → Option Bytes
unfolding guest_of
untranslate fs host outsz = guest_of fs host outsz (
    longest (host_matches host) (λ b. b.hlen) fs.binds 0 none
      (if host_under host fs.rootfs fs.rlen then fs.rlen else 0))

abbrev pub ro_matches : Bytes → Bind → Bool
ro_matches host b = b.hlen != 0 && under host b.host b.hlen

is_ro : Option (ℕ × Bind) → Bool
is_ro none = false
is_ro (some (i, b)) = b.ro

-- `host_ro_1`: whether the longest bind over a host path is read-only.
unfoldable pub host_ro : Fs → Bytes → Bool
unfolding is_ro
host_ro fs host =
    if not fs.has_ro
    then false
    else is_ro (longest (ro_matches host) (λ b. b.hlen) fs.binds 0 none 0)
