-- ===== src/Links/Place.antt =====
-- src/monitor/l2s.c: which symbolic link is one of the monitor's own, and which file it stands for;
-- with host_dir_guest of src/monitor/dispatch.c, which says whether the guest has a name for a host
-- directory.
use fake_chroot_ng.Prelude.{
  ℕ, zero, suc, ◌+◌, ◌-◌, Bool, true, false, not, ◌&&◌, ◌||◌, Option, none, some, List, [], ◌∷◌,
  ◌++◌, ltb, leb, ◌==◌, if◌then◌else◌, length, drop,
}
use fake_chroot_ng.Bytes.{Bytes, bytes, byte_at, strncmp_eq}
use fake_chroot_ng.Path.{slash, path_max, component, is_dot, is_dotdot}
use fake_chroot_ng.Path.View.{Fs, Zones, under, dev_nodes, abscanon, translate_mnt, untranslate}
use fake_chroot_ng.Links.{
  hidden, strrchr_slash, basename, dirname, strcmp_eq, parse_data_exact, parse_marker_exact,
  ends_in_slash, is_some,
}

-- The guest's name is checked the way it was reached: it translates back to the directory.
unfoldable pub goes_back : Zones → Fs → Bytes → Bytes → Bool
unfolding strcmp_eq
goes_back z fs gdir hdir = elim (translate_mnt z fs gdir path_max) [
  | none ↦ false
  | some (back, m) ↦ strcmp_eq back hdir
]

-- "/dev/<name>" and the rest, in a buffer of `sz` bytes.
abbrev pub dev_path : Bytes → Bytes → ℕ → Option Bytes
dev_path name rest sz =
    if leb sz 5
    then none
    else if leb sz (5 + length name) || leb (sz - (5 + length name)) (length rest)
    then none
    else some (bytes "/dev/" ++ (name ++ rest))

-- The loop over `cng_dev_nodes`.
unfoldable pub dev_dir : Zones → Fs → Bytes → ℕ → List (Bytes × Bytes) → Option Bytes
unfolding goes_back
dev_dir z fs hdir sz [] = none
dev_dir z fs hdir sz ((name, h) ∷ nodes) =
    let others = dev_dir z fs hdir sz nodes in
    if length h == 0 || not (under hdir h (length h))
    then others
    else elim (dev_path name (drop (length h) hdir) sz) [
      | none ↦ none
      | some gdir ↦ if goes_back z fs gdir hdir then some gdir else others
    ]

-- The /proc zone, and behind it the /dev zone.
unfoldable pub zone_dir : Zones → Fs → Bytes → ℕ → Option Bytes
unfolding goes_back dev_dir
zone_dir z fs hdir sz =
    let dev = if z.no_dev then none else dev_dir z fs hdir sz (dev_nodes z) in
    if not z.no_proc
      && under hdir (bytes "/proc") 5
      && (ltb (length hdir) sz && goes_back z fs hdir hdir)
    then some hdir
    else dev

-- `host_dir_guest`
unfoldable pub host_dir_guest : Zones → Fs → Bytes → ℕ → Option Bytes
unfolding zone_dir
host_dir_guest z fs hdir sz = elim (untranslate fs hdir sz) [
  | some gdir ↦ some gdir
  | none ↦ zone_dir z fs hdir sz
]

-- What this part reads of the process: the zones, `cng_g_fs`, `g_home`; and what the host answers:
-- whether `l2s_lstat` finds a data file at a path, and whether the store's path is, or can be made,
-- a directory.
pub record World : Type 0 where
  pub zones : Zones
  pub view : Option Fs
  pub home : Option Fs
  pub is_data_at : Bytes → Bool
  pub is_store_at : Bytes → Bool

abbrev pub named_at_home : Option Fs → Bytes → Bool
named_at_home none p = false
named_at_home (some home) p = is_some (untranslate home p path_max)

-- `l2s_owned`
unfoldable pub owned : World → Bytes → Bool
unfolding host_dir_guest
owned w p = elim w.view [
  | none ↦ true
  | some fs ↦ is_some (host_dir_guest w.zones fs p path_max) || named_at_home w.home p
]

abbrev pub bad_component : Bytes → Bool
bad_component c = length c == 0 || is_dot c || is_dotdot c

-- Behind a component: the end, or a slash and the next.
abbrev pub at_end : (Bytes → Bool) → Bytes → Bool
at_end next [] = true
at_end next (x ∷ rest) = next rest

-- The loop of `l2s_canonical`; each round takes a component and the slash behind it.
unfoldable pub canonical_loop : ℕ → Bytes → Bool
unfolding component
canonical_loop zero c = false
canonical_loop (suc fuel) c = elim (bad_component (component c).0) [
  | true ↦ false
  | false ↦ at_end (canonical_loop fuel) (component c).1
]

-- `l2s_canonical`
unfoldable pub l2s_canonical : Bytes → Bool
unfolding canonical_loop
l2s_canonical [] = false
l2s_canonical (x ∷ c) = x == slash && canonical_loop (length c + 1) c

-- `l2s_store_shaped`
unfoldable pub store_shaped : Bytes → Bool
unfolding basename
store_shaped p =
    let before = length p - length (basename p) in
    leb 6 before && strncmp_eq (drop (before - 6) p) (bytes "/.l2s/") 6

abbrev pub store_under : World → Bytes → ℕ → Option Bytes
store_under w root sz =
    if leb sz (length root + 6)
    then none
    else if w.is_store_at (root ++ bytes "/.l2s")
    then some (root ++ bytes "/.l2s")
    else none

-- `l2s_store_dir`, in a buffer that holds the rootfs.
unfoldable pub store_dir : World → ℕ → Option Bytes
store_dir w sz = elim w.view [ none ↦ store_under w [] sz | some fs ↦ store_under w fs.rootfs sz ]

-- What `l2s_store_heal` and `l2s_locate` answer: 1 with the file, and whether the link is to be
-- repointed; 0; or -ENAMETOOLONG.
pub data Found : Type 0 where
  ours : Bytes → Bool → Found
  ordinary too_long : Found

abbrev pub heal_into : Bytes → ℕ → Option Bytes → Found
heal_into tgt sz none = ordinary
heal_into tgt sz (some store) =
    if leb sz (length store + 1 + length (basename tgt))
    then too_long
    else if strcmp_eq (store ++ (slash ∷ basename tgt)) tgt
    then ordinary
    else ours (store ++ (slash ∷ basename tgt)) true

-- `l2s_store_heal`
unfoldable pub store_heal : World → Bytes → ℕ → Found
unfolding store_shaped store_dir strcmp_eq
store_heal w tgt sz = if store_shaped tgt then heal_into tgt sz (store_dir w path_max) else ordinary

-- A file that is there is ours; what is not there, or is no data file, makes the link an ordinary one.
abbrev pub if_there : World → Found → Found
if_there w (ours file heal) = if w.is_data_at file then ours file heal else ordinary
if_there w ordinary = ordinary
if_there w too_long = too_long

-- The bare name: the data file beside the link.
unfoldable pub beside : World → Bytes → Bytes → ℕ → Found
unfolding ends_in_slash dirname
beside w host tgt sz =
    let dir = dirname host path_max in
    let sep = not (ends_in_slash dir) in
    if leb sz (length dir + (if sep then 1 else 0) + length tgt)
    then too_long
    else if_there w (ours ((if sep then dir ++ slash ∷ [] else dir) ++ tgt) false)

-- An absolute target: where it says, in a place of the guest's own, or in this rootfs's store.
unfoldable pub at_target : World → Bytes → ℕ → Found
unfolding l2s_canonical owned store_heal
at_target w tgt sz =
    let stale = if_there w (store_heal w tgt sz) in
    if not (l2s_canonical tgt)
    then ordinary
    else if owned w tgt
    then (if leb sz (length tgt)
        then too_long
        else if w.is_data_at tgt
        then ours tgt false
        else stale)
    else stale

-- `l2s_locate(host, tgt, data, dsz, &heal)`
unfoldable pub locate : World → Bytes → Bytes → ℕ → Found
unfolding parse_data_exact basename strrchr_slash beside at_target
locate w host tgt sz =
    if not (is_some (parse_data_exact (basename tgt)))
    then ordinary
    else if byte_at tgt 0 == slash
    then at_target w tgt sz
    else if is_some (strrchr_slash tgt)
    then ordinary
    else beside w host tgt sz

-- What one entry of the listing decides, with what the entries behind it do.
abbrev pub marker_or : ℕ → Option (ℕ × ℕ) → Option ℕ → Option ℕ
marker_or ino none rest = rest
marker_or ino (some (dino, dc)) rest = if dino == ino then some dc else rest

abbrev pub or_later : Option ℕ → Option ℕ → Option ℕ
or_later none later = later
or_later (some c) later = some c

-- The scan of `find_marker`: the names in the directory, in batches as getdents64 gives them, and
-- the count of the first that is this group's marker.
unfoldable pub marker_among : ℕ → List Bytes → Option ℕ
unfolding parse_marker_exact
marker_among ino [] = none
marker_among ino (name ∷ names) = marker_or ino (parse_marker_exact name) (marker_among ino names)

unfoldable pub find_marker : ℕ → List (List Bytes) → Option ℕ
unfolding marker_among
find_marker ino [] = none
find_marker ino (batch ∷ batches) = or_later (marker_among ino batch) (find_marker ino batches)

abbrev pub or_zero : Option ℕ → ℕ
or_zero none = 0
or_zero (some c) = c

-- The end of `cng_l2s_resolve`: the count of a data file, by its directory's listing.
unfoldable pub count_of : (Bytes → List (List Bytes)) → Bytes → Option ℕ → ℕ
unfolding find_marker dirname
count_of listing file none = 0
count_of listing file (some ino) = or_zero (find_marker ino (listing (dirname file path_max)))

abbrev pub in_store : Option Bytes → Bool
in_store none = false
in_store (some canon) = under canon (bytes "/.l2s") 5

-- `cng_l2s_deny(dirfd, gp)`; `at_cwd` is `(int)dirfd == CNG_AT_FDCWD`.
unfoldable pub deny : Option Fs → Bool → Bytes → Bool
unfolding hidden basename
deny view at_cwd [] = false
deny view at_cwd (x ∷ gp) = if hidden (basename (x ∷ gp)) then true else elim view [
  | none ↦ false
  | some fs ↦ (x == slash || at_cwd) && in_store (abscanon fs (x ∷ gp) path_max)
]
