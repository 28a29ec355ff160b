-- ===== src/Path/Tests.antt =====
-- Runs of the path code at concrete inputs.
use fake_chroot_ng.Prelude.{
  ℕ, ◌≡◌, refl, ◌⊎◌, inr, true, false, Option, none, some, [], ◌∷◌, arith, length, ◌==◌, zero, suc,
}
use fake_chroot_ng.Bytes.{Bytes, bytes, strncmp_eq}
use fake_chroot_ng.Path.{path_max, path_canon, wants_dir}
use fake_chroot_ng.Path.View.{
  Bind, Fs, Zones, bind, proc, rootfs, mount_of, translate_mnt, untranslate, fill, host_matches,
  host_under, guest_matches, longest, abscanon, finish_path, proc_zone, host_proc_hidden,
  hide_proc_pid,
}
use fake_chroot_ng.Path.Change.{canon_host_root, normalize_root, fs_init, add_bind, chroot, set_cwd}
use fake_chroot_ng.Path.Fields.{split, walk}
use fake_chroot_ng.Path.Canon.{map_path, path_canon-walk}
use fake_chroot_ng.Path.Canonical.{IsCanonical, path_canon-IsCanonical}
use fake_chroot_ng.Path.Mounts.{Answers, mount_of-Answers}
use fake_chroot_ng.Path.Held.{IsView}
use fake_chroot_ng.Path.Invariant.{Built, started, bound, rooted, moved, Built-IsView}
use fake_chroot_ng.Path.RoundTrip.{OnlyLongest}
use fake_chroot_ng.Path.Back.{untranslate-translate_mnt}
use fake_chroot_ng.Path.Hidden.{NamesPid, translate_mnt-MayName}
use fake_chroot_ng.Path.Root.{chroot_overlong}

abbrev messy : Bytes
messy = bytes "/usr//./lib/../bin/"

abbrev tidy : Bytes
tidy = bytes "/usr/bin"

messy-tidy : path_canon messy path_max ≡ some tidy
unfolding path_canon
messy-tidy = refl

too_long : path_canon messy 8 ≡ none
unfolding path_canon
too_long = refl

messy-wants_dir : wants_dir messy ≡ true
unfolding wants_dir
messy-wants_dir = refl

path_canon-walk_example : path_canon messy path_max ≡ map_path (walk path_max (split messy) [])
path_canon-walk_example = path_canon-walk messy path_max

path_canon-IsCanonical_example : IsCanonical tidy
path_canon-IsCanonical_example = path_canon-IsCanonical messy tidy path_max messy-tidy

abbrev zones : Zones
zones = record {
  no_proc = false;
  no_dev = false;
  shm_host = bytes "/tmp/shm";
  pts_host = bytes "/dev/pts";
  has_pid = λ p. p == 77;
}

-- the host's names are as given
abbrev as_given : Bytes → Option Bytes
as_given p = none

abbrev bare : Fs
bare = record { rootfs = bytes "/srv/root"; rlen = 9; binds = []; has_ro = false; cwd = bytes "/" }

abbrev home : Bind
home = record {
  guest = bytes "/home";
  host = bytes "/data/home";
  glen = 5;
  hlen = 10;
  base = 1;
  ro = true;
}

abbrev mounted : Fs
mounted = record bare { binds = home ∷ []; has_ro = true }

bare_start : fs_init as_given (bytes "/srv/root/") ≡ (bare, true)
unfolding fs_init canon_host_root normalize_root
bare_start = refl

bare-Built : Built as_given bare
unfolding fs_init canon_host_root normalize_root
bare-Built = started (bytes "/srv/root/")

home_added : add_bind as_given bare (bytes "/./home/") (bytes "/data/home") true ≡ some mounted
unfolding add_bind path_canon canon_host_root normalize_root
home_added = refl

mounted-Built : Built as_given mounted
mounted-Built =
    bound bare mounted (bytes "/./home/") (bytes "/data/home") true bare-Built home_added

mounted-IsView : IsView mounted
mounted-IsView = Built-IsView as_given mounted mounted-Built

-- chroot("/home") drops the bind over the new root
Built-IsView_example :
    IsView (chroot (set_cwd mounted (bytes "/home/me")) (bytes "/home") (bytes "/data/home"))
Built-IsView_example =
    Built-IsView as_given
      (chroot (set_cwd mounted (bytes "/home/me")) (bytes "/home") (bytes "/data/home"))
      (rooted (set_cwd mounted (bytes "/home/me")) (bytes "/home") (bytes "/data/home")
        (moved mounted (bytes "/home/me") mounted-Built))

home_answers : mount_of zones mounted (bytes "/home/me") ≡ bind 0 home
unfolding mount_of longest strncmp_eq
home_answers = refl

mount_of-Answers_example :
    Answers zones mounted (bytes "/home/me") (mount_of zones mounted (bytes "/home/me"))
mount_of-Answers_example = mount_of-Answers zones mounted (bytes "/home/me")

home_matches : guest_matches (bytes "/home/me") home ≡ true
unfolding strncmp_eq
home_matches = refl

etc_filled : fill mounted rootfs (bytes "/etc") 64 ≡ some (bytes "/srv/root/etc")
unfolding fill
etc_filled = refl

home_elsewhere : host_matches (bytes "/srv/root/etc") home ≡ false
unfolding host_under strncmp_eq
home_elsewhere = refl

me_filled : fill mounted (bind 0 home) (bytes "/home/me") 64 ≡ some (bytes "/data/home/me")
unfolding fill
me_filled = refl

home_only : OnlyLongest mounted home (bytes "/data/home/me")
unfolding host_under strncmp_eq
home_only = (omega arith, ((λ m l. refl), tt))

me_canonical : abscanon mounted (bytes "/usr/../home/me") path_max ≡ some (bytes "/home/me")
unfolding abscanon path_canon
me_canonical = refl

me_no_dir : wants_dir (bytes "/usr/../home/me") ≡ false
unfolding wants_dir
me_no_dir = refl

me_shown : host_proc_hidden zones (bytes "/data/home/me") ≡ false
unfolding host_proc_hidden strncmp_eq
me_shown = refl

me_translated :
    translate_mnt zones mounted (bytes "/usr/../home/me") 64
    ≡ some (bytes "/data/home/me", bind 0 home)
unfolding translate_mnt abscanon path_canon finish_path fill mount_of longest proc_zone strncmp_eq
    wants_dir host_proc_hidden hide_proc_pid
me_translated = refl

untranslate-translate_mnt_example :
    untranslate mounted (bytes "/data/home/me") 64 ≡ some (bytes "/home/me")
untranslate-translate_mnt_example =
    untranslate-translate_mnt zones mounted (bytes "/usr/../home/me") (bytes "/home/me")
      (bytes "/data/home/me") 64 64 0 home mounted-IsView me_canonical (omega arith) me_no_dir
      me_shown home_only me_translated

stranger_shown :
    translate_mnt zones bare (bytes "/proc/12/maps") 64 ≡ some (bytes "/proc/0/maps", proc)
unfolding translate_mnt abscanon path_canon finish_path fill mount_of longest proc_zone strncmp_eq
    wants_dir host_proc_hidden hide_proc_pid
stranger_shown = refl

zero_named : NamesPid (bytes "/proc/0/maps") 0
zero_named = record {
  digits = bytes "0";
  rest = bytes "/maps";
  spelled = refl;
  some_digit = λ e. cc;
  all_digits = ((omega arith, omega arith), tt);
  ends = inr (bytes "maps", refl);
  number = refl;
  in_int = omega arith;
}

translate_mnt-MayName_example : (zones.has_pid 0 ≡ true) ⊎ ((◌≡◌ {A = ℕ} 0) 0)
translate_mnt-MayName_example =
    translate_mnt-MayName zones bare (bytes "/proc/12/maps") (bytes "/proc/0/maps") 64 0 proc refl
      (omega arith) stranger_shown zero_named

abbrev letters : ℕ → Bytes
letters zero = []
letters (suc n) = b'a' ∷ letters n

length-letters : (n : ℕ) → length (letters n) ≡ n
length-letters zero = refl
length-letters (suc n) = omega (arith, length-letters n)

usr_root : path_canon (bytes "/usr") path_max ≡ some (bytes "/usr")
unfolding path_canon
usr_root = refl

-- the path of the host's shadow file, after chroot("/usr") where the host's name of /usr is too long
chroot_overlong_example :
    fill (chroot bare (bytes "/usr") (letters 600)) rootfs (bytes "/etc/shadow") 64
    ≡ some (bytes "/etc/shadow")
chroot_overlong_example =
    chroot_overlong bare (bytes "/usr") (bytes "/usr") (letters 600) (bytes "/etc/shadow") 64
      usr_root (omega (arith, length-letters 600)) (omega arith)
