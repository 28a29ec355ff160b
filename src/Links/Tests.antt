-- ===== src/Links/Tests.antt =====
-- Runs of the names of src/monitor/l2s.c at concrete inputs.
use fake_chroot_ng.Prelude.{◌≤◌, ◌≡◌, ◌≢◌, ◌↔◌, refl, true, false, none, some, List, [], ◌∷◌, arith}
use fake_chroot_ng.Bytes.{fit}
use fake_chroot_ng.Path.{slash, path_canon}
use fake_chroot_ng.Path.View.{Fs, Zones, untranslate, longest, host_under, abscanon}
use fake_chroot_ng.Path.Canonical.{IsCanonical}
use fake_chroot_ng.Links.{u64_max}
use fake_chroot_ng.Links.Exact.{marker_name, parse_marker_exact-names}
use fake_chroot_ng.Links.Built.{full_name, build_name_lem}
use fake_chroot_ng.Links.Grammar.{IsBacking, hidden-names}
use fake_chroot_ng.Links.Place.{
  World, ours, locate, owned, find_marker, l2s_canonical, host_dir_guest, deny, count_of,
}
use fake_chroot_ng.Links.Located.{Followed, locate-Followed, locate-build_name}
use fake_chroot_ng.Links.Lexical.{l2s_canonical-IsCanonical}
use fake_chroot_ng.Links.Marker.{Listed, find_marker_lem}
use fake_chroot_ng.Bytes.{Bytes, bytes, strncmp_eq}
use fake_chroot_ng.Links.{
  parse_data, hidden, parse_data_exact, parse_marker_exact, basename, build_name,
}

seven : parse_data_exact (bytes ".l2s.7") ≡ some 7
unfolding parse_data_exact strncmp_eq
seven = refl

not_seven : parse_data_exact (bytes ".l2s.07") ≡ none
unfolding parse_data_exact strncmp_eq
not_seven = refl

wraps_to_seven : parse_data true (bytes ".l2s.18446744073709551623") ≡ none
unfolding parse_data strncmp_eq
wraps_to_seven = refl

hidden_anyway : hidden (bytes ".l2s.18446744073709551623") ≡ true
unfolding hidden strncmp_eq
hidden_anyway = refl

marker : parse_marker_exact (bytes ".l2s.12.0005") ≡ some (12, 5)
unfolding parse_marker_exact strncmp_eq
marker = refl

short_marker : parse_marker_exact (bytes ".l2s.12.5") ≡ none
unfolding parse_marker_exact strncmp_eq
short_marker = refl

built : build_name 64 (bytes "/r/.l2s") 12 (some 5) ≡ some (bytes "/r/.l2s/.l2s.12.0005")
unfolding build_name
built = refl

no_room : build_name 16 (bytes "/r/.l2s") 12 (some 5) ≡ none
unfolding build_name
no_room = refl

name_behind : basename (bytes "/r/.l2s/.l2s.12") ≡ bytes ".l2s.12"
unfolding basename
name_behind = refl

parse_marker_exact-names_example :
    (parse_marker_exact (bytes ".l2s.12.0005") ≡ some (12, 5))
    ↔ ((12 ≤ u64_max) × (5 ≤ u64_max) × (bytes ".l2s.12.0005" ≡ marker_name 12 5))
parse_marker_exact-names_example = parse_marker_exact-names (bytes ".l2s.12.0005") 12 5

build_name_example :
    build_name 32 (bytes "/r/.l2s") 12 (some 5) ≡ fit (full_name (bytes "/r/.l2s") 12 (some 5)) 32
build_name_example = build_name_lem 32 12 (bytes "/r/.l2s") (some 5) (omega arith)

hidden-names_example : (hidden (bytes ".l2s.007") ≡ true) ↔ IsBacking (bytes ".l2s.007")
hidden-names_example = hidden-names (bytes ".l2s.007")

l2s_canonical-IsCanonical_example :
    (l2s_canonical (bytes "/r/a") ≡ true)
    ↔ (IsCanonical (bytes "/r/a") × (bytes "/r/a" ≢ slash ∷ []))
l2s_canonical-IsCanonical_example = l2s_canonical-IsCanonical (bytes "/r/a")

abbrev listing : List (List Bytes)
listing = (bytes "." ∷ bytes ".l2s.12" ∷ []) ∷ (bytes ".l2s.12.5" ∷ bytes ".l2s.12.0003" ∷ []) ∷ []

listed_count : find_marker 12 listing ≡ some 3
unfolding find_marker strncmp_eq
listed_count = refl

find_marker_example :
    (find_marker 12 listing ≡ some 3 → Listed (marker_name 12 3) listing)
    × (Listed (marker_name 12 3) listing → find_marker 12 listing ≢ none)
find_marker_example = find_marker_lem 12 3 listing (omega arith) (omega arith)

abbrev guest : Fs
guest = record { rootfs = bytes "/r"; rlen = 2; binds = []; has_ro = false; cwd = bytes "/" }

abbrev zones : Zones
zones = record { no_proc = true; no_dev = true; shm_host = []; pts_host = []; has_pid = λ p. false }

-- A rootfs that was moved from /old to /r, with the data files still in its store.
abbrev world : World
world = record {
  zones = zones;
  view = some guest;
  home = none;
  is_data_at = λ p. strncmp_eq p (bytes "/r/.l2s/.l2s.12") 16;
  is_store_at = λ p. true;
}

healed :
    locate world (bytes "/r/bin/tool") (bytes "/old/.l2s/.l2s.12") 4096
    ≡ ours (bytes "/r/.l2s/.l2s.12") true
unfolding locate strncmp_eq untranslate longest host_under
healed = refl

locate-Followed_example :
    Followed world
      (bytes "/r/bin/tool")
      (bytes "/old/.l2s/.l2s.12")
      4096
      (bytes "/r/.l2s/.l2s.12")
      true
locate-Followed_example =
    locate-Followed world (bytes "/r/bin/tool") (bytes "/old/.l2s/.l2s.12") 4096
      (bytes "/r/.l2s/.l2s.12") true healed

data_built : build_name 64 (bytes "/r/.l2s") 12 none ≡ some (bytes "/r/.l2s/.l2s.12")
unfolding build_name
data_built = refl

data_canonical : l2s_canonical (bytes "/r/.l2s/.l2s.12") ≡ true
unfolding l2s_canonical
data_canonical = refl

data_owned : owned world (bytes "/r/.l2s/.l2s.12") ≡ true
unfolding owned strncmp_eq untranslate longest host_under
data_owned = refl

data_there : world.is_data_at (bytes "/r/.l2s/.l2s.12") ≡ true
unfolding strncmp_eq
data_there = refl

locate-build_name_example :
    locate world (bytes "/r/bin/tool") (bytes "/r/.l2s/.l2s.12") 4096
    ≡ ours (bytes "/r/.l2s/.l2s.12") false
locate-build_name_example =
    locate-build_name world (bytes "/r/bin/tool") (bytes "/r/.l2s") (bytes "/r/.l2s/.l2s.12") 4096
      64 12 (omega arith) (omega arith) data_built data_canonical data_owned data_there
      (omega arith)

store_denied : deny (some guest) false (bytes "/x/../.l2s/y") ≡ true
unfolding deny strncmp_eq abscanon path_canon
store_denied = refl

named : host_dir_guest zones guest (bytes "/r/home") 4096 ≡ some (bytes "/home")
unfolding host_dir_guest strncmp_eq untranslate longest host_under
named = refl

counted : count_of (λ d. listing) (bytes "/r/.l2s/.l2s.12") (some 12) ≡ 3
unfolding count_of strncmp_eq
counted = refl
