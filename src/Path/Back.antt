-- ===== src/Path/Back.antt =====
-- Guest paths that a bind translates, back through `untranslate_1` of src/path/path.c.
use mathlib.Core.List.{cons-ne-nil}
use mathlib.Core.Option.{some-injective}
use mathlib.Core.Path.{subst}
use fake_chroot_ng.Prelude.{
  ℕ, ◌<◌, ◌≡◌, ◌≢◌, refl, sym, ap, ◌∙◌, false, Option, none, some, [], ◌++◌, length, drop,
}
use fake_chroot_ng.Bytes.{Bytes}
use fake_chroot_ng.Bytes.Prefix.{fit_join-some}
use fake_chroot_ng.Path.{slash, path_max, wants_dir}
use fake_chroot_ng.Path.View.{
  Bind, Fs, Zones, Mount, bind, mount_of, fill, host_proc_hidden, finish_path, with_mount,
  canon_option, translate_canon, translate_mnt, abscanon, untranslate,
}
use fake_chroot_ng.Path.Canonical.{path_canon-IsCanonical}
use fake_chroot_ng.Path.Held.{IsView}
use fake_chroot_ng.Path.Mounts.{Answers, mount_of-Answers}
use fake_chroot_ng.Path.RoundTrip.{OnlyLongest, untranslate-bind}

-- No trailing slash is put back and no pid is hidden: the path stays as it was filled.
finish_path-plain :
    (z : Zones) (path plain : Bytes) (size : ℕ)
    → wants_dir path ≡ false
    → host_proc_hidden z plain ≡ false
    → finish_path z path size (some plain) ≡ some plain
unfolding finish_path
finish_path-plain z path plain size w h = rw (h, w) refl

with_mount-some :
    (m k : Mount) (o : Option Bytes) (host : Bytes)
    → with_mount m o ≡ some (host, k)
    → (o ≡ some host) × (m ≡ k)
unfolding with_mount
with_mount-some m k none host e = absurd (cc)
with_mount-some m k (some out) host e =
    let q = some-injective (out, m) (host, k) e in
    (ap (λ (x : Bytes × Mount). some x.0) q, ap (λ (x : Bytes × Mount). x.1) q)

filled :
    (z : Zones) (fs : Fs) (b : Bind) (i : ℕ) (path canon host : Bytes) (size : ℕ) (o : Option Bytes)
    → wants_dir path ≡ false
    → host_proc_hidden z (b.host ++ drop b.glen canon) ≡ false
    → fill fs (bind i b) canon size ≡ o
    → finish_path z path size o ≡ some host
    → o ≡ some host
unfolding fill
filled z fs b i path canon host size none w h f e = unfold finish_path in e
filled z fs b i path canon host size (some plain) w h f e =
    let s = fit_join-some b.host (drop b.glen canon) size plain f in
    sym (
      finish_path-plain z path plain size w (subst (λ x. host_proc_hidden z x ≡ false) (sym s.0) h))
    ∙ e

canon_option-nonempty :
    (o : Option Bytes) (canon : Bytes) (size : ℕ) → canon_option o size ≡ some canon → canon ≢ []
unfolding canon_option
canon_option-nonempty none canon size e = cc
canon_option-nonempty (some p) canon size e =
    let c = path_canon-IsCanonical p canon size e in
    λ n. cons-ne-nil slash c.rest (sym c.spelled ∙ n)

abscanon-nonempty :
    (fs : Fs) (path canon : Bytes) (size : ℕ) → abscanon fs path size ≡ some canon → canon ≢ []
unfolding abscanon
abscanon-nonempty fs path canon size e = canon_option-nonempty _ canon size e

-- A guest path that is translated through a bind comes back, from the host path that the
-- translation answers, as its canonical form: in a view whose caches are right, where of the
-- mounts over the host path the bind is the only longest, by a host path of one byte at least;
-- where the path wants no directory, its host path under the bind names no pid that is hidden, and
-- its canonical form fits the buffer.
pub untranslate-translate_mnt :
    (z : Zones) (fs : Fs) (path canon host : Bytes) (size outsz i : ℕ) (b : Bind)
    → IsView fs
    → abscanon fs path path_max ≡ some canon
    → length canon < outsz
    → wants_dir path ≡ false
    → host_proc_hidden z (b.host ++ drop b.glen canon) ≡ false
    → OnlyLongest fs b host
    → translate_mnt z fs path size ≡ some (host, bind i b)
    → untranslate fs host outsz ≡ some canon
unfolding translate_mnt translate_canon
untranslate-translate_mnt z fs path canon host size outsz i b v a l w h only t =
    let k =
      with_mount-some (mount_of z fs canon) (bind i b)
        (finish_path z path size (fill fs (mount_of z fs canon) canon size)) host
        (sym (ap (translate_canon z fs path size) a) ∙ t) in
    let at : Answers z fs canon (bind i b) =
      subst (Answers z fs canon) k.1 (mount_of-Answers z fs canon) in
    let done : finish_path z path size (fill fs (bind i b) canon size) ≡ some host =
      ap (λ m. finish_path z path size (fill fs m canon size)) (sym k.1) ∙ k.0 in
    untranslate-bind fs canon outsz v (abscanon-nonempty fs path canon path_max a) l i b at.0 at.1
      host size (filled z fs b i path canon host size (fill fs (bind i b) canon size) w h refl done)
      only
