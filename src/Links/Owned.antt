-- ===== src/Links/Owned.antt =====
-- src/monitor/l2s.c: what `l2s_owned` takes for a place of the guest's own, and where the store is.
use mathlib.Core.Option.{some-injective}
use fake_chroot_ng.Prelude.{
  ℕ, zero, suc, ◌+◌, ◌≡◌, ◌⊎◌, refl, sym, ap, ◌∙◌, inl, inr, true, false, not, ◌&&◌, ◌||◌,
  if◌then◌else◌, ltb, leb, split_if, Option, none, some, List, [], ◌∷◌, ◌++◌, arith, ◌==◌, length,
  take, drop, get_elem?, Bool-cases,
}
use fake_chroot_ng.Bytes.{Bytes, bytes, strncmp_eq}
use fake_chroot_ng.Path.{path_max}
use fake_chroot_ng.Path.View.{
  Bind, Fs, Zones, Mount, host_under, host_matches, guest_of, untranslate, translate_mnt, dev_nodes,
  under,
}
use fake_chroot_ng.Path.Choice.{Chosen, this, longest-Chosen}
use fake_chroot_ng.Path.Mounts.{IsUnder, at_boundary-IsBehind}
use fake_chroot_ng.Links.{strcmp_eq, is_some}
use fake_chroot_ng.Links.Names.{strcmp_eq-equal}
use fake_chroot_ng.Links.Place.{
  World, goes_back, dev_path, dev_dir, zone_dir, host_dir_guest, owned, named_at_home, store_under,
  store_dir,
}

-- A host path is the first `len` bytes of a prefix or lies under them; the empty prefix is the root.
abbrev pub IsOver : Bytes → Bytes → ℕ → Type 0
IsOver p pfx len = (len ≡ 0) ⊎ IsUnder (take len pfx) p

-- The host path is in the rootfs or in what a bind shows.
abbrev pub InView : Fs → Bytes → Type 0
InView fs p =
    IsOver p fs.rootfs fs.rlen
    ⊎ ((i : ℕ) × (b : Bind) × (get_elem? fs.binds i ≡ some b) × IsOver p b.host b.hlen)

-- A place of the guest's own: the view, or the one that the program was started with, shows it, or
-- some guest path is translated to it.
pub data GuestPlace (w : World) (p : Bytes) : Type 0 where
  no_view : w.view ≡ none → GuestPlace w p
  in_view : (fs : Fs) → w.view ≡ some fs → InView fs p → GuestPlace w p
  in_zone :
      (fs : Fs) (guest : Bytes) (m : Mount)
      → w.view ≡ some fs
      → translate_mnt w.zones fs guest path_max ≡ some (p, m)
      → GuestPlace w p
  at_home : (home : Fs) → w.home ≡ some home → InView home p → GuestPlace w p

strncmp_eq-take : (s pfx : Bytes) (n : ℕ) → strncmp_eq s pfx n ≡ true → s ≡ take n pfx ++ drop n s
unfolding strncmp_eq
strncmp_eq-take s pfx zero e = refl
strncmp_eq-take [] [] (suc n) e = refl
strncmp_eq-take [] (y ∷ pfx) (suc n) e = cc
strncmp_eq-take (x ∷ s) [] (suc n) e = cc
strncmp_eq-take (x ∷ s) (y ∷ pfx) (suc n) e = ground (arith, strncmp_eq-take s pfx n)

host_under-IsOver : (p pfx : Bytes) (len : ℕ) → host_under p pfx len ≡ true → IsOver p pfx len
unfolding host_under
host_under-IsOver p pfx len e = elim (Bool-cases (len == 0)) [
  | inl z ↦ inl (ground (arith, z))
  | inr z ↦ inr (
    drop len p,
    strncmp_eq-take p pfx len (ground (arith, z, e)),
    at_boundary-IsBehind (drop len p) (ground (arith, z, e)),
  )
]

guest_of-InView :
    (fs : Fs) (p out : Bytes) (sz k : ℕ) (o : Option (ℕ × Bind))
    → Chosen (host_matches p) (λ b. b.hlen) fs.binds k o
    → guest_of fs p sz o ≡ some out
    → InView fs p
unfolding guest_of
guest_of-InView fs p out sz k none c e = elim (Bool-cases (host_under p fs.rootfs fs.rlen)) [
  | inl u ↦ inl (host_under-IsOver p fs.rootfs fs.rlen u)
  | inr u ↦ absurd (ground (arith, u, e))
]
guest_of-InView fs p out sz k (some (i, b)) (this j c at m l n) e =
    inr (i, b, at, host_under-IsOver p b.host b.hlen m)

untranslate-InView :
    (fs : Fs) (p out : Bytes) (sz : ℕ) → untranslate fs p sz ≡ some out → InView fs p
unfolding untranslate
untranslate-InView fs p out sz e =
    guest_of-InView fs p out sz _ _ (longest-Chosen (host_matches p) (λ b. b.hlen) fs.binds _) e

-- A guest path is translated to this one.
abbrev IsShown : Zones → Fs → Bytes → Type 0
IsShown z fs p = (guest : Bytes) × (m : Mount) × (translate_mnt z fs guest path_max ≡ some (p, m))

goes_back-IsShown :
    (z : Zones) (fs : Fs) (gdir p : Bytes) → goes_back z fs gdir p ≡ true → IsShown z fs p
unfolding goes_back
goes_back-IsShown z fs gdir p = by_answer (translate_mnt z fs gdir path_max) refl
  where
    by_answer :
        (o : Option (Bytes × Mount))
        → translate_mnt z fs gdir path_max ≡ o
        → (elim o [ none ↦ false | some (back, m) ↦ strcmp_eq back p ]) ≡ true
        → IsShown z fs p
    by_answer none t e = cc
    by_answer (some (back, m)) t e = (gdir, m, t ∙ ap (λ b. some (b, m)) (strcmp_eq-equal back p e))

dev_dir-IsShown :
    (z : Zones) (fs : Fs) (p : Bytes) (sz : ℕ) (nodes : List (Bytes × Bytes)) (out : Bytes)
    → dev_dir z fs p sz nodes ≡ some out
    → IsShown z fs p
unfolding dev_dir
dev_dir-IsShown z fs p sz [] out e = cc
dev_dir-IsShown z fs p sz ((name, h) ∷ nodes) out e =
    split_if (λ o. o ≡ some out → IsShown z fs p) (length h == 0 || not (under p h (length h)))
      (dev_dir z fs p sz nodes) (named (dev_path name (drop (length h) p) sz))
      (λ t. dev_dir-IsShown z fs p sz nodes out)
      (λ f. by_name (dev_path name (drop (length h) p) sz) (dev_dir-IsShown z fs p sz nodes out)) e
  where
    named : Option Bytes → Option Bytes
    named o = elim o [
      | none ↦ none
      | some gdir ↦ if goes_back z fs gdir p then some gdir else dev_dir z fs p sz nodes
    ]

    by_name :
        (o : Option Bytes)
        → (dev_dir z fs p sz nodes ≡ some out → IsShown z fs p)
        → named o ≡ some out
        → IsShown z fs p
    by_name none others q = cc
    by_name (some gdir) others q =
        split_if (λ o. o ≡ some out → IsShown z fs p) (goes_back z fs gdir p) (some gdir)
          (dev_dir z fs p sz nodes) (λ t _. goes_back-IsShown z fs gdir p t) (λ f. others) q

zone_dir-IsShown :
    (z : Zones) (fs : Fs) (p : Bytes) (sz : ℕ) (out : Bytes)
    → zone_dir z fs p sz ≡ some out
    → IsShown z fs p
unfolding zone_dir
zone_dir-IsShown z fs p sz out e =
    split_if (λ o. o ≡ some out → IsShown z fs p)
      (not z.no_proc && under p (bytes "/proc") 5 && (ltb (length p) sz && goes_back z fs p p))
      (some p) (if z.no_dev then none else dev_dir z fs p sz (dev_nodes z))
      (λ t _. goes_back-IsShown z fs p p (ground (arith, t)))
      (λ f.
        split_if (λ o. o ≡ some out → IsShown z fs p) z.no_dev none
          (dev_dir z fs p sz (dev_nodes z)) (λ t q. absurd (cc))
          (λ g. dev_dir-IsShown z fs p sz (dev_nodes z) out))
      e

host_dir_guest-place :
    (z : Zones) (fs : Fs) (p : Bytes) (sz : ℕ)
    → is_some (host_dir_guest z fs p sz) ≡ true
    → InView fs p ⊎ IsShown z fs p
unfolding host_dir_guest
host_dir_guest-place z fs p sz = by_view (untranslate fs p sz) refl
  where
    by_zone : (o : Option Bytes) → zone_dir z fs p sz ≡ o → is_some o ≡ true → IsShown z fs p
    by_zone none q e = cc
    by_zone (some out) q e = zone_dir-IsShown z fs p sz out q

    by_view :
        (o : Option Bytes)
        → untranslate fs p sz ≡ o
        → is_some (elim o [ some gdir ↦ some gdir | none ↦ zone_dir z fs p sz ]) ≡ true
        → InView fs p ⊎ IsShown z fs p
    by_view (some g) q e = inl (untranslate-InView fs p g sz q)
    by_view none q e = inr (by_zone (zone_dir z fs p sz) refl e)

home-InView :
    (o : Option Fs) (p : Bytes)
    → named_at_home o p ≡ true
    → (home : Fs) × (o ≡ some home) × InView home p
home-InView none p e = cc
home-InView (some home) p e = (home, refl, by_name (untranslate home p path_max) refl e)
  where
    by_name :
        (o : Option Bytes) → untranslate home p path_max ≡ o → is_some o ≡ true → InView home p
    by_name none q e = cc
    by_name (some g) q e = untranslate-InView home p g path_max q

pub owned-GuestPlace : (w : World) (p : Bytes) → owned w p ≡ true → GuestPlace w p
unfolding owned
owned-GuestPlace w p = by_view w.view refl
  where
    by_view :
        (o : Option Fs)
        → w.view ≡ o
        → (elim o [
          | none ↦ true
          | some fs ↦ is_some (host_dir_guest w.zones fs p path_max) || named_at_home w.home p
        ])
          ≡ true
        → GuestPlace w p
    by_view none q e = no_view q
    by_view (some fs) q e = elim (Bool-cases (is_some (host_dir_guest w.zones fs p path_max))) [
      | inl d ↦ elim (host_dir_guest-place w.zones fs p path_max d) [
        | inl v ↦ in_view fs q v
        | inr (guest, m, t) ↦ in_zone fs guest m q t
      ]
      | inr d ↦ let k = home-InView w.home p (ground (arith, d, e)) in at_home k.0 k.1 k.2
    ]

-- The rootfs of the view; with no view, the host's.
abbrev pub root_of : Option Fs → Bytes
root_of none = []
root_of (some fs) = fs.rootfs

store_under-some :
    (w : World) (root store : Bytes) (sz : ℕ)
    → store_under w root sz ≡ some store
    → (store ≡ root ++ bytes "/.l2s") × (w.is_store_at store ≡ true)
store_under-some w root store sz =
    let there = root ++ bytes "/.l2s" in
    let Goal =
      λ (o : Option Bytes). o ≡ some store → (store ≡ there) × (w.is_store_at store ≡ true) in
    split_if Goal (leb sz (length root + 6)) none (if w.is_store_at there then some there else none)
      (λ t q. cc)
      λ f.
        split_if Goal (w.is_store_at there) (some there) none
          (λ t q. let k = some-injective there store q in (sym k, ap w.is_store_at (sym k) ∙ t))
          λ g q. cc

pub store_dir-some :
    (w : World) (store : Bytes) (sz : ℕ)
    → store_dir w sz ≡ some store
    → (store ≡ root_of w.view ++ bytes "/.l2s") × (w.is_store_at store ≡ true)
unfolding store_dir
store_dir-some w store sz = by_view w.view
  where
    by_view :
        (o : Option Fs)
        → (elim o [ none ↦ store_under w [] sz | some fs ↦ store_under w fs.rootfs sz ])
          ≡ some store
        → (store ≡ root_of o ++ bytes "/.l2s") × (w.is_store_at store ≡ true)
    by_view none = store_under-some w [] store sz
    by_view (some fs) = store_under-some w fs.rootfs store sz
