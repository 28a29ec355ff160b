-- ===== src/Path/RoundTrip.antt =====
-- Host paths back to guest paths: `untranslate_1` of src/path/path.c behind the translation.
use mathlib.Core.Path.{subst}
use fake_chroot_ng.Prelude.{
  ℕ, zero, suc, ◌≤◌, ◌<◌, ◌≡◌, ◌≢◌, refl, sym, ap, ◌∙◌, Bool, true, false, ◌||◌, Option, none, some,
  List, [], ◌∷◌, ◌++◌, arith, ◌==◌, length, drop, length-append, get_elem?, All, if◌then◌else◌,
}
use fake_chroot_ng.Bytes.{Bytes, strncmp_eq, fit_join}
use fake_chroot_ng.Bytes.Prefix.{
  strncmp_eq-prefix, strncmp_eq-append, drop-append, fit_join-some, fit_join-fits,
}
use fake_chroot_ng.Path.View.{
  Bind, Fs, bind, rootfs, under, at_boundary, longest, guest_matches, host_matches, host_under,
  fill, root_if_empty, guest_of, untranslate,
}
use fake_chroot_ng.Path.Change.{bind_measure}
use fake_chroot_ng.Path.Choice.{NoneLonger, Chosen, nothing, this, longest-Chosen}
use fake_chroot_ng.Path.Held.{IsBind, IsView}

All-get {ℓ} :
    {A : Type ℓ} (P : A → Type 0) (xs : List A) (i : ℕ) (x : A)
    → All P xs
    → get_elem? xs i ≡ some x
    → P x
All-get P [] i x a e = absurd (cc)
All-get P (y ∷ xs) zero x a e = subst P (some_inj e) a.0
  where
    some_inj : some y ≡ some x → y ≡ x
    some_inj h = cc
All-get P (y ∷ xs) (suc i) x a e = All-get P xs i x a.1 e

root_if_empty-some : (p : Bytes) → p ≢ [] → root_if_empty (some p) ≡ some p
unfolding root_if_empty
root_if_empty-some [] n = absurd (n refl)
root_if_empty-some (x ∷ p) n = refl

-- A prefix and what follows it, from a boundary on, lies under the prefix.
under-append :
    (pfx rest : Bytes) → at_boundary rest ≡ true → under (pfx ++ rest) pfx (length pfx) ≡ true
under-append pfx rest e = rw (strncmp_eq-append pfx rest, drop-append pfx rest) e

host_under-append :
    (pfx rest : Bytes) → at_boundary rest ≡ true → host_under (pfx ++ rest) pfx (length pfx) ≡ true
unfolding host_under
host_under-append pfx rest e = rw (under-append pfx rest e) (or_true (length pfx == 0))
  where
    or_true : (b : Bool) → (b || true) ≡ true
    or_true true = refl
    or_true false = refl

-- Of the mounts over a host path, the bind is the only one that is as long.
abbrev pub OnlyLongest : Fs → Bind → Bytes → Type 0
OnlyLongest fs b host =
    ((if host_under host fs.rootfs fs.rlen then fs.rlen else 0) < b.hlen)
    × All (λ b'. host_matches host b' ≡ true → b.hlen ≤ b'.hlen → b' ≡ b) fs.binds

module _ (fs : Fs) (canon : Bytes) (outsz : ℕ) (v : IsView fs) (n : canon ≢ [])
    (l : length canon < outsz) where
  rootfs-canon :
      at_boundary canon ≡ true
      → NoneLonger (host_matches (fs.rootfs ++ canon)) (λ b. b.hlen) fs.rlen fs.binds
      → untranslate fs (fs.rootfs ++ canon) outsz ≡ some canon
  unfolding untranslate guest_of
  rootfs-canon e h = rw is_under (
      found (longest (host_matches (fs.rootfs ++ canon)) (λ b. b.hlen) fs.binds 0 none fs.rlen)
        (longest-Chosen (host_matches (fs.rootfs ++ canon)) (λ b. b.hlen) fs.binds fs.rlen))
    where
      is_under : host_under (fs.rootfs ++ canon) fs.rootfs fs.rlen ≡ true
      is_under = rw v.root_len (host_under-append fs.rootfs canon e)

      found :
          (o : Option (ℕ × Bind))
          → Chosen (host_matches (fs.rootfs ++ canon)) (λ b. b.hlen) fs.binds fs.rlen o
          → guest_of fs (fs.rootfs ++ canon) outsz o ≡ some canon
      found none c =
          rw
            (
              is_under,
              v.root_len,
              drop-append fs.rootfs canon,
              fit_join-fits [] canon outsz (omega (arith, l)),
            )
            (root_if_empty-some canon n)
      found (some (i, b)) (this j b' g m k o) =
          absurd (omega (arith, k, All-get _ fs.binds i b h g m))

  -- A path that starts with a slash and that is translated by the rootfs comes back from its host
  -- path, in a view whose caches are right, where no bind over the host path is longer than the
  -- rootfs and the path fits the buffer.
  pub untranslate-rootfs :
      (host : Bytes) (size : ℕ)
      → at_boundary canon ≡ true
      → fill fs rootfs canon size ≡ some host
      → NoneLonger (host_matches host) (λ b. b.hlen) fs.rlen fs.binds
      → untranslate fs host outsz ≡ some canon
  unfolding fill
  untranslate-rootfs host size e f h =
      let (s, _) = fit_join-some fs.rootfs canon size host f in
      rw s (
        rootfs-canon e
          (subst (λ q. NoneLonger (host_matches q) (λ b. b.hlen) fs.rlen fs.binds) s h))

  module _ (i : ℕ) (b : Bind) (at : get_elem? fs.binds i ≡ some b)
      (m : guest_matches canon b ≡ true) where
    b-IsBind : IsBind b
    b-IsBind = All-get IsBind fs.binds i b v.each_bind at

    glen_of : b.glen ≡ length b.guest
    unfolding bind_measure
    glen_of = ap (λ c. c.glen) b-IsBind.measured

    hlen_of : b.hlen ≡ length b.host
    unfolding bind_measure
    hlen_of = ap (λ c. c.hlen) b-IsBind.measured

    guest_split : b.guest ++ drop b.glen canon ≡ canon
    guest_split =
        ap (λ k. b.guest ++ drop k canon) glen_of
        ∙ sym (
            strncmp_eq-prefix canon b.guest
              (subst (λ k. strncmp_eq canon b.guest k ≡ true) glen_of (ground arith)))

    bind-canon :
        OnlyLongest fs b (b.host ++ drop b.glen canon)
        → untranslate fs (b.host ++ drop b.glen canon) outsz ≡ some canon
    unfolding untranslate guest_of
    bind-canon (longer, only) =
        found (longest (host_matches host) (λ b. b.hlen) fs.binds 0 none k)
          (longest-Chosen (host_matches host) (λ b. b.hlen) fs.binds k)
      where
        host : Bytes
        host = b.host ++ drop b.glen canon

        k : ℕ
        k = if host_under host fs.rootfs fs.rlen then fs.rlen else 0

        over : host_matches host b ≡ true
        over = rw hlen_of (host_under-append b.host (drop b.glen canon) (ground arith))

        joined : fit_join b.guest (drop b.hlen host) outsz ≡ some canon
        joined =
            rw (hlen_of, drop-append b.host (drop b.glen canon))
              (fit_join-fits b.guest (drop b.glen canon) outsz (
                  omega
                    (arith, l, ap length guest_split, length-append b.guest (drop b.glen canon)))
                ∙ ap some guest_split)

        found :
            (o : Option (ℕ × Bind))
            → Chosen (host_matches host) (λ b. b.hlen) fs.binds k o
            → guest_of fs host outsz o ≡ some canon
        found none (nothing h) = absurd (omega (arith, longer, All-get _ fs.binds i b h at over))
        found (some (i', b')) (this j c g m' lt o) =
            rw (All-get _ fs.binds i' b' only g m' (All-get _ fs.binds i b o at over))
              (ap root_if_empty joined ∙ root_if_empty-some canon n)

    -- A path comes back from the host path that fill joins for a bind that it matches, in a view
    -- whose caches are right, where of the mounts over the host path the bind is the only longest,
    -- by a host path of one byte at least, and the path is not empty and fits the buffer.
    pub untranslate-bind :
        (host : Bytes) (size : ℕ)
        → fill fs (bind i b) canon size ≡ some host
        → OnlyLongest fs b host
        → untranslate fs host outsz ≡ some canon
    unfolding fill
    untranslate-bind host size f h =
        let (s, _) = fit_join-some b.host (drop b.glen canon) size host f in
        rw s (bind-canon (subst (OnlyLongest fs b) s h))
