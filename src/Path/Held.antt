-- ===== src/Path/Held.antt =====
-- What the buffers of a view of src/path/path.c hold: a root, a bind, a rebased path.
use mathlib.Core.Path.{subst}
use fake_chroot_ng.Prelude.{
  ℕ, ◌-◌, ◌≤◌, ◌<◌, ◌≡◌, refl, sym, ap, ◌∙◌, ◌⊎◌, inl, inr, Bool, true, Option, some, [], ◌∷◌, ◌++◌,
  reverse, arith, leb, ◌==◌, length, drop, length-append, any, All, Bool-cases, if◌then◌else◌,
}
use fake_chroot_ng.Bytes.{Bytes, strncmp_eq, cut}
use fake_chroot_ng.Bytes.Prefix.{strncmp_eq-prefix, take_all}
use fake_chroot_ng.Path.{slash, path_max, path_canon}
use fake_chroot_ng.Path.View.{Bind, Fs, under, at_boundary, is_end}
use fake_chroot_ng.Path.Fields.{length-reverse}
use fake_chroot_ng.Path.Canon.{OnSome}
use fake_chroot_ng.Path.Canonical.{
  IsCanonical, path_canon-IsCanonical, path_canon-fits, suffix-IsCanonical,
}
use fake_chroot_ng.Path.Change.{
  max_binds, trim_slashes, root_to_empty, normalize_root, canon_host_root, bind_measure, rebase,
}

-- A canonical path that a buffer of `n` bytes holds.
pub record IsHeld (n : ℕ) (p : Bytes) : Type 0 where
  pub canonical : IsCanonical p
  pub short : length p < n

-- A bind with the lengths and the base of its own paths, both of which its buffers hold.
pub record IsBind (b : Bind) : Type 0 where
  pub guest_held : IsHeld 256 b.guest
  pub host_short : length b.host < 512
  pub measured : b ≡ bind_measure b.guest b.host b.ro

-- The view's caches are those of its fields, and what it holds is canonical and fits.
pub record IsView (fs : Fs) : Type 0 where
  pub root_len : fs.rlen ≡ length fs.rootfs
  pub root_short : length fs.rootfs < 512
  pub each_bind : All IsBind fs.binds
  pub few_binds : length fs.binds ≤ max_binds
  pub ro_cached : fs.has_ro ≡ any (λ b. b.ro) fs.binds
  pub cwd_held : IsHeld path_max fs.cwd

length-trim_slashes : (p : Bytes) → length (trim_slashes p) ≤ length p
unfolding trim_slashes
length-trim_slashes [] = omega arith
length-trim_slashes (x ∷ []) = omega arith
length-trim_slashes (x ∷ y ∷ p) = ground (arith, length-trim_slashes (y ∷ p))

length-root_to_empty : (p : Bytes) → length (root_to_empty p) ≤ length p
length-root_to_empty [] = omega arith
length-root_to_empty (x ∷ []) = ground arith
length-root_to_empty (x ∷ y ∷ p) = omega arith

pub length-normalize_root : (src : Bytes) → length (normalize_root src 512).0 < 512
unfolding normalize_root
length-normalize_root src = elim (Bool-cases (leb 512 (length src))) [
  | inl e ↦ rw e (omega arith)
  | inr e ↦ rw e (
      ground (
        arith,
        length-root_to_empty (reverse (trim_slashes (reverse src))),
        length-reverse (trim_slashes (reverse src)),
        length-trim_slashes (reverse src),
        length-reverse src,
      ))
]

pub length-canon_host_root :
    (real : Bytes → Option Bytes) (src : Bytes) → length (canon_host_root real src 512).0 < 512
unfolding canon_host_root
length-canon_host_root real src = length-normalize_root _

pub root-IsHeld : (n : ℕ) → 2 ≤ n → IsHeld n (slash ∷ [])
root-IsHeld n h = record {
  canonical = record { rest = []; spelled = refl; names = inl refl };
  short = omega arith;
}

pub path_canon-IsHeld : (p q : Bytes) → path_canon p path_max ≡ some q → IsHeld path_max q
path_canon-IsHeld p q e = record {
  canonical = path_canon-IsCanonical p q path_max e;
  short = path_canon-fits p q path_max (omega arith) e;
}

pub measure-IsBind :
    (g h : Bytes) (ro : Bool) → IsHeld 256 g → length h < 512 → IsBind (bind_measure g h ro)
unfolding bind_measure
measure-IsBind g h ro a l = record { guest_held = a; host_short = l; measured = refl }

-- A new root: none at all, or a canonical path with its length.
abbrev pub IsRoot : Bytes → ℕ → Type 0
IsRoot root rlen = (rlen ≡ 0) ⊎ ((rlen ≡ length root) × IsCanonical root)

rest-IsHeld :
    (n : ℕ) (root rest : Bytes)
    → 2 ≤ n
    → IsCanonical root
    → at_boundary rest ≡ true
    → IsHeld n (root ++ rest)
    → IsHeld n (cut (if is_end rest then slash ∷ [] else rest) n)
rest-IsHeld n root [] h c e a = rw (take_all (n - 1) (slash ∷ []) (omega arith)) (root-IsHeld n h)
rest-IsHeld n root (x ∷ rest) h c e a =
    rw (take_all (n - 1) (x ∷ rest) (omega (arith, shorter)))
      record { canonical = under_root; short = shorter }
  where
    shorter : length (x ∷ rest) < n
    shorter = omega (arith, a.short, length-append root (x ∷ rest))

    is_slash : x ≡ slash
    is_slash = ground arith

    under_root : IsCanonical (x ∷ rest)
    under_root = rw is_slash (
        suffix-IsCanonical root rest c
          (subst (λ y. IsCanonical (root ++ y ∷ rest)) is_slash a.canonical))

pub rebase-IsHeld :
    (n : ℕ) (p root : Bytes) (rlen : ℕ)
    → 2 ≤ n
    → IsRoot root rlen
    → IsHeld n p
    → OnSome (IsHeld n) (rebase n p root rlen)
unfolding rebase
rebase-IsHeld n p root rlen h r a = elim (Bool-cases (rlen == 0)) [
  | inl k ↦ rw (k, take_all (n - 1) p (omega (arith, a.short))) a
  | inr k ↦ elim (Bool-cases (under p root rlen)) [
    | inr u ↦ rw (k, u) tt
    | inl u ↦ rw (k, u) (elim r [ inl z ↦ absurd (ground arith) | inr (z, c) ↦ below z c u ])
  ]
]
  where
    below :
        rlen ≡ length root
        → IsCanonical root
        → under p root rlen ≡ true
        → IsHeld n (cut (if is_end (drop rlen p) then slash ∷ [] else drop rlen p) n)
    below z c u = rest-IsHeld n root (drop rlen p) h c (ground arith) (
        subst (IsHeld n)
          (strncmp_eq-prefix p root (starts u z) ∙ ap (λ k. root ++ drop k p) (sym z)) a)
      where
        starts :
            under p root rlen ≡ true → rlen ≡ length root → strncmp_eq p root (length root) ≡ true
        starts u z = rw (sym z) (ground arith)
