-- ===== src/Path/Invariant.antt =====
-- What holds of every view that src/path/path.c builds: `cng_fs_init`, `cng_fs_add_bind`,
-- `cng_fs_chroot` and `cng_fs_set_cwd`.
use mathlib.Core.Path.{subst}
use fake_chroot_ng.Prelude.{
  ℕ, suc, ◌≤◌, ◌<◌, ◌≡◌, refl, sym, ap, ◌∙◌, inl, inr, Bool, true, false, ◌||◌, Option, none, some,
  List, [], ◌∷◌, ◌++◌, arith, leb, ◌==◌, length, length-append, any, All, Bool-cases, Option-cases,
  if◌then◌else◌,
}
use fake_chroot_ng.Bytes.{Bytes, byte_at}
use fake_chroot_ng.Path.{slash, path_max, path_canon}
use fake_chroot_ng.Path.View.{Bind, Fs}
use fake_chroot_ng.Path.Canon.{OnSome}
use fake_chroot_ng.Path.Change.{
  max_binds, canon_host_root, fs_init, bind_measure, add_bind, rebase, rebase_binds, keep_bind,
  is_root, or_slash, add_canon, add_measured, chroot_to, chroot, set_cwd,
}
use fake_chroot_ng.Path.Held.{
  IsHeld, IsBind, IsView, root-IsHeld, path_canon-IsHeld, measure-IsBind, IsRoot, rebase-IsHeld,
  length-normalize_root, length-canon_host_root,
}

-- How a view comes about: set up, given binds, and changed by chroot and chdir.
pub data Built (real : Bytes → Option Bytes) : Fs → Type 0 where
  started : (root : Bytes) → Built real (fs_init real root).0
  bound :
      (fs fs' : Fs) (guest host : Bytes) (ro : Bool)
      → Built real fs
      → add_bind real fs guest host ro ≡ some fs'
      → Built real fs'
  rooted :
      (fs : Fs) (guest_root host_root : Bytes)
      → Built real fs
      → Built real (chroot fs guest_root host_root)
  moved : (fs : Fs) (guest_cwd : Bytes) → Built real fs → Built real (set_cwd fs guest_cwd)

init-IsView : (real : Bytes → Option Bytes) (root : Bytes) → IsView (fs_init real root).0
unfolding fs_init
init-IsView real root = record {
  root_len = refl;
  root_short = length-canon_host_root real root;
  each_bind = tt;
  few_binds = omega arith;
  ro_cached = refl;
  cwd_held = root-IsHeld path_max (omega arith);
}

All-snoc : (P : Bind → Type 0) (bs : List Bind) (b : Bind) → All P bs → P b → All P (bs ++ b ∷ [])
All-snoc P [] b a p = (p, tt)
All-snoc P (c ∷ bs) b a p = (a.0, All-snoc P bs b a.1 p)

any-snoc : (f : Bind → Bool) (bs : List Bind) (b : Bind) → any f (bs ++ b ∷ []) ≡ (f b || any f bs)
any-snoc f [] b = refl
any-snoc f (c ∷ bs) b = ap (λ t. f c || t) (any-snoc f bs b) ∙ or_swap (f c) (f b) (any f bs)
  where
    or_swap : (x y z : Bool) → (x || (y || z)) ≡ (y || (x || z))
    or_swap true true z = refl
    or_swap true false z = refl
    or_swap false true z = refl
    or_swap false false z = refl

add_bind-IsView :
    (real : Bytes → Option Bytes) (fs : Fs) (guest host : Bytes) (ro : Bool)
    → IsView fs
    → OnSome IsView (add_bind real fs guest host ro)
unfolding add_bind add_canon add_measured
add_bind-IsView real fs guest host ro v = elim (Bool-cases (leb max_binds (length fs.binds))) [
  | inl e ↦ rw e tt
  | inr e ↦ elim (Bool-cases (byte_at guest 0 == slash)) [
    | inr s ↦ rw (e, s) tt
    | inl s ↦ elim (Option-cases (path_canon guest path_max)) [
      | inl n ↦ rw (e, s, n) tt
      | inr (q, m) ↦ elim (Bool-cases (leb 256 (length q))) [
        | inl l ↦ rw (e, s, m, l) tt
        | inr l ↦ elim (Bool-cases (canon_host_root real host 512).1) [
          | inr f ↦ rw (e, s, m, l, f) tt
          | inl f ↦
              rw (e, s, m, l, f)
                (grown q (path_canon-IsHeld guest q m) (ground arith) (ground arith))
        ]
      ]
    ]
  ]
]
  where
    b : Bytes → Bind
    b q = bind_measure q (canon_host_root real host 512).0 ro

    grown :
        (q : Bytes)
        → IsHeld path_max q
        → length q < 256
        → length fs.binds < max_binds
        → IsView (record fs { binds = fs.binds ++ b q ∷ []; has_ro = ro || fs.has_ro })
    grown q a l few = record {
      root_len = v.root_len;
      root_short = v.root_short;
      each_bind = All-snoc IsBind fs.binds (b q) v.each_bind (
          measure-IsBind q _ ro record { canonical = a.canonical; short = l }
            (length-canon_host_root real host));
      few_binds = omega (arith, length-append fs.binds (b q ∷ []), few);
      ro_cached = ap (λ t. ro || t) v.ro_cached ∙ sym (any-snoc (λ b. b.ro) fs.binds (b q));
      cwd_held = v.cwd_held;
    }

set_cwd-IsView : (fs : Fs) (guest_cwd : Bytes) → IsView fs → IsView (set_cwd fs guest_cwd)
unfolding set_cwd
set_cwd-IsView fs guest_cwd v = elim (Bool-cases (byte_at guest_cwd 0 == slash)) [
  | inr e ↦ rw e v
  | inl e ↦ elim (Option-cases (path_canon guest_cwd path_max)) [
    | inl n ↦ rw (e, n) v
    | inr (q, m) ↦
        rw (e, m)
          record {
            root_len = v.root_len;
            root_short = v.root_short;
            each_bind = v.each_bind;
            few_binds = v.few_binds;
            ro_cached = v.ro_cached;
            cwd_held = path_canon-IsHeld guest_cwd q m;
          }
  ]
]

rebase_binds-IsBind :
    (root : Bytes) (rlen : ℕ) (bs : List Bind)
    → IsRoot root rlen
    → All IsBind bs
    → All IsBind (rebase_binds root rlen bs)
unfolding rebase_binds keep_bind
rebase_binds-IsBind root rlen [] r a = tt
rebase_binds-IsBind root rlen (b ∷ bs) r a =
    keep (rebase 256 b.guest root rlen)
      (rebase-IsHeld 256 b.guest root rlen (omega arith) r a.0.guest_held)
      (rebase_binds-IsBind root rlen bs r a.1)
  where
    keep :
        (o : Option Bytes)
        → OnSome (IsHeld 256) o
        → All IsBind (rebase_binds root rlen bs)
        → All IsBind (keep_bind b o (rebase_binds root rlen bs))
    keep none k rest = rest
    keep (some g) k rest = elim (Bool-cases (is_root g)) [
      | inl e ↦ rw e rest
      | inr e ↦ rw e (measure-IsBind g b.host b.ro k a.0.host_short, rest)
    ]

length-rebase_binds :
    (root : Bytes) (rlen : ℕ) (bs : List Bind) → length (rebase_binds root rlen bs) ≤ length bs
unfolding rebase_binds keep_bind
length-rebase_binds root rlen [] = omega arith
length-rebase_binds root rlen (b ∷ bs) =
    keep (rebase 256 b.guest root rlen) (length-rebase_binds root rlen bs)
  where
    keep :
        (o : Option Bytes)
        → length (rebase_binds root rlen bs) ≤ length bs
        → length (keep_bind b o (rebase_binds root rlen bs)) ≤ suc (length bs)
    keep none h = omega arith
    keep (some g) h = ground arith

chroot_to-IsView :
    (fs : Fs) (root host_root : Bytes) (rlen : ℕ)
    → IsRoot root rlen
    → IsView fs
    → IsView (chroot_to fs root rlen host_root)
unfolding chroot_to or_slash
chroot_to-IsView fs root host_root rlen r v = record {
  root_len = refl;
  root_short = length-normalize_root host_root;
  each_bind = rebase_binds-IsBind root rlen fs.binds r v.each_bind;
  few_binds = omega (arith, length-rebase_binds root rlen fs.binds, v.few_binds);
  ro_cached = refl;
  cwd_held =
      held (rebase path_max fs.cwd root rlen)
        (rebase-IsHeld path_max fs.cwd root rlen (omega arith) r v.cwd_held);
}
  where
    held : (o : Option Bytes) → OnSome (IsHeld path_max) o → IsHeld path_max (or_slash o)
    held none k = root-IsHeld path_max (omega arith)
    held (some q) k = k

chroot-IsView :
    (fs : Fs) (guest_root host_root : Bytes) → IsView fs → IsView (chroot fs guest_root host_root)
unfolding chroot
chroot-IsView fs guest_root host_root v = elim (Option-cases (path_canon guest_root path_max)) [
  | inl n ↦ rw n v
  | inr (q, m) ↦
      rw m (chroot_to-IsView fs q host_root _ (new_root q (path_canon-IsHeld guest_root q m)) v)
]
  where
    new_root : (q : Bytes) → IsHeld path_max q → IsRoot q (if length q == 1 then 0 else length q)
    new_root q a = elim (Bool-cases (length q == 1)) [
      | inl e ↦ rw e (inl refl)
      | inr e ↦ rw e (inr (refl, a.canonical))
    ]

-- However a view was set up, given binds and changed by chroot and chdir, its cached lengths,
-- bases and read-only flag are those of its paths, it has at most 64 binds, every guest path and
-- the working directory are canonical, and all fit the buffers that hold them.
pub Built-IsView : (real : Bytes → Option Bytes) (fs : Fs) → Built real fs → IsView fs
Built-IsView real _ (started root) = init-IsView real root
Built-IsView real _ (bound old fs guest host ro b e) =
    subst (OnSome IsView) e (add_bind-IsView real old guest host ro (Built-IsView real old b))
Built-IsView real _ (rooted old guest_root host_root b) =
    chroot-IsView old guest_root host_root (Built-IsView real old b)
Built-IsView real _ (moved old guest_cwd b) = set_cwd-IsView old guest_cwd (Built-IsView real old b)
