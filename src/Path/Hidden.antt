-- ===== src/Path/Hidden.antt =====
-- The pids of /proc that `translate_mnt_1` of src/path/path.c shows to the guest.
use mathlib.Core.Path.{subst}
use fake_chroot_ng.Prelude.{
  ℕ, zero, suc, ◌+◌, ◌*◌, ◌-◌, ◌≤◌, ◌<◌, ◌≡◌, ◌≢◌, All, refl, sym, ap, ◌∙◌, ◌⊎◌, inl, inr, true,
  false, not, ◌&&◌, Option, none, some, [], ◌∷◌, ◌++◌, arith, leb, ltb, ◌==◌, ◌!=◌, length, take,
  drop, length-append, Bool-cases, if◌then◌else◌,
}
use fake_chroot_ng.Bytes.{Bytes, bytes, byte_at, strncmp_eq, cut}
use fake_chroot_ng.Bytes.Prefix.{strncmp_eq-append}
use fake_chroot_ng.Path.{slash, path_max, component, wants_dir}
use fake_chroot_ng.Path.Canon.{OnSome}
use fake_chroot_ng.Path.Mounts.{IsBehind, IsBehind-at_boundary}
use fake_chroot_ng.Path.View.{
  Fs, Zones, Mount, at_boundary, pid_of, hidden_pid, host_proc_hidden, hide_proc_pid, last_byte,
  with_slash, finish_path, with_mount, translate_canon, translate_mnt, abscanon, mount_of, fill,
}

-- A decimal digit of a name under /proc.
abbrev pub IsDigit : ℕ → Type 0
IsDigit x = (b'0' ≤ x) × (x ≤ b'9')

-- The decimal number of digits that stand behind those of `pid`, however large.
abbrev pub number_from : ℕ → Bytes → ℕ
number_from pid [] = pid
number_from pid (x ∷ digits) = number_from (pid * 10 + (x - b'0')) digits

-- A host path that is /proc/<pid> or lies under it, for a pid that an int holds: the pid in decimal,
-- and behind it nothing or a slash.
pub record NamesPid (out : Bytes) (p : ℕ) : Type 0 where
  pub digits : Bytes
  pub rest : Bytes
  pub spelled : out ≡ bytes "/proc/" ++ (digits ++ rest)
  pub some_digit : digits ≢ []
  pub all_digits : All IsDigit digits
  pub ends : IsBehind rest
  pub number : p ≡ number_from 0 digits
  pub in_int : p ≤ 0x7fffffff

-- The same, as `host_proc_hidden` reads it.
abbrev Reads : Bytes → ℕ → Type 0
Reads out p =
    (strncmp_eq out (bytes "/proc/") 6 ≡ true)
    × (leb b'0' (byte_at out 6) ≡ true)
    × (leb (byte_at out 6) b'9' ≡ true)
    × (pid_of 0 (drop 6 out) ≡ some p)

-- A pid that may be named: a guest process, or 0, which no process has.
abbrev MayName : Zones → Bytes → Type 0
MayName z out = (p : ℕ) → Reads out p → (z.has_pid p ≡ true) ⊎ (p ≡ 0)

number_from-above : (digits : Bytes) (pid : ℕ) → pid ≤ number_from pid digits
number_from-above [] pid = omega arith
number_from-above (x ∷ digits) pid = omega (arith, number_from-above digits (pid * 10 + (x - b'0')))

-- The loop reads the digits up to the boundary as their number.
pid_of-number_from :
    (digits rest : Bytes) (k : ℕ)
    → All IsDigit digits
    → at_boundary rest ≡ true
    → number_from k digits ≤ 0x7fffffff
    → pid_of k (digits ++ rest) ≡ some (number_from k digits)
unfolding pid_of
pid_of-number_from [] [] k a b h = refl
pid_of-number_from [] (x ∷ rest) k a b h = ground (arith, b)
pid_of-number_from (c ∷ digits) rest k a b h =
    let m = k * 10 + (c - b'0') in
    ground (arith, a.0, number_from-above digits m, pid_of-number_from digits rest m a.1 b h, h)

NamesPid-Reads : (out : Bytes) (p : ℕ) → NamesPid out p → Reads out p
NamesPid-Reads out p n =
    subst (λ o. Reads o p) (sym n.spelled)
      (subst (Reads (bytes "/proc/" ++ (n.digits ++ n.rest))) (sym n.number) (
        read n.digits n.some_digit n.all_digits (
          pid_of-number_from n.digits n.rest 0 n.all_digits (IsBehind-at_boundary n.rest n.ends)
            (omega (arith, n.number, n.in_int)))))
  where
    read :
        (digits : Bytes)
        → digits ≢ []
        → All IsDigit digits
        → pid_of 0 (digits ++ n.rest) ≡ some (number_from 0 digits)
        → Reads (bytes "/proc/" ++ (digits ++ n.rest)) (number_from 0 digits)
    read [] some_digit a e = absurd (some_digit refl)
    read (c ∷ digits) some_digit a e = (
      strncmp_eq-append (bytes "/proc/") (c ∷ (digits ++ n.rest)),
      ground (arith, a.0),
      ground (arith, a.0),
      e,
    )

pid_of-append : (k : ℕ) (p : Bytes) → pid_of k (p ++ slash ∷ []) ≡ pid_of k p
unfolding pid_of
pid_of-append k [] = refl
pid_of-append k (x ∷ p) = rw (pid_of-append (k * 10 + (x - b'0')) p)

byte_at_end : (s : Bytes) (i : ℕ) → length s ≤ i → byte_at s i ≡ 0
byte_at_end [] i h = refl
byte_at_end (x ∷ s) zero h = absurd (omega arith)
byte_at_end (x ∷ s) (suc i) h = byte_at_end s i (omega arith)

byte_at-append : (s t : Bytes) (i : ℕ) → i < length s → byte_at (s ++ t) i ≡ byte_at s i
byte_at-append [] t i h = absurd (omega arith)
byte_at-append (x ∷ s) t zero h = refl
byte_at-append (x ∷ s) t (suc i) h = byte_at-append s t i (omega arith)

drop-append_le : (n : ℕ) (s t : Bytes) → n ≤ length s → drop n (s ++ t) ≡ drop n s ++ t
drop-append_le zero s t h = refl
drop-append_le (suc n) [] t h = absurd (omega arith)
drop-append_le (suc n) (x ∷ s) t h = drop-append_le n s t (omega arith)

strncmp_eq-shorter :
    (s t pfx : Bytes) (n : ℕ)
    → n ≤ length s
    → strncmp_eq (s ++ t) pfx n ≡ true
    → strncmp_eq s pfx n ≡ true
unfolding strncmp_eq
strncmp_eq-shorter s t pfx zero h e = refl
strncmp_eq-shorter [] t pfx (suc n) h e = absurd (omega arith)
strncmp_eq-shorter (x ∷ s) t [] (suc n) h e = e
strncmp_eq-shorter (x ∷ s) t (y ∷ pfx) (suc n) h e = ground (arith, strncmp_eq-shorter s t pfx n)

byte_at_behind : (s : Bytes) (x : ℕ) → byte_at (s ++ x ∷ []) (length s) ≡ x
byte_at_behind [] x = refl
byte_at_behind (y ∷ s) x = byte_at_behind s x

-- A slash behind a path names no other pid.
slash-MayName : (z : Zones) (out : Bytes) → MayName z out → MayName z (out ++ slash ∷ [])
slash-MayName z out h p (e, lo, hi, d) = elim (Bool-cases (leb 7 (length out))) [
  | inr s ↦ absurd (short (ground arith))
  | inl s ↦ h p (
    strncmp_eq-shorter out (slash ∷ []) (bytes "/proc/") 6 (ground arith) e,
    ap (leb b'0') (sym (same (ground arith))) ∙ lo,
    ap (λ x. leb x b'9') (sym (same (ground arith))) ∙ hi,
    sym (pid_of-append 0 (drop 6 out))
        ∙ ap (pid_of 0) (sym (drop-append_le 6 out (slash ∷ []) (ground arith)))
        ∙ d,
  )
]
  where
    same : 6 < length out → byte_at (out ++ slash ∷ []) 6 ≡ byte_at out 6
    same s = byte_at-append out (slash ∷ []) 6 s

    none_there : byte_at (out ++ slash ∷ []) 6 < b'0' → ⊥
    none_there l = ground arith

    short : length out ≤ 6 → ⊥
    short s = elim (Bool-cases (length out == 6)) [
      | inl k ↦ none_there (
          rw
            (sym (ap (byte_at (out ++ slash ∷ [])) (six (ground arith))) ∙ byte_at_behind out slash)
            (omega arith))
      | inr k ↦ none_there (
          rw (byte_at_end (out ++ slash ∷ []) 6 (ground (arith, length-append out (slash ∷ []))))
            (omega arith))
    ]
      where
        six : length out ≡ 6 → length out ≡ 6
        six e = e

-- Every pid may be named that `host_proc_hidden` lets through,
passed-MayName :
    (z : Zones) (out : Bytes) → z.no_proc ≡ false → host_proc_hidden z out ≡ false → MayName z out
unfolding host_proc_hidden hidden_pid
passed-MayName z out np h p (e, lo, hi, d) = inl (ground (arith, sym shown ∙ h))
  where
    shown : host_proc_hidden z out ≡ not (z.has_pid p)
    shown = rw (np, e, low, high, d)
      where
        low : ltb (byte_at out 6) b'0' ≡ false
        low = ground arith

        high : ltb b'9' (byte_at out 6) ≡ false
        high = ground arith

component-at_boundary : (p : Bytes) → at_boundary (component p).1 ≡ true
unfolding component
component-at_boundary [] = refl
component-at_boundary (x ∷ p) = elim (Bool-cases (x == slash)) [
  | inl e ↦ rw e e
  | inr e ↦ rw e (component-at_boundary p)
]

take-at_boundary : (n : ℕ) (p : Bytes) → at_boundary p ≡ true → at_boundary (take n p) ≡ true
take-at_boundary zero p e = refl
take-at_boundary (suc n) [] e = refl
take-at_boundary (suc n) (x ∷ p) e = e

zero_pid :
    (rest : Bytes) (p : ℕ) → at_boundary rest ≡ true → pid_of 0 (b'0' ∷ rest) ≡ some p → p ≡ 0
unfolding pid_of
zero_pid [] p b d = cc
zero_pid (x ∷ rest) p b d = ground (arith, b, d)

hidden_rest :
    (r : Bytes) (k p : ℕ)
    → at_boundary r ≡ true
    → pid_of 0 (drop 6 (take (suc (suc (suc (suc (suc (suc (suc k))))))) (bytes "/proc/0" ++ r)))
      ≡ some p
    → p ≡ 0
hidden_rest r k p b d = zero_pid (take k r) p (take-at_boundary k r b) d

-- and the 0 that it is replaced by.
hide-MayName :
    (z : Zones) (out : Bytes) (outsz : ℕ) → 8 ≤ outsz → MayName z (hide_proc_pid out outsz)
unfolding hide_proc_pid
hide-MayName z out outsz h p (e, lo, hi, d) = inr (
    hidden_rest (cut (component (drop 6 out)).1 (path_max - 7)) (outsz - 8) p
      (take-at_boundary (path_max - 7 - 1) (component (drop 6 out)).1
        (component-at_boundary (drop 6 out)))
      (subst
        (λ n.
          pid_of 0
            (drop 6 (take n (bytes "/proc/0" ++ cut (component (drop 6 out)).1 (path_max - 7))))
          ≡ some p)
        sized d))
  where
    sized : outsz - 1 ≡ suc (suc (suc (suc (suc (suc (suc (outsz - 8)))))))
    sized = omega arith

with_slash-MayName :
    (z : Zones) (out : Bytes) (outsz : ℕ)
    → MayName z out
    → OnSome (MayName z) (with_slash out outsz)
unfolding with_slash
with_slash-MayName z out outsz h =
    elim (Bool-cases (ltb 0 (length out) && last_byte out != slash)) [
      | inr e ↦ rw e h
      | inl e ↦ rw e (elim (Bool-cases (ltb outsz (length out + 2))) [
        | inl f ↦ rw f tt
        | inr f ↦ rw f (slash-MayName z out h)
      ])
    ]

finish-MayName :
    (z : Zones) (path : Bytes) (outsz : ℕ) (o : Option Bytes)
    → z.no_proc ≡ false
    → 8 ≤ outsz
    → OnSome (MayName z) (finish_path z path outsz o)
unfolding finish_path
finish-MayName z path outsz none np h = tt
finish-MayName z path outsz (some out) np h = elim (Bool-cases (wants_dir path)) [
  | inl w ↦ rw w (with_slash-MayName z _ outsz shown)
  | inr w ↦ rw w shown
]
  where
    shown : MayName z (if host_proc_hidden z out then hide_proc_pid out outsz else out)
    shown = elim (Bool-cases (host_proc_hidden z out)) [
      | inl e ↦ rw e (hide-MayName z out outsz h)
      | inr e ↦ rw e (passed-MayName z out np e)
    ]

-- The host path that a guest path is translated to, through any mount, is not /proc/<pid>, nor
-- under it, for any decimal pid up to 0x7fffffff but those of guest processes and 0, where the
-- /proc zone is on and the buffer has at least 8 bytes.
pub translate_mnt-MayName :
    (z : Zones) (fs : Fs) (path out : Bytes) (outsz p : ℕ) (m : Mount)
    → z.no_proc ≡ false
    → 8 ≤ outsz
    → translate_mnt z fs path outsz ≡ some (out, m)
    → NamesPid out p
    → (z.has_pid p ≡ true) ⊎ (p ≡ 0)
unfolding translate_mnt translate_canon with_mount
translate_mnt-MayName z fs path out outsz p m np h e names = go (abscanon fs path path_max) e
  where
    finished :
        (o : Option Bytes) (mnt : Mount)
        → OnSome (MayName z) o
        → with_mount mnt o ≡ some (out, m)
        → MayName z out
    finished none mnt a e = absurd (cc)
    finished (some out') mnt a e = subst (MayName z) (first e) a
      where
        first : ◌≡◌ {A = Option (Bytes × Mount)} (some (out', mnt)) (some (out, m)) → out' ≡ out
        first e = cc

    go :
        (o : Option Bytes)
        → translate_canon z fs path outsz o ≡ some (out, m)
        → (z.has_pid p ≡ true) ⊎ (p ≡ 0)
    go none e = absurd (cc)
    go (some canon) e =
        finished (finish_path z path outsz (fill fs (mount_of z fs canon) canon outsz))
          (mount_of z fs canon)
          (finish-MayName z path outsz (fill fs (mount_of z fs canon) canon outsz) np h) e p
          (NamesPid-Reads out p names)
