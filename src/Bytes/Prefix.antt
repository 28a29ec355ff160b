-- ===== src/Bytes/Prefix.antt =====
-- Prefix tests and bounded copies on C strings.
use fake_chroot_ng.Prelude.{
  ℕ, zero, suc, ◌+◌, ◌≤◌, ◌<◌, ◌≡◌, refl, ap, true, [], ◌∷◌, ◌++◌, arith, length, take, drop, some,
}
use fake_chroot_ng.Bytes.{Bytes, strncmp_eq, fit_join}

pub drop-append : (pfx rest : Bytes) → drop (length pfx) (pfx ++ rest) ≡ rest
drop-append [] rest = refl
drop-append (x ∷ pfx) rest = drop-append pfx rest

-- The test finds a prefix,
pub strncmp_eq-prefix :
    (s pfx : Bytes) → strncmp_eq s pfx (length pfx) ≡ true → s ≡ pfx ++ drop (length pfx) s
unfolding strncmp_eq
strncmp_eq-prefix s [] e = refl
strncmp_eq-prefix [] (y ∷ pfx) e = cc
strncmp_eq-prefix (x ∷ s) (y ∷ pfx) e = ground (arith, strncmp_eq-prefix s pfx)

-- and every prefix passes it.
pub strncmp_eq-append : (pfx rest : Bytes) → strncmp_eq (pfx ++ rest) pfx (length pfx) ≡ true
unfolding strncmp_eq
strncmp_eq-append [] rest = refl
strncmp_eq-append (x ∷ pfx) rest = ground (arith, strncmp_eq-append pfx rest)

pub take_all : (n : ℕ) (s : Bytes) → length s ≤ n → take n s ≡ s
take_all zero [] h = refl
take_all zero (x ∷ s) h = absurd (omega arith)
take_all (suc n) [] h = refl
take_all (suc n) (x ∷ s) h = ap (λ t. x ∷ t) (take_all n s (omega arith))

pub length-take : (n : ℕ) (s : Bytes) → length (take n s) ≤ n
length-take zero s = omega arith
length-take (suc n) [] = omega arith
length-take (suc n) (x ∷ s) = omega (arith, length-take n s)

-- A checked join succeeds exactly with the two strings joined, and they fit.
pub fit_join-some :
    (a b : Bytes) (size : ℕ) (out : Bytes)
    → fit_join a b size ≡ some out
    → (out ≡ a ++ b) × (length a + length b < size)
fit_join-some a b size out e = ground arith

pub fit_join-fits :
    (a b : Bytes) (size : ℕ) → length a + length b < size → fit_join a b size ≡ some (a ++ b)
fit_join-fits a b size h = ground arith
