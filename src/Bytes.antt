-- ===== src/Bytes.antt =====
-- C strings: the bytes before the terminator, none of them 0. src/rt/rt.c
pub mod Prefix
use Prim.Native.Char.{code}
use Prim.Native.String.{String}
use fake_chroot_ng.Prelude.{
  ℕ, zero, suc, ◌+◌, ◌-◌, ◌%◌, ◌≤◌, ◌<◌, ◌≡◌, refl, ap, Bool, true, false, ◌&&◌, ◌||◌, Option, none,
  some, List, [], ◌∷◌, ◌++◌, ltb, leb, ◌==◌, if◌then◌else◌, length, take, drop, arith,
}

abbrev pub Bytes : Type 0
Bytes = List ℕ

-- A literal's bytes.
abbrev pub bytes : String → Bytes
bytes String.[] = []
bytes (String.◌∷◌ c s) = code c ∷ bytes s

-- Byte `i` of a string, and its terminator behind it.
abbrev pub byte_at : Bytes → ℕ → ℕ
byte_at [] i = 0
byte_at (x ∷ xs) zero = x
byte_at (x ∷ xs) (suc i) = byte_at xs i

-- `strncmp(a, b, n) == 0`
unfoldable pub strncmp_eq : Bytes → Bytes → ℕ → Bool
strncmp_eq a b zero = true
strncmp_eq [] [] (suc n) = true
strncmp_eq [] (y ∷ b) (suc n) = false
strncmp_eq (x ∷ a) [] (suc n) = false
strncmp_eq (x ∷ a) (y ∷ b) (suc n) = x == y && strncmp_eq a b n

-- What `cng_strlcpy` leaves in a buffer of `size` bytes.
abbrev pub cut : Bytes → ℕ → Bytes
cut src size = take (size - 1) src

-- A checked copy: `cng_strlcpy(dst, src, size) >= size` is a failure.
abbrev pub fit : Bytes → ℕ → Option Bytes
fit src size = if ltb (length src) size then some src else none

-- A checked copy of `a` and then of `b` behind it.
abbrev pub fit_join : Bytes → Bytes → ℕ → Option Bytes
fit_join a b size =
    if leb size (length a) || leb (size - length a) (length b) then none else some (a ++ b)
