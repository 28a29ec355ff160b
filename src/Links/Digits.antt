-- ===== src/Links/Digits.antt =====
-- The digits that `put_u64` of src/monitor/l2s.c writes, and that `parse_u64` reads.
use fake_chroot_ng.Prelude.{
  ℕ, zero, suc, ◌+◌, ◌-◌, ◌*◌, ◌/◌, ◌%◌, ◌≤◌, ◌<◌, ◌≡◌, refl, ap, ◌∙◌, inl, inr, Bool, true, false,
  [], ◌∷◌, ◌++◌, arith, ◌==◌, if◌then◌else◌, length, All, Bool-cases,
}
use fake_chroot_ng.Bytes.{Bytes}
use fake_chroot_ng.Links.{
  u64_max, is_digit, overflows, digit_run, value, number_of, parse_u64, digits_onto, zeros_onto,
  decimal,
}

abbrev pub AllDigits : Bytes → Type 0
AllDigits ds = All (λ (c : ℕ). is_digit c ≡ true) ds

abbrev pub no_digit_first : Bytes → Bool
no_digit_first [] = true
no_digit_first (c ∷ p) = if is_digit c then false else true

-- The number that a run of digits spells, behind the digits of `v`.
abbrev pub reading : ℕ → Bytes → ℕ
reading v [] = v
reading v (c ∷ s) = reading (v * 10 + (c - b'0')) s

reading_grows : (v : ℕ) (s : Bytes) → v ≤ reading v s
reading_grows v [] = omega arith
reading_grows v (c ∷ s) = omega (arith, reading_grows (v * 10 + (c - b'0')) s)

-- A run whose number fits is read whole.
digit_run-reading :
    (v : ℕ) (ds rest : Bytes)
    → AllDigits ds
    → reading v ds ≤ u64_max
    → no_digit_first rest ≡ true
    → digit_run false v (ds ++ rest) ≡ (false, reading v ds, rest)
unfolding digit_run
digit_run-reading v [] [] a h n = refl
digit_run-reading v [] (c ∷ rest) a h n = ground arith
digit_run-reading v (c ∷ ds) rest a h n = elim (Bool-cases (overflows v (c - b'0'))) [
  | inl e ↦ absurd (ground (arith, reading_grows (v * 10 + (c - b'0')) ds, a.0))
  | inr e ↦ rw (e, a.0, if◌then◌else◌) (digit_run-reading (v * 10 + (c - b'0')) ds rest a.1 h n)
]

pub if_true {ℓ} : {A : Type ℓ} (b : Bool) (x y : A) → b ≡ true → (if b then x else y) ≡ x
if_true b x y e = rw e refl

pub parse_u64-reading :
    (ds rest : Bytes)
    → AllDigits ds
    → 0 < length ds
    → reading 0 ds ≤ u64_max
    → no_digit_first rest ≡ true
    → parse_u64 (ds ++ rest) ≡ value (reading 0 ds) rest
unfolding parse_u64
parse_u64-reading [] rest a l h n = absurd (omega arith)
parse_u64-reading (c ∷ ds) rest a l h n =
    if_true (is_digit c) _ _ a.0 ∙ ap number_of (digit_run-reading 0 (c ∷ ds) rest a h n)

digits_onto-AllDigits :
    (fuel v : ℕ) (tmp : Bytes) → AllDigits tmp → AllDigits (digits_onto fuel v tmp)
unfolding digits_onto
digits_onto-AllDigits zero v tmp a = a
digits_onto-AllDigits (suc fuel) v tmp a = elim (Bool-cases (v / 10 == 0)) [
  | inl e ↦ rw (e, digits_onto) (ground arith, a)
  | inr e ↦
      rw (e, digits_onto)
        (digits_onto-AllDigits fuel (v / 10) ((b'0' + v % 10) ∷ tmp) (ground arith, a))
]

zeros_onto-AllDigits : (n : ℕ) (tmp : Bytes) → AllDigits tmp → AllDigits (zeros_onto n tmp)
unfolding zeros_onto
zeros_onto-AllDigits zero tmp a = a
zeros_onto-AllDigits (suc n) tmp a = zeros_onto-AllDigits n (b'0' ∷ tmp) (refl, a)

-- The digits of a number spell it.
digits_onto-reading :
    (fuel v : ℕ) (tmp : Bytes) → v < fuel → reading 0 (digits_onto fuel v tmp) ≡ reading v tmp
unfolding digits_onto
digits_onto-reading zero v tmp h = absurd (omega arith)
digits_onto-reading (suc fuel) v tmp h = elim (Bool-cases (v / 10 == 0)) [
  | inl e ↦ rw (e, digits_onto) (ap (λ n. reading n tmp) (ground arith))
  | inr e ↦
      rw (e, digits_onto)
        (digits_onto-reading fuel (v / 10) ((b'0' + v % 10) ∷ tmp) (ground arith)
          ∙ ap (λ n. reading n tmp) (omega arith))
]

zeros_onto-reading : (n : ℕ) (tmp : Bytes) → reading 0 (zeros_onto n tmp) ≡ reading 0 tmp
unfolding zeros_onto
zeros_onto-reading zero tmp = refl
zeros_onto-reading (suc n) tmp = zeros_onto-reading n (b'0' ∷ tmp)

length-zeros_onto : (n : ℕ) (tmp : Bytes) → length (zeros_onto n tmp) ≡ n + length tmp
unfolding zeros_onto
length-zeros_onto zero tmp = omega arith
length-zeros_onto (suc n) tmp = omega (arith, length-zeros_onto n (b'0' ∷ tmp))

pub decimal-AllDigits : (v width : ℕ) → AllDigits (decimal v width)
unfolding decimal
decimal-AllDigits v width =
    zeros_onto-AllDigits (width - length (digits_onto (suc v) v [])) (digits_onto (suc v) v [])
      (digits_onto-AllDigits (suc v) v [] tt)

-- What is written of a number, padded or not, reads as that number.
pub reading-decimal : (v width : ℕ) → reading 0 (decimal v width) ≡ v
unfolding decimal
reading-decimal v width =
    zeros_onto-reading (width - length (digits_onto (suc v) v [])) (digits_onto (suc v) v [])
    ∙ digits_onto-reading (suc v) v [] (omega arith)

pub length-decimal_grows : (v width : ℕ) → width ≤ length (decimal v width)
unfolding decimal
length-decimal_grows v width = omega (
  arith,
  length-zeros_onto (width - length (digits_onto (suc v) v [])) (digits_onto (suc v) v []),
)

abbrev power_of_ten : ℕ → ℕ
power_of_ten zero = 1
power_of_ten (suc k) = 10 * power_of_ten k

length-digits_onto :
    (fuel k v : ℕ) (tmp : Bytes)
    → v < 10 * power_of_ten k
    → length (digits_onto fuel v tmp) ≤ suc k + length tmp
unfolding digits_onto
length-digits_onto zero k v tmp h = omega arith
length-digits_onto (suc fuel) k v tmp h = elim (Bool-cases (v / 10 == 0)) [
  | inl e ↦ rw (e, digits_onto) (omega arith)
  | inr e ↦
      rw (e, digits_onto)
        (by_k k e h (λ j. length-digits_onto fuel j (v / 10) ((b'0' + v % 10) ∷ tmp)))
]
  where
    by_k :
        (k : ℕ)
        → (v / 10 == 0) ≡ false
        → v < 10 * power_of_ten k
        → ((j : ℕ)
            → v / 10 < 10 * power_of_ten j
            → length (digits_onto fuel (v / 10) ((b'0' + v % 10) ∷ tmp)) ≤ suc j + suc (length tmp))
        → length (digits_onto fuel (v / 10) ((b'0' + v % 10) ∷ tmp)) ≤ suc k + length tmp
    by_k zero e' h' ih = absurd (ground arith)
    by_k (suc k') e' h' ih = omega (arith, ih k' (omega arith))

-- A 64-bit number has at most 20 digits.
pub length-decimal : (v width : ℕ) → v ≤ u64_max → width ≤ 20 → length (decimal v width) ≤ 20
unfolding decimal
length-decimal v width h w = omega (
  arith,
  length-zeros_onto (width - length (digits_onto (suc v) v [])) (digits_onto (suc v) v []),
  length-digits_onto (suc v) 19 v [] (omega arith),
)
