-- ===== src/Links/Names.antt =====
-- The names that src/monitor/l2s.c writes are the ones that it follows, and no other spelling is.
use mathlib.Core.Path.{subst}
use mathlib.Core.List.{append_assoc, append-nil}
use mathlib.Core.Option.{some-injective}
use fake_chroot_ng.Prelude.{
  ℕ, zero, suc, ◌+◌, ◌-◌, ◌*◌, ◌≤◌, ◌<◌, ◌≡◌, refl, sym, ap, ap₂, ◌∙◌, inl, inr, Bool, true, false,
  ◌||◌, some, [], ◌∷◌, ◌++◌, arith, ltb, if◌then◌else◌, length, length-append, take, Bool-cases,
}
use fake_chroot_ng.Bytes.{Bytes}
use fake_chroot_ng.Links.{
  u64_max, is_digit, Number, value, too_wide, no_digits, digit_run, parse_u64, parse_field,
  field_of, decimal, Out, put, put_all, put_u64, put_if, strcmp_eq, overflows, number_of,
}
use fake_chroot_ng.Links.Digits.{
  no_digit_first, parse_u64-reading, decimal-AllDigits, reading-decimal, length-decimal_grows,
  if_true,
}

-- A buffer whose text up to `p` is `s`, as much of it as there is room for.
abbrev pub at : ℕ → Bytes → Out
at room s = record { text = take room s; pos = length s }

pub take_nil : (room : ℕ) → ◌≡◌ {A = Bytes} (take room []) []
take_nil zero = refl
take_nil (suc room) = refl

abbrev pub out : Bytes → ℕ → Out
out s n = record { text = s; pos = n }

length-snoc : (s : Bytes) (c : ℕ) → length s + 1 ≡ length (s ++ c ∷ [])
length-snoc s c = omega (arith, length-append s (c ∷ []))

take-snoc :
    (room : ℕ) (s : Bytes) (c : ℕ)
    → (if ltb (length s) room then take room s ++ c ∷ [] else take room s) ≡ take room (s ++ c ∷ [])
take-snoc zero s c = ground arith
take-snoc (suc room) [] c =
    if_true (ltb 0 (suc room)) _ _ (ground arith) ∙ ap (λ t. c ∷ t) (sym (take_nil room))
take-snoc (suc room) (x ∷ s) c = ground (arith, take-snoc room s c)

pub put-at : (room c : ℕ) (s : Bytes) → put room c (at room s) ≡ at room (s ++ c ∷ [])
put-at room c s = ap₂ out (take-snoc room s c) (length-snoc s c)

pub put_all-at : (room : ℕ) (d s : Bytes) → put_all room d (at room s) ≡ at room (s ++ d)
unfolding put_all
put_all-at room [] s = ap (at room) (sym (append-nil s))
put_all-at room (c ∷ d) s =
    ap (put_all room d) (put-at room c s)
    ∙ put_all-at room d (s ++ c ∷ [])
    ∙ ap (at room) (append_assoc s (c ∷ []) d)

pub put_u64-at :
    (room v width : ℕ) (s : Bytes)
    → put_u64 room v width (at room s) ≡ at room (s ++ decimal v width)
unfolding put_u64
put_u64-at room v width s = put_all-at room (decimal v width) s

pub put_if-at :
    (room c : ℕ) (s : Bytes) → length s < room → put_if room c (at room s) ≡ at room (s ++ c ∷ [])
put_if-at room c s h =
    let fits : ltb (length s) room ≡ true = ground arith in
    if_true (ltb (length s) room) _ _ fits
    ∙ ap₂ out (sym (if_true (ltb (length s) room) _ _ fits) ∙ take-snoc room s c) (length-snoc s c)

pub strcmp_eq_refl : (a : Bytes) → strcmp_eq a a ≡ true
unfolding strcmp_eq
strcmp_eq_refl [] = refl
strcmp_eq_refl (x ∷ a) = ground (arith, strcmp_eq_refl a)

pub strcmp_eq-equal : (a b : Bytes) → strcmp_eq a b ≡ true → a ≡ b
unfolding strcmp_eq
strcmp_eq-equal [] [] e = refl
strcmp_eq-equal [] (y ∷ b) e = cc
strcmp_eq-equal (x ∷ a) [] e = cc
strcmp_eq-equal (x ∷ a) (y ∷ b) e = ground (arith, strcmp_eq-equal a b)

bounded_if :
    (b : Bool) (x y : Bool × ℕ × Bytes)
    → (b ≡ true → x.1 ≤ u64_max)
    → y.1 ≤ u64_max
    → (if b then x else y).1 ≤ u64_max
bounded_if true x y hx hy = hx refl
bounded_if false x y hx hy = hy

-- A number that was read fits 64 bits.
digit_run-bound : (wide : Bool) (v : ℕ) (p : Bytes) → v ≤ u64_max → (digit_run wide v p).1 ≤ u64_max
unfolding digit_run
digit_run-bound wide v [] h = h
digit_run-bound wide v (c ∷ p) h = elim (Bool-cases (overflows v (c - b'0'))) [
  | inl e ↦
      rw e
        (bounded_if (is_digit c) _ (wide, v, c ∷ p) (λ d. digit_run-bound (wide || true) v p h) h)
  | inr e ↦ rw e (
      bounded_if (is_digit c) _ (wide, v, c ∷ p)
        (λ d. digit_run-bound (wide || false) (v * 10 + (c - b'0')) p (ground arith)) h)
]

abbrev value_or : Number → ℕ
value_or no_digits = 0
value_or (value v rest) = v
value_or (too_wide rest) = 0

-- A field whose number is wanted has one that fits.
number_of-bound :
    (r : Bool × ℕ × Bytes) (v : ℕ) (rest : Bytes)
    → r.1 ≤ u64_max
    → number_of r ≡ value v rest
    → v ≤ u64_max
number_of-bound (true, n, p) v rest h e = cc
number_of-bound (false, n, p) v rest h e = subst (λ m. m ≤ u64_max) (ap value_or e) h

-- Behind digits that fit, a field is read with what follows.
pub parse_field-decimal :
    (v width : ℕ) (rest : Bytes)
    → v ≤ u64_max
    → 0 < width
    → no_digit_first rest ≡ true
    → parse_field true (decimal v width ++ rest) ≡ some (v, rest)
unfolding parse_field
parse_field-decimal v width rest h w n =
    ap (field_of true) (
      parse_u64-reading (decimal v width) rest (decimal-AllDigits v width)
        (omega (arith, length-decimal_grows v width)) (rw (reading-decimal v width) h) n)
    ∙ ap (λ m. some (m, rest)) (reading-decimal v width)

field_of-bound :
    (n : Number) (v : ℕ) (rest : Bytes)
    → ((u : ℕ) (p : Bytes) → n ≡ value u p → u ≤ u64_max)
    → field_of true n ≡ some (v, rest)
    → v ≤ u64_max
field_of-bound no_digits v rest h e = cc
field_of-bound (value u p) v rest h e =
    subst (λ m. m ≤ u64_max) (ap (λ (k : ℕ × Bytes). k.0) (some-injective (u, p) (v, rest) e))
      (h u p refl)
field_of-bound (too_wide p) v rest h e = cc

parse_u64-bound : (p rest : Bytes) (v : ℕ) → parse_u64 p ≡ value v rest → v ≤ u64_max
unfolding parse_u64
parse_u64-bound [] rest v e = cc
parse_u64-bound (c ∷ p) rest v e = elim (Bool-cases (is_digit c)) [
  | inl d ↦
      number_of-bound (digit_run false 0 (c ∷ p)) v rest
        (digit_run-bound false 0 (c ∷ p) (omega arith)) (sym (if_true (is_digit c) _ _ d) ∙ e)
  | inr d ↦ let e' : no_digits ≡ value v rest = rw d at e in cc
]

-- The number of a field that is wanted fits 64 bits.
pub parse_field-bound : (p rest : Bytes) (v : ℕ) → parse_field true p ≡ some (v, rest) → v ≤ u64_max
unfolding parse_field
parse_field-bound p rest v e = field_of-bound (parse_u64 p) v rest (λ u q. parse_u64-bound p q u) e
