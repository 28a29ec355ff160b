-- ===== src/Links/Grammar.antt =====
-- Which names `cng_l2s_hidden` of src/monitor/l2s.c keeps from the guest.
use mathlib.Core.List.{append-nil}
use mathlib.Core.Option.{some-injective}
use mathlib.Core.Path.{subst}
use fake_chroot_ng.Prelude.{
  ℕ, ◌+◌, ◌-◌, ◌*◌, ◌<◌, ◌≡◌, ◌↔◌, ◌⊎◌, refl, sym, ap, ◌∙◌, inl, inr, Bool, true, false, ◌||◌,
  Option, none, some, [], ◌∷◌, ◌++◌, arith, ◌==◌, if◌then◌else◌, length, drop, Bool-cases,
}
use fake_chroot_ng.Bytes.{Bytes, strncmp_eq}
use fake_chroot_ng.Bytes.Prefix.{strncmp_eq-prefix, strncmp_eq-append}
use fake_chroot_ng.Path.{dot}
use fake_chroot_ng.Links.{
  is_digit, overflows, digit_run, number_of, parse_u64, field_of, l2s_prefix, parse_field, whole,
  parse_data, paired, parse_count, parse_marker, is_some, hidden,
}
use fake_chroot_ng.Links.Digits.{AllDigits, no_digit_first, if_true}

-- The run of digits at the start, and what follows it.
abbrev pub digits_of : Bytes → Bytes
digits_of [] = []
digits_of (c ∷ p) = let rest = digits_of p in if is_digit c then c ∷ rest else []

abbrev pub after_digits : Bytes → Bytes
after_digits [] = []
after_digits (c ∷ p) = let rest = after_digits p in if is_digit c then rest else c ∷ p

digit_run-after : (wide : Bool) (v : ℕ) (p : Bytes) → (digit_run wide v p).2 ≡ after_digits p
unfolding digit_run
digit_run-after wide v [] = refl
digit_run-after wide v (c ∷ p) = elim (Bool-cases (is_digit c)) [
  | inl e ↦ rw e (
      digit_run-after (wide || overflows v (c - b'0'))
        (if overflows v (c - b'0') then v else v * 10 + (c - b'0')) p)
  | inr e ↦ rw e refl
]

field_of-number : (r : Bool × ℕ × Bytes) → (v : ℕ) × (field_of false (number_of r) ≡ some (v, r.2))
field_of-number (true, v, rest) = (0, refl)
field_of-number (false, v, rest) = (v, refl)

-- A field whose number is not wanted: any run of digits, and what follows it.
parse_field-digit :
    (c : ℕ) (p : Bytes)
    → is_digit c ≡ true
    → (v : ℕ) × (parse_field false (c ∷ p) ≡ some (v, after_digits p))
unfolding parse_field parse_u64
parse_field-digit c p e =
    let k = field_of-number (digit_run false 0 (c ∷ p)) in
    (
      k.0,
      ap (field_of false) (if_true (is_digit c) _ _ e)
          ∙ k.1
          ∙ ap (λ t. some (k.0, t)) (digit_run-after false 0 (c ∷ p) ∙ if_true (is_digit c) _ _ e),
    )

parse_field-other : (p : Bytes) → no_digit_first p ≡ true → parse_field false p ≡ none
unfolding parse_field parse_u64
parse_field-other [] n = refl
parse_field-other (c ∷ p) n = elim (Bool-cases (is_digit c)) [
  | inl e ↦ absurd (ground arith)
  | inr e ↦ rw e refl
]

digits_of-AllDigits : (p : Bytes) → AllDigits (digits_of p)
digits_of-AllDigits [] = tt
digits_of-AllDigits (c ∷ p) = elim (Bool-cases (is_digit c)) [
  | inl e ↦ rw e (e, digits_of-AllDigits p)
  | inr e ↦ rw e tt
]

digits_of-after : (p : Bytes) → digits_of p ++ after_digits p ≡ p
digits_of-after [] = refl
digits_of-after (c ∷ p) = elim (Bool-cases (is_digit c)) [
  | inl e ↦ rw e (ap (λ t. c ∷ t) (digits_of-after p))
  | inr e ↦ rw e refl
]

after_digits-append :
    (ds rest : Bytes) → AllDigits ds → no_digit_first rest ≡ true → after_digits (ds ++ rest) ≡ rest
after_digits-append [] [] a n = refl
after_digits-append [] (c ∷ rest) a n = ground arith
after_digits-append (c ∷ ds) rest a n = rw a.0 (after_digits-append ds rest a.1 n)

-- One digit at least, and nothing else.
abbrev pub IsNumber : Bytes → Type 0
IsNumber ds = AllDigits ds × (0 < length ds)

-- A field takes the digits of a number, whatever it spells.
field-number :
    (ds rest : Bytes)
    → IsNumber ds
    → no_digit_first rest ≡ true
    → (v : ℕ) × (parse_field false (ds ++ rest) ≡ some (v, rest))
field-number [] rest d n = absurd (omega (arith, d.1))
field-number (c ∷ ds) rest d n =
    let k = parse_field-digit c (ds ++ rest) d.0.0 in
    (k.0, k.1 ∙ ap (λ t. some (k.0, t)) (after_digits-append ds rest d.0.1 n))

-- And what a field takes is the digits of a number.
field-some :
    (p rest : Bytes) (v : ℕ)
    → parse_field false p ≡ some (v, rest)
    → (ds : Bytes) × IsNumber ds × (p ≡ ds ++ rest)
field-some [] rest v e =
    let e' : ◌≡◌ {A = Option (ℕ × Bytes)} none (some (v, rest)) =
      sym (parse_field-other [] refl) ∙ e in
    cc
field-some (c ∷ p) rest v e = elim (Bool-cases (is_digit c)) [
  | inl d ↦
      let k = parse_field-digit c p d in
      let q : (k.0, after_digits p) ≡ (v, rest) =
        some-injective (k.0, after_digits p) (v, rest) (sym k.1 ∙ e) in
      (
        c ∷ digits_of p,
        ((d, digits_of-AllDigits p), omega arith),
        ap (λ t. c ∷ t) (sym (digits_of-after p) ∙ ap (λ (m : ℕ × Bytes). digits_of p ++ m.1) q),
      )
  | inr d ↦
      let n : no_digit_first (c ∷ p) ≡ true = ground arith in
      let e' : ◌≡◌ {A = Option (ℕ × Bytes)} none (some (v, rest)) =
        sym (parse_field-other (c ∷ p) n) ∙ e in
      cc
]

-- ".l2s." and a number, or two with a dot between them: any digits, however many.
abbrev pub IsBacking : Bytes → Type 0
IsBacking name =
    (ds : Bytes) × IsNumber ds
    × ((name ≡ l2s_prefix ++ ds)
        ⊎ ((es : Bytes) × IsNumber es × (name ≡ l2s_prefix ++ (ds ++ (dot ∷ es)))))

whole-number : (ds : Bytes) → IsNumber ds → is_some (whole (parse_field false ds)) ≡ true
whole-number ds d =
    let k = field-number ds [] d refl in
    ap (λ t. is_some (whole (parse_field false t))) (sym (append-nil ds))
    ∙ ap (λ o. is_some (whole o)) k.1

whole-some : (o : Option (ℕ × Bytes)) → is_some (whole o) ≡ true → (v : ℕ) × (o ≡ some (v, []))
whole-some none e = cc
whole-some (some (v, [])) e = (v, refl)
whole-some (some (v, c ∷ rest)) e = cc

IsNumber-whole : (p : Bytes) → is_some (whole (parse_field false p)) ≡ true → IsNumber p
IsNumber-whole p e =
    let k = whole-some (parse_field false p) e in
    let q = field-some p [] k.0 k.1 in subst IsNumber (sym (q.2 ∙ append-nil q.0)) q.1

is_some-paired : (v : ℕ) (o : Option ℕ) → is_some (paired v o) ≡ is_some o
is_some-paired v none = refl
is_some-paired v (some c) = refl

parse_count-some :
    (o : Option (ℕ × Bytes))
    → is_some (parse_count false o) ≡ true
    → (v : ℕ) × (es : Bytes) × IsNumber es × (o ≡ some (v, dot ∷ es))
unfolding parse_count
parse_count-some none e = cc
parse_count-some (some (v, [])) e = cc
parse_count-some (some (v, c ∷ rest)) e = elim (Bool-cases (c == dot)) [
  | inl d ↦ (
    v,
    rest,
    IsNumber-whole rest (
        sym (is_some-paired v (whole (parse_field false rest)))
        ∙ ap is_some (sym (if_true (c == dot) _ none d))
        ∙ e),
    ap (λ m. some (v, m ∷ rest)) (ground arith),
  )
  | inr d ↦ let e' : false ≡ true = rw d at e in cc
]

some_if :
    {A : Type 0} (b : Bool) (x : Option A)
    → is_some (if b then x else none) ≡ true
    → (b ≡ true) × (is_some x ≡ true)
some_if true x e = (refl, e)
some_if false x e = cc

hidden-IsBacking : (name : Bytes) → hidden name ≡ true → IsBacking name
unfolding hidden parse_data parse_marker
hidden-IsBacking name e = elim (Bool-cases (is_some (parse_data false name))) [
  | inl d ↦
      let k = some_if (strncmp_eq name l2s_prefix 5) (whole (parse_field false (drop 5 name))) d in
      (drop 5 name, IsNumber-whole (drop 5 name) k.1, inl (strncmp_eq-prefix name l2s_prefix k.0))
  | inr d ↦
      let m : is_some (parse_marker false name) ≡ true = rw d at e in
      let k =
        some_if (strncmp_eq name l2s_prefix 5) (parse_count false (parse_field false (drop 5 name)))
          m in
      let c = parse_count-some (parse_field false (drop 5 name)) k.1 in
      let q = field-some (drop 5 name) (dot ∷ c.1) c.0 c.3 in
      (
        q.0,
        q.1,
        inr (c.1, c.2, strncmp_eq-prefix name l2s_prefix k.0 ∙ ap (λ t. l2s_prefix ++ t) q.2),
      )
]

data-hidden : (ds : Bytes) → IsNumber ds → is_some (parse_data false (l2s_prefix ++ ds)) ≡ true
unfolding parse_data
data-hidden ds d =
    ap is_some (
      if_true (strncmp_eq (l2s_prefix ++ ds) l2s_prefix 5) _ none (strncmp_eq-append l2s_prefix ds))
    ∙ whole-number ds d

marker-hidden :
    (ds es : Bytes)
    → IsNumber ds
    → IsNumber es
    → is_some (parse_marker false (l2s_prefix ++ (ds ++ (dot ∷ es)))) ≡ true
unfolding parse_marker parse_count
marker-hidden ds es d f =
    let k = field-number ds (dot ∷ es) d refl in
    ap is_some (
      if_true (strncmp_eq (l2s_prefix ++ (ds ++ (dot ∷ es))) l2s_prefix 5) _ none
        (strncmp_eq-append l2s_prefix (ds ++ (dot ∷ es))))
    ∙ ap (λ o. is_some (parse_count false o)) k.1
    ∙ is_some-paired k.0 (whole (parse_field false es))
    ∙ whole-number es f

or_right : (a b : Bool) → b ≡ true → (a || b) ≡ true
or_right true b e = refl
or_right false b e = e

IsBacking-hidden : (name : Bytes) → IsBacking name → hidden name ≡ true
unfolding hidden
IsBacking-hidden name (ds, d, inl e) = ap hidden e ∙ rw (data-hidden ds d) refl
IsBacking-hidden name (ds, d, inr (es, f, e)) =
    ap hidden e
    ∙ or_right (is_some (parse_data false (l2s_prefix ++ (ds ++ (dot ∷ es))))) _
        (marker-hidden ds es d f)

-- cng_l2s_hidden hides exactly the names that are .l2s. and a run of digits, or two runs with a
-- dot between them, however long the runs are and whatever they spell.
pub hidden-names : (name : Bytes) → (hidden name ≡ true) ↔ IsBacking name
hidden-names name = (hidden-IsBacking name, IsBacking-hidden name)
