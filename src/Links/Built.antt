-- ===== src/Links/Built.antt =====
-- `build_name` of src/monitor/l2s.c: what it writes, when there is no room, and how it reads back.
use mathlib.Core.List.{append_assoc, append-nil}
use mathlib.Core.Path.{subst}
use native.Mathlib.Numerals.{unary_clauses}
use fake_chroot_ng.Prelude.{
  ℕ, zero, suc, ◌-◌, ◌≤◌, ◌<◌, ◌≡◌, refl, sym, ap, ap₂, ◌∙◌, inl, inr, Bool, true, false, not,
  Option, none, some, [], ◌∷◌, ◌++◌, arith, ltb, leb, if◌then◌else◌, length, length-append, take,
  Bool-cases,
}
use fake_chroot_ng.Bytes.{Bytes, fit}
use fake_chroot_ng.Bytes.Prefix.{take_all}
use fake_chroot_ng.Path.{slash, dot}
use fake_chroot_ng.Path.Fields.{NoSlash}
use fake_chroot_ng.Links.{
  u64_max, l2s_prefix, decimal, put_u64, put_if, put_str, start, put_number, ended, behind_prefix,
  build_prefix, build_at, build_name, ends_in_slash, strrchr_slash, behind, basename,
  parse_data_exact, parse_marker_exact,
}
use fake_chroot_ng.Links.Digits.{AllDigits, decimal-AllDigits, length-decimal_grows, if_true}
use fake_chroot_ng.Links.Names.{at, out, take_nil, put_u64-at, put_if-at}
use fake_chroot_ng.Links.Exact.{
  data_name, marker_text, marker_name, parse_data_exact-names, parse_marker_exact-names,
}

-- The name without its directory: of a data file, or of a marker.
abbrev pub own_name : ℕ → Option ℕ → Bytes
own_name ino none = data_name ino
own_name ino (some c) = marker_name ino c

abbrev pub number_text : ℕ → Option ℕ → Bytes
number_text ino none = decimal ino 1
number_text ino (some c) = marker_text ino c

abbrev pub slashed : Bytes → Bytes
slashed dir = if ends_in_slash dir then dir else dir ++ slash ∷ []

take-append :
    (n : ℕ) (s t : Bytes) → length s ≤ n → take n s ++ take (n - length s) t ≡ take n (s ++ t)
take-append zero [] t h = refl
take-append zero (x ∷ s) t h = absurd (omega arith)
take-append (suc n) [] t h = simp unary_clauses refl
take-append (suc n) (x ∷ s) t h =
    ap (λ u. x ∷ u) (ap (λ m. take n s ++ take m t) (omega arith) ∙ take-append n s t (omega arith))

put_str-at :
    (room : ℕ) (t s : Bytes) → length s ≤ room → put_str room t (at room s) ≡ at room (s ++ t)
put_str-at room t s h =
    ap₂ out (ap (λ m. take room s ++ take m t) (omega arith) ∙ take-append room s t h)
      (sym (length-append s t))

pub if_false {ℓ} : {A : Type ℓ} (b : Bool) (x y : A) → b ≡ false → (if b then x else y) ≡ y
if_false b x y e = rw e refl

-- A text that was written whole, as far as it went, is there if it fits.
ended-at : (room : ℕ) (t : Bytes) → ended room (at room t) ≡ fit t (suc room)
ended-at room t = elim (Bool-cases (ltb room (length t))) [
  | inl e ↦ ground (arith, e)
  | inr e ↦
      let fits : ltb (length t) (suc room) ≡ true = ground (arith, e) in
      rw e (
        ap some (take_all room t (ground (arith, e)))
        ∙ sym (if_true (ltb (length t) (suc room)) _ _ fits))
]

-- Behind a text that leaves no room, nothing that follows is taken.
too_long :
    (room : ℕ) (s t u : Bytes)
    → room ≤ length s
    → 0 < length t
    → ended room (at room (s ++ t)) ≡ fit (s ++ (u ++ t)) (suc room)
too_long room s t u h l =
    ground (arith, length-append s t, length-append s (u ++ t), length-append u t)

put_number-at :
    (room ino : ℕ) (count : Option ℕ) (s : Bytes)
    → ended room (put_number room ino count (at room s))
      ≡ fit (s ++ number_text ino count) (suc room)
unfolding put_number
put_number-at room ino none s =
    ap (ended room) (put_u64-at room ino 1 s) ∙ ended-at room (s ++ decimal ino 1)
put_number-at room ino (some c) s = elim (Bool-cases (ltb (length (s ++ decimal ino 1)) room)) [
  | inl e ↦
      ap (λ o. ended room (put_u64 room c 4 (put_if room dot o))) (put_u64-at room ino 1 s)
      ∙ ap (λ o. ended room (put_u64 room c 4 o))
          (put_if-at room dot (s ++ decimal ino 1) (ground (arith, e)))
      ∙ ap (ended room) (put_u64-at room c 4 ((s ++ decimal ino 1) ++ dot ∷ []))
      ∙ ended-at room (((s ++ decimal ino 1) ++ dot ∷ []) ++ decimal c 4)
      ∙ ap (λ t. fit t (suc room))
          (append_assoc (s ++ decimal ino 1) (dot ∷ []) (decimal c 4)
            ∙ append_assoc s (decimal ino 1) (dot ∷ decimal c 4))
  | inr e ↦
      ap (λ o. ended room (put_u64 room c 4 (put_if room dot o))) (put_u64-at room ino 1 s)
      ∙ ap (λ o. ended room (put_u64 room c 4 o))
          (if_false (ltb (length (s ++ decimal ino 1)) room) _ (at room (s ++ decimal ino 1)) e)
      ∙ ap (ended room) (put_u64-at room c 4 (s ++ decimal ino 1))
      ∙ too_long room (s ++ decimal ino 1) (decimal c 4) (dot ∷ []) (ground (arith, e))
          (omega (arith, length-decimal_grows c 4))
      ∙ ap (λ t. fit t (suc room)) (append_assoc s (decimal ino 1) (dot ∷ decimal c 4))
]

length-number_text : (ino : ℕ) (count : Option ℕ) → 0 < length (number_text ino count)
length-number_text ino none = omega (arith, length-decimal_grows ino 1)
length-number_text ino (some c) =
    omega (arith, length-append (decimal ino 1) (dot ∷ decimal c 4), length-decimal_grows c 4)

behind_prefix-at :
    (room ino : ℕ) (count : Option ℕ) (s : Bytes)
    → behind_prefix room ino count (at room s) ≡ fit (s ++ number_text ino count) (suc room)
unfolding behind_prefix
behind_prefix-at room ino count s = elim (Bool-cases (leb room (length s))) [
  | inl e ↦ ground (arith, e, length-append s (number_text ino count), length-number_text ino count)
  | inr e ↦ if_false (leb room (length s)) none _ e ∙ put_number-at room ino count s
]

build_prefix-plain :
    (room ino : ℕ) (count : Option ℕ) (s : Bytes)
    → length s ≤ room
    → build_prefix room false ino count (at room s)
      ≡ fit (s ++ (l2s_prefix ++ number_text ino count)) (suc room)
unfolding build_prefix
build_prefix-plain room ino count s h =
    ap (behind_prefix room ino count) (put_str-at room l2s_prefix s h)
    ∙ behind_prefix-at room ino count (s ++ l2s_prefix)
    ∙ ap (λ t. fit t (suc room)) (append_assoc s l2s_prefix (number_text ino count))

fit-long : (room : ℕ) (t : Bytes) → room < length t → fit t (suc room) ≡ none
fit-long room t h = ground arith

build_prefix-slash :
    (room ino : ℕ) (count : Option ℕ) (s : Bytes)
    → length s ≤ room
    → build_prefix room true ino count (at room s)
      ≡ fit ((s ++ slash ∷ []) ++ (l2s_prefix ++ number_text ino count)) (suc room)
unfolding build_prefix
build_prefix-slash room ino count s h = elim (Bool-cases (ltb (length s) room)) [
  | inl e ↦
      ap (λ o. behind_prefix room ino count (put_str room l2s_prefix o))
        (put_if-at room slash s (ground (arith, e)))
      ∙ build_prefix-plain room ino count (s ++ slash ∷ [])
          (ground (arith, e, length-append s (slash ∷ [])))
  | inr e ↦
      ap (λ o. behind_prefix room ino count (put_str room l2s_prefix o))
        (if_false (ltb (length s) room) _ (at room s) e)
      ∙ build_prefix-plain room ino count s h
      ∙ fit-long room (s ++ (l2s_prefix ++ number_text ino count))
          (ground (arith, e, length-append s (l2s_prefix ++ number_text ino count)))
      ∙ sym (
          fit-long room ((s ++ slash ∷ []) ++ (l2s_prefix ++ number_text ino count)) (
            ground (
              arith,
              e,
              length-append (s ++ slash ∷ []) (l2s_prefix ++ number_text ino count),
              length-append s (slash ∷ []),
            )))
]

-- The directory, a slash behind it where it has none, and the name.
abbrev pub full_name : Bytes → ℕ → Option ℕ → Bytes
full_name dir ino count = slashed dir ++ own_name ino count

put_str-start : (room : ℕ) (t : Bytes) → put_str room t start ≡ at room t
put_str-start room t =
    ap (put_str room t) (ap₂ out (sym (take_nil room)) refl) ∙ put_str-at room t [] (omega arith)

build_prefix-slashed :
    (room ino : ℕ) (dir : Bytes) (count : Option ℕ)
    → length dir ≤ room
    → build_prefix room (not (ends_in_slash dir)) ino count (at room dir)
      ≡ fit (slashed dir ++ (l2s_prefix ++ number_text ino count)) (suc room)
build_prefix-slashed room ino dir count h = elim (Bool-cases (ends_in_slash dir)) [
  | inl e ↦ rw e (build_prefix-plain room ino count dir h)
  | inr e ↦ rw e (build_prefix-slash room ino count dir h)
]

length-slashed : (dir : Bytes) → length dir ≤ length (slashed dir)
length-slashed dir = elim (Bool-cases (ends_in_slash dir)) [
  | inl e ↦ rw e (omega arith)
  | inr e ↦ rw e (omega (arith, length-append dir (slash ∷ [])))
]

build_at-fit :
    (room ino : ℕ) (dir : Bytes) (count : Option ℕ)
    → build_at room dir ino count
      ≡ fit (slashed dir ++ (l2s_prefix ++ number_text ino count)) (suc room)
unfolding build_at
build_at-fit room ino dir count = elim (Bool-cases (ltb room (put_str room dir start).pos)) [
  | inl e ↦
      if_true (ltb room (put_str room dir start).pos) none _ e
      ∙ sym (
          fit-long room (slashed dir ++ (l2s_prefix ++ number_text ino count)) (
            ground (
              arith,
              e,
              length-slashed dir,
              length-append (slashed dir) (l2s_prefix ++ number_text ino count),
            )))
  | inr e ↦
      if_false (ltb room (put_str room dir start).pos) none _ e
      ∙ ap (build_prefix room (not (ends_in_slash dir)) ino count) (put_str-start room dir)
      ∙ build_prefix-slashed room ino dir count (ground (arith, e))
]

own_name-number :
    (ino : ℕ) (count : Option ℕ) → own_name ino count ≡ l2s_prefix ++ number_text ino count
own_name-number ino none = refl
own_name-number ino (some c) = refl

-- build_name, for a buffer that is not empty, gives the directory, a slash unless it ends in one,
-- and the name, if that fits the buffer with its terminator, and otherwise fails: no shortened
-- name ever comes back, at whatever byte the room ends.
pub build_name_lem :
    (sz ino : ℕ) (dir : Bytes) (count : Option ℕ)
    → 0 < sz
    → build_name sz dir ino count ≡ fit (full_name dir ino count) sz
unfolding build_name
build_name_lem zero ino dir count h = absurd (omega arith)
build_name_lem (suc room) ino dir count h =
    ap (λ m. build_at m dir ino count) (omega arith)
    ∙ build_at-fit room ino dir count
    ∙ ap (λ t. fit (slashed dir ++ t) (suc room)) (sym (own_name-number ino count))

-- What stands behind the last slash.
strrchr_slash-none : (b : Bytes) → NoSlash b → strrchr_slash b ≡ none
unfolding strrchr_slash
strrchr_slash-none [] a = refl
strrchr_slash-none (x ∷ b) a = rw (strrchr_slash-none b a.1) (ground arith)

pub strrchr_slash-append :
    (a b : Bytes) → strrchr_slash b ≡ none → strrchr_slash (a ++ slash ∷ b) ≡ some (a, b)
unfolding strrchr_slash
strrchr_slash-append [] b n = rw n refl
strrchr_slash-append (x ∷ a) b n = rw (strrchr_slash-append a b n) refl

ends_in_slash-split : (s : Bytes) → ends_in_slash s ≡ true → (a : Bytes) × (s ≡ a ++ slash ∷ [])
unfolding ends_in_slash
ends_in_slash-split [] e = cc
ends_in_slash-split (x ∷ []) e = ([], ap (λ c. c ∷ []) (ground arith))
ends_in_slash-split (x ∷ y ∷ s) e =
    let k = ends_in_slash-split (y ∷ s) e in (x ∷ k.0, ap (λ t. x ∷ t) k.1)

pub slashed-split : (dir : Bytes) → (a : Bytes) × (slashed dir ≡ a ++ slash ∷ [])
slashed-split dir = elim (Bool-cases (ends_in_slash dir)) [
  | inl e ↦ let k = ends_in_slash-split dir e in (k.0, rw e k.1)
  | inr e ↦ (dir, rw e refl)
]

digits-NoSlash : (ds rest : Bytes) → AllDigits ds → NoSlash rest → NoSlash (ds ++ rest)
digits-NoSlash [] rest a n = n
digits-NoSlash (c ∷ ds) rest a n = (ground (arith, a.0), digits-NoSlash ds rest a.1 n)

as_whole : (ds : Bytes) → AllDigits ds → NoSlash ds
as_whole ds a = subst NoSlash (append-nil ds) (digits-NoSlash ds [] a tt)

number_text-NoSlash : (ino : ℕ) (count : Option ℕ) → NoSlash (number_text ino count)
number_text-NoSlash ino none = as_whole (decimal ino 1) (decimal-AllDigits ino 1)
number_text-NoSlash ino (some c) =
    digits-NoSlash (decimal ino 1) (dot ∷ decimal c 4) (decimal-AllDigits ino 1)
      (omega arith, as_whole (decimal c 4) (decimal-AllDigits c 4))

own_name-NoSlash : (ino : ℕ) (count : Option ℕ) → NoSlash (own_name ino count)
own_name-NoSlash ino none = (
  omega arith,
  (omega arith, (omega arith, (omega arith, (omega arith, number_text-NoSlash ino none)))),
)
own_name-NoSlash ino (some c) = (
  omega arith,
  (omega arith, (omega arith, (omega arith, (omega arith, number_text-NoSlash ino (some c))))),
)

basename-full_name :
    (dir : Bytes) (ino : ℕ) (count : Option ℕ)
    → basename (full_name dir ino count) ≡ own_name ino count
unfolding basename
basename-full_name dir ino count =
    let k = slashed-split dir in
    let t : full_name dir ino count ≡ k.0 ++ (slash ∷ own_name ino count) =
      ap (λ u. u ++ own_name ino count) k.1 ∙ append_assoc k.0 (slash ∷ []) (own_name ino count) in
    ap basename t
    ∙ ap (behind (k.0 ++ (slash ∷ own_name ino count))) (
        strrchr_slash-append k.0 (own_name ino count)
          (strrchr_slash-none (own_name ino count) (own_name-NoSlash ino count)))

fit-some : (t : Bytes) (sz : ℕ) (s : Bytes) → fit t sz ≡ some s → s ≡ t
fit-some t sz s e = ground arith

built-basename :
    (sz ino : ℕ) (dir : Bytes) (count : Option ℕ) (path : Bytes)
    → 0 < sz
    → build_name sz dir ino count ≡ some path
    → basename path ≡ own_name ino count
built-basename sz ino dir count path h e =
    ap basename
      (fit-some (full_name dir ino count) sz path (sym (build_name_lem sz ino dir count h) ∙ e))
    ∙ basename-full_name dir ino count

-- What build_name wrote, for a buffer that is not empty and 64-bit numbers, is read back from its
-- last component: a data file's name by parse_data_exact as its inode, a marker's by
-- parse_marker_exact as its inode and its count, whatever the directory.
pub build_name-read :
    (sz ino c : ℕ) (dir path : Bytes)
    → 0 < sz
    → ino ≤ u64_max
    → c ≤ u64_max
    → (build_name sz dir ino none ≡ some path → parse_data_exact (basename path) ≡ some ino)
      × (build_name sz dir ino (some c) ≡ some path
          → parse_marker_exact (basename path) ≡ some (ino, c))
build_name-read sz ino c dir path h hi hc = (
  λ e. (parse_data_exact-names (basename path) ino).1 (hi, built-basename sz ino dir none path h e),
  λ e.
      (parse_marker_exact-names (basename path) ino c).1
        (hi, hc, built-basename sz ino dir (some c) path h e),
)
