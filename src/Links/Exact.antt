-- ===== src/Links/Exact.antt =====
-- The exact tests of src/monitor/l2s.c take the names that it writes, and no other spelling.
use mathlib.Core.List.{append_assoc, append-nil}
use mathlib.Core.Option.{some-injective}
use mathlib.Core.Path.{subst}
use fake_chroot_ng.Prelude.{
  ℕ, ◌≤◌, ◌<◌, ◌≡◌, ◌↔◌, refl, sym, ap, ◌∙◌, Bool, true, false, Option, none, some, [], ◌∷◌, ◌++◌,
  arith, ltb, ◌==◌, if◌then◌else◌, length, length-append, drop,
}
use fake_chroot_ng.Bytes.{Bytes, strncmp_eq}
use fake_chroot_ng.Bytes.Prefix.{strncmp_eq-prefix, strncmp_eq-append, take_all}
use fake_chroot_ng.Path.{dot}
use fake_chroot_ng.Links.{
  u64_max, l2s_prefix, parse_field, whole, parse_data, paired, parse_count, parse_marker, decimal,
  Out, put_u64, put_if, start, strcmp_eq, exact_data, parse_data_exact, marker_tmp, exact_marker,
  parse_marker_exact,
}
use fake_chroot_ng.Links.Digits.{length-decimal, if_true}
use fake_chroot_ng.Links.Names.{
  at, put_u64-at, put_if-at, strcmp_eq_refl, strcmp_eq-equal, parse_field-decimal,
  parse_field-bound,
}

-- ".l2s.<ino>"
abbrev pub data_name : ℕ → Bytes
data_name v = l2s_prefix ++ decimal v 1

abbrev pub marker_text : ℕ → ℕ → Bytes
marker_text v c = decimal v 1 ++ (dot ∷ decimal c 4)

-- ".l2s.<ino>.<count>"
abbrev pub marker_name : ℕ → ℕ → Bytes
marker_name v c = l2s_prefix ++ marker_text v c

data_tmp : (v : ℕ) → v ≤ u64_max → (put_u64 23 v 1 start).text ≡ decimal v 1
data_tmp v h =
    ap (λ (o : Out). o.text) (put_u64-at 23 v 1 [])
    ∙ take_all 23 (decimal v 1) (omega (arith, length-decimal v 1 h (omega arith)))

marker_tmp-at : (v c : ℕ) → v ≤ u64_max → marker_tmp v c ≡ at 47 (marker_text v c)
unfolding marker_tmp
marker_tmp-at v c h =
    ap (λ o. put_u64 47 c 4 (put_if 47 dot o)) (put_u64-at 47 v 1 [])
    ∙ ap (put_u64 47 c 4)
        (put_if-at 47 dot (decimal v 1) (omega (arith, length-decimal v 1 h (omega arith))))
    ∙ put_u64-at 47 c 4 (decimal v 1 ++ dot ∷ [])
    ∙ ap (at 47) (append_assoc (decimal v 1) (dot ∷ []) (decimal c 4))

length-marker_text : (v c : ℕ) → v ≤ u64_max → c ≤ u64_max → length (marker_text v c) ≤ 41
length-marker_text v c hv hc = omega (
  arith,
  length-append (decimal v 1) (dot ∷ decimal c 4),
  length-decimal v 1 hv (omega arith),
  length-decimal c 4 hc (omega arith),
)

-- The field at the end of a name.
last_field :
    (v width : ℕ) → v ≤ u64_max → 0 < width → whole (parse_field true (decimal v width)) ≡ some v
last_field v width h w =
    ap (λ t. whole (parse_field true t)) (sym (append-nil (decimal v width)))
    ∙ ap whole (parse_field-decimal v width [] h w refl)

parse_data-name : (v : ℕ) → v ≤ u64_max → parse_data true (data_name v) ≡ some v
unfolding parse_data
parse_data-name v h =
    if_true (strncmp_eq (data_name v) l2s_prefix 5) _ _ (strncmp_eq-append l2s_prefix (decimal v 1))
    ∙ last_field v 1 h (omega arith)

parse_marker-name :
    (v c : ℕ) → v ≤ u64_max → c ≤ u64_max → parse_marker true (marker_name v c) ≡ some (v, c)
unfolding parse_marker parse_count
parse_marker-name v c hv hc =
    if_true (strncmp_eq (marker_name v c) l2s_prefix 5) _ _
      (strncmp_eq-append l2s_prefix (marker_text v c))
    ∙ ap (parse_count true) (parse_field-decimal v 1 (dot ∷ decimal c 4) hv (omega arith) refl)
    ∙ ap (paired v) (last_field c 4 hc (omega arith))

parse_data_exact-name : (v : ℕ) → v ≤ u64_max → parse_data_exact (data_name v) ≡ some v
unfolding parse_data_exact
parse_data_exact-name v h =
    ap (exact_data (data_name v)) (parse_data-name v h)
    ∙ if_true (strcmp_eq (put_u64 23 v 1 start).text (decimal v 1)) _ _
        (ap (λ t. strcmp_eq t (decimal v 1)) (data_tmp v h) ∙ strcmp_eq_refl (decimal v 1))

-- What a test on a name with the prefix answers, it answers of a name that has it.
abbrev Prefixed : Bytes → Type 0
Prefixed name = name ≡ l2s_prefix ++ drop 5 name

if_some {ℓ} :
    {A : Type ℓ} {a : A} (b : Bool) (x : Option A)
    → (if b then x else none) ≡ some a
    → (b ≡ true) × (x ≡ some a)
if_some true x e = (refl, e)
if_some false x e = cc

whole-some : (o : Option (ℕ × Bytes)) (v : ℕ) → whole o ≡ some v → o ≡ some (v, [])
whole-some none v e = cc
whole-some (some (u, [])) v e = ap (λ m. some (m, [])) (some-injective u v e)
whole-some (some (u, x ∷ rest)) v e = cc

paired-some : (u : ℕ) (o : Option ℕ) (v c : ℕ) → paired u o ≡ some (v, c) → (u ≡ v) × (o ≡ some c)
paired-some u none v c e = cc
paired-some u (some d) v c e =
    let k : (u, d) ≡ (v, c) = some-injective (u, d) (v, c) e in
    (ap (λ (m : ℕ × ℕ). m.0) k, ap (λ (m : ℕ × ℕ). some m.1) k)

parse_data-bound :
    (name : Bytes) (v : ℕ) → parse_data true name ≡ some v → (v ≤ u64_max) × Prefixed name
unfolding parse_data
parse_data-bound name v e =
    let k = if_some (strncmp_eq name l2s_prefix 5) (whole (parse_field true (drop 5 name))) e in
    (
      parse_field-bound (drop 5 name) [] v (whole-some (parse_field true (drop 5 name)) v k.1),
      strncmp_eq-prefix name l2s_prefix k.0,
    )

-- The second half of a marker has a count that fits, and its number is the field before.
parse_count-bound :
    (o : Option (ℕ × Bytes)) (v c : ℕ)
    → parse_count true o ≡ some (v, c)
    → (c ≤ u64_max) × (rest : Bytes) × (o ≡ some (v, rest))
unfolding parse_count
parse_count-bound none v c e = cc
parse_count-bound (some (u, [])) v c e = cc
parse_count-bound (some (u, x ∷ rest)) v c e =
    let k = if_some (x == dot) (paired u (whole (parse_field true rest))) e in
    let q = paired-some u (whole (parse_field true rest)) v c k.1 in
    (
      parse_field-bound rest [] c (whole-some (parse_field true rest) c q.1),
      x ∷ rest,
      ap (λ m. some (m, x ∷ rest)) q.0,
    )

parse_marker-bound :
    (name : Bytes) (v c : ℕ)
    → parse_marker true name ≡ some (v, c)
    → (v ≤ u64_max) × (c ≤ u64_max) × Prefixed name
unfolding parse_marker
parse_marker-bound name v c e =
    let k =
      if_some (strncmp_eq name l2s_prefix 5) (parse_count true (parse_field true (drop 5 name)))
        e in
    let q = parse_count-bound (parse_field true (drop 5 name)) v c k.1 in
    (parse_field-bound (drop 5 name) q.1 v q.2, q.0, strncmp_eq-prefix name l2s_prefix k.0)

exact_data-name :
    (name : Bytes) (o : Option ℕ) (v : ℕ)
    → ((u : ℕ) → o ≡ some u → (u ≤ u64_max) × Prefixed name)
    → exact_data name o ≡ some v
    → (v ≤ u64_max) × (name ≡ data_name v)
unfolding exact_data
exact_data-name name none v b e = cc
exact_data-name name (some u) v b e =
    let k = if_some (strcmp_eq (put_u64 23 u 1 start).text (drop 5 name)) (some u) e in
    let q = b u refl in
    subst (λ m. (m ≤ u64_max) × (name ≡ data_name m)) (some-injective u v k.1)
      (
        q.0,
        q.1
            ∙ ap (λ t. l2s_prefix ++ t)
                (sym (strcmp_eq-equal (put_u64 23 u 1 start).text (drop 5 name) k.0)
                  ∙ data_tmp u q.0),
      )

-- parse_data_exact answers v for one name only: the one that v's own digits make, v in 64 bits.
pub parse_data_exact-names :
    (name : Bytes) (v : ℕ)
    → (parse_data_exact name ≡ some v) ↔ ((v ≤ u64_max) × (name ≡ data_name v))
unfolding parse_data_exact
parse_data_exact-names name v = (
  exact_data-name name (parse_data true name) v (parse_data-bound name),
  λ k. ap parse_data_exact k.1 ∙ parse_data_exact-name v k.0,
)

marker_tmp-fits : (v c : ℕ) → v ≤ u64_max → c ≤ u64_max → ltb 47 (marker_tmp v c).pos ≡ false
marker_tmp-fits v c hv hc =
    ap (λ (o : Out). ltb 47 o.pos) (marker_tmp-at v c hv)
    ∙ ground (arith, length-marker_text v c hv hc)

marker_tmp-text : (v c : ℕ) → v ≤ u64_max → c ≤ u64_max → (marker_tmp v c).text ≡ marker_text v c
marker_tmp-text v c hv hc =
    ap (λ (o : Out). o.text) (marker_tmp-at v c hv)
    ∙ take_all 47 (marker_text v c) (omega (arith, length-marker_text v c hv hc))

exact_marker-name :
    (name : Bytes) (o : Option (ℕ × ℕ)) (v c : ℕ)
    → ((u d : ℕ) → o ≡ some (u, d) → (u ≤ u64_max) × (d ≤ u64_max) × Prefixed name)
    → exact_marker name o ≡ some (v, c)
    → (v ≤ u64_max) × (c ≤ u64_max) × (name ≡ marker_name v c)
unfolding exact_marker
exact_marker-name name none v c b e = cc
exact_marker-name name (some (u, d)) v c b e =
    let q = b u d refl in
    let k =
      if_some (strcmp_eq (marker_tmp u d).text (drop 5 name)) (some (u, d))
        (rw (marker_tmp-fits u d q.0 q.1) at e) in
    subst (λ (m : ℕ × ℕ). (m.0 ≤ u64_max) × (m.1 ≤ u64_max) × (name ≡ marker_name m.0 m.1))
      (some-injective (u, d) (v, c) k.1)
      (
        q.0,
        q.1,
        q.2
            ∙ ap (λ t. l2s_prefix ++ t)
                (sym (strcmp_eq-equal (marker_tmp u d).text (drop 5 name) k.0)
                  ∙ marker_tmp-text u d q.0 q.1),
      )

parse_marker_exact-name :
    (v c : ℕ) → v ≤ u64_max → c ≤ u64_max → parse_marker_exact (marker_name v c) ≡ some (v, c)
unfolding parse_marker_exact exact_marker
parse_marker_exact-name v c hv hc =
    ap (exact_marker (marker_name v c)) (parse_marker-name v c hv hc)
    ∙ rw (marker_tmp-fits v c hv hc) (
        if_true (strcmp_eq (marker_tmp v c).text (marker_text v c)) _ _ (
          ap (λ t. strcmp_eq t (marker_text v c)) (marker_tmp-text v c hv hc)
          ∙ strcmp_eq_refl (marker_text v c)))

-- parse_marker_exact takes a name, and reads an inode and a count from it, exactly if both fit 64
-- bits and the name is the one that put_u64 writes for them: no leading zero, no short count and
-- no run of digits that wraps names a group.
pub parse_marker_exact-names :
    (name : Bytes) (v c : ℕ)
    → (parse_marker_exact name ≡ some (v, c))
      ↔ ((v ≤ u64_max) × (c ≤ u64_max) × (name ≡ marker_name v c))
unfolding parse_marker_exact
parse_marker_exact-names name v c = (
  exact_marker-name name (parse_marker true name) v c (parse_marker-bound name),
  λ k. ap parse_marker_exact k.2 ∙ parse_marker_exact-name v c k.0 k.1,
)
