-- ===== src/Links/Lexical.antt =====
-- `l2s_canonical` of src/monitor/l2s.c against what cng_path_canon of src/path/path.c leaves.
use mathlib.Core.Path.{subst}
use fake_chroot_ng.Prelude.{
  ℕ, zero, suc, ◌+◌, ◌<◌, ◌≡◌, ◌≢◌, ◌↔◌, ◌⊎◌, refl, ap, ◌∙◌, inl, inr, true, false, [], ◌∷◌, arith,
  length, All, Bool-cases,
}
use fake_chroot_ng.Bytes.{Bytes}
use fake_chroot_ng.Path.{slash, component}
use fake_chroot_ng.Path.Fields.{split, NoSlash, IsName}
use fake_chroot_ng.Path.Canon.{tail_fields, split-component, component-NoSlash, length-component}
use fake_chroot_ng.Path.Canonical.{IsCanonical}
use fake_chroot_ng.Links.Place.{at_end, bad_component, canonical_loop, l2s_canonical}

good-IsName : (c : Bytes) → NoSlash c → bad_component c ≡ false → IsName c
good-IsName [] a e = cc
good-IsName (x ∷ c) a e = record {
  plain = a;
  some_byte = λ n. cc;
  no_dot = ground (arith);
  no_dotdot = ground (arith);
}

IsName-good : (c : Bytes) → IsName c → bad_component c ≡ false
IsName-good [] n = absurd (n.some_byte refl)
IsName-good (x ∷ c) n = ground (arith, n.no_dot, n.no_dotdot)

canonical_loop-names : (fuel : ℕ) (c : Bytes) → canonical_loop fuel c ≡ true → All IsName (split c)
unfolding canonical_loop
canonical_loop-names zero c e = cc
canonical_loop-names (suc fuel) c e = elim (Bool-cases (bad_component (component c).0)) [
  | inl b ↦ let k : false ≡ true = rw (b, canonical_loop) at e in cc
  | inr b ↦ rw (split-component c) (
    good-IsName (component c).0 (component-NoSlash c) b,
    by_rest (component c).1 (canonical_loop-names fuel) (rw (b, canonical_loop) at e),
  )
]
  where
    by_rest :
        (t : Bytes)
        → ((d : Bytes) → canonical_loop fuel d ≡ true → All IsName (split d))
        → at_end (canonical_loop fuel) t ≡ true
        → All IsName (tail_fields t)
    by_rest [] ih k = tt
    by_rest (x ∷ rest) ih k = ih rest k

names-canonical_loop :
    (fuel : ℕ) (c : Bytes) → length c < fuel → All IsName (split c) → canonical_loop fuel c ≡ true
unfolding canonical_loop
names-canonical_loop zero c h n = absurd (omega arith)
names-canonical_loop (suc fuel) c h n =
    let k : All IsName ((component c).0 ∷ tail_fields (component c).1) =
      subst (All IsName) (split-component c) n in
    rw (IsName-good (component c).0 k.0, canonical_loop)
      (by_rest (component c).1 (names-canonical_loop fuel) (omega (arith, length-component c)) k.1)
  where
    by_rest :
        (t : Bytes)
        → ((d : Bytes) → length d < fuel → All IsName (split d) → canonical_loop fuel d ≡ true)
        → length t < suc fuel
        → All IsName (tail_fields t)
        → at_end (canonical_loop fuel) t ≡ true
    by_rest [] ih l a = refl
    by_rest (x ∷ rest) ih l a = ih rest (omega arith) a

abbrev tail : Bytes → Bytes
tail [] = []
tail (x ∷ c) = c

not_empty : (c : Bytes) → All IsName (split c) → c ≢ []
unfolding split
not_empty [] a q = a.0.some_byte refl
not_empty (x ∷ c) a q = cc

to_IsCanonical : (p : Bytes) → l2s_canonical p ≡ true → IsCanonical p × (p ≢ slash ∷ [])
unfolding l2s_canonical
to_IsCanonical [] e = cc
to_IsCanonical (x ∷ c) e =
    let first : x ≡ slash = ground arith in
    let loop : canonical_loop (length c + 1) c ≡ true = ground arith in
    let names = canonical_loop-names (length c + 1) c loop in
    (
      record { rest = c; spelled = ap (λ y. y ∷ c) first; names = inr names },
      λ q. not_empty c names (ap tail q),
    )

from_IsCanonical : (p : Bytes) → IsCanonical p → p ≢ slash ∷ [] → l2s_canonical p ≡ true
unfolding l2s_canonical
from_IsCanonical p k n = ap l2s_canonical k.spelled ∙ by_names k.rest k.names k.spelled
  where
    by_names :
        (rest : Bytes)
        → (rest ≡ []) ⊎ All IsName (split rest)
        → p ≡ slash ∷ rest
        → canonical_loop (length rest + 1) rest ≡ true
    by_names rest (inl q) s = absurd (n (s ∙ ap (λ t. slash ∷ t) q))
    by_names rest (inr a) s = names-canonical_loop (length rest + 1) rest (omega arith) a

-- l2s_canonical accepts exactly the canonical paths, as the answers of cng_path_canon are, other
-- than the root: a slash, and names between single slashes, none of them empty, . or ...
pub l2s_canonical-IsCanonical :
    (p : Bytes) → (l2s_canonical p ≡ true) ↔ (IsCanonical p × (p ≢ slash ∷ []))
l2s_canonical-IsCanonical p = (to_IsCanonical p, λ k. from_IsCanonical p k.0 k.1)
