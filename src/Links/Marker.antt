-- ===== src/Links/Marker.antt =====
-- `find_marker` of src/monitor/l2s.c finds the count that a marker in the listing gives.
use mathlib.Core.Option.{some-injective}
use fake_chroot_ng.Prelude.{
  ℕ, ◌≤◌, ◌≡◌, ◌≢◌, ◌⊎◌, refl, ap, ap₂, inl, inr, Option, none, some, List, [], ◌∷◌, arith, ◌==◌,
  Bool-cases,
}
use fake_chroot_ng.Bytes.{Bytes}
use fake_chroot_ng.Links.{u64_max, parse_marker_exact}
use fake_chroot_ng.Links.Exact.{marker_name, parse_marker_exact-names}
use fake_chroot_ng.Links.Place.{marker_or, or_later, marker_among, find_marker}

abbrev pub Among : Bytes → List Bytes → Type 0
Among name [] = ⊥
Among name (n ∷ names) = (n ≡ name) ⊎ Among name names

-- The name is in the directory's listing.
abbrev pub Listed : Bytes → List (List Bytes) → Type 0
Listed name [] = ⊥
Listed name (batch ∷ batches) = Among name batch ⊎ Listed name batches

marker_or-some :
    (ino c : ℕ) (o : Option (ℕ × ℕ)) (rest : Option ℕ)
    → marker_or ino o rest ≡ some c
    → (o ≡ some (ino, c)) ⊎ (rest ≡ some c)
marker_or-some ino c none rest e = inr e
marker_or-some ino c (some (d, dc)) rest e = elim (Bool-cases (d == ino)) [
  | inl same ↦
      let k : some dc ≡ some c = rw same at e in
      let first : d ≡ ino = ground arith in
      inl (ap some (ap₂ (λ (a : ℕ) (b : ℕ). (a, b)) first (some-injective dc c k)))
  | inr other ↦ inr (rw other at e)
]

marker_or-none :
    (ino c : ℕ) (o : Option (ℕ × ℕ)) (rest : Option ℕ)
    → marker_or ino o rest ≡ none
    → (o ≢ some (ino, c)) × (rest ≡ none)
marker_or-none ino c none rest e = (λ q. cc, e)
marker_or-none ino c (some (d, dc)) rest e = elim (Bool-cases (d == ino)) [
  | inl same ↦ let k : some dc ≡ none = rw same at e in cc
  | inr other ↦ (
    λ q.
        let same : d ≡ ino = ap (λ (k : ℕ × ℕ). k.0) (some-injective (d, dc) (ino, c) q) in
        ground arith,
    rw other at e,
  )
]

or_later-some :
    (c : ℕ) (o later : Option ℕ) → or_later o later ≡ some c → (o ≡ some c) ⊎ (later ≡ some c)
or_later-some c none later e = inr e
or_later-some c (some d) later e = inl e

or_later-none : (o later : Option ℕ) → or_later o later ≡ none → (o ≡ none) × (later ≡ none)
or_later-none none later e = (refl, e)
or_later-none (some d) later e = cc

marker_among-some :
    (ino c : ℕ) (names : List Bytes)
    → marker_among ino names ≡ some c
    → Among (marker_name ino c) names
unfolding marker_among
marker_among-some ino c [] e = cc
marker_among-some ino c (name ∷ names) e =
    elim (marker_or-some ino c (parse_marker_exact name) (marker_among ino names) e) [
      | inl q ↦ inl ((parse_marker_exact-names name ino c).0 q).2
      | inr k ↦ inr (marker_among-some ino c names k)
    ]

marker_among-none :
    (ino c : ℕ) (names : List Bytes)
    → ino ≤ u64_max
    → c ≤ u64_max
    → marker_among ino names ≡ none
    → Among (marker_name ino c) names
    → ⊥
unfolding marker_among
marker_among-none ino c [] hi hc e m = m
marker_among-none ino c (name ∷ names) hi hc e (inl q) =
    (marker_or-none ino c (parse_marker_exact name) (marker_among ino names) e).0
      ((parse_marker_exact-names name ino c).1 (hi, hc, q))
marker_among-none ino c (name ∷ names) hi hc e (inr m) =
    marker_among-none ino c names hi hc
      (marker_or-none ino c (parse_marker_exact name) (marker_among ino names) e).1 m

find_marker-some :
    (ino c : ℕ) (batches : List (List Bytes))
    → find_marker ino batches ≡ some c
    → Listed (marker_name ino c) batches
unfolding find_marker
find_marker-some ino c [] e = cc
find_marker-some ino c (batch ∷ batches) e =
    elim (or_later-some c (marker_among ino batch) (find_marker ino batches) e) [
      | inl q ↦ inl (marker_among-some ino c batch q)
      | inr k ↦ inr (find_marker-some ino c batches k)
    ]

find_marker-none :
    (ino c : ℕ) (batches : List (List Bytes))
    → ino ≤ u64_max
    → c ≤ u64_max
    → find_marker ino batches ≡ none
    → Listed (marker_name ino c) batches
    → ⊥
unfolding find_marker
find_marker-none ino c [] hi hc e m = m
find_marker-none ino c (batch ∷ batches) hi hc e (inl m) =
    marker_among-none ino c batch hi hc
      (or_later-none (marker_among ino batch) (find_marker ino batches) e).0 m
find_marker-none ino c (batch ∷ batches) hi hc e (inr m) =
    find_marker-none ino c batches hi hc
      (or_later-none (marker_among ino batch) (find_marker ino batches) e).1 m

-- For an inode and a count of 64 bits: if find_marker answers the count, the directory lists the
-- group's marker with that count, and if the directory lists a marker of the group, find_marker
-- answers one.
pub find_marker_lem :
    (ino c : ℕ) (batches : List (List Bytes))
    → ino ≤ u64_max
    → c ≤ u64_max
    → (find_marker ino batches ≡ some c → Listed (marker_name ino c) batches)
      × (Listed (marker_name ino c) batches → find_marker ino batches ≢ none)
find_marker_lem ino c batches hi hc =
    (λ e. find_marker-some ino c batches e, λ m e. find_marker-none ino c batches hi hc e m)
