-- ===== src/Links/Located.antt =====
-- `l2s_locate` of src/monitor/l2s.c follows a link to nothing but a data file in a place of its own.
use mathlib.Core.List.{append_assoc}
use mathlib.Core.Option.{some-injective}
use mathlib.Core.Path.{subst}
use fake_chroot_ng.Prelude.{
  ℕ, ◌+◌, ◌≤◌, ◌<◌, ◌≡◌, refl, sym, ap, ◌∙◌, inl, inr, Bool, true, false, not, Option, none, some,
  [], ◌∷◌, ◌++◌, arith, leb, ◌==◌, if◌then◌else◌, length, length-append, Bool-cases, split_if,
  Option-cases,
}
use fake_chroot_ng.Bytes.{Bytes, bytes, byte_at}
use fake_chroot_ng.Path.{slash, path_max}
use fake_chroot_ng.Links.{
  u64_max, build_name, strrchr_slash, behind, basename, dirname, strcmp_eq, parse_data_exact,
  ends_in_slash, is_some,
}
use fake_chroot_ng.Path.Canonical.{IsCanonical}
use fake_chroot_ng.Links.Digits.{if_true}
use fake_chroot_ng.Links.Exact.{data_name, parse_data_exact-names}
use fake_chroot_ng.Links.Lexical.{l2s_canonical-IsCanonical}
use fake_chroot_ng.Links.Owned.{GuestPlace, owned-GuestPlace, root_of, store_dir-some}
use fake_chroot_ng.Links.Built.{
  build_name-read, if_false, slashed, slashed-split, strrchr_slash-append,
}
use fake_chroot_ng.Links.Place.{
  World, Found, ours, ordinary, too_long, owned, l2s_canonical, store_dir, store_heal, heal_into,
  store_shaped, if_there, beside, at_target, locate,
}

-- Where the file of a link may be: beside the link; where its target says, in a place of the
-- guest's own; or under the target's name in this rootfs's store.
pub data Where (w : World) (host tgt file : Bytes) : Bool → Type 0 where
  beside_link :
      strrchr_slash tgt ≡ none
      → file ≡ slashed (dirname host path_max) ++ tgt
      → Where w host tgt file false
  as_named : IsCanonical tgt → GuestPlace w tgt → file ≡ tgt → Where w host tgt file false
  in_store :
      (store : Bytes)
      → IsCanonical tgt
      → store ≡ root_of w.view ++ bytes "/.l2s"
      → w.is_store_at store ≡ true
      → file ≡ store ++ slash ∷ basename tgt
      → Where w host tgt file true

-- What is claimed of the file that a link is followed to.
pub record IsOurs (w : World) (host tgt : Bytes) (sz : ℕ) (file : Bytes) (heal : Bool)
    : Type 0 where
  pub place : Where w host tgt file heal
  pub there : w.is_data_at file ≡ true
  pub fits : length file < sz
  pub last : basename file ≡ basename tgt

abbrev Checked : World → Bytes → Bytes → ℕ → Found → Type 0
Checked w host tgt sz (ours file heal) = IsOurs w host tgt sz file heal
Checked w host tgt sz ordinary = Unit
Checked w host tgt sz too_long = Unit

-- The last component has no slash.
behind_none : (t a b : Bytes) → strrchr_slash t ≡ some (a, b) → strrchr_slash b ≡ none
unfolding strrchr_slash
behind_none [] a b e = cc
behind_none (x ∷ t) a b e = elim (Option-cases (strrchr_slash t)) [
  | inl q ↦ elim (Bool-cases (x == slash)) [
    | inl d ↦
        let k : some ([], t) ≡ some (a, b) = rw d at (rw q at e) in
        subst (λ m. strrchr_slash m ≡ none)
          (ap (λ (m : Bytes × Bytes). m.1) (some-injective ([], t) (a, b) k)) q
    | inr d ↦
        let k : ◌≡◌ {A = Option (Bytes × Bytes)} none (some (a, b)) = rw d at (rw q at e) in cc
  ]
  | inr (r, q) ↦
      let k : some (x ∷ r.0, r.1) ≡ some (a, b) = rw q at e in
      subst (λ m. strrchr_slash m ≡ none)
        (ap (λ (m : Bytes × Bytes). m.1) (some-injective (x ∷ r.0, r.1) (a, b) k))
        (behind_none t r.0 r.1 q)
]

basename_plain : (t : Bytes) → strrchr_slash (basename t) ≡ none
unfolding basename
basename_plain t = by_split (strrchr_slash t) refl
  where
    by_split :
        (o : Option (Bytes × Bytes)) → strrchr_slash t ≡ o → strrchr_slash (behind t o) ≡ none
    by_split none q = q
    by_split (some (c, d)) q = behind_none t c d q

basename-append : (a b : Bytes) → strrchr_slash b ≡ none → basename (a ++ slash ∷ b) ≡ b
unfolding basename
basename-append a b e = ap (behind (a ++ slash ∷ b)) (strrchr_slash-append a b e)

slash_added :
    (dir : Bytes) → (if not (ends_in_slash dir) then dir ++ slash ∷ [] else dir) ≡ slashed dir
slash_added dir = elim (Bool-cases (ends_in_slash dir)) [ inl e ↦ rw e refl | inr e ↦ rw e refl ]

length-slash_added :
    (dir : Bytes)
    → length (if not (ends_in_slash dir) then dir ++ slash ∷ [] else dir)
      ≡ length dir + (if not (ends_in_slash dir) then 1 else 0)
length-slash_added dir = elim (Bool-cases (ends_in_slash dir)) [
  | inl e ↦ rw e (omega arith)
  | inr e ↦ rw e (length-append dir (slash ∷ []))
]

beside-Checked :
    (w : World) (host tgt : Bytes) (sz : ℕ)
    → strrchr_slash tgt ≡ none
    → Checked w host tgt sz (beside w host tgt sz)
unfolding beside basename
beside-Checked w host tgt sz e =
    let dir = dirname host path_max in
    let k = slashed-split dir in
    let joined = if not (ends_in_slash dir) then dir ++ slash ∷ [] else dir in
    split_if (Checked w host tgt sz)
      (leb sz (length dir + (if not (ends_in_slash dir) then 1 else 0) + length tgt)) too_long
      (if_there w (ours (joined ++ tgt) false)) (λ t. tt)
      λ n.
        split_if (Checked w host tgt sz) (w.is_data_at (joined ++ tgt)) (ours (joined ++ tgt) false)
          ordinary
          (λ there. record {
            place = beside_link e (ap (λ d. d ++ tgt) (slash_added dir));
            there = there;
            fits = ground (arith, n, length-append joined tgt, length-slash_added dir);
            last =
                ap basename
                  (ap (λ d. d ++ tgt) (slash_added dir ∙ k.1) ∙ append_assoc k.0 (slash ∷ []) tgt)
                ∙ basename-append k.0 tgt e
                ∙ sym (ap (behind tgt) e);
          })
          λ f. tt

canonical : (p : Bytes) → l2s_canonical p ≡ true → IsCanonical p
canonical p e = let k = (l2s_canonical-IsCanonical p).0 e in k.0

heal_into-Checked :
    (w : World) (host tgt : Bytes) (sz : ℕ) (o : Option Bytes)
    → l2s_canonical tgt ≡ true
    → store_dir w path_max ≡ o
    → Checked w host tgt sz (if_there w (heal_into tgt sz o))
heal_into-Checked w host tgt sz none e q = tt
heal_into-Checked w host tgt sz (some store) e q =
    let file = store ++ (slash ∷ basename tgt) in
    split_if (λ o. Checked w host tgt sz (if_there w o))
      (leb sz (length store + 1 + length (basename tgt))) too_long
      (if strcmp_eq file tgt then ordinary else ours file true) (λ f. tt)
      λ n.
        split_if (λ o. Checked w host tgt sz (if_there w o)) (strcmp_eq file tgt) ordinary
          (ours file true) (λ f. tt)
          λ f.
            split_if (Checked w host tgt sz) (w.is_data_at file) (ours file true) ordinary
              (λ there. record {
                place =
                    let k = store_dir-some w store path_max q in
                    in_store store (canonical tgt e) k.0 k.1 refl;
                there = there;
                fits = ground (arith, n, length-append store (slash ∷ basename tgt));
                last = basename-append store (basename tgt) (basename_plain tgt);
              })
              λ g. tt

store_heal-Checked :
    (w : World) (host tgt : Bytes) (sz : ℕ)
    → l2s_canonical tgt ≡ true
    → Checked w host tgt sz (if_there w (store_heal w tgt sz))
unfolding store_heal
store_heal-Checked w host tgt sz e = elim (Bool-cases (store_shaped tgt)) [
  | inl s ↦ rw s (heal_into-Checked w host tgt sz (store_dir w path_max) e refl)
  | inr s ↦ rw s tt
]

at_target-Checked :
    (w : World) (host tgt : Bytes) (sz : ℕ) → Checked w host tgt sz (at_target w tgt sz)
unfolding at_target
at_target-Checked w host tgt sz =
    let stale = if_there w (store_heal w tgt sz) in
    let there = if w.is_data_at tgt then ours tgt false else stale in
    let named = if leb sz (length tgt) then too_long else there in
    split_if (Checked w host tgt sz) (not (l2s_canonical tgt)) ordinary
      (if owned w tgt then named else stale) (λ f. tt)
      λ c.
        let canon : l2s_canonical tgt ≡ true = ground arith in
        split_if (Checked w host tgt sz) (owned w tgt) named stale
          (λ own.
            split_if (Checked w host tgt sz) (leb sz (length tgt)) too_long there (λ f. tt)
              λ fits.
                split_if (Checked w host tgt sz) (w.is_data_at tgt) (ours tgt false) stale
                  (λ d. record {
                    place = as_named (canonical tgt canon) (owned-GuestPlace w tgt own) refl;
                    there = d;
                    fits = ground arith;
                    last = refl;
                  })
                  λ f. store_heal-Checked w host tgt sz canon)
          λ f. store_heal-Checked w host tgt sz canon

-- A file that a link is followed to bears the name of a group, ".l2s." and a 64-bit number as it is
-- printed, and stands where a link of the monitor's own may lead.
abbrev pub Followed : World → Bytes → Bytes → ℕ → Bytes → Bool → Type 0
Followed w host tgt sz file heal =
    IsOurs w host tgt sz file heal × (ino : ℕ) × (ino ≤ u64_max) × (basename file ≡ data_name ino)

option_some {ℓ} : {A : Type ℓ} (o : Option A) → is_some o ≡ true → (a : A) × (o ≡ some a)
option_some none e = cc
option_some (some a) e = (a, refl)

to_Followed :
    (w : World) (host tgt : Bytes) (sz : ℕ) (file : Bytes) (heal : Bool) (o : Found)
    → is_some (parse_data_exact (basename tgt)) ≡ true
    → Checked w host tgt sz o
    → o ≡ ours file heal
    → Followed w host tgt sz file heal
to_Followed w host tgt sz file heal o p c e =
    let checked : IsOurs w host tgt sz file heal = subst (Checked w host tgt sz) e c in
    let k = option_some (parse_data_exact (basename tgt)) p in
    let n = (parse_data_exact-names (basename tgt) k.0).0 k.1 in
    (checked, k.0, n.0, checked.last ∙ n.1)

none_of {ℓ} : {A : Type ℓ} (o : Option A) → is_some o ≡ false → o ≡ none
none_of none e = refl
none_of (some a) e = cc

-- l2s_locate never follows a link to anything but a data file in a place of its own: where it
-- answers a file, that file is there and is a data file, its path fits the buffer, its last
-- component is ".l2s." and a number below 2^64 as it is printed, and it stands beside the link (a
-- bare name); or where a canonical target says, which is under the rootfs or a bind of the view or
-- of the one that the program was started with, or which some guest path is translated to, or
-- anywhere with no view; or, to be healed, under the target's last name in the store of this
-- rootfs, which is there.
pub locate-Followed :
    (w : World) (host tgt : Bytes) (sz : ℕ) (file : Bytes) (heal : Bool)
    → locate w host tgt sz ≡ ours file heal
    → Followed w host tgt sz file heal
unfolding locate
locate-Followed w host tgt sz file heal =
    let Goal = λ (o : Found). o ≡ ours file heal → Followed w host tgt sz file heal in
    let rest = if is_some (strrchr_slash tgt) then ordinary else beside w host tgt sz in
    let named = if byte_at tgt 0 == slash then at_target w tgt sz else rest in
    split_if Goal (not (is_some (parse_data_exact (basename tgt)))) ordinary named (λ f e. cc)
      λ n.
        let p : is_some (parse_data_exact (basename tgt)) ≡ true = ground arith in
        split_if Goal (byte_at tgt 0 == slash) (at_target w tgt sz) rest
          (λ f.
            to_Followed w host tgt sz file heal (at_target w tgt sz) p
              (at_target-Checked w host tgt sz))
          λ f.
            split_if Goal (is_some (strrchr_slash tgt)) ordinary (beside w host tgt sz) (λ g e. cc)
              λ g.
                to_Followed w host tgt sz file heal (beside w host tgt sz) p
                  (beside-Checked w host tgt sz (none_of (strrchr_slash tgt) g))

canonical_first : (p : Bytes) → l2s_canonical p ≡ true → (byte_at p 0 == slash) ≡ true
unfolding l2s_canonical
canonical_first [] e = cc
canonical_first (x ∷ p) e = ground arith

at_target-there :
    (w : World) (path : Bytes) (sz : ℕ)
    → l2s_canonical path ≡ true
    → owned w path ≡ true
    → w.is_data_at path ≡ true
    → length path < sz
    → at_target w path sz ≡ ours path false
unfolding at_target
at_target-there w path sz c o d l =
    if_false (not (l2s_canonical path)) _ _ (ap not c)
    ∙ if_true (owned w path) _ _ o
    ∙ if_false (leb sz (length path)) _ _ (ground arith)
    ∙ if_true (w.is_data_at path) _ _ d

-- A link that carries the path build_name gave a data file is followed to just that path, and not
-- repointed, for a room above 0 and a 64-bit inode, when the path is canonical, it is in a place
-- of the guest's own, the data file is there and the path fits the caller's buffer.
pub locate-build_name :
    (w : World) (host dir path : Bytes) (sz room ino : ℕ)
    → 0 < room
    → ino ≤ u64_max
    → build_name room dir ino none ≡ some path
    → l2s_canonical path ≡ true
    → owned w path ≡ true
    → w.is_data_at path ≡ true
    → length path < sz
    → locate w host path sz ≡ ours path false
unfolding locate
locate-build_name w host dir path sz room ino h hi e c o d l =
    let read = (build_name-read room ino 0 dir path h hi (omega arith)).0 e in
    if_false (not (is_some (parse_data_exact (basename path)))) _ _ (ap (λ q. not (is_some q)) read)
    ∙ if_true (byte_at path 0 == slash) _ _ (canonical_first path c)
    ∙ at_target-there w path sz c o d l
