-- ===== src/Cred/Groups.antt =====
-- `sort_groups`, `same_set` and `real_set` of src/monitor/cred.c.
use fake_chroot_ng.Prelude.{
  ℕ, ◌+◌, ◌≤◌, ◌<◌, ◌≡◌, refl, sym, ap, ap₂, ◌∙◌, ◌↔◌, Bool, true, ◌&&◌, List, [], ◌∷◌, ◌++◌,
  reverse, arith, ◌==◌, if◌then◌else◌, All,
}
use mathlib.Core.List.{reverse-append}
use fake_chroot_ng.Cred.{Cred}
use fake_chroot_ng.Cred.Real.{sink, sort_from, sort_groups, same_list, same_ids, same_set}

-- How often `v` stands in a list.
abbrev pub count : ℕ → List ℕ → ℕ
count v [] = 0
count v (x ∷ xs) = (if v == x then 1 else 0) + count v xs

-- Ascending.
abbrev pub IsSorted : List ℕ → Type 0
IsSorted [] = Unit
IsSorted (x ∷ xs) = All (λ y. x ≤ y) xs × IsSorted xs

-- Descending: how the sorted prefix is held.
abbrev IsFalling : List ℕ → Type 0
IsFalling [] = Unit
IsFalling (x ∷ xs) = All (λ y. y ≤ x) xs × IsFalling xs

count-append : (v : ℕ) (xs ys : List ℕ) → count v (xs ++ ys) ≡ count v xs + count v ys
count-append v [] ys = omega arith
count-append v (x ∷ xs) ys = omega (arith, count-append v xs ys)

count-sink : (v x : ℕ) (ys : List ℕ) → count v (sink x ys) ≡ count v (x ∷ ys)
unfolding sink
count-sink v x [] = refl
count-sink v x (y ∷ ys) = ground (arith, count-sink v x ys)

All-le-sink : (x k : ℕ) (ys : List ℕ) → x ≤ k → All (λ y. y ≤ k) ys → All (λ y. y ≤ k) (sink x ys)
unfolding sink
All-le-sink x k [] h a = (h, tt)
All-le-sink x k (y ∷ ys) h a = ground (arith, All-le-sink x k ys h a.1)

All-weaken : (x k : ℕ) (ys : List ℕ) → x ≤ k → All (λ y. y ≤ x) ys → All (λ y. y ≤ k) ys
All-weaken x k [] h a = tt
All-weaken x k (y ∷ ys) h a = (omega arith, All-weaken x k ys h a.1)

sink-IsFalling : (x : ℕ) (ys : List ℕ) → IsFalling ys → IsFalling (sink x ys)
unfolding sink
sink-IsFalling x [] f = (tt, tt)
sink-IsFalling x (y ∷ ys) f =
    ground (arith, sink-IsFalling x ys f.1, All-le-sink x y ys, All-weaken y x ys)

count-reverse : (v : ℕ) (xs : List ℕ) → count v (reverse xs) ≡ count v xs
count-reverse v [] = refl
count-reverse v (x ∷ xs) =
    ap (count v) (reverse-append (x ∷ []) xs)
    ∙ omega (arith, count-append v (reverse xs) (x ∷ []), count-reverse v xs)

module _ (P : ℕ → Type 0) where
  All-snoc : (xs : List ℕ) (y : ℕ) → All P xs → P y → All P (xs ++ y ∷ [])
  All-snoc [] y a p = (p, tt)
  All-snoc (x ∷ xs) y a p = (a.0, All-snoc xs y a.1 p)

  All-reverse : (xs : List ℕ) → All P xs → All P (reverse xs)
  All-reverse [] a = tt
  All-reverse (x ∷ xs) a =
      rw (reverse-append (x ∷ []) xs) (All-snoc (reverse xs) x (All-reverse xs a.1) a.0)

snoc-IsSorted : (xs : List ℕ) (y : ℕ) → IsSorted xs → All (λ x. x ≤ y) xs → IsSorted (xs ++ y ∷ [])
snoc-IsSorted [] y s a = (tt, tt)
snoc-IsSorted (x ∷ xs) y s a = (All-snoc (λ z. x ≤ z) xs y s.0 a.0, snoc-IsSorted xs y s.1 a.1)

reverse-IsSorted : (xs : List ℕ) → IsFalling xs → IsSorted (reverse xs)
reverse-IsSorted [] f = tt
reverse-IsSorted (x ∷ xs) f =
    rw (reverse-append (x ∷ []) xs)
      (snoc-IsSorted (reverse xs) x (reverse-IsSorted xs f.1) (All-reverse (λ y. y ≤ x) xs f.0))

sort_from-IsSorted : (p xs : List ℕ) → IsFalling p → IsSorted (sort_from p xs)
unfolding sort_from
sort_from-IsSorted p [] f = reverse-IsSorted p f
sort_from-IsSorted p (x ∷ xs) f = sort_from-IsSorted (sink x p) xs (sink-IsFalling x p f)

count-sort_from : (v : ℕ) (p xs : List ℕ) → count v (sort_from p xs) ≡ count v p + count v xs
unfolding sort_from
count-sort_from v p [] = omega (arith, count-reverse v p)
count-sort_from v p (x ∷ xs) = omega (arith, count-sort_from v (sink x p) xs, count-sink v x p)

-- The sort of a group list is ascending and holds every id as often as the list does.
pub sort_groups_lem :
    (g : List ℕ) → IsSorted (sort_groups g) × ((v : ℕ) → count v (sort_groups g) ≡ count v g)
unfolding sort_groups
sort_groups_lem g = (sort_from-IsSorted [] g tt, λ v. omega (arith, count-sort_from v [] g))

count_below : (v y : ℕ) (ys : List ℕ) → v < y → All (λ z. y ≤ z) ys → count v ys ≡ 0
count_below v y [] h a = refl
count_below v y (z ∷ ys) h a = ground (arith, count_below v y ys h a.1)

IsSorted-unique :
    (xs ys : List ℕ) → IsSorted xs → IsSorted ys → ((v : ℕ) → count v xs ≡ count v ys) → xs ≡ ys
IsSorted-unique [] [] s t h = refl
IsSorted-unique [] (y ∷ ys) s t h = absurd (ground (arith, h y))
IsSorted-unique (x ∷ xs) [] s t h = absurd (ground (arith, h x))
IsSorted-unique (x ∷ xs) (y ∷ ys) s t h =
    ap₂ ◌∷◌ same (IsSorted-unique xs ys s.1 t.1 (λ v. ground (arith, h v, same)))
  where
    same : x ≡ y
    same = ground (arith, h x, h y, count_below x y ys, count_below y x xs)

same_list_iff : (xs ys : List ℕ) → (same_list xs ys ≡ true) ↔ (xs ≡ ys)
unfolding same_list
same_list_iff [] [] = ground arith
same_list_iff [] (y ∷ ys) = ground arith
same_list_iff (x ∷ xs) [] = ground arith
same_list_iff (x ∷ xs) (y ∷ ys) = ground (arith, same_list_iff xs ys)

and_left : (p q : Bool) → (p && q) ≡ true → p ≡ true
and_left p q h = ground arith

and_right : (p q : Bool) → (p && q) ≡ true → q ≡ true
and_right p q h = ground arith

and_intro : (p q : Bool) → p ≡ true → q ≡ true → (p && q) ≡ true
and_intro p q h k = ground arith

-- The eight ids of two sets are the same.
pub record SameIds (a b : Cred) : Type 0 where
  pub ruid : a.ruid ≡ b.ruid
  pub euid : a.euid ≡ b.euid
  pub suid : a.suid ≡ b.suid
  pub fsuid : a.fsuid ≡ b.fsuid
  pub rgid : a.rgid ≡ b.rgid
  pub egid : a.egid ≡ b.egid
  pub sgid : a.sgid ≡ b.sgid
  pub fsgid : a.fsgid ≡ b.fsgid

same_ids_iff : (a b : Cred) → (same_ids a b ≡ true) ↔ SameIds a b
unfolding same_ids
same_ids_iff a b = (λ h. ground arith, λ h. ground arith)

abbrev SameGroups : Cred → Cred → Type 0
SameGroups a b = (v : ℕ) → count v a.groups ≡ count v b.groups

sorted_groups_iff : (a b : Cred) → (sort_groups a.groups ≡ sort_groups b.groups) ↔ SameGroups a b
sorted_groups_iff a b = (
  λ h v. sym ((sort_groups_lem a.groups).1 v) ∙ ap (count v) h ∙ (sort_groups_lem b.groups).1 v,
  λ h.
      IsSorted-unique (sort_groups a.groups) (sort_groups b.groups) (sort_groups_lem a.groups).0
        (sort_groups_lem b.groups).0
        (λ v. (sort_groups_lem a.groups).1 v ∙ h v ∙ sym ((sort_groups_lem b.groups).1 v)),
)

-- same_set holds exactly when the eight ids agree and every group stands in both lists equally
-- often, in whatever order.
pub same_set_iff :
    (a b : Cred)
    → (same_set a b ≡ true) ↔ (SameIds a b × ((v : ℕ) → count v a.groups ≡ count v b.groups))
unfolding same_set
same_set_iff a b = (
  λ h. (
    (same_ids_iff a b).0 (and_left _ _ h),
    (sorted_groups_iff a b).0 ((same_list_iff _ _).0 (and_right _ _ h)),
  ),
  λ h.
      and_intro _ _ ((same_ids_iff a b).1 h.0)
        ((same_list_iff _ _).1 ((sorted_groups_iff a b).1 h.1)),
)
