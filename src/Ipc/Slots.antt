-- ===== src/Ipc/Slots.antt =====
-- The slots of the tables of src/monitor/ipcreg.c, and the search for the earliest waiter.
use mathlib.Core.Option.{some-injective}
use fake_chroot_ng.Prelude.{
  ℕ, zero, suc, ◌≡◌, ◌≢◌, ◌⊎◌, refl, sym, ap, ◌∙◌, inl, inr, ◌||◌, Option, none, some, List, [],
  ◌∷◌, arith, ◌==◌, set, Bool-cases, neg32,
}
use fake_chroot_ng.Ipc.Table.{find, find_id}
use fake_chroot_ng.Ipc.Waiters.{put_id}

-- What a slot holds; `none` also where there is no such slot.
abbrev pub at_slot {ℓ} : {A : Type ℓ} → List (Option A) → ℕ → Option A
at_slot [] i = none
at_slot (o ∷ tbl) zero = o
at_slot (o ∷ tbl) (suc i) = at_slot tbl i

module _ {A : Type 0} where
  -- After a write to a slot that was used, that slot holds what was written, and every other one
  -- what it did.
  pub at_slot-set :
      (tbl : List (Option A)) (i j : ℕ) (a x : A) (o : Option A)
      → at_slot tbl i ≡ some a
      → at_slot (set tbl i o) j ≡ some x
      → ((i ≡ j) × (o ≡ some x)) ⊎ ((i ≢ j) × (at_slot tbl j ≡ some x))
  at_slot-set [] i j a x o h e = cc
  at_slot-set (p ∷ tbl) zero zero a x o h e = inl (refl, e)
  at_slot-set (p ∷ tbl) zero (suc j) a x o h e = inr (omega arith, e)
  at_slot-set (p ∷ tbl) (suc i) zero a x o h e = inr (omega arith, e)
  at_slot-set (p ∷ tbl) (suc i) (suc j) a x o h e = elim (at_slot-set tbl i j a x o h e) [
    | inl k ↦ inl (ap (λ n. suc n) k.0, k.1)
    | inr k ↦ inr (omega (arith, k.0), k.1)
  ]

  module _ (id_of : A → ℕ) where
    find_id-slot :
        (id : ℕ) (tbl : List (Option A)) (a : A)
        → find_id id_of id tbl ≡ some a
        → (i : ℕ) × (at_slot tbl i ≡ some a) × (id_of a ≡ id)
    find_id-slot id [] a e = cc
    find_id-slot id (none ∷ tbl) a e = let k = find_id-slot id tbl a e in (suc k.0, k.1, k.2)
    find_id-slot id (some b ∷ tbl) a e = elim (Bool-cases (id_of b == id)) [
      | inl d ↦
          let q : some b ≡ some a = rw d at e in
          let same : id_of b ≡ id = ground arith in
          (0, q, ap id_of (sym (some-injective b a q)) ∙ same)
      | inr d ↦ let k = find_id-slot id tbl a (rw d at e) in (suc k.0, k.1, k.2)
    ]

    -- What a lookup finds is in a slot, under that id.
    pub find-slot :
        (id : ℕ) (tbl : List (Option A)) (a : A)
        → find id_of id tbl ≡ some a
        → (i : ℕ) × (at_slot tbl i ≡ some a) × (id_of a ≡ id)
    find-slot id tbl a e = elim (Bool-cases (id == 0 || neg32 id)) [
      | inl d ↦ let q : none ≡ some a = rw d at e in cc
      | inr d ↦ find_id-slot id tbl a (rw d at e)
    ]

    -- Writing back what was found changes nothing.
    put_id-find_id :
        (id : ℕ) (tbl : List (Option A)) (a : A)
        → find_id id_of id tbl ≡ some a
        → put_id id_of id a tbl ≡ tbl
    put_id-find_id id [] a e = cc
    put_id-find_id id (none ∷ tbl) a e = ap (λ t. none ∷ t) (put_id-find_id id tbl a e)
    put_id-find_id id (some b ∷ tbl) a e = elim (Bool-cases (id_of b == id)) [
      | inl d ↦ let q : some b ≡ some a = rw d at e in rw d (ap (λ o. o ∷ tbl) (sym q))
      | inr d ↦ rw d (ap (λ t. some b ∷ t) (put_id-find_id id tbl a (rw d at e)))
    ]

    pub put_id-find :
        (id : ℕ) (tbl : List (Option A)) (a : A)
        → find id_of id tbl ≡ some a
        → put_id id_of id a tbl ≡ tbl
    put_id-find id tbl a e = elim (Bool-cases (id == 0 || neg32 id)) [
      | inl d ↦ let q : none ≡ some a = rw d at e in cc
      | inr d ↦ put_id-find_id id tbl a (rw d at e)
    ]

    -- After a write a slot holds what was written, or what it did.
    pub at_slot-put_id :
        (id : ℕ) (tbl : List (Option A)) (a x : A) (i : ℕ)
        → at_slot (put_id id_of id a tbl) i ≡ some x
        → (a ≡ x) ⊎ (at_slot tbl i ≡ some x)
    at_slot-put_id id [] a x i e = cc
    at_slot-put_id id (none ∷ tbl) a x zero e = cc
    at_slot-put_id id (none ∷ tbl) a x (suc i) e = at_slot-put_id id tbl a x i e
    at_slot-put_id id (some b ∷ tbl) a x i e = elim (Bool-cases (id_of b == id)) [
      | inl d ↦ first i (rw d at e)
      | inr d ↦ other i (rw d at e) (λ j. at_slot-put_id id tbl a x j)
    ]
      where
        first :
            (i : ℕ)
            → at_slot (some a ∷ tbl) i ≡ some x
            → (a ≡ x) ⊎ (at_slot (some b ∷ tbl) i ≡ some x)
        first zero q = inl (some-injective a x q)
        first (suc i) q = inr q

        other :
            (i : ℕ)
            → at_slot (some b ∷ put_id id_of id a tbl) i ≡ some x
            → ((j : ℕ)
                → at_slot (put_id id_of id a tbl) j ≡ some x
                → (a ≡ x) ⊎ (at_slot tbl j ≡ some x))
            → (a ≡ x) ⊎ (at_slot (some b ∷ tbl) i ≡ some x)
        other zero q ih = inr q
        other (suc i) q ih = ih i q
