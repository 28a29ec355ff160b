-- ===== src/Ipc/Ids.antt =====
-- The ids of the tables of src/monitor/ipcreg.c: lookups, free slots and new ids.
use fake_chroot_ng.Prelude.{
  ℕ, zero, suc, ◌+◌, ◌%◌, ◌^◌, ◌<◌, ◌≡◌, refl, sym, ap, ◌∙◌, inl, inr, Bool, true, false, not, ◌&&◌,
  ◌||◌, Option, none, some, List, [], ◌∷◌, arith, ◌==◌, if◌then◌else◌, set, neg32, get_elem?,
  Bool-cases,
}
use mathlib.Core.Path.{subst}
use fake_chroot_ng.Ipc.Table.{find_id, find, is_none, alloc_id, find_key, free_slot}

-- The counter behind an id.
abbrev counter : ℕ → ℕ
counter next = let after = (next + 1) % 2 ^ 32 in if after == 0 || neg32 after then 1 else after

module _ {A : Type 0} (id_of : A → ℕ) where
  -- Ids are positive ints, and no two used slots have the same.
  abbrev pub Unique : List (Option A) → Type 0
  Unique [] = Unit
  Unique (none ∷ tbl) = Unique tbl
  Unique (some a ∷ tbl) =
      (0 < id_of a) × (id_of a < 2 ^ 31) × (find_id id_of (id_of a) tbl ≡ none) × Unique tbl

  pub find-find_id :
      (id : ℕ) (tbl : List (Option A))
      → 0 < id
      → id < 2 ^ 31
      → find id_of id tbl ≡ find_id id_of id tbl
  find-find_id id tbl l h = ground arith

  -- An id that is allocated is positive, and no slot has it.
  pub alloc_id-free :
      (tries : ℕ) (tbl : List (Option A)) (next id n : ℕ)
      → alloc_id id_of tries tbl next ≡ (some id, n)
      → (0 < id) × (id < 2 ^ 31) × (find_id id_of id tbl ≡ none)
  alloc_id-free zero tbl next id n e = absurd (cc)
  alloc_id-free (suc tries) tbl next id n e =
      go (not (next == 0 || neg32 next) && is_none id_of (find id_of next tbl)) refl
        (λ c h. alloc_id-free tries tbl c id n h) e
    where
      none_found : (o : Option A) → is_none id_of o ≡ true → o ≡ none
      none_found none h = refl
      none_found (some a) h = absurd (cc)

      is_next : {c : ℕ} → ◌≡◌ {A = Option ℕ × ℕ} (some next, c) (some id, n) → next ≡ id
      is_next h = cc

      go :
          (b : Bool)
          → (not (next == 0 || neg32 next) && is_none id_of (find id_of next tbl)) ≡ b
          → ((c : ℕ)
              → alloc_id id_of tries tbl c ≡ (some id, n)
              → (0 < id) × (id < 2 ^ 31) × (find_id id_of id tbl ≡ none))
          → (if b then (some next, counter next) else alloc_id id_of tries tbl (counter next))
            ≡ (some id, n)
          → (0 < id) × (id < 2 ^ 31) × (find_id id_of id tbl ≡ none)
      go false q again h = again (counter next) h
      go true q again h =
          subst (λ i. (0 < i) × (i < 2 ^ 31) × (find_id id_of i tbl ≡ none)) (is_next h)
            (
              ground (arith, q),
              ground (arith, q),
              sym (find-find_id next tbl (ground (arith, q)) (ground (arith, q)))
                  ∙ none_found (find id_of next tbl) (ground (arith, q)),
            )

  -- A used slot more.
  set-none :
      (tbl : List (Option A)) (k id : ℕ) (a : A)
      → (id_of a == id) ≡ false
      → find_id id_of id tbl ≡ none
      → find_id id_of id (set tbl k (some a)) ≡ none
  set-none [] k id a d f = refl
  set-none (none ∷ tbl) zero id a d f = rw d f
  set-none (none ∷ tbl) (suc k) id a d f = set-none tbl k id a d f
  set-none (some b ∷ tbl) zero id a d f = ground (arith, d, f)
  set-none (some b ∷ tbl) (suc k) id a d f = ground (arith, f, set-none tbl k id a d)

  pub set-found :
      (tbl : List (Option A)) (k : ℕ) (a : A)
      → get_elem? tbl k ≡ some none
      → find_id id_of (id_of a) tbl ≡ none
      → find_id id_of (id_of a) (set tbl k (some a)) ≡ some a
  set-found [] k a e f = absurd (cc)
  set-found (none ∷ tbl) zero a e f = ground arith
  set-found (none ∷ tbl) (suc k) a e f = set-found tbl k a e f
  set-found (some b ∷ tbl) zero a e f = absurd (cc)
  set-found (some b ∷ tbl) (suc k) a e f = ground (arith, f, set-found tbl k a e)

  pub set-Unique :
      (tbl : List (Option A)) (k : ℕ) (a : A)
      → get_elem? tbl k ≡ some none
      → 0 < id_of a
      → id_of a < 2 ^ 31
      → find_id id_of (id_of a) tbl ≡ none
      → Unique tbl
      → Unique (set tbl k (some a))
  set-Unique [] k a e l h f u = tt
  set-Unique (none ∷ tbl) zero a e l h f u = (l, h, f, u)
  set-Unique (none ∷ tbl) (suc k) a e l h f u = set-Unique tbl k a e l h f u
  set-Unique (some b ∷ tbl) zero a e l h f u = absurd (cc)
  set-Unique (some b ∷ tbl) (suc k) a e l h f u = (
    u.0,
    u.1,
    set-none tbl k (id_of b) a (ground (arith, f)) u.2,
    set-Unique tbl k a e l h (ground (arith, f)) u.3,
  )

  -- The same id in the same slot.
  same-none :
      (tbl : List (Option A)) (k id : ℕ) (a b : A)
      → get_elem? tbl k ≡ some (some b)
      → id_of a ≡ id_of b
      → find_id id_of id tbl ≡ none
      → find_id id_of id (set tbl k (some a)) ≡ none
  same-none [] k id a b e s f = refl
  same-none (none ∷ tbl) zero id a b e s f = absurd (cc)
  same-none (none ∷ tbl) (suc k) id a b e s f = same-none tbl k id a b e s f
  same-none (some c ∷ tbl) zero id a b e s f = ground (arith, s, f, ap (λ o. o) (same e))
    where
      same : ◌≡◌ {A = Option (Option A)} (some (some c)) (some (some b)) → id_of c ≡ id_of b
      same e = cc
  same-none (some c ∷ tbl) (suc k) id a b e s f = ground (arith, f, same-none tbl k id a b e s)

  at-differs :
      (tbl : List (Option A)) (k id : ℕ) (b : A)
      → get_elem? tbl k ≡ some (some b)
      → find_id id_of id tbl ≡ none
      → (id_of b == id) ≡ false
  at-differs [] k id b e f = absurd (cc)
  at-differs (none ∷ tbl) zero id b e f = absurd (cc)
  at-differs (none ∷ tbl) (suc k) id b e f = at-differs tbl k id b e f
  at-differs (some c ∷ tbl) zero id b e f = ground (arith, f, same e)
    where
      same : ◌≡◌ {A = Option (Option A)} (some (some c)) (some (some b)) → id_of c ≡ id_of b
      same e = cc
  at-differs (some c ∷ tbl) (suc k) id b e f = at-differs tbl k id b e (ground (arith, f))

  pub same-Unique :
      (tbl : List (Option A)) (k : ℕ) (a b : A)
      → get_elem? tbl k ≡ some (some b)
      → id_of a ≡ id_of b
      → Unique tbl
      → Unique (set tbl k (some a))
        × (0 < id_of a)
        × (id_of a < 2 ^ 31)
        × (find_id id_of (id_of a) (set tbl k (some a)) ≡ some a)
  same-Unique [] k a b e s u = absurd (cc)
  same-Unique (none ∷ tbl) zero a b e s u = absurd (cc)
  same-Unique (none ∷ tbl) (suc k) a b e s u = same-Unique tbl k a b e s u
  same-Unique (some c ∷ tbl) zero a b e s u =
      ((rw moved u.0, rw moved u.1, rw moved u.2, u.3), rw moved u.0, rw moved u.1, ground arith)
    where
      same : ◌≡◌ {A = Option (Option A)} (some (some c)) (some (some b)) → id_of c ≡ id_of b
      same e = cc

      moved : id_of a ≡ id_of c
      moved = s ∙ sym (same e)
  same-Unique (some c ∷ tbl) (suc k) a b e s u =
      let (v, l, h, f) = same-Unique tbl k a b e s u.3 in
      (
        (u.0, u.1, same-none tbl k (id_of c) a b e s u.2, v),
        l,
        h,
        ground (arith, f, s, at-differs tbl k (id_of c) b e u.2),
      )

pub free_slot-at {ℓ} :
    {A : Type ℓ} (tbl : List (Option A)) (i j : ℕ)
    → free_slot i tbl ≡ some j
    → (k : ℕ) × (j ≡ i + k) × (get_elem? tbl k ≡ some none)
free_slot-at [] i j e = absurd (cc)
free_slot-at (none ∷ tbl) i j e = (0, ground arith, refl)
free_slot-at (some a ∷ tbl) i j e =
    let (k, s, g) = free_slot-at tbl (i + 1) j e in (suc k, omega (arith, s), g)

pub find_key-at {ℓ} :
    {A : Type ℓ} (key_of : A → ℕ) (key : ℕ) (tbl : List (Option A)) (i j : ℕ) (a : A)
    → find_key key_of key i tbl ≡ some (j, a)
    → (k : ℕ) × (j ≡ i + k) × (get_elem? tbl k ≡ some (some a)) × (key_of a ≡ key)
find_key-at key_of key [] i j a e = absurd (cc)
find_key-at key_of key (none ∷ tbl) i j a e =
    let (k, s, g, h) = find_key-at key_of key tbl (i + 1) j a e in (suc k, omega (arith, s), g, h)
find_key-at {A = A} key_of key (some b ∷ tbl) i j a e = elim (Bool-cases (key_of b == key)) [
  | inl h ↦ (0, first h, rw (same h) refl, rw (sym (same h)) (ground arith))
  | inr h ↦
      let (k, s, g, q) = find_key-at key_of key tbl (i + 1) j a (sym (other h) ∙ e) in
      (suc k, omega (arith, s), g, q)
]
  where
    hit : (key_of b == key) ≡ true → find_key key_of key i (some b ∷ tbl) ≡ some (i, b)
    hit h = rw h

    other :
        (key_of b == key) ≡ false
        → find_key key_of key i (some b ∷ tbl) ≡ find_key key_of key (i + 1) tbl
    other h = rw h

    same : (key_of b == key) ≡ true → b ≡ a
    same h = inside (sym (hit h) ∙ e)
      where
        inside : ◌≡◌ {A = Option (ℕ × A)} (some (i, b)) (some (j, a)) → b ≡ a
        inside q = cc

    first : (key_of b == key) ≡ true → j ≡ i + 0
    first h = inside (sym (hit h) ∙ e) ∙ omega arith
      where
        inside : ◌≡◌ {A = Option (ℕ × A)} (some (i, b)) (some (j, a)) → j ≡ i
        inside q = cc
