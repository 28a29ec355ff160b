-- ===== src/Ipc/Order.antt =====
-- The search for the earliest waiter in cng_ipc_rescan of src/monitor/ipcreg.c.
use mathlib.Core.Option.{some-injective}
use fake_chroot_ng.Prelude.{
  ℕ, zero, suc, ◌+◌, ◌≤◌, ◌<◌, ◌≡◌, ◌⊎◌, refl, sym, ap, ◌∙◌, inl, inr, true, ◌&&◌, Option, none,
  some, List, [], ◌∷◌, arith, ltb, if◌then◌else◌, Bool-cases,
}
use fake_chroot_ng.Ipc.Waiters.{Waiter, sooner, earliest}
use fake_chroot_ng.Ipc.Slots.{at_slot}

-- The answer is no later than `x`.
abbrev NoLater : Option (ℕ × Waiter) → Waiter → Type 0
NoLater r x = (k : ℕ) × (w : Waiter) × (r ≡ some (k, w)) × (w.seq ≤ x.seq)

abbrev better : ℕ → ℕ → Waiter → Option (ℕ × Waiter) → Option (ℕ × Waiter)
better last i w best = if ltb last w.seq && sooner w best then some (i, w) else best

better-keeps :
    (last i : ℕ) (w x : Waiter) (best : Option (ℕ × Waiter))
    → NoLater best x
    → NoLater (better last i w best) x
better-keeps last i w x best (k, b, e, h) = elim (Bool-cases (ltb last w.seq && sooner w best)) [
  | inl d ↦
      let s : ltb last w.seq && sooner w (some (k, b)) ≡ true =
        sym (ap (λ o. ltb last w.seq && sooner w o) e) ∙ d in
      rw d (i, w, refl, ground arith)
  | inr d ↦ rw d (k, b, e, h)
]

better_self :
    (last i : ℕ) (w : Waiter) (best : Option (ℕ × Waiter))
    → last < w.seq
    → NoLater (better last i w best) w
better_self last i w none h = rw (lt last w.seq h) (i, w, refl, omega arith)
  where
    lt : (a b : ℕ) → a < b → ltb a b && true ≡ true
    lt a b q = ground arith
better_self last i w (some (k, b)) h = elim (Bool-cases (ltb last w.seq && ltb w.seq b.seq)) [
  | inl d ↦ rw d (i, w, refl, omega arith)
  | inr d ↦ rw d (k, b, refl, ground arith)
]

earliest-keeps :
    (last i : ℕ) (waits : List (Option Waiter)) (best : Option (ℕ × Waiter)) (x : Waiter)
    → NoLater best x
    → NoLater (earliest last i waits best) x
unfolding earliest
earliest-keeps last i [] best x n = n
earliest-keeps last i (none ∷ waits) best x n = earliest-keeps last (i + 1) waits best x n
earliest-keeps last i (some w ∷ waits) best x n =
    earliest-keeps last (i + 1) waits (better last i w best) x (better-keeps last i w x best n)

earliest-first :
    (last i j : ℕ) (waits : List (Option Waiter)) (best : Option (ℕ × Waiter)) (x : Waiter)
    → at_slot waits j ≡ some x
    → last < x.seq
    → NoLater (earliest last i waits best) x
unfolding earliest
earliest-first last i j [] best x e h = cc
earliest-first last i zero (none ∷ waits) best x e h = cc
earliest-first last i (suc j) (none ∷ waits) best x e h =
    earliest-first last (i + 1) j waits best x e h
earliest-first last i zero (some w ∷ waits) best x e h =
    let same : w ≡ x = some-injective w x e in
    earliest-keeps last (i + 1) waits (better last i w best) x
      (rw same (better_self last i x best h))
earliest-first last i (suc j) (some w ∷ waits) best x e h =
    earliest-first last (i + 1) j waits (better last i w best) x e h

earliest-from :
    (last i : ℕ) (waits : List (Option Waiter)) (best : Option (ℕ × Waiter)) (k : ℕ) (w : Waiter)
    → earliest last i waits best ≡ some (k, w)
    → (best ≡ some (k, w)) ⊎ ((j : ℕ) × (k ≡ i + j) × (at_slot waits j ≡ some w) × (last < w.seq))
unfolding earliest
earliest-from last i [] best k w e = inl e
earliest-from last i (none ∷ waits) best k w e =
    elim (earliest-from last (i + 1) waits best k w e) [
      | inl q ↦ inl q
      | inr (j, p, q, h) ↦ inr (suc j, omega (arith, p), q, h)
    ]
earliest-from last i (some v ∷ waits) best k w e =
    elim (earliest-from last (i + 1) waits (better last i v best) k w e) [
      | inl q ↦ elim (Bool-cases (ltb last v.seq && sooner v best)) [
        | inl d ↦
            let s : some (i, v) ≡ some (k, w) = rw d at q in
            let p : (i, v) ≡ (k, w) = some-injective (i, v) (k, w) s in
            let same : v ≡ w = ap (λ (m : ℕ × Waiter). m.1) p in
            let first : i ≡ k = ap (λ (m : ℕ × Waiter). m.0) p in
            let later : last < v.seq = ground arith in
            inr (0, omega (arith, first), ap some same, rw (sym same) later)
        | inr d ↦ inl (rw d at q)
      ]
      | inr (j, p, q, h) ↦ inr (suc j, omega (arith, p), q, h)
    ]

-- What the search finds stands in its slot, came behind `last`, and no other that did came sooner.
pub record IsEarliest (last : ℕ) (waits : List (Option Waiter)) (i : ℕ) (w : Waiter) : Type 0 where
  pub held : at_slot waits i ≡ some w
  pub later : last < w.seq
  pub least : (j : ℕ) (x : Waiter) → at_slot waits j ≡ some x → last < x.seq → w.seq ≤ x.seq

pub earliest-IsEarliest :
    (last i : ℕ) (waits : List (Option Waiter)) (w : Waiter)
    → earliest last 0 waits none ≡ some (i, w)
    → IsEarliest last waits i w
earliest-IsEarliest last i waits w e = elim (earliest-from last 0 waits none i w e) [
  | inl q ↦ absurd (cc)
  | inr (j, p, q, h) ↦
      let same : j ≡ i = omega (arith, p) in
      record {
        held = rw (sym same) q;
        later = h;
        least = λ k x r l.
            let m = earliest-first last 0 k waits none x r l in
            let s : some (m.0, m.1) ≡ some (i, w) = sym m.2 ∙ e in
            let t : m.1 ≡ w = ap (λ (n : ℕ × Waiter). n.1) (some-injective (m.0, m.1) (i, w) s) in
            rw (sym t) m.3;
      }
]

pub earliest-none :
    (last : ℕ) (waits : List (Option Waiter)) (j : ℕ) (x : Waiter)
    → earliest last 0 waits none ≡ none
    → at_slot waits j ≡ some x
    → x.seq ≤ last
earliest-none last waits j x e h = elim (Bool-cases (ltb last x.seq)) [
  | inl d ↦
      let m = earliest-first last 0 j waits none x h (ground arith) in
      let s : none ≡ some (m.0, m.1) = sym e ∙ m.2 in absurd (cc)
  | inr d ↦ ground arith
]
