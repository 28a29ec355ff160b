-- ===== src/Ipc/Pass.antt =====
-- One pass over the waiters: the inner loop of cng_ipc_rescan of src/monitor/ipcreg.c.
use mathlib.Core.Path.{subst}
use fake_chroot_ng.Prelude.{
  ℕ, zero, suc, length, ◌+◌, ◌≤◌, ◌<◌, ◌≡◌, ◌≢◌, ◌⊎◌, refl, sym, ap, ap₂, ◌∙◌, inl, inr, Bool, true,
  false, ◌||◌, Option, none, some, List, [], ◌∷◌, arith, ltb, if◌then◌else◌, set, Bool-cases,
}
use fake_chroot_ng.Ipc.Table.{sem_find, msg_find}
use fake_chroot_ng.Ipc.Waiters.{
  Wants, semop, msgsnd, msgrcv, Waiter, Env, Reg, earliest, visit, next_round, pass, waiting,
}
use fake_chroot_ng.Ipc.Slots.{at_slot}
use fake_chroot_ng.Ipc.Order.{IsEarliest, earliest-IsEarliest, earliest-none}
use fake_chroot_ng.Ipc.Stuck.{Blocks, Stuck, no_units, no_space, no_message}
use fake_chroot_ng.Ipc.Visit.{
  Alike, Alike-refl, Visited, answered, unserved, IsReg, visit-Visited, visit-IsReg, after_visit,
}

-- The waiters that the pass has still to look at.
abbrev pub ahead : ℕ → List (Option Waiter) → ℕ
ahead last [] = 0
ahead last (none ∷ waits) = ahead last waits
ahead last (some w ∷ waits) = if ltb last w.seq then suc (ahead last waits) else ahead last waits

ahead_shrinks : (l m : ℕ) (waits : List (Option Waiter)) → l ≤ m → ahead m waits ≤ ahead l waits
ahead_shrinks l m [] h = omega arith
ahead_shrinks l m (none ∷ waits) h = ahead_shrinks l m waits h
ahead_shrinks l m (some w ∷ waits) h = ground (arith, ahead_shrinks l m waits h)

pub ahead_few : (last : ℕ) (waits : List (Option Waiter)) → ahead last waits ≤ waiting waits
ahead_few last [] = omega arith
ahead_few last (none ∷ waits) = ahead_few last waits
ahead_few last (some w ∷ waits) = ground (arith, ahead_few last waits)

-- One that was looked at is behind.
ahead-set-none :
    (last i : ℕ) (waits : List (Option Waiter)) (w : Waiter)
    → at_slot waits i ≡ some w
    → last < w.seq
    → ahead w.seq (set waits i none) < ahead last waits
ahead-set-none last i [] w h l = cc
ahead-set-none last zero (o ∷ waits) w h l =
    subst (λ p. ahead w.seq waits < ahead last (p ∷ waits)) (sym h)
      (ground (arith, ahead_shrinks last w.seq waits (omega arith)))
ahead-set-none last (suc i) (none ∷ waits) w h l = ahead-set-none last i waits w h l
ahead-set-none last (suc i) (some v ∷ waits) w h l =
    ground (arith, ahead-set-none last i waits w h l)

ahead-set-some :
    (last i : ℕ) (waits : List (Option Waiter)) (w : Waiter) (v : Wants)
    → at_slot waits i ≡ some w
    → last < w.seq
    → ahead w.seq (set waits i (some (record w { wants = v }))) < ahead last waits
ahead-set-some last i [] w v h l = cc
ahead-set-some last zero (o ∷ waits) w v h l =
    subst (λ p. ahead w.seq (some (record w { wants = v }) ∷ waits) < ahead last (p ∷ waits))
      (sym h) (ground (arith, ahead_shrinks last w.seq waits (omega arith)))
ahead-set-some last (suc i) (none ∷ waits) w v h l = ahead-set-some last i waits w v h l
ahead-set-some last (suc i) (some u ∷ waits) w v h l =
    ground (arith, ahead-set-some last i waits w v h l)

waiting-set-none :
    (i : ℕ) (waits : List (Option Waiter)) (w : Waiter)
    → at_slot waits i ≡ some w
    → suc (waiting (set waits i none)) ≡ waiting waits
waiting-set-none i [] w h = cc
waiting-set-none zero (o ∷ waits) w h =
    subst (λ p. suc (waiting waits) ≡ waiting (p ∷ waits)) (sym h) refl
waiting-set-none (suc i) (none ∷ waits) w h = waiting-set-none i waits w h
waiting-set-none (suc i) (some v ∷ waits) w h = ap (λ n. suc n) (waiting-set-none i waits w h)

waiting-set-some :
    (i : ℕ) (waits : List (Option Waiter)) (w v : Waiter)
    → at_slot waits i ≡ some w
    → waiting (set waits i (some v)) ≡ waiting waits
waiting-set-some i [] w v h = cc
waiting-set-some zero (o ∷ waits) w v h =
    subst (λ p. suc (waiting waits) ≡ waiting (p ∷ waits)) (sym h) refl
waiting-set-some (suc i) (none ∷ waits) w v h = waiting-set-some i waits w v h
waiting-set-some (suc i) (some u ∷ waits) w v h = ap (λ n. suc n) (waiting-set-some i waits w v h)

-- A waiter that is stuck is so in a registry with the same sets and queues.
Stuck-same :
    (g g' : Reg) (w x : Waiter) (v u : Wants)
    → g'.sems ≡ g.sems
    → g'.queues ≡ g.queues
    → x.id ≡ w.id
    → Alike v u
    → Stuck g w v
    → Stuck g' x u
Stuck-same g g' w x _ (semop sops' c) a b k l (no_units s sops d f h) =
    no_units s sops' c (ap₂ sem_find k a ∙ f) (subst (λ t. Blocks s.val t) l h)
Stuck-same g g' w x _ (msgsnd m) a b k l (no_units s sops d f h) = absurd l
Stuck-same g g' w x _ (msgrcv c d e) a b k l (no_units s sops n f h) = absurd l
Stuck-same g g' w x _ u a b k l (no_space q m f h) =
    subst (Stuck g' x) l (no_space q m (ap₂ msg_find k b ∙ f) h)
Stuck-same g g' w x _ u a b k l (no_message q typ sz flg f h) =
    subst (Stuck g' x) l (no_message q typ sz flg (ap₂ msg_find k b ∙ f) h)

-- Those that came up to `last` are stuck.
abbrev StuckTo : ℕ → Reg → Type 0
StuckTo last g =
    (j : ℕ) (x : Waiter) → at_slot g.waits j ≡ some x → x.seq ≤ last → Stuck g x x.wants

abbrev pub AllStuck : Reg → Type 0
AllStuck g = (j : ℕ) (x : Waiter) → at_slot g.waits j ≡ some x → Stuck g x x.wants

-- What a visit of the earliest does for the pass.
record Stepped (last i : ℕ) (w : Waiter) (g : Reg) (r : Bool × Reg) : Type 0 where
  fewer_ahead : ahead w.seq r.1.waits < ahead last g.waits
  no_more : waiting r.1.waits ≤ waiting g.waits
  conserved : length r.1.sent + waiting r.1.waits ≡ length g.sent + waiting g.waits
  served : r.0 ≡ true → waiting r.1.waits < waiting g.waits
  idle : r.0 ≡ false → StuckTo last g → StuckTo w.seq r.1

visit-Stepped :
    (last i : ℕ) (w : Waiter) (g : Reg) (r : Bool × Reg)
    → IsReg g
    → IsEarliest last g.waits i w
    → Visited g i w r
    → Stepped last i w g r
visit-Stepped last i w g _ ok first (answered g' q n y) = record {
  fewer_ahead =
      subst (λ t. ahead w.seq t < ahead last g.waits) (sym q)
        (ahead-set-none last i g.waits w first.held first.later);
  no_more =
      subst (λ t. waiting t ≤ waiting g.waits) (sym q)
        (omega (arith, waiting-set-none i g.waits w first.held));
  conserved =
      subst (λ t. length g'.sent + waiting t ≡ length g.sent + waiting g.waits) (sym q)
        (omega (arith, n, waiting-set-none i g.waits w first.held));
  served = λ d.
      subst (λ t. waiting t < waiting g.waits) (sym q)
        (omega (arith, waiting-set-none i g.waits w first.held));
  idle = λ d. absurd (cc);
}
visit-Stepped last i w g _ ok first (unserved g' v a b c y q l s) = record {
  fewer_ahead =
      subst (λ t. ahead w.seq t < ahead last g.waits) (sym q)
        (ahead-set-some last i g.waits w v first.held first.later);
  no_more =
      subst (λ t. waiting t ≤ waiting g.waits) (sym q)
        (omega (arith, waiting-set-some i g.waits w (record w { wants = v }) first.held));
  conserved =
      subst (λ t. length g'.sent + waiting t ≡ length g.sent + waiting g.waits) (sym q)
        (omega
          (arith, ap length c, waiting-set-some i g.waits w (record w { wants = v }) first.held));
  served = λ d. absurd (cc);
  idle = λ d k j x e h.
      by_place k j x h
        (after_visit g i j w x (false, g') first.held (unserved g' v a b c y q l s) e);
}
  where
    by_place :
        StuckTo last g
        → (j : ℕ) (x : Waiter) → x.seq ≤ w.seq
        → ((i ≡ j) × (u : Wants) × Alike w.wants u × (x ≡ record w { wants = u }))
          ⊎ ((i ≢ j) × (at_slot g.waits j ≡ some x))
        → Stuck g' x x.wants
    by_place k j x h (inl (n, u, m, p)) =
        subst (λ (y : Waiter). Stuck g' y y.wants) (sym p)
          (Stuck-same g g' w (record w { wants = u }) w.wants u a b refl m s)
    by_place k j x h (inr (n, m)) = elim (Bool-cases (ltb last x.seq)) [
      | inl d ↦
          let least = first.least j x m (ground arith) in
          let even : w.seq ≡ x.seq = omega (arith, least) in
          absurd (n (ok.apart i j w x first.held m even))
      | inr d ↦
          Stuck-same g g' x x x.wants x.wants a b refl (Alike-refl x.wants) (k j x m (ground arith))
    ]

-- What a pass does, from the waiters behind `last` on.
pub record Passed (last : ℕ) (p : Bool) (g : Reg) (r : Bool × Reg) : Type 0 where
  pub still_reg : IsReg r.1
  pub no_more : waiting r.1.waits ≤ waiting g.waits
  pub conserved : length r.1.sent + waiting r.1.waits ≡ length g.sent + waiting g.waits
  pub kept_on : p ≡ true → r.0 ≡ true
  pub served : r.0 ≡ true → (p ≡ true) ⊎ (waiting r.1.waits < waiting g.waits)
  pub idle : r.0 ≡ false → StuckTo last g → AllStuck r.1

or_false : (a b : Bool) → (a || b) ≡ true → (a ≡ true) ⊎ (b ≡ true)
or_false true b e = inl refl
or_false false b e = inr e

not_both : (b : Bool) → b ≡ true → b ≡ false → ⊥
not_both true e f = cc
not_both false e f = cc

step-Passed :
    (last i : ℕ) (w : Waiter) (p : Bool) (g : Reg) (v r : Bool × Reg)
    → Stepped last i w g v
    → Passed w.seq (p || v.0) v.1 r
    → Passed last p g r
step-Passed last i w p g v r a b = record {
  still_reg = b.still_reg;
  no_more = omega (arith, a.no_more, b.no_more);
  conserved = b.conserved ∙ a.conserved;
  kept_on = λ e. b.kept_on (ap (λ c. c || v.0) e);
  served = λ e. elim (b.served e) [
    | inl c ↦ elim (or_false p v.0 c) [
      | inl d ↦ inl d
      | inr d ↦ let k = a.served d in inr (omega (arith, k, b.no_more))
    ]
    | inr c ↦ inr (omega (arith, c, a.no_more))
  ];
  idle = λ e k. elim (Bool-cases v.0) [
    | inl d ↦ absurd (not_both r.0 (b.kept_on (right p v.0 d)) e)
    | inr d ↦ b.idle e (a.idle d k)
  ];
}
  where
    right : (x y : Bool) → y ≡ true → (x || y) ≡ true
    right true y q = refl
    right false y q = q

-- The inner loop ends, with enough rounds for the waiters ahead.
pub pass-Passed :
    (fuel : ℕ) (e : Env) (last : ℕ) (p : Bool) (g : Reg)
    → ahead last g.waits < fuel
    → IsReg g
    → (r : Bool × Reg) × (pass fuel e last p g ≡ some r) × Passed last p g r
unfolding pass
pass-Passed zero e last p g h ok = absurd (omega arith)
pass-Passed (suc fuel) e last p g h ok =
    by_first (earliest last 0 g.waits none) refl (λ m q k. pass-Passed fuel e m q k)
  where
    by_first :
        (o : Option (ℕ × Waiter))
        → earliest last 0 g.waits none ≡ o
        → ((m : ℕ) (q : Bool) (k : Reg)
            → ahead m k.waits < fuel
            → IsReg k
            → (r : Bool × Reg) × (pass fuel e m q k ≡ some r) × Passed m q k r)
        → (r : Bool × Reg) × (next_round (pass fuel e) e p g o ≡ some r) × Passed last p g r
    by_first none f ih = (
      (p, g),
      unfold next_round in refl,
      record {
        still_reg = ok;
        no_more = omega arith;
        conserved = refl;
        kept_on = λ c. c;
        served = λ d. inl d;
        idle = λ c k j x t. k j x t (earliest-none last g.waits j x f t);
      },
    )
    by_first (some (i, w)) f ih =
        let first = earliest-IsEarliest last i g.waits w f in
        let step =
          visit-Stepped last i w g (visit e g i w) ok first (visit-Visited e g i w first.held ok) in
        let k =
          ih w.seq (p || (visit e g i w).0) (visit e g i w).1 (omega (arith, step.fewer_ahead, h))
            (visit-IsReg e g i w first.held ok) in
        (k.0, unfold next_round in k.1, step-Passed last i w p g (visit e g i w) k.0 step k.2)
