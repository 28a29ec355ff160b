-- ===== src/Ipc/Rescan.antt =====
-- cng_ipc_rescan of src/monitor/ipcreg.c ends, and leaves nobody waiting who could go on.
use mathlib.Core.Path.{subst}
use fake_chroot_ng.Prelude.{
  ℕ, zero, suc, length, ◌+◌, ◌<◌, ◌≡◌, refl, sym, ◌∙◌, inl, inr, Bool, true, false, Option, none,
  some, List, [], ◌∷◌, arith, ◌==◌, Bool-cases,
}
use fake_chroot_ng.Ipc.Waiters.{Waiter, Env, Reg, waiting, after_pass, rounds, ipc_rescan}
use fake_chroot_ng.Ipc.Slots.{at_slot}
use fake_chroot_ng.Ipc.Visit.{IsReg}
use fake_chroot_ng.Ipc.Pass.{ahead_few, AllStuck, Passed, pass-Passed}

nobody :
    (waits : List (Option Waiter)) (j : ℕ) (x : Waiter)
    → waiting waits ≡ 0
    → at_slot waits j ≡ some x
    → ⊥
nobody [] j x z h = cc
nobody (none ∷ waits) zero x z h = cc
nobody (none ∷ waits) (suc j) x z h = nobody waits j x z h
nobody (some w ∷ waits) j x z h = omega arith

-- What the outer loop answers.
abbrev pub Settled : Reg → Option Reg → Type 0
Settled g o =
    (g' : Reg) × (o ≡ some g')
    × IsReg g'
    × AllStuck g'
    × (length g'.sent + waiting g'.waits ≡ length g.sent + waiting g.waits)

rounds-Settled :
    (fuel : ℕ) (e : Env) (g : Reg) → waiting g.waits < fuel → IsReg g → Settled g (rounds fuel e g)
unfolding rounds
rounds-Settled zero e g h ok = absurd (omega arith)
rounds-Settled (suc fuel) e g h ok = elim (Bool-cases (waiting g.waits == 0)) [
  | inl z ↦
      let zero_left : waiting g.waits ≡ 0 = ground arith in
      rw (z, rounds) (g, refl, ok, λ j x t. absurd (nobody g.waits j x zero_left t), refl)
  | inr z ↦
      let k =
        pass-Passed (suc (waiting g.waits)) e 0 false g (omega (arith, ahead_few 0 g.waits)) ok in
      rw (z, rounds)
        (subst (λ o. Settled g (after_pass (rounds fuel e) o)) (sym k.1)
          (by_pass k.0 k.2 (rounds-Settled fuel e)))
]
  where
    by_pass :
        (r : Bool × Reg)
        → Passed 0 false g r
        → ((m : Reg) → waiting m.waits < fuel → IsReg m → Settled m (rounds fuel e m))
        → Settled g (after_pass (rounds fuel e) (some r))
    by_pass (true, m) p ih = elim (p.served refl) [
      | inl c ↦ absurd (let c' : false ≡ true = c in cc)
      | inr c ↦
          let k = ih m (omega (arith, c, h)) p.still_reg in (k.0, k.1, k.2, k.3, k.4 ∙ p.conserved)
    ]
    by_pass (false, m) p ih = (
      m,
      refl,
      p.still_reg,
      p.idle refl (λ j x t l. absurd (omega (arith, (ok.counted j x t).0, l))),
      p.conserved,
    )

-- In a well-formed registry cng_ipc_rescan ends, and whoever still waits then could not go on:
-- every waiter that is left wants a set or a queue that is there, and its vector, applied to the
-- values as they now are, comes to an operation that has to wait and agreed to, or its message
-- does not fit, or msg_pick finds none for it. It sends as many replies as waiters go, and leaves
-- the registry well-formed: one short for each semaphore in every set and undo row, a short for
-- each operation, and waiters that came at different times, after 0 and before the next to come.
pub ipc_rescan-Settled : (e : Env) (g : Reg) → IsReg g → Settled g (ipc_rescan e g)
unfolding ipc_rescan
ipc_rescan-Settled e g ok = rounds-Settled (suc (waiting g.waits)) e g (omega arith) ok
