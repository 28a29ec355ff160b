-- ===== src/Ipc/Expired.antt =====
-- Parking and expiring keep the waiters of src/monitor/ipcreg.c in order.
use mathlib.Core.List.{append_assoc}
use mathlib.Core.Option.{some-injective}
use mathlib.Core.Path.{subst}
use fake_chroot_ng.Prelude.{
  ℕ, zero, suc, ◌+◌, ◌%◌, ◌^◌, ◌<◌, ◌≡◌, ◌⊎◌, refl, sym, ap, ◌∙◌, inl, inr, Bool, true, false,
  Option, none, some, List, [], ◌∷◌, ◌++◌, ◌≤◌, leb, Option-cases, arith, if◌then◌else◌, set,
  length, All, Bool-cases, Ret, err,
}
use fake_chroot_ng.Ipc.{Sembuf, eagain}
use fake_chroot_ng.Ipc.Rollback.{IsShort}
use fake_chroot_ng.Ipc.Table.{free_slot}
use fake_chroot_ng.Ipc.Waiters.{Wants, semop, Waiter, Reply, Env, Reg, reply_to, waiting}
use fake_chroot_ng.Ipc.Slots.{at_slot}
use fake_chroot_ng.Ipc.Visit.{IsReg}
use fake_chroot_ng.Ipc.Parked.{parked_in, waiter_park, answer_loop, due, ipc_expire}

-- The test for one slot: who stays.
abbrev pub stays_if : (Waiter → Bool) → Option Waiter → Option Waiter
stays_if test none = none
stays_if test (some w) = if test w then none else some w

answer_loop-slot :
    (test : Waiter → Bool) (ret : Ret) (waits : List (Option Waiter)) (sent : List Reply) (j : ℕ)
    → at_slot (answer_loop test ret waits sent).0 j ≡ stays_if test (at_slot waits j)
unfolding answer_loop
answer_loop-slot test ret [] sent j = refl
answer_loop-slot test ret (none ∷ waits) sent zero = refl
answer_loop-slot test ret (none ∷ waits) sent (suc j) = answer_loop-slot test ret waits sent j
answer_loop-slot test ret (some w ∷ waits) sent zero = refl
answer_loop-slot test ret (some w ∷ waits) sent (suc j) =
    answer_loop-slot test ret waits (if test w then reply_to w ret ∷ sent else sent) j

-- The slots before and after the time `now`, and the replies, the last one first: a waiter without a
-- deadline, or with one that is still to come, stays; one whose deadline has come goes, and is told
-- EAGAIN.
pub data Swept (now : ℕ) : List (Option Waiter) → List (Option Waiter) → List Reply → Type 0 where
  swept : Swept now [] [] []
  unused :
      {before after : List (Option Waiter)} {rs : List Reply}
      → Swept now before after rs
      → Swept now (none ∷ before) (none ∷ after) rs
  untimed :
      {before after : List (Option Waiter)} {rs : List Reply} (w : Waiter)
      → w.deadline ≡ none
      → Swept now before after rs
      → Swept now (some w ∷ before) (some w ∷ after) rs
  early :
      {before after : List (Option Waiter)} {rs : List Reply} (w : Waiter) (d : ℕ)
      → w.deadline ≡ some d
      → now < d
      → Swept now before after rs
      → Swept now (some w ∷ before) (some w ∷ after) rs
  late :
      {before after : List (Option Waiter)} {rs : List Reply} (w : Waiter) (d : ℕ)
      → w.deadline ≡ some d
      → d ≤ now
      → Swept now before after rs
      → Swept now
          (some w ∷ before)
          (none ∷ after)
          (rs ++ record { cfd = w.cfd; ret = err 11; mtype = 0; payload = [] } ∷ [])

-- What is claimed of an answer: which slots are left, and what was sent on top of `sent`.
abbrev Told : ℕ → List (Option Waiter) → List Reply → List (Option Waiter) × List Reply → Type 0
Told now waits sent r = (rs : List Reply) × Swept now waits r.0 rs × (r.1 ≡ rs ++ sent)

expire-Told :
    (now : ℕ) (waits : List (Option Waiter)) (sent : List Reply)
    → Told now waits sent (answer_loop (due now) (err eagain) waits sent)
unfolding answer_loop
expire-Told now [] sent = ([], swept, refl)
expire-Told now (none ∷ waits) sent = let k = expire-Told now waits sent in (k.0, unused k.1, k.2)
expire-Told now (some w ∷ waits) sent = elim (Option-cases w.deadline) [
  | inl e ↦ let k = expire-Told now waits sent in rw (never e) (k.0, untimed w e k.1, k.2)
  | inr (d, e) ↦ elim (Bool-cases (leb d now)) [
    | inl l ↦
        let k = expire-Told now waits (reply_to w (err eagain) ∷ sent) in
        rw (at_last d e (ground (arith, l))) (
          k.0 ++ reply_to w (err eagain) ∷ [],
          late w d e (ground (arith, l)) k.1,
          k.2 ∙ sym (append_assoc k.0 (reply_to w (err eagain) ∷ []) sent),
        )
    | inr l ↦
        let k = expire-Told now waits sent in
        rw (not_yet d e (ground (arith, l))) (k.0, early w d e (ground (arith, l)) k.1, k.2)
  ]
]
  where
    never : w.deadline ≡ none → due now w ≡ false
    never e = rw e refl

    at_last : (d : ℕ) → w.deadline ≡ some d → d ≤ now → due now w ≡ true
    at_last d e l = rw e (ground (arith, l))

    not_yet : (d : ℕ) → w.deadline ≡ some d → now < d → due now w ≡ false
    not_yet d e l = rw e (ground (arith, l))

stays_if-some :
    (test : Waiter → Bool) (o : Option Waiter) (x : Waiter) → stays_if test o ≡ some x → o ≡ some x
stays_if-some test none x e = cc
stays_if-some test (some w) x e = elim (Bool-cases (test w)) [
  | inl t ↦ let k : none ≡ some x = rw t at e in cc
  | inr t ↦ rw t at e
]

ipc_expire-slot :
    (now : ℕ) (g : Reg) (j : ℕ) (x : Waiter)
    → at_slot (ipc_expire now g).waits j ≡ some x
    → at_slot g.waits j ≡ some x
unfolding ipc_expire
ipc_expire-slot now g j x e =
    stays_if-some (due now) (at_slot g.waits j) x
      (sym (answer_loop-slot (due now) (err eagain) g.waits g.sent j) ∙ e)

ipc_expire-IsReg : (now : ℕ) (g : Reg) → IsReg g → IsReg (ipc_expire now g)
ipc_expire-IsReg now g r =
    unfold ipc_expire in
    record {
      rows = r.rows;
      shorts = λ j x sops b p q. r.shorts j x sops b (ipc_expire-slot now g j x p) q;
      apart = λ j k x y p q n.
          r.apart j k x y (ipc_expire-slot now g j x p) (ipc_expire-slot now g k y q) n;
      counted = λ j x p. r.counted j x (ipc_expire-slot now g j x p);
    }

-- cng_ipc_expire leaves every waiter without a deadline, or whose deadline is still to come, in
-- its slot, frees the slots of all others, sends each of these, and nobody else, -EAGAIN, in the
-- order of their slots, and keeps a registry well-formed.
pub ipc_expire_lem :
    (now : ℕ) (g : Reg)
    → IsReg g
    → ((rs : List Reply) × Swept now g.waits (ipc_expire now g).waits rs
        × ((ipc_expire now g).sent ≡ rs ++ g.sent))
      × IsReg (ipc_expire now g)
unfolding ipc_expire
ipc_expire_lem now g r = (expire-Told now g.waits g.sent, ipc_expire-IsReg now g r)

at_slot-write :
    {A : Type 0} (tbl : List (Option A)) (i j : ℕ) (o : Option A) (x : A)
    → at_slot (set tbl i o) j ≡ some x
    → ((i ≡ j) × (o ≡ some x)) ⊎ (at_slot tbl j ≡ some x)
at_slot-write [] i j o x e = cc
at_slot-write (p ∷ tbl) zero zero o x e = inl (refl, e)
at_slot-write (p ∷ tbl) zero (suc j) o x e = inr e
at_slot-write (p ∷ tbl) (suc i) zero o x e = inr e
at_slot-write (p ∷ tbl) (suc i) (suc j) o x e = elim (at_slot-write tbl i j o x e) [
  | inl k ↦ inl (ap (λ n. suc n) k.0, k.1)
  | inr k ↦ inr k
]

free_slot-none :
    {A : Type 0} (tbl : List (Option A)) (k i : ℕ)
    → free_slot k tbl ≡ some i
    → (j : ℕ) × (i ≡ k + j) × (at_slot tbl j ≡ none) × (j < length tbl)
free_slot-none [] k i e = cc
free_slot-none (none ∷ tbl) k i e = (0, omega (arith, some-injective k i e), refl, omega arith)
free_slot-none (some a ∷ tbl) k i e =
    let r = free_slot-none tbl (k + 1) i e in (suc r.0, omega (arith, r.1), r.2, omega (arith, r.3))

waiting-park :
    (waits : List (Option Waiter)) (i : ℕ) (w : Waiter)
    → at_slot waits i ≡ none
    → i < length waits
    → waiting (set waits i (some w)) ≡ suc (waiting waits)
waiting-park [] i w e h = absurd (omega arith)
waiting-park (none ∷ waits) zero w e h = refl
waiting-park (some v ∷ waits) zero w e h = cc
waiting-park (none ∷ waits) (suc i) w e h = waiting-park waits i w e (omega arith)
waiting-park (some v ∷ waits) (suc i) w e h =
    ap (λ n. suc n) (waiting-park waits i w e (omega arith))

parked_in-IsReg :
    (g g' : Reg) (w : Waiter) (o : Option ℕ)
    → IsReg g
    → w.seq ≡ g.next_seq
    → 0 < g.next_seq
    → g.next_seq + 1 < 2 ^ 64
    → ((sops : List Sembuf) (b : ℕ)
        → w.wants ≡ semop sops b
        → All (λ (op : Sembuf). IsShort op.sem_op) sops)
    → parked_in g w o ≡ some g'
    → IsReg g'
parked_in-IsReg g g' w none ok q z n s e = cc
parked_in-IsReg g g' w (some slot) ok q z n s e = subst IsReg (some-injective m g' e) record {
  rows = ok.rows;
  shorts = λ j x sops b p r. elim (at_slot-write g.waits slot j (some w) x p) [
    | inl k ↦ s sops b (ap (λ (y : Waiter). y.wants) (some-injective w x k.1) ∙ r)
    | inr k ↦ ok.shorts j x sops b k r
  ];
  apart = λ j k x y a b c.
      by_place j k x y c (at_slot-write g.waits slot j (some w) x a)
        (at_slot-write g.waits slot k (some w) y b);
  counted = λ j x p. by_slot j x (at_slot-write g.waits slot j (some w) x p);
}
  where
    m : Reg
    m = record g { waits = set g.waits slot (some w); next_seq = (g.next_seq + 1) % 2 ^ 64 }

    seq_of : (x : Waiter) → some w ≡ some x → x.seq ≡ g.next_seq
    seq_of x k = ap (λ (y : Waiter). y.seq) (sym (some-injective w x k)) ∙ q

    by_slot :
        (j : ℕ) (x : Waiter)
        → ((slot ≡ j) × (some w ≡ some x)) ⊎ (at_slot g.waits j ≡ some x)
        → (0 < x.seq) × (x.seq < (g.next_seq + 1) % 2 ^ 64)
    by_slot j x (inl k) = (omega (arith, seq_of x k.1), omega (arith, seq_of x k.1))
    by_slot j x (inr k) = let c = ok.counted j x k in (c.0, omega (arith, c.1))

    by_place :
        (j k : ℕ) (x y : Waiter)
        → x.seq ≡ y.seq
        → ((slot ≡ j) × (some w ≡ some x)) ⊎ (at_slot g.waits j ≡ some x)
        → ((slot ≡ k) × (some w ≡ some y)) ⊎ (at_slot g.waits k ≡ some y)
        → j ≡ k
    by_place j k x y c (inl a) (inl b) = sym a.0 ∙ b.0
    by_place j k x y c (inl a) (inr b) =
        absurd (omega (arith, c, seq_of x a.1, (ok.counted k y b).1))
    by_place j k x y c (inr a) (inl b) =
        absurd (omega (arith, c, seq_of y b.1, (ok.counted j x a).1))
    by_place j k x y c (inr a) (inr b) = ok.apart j k x y a b c

-- Parking a waiter keeps the registry well-formed, as cng_ipc_rescan asks it: the new waiter comes
-- later than all that wait and before the next. The counter of arrivals is above 0 and does not
-- wrap, and the operations of the waiter's vector are shorts.
pub waiter_park-IsReg :
    (e : Env) (mono : ℕ) (g g' : Reg) (cfd id pid timeout : ℕ) (wants : Wants)
    → IsReg g
    → 0 < g.next_seq
    → g.next_seq + 1 < 2 ^ 64
    → ((sops : List Sembuf) (b : ℕ)
        → wants ≡ semop sops b
        → All (λ (op : Sembuf). IsShort op.sem_op) sops)
    → waiter_park e mono g cfd id pid timeout wants ≡ some g'
    → IsReg g'
unfolding waiter_park
waiter_park-IsReg e mono g g' cfd id pid timeout wants ok z n s q =
    parked_in-IsReg g g' _ (free_slot 0 g.waits) ok refl z n s q
