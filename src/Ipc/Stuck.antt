-- ===== src/Ipc/Stuck.antt =====
-- When a parked waiter of src/monitor/ipcreg.c can do nothing but wait.
use mathlib.Core.Path.{subst}
use fake_chroot_ng.Prelude.{
  ℕ, ◌+◌, ◌%◌, ◌^◌, ◌≤◌, ◌≡◌, refl, sym, ◌∙◌, inl, inr, Bool, true, false, ◌&&◌, ◌||◌, Option, none,
  some, List, [], ◌∷◌, arith, ltb, leb, ◌==◌, ◌!=◌, if◌then◌else◌, set, any, Bool-cases, split_if,
  neg32,
}
use fake_chroot_ng.Ipc.{
  Sembuf, SemSet, Outcome, done, blocked, failed, Work, Tried, applied, stopped, nowait, undoes,
  word_at, widen, plus, semvmx, adjust, adj_out, look_up, try_one, roll_back, sem_loop, finish_op,
  sem_try_op, minus, efbig,
}
use fake_chroot_ng.Ipc.Queue.{Gmsg, MsgQ, msg_pick, msg_fits}
use fake_chroot_ng.Ipc.Table.{sem_find, msg_find}
use fake_chroot_ng.Ipc.Waiters.{Wants, semop, msgsnd, msgrcv, Waiter, Reg}

abbrev pub after : Sembuf → List ℕ → ℕ
after op val = plus (word_at val op.sem_num) (widen op.sem_op)

-- Zero is waited for where it is not, or more is taken than there is.
abbrev pub must_wait : Sembuf → List ℕ → Bool
must_wait op val = (op.sem_op == 0 && word_at val op.sem_num != 0) || neg32 (after op val)

-- The operations, applied in turn, come to one that has to wait, and that agreed to.
pub data Blocks : List ℕ → List Sembuf → Type 0 where
  here :
      {val : List ℕ} {ops : List Sembuf} (op : Sembuf)
      → must_wait op val ≡ true
      → nowait op ≡ false
      → Blocks val (op ∷ ops)
  there :
      {val : List ℕ} {ops : List Sembuf} (op : Sembuf)
      → must_wait op val ≡ false
      → after op val ≤ semvmx
      → Blocks (set val op.sem_num (after op val % 2 ^ 16)) ops
      → Blocks val (op ∷ ops)

-- What an operation's answer says of it.
Judged : Sembuf → List ℕ → Tried → Type 0
Judged op val (applied w) =
    (must_wait op val ≡ false)
    × (after op val ≤ semvmx)
    × (w.val ≡ set val op.sem_num (after op val % 2 ^ 16))
Judged op val (stopped done u) = Unit
Judged op val (stopped (failed n) u) = Unit
Judged op val (stopped (blocked i) u) = (must_wait op val ≡ true) × (nowait op ≡ false)

adjust-Judged :
    (op : Sembuf) (val : List ℕ) (o : Option (List ℕ))
    → must_wait op val ≡ false
    → after op val ≤ semvmx
    → Judged op val (adjust op (after op val) val o)
unfolding Judged
adjust-Judged op val none m l = tt
adjust-Judged op val (some adj) m l =
    split_if (Judged op val) (adj_out (minus (widen (word_at adj op.sem_num)) (widen op.sem_op))) _
      _ (λ e. tt) λ e. (m, l, refl)

waits-Judged :
    (op : Sembuf) (val : List ℕ) (i : ℕ) (u : Option (List ℕ))
    → must_wait op val ≡ true
    → Judged op val (stopped (if nowait op then failed 11 else blocked i) u)
unfolding Judged
waits-Judged op val i u m = elim (Bool-cases (nowait op)) [ inl e ↦ rw e tt | inr e ↦ rw e (m, e) ]

try_one-Judged :
    (row : Option (List ℕ)) (i : ℕ) (op : Sembuf) (w : Work) → Judged op w.val (try_one row i op w)
unfolding Judged try_one
try_one-Judged row i op w = elim (Bool-cases (must_wait op w.val)) [
  | inl m ↦ rw m (waits-Judged op w.val i w.undo m)
  | inr m ↦ rw m (
      split_if (Judged op w.val) (ltb semvmx (after op w.val)) _ _ (λ e. tt)
        λ e.
          split_if (Judged op w.val) (undoes op) _ _
            (λ u. adjust-Judged op w.val (look_up row w.undo) m (ground (arith, e)))
            λ u. (m, ground (arith, e), refl))
]

-- A vector that is answered to wait comes to an operation that has to wait.
loop-Blocks :
    (row : Option (List ℕ)) (i b : ℕ) (before ops : List Sembuf) (w : Work)
    → (sem_loop row i before ops w).0 ≡ blocked b
    → Blocks w.val ops
unfolding sem_loop
loop-Blocks row i b before [] w e = cc
loop-Blocks row i b before (op ∷ ops) w e =
    by_answer (try_one row i op w) (try_one-Judged row i op w) e
      (λ w'. loop-Blocks row (i + 1) b (op ∷ before) ops w')
  where
    by_answer :
        (t : Tried)
        → Judged op w.val t
        → (elim t as (λ (x : Tried). Outcome × Work) [
          | stopped o undo ↦ (o, roll_back before (record w { undo = undo }))
          | applied w' ↦ sem_loop row (i + 1) (op ∷ before) ops w'
        ]).0
          ≡ blocked b
        → ((w' : Work)
            → (sem_loop row (i + 1) (op ∷ before) ops w').0 ≡ blocked b
            → Blocks w'.val ops)
        → Blocks w.val (op ∷ ops)
    by_answer (applied w') j q next =
        unfold Judged in there op j.0 j.1 (subst (λ v. Blocks v ops) j.2 (next w' q))
    by_answer (stopped done u) j q next = cc
    by_answer (stopped (failed n) u) j q next = cc
    by_answer (stopped (blocked k) u) j q next = unfold Judged in here op j.0 j.1

-- The outcome is the loop's.
finish-outcome :
    (s : SemSet) (pid now : ℕ) (ops : List Sembuf) (t : Outcome × Work)
    → (finish_op s pid now ops t).0 ≡ t.0
unfolding finish_op
finish-outcome s pid now ops (done, w) = refl
finish-outcome s pid now ops (blocked i, w) = refl
finish-outcome s pid now ops (failed n, w) = refl

pub sem_try_op-Blocks :
    (s : SemSet) (ops : List Sembuf) (pid now b : ℕ) (row : Option (List ℕ))
    → (sem_try_op s ops pid now row).0 ≡ blocked b
    → Blocks s.val ops
unfolding sem_try_op
sem_try_op-Blocks s ops pid now b row =
    split_if (λ (t : Outcome × SemSet × Option (List ℕ)). t.0 ≡ blocked b → Blocks s.val ops)
      (any (λ op. leb s.nsems op.sem_num) ops) (failed efbig, s, none)
      (finish_op s pid now ops (sem_loop row 0 [] ops record { val = s.val; undo = none }))
      (λ k e. cc)
      λ k e.
        loop-Blocks row 0 b [] ops record { val = s.val; undo = none }
          (sym (
              finish-outcome s pid now ops
                (sem_loop row 0 [] ops record { val = s.val; undo = none }))
            ∙ e)

-- What a waiter waits for cannot be had: its vector comes to an operation that has to wait, its
-- message does not fit, or no message is one that it takes; and its set or queue is there.
pub data Stuck (g : Reg) (w : Waiter) : Wants → Type 0 where
  no_units :
      (s : SemSet) (sops : List Sembuf) (b : ℕ)
      → sem_find w.id g.sems ≡ some s
      → Blocks s.val sops
      → Stuck g w (semop sops b)
  no_space :
      (q : MsgQ) (m : Gmsg)
      → msg_find w.id g.queues ≡ some q
      → msg_fits q m.size ≡ false
      → Stuck g w (msgsnd m)
  no_message :
      (q : MsgQ) (typ sz flg : ℕ)
      → msg_find w.id g.queues ≡ some q
      → msg_pick q typ flg ≡ none
      → Stuck g w (msgrcv typ sz flg)
