-- ===== src/Ipc/Visit.antt =====
-- What serving one waiter does: the body of the loop of cng_ipc_rescan of src/monitor/ipcreg.c.
use mathlib.Core.Option.{some-injective}
use mathlib.Core.Path.{subst}
use fake_chroot_ng.Prelude.{
  ℕ, zero, suc, length, ◌<◌, ◌≡◌, ◌≢◌, ◌⊎◌, refl, sym, ap, ◌∙◌, inl, inr, Bool, true, false, not,
  ◌&&◌, Option, none, some, List, [], ◌∷◌, ltb, set, All, Bool-cases, split_if,
}
use fake_chroot_ng.Ipc.{Sembuf, SemSet, Outcome, done, blocked, failed, sem_try_op}
use fake_chroot_ng.Ipc.Rollback.{IsShort}
use fake_chroot_ng.Ipc.Atomic.{Unchanged, sem_try_op-Unchanged}
use fake_chroot_ng.Ipc.Queue.{Gmsg, MsgQ, msg_pick, msg_fits}
use fake_chroot_ng.Ipc.Table.{sem_find, msg_find}
use fake_chroot_ng.Ipc.Waiters.{
  Wants, semop, msgsnd, msgrcv, Waiter, Env, Reg, put_id, undo_row, waiter_reply, still_blocked,
  after_try, settle_sem, visit_sem, visit_snd, noerror, receive, visit_rcv, serve, visit,
}
use fake_chroot_ng.Ipc.Slots.{at_slot, at_slot-set, put_id-find}
use fake_chroot_ng.Ipc.Rows.{RowsOk, sem_find_self, undo_row-IsRow, TryKept, put_id-RowsOk}
use fake_chroot_ng.Ipc.Try.{sem_try_op-TryKept}
use fake_chroot_ng.Ipc.Stuck.{Blocks, sem_try_op-Blocks, Stuck, no_units, no_space, no_message}

-- The two have the same vector, if they have one.
abbrev pub Alike : Wants → Wants → Type 0
Alike (semop sops b) (semop sops' b') = sops ≡ sops'
Alike (semop sops b) _ = ⊥
Alike (msgsnd m) v = msgsnd m ≡ v
Alike (msgrcv typ sz flg) v = msgrcv typ sz flg ≡ v

-- A waiter was answered, and its slot is free; or it stays, nothing that others wait for has
-- changed, and it could do nothing.
pub data Visited (g : Reg) (i : ℕ) (w : Waiter) : Bool × Reg → Type 0 where
  answered :
      (g' : Reg)
      → g'.waits ≡ set g.waits i none
      → length g'.sent ≡ suc (length g.sent)
      → g'.next_seq ≡ g.next_seq
      → Visited g i w (true, g')
  unserved :
      (g' : Reg) (v : Wants)
      → g'.sems ≡ g.sems
      → g'.queues ≡ g.queues
      → g'.sent ≡ g.sent
      → g'.next_seq ≡ g.next_seq
      → g'.waits ≡ set g.waits i (some (record w { wants = v }))
      → Alike w.wants v
      → Stuck g w w.wants
      → Visited g i w (false, g')

set_same :
    {A : Type 0} (tbl : List (Option A)) (i : ℕ) (a : A)
    → at_slot tbl i ≡ some a
    → tbl ≡ set tbl i (some a)
set_same [] i a h = cc
set_same (o ∷ tbl) zero a h = ap (λ p. p ∷ tbl) h
set_same (o ∷ tbl) (suc i) a h = ap (λ t. o ∷ t) (set_same tbl i a h)

Shorts : List Sembuf → Type 0
Shorts sops = All (λ (op : Sembuf). IsShort op.sem_op) sops

-- A vector that waits, and the set as it was.
settle-Visited :
    (e : Env) (g : Reg) (i b : ℕ) (w : Waiter) (sops : List Sembuf) (s : SemSet)
    (t : Outcome × SemSet × Option (List ℕ)) (row : Option (List ℕ))
    → w.wants ≡ semop sops b
    → sem_find w.id g.sems ≡ some s
    → Unchanged s row t
    → ((k : ℕ) → t.0 ≡ blocked k → Blocks s.val sops)
    → Visited g i w (settle_sem e g i w sops s t)
unfolding settle_sem after_try waiter_reply still_blocked sem_find
settle-Visited e g i b w sops s (done, s', adj) row q f u k = answered _ refl refl refl
settle-Visited e g i b w sops s (failed n, s', adj) row q f u k = answered _ refl refl refl
settle-Visited e g i b w sops s (blocked n, s', adj) row q f (inl c) k = absurd (cc)
settle-Visited e g i b w sops s (blocked n, s', adj) row q f (inr c) k =
    unserved _ (semop sops n)
      (ap (λ (x : SemSet). put_id (λ (t : SemSet). t.semid) s.semid x g.sems) c.0
        ∙ put_id-find (λ (t : SemSet). t.semid) s.semid g.sems s (sem_find_self w.id g.sems s f).1)
      refl refl refl refl (subst (λ v. Alike v (semop sops n)) (sym q) refl)
      (subst (Stuck g w) (sym q) (no_units s sops b f (k n refl)))

-- What is asked of the registry: shorts in its sets, its undo rows and its vectors, and waiters that
-- came at different times, the first at 1, and all before the next to come.
pub record IsReg (g : Reg) : Type 0 where
  pub rows : RowsOk g.sems g.undo
  pub shorts :
      (i : ℕ) (w : Waiter) (sops : List Sembuf) (b : ℕ)
      → at_slot g.waits i ≡ some w
      → w.wants ≡ semop sops b
      → All (λ (op : Sembuf). IsShort op.sem_op) sops
  pub apart :
      (i j : ℕ) (x y : Waiter)
      → at_slot g.waits i ≡ some x
      → at_slot g.waits j ≡ some y
      → x.seq ≡ y.seq
      → i ≡ j
  pub counted :
      (i : ℕ) (x : Waiter) → at_slot g.waits i ≡ some x → (0 < x.seq) × (x.seq < g.next_seq)

module _ (e : Env) (g : Reg) (i : ℕ) (w : Waiter) (held : at_slot g.waits i ≡ some w) where
  same_slot : (v : Wants) → w.wants ≡ v → g.waits ≡ set g.waits i (some (record w { wants = v }))
  same_slot v q =
      set_same g.waits i w held
      ∙ ap (λ (u : Wants). set g.waits i (some (record w { wants = u }))) q

  snd-Visited :
      (m : Gmsg) (o : Option MsgQ)
      → w.wants ≡ msgsnd m
      → msg_find w.id g.queues ≡ o
      → Visited g i w (visit_snd e g i w m o)
  unfolding visit_snd waiter_reply
  snd-Visited m none q f = answered _ refl refl refl
  snd-Visited m (some mq) q f = elim (Bool-cases (msg_fits mq m.size)) [
    | inl k ↦ rw k (answered _ refl refl refl)
    | inr k ↦ rw k (
        unserved g (msgsnd m) refl refl refl refl (same_slot (msgsnd m) q)
          (subst (λ v. Alike v (msgsnd m)) (sym q) refl)
          (subst (Stuck g w) (sym q) (no_space mq m f k)))
  ]

  receive-Visited :
      (typ sz flg : ℕ) (mq : MsgQ) (o : Option (ℕ × Gmsg))
      → w.wants ≡ msgrcv typ sz flg
      → msg_find w.id g.queues ≡ some mq
      → msg_pick mq typ flg ≡ o
      → Visited g i w (receive e g i w sz flg mq o)
  unfolding receive waiter_reply
  receive-Visited typ sz flg mq none q f p =
      unserved g (msgrcv typ sz flg) refl refl refl refl (same_slot (msgrcv typ sz flg) q)
        (subst (λ v. Alike v (msgrcv typ sz flg)) (sym q) refl)
        (subst (Stuck g w) (sym q) (no_message mq typ sz flg f p))
  receive-Visited typ sz flg mq (some (k, m)) q f p =
      split_if (Visited g i w) (ltb sz m.size && not (noerror flg)) _ _
        (λ c. answered _ refl refl refl) λ c. answered _ refl refl refl

  rcv-Visited :
      (typ sz flg : ℕ) (o : Option MsgQ)
      → w.wants ≡ msgrcv typ sz flg
      → msg_find w.id g.queues ≡ o
      → Visited g i w (visit_rcv e g i w typ sz flg o)
  unfolding visit_rcv waiter_reply
  rcv-Visited typ sz flg none q f = answered _ refl refl refl
  rcv-Visited typ sz flg (some mq) q f =
      receive-Visited typ sz flg mq (msg_pick mq typ flg) q f refl

  sem-Visited :
      (sops : List Sembuf) (b : ℕ) (o : Option SemSet)
      → IsReg g
      → w.wants ≡ semop sops b
      → sem_find w.id g.sems ≡ o
      → Visited g i w (visit_sem e g i w sops o)
  unfolding visit_sem waiter_reply
  sem-Visited sops b none ok q f = answered _ refl refl refl
  sem-Visited sops b (some s) ok q f =
      let row = undo_row e s w.pid g.undo in
      let there = sem_find_self w.id g.sems s f in
      settle-Visited e g i b w sops s (sem_try_op s sops w.pid e.now row) row q f
        (sem_try_op-Unchanged s sops w.pid e.now row (ok.shorts i w sops b held q)
          (ok.rows.of_sets w.id s f) (undo_row-IsRow e s w.pid g.sems g.undo ok.rows there.1))
        λ k. sem_try_op-Blocks s sops w.pid e.now k row

  serve-Visited : (v : Wants) → IsReg g → w.wants ≡ v → Visited g i w (serve e g i w v)
  unfolding serve
  serve-Visited (semop sops b) ok q = sem-Visited sops b (sem_find w.id g.sems) ok q refl
  serve-Visited (msgsnd m) ok q = snd-Visited m (msg_find w.id g.queues) q refl
  serve-Visited (msgrcv typ sz flg) ok q = rcv-Visited typ sz flg (msg_find w.id g.queues) q refl

  pub visit-Visited : IsReg g → Visited g i w (visit e g i w)
  unfolding visit
  visit-Visited ok = serve-Visited w.wants ok refl

  -- Serving a waiter keeps shorts.
  settle-RowsOk :
      (sops : List Sembuf) (s : SemSet) (t : Outcome × SemSet × Option (List ℕ))
      → RowsOk g.sems g.undo
      → sem_find s.semid g.sems ≡ some s
      → TryKept s t
      → RowsOk (settle_sem e g i w sops s t).1.sems (settle_sem e g i w sops s t).1.undo
  unfolding settle_sem after_try waiter_reply still_blocked
  settle-RowsOk sops s (done, s', adj) ok f k =
      put_id-RowsOk e s s' w.pid g.sems g.undo adj ok f k.same_id k.same_size k.val_ok k.adj_ok
  settle-RowsOk sops s (failed n, s', adj) ok f k =
      put_id-RowsOk e s s' w.pid g.sems g.undo adj ok f k.same_id k.same_size k.val_ok k.adj_ok
  settle-RowsOk sops s (blocked n, s', adj) ok f k =
      put_id-RowsOk e s s' w.pid g.sems g.undo adj ok f k.same_id k.same_size k.val_ok k.adj_ok

  abbrev KeepsRows : Bool × Reg → Type 0
  KeepsRows r = RowsOk r.1.sems r.1.undo

  sem-KeepsRows :
      (sops : List Sembuf) (b : ℕ) (o : Option SemSet)
      → IsReg g
      → w.wants ≡ semop sops b
      → sem_find w.id g.sems ≡ o
      → KeepsRows (visit_sem e g i w sops o)
  unfolding visit_sem waiter_reply
  sem-KeepsRows sops b none ok q f = ok.rows
  sem-KeepsRows sops b (some s) ok q f =
      let row = undo_row e s w.pid g.undo in
      let there = sem_find_self w.id g.sems s f in
      settle-RowsOk sops s (sem_try_op s sops w.pid e.now row) ok.rows there.1 (
        sem_try_op-TryKept s sops w.pid e.now row (ok.shorts i w sops b held q)
          (ok.rows.of_sets w.id s f) (undo_row-IsRow e s w.pid g.sems g.undo ok.rows there.1))

  snd-KeepsRows : (m : Gmsg) (o : Option MsgQ) → IsReg g → KeepsRows (visit_snd e g i w m o)
  unfolding visit_snd waiter_reply
  snd-KeepsRows m none ok = ok.rows
  snd-KeepsRows m (some mq) ok =
      split_if KeepsRows (not (msg_fits mq m.size)) _ _ (λ c. ok.rows) λ c. ok.rows

  receive-KeepsRows :
      (sz flg : ℕ) (mq : MsgQ) (o : Option (ℕ × Gmsg))
      → IsReg g
      → KeepsRows (receive e g i w sz flg mq o)
  unfolding receive waiter_reply
  receive-KeepsRows sz flg mq none ok = ok.rows
  receive-KeepsRows sz flg mq (some (k, m)) ok =
      split_if KeepsRows (ltb sz m.size && not (noerror flg)) _ _ (λ c. ok.rows) λ c. ok.rows

  rcv-KeepsRows :
      (typ sz flg : ℕ) (o : Option MsgQ) → IsReg g → KeepsRows (visit_rcv e g i w typ sz flg o)
  unfolding visit_rcv waiter_reply
  rcv-KeepsRows typ sz flg none ok = ok.rows
  rcv-KeepsRows typ sz flg (some mq) ok = receive-KeepsRows sz flg mq (msg_pick mq typ flg) ok

  serve-KeepsRows : (v : Wants) → IsReg g → w.wants ≡ v → KeepsRows (serve e g i w v)
  unfolding serve
  serve-KeepsRows (semop sops b) ok q = sem-KeepsRows sops b (sem_find w.id g.sems) ok q refl
  serve-KeepsRows (msgsnd m) ok q = snd-KeepsRows m (msg_find w.id g.queues) ok
  serve-KeepsRows (msgrcv typ sz flg) ok q = rcv-KeepsRows typ sz flg (msg_find w.id g.queues) ok

  visit-KeepsRows : IsReg g → KeepsRows (visit e g i w)
  unfolding visit
  visit-KeepsRows ok = serve-KeepsRows w.wants ok refl

-- A waiter in the slots after a visit: one that was there, or the one visited, with the same vector.
pub after_visit :
    (g : Reg) (i j : ℕ) (w x : Waiter) (r : Bool × Reg)
    → at_slot g.waits i ≡ some w
    → Visited g i w r
    → at_slot r.1.waits j ≡ some x
    → ((i ≡ j) × (v : Wants) × Alike w.wants v × (x ≡ record w { wants = v }))
      ⊎ ((i ≢ j) × (at_slot g.waits j ≡ some x))
after_visit g i j w x _ h (answered g' q n y) e =
    elim (at_slot-set g.waits i j w x none h (subst (λ t. at_slot t j ≡ some x) q e)) [
      | inl k ↦ absurd (let c : none ≡ some x = k.1 in cc)
      | inr k ↦ inr k
    ]
after_visit g i j w x _ h (unserved g' v a b n y q l s) e =
    elim (at_slot-set g.waits i j w x (some (record w { wants = v })) h
      (subst (λ t. at_slot t j ≡ some x) q e)) [
        | inl k ↦ inl (k.0, v, l, sym (some-injective (record w { wants = v }) x k.1))
        | inr k ↦ inr k
      ]

abbrev vector : Wants → List Sembuf
vector (semop s c) = s
vector (msgsnd m) = []
vector (msgrcv x y z) = []

pub Alike-refl : (v : Wants) → Alike v v
Alike-refl (semop s c) = refl
Alike-refl (msgsnd m) = refl
Alike-refl (msgrcv x y z) = refl

Alike-semop :
    (v u : Wants) (sops : List Sembuf) (b : ℕ)
    → Alike v u
    → u ≡ semop sops b
    → (c : ℕ) × (v ≡ semop sops c)
Alike-semop (semop s c) (semop t d) sops b l q = (c, ap (λ t. semop t c) (l ∙ ap vector q))
Alike-semop (semop s c) (msgsnd m) sops b l q = absurd l
Alike-semop (semop s c) (msgrcv x y z) sops b l q = absurd l
Alike-semop (msgsnd m) u sops b l q = absurd (cc)
Alike-semop (msgrcv x y z) u sops b l q = absurd (cc)

-- A waiter in the slots after a visit was there before it.
pub before_visit :
    (g : Reg) (i j : ℕ) (w x : Waiter) (r : Bool × Reg)
    → at_slot g.waits i ≡ some w
    → Visited g i w r
    → at_slot r.1.waits j ≡ some x
    → (y : Waiter) × (at_slot g.waits j ≡ some y) × (y.seq ≡ x.seq) × Alike y.wants x.wants
before_visit g i j w x r h t e = elim (after_visit g i j w x r h t e) [
  | inl (k, v, l, q) ↦ (
    w,
    subst (λ m. at_slot g.waits m ≡ some w) k h,
    ap (λ (m : Waiter). m.seq) (sym q),
    subst (λ (m : Waiter). Alike w.wants m.wants) (sym q) l,
  )
  | inr k ↦ (x, k.1, refl, Alike-refl x.wants)
]

next_seq_kept :
    (g : Reg) (i : ℕ) (w : Waiter) (r : Bool × Reg) → Visited g i w r → r.1.next_seq ≡ g.next_seq
next_seq_kept g i w _ (answered g' q n y) = y
next_seq_kept g i w _ (unserved g' v a b n y q l s) = y

pub visit-IsReg :
    (e : Env) (g : Reg) (i : ℕ) (w : Waiter)
    → at_slot g.waits i ≡ some w
    → IsReg g
    → IsReg (visit e g i w).1
visit-IsReg e g i w h ok =
    let seen = visit-Visited e g i w h ok in
    record {
      rows = visit-KeepsRows e g i w h ok;
      shorts = λ j x sops b p q.
          let y = before_visit g i j w x (visit e g i w) h seen p in
          let k = Alike-semop y.0.wants x.wants sops b y.3 q in ok.shorts j y.0 sops k.0 y.1 k.1;
      apart = λ j k x y p q n.
          let a = before_visit g i j w x (visit e g i w) h seen p in
          let b = before_visit g i k w y (visit e g i w) h seen q in
          ok.apart j k a.0 b.0 a.1 b.1 (a.2 ∙ n ∙ sym b.2);
      counted = λ j x p.
          let a = before_visit g i j w x (visit e g i w) h seen p in
          subst (λ n. (0 < x.seq) × (x.seq < n)) (sym (next_seq_kept g i w (visit e g i w) seen))
            (subst (λ m. (0 < m) × (m < g.next_seq)) a.2 (ok.counted j a.0 a.1));
    }
