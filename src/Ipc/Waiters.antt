-- ===== src/Ipc/Waiters.antt =====
-- The parked waiters of src/monitor/ipcreg.c and cng_ipc_rescan, which serves them. A slot that is
-- not used is `none`; `g_nwait` is the number of those that are.
use fake_chroot_ng.Prelude.{
  ℕ, zero, suc, ◌+◌, ◌%◌, ◌^◌, Bool, true, false, not, ◌&&◌, ◌||◌, Option, none, some, List, [],
  ◌∷◌, ltb, leb, ◌==◌, ◌!=◌, bit_and, if◌then◌else◌, set, take, Ret, ok, err,
}
use fake_chroot_ng.Ipc.{Sembuf, SemSet, Outcome, done, blocked, failed, sem_try_op}
use fake_chroot_ng.Ipc.Queue.{Gmsg, MsgQ, msg_pick, msg_unlink, msg_fits, msg_enqueue}
use fake_chroot_ng.Ipc.Table.{sem_find, msg_find, free_slot}

abbrev pub e2big : ℕ
e2big = 7

abbrev pub eidrm : ℕ
eidrm = 43

-- `struct sem_undo`
pub record UndoRow : Type 0 where
  pub pid : ℕ
  pub started : ℕ
  pub semid : ℕ
  pub adj : List ℕ

-- What a waiter waits for, by its `op`, with the fields that belong to it.
pub data Wants : Type 0 where
  semop : List Sembuf → ℕ → Wants
  msgsnd : Gmsg → Wants
  msgrcv : ℕ → ℕ → ℕ → Wants

-- `struct waiter`; a deadline of -1 is `none`.
pub record Waiter : Type 0 where
  pub cfd : ℕ
  pub id : ℕ
  pub pid : ℕ
  pub started : ℕ
  pub seq : ℕ
  pub deadline : Option ℕ
  pub wants : Wants

-- What is sent to a waiter's peer: `struct cng_bresp`, and the payload.
pub record Reply : Type 0 where
  pub cfd : ℕ
  pub ret : Ret
  pub mtype : ℕ
  pub payload : List ℕ

-- The clock, the start time of a process, and whether the arena has room for a row.
pub record Env : Type 0 where
  pub now : ℕ
  pub started : ℕ → ℕ
  pub has_room : Bool

-- `g_sem`, `g_undo`, `g_msq`, `g_wait` and `g_wait_seq`, and the replies sent, the last one first.
pub record Reg : Type 0 where
  pub sems : List (Option SemSet)
  pub undo : List (Option UndoRow)
  pub queues : List (Option MsgQ)
  pub waits : List (Option Waiter)
  pub next_seq : ℕ
  pub sent : List Reply

-- A write through the pointer that a lookup by id gave.
abbrev pub put_id {ℓ} : {A : Type ℓ} → (A → ℕ) → ℕ → A → List (Option A) → List (Option A)
put_id id_of id a [] = []
put_id id_of id a (none ∷ tbl) = none ∷ put_id id_of id a tbl
put_id id_of id a (some b ∷ tbl) =
    let rest = put_id id_of id a tbl in if id_of b == id then some a ∷ tbl else some b ∷ rest

abbrev pub is_row : ℕ → ℕ → UndoRow → Bool
is_row pid semid u = u.pid == pid && u.semid == semid

-- The row of a process for a set, if there is one.
unfoldable pub undo_at : ℕ → ℕ → List (Option UndoRow) → Option UndoRow
undo_at pid semid [] = none
undo_at pid semid (none ∷ rows) = undo_at pid semid rows
undo_at pid semid (some u ∷ rows) =
    let rest = undo_at pid semid rows in if is_row pid semid u then some u else rest

unfoldable pub zeros : ℕ → List ℕ
zeros zero = []
zeros (suc n) = 0 ∷ zeros n

unfoldable pub new_row : Env → SemSet → Bool → Option ℕ → Option (List ℕ)
unfolding zeros
new_row e s room none = none
new_row e s room (some slot) = if room then some (zeros s.nsems) else none

unfoldable pub row_or_new : Env → SemSet → List (Option UndoRow) → Option UndoRow → Option (List ℕ)
unfolding new_row
row_or_new e s rows (some u) = some u.adj
row_or_new e s rows none = new_row e s e.has_room (free_slot 0 rows)

-- What `sem_undo_find(pid, s, 1)` answers: the adjustments of the row found or made.
unfoldable pub undo_row : Env → SemSet → ℕ → List (Option UndoRow) → Option (List ℕ)
unfolding undo_at row_or_new
undo_row e s pid rows = row_or_new e s rows (undo_at pid s.semid rows)

-- A write through the pointer that it gave.
unfoldable pub put_adj : ℕ → ℕ → List ℕ → List (Option UndoRow) → List (Option UndoRow)
put_adj pid semid adj [] = []
put_adj pid semid adj (none ∷ rows) = none ∷ put_adj pid semid adj rows
put_adj pid semid adj (some u ∷ rows) =
    let rest = put_adj pid semid adj rows in
    if is_row pid semid u then some (record u { adj = adj }) ∷ rows else some u ∷ rest

abbrev pub made_row : Env → SemSet → ℕ → List ℕ → UndoRow
made_row e s pid adj = record { pid = pid; started = e.started pid; semid = s.semid; adj = adj }

abbrev pub put_new : UndoRow → List (Option UndoRow) → Option ℕ → List (Option UndoRow)
put_new u rows none = rows
put_new u rows (some slot) = set rows slot (some u)

unfoldable pub keep_found :
    Env → SemSet → ℕ → List (Option UndoRow) → List ℕ → Option UndoRow → List (Option UndoRow)
unfolding put_adj
keep_found e s pid rows adj (some u) = put_adj pid s.semid adj rows
keep_found e s pid rows adj none = put_new (made_row e s pid adj) rows (free_slot 0 rows)

-- The rows after an attempt: as they were where no row was looked up, else with the row's
-- adjustments, and with the row if it was made.
unfoldable pub keep_row :
    Env → SemSet → ℕ → List (Option UndoRow) → Option (List ℕ) → List (Option UndoRow)
unfolding undo_at keep_found
keep_row e s pid rows none = rows
keep_row e s pid rows (some adj) = keep_found e s pid rows adj (undo_at pid s.semid rows)

-- `waiter_reply`, with `waiter_free`
abbrev pub reply_to : Waiter → Ret → Reply
reply_to w ret = record { cfd = w.cfd; ret = ret; mtype = 0; payload = [] }

unfoldable pub waiter_reply : Reg → ℕ → Reply → Reg
waiter_reply g i r = record g { waits = set g.waits i none; sent = r ∷ g.sent }

-- A waiter that stays, with the operation that blocked.
unfoldable pub still_blocked : Reg → ℕ → Waiter → List Sembuf → ℕ → Reg
still_blocked g i w sops b = record g {
  waits = set g.waits i (some (record w { wants = semop sops b }));
}

-- What an attempt did to the set and to the row.
unfoldable pub after_try : Env → Reg → SemSet → ℕ → SemSet → Option (List ℕ) → Reg
unfolding keep_row
after_try e g s pid s' adj = record g {
  sems = put_id (λ t. t.semid) s.semid s' g.sems;
  undo = keep_row e s pid g.undo adj;
}

-- Whether there was progress, and the registry, by the answer of `sem_try_op`.
unfoldable pub settle_sem :
    Env → Reg → ℕ → Waiter → List Sembuf → SemSet → Outcome × SemSet × Option (List ℕ) → Bool × Reg
unfolding after_try waiter_reply still_blocked
settle_sem e g i w sops s (done, s', adj) =
    (true, waiter_reply (after_try e g s w.pid s' adj) i (reply_to w (ok 0)))
settle_sem e g i w sops s (failed n, s', adj) =
    (true, waiter_reply (after_try e g s w.pid s' adj) i (reply_to w (err n)))
settle_sem e g i w sops s (blocked b, s', adj) =
    (false, still_blocked (after_try e g s w.pid s' adj) i w sops b)

abbrev pub removed : Reg → ℕ → Waiter → Bool × Reg
unfolding waiter_reply
removed g i w = (true, waiter_reply g i (reply_to w (err eidrm)))

unfoldable pub visit_sem : Env → Reg → ℕ → Waiter → List Sembuf → Option SemSet → Bool × Reg
unfolding settle_sem undo_row waiter_reply
visit_sem e g i w sops none = removed g i w
visit_sem e g i w sops (some s) =
    settle_sem e g i w sops s (sem_try_op s sops w.pid e.now (undo_row e s w.pid g.undo))

abbrev pub put_queue_back : Reg → MsgQ → Reg
put_queue_back g q = record g { queues = put_id (λ t. t.msqid) q.msqid q g.queues }

unfoldable pub visit_snd : Env → Reg → ℕ → Waiter → Gmsg → Option MsgQ → Bool × Reg
unfolding waiter_reply
visit_snd e g i w m none = removed g i w
visit_snd e g i w m (some q) =
    if not (msg_fits q m.size)
    then (false, g)
    else (true, waiter_reply (put_queue_back g (msg_enqueue q m w.pid e.now)) i (reply_to w (ok 0)))

abbrev pub noerror : ℕ → Bool
noerror flg = bit_and flg 0o10000 != 0

-- The data that a receiver gets, by `msg_grant_rcv`.
unfoldable pub msg_grant_rcv : Waiter → Gmsg → ℕ → Reply
msg_grant_rcv w m sz =
    let n = if leb m.size sz then m.size else sz in
    record { cfd = w.cfd; ret = ok (n % 2 ^ 32); mtype = m.mtype; payload = take n m.text }

unfoldable pub receive : Env → Reg → ℕ → Waiter → ℕ → ℕ → MsgQ → Option (ℕ × Gmsg) → Bool × Reg
unfolding waiter_reply msg_grant_rcv
receive e g i w sz flg q none = (false, g)
receive e g i w sz flg q (some (k, m)) =
    if ltb sz m.size && not (noerror flg)
    then (true, waiter_reply g i (reply_to w (err e2big)))
    else (
      true,
      waiter_reply
          (put_queue_back g
            (record (msg_unlink q k m) { lrpid = w.pid; rtime = e.now; tpid = w.pid }))
          i (msg_grant_rcv w m sz),
    )

unfoldable pub visit_rcv : Env → Reg → ℕ → Waiter → ℕ → ℕ → ℕ → Option MsgQ → Bool × Reg
unfolding receive waiter_reply
visit_rcv e g i w typ sz flg none = removed g i w
visit_rcv e g i w typ sz flg (some q) = receive e g i w sz flg q (msg_pick q typ flg)

-- The three kinds of waiter.
unfoldable pub serve : Env → Reg → ℕ → Waiter → Wants → Bool × Reg
unfolding visit_sem visit_snd visit_rcv
serve e g i w (semop sops b) = visit_sem e g i w sops (sem_find w.id g.sems)
serve e g i w (msgsnd m) = visit_snd e g i w m (msg_find w.id g.queues)
serve e g i w (msgrcv typ sz flg) = visit_rcv e g i w typ sz flg (msg_find w.id g.queues)

-- The body of the inner loop of `cng_ipc_rescan`, for the waiter in slot `i`.
unfoldable pub visit : Env → Reg → ℕ → Waiter → Bool × Reg
unfolding serve
visit e g i w = serve e g i w w.wants

abbrev pub sooner : Waiter → Option (ℕ × Waiter) → Bool
sooner w none = true
sooner w (some (j, b)) = ltb w.seq b.seq

-- The search for the earliest arrival behind `last`, from slot `i` on.
unfoldable pub earliest : ℕ → ℕ → List (Option Waiter) → Option (ℕ × Waiter) → Option (ℕ × Waiter)
earliest last i [] best = best
earliest last i (none ∷ waits) best = earliest last (i + 1) waits best
earliest last i (some w ∷ waits) best =
    earliest last (i + 1) waits (if ltb last w.seq && sooner w best then some (i, w) else best)

-- One round of the inner loop: the earliest is served, and the rest is looked at again.
unfoldable pub next_round :
    (ℕ → Bool → Reg → Option (Bool × Reg))
    → Env
    → Bool
    → Reg
    → Option (ℕ × Waiter)
    → Option (Bool × Reg)
unfolding visit
next_round again e progress g none = some (progress, g)
next_round again e progress g (some (i, w)) =
    again w.seq (progress || (visit e g i w).0) (visit e g i w).1

-- The inner loop: whether there was progress; `none` where the rounds ran out.
unfoldable pub pass : ℕ → Env → ℕ → Bool → Reg → Option (Bool × Reg)
unfolding earliest next_round
pass zero e last progress g = none
pass (suc fuel) e last progress g =
    next_round (pass fuel e) e progress g (earliest last 0 g.waits none)

abbrev pub waiting : List (Option Waiter) → ℕ
waiting [] = 0
waiting (none ∷ waits) = waiting waits
waiting (some w ∷ waits) = suc (waiting waits)

abbrev pub after_pass : (Reg → Option Reg) → Option (Bool × Reg) → Option Reg
after_pass again none = none
after_pass again (some (true, g)) = again g
after_pass again (some (false, g)) = some g

-- The outer loop.
unfoldable pub rounds : ℕ → Env → Reg → Option Reg
unfolding pass
rounds zero e g = none
rounds (suc fuel) e g = elim (waiting g.waits == 0) [
  | true ↦ some g
  | false ↦ after_pass (rounds fuel e) (pass (suc (waiting g.waits)) e 0 false g)
]

-- `cng_ipc_rescan`
unfoldable pub ipc_rescan : Env → Reg → Option Reg
unfolding rounds
ipc_rescan e g = rounds (suc (waiting g.waits)) e g
