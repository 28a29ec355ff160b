-- ===== src/Ipc/Parked.antt =====
-- How a waiter comes and goes, outside a rescan: waiter_park, cng_ipc_expire, waiters_eidrm and
-- sem_count_waiters of src/monitor/ipcreg.c.
use fake_chroot_ng.Prelude.{
  ℕ, ◌+◌, ◌-◌, ◌/◌, ◌%◌, ◌^◌, Bool, false, not, ◌&&◌, Option, none, some, List, [], ◌∷◌, ltb, leb,
  ◌==◌, if◌then◌else◌, set, get_elem?, Ret, err,
}
use fake_chroot_ng.Ipc.{Sembuf, eagain}
use fake_chroot_ng.Ipc.Queue.{neg64}
use fake_chroot_ng.Ipc.Table.{free_slot}
use fake_chroot_ng.Ipc.Waiters.{
  Wants, semop, msgsnd, msgrcv, Waiter, Reply, Env, Reg, reply_to, eidrm,
}

-- A timeout in nanoseconds as milliseconds, rounded up, and clamped first so that the sum is below
-- 2^63.
abbrev pub round_up : ℕ → ℕ
round_up t = ((if ltb (2 ^ 63 - 1 - 1000000) t then 2 ^ 63 - 1 - 1000000 else t) + 999999) / 1000000

-- `mono_ms() + ...`, or -1 for a timeout below 0.
abbrev pub deadline_of : ℕ → ℕ → Option ℕ
deadline_of mono timeout = if neg64 timeout then none else some (mono + round_up timeout)

abbrev pub parked_in : Reg → Waiter → Option ℕ → Option Reg
parked_in g w none = none
parked_in g w (some slot) =
    some (record g { waits = set g.waits slot (some w); next_seq = (g.next_seq + 1) % 2 ^ 64 })

-- `waiter_park`: the registry, or `none` if the table is full.
unfoldable pub waiter_park : Env → ℕ → Reg → ℕ → ℕ → ℕ → ℕ → Wants → Option Reg
waiter_park e mono g cfd id pid timeout wants =
    parked_in g
      record {
        cfd = cfd;
        id = id;
        pid = pid;
        started = e.started pid;
        seq = g.next_seq;
        deadline = deadline_of mono timeout;
        wants = wants;
      }
      (free_slot 0 g.waits)

-- A loop over the waiters that answers, and frees, those that a test picks.
unfoldable pub answer_loop :
    (Waiter → Bool) → Ret → List (Option Waiter) → List Reply → List (Option Waiter) × List Reply
answer_loop test ret [] sent = ([], sent)
answer_loop test ret (none ∷ waits) sent =
    let rest = answer_loop test ret waits sent in (none ∷ rest.0, rest.1)
answer_loop test ret (some w ∷ waits) sent =
    let rest = answer_loop test ret waits (if test w then reply_to w ret ∷ sent else sent) in
    ((if test w then none else some w) ∷ rest.0, rest.1)

abbrev pub answer_all : (Waiter → Bool) → Ret → Reg → Reg
unfolding answer_loop
answer_all test ret g =
    let r = answer_loop test ret g.waits g.sent in record g { waits = r.0; sent = r.1 }

-- `!(w->deadline_ms < 0 || now_ms < w->deadline_ms)`
abbrev pub due : ℕ → Waiter → Bool
due now w = elim w.deadline [ none ↦ false | some d ↦ leb d now ]

-- `cng_ipc_expire`
unfoldable pub ipc_expire : ℕ → Reg → Reg
unfolding answer_loop
ipc_expire now g = answer_all (due now) (err eagain) g

abbrev pub waits_on : ℕ → Bool → Waiter → Bool
waits_on id sem w =
    w.id == id
    && (elim w.wants [ semop sops b ↦ sem | msgsnd m ↦ not sem | msgrcv typ sz flg ↦ not sem ])

-- `waiters_eidrm(id, sem)`
unfoldable pub waiters_eidrm : ℕ → Bool → Reg → Reg
unfolding answer_loop
waiters_eidrm id sem g = answer_all (waits_on id sem) (err eidrm) g

-- `b->sem_num == semnum && (zero ? b->sem_op == 0 : b->sem_op < 0)`
abbrev pub counts_for : ℕ → Bool → Option Sembuf → Bool
counts_for semnum zero none = false
counts_for semnum zero (some op) =
    op.sem_num == semnum && (if zero then op.sem_op == 0 else leb 0x8000 op.sem_op)

abbrev pub counted_waiter : ℕ → ℕ → Bool → Waiter → Bool
counted_waiter semid semnum zero w = elim w.wants [
  | semop sops b ↦ w.id == semid && counts_for semnum zero (get_elem? sops b)
  | msgsnd m ↦ false
  | msgrcv typ sz flg ↦ false
]

-- `sem_count_waiters`
unfoldable pub sem_count_waiters : ℕ → ℕ → Bool → List (Option Waiter) → ℕ
sem_count_waiters semid semnum zero [] = 0
sem_count_waiters semid semnum zero (none ∷ waits) = sem_count_waiters semid semnum zero waits
sem_count_waiters semid semnum zero (some w ∷ waits) =
    let rest = sem_count_waiters semid semnum zero waits in
    if counted_waiter semid semnum zero w then rest + 1 else rest
