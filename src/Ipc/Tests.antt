-- ===== src/Ipc/Tests.antt =====
-- Runs of the semaphore code at concrete inputs.
use fake_chroot_ng.Prelude.{
  ℕ, ◌≡◌, refl, ◌-◌, ◌^◌, true, ok, none, Option, some, List, [], ◌∷◌, arith,
}
use fake_chroot_ng.Ipc.{
  Sembuf, SemSet, done, blocked, failed, erange, sem_try_op, sem_loop, try_one, roll_back, back_one,
  finish_op, stamp,
}
use fake_chroot_ng.Ipc.Undo.{sem_undo_apply}
use fake_chroot_ng.Ipc.Repaid.{Session, opened, ran, Session-repaid}
use fake_chroot_ng.Ipc.Queue.{Gmsg, MsgQ, msg_matches, msg_pick, msg_fits, msg_enqueue}
use fake_chroot_ng.Ipc.Pick.{Picked, msg_pick-Picked}
use fake_chroot_ng.Ipc.Counts.{IsCounted, created, sent, Traffic-IsCounted}
use fake_chroot_ng.Ipc.Table.{Request, Table, msg_alloc_id, make_queue, put_queue, msg_do_get}
use fake_chroot_ng.Ipc.SemGet.{IsSemTable, GotSet, sem_do_get, sem_do_get-GotSet}
use fake_chroot_ng.Ipc.Get.{IsTable, Got, msg_do_get-Got}
use fake_chroot_ng.Ipc.Atomic.{Unchanged, sem_try_op-Unchanged}

-- two semaphores, at 1 and 0
abbrev pair : SemSet
pair = record {
  semid = 4;
  key = 0;
  nsems = 2;
  mode = 0o600;
  uid = 1000;
  gid = 1000;
  cuid = 1000;
  cgid = 1000;
  otime = 0;
  ctime = 5;
  val = 1 ∷ 0 ∷ [];
  lpid = 0 ∷ 0 ∷ [];
  cpid = 7;
  tpid = 7;
}

-- SEM_UNDO, and a short of -1
abbrev take_one : ℕ → Sembuf
take_one n = record { sem_num = n; sem_op = 0xffff; sem_flg = 0x1000 }

abbrev give_max : ℕ → Sembuf
give_max n = record { sem_num = n; sem_op = 32767; sem_flg = 0x1000 }

abbrev take_max : ℕ → Sembuf
take_max n = record { sem_num = n; sem_op = 0x8001; sem_flg = 0 }

abbrev zeros : Option (List ℕ)
zeros = some (0 ∷ 0 ∷ [])

taken : sem_try_op pair (take_one 0 ∷ []) 9 60 zeros ≡ (
  done,
  record pair { val = 0 ∷ 0 ∷ []; lpid = 9 ∷ 0 ∷ []; otime = 60; tpid = 9 },
  some (1 ∷ 0 ∷ []),
)
unfolding sem_try_op sem_loop try_one finish_op stamp
taken = refl

-- the second one waits, and the first is taken back
both_wait : sem_try_op pair (take_one 0 ∷ take_one 1 ∷ []) 9 60 zeros ≡ (blocked 1, pair, zeros)
unfolding sem_try_op sem_loop try_one finish_op roll_back back_one
both_wait = refl

-- the adjustment runs over in the third operation
overflown :
    sem_try_op
      (record pair { val = 0 ∷ 0 ∷ [] })
      (give_max 0 ∷ take_max 0 ∷ give_max 0 ∷ [])
      9
      60
      zeros
    ≡ (failed erange, record pair { val = 0 ∷ 0 ∷ [] }, zeros)
unfolding sem_try_op sem_loop try_one finish_op roll_back back_one
overflown = refl

sem_try_op-Unchanged_example :
    Unchanged pair zeros (sem_try_op pair (take_one 0 ∷ take_one 1 ∷ []) 9 60 zeros)
sem_try_op-Unchanged_example =
    sem_try_op-Unchanged pair (take_one 0 ∷ take_one 1 ∷ []) 9 60 zeros
      (omega arith, (omega arith, tt)) (refl, (omega arith, (omega arith, tt)))
      (refl, (omega arith, (omega arith, tt)))

taken_Session :
    Session 9 pair
      (record pair { val = 0 ∷ 0 ∷ []; lpid = 9 ∷ 0 ∷ []; otime = 60; tpid = 9 })
      (1 ∷ 0 ∷ [])
taken_Session =
    ran pair (record pair { val = 0 ∷ 0 ∷ []; lpid = 9 ∷ 0 ∷ []; otime = 60; tpid = 9 })
      (0 ∷ 0 ∷ []) (1 ∷ 0 ∷ []) (take_one 0 ∷ []) 60 opened ((omega arith, refl), tt) taken

Session-repaid_example :
    (sem_undo_apply
      (record pair { val = 0 ∷ 0 ∷ []; lpid = 9 ∷ 0 ∷ []; otime = 60; tpid = 9 })
      9
      61
      (1 ∷ 0 ∷ [])).val
    ≡ 1 ∷ 0 ∷ []
Session-repaid_example =
    Session-repaid 9 61 pair
      (record pair { val = 0 ∷ 0 ∷ []; lpid = 9 ∷ 0 ∷ []; otime = 60; tpid = 9 }) (1 ∷ 0 ∷ [])
      (omega arith, (omega arith, tt)) taken_Session

abbrev message : ℕ → ℕ → Gmsg
message t n = record { mtype = t; size = n; text = [] }

abbrev empty_queue : MsgQ
empty_queue = record {
  msqid = 3;
  key = 0;
  mode = 0o600;
  uid = 1000;
  gid = 1000;
  cuid = 1000;
  cgid = 1000;
  stime = 0;
  rtime = 0;
  ctime = 5;
  cbytes = 0;
  qnum = 0;
  qbytes = 16384;
  lspid = 0;
  lrpid = 0;
  cpid = 7;
  tpid = 7;
  msgs = [];
}

abbrev three : MsgQ
three = record empty_queue {
  msgs = message 5 10 ∷ message 2 20 ∷ message 2 30 ∷ [];
  cbytes = 60;
  qnum = 3;
}

-- a type of -4: the first of the lowest
lowest_of_three : msg_pick three (2 ^ 64 - 4) 0 ≡ some (1, message 2 20)
unfolding msg_pick msg_matches
lowest_of_three = refl

oldest_of_three : msg_pick three 0 0 ≡ some (0, message 5 10)
unfolding msg_pick msg_matches
oldest_of_three = refl

msg_pick-Picked_example : Picked (2 ^ 64 - 4) 0 three.msgs (msg_pick three (2 ^ 64 - 4) 0)
msg_pick-Picked_example = msg_pick-Picked three (2 ^ 64 - 4) 0

one_sent_fits : msg_fits empty_queue 10 ≡ true
unfolding msg_fits
one_sent_fits = refl

empty-IsCounted : IsCounted empty_queue
empty-IsCounted = record {
  bytes_counted = refl;
  number_counted = refl;
  bytes_within = omega arith;
  number_within = omega arith;
  limit = omega arith;
}

Traffic-IsCounted_example : IsCounted (msg_enqueue empty_queue (message 5 10) 9 60)
Traffic-IsCounted_example =
    Traffic-IsCounted empty_queue (msg_enqueue empty_queue (message 5 10) 9 60) empty-IsCounted
      (sent empty_queue (message 5 10) 9 60 created (omega arith) one_sent_fits)

abbrev request : Request
request = record { key = 77; size = 0; arg = 0o1600; pid = 9; uid = 1000; gid = 1000 }

abbrev two_slots : Table MsgQ
two_slots = record { slots = some three ∷ none ∷ []; next = 3 }

-- id 3 is taken
made_queue : (msg_do_get two_slots request 60).0 ≡ ok 4
unfolding msg_do_get msg_alloc_id make_queue put_queue
made_queue = refl

two-IsTable : IsTable two_slots
two-IsTable = (omega arith, omega arith, refl, tt)

msg_do_get-Got_example : Got two_slots request (msg_do_get two_slots request 60)
msg_do_get-Got_example = msg_do_get-Got two_slots request 60 two-IsTable

abbrev sem_request : Request
sem_request = record request { size = 2 }

abbrev sem_slots : Table SemSet
sem_slots = record { slots = some pair ∷ none ∷ []; next = 4 }

sem_slots-IsSemTable : IsSemTable sem_slots
sem_slots-IsSemTable = (omega arith, omega arith, refl, tt)

sem_do_get-GotSet_example : GotSet sem_slots sem_request (sem_do_get sem_slots true sem_request 60)
sem_do_get-GotSet_example = sem_do_get-GotSet sem_slots true sem_request 60 sem_slots-IsSemTable
