-- ===== src/Ipc.antt =====
-- src/monitor/ipcreg.c: System V semaphores of the broker. A signed number is its bit pattern.
pub mod Rollback
pub mod Atomic
pub mod Undo
pub mod Repaid
pub mod Queue
pub mod Pick
pub mod Counts
pub mod Table
pub mod Ids
pub mod Get
pub mod SemGet
pub mod Waiters
pub mod Slots
pub mod Order
pub mod Rows
pub mod Stuck
pub mod Try
pub mod Visit
pub mod Pass
pub mod Rescan
pub mod Parked
pub mod Expired
mod Tests
mod WaiterTests
use fake_chroot_ng.Prelude.{
  ℕ, zero, suc, ◌+◌, ◌-◌, ◌%◌, ◌^◌, ◌<◌, Bool, true, false, ◌&&◌, ◌||◌, Option, none, some, List,
  [], ◌∷◌, ltb, leb, ◌==◌, ◌!=◌, bit_and, if◌then◌else◌, set, any, neg32,
}

-- `struct cng_sembuf`: an unsigned short, a short and a short.
pub record Sembuf : Type 0 where
  pub sem_num : ℕ
  pub sem_op : ℕ
  pub sem_flg : ℕ

-- `struct sem_set`; the length of `val` and `lpid` is `nsems`.
pub record SemSet : Type 0 where
  pub semid : ℕ
  pub key : ℕ
  pub nsems : ℕ
  pub mode : ℕ
  pub uid : ℕ
  pub gid : ℕ
  pub cuid : ℕ
  pub cgid : ℕ
  pub otime : ℕ
  pub ctime : ℕ
  pub val : List ℕ
  pub lpid : List ℕ
  pub cpid : ℕ
  pub tpid : ℕ

abbrev pub semvmx : ℕ
semvmx = 32767

abbrev pub eagain : ℕ
eagain = 11

abbrev pub enomem : ℕ
enomem = 12

abbrev pub efbig : ℕ
efbig = 27

abbrev pub erange : ℕ
erange = 34

abbrev pub nowait : Sembuf → Bool
nowait op = bit_and op.sem_flg 0o4000 != 0

abbrev pub undoes : Sembuf → Bool
undoes op = bit_and op.sem_flg 0x1000 != 0

abbrev pub word_at : List ℕ → ℕ → ℕ
word_at [] i = 0
word_at (x ∷ xs) zero = x
word_at (x ∷ xs) (suc i) = word_at xs i

-- A short as an int, and the sum and difference of two ints.
abbrev pub widen : ℕ → ℕ
widen n = if ltb n 0x8000 then n else n + 0xffff0000

abbrev pub plus : ℕ → ℕ → ℕ
plus a b = (a + b) % 2 ^ 32

abbrev pub minus : ℕ → ℕ → ℕ
minus a b = (a + (2 ^ 32 - b)) % 2 ^ 32

-- What an attempt answers: it is done, it waits at an operation, or it fails.
pub data Outcome : Type 0 where
  done : Outcome
  blocked : ℕ → Outcome
  failed : ℕ → Outcome

-- The live values, and the adjustments of the process's undo row once it is looked up.
pub record Work : Type 0 where
  pub val : List ℕ
  pub undo : Option (List ℕ)

pub data Tried : Type 0 where
  applied : Work → Tried
  stopped : Outcome → Option (List ℕ) → Tried

-- `adj < -SEMAEM - 1 || adj > SEMAEM`
abbrev pub adj_out : ℕ → Bool
adj_out adj = if neg32 adj then ltb adj 0xffff8000 else ltb 32767 adj

-- Under SEM_UNDO: the value and the adjustment are stored, if the latter is one.
abbrev pub adjust : Sembuf → ℕ → List ℕ → Option (List ℕ) → Tried
adjust op v val none = stopped (failed enomem) none
adjust op v val (some adj) =
    let a = minus (widen (word_at adj op.sem_num)) (widen op.sem_op) in
    if adj_out a
    then stopped (failed erange) (some adj)
    else applied record {
      val = set val op.sem_num (v % 2 ^ 16);
      undo = some (set adj op.sem_num (a % 2 ^ 16));
    }

-- `if (!u) u = sem_undo_find(pid, s, 1);`
abbrev pub look_up : Option (List ℕ) → Option (List ℕ) → Option (List ℕ)
look_up row none = row
look_up row (some adj) = some adj

-- One operation, the `i`-th: the body of the loop. `row` is what `sem_undo_find` answers.
unfoldable pub try_one : Option (List ℕ) → ℕ → Sembuf → Work → Tried
try_one row i op w =
    let v = plus (word_at w.val op.sem_num) (widen op.sem_op) in
    if (op.sem_op == 0 && word_at w.val op.sem_num != 0) || neg32 v
    then stopped (if nowait op then failed eagain else blocked i) w.undo
    else if ltb semvmx v
    then stopped (failed erange) w.undo
    else if undoes op
    then adjust op v w.val (look_up row w.undo)
    else applied record { val = set w.val op.sem_num (v % 2 ^ 16); undo = w.undo }

abbrev pub back_adj : Sembuf → Option (List ℕ) → Option (List ℕ)
back_adj op none = none
back_adj op (some adj) =
    if undoes op
    then some
        (set adj op.sem_num (plus (widen (word_at adj op.sem_num)) (widen op.sem_op) % 2 ^ 16))
    else some adj

-- One operation taken back.
unfoldable pub back_one : Sembuf → Work → Work
back_one op w = record {
  val = set w.val op.sem_num (minus (word_at w.val op.sem_num) (widen op.sem_op) % 2 ^ 16);
  undo = back_adj op w.undo;
}

-- `while (i--)`: the operations applied, the last one first, are taken back.
unfoldable pub roll_back : List Sembuf → Work → Work
roll_back [] w = w
roll_back (op ∷ ops) w = roll_back ops (back_one op w)

-- The loop, from operation `i` on, with those before it behind it, the last one first.
unfoldable pub sem_loop : Option (List ℕ) → ℕ → List Sembuf → List Sembuf → Work → Outcome × Work
sem_loop row i before [] w = (done, w)
sem_loop row i before (op ∷ ops) w = elim (try_one row i op w) [
  | stopped o undo ↦ (o, roll_back before (record w { undo = undo }))
  | applied w' ↦ sem_loop row (i + 1) (op ∷ before) ops w'
]

-- `s->lpid[sops[i].sem_num] = pid` for each operation.
unfoldable pub stamp : ℕ → List Sembuf → List ℕ → List ℕ
stamp pid [] lpid = lpid
stamp pid (op ∷ ops) lpid = stamp pid ops (set lpid op.sem_num pid)

unfoldable pub finish_op :
    SemSet → ℕ → ℕ → List Sembuf → Outcome × Work → Outcome × SemSet × Option (List ℕ)
unfolding stamp
finish_op s pid now ops (done, w) =
    (done, record s { val = w.val; lpid = stamp pid ops s.lpid; otime = now; tpid = pid }, w.undo)
finish_op s pid now ops (o, w) = (o, record s { val = w.val }, w.undo)

-- `sem_try_op`: the answer, the set, and the adjustments of the undo row if it was looked up.
unfoldable pub sem_try_op :
    SemSet → List Sembuf → ℕ → ℕ → Option (List ℕ) → Outcome × SemSet × Option (List ℕ)
unfolding finish_op sem_loop
sem_try_op s ops pid now row =
    if any (λ op. leb s.nsems op.sem_num) ops
    then (failed efbig, s, none)
    else finish_op s pid now ops (sem_loop row 0 [] ops record { val = s.val; undo = none })
