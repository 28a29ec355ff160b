-- ===== src/Ipc/Table.antt =====
-- The tables of src/monitor/ipcreg.c: lookup, permissions, ids, and semget and msgget.
-- A slot that is not used is `none`.
use fake_chroot_ng.Prelude.{
  ℕ, zero, suc, ◌+◌, ◌*◌, ◌/◌, ◌%◌, ◌^◌, Bool, true, false, not, ◌&&◌, ◌||◌, Option, none, some,
  List, [], ◌∷◌, ◌==◌, ◌!=◌, bit_and, if◌then◌else◌, set, neg32, Ret, ok, err,
}
use fake_chroot_ng.Ipc.{SemSet}
use fake_chroot_ng.Ipc.Queue.{MsgQ}

abbrev pub enoent : ℕ
enoent = 2

abbrev pub eacces : ℕ
eacces = 13

abbrev pub eexist : ℕ
eexist = 17

abbrev pub enospc : ℕ
enospc = 28

-- The fields of `struct cng_breq` that the two calls read.
pub record Request : Type 0 where
  pub key : ℕ
  pub size : ℕ
  pub arg : ℕ
  pub pid : ℕ
  pub uid : ℕ
  pub gid : ℕ

abbrev pub creat : Request → Bool
creat q = bit_and q.arg 0o1000 != 0

abbrev pub excl : Request → Bool
excl q = bit_and q.arg 0o2000 != 0

-- `(m & need & 7) == need`
abbrev pub grants : ℕ → ℕ → Bool
grants m need = bit_and (bit_and m need) 7 == need

unfoldable pub ipc_access : ℕ → ℕ → ℕ → ℕ → ℕ → ℕ → ℕ → ℕ → Bool
ipc_access mode ouid cuid ogid cgid uid gid need =
    if uid == 0
    then true
    else if uid == ouid || uid == cuid
    then grants (mode / 64) need
    else if gid == ogid || gid == cgid
    then grants (mode / 8) need
    else grants mode need

module _ {A : Type 0} (id_of : A → ℕ) where
  -- The used slot with this id.
  abbrev pub find_id : ℕ → List (Option A) → Option A
  find_id id [] = none
  find_id id (none ∷ tbl) = find_id id tbl
  find_id id (some a ∷ tbl) = let rest = find_id id tbl in if id_of a == id then some a else rest

  -- `if (id <= 0) return 0;` and the loop
  abbrev pub find : ℕ → List (Option A) → Option A
  find id tbl = if id == 0 || neg32 id then none else find_id id tbl

  abbrev pub is_none : Option A → Bool
  is_none none = true
  is_none (some a) = false

  -- The loop that takes the next id that is not used; the counter starts over at 1.
  abbrev pub alloc_id : ℕ → List (Option A) → ℕ → Option ℕ × ℕ
  alloc_id zero tbl next = (none, next)
  alloc_id (suc tries) tbl next =
      let after = (next + 1) % 2 ^ 32 in
      let counter = if after == 0 || neg32 after then 1 else after in
      let again = alloc_id tries tbl counter in
      if not (next == 0 || neg32 next) && is_none (find next tbl)
      then (some next, counter)
      else again

abbrev pub find_key {ℓ} : {A : Type ℓ} → (A → ℕ) → ℕ → ℕ → List (Option A) → Option (ℕ × A)
find_key key_of key i [] = none
find_key key_of key i (none ∷ tbl) = find_key key_of key (i + 1) tbl
find_key key_of key i (some a ∷ tbl) =
    let rest = find_key key_of key (i + 1) tbl in if key_of a == key then some (i, a) else rest

-- The first slot that is not used.
abbrev pub free_slot {ℓ} : {A : Type ℓ} → ℕ → List (Option A) → Option ℕ
free_slot i [] = none
free_slot i (none ∷ tbl) = some i
free_slot i (some a ∷ tbl) = free_slot (i + 1) tbl

unfoldable pub sem_find : ℕ → List (Option SemSet) → Option SemSet
sem_find semid tbl = find (λ s. s.semid) semid tbl

unfoldable pub msg_find : ℕ → List (Option MsgQ) → Option MsgQ
msg_find msqid tbl = find (λ q. q.msqid) msqid tbl

abbrev pub sem_set_max : ℕ
sem_set_max = 1024

abbrev pub msg_queue_max : ℕ
msg_queue_max = 1024

unfoldable pub sem_alloc_id : List (Option SemSet) → ℕ → Option ℕ × ℕ
sem_alloc_id tbl next = alloc_id (λ s. s.semid) (sem_set_max * 4) tbl next

unfoldable pub msg_alloc_id : List (Option MsgQ) → ℕ → Option ℕ × ℕ
msg_alloc_id tbl next = alloc_id (λ q. q.msqid) (msg_queue_max * 4) tbl next

-- A table with its counter.
pub record Table (A : Type 0) : Type 0 where
  pub slots : List (Option A)
  pub next : ℕ

unfoldable pub new_queue : Request → ℕ → ℕ → MsgQ
new_queue q now id = record {
  msqid = id;
  key = q.key;
  mode = bit_and q.arg 0o777;
  uid = q.uid;
  gid = q.gid;
  cuid = q.uid;
  cgid = q.gid;
  stime = 0;
  rtime = 0;
  ctime = now;
  cbytes = 0;
  qnum = 0;
  qbytes = 16384;
  lspid = 0;
  lrpid = 0;
  cpid = q.pid;
  tpid = q.pid;
  msgs = [];
}

-- The queue is put into the slot, if an id is found.
unfoldable pub put_queue : Table MsgQ → Request → ℕ → ℕ → Option ℕ × ℕ → Ret × Table MsgQ
unfolding new_queue
put_queue t q now slot (none, next) = (err enospc, record t { next = next })
put_queue t q now slot (some id, next) =
    (ok id, record { slots = set t.slots slot (some (new_queue q now id)); next = next })

unfoldable pub make_queue : Table MsgQ → Request → ℕ → Option ℕ → Ret × Table MsgQ
unfolding put_queue msg_alloc_id
make_queue t q now none = (err enospc, t)
make_queue t q now (some slot) = put_queue t q now slot (msg_alloc_id t.slots t.next)

unfoldable pub open_queue : Table MsgQ → Request → ℕ → MsgQ → Ret × Table MsgQ
unfolding ipc_access
open_queue t q i mq =
    if creat q && excl q
    then (err eexist, t)
    else if not (ipc_access mq.mode mq.uid mq.cuid mq.gid mq.cgid q.uid q.gid 4)
    then (err eacces, t)
    else (ok mq.msqid, record t { slots = set t.slots i (some (record mq { tpid = q.pid })) })

unfoldable pub keyed_queue : Table MsgQ → Request → ℕ → Option (ℕ × MsgQ) → Ret × Table MsgQ
unfolding open_queue make_queue
keyed_queue t q now (some (i, mq)) = open_queue t q i mq
keyed_queue t q now none =
    if not (creat q) then (err enoent, t) else make_queue t q now (free_slot 0 t.slots)

-- `msg_do_get`
unfoldable pub msg_do_get : Table MsgQ → Request → ℕ → Ret × Table MsgQ
unfolding keyed_queue make_queue
msg_do_get t q now =
    if q.key != 0
    then keyed_queue t q now (find_key (λ mq. mq.key) q.key 0 t.slots)
    else make_queue t q now (free_slot 0 t.slots)
