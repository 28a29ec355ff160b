-- ===== src/Ipc/Get.antt =====
-- What msgget answers names a queue: `msg_do_get` of src/monitor/ipcreg.c.
use fake_chroot_ng.Prelude.{
  ℕ, ◌*◌, ◌≡◌, refl, ap, ◌∙◌, inl, inr, Bool, true, false, not, ◌&&◌, Option, none, some, arith,
  ◌==◌, if◌then◌else◌, set, get_elem?, Bool-cases, Ret, ok, err,
}
use fake_chroot_ng.Ipc.Queue.{MsgQ}
use fake_chroot_ng.Ipc.Table.{
  Request, creat, excl, enoent, ipc_access, find_key, free_slot, msg_find, msg_alloc_id,
  msg_queue_max, Table, new_queue, put_queue, make_queue, open_queue, keyed_queue, msg_do_get,
}
use fake_chroot_ng.Ipc.Ids.{
  Unique, find-find_id, alloc_id-free, set-found, set-Unique, same-Unique, free_slot-at,
  find_key-at,
}

abbrev pub IsTable : Table MsgQ → Type 0
IsTable t = Unique (λ q. q.msqid) t.slots

-- What is answered: an id that names a queue with the key asked for, in a table whose ids are
-- still apart; or an error, with every queue as it was.
abbrev pub Got : Table MsgQ → Request → Ret × Table MsgQ → Type 0
Got t q (ok id, t') = IsTable t' × (mq : MsgQ) × (msg_find id t'.slots ≡ some mq) × (mq.key ≡ q.key)
Got t q (err e, t') = t'.slots ≡ t.slots

put_queue-Got :
    (t : Table MsgQ) (q : Request) (now slot : ℕ) (r : Option ℕ × ℕ)
    → IsTable t
    → get_elem? t.slots slot ≡ some none
    → msg_alloc_id t.slots t.next ≡ r
    → Got t q (put_queue t q now slot r)
unfolding put_queue msg_find new_queue msg_alloc_id
put_queue-Got t q now slot (none, next) u g e = refl
put_queue-Got t q now slot (some id, next) u g e =
    let (l, h, f) = alloc_id-free (λ q. q.msqid) (msg_queue_max * 4) t.slots t.next id next e in
    (
      set-Unique (λ q. q.msqid) t.slots slot (new_queue q now id) g l h f u,
      new_queue q now id,
      find-find_id (λ q. q.msqid) id (set t.slots slot (some (new_queue q now id))) l h
          ∙ set-found (λ q. q.msqid) t.slots slot (new_queue q now id) g f,
      refl,
    )

make_queue-Got :
    (t : Table MsgQ) (q : Request) (now : ℕ) (slot : Option ℕ)
    → IsTable t
    → free_slot 0 t.slots ≡ slot
    → Got t q (make_queue t q now slot)
unfolding make_queue
make_queue-Got t q now none u e = refl
make_queue-Got t q now (some slot) u e =
    let (k, s, g) = free_slot-at t.slots 0 slot e in
    put_queue-Got t q now slot (msg_alloc_id t.slots t.next) u
      (ap (get_elem? t.slots) (s ∙ omega arith) ∙ g) refl

open_queue-Got :
    (t : Table MsgQ) (q : Request) (i : ℕ) (mq : MsgQ)
    → IsTable t
    → get_elem? t.slots i ≡ some (some mq)
    → mq.key ≡ q.key
    → Got t q (open_queue t q i mq)
unfolding open_queue msg_find
open_queue-Got t q i mq u g k = elim (Bool-cases (creat q && excl q)) [
  | inl b ↦ rw b refl
  | inr b ↦ elim (Bool-cases (ipc_access mq.mode mq.uid mq.cuid mq.gid mq.cgid q.uid q.gid 4)) [
    | inr c ↦ rw (b, c) refl
    | inl c ↦
        rw (b, c)
          (let (v, l, h, f) =
              same-Unique (λ q. q.msqid) t.slots i (record mq { tpid = q.pid }) mq g refl u in
            (
              v,
              record mq { tpid = q.pid },
              find-find_id (λ q. q.msqid) mq.msqid
                    (set t.slots i (some (record mq { tpid = q.pid }))) l h
                  ∙ f,
              k,
            ))
  ]
]

-- msgget keeps the ids of the queues positive and apart. An id that it answers names, in the table
-- that it leaves, a queue with the key asked for; where it fails, every queue is as it was. The
-- ids are positive and apart at the start.
pub msg_do_get-Got :
    (t : Table MsgQ) (q : Request) (now : ℕ) → IsTable t → Got t q (msg_do_get t q now)
unfolding msg_do_get keyed_queue
msg_do_get-Got t q now u = elim (Bool-cases (q.key == 0)) [
  | inl b ↦ rw b (make_queue-Got t q now (free_slot 0 t.slots) u refl)
  | inr b ↦ rw b (keyed (find_key (λ mq. mq.key) q.key 0 t.slots) refl)
]
  where
    made :
        (c : Bool)
        → Got t q (if not c then (err enoent, t) else make_queue t q now (free_slot 0 t.slots))
    made true = make_queue-Got t q now (free_slot 0 t.slots) u refl
    made false = refl

    keyed :
        (o : Option (ℕ × MsgQ))
        → find_key (λ mq. mq.key) q.key 0 t.slots ≡ o
        → Got t q (keyed_queue t q now o)
    keyed none e = made (creat q)
    keyed (some (i, mq)) e =
        let (k, s, g, h) = find_key-at (λ mq. mq.key) q.key t.slots 0 i mq e in
        open_queue-Got t q i mq u (ap (get_elem? t.slots) (s ∙ omega arith) ∙ g) h
