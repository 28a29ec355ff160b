-- ===== src/Ipc/SemGet.antt =====
-- semget: `sem_do_get` of src/monitor/ipcreg.c. `memory` is whether the kernel gave what the two
-- arrays of a new set need.
use fake_chroot_ng.Prelude.{
  ℕ, zero, suc, ◌*◌, ◌≤◌, ◌≡◌, refl, ap, ◌∙◌, inl, inr, Bool, true, false, not, ◌&&◌, ◌||◌, Option,
  none, some, List, [], ◌∷◌, arith, ltb, ◌==◌, ◌!=◌, if◌then◌else◌, set, get_elem?, bit_and,
  Bool-cases, Ret, ok, err, einval,
}
use fake_chroot_ng.Ipc.{SemSet, enomem}
use fake_chroot_ng.Ipc.Table.{
  Request, creat, excl, enoent, eacces, eexist, enospc, ipc_access, find_key, free_slot, sem_find,
  sem_alloc_id, sem_set_max, Table,
}
use fake_chroot_ng.Ipc.Ids.{
  Unique, find-find_id, alloc_id-free, set-found, set-Unique, same-Unique, free_slot-at,
  find_key-at,
}

abbrev semmsl : ℕ
semmsl = 32000

abbrev zeros : ℕ → List ℕ
zeros zero = []
zeros (suc n) = 0 ∷ zeros n

unfoldable pub new_set : Request → ℕ → ℕ → SemSet
new_set q now id = record {
  semid = id;
  key = q.key;
  nsems = q.size;
  mode = bit_and q.arg 0o777;
  uid = q.uid;
  gid = q.gid;
  cuid = q.uid;
  cgid = q.gid;
  otime = 0;
  ctime = now;
  val = zeros q.size;
  lpid = zeros q.size;
  cpid = q.pid;
  tpid = q.pid;
}

unfoldable pub put_set : Table SemSet → Bool → Request → ℕ → ℕ → Option ℕ × ℕ → Ret × Table SemSet
unfolding new_set
put_set t memory q now slot (none, next) = (err enospc, record t { next = next })
put_set t memory q now slot (some id, next) =
    if not memory
    then (err enomem, record t { next = next })
    else (ok id, record { slots = set t.slots slot (some (new_set q now id)); next = next })

place_set : Table SemSet → Bool → Request → ℕ → Option ℕ → Ret × Table SemSet
unfolding put_set sem_alloc_id
place_set t memory q now none = (err enospc, t)
place_set t memory q now (some slot) = put_set t memory q now slot (sem_alloc_id t.slots t.next)

unfoldable pub make_set : Table SemSet → Bool → Request → ℕ → Ret × Table SemSet
unfolding place_set
make_set t memory q now =
    if q.size == 0 || ltb semmsl q.size
    then (err einval, t)
    else place_set t memory q now (free_slot 0 t.slots)

unfoldable pub open_set : Table SemSet → Request → ℕ → SemSet → Ret × Table SemSet
open_set t q i s =
    if creat q && excl q
    then (err eexist, t)
    else if q.size != 0 && ltb s.nsems q.size
    then (err einval, t)
    else if not (ipc_access s.mode s.uid s.cuid s.gid s.cgid q.uid q.gid 4)
    then (err eacces, t)
    else (ok s.semid, record t { slots = set t.slots i (some (record s { tpid = q.pid })) })

keyed_set : Table SemSet → Bool → Request → ℕ → Option (ℕ × SemSet) → Ret × Table SemSet
unfolding open_set make_set
keyed_set t memory q now (some (i, s)) = open_set t q i s
keyed_set t memory q now none = if not (creat q) then (err enoent, t) else make_set t memory q now

-- `sem_do_get`
unfoldable pub sem_do_get : Table SemSet → Bool → Request → ℕ → Ret × Table SemSet
unfolding keyed_set make_set
sem_do_get t memory q now =
    if q.key != 0
    then keyed_set t memory q now (find_key (λ s. s.key) q.key 0 t.slots)
    else make_set t memory q now

abbrev pub IsSemTable : Table SemSet → Type 0
IsSemTable t = Unique (λ s. s.semid) t.slots

-- What is answered: an id that names a set with the key and at least the semaphores asked for, in
-- a table whose ids are still apart; or an error, with every set as it was.
abbrev pub GotSet : Table SemSet → Request → Ret × Table SemSet → Type 0
GotSet t q (ok id, t') =
    IsSemTable t'
    × (s : SemSet) × (sem_find id t'.slots ≡ some s)
    × (s.key ≡ q.key)
    × (q.size ≤ s.nsems)
GotSet t q (err e, t') = t'.slots ≡ t.slots

put_set-GotSet :
    (t : Table SemSet) (memory : Bool) (q : Request) (now slot : ℕ) (r : Option ℕ × ℕ)
    → IsSemTable t
    → get_elem? t.slots slot ≡ some none
    → sem_alloc_id t.slots t.next ≡ r
    → GotSet t q (put_set t memory q now slot r)
unfolding put_set sem_find new_set sem_alloc_id
put_set-GotSet t memory q now slot (none, next) u g e = refl
put_set-GotSet t false q now slot (some id, next) u g e = refl
put_set-GotSet t true q now slot (some id, next) u g e =
    let (l, h, f) = alloc_id-free (λ s. s.semid) (sem_set_max * 4) t.slots t.next id next e in
    (
      set-Unique (λ s. s.semid) t.slots slot (new_set q now id) g l h f u,
      new_set q now id,
      find-find_id (λ s. s.semid) id (set t.slots slot (some (new_set q now id))) l h
          ∙ set-found (λ s. s.semid) t.slots slot (new_set q now id) g f,
      refl,
      omega arith,
    )

make_set-GotSet :
    (t : Table SemSet) (memory : Bool) (q : Request) (now : ℕ)
    → IsSemTable t
    → GotSet t q (make_set t memory q now)
unfolding make_set place_set
make_set-GotSet t memory q now u = elim (Bool-cases (q.size == 0 || ltb semmsl q.size)) [
  | inl b ↦ rw b refl
  | inr b ↦ rw b (placed (free_slot 0 t.slots) refl)
]
  where
    placed : (o : Option ℕ) → free_slot 0 t.slots ≡ o → GotSet t q (place_set t memory q now o)
    placed none e = refl
    placed (some slot) e =
        let (k, s, g) = free_slot-at t.slots 0 slot e in
        put_set-GotSet t memory q now slot (sem_alloc_id t.slots t.next) u
          (ap (get_elem? t.slots) (s ∙ omega arith) ∙ g) refl

open_set-GotSet :
    (t : Table SemSet) (q : Request) (i : ℕ) (s : SemSet)
    → IsSemTable t
    → get_elem? t.slots i ≡ some (some s)
    → s.key ≡ q.key
    → GotSet t q (open_set t q i s)
unfolding open_set sem_find
open_set-GotSet t q i s u g k = elim (Bool-cases (creat q && excl q)) [
  | inl b ↦ rw b refl
  | inr b ↦ elim (Bool-cases (q.size != 0 && ltb s.nsems q.size)) [
    | inl d ↦ rw (b, d) refl
    | inr d ↦ elim (Bool-cases (ipc_access s.mode s.uid s.cuid s.gid s.cgid q.uid q.gid 4)) [
      | inr c ↦ rw (b, d, c) refl
      | inl c ↦
          rw (b, d, c)
            (let (v, l, h, f) =
                same-Unique (λ s. s.semid) t.slots i (record s { tpid = q.pid }) s g refl u in
              (
                v,
                record s { tpid = q.pid },
                find-find_id (λ s. s.semid) s.semid
                      (set t.slots i (some (record s { tpid = q.pid }))) l h
                    ∙ f,
                k,
                ground (arith, d),
              ))
    ]
  ]
]

-- semget keeps the ids of the sets positive and apart. An id that it answers names, in the table
-- that it leaves, a set with the key and at least the semaphores asked for; where it fails, every
-- set is as it was. The ids are positive and apart at the start.
pub sem_do_get-GotSet :
    (t : Table SemSet) (memory : Bool) (q : Request) (now : ℕ)
    → IsSemTable t
    → GotSet t q (sem_do_get t memory q now)
unfolding sem_do_get keyed_set
sem_do_get-GotSet t memory q now u = elim (Bool-cases (q.key == 0)) [
  | inl b ↦ rw b (make_set-GotSet t memory q now u)
  | inr b ↦ rw b (keyed (find_key (λ s. s.key) q.key 0 t.slots) refl)
]
  where
    made : (c : Bool) → GotSet t q (if not c then (err enoent, t) else make_set t memory q now)
    made true = make_set-GotSet t memory q now u
    made false = refl

    keyed :
        (o : Option (ℕ × SemSet))
        → find_key (λ s. s.key) q.key 0 t.slots ≡ o
        → GotSet t q (keyed_set t memory q now o)
    keyed none e = made (creat q)
    keyed (some (i, s)) e =
        let (k, j, g, h) = find_key-at (λ s. s.key) q.key t.slots 0 i s e in
        open_set-GotSet t q i s u (ap (get_elem? t.slots) (j ∙ omega arith) ∙ g) h
