-- ===== src/Ipc/Rows.antt =====
-- cng_ipc_rescan of src/monitor/ipcreg.c keeps one short for each semaphore of a set, and of each
-- undo row.
use mathlib.Core.Option.{some-injective}
use mathlib.Core.Path.{subst}
use fake_chroot_ng.Prelude.{
  ℕ, zero, suc, ◌≡◌, ◌⊎◌, refl, sym, ap, ◌∙◌, inl, inr, Bool, true, false, ◌||◌, Option, none, some,
  List, [], ◌∷◌, arith, ◌==◌, set, Bool-cases, split_if, neg32,
}
use fake_chroot_ng.Ipc.{SemSet, Outcome}
use fake_chroot_ng.Ipc.Rollback.{IsRow, IsRowOption}
use fake_chroot_ng.Ipc.Table.{find, find_id, free_slot, sem_find}
use fake_chroot_ng.Ipc.Waiters.{
  UndoRow, Env, put_id, is_row, undo_at, zeros, new_row, undo_row, put_adj, made_row, put_new,
  keep_found, keep_row, row_or_new,
}
use fake_chroot_ng.Ipc.Slots.{at_slot, find-slot}

-- A lookup after a write through the pointer that a lookup gave.
module _ {A : Type 0} (id_of : A → ℕ) where
  find_id-put_id :
      (id k : ℕ) (tbl : List (Option A)) (s a x : A)
      → find_id id_of id tbl ≡ some s
      → id_of a ≡ id
      → find_id id_of k (put_id id_of id a tbl) ≡ some x
      → ((k ≡ id) × (a ≡ x)) ⊎ (find_id id_of k tbl ≡ some x)
  find_id-put_id id k [] s a x f h e = cc
  find_id-put_id id k (none ∷ tbl) s a x f h e = find_id-put_id id k tbl s a x f h e
  find_id-put_id id k (some b ∷ tbl) s a x f h e = elim (Bool-cases (id_of b == id)) [
    | inl d ↦ elim (Bool-cases (id_of a == k)) [
      | inl c ↦
          let q : some a ≡ some x = rw c at (rw d at e) in
          inl (ground (arith), some-injective a x q)
      | inr c ↦
          let q : find_id id_of k tbl ≡ some x = rw c at (rw d at e) in
          let n : (id_of b == k) ≡ false = ground arith in inr (rw n q)
    ]
    | inr d ↦ elim (Bool-cases (id_of b == k)) [
      | inl c ↦ inr (rw c (rw c at (rw d at e)))
      | inr c ↦ elim (find_id-put_id id k tbl s a x (rw d at f) h (rw c at (rw d at e))) [
        | inl q ↦ inl q
        | inr q ↦ inr (rw c q)
      ]
    ]
  ]

  find-put_id :
      (id k : ℕ) (tbl : List (Option A)) (s a x : A)
      → find id_of id tbl ≡ some s
      → id_of a ≡ id
      → find id_of k (put_id id_of id a tbl) ≡ some x
      → ((k ≡ id) × (a ≡ x)) ⊎ (find id_of k tbl ≡ some x)
  find-put_id id k tbl s a x f h =
      split_if
        (λ o.
          o ≡ some s
          → find id_of k (put_id id_of id a tbl) ≡ some x
          → ((k ≡ id) × (a ≡ x)) ⊎ (find id_of k tbl ≡ some x))
        (id == 0 || neg32 id) none (find_id id_of id tbl) (λ d q e. cc)
        (λ d q.
          split_if (λ o. o ≡ some x → ((k ≡ id) × (a ≡ x)) ⊎ (find id_of k tbl ≡ some x))
            (k == 0 || neg32 k) none (find_id id_of k (put_id id_of id a tbl)) (λ c e. cc)
            λ c e. elim (find_id-put_id id k tbl s a x q h e) [
              | inl r ↦ inl r
              | inr r ↦ inr (rw c r)
            ])
        f

-- A row that is found is in a slot, and is the set's.
undo_at-slot :
    (pid semid : ℕ) (rows : List (Option UndoRow)) (u : UndoRow)
    → undo_at pid semid rows ≡ some u
    → (j : ℕ) × (at_slot rows j ≡ some u) × (u.semid ≡ semid)
unfolding undo_at
undo_at-slot pid semid [] u e = cc
undo_at-slot pid semid (none ∷ rows) u e =
    let k = undo_at-slot pid semid rows u e in (suc k.0, k.1, k.2)
undo_at-slot pid semid (some v ∷ rows) u e = elim (Bool-cases (is_row pid semid v)) [
  | inl d ↦
      let q : some v ≡ some u = rw d at e in
      let same : v.semid ≡ semid = ground arith in
      (0, q, ap (λ (r : UndoRow). r.semid) (sym (some-injective v u q)) ∙ same)
  | inr d ↦ let k = undo_at-slot pid semid rows u (rw d at e) in (suc k.0, k.1, k.2)
]

-- A write to a slot, used or not.
at_slot-any :
    {A : Type 0} (tbl : List (Option A)) (i j : ℕ) (o : Option A) (x : A)
    → at_slot (set tbl i o) j ≡ some x
    → (o ≡ some x) ⊎ (at_slot tbl j ≡ some x)
at_slot-any [] i j o x e = cc
at_slot-any (p ∷ tbl) zero zero o x e = inl e
at_slot-any (p ∷ tbl) zero (suc j) o x e = inr e
at_slot-any (p ∷ tbl) (suc i) zero o x e = inr e
at_slot-any (p ∷ tbl) (suc i) (suc j) o x e = at_slot-any tbl i j o x e

put_adj-slot :
    (pid semid : ℕ) (adj : List ℕ) (rows : List (Option UndoRow)) (j : ℕ) (u : UndoRow)
    → at_slot (put_adj pid semid adj rows) j ≡ some u
    → (at_slot rows j ≡ some u) ⊎ ((u.semid ≡ semid) × (adj ≡ u.adj))
unfolding put_adj
put_adj-slot pid semid adj [] j u e = inl e
put_adj-slot pid semid adj (none ∷ rows) zero u e = inl e
put_adj-slot pid semid adj (none ∷ rows) (suc j) u e = put_adj-slot pid semid adj rows j u e
put_adj-slot pid semid adj (some v ∷ rows) zero u e = elim (Bool-cases (is_row pid semid v)) [
  | inl d ↦
      let q : some (record v { adj = adj }) ≡ some u = rw d at e in
      let r = some-injective (record v { adj = adj }) u q in
      let same : v.semid ≡ semid = ground arith in
      inr (ap (λ (t : UndoRow). t.semid) (sym r) ∙ same, ap (λ (t : UndoRow). t.adj) r)
  | inr d ↦ inl (rw d at e)
]
put_adj-slot pid semid adj (some v ∷ rows) (suc j) u e = elim (Bool-cases (is_row pid semid v)) [
  | inl d ↦ inl (rw d at e)
  | inr d ↦ put_adj-slot pid semid adj rows j u (rw d at e)
]

put_new-slot :
    (n : UndoRow) (rows : List (Option UndoRow)) (o : Option ℕ) (j : ℕ) (u : UndoRow)
    → at_slot (put_new n rows o) j ≡ some u
    → (some n ≡ some u) ⊎ (at_slot rows j ≡ some u)
put_new-slot n rows none j u e = inr e
put_new-slot n rows (some i) j u e = at_slot-any rows i j (some n) u e

keep_found-slot :
    (e : Env) (s : SemSet) (pid : ℕ) (rows : List (Option UndoRow)) (adj : List ℕ)
    (o : Option UndoRow) (j : ℕ) (u : UndoRow)
    → at_slot (keep_found e s pid rows adj o) j ≡ some u
    → (at_slot rows j ≡ some u) ⊎ ((u.semid ≡ s.semid) × (some adj ≡ some u.adj))
unfolding keep_found
keep_found-slot e s pid rows adj (some v) j u q = elim (put_adj-slot pid s.semid adj rows j u q) [
  | inl k ↦ inl k
  | inr k ↦ inr (k.0, ap some k.1)
]
keep_found-slot e s pid rows adj none j u q =
    elim (put_new-slot (made_row e s pid adj) rows (free_slot 0 rows) j u q) [
      | inl k ↦
          let r = some-injective (made_row e s pid adj) u k in
          inr (ap (λ (t : UndoRow). t.semid) (sym r), ap (λ (t : UndoRow). some t.adj) r)
      | inr k ↦ inl k
    ]

-- A row after an attempt is one from before, or the set's with the adjustments that the attempt left.
pub keep_row-slot :
    (e : Env) (s : SemSet) (pid : ℕ) (rows : List (Option UndoRow)) (o : Option (List ℕ)) (j : ℕ)
    (u : UndoRow)
    → at_slot (keep_row e s pid rows o) j ≡ some u
    → (at_slot rows j ≡ some u) ⊎ ((u.semid ≡ s.semid) × (o ≡ some u.adj))
unfolding keep_row
keep_row-slot e s pid rows none j u q = inl q
keep_row-slot e s pid rows (some adj) j u q =
    keep_found-slot e s pid rows adj (undo_at pid s.semid rows) j u q

zeros-IsRow : (n : ℕ) → IsRow n (zeros n)
unfolding zeros
zeros-IsRow zero = (refl, tt)
zeros-IsRow (suc n) = let k = zeros-IsRow n in (ap (λ m. suc m) k.0, (omega arith, k.1))

-- One short for each semaphore: of every set that is found by its id, and of every undo row of a
-- set that is there.
pub record RowsOk (sems : List (Option SemSet)) (undo : List (Option UndoRow)) : Type 0 where
  pub of_sets : (id : ℕ) (s : SemSet) → sem_find id sems ≡ some s → IsRow s.nsems s.val
  pub of_undo :
      (j : ℕ) (u : UndoRow) (s : SemSet)
      → at_slot undo j ≡ some u
      → sem_find u.semid sems ≡ some s
      → IsRow s.nsems u.adj

-- The set under its own id.
pub sem_find_self :
    (id : ℕ) (sems : List (Option SemSet)) (s : SemSet)
    → sem_find id sems ≡ some s
    → (s.semid ≡ id) × (sem_find s.semid sems ≡ some s)
unfolding sem_find
sem_find_self id sems s f =
    let k = find-slot (λ (t : SemSet). t.semid) id sems s f in
    (k.2, subst (λ m. find (λ (t : SemSet). t.semid) m sems ≡ some s) (sym k.2) f)

row_or_new-IsRow :
    (e : Env) (s : SemSet) (sems : List (Option SemSet)) (undo : List (Option UndoRow))
    (o : Option UndoRow)
    → RowsOk sems undo
    → sem_find s.semid sems ≡ some s
    → ((u : UndoRow) → o ≡ some u → (j : ℕ) × (at_slot undo j ≡ some u) × (u.semid ≡ s.semid))
    → IsRowOption s.nsems (row_or_new e s undo o)
unfolding row_or_new
row_or_new-IsRow e s sems undo (some u) ok f k =
    let q = k u refl in ok.of_undo q.0 u s q.1 (rw q.2 f)
row_or_new-IsRow e s sems undo none ok f k = new_row-IsRow e.has_room (free_slot 0 undo)
  where
    new_row-IsRow : (b : Bool) (o : Option ℕ) → IsRowOption s.nsems (new_row e s b o)
    new_row-IsRow b none = unfold new_row in tt
    new_row-IsRow true (some i) = unfold new_row in zeros-IsRow s.nsems
    new_row-IsRow false (some i) = unfold new_row in tt

pub undo_row-IsRow :
    (e : Env) (s : SemSet) (pid : ℕ) (sems : List (Option SemSet)) (undo : List (Option UndoRow))
    → RowsOk sems undo
    → sem_find s.semid sems ≡ some s
    → IsRowOption s.nsems (undo_row e s pid undo)
unfolding undo_row
undo_row-IsRow e s pid sems undo ok f =
    row_or_new-IsRow e s sems undo (undo_at pid s.semid undo) ok f (undo_at-slot pid s.semid undo)

-- What an attempt leaves, whatever it answers.
pub record TryKept (s : SemSet) (t : Outcome × SemSet × Option (List ℕ)) : Type 0 where
  pub same_id : t.1.semid ≡ s.semid
  pub same_size : t.1.nsems ≡ s.nsems
  pub val_ok : IsRow s.nsems t.1.val
  pub adj_ok : IsRowOption s.nsems t.2

pub put_id-RowsOk :
    (e : Env) (s s' : SemSet) (pid : ℕ) (sems : List (Option SemSet)) (undo : List (Option UndoRow))
    (adj : Option (List ℕ))
    → RowsOk sems undo
    → sem_find s.semid sems ≡ some s
    → s'.semid ≡ s.semid
    → s'.nsems ≡ s.nsems
    → IsRow s.nsems s'.val
    → IsRowOption s.nsems adj
    → RowsOk (put_id (λ (t : SemSet). t.semid) s.semid s' sems) (keep_row e s pid undo adj)
unfolding sem_find
put_id-RowsOk e s s' pid sems undo adj ok f i n v a = record {
  of_sets = λ id x q. elim (find-put_id (λ (t : SemSet). t.semid) s.semid id sems s s' x f i q) [
    | inl k ↦ subst (λ (t : SemSet). IsRow t.nsems t.val) k.1 (rw n v)
    | inr k ↦ ok.of_sets id x k
  ];
  of_undo = λ j u x q r. by_row j u x r (keep_row-slot e s pid undo adj j u q);
}
  where
    by_size :
        (u : UndoRow) (x : SemSet) → IsRow s.nsems u.adj → x.nsems ≡ s.nsems → IsRow x.nsems u.adj
    by_size u x k m = subst (λ c. IsRow c u.adj) (sym m) k

    here : (u : UndoRow) → u.semid ≡ s.semid → sem_find u.semid sems ≡ some s
    here u m = subst (λ c. sem_find c sems ≡ some s) (sym m) f

    by_row :
        (j : ℕ) (u : UndoRow) (x : SemSet)
        → sem_find u.semid (put_id (λ (t : SemSet). t.semid) s.semid s' sems) ≡ some x
        → (at_slot undo j ≡ some u) ⊎ ((u.semid ≡ s.semid) × (adj ≡ some u.adj))
        → IsRow x.nsems u.adj
    by_row j u x r (inl old) =
        elim (find-put_id (λ (t : SemSet). t.semid) s.semid u.semid sems s s' x f i r) [
          | inl k ↦
              by_size u x (ok.of_undo j u s old (here u k.0))
                (ap (λ (t : SemSet). t.nsems) (sym k.1) ∙ n)
          | inr k ↦ ok.of_undo j u x old k
        ]
    by_row j u x r (inr k) =
        let row : IsRow s.nsems u.adj = subst (IsRowOption s.nsems) k.1 a in
        elim (find-put_id (λ (t : SemSet). t.semid) s.semid u.semid sems s s' x f i r) [
          | inl m ↦ by_size u x row (ap (λ (t : SemSet). t.nsems) (sym m.1) ∙ n)
          | inr m ↦
              let same : s ≡ x = some-injective s x (sym (here u k.0) ∙ m) in
              by_size u x row (ap (λ (t : SemSet). t.nsems) (sym same))
        ]
