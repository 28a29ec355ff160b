-- ===== src/Ipc/Try.antt =====
-- What an attempt at a vector leaves: sem_try_op of src/monitor/ipcreg.c.
use mathlib.Core.Path.{subst}
use fake_chroot_ng.Prelude.{
  ℕ, ◌+◌, ◌≡◌, ◌⊎◌, refl, sym, ap, inl, inr, Option, none, some, List, [], ◌∷◌, leb, any, All,
  split_if,
}
use fake_chroot_ng.Ipc.{
  Sembuf, SemSet, Outcome, done, blocked, failed, Work, Tried, applied, stopped, look_up, try_one,
  roll_back, sem_loop, finish_op, sem_try_op, efbig,
}
use fake_chroot_ng.Ipc.Rollback.{
  IsShort, IsRow, IsRowOption, set-IsRow, added, owed, Trial, stays, plain, undoing, try_one-Trial,
}
use fake_chroot_ng.Ipc.Atomic.{Unchanged, sem_try_op-Unchanged}
use fake_chroot_ng.Ipc.Rows.{TryKept}

-- A vector that is done leaves shorts.
module _ (n : ℕ) (row : Option (List ℕ)) (row_ok : IsRowOption n row) where
  abbrev Kept : Work → Type 0
  Kept w = IsRow n w.val × IsRowOption n w.undo

  Trial-Kept : (op : Sembuf) (w w' : Work) → Kept w → Trial row op w (applied w') → Kept w'
  unfolding added owed
  Trial-Kept op w _ k (plain e) = (set-IsRow n op.sem_num _ w.val k.0, k.1)
  Trial-Kept op w _ k (undoing adj e l) =
      (set-IsRow n op.sem_num _ w.val k.0, set-IsRow n op.sem_num _ adj (looked w.undo k.1 l))
    where
      looked : (o : Option (List ℕ)) → IsRowOption n o → look_up row o ≡ some adj → IsRow n adj
      looked none r q = subst (IsRowOption n) q row_ok
      looked (some b) r q = subst (IsRowOption n) q r

  loop-Kept :
      (i : ℕ) (before ops : List Sembuf) (w : Work)
      → Kept w
      → (sem_loop row i before ops w).0 ≡ done
      → Kept (sem_loop row i before ops w).1
  unfolding sem_loop
  loop-Kept i before [] w k e = k
  loop-Kept i before (op ∷ ops) w k e =
      by_answer (try_one row i op w) (try_one-Trial row i op w) e
        (λ w'. loop-Kept (i + 1) (op ∷ before) ops w')
    where
      by_answer :
          (t : Tried)
          → Trial row op w t
          → (elim t as (λ (x : Tried). Outcome × Work) [
            | stopped o undo ↦ (o, roll_back before (record w { undo = undo }))
            | applied w' ↦ sem_loop row (i + 1) (op ∷ before) ops w'
          ]).0
            ≡ done
          → ((w' : Work)
              → Kept w'
              → (sem_loop row (i + 1) (op ∷ before) ops w').0 ≡ done
              → Kept (sem_loop row (i + 1) (op ∷ before) ops w').1)
          → Kept
              (elim t as (λ (x : Tried). Outcome × Work) [
                | stopped o undo ↦ (o, roll_back before (record w { undo = undo }))
                | applied w' ↦ sem_loop row (i + 1) (op ∷ before) ops w'
              ]).1
      by_answer (applied w') t q next = next w' (Trial-Kept op w w' k t) q
      by_answer (stopped o u) (stays _ _ n x) q next = absurd (n q)

-- An attempt keeps the set's id and size, and shorts where there were shorts.
module _ (s : SemSet) (ops : List Sembuf) (pid now : ℕ) (row : Option (List ℕ)) where
  Same-TryKept :
      (t : Outcome × SemSet × Option (List ℕ))
      → (t.1 ≡ s) × ((t.2 ≡ none) ⊎ (t.2 ≡ row))
      → IsRow s.nsems s.val
      → IsRowOption s.nsems row
      → TryKept s t
  Same-TryKept t u r a = record {
    same_id = ap (λ (x : SemSet). x.semid) u.0;
    same_size = ap (λ (x : SemSet). x.nsems) u.0;
    val_ok = subst (λ (x : SemSet). IsRow s.nsems x.val) (sym u.0) r;
    adj_ok = by_row t.2 u.1;
  }
    where
      by_row : (o : Option (List ℕ)) → (o ≡ none) ⊎ (o ≡ row) → IsRowOption s.nsems o
      by_row o (inl q) = subst (IsRowOption s.nsems) (sym q) tt
      by_row o (inr q) = subst (IsRowOption s.nsems) (sym q) a

  finish-TryKept :
      (t : Outcome × Work)
      → (t.0 ≡ done → IsRow s.nsems t.1.val × IsRowOption s.nsems t.1.undo)
      → Unchanged s row (finish_op s pid now ops t)
      → IsRow s.nsems s.val
      → IsRowOption s.nsems row
      → TryKept s (finish_op s pid now ops t)
  unfolding finish_op
  finish-TryKept (done, w) k u r a = record {
    same_id = refl;
    same_size = refl;
    val_ok = (k refl).0;
    adj_ok = (k refl).1;
  }
  finish-TryKept (blocked i, w) k (inl q) r a = absurd (cc)
  finish-TryKept (blocked i, w) k (inr u) r a =
      Same-TryKept (finish_op s pid now ops (blocked i, w)) u r a
  finish-TryKept (failed n, w) k (inl q) r a = absurd (cc)
  finish-TryKept (failed n, w) k (inr u) r a =
      Same-TryKept (finish_op s pid now ops (failed n, w)) u r a

  pub sem_try_op-TryKept :
      All (λ op. IsShort op.sem_op) ops
      → IsRow s.nsems s.val
      → IsRowOption s.nsems row
      → TryKept s (sem_try_op s ops pid now row)
  unfolding sem_try_op
  sem_try_op-TryKept h r a =
      let w : Work = record { val = s.val; undo = none } in
      split_if (λ t. Unchanged s row t → TryKept s t) (any (λ op. leb s.nsems op.sem_num) ops)
        (failed efbig, s, none) (finish_op s pid now ops (sem_loop row 0 [] ops w))
        (λ k u. Same-TryKept (failed efbig, s, none) (refl, inl refl) r a)
        (λ k u.
          finish-TryKept (sem_loop row 0 [] ops w) (loop-Kept s.nsems row a 0 [] ops w (r, tt)) u r
            a)
        (sem_try_op-Unchanged s ops pid now row h r a)
