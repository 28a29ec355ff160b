-- ===== src/Ipc/Atomic.antt =====
-- `sem_try_op` of src/monitor/ipcreg.c is all or nothing.
use mathlib.Core.Path.{subst}
use fake_chroot_ng.Prelude.{
  ℕ, ◌+◌, ◌≡◌, refl, sym, ap, ap₂, ◌∙◌, ◌⊎◌, inl, inr, true, false, Option, none, some, List, [],
  ◌∷◌, arith, leb, any, All, Bool-cases,
}
use fake_chroot_ng.Ipc.{
  Sembuf, SemSet, Outcome, done, blocked, failed, Work, Tried, applied, stopped, undoes, look_up,
  try_one, back_adj, back_one, roll_back, sem_loop, finish_op, sem_try_op,
}
use fake_chroot_ng.Ipc.Rollback.{
  IsShort, IsRow, IsRowOption, IsOp, set-IsRow, back_val, back_row, added, owed, back_val-added,
  back_row-owed, Trial, stays, plain, undoing, try_one-Trial,
}

module _ (n : ℕ) (row : Option (List ℕ)) (row_ok : IsRowOption n row) (val : List ℕ) where
  owed-IsRow : (op : Sembuf) (adj : List ℕ) → IsRow n adj → IsRow n (owed op adj)
  unfolding owed
  owed-IsRow op adj r = set-IsRow n op.sem_num _ adj r

  -- Taking back the operations before restores the values and the row, whether it was looked up
  -- already or is only now.
  abbrev Undoable : List Sembuf → Work → Type 0
  Undoable before w =
      ((w.undo ≡ none)
        × ((u : Option (List ℕ))
            → roll_back before record { val = w.val; undo = u } ≡ record { val = val; undo = u }))
      ⊎ ((adj : List ℕ) × (w.undo ≡ some adj)
          × IsRow n adj
          × (roll_back before w ≡ record { val = val; undo = row }))

  -- A loop that is not done leaves the values as they were, and the row as it was found, if it was.
  abbrev Restored : Outcome × Work → Type 0
  Restored (o, w) = (o ≡ done) ⊎ ((w.val ≡ val) × ((w.undo ≡ none) ⊎ (w.undo ≡ row)))

  stop-Restored :
      (before : List Sembuf) (w : Work) (o : Outcome) (u : Option (List ℕ))
      → Undoable before w
      → (u ≡ w.undo) ⊎ (u ≡ look_up row w.undo)
      → Restored (o, roll_back before (record w { undo = u }))
  stop-Restored before w o u (inl (e, back)) (inl k) =
      inr (ap (λ w. w.val) (back u), inl (ap (λ w. w.undo) (back u) ∙ k ∙ e))
  stop-Restored before w o u (inl (e, back)) (inr k) =
      inr (ap (λ w. w.val) (back u), inr (ap (λ w. w.undo) (back u) ∙ k ∙ ap (look_up row) e))
  stop-Restored before w o u (inr (adj, e, r, back)) k =
      inr (ap (λ w. w.val) whole, inr (ap (λ w. w.undo) whole))
    where
      same : (u ≡ w.undo) ⊎ (u ≡ look_up row w.undo) → u ≡ w.undo
      same (inl k) = k
      same (inr k) = k ∙ ap (look_up row) e ∙ sym e

      whole : roll_back before (record w { undo = u }) ≡ record { val = val; undo = row }
      whole = ap (λ v. roll_back before (record w { undo = v })) (same k) ∙ back

  module _ (op : Sembuf) (h : IsOp n op) (old : List ℕ) (r : IsRow n old) where
    back_one-plain :
        (u : Option (List ℕ))
        → undoes op ≡ false
        → back_one op record { val = added op old; undo = u } ≡ record { val = old; undo = u }
    unfolding back_one back_val
    back_one-plain u e =
        ap₂ (λ v t. record { val = v; undo = t }) (back_val-added n op h old r) (kept u)
      where
        kept : (u : Option (List ℕ)) → back_adj op u ≡ u
        kept none = refl
        kept (some adj) = rw e

    back_one-undoing :
        (adj : List ℕ)
        → undoes op ≡ true
        → IsRow n adj
        → back_one op record { val = added op old; undo = some (owed op adj) }
          ≡ record { val = old; undo = some adj }
    unfolding back_one back_val back_row
    back_one-undoing adj e k =
        ap₂ (λ v t. record { val = v; undo = t }) (back_val-added n op h old r)
          (given ∙ ap some (back_row-owed n op h adj k))
      where
        given : back_adj op (some (owed op adj)) ≡ some (back_row op (owed op adj))
        given = rw e

  step-Undoable :
      (before : List Sembuf) (op : Sembuf) (w w' : Work)
      → IsOp n op
      → IsRow n w.val
      → Trial row op w (applied w')
      → Undoable before w
      → Undoable (op ∷ before) w'
  unfolding roll_back
  step-Undoable before op w _ h r (plain e) (inl (z, back)) =
      inl (z, λ u. ap (roll_back before) (back_one-plain op h w.val r u e) ∙ back u)
  step-Undoable before op w _ h r (plain e) (inr (adj, z, k, back)) =
      inr (adj, z, k, ap (roll_back before) (back_one-plain op h w.val r w.undo e) ∙ back)
  step-Undoable before op w _ h r (undoing adj e l) (inl (z, back)) = inr (
    owed op adj,
    refl,
    owed-IsRow op adj fresh,
    ap (roll_back before) (back_one-undoing op h w.val r adj e fresh)
        ∙ back (some adj)
        ∙ ap (λ t. record { val = val; undo = t }) (sym is_row),
  )
    where
      is_row : row ≡ some adj
      is_row = ap (look_up row) (sym z) ∙ l

      fresh : IsRow n adj
      fresh = subst (IsRowOption n) is_row row_ok
  step-Undoable before op w _ h r (undoing adj e l) (inr (adj', z, k, back)) = inr (
    owed op adj,
    refl,
    owed-IsRow op adj held,
    ap (roll_back before) (
          back_one-undoing op h w.val r adj e held
          ∙ ap (λ t. record { val = w.val; undo = t }) (sym is_undo))
        ∙ back,
  )
    where
      is_undo : w.undo ≡ some adj
      is_undo = z ∙ ap (look_up row) (sym z) ∙ l

      held : IsRow n adj
      held = subst (IsRowOption n) (sym z ∙ is_undo) k

  added-IsRow : (op : Sembuf) (old : List ℕ) → IsRow n old → IsRow n (added op old)
  unfolding added
  added-IsRow op old r = set-IsRow n op.sem_num _ old r

  Trial-IsRow :
      (op : Sembuf) (w w' : Work) → IsRow n w.val → Trial row op w (applied w') → IsRow n w'.val
  Trial-IsRow op w _ r (plain e) = added-IsRow op w.val r
  Trial-IsRow op w _ r (undoing adj e l) = added-IsRow op w.val r

  sem_loop-Restored :
      (i : ℕ) (before ops : List Sembuf) (w : Work)
      → All (IsOp n) ops
      → IsRow n w.val
      → Undoable before w
      → Restored (sem_loop row i before ops w)
  unfolding sem_loop
  sem_loop-Restored i before [] w a r u = inl refl
  sem_loop-Restored i before (op ∷ ops) w a r u =
      go (try_one row i op w) (try_one-Trial row i op w)
        (λ w' r' u'. sem_loop-Restored (i + 1) (op ∷ before) ops w' a.1 r' u')
    where
      go :
          (t : Tried)
          → Trial row op w t
          → ((w' : Work)
              → IsRow n w'.val
              → Undoable (op ∷ before) w'
              → Restored (sem_loop row (i + 1) (op ∷ before) ops w'))
          → Restored (elim t [
            | stopped o undo ↦ (o, roll_back before (record w { undo = undo }))
            | applied w' ↦ sem_loop row (i + 1) (op ∷ before) ops w'
          ])
      go (stopped o x) (stays _ _ _ k) next = stop-Restored before w o x u k
      go (applied w') t next =
          next w' (Trial-IsRow op w w' r t) (step-Undoable before op w w' a.0 r t u)

any-IsOp :
    (n : ℕ) (ops : List Sembuf)
    → any (λ op. leb n op.sem_num) ops ≡ false
    → All (λ op. IsShort op.sem_op) ops
    → All (IsOp n) ops
any-IsOp n [] e a = tt
any-IsOp n (op ∷ ops) e a = ((ground arith, a.0), any-IsOp n ops (ground arith) a.1)

-- What a vector that is not done leaves.
abbrev pub Unchanged : SemSet → Option (List ℕ) → Outcome × SemSet × Option (List ℕ) → Type 0
Unchanged s row (o, s', undo) = (o ≡ done) ⊎ ((s' ≡ s) × ((undo ≡ none) ⊎ (undo ≡ row)))

-- A vector of semaphore operations that is not done, whether it waits or fails, leaves the whole
-- set as it was, and the process's undo row as it was found, if it was looked up at all: also
-- where a vector names a semaphore twice. Each operation's number is a short, the set has one
-- short for each semaphore, and so has the row.
pub sem_try_op-Unchanged :
    (s : SemSet) (ops : List Sembuf) (pid now : ℕ) (row : Option (List ℕ))
    → All (λ op. IsShort op.sem_op) ops
    → IsRow s.nsems s.val
    → IsRowOption s.nsems row
    → Unchanged s row (sem_try_op s ops pid now row)
unfolding sem_try_op finish_op
sem_try_op-Unchanged s ops pid now row a r k =
    elim (Bool-cases (any (λ op. leb s.nsems op.sem_num) ops)) [
      | inl e ↦ rw e (inr (refl, inl refl))
      | inr e ↦ rw e (
          finished (sem_loop row 0 [] ops record { val = s.val; undo = none }) (
            sem_loop-Restored s.nsems row k s.val 0 [] ops record { val = s.val; undo = none }
              (any-IsOp s.nsems ops e a) r (inl (refl, λ u. unfold roll_back in refl))))
    ]
  where
    put_back : (v : List ℕ) → v ≡ s.val → record s { val = v } ≡ s
    put_back v e = ap (λ v. record s { val = v }) e

    finished :
        (t : Outcome × Work)
        → Restored s.nsems row k s.val t
        → Unchanged s row (finish_op s pid now ops t)
    finished (done, w) x = inl refl
    finished (blocked i, w) (inl q) = absurd (cc)
    finished (blocked i, w) (inr (v, u)) = inr (put_back w.val v, u)
    finished (failed n, w) (inl q) = absurd (cc)
    finished (failed n, w) (inr (v, u)) = inr (put_back w.val v, u)
