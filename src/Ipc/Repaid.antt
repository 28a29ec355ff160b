-- ===== src/Ipc/Repaid.antt =====
-- What a vector under SEM_UNDO did is undone when its process dies: `sem_try_op` and
-- `sem_undo_apply` of src/monitor/ipcreg.c.
use mathlib.Core.Path.{subst}
use fake_chroot_ng.Prelude.{
  ℕ, zero, suc, ◌+◌, ◌%◌, ◌^◌, ◌<◌, ◌≤◌, ◌≡◌, ◌≢◌, refl, sym, ap, ap₂, ◌∙◌, ◌⊎◌, inl, inr, Bool,
  true, false, ◌&&◌, ◌||◌, Option, none, some, List, [], ◌∷◌, arith, ltb, leb, ◌==◌, ◌!=◌,
  if◌then◌else◌, set, any, All, Bool-cases, neg32,
}
use fake_chroot_ng.Ipc.{
  Sembuf, SemSet, Outcome, done, blocked, failed, Work, Tried, applied, stopped, undoes, word_at,
  widen, plus, minus, semvmx, look_up, nowait, eagain, efbig, try_one, adjust, adj_out, roll_back,
  sem_loop, finish_op, sem_try_op,
}
use fake_chroot_ng.Ipc.Undo.{undo_vals, clamp, sem_undo_apply}
use fake_chroot_ng.Ipc.Rollback.{IsShort}

-- Each value is in the range of a semaphore, each adjustment is a short, and each value with what is
-- owed to it is, as a short, the value at the start.
data Owing : List ℕ → List ℕ → List ℕ → Type 0 where
  no_more : Owing [] [] []
  more :
      {start val adj : List ℕ} (s x a : ℕ)
      → s ≤ semvmx
      → x ≤ semvmx
      → IsShort a
      → (x + a) % 2 ^ 16 ≡ s
      → Owing start val adj
      → Owing (s ∷ start) (x ∷ val) (a ∷ adj)

clamp_owed :
    (s x a : ℕ)
    → s ≤ semvmx
    → x ≤ semvmx
    → IsShort a
    → (x + a) % 2 ^ 16 ≡ s
    → clamp (plus x (widen a)) ≡ s
clamp_owed s x a hs hx ha e = ground (arith, hs, hx, ha, e)

-- Applying what is owed gives the start.
undo_vals-Owing : (start val adj : List ℕ) → Owing start val adj → undo_vals val adj ≡ start
unfolding undo_vals
undo_vals-Owing _ _ _ no_more = refl
undo_vals-Owing _ _ _ (more {start = start} {val = val} {adj = adj} s x a hs hx ha e r) =
    ap₂ (λ y ys. y ∷ ys) (head (Bool-cases (a == 0))) (undo_vals-Owing start val adj r)
  where
    head :
        ((a == 0) ≡ true) ⊎ ((a == 0) ≡ false)
        → (if a == 0 then x else clamp (plus x (widen a))) ≡ s
    head (inl z) = rw z (ground arith)
    head (inr z) = rw z (clamp_owed s x a hs hx ha e)

-- One operation under SEM_UNDO that goes through keeps what is owed right.
op-Owing :
    (start val adj : List ℕ) (i w : ℕ)
    → w < 2 ^ 32
    → Owing start val adj
    → neg32 (plus (word_at val i) w) ≡ false
    → plus (word_at val i) w ≤ semvmx
    → Owing start
        (set val i (plus (word_at val i) w % 2 ^ 16))
        (set adj i (minus (widen (word_at adj i)) w % 2 ^ 16))
op-Owing _ _ _ i w l no_more p q = no_more
op-Owing _ _ _ zero w l (more s x a hs hx ha e r) p q =
    more s (plus x w % 2 ^ 16) (minus (widen a) w % 2 ^ 16) hs (omega (arith, q)) (omega arith)
      (kept (Bool-cases (ltb a 0x8000))) r
  where
    kept :
        (ltb a 0x8000 ≡ true) ⊎ (ltb a 0x8000 ≡ false)
        → (plus x w % 2 ^ 16 + minus (widen a) w % 2 ^ 16) % 2 ^ 16 ≡ s
    kept (inl b) = rw b (omega (arith, e, l, ha, hx))
    kept (inr b) = rw b (omega (arith, e, l, ha, hx))
op-Owing _ _ _ (suc i) w l (more s x a hs hx ha e r) p q =
    more s x a hs hx ha e (op-Owing _ _ _ i w l r p q)

module _ (start : List ℕ) (row : Option (List ℕ)) where
  -- What a row, as it is now or will be looked up, owes.
  Owed : Work → Type 0
  Owed w = (adj : List ℕ) × (look_up row w.undo ≡ some adj) × Owing start w.val adj

  OwedAfter : Tried → Type 0
  OwedAfter (stopped o u) = o ≢ done
  OwedAfter (applied w) = Owed w

  adjust-Owed :
      (op : Sembuf) (val adj : List ℕ)
      → IsShort op.sem_op
      → neg32 (plus (word_at val op.sem_num) (widen op.sem_op)) ≡ false
      → plus (word_at val op.sem_num) (widen op.sem_op) ≤ semvmx
      → Owing start val adj
      → OwedAfter (adjust op (plus (word_at val op.sem_num) (widen op.sem_op)) val (some adj))
  unfolding OwedAfter Owed
  adjust-Owed op val adj h p q r =
      elim (Bool-cases (adj_out (minus (widen (word_at adj op.sem_num)) (widen op.sem_op)))) [
        | inl b ↦ rw b (λ e. cc)
        | inr b ↦
            rw b (_, refl, op-Owing start val adj op.sem_num (widen op.sem_op) (ground arith) r p q)
      ]

  try_one-Owed :
      (i : ℕ) (op : Sembuf) (w : Work)
      → IsShort op.sem_op
      → undoes op ≡ true
      → Owed w
      → OwedAfter (try_one row i op w)
  unfolding try_one OwedAfter Owed
  try_one-Owed i op w h e (adj, l, r) =
      elim (Bool-cases ((op.sem_op == 0 && word_at w.val op.sem_num != 0) || neg32 v)) [
        | inl b ↦ rw b (waits (nowait op))
        | inr b ↦ elim (Bool-cases (ltb semvmx v)) [
          | inl c ↦ rw (b, c) (λ q. cc)
          | inr c ↦
              rw (b, c, e, l) (adjust-Owed op w.val adj h (ground (arith, b)) (ground (arith, c)) r)
        ]
      ]
    where
      v : ℕ
      v = plus (word_at w.val op.sem_num) (widen op.sem_op)

      waits : (b : Bool) → (if b then failed eagain else blocked i) ≢ done
      waits true q = cc
      waits false q = cc

  sem_loop-Owed :
      (i : ℕ) (before ops : List Sembuf) (w w' : Work)
      → All (λ op. IsShort op.sem_op × (undoes op ≡ true)) ops
      → Owed w
      → sem_loop row i before ops w ≡ (done, w')
      → Owed w'
  unfolding sem_loop Owed OwedAfter
  sem_loop-Owed i before [] w w' a r e = subst Owed (ap (λ (t : Outcome × Work). t.1) e) r
  sem_loop-Owed i before (op ∷ ops) w w' a r e =
      go (try_one row i op w) (try_one-Owed i op w a.0.0 a.0.1 r)
        (λ w₁ r₁ e₁. sem_loop-Owed (i + 1) (op ∷ before) ops w₁ w' a.1 r₁ e₁) e
    where
      go :
          (t : Tried)
          → OwedAfter t
          → ((w₁ : Work)
              → Owed w₁
              → sem_loop row (i + 1) (op ∷ before) ops w₁ ≡ (done, w')
              → Owed w')
          → elim t [
            | stopped o undo ↦ (o, roll_back before (record w { undo = undo }))
            | applied w₁ ↦ sem_loop row (i + 1) (op ∷ before) ops w₁
          ]
            ≡ (done, w')
          → Owed w'
      go (stopped o u) p next e = absurd (p (ap (λ (t : Outcome × Work). t.0) e))
      go (applied w₁) p next e = next w₁ p e

-- No adjustment for any of the values, as the row is when `sem_undo_find` creates it.
abbrev pub nothing_owed : List ℕ → List ℕ
nothing_owed [] = []
nothing_owed (x ∷ val) = 0 ∷ nothing_owed val

-- What one process does to a set from its first vector on, each of them under SEM_UNDO throughout;
-- the adjustments that its row then has.
pub data Session (pid : ℕ) (first : SemSet) : SemSet → List ℕ → Type 0 where
  opened : Session pid first first (nothing_owed first.val)
  ran :
      (s s' : SemSet) (adj adj' : List ℕ) (ops : List Sembuf) (now : ℕ)
      → Session pid first s adj
      → All (λ op. IsShort op.sem_op × (undoes op ≡ true)) ops
      → sem_try_op s ops pid now (some adj) ≡ (done, s', some adj')
      → Session pid first s' adj'

nothing-Owing : (val : List ℕ) → All (λ x. x ≤ semvmx) val → Owing val val (nothing_owed val)
nothing-Owing [] a = no_more
nothing-Owing (x ∷ val) a =
    more x x 0 a.0 a.0 (omega arith) (omega (arith, a.0)) (nothing-Owing val a.1)

sem_try_op-Owing :
    (start : List ℕ) (s s' : SemSet) (adj adj' : List ℕ) (ops : List Sembuf) (pid now : ℕ)
    → All (λ op. IsShort op.sem_op × (undoes op ≡ true)) ops
    → Owing start s.val adj
    → sem_try_op s ops pid now (some adj) ≡ (done, s', some adj')
    → Owing start s'.val adj'
unfolding sem_try_op finish_op Owed
sem_try_op-Owing start s s' adj adj' ops pid now a r e =
    elim (Bool-cases (any (λ op. leb s.nsems op.sem_num) ops)) [
      | inl b ↦ absurd (
          refused (
            sym (
              ap
                (λ c.
                  if c
                  then (failed efbig, s, none)
                  else finish_op s pid now ops
                      (sem_loop (some adj) 0 [] ops record { val = s.val; undo = none }))
                b)
            ∙ e))
      | inr b ↦
          finished (sem_loop (some adj) 0 [] ops record { val = s.val; undo = none })
            (λ w l.
              sem_loop-Owed start (some adj) 0 [] ops record { val = s.val; undo = none } w a
                (adj, refl, r) l)
            refl
            (sym (
                ap
                  (λ c.
                    if c
                    then (failed efbig, s, none)
                    else finish_op s pid now ops
                        (sem_loop (some adj) 0 [] ops record { val = s.val; undo = none }))
                  b)
              ∙ e)
    ]
  where
    refused :
        ◌≡◌ {A = Outcome × SemSet × Option (List ℕ)} (failed efbig, s, none) (done, s', some adj')
        → ⊥
    refused q = cc

    same : {xs ys : List ℕ} → some xs ≡ some ys → xs ≡ ys
    same h = cc

    finished :
        (t : Outcome × Work)
        → ((w : Work) → t ≡ (done, w) → Owed start (some adj) w)
        → sem_loop (some adj) 0 [] ops record { val = s.val; undo = none } ≡ t
        → finish_op s pid now ops t ≡ (done, s', some adj')
        → Owing start s'.val adj'
    finished (done, w) k l q = paid (k w refl)
      where
        paid : Owed start (some adj) w → Owing start s'.val adj'
        paid (adj₁, u, o) =
            subst (λ v. Owing start v adj')
              (ap (λ (t : Outcome × SemSet × Option (List ℕ)). t.1.val) q)
              (subst (λ v. Owing start w.val v)
                (same (
                  sym u
                  ∙ ap (look_up (some adj))
                      (ap (λ (t : Outcome × SemSet × Option (List ℕ)). t.2) q)))
                o)
    finished (blocked i, w) k l q = absurd (cc)
    finished (failed n, w) k l q = absurd (cc)

Session-Owing :
    (pid : ℕ) (first s : SemSet) (adj : List ℕ)
    → All (λ x. x ≤ semvmx) first.val
    → Session pid first s adj
    → Owing first.val s.val adj
Session-Owing pid first _ _ a opened = nothing-Owing first.val a
Session-Owing pid first _ _ a (ran s s' adj adj' ops now r h e) =
    sem_try_op-Owing first.val s s' adj adj' ops pid now h (Session-Owing pid first s adj a r) e

-- When a process that used SEM_UNDO in every operation of its semop calls dies, the values of the
-- set are those before its first operation, if no other process changed the set in between and
-- every value was at most SEMVMX at the start: nothing is lost to the clamp or to the width of an
-- adjustment.
pub Session-repaid :
    (pid now : ℕ) (first s : SemSet) (adj : List ℕ)
    → All (λ x. x ≤ semvmx) first.val
    → Session pid first s adj
    → (sem_undo_apply s pid now adj).val ≡ first.val
unfolding sem_undo_apply
Session-repaid pid now first s adj a r =
    undo_vals-Owing first.val s.val adj (Session-Owing pid first s adj a r)
