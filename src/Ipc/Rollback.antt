-- ===== src/Ipc/Rollback.antt =====
-- What one operation of `sem_try_op` of src/monitor/ipcreg.c does, and that it can be taken back.
use fake_chroot_ng.Prelude.{
  ℕ, zero, suc, ◌%◌, ◌^◌, ◌<◌, ◌≡◌, ◌≢◌, refl, sym, ap, ◌∙◌, ◌⊎◌, inl, inr, Bool, true, false, ◌&&◌,
  ◌||◌, Option, none, some, List, [], ◌∷◌, arith, ltb, ◌==◌, ◌!=◌, if◌then◌else◌, set, length,
  neg32, All, Bool-cases,
}
use fake_chroot_ng.Ipc.{
  Sembuf, Outcome, done, blocked, failed, Work, Tried, applied, stopped, undoes, nowait, word_at,
  widen, plus, minus, adjust, adj_out, semvmx, enomem, erange, eagain, look_up, try_one,
}

abbrev pub IsShort : ℕ → Type 0
IsShort x = x < 2 ^ 16

set_back : (xs : List ℕ) (i a : ℕ) → set (set xs i a) i (word_at xs i) ≡ xs
set_back [] i a = refl
set_back (x ∷ xs) zero a = refl
set_back (x ∷ xs) (suc i) a = ap (λ t. x ∷ t) (set_back xs i a)

word_at-set : (xs : List ℕ) (i a : ℕ) → i < length xs → word_at (set xs i a) i ≡ a
word_at-set [] i a h = absurd (omega arith)
word_at-set (x ∷ xs) zero a h = refl
word_at-set (x ∷ xs) (suc i) a h = word_at-set xs i a (omega arith)

length-set : (xs : List ℕ) (i a : ℕ) → length (set xs i a) ≡ length xs
length-set [] i a = refl
length-set (x ∷ xs) zero a = refl
length-set (x ∷ xs) (suc i) a = omega (arith, length-set xs i a)

set-IsShort : (xs : List ℕ) (i a : ℕ) → All IsShort xs → IsShort a → All IsShort (set xs i a)
set-IsShort [] i a s h = tt
set-IsShort (x ∷ xs) zero a s h = (h, s.1)
set-IsShort (x ∷ xs) (suc i) a s h = (s.0, set-IsShort xs i a s.1 h)

word_at-IsShort : (xs : List ℕ) (i : ℕ) → All IsShort xs → IsShort (word_at xs i)
word_at-IsShort [] i s = omega arith
word_at-IsShort (x ∷ xs) zero s = s.0
word_at-IsShort (x ∷ xs) (suc i) s = word_at-IsShort xs i s.1

-- What is added and then taken back, in a short.
minus-plus : (x w : ℕ) → IsShort x → w < 2 ^ 32 → minus (plus x w % 2 ^ 16) w % 2 ^ 16 ≡ x
minus-plus x w h l = omega arith

widen-less : (x : ℕ) → IsShort x → widen x < 2 ^ 32
widen-less x h = ground arith

plus-minus :
    (x w : ℕ) → IsShort x → w < 2 ^ 32 → plus (widen (minus (widen x) w % 2 ^ 16)) w % 2 ^ 16 ≡ x
plus-minus x w h l = ground arith

mod-IsShort : (x : ℕ) → IsShort (x % 2 ^ 16)
mod-IsShort x = omega arith

-- One word for each semaphore, each of them a short.
abbrev pub IsRow : ℕ → List ℕ → Type 0
IsRow n xs = (length xs ≡ n) × All IsShort xs

abbrev pub IsRowOption : ℕ → Option (List ℕ) → Type 0
IsRowOption n none = Unit
IsRowOption n (some xs) = IsRow n xs

-- An operation on one of the semaphores, of a short.
abbrev pub IsOp : ℕ → Sembuf → Type 0
IsOp n op = (op.sem_num < n) × IsShort op.sem_op

pub set-IsRow : (n i v : ℕ) (xs : List ℕ) → IsRow n xs → IsRow n (set xs i (v % 2 ^ 16))
set-IsRow n i v xs r =
    (length-set xs i (v % 2 ^ 16) ∙ r.0, set-IsShort xs i (v % 2 ^ 16) r.1 (mod-IsShort v))

unfoldable pub back_val : Sembuf → List ℕ → List ℕ
back_val op val = set val op.sem_num (minus (word_at val op.sem_num) (widen op.sem_op) % 2 ^ 16)

unfoldable pub back_row : Sembuf → List ℕ → List ℕ
back_row op adj =
    set adj op.sem_num (plus (widen (word_at adj op.sem_num)) (widen op.sem_op) % 2 ^ 16)

unfoldable pub added : Sembuf → List ℕ → List ℕ
added op val = set val op.sem_num (plus (word_at val op.sem_num) (widen op.sem_op) % 2 ^ 16)

unfoldable pub owed : Sembuf → List ℕ → List ℕ
owed op adj = set adj op.sem_num (minus (widen (word_at adj op.sem_num)) (widen op.sem_op) % 2 ^ 16)

module _ (n : ℕ) (op : Sembuf) (h : IsOp n op) where
  pub back_val-added : (val : List ℕ) → IsRow n val → back_val op (added op val) ≡ val
  unfolding back_val added
  back_val-added val r = ap (set (set val op.sem_num v) op.sem_num) back ∙ set_back val op.sem_num v
    where
      v : ℕ
      v = plus (word_at val op.sem_num) (widen op.sem_op) % 2 ^ 16

      back :
          minus (word_at (set val op.sem_num v) op.sem_num) (widen op.sem_op) % 2 ^ 16
          ≡ word_at val op.sem_num
      back =
          ap (λ x. minus x (widen op.sem_op) % 2 ^ 16)
            (word_at-set val op.sem_num v (omega (arith, h.0, r.0)))
          ∙ minus-plus (word_at val op.sem_num) (widen op.sem_op)
              (word_at-IsShort val op.sem_num r.1) (widen-less op.sem_op h.1)

  pub back_row-owed : (adj : List ℕ) → IsRow n adj → back_row op (owed op adj) ≡ adj
  unfolding back_row owed
  back_row-owed adj r = ap (set (set adj op.sem_num a) op.sem_num) back ∙ set_back adj op.sem_num a
    where
      a : ℕ
      a = minus (widen (word_at adj op.sem_num)) (widen op.sem_op) % 2 ^ 16

      back :
          plus (widen (word_at (set adj op.sem_num a) op.sem_num)) (widen op.sem_op) % 2 ^ 16
          ≡ word_at adj op.sem_num
      back =
          ap (λ x. plus (widen x) (widen op.sem_op) % 2 ^ 16)
            (word_at-set adj op.sem_num a (omega (arith, h.0, r.0)))
          ∙ plus-minus (word_at adj op.sem_num) (widen op.sem_op)
              (word_at-IsShort adj op.sem_num r.1) (widen-less op.sem_op h.1)

-- What one operation does.
pub data Trial (row : Option (List ℕ)) (op : Sembuf) (w : Work) : Tried → Type 0 where
  stays :
      (o : Outcome) (u : Option (List ℕ))
      → o ≢ done
      → (u ≡ w.undo) ⊎ (u ≡ look_up row w.undo)
      → Trial row op w (stopped o u)
  plain :
      undoes op ≡ false → Trial row op w (applied record { val = added op w.val; undo = w.undo })
  undoing :
      (adj : List ℕ)
      → undoes op ≡ true
      → look_up row w.undo ≡ some adj
      → Trial row op w (applied record { val = added op w.val; undo = some (owed op adj) })

adjust-Trial :
    (row : Option (List ℕ)) (op : Sembuf) (w : Work) (o : Option (List ℕ))
    → undoes op ≡ true
    → look_up row w.undo ≡ o
    → Trial row op w (adjust op (plus (word_at w.val op.sem_num) (widen op.sem_op)) w.val o)
unfolding added owed
adjust-Trial row op w none e l = stays (failed enomem) none (λ q. cc) (inr (sym l))
adjust-Trial row op w (some adj) e l =
    elim (Bool-cases (adj_out (minus (widen (word_at adj op.sem_num)) (widen op.sem_op)))) [
      | inl b ↦ rw b (stays (failed erange) (some adj) (λ q. cc) (inr (sym l)))
      | inr b ↦ rw b (undoing adj e l)
    ]

waits : (op : Sembuf) (i : ℕ) → (if nowait op then failed eagain else blocked i) ≢ done
waits op i = go (nowait op)
  where
    go : (b : Bool) → (if b then failed eagain else blocked i) ≢ done
    go true q = cc
    go false q = cc

pub try_one-Trial :
    (row : Option (List ℕ)) (i : ℕ) (op : Sembuf) (w : Work) → Trial row op w (try_one row i op w)
unfolding try_one added
try_one-Trial row i op w =
    elim (Bool-cases ((op.sem_op == 0 && word_at w.val op.sem_num != 0) || neg32 v)) [
      | inl b ↦ rw b (stays _ w.undo (waits op i) (inl refl))
      | inr b ↦ elim (Bool-cases (ltb semvmx v)) [
        | inl c ↦ rw (b, c) (stays (failed erange) w.undo (λ q. cc) (inl refl))
        | inr c ↦ elim (Bool-cases (undoes op)) [
          | inl d ↦ rw (b, c, d) (adjust-Trial row op w (look_up row w.undo) d refl)
          | inr d ↦ rw (b, c, d) (plain d)
        ]
      ]
    ]
  where
    v : ℕ
    v = plus (word_at w.val op.sem_num) (widen op.sem_op)
