-- ===== src/Filter/Listed.antt =====
-- src/monitor/seccomp.c: what the tests for the values of a list do in front of any program.
use fake_chroot_ng.Prelude.{
  ℕ, suc, ◌+◌, ◌%◌, ◌^◌, ◌≤◌, ◌<◌, ◌≡◌, refl, ap, ap₂, ◌∙◌, Bool, true, false, ◌||◌, some, List, [],
  ◌∷◌, ◌++◌, arith, ◌==◌, if◌then◌else◌, length, All,
}
use fake_chroot_ng.Filter.{SockFilter, step}
use fake_chroot_ng.Filter.Exec.{exec, exec-skip}
use fake_chroot_ng.Filter.Tables.{enosys_syscalls}
use fake_chroot_ng.Filter.Build.{
  tail_block, enosys_block, ret_enosys, checks, mem, load, answer, jeq, one_of, ret_allow,
}

-- The lists of tests.
pub length-one_of : (l : List ℕ) (over : ℕ) → length (one_of l over) ≡ length l
unfolding one_of
length-one_of [] over = refl
length-one_of (n ∷ []) over = refl
length-one_of (n ∷ m ∷ l) over = ap suc (length-one_of (m ∷ l) over)

pub length-checks : (l : List ℕ) → length (checks l) ≡ length l
unfolding checks
length-checks [] = refl
length-checks (n ∷ l) = ap suc (length-checks l)

abbrev pub Words : List ℕ → Type 0
Words l = All (λ m. m < 2 ^ 32) l

module _ (d : ℕ → ℕ) where
  exec-jeq :
      (rest : List SockFilter) (k jt jf a : ℕ)
      → k < 2 ^ 32
      → jt < 256
      → jf < 256
      → exec d (jeq k jt jf ∷ rest) 0 a ≡ exec d rest (if a == k then jt else jf) a
  unfolding exec step
  exec-jeq rest k jt jf a hk ht hf = ap (λ n. exec d rest n a) (ground (arith, hk, ht, hf))

  pub skip_all :
      (c rest : List SockFilter) (n k a : ℕ)
      → n ≡ length c + k
      → exec d (c ++ rest) n a ≡ exec d rest k a
  skip_all c rest n k a e = ap (λ m. exec d (c ++ rest) m a) e ∙ exec-skip d c rest k a

  -- The tests of a list: on to what follows if one holds, and past `over` instructions if none does.
  exec-one_of :
      (rest : List SockFilter) (n : ℕ) (l : List ℕ) (over a : ℕ)
      → length (n ∷ l) ≤ 256
      → over < 256
      → Words (n ∷ l)
      → exec d (one_of (n ∷ l) over ++ rest) 0 a
        ≡ (if mem a (n ∷ l) then exec d rest 0 a else exec d rest over a)
  unfolding one_of
  exec-one_of rest n [] over a h o w = exec-jeq rest n 0 over a w.0 (omega arith) o ∙ last (a == n)
    where
      last :
          (b : Bool)
          → exec d rest (if b then 0 else over) a
            ≡ (if b || false then exec d rest 0 a else exec d rest over a)
      last true = refl
      last false = refl
  exec-one_of rest n (m ∷ l) over a h o w =
      exec-jeq (one_of (m ∷ l) over ++ rest) n (length (m ∷ l)) 0 a w.0 (omega (arith, h))
        (omega arith)
      ∙ more (a == n) (exec-one_of rest m l over a (omega (arith, h)) o w.1)
    where
      more :
          (b : Bool)
          → exec d (one_of (m ∷ l) over ++ rest) 0 a
            ≡ (if mem a (m ∷ l) then exec d rest 0 a else exec d rest over a)
          → exec d (one_of (m ∷ l) over ++ rest) (if b then length (m ∷ l) else 0) a
            ≡ (if b || mem a (m ∷ l) then exec d rest 0 a else exec d rest over a)
      more true ih =
          skip_all (one_of (m ∷ l) over) rest (length (m ∷ l)) 0 a
            (omega (arith, length-one_of (m ∷ l) over))
      more false ih = ih

  -- The same of any list that is not empty.
  pub exec-tests :
      (rest : List SockFilter) (l : List ℕ) (over a : ℕ)
      → 0 < length l
      → length l ≤ 256
      → over < 256
      → Words l
      → exec d (one_of l over ++ rest) 0 a
        ≡ (if mem a l then exec d rest 0 a else exec d rest over a)
  exec-tests rest [] over a p h o w = absurd (omega arith)
  exec-tests rest (n ∷ l) over a p h o w = exec-one_of rest n l over a h o w

  -- The checks at the end: trapped if one holds, else allowed.
  pub exec-tail_block :
      (l : List ℕ) (trap a : ℕ)
      → length l < 256
      → Words l
      → exec d (tail_block l trap) 0 a ≡ some (if mem a l then trap % 2 ^ 32 else ret_allow)
  unfolding tail_block checks
  exec-tail_block [] trap a h w = unfold exec step in refl
  exec-tail_block (n ∷ l) trap a h w =
      exec-jeq (tail_block l trap) n (length (n ∷ l)) 0 a w.0 h (omega arith)
      ∙ more (a == n) (exec-tail_block l trap a (omega (arith, h)) w.1)
    where
      trapped_end : exec d (answer ret_allow ∷ answer trap ∷ []) 1 a ≡ some (trap % 2 ^ 32)
      trapped_end = unfold exec step in refl

      more :
          (b : Bool)
          → exec d (tail_block l trap) 0 a ≡ some (if mem a l then trap % 2 ^ 32 else ret_allow)
          → exec d (tail_block l trap) (if b then length (n ∷ l) else 0) a
            ≡ some (if b || mem a l then trap % 2 ^ 32 else ret_allow)
      more true ih =
          skip_all (checks l) (answer ret_allow ∷ answer trap ∷ []) (length (n ∷ l)) 1 a
            (omega (arith, length-checks l))
          ∙ trapped_end
      more false ih = ih

  pub exec-load_nr :
      (rest : List SockFilter) (a : ℕ) → exec d (load 0 ∷ rest) 0 a ≡ exec d rest 0 (d 0)
  unfolding exec step
  exec-load_nr rest a = refl

  pub exec-answer :
      (rest : List SockFilter) (k a : ℕ) → exec d (answer k ∷ rest) 0 a ≡ some (k % 2 ^ 32)
  unfolding exec step
  exec-answer rest k a = refl

  pub exec-past :
      (i : SockFilter) (rest : List SockFilter) (k a : ℕ)
      → exec d (i ∷ rest) (suc k) a ≡ exec d rest k a
  unfolding exec
  exec-past i rest k a = refl

  pub exec-enosys_block :
      (rest : List SockFilter) (a : ℕ)
      → exec d (enosys_block ++ rest) 0 a
        ≡ (if mem (d 0) enosys_syscalls then some ret_enosys else exec d rest 0 (d 0))
  unfolding enosys_block
  exec-enosys_block rest a =
      exec-load_nr (one_of enosys_syscalls 1 ++ answer ret_enosys ∷ rest) a
      ∙ exec-tests (answer ret_enosys ∷ rest) enosys_syscalls 1 (d 0) (omega arith) (omega arith)
          (omega arith) (omega arith)
      ∙ ap₂ (λ x y. if mem (d 0) enosys_syscalls then x else y) (exec-answer rest ret_enosys (d 0))
          (exec-past (answer ret_enosys) rest 0 (d 0))
