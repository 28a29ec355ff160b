-- ===== src/Filter/Exec.antt =====
-- A program run from its front: a jump passes over the instructions behind it. That
-- `cng_bpf_run` of src/monitor/seccomp.c computes this, and so stops.
use fake_chroot_ng.Prelude.{
  ℕ, zero, suc, ◌+◌, ◌≤◌, ◌<◌, ◌≡◌, refl, sym, ap, ◌∙◌, Bool, true, false, Option, none, some, List,
  [], ◌∷◌, ◌++◌, arith, leb, length, get_elem?, drop,
}
use fake_chroot_ng.Filter.{SockFilter, Next, go_on, return, bad, step, bpf_loop, bpf_run}

unfoldable pub exec : (ℕ → ℕ) → List SockFilter → ℕ → ℕ → Option ℕ
exec d [] skip a = none
exec d (i ∷ f) (suc skip) a = exec d f skip a
exec d (i ∷ f) zero a = elim (step d i a) [
  | bad ↦ none
  | return k ↦ some k
  | go_on a' skip ↦ exec d f skip a'
]

-- A skip of a whole block.
pub exec-skip :
    (d : ℕ → ℕ) (c rest : List SockFilter) (k a : ℕ)
    → exec d (c ++ rest) (length c + k) a ≡ exec d rest k a
unfolding exec
exec-skip d [] rest k a = ap (λ n. exec d rest n a) (omega arith)
exec-skip d (i ∷ c) rest k a =
    ap (λ n. exec d (i ∷ c ++ rest) n a) (shift (length c)) ∙ exec-skip d c rest k a
  where
    shift : (n : ℕ) → suc n + k ≡ suc (n + k)
    shift n = omega arith

exec-drop : (d : ℕ → ℕ) (f : List SockFilter) (k a : ℕ) → exec d f k a ≡ exec d (drop k f) 0 a
unfolding exec
exec-drop d f zero a = refl
exec-drop d [] (suc k) a = refl
exec-drop d (i ∷ f) (suc k) a = exec-drop d f k a

drop-length : (f : List SockFilter) (k : ℕ) → length f ≤ k → drop k f ≡ []
drop-length [] zero h = refl
drop-length [] (suc k) h = refl
drop-length (i ∷ f) zero h = absurd (omega arith)
drop-length (i ∷ f) (suc k) h = drop-length f k (omega arith)

drop-drop : (f : List SockFilter) (p k : ℕ) → drop k (drop p f) ≡ drop (p + k) f
drop-drop f zero k = ap (λ n. drop n f) (omega arith)
drop-drop [] (suc p) zero = sym (drop-length [] (suc p + 0) (omega arith))
drop-drop [] (suc p) (suc k) = sym (drop-length [] (suc p + suc k) (omega arith))
drop-drop (i ∷ f) (suc p) k =
    drop-drop f p k ∙ ap (λ n. drop n (i ∷ f)) (shift (p + k) (suc p + k) (omega arith))
  where
    shift : (m n : ℕ) → n ≡ suc m → suc m ≡ n
    shift m n e = sym e

-- The instruction at `pc` and those behind it.
get_elem?-drop :
    (f : List SockFilter) (pc : ℕ)
    → pc < length f
    → (i : SockFilter) × (get_elem? f pc ≡ some i) × (drop pc f ≡ i ∷ drop (pc + 1) f)
get_elem?-drop [] pc h = absurd (omega arith)
get_elem?-drop (i ∷ f) zero h = (i, refl, refl)
get_elem?-drop (i ∷ f) (suc pc) h =
    let (j, g, e) = get_elem?-drop f pc (omega arith) in
    (
      j,
      g,
      e ∙ ap (λ t. j ∷ t) (ap (λ n. drop n (i ∷ f)) (shift (pc + 1) (suc pc + 1) (omega arith))),
    )
  where
    shift : (m n : ℕ) → n ≡ suc m → suc m ≡ n
    shift m n e = sym e

bpf_loop-exec :
    (d : ℕ → ℕ) (f : List SockFilter) (fuel pc a : ℕ)
    → pc < length f
    → length f ≤ fuel + pc
    → bpf_loop fuel f (length f) d pc a ≡ exec d (drop pc f) 0 a
unfolding bpf_loop exec
bpf_loop-exec d f zero pc a h l = absurd (omega arith)
bpf_loop-exec d f (suc fuel) pc a h l =
    let (i, g, e) = get_elem?-drop f pc h in
    rw (g, e, bpf_loop, exec) (stepped (step d i a) (λ q b. bpf_loop-exec d f fuel q b))
  where
    Again : Type 0
    Again =
        (q b : ℕ)
        → q < length f
        → length f ≤ fuel + q
        → bpf_loop fuel f (length f) d q b ≡ exec d (drop q f) 0 b

    past : (skip b : ℕ) → exec d (drop (pc + 1) f) skip b ≡ exec d (drop (pc + 1 + skip) f) 0 b
    past skip b =
        exec-drop d (drop (pc + 1) f) skip b ∙ ap (λ g. exec d g 0 b) (drop-drop f (pc + 1) skip)

    nothing_left :
        (skip b : ℕ) → length f ≤ pc + 1 + skip → none ≡ exec d (drop (pc + 1 + skip) f) 0 b
    nothing_left skip b m =
        sym (ap (λ g. exec d g 0 b) (drop-length f (pc + 1 + skip) m) ∙ unfold exec in refl)

    stepped :
        (r : Next)
        → Again
        → elim r [
          | bad ↦ none
          | return k ↦ some k
          | go_on a' skip ↦ elim (leb (length f) (pc + 1 + skip)) [
            | true ↦ none
            | false ↦ bpf_loop fuel f (length f) d (pc + 1 + skip) a'
          ]
        ]
          ≡ elim r [
            | bad ↦ none
            | return k ↦ some k
            | go_on a' skip ↦ exec d (drop (pc + 1) f) skip a'
          ]
    stepped bad again = refl
    stepped (return k) again = refl
    stepped (go_on a' skip) again =
        landed (leb (length f) (pc + 1 + skip)) refl ∙ sym (past skip a')
      where
        landed :
            (b : Bool)
            → leb (length f) (pc + 1 + skip) ≡ b
            → elim b [ true ↦ none | false ↦ bpf_loop fuel f (length f) d (pc + 1 + skip) a' ]
              ≡ exec d (drop (pc + 1 + skip) f) 0 a'
        landed true m = nothing_left skip a' (ground (arith, m))
        landed false m = again (pc + 1 + skip) a' (ground (arith, m)) (omega (arith, l))

-- The interpreter runs every program to an end, in no more rounds than the program has
-- instructions: it gives what running the program from its front gives, where a jump passes over
-- the instructions behind it.
pub bpf_run-exec : (d : ℕ → ℕ) (f : List SockFilter) → bpf_run f d ≡ exec d f 0 0
unfolding bpf_run
bpf_run-exec d [] = unfold bpf_loop exec in refl
bpf_run-exec d (i ∷ f) = bpf_loop-exec d (i ∷ f) (length (i ∷ f)) 0 0 (omega arith) (omega arith)
