-- ===== src/Path/Choice.antt =====
-- Which bind the loops of src/path/path.c choose.
use fake_chroot_ng.Prelude.{
  ℕ, ◌+◌, ◌≤◌, ◌<◌, ◌≡◌, refl, sym, ◌∙◌, inl, inr, Bool, true, ◌&&◌, Option, none, some, List, [],
  ◌∷◌, ◌++◌, arith, ltb, length, length-append, get_elem?, All, Bool-cases,
}
use mathlib.Core.List.{append-nil, append_assoc}
use fake_chroot_ng.Path.View.{Bind, longest}

get_elem?-middle {ℓ} :
    {A : Type ℓ} (done : List A) (b : A) (bs : List A)
    → get_elem? (done ++ b ∷ bs) (length done) ≡ some b
get_elem?-middle [] b bs = refl
get_elem?-middle (d ∷ done) b bs = get_elem?-middle done b bs

All-snoc :
    (P : Bind → Type 0) (done : List Bind) (b : Bind) → All P done → P b → All P (done ++ b ∷ [])
All-snoc P [] b a p = (p, tt)
All-snoc P (d ∷ done) b a p = (a.0, All-snoc P done b a.1 p)

All-map : (P Q : Bind → Type 0) → ((b : Bind) → P b → Q b) → (bs : List Bind) → All P bs → All Q bs
All-map P Q f [] a = tt
All-map P Q f (b ∷ bs) a = (f b a.0, All-map P Q f bs a.1)

module _ (matches : Bind → Bool) (len : Bind → ℕ) where
  -- No bind that matches is longer than `n`.
  abbrev pub NoneLonger : ℕ → List Bind → Type 0
  NoneLonger n bs = All (λ b. matches b ≡ true → len b ≤ n) bs

  -- What the choice among `bs` says, where one had to be longer than `k`.
  pub data Chosen (bs : List Bind) (k : ℕ) : Option (ℕ × Bind) → Type 0 where
    nothing : NoneLonger k bs → Chosen bs k none
    this :
        (i : ℕ) (b : Bind)
        → get_elem? bs i ≡ some b
        → matches b ≡ true
        → k < len b
        → NoneLonger (len b) bs
        → Chosen bs k (some (i, b))

  abbrev best_len : ℕ → Option (ℕ × Bind) → ℕ
  best_len k none = k
  best_len k (some (i, b)) = len b

  abbrev FoundIn : List Bind → ℕ → Option (ℕ × Bind) → Type 0
  FoundIn all k none = Unit
  FoundIn all k (some (i, b)) = (get_elem? all i ≡ some b) × (matches b ≡ true) × (k < len b)

  conclude :
      (all : List Bind) (k : ℕ) (best : Option (ℕ × Bind))
      → NoneLonger (best_len k best) all
      → FoundIn all k best
      → Chosen all k best
  conclude all k none n f = nothing n
  conclude all k (some (i, b)) n f = this i b f.0 f.1 f.2 n

  best-ge :
      (all : List Bind) (k : ℕ) (best : Option (ℕ × Bind))
      → FoundIn all k best
      → k ≤ best_len k best
  best-ge all k none f = omega arith
  best-ge all k (some (i, b)) f = omega arith

  -- The loop before `bs`, with `done` behind it.
  longest_from :
      (all done bs : List Bind) (k i blen : ℕ) (best : Option (ℕ × Bind))
      → all ≡ done ++ bs
      → i ≡ length done
      → blen ≡ best_len k best
      → NoneLonger blen done
      → FoundIn all k best
      → Chosen all k (longest matches len bs i best blen)
  unfolding longest
  longest_from all done [] k i blen best e ei el n f =
      conclude all k best (rw (← el, e, append-nil) n) f
  longest_from all done (b ∷ bs) k i blen best e ei el n f =
      elim (Bool-cases (matches b && ltb blen (len b))) [
        | inl h ↦ rw h (
            longest_from all (done ++ b ∷ []) bs k (i + 1) (len b) (some (i, b)) regrouped counted
              refl
              (All-snoc _ done b (All-map _ _ (λ d g m. ground (arith, g m)) done n)
                (λ m. omega arith))
              (here, ground arith, ground (arith, best-ge all k best f)))
        | inr h ↦ rw h (
            longest_from all (done ++ b ∷ []) bs k (i + 1) blen best regrouped counted el
              (All-snoc _ done b n (λ m. ground arith)) f)
      ]
    where
      regrouped : all ≡ (done ++ b ∷ []) ++ bs
      regrouped = e ∙ sym (append_assoc done (b ∷ []) bs)

      counted : i + 1 ≡ length (done ++ b ∷ [])
      counted = omega (arith, length-append done (b ∷ []))

      here : get_elem? all i ≡ some b
      here = rw (e, ei) (get_elem?-middle done b bs)

  -- The choice among all the binds.
  pub longest-Chosen : (bs : List Bind) (k : ℕ) → Chosen bs k (longest matches len bs 0 none k)
  longest-Chosen bs k = longest_from bs [] bs k 0 k none refl refl refl tt tt
