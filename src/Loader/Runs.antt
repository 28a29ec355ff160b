-- ===== src/Loader/Runs.antt =====
-- src/loader/elf.c: that the runs between the edges give each page what its segments ask for.
use fake_chroot_ng.Prelude.{
  ℕ, ◌≤◌, ◌<◌, ◌≡◌, refl, sym, ap, ◌∙◌, ◌⊎◌, inl, inr, Bool, true, false, ◌&&◌, List, [], ◌∷◌,
  arith, ltb, leb, if◌then◌else◌, Bool-cases, All, bit_or,
}
use fake_chroot_ng.Loader.Protect.{
  Pages, add_edges, cover, spans, protect_run, protect_runs, protect,
}
use fake_chroot_ng.Loader.Edges.{IsSorted, Has, All-Has, Ends, add_edges-IsSorted, add_edges-Ends}

-- What holds an address.
abbrev pub holds : ℕ → Pages → Bool
holds a p = leb p.start a && ltb a p.stop

-- What the segments ask for at an address, or what was there.
abbrev pub asked : List Pages → ℕ → (ℕ → ℕ) → ℕ
asked ls a m = let (prot, covered) = cover (holds a) ls (0, false) in if covered then prot else m a

cover-same :
    (t u : Pages → Bool) (ls : List Pages) (acc : ℕ × Bool)
    → All (λ p. t p ≡ u p) ls
    → cover t ls acc ≡ cover u ls acc
cover-same t u [] acc h = refl
cover-same t u (p ∷ ps) acc h =
    ap (λ b. cover t ps (if b then (bit_or acc.0 p.prot, true) else acc)) h.0
    ∙ cover-same t u ps (if u p then (bit_or acc.0 p.prot, true) else acc) h.1

-- No edge lies inside a run.
Gap : ℕ → ℕ → ℕ → Type 0
Gap ps pe z = (z ≤ ps) ⊎ (pe ≤ z)

Gap-holds :
    (ps pe a : ℕ) (p : Pages)
    → ps ≤ a
    → a < pe
    → Gap ps pe p.start
    → Gap ps pe p.stop
    → spans ps pe p ≡ holds a p
unfolding Gap
Gap-holds ps pe a p h k s t = ground (arith, h, k, s, t)

-- A segment whose ends are edges from `x` on, or before.
Near : ℕ → List ℕ → ℕ → Type 0
Near x l z = (z ≤ x) ⊎ Has z l

Nears : ℕ → List ℕ → Pages → Type 0
Nears x l p = Near x l p.start × Near x l p.stop

module _ (x y : ℕ) (l : List ℕ) (s : IsSorted (x ∷ y ∷ l)) where
  from_next : (z : ℕ) → Has z (y ∷ l) → y ≤ z
  unfolding IsSorted Has
  from_next z (inl e) = omega (arith, e)
  from_next z (inr h) = omega (arith, All-Has (λ w. y < w) l z s.1.0 h)

  Near-Gap : (z : ℕ) → Near x (y ∷ l) z → Gap x y z
  unfolding Near Gap
  Near-Gap z (inl e) = inl e
  Near-Gap z (inr h) = inr (from_next z h)

  Near-next : (z : ℕ) → Near x (y ∷ l) z → Near y l z
  unfolding Near IsSorted Has
  Near-next z (inl e) = inl (omega (arith, e, s.0.0))
  Near-next z (inr (inl e)) = inl (omega (arith, e))
  Near-next z (inr (inr h)) = inr h

cover-none :
    (t : Pages → Bool) (ls : List Pages) (acc : ℕ × Bool)
    → All (λ p. t p ≡ false) ls
    → cover t ls acc ≡ acc
cover-none t [] acc h = refl
cover-none t (p ∷ ps) acc h = rw h.0 (cover-none t ps acc h.1)

All-pages :
    (p q : Pages → Type 0) (ls : List Pages) → ((z : Pages) → p z → q z) → All p ls → All q ls
All-pages p q [] f h = tt
All-pages p q (z ∷ ls) f h = (f z h.0, All-pages p q ls f h.1)

unasked :
    (ls : List Pages) (a : ℕ) (m : ℕ → ℕ) → All (λ p. holds a p ≡ false) ls → asked ls a m ≡ m a
unasked ls a m h = ap (λ c. if c.1 then c.0 else m a) (cover-none (holds a) ls (0, false) h)

protect_run-at :
    (ls : List Pages) (x y a : ℕ) (m : ℕ → ℕ)
    → protect_run ls x y m a ≡ (
        if leb x a && ltb a y
        then (let (prot, covered) = cover (spans x y) ls (0, false) in
            if covered then prot else m a)
        else m a)
protect_run-at ls x y a m = cases (cover (spans x y) ls (0, false))
  where
    cases :
        (c : ℕ × Bool)
        → (if c.1 then (λ z. if leb x z && ltb z y then c.0 else m z) else m) a
          ≡ (if leb x a && ltb a y then (if c.1 then c.0 else m a) else m a)
    cases (prot, true) = refl
    cases (prot, false) = elim (Bool-cases (leb x a && ltb a y)) [
      | inl e ↦ rw e refl
      | inr e ↦ rw e refl
    ]

-- An address is below an edge, or not.
module _ (ls : List Pages) (a : ℕ) where
  last_edge :
      (x : ℕ) (m : ℕ → ℕ) → All (Nears x []) ls → m a ≡ (if leb x a then asked ls a m else m a)
  unfolding Nears Near Has
  last_edge x m h = elim (Bool-cases (leb x a)) [
    | inr e ↦ rw e refl
    | inl e ↦ rw e (
        sym (
          unasked ls a m
            (All-pages (Nears x []) (λ p. holds a p ≡ false) ls (λ p n. past p e n.1) h)))
  ]
    where
      past : (p : Pages) → leb x a ≡ true → Near x [] p.stop → holds a p ≡ false
      past p e (inl k) = ground (arith, e, k)
      past p e (inr k) = absurd k

  -- One run, and what comes behind it.
  run_step :
      (x y : ℕ) (l : List ℕ) (m : ℕ → ℕ)
      → IsSorted (x ∷ y ∷ l)
      → All (Nears x (y ∷ l)) ls
      → (if leb y a then asked ls a (protect_run ls x y m) else protect_run ls x y m a)
        ≡ (if leb x a then asked ls a m else m a)
  unfolding IsSorted Nears
  run_step x y l m s h = elim (Bool-cases (leb y a)) [
    | inl e ↦
        rw (e, above e) (ap (λ v. if covered.1 then covered.0 else v) (outside (ground (arith, e))))
    | inr e ↦ elim (Bool-cases (leb x a)) [
      | inl b ↦
          rw (e, b)
            (protect_run-at ls x y a m
              ∙ rw (b, under e)
                  (ap (λ c. if c.1 then c.0 else m a)
                    (cover-same (spans x y) (holds a) ls (0, false) (all_run b e))))
      | inr b ↦ rw (e, b) (outside (ground (arith, b)))
    ]
  ]
    where
      covered : ℕ × Bool
      covered = cover (holds a) ls (0, false)

      above : leb y a ≡ true → leb x a ≡ true
      above e = ground (arith, e, s.0.0)

      under : leb y a ≡ false → ltb a y ≡ true
      under e = ground (arith, e)

      outside : (leb x a && ltb a y) ≡ false → protect_run ls x y m a ≡ m a
      outside e = protect_run-at ls x y a m ∙ rw e refl

      all_run : leb x a ≡ true → leb y a ≡ false → All (λ p. spans x y p ≡ holds a p) ls
      all_run b e =
          All-pages (Nears x (y ∷ l)) (λ p. spans x y p ≡ holds a p) ls
            (λ p n.
              Gap-holds x y a p (ground (arith, b)) (ground (arith, e))
                (Near-Gap x y l s p.start n.0) (Near-Gap x y l s p.stop n.1))
            h

  protect_runs-at :
      (x : ℕ) (l : List ℕ) (m : ℕ → ℕ)
      → IsSorted (x ∷ l)
      → All (Nears x l) ls
      → protect_runs ls (x ∷ l) m a ≡ (if leb x a then asked ls a m else m a)
  unfolding protect_runs IsSorted Nears
  protect_runs-at x [] m s h = last_edge x m h
  protect_runs-at x (y ∷ l) m s h =
      protect_runs-at y l (protect_run ls x y m) s.1 (
        All-pages (Nears x (y ∷ l)) (Nears y l) ls
          (λ p n. (Near-next x y l s p.start n.0, Near-next x y l s p.stop n.1)) h)
      ∙ run_step x y l m s h

  from_edges :
      (edge : List ℕ) (m : ℕ → ℕ)
      → IsSorted edge
      → All (Ends edge) ls
      → protect_runs ls edge m a ≡ asked ls a m
  unfolding protect_runs IsSorted Ends Has Nears
  from_edges [] m s h =
      sym (unasked ls a m (All-pages (Ends []) (λ p. holds a p ≡ false) ls (λ p n. absurd n.0) h))
  from_edges (x ∷ l) m s h =
      protect_runs-at x l m s
        (All-pages (Ends (x ∷ l)) (Nears x l) ls (λ p n. (near p.start n.0, near p.stop n.1)) h)
      ∙ elim (Bool-cases (leb x a)) [
        | inl e ↦ rw e refl
        | inr e ↦ rw e (
            sym (
              unasked ls a m (
                All-pages (Ends (x ∷ l)) (λ p. holds a p ≡ false) ls
                  (λ p n. before p e (least p.start n.0)) h)))
      ]
    where
      near : (z : ℕ) → Has z (x ∷ l) → Near x l z
      near z h = unfold Near in elim h [ inl e ↦ inl (omega (arith, e)) | inr k ↦ inr k ]

      least : (z : ℕ) → Has z (x ∷ l) → x ≤ z
      least z h = elim h [
        | inl e ↦ omega (arith, e)
        | inr k ↦ omega (arith, All-Has (λ w. x < w) l z s.0 k)
      ]

      before : (p : Pages) → leb x a ≡ false → x ≤ p.start → holds a p ≡ false
      before p e k = ground (arith, e, k)

-- The runs between the edges give every address the union of the protections of the segments whose
-- pages hold it, and leave an address of no segment as it was, for segments in any order that
-- share pages or not.
pub protect-asked : (ls : List Pages) (m : ℕ → ℕ) (a : ℕ) → protect ls m a ≡ asked ls a m
unfolding protect
protect-asked ls m a =
    from_edges ls a (add_edges ls []) m (add_edges-IsSorted ls [] (unfold IsSorted in tt))
      (add_edges-Ends ls [])
