-- ===== src/Rewrite/Sites.antt =====
-- src/monitor/rewrite.c: what the scan has done to the code, and to nothing else.
use fake_chroot_ng.Prelude.{
  ℕ, ◌+◌, ◌^◌, ◌≤◌, ◌<◌, ◌≡◌, refl, sym, ap, ◌∙◌, ◌⊎◌, inl, inr, true, false, some, arith, ◌==◌,
}
use fake_chroot_ng.Rewrite.{
  Memory, store, Template, tramp_size, Pool, Range, b_insn, svc0_insn, sets_x8, nr_sigreturn,
  returns_signal,
}
use fake_chroot_ng.Rewrite.Branch.{branch_to, branch_to-b_insn}
use fake_chroot_ng.Rewrite.Kept.{Fits, Emitted, IsFilled, IsFilled-same}

-- An address outside the pool.
abbrev pub Apart : ℕ → ℕ → ℕ → Type 0
Apart pool cap b = (b < pool) ⊎ (pool + cap ≤ b)

-- A site that was rewritten: an `svc #0` of the code up to `lim`, not one that returns from a signal; it branches to its
-- copy of the template, in the pool, and the copy branches back behind it and holds the rest of what
-- the site needs.
unfoldable pub Rewritten : Template → Range → ℕ → Memory → Pool → ℕ → Type 0
Rewritten t r lim m s b =
    (m b ≡ svc0_insn)
    × (r.floor ≤ b)
    × (b + 4 ≤ lim)
    × (returns_signal m b r.floor ≡ false)
    × ((slot : ℕ) × (slot + tramp_size t ≤ s.used)
        × (branch_to b (s.mem b) ≡ some (r.pool + slot))
        × (branch_to (r.pool + slot + t.back_off) (s.mem (r.pool + slot + t.back_off))
            ≡ some (b + 4))
        × IsFilled t s.mem (r.pool + slot) (b + 4))

-- A word that is as it was, or a site that was rewritten.
unfoldable pub Site : Template → Range → ℕ → Memory → Pool → ℕ → Type 0
unfolding Rewritten
Site t r lim m s b = (s.mem b ≡ m b) ⊎ Rewritten t r lim m s b

-- Every word outside the pool is one of these, and the pool is not overrun.
unfoldable pub Sites : Template → Range → ℕ → Memory → Pool → Type 0
unfolding Site
Sites t r lim m s = (s.used ≤ r.cap) × ((b : ℕ) → Apart r.pool r.cap b → Site t r lim m s b)

module _ (t : Template) (fits : Fits t) (r : Range) (top : r.pool + r.cap ≤ 2 ^ 64) (lim : ℕ)
    (m : Memory) where
  -- A word that the scan finds to be an `svc #0` was one.
  pub still_svc : (s : Pool) (b : ℕ) → Site t r lim m s b → s.mem b ≡ svc0_insn → m b ≡ svc0_insn
  unfolding Site Rewritten
  still_svc s b (inl e) h = sym e ∙ h
  still_svc s b (inr q) h = q.0

  -- The word before a site is no `mov` to x8 that was rewritten.
  pub same_before :
      (s : Pool) (b : ℕ)
      → Site t r lim m s b
      → sets_x8 (s.mem b) nr_sigreturn ≡ false
      → sets_x8 (m b) nr_sigreturn ≡ false
  unfolding Site Rewritten
  same_before s b (inl e) h = ap (λ w. sets_x8 w nr_sigreturn) (sym e) ∙ h
  same_before s b (inr q) h = ap (λ v. sets_x8 v nr_sigreturn) q.0

  -- Outside the copy that was made.
  beside :
      (s e : Pool) (ret b : ℕ)
      → Emitted t r.pool r.cap s ret e
      → Apart r.pool r.cap b
      → (b < r.pool + s.used) ⊎ (r.pool + s.used + tramp_size t ≤ b)
  unfolding Emitted
  beside s e ret b g (inl k) = inl (omega (arith, k))
  beside s e ret b g (inr k) = inr (omega (arith, k, g.0, g.1))

  -- The pool and the site after a round.
  unfoldable pub patched : Pool → Pool → ℕ → ℕ → Pool
  patched s e a br = record e { mem = store e.mem a br; count = s.count + 1 }

  -- A round keeps what the others have done.
  pub beside_others :
      (s e : Pool) (a br ret b : ℕ)
      → s.used ≤ r.cap
      → Emitted t r.pool r.cap s ret e
      → Apart r.pool r.cap a
      → Apart r.pool r.cap b
      → (b == a) ≡ false
      → Site t r lim m s b
      → Site t r lim m (patched s e a br) b
  unfolding Site Rewritten Emitted patched
  beside_others s e a br ret b u g far away n (inl k) =
      inl (rw n (g.2 b (beside s e ret b (unfold Emitted in g) away) ∙ k))
  beside_others s e a br ret b u g far away n (inr q) =
      let (slot, room, out, back, filled) = q.4 in
      let at = r.pool + slot + t.back_off in
      inr (
        q.0,
        q.1,
        q.2,
        q.3,
        (
          slot,
          omega (arith, room, g.0),
          ap (branch_to b) (rw n (g.2 b (beside s e ret b (unfold Emitted in g) away))) ∙ out,
          ap (branch_to at) (
                rw (apart_of at (omega arith, omega (arith, room, u, fits.0)) far)
                  (g.2 at (inl (omega (arith, room, fits.0)))))
              ∙ back,
          IsFilled-same t s.mem (patched s e a br).mem (r.pool + slot) (b + 4) fits
              (λ x from to.
                rw (apart_of x (omega (arith, from), omega (arith, room, u, to)) far)
                  (g.2 x (inl (omega (arith, room, to)))))
              filled,
        ),
      )
    where
      apart_of :
          (at : ℕ)
          → (r.pool ≤ at) × (at < r.pool + r.cap)
          → Apart r.pool r.cap a
          → (at == a) ≡ false
      apart_of at h (inl k) = ground (arith, h, k)
      apart_of at h (inr k) = ground (arith, h, k)

  -- The site of the round itself.
  pub made_site :
      (s e : Pool) (a : ℕ)
      → Emitted t r.pool r.cap s (a + 4) e
      → Apart r.pool r.cap a
      → a < 2 ^ 64
      → (b_insn a (r.pool + s.used) == 0) ≡ false
      → m a ≡ svc0_insn
      → r.floor ≤ a
      → a + 4 ≤ lim
      → returns_signal m a r.floor ≡ false
      → Rewritten t r lim m (patched s e a (b_insn a (r.pool + s.used))) a
  unfolding Rewritten Emitted patched
  made_site s e a g far low br w from to x = (
    w,
    from,
    to,
    x,
    (
      s.used,
      omega (arith, g.0),
      ap (branch_to a) (rw (same a) refl)
          ∙ branch_to-b_insn a (r.pool + s.used) low (omega (arith, g.0, g.1, top, fits.0)) br,
      ap (branch_to (r.pool + s.used + t.back_off)) (rw (inside far) refl) ∙ g.3,
      IsFilled-same t e.mem (patched s e a (b_insn a (r.pool + s.used))).mem (r.pool + s.used)
          (a + 4) fits (λ x from to. rw (inside_at far x from to) refl) g.4,
    ),
  )
    where
      same : (n : ℕ) → (n == n) ≡ true
      same n = ground arith

      inside : Apart r.pool r.cap a → (r.pool + s.used + t.back_off == a) ≡ false
      inside (inl k) = ground (arith, k)
      inside (inr k) = ground (arith, k, g.0, g.1, fits.0)

      inside_at :
          Apart r.pool r.cap a
          → (x : ℕ) → r.pool + s.used ≤ x
          → x < r.pool + s.used + tramp_size t
          → (x == a) ≡ false
      inside_at (inl k) x p q = ground (arith, k, p)
      inside_at (inr k) x p q = ground (arith, k, g.0, g.1, q)
