-- ===== src/Rewrite/Scan.antt =====
-- src/monitor/rewrite.c: that the scan, over the mapping or its code map, keeps the account of the sites.
use mathlib.Core.Path.{subst}
use fake_chroot_ng.Prelude.{
  ℕ, zero, suc, ◌+◌, ◌-◌, ◌*◌, ◌/◌, ◌^◌, ◌≤◌, ◌<◌, ◌≡◌, refl, sym, ◌∙◌, ◌⊎◌, inl, inr, Bool, true,
  false, not, ◌&&◌, ◌||◌, Option, none, some, List, [], ◌∷◌, arith, ltb, leb, ◌==◌, ◌!=◌,
  if◌then◌else◌, Bool-cases,
}
use fake_chroot_ng.Rewrite.{
  Memory, store, Template, tramp_size, Pool, Range, b_insn, emit, svc0_insn, returns_signal,
  stack_teardown, seen_x8, x8_lookback, spared, scan_word, scan_words, scan, scan_ranges,
  rewrite_seg,
}
use fake_chroot_ng.Rewrite.Kept.{Fits, Emitted, emit-Emitted}
use fake_chroot_ng.Rewrite.Sites.{
  Apart, Rewritten, Site, Sites, still_svc, same_before, beside_others, made_site, patched,
}

-- The pool is not in the code that is scanned.
abbrev pub Clear : Range → ℕ → Type 0
Clear r hi = (hi ≤ r.pool) ⊎ (r.pool + r.cap ≤ r.floor)

Clear-Apart : (r : Range) (hi b : ℕ) → Clear r hi → r.floor ≤ b → b < hi → Apart r.pool r.cap b
Clear-Apart r hi b (inl k) f l = inl (omega (arith, k, l))
Clear-Apart r hi b (inr k) f l = inr (omega (arith, k, f))

or_false :
    (x y z w v : Bool) → ((x || y || z || w) || v) ≡ false → (x ≡ false) × (y ≡ false) × (v ≡ false)
or_false false false false false v h = (refl, refl, h)
or_false true y z w v h = absurd (ground (arith, h))
or_false false true z w v h = absurd (ground (arith, h))
or_false false false true w v h = absurd (ground (arith, h))
or_false false false false true v h = absurd (ground (arith, h))

module _ (t : Template) (fits : Fits t) (r : Range) (top : r.pool + r.cap ≤ 2 ^ 64) (lim : ℕ)
    (m : Memory) (hi : ℕ) (within : hi ≤ lim) (clear : Clear r hi) (low : hi ≤ 2 ^ 63) where
  After : Option Pool → Type 0
  After none = Unit
  After (some u) = Sites t r lim m u

  before_word :
      (s : Pool) (a : ℕ)
      → Sites t r lim m s
      → a < hi
      → returns_signal s.mem a r.floor ≡ false
      → returns_signal m a r.floor ≡ false
  unfolding returns_signal Sites
  before_word s a h l e = elim (Bool-cases (leb (r.floor + 4) a)) [
    | inr f ↦ rw f refl
    | inl f ↦ rw f (
        same_before t fits r top lim m s (a - 4)
          (h.1 (a - 4) (Clear-Apart r hi (a - 4) clear (ground (arith, f)) (omega (arith, l))))
          (sym (rw f refl) ∙ e))
  ]

  scan_word-After :
      (s : Pool) (a : ℕ)
      → Sites t r lim m s
      → r.floor ≤ a
      → a + 4 ≤ hi
      → After (scan_word t r hi s a)
  unfolding scan_word After Sites patched Site spared
  scan_word-After s a h f l =
      elim (Bool-cases (spared r hi s.mem a || b_insn a (r.pool + s.used) == 0)) [
        | inl e ↦ rw e h
        | inr e ↦ rw e (by_room (ltb r.cap (s.used + tramp_size t)) e)
      ]
    where
      br : ℕ
      br = b_insn a (r.pool + s.used)

      by_emit :
          (o : Option Pool)
          → emit t r.pool r.cap s (a + 4) ≡ o
          → (spared r hi s.mem a || br == 0) ≡ false
          → After (elim o [
            | none ↦ some s
            | some e ↦ some (record e { mem = store e.mem a br; count = s.count + 1 })
          ])
      by_emit none q e = h
      by_emit (some e) q k =
          let (svc, signal, branch) =
            or_false (s.mem a != svc0_insn) (returns_signal s.mem a r.floor)
              (stack_teardown s.mem a r.floor hi)
              (r.verify && not (seen_x8 s.mem a r.floor x8_lookback 1)) (br == 0) k in
          let g = emit-Emitted t fits r.pool r.cap s (a + 4) top (omega (arith, l, low)) e q in
          let far = Clear-Apart r hi a clear f (omega (arith, l)) in
          let new =
            made_site t fits r top lim m s e a g far (omega (arith, l, low)) branch
              (still_svc t fits r top lim m s a (h.1 a far) (ground (arith, svc))) f
              (omega (arith, l, within)) (before_word s a h (omega (arith, l)) signal) in
          (grown g, λ b away. at_or_not b away g far new (Bool-cases (b == a)))
        where
          grown : Emitted t r.pool r.cap s (a + 4) e → e.used ≤ r.cap
          grown g = unfold Emitted in g.1

          at_or_not :
              (b : ℕ)
              → Apart r.pool r.cap b
              → Emitted t r.pool r.cap s (a + 4) e
              → Apart r.pool r.cap a
              → Rewritten t r lim m (record e { mem = store e.mem a br; count = s.count + 1 }) a
              → ((b == a) ≡ true) ⊎ ((b == a) ≡ false)
              → Site t r lim m (record e { mem = store e.mem a br; count = s.count + 1 }) b
          at_or_not b away g far new (inl k) =
              subst (Site t r lim m (record e { mem = store e.mem a br; count = s.count + 1 }))
                (same k) (inr new)
            where
              same : (b == a) ≡ true → a ≡ b
              same k = ground (arith, k)
          at_or_not b away g far new (inr k) =
              beside_others t fits r top lim m s e a br (a + 4) b h.0 g far away k (h.1 b away)

      by_room :
          (b : Bool)
          → (spared r hi s.mem a || br == 0) ≡ false
          → After (
              if b then none else elim (emit t r.pool r.cap s (a + 4)) [
                | none ↦ some s
                | some e ↦ some (record e { mem = store e.mem a br; count = s.count + 1 })
              ])
      by_room true e = tt
      by_room false e = by_emit (emit t r.pool r.cap s (a + 4)) refl e

  scan_words-Sites :
      (n a : ℕ) (s : Pool)
      → Sites t r lim m s
      → r.floor ≤ a
      → a + 4 * n ≤ hi
      → Sites t r lim m (scan_words t r hi n a s)
  unfolding scan_words After
  scan_words-Sites zero a s h f l = h
  scan_words-Sites (suc n) a s h f l =
      next (scan_word t r hi s a) (scan_word-After s a h f (omega (arith, l)))
        (λ u k. scan_words-Sites n (a + 4) u k (omega (arith, f)) (omega (arith, l)))
    where
      next :
          (o : Option Pool)
          → After o
          → ((u : Pool) → Sites t r lim m u → Sites t r lim m (scan_words t r hi n (a + 4) u))
          → Sites t r lim m (elim o [ none ↦ s | some u ↦ scan_words t r hi n (a + 4) u ])
      next none k again = h
      next (some u) k again = again u k

  scan-Sites :
      (lo : ℕ) (s : Pool) → Sites t r lim m s → r.floor ≤ lo → Sites t r lim m (scan t r lo hi s)
  unfolding scan
  scan-Sites lo s h f = elim (Bool-cases (leb ((lo + 3) / 4 * 4) hi)) [
    | inl e ↦
        scan_words-Sites ((hi - (lo + 3) / 4 * 4) / 4) ((lo + 3) / 4 * 4) s h (omega (arith, f))
          (room ((lo + 3) / 4 * 4) (ground (arith, e)))
    | inr e ↦ rw (none_left ((lo + 3) / 4 * 4) e) (unfold scan_words in h)
  ]
    where
      room : (a : ℕ) → a ≤ hi → a + 4 * ((hi - a) / 4) ≤ hi
      room a k = omega (arith, k)

      none_left : (a : ℕ) → leb a hi ≡ false → (hi - a) / 4 ≡ 0
      none_left a k = ground (arith, k)

-- A mapping from `lo` and its pool.
abbrev pub code_range : ℕ → ℕ → ℕ → Bool → Range
code_range lo pool cap verify = record { floor = lo; verify = verify; pool = pool; cap = cap }

module _ (t : Template) (fits : Fits t) (lo hi foff pool cap : ℕ) (top : pool + cap ≤ 2 ^ 64)
    (low : hi ≤ 2 ^ 63) where
  scan_ranges-Sites :
      (m : Memory) (cr : List (ℕ × ℕ)) (s : Pool)
      → lo ≤ hi
      → Clear (code_range lo pool cap false) hi
      → Sites t (code_range lo pool cap false) hi m s
      → Sites t
          (code_range lo pool cap false)
          hi
          m
          (scan_ranges t (code_range lo pool cap false) lo hi foff cr s)
  unfolding scan_ranges
  scan_ranges-Sites m [] s o c h = h
  scan_ranges-Sites m ((from, to) ∷ cr) s o c h =
      scan_ranges-Sites m cr
        (if leb (end to) (start from)
          then s
          else scan t (code_range lo pool cap false) (lo + (start from - foff))
              (lo + (end to - foff)) s)
        o c
        (elim (Bool-cases (leb (end to) (start from))) [
          | inl e ↦ rw e h
          | inr e ↦ rw e (scanned (start from) (end to) (bound to))
        ])
    where
      start : ℕ → ℕ
      start from = if ltb from foff then foff else from

      end : ℕ → ℕ
      end to = if ltb (foff + (hi - lo)) to then foff + (hi - lo) else to

      bound : (to : ℕ) → end to ≤ foff + (hi - lo)
      bound to = ground arith

      nearer :
          (b : ℕ)
          → b ≤ foff + (hi - lo)
          → Clear (code_range lo pool cap false) hi
          → Clear (code_range lo pool cap false) (lo + (b - foff))
      nearer b k (inl q) = inl (omega (arith, k, q, o))
      nearer b k (inr q) = inr q

      scanned :
          (a b : ℕ)
          → b ≤ foff + (hi - lo)
          → Sites t
              (code_range lo pool cap false)
              hi
              m
              (scan t (code_range lo pool cap false) (lo + (a - foff)) (lo + (b - foff)) s)
      scanned a b k =
          scan-Sites t fits (code_range lo pool cap false) top hi m (lo + (b - foff))
            (omega (arith, k, o)) (nearer b k c) (omega (arith, k, o, low)) (lo + (a - foff)) s h
            (omega arith)

  -- Rewriting a segment changes, outside the pool, nothing but words of the segment that were svc
  -- #0 and that do not follow the number of rt_sigreturn. Each that it changed branches to its
  -- copy of the template in the pool: the copy holds the template's words where it is not patched,
  -- the dispatcher's address and the address behind the site as its two literals, and a branch to
  -- the word behind the site; no copy is overwritten by another, and the pool is not overrun: over
  -- the whole segment or any list of code ranges, several that overlap among them. The template's
  -- patches are inside it and apart, the pool is below 2^64 and the segment below 2^63, the two
  -- are apart, and the pool was not overrun before.
  pub rewrite_seg-Sites :
      (on : Bool) (cr : List (ℕ × ℕ)) (s : Pool)
      → s.used ≤ cap
      → (hi ≤ pool) ⊎ (pool + cap ≤ lo)
      → Sites t (code_range lo pool cap true) hi s.mem (rewrite_seg t on lo hi foff pool cap cr s)
  unfolding rewrite_seg Sites Site Rewritten
  rewrite_seg-Sites on cr s u c = elim (Bool-cases (not on || leb hi lo)) [
    | inl e ↦ idle cr e
    | inr e ↦ active cr e
  ]
    where
      fresh : Sites t (code_range lo pool cap true) hi s.mem s
      fresh = (u, λ b k. inl refl)

      idle :
          (cr : List (ℕ × ℕ))
          → (not on || leb hi lo) ≡ true
          → Sites t
              (code_range lo pool cap true)
              hi
              s.mem
              (rewrite_seg t on lo hi foff pool cap cr s)
      idle [] e = rw e fresh
      idle (x ∷ cr) e = rw e fresh

      active :
          (cr : List (ℕ × ℕ))
          → (not on || leb hi lo) ≡ false
          → Sites t
              (code_range lo pool cap true)
              hi
              s.mem
              (rewrite_seg t on lo hi foff pool cap cr s)
      active [] e = rw e (
          scan-Sites t fits (code_range lo pool cap true) top hi s.mem hi (omega arith) c low lo s
            fresh (omega arith))
      active (x ∷ cr) e = rw e (scan_ranges-Sites s.mem (x ∷ cr) s (ground (arith, e)) c fresh)
