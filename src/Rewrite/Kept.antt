-- ===== src/Rewrite/Kept.antt =====
-- src/monitor/rewrite.c: what a copy of the template leaves as it was, and where it branches back.
use mathlib.Core.Path.{subst}
use mathlib.Core.Option.{some-injective}
use fake_chroot_ng.Prelude.{
  ℕ, zero, suc, ◌+◌, ◌*◌, ◌/◌, ◌%◌, ◌^◌, get_elem?, ◌≤◌, ◌<◌, ◌≡◌, refl, sym, ap, ◌∙◌, ◌⊎◌, inl,
  inr, true, false, none, some, List, [], ◌∷◌, arith, ltb, ◌==◌, Bool-cases, length,
}
use fake_chroot_ng.Rewrite.{
  Memory, store, store_long, copy_words, Template, tramp_size, Pool, b_insn, emit,
}
use fake_chroot_ng.Rewrite.Branch.{branch_to, branch_to-b_insn}

store-other : (m : Memory) (a w b : ℕ) → (b == a) ≡ false → store m a w b ≡ m b
store-other m a w b e = rw e refl

store_long-other :
    (m : Memory) (a n b : ℕ) → (b == a) ≡ false → (b == a + 4) ≡ false → store_long m a n b ≡ m b
store_long-other m a n b e f = rw (f, e) refl

copy_words-other :
    (m : Memory) (a : ℕ) (ws : List ℕ) (b : ℕ)
    → (b < a) ⊎ (a + 4 * length ws ≤ b)
    → copy_words m a ws b ≡ m b
unfolding copy_words
copy_words-other m a [] b h = refl
copy_words-other m a (w ∷ ws) b h =
    copy_words-other (store m a w) (a + 4) ws b (later h) ∙ store-other m a w b (elsewhere h)
  where
    later : (b < a) ⊎ (a + 4 * length (w ∷ ws) ≤ b) → (b < a + 4) ⊎ (a + 4 + 4 * length ws ≤ b)
    later (inl k) = inl (omega (arith, k))
    later (inr k) = inr (omega (arith, k))

    elsewhere : (b < a) ⊎ (a + 4 * length (w ∷ ws) ≤ b) → (b == a) ≡ false
    elsewhere (inl k) = ground (arith, k)
    elsewhere (inr k) = ground (arith, k)

-- Two ranges of bytes that do not overlap.
abbrev pub Disjoint : ℕ → ℕ → ℕ → ℕ → Type 0
Disjoint a n b m = (a + n ≤ b) ⊎ (b + m ≤ a)

-- A template whose patches are inside it, each in a place of its own.
abbrev pub Fits : Template → Type 0
Fits t =
    (t.back_off + 4 ≤ tramp_size t)
    × (t.disp_off + 8 ≤ tramp_size t)
    × (t.ret_off + 8 ≤ tramp_size t)
    × Disjoint t.disp_off 8 t.ret_off 8
    × Disjoint t.disp_off 8 t.back_off 4
    × Disjoint t.ret_off 8 t.back_off 4

-- The two words of an unsigned long.
abbrev pub IsLong : Memory → ℕ → ℕ → Type 0
IsLong m a n = (m a ≡ n % 2 ^ 32) × (m (a + 4) ≡ n / 2 ^ 32 % 2 ^ 32)

-- A copy of the template at `slot` that serves the site before `ret_site`: the template's own words
-- but where it is patched, the dispatcher's address, and the address behind the site.
unfoldable pub IsFilled : Template → Memory → ℕ → ℕ → Type 0
IsFilled t m slot ret_site =
    ((k w : ℕ)
      → get_elem? t.words k ≡ some w
      → Disjoint t.disp_off 8 (4 * k) 4
      → Disjoint t.ret_off 8 (4 * k) 4
      → Disjoint t.back_off 4 (4 * k) 4
      → m (slot + 4 * k) ≡ w)
    × IsLong m (slot + t.disp_off) t.dispatch
    × IsLong m (slot + t.ret_off) ret_site

get_elem?-below : (ws : List ℕ) (k w : ℕ) → get_elem? ws k ≡ some w → k < length ws
get_elem?-below [] k w e = cc
get_elem?-below (v ∷ ws) zero w e = omega arith
get_elem?-below (v ∷ ws) (suc k) w e = omega (arith, get_elem?-below ws k w e)

-- The copy stays what it is while its words do.
pub IsFilled-same :
    (t : Template) (m m' : Memory) (slot ret_site : ℕ)
    → Fits t
    → ((x : ℕ) → slot ≤ x → x < slot + tramp_size t → m' x ≡ m x)
    → IsFilled t m slot ret_site
    → IsFilled t m' slot ret_site
unfolding IsFilled
IsFilled-same t m m' slot ret_site fits same (words, disp, ret) = (
  λ k w e d r b.
      same (slot + 4 * k) (omega arith) (omega (arith, get_elem?-below t.words k w e))
      ∙ words k w e d r b,
  (
    same (slot + t.disp_off) (omega arith) (omega (arith, fits.1)) ∙ disp.0,
    same (slot + t.disp_off + 4) (omega arith) (omega (arith, fits.1)) ∙ disp.1,
  ),
  (
    same (slot + t.ret_off) (omega arith) (omega (arith, fits.2)) ∙ ret.0,
    same (slot + t.ret_off + 4) (omega arith) (omega (arith, fits.2)) ∙ ret.1,
  ),
)

copy_words-at :
    (m : Memory) (a : ℕ) (ws : List ℕ) (k w : ℕ)
    → get_elem? ws k ≡ some w
    → copy_words m a ws (a + 4 * k) ≡ w
unfolding copy_words
copy_words-at m a [] k w e = cc
copy_words-at m a (v ∷ ws) zero w e =
    copy_words-other (store m a v) (a + 4) ws (a + 0) (inl (omega arith))
    ∙ rw (same a) (some-injective v w e)
  where
    same : (n : ℕ) → (n + 0 == n) ≡ true
    same n = ground arith
copy_words-at m a (v ∷ ws) (suc k) w e =
    ap (copy_words (store m a v) (a + 4) ws) (omega arith)
    ∙ copy_words-at (store m a v) (a + 4) ws k w e

store_long-IsLong : (m : Memory) (a n : ℕ) → IsLong (store_long m a n) a n
store_long-IsLong m a n = (rw (apart a, same a) refl, rw (same (a + 4)) refl)
  where
    same : (x : ℕ) → (x == x) ≡ true
    same x = ground arith

    apart : (x : ℕ) → (x == x + 4) ≡ false
    apart x = ground arith

apart_cells :
    (x y slot a n b m : ℕ)
    → Disjoint a n b m
    → slot + b ≤ x
    → x < slot + b + m
    → slot + a ≤ y
    → y < slot + a + n
    → (x == y) ≡ false
apart_cells x y slot a n b m (inl d) p q r u = ground (arith, d, p, q, r, u)
apart_cells x y slot a n b m (inr d) p q r u = ground (arith, d, p, q, r, u)

swap : (a n b m : ℕ) → Disjoint a n b m → Disjoint b m a n
swap a n b m (inl d) = inr d
swap a n b m (inr d) = inl d

-- What a copy at the end of the pool does.
unfoldable pub Emitted : Template → ℕ → ℕ → Pool → ℕ → Pool → Type 0
Emitted t pool cap s ret_site e =
    (e.used ≡ s.used + tramp_size t)
    × (e.used ≤ cap)
    × ((b : ℕ) → (b < pool + s.used) ⊎ (pool + s.used + tramp_size t ≤ b) → e.mem b ≡ s.mem b)
    × (branch_to (pool + s.used + t.back_off) (e.mem (pool + s.used + t.back_off)) ≡ some ret_site)
    × IsFilled t e.mem (pool + s.used) ret_site

module _ (t : Template) (fits : Fits t) (pool cap : ℕ) (s : Pool) (ret_site : ℕ) where
  copied : ℕ → Memory
  copied back =
      store
        (store_long
          (store_long (copy_words s.mem (pool + s.used) t.words) (pool + s.used + t.disp_off)
            t.dispatch)
          (pool + s.used + t.ret_off) ret_site)
        (pool + s.used + t.back_off) back

  copied-other :
      (back b : ℕ)
      → (b < pool + s.used) ⊎ (pool + s.used + tramp_size t ≤ b)
      → copied back b ≡ s.mem b
  unfolding copied
  copied-other back b h =
      let slot = pool + s.used in
      let inner = store_long (copy_words s.mem slot t.words) (slot + t.disp_off) t.dispatch in
      store-other (store_long inner (slot + t.ret_off) ret_site) (slot + t.back_off) back b
        (outside t.back_off h (omega (arith, fits.0)))
      ∙ store_long-other inner (slot + t.ret_off) ret_site b
          (outside t.ret_off h (omega (arith, fits.2)))
          (outside_next t.ret_off h (omega (arith, fits.2)))
      ∙ store_long-other (copy_words s.mem slot t.words) (slot + t.disp_off) t.dispatch b
          (outside t.disp_off h (omega (arith, fits.1)))
          (outside_next t.disp_off h (omega (arith, fits.1)))
      ∙ copy_words-other s.mem slot t.words b h
    where
      outside :
          (off : ℕ)
          → (b < pool + s.used) ⊎ (pool + s.used + tramp_size t ≤ b)
          → off < tramp_size t
          → (b == pool + s.used + off) ≡ false
      outside off (inl k) o = ground (arith, k, o)
      outside off (inr k) o = ground (arith, k, o)

      outside_next :
          (off : ℕ)
          → (b < pool + s.used) ⊎ (pool + s.used + tramp_size t ≤ b)
          → off + 4 < tramp_size t
          → (b == pool + s.used + off + 4) ≡ false
      outside_next off (inl k) o = ground (arith, k, o)
      outside_next off (inr k) o = ground (arith, k, o)

  -- Past the two patches that come last.
  copied-inner :
      (back x off n : ℕ)
      → (pool + s.used + off ≤ x) × (x < pool + s.used + off + n)
      → Disjoint t.back_off 4 off n
      → Disjoint t.ret_off 8 off n
      → copied back x
        ≡ store_long
            (copy_words s.mem (pool + s.used) t.words)
            (pool + s.used + t.disp_off)
            t.dispatch
            x
  unfolding copied
  copied-inner back x off n (from, to) b r =
      let slot = pool + s.used in
      let inner = store_long (copy_words s.mem slot t.words) (slot + t.disp_off) t.dispatch in
      store-other (store_long inner (slot + t.ret_off) ret_site) (slot + t.back_off) back x (
        apart_cells x (slot + t.back_off) slot t.back_off 4 off n b from to (omega arith)
          (omega arith))
      ∙ store_long-other inner (slot + t.ret_off) ret_site x
          (apart_cells x (slot + t.ret_off) slot t.ret_off 8 off n r from to (omega arith)
            (omega arith))
          (apart_cells x (slot + t.ret_off + 4) slot t.ret_off 8 off n r from to (omega arith)
            (omega arith))

  copied-ret :
      (back x : ℕ)
      → (pool + s.used + t.ret_off ≤ x) × (x < pool + s.used + t.ret_off + 8)
      → copied back x
        ≡ store_long
            (store_long
              (copy_words s.mem (pool + s.used) t.words)
              (pool + s.used + t.disp_off)
              t.dispatch)
            (pool + s.used + t.ret_off)
            ret_site
            x
  unfolding copied
  copied-ret back x (from, to) =
      let slot = pool + s.used in
      let inner = store_long (copy_words s.mem slot t.words) (slot + t.disp_off) t.dispatch in
      store-other (store_long inner (slot + t.ret_off) ret_site) (slot + t.back_off) back x (
        apart_cells x (slot + t.back_off) slot t.back_off 4 t.ret_off 8
          (swap t.ret_off 8 t.back_off 4 fits.5) from to (omega arith) (omega arith))

  copied-IsFilled : (back : ℕ) → IsFilled t (copied back) (pool + s.used) ret_site
  unfolding IsFilled
  copied-IsFilled back =
      let slot = pool + s.used in
      let base = copy_words s.mem slot t.words in
      let inner = store_long base (slot + t.disp_off) t.dispatch in
      (
        λ k w e d r b.
            copied-inner back (slot + 4 * k) (4 * k) 4 (omega arith, omega arith) b r
            ∙ store_long-other base (slot + t.disp_off) t.dispatch (slot + 4 * k)
                (apart_cells (slot + 4 * k) (slot + t.disp_off) slot t.disp_off 8 (4 * k) 4 d
                  (omega arith) (omega arith) (omega arith) (omega arith))
                (apart_cells (slot + 4 * k) (slot + t.disp_off + 4) slot t.disp_off 8 (4 * k) 4 d
                  (omega arith) (omega arith) (omega arith) (omega arith))
            ∙ copy_words-at s.mem slot t.words k w e,
        (
          copied-inner back (slot + t.disp_off) t.disp_off 8 (omega arith, omega arith)
                (swap t.disp_off 8 t.back_off 4 fits.4) (swap t.disp_off 8 t.ret_off 8 fits.3)
              ∙ (store_long-IsLong base (slot + t.disp_off) t.dispatch).0,
          copied-inner back (slot + t.disp_off + 4) t.disp_off 8 (omega arith, omega arith)
                (swap t.disp_off 8 t.back_off 4 fits.4) (swap t.disp_off 8 t.ret_off 8 fits.3)
              ∙ (store_long-IsLong base (slot + t.disp_off) t.dispatch).1,
        ),
        (
          copied-ret back (slot + t.ret_off) (omega arith, omega arith)
              ∙ (store_long-IsLong inner (slot + t.ret_off) ret_site).0,
          copied-ret back (slot + t.ret_off + 4) (omega arith, omega arith)
              ∙ (store_long-IsLong inner (slot + t.ret_off) ret_site).1,
        ),
      )

  pub emit-Emitted :
      pool + cap ≤ 2 ^ 64
      → ret_site < 2 ^ 64
      → (e : Pool) → emit t pool cap s ret_site ≡ some e
      → Emitted t pool cap s ret_site e
  unfolding emit Emitted copied
  emit-Emitted top r e = decided (Bool-cases (ltb cap (s.used + tramp_size t)))
    where
      back : ℕ
      back = b_insn (pool + s.used + t.back_off) ret_site

      made : Pool
      made = record s { mem = copied back; used = s.used + tramp_size t }

      good :
          ltb cap (s.used + tramp_size t) ≡ false
          → (back == 0) ≡ false
          → Emitted t pool cap s ret_site made
      good k b = (
        refl,
        ground (arith, k),
        copied-other back,
        ap (branch_to (pool + s.used + t.back_off)) here
            ∙ branch_to-b_insn (pool + s.used + t.back_off) ret_site
                (ground (arith, k, top, fits.0)) r b,
        copied-IsFilled back,
      )
        where
          here : made.mem (pool + s.used + t.back_off) ≡ back
          here = rw (same (pool + s.used + t.back_off)) refl
            where
              same : (n : ℕ) → (n == n) ≡ true
              same n = ground arith

      decided :
          (ltb cap (s.used + tramp_size t) ≡ true) ⊎ (ltb cap (s.used + tramp_size t) ≡ false)
          → emit t pool cap s ret_site ≡ some e
          → Emitted t pool cap s ret_site e
      decided (inl k) h = absurd (ground (arith, k, h))
      decided (inr k) h = elim (Bool-cases (back == 0)) [
        | inl b ↦ absurd (nothing (sym (rw (k, b) refl) ∙ h))
        | inr b ↦
            subst (Emitted t pool cap s ret_site) (value (sym (rw (k, b) refl) ∙ h)) (good k b)
      ]
        where
          value : some made ≡ some e → made ≡ e
          value = some-injective made e

          nothing : none ≡ some e → ⊥
          nothing q = ground (arith, q)
