-- ===== src/Loader/Span.antt =====
-- src/loader/elf.c: what a plan that the header pass lets through is.
use fake_chroot_ng.Prelude.{
  ℕ, ◌+◌, ◌-◌, ◌%◌, ◌^◌, ◌≤◌, ◌<◌, ◌≡◌, refl, ap, ◌∙◌, ◌⊎◌, inl, inr, Bool, true, false, ◌||◌,
  Option, none, some, List, [], ◌∷◌, arith, ltb, ◌==◌, ◌!=◌, if◌then◌else◌, Bool-cases, All,
}
use fake_chroot_ng.Loader.{
  Host, Phdr, Scan, refused, passed, load_interp, load_format, page_down, page_end, pt_load,
  pt_interp, interp_size, byte_at, read_interp, settle, widen, take_load, scan_phdr, scan_phdrs,
  misplaced,
}
use fake_chroot_ng.Loader.Rounds.{
  page_down-below, page_end-some, Holds, Holds-then, Holds-map, IsWords, lower, lower-below,
  higher-above, either,
}

-- A segment inside a span: its file part is in its memory part, and its pages are in the span.
unfoldable pub InSpan : ℕ → ℕ → Phdr → Type 0
InSpan lo hi ph = (ph.p_filesz ≤ ph.p_memsz) × (lo ≤ ph.p_vaddr) × (ph.p_vaddr + ph.p_memsz ≤ hi)

-- A header that is one of no segment, or of one inside the span.
unfoldable pub Contained : ℕ → ℕ → Phdr → Type 0
unfolding InSpan
Contained lo hi ph = ((ph.p_type == pt_load) ≡ false) ⊎ InSpan lo hi ph

-- An interpreter is what the file gave for a length that fits the buffer, and its last byte of that
-- length is 0.
unfoldable pub IsInterp : Host → Option (List ℕ) → Type 0
IsInterp h none = Unit
IsInterp h (some path) =
    (n : ℕ) × (off : ℕ) × (h.read_exact n off ≡ some path)
    × (2 ≤ n)
    × (n ≤ interp_size)
    × (byte_at path (n - 1) ≡ 0)

module _ (h : Host) (pos : 0 < h.page) (small : h.page ≤ 2 ^ 64) where
  -- The lower end: as it was at the start, or that of a page.
  unfoldable pub Bottom : Scan → Type 0
  Bottom s = ((s.nload ≡ 0) × (s.lo ≡ 2 ^ 64 - 1)) ⊎ ((s.lo % h.page ≡ 0) × (s.lo ≤ s.hi))

  -- What the loop keeps.
  unfoldable pub Kept : Scan → Type 0
  Kept s = (s.hi < 2 ^ 64) × (s.hi % h.page ≡ 0) × Bottom s × IsInterp h s.interp

  -- What a round does to the span.
  pub Grown : Scan → Scan → Type 0
  Grown s t = (t.lo ≤ s.lo) × (s.hi ≤ t.hi)

  -- The span with a segment.
  module _ (ph : Phdr) (s : Scan) (w : IsWords ph) (k : Kept s) (end : ℕ) where
    start : ℕ
    start = page_down h.page ph.p_vaddr

    widened : Scan
    widened = record s {
      lo = if ltb start s.lo then start else s.lo;
      hi = if ltb s.hi end then end else s.hi;
      nload = s.nload + 1;
    }

    widened-Bottom : ph.p_vaddr + ph.p_memsz ≤ end → Bottom widened
    unfolding Bottom Kept widened start
    widened-Bottom above =
        let (below, near, even) = page_down-below h.page ph.p_vaddr pos in
        inr (
          elim (lower start s.lo) [
            | inl e ↦ ap (λ z. z % h.page) e ∙ even
            | inr (e, le) ↦ elim k.2 [
              | inl (z, top) ↦ ap (λ z. z % h.page) (e ∙ omega (arith, top, le, below, w.0)) ∙ even
              | inr (whole, b) ↦ ap (λ z. z % h.page) e ∙ whole
            ]
          ],
          omega (arith, (lower-below start s.lo).0, below, above, (higher-above s.hi end).0),
        )

    widened-Kept :
        ph.p_filesz ≤ ph.p_memsz
        → (ph.p_vaddr + ph.p_memsz ≤ end) × (end < 2 ^ 64) × (end % h.page ≡ 0)
        → Kept widened × Grown s widened × InSpan widened.lo widened.hi ph
    unfolding Kept Grown InSpan widened start Bottom
    widened-Kept f (above, low, even) =
        let (below, near, down) = page_down-below h.page ph.p_vaddr pos in
        (
          (
            either (λ z. z < 2 ^ 64) (ltb s.hi end) end s.hi low k.0,
            either (λ z. z % h.page ≡ 0) (ltb s.hi end) end s.hi even k.1,
            widened-Bottom above,
            k.3,
          ),
          ((lower-below start s.lo).1, (higher-above s.hi end).1),
          (
            f,
            omega (arith, (lower-below start s.lo).0, below),
            omega (arith, above, (higher-above s.hi end).0),
          ),
        )

  -- What a round of one header keeps and does.
  Round : Phdr → Scan → Scan → Type 0
  Round ph s t = Kept t × Grown s t × Contained t.lo t.hi ph

  widen-Kept :
      (ph : Phdr) (s : Scan)
      → IsWords ph
      → ph.p_filesz ≤ ph.p_memsz
      → Kept s
      → Holds (λ t. Kept t × Grown s t × InSpan t.lo t.hi ph) (widen h ph s)
  unfolding widen Holds widened start
  widen-Kept ph s w f k = by_end (page_end h.page ph.p_vaddr ph.p_memsz) refl
    where
      by_end :
          (o : Option ℕ)
          → page_end h.page ph.p_vaddr ph.p_memsz ≡ o
          → Holds
              (λ t. Kept t × Grown s t × InSpan t.lo t.hi ph)
              (elim o [ none ↦ refused load_format | some end ↦ passed (widened ph s w k end) ])
      by_end none e = tt
      by_end (some end) e =
          widened-Kept ph s w k end f
            (page_end-some h.page ph.p_vaddr ph.p_memsz end pos small w.0 w.1 e)

  settle-Kept :
      (ph : Phdr) (s : Scan)
      → Kept s
      → Holds (λ t. Kept t × (t.lo ≡ s.lo) × (t.hi ≡ s.hi)) (settle h ph s)
  unfolding settle Holds Kept Bottom
  settle-Kept ph s k = elim (Bool-cases (misplaced h ph)) [
    | inr e ↦ rw e (k, refl, refl)
    | inl e ↦ elim (Bool-cases (s.file_only || h.execmem_denied)) [
      | inl b ↦ rw (e, b) tt
      | inr b ↦ rw (e, b) (k, refl, refl)
    ]
  ]

  -- The same span from a scan with other switches.
  take_load-Round :
      (ph : Phdr) (s : Scan) → IsWords ph → Kept s → Holds (Round ph s) (take_load h ph s)
  unfolding take_load Round Contained
  take_load-Round ph s w k = elim (Bool-cases (ltb ph.p_memsz ph.p_filesz)) [
    | inl e ↦ rw e (unfold Holds in tt)
    | inr e ↦ rw e (
        Holds-then (λ t. Kept t × (t.lo ≡ s.lo) × (t.hi ≡ s.hi)) (Round ph s) (settle h ph s)
          (widen h ph) (settle-Kept ph s k)
          (λ t g.
            Holds-map (λ u. Kept u × Grown t u × InSpan u.lo u.hi ph) (Round ph s) (widen h ph t)
              (λ u r. (r.0, grown t u g r.1, inr r.2)) (widen-Kept ph t w (ground (arith, e)) g.0)))
  ]
    where
      grown : (t u : Scan) → Kept t × (t.lo ≡ s.lo) × (t.hi ≡ s.hi) → Grown t u → Grown s u
      grown t u g r = unfold Grown in (omega (arith, g.1, r.0), omega (arith, g.2, r.1))

  interp-Round :
      (ph : Phdr) (s : Scan)
      → (ph.p_type == pt_load) ≡ false
      → Kept s
      → Holds (Round ph s) (read_interp h ph s)
  unfolding read_interp Round Contained Holds Grown Kept IsInterp Bottom
  interp-Round ph s l k = elim (Bool-cases (ltb ph.p_filesz 2 || ltb interp_size ph.p_filesz)) [
    | inl e ↦ rw e tt
    | inr e ↦ rw e (read (h.read_exact ph.p_filesz ph.p_offset) refl e)
  ]
    where
      ended :
          (path : List ℕ) (b : Bool)
          → h.read_exact ph.p_filesz ph.p_offset ≡ some path
          → (byte_at path (ph.p_filesz - 1) != 0) ≡ b
          → (ltb ph.p_filesz 2 || ltb interp_size ph.p_filesz) ≡ false
          → Holds
              (Round ph s)
              (if b then refused load_format else passed (record s { interp = some path }))
      ended path true x d e = tt
      ended path false x d e = (
        (
          k.0,
          k.1,
          k.2,
          (ph.p_filesz, ph.p_offset, x, ground (arith, e), ground (arith, e), ground (arith, d)),
        ),
        (omega arith, omega arith),
        inl l,
      )

      read :
          (o : Option (List ℕ))
          → h.read_exact ph.p_filesz ph.p_offset ≡ o
          → (ltb ph.p_filesz 2 || ltb interp_size ph.p_filesz) ≡ false
          → Holds (Round ph s) (elim o [
            | none ↦ refused load_interp
            | some path ↦
                if byte_at path (ph.p_filesz - 1) != 0
                then refused load_format
                else passed (record s { interp = some path })
          ])
      read none x e = tt
      read (some path) x e = ended path (byte_at path (ph.p_filesz - 1) != 0) x refl e

  scan_phdr-Round :
      (ph : Phdr) (s : Scan) → IsWords ph → Kept s → Holds (Round ph s) (scan_phdr h ph s)
  unfolding scan_phdr
  scan_phdr-Round ph s w k = elim (Bool-cases (ph.p_type == pt_interp)) [
    | inl e ↦ rw e (interp-Round ph s (ground (arith, e)) k)
    | inr e ↦ elim (Bool-cases (ph.p_type == pt_load)) [
      | inl l ↦ rw (e, l) (take_load-Round ph s w k)
      | inr l ↦
          rw (e, l) (unfold Holds Round Grown Contained in (k, (omega arith, omega arith), inl l))
    ]
  ]

  wider : (s t : Scan) (ph : Phdr) → Grown s t → Contained s.lo s.hi ph → Contained t.lo t.hi ph
  unfolding Grown Contained InSpan
  wider s t ph g (inl e) = inl e
  wider s t ph g (inr (f, a, b)) = inr (f, omega (arith, a, g.0), omega (arith, b, g.1))

  unfoldable pub Rounds : List Phdr → Scan → Scan → Type 0
  Rounds phs s t = Kept t × Grown s t × All (Contained t.lo t.hi) phs

  pub scan_phdrs-Rounds :
      (phs : List Phdr) (s : Scan)
      → All IsWords phs
      → Kept s
      → Holds (Rounds phs s) (scan_phdrs h phs s)
  unfolding scan_phdrs Rounds
  scan_phdrs-Rounds [] s w k = unfold Holds Grown in (k, (omega arith, omega arith), tt)
  scan_phdrs-Rounds (ph ∷ phs) s w k =
      Holds-then (Round ph s) (Rounds (ph ∷ phs) s) (scan_phdr h ph s) (scan_phdrs h phs)
        (scan_phdr-Round ph s w.0 k)
        (λ t r.
          Holds-map (Rounds phs t) (Rounds (ph ∷ phs) s) (scan_phdrs h phs t) (λ u q. both t u r q)
            (scan_phdrs-Rounds phs t w.1 (kept t r)))
    where
      kept : (t : Scan) → Round ph s t → Kept t
      kept t r = unfold Round in r.0

      both : (t u : Scan) → Round ph s t → Rounds phs t u → Rounds (ph ∷ phs) s u
      both t u r q = (
        q.0,
        unfold Round Grown in (omega (arith, r.1.0, q.1.0), omega (arith, r.1.1, q.1.1)),
        (wider t u ph q.1 (unfold Round in r.2), q.2),
      )
