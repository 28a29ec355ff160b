-- ===== src/Loader/Sound.antt =====
-- src/loader/elf.c: the plans that the header pass lets through, and what `map_anon` reads for them.
use native.Mathlib.Nat.{zero-mod}
use fake_chroot_ng.Prelude.{
  ℕ, ◌+◌, ◌-◌, ◌*◌, ◌%◌, ◌^◌, ◌≤◌, ◌<◌, ◌≡◌, refl, sym, ap, length, ◌∙◌, ◌⊎◌, inl, inr, Bool, true,
  false, not, ◌&&◌, ◌||◌, Option, none, some, List, [], ◌∷◌, arith, ltb, ◌==◌, ◌!=◌, if◌then◌else◌,
  Bool-cases, Option-cases, All,
}
use fake_chroot_ng.Loader.{
  Host, Ehdr, Phdr, Plan, Scan, refused, passed, load_io, load_format, pt_load, et_exec, tramp_pool,
  interp_size, byte_at, scan_phdrs, start_scan, finish_plan, elf_plan_fd, read_table, known_format,
  ehdr_of, ehdr_size, max_phdr, et_dyn, execable, phdrs_of, phdr_size, elf_read_headers,
}
use fake_chroot_ng.Loader.Rounds.{Holds, Holds-passed, Holds-then, phdrs_of-IsWords}
use fake_chroot_ng.Loader.Span.{
  InSpan, Contained, IsInterp, Kept, Bottom, Rounds, scan_phdrs-Rounds,
}
use fake_chroot_ng.Loader.Protect.{Copy, copies, bias_of}

-- The pool for the trampolines, where calls are rewritten.
abbrev pub pool_extra : Host → ℕ
pool_extra h = if h.rewrite then tramp_pool else 0

-- A plan that can be mapped: whole pages, room for the pool on top, every segment inside, an
-- interpreter with its terminator, and nothing of the monitor under an image that is not moved.
unfoldable pub IsSound : Host → Plan → Type 0
unfolding Contained IsInterp
IsSound h plan =
    (plan.lo % h.page ≡ 0)
    × (plan.hi % h.page ≡ 0)
    × (plan.lo ≤ plan.hi)
    × (plan.hi < 2 ^ 64)
    × (plan.hi - plan.lo + tramp_pool < 2 ^ 64)
    × All (Contained plan.lo plan.hi) plan.ph
    × IsInterp h plan.interp
    × ((plan.is_dyn ≡ true) ⊎ (h.hits_monitor plan.lo (plan.hi - plan.lo + pool_extra h) ≡ false))

module _ (h : Host) (pos : 0 < h.page) (small : h.page ≤ 2 ^ 64) where
  finish_plan-IsSound :
      (eh : Ehdr) (phs : List Phdr) (s : Scan)
      → (eh.e_type == et_dyn || eh.e_type == et_exec) ≡ true
      → Rounds h pos small phs (start_scan h) s
      → Holds (IsSound h) (finish_plan h eh phs s)
  unfolding finish_plan Holds IsSound Rounds Kept Bottom
  finish_plan-IsSound eh phs s known r = elim (Bool-cases (s.nload == 0)) [
    | inl e ↦ rw e tt
    | inr e ↦ elim (Bool-cases (ltb (2 ^ 64 - 1 - tramp_pool) (s.hi - s.lo))) [
      | inl b ↦ rw (e, b) tt
      | inr b ↦
          elim (Bool-cases
            (eh.e_type == et_exec && h.hits_monitor s.lo (s.hi - s.lo + pool_extra h))) [
              | inl c ↦ rw (e, b, c) tt
              | inr c ↦
                  rw (e, b, c)
                    (elim r.0.2 [
                      | inl (none_yet, top) ↦ absurd (ground (arith, e, none_yet))
                      | inr (whole, order) ↦
                          (whole, r.0.1, order, r.0.0, ground (arith, b), r.2, r.0.3, clear c)
                    ])
            ]
    ]
  ]
    where
      clear :
          (eh.e_type == et_exec && h.hits_monitor s.lo (s.hi - s.lo + pool_extra h)) ≡ false
          → ((eh.e_type == et_dyn) ≡ true)
            ⊎ (h.hits_monitor s.lo (s.hi - s.lo + pool_extra h) ≡ false)
      clear c = elim (Bool-cases (eh.e_type == et_dyn)) [
        | inl e ↦ inl e
        | inr e ↦ elim (Bool-cases (h.hits_monitor s.lo (s.hi - s.lo + pool_extra h))) [
          | inl x ↦ absurd (ground (arith, known, e, c, x))
          | inr x ↦ inr x
        ]
      ]

  start-Kept : Kept h pos small (start_scan h)
  unfolding Kept Bottom IsInterp
  start-Kept = (omega arith, zero-mod h.page, inl (refl, refl), tt)

  and_last : (a b c d e f g x : Bool) → (a && b && c && d && e && f && g && x) ≡ true → x ≡ true
  and_last true true true true true true true x k = k
  and_last false b c d e f g x k = absurd (ground (arith, k))
  and_last true false c d e f g x k = absurd (ground (arith, k))
  and_last true true false d e f g x k = absurd (ground (arith, k))
  and_last true true true false e f g x k = absurd (ground (arith, k))
  and_last true true true true false f g x k = absurd (ground (arith, k))
  and_last true true true true true false g x k = absurd (ground (arith, k))
  and_last true true true true true true false x k = absurd (ground (arith, k))

  known_type :
      (l : List ℕ)
      → known_format (ehdr_of l) ≡ true
      → ((ehdr_of l).e_type == et_dyn || (ehdr_of l).e_type == et_exec) ≡ true
  known_type l =
      and_last (byte_at l 0 == 0x7f) (byte_at l 1 == 0x45) (byte_at l 2 == 0x4c)
        (byte_at l 3 == 0x46) (byte_at l 4 == 2) (byte_at l 5 == 1) ((ehdr_of l).e_machine == 183)
        ((ehdr_of l).e_type == et_dyn || (ehdr_of l).e_type == et_exec)

  -- The pass over the table that was read.
  table-Holds :
      (eh : Ehdr) (table : List ℕ)
      → (eh.e_type == et_dyn || eh.e_type == et_exec) ≡ true
      → Holds (IsSound h) (elim (scan_phdrs h (phdrs_of eh.e_phnum table 0) (start_scan h)) [
        | refused r ↦ refused r
        | passed s ↦ finish_plan h eh (phdrs_of eh.e_phnum table 0) s
      ])
  table-Holds eh table known =
      let phs = phdrs_of eh.e_phnum table 0 in
      Holds-then (Rounds h pos small phs (start_scan h)) (IsSound h)
        (scan_phdrs h phs (start_scan h)) (finish_plan h eh phs)
        (scan_phdrs-Rounds h pos small phs (start_scan h) (phdrs_of-IsWords eh.e_phnum table 0)
          start-Kept)
        (λ s r. finish_plan-IsSound eh phs s known r)

  read_table-Holds :
      (eh : Ehdr)
      → (eh.e_type == et_dyn || eh.e_type == et_exec) ≡ true
      → Holds (IsSound h) (read_table h eh)
  unfolding read_table Holds
  read_table-Holds eh known =
      elim (Bool-cases
        (eh.e_phnum == 0 || ltb max_phdr eh.e_phnum || eh.e_phentsize != phdr_size)) [
          | inl b ↦ rw b tt
          | inr b ↦ rw b (elim (Option-cases (h.read_exact (eh.e_phnum * phdr_size) eh.e_phoff)) [
            | inl e ↦ rw e tt
            | inr (table, e) ↦ rw e (table-Holds eh table known)
          ])
        ]

  elf_read_headers-Holds : Holds (IsSound h) (elf_read_headers h)
  unfolding elf_read_headers Holds
  elf_read_headers-Holds = by_first (h.read_exact ehdr_size 0)
    where
      by_format :
          (first : List ℕ) (b : Bool)
          → known_format (ehdr_of first) ≡ b
          → Holds (IsSound h) (if not b then refused load_format else read_table h (ehdr_of first))
      by_format first true k = read_table-Holds (ehdr_of first) (known_type first k)
      by_format first false k = tt

      by_first :
          (o : Option (List ℕ))
          → Holds (IsSound h) (elim o [
            | none ↦ refused load_io
            | some first ↦
                if not (known_format (ehdr_of first))
                then refused load_format
                else read_table h (ehdr_of first)
          ])
      by_first none = tt
      by_first (some first) = by_format first (known_format (ehdr_of first)) refl

  -- What the pass keeps, whatever the reads give.
  pub planned-IsSound :
      (mode : Option ℕ) (plan : Plan) → elf_plan_fd h mode ≡ passed plan → IsSound h plan
  unfolding elf_plan_fd
  planned-IsSound mode plan e = elim (Bool-cases (execable mode)) [
    | inl x ↦
        Holds-passed (IsSound h) (elf_read_headers h) plan elf_read_headers-Holds
          (sym (rw x refl) ∙ e)
    | inr x ↦ absurd (ground (arith, x, e))
  ]

-- A read gives as many bytes as were asked for.
abbrev pub IsExact : Host → Type 0
IsExact h = (n off : ℕ) (bs : List ℕ) → h.read_exact n off ≡ some bs → length bs ≡ n

-- A path of 2 to 256 bytes whose last is a NUL, as it stands somewhere in the file.
abbrev pub IsTerminated : Host → Option (List ℕ) → Type 0
IsTerminated h none = Unit
IsTerminated h (some path) =
    (2 ≤ length path)
    × (length path ≤ interp_size)
    × (byte_at path (length path - 1) ≡ 0)
    × (off : ℕ) × (h.read_exact (length path) off ≡ some path)

IsInterp-IsTerminated :
    (h : Host) (o : Option (List ℕ)) → IsExact h → IsInterp h o → IsTerminated h o
unfolding IsInterp
IsInterp-IsTerminated h none exact i = tt
IsInterp-IsTerminated h (some path) exact (n, off, x, two, fits, nul) =
    let e = exact n off path x in
    (
      omega arith,
      omega arith,
      ap (λ k. byte_at path (k - 1)) e ∙ nul,
      off,
      ap (λ k. h.read_exact k off) e ∙ x,
    )

-- Whatever a file holds, a plan that the header pass lets through can be mapped: the span is whole
-- pages inside the address space with room for the trampolines on top, every PT_LOAD has its file
-- part in its memory part and lies in the span with no sum wrapping, an interpreter's path is 2 to
-- 256 bytes of the file of which the last is a NUL, and an image that is not moved does not touch
-- the monitor's own. The page size is from 1 to 2^64, and a read gives as many bytes as it was
-- asked for.
pub elf_plan_fd-IsSound :
    (h : Host) (mode : Option ℕ) (plan : Plan)
    → 0 < h.page
    → h.page ≤ 2 ^ 64
    → IsExact h
    → elf_plan_fd h mode ≡ passed plan
    → IsSound h plan × IsTerminated h plan.interp
unfolding IsSound
elf_plan_fd-IsSound h mode plan pos small exact e =
    let s = planned-IsSound h pos small mode plan e in
    (s, IsInterp-IsTerminated h plan.interp exact s.6)

-- A read stays inside a range.
unfoldable pub Inside : ℕ → ℕ → Copy → Type 0
Inside from to c = (from ≤ c.dest) × (c.dest + c.len ≤ to)

module _ (is_dyn : Bool) (seg lo hi : ℕ) (room : seg + (hi - lo) ≤ 2 ^ 64) (order : lo ≤ hi)
    (top : hi < 2 ^ 64) where
  placed :
      (v f m : ℕ)
      → (is_dyn ≡ true) ⊎ (seg ≡ lo)
      → (0 < f) × (f ≤ m) × (lo ≤ v) × (v + m ≤ hi)
      → (bias_of is_dyn seg lo + v) % 2 ^ 64 ≡ seg + (v - lo)
  unfolding bias_of
  placed v f m (inl e) s = rw e (omega (arith, s, room, order, top))
  placed v f m (inr e) s = elim (Bool-cases is_dyn) [
    | inl b ↦ rw b (omega (arith, s, room, order, top))
    | inr b ↦ rw b (omega (arith, s, e, room, order, top))
  ]

  copies-Inside :
      (phs : List Phdr)
      → (is_dyn ≡ true) ⊎ (seg ≡ lo)
      → All (Contained lo hi) phs
      → All (Inside seg (seg + (hi - lo))) (copies (bias_of is_dyn seg lo) phs)
  unfolding copies Contained InSpan Inside
  copies-Inside [] d a = tt
  copies-Inside (ph ∷ phs) d a = elim (Bool-cases (ph.p_type != pt_load || ph.p_filesz == 0)) [
    | inl e ↦ rw e (copies-Inside phs d a.1)
    | inr e ↦ rw e (elim a.0 [
      | inl n ↦ absurd (ground (arith, e, n))
      | inr s ↦ (
        inside e s (placed ph.p_vaddr ph.p_filesz ph.p_memsz d (ground (arith, e), s.0, s.1, s.2)),
        copies-Inside phs d a.1,
      )
    ])
  ]
    where
      inside :
          (ph.p_type != pt_load || ph.p_filesz == 0) ≡ false
          → (ph.p_filesz ≤ ph.p_memsz) × (lo ≤ ph.p_vaddr) × (ph.p_vaddr + ph.p_memsz ≤ hi)
          → (bias_of is_dyn seg lo + ph.p_vaddr) % 2 ^ 64 ≡ seg + (ph.p_vaddr - lo)
          → (seg ≤ (bias_of is_dyn seg lo + ph.p_vaddr) % 2 ^ 64)
            × ((bias_of is_dyn seg lo + ph.p_vaddr) % 2 ^ 64 + ph.p_filesz ≤ seg + (hi - lo))
      inside e s p = (omega (arith, p), omega (arith, p, s))

-- Every read of the file for a plan that passed stays inside the span that was reserved, wherever
-- the kernel put it: at the headers' own address where the image is not moved, and anywhere below
-- the top of the address space where it is. The page size is from 1 to 2^64.
pub elf_plan_fd-Inside :
    (h : Host) (mode : Option ℕ) (plan : Plan) (seg : ℕ)
    → 0 < h.page
    → h.page ≤ 2 ^ 64
    → elf_plan_fd h mode ≡ passed plan
    → (plan.is_dyn ≡ true) ⊎ (seg ≡ plan.lo)
    → seg + (plan.hi - plan.lo) ≤ 2 ^ 64
    → All
        (Inside seg (seg + (plan.hi - plan.lo)))
        (copies (bias_of plan.is_dyn seg plan.lo) plan.ph)
unfolding IsSound
elf_plan_fd-Inside h mode plan seg pos small e d room =
    let s = planned-IsSound h pos small mode plan e in
    copies-Inside plan.is_dyn seg plan.lo plan.hi room s.2 s.3 plan.ph d s.5
