-- ===== src/Loader/Protect.antt =====
-- src/loader/elf.c, `map_anon`: where the segments are read to, and the final protections.
use fake_chroot_ng.Prelude.{
  ℕ, ◌+◌, ◌-◌, ◌%◌, ◌^◌, Bool, true, false, ◌&&◌, ◌||◌, List, [], ◌∷◌, ltb, leb, ◌==◌, ◌!=◌,
  if◌then◌else◌, bit_and, bit_or,
}
use fake_chroot_ng.Loader.{Phdr, page_down, page_up, pt_load}

-- `prot_of`
abbrev pub prot_of : ℕ → ℕ
prot_of flags =
    let read = if bit_and flags 4 != 0 then bit_or 0 1 else 0 in
    let write = if bit_and flags 2 != 0 then bit_or read 2 else read in
    if bit_and flags 1 != 0 then bit_or write 4 else write

-- The difference between the addresses and those of the headers; `seg` is what the reservation is at.
unfoldable pub bias_of : Bool → ℕ → ℕ → ℕ
bias_of is_dyn seg lo = if is_dyn then (seg + 2 ^ 64 - lo) % 2 ^ 64 else 0

-- A read of the file: the address, the length, and the offset.
pub record Copy : Type 0 where
  pub dest : ℕ
  pub len : ℕ
  pub offset : ℕ

-- The reads of the first loop, at a bias.
unfoldable pub copies : ℕ → List Phdr → List Copy
copies bias [] = []
copies bias (ph ∷ phs) =
    let rest = copies bias phs in
    if ph.p_type != pt_load || ph.p_filesz == 0
    then rest
    else record { dest = (bias + ph.p_vaddr) % 2 ^ 64; len = ph.p_filesz; offset = ph.p_offset }
      ∷ rest

-- The pages of a PT_LOAD, and its protection.
pub record Pages : Type 0 where
  pub start : ℕ
  pub stop : ℕ
  pub prot : ℕ

unfoldable pub loads : ℕ → ℕ → List Phdr → List Pages
loads page bias [] = []
loads page bias (ph ∷ phs) =
    let rest = loads page bias phs in
    if ph.p_type != pt_load
    then rest
    else record {
      start = page_down page ((bias + ph.p_vaddr) % 2 ^ 64);
      stop = page_up page ((bias + ph.p_vaddr + ph.p_memsz) % 2 ^ 64);
      prot = prot_of ph.p_flags;
    }
      ∷ rest

-- An edge into the sorted array `edge`, unless it is there.
unfoldable pub add_edge : ℕ → List ℕ → List ℕ
add_edge e [] = e ∷ []
add_edge e (x ∷ edge) =
    let rest = add_edge e edge in
    if ltb x e then x ∷ rest else if x == e then x ∷ edge else e ∷ x ∷ edge

unfoldable pub add_edges : List Pages → List ℕ → List ℕ
unfolding add_edge
add_edges [] edge = edge
add_edges (p ∷ ps) edge = add_edges ps (add_edge p.stop (add_edge p.start edge))

-- The union of the protections of what covers a run, and whether anything does.
abbrev pub cover : (Pages → Bool) → List Pages → ℕ × Bool → ℕ × Bool
cover t [] acc = acc
cover t (p ∷ ps) acc = cover t ps (if t p then (bit_or acc.0 p.prot, true) else acc)

abbrev pub spans : ℕ → ℕ → Pages → Bool
spans ps pe p = leb p.start ps && leb pe p.stop

-- `mprotect` on a run, in the protections of all addresses.
abbrev pub mprotect : ℕ → ℕ → ℕ → (ℕ → ℕ) → ℕ → ℕ
mprotect ps pe prot m a = if leb ps a && ltb a pe then prot else m a

abbrev pub protect_run : List Pages → ℕ → ℕ → (ℕ → ℕ) → ℕ → ℕ
protect_run ls ps pe m =
    let (prot, covered) = cover (spans ps pe) ls (0, false) in
    if covered then mprotect ps pe prot m else m

-- The loop over the runs from one edge to the next, where every mprotect succeeds.
unfoldable pub protect_runs : List Pages → List ℕ → (ℕ → ℕ) → ℕ → ℕ
protect_runs ls [] m = m
protect_runs ls (x ∷ []) m = m
protect_runs ls (x ∷ y ∷ edge) m = protect_runs ls (y ∷ edge) (protect_run ls x y m)

unfoldable pub protect : List Pages → (ℕ → ℕ) → ℕ → ℕ
unfolding add_edges protect_runs
protect ls m = protect_runs ls (add_edges ls []) m
