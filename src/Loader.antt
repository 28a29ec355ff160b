-- ===== src/Loader.antt =====
-- src/loader/elf.c: the header pass of the program loader, with the page arithmetic of
-- include/cng/loader.h and the structures of include/cng/elf.h.
pub mod Rounds
pub mod Span
pub mod Sound
pub mod Protect
pub mod Edges
pub mod Runs
mod Tests
use fake_chroot_ng.Prelude.{
  ℕ, zero, suc, ◌+◌, ◌-◌, ◌*◌, ◌/◌, ◌%◌, ◌^◌, Bool, true, false, not, ◌&&◌, ◌||◌, Option, none,
  some, List, [], ◌∷◌, ltb, leb, ◌==◌, ◌!=◌, if◌then◌else◌, get_elem?, bit_and, bit_xor,
}

-- The fields of `Elf64_Ehdr` and `Elf64_Phdr` that the loader reads.
pub record Ehdr : Type 0 where
  pub e_ident : List ℕ
  pub e_type : ℕ
  pub e_machine : ℕ
  pub e_entry : ℕ
  pub e_phoff : ℕ
  pub e_phentsize : ℕ
  pub e_phnum : ℕ

pub record Phdr : Type 0 where
  pub p_type : ℕ
  pub p_flags : ℕ
  pub p_offset : ℕ
  pub p_vaddr : ℕ
  pub p_filesz : ℕ
  pub p_memsz : ℕ

-- The load results but CNG_LOAD_OK that the header pass gives.
pub data Refusal : Type 0 where
  load_format : Refusal
  load_io : Refusal
  load_too_big : Refusal
  load_access : Refusal
  load_clobber : Refusal
  load_interp : Refusal
  load_invalid : Refusal

pub data Verdict {ℓ} (A : Type ℓ) : Type ℓ where
  refused : Refusal → Verdict A
  passed : A → Verdict A

-- What the loader asks of the rest: the page size, a power of 2; the bytes that `read_exact` gives
-- for a length and an offset where it gives them all; whether a range hits what is the monitor's
-- (`cng_hits_monitor`); cng_g_rewrite; cng_g_loader_file; and whether the probe of
-- `cng_loader_check_execmem` finds that execmem is denied.
pub record Host : Type 0 where
  pub page : ℕ
  pub read_exact : ℕ → ℕ → Option (List ℕ)
  pub hits_monitor : ℕ → ℕ → Bool
  pub rewrite : Bool
  pub loader_file : Bool
  pub execmem_denied : Bool

-- The bytes of a little-endian field.
abbrev pub byte_at : List ℕ → ℕ → ℕ
byte_at l i = elim (get_elem? l i) [ none ↦ 0 | some b ↦ b % 2 ^ 8 ]

abbrev pub field : ℕ → List ℕ → ℕ → ℕ
field zero l i = 0
field (suc n) l i = byte_at l i + 2 ^ 8 * field n l (i + 1)

abbrev pub ehdr_size : ℕ
ehdr_size = 64

abbrev pub phdr_size : ℕ
phdr_size = 56

abbrev pub ehdr_of : List ℕ → Ehdr
ehdr_of l = record {
  e_ident = byte_at l 0 ∷ byte_at l 1 ∷ byte_at l 2 ∷ byte_at l 3 ∷ byte_at l 4 ∷ byte_at l 5 ∷ [];
  e_type = field 2 l 16;
  e_machine = field 2 l 18;
  e_entry = field 8 l 24;
  e_phoff = field 8 l 32;
  e_phentsize = field 2 l 54;
  e_phnum = field 2 l 56;
}

abbrev pub phdr_of : List ℕ → ℕ → Phdr
phdr_of l i = record {
  p_type = field 4 l i;
  p_flags = field 4 l (i + 4);
  p_offset = field 8 l (i + 8);
  p_vaddr = field 8 l (i + 16);
  p_filesz = field 8 l (i + 32);
  p_memsz = field 8 l (i + 40);
}

-- The headers of the table, `n` from the byte `i` on.
abbrev pub phdrs_of : ℕ → List ℕ → ℕ → List Phdr
phdrs_of zero l i = []
phdrs_of (suc n) l i = phdr_of l i ∷ phdrs_of n l (i + phdr_size)

-- `cng_page_down`, `cng_page_up` and `cng_page_end`; the mask of the page size clears what is left
-- over of a multiple of it.
abbrev pub page_down : ℕ → ℕ → ℕ
page_down page a = a / page * page

abbrev pub page_up : ℕ → ℕ → ℕ
page_up page a = (a + page - 1) % 2 ^ 64 / page * page

abbrev pub page_end : ℕ → ℕ → ℕ → Option ℕ
page_end page a n =
    let e = (a + n) % 2 ^ 64 in
    if ltb e a || ltb (2 ^ 64 - 1 - (page - 1)) e then none else some (page_up page e)

abbrev pub pt_load : ℕ
pt_load = 1

abbrev pub pt_interp : ℕ
pt_interp = 3

abbrev pub et_exec : ℕ
et_exec = 2

abbrev pub et_dyn : ℕ
et_dyn = 3

abbrev pub em_aarch64 : ℕ
em_aarch64 = 183

abbrev pub max_phdr : ℕ
max_phdr = 64

abbrev pub tramp_pool : ℕ
tramp_pool = 0x80000

-- The size of the buffer `interp`.
abbrev pub interp_size : ℕ
interp_size = 256

-- The local variables of the loop, with what it writes to the plan and to `interp`.
pub record Scan : Type 0 where
  pub lo : ℕ
  pub hi : ℕ
  pub nload : ℕ
  pub file_ok : Bool
  pub file_only : Bool
  pub interp : Option (List ℕ)

-- The tests on the first header.
abbrev pub known_format : Ehdr → Bool
known_format eh = elim eh.e_ident [
  | m0 ∷ m1 ∷ m2 ∷ m3 ∷ class ∷ order ∷ [] ↦
      m0 == 0x7f
      && m1 == 0x45
      && m2 == 0x4c
      && m3 == 0x46
      && class == 2
      && order == 1
      && eh.e_machine == em_aarch64
      && (eh.e_type == et_dyn || eh.e_type == et_exec)
  | _ ↦ false
]

-- PT_INTERP
unfoldable pub read_interp : Host → Phdr → Scan → Verdict Scan
read_interp h ph s =
    if ltb ph.p_filesz 2 || ltb interp_size ph.p_filesz
    then refused load_too_big
    else elim (h.read_exact ph.p_filesz ph.p_offset) [
      | none ↦ refused load_interp
      | some path ↦
          if byte_at path (ph.p_filesz - 1) != 0
          then refused load_format
          else passed (record s { interp = some path })
    ]

-- The file part that cannot be mapped from the file: the strategy is settled here.
abbrev pub misplaced : Host → Phdr → Bool
misplaced h ph = ph.p_filesz != 0 && bit_and (bit_xor ph.p_offset ph.p_vaddr) (h.page - 1) != 0

unfoldable pub settle : Host → Phdr → Scan → Verdict Scan
settle h ph s =
    if not (misplaced h ph)
    then passed s
    else if s.file_only || h.execmem_denied
    then refused load_invalid
    else passed (record s { file_ok = false })

-- The rest of the round of a PT_LOAD: the span.
unfoldable pub widen : Host → Phdr → Scan → Verdict Scan
widen h ph s = elim (page_end h.page ph.p_vaddr ph.p_memsz) [
  | none ↦ refused load_format
  | some e ↦
      let start = page_down h.page ph.p_vaddr in
      passed (record s {
        lo = if ltb start s.lo then start else s.lo;
        hi = if ltb s.hi e then e else s.hi;
        nload = s.nload + 1;
      })
]

unfoldable pub take_load : Host → Phdr → Scan → Verdict Scan
unfolding settle widen
take_load h ph s =
    if ltb ph.p_memsz ph.p_filesz
    then refused load_invalid
    else elim (settle h ph s) [ refused r ↦ refused r | passed t ↦ widen h ph t ]

-- One round of the loop.
unfoldable pub scan_phdr : Host → Phdr → Scan → Verdict Scan
unfolding read_interp take_load
scan_phdr h ph s =
    if ph.p_type == pt_interp
    then read_interp h ph s
    else if ph.p_type == pt_load
    then take_load h ph s
    else passed s

unfoldable pub scan_phdrs : Host → List Phdr → Scan → Verdict Scan
unfolding scan_phdr
scan_phdrs h [] s = passed s
scan_phdrs h (ph ∷ phs) s = elim (scan_phdr h ph s) [
  | refused r ↦ refused r
  | passed t ↦ scan_phdrs h phs t
]

pub record Plan : Type 0 where
  pub eh : Ehdr
  pub ph : List Phdr
  pub lo : ℕ
  pub hi : ℕ
  pub is_dyn : Bool
  pub file_ok : Bool
  pub interp : Option (List ℕ)

abbrev pub start_scan : Host → Scan
start_scan h = record {
  lo = 2 ^ 64 - 1;
  hi = 0;
  nload = 0;
  file_ok = true;
  file_only = h.loader_file;
  interp = none;
}

-- The tests behind the loop.
unfoldable pub finish_plan : Host → Ehdr → List Phdr → Scan → Verdict Plan
finish_plan h eh phs s =
    if s.nload == 0
    then refused load_format
    else if ltb (2 ^ 64 - 1 - tramp_pool) (s.hi - s.lo)
    then refused load_format
    else if eh.e_type == et_exec
        && h.hits_monitor s.lo (s.hi - s.lo + (if h.rewrite then tramp_pool else 0))
    then refused load_clobber
    else passed (record {
      eh = eh;
      ph = phs;
      lo = s.lo;
      hi = s.hi;
      is_dyn = eh.e_type == et_dyn;
      file_ok = s.file_ok;
      interp = s.interp;
    })

-- The pass over the table of headers.
unfoldable pub read_table : Host → Ehdr → Verdict Plan
unfolding scan_phdrs finish_plan
read_table h eh =
    if eh.e_phnum == 0 || ltb max_phdr eh.e_phnum || eh.e_phentsize != phdr_size
    then refused load_too_big
    else elim (h.read_exact (eh.e_phnum * phdr_size) eh.e_phoff) [
      | none ↦ refused load_io
      | some table ↦
          let phs = phdrs_of eh.e_phnum table 0 in
          elim (scan_phdrs h phs (start_scan h)) [
            | refused r ↦ refused r
            | passed s ↦ finish_plan h eh phs s
          ]
    ]

-- `elf_read_headers`
unfoldable pub elf_read_headers : Host → Verdict Plan
unfolding read_table
elf_read_headers h = elim (h.read_exact ehdr_size 0) [
  | none ↦ refused load_io
  | some first ↦
      if not (known_format (ehdr_of first))
      then refused load_format
      else read_table h (ehdr_of first)
]

-- `elf_check_execable`, on the mode that a stat gives, and `cng_elf_plan_fd`.
abbrev pub execable : Option ℕ → Bool
execable none = false
execable (some mode) = bit_and mode 0xf000 == 0x8000 && bit_and mode 0x49 != 0

unfoldable pub elf_plan_fd : Host → Option ℕ → Verdict Plan
unfolding elf_read_headers
elf_plan_fd h mode = if execable mode then elf_read_headers h else refused load_access
