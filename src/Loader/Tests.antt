-- ===== src/Loader/Tests.antt =====
-- The loader of src/loader/elf.c at a small object, and at two segments that share a page.
use mathlib.Core.Option.{some-injective}
use fake_chroot_ng.Prelude.{
  ℕ, ◌+◌, ◌-◌, ◌≡◌, refl, sym, ap, ◌∙◌, length, Option, none, Bool-cases, inr, inl, true, false,
  some, List, [], ◌∷◌, ◌==◌, if◌then◌else◌, arith, All,
}
use fake_chroot_ng.Loader.{Host, Plan, passed, elf_plan_fd, ehdr_of, phdrs_of}
use fake_chroot_ng.Loader.Protect.{Pages, copies, bias_of, protect}
use fake_chroot_ng.Loader.Runs.{asked, protect-asked}
use fake_chroot_ng.Loader.Sound.{
  IsSound, IsExact, IsTerminated, Inside, elf_plan_fd-IsSound, elf_plan_fd-Inside,
}

abbrev first : List ℕ
first =
    127 ∷ 69 ∷ 76 ∷ 70 ∷ 2 ∷ 1 ∷ 1 ∷ 0 ∷ 0 ∷ 0 ∷ 0 ∷ 0 ∷ 0 ∷ 0 ∷ 0 ∷ 0 ∷ 3 ∷ 0 ∷ 183 ∷ 0 ∷ 1 ∷ 0 ∷ 0
    ∷ 0 ∷ 0 ∷ 16 ∷ 0 ∷ 0 ∷ 0 ∷ 0 ∷ 0 ∷ 0 ∷ 64 ∷ 0 ∷ 0 ∷ 0 ∷ 0 ∷ 0 ∷ 0 ∷ 0 ∷ 0 ∷ 0 ∷ 0 ∷ 0 ∷ 0 ∷ 0
    ∷ 0 ∷ 0 ∷ 0 ∷ 0 ∷ 0 ∷ 0 ∷ 64 ∷ 0 ∷ 56 ∷ 0 ∷ 2 ∷ 0 ∷ 0 ∷ 0 ∷ 0 ∷ 0 ∷ 0 ∷ 0 ∷ []

abbrev table : List ℕ
table =
    1 ∷ 0 ∷ 0 ∷ 0 ∷ 5 ∷ 0 ∷ 0 ∷ 0 ∷ 64 ∷ 0 ∷ 0 ∷ 0 ∷ 0 ∷ 0 ∷ 0 ∷ 0 ∷ 64 ∷ 0 ∷ 1 ∷ 0 ∷ 0 ∷ 0 ∷ 0 ∷ 0
    ∷ 0 ∷ 0 ∷ 0 ∷ 0 ∷ 0 ∷ 0 ∷ 0 ∷ 0 ∷ 0 ∷ 3 ∷ 0 ∷ 0 ∷ 0 ∷ 0 ∷ 0 ∷ 0 ∷ 0 ∷ 21 ∷ 0 ∷ 0 ∷ 0 ∷ 0 ∷ 0 ∷ 0
    ∷ 0 ∷ 16 ∷ 0 ∷ 0 ∷ 0 ∷ 0 ∷ 0 ∷ 0 ∷ 3 ∷ 0 ∷ 0 ∷ 0 ∷ 4 ∷ 0 ∷ 0 ∷ 0 ∷ 0 ∷ 2 ∷ 0 ∷ 0 ∷ 0 ∷ 0 ∷ 0 ∷ 0
    ∷ 0 ∷ 0 ∷ 0 ∷ 0 ∷ 0 ∷ 0 ∷ 0 ∷ 0 ∷ 0 ∷ 0 ∷ 0 ∷ 0 ∷ 0 ∷ 0 ∷ 0 ∷ 0 ∷ 4 ∷ 0 ∷ 0 ∷ 0 ∷ 0 ∷ 0 ∷ 0 ∷ 0
    ∷ 4 ∷ 0 ∷ 0 ∷ 0 ∷ 0 ∷ 0 ∷ 0 ∷ 0 ∷ 1 ∷ 0 ∷ 0 ∷ 0 ∷ 0 ∷ 0 ∷ 0 ∷ 0 ∷ []

abbrev linker : List ℕ
linker = 0x2f ∷ 0x6c ∷ 0x64 ∷ 0 ∷ []

-- The whole of a part of the file, or nothing.
abbrev whole : List ℕ → ℕ → Option (List ℕ)
whole bs n = if length bs == n then some bs else none

-- A file with one segment and an interpreter.
abbrev small_file : Host
small_file = record {
  page = 4096;
  read_exact = λ n off. whole (if off == 0 then first else if off == 64 then table else linker) n;
  hits_monitor = λ lo len. false;
  rewrite = true;
  loader_file = false;
  execmem_denied = false;
}

abbrev small_plan : Plan
small_plan = record {
  eh = ehdr_of first;
  ph = phdrs_of 2 table 0;
  lo = 0x10000;
  hi = 0x12000;
  is_dyn = true;
  file_ok = true;
  interp = some linker;
}

small_file-planned : elf_plan_fd small_file (some 0x81ed) ≡ passed small_plan
unfolding elf_plan_fd
small_file-planned = refl

whole-length : (n : ℕ) (part bs : List ℕ) → whole part n ≡ some bs → length bs ≡ n
whole-length n part bs = elim (Bool-cases (length part == n)) [
  | inl e ↦ rw e (λ q. ap length (sym (some-injective part bs q)) ∙ ground (arith, e))
  | inr e ↦ rw e (λ q. absurd (cc))
]

small_file-IsExact : IsExact small_file
small_file-IsExact n off bs =
    whole-length n (if off == 0 then first else if off == 64 then table else linker) bs

elf_plan_fd-IsSound_example : IsSound small_file small_plan × IsTerminated small_file (some linker)
elf_plan_fd-IsSound_example =
    elf_plan_fd-IsSound small_file (some 0x81ed) small_plan (omega arith) (omega arith)
      small_file-IsExact small_file-planned

elf_plan_fd-Inside_example :
    All
      (Inside 0x5500000000 (0x5500000000 + (small_plan.hi - small_plan.lo)))
      (copies (bias_of true 0x5500000000 0x10000) small_plan.ph)
elf_plan_fd-Inside_example =
    elf_plan_fd-Inside small_file (some 0x81ed) small_plan 0x5500000000 (omega arith) (omega arith)
      small_file-planned (inl refl) (omega arith)

-- Text and data that meet in the page at 0x2000.
abbrev text_and_data : List Pages
text_and_data =
    record { start = 0x1000; stop = 0x3000; prot = 5 }
    ∷ record { start = 0x2000; stop = 0x4000; prot = 3 }
    ∷ []

shared_page : protect text_and_data (λ a. 0) 0x2abc ≡ 7
unfolding protect
shared_page = refl

protect-asked_example : protect text_and_data (λ a. 0) 0x2abc ≡ asked text_and_data 0x2abc (λ a. 0)
protect-asked_example = protect-asked text_and_data (λ a. 0) 0x2abc
