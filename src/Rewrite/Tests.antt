-- ===== src/Rewrite/Tests.antt =====
-- The rewriter of src/monitor/rewrite.c on three words.
use fake_chroot_ng.Prelude.{◌≡◌, refl, inl, inr, true, some, [], ◌∷◌, ◌==◌, if◌then◌else◌, arith}
use fake_chroot_ng.Rewrite.{Memory, Template, Pool, svc0_insn, rewrite_seg}
use fake_chroot_ng.Rewrite.Branch.{branch_to}
use fake_chroot_ng.Rewrite.Kept.{Fits}
use fake_chroot_ng.Rewrite.Sites.{Sites}
use fake_chroot_ng.Rewrite.Scan.{code_range, rewrite_seg-Sites}

-- brk #0 and the two literals
abbrev small_template : Template
small_template = record {
  words = 0xd4200000 ∷ 0 ∷ 0 ∷ 0 ∷ 0 ∷ [];
  disp_off = 4;
  ret_off = 12;
  back_off = 0;
  dispatch = 0x5500003000;
}

-- mov x8, #56; svc #0; ret
abbrev stub : Memory
stub a = if a == 0x1000 then 0xd2800708 else if a == 0x1004 then svc0_insn else 0xd65f03c0

abbrev empty_pool : Pool
empty_pool = record { mem = stub; used = 0; count = 0 }

stub-count : (rewrite_seg small_template true 0x1000 0x100c 0 0x2000 64 [] empty_pool).count ≡ 1
unfolding rewrite_seg
stub-count = refl

stub-branch :
    branch_to 0x1004
      ((rewrite_seg small_template true 0x1000 0x100c 0 0x2000 64 [] empty_pool).mem 0x1004)
    ≡ some 0x2000
unfolding rewrite_seg
stub-branch = refl

stub-back :
    branch_to 0x2000
      ((rewrite_seg small_template true 0x1000 0x100c 0 0x2000 64 [] empty_pool).mem 0x2000)
    ≡ some 0x1008
unfolding rewrite_seg
stub-back = refl

small_template-Fits : Fits small_template
small_template-Fits =
    (omega arith, omega arith, omega arith, inl (omega arith), inr (omega arith), inr (omega arith))

rewrite_seg-Sites_example :
    Sites small_template
      (code_range 0x1000 0x2000 64 true)
      0x100c
      stub
      (rewrite_seg small_template true 0x1000 0x100c 0 0x2000 64 [] empty_pool)
rewrite_seg-Sites_example =
    rewrite_seg-Sites small_template small_template-Fits 0x1000 0x100c 0 0x2000 64 (omega arith)
      (omega arith) true [] empty_pool (omega arith) (inl (omega arith))
