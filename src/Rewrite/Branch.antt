-- ===== src/Rewrite/Branch.antt =====
-- src/monitor/rewrite.c: where the branches go that `b_insn` encodes.
use fake_chroot_ng.Prelude.{
  ℕ, ◌+◌, ◌-◌, ◌*◌, ◌/◌, ◌%◌, ◌^◌, ◌≤◌, ◌<◌, ◌≡◌, ap, refl, Bool, true, false, ◌&&◌, ◌||◌, Option,
  none, some, arith, ltb, leb, ◌==◌, ◌!=◌, if◌then◌else◌, Bool-cases, inl, inr,
}
use fake_chroot_ng.Rewrite.{b_insn, branch_reach, b_opcode, svc0_insn}

-- Where the word at an address branches to, as the architecture has it: 26 bits, of words, signed.
abbrev pub branch_to : ℕ → ℕ → Option ℕ
branch_to at w =
    if w / 2 ^ 26 == 5
    then some (
        (at + 4 * (w % 2 ^ 26) + (if ltb (w % 2 ^ 26) (2 ^ 25) then 0 else 2 ^ 64 - 2 ^ 28))
        % 2 ^ 64)
    else none

word_opcode : (q : ℕ) → ((b_opcode + q % 2 ^ 26) / 2 ^ 26 == 5) ≡ true
word_opcode q = ground arith

word_offset : (q : ℕ) → (b_opcode + q % 2 ^ 26) % 2 ^ 26 ≡ q % 2 ^ 26
word_offset q = omega arith

-- Forward, and back.
forward :
    (at target delta : ℕ)
    → at < 2 ^ 64
    → target < 2 ^ 64
    → delta ≡ (target + 2 ^ 64 - at) % 2 ^ 64
    → delta % 4 ≡ 0
    → delta < branch_reach
    → (at
          + 4 * (delta / 4 % 2 ^ 26)
          + (if ltb (delta / 4 % 2 ^ 26) (2 ^ 25) then 0 else 2 ^ 64 - 2 ^ 28))
        % 2 ^ 64
      ≡ target
forward at target delta ha ht d m near =
    rw (short (delta / 4 % 2 ^ 26) (omega (arith, near))) (omega (arith, ha, ht, d, m, near))
  where
    short : (q : ℕ) → q < 2 ^ 25 → ltb q (2 ^ 25) ≡ true
    short q h = ground (arith, h)

backward :
    (at target delta : ℕ)
    → at < 2 ^ 64
    → target < 2 ^ 64
    → delta ≡ (target + 2 ^ 64 - at) % 2 ^ 64
    → delta % 4 ≡ 0
    → 2 ^ 64 - branch_reach ≤ delta
    → (at
          + 4 * (delta / 4 % 2 ^ 26)
          + (if ltb (delta / 4 % 2 ^ 26) (2 ^ 25) then 0 else 2 ^ 64 - 2 ^ 28))
        % 2 ^ 64
      ≡ target
backward at target delta ha ht d m far =
    rw (long (delta / 4 % 2 ^ 26) (omega (arith, d, far))) (omega (arith, ha, ht, d, m, far))
  where
    long : (q : ℕ) → 2 ^ 25 ≤ q → ltb q (2 ^ 25) ≡ false
    long q h = ground (arith, h)

-- A branch that could be encoded goes where it should, forward and back.
pub branch_to-b_insn :
    (at target : ℕ)
    → at < 2 ^ 64
    → target < 2 ^ 64
    → (b_insn at target == 0) ≡ false
    → branch_to at (b_insn at target) ≡ some target
unfolding b_insn
branch_to-b_insn at target ha ht = decided ((target + 2 ^ 64 - at) % 2 ^ 64) refl
  where
    far : ℕ → Bool
    far delta = (leb branch_reach delta && ltb delta (2 ^ 64 - branch_reach)) || delta % 4 != 0

    decided :
        (delta : ℕ)
        → delta ≡ (target + 2 ^ 64 - at) % 2 ^ 64
        → ((if far delta then 0 else b_opcode + delta / 4 % 2 ^ 26) == 0) ≡ false
        → branch_to at (if far delta then 0 else b_opcode + delta / 4 % 2 ^ 26) ≡ some target
    decided delta d e = elim (Bool-cases (far delta)) [
      | inl k ↦ absurd (ground (arith, k, e))
      | inr k ↦
          rw (k, word_opcode (delta / 4), word_offset (delta / 4))
            (ap some (elim (Bool-cases (ltb delta branch_reach)) [
              | inl n ↦ forward at target delta ha ht d (ground (arith, k)) (ground (arith, n))
              | inr n ↦ backward at target delta ha ht d (ground (arith, k)) (ground (arith, k, n))
            ]))
    ]

-- The word that the scan looks for is no branch.
pub branch_to-svc : (at : ℕ) → branch_to at svc0_insn ≡ none
branch_to-svc at = refl
