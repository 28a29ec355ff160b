-- ===== src/Rewrite.antt =====
-- src/monitor/rewrite.c: the scan that replaces `svc #0` by branches to copies of a template.
pub mod Branch
pub mod Kept
pub mod Sites
pub mod Scan
mod Tests
use fake_chroot_ng.Prelude.{
  ℕ, zero, suc, ◌+◌, ◌-◌, ◌*◌, ◌/◌, ◌%◌, ◌^◌, Bool, true, false, not, ◌&&◌, ◌||◌, Option, none,
  some, List, [], ◌∷◌, ltb, leb, ◌==◌, ◌!=◌, if◌then◌else◌, length, bit_and,
}

-- Memory, as the 32-bit words at the multiples of 4.
abbrev pub Memory : Type 0
Memory = ℕ → ℕ

abbrev pub store : Memory → ℕ → ℕ → Memory
store m a w b = if b == a then w else m b

-- An unsigned long, as two words.
abbrev pub store_long : Memory → ℕ → ℕ → Memory
store_long m a n = store (store m a (n % 2 ^ 32)) (a + 4) (n / 2 ^ 32 % 2 ^ 32)

-- memcpy of words
unfoldable pub copy_words : Memory → ℕ → List ℕ → Memory
copy_words m a [] = m
copy_words m a (w ∷ ws) = copy_words (store m a w) (a + 4) ws

abbrev pub svc0_insn : ℕ
svc0_insn = 0xd4000001

abbrev pub b_opcode : ℕ
b_opcode = 0x14000000

abbrev pub branch_reach : ℕ
branch_reach = 2 ^ 27

-- The template of src/monitor/tramp.S: its words, the offsets of what is patched, and the address of
-- cng_tramp_dispatch.
pub record Template : Type 0 where
  pub words : List ℕ
  pub disp_off : ℕ
  pub ret_off : ℕ
  pub back_off : ℕ
  pub dispatch : ℕ

-- `cng_tramp_size`
abbrev pub tramp_size : Template → ℕ
tramp_size t = 4 * length t.words

-- `b_insn`; a negative difference is one of 2 ^ 63 and more, and the opcode's bits are above those of
-- the offset.
unfoldable pub b_insn : ℕ → ℕ → ℕ
b_insn at target =
    let delta = (target + 2 ^ 64 - at) % 2 ^ 64 in
    if (leb branch_reach delta && ltb delta (2 ^ 64 - branch_reach)) || delta % 4 != 0
    then 0
    else b_opcode + delta / 4 % 2 ^ 26

-- What the scan changes: the memory, `*used`, and the count.
pub record Pool : Type 0 where
  pub mem : Memory
  pub used : ℕ
  pub count : ℕ

-- `emit`, whose copy stands at `pool + *used`.
unfoldable pub emit : Template → ℕ → ℕ → Pool → ℕ → Option Pool
unfolding copy_words b_insn
emit t pool cap s ret_site =
    if ltb cap (s.used + tramp_size t)
    then none
    else let slot = pool + s.used in
      let back = b_insn (slot + t.back_off) ret_site in
      if back == 0
      then none
      else some (record s {
        mem =
            store
              (store_long
                (store_long (copy_words s.mem slot t.words) (slot + t.disp_off) t.dispatch)
                (slot + t.ret_off) ret_site)
              (slot + t.back_off) back;
        used = s.used + tramp_size t;
      })

-- `mov x8, #nr` or `mov w8, #nr`
abbrev pub sets_x8 : ℕ → ℕ → Bool
sets_x8 prev nr = bit_and prev 0x7fe0001f == 0x52800008 && prev / 2 ^ 5 % 2 ^ 16 == nr

abbrev pub nr_sigreturn : ℕ
nr_sigreturn = 139

-- The test for a signal-return site.
unfoldable pub returns_signal : Memory → ℕ → ℕ → Bool
returns_signal m a floor = leb (floor + 4) a && sets_x8 (m (a - 4)) nr_sigreturn

-- `svc_nr` and `stack_teardown`
abbrev pub svc_nr : Memory → ℕ → ℕ → ℕ → Bool
svc_nr m a floor nr = not (ltb a (floor + 4) || m a != svc0_insn) && sets_x8 (m (a - 4)) nr

unfoldable pub stack_teardown : Memory → ℕ → ℕ → ℕ → Bool
stack_teardown m a floor hi =
    if svc_nr m a floor 215
    then (leb (a + 12) hi && svc_nr m (a + 8) floor 93)
      || (leb (a + 16) hi && svc_nr m (a + 12) floor 93)
    else svc_nr m a floor 93
      && ((leb (floor + 12) a && svc_nr m (a - 8) floor 215)
          || (leb (floor + 16) a && svc_nr m (a - 12) floor 215))

-- `writes_x8`
unfoldable pub writes_x8 : ℕ → Bool
writes_x8 w =
    let move = bit_and w 0x7f800000 in
    let logic = bit_and w 0x7fc00000 in
    let memory = bit_and w 0x3b000000 in
    w % 2 ^ 5 == 8
    && (move == 0x52800000
        || move == 0x72800000
        || move == 0x11000000
        || move == 0x51000000
        || logic == 0x0a000000
        || logic == 0x2a000000
        || logic == 0x4a000000
        || memory == 0x39000000
        || memory == 0x18000000)

-- The look back for a number in x8, `n` more words from the word `k` before.
unfoldable pub seen_x8 : Memory → ℕ → ℕ → ℕ → ℕ → Bool
unfolding writes_x8
seen_x8 m a floor zero k = false
seen_x8 m a floor (suc n) k =
    let rest = seen_x8 m a floor n (k + 1) in
    if ltb a (floor + 4 * k) then false else if writes_x8 (m (a - 4 * k)) then true else rest

abbrev pub x8_lookback : ℕ
x8_lookback = 8

-- What the scan is given.
pub record Range : Type 0 where
  pub floor : ℕ
  pub verify : Bool
  pub pool : ℕ
  pub cap : ℕ

-- A candidate that is left alone.
unfoldable pub spared : Range → ℕ → Memory → ℕ → Bool
unfolding returns_signal stack_teardown seen_x8
spared r hi m a =
    m a != svc0_insn
    || returns_signal m a r.floor
    || stack_teardown m a r.floor hi
    || (r.verify && not (seen_x8 m a r.floor x8_lookback 1))

-- One round of the loop: `none` where it breaks off.
unfoldable pub scan_word : Template → Range → ℕ → Pool → ℕ → Option Pool
unfolding spared b_insn emit
scan_word t r hi s a =
    let br = b_insn a (r.pool + s.used) in
    if spared r hi s.mem a || br == 0
    then some s
    else if ltb r.cap (s.used + tramp_size t)
    then none
    else elim (emit t r.pool r.cap s (a + 4)) [
      | none ↦ some s
      | some e ↦ some (record e { mem = store e.mem a br; count = s.count + 1 })
    ]

unfoldable pub scan_words : Template → Range → ℕ → ℕ → ℕ → Pool → Pool
unfolding scan_word
scan_words t r hi zero a s = s
scan_words t r hi (suc n) a s = elim (scan_word t r hi s a) [
  | none ↦ s
  | some u ↦ scan_words t r hi n (a + 4) u
]

-- `scan`
unfoldable pub scan : Template → Range → ℕ → ℕ → Pool → Pool
unfolding scan_words
scan t r lo hi s = let from = (lo + 3) / 4 * 4 in scan_words t r hi ((hi - from) / 4) from s

-- The loop of `cng_rewrite_seg` over the code map, each range clipped to the mapping.
unfoldable pub scan_ranges : Template → Range → ℕ → ℕ → ℕ → List (ℕ × ℕ) → Pool → Pool
unfolding scan
scan_ranges t r lo hi foff [] s = s
scan_ranges t r lo hi foff ((from, to) ∷ cr) s =
    let clo = if ltb from foff then foff else from in
    let chi = if ltb (foff + (hi - lo)) to then foff + (hi - lo) else to in
    scan_ranges t r lo hi foff cr
      (if leb chi clo then s else scan t r (lo + (clo - foff)) (lo + (chi - foff)) s)

-- `cng_rewrite_seg`; `on` is cng_g_rewrite.
unfoldable pub rewrite_seg : Template → Bool → ℕ → ℕ → ℕ → ℕ → ℕ → List (ℕ × ℕ) → Pool → Pool
unfolding scan scan_ranges
rewrite_seg t on lo hi foff pool cap [] s =
    if not on || leb hi lo
    then s
    else scan t (record { floor = lo; verify = true; pool = pool; cap = cap }) lo hi s
rewrite_seg t on lo hi foff pool cap (c ∷ cr) s =
    if not on || leb hi lo
    then s
    else scan_ranges t (record { floor = lo; verify = false; pool = pool; cap = cap }) lo hi foff
        (c ∷ cr) s
