-- ===== src/Loader/Rounds.antt =====
-- src/loader/elf.c: the page arithmetic, the bounds of the fields, and verdicts one after another.
use mathlib.Core.Path.{subst}
use native.Mathlib.Nat.{div-add-mod, mod-lt, mul-mod_left, mul_comm}
use fake_chroot_ng.Prelude.{
  ℕ, zero, suc, ◌+◌, ◌-◌, ◌*◌, ◌/◌, ◌%◌, ◌^◌, ◌≤◌, ◌<◌, ◌≡◌, refl, sym, ap, ◌∙◌, ◌⊎◌, inl, inr,
  Bool, true, false, ◌||◌, none, some, List, arith, ltb, if◌then◌else◌, Bool-cases, All, get_elem?,
}
use fake_chroot_ng.Loader.{
  Phdr, Verdict, refused, passed, page_down, page_up, page_end, byte_at, phdrs_of, phdr_size, field,
}

-- The multiple of the page size at or below a number.
pub page_down-below :
    (page x : ℕ)
    → 0 < page
    → (page_down page x ≤ x) × (x < page_down page x + page) × (page_down page x % page ≡ 0)
page_down-below page x p = (
  omega (arith, div-add-mod x page, mul_comm page (x / page)),
  omega (arith, div-add-mod x page, mul_comm page (x / page), mod-lt x p),
  mul-mod_left (x / page) page,
)

page_up-above :
    (page x : ℕ)
    → 0 < page
    → x + page ≤ 2 ^ 64
    → (x ≤ page_up page x) × (page_up page x < 2 ^ 64) × (page_up page x % page ≡ 0)
page_up-above page x p h =
    let whole = whole_lem in
    let (below, near, even) = page_down-below page (x + page - 1) p in
    rw whole (omega (arith, near, p), omega (arith, below, h, p), even)
  where
    whole_lem : (x + page - 1) % 2 ^ 64 ≡ x + page - 1
    whole_lem = omega (arith, p, h)

-- `cng_page_end`, where it gives an end.
pub page_end-some :
    (page a n e : ℕ)
    → 0 < page
    → page ≤ 2 ^ 64
    → a < 2 ^ 64
    → n < 2 ^ 64
    → page_end page a n ≡ some e
    → (a + n ≤ e) × (e < 2 ^ 64) × (e % page ≡ 0)
page_end-some page a n e p q ha hn =
    decided
      (Bool-cases (ltb ((a + n) % 2 ^ 64) a || ltb (2 ^ 64 - 1 - (page - 1)) ((a + n) % 2 ^ 64)))
  where
    fits :
        (ltb ((a + n) % 2 ^ 64) a || ltb (2 ^ 64 - 1 - (page - 1)) ((a + n) % 2 ^ 64)) ≡ false
        → (a + n) % 2 ^ 64 + page ≤ 2 ^ 64
    fits k = ground (arith, k, p, q)

    unwrapped :
        (ltb ((a + n) % 2 ^ 64) a || ltb (2 ^ 64 - 1 - (page - 1)) ((a + n) % 2 ^ 64)) ≡ false
        → (a + n) % 2 ^ 64 ≡ a + n
    unwrapped k = ground (arith, k, ha, hn)

    Goal : Type 0
    Goal = (a + n ≤ e) × (e < 2 ^ 64) × (e % page ≡ 0)

    rounded : (x : ℕ) → x ≡ a + n → x + page ≤ 2 ^ 64 → page_up page x ≡ e → Goal
    rounded x u f w =
        let (above, low, even) = page_up-above page x p f in
        (omega (arith, above, u, w), omega (arith, low, w), ap (λ z. z % page) (sym w) ∙ even)

    decided :
        ((ltb ((a + n) % 2 ^ 64) a || ltb (2 ^ 64 - 1 - (page - 1)) ((a + n) % 2 ^ 64)) ≡ true)
          ⊎ ((ltb ((a + n) % 2 ^ 64) a || ltb (2 ^ 64 - 1 - (page - 1)) ((a + n) % 2 ^ 64)) ≡ false)
        → page_end page a n ≡ some e
        → Goal
    decided (inl k) h = absurd (ground (arith, k, h))
    decided (inr k) h = rounded ((a + n) % 2 ^ 64) (unwrapped k) (fits k) (ground (arith, k, h))

-- What a verdict's value has to be.
unfoldable pub Holds : {A : Type 0} → (A → Type 0) → Verdict A → Type 0
Holds p (refused r) = Unit
Holds p (passed x) = p x

pub Holds-passed :
    {A : Type 0} (p : A → Type 0) (v : Verdict A) (x : A) → Holds p v → v ≡ passed x → p x
unfolding Holds
Holds-passed p v x h e = subst (Holds p) e h

-- One step after another.
pub Holds-then :
    {A B : Type 0} (p : A → Type 0) (q : B → Type 0) (v : Verdict A) (f : A → Verdict B)
    → Holds p v
    → ((x : A) → p x → Holds q (f x))
    → Holds q (elim v [ refused r ↦ refused r | passed x ↦ f x ])
unfolding Holds
Holds-then p q (refused r) f h k = tt
Holds-then p q (passed x) f h k = k x h

pub Holds-map :
    {A : Type 0} (p q : A → Type 0) (v : Verdict A) → ((x : A) → p x → q x) → Holds p v → Holds q v
unfolding Holds
Holds-map p q (refused r) f h = tt
Holds-map p q (passed x) f h = f x h

-- Fields of eight bytes.
byte_at-small : (l : List ℕ) (i : ℕ) → byte_at l i < 2 ^ 8
byte_at-small l i =
    elim (get_elem? l i) as (λ o. elim o [ none ↦ 0 | some b ↦ b % 2 ^ 8 ] < 2 ^ 8) [
      | none ↦ omega arith
      | some b ↦ omega arith
    ]

field-small : (l : List ℕ) (i : ℕ) → field 8 l i < 2 ^ 64
field-small l i =
    bound (byte_at l i) (byte_at l (i + 1)) (byte_at l (i + 1 + 1)) (byte_at l (i + 1 + 1 + 1))
      (byte_at l (i + 1 + 1 + 1 + 1)) (byte_at l (i + 1 + 1 + 1 + 1 + 1))
      (byte_at l (i + 1 + 1 + 1 + 1 + 1 + 1)) (byte_at l (i + 1 + 1 + 1 + 1 + 1 + 1 + 1))
      (byte_at-small l i) (byte_at-small l _) (byte_at-small l _) (byte_at-small l _)
      (byte_at-small l _) (byte_at-small l _) (byte_at-small l _) (byte_at-small l _)
  where
    bound :
        (a b c d e f g h : ℕ)
        → a < 2 ^ 8
        → b < 2 ^ 8
        → c < 2 ^ 8
        → d < 2 ^ 8
        → e < 2 ^ 8
        → f < 2 ^ 8
        → g < 2 ^ 8
        → h < 2 ^ 8
        → a
            + 2 ^ 8
              * (b
                  + 2 ^ 8
                    * (c
                        + 2 ^ 8
                          * (d
                              + 2 ^ 8 * (e + 2 ^ 8 * (f + 2 ^ 8 * (g + 2 ^ 8 * (h + 2 ^ 8 * 0)))))))
          < 2 ^ 64
    bound a b c d e f g h i j k l m n o p = omega arith

-- Headers whose words are words.
abbrev pub IsWords : Phdr → Type 0
IsWords ph = (ph.p_vaddr < 2 ^ 64) × (ph.p_memsz < 2 ^ 64)

pub phdrs_of-IsWords : (n : ℕ) (l : List ℕ) (i : ℕ) → All IsWords (phdrs_of n l i)
phdrs_of-IsWords zero l i = tt
phdrs_of-IsWords (suc n) l i =
    ((field-small l (i + 16), field-small l (i + 40)), phdrs_of-IsWords n l (i + phdr_size))

-- The lower and the higher of two ends.
pub lower :
    (start lo : ℕ)
    → ((if ltb start lo then start else lo) ≡ start)
      ⊎ (((if ltb start lo then start else lo) ≡ lo) × (lo ≤ start))
lower start lo = elim (Bool-cases (ltb start lo)) [
  | inl e ↦ rw e (inl refl)
  | inr e ↦ rw e (inr (refl, ground (arith, e)))
]

pub lower-below :
    (start lo : ℕ)
    → ((if ltb start lo then start else lo) ≤ start) × ((if ltb start lo then start else lo) ≤ lo)
lower-below start lo = (ground arith, ground arith)

pub higher-above :
    (hi e : ℕ) → (e ≤ (if ltb hi e then e else hi)) × (hi ≤ (if ltb hi e then e else hi))
higher-above hi e = (ground arith, ground arith)

pub either : (p : ℕ → Type 0) (b : Bool) (x y : ℕ) → p x → p y → p (if b then x else y)
either p true x y h k = h
either p false x y h k = k
