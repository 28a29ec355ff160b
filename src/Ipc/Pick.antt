-- ===== src/Ipc/Pick.antt =====
-- Which message `msg_pick` of src/monitor/ipcreg.c takes.
use mathlib.Core.List.{append_assoc, append-nil}
use mathlib.Core.Path.{subst}
use fake_chroot_ng.Prelude.{
  ℕ, suc, ◌+◌, ◌≤◌, ◌≡◌, refl, sym, ap, ◌∙◌, inl, inr, Bool, true, false, ◌&&◌, Option, none, some,
  List, [], ◌∷◌, ◌++◌, arith, if◌then◌else◌, length, length-append, get_elem?, All, Bool-cases,
}
use fake_chroot_ng.Ipc.Queue.{Gmsg, MsgQ, neg64, biased, msg_matches, lower, pick_loop, msg_pick}

module _ (msgtyp msgflg : ℕ) where
  -- No message of these matches.
  abbrev pub NoneMatches : List Gmsg → Type 0
  NoneMatches ms = All (λ m. msg_matches m msgtyp msgflg ≡ false) ms

  -- No message of these that matches has a lower type than `t`, or, where `strict`, the same.
  abbrev pub NoneLower : Bool → ℕ → List Gmsg → Type 0
  NoneLower strict t ms =
      All (λ m. msg_matches m msgtyp msgflg ≡ true → (if strict then suc t else t) ≤ biased m.mtype)
        ms

  -- The answer for the messages `ms`: none where none matches; for a type of 0 or more the first
  -- that matches; for a negative one the first of those with the lowest type.
  pub data Picked (ms : List Gmsg) : Option (ℕ × Gmsg) → Type 0 where
    nothing : NoneMatches ms → Picked ms none
    oldest :
        (old young : List Gmsg) (m : Gmsg)
        → ms ≡ old ++ m ∷ young
        → msg_matches m msgtyp msgflg ≡ true
        → neg64 msgtyp ≡ false
        → NoneMatches old
        → Picked ms (some (length old, m))
    lowest :
        (old young : List Gmsg) (m : Gmsg)
        → ms ≡ old ++ m ∷ young
        → msg_matches m msgtyp msgflg ≡ true
        → neg64 msgtyp ≡ true
        → NoneLower true (biased m.mtype) old
        → NoneLower false (biased m.mtype) young
        → Picked ms (some (length old, m))

  All-snoc : (P : Gmsg → Type 0) (ms : List Gmsg) (m : Gmsg) → All P ms → P m → All P (ms ++ m ∷ [])
  All-snoc P [] m a p = (p, tt)
  All-snoc P (x ∷ ms) m a p = (a.0, All-snoc P ms m a.1 p)

  All-map :
      (P Q : Gmsg → Type 0) → ((m : Gmsg) → P m → Q m) → (ms : List Gmsg) → All P ms → All Q ms
  All-map P Q f [] a = tt
  All-map P Q f (m ∷ ms) a = (f m a.0, All-map P Q f ms a.1)

  All-join :
      (P : Gmsg → Type 0) (xs ys : List Gmsg) (m : Gmsg)
      → All P xs
      → P m
      → All P ys
      → All P (xs ++ m ∷ ys)
  All-join P [] ys m a p b = (p, b)
  All-join P (x ∷ xs) ys m a p b = (a.0, All-join P xs ys m a.1 p b)

  counted : (seen : List Gmsg) (m : Gmsg) → length seen + 1 ≡ length (seen ++ m ∷ [])
  counted seen m = omega (arith, length-append seen (m ∷ []))

  regroup :
      {o : Option (ℕ × Gmsg)} (seen : List Gmsg) (m : Gmsg) (ms : List Gmsg)
      → Picked ((seen ++ m ∷ []) ++ ms) o
      → Picked (seen ++ m ∷ ms) o
  regroup {o} seen m ms p = subst (λ s. Picked s o) (append_assoc seen (m ∷ []) ms) p

  -- A message that is no better leaves the choice as it was.
  passed_by :
      (seen : List Gmsg) (m : Gmsg) (best : Option (ℕ × Gmsg))
      → neg64 msgtyp ≡ true
      → (msg_matches m msgtyp msgflg && lower m best) ≡ false
      → Picked seen best
      → Picked (seen ++ m ∷ []) best
  passed_by seen m _ g h (nothing n) = nothing (All-snoc _ seen m n (ground (arith, h)))
  passed_by seen m _ g h (oldest old young b e k p n) = absurd (ground (arith, p, g))
  passed_by seen m _ g h (lowest old young b e k p n y) =
      lowest old (young ++ m ∷ []) b
        (ap (λ s. s ++ m ∷ []) e ∙ append_assoc old (b ∷ young) (m ∷ [])) k p n
        (All-snoc _ young m y (λ j. ground (arith, h, j)))

  -- A message that is better is the choice.
  chosen :
      (seen : List Gmsg) (m : Gmsg) (best : Option (ℕ × Gmsg))
      → neg64 msgtyp ≡ true
      → msg_matches m msgtyp msgflg ≡ true
      → lower m best ≡ true
      → Picked seen best
      → Picked (seen ++ m ∷ []) (some (length seen, m))
  chosen seen m best g k l p = lowest seen [] m refl k g (above best l p) tt
    where
      above :
          (best : Option (ℕ × Gmsg))
          → lower m best ≡ true
          → Picked seen best
          → NoneLower true (biased m.mtype) seen
      above _ l (nothing n) = All-map _ _ (λ x f j. absurd (ground (arith, f, j))) seen n
      above _ l (oldest old young b e k p n) = absurd (ground (arith, p, g))
      above _ l (lowest old young b e k p n y) = subst (NoneLower true (biased m.mtype)) (sym e) (
          All-join _ old young b (All-map _ _ (λ x f j. ground (arith, f j, l)) old n)
            (λ j. ground (arith, l)) (All-map _ _ (λ x f j. ground (arith, f j, l)) young y))

  pick_loop-lowest :
      (seen ms : List Gmsg) (i : ℕ) (best : Option (ℕ × Gmsg))
      → i ≡ length seen
      → neg64 msgtyp ≡ true
      → Picked seen best
      → Picked (seen ++ ms) (pick_loop msgtyp msgflg ms i best)
  unfolding pick_loop
  pick_loop-lowest seen [] i best e g p = rw (append-nil seen) p
  pick_loop-lowest seen (m ∷ ms) i best e g p =
      elim (Bool-cases (msg_matches m msgtyp msgflg && lower m best)) [
        | inl b ↦
            rw (g, b, or_next (msg_matches m msgtyp msgflg))
              (regroup seen m ms (
                pick_loop-lowest (seen ++ m ∷ []) ms (i + 1) (some (i, m))
                  (omega (arith, e, counted seen m)) g
                  (rw e (chosen seen m best g (ground (arith, b)) (ground (arith, b)) p))))
        | inr b ↦
            rw (g, b, or_next (msg_matches m msgtyp msgflg))
              (regroup seen m ms (
                pick_loop-lowest (seen ++ m ∷ []) ms (i + 1) best (omega (arith, e, counted seen m))
                  g (passed_by seen m best g b p)))
      ]
    where
      or_next : (b : Bool) → (b && false) ≡ false
      or_next true = refl
      or_next false = refl

  pick_loop-oldest :
      (seen ms : List Gmsg) (i : ℕ)
      → i ≡ length seen
      → neg64 msgtyp ≡ false
      → NoneMatches seen
      → Picked (seen ++ ms) (pick_loop msgtyp msgflg ms i none)
  unfolding pick_loop
  pick_loop-oldest seen [] i e g n = rw (append-nil seen) (nothing n)
  pick_loop-oldest seen (m ∷ ms) i e g n = elim (Bool-cases (msg_matches m msgtyp msgflg)) [
    | inl b ↦ rw (g, b, e) (oldest seen ms m refl b g n)
    | inr b ↦
        rw (g, b)
          (regroup seen m ms (
            pick_loop-oldest (seen ++ m ∷ []) ms (i + 1) (omega (arith, e, counted seen m)) g
              (All-snoc _ seen m n b)))
  ]

-- The message that msgrcv takes: none exactly where none matches; for a type of 0 or more the
-- oldest that matches; for a negative type, of those that match, the oldest with the lowest type.
pub msg_pick-Picked :
    (q : MsgQ) (msgtyp msgflg : ℕ) → Picked msgtyp msgflg q.msgs (msg_pick q msgtyp msgflg)
unfolding msg_pick
msg_pick-Picked q msgtyp msgflg = elim (Bool-cases (neg64 msgtyp)) [
  | inl g ↦ pick_loop-lowest msgtyp msgflg [] q.msgs 0 none refl g (nothing tt)
  | inr g ↦ pick_loop-oldest msgtyp msgflg [] q.msgs 0 refl g tt
]

middle : (old young : List Gmsg) (m : Gmsg) → get_elem? (old ++ m ∷ young) (length old) ≡ some m
middle [] young m = refl
middle (x ∷ old) young m = middle old young m

pub Picked-get_elem? :
    (msgtyp msgflg i : ℕ) (ms : List Gmsg) (m : Gmsg)
    → Picked msgtyp msgflg ms (some (i, m))
    → get_elem? ms i ≡ some m
Picked-get_elem? msgtyp msgflg _ ms _ (oldest old young m e k p n) =
    ap (λ s. get_elem? s (length old)) e ∙ middle old young m
Picked-get_elem? msgtyp msgflg _ ms _ (lowest old young m e k p n y) =
    ap (λ s. get_elem? s (length old)) e ∙ middle old young m
