-- ===== src/Loader/Edges.antt =====
-- src/loader/elf.c, `map_anon`: the sorted array of the edges.
use fake_chroot_ng.Prelude.{
  ℕ, ◌<◌, ◌≡◌, refl, ◌⊎◌, inl, inr, false, List, [], ◌∷◌, arith, ltb, ◌==◌, Bool-cases, All,
}
use fake_chroot_ng.Loader.Protect.{Pages, add_edge, add_edges}

-- A sorted array without repetition.
unfoldable pub IsSorted : List ℕ → Type 0
IsSorted [] = Unit
IsSorted (x ∷ l) = All (λ z. x < z) l × IsSorted l

unfoldable pub Has : ℕ → List ℕ → Type 0
Has a [] = ⊥
Has a (x ∷ l) = (a ≡ x) ⊎ Has a l

All-map : {p q : ℕ → Type 0} (l : List ℕ) → ((z : ℕ) → p z → q z) → All p l → All q l
All-map [] f h = h
All-map (x ∷ l) f h = (f x h.0, All-map l f h.1)

pub All-Has : (p : ℕ → Type 0) (l : List ℕ) (a : ℕ) → All p l → Has a l → p a
unfolding Has
All-Has p [] a h m = absurd m
All-Has p (x ∷ l) a h (inl e) = rw e h.0
All-Has p (x ∷ l) a h (inr m) = All-Has p l a h.1 m

add_edge-All : (p : ℕ → Type 0) (e : ℕ) (l : List ℕ) → p e → All p l → All p (add_edge e l)
unfolding add_edge
add_edge-All p e [] h k = (h, tt)
add_edge-All p e (x ∷ l) h k = elim (Bool-cases (ltb x e)) [
  | inl a ↦ rw a (k.0, add_edge-All p e l h k.1)
  | inr a ↦ elim (Bool-cases (x == e)) [ inl b ↦ rw (a, b) k | inr b ↦ rw (a, b) (h, k) ]
]

add_edge-IsSorted : (e : ℕ) (l : List ℕ) → IsSorted l → IsSorted (add_edge e l)
unfolding add_edge IsSorted
add_edge-IsSorted e [] h = (tt, tt)
add_edge-IsSorted e (x ∷ l) h = elim (Bool-cases (ltb x e)) [
  | inl a ↦ rw a (add_edge-All (λ z. x < z) e l (ground (arith, a)) h.0, add_edge-IsSorted e l h.1)
  | inr a ↦ elim (Bool-cases (x == e)) [
    | inl b ↦ rw (a, b) h
    | inr b ↦ rw (a, b) ((below a b, All-map l (λ z k. after z (below a b) k) h.0), h)
  ]
]
  where
    below : ltb x e ≡ false → (x == e) ≡ false → e < x
    below a b = ground (arith, a, b)

    after : (z : ℕ) → e < x → x < z → e < z
    after z h k = omega (arith, h, k)

add_edge-Has : (e : ℕ) (l : List ℕ) → Has e (add_edge e l)
unfolding add_edge Has
add_edge-Has e [] = inl refl
add_edge-Has e (x ∷ l) = elim (Bool-cases (ltb x e)) [
  | inl a ↦ rw a (inr (add_edge-Has e l))
  | inr a ↦ elim (Bool-cases (x == e)) [
    | inl b ↦ rw (a, b) (inl (ground (arith, b)))
    | inr b ↦ rw (a, b) (inl refl)
  ]
]

add_edge-keeps : (e a : ℕ) (l : List ℕ) → Has a l → Has a (add_edge e l)
unfolding add_edge Has
add_edge-keeps e a [] h = absurd h
add_edge-keeps e a (x ∷ l) h = elim (Bool-cases (ltb x e)) [
  | inl b ↦ rw b (elim h [ inl k ↦ inl k | inr k ↦ inr (add_edge-keeps e a l k) ])
  | inr b ↦ elim (Bool-cases (x == e)) [ inl c ↦ rw (b, c) h | inr c ↦ rw (b, c) (inr h) ]
]

add_edges-keeps : (ps : List Pages) (a : ℕ) (l : List ℕ) → Has a l → Has a (add_edges ps l)
unfolding add_edges
add_edges-keeps [] a l h = h
add_edges-keeps (p ∷ ps) a l h =
    add_edges-keeps ps a (add_edge p.stop (add_edge p.start l))
      (add_edge-keeps p.stop a (add_edge p.start l) (add_edge-keeps p.start a l h))

pub add_edges-IsSorted : (ps : List Pages) (l : List ℕ) → IsSorted l → IsSorted (add_edges ps l)
unfolding add_edges
add_edges-IsSorted [] l h = h
add_edges-IsSorted (p ∷ ps) l h =
    add_edges-IsSorted ps (add_edge p.stop (add_edge p.start l))
      (add_edge-IsSorted p.stop (add_edge p.start l) (add_edge-IsSorted p.start l h))

-- The edges hold both ends of all pages.
unfoldable pub Ends : List ℕ → Pages → Type 0
unfolding Has
Ends edge p = Has p.start edge × Has p.stop edge

pub add_edges-Ends : (ps : List Pages) (l : List ℕ) → All (Ends (add_edges ps l)) ps
unfolding add_edges Ends
add_edges-Ends [] l = tt
add_edges-Ends (p ∷ ps) l = (
  (
    add_edges-keeps ps p.start (add_edge p.stop (add_edge p.start l))
        (add_edge-keeps p.stop p.start (add_edge p.start l) (add_edge-Has p.start l)),
    add_edges-keeps ps p.stop (add_edge p.stop (add_edge p.start l))
        (add_edge-Has p.stop (add_edge p.start l)),
  ),
  add_edges-Ends ps (add_edge p.stop (add_edge p.start l)),
)
