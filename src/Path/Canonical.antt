-- ===== src/Path/Canonical.antt =====
-- What `cng_path_canon` answers is canonical, stays as it is when canonicalized again, and fits.
use mathlib.Core.Path.{subst}
use fake_chroot_ng.Prelude.{
  ℕ, ◌+◌, ◌≤◌, ◌<◌, ◌≡◌, ◌≢◌, refl, sym, ap, ◌∙◌, ◌⊎◌, inl, inr, false, Option, none, some, List,
  [], ◌∷◌, ◌++◌, arith, leb, ◌==◌, length, length-append, All, Bool-cases,
}
use fake_chroot_ng.Bytes.{Bytes}
use fake_chroot_ng.Path.{slash, is_dot, is_dotdot, path_canon}
use fake_chroot_ng.Path.Fields.{
  cons_head, split, render, pop, visit, bind_option, walk, NoSlash, IsName,
}
use fake_chroot_ng.Path.Canon.{
  OnSome, split-component, walk-All, as_path, map_path, path_canon-walk,
}

-- A slash, and behind it nothing or names between single slashes, none of them empty, "." or "..".
pub record IsCanonical (q : Bytes) : Type 0 where
  pub rest : Bytes
  pub spelled : q ≡ slash ∷ rest
  pub names : (rest ≡ []) ⊎ All IsName (split rest)

cons_head-NoSlash :
    (x : ℕ) (fs : List Bytes) → x ≢ slash → All NoSlash fs → All NoSlash (cons_head x fs)
cons_head-NoSlash x [] n a = ((n, tt), tt)
cons_head-NoSlash x (f ∷ fs) n a = ((n, a.0), a.1)

split-NoSlash : (p : Bytes) → All NoSlash (split p)
unfolding split
split-NoSlash [] = (tt, tt)
split-NoSlash (x ∷ xs) = elim (Bool-cases (x == slash)) [
  | inl e ↦ rw e (tt, split-NoSlash xs)
  | inr e ↦ rw e (cons_head-NoSlash x (split xs) (ground arith) (split-NoSlash xs))
]

to_names :
    (fs : List Bytes)
    → All NoSlash fs
    → All (λ c. c ≢ [] → is_dot c ≡ false → is_dotdot c ≡ false → IsName c) fs
to_names [] a = tt
to_names (f ∷ fs) a =
    (λ ne d dd. record { plain = a.0; some_byte = ne; no_dot = d; no_dotdot = dd }, to_names fs a.1)

-- The names below a stack fit the buffer.
abbrev Fits : ℕ → List Bytes → Type 0
Fits outsz [] = Unit
Fits outsz (c ∷ st) = (length (render (c ∷ st)) < outsz) × Fits outsz st

length-render :
    (c : Bytes) (st : List Bytes) → length (render (c ∷ st)) ≡ length (render st) + 1 + length c
unfolding render
length-render c st = omega (arith, length-append (render st) (slash ∷ c))

visit-Fits :
    (outsz : ℕ) (c : Bytes) (st : List Bytes)
    → Fits outsz st
    → OnSome (Fits outsz) (visit outsz c st)
unfolding visit
visit-Fits outsz [] st f = f
visit-Fits outsz (x ∷ c) st f = elim (Bool-cases (is_dot (x ∷ c))) [
  | inl e ↦ rw e f
  | inr e ↦ elim (Bool-cases (is_dotdot (x ∷ c))) [
    | inl g ↦ rw (e, g) (Fits-pop st f)
    | inr g ↦
        rw (e, g)
          (elim (Bool-cases (leb outsz (length (render st) + 1 + length (x ∷ c)))) [
            | inl h ↦ rw h tt
            | inr h ↦ rw h (ground (arith, length-render (x ∷ c) st), f)
          ])
  ]
]
  where
    Fits-pop : (st : List Bytes) → Fits outsz st → Fits outsz (pop st)
    Fits-pop [] a = tt
    Fits-pop (d ∷ st) a = a.1

walk-Fits :
    (outsz : ℕ) (fs st : List Bytes) → Fits outsz st → OnSome (Fits outsz) (walk outsz fs st)
unfolding walk
walk-Fits outsz [] st f = f
walk-Fits outsz (c ∷ fs) st f =
    go (visit outsz c st) (visit-Fits outsz c st f) (λ st' g. walk-Fits outsz fs st' g)
  where
    go :
        (o : Option (List Bytes))
        → OnSome (Fits outsz) o
        → ((st' : List Bytes) → Fits outsz st' → OnSome (Fits outsz) (walk outsz fs st'))
        → OnSome (Fits outsz) (bind_option o (walk outsz fs))
    go none g k = tt
    go (some st') g k = k st' g

-- A stack that the walk may end on.
record Result (outsz : ℕ) (q : Bytes) : Type 0 where
  stack : List Bytes
  names : All IsName stack
  fits : Fits outsz stack
  spelled : q ≡ as_path stack

path_canon-Result : (p q : Bytes) (outsz : ℕ) → path_canon p outsz ≡ some q → Result outsz q
path_canon-Result p q outsz e =
    go (walk outsz (split p) [])
      (walk-All outsz IsName (split p) [] (to_names (split p) (split-NoSlash p)) tt)
      (walk-Fits outsz (split p) [] tt) (sym (path_canon-walk p outsz) ∙ e)
  where
    go :
        (o : Option (List Bytes))
        → OnSome (All IsName) o
        → OnSome (Fits outsz) o
        → map_path o ≡ some q
        → Result outsz q
    go none a f e = absurd (cc)
    go (some st) a f e = record { stack = st; names = a; fits = f; spelled = cc }

-- What canonicalization answers fits its buffer with the terminator, if the buffer has two bytes
-- at least.
pub path_canon-fits :
    (p q : Bytes) (outsz : ℕ) → 2 ≤ outsz → path_canon p outsz ≡ some q → length q < outsz
path_canon-fits p q outsz h e = let r = path_canon-Result p q outsz e in go r.stack r.fits r.spelled
  where
    go : (st : List Bytes) → Fits outsz st → q ≡ as_path st → length q < outsz
    go [] f e = omega (arith, ap length e)
    go (c ∷ st) f e = rw e f.0

cons_head-append :
    (x : ℕ) (f : Bytes) (fs gs : List Bytes)
    → cons_head x ((f ∷ fs) ++ gs) ≡ cons_head x (f ∷ fs) ++ gs
cons_head-append x f fs gs = refl

split-append : (xs ys : Bytes) → split (xs ++ slash ∷ ys) ≡ split xs ++ split ys
unfolding split
split-append [] ys = refl
split-append (x ∷ xs) ys = elim (Bool-cases (x == slash)) [
  | inl e ↦ rw e (ap (λ fs. [] ∷ fs) (split-append xs ys))
  | inr e ↦ rw e (ap (cons_head x) (split-append xs ys) ∙ grown)
]
  where
    grown : cons_head x (split xs ++ split ys) ≡ cons_head x (split xs) ++ split ys
    grown = rw (split-component xs)

split-name : (c : Bytes) → NoSlash c → split c ≡ c ∷ []
unfolding split
split-name [] a = refl
split-name (x ∷ c) a = elim (Bool-cases (x == slash)) [
  | inl e ↦ absurd (a.0 (ground arith))
  | inr e ↦ rw e (ap (cons_head x) (split-name c a.1))
]

walk-append :
    (outsz : ℕ) (fs gs st : List Bytes)
    → walk outsz (fs ++ gs) st ≡ bind_option (walk outsz fs st) (walk outsz gs)
unfolding walk
walk-append outsz [] gs st = refl
walk-append outsz (f ∷ fs) gs st = go (visit outsz f st) (λ s. walk-append outsz fs gs s)
  where
    go :
        (o : Option (List Bytes))
        → ((s : List Bytes)
            → walk outsz (fs ++ gs) s ≡ bind_option (walk outsz fs s) (walk outsz gs))
        → bind_option o (walk outsz (fs ++ gs))
          ≡ bind_option (bind_option o (walk outsz fs)) (walk outsz gs)
    go none k = refl
    go (some s) k = k s

visit-name :
    (outsz : ℕ) (c : Bytes) (st : List Bytes)
    → IsName c
    → length (render (c ∷ st)) < outsz
    → visit outsz c st ≡ some (c ∷ st)
unfolding visit
visit-name outsz [] st n h = absurd (n.some_byte refl)
visit-name outsz (x ∷ c) st n h = rw (n.no_dot, n.no_dotdot, room)
  where
    room : leb outsz (length (render st) + 1 + length (x ∷ c)) ≡ false
    room = ground (arith, length-render (x ∷ c) st)

-- Walking over a stack's own path gives the stack back.
pub rewalk :
    (outsz : ℕ) (st : List Bytes)
    → All IsName st
    → Fits outsz st
    → walk outsz (split (render st)) [] ≡ some st
unfolding render
rewalk outsz [] a f = unfold walk visit split in refl
rewalk outsz (c ∷ st) a f =
    ap (λ fs. walk outsz fs [])
      (split-append (render st) c ∙ ap (λ fs. split (render st) ++ fs) (split-name c a.0.plain))
    ∙ walk-append outsz (split (render st)) (c ∷ []) []
    ∙ rw (rewalk outsz st a.1 f.1) (unfold walk in rw (visit-name outsz c st a.0 f.0))

as_path-canon :
    (outsz : ℕ) (st : List Bytes)
    → All IsName st
    → Fits outsz st
    → path_canon (as_path st) outsz ≡ some (as_path st)
as_path-canon outsz [] a f = path_canon-walk (slash ∷ []) outsz ∙ (unfold walk visit split in refl)
as_path-canon outsz (c ∷ st) a f =
    path_canon-walk (render (c ∷ st)) outsz ∙ ap map_path (rewalk outsz (c ∷ st) a f)

-- Canonicalizing an answer again, in a buffer of the same size, succeeds and changes nothing.
pub path_canon_idempotent :
    (p q : Bytes) (outsz : ℕ) → path_canon p outsz ≡ some q → path_canon q outsz ≡ some q
path_canon_idempotent p q outsz e =
    let r = path_canon-Result p q outsz e in
    rw r.spelled (as_path-canon outsz r.stack r.names r.fits)

All-split-append :
    (xs ys : Bytes)
    → All IsName (split xs)
    → All IsName (split ys)
    → All IsName (split (xs ++ slash ∷ ys))
All-split-append xs ys a b = rw (split-append xs ys) (both (split xs) a)
  where
    both : (fs : List Bytes) → All IsName fs → All IsName (fs ++ split ys)
    both [] a = b
    both (f ∷ fs) a = (a.0, both fs a.1)

-- The path of a stack that is not empty, behind its first slash.
render_rest :
    (c : Bytes) (st : List Bytes)
    → All IsName (c ∷ st)
    → (r : Bytes) × (render (c ∷ st) ≡ slash ∷ r) × All IsName (split r)
unfolding render
render_rest c [] a = (c, refl, rw (split-name c a.0.plain) (a.0, tt))
render_rest c (d ∷ st) a =
    let (r, e, n) = render_rest d st a.1 in
    (
      r ++ slash ∷ c,
      ap (λ w. w ++ slash ∷ c) e,
      All-split-append r c n (rw (split-name c a.0.plain) (a.0, tt)),
    )

as_path-IsCanonical : (st : List Bytes) → All IsName st → IsCanonical (as_path st)
as_path-IsCanonical [] a = record { rest = []; spelled = refl; names = inl refl }
as_path-IsCanonical (c ∷ st) a =
    let (r, e, n) = render_rest c st a in record { rest = r; spelled = e; names = inr n }

-- What canonicalization answers is a slash, and behind it nothing or names between single slashes,
-- none of them empty, "." or "..".
pub path_canon-IsCanonical : (p q : Bytes) (outsz : ℕ) → path_canon p outsz ≡ some q → IsCanonical q
path_canon-IsCanonical p q outsz e =
    let r = path_canon-Result p q outsz e in rw r.spelled (as_path-IsCanonical r.stack r.names)

append-ne-nil : (xs ys : Bytes) (y : ℕ) → xs ++ y ∷ ys ≢ []
append-ne-nil [] ys y e = cc
append-ne-nil (x ∷ xs) ys y e = cc

-- What lies under a canonical path, from the slash on, is canonical.
pub suffix-IsCanonical :
    (root rest : Bytes)
    → IsCanonical root
    → IsCanonical (root ++ slash ∷ rest)
    → IsCanonical (slash ∷ rest)
suffix-IsCanonical root rest c d = record { rest = rest; spelled = refl; names = go d.names }
  where
    tail_of : (u v : Bytes) → ◌≡◌ {A = Bytes} (slash ∷ u) (slash ∷ v) → u ≡ v
    tail_of u v e = cc

    inner : c.rest ++ slash ∷ rest ≡ d.rest
    inner = tail_of _ _ (ap (λ r. r ++ slash ∷ rest) (sym c.spelled) ∙ d.spelled)

    right : (fs gs : List Bytes) → All IsName (fs ++ gs) → All IsName gs
    right [] gs a = a
    right (f ∷ fs) gs a = right fs gs a.1

    go : (d.rest ≡ []) ⊎ All IsName (split d.rest) → (rest ≡ []) ⊎ All IsName (split rest)
    go (inl e) = absurd (append-ne-nil c.rest rest slash (inner ∙ e))
    go (inr n) = inr (
        right (split c.rest) (split rest)
          (subst (All IsName) (ap split (sym inner) ∙ split-append c.rest rest) n))
