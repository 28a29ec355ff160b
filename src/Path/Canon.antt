-- ===== src/Path/Canon.antt =====
-- `cng_path_canon` computes the walk over the fields of its path.
use fake_chroot_ng.Prelude.{
  ℕ, zero, suc, ◌+◌, ◌≤◌, ◌<◌, ◌≡◌, ◌≢◌, refl, sym, ap, ◌∙◌, inl, inr, Bool, true, false, Option,
  none, some, List, [], ◌∷◌, ◌++◌, reverse, arith, leb, ◌==◌, if◌then◌else◌, length, All,
  Bool-cases,
}
use fake_chroot_ng.Bytes.{Bytes}
use fake_chroot_ng.Path.{
  slash, is_dot, is_dotdot, skip_slashes, component, canon_loop, path_canon, finish, finish_option,
}
use fake_chroot_ng.Path.Fields.{
  cons_head, split, render, pop, visit, bind_option, walk, NoSlash, buffer, map_buffer,
  put_component-visit, reverse-buffer,
}

-- A property of the value, if there is one.
abbrev pub OnSome {ℓ κ} : {A : Type ℓ} → (A → Type κ) → Option A → Type κ
OnSome P none = Unit
OnSome P (some a) = P a

-- What follows a component: its fields behind the slash.
abbrev pub tail_fields : Bytes → List Bytes
tail_fields [] = []
tail_fields (x ∷ r) = split r

abbrev AtSlash : Bytes → Type 0
AtSlash [] = Unit
AtSlash (x ∷ r) = (x == slash) ≡ true

pub split-component : (p : Bytes) → split p ≡ (component p).0 ∷ tail_fields (component p).1
unfolding split component
split-component [] = refl
split-component (x ∷ xs) = elim (Bool-cases (x == slash)) [
  | inl e ↦ rw e
  | inr e ↦ rw e (ap (cons_head x) (split-component xs))
]

component-AtSlash : (p : Bytes) → AtSlash (component p).1
unfolding component
component-AtSlash [] = tt
component-AtSlash (x ∷ xs) = elim (Bool-cases (x == slash)) [
  | inl e ↦ rw e e
  | inr e ↦ rw e (component-AtSlash xs)
]

pub component-NoSlash : (p : Bytes) → NoSlash (component p).0
unfolding component
component-NoSlash [] = tt
component-NoSlash (x ∷ xs) = elim (Bool-cases (x == slash)) [
  | inl e ↦ rw e tt
  | inr e ↦ rw e ((ground arith), component-NoSlash xs)
]

pub length-component : (p : Bytes) → length (component p).1 ≤ length p
unfolding component
length-component [] = omega arith
length-component (x ∷ xs) = ground (arith, length-component xs)

length-skip_slashes : (p : Bytes) → length (skip_slashes p) ≤ length p
unfolding skip_slashes
length-skip_slashes [] = omega arith
length-skip_slashes (x ∷ xs) = ground (arith, length-skip_slashes xs)

skip_slashes_head :
    (p : Bytes) (x : ℕ) (xs : Bytes) → skip_slashes p ≡ x ∷ xs → (x == slash) ≡ false
unfolding skip_slashes
skip_slashes_head [] x xs h = cc
skip_slashes_head (y ∷ p) x xs h = ground (arith, skip_slashes_head p x xs)

component_first :
    (x : ℕ) (xs : Bytes)
    → (x == slash) ≡ false
    → component (x ∷ xs) ≡ (x ∷ (component xs).0, (component xs).1)
unfolding component
component_first x xs e = rw e

module _ (outsz : ℕ) where
  walk-empty : (fs : List Bytes) (st : List Bytes) → walk outsz ([] ∷ fs) st ≡ walk outsz fs st
  unfolding walk visit
  walk-empty fs st = refl

  walk-skip :
      (p : Bytes) (st : List Bytes)
      → walk outsz (split (skip_slashes p)) st ≡ walk outsz (split p) st
  unfolding split skip_slashes
  walk-skip [] st = refl
  walk-skip (x ∷ xs) st = elim (Bool-cases (x == slash)) [
    | inl e ↦ rw e (walk-skip xs st ∙ sym (walk-empty (split xs) st))
    | inr e ↦ ap (λ q. walk outsz (split q) st) (kept e)
  ]
    where
      kept : (x == slash) ≡ false → skip_slashes (x ∷ xs) ≡ x ∷ xs
      kept e = rw e

  walk-tail :
      (r : Bytes) (st : List Bytes)
      → AtSlash r
      → walk outsz (tail_fields r) st ≡ walk outsz (split r) st
  unfolding split walk visit
  walk-tail [] st a = refl
  walk-tail (x ∷ r) st a = rw a

  module _ (P : Bytes → Type 0) where
    visit-All :
        (c : Bytes) (st : List Bytes)
        → (c ≢ [] → is_dot c ≡ false → is_dotdot c ≡ false → P c)
        → All P st
        → OnSome (All P) (visit outsz c st)
    unfolding visit
    visit-All [] st h a = a
    visit-All (x ∷ c) st h a = elim (Bool-cases (is_dot (x ∷ c))) [
      | inl e ↦ rw e a
      | inr e ↦ elim (Bool-cases (is_dotdot (x ∷ c))) [
        | inl f ↦ rw (e, f) (All-pop st a)
        | inr f ↦
            rw (e, f)
              (OnSome-if (leb outsz (length (render st) + 1 + length (x ∷ c))) (h (λ q. cc) e f, a))
      ]
    ]
      where
        All-pop : (st : List Bytes) → All P st → All P (pop st)
        All-pop [] a = tt
        All-pop (d ∷ st) a = a.1

        OnSome-if :
            (b : Bool)
            → All P ((x ∷ c) ∷ st)
            → OnSome (All P) (if b then none else some ((x ∷ c) ∷ st))
        OnSome-if true a = tt
        OnSome-if false a = a

    pub walk-All :
        (fs st : List Bytes)
        → All (λ c. c ≢ [] → is_dot c ≡ false → is_dotdot c ≡ false → P c) fs
        → All P st
        → OnSome (All P) (walk outsz fs st)
    unfolding walk
    walk-All [] st h a = a
    walk-All (f ∷ fs) st h a =
        go (visit outsz f st) (visit-All f st h.0 a) (λ st' a'. walk-All fs st' h.1 a')
      where
        go :
            (o : Option (List Bytes))
            → OnSome (All P) o
            → ((st' : List Bytes) → All P st' → OnSome (All P) (walk outsz fs st'))
            → OnSome (All P) (bind_option o (walk outsz fs))
        go none a k = tt
        go (some st') a k = k st' a

  -- The loop, started on the buffer of a stack, ends on the buffer of the walked stack.
  canon_loop-walk :
      (fuel : ℕ) (p : Bytes) (st : List Bytes)
      → All NoSlash st
      → length p < fuel
      → canon_loop fuel outsz p (buffer st) ≡ map_buffer (walk outsz (split p) st)
  unfolding canon_loop
  canon_loop-walk zero p st a h = elim h [ ]
  canon_loop-walk (suc fuel) p st a h =
      go (skip_slashes p) refl (λ r st' a' lt. canon_loop-walk fuel r st' a' lt)
      ∙ ap map_buffer (walk-skip p st)
    where
      step :
          (xs rest : Bytes) (o : Option (List Bytes))
          → rest ≡ (component xs).1
          → ((st' : List Bytes)
              → All NoSlash st'
              → canon_loop fuel outsz (component xs).1 (buffer st')
                ≡ map_buffer (walk outsz (split (component xs).1) st'))
          → OnSome (All NoSlash) o
          → elim (map_buffer o) [ none ↦ none | some out' ↦ canon_loop fuel outsz rest out' ]
            ≡ map_buffer (bind_option o (walk outsz (tail_fields (component xs).1)))
      step xs rest none e k n = refl
      step xs rest (some st') e k n =
          ap (λ r. canon_loop fuel outsz r (buffer st')) e
          ∙ k st' n
          ∙ ap map_buffer (sym (walk-tail (component xs).1 st' (component-AtSlash xs)))

      shorter : (x : ℕ) (xs : Bytes) → skip_slashes p ≡ x ∷ xs → length (component xs).1 < fuel
      shorter x xs e = omega (arith, length-component xs, length-skip_slashes p, ap length e)

      named : (x : ℕ) (xs : Bytes) → skip_slashes p ≡ x ∷ xs → NoSlash (x ∷ (component xs).0)
      named x xs e = (ground (arith, skip_slashes_head p x xs e), component-NoSlash xs)

      go :
          (q : Bytes)
          → skip_slashes p ≡ q
          → ((r : Bytes) (st' : List Bytes)
              → All NoSlash st'
              → length r < fuel
              → canon_loop fuel outsz r (buffer st') ≡ map_buffer (walk outsz (split r) st'))
          → canon_loop (suc fuel) outsz p (buffer st)
            ≡ map_buffer (walk outsz (split (skip_slashes p)) st)
      go [] e k = rw (e, canon_loop) (unfold walk visit split in refl)
      go (x ∷ xs) e k =
          rw
            (
              e,
              canon_loop,
              split-component (x ∷ xs),
              component_first x xs (skip_slashes_head p x xs e),
            )
            (rw (put_component-visit outsz x (component xs).0 st a) (
              unfold walk in
              step xs (component (x ∷ xs)).1 (visit outsz (x ∷ (component xs).0) st)
                (ap (λ (t : Bytes × Bytes). t.1)
                  (component_first x xs (skip_slashes_head p x xs e)))
                (λ st' a'. k (component xs).1 st' a' (shorter x xs e))
                (visit-All NoSlash (x ∷ (component xs).0) st (λ _ _ _. named x xs e) a)))

-- A stack of names as the path that it stands for.
abbrev pub as_path : List Bytes → Bytes
as_path [] = slash ∷ []
as_path (c ∷ st) = render (c ∷ st)

abbrev pub map_path : Option (List Bytes) → Option Bytes
map_path none = none
map_path (some st) = some (as_path st)

finish-append : (xs ys : Bytes) (y : ℕ) → finish (xs ++ y ∷ ys) ≡ reverse (xs ++ y ∷ ys)
finish-append [] ys y = refl
finish-append (x ∷ xs) ys y = refl

finish-buffer : (st : List Bytes) → finish (buffer st) ≡ as_path st
finish-buffer [] = refl
finish-buffer (c ∷ st) = finish-append (reverse c) (buffer st) slash ∙ reverse-buffer (c ∷ st)

finish-map_buffer : (o : Option (List Bytes)) → finish_option (map_buffer o) ≡ map_path o
finish-map_buffer none = refl
finish-map_buffer (some st) = ap some (finish-buffer st)

-- Canonicalization is the walk over the path's fields from the root, for every buffer size: an
-- empty field and "." stay, ".." goes up and stays at the root, and a name goes down, or fails
-- where the path so far does not fit. The result is the stack of names as an absolute path, so the
-- loop has fuel enough.
pub path_canon-walk :
    (p : Bytes) (outsz : ℕ) → path_canon p outsz ≡ map_path (walk outsz (split p) [])
unfolding path_canon
path_canon-walk p outsz =
    ap finish_option (canon_loop-walk outsz (length p + 1) p [] tt (omega arith))
    ∙ finish-map_buffer (walk outsz (split p) [])
