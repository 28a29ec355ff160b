-- ===== src/Path/Fields.antt =====
-- What a path means, said without a buffer: its fields between slashes, walked over a stack of names.
use mathlib.Core.List.{append_assoc, reverse-append, reverse-reverse}
use fake_chroot_ng.Prelude.{
  ℕ, ◌+◌, ◌≡◌, ◌≢◌, refl, sym, ap, ◌∙◌, inl, inr, Bool, true, false, Option, none, some, List, [],
  ◌∷◌, ◌++◌, reverse, arith, leb, ◌==◌, if◌then◌else◌, length, length-append, All, Bool-cases,
}
use fake_chroot_ng.Bytes.{Bytes}
use fake_chroot_ng.Path.{slash, is_dot, is_dotdot, drop_to_slash, drop_one, put_component}

-- The text before the first slash joined to a field list.
abbrev pub cons_head : ℕ → List Bytes → List Bytes
cons_head x [] = (x ∷ []) ∷ []
cons_head x (f ∷ fs) = (x ∷ f) ∷ fs

-- The fields between the slashes, the empty ones included.
unfoldable pub split : Bytes → List Bytes
split [] = [] ∷ []
split (x ∷ xs) = let fs = split xs in if x == slash then [] ∷ fs else cons_head x fs

-- A stack of names, the last one first, as an absolute path; `""` for the root.
unfoldable pub render : List Bytes → Bytes
render [] = []
render (c ∷ st) = render st ++ slash ∷ c

abbrev pub pop : List Bytes → List Bytes
pop [] = []
pop (c ∷ st) = st

-- An empty field and "." stay, ".." goes up (from the root to the root), any other goes down, if
-- the path then fits.
unfoldable pub visit : ℕ → Bytes → List Bytes → Option (List Bytes)
visit outsz [] st = some st
visit outsz (x ∷ c) st =
    if is_dot (x ∷ c)
    then some st
    else if is_dotdot (x ∷ c)
    then some (pop st)
    else if leb outsz (length (render st) + 1 + length (x ∷ c))
    then none
    else some ((x ∷ c) ∷ st)

abbrev pub bind_option {ℓ κ} : {A : Type ℓ} {B : Type κ} → Option A → (A → Option B) → Option B
bind_option none f = none
bind_option (some a) f = f a

unfoldable pub walk : ℕ → List Bytes → List Bytes → Option (List Bytes)
walk outsz [] st = some st
walk outsz (f ∷ fs) st = bind_option (visit outsz f st) (walk outsz fs)

abbrev pub NoSlash : Bytes → Type 0
NoSlash = All (λ x. x ≢ slash)

-- A name: not empty, with no slash, and neither "." nor "..".
pub record IsName (c : Bytes) : Type 0 where
  pub plain : NoSlash c
  pub some_byte : c ≢ []
  pub no_dot : is_dot c ≡ false
  pub no_dotdot : is_dotdot c ≡ false

-- The output buffer that holds a stack, with its last byte first.
abbrev pub buffer : List Bytes → Bytes
buffer [] = []
buffer (c ∷ st) = reverse c ++ slash ∷ buffer st

All-append {ℓ} : (P : ℕ → Type ℓ) (xs ys : List ℕ) → All P xs → All P ys → All P (xs ++ ys)
All-append P [] ys a b = b
All-append P (x ∷ xs) ys a b = (a.0, All-append P xs ys a.1 b)

pub NoSlash-reverse : (c : Bytes) → NoSlash c → NoSlash (reverse c)
NoSlash-reverse [] a = tt
NoSlash-reverse (x ∷ xs) a =
    rw (reverse-append (x ∷ []) xs)
      (All-append _ (reverse xs) (x ∷ []) (NoSlash-reverse xs a.1) (a.0, tt))

pub drop_to_slash-append :
    (c out : Bytes) → NoSlash c → drop_to_slash (c ++ slash ∷ out) ≡ slash ∷ out
unfolding drop_to_slash
drop_to_slash-append [] out a = refl
drop_to_slash-append (x ∷ c) out a = ground (arith, drop_to_slash-append c out a.1)

abbrev pub map_buffer : Option (List Bytes) → Option Bytes
map_buffer none = none
map_buffer (some st) = some (buffer st)

pub reverse-buffer : (st : List Bytes) → reverse (buffer st) ≡ render st
unfolding render
reverse-buffer [] = refl
reverse-buffer (c ∷ st) =
    reverse-append (reverse c) (slash ∷ buffer st)
    ∙ ap (λ w. w ++ reverse (reverse c)) (reverse-append (slash ∷ []) (buffer st))
    ∙ rw (reverse-buffer st, reverse-reverse) (append_assoc (render st) (slash ∷ []) c)

pub length-reverse : (c : Bytes) → length (reverse c) ≡ length c
length-reverse [] = refl
length-reverse (x ∷ xs) =
    ap length (reverse-append (x ∷ []) xs)
    ∙ omega (arith, length-append (reverse xs) (x ∷ []), length-reverse xs)

pub length-buffer : (st : List Bytes) → length (buffer st) ≡ length (render st)
length-buffer st = sym (length-reverse (buffer st)) ∙ ap length (reverse-buffer st)

-- `put_component` on the buffer of a stack is `visit` on the stack.
pop-buffer :
    (st : List Bytes) → All NoSlash st → drop_one (drop_to_slash (buffer st)) ≡ buffer (pop st)
unfolding drop_to_slash
pop-buffer [] a = refl
pop-buffer (c ∷ st) a =
    ap drop_one (drop_to_slash-append (reverse c) (buffer st) (NoSlash-reverse c a.0))

pub put_component-visit :
    (outsz x : ℕ) (c : Bytes) (st : List Bytes)
    → All NoSlash st
    → put_component outsz (x ∷ c) (buffer st) ≡ map_buffer (visit outsz (x ∷ c) st)
unfolding put_component visit
put_component-visit outsz x c st a = elim (Bool-cases (is_dot (x ∷ c))) [
  | inl e ↦ rw e
  | inr e ↦ elim (Bool-cases (is_dotdot (x ∷ c))) [
    | inl f ↦ rw (e, f) (ap some (pop-buffer st a))
    | inr f ↦
        rw (e, f, length-buffer st) (fits (leb outsz (length (render st) + 1 + length (x ∷ c))))
  ]
]
  where
    fits :
        (b : Bool)
        → (if b then none else some (reverse (x ∷ c) ++ slash ∷ buffer st))
          ≡ map_buffer (if b then none else some ((x ∷ c) ∷ st))
    fits true = refl
    fits false = refl
