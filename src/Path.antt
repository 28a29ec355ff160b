-- ===== src/Path.antt =====
-- src/path/path.c: the guest's view of the file system, and lexical canonicalization.
pub mod View
pub mod Change
pub mod Choice
pub mod Mounts
pub mod Fields
pub mod Canon
pub mod Canonical
pub mod Root
pub mod Held
pub mod Invariant
pub mod RoundTrip
pub mod Back
pub mod Hidden
mod Tests
use fake_chroot_ng.Prelude.{
  ℕ, zero, suc, ◌+◌, ◌-◌, Bool, true, false, ◌&&◌, ◌||◌, Option, none, some, List, [], ◌∷◌, ◌++◌,
  reverse, ltb, leb, ◌==◌, ◌!=◌, if◌then◌else◌, length,
}
use fake_chroot_ng.Bytes.{Bytes}

abbrev pub slash : ℕ
slash = b'/'

abbrev pub dot : ℕ
dot = b'.'

abbrev pub path_max : ℕ
path_max = 4096

-- `while (*p == '/') p++;`
unfoldable pub skip_slashes : Bytes → Bytes
skip_slashes [] = []
skip_slashes (x ∷ xs) = let rest = skip_slashes xs in if x == slash then rest else x ∷ xs

-- `while (*p && *p != '/') p++;`: the component, and what follows.
unfoldable pub component : Bytes → Bytes × Bytes
component [] = ([], [])
component (x ∷ xs) =
    let rest = component xs in if x == slash then ([], x ∷ xs) else (x ∷ rest.0, rest.1)

abbrev pub is_dot : Bytes → Bool
is_dot (x ∷ []) = x == dot
is_dot _ = false

abbrev pub is_dotdot : Bytes → Bool
is_dotdot (x ∷ y ∷ []) = x == dot && y == dot
is_dotdot _ = false

-- The output buffer is held with its last byte first.
-- `while (olen > 0 && out[olen - 1] != '/') olen--;`
unfoldable pub drop_to_slash : Bytes → Bytes
drop_to_slash [] = []
drop_to_slash (x ∷ out) = let rest = drop_to_slash out in if x == slash then x ∷ out else rest

-- `if (olen > 0) olen--;`
abbrev pub drop_one : Bytes → Bytes
drop_one [] = []
drop_one (x ∷ out) = out

-- What one component does to the output; `none` where it does not fit.
unfoldable pub put_component : ℕ → Bytes → Bytes → Option Bytes
unfolding drop_to_slash
put_component outsz c out =
    if is_dot c
    then some out
    else if is_dotdot c
    then some (drop_one (drop_to_slash out))
    else if leb outsz (length out + 1 + length c)
    then none
    else some (reverse c ++ slash ∷ out)

-- The loop of `cng_path_canon`.
unfoldable pub canon_loop : ℕ → ℕ → Bytes → Bytes → Option Bytes
canon_loop zero outsz p out = none
canon_loop (suc fuel) outsz p out = elim (skip_slashes p) [
  | [] ↦ some out
  | x ∷ xs ↦ elim (put_component outsz (component (x ∷ xs)).0 out) [
    | none ↦ none
    | some out' ↦ canon_loop fuel outsz (component (x ∷ xs)).1 out'
  ]
]

-- The end of `cng_path_canon`: an empty output is the root.
abbrev pub finish : Bytes → Bytes
finish [] = slash ∷ []
finish (x ∷ out) = reverse (x ∷ out)

abbrev pub finish_option : Option Bytes → Option Bytes
finish_option none = none
finish_option (some out) = some (finish out)

-- `cng_path_canon(abs, out, outsz)`: the path, or `none` for -1.
unfoldable pub path_canon : Bytes → ℕ → Option Bytes
unfolding canon_loop put_component skip_slashes component
path_canon abs outsz = finish_option (canon_loop (length abs + 1) outsz abs [])

-- The loop of `cng_path_wants_dir`, over the path with its last byte first.
unfoldable pub wants_loop : Bool → Bytes → Bool
wants_loop want [] = want
wants_loop want (x ∷ []) = if x == slash || x == dot then true else want
wants_loop want (x ∷ y ∷ p) =
    let again = wants_loop true (y ∷ p) in
    if x == slash || (x == dot && y == slash) then again else want

unfoldable pub wants_dir : Bytes → Bool
unfolding wants_loop
wants_dir path = wants_loop false (reverse path)
