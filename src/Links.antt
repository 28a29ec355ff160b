-- ===== src/Links.antt =====
-- src/monitor/l2s.c: the names of the files that stand behind an emulated hard link, their grammar,
-- and how they are written.
pub mod Digits
pub mod Names
pub mod Exact
pub mod Built
pub mod Grammar
pub mod Place
pub mod Owned
pub mod Located
pub mod Lexical
pub mod Marker
mod Tests
use fake_chroot_ng.Prelude.{
  ℕ, zero, suc, ◌+◌, ◌-◌, ◌*◌, ◌/◌, ◌%◌, ◌≡◌, ◌<◌, Bool, true, false, not, ◌&&◌, ◌||◌, Option, none,
  some, List, [], ◌∷◌, ◌++◌, ltb, leb, ◌==◌, if◌then◌else◌, length, take, drop,
}
use fake_chroot_ng.Bytes.{Bytes, bytes, strncmp_eq, cut}
use fake_chroot_ng.Path.{slash, dot}

abbrev pub u64_max : ℕ
u64_max = 0xffff_ffff_ffff_ffff

abbrev pub is_digit : ℕ → Bool
is_digit c = leb b'0' c && leb c b'9'

-- `L2S_PREFIX`
abbrev pub l2s_prefix : Bytes
l2s_prefix = bytes ".l2s."

abbrev pub l2s_prefix_len : ℕ
l2s_prefix_len = 5

-- `v > (~0ULL - d) / 10`: one digit more does not fit.
abbrev pub overflows : ℕ → ℕ → Bool
overflows v d = ltb ((u64_max - d) / 10) v

-- The loop of `parse_u64`: whether the run was too wide, its value, and what follows it.
unfoldable pub digit_run : Bool → ℕ → Bytes → Bool × ℕ × Bytes
digit_run wide v [] = (wide, v, [])
digit_run wide v (c ∷ p) =
    let rest =
      digit_run (wide || overflows v (c - b'0'))
        (if overflows v (c - b'0') then v else v * 10 + (c - b'0')) p in
    if is_digit c then rest else (wide, v, c ∷ p)

-- What `parse_u64` answers: no digits, a value, or a run that does not fit; `*end` with the last two.
pub data Number : Type 0 where
  no_digits : Number
  value : ℕ → Bytes → Number
  too_wide : Bytes → Number

abbrev pub number_of : Bool × ℕ × Bytes → Number
number_of (true, v, rest) = too_wide rest
number_of (false, v, rest) = value v rest

unfoldable pub parse_u64 : Bytes → Number
unfolding digit_run
parse_u64 [] = no_digits
parse_u64 (c ∷ p) = if is_digit c then number_of (digit_run false 0 (c ∷ p)) else no_digits

-- The answer of `parse_field`; a caller that passes no `out` gets 0, which it does not read.
abbrev pub field_of : Bool → Number → Option (ℕ × Bytes)
field_of want no_digits = none
field_of want (value v rest) = some (v, rest)
field_of want (too_wide rest) = if want then none else some (0, rest)

unfoldable pub parse_field : Bool → Bytes → Option (ℕ × Bytes)
unfolding parse_u64
parse_field want p = field_of want (parse_u64 p)

abbrev pub whole : Option (ℕ × Bytes) → Option ℕ
whole none = none
whole (some (v, [])) = some v
whole (some (v, c ∷ rest)) = none

-- `parse_data`
unfoldable pub parse_data : Bool → Bytes → Option ℕ
unfolding parse_field
parse_data want name =
    if strncmp_eq name l2s_prefix l2s_prefix_len
    then whole (parse_field want (drop l2s_prefix_len name))
    else none

abbrev pub paired : ℕ → Option ℕ → Option (ℕ × ℕ)
paired v none = none
paired v (some c) = some (v, c)

-- The second half of `parse_marker`: the separator and the count.
unfoldable pub parse_count : Bool → Option (ℕ × Bytes) → Option (ℕ × ℕ)
unfolding parse_field
parse_count want none = none
parse_count want (some (v, [])) = none
parse_count want (some (v, c ∷ rest)) =
    if c == dot then paired v (whole (parse_field want rest)) else none

-- `parse_marker`
unfoldable pub parse_marker : Bool → Bytes → Option (ℕ × ℕ)
unfolding parse_field parse_count
parse_marker want name =
    if strncmp_eq name l2s_prefix l2s_prefix_len
    then parse_count want (parse_field want (drop l2s_prefix_len name))
    else none

abbrev pub is_some {ℓ} : {A : Type ℓ} → Option A → Bool
is_some none = false
is_some (some a) = true

-- `cng_l2s_hidden`
unfoldable pub hidden : Bytes → Bool
unfolding parse_data parse_marker
hidden name = is_some (parse_data false name) || is_some (parse_marker false name)

-- `strrchr(path, '/')`: what stands before the last slash, and behind it.
unfoldable pub strrchr_slash : Bytes → Option (Bytes × Bytes)
strrchr_slash [] = none
strrchr_slash (x ∷ s) = elim (strrchr_slash s) [
  | none ↦ if x == slash then some ([], s) else none
  | some (a, b) ↦ some (x ∷ a, b)
]

abbrev pub behind : Bytes → Option (Bytes × Bytes) → Bytes
behind path none = path
behind path (some (a, b)) = b

-- `l2s_basename`
unfoldable pub basename : Bytes → Bytes
unfolding strrchr_slash
basename path = behind path (strrchr_slash path)

abbrev pub before : ℕ → Option (Bytes × Bytes) → Bytes
before sz none = cut (slash ∷ []) sz
before sz (some ([], b)) = cut (slash ∷ []) sz
before sz (some (x ∷ a, b)) = take (sz - 1) (x ∷ a)

-- `l2s_dirname`
unfoldable pub dirname : Bytes → ℕ → Bytes
unfolding strrchr_slash
dirname path sz = before sz (strrchr_slash path)

-- The first loop of `put_u64`: the digits of a number from the first, before what `tmp` has. A
-- number has fewer rounds than its value and one more.
unfoldable pub digits_onto : ℕ → ℕ → Bytes → Bytes
digits_onto zero v tmp = tmp
digits_onto (suc fuel) v tmp = elim (v / 10 == 0) [
  | true ↦ (b'0' + v % 10) ∷ tmp
  | false ↦ digits_onto fuel (v / 10) ((b'0' + v % 10) ∷ tmp)
]

-- `while (n < width) tmp[n++] = '0';`
unfoldable pub zeros_onto : ℕ → Bytes → Bytes
zeros_onto zero tmp = tmp
zeros_onto (suc n) tmp = zeros_onto n (b'0' ∷ tmp)

-- `tmp` of `put_u64`, from its last byte to its first.
unfoldable pub decimal : ℕ → ℕ → Bytes
unfolding digits_onto zeros_onto
decimal v width = let tmp = digits_onto (suc v) v [] in zeros_onto (width - length tmp) tmp

-- A buffer with `room` bytes before `end`: what was stored, and how far `p` is from the start.
pub record Out : Type 0 where
  pub text : Bytes
  pub pos : ℕ

-- `if (p < end) *p = c; p++`
abbrev pub put : ℕ → ℕ → Out → Out
put room c o = record {
  text = if ltb o.pos room then o.text ++ c ∷ [] else o.text;
  pos = o.pos + 1;
}

-- The last loop of `put_u64`.
unfoldable pub put_all : ℕ → Bytes → Out → Out
put_all room [] o = o
put_all room (c ∷ s) o = put_all room s (put room c o)

unfoldable pub put_u64 : ℕ → ℕ → ℕ → Out → Out
unfolding put_all decimal
put_u64 room v width o = put_all room (decimal v width) o

-- `if (p < end) *p++ = c;`
abbrev pub put_if : ℕ → ℕ → Out → Out
put_if room c o = if ltb o.pos room then record { text = o.text ++ c ∷ []; pos = o.pos + 1 } else o

-- `p += cng_strlcpy(p, s, (size_t)(end - p) + 1)`
abbrev pub put_str : ℕ → Bytes → Out → Out
put_str room s o = record { text = o.text ++ cut s (room - o.pos + 1); pos = o.pos + length s }

abbrev pub start : Out
start = record { text = []; pos = 0 }

-- `strcmp(a, b) == 0`
unfoldable pub strcmp_eq : Bytes → Bytes → Bool
strcmp_eq [] [] = true
strcmp_eq [] (y ∷ b) = false
strcmp_eq (x ∷ a) [] = false
strcmp_eq (x ∷ a) (y ∷ b) = x == y && strcmp_eq a b

-- Whether a name that `parse_data` took is the one that its number has.
unfoldable pub exact_data : Bytes → Option ℕ → Option ℕ
unfolding put_u64 strcmp_eq
exact_data name none = none
exact_data name (some v) =
    if strcmp_eq (put_u64 23 v 1 start).text (drop l2s_prefix_len name) then some v else none

unfoldable pub parse_data_exact : Bytes → Option ℕ
unfolding parse_data exact_data
parse_data_exact name = exact_data name (parse_data true name)

-- What `parse_marker_exact` writes into `tmp`.
unfoldable pub marker_tmp : ℕ → ℕ → Out
unfolding put_u64
marker_tmp v c = put_u64 47 c 4 (put_if 47 dot (put_u64 47 v 1 start))

-- Whether a name that `parse_marker` took is the one that its numbers have.
unfoldable pub exact_marker : Bytes → Option (ℕ × ℕ) → Option (ℕ × ℕ)
unfolding marker_tmp strcmp_eq
exact_marker name none = none
exact_marker name (some (v, c)) =
    if ltb 47 (marker_tmp v c).pos
    then none
    else if strcmp_eq (marker_tmp v c).text (drop l2s_prefix_len name)
    then some (v, c)
    else none

unfoldable pub parse_marker_exact : Bytes → Option (ℕ × ℕ)
unfolding parse_marker exact_marker
parse_marker_exact name = exact_marker name (parse_marker true name)

unfoldable pub ends_in_slash : Bytes → Bool
ends_in_slash [] = false
ends_in_slash (x ∷ []) = x == slash
ends_in_slash (x ∷ y ∷ s) = ends_in_slash (y ∷ s)

-- The number in `build_name`, and the count if there is one.
unfoldable pub put_number : ℕ → ℕ → Option ℕ → Out → Out
unfolding put_u64
put_number room ino none o = put_u64 room ino 1 o
put_number room ino (some c) o = put_u64 room c 4 (put_if room dot (put_u64 room ino 1 o))

-- Its end: the test of the room.
abbrev pub ended : ℕ → Out → Option Bytes
ended room o = if ltb room o.pos then none else some o.text

-- Its middle: the number, if the prefix left room.
unfoldable pub behind_prefix : ℕ → ℕ → Option ℕ → Out → Option Bytes
unfolding put_number
behind_prefix room ino count o =
    if leb room o.pos then none else ended room (put_number room ino count o)

-- The separator and the prefix.
unfoldable pub build_prefix : ℕ → Bool → ℕ → Option ℕ → Out → Option Bytes
unfolding behind_prefix
build_prefix room need_sep ino count o =
    behind_prefix room ino count
      (put_str room l2s_prefix (if need_sep then put_if room slash o else o))

-- The directory, if there is room for it, and the rest.
unfoldable pub build_at : ℕ → Bytes → ℕ → Option ℕ → Option Bytes
unfolding build_prefix ends_in_slash
build_at room dir ino count =
    if ltb room (put_str room dir start).pos
    then none
    else build_prefix room (not (ends_in_slash dir)) ino count (put_str room dir start)

-- `build_name(out, sz, dir, ino, count)` for a `sz` above 0: the path, or `none` for
-- -ENAMETOOLONG; a negative count is `none`.
unfoldable pub build_name : ℕ → Bytes → ℕ → Option ℕ → Option Bytes
unfolding build_at
build_name sz dir ino count = build_at (sz - 1) dir ino count
