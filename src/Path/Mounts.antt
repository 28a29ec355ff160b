-- ===== src/Path/Mounts.antt =====
-- Which mount answers a guest path, for every view: `mount_of_1` of src/path/path.c.
use mathlib.Core.Option.{some-injective}
use mathlib.Core.Path.{subst}
use fake_chroot_ng.Prelude.{
  ℕ, zero, suc, ◌<◌, ◌≡◌, ◌⊎◌, refl, sym, ap, ◌∙◌, true, false, not, ◌||◌, Option, none, some, List,
  [], ◌∷◌, ◌++◌, arith, get_elem?, length, drop, Bool-cases, inl, inr,
}
use fake_chroot_ng.Bytes.{Bytes, bytes}
use fake_chroot_ng.Bytes.Prefix.{strncmp_eq-prefix, strncmp_eq-append, drop-append}
use fake_chroot_ng.Path.{slash}
use fake_chroot_ng.Path.View.{
  Bind, Fs, Zones, Mount, at_boundary, is_end, under, longest, guest_matches, mount_of, mount_or,
  zone_of, proc_zone, dev_nodes, find_node, dev_zone_node, bind, proc, dev, rootfs,
}
use fake_chroot_ng.Path.Choice.{NoneLonger, Chosen, nothing, this, longest-Chosen}

-- No bind with a prefix of at least one byte matches the path.
abbrev pub NoBind : Fs → Bytes → Type 0
NoBind fs canon = NoneLonger (guest_matches canon) (λ b. b.glen) 0 fs.binds

-- Nothing, or a slash and more.
abbrev pub IsBehind : Bytes → Type 0
IsBehind rest = (rest ≡ []) ⊎ ((tail : Bytes) × (rest ≡ slash ∷ tail))

-- The path is the prefix, or lies under it.
abbrev pub IsUnder : Bytes → Bytes → Type 0
IsUnder pfx p = (rest : Bytes) × (p ≡ pfx ++ rest) × IsBehind rest

abbrev pub InProc : Zones → Bytes → Type 0
InProc z canon = (z.no_proc ≡ false) × IsUnder (bytes "/proc") canon

-- The path is /dev/<name>, or lies under it, for the entry `i` of the table, and `rest` is what is
-- behind the name.
abbrev pub IsNode : Zones → Bytes → ℕ → Bytes → Bytes → Bytes → Type 0
IsNode z canon i name host rest =
    (z.no_dev ≡ false)
    × (get_elem? (dev_nodes z) i ≡ some (name, host))
    × (canon ≡ bytes "/dev/" ++ (name ++ rest))
    × IsBehind rest

-- What each verdict says of the view and the path.
abbrev pub Answers : Zones → Fs → Bytes → Mount → Type 0
Answers z fs canon (bind i b) =
    (get_elem? fs.binds i ≡ some b)
    × (guest_matches canon b ≡ true)
    × (0 < b.glen)
    × NoneLonger (guest_matches canon) (λ b'. b'.glen) b.glen fs.binds
Answers z fs canon proc = NoBind fs canon × InProc z canon
Answers z fs canon (dev host rest) =
    NoBind fs canon
    × (¬ InProc z canon)
    × (i : ℕ) × (name : Bytes) × IsNode z canon i name host rest
Answers z fs canon rootfs =
    NoBind fs canon
    × (¬ InProc z canon)
    × ((i : ℕ) (name host rest : Bytes) → ¬ IsNode z canon i name host rest)

pub at_boundary-IsBehind : (rest : Bytes) → at_boundary rest ≡ true → IsBehind rest
at_boundary-IsBehind [] e = inl refl
at_boundary-IsBehind (x ∷ rest) e = inr (rest, ap (λ y. y ∷ rest) (ground (arith, e)))

pub IsBehind-at_boundary : (rest : Bytes) → IsBehind rest → at_boundary rest ≡ true
IsBehind-at_boundary rest (inl e) = rw e refl
IsBehind-at_boundary rest (inr (tail, e)) = rw e refl

under-IsUnder : (p pfx : Bytes) → under p pfx (length pfx) ≡ true → IsUnder pfx p
under-IsUnder p pfx e = (
  drop (length pfx) p,
  strncmp_eq-prefix p pfx (ground arith),
  at_boundary-IsBehind (drop (length pfx) p) (ground (arith, e)),
)

IsUnder-under : (p pfx : Bytes) → IsUnder pfx p → under p pfx (length pfx) ≡ true
IsUnder-under p pfx (rest, e, b) =
    rw e (rw (strncmp_eq-append pfx rest, drop-append pfx rest) (IsBehind-at_boundary rest b))

proc_zone-InProc : (z : Zones) (canon : Bytes) → proc_zone z canon ≡ true → InProc z canon
unfolding proc_zone
proc_zone-InProc z canon e =
    (ground (arith, e), under-IsUnder canon (bytes "/proc") (ground (arith, e)))

not-InProc : (z : Zones) (canon : Bytes) → proc_zone z canon ≡ false → ¬ InProc z canon
unfolding proc_zone
not-InProc z canon e (on, u) = ground (arith, e, on, IsUnder-under canon (bytes "/proc") u)

-- The entry that the loop answers,
find_node-some :
    (leaf : Bytes) (nodes : List (Bytes × Bytes)) (host rest : Bytes)
    → find_node leaf nodes ≡ some (host, rest)
    → (i : ℕ) × (name : Bytes) × (get_elem? nodes i ≡ some (name, host))
      × (leaf ≡ name ++ rest)
      × IsBehind rest
unfolding find_node
find_node-some leaf [] host rest e = cc
find_node-some leaf ((name, h) ∷ nodes) host rest e =
    elim (Bool-cases (under leaf name (length name))) [
      | inl u ↦
          let k = some-injective (h, drop (length name) leaf) (host, rest) (sym (rw u refl) ∙ e) in
          let (tail, s, b) = under-IsUnder leaf name u in
          let t : drop (length name) leaf ≡ tail =
            ap (drop (length name)) s ∙ drop-append name tail in
          let r : tail ≡ rest = sym t ∙ ap (λ (m : Bytes × Bytes). m.1) k in
          (
            0,
            name,
            ap (λ x. some (name, x)) (ap (λ (m : Bytes × Bytes). m.0) k),
            s ∙ ap (λ x. name ++ x) r,
            subst IsBehind r b,
          )
      | inr u ↦
          let k = find_node-some leaf nodes host rest (sym (rw u refl) ∙ e) in
          (suc k.0, k.1, k.2, k.3, k.4)
    ]

-- and that there is none where it answers none.
find_node-none :
    (leaf : Bytes) (nodes : List (Bytes × Bytes))
    → find_node leaf nodes ≡ none
    → (i : ℕ) (name host rest : Bytes) → get_elem? nodes i ≡ some (name, host)
    → leaf ≡ name ++ rest
    → IsBehind rest
    → ⊥
unfolding find_node
find_node-none leaf [] e i name host rest g s b = cc
find_node-none leaf ((n, h) ∷ nodes) e i name host rest g s b =
    elim (Bool-cases (under leaf n (length n))) [
      | inl u ↦ absurd (hit (sym (rw u refl) ∙ e))
      | inr u ↦
          at i g u (λ j q. find_node-none leaf nodes (sym (rw u refl) ∙ e) j name host rest q s b)
    ]
  where
    hit : ◌≡◌ {A = Option (Bytes × Bytes)} (some (h, drop (length n) leaf)) none → ⊥
    hit q = cc

    at :
        (i : ℕ)
        → get_elem? ((n, h) ∷ nodes) i ≡ some (name, host)
        → under leaf n (length n) ≡ false
        → ((j : ℕ) → get_elem? nodes j ≡ some (name, host) → ⊥)
        → ⊥
    at zero g u q =
        let k : n ≡ name = ap (λ (m : Bytes × Bytes). m.0) (some-injective (n, h) (name, host) g) in
        let hit = IsUnder-under leaf name (rest, s, b) in
        ground (arith, u, subst (λ x. under leaf x (length x) ≡ true) (sym k) hit)
    at (suc i) g u q = q i g

-- A path under /dev that is not /dev itself, and what is behind the slash.
under_dev :
    (canon : Bytes)
    → (not (under canon (bytes "/dev") 4) || is_end (drop 4 canon)) ≡ false
    → canon ≡ bytes "/dev/" ++ drop 5 canon
under_dev canon e =
    let (rest, s, b) = under-IsUnder canon (bytes "/dev") (ground (arith, e)) in
    let t : (not (under canon (bytes "/dev") 4) || is_end rest) ≡ false =
      subst (λ x. (not (under canon (bytes "/dev") 4) || is_end x) ≡ false)
        (ap (drop 4) s ∙ drop-append (bytes "/dev") rest) e in
    s
    ∙ ap (λ x. bytes "/dev" ++ x) (go rest (IsBehind-at_boundary rest b) (ground (arith, t)))
    ∙ ap (λ x. bytes "/dev/" ++ x) (sym (ap (drop 5) s ∙ behind rest))
  where
    go : (rest : Bytes) → at_boundary rest ≡ true → is_end rest ≡ false → rest ≡ slash ∷ drop 1 rest
    go [] b f = cc
    go (x ∷ rest) b f = ap (λ y. y ∷ rest) (ground (arith, b))

    behind : (rest : Bytes) → drop 5 (bytes "/dev" ++ rest) ≡ drop 1 rest
    behind rest = refl

dev_zone_node-some :
    (z : Zones) (canon host rest : Bytes)
    → dev_zone_node z canon ≡ some (host, rest)
    → (i : ℕ) × (name : Bytes) × IsNode z canon i name host rest
unfolding dev_zone_node
dev_zone_node-some z canon host rest e =
    elim (Bool-cases (z.no_dev || not (under canon (bytes "/dev") 4) || is_end (drop 4 canon))) [
      | inl o ↦ absurd (ground (arith, o, e))
      | inr o ↦
          let k = find_node-some (drop 5 canon) (dev_nodes z) host rest (sym (rw o refl) ∙ e) in
          (
            k.0,
            k.1,
            (
              ground (arith, o),
              k.2,
              under_dev canon (ground (arith, o)) ∙ ap (λ x. bytes "/dev/" ++ x) k.3,
              k.4,
            ),
          )
    ]

dev_zone_node-none :
    (z : Zones) (canon : Bytes)
    → dev_zone_node z canon ≡ none
    → (i : ℕ) (name host rest : Bytes) → ¬ IsNode z canon i name host rest
unfolding dev_zone_node
dev_zone_node-none z canon e i name host rest (on, g, s, b) =
    find_node-none (drop 5 canon) (dev_nodes z) (looked s) i name host rest g (ap (drop 5) s) b
  where
    looked : canon ≡ bytes "/dev/" ++ (name ++ rest) → find_node (drop 5 canon) (dev_nodes z) ≡ none
    looked s = sym (rw (on, u, ap (drop 4) s) refl) ∙ e
      where
        u : under canon (bytes "/dev") 4 ≡ true
        u = IsUnder-under canon (bytes "/dev") (slash ∷ (name ++ rest), s, inr (name ++ rest, refl))

zone-Answers :
    (z : Zones) (fs : Fs) (canon : Bytes)
    → NoBind fs canon
    → Answers z fs canon (mount_or z canon none)
unfolding mount_or
zone-Answers z fs canon n = elim (Bool-cases (proc_zone z canon)) [
  | inl p ↦ rw p (n, proc_zone-InProc z canon p)
  | inr p ↦ rw p (go (not-InProc z canon p) (dev_zone_node z canon) refl)
]
  where
    go :
        ¬ InProc z canon
        → (o : Option (Bytes × Bytes)) → dev_zone_node z canon ≡ o
        → Answers z fs canon (zone_of o)
    go p none e = (n, p, dev_zone_node-none z canon e)
    go p (some (h, r)) e = let k = dev_zone_node-some z canon h r e in (n, p, k.0, k.1, k.2)

bind-Answers :
    (z : Zones) (fs : Fs) (canon : Bytes) (o : Option (ℕ × Bind))
    → Chosen (guest_matches canon) (λ b. b.glen) fs.binds 0 o
    → Answers z fs canon (mount_or z canon o)
bind-Answers z fs canon o (nothing n) = zone-Answers z fs canon n
bind-Answers z fs canon o (this i b e m l n) = unfold mount_or in (e, m, l, n)

-- The mount that answers a guest path: a bind where one with a prefix of at least one byte
-- matches, and then one that matches with the longest prefix of all; else the /proc zone, where it
-- is on and the path is /proc or under it; else a node of the table, where the /dev zone is on and
-- the path is /dev/<name of the node> or under it, with its host path and what follows the name;
-- else the rootfs, and then the path is in neither zone.
pub mount_of-Answers :
    (z : Zones) (fs : Fs) (canon : Bytes) → Answers z fs canon (mount_of z fs canon)
unfolding mount_of
mount_of-Answers z fs canon =
    bind-Answers z fs canon (longest (guest_matches canon) (λ b. b.glen) fs.binds 0 none 0)
      (longest-Chosen (guest_matches canon) (λ b. b.glen) fs.binds 0)
