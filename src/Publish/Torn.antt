-- ===== src/Publish/Torn.antt =====
-- No read of the published view that passes its check is torn.
use fake_chroot_ng.Prelude.{
  ℕ, ◌+◌, ◌%◌, ◌^◌, ◌≤◌, ◌<◌, ◌≡◌, ◌≢◌, refl, ◌⊎◌, inl, inr, Bool, true, false, not, Option, none,
  some, arith,
}
use mathlib.Core.Path.{subst}
use fake_chroot_ng.Publish.{
  WriterPc, copying, editing, swapped, leaving, gone, ReaderPc, idle, got_seq, reading, passed,
  System, store_word, store_acc, move, Step, acquire, steal, copy, copied, edit, abort, swap, bump,
  release, load_seq, load_pointer, load_word, look, late_word, looked, mark, pass, retry, fork,
  Reach, start, later,
}

-- A writer that is inside, and so owns the lock.
abbrev pub is_inside : WriterPc → Bool
is_inside (copying _) = true
is_inside editing = true
is_inside swapped = true
is_inside leaving = true
is_inside _ = false

-- Only the owner of the lock is inside.
abbrev IsExclusive : System → Type 0
IsExclusive t = (i : ℕ) → is_inside (t.writer i) ≡ true → t.owner ≡ some i

-- While no commit has come between, the reader's buffer is the active one or was swapped out by a
-- writer that has yet to bump the sequence, and the reader's words are those of the snapshot.
record IsFresh (t : System) (p : Bool) (snap : ℕ → ℕ) (done : ℕ → Bool) (acc : ℕ → ℕ) : Type 0 where
  safe : (p ≡ t.active) ⊎ ((i : ℕ) × (t.owner ≡ some i) × (t.writer i ≡ swapped))
  kept : (j : ℕ) → t.bufs p j ≡ snap j
  words : (j : ℕ) → done j ≡ true → acc j ≡ snap j

abbrev IsSound : ℕ → System → ReaderPc → Type 0
IsSound n t idle = Unit
IsSound n t (got_seq s c) = (c ≤ t.commits) × (s ≡ c % 2 ^ 32)
IsSound n t (reading s c p snap done acc) =
    (c ≤ t.commits) × (s ≡ c % 2 ^ 32) × (c ≡ t.commits → IsFresh t p snap done acc)
IsSound n t (looked s c v c' p snap early done acc) =
    (c ≤ c')
    × (s ≡ c % 2 ^ 32)
    × (v ≡ c' % 2 ^ 32)
    × ((j : ℕ) → early j ≡ true → done j ≡ true)
    × (c ≡ c' → (j : ℕ) → early j ≡ true → acc j ≡ snap j)
IsSound n t (passed c c' snap early acc) =
    c' < c + 2 ^ 32 → (j : ℕ) → early j ≡ true → acc j ≡ snap j

Step-IsExclusive : {n : ℕ} {t u : System} → Step n t u → IsExclusive t → IsExclusive u
Step-IsExclusive (acquire i p q) h = λ j. ground (arith, h j)
Step-IsExclusive (steal i p q) h = λ j. ground (arith, h j)
Step-IsExclusive (copy i k p q) h = λ j. ground (arith, h j, h i)
Step-IsExclusive (copied i k p q) h = λ j. ground (arith, h j, h i)
Step-IsExclusive (edit i k v p) h = λ j. ground (arith, h j, h i)
Step-IsExclusive (abort i p) h = λ j. ground (arith, h j, h i)
Step-IsExclusive (swap i p) h = λ j. ground (arith, h j, h i)
Step-IsExclusive (bump i p) h = λ j. ground (arith, h j, h i)
Step-IsExclusive (release i p) h = λ j. ground (arith, h j, h i)
Step-IsExclusive {t} (fork p) h = λ j. ground (arith, h j)
Step-IsExclusive (load_seq _) h = h
Step-IsExclusive (load_pointer _ _ _) h = h
Step-IsExclusive (load_word _ _ _ _ _ _ _ _ _ _) h = h
Step-IsExclusive (look _ _ _ _ _ _ _) h = h
Step-IsExclusive (late_word _ _ _ _ _ _ _ _ _ _ _ _ _) h = h
Step-IsExclusive (pass _ _ _ _ _ _ _ _ _ _ _ _) h = h
Step-IsExclusive (retry _ _ _ _ _ _ _ _ _ _ _) h = h

module _ {t : System} (own : IsExclusive t) {p : Bool} {snap : ℕ → ℕ} {done : ℕ → Bool}
    {acc : ℕ → ℕ} (f : IsFresh t p snap done acc) where
  -- A writer that is inside and has not swapped leaves the reader's buffer the active one.
  active_of : (i : ℕ) → is_inside (t.writer i) ≡ true → t.writer i ≢ swapped → p ≡ t.active
  active_of i inside ne = elim f.safe [ inl e ↦ e | inr (j, o, w) ↦ absurd (clash j o w) ]
    where
      clash : (j : ℕ) → t.owner ≡ some j → t.writer j ≡ swapped → ⊥
      clash j o w = ne (ground (arith, own i))

  active_of_free : t.owner ≡ none → p ≡ t.active
  active_of_free e = ground (arith, f.safe)

  write-IsFresh :
      (w : ℕ → WriterPc) (k' v : ℕ)
      → p ≡ t.active
      → IsFresh
          (record t { bufs = store_word t.bufs (not t.active) k' v; writer = w })
          p
          snap
          done
          acc
  write-IsFresh w k' v e = record {
    safe = inl e;
    kept = λ j. ground (arith, f.kept j);
    words = f.words;
  }

  idle-IsFresh :
      (w : ℕ → WriterPc) (o : Option ℕ)
      → p ≡ t.active
      → IsFresh (record t { writer = w; owner = o }) p snap done acc
  idle-IsFresh w o e = record { safe = inl e; kept = f.kept; words = f.words }

  steal-IsFresh :
      (j : ℕ)
      → t.owner ≡ some j
      → t.writer j ≡ gone
      → IsFresh (record t { owner = none }) p snap done acc
  steal-IsFresh j o g = record {
    safe = inl (ground (arith, f.safe));
    kept = f.kept;
    words = f.words;
  }

  load-IsFresh :
      (r : ReaderPc) (k : ℕ)
      → IsFresh (record t { reader = r }) p snap (mark done k) (store_acc acc k (t.bufs p k))
  load-IsFresh r k = record {
    safe = f.safe;
    kept = f.kept;
    words = λ j lt. ground (arith, f.kept j, f.words j);
  }

  swap-IsFresh :
      (i : ℕ)
      → t.writer i ≡ editing
      → IsFresh
          (record t { active = not t.active; writer = move t.writer i swapped })
          p
          snap
          done
          acc
  swap-IsFresh i e = record {
    safe = inr (i, own i (ground arith), ground arith);
    kept = f.kept;
    words = f.words;
  }

carry :
    (n : ℕ) {t u : System} (r : ReaderPc)
    → t.commits ≡ u.commits
    → ((p : Bool) (snap : ℕ → ℕ) (done : ℕ → Bool) (acc : ℕ → ℕ)
        → IsFresh t p snap done acc
        → IsFresh u p snap done acc)
    → IsSound n t r
    → IsSound n u r
carry n idle e g s = tt
carry n (got_seq a c) e g s = ground arith
carry n (reading a c p snap done acc) e g s =
    (omega arith, s.1, λ h. g p snap done acc (s.2 (omega arith)))
carry n (looked a c v c' p snap early done acc) e g s = s
carry n (passed c c' snap early acc) e g s = s

bump-IsSound :
    (n : ℕ) (t u : System) (r : ReaderPc)
    → u.commits ≡ t.commits + 1
    → IsSound n t r
    → IsSound n u r
bump-IsSound n t u idle e s = tt
bump-IsSound n t u (got_seq a c) e s = ground arith
bump-IsSound n t u (reading a c p snap done acc) e s = (omega arith, s.1, λ h. absurd (omega arith))
bump-IsSound n t u (looked a c v c' p snap early done acc) e s = s
bump-IsSound n t u (passed c c' snap early acc) e s = s

load-IsSound :
    (n : ℕ) (t : System) (a c : ℕ)
    → IsSound n t (got_seq a c)
    → IsSound n
        (record t { reader = reading a c t.active (t.bufs t.active) (λ _. false) (λ _. 0) })
        (reading a c t.active (t.bufs t.active) (λ _. false) (λ _. 0))
load-IsSound n t a c s =
    (s.0, s.1, λ _. record { safe = inl refl; kept = λ j. refl; words = λ j lt. cc })

-- A word that comes after the second look is not one of the early ones.
late-IsSound :
    (n : ℕ) (t : System) (a c v c' : ℕ) (p : Bool) (snap : ℕ → ℕ) (early done : ℕ → Bool)
    (acc : ℕ → ℕ) (k w : ℕ)
    → done k ≡ false
    → IsSound n t (looked a c v c' p snap early done acc)
    → IsSound n t (looked a c v c' p snap early (mark done k) (store_acc acc k w))
late-IsSound n t a c v c' p snap early done acc k w new s =
    (s.0, s.1, s.2, λ j e. ground (arith, s.3 j), λ q j e. ground (arith, s.3 j e, s.4 q j e, new))

pass-IsSound :
    (n : ℕ) (t u : System) (a c v c' : ℕ) (p : Bool) (snap : ℕ → ℕ) (early done : ℕ → Bool)
    (acc : ℕ → ℕ)
    → v ≡ a
    → IsSound n t (looked a c v c' p snap early done acc)
    → IsSound n u (passed c c' snap early acc)
pass-IsSound n t u a c v c' p snap early done acc e s few = s.4 (omega (arith, s.0, s.1, s.2))

Step-IsSound :
    {n : ℕ} {t u : System}
    → Step n t u
    → IsExclusive t
    → IsSound n t t.reader
    → IsSound n u u.reader
Step-IsSound {n} {t} (acquire i p q) h s =
    carry n t.reader refl (λ _ _ _ _ f. idle-IsFresh h f _ _ (active_of_free h f p)) s
Step-IsSound {n} {t} (steal i p q) h s =
    carry n t.reader refl (λ _ _ _ _ f. steal-IsFresh h f i p q) s
Step-IsSound {n} {t} (copy i k p q) h s =
    carry n t.reader refl
      (λ _ _ _ _ f. write-IsFresh h f _ _ _ (active_of h f i (ground arith) (ground arith))) s
Step-IsSound {n} {t} (copied i k p q) h s =
    carry n t.reader refl
      (λ _ _ _ _ f. idle-IsFresh h f _ _ (active_of h f i (ground arith) (ground arith))) s
Step-IsSound {n} {t} (edit i k v p) h s =
    carry n t.reader refl
      (λ _ _ _ _ f. write-IsFresh h f _ _ _ (active_of h f i (ground arith) (ground arith))) s
Step-IsSound {n} {t} (abort i p) h s =
    carry n t.reader refl
      (λ _ _ _ _ f. idle-IsFresh h f _ _ (active_of h f i (ground arith) (ground arith))) s
Step-IsSound {n} {t} (swap i p) h s = carry n t.reader refl (λ _ _ _ _ f. swap-IsFresh h f i p) s
Step-IsSound {n} {t} (bump i p) h s = bump-IsSound n t _ t.reader refl s
Step-IsSound {n} {t} (release i p) h s =
    carry n t.reader refl
      (λ _ _ _ _ f. idle-IsFresh h f _ _ (active_of h f i (ground arith) (ground arith))) s
Step-IsSound {n} {t} (fork p) h s = rw p tt
Step-IsSound (load_seq p) h s = (omega arith, refl)
Step-IsSound {n} {t} (load_pointer a c p) h s = load-IsSound n t a c (subst (IsSound n t) p s)
Step-IsSound {n} {t} (load_word a c p snap done acc k e lt new) h s =
    let r : IsSound n t (reading a c p snap done acc) = subst (IsSound n t) e s in
    (r.0, r.1, λ q. load-IsFresh h (r.2 q) _ k)
Step-IsSound {n} {t} (look a c p snap done acc e) h s =
    let r : IsSound n t (reading a c p snap done acc) = subst (IsSound n t) e s in
    (r.0, r.1, refl, (λ j d. d), λ q. (r.2 q).words)
Step-IsSound {n} {t} (late_word a c v c' p snap early done acc k e lt new) h s =
    late-IsSound n t a c v c' p snap early done acc k (t.bufs p k) new (subst (IsSound n t) e s)
Step-IsSound {n} {t} (pass a c v c' p snap early done acc e all es) h s =
    pass-IsSound n t t a c v c' p snap early done acc es (subst (IsSound n t) e s)
Step-IsSound (retry a c v c' p snap early done acc e ne) h s = tt

record Inv (n : ℕ) (t : System) : Type 0 where
  exclusive : IsExclusive t
  sound : IsSound n t t.reader

Reach-Inv : {n : ℕ} {bufs : Bool → ℕ → ℕ} {t : System} → Reach n bufs t → Inv n t
Reach-Inv start = record { exclusive = λ i h. cc; sound = tt }
Reach-Inv (later r st) =
    let inv = Reach-Inv r in
    record {
      exclusive = Step-IsExclusive st inv.exclusive;
      sound = Step-IsSound st inv.exclusive inv.sound;
    }

-- Of a read of the published credential set or path view that passed its check, every word that
-- was loaded before the second look at the sequence is that of the buffer that was active when the
-- pointer was read, if fewer than 2^32 commits fell between the two looks. The reader's plain
-- loads come in any order, and some may come after the second look, of which nothing is said;
-- writers, and takeovers of the lock of a writer that is gone, come in any order among them, and a
-- fork between two reads.
pub read_not_torn :
    {n : ℕ} {bufs : Bool → ℕ → ℕ} {t : System} (c c' : ℕ) (snap : ℕ → ℕ) (early : ℕ → Bool)
    (acc : ℕ → ℕ)
    → Reach n bufs t
    → t.reader ≡ passed c c' snap early acc
    → c' < c + 2 ^ 32
    → (j : ℕ) → early j ≡ true
    → acc j ≡ snap j
read_not_torn {n} {t} c c' snap early acc r e =
    let s : IsSound n t (passed c c' snap early acc) = subst (IsSound n t) e (Reach-Inv r).sound in
    s

-- At most one thread is between write_begin and write_end.
pub one_writer :
    {n : ℕ} {bufs : Bool → ℕ → ℕ} {t : System} (i j : ℕ)
    → Reach n bufs t
    → is_inside (t.writer i) ≡ true
    → is_inside (t.writer j) ≡ true
    → i ≡ j
one_writer i j r hi hj = ground (arith, (Reach-Inv r).exclusive i, (Reach-Inv r).exclusive j)
