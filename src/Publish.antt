-- ===== src/Publish.antt =====
-- The published view of src/monitor/cred.c (cng_g_cred) and src/path/path.c (cng_g_fs): two
-- buffers, a pointer, a sequence number and a lock, as steps of threads that interleave.
-- One reader and any number of writers; a step is one shared access. Nothing but the acquire load of
-- the sequence stands behind the reader's plain loads, so these come in any order, and some may come
-- after it.
pub mod Torn
mod Tests
use fake_chroot_ng.Prelude.{
  ℕ, ◌+◌, ◌%◌, ◌^◌, ◌<◌, ◌≡◌, ◌≢◌, Bool, true, false, not, Option, none, some, ◌==◌, ◌&&◌,
  if◌then◌else◌,
}

-- Where a writer stands.
pub data WriterPc : Type 0 where
  out : WriterPc
  -- after the lock is taken: the words below `k` are copied
  copying : (k : ℕ) → WriterPc
  -- between write_begin and write_end
  editing : WriterPc
  -- the pointer is stored, the sequence is not
  swapped : WriterPc
  -- all but the release of the lock is done
  leaving : WriterPc
  -- a thread of the parent, in a child of fork: it holds what it held, and never runs
  gone : WriterPc

-- Where the reader stands. `c` is the number of commits when it read the sequence `s`, `c'` when it
-- read it again, and `snap` the buffer that the pointer named when it read the pointer: all three are
-- for the statements only. `done` are the words that it has loaded, into `acc`.
pub data ReaderPc : Type 0 where
  idle : ReaderPc
  got_seq : (s c : ℕ) → ReaderPc
  reading : (s c : ℕ) (p : Bool) (snap : ℕ → ℕ) (done : ℕ → Bool) (acc : ℕ → ℕ) → ReaderPc
  -- it has re-read the sequence, as `v`, when the words `early` were loaded
  looked : (s c v c' : ℕ) (p : Bool) (snap : ℕ → ℕ) (early done : ℕ → Bool) (acc : ℕ → ℕ) → ReaderPc
  -- all the words are there, and the sequence was unchanged
  passed : (c c' : ℕ) (snap : ℕ → ℕ) (early : ℕ → Bool) (acc : ℕ → ℕ) → ReaderPc

pub record System : Type 0 where
  pub bufs : Bool → ℕ → ℕ
  -- which buffer the pointer names
  pub active : Bool
  -- how often the sequence was bumped
  pub commits : ℕ
  pub owner : Option ℕ
  pub writer : ℕ → WriterPc
  pub reader : ReaderPc

-- The sequence number, an `unsigned`.
abbrev pub seq : System → ℕ
seq t = t.commits % 2 ^ 32

abbrev pub same_buf : Bool → Bool → Bool
same_buf true b = b
same_buf false b = not b

abbrev pub store_word : (Bool → ℕ → ℕ) → Bool → ℕ → ℕ → Bool → ℕ → ℕ
store_word bufs b k v b' k' = if same_buf b b' && k == k' then v else bufs b' k'

abbrev pub store_acc : (ℕ → ℕ) → ℕ → ℕ → ℕ → ℕ
store_acc acc k v k' = if k == k' then v else acc k'

abbrev pub mark : (ℕ → Bool) → ℕ → ℕ → Bool
mark done k k' = if k == k' then true else done k'

abbrev pub move : (ℕ → WriterPc) → ℕ → WriterPc → ℕ → WriterPc
move w i p j = if i == j then p else w j

-- What a thread of the parent is in the child.
abbrev pub after_fork : WriterPc → WriterPc
after_fork out = out
after_fork _ = gone

-- `n` is the number of words of a buffer.
pub data Step (n : ℕ) (t : System) : System → Type 0 where
  -- the compare-exchange of write_begin from 0 to the tid
  acquire :
      (i : ℕ)
      → t.owner ≡ none
      → t.writer i ≡ out
      → Step n t (record t { owner = some i; writer = move t.writer i (copying 0) })
  -- the takeover of a lock whose holder is gone
  steal : (j : ℕ) → t.owner ≡ some j → t.writer j ≡ gone → Step n t (record t { owner = none })
  copy :
      (i k : ℕ)
      → t.writer i ≡ copying k
      → k < n
      → Step n t (record t {
        bufs = store_word t.bufs (not t.active) k (t.bufs t.active k);
        writer = move t.writer i (copying (k + 1));
      })
  copied :
      (i k : ℕ)
      → t.writer i ≡ copying k
      → k ≡ n
      → Step n t (record t { writer = move t.writer i editing })
  -- any write of the caller's to the copy
  edit :
      (i k v : ℕ)
      → t.writer i ≡ editing
      → Step n t (record t { bufs = store_word t.bufs (not t.active) k v })
  -- write_end without a commit
  abort : (i : ℕ) → t.writer i ≡ editing → Step n t (record t { writer = move t.writer i leaving })
  -- write_end: the pointer, then the sequence
  swap :
      (i : ℕ)
      → t.writer i ≡ editing
      → Step n t (record t { active = not t.active; writer = move t.writer i swapped })
  bump :
      (i : ℕ)
      → t.writer i ≡ swapped
      → Step n t (record t { commits = t.commits + 1; writer = move t.writer i leaving })
  release :
      (i : ℕ)
      → t.writer i ≡ leaving
      → Step n t (record t { owner = none; writer = move t.writer i out })
  -- read_begin: the sequence, then the pointer
  load_seq : t.reader ≡ idle → Step n t (record t { reader = got_seq (seq t) t.commits })
  load_pointer :
      (s c : ℕ)
      → t.reader ≡ got_seq s c
      → Step n t
          (record t { reader = reading s c t.active (t.bufs t.active) (λ _. false) (λ _. 0) })
  load_word :
      (s c : ℕ) (p : Bool) (snap : ℕ → ℕ) (done : ℕ → Bool) (acc : ℕ → ℕ) (k : ℕ)
      → t.reader ≡ reading s c p snap done acc
      → k < n
      → done k ≡ false
      → Step n t
          (record t { reader = reading s c p snap (mark done k) (store_acc acc k (t.bufs p k)) })
  -- read_retry: an acquire load, which the loads of words before it may still pass
  look :
      (s c : ℕ) (p : Bool) (snap : ℕ → ℕ) (done : ℕ → Bool) (acc : ℕ → ℕ)
      → t.reader ≡ reading s c p snap done acc
      → Step n t (record t { reader = looked s c (seq t) t.commits p snap done done acc })
  late_word :
      (s c v c' : ℕ) (p : Bool) (snap : ℕ → ℕ) (early done : ℕ → Bool) (acc : ℕ → ℕ) (k : ℕ)
      → t.reader ≡ looked s c v c' p snap early done acc
      → k < n
      → done k ≡ false
      → Step n t (record t {
        reader = looked s c v c' p snap early (mark done k) (store_acc acc k (t.bufs p k));
      })
  -- the work is done, or done again
  pass :
      (s c v c' : ℕ) (p : Bool) (snap : ℕ → ℕ) (early done : ℕ → Bool) (acc : ℕ → ℕ)
      → t.reader ≡ looked s c v c' p snap early done acc
      → ((k : ℕ) → k < n → done k ≡ true)
      → v ≡ s
      → Step n t (record t { reader = passed c c' snap early acc })
  retry :
      (s c v c' : ℕ) (p : Bool) (snap : ℕ → ℕ) (early done : ℕ → Bool) (acc : ℕ → ℕ)
      → t.reader ≡ looked s c v c' p snap early done acc
      → v ≢ s
      → Step n t (record t { reader = idle })
  -- a fork: the child has the forking thread alone; only a fork between two reads is here
  fork : t.reader ≡ idle → Step n t (record t { writer = λ i. after_fork (t.writer i) })

-- Nothing has run yet: any contents, the first buffer active.
abbrev pub start_of : (Bool → ℕ → ℕ) → System
start_of bufs = record {
  bufs = bufs;
  active = false;
  commits = 0;
  owner = none;
  writer = λ _. out;
  reader = idle;
}

pub data Reach (n : ℕ) (bufs : Bool → ℕ → ℕ) : System → Type 0 where
  start : Reach n bufs (start_of bufs)
  later : {t u : System} → Reach n bufs t → Step n t u → Reach n bufs u
