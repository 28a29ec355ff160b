-- ===== src/Publish/Tests.antt =====
-- A run of the published view: a write and a commit between two words of a read, which is redone.
use fake_chroot_ng.Prelude.{ℕ, ◌≡◌, refl, Bool, true, false, arith}
use fake_chroot_ng.Publish.{
  ReaderPc, passed, System, acquire, copied, copy, edit, swap, bump, load_seq, load_pointer,
  load_word, look, late_word, release, pass, retry, Reach, start, later,
}
use fake_chroot_ng.Publish.Torn.{read_not_torn, one_writer}

abbrev zeros : Bool → ℕ → ℕ
zeros b k = 0

record Run (n : ℕ) : Type 0 where
  last : System
  reach : Reach n zeros last

-- thread 7 copies the one word, writes 5 to it and swaps, after the reader took the sequence
abbrev swapped_run : Run 1
swapped_run = record {
  last = _;
  reach =
      later
        (later
          (later
            (later (later (later start (load_seq refl)) (acquire 7 refl refl))
              (copy 7 0 refl (omega arith)))
            (copied 7 1 refl refl))
          (edit 7 0 5 refl))
        (swap 7 refl);
}

-- the reader finds the new buffer, and the sequence as it was
abbrev passed_run : Run 1
passed_run = record {
  last = _;
  reach =
      later
        (later
          (later (later swapped_run.reach (load_pointer 0 0 refl))
            (load_word 0 0 true _ _ _ 0 refl (omega arith) refl))
          (look 0 0 true _ _ _ refl))
        (pass 0 0 0 0 true _ _ _ _ refl (λ k l. ground arith) refl);
}

-- The bump comes before the check: the read is redone.
abbrev retried_run : Run 1
retried_run = record {
  last = _;
  reach =
      later
        (later
          (later
            (later (later swapped_run.reach (load_pointer 0 0 refl))
              (load_word 0 0 true _ _ _ 0 refl (omega arith) refl))
            (bump 7 refl))
          (look 0 0 true _ _ _ refl))
        (retry 0 0 1 1 true _ _ _ _ refl (omega arith));
}

-- A word that the processor loads after the second look: by then thread 7 has committed, and thread
-- 8 writes 6 to the buffer that was active.
abbrev late_run : Run 1
late_run = record {
  last = _;
  reach =
      let begun =
        later (later (later start (load_seq refl)) (load_pointer 0 0 refl))
          (look 0 0 false _ _ _ refl) in
      let committed =
        later
          (later
            (later
              (later (later (later begun (acquire 7 refl refl)) (copy 7 0 refl (omega arith)))
                (copied 7 1 refl refl))
              (swap 7 refl))
            (bump 7 refl))
          (release 7 refl) in
      let refilled =
        later
          (later (later (later committed (acquire 8 refl refl)) (copy 8 0 refl (omega arith)))
            (copied 8 1 refl refl))
          (edit 8 0 6 refl) in
      later (later refilled (late_word 0 0 0 0 false _ _ _ _ 0 refl (omega arith) refl))
        (pass 0 0 0 0 false _ _ _ _ refl (λ k l. ground arith) refl);
}

abbrev acc_of : ReaderPc → ℕ → ℕ
acc_of (passed c c' snap early acc) = acc
acc_of _ = λ _. 0

abbrev snap_of : ReaderPc → ℕ → ℕ
snap_of (passed c c' snap early acc) = snap
snap_of _ = λ _. 0

abbrev early_of : ReaderPc → ℕ → Bool
early_of (passed c c' snap early acc) = early
early_of _ = λ _. false

read_new : acc_of passed_run.last.reader 0 ≡ 5
read_new = refl

-- The read passed its check, with a word that the buffer never had while it was active.
late_torn : (acc_of late_run.last.reader 0 ≡ 6) × (snap_of late_run.last.reader 0 ≡ 0)
late_torn = (refl, refl)

read_not_torn_example : acc_of passed_run.last.reader 0 ≡ snap_of passed_run.last.reader 0
read_not_torn_example =
    read_not_torn 0 0 (snap_of passed_run.last.reader) (early_of passed_run.last.reader)
      (acc_of passed_run.last.reader) passed_run.reach refl (omega arith) 0 refl

one_writer_example : ◌≡◌ {A = ℕ} 7 7
one_writer_example = one_writer 7 7 swapped_run.reach refl refl
