-- ===== src/Ipc/Undo.antt =====
-- `sem_undo_apply` of src/monitor/ipcreg.c: what a process that has died owes to a set.
use fake_chroot_ng.Prelude.{ℕ, Bool, List, [], ◌∷◌, ltb, ◌==◌, ◌!=◌, if◌then◌else◌, any, neg32}
use fake_chroot_ng.Ipc.{SemSet, semvmx, widen, plus}

-- `v < 0` and `v > SEMVMX`
abbrev pub clamp : ℕ → ℕ
clamp v = if neg32 v then 0 else if ltb semvmx v then semvmx else v

-- The loop over the values.
unfoldable pub undo_vals : List ℕ → List ℕ → List ℕ
undo_vals [] adj = []
undo_vals (x ∷ val) [] = x ∷ val
undo_vals (x ∷ val) (a ∷ adj) = (if a == 0 then x else clamp (plus x (widen a))) ∷ undo_vals val adj

-- The loop over the pids, with the same test.
unfoldable pub undo_lpid : ℕ → List ℕ → List ℕ → List ℕ
undo_lpid pid [] adj = []
undo_lpid pid (p ∷ lpid) [] = p ∷ lpid
undo_lpid pid (p ∷ lpid) (a ∷ adj) = (if a == 0 then p else pid) ∷ undo_lpid pid lpid adj

abbrev pub touched : List ℕ → Bool
touched adj = any (λ a. a != 0) adj

-- `sem_undo_apply`, where the set is there; the row is then freed.
unfoldable pub sem_undo_apply : SemSet → ℕ → ℕ → List ℕ → SemSet
unfolding undo_vals undo_lpid
sem_undo_apply s pid now adj = record s {
  val = undo_vals s.val adj;
  lpid = undo_lpid pid s.lpid adj;
  otime = if touched adj then now else s.otime;
}
