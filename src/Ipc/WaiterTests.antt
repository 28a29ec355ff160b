-- ===== src/Ipc/WaiterTests.antt =====
-- Runs of the parked waiters of src/monitor/ipcreg.c at concrete inputs.
use mathlib.Core.Option.{some-injective}
use mathlib.Core.Path.{subst}
use fake_chroot_ng.Prelude.{
  ℕ, zero, suc, ◌+◌, ◌-◌, ◌*◌, ◌<◌, ◌≡◌, refl, ap, true, false, ok, none, some, List, [], ◌∷◌, ◌++◌,
  arith, All,
}
use fake_chroot_ng.Ipc.{Sembuf, SemSet, sem_try_op, try_one, roll_back}
use fake_chroot_ng.Ipc.Rollback.{IsShort, IsRow}
use fake_chroot_ng.Ipc.Table.{sem_find}
use fake_chroot_ng.Ipc.Waiters.{Wants, semop, Waiter, Env, Reg, Reply, reply_to, ipc_rescan}
use fake_chroot_ng.Ipc.Slots.{at_slot, find-slot}
use fake_chroot_ng.Ipc.Visit.{IsReg}
use fake_chroot_ng.Ipc.Rescan.{Settled, ipc_rescan-Settled}
use fake_chroot_ng.Ipc.Parked.{ipc_expire, waiter_park, sem_count_waiters}
use fake_chroot_ng.Ipc.Expired.{Swept, ipc_expire_lem, waiter_park-IsReg}

-- A set of one semaphore at 1, and three that wait: for two units, for one, and for a message.
abbrev set_of_one : SemSet
set_of_one = record {
  semid = 3;
  key = 0;
  nsems = 1;
  mode = 0;
  uid = 0;
  gid = 0;
  cuid = 0;
  cgid = 0;
  otime = 0;
  ctime = 0;
  val = 1 ∷ [];
  lpid = 0 ∷ [];
  cpid = 0;
  tpid = 0;
}

abbrev take_units : ℕ → Wants
take_units n = semop (record { sem_num = 0; sem_op = 0x10000 - n; sem_flg = 0 } ∷ []) 0

abbrev waiter : ℕ → ℕ → Waiter
waiter seq n = record {
  cfd = 40 + seq;
  id = 3;
  pid = 100 + seq;
  started = 0;
  seq = seq;
  deadline = none;
  wants = take_units n;
}

abbrev registry : Reg
registry = record {
  sems = some set_of_one ∷ [];
  undo = none ∷ [];
  queues = [];
  waits = some (record (waiter 2 1) { deadline = some 50 }) ∷ none ∷ some (waiter 1 2) ∷ [];
  next_seq = 3;
  sent = [];
}

abbrev env : Env
env = record { now = 7; started = λ p. 0; has_room = true }

abbrev taken : SemSet
taken = record set_of_one { val = 0 ∷ []; lpid = 102 ∷ []; otime = 7; tpid = 102 }

-- The one that came first stays, since its units are not there; the other is served.
served_one :
    ipc_rescan env registry
    ≡ some (record registry {
      sems = some taken ∷ [];
      waits = none ∷ none ∷ some (waiter 1 2) ∷ [];
      sent = reply_to (waiter 2 1) (ok 0) ∷ [];
    })
unfolding ipc_rescan sem_try_op sem_find try_one roll_back
served_one = refl

only_slot : {A : Type 0} (a x : A) (i : ℕ) → at_slot (some a ∷ []) i ≡ some x → a ≡ x
only_slot a x zero e = some-injective a x e
only_slot a x (suc i) e = cc

the_set : (id : ℕ) (s : SemSet) → sem_find id registry.sems ≡ some s → set_of_one ≡ s
unfolding sem_find
the_set id s f =
    let k = find-slot (λ (t : SemSet). t.semid) id registry.sems s f in
    only_slot set_of_one s k.0 k.1

no_row : {A : Type 0} (x : A) (i : ℕ) → at_slot (none ∷ []) i ≡ some x → ⊥
no_row x zero e = cc
no_row x (suc i) e = cc

Among : (P : ℕ → Waiter → Type 0) → Type 0
Among P = P 0 (record (waiter 2 1) { deadline = some 50 }) × P 2 (waiter 1 2)

each :
    (P : ℕ → Waiter → Type 0) (i : ℕ) (x : Waiter)
    → Among P
    → at_slot registry.waits i ≡ some x
    → P i x
unfolding Among
each P zero x p e =
    subst (P 0) (some-injective (record (waiter 2 1) { deadline = some 50 }) x e) p.0
each P (suc zero) x p e = cc
each P (suc (suc zero)) x p e = subst (P 2) (some-injective (waiter 1 2) x e) p.1
each P (suc (suc (suc i))) x p e = cc

vector_of :
    (n : ℕ) (sops : List Sembuf) (b : ℕ)
    → 0 < n
    → n < 3
    → take_units n ≡ semop sops b
    → All (λ (op : Sembuf). IsShort op.sem_op) sops
vector_of n sops b p h q =
    subst (All (λ (op : Sembuf). IsShort op.sem_op)) (ap ops_of q) (omega arith, tt)
  where
    ops_of : Wants → List Sembuf
    ops_of (semop s c) = s
    ops_of _ = []

placed : (i : ℕ) (x : Waiter) → at_slot registry.waits i ≡ some x → i + 2 * x.seq ≡ 4
placed i x e = each (λ j y. j + 2 * y.seq ≡ 4) i x (unfold Among in (refl, refl)) e

registry-IsReg : IsReg registry
registry-IsReg = record {
  rows = record {
    of_sets = λ id s f.
        subst (λ (t : SemSet). IsRow t.nsems t.val) (the_set id s f) (refl, (omega arith, tt));
    of_undo = λ j u s e f. absurd (no_row u j e);
  };
  shorts = λ i w sops b e q.
      each (λ j y. y.wants ≡ semop sops b → All (λ (op : Sembuf). IsShort op.sem_op) sops) i w
        (unfold Among in
          (
            vector_of 1 sops b (omega arith) (omega arith),
            vector_of 2 sops b (omega arith) (omega arith),
          ))
        e q;
  apart = λ i j x y a b n. omega (arith, n, placed i x a, placed j y b);
  counted = λ i x e.
      each (λ j y. (0 < y.seq) × (y.seq < 3)) i x
        (unfold Among in ((omega arith, omega arith), (omega arith, omega arith))) e;
}

ipc_rescan-Settled_example : Settled registry (ipc_rescan env registry)
ipc_rescan-Settled_example = ipc_rescan-Settled env registry registry-IsReg

expired_one :
    (ipc_expire 50
      (record registry { waits = some (record (waiter 2 1) { deadline = some 50 }) ∷ [] })).waits
    ≡ none ∷ []
unfolding ipc_expire
expired_one = refl

ipc_expire_example :
    ((rs : List Reply) × Swept 50 registry.waits (ipc_expire 50 registry).waits rs
      × ((ipc_expire 50 registry).sent ≡ rs ++ registry.sent))
    × IsReg (ipc_expire 50 registry)
ipc_expire_example = ipc_expire_lem 50 registry registry-IsReg

abbrev joined : Reg
joined = record registry {
  waits =
      some (record (waiter 2 1) { deadline = some 50 })
      ∷ some (record (waiter 3 1) { deadline = some 1002 })
      ∷ some (waiter 1 2)
      ∷ [];
  next_seq = 4;
}

park_one : waiter_park env 1000 registry 43 3 103 1000001 (take_units 1) ≡ some joined
unfolding waiter_park
park_one = refl

waiter_park-IsReg_example : IsReg joined
waiter_park-IsReg_example =
    waiter_park-IsReg env 1000 registry joined 43 3 103 1000001 (take_units 1) registry-IsReg
      (omega arith) (omega arith) (λ sops b q. vector_of 1 sops b (omega arith) (omega arith) q)
      park_one

two_sleep : sem_count_waiters 3 0 false registry.waits ≡ 2
unfolding sem_count_waiters
two_sleep = refl
