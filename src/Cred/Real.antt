-- ===== src/Cred/Real.antt =====
-- src/monitor/cred.c without --fake-id: the host's own set. A setter that the host refuses is
-- answered by the rules of the setters applied to the real ids, and is never issued.
use fake_chroot_ng.Prelude.{
  ℕ, ◌/◌, ◌%◌, ◌^◌, Bool, true, false, ◌&&◌, Option, none, some, List, [], ◌∷◌, reverse, ltb, ◌==◌,
  if◌then◌else◌, Ret, ok, err, eperm, enosys,
}
use fake_chroot_ng.Cred.{Cred}
use fake_chroot_ng.Cred.Setter.{Setter, run_setter, setfsuid, setfsgid, setgroups}

-- What the host answers to the getters that `real_ids` issues: each triple is real, effective and
-- saved; `none` for a refusal. `fsuid` and `fsgid` are `none` where the call is blocked.
pub record HostIds : Type 0 where
  pub resuid : Option (ℕ × ℕ × ℕ)
  pub resgid : Option (ℕ × ℕ × ℕ)
  pub fsuid : Option ℕ
  pub fsgid : Option ℕ
  -- the effective capability word of capget
  pub capability : Option ℕ
  pub groups : Option (List ℕ)

pub record Real : Type 0 where
  pub ids : Cred
  pub upriv : Bool
  pub gpriv : Bool

abbrev pub or_else : Option ℕ → ℕ → ℕ
or_else none d = d
or_else (some v) d = v

-- (eff >> k) & 1
abbrev pub has_bit : ℕ → ℕ → Bool
has_bit eff k = eff / 2 ^ k % 2 == 1

with_ids : HostIds → ℕ × ℕ × ℕ → ℕ × ℕ × ℕ → Real
with_ids h (ru, eu, su) (rg, eg, sg) = record {
  ids = record {
    ruid = ru;
    euid = eu;
    suid = su;
    fsuid = or_else h.fsuid eu;
    rgid = rg;
    egid = eg;
    sgid = sg;
    fsgid = or_else h.fsgid eg;
    groups = [];
  };
  upriv = has_bit (or_else h.capability 0) 7;
  gpriv = has_bit (or_else h.capability 0) 6;
}

from_triples : HostIds → Option (ℕ × ℕ × ℕ) → Option (ℕ × ℕ × ℕ) → Option Real
unfolding with_ids
from_triples h (some u) (some g) = some (with_ids h u g)
from_triples h _ _ = none

unfoldable pub real_ids : HostIds → Option Real
unfolding from_triples
real_ids h = from_triples h h.resuid h.resgid

-- The inner loop of `sort_groups`: `x` moves down past the greater entries of the sorted prefix,
-- which is held with its last entry first.
unfoldable pub sink : ℕ → List ℕ → List ℕ
sink x [] = x ∷ []
sink x (y ∷ ys) = let deeper = y ∷ sink x ys in if ltb x y then deeper else x ∷ y ∷ ys

unfoldable pub sort_from : List ℕ → List ℕ → List ℕ
unfolding sink
sort_from prefix [] = reverse prefix
sort_from prefix (x ∷ xs) = sort_from (sink x prefix) xs

unfoldable pub sort_groups : List ℕ → List ℕ
unfolding sort_from
sort_groups g = sort_from [] g

unfoldable pub same_list : List ℕ → List ℕ → Bool
same_list [] [] = true
same_list (x ∷ xs) (y ∷ ys) = x == y && same_list xs ys
same_list _ _ = false

unfoldable pub same_ids : Cred → Cred → Bool
same_ids a b =
    a.ruid == b.ruid
    && (a.euid == b.euid
        && (a.suid == b.suid
            && (a.fsuid == b.fsuid
                && (a.rgid == b.rgid
                    && (a.egid == b.egid && (a.sgid == b.sgid && a.fsgid == b.fsgid))))))

unfoldable pub same_set : Cred → Cred → Bool
unfolding same_list same_ids sort_groups
same_set a b = same_ids a b && same_list (sort_groups a.groups) (sort_groups b.groups)

-- A list that could not be read has -1 entries, which is nobody's count.
unfoldable pub against_host : Option (List ℕ) → Cred → Cred → Bool
unfolding same_set
against_host none was c = false
against_host (some gs) was c = same_set (record was { groups = gs }) c

-- The comparison of `real_set`: a setgroups is compared with the list of the host's.
unfoldable pub unchanged : HostIds → Setter → Cred → Cred → Bool
unfolding same_set against_host
unchanged h (setgroups n a) was c = against_host h.groups was c
unchanged h _ was c = same_set was c

-- An allowed change that is not to be had: setfsuid and setfsgid answer the id, the others EPERM.
not_to_be_had : Setter → Ret → Ret
not_to_be_had (setfsuid _) r = r
not_to_be_had (setfsgid _) r = r
not_to_be_had _ r = err eperm

unfoldable pub settle : HostIds → Setter → Cred → Ret × Cred → Ret
unfolding unchanged not_to_be_had
settle h call was (err e, c) = err e
settle h call was (ok v, c) = if unchanged h call was c then ok v else not_to_be_had call (ok v)

real_answer : (ℕ → ℕ → Option (List ℕ)) → HostIds → Setter → Option Real → Ret
unfolding settle
real_answer copyin h call none = err enosys
real_answer copyin h call (some r) =
    settle h call r.ids (run_setter copyin r.upriv r.gpriv call r.ids)

unfoldable pub real_set : (ℕ → ℕ → Option (List ℕ)) → HostIds → Setter → Ret
unfolding real_answer
real_set copyin h call = real_answer copyin h call (real_ids h)
