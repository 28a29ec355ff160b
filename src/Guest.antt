-- ===== src/Guest.antt =====
-- The guest's memory, as cng_user_copyin and cng_user_copyout (src/monitor/uaccess.c) reach it.
use fake_chroot_ng.Prelude.{ℕ, Bool, Option, List}

pub record Guest : Type 1 where
  pub Mem : Type 0
  -- `copyin m a n`: the `n` 32-bit words at the address `a`, or a fault
  pub copyin : Mem → ℕ → ℕ → Option (List ℕ)
  -- whether all the words could be stored, and the memory after it (also after a partial store)
  pub copyout : Mem → ℕ → List ℕ → Bool × Mem
