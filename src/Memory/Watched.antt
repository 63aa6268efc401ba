-- ===== src/Memory/Watched.antt =====
-- Total correctness of a program that waits for grace periods while readers walk the lists: each
-- access is judged against the memory at the last grace period.
use relativistic_hash_table.Base.{◌≡◌, refl, some}
use relativistic_hash_table.Memory.{
  Mem, Action, synchronize, Reply, Prog, ret, act, bind, perform, finished, run,
}
use relativistic_hash_table.Memory.Ensures.{Ensures, returns, does}

-- `Watched G Q p m0 m`: from `m` the program `p` meets no fault and has fuel enough, ends in a result
-- `a` and a memory `m'` with `Q a m0' m'` for the memory `m0'` at the last grace period, and each
-- access `a` that takes `m` to `m'` satisfies `G m0 m a m'`. The last grace period before `p` was at
-- `m0`.
pub data Watched {A : Type 0} (G : Mem → Mem → Action → Mem → Type 0) (Q : A → Mem → Mem → Type 0)
    : Prog A → Mem → Mem → Type 0 where
  ends : {a : A} {m0 m : Mem} → Q a m0 m → Watched G Q (ret a) m0 m
  waits :
      {k : Unit {0} → Prog A} {m0 m : Mem}
      → Watched G Q (k tt) m m
      → Watched G Q (act synchronize k) m0 m
  goes :
      {a : Action} {k : Reply a → Prog A} {m0 m : Mem} {r : Reply a} {m' : Mem}
      → perform a m ≡ some (r, m')
      → G m0 m a m'
      → Watched G Q (k r) m0 m'
      → Watched G Q (act a k) m0 m

module _ {A : Type 0} {G : Mem → Mem → Action → Mem → Type 0} {Q : A → Mem → Mem → Type 0} where
  -- A part without a grace period.
  pub within_period :
      {B : Type 0} {m0 : Mem} {P : B → Mem → Type 0} {p : Prog B} {k : B → Prog A} {m : Mem}
      → Ensures (G m0) P p m
      → ((b : B) (m' : Mem) → P b m' → Watched G Q (k b) m0 m')
      → Watched G Q (bind p k) m0 m
  within_period (returns h) next = next _ _ h
  within_period (does e g rest) next = goes e g (within_period rest next)

  pub watches :
      {m0 : Mem} {P : A → Mem → Type 0} {p : Prog A} {m : Mem}
      → Ensures (G m0) P p m
      → ((a : A) (m' : Mem) → P a m' → Q a m0 m')
      → Watched G Q p m0 m
  watches (returns h) post = ends (post _ _ h)
  watches (does e g rest) post = goes e g (watches rest post)

  pub bind-Watched :
      {B : Type 0} {P : B → Mem → Mem → Type 0} {p : Prog B} {k : B → Prog A} {m0 m : Mem}
      → Watched G P p m0 m
      → ((b : B) (m0' m' : Mem) → P b m0' m' → Watched G Q (k b) m0' m')
      → Watched G Q (bind p k) m0 m
  bind-Watched (ends h) next = next _ _ _ h
  bind-Watched (waits rest) next = waits (bind-Watched rest next)
  bind-Watched (goes e g rest) next = goes e g (bind-Watched rest next)

  -- What is shown of a watched program is true of its run.
  pub run-Watched :
      {p : Prog A} {m0 m : Mem}
      → Watched G Q p m0 m
      → (a : A) × (m0' : Mem) × (m' : Mem) × (run p m ≡ finished a m') × Q a m0' m'
  unfolding run perform
  run-Watched (ends h) = (_, _, _, refl, h)
  run-Watched (waits rest) = run-Watched rest
  run-Watched (goes e g rest) = rw (e, run) (run-Watched rest)

  -- The same with a weaker condition on the accesses.
  pub weaken-Watched :
      {H : Mem → Mem → Action → Mem → Type 0} {R : A → Mem → Mem → Type 0} {p : Prog A} {m0 m : Mem}
      → ((m0 m : Mem) (a : Action) (m' : Mem) → G m0 m a m' → H m0 m a m')
      → ((a : A) (m0 m : Mem) → Q a m0 m → R a m0 m)
      → Watched G Q p m0 m
      → Watched H R p m0 m
  weaken-Watched weaken post (ends h) = ends (post _ _ _ h)
  weaken-Watched weaken post (waits rest) = waits (weaken-Watched weaken post rest)
  weaken-Watched weaken post (goes e g rest) =
      goes e (weaken _ _ _ _ g) (weaken-Watched weaken post rest)
