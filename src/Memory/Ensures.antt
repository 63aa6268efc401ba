-- ===== src/Memory/Ensures.antt =====
-- Total correctness of a program run alone, with a condition on each access that it makes.
use relativistic_hash_table.Base.{
  arith, ap, Option, Bool, true, subst, sym, ℕ, ◌+◌, ◌%◌, ◌^◌, ◌≡◌, refl, false, none, some, ◌==◌,
  if◌then◌else◌,
}
use relativistic_hash_table.Memory.{
  Ptr, Mem, put, Action, load, store, get_hash, set_hash, load_info, peek_info, store_info,
  load_size, add_size, allocate, release, synchronize, BucketsInfo, null, within, Reply, Prog, ret,
  act, bind, perform, finished, run,
}

-- `Ensures G Q p m`: from `m` the program `p` meets no fault and has fuel enough, ends in a result
-- and a memory that satisfy `Q`, and each access `a` that takes `m` to `m'` satisfies `G m a m'`.
pub data Ensures {A : Type 0} (G : Mem → Action → Mem → Type 0) (Q : A → Mem → Type 0)
    : Prog A → Mem → Type 0 where
  returns : {a : A} {m : Mem} → Q a m → Ensures G Q (ret a) m
  does :
      {a : Action} {k : Reply a → Prog A} {m : Mem} {r : Reply a} {m' : Mem}
      → perform a m ≡ some (r, m')
      → G m a m'
      → Ensures G Q (k r) m'
      → Ensures G Q (act a k) m

abbrev pub relink : Mem → Ptr → Ptr → Mem
relink m p q = record m { next = put m.next p (some q) }

abbrev pub rehash : Mem → Ptr → ℕ → Mem
rehash m p v = record m { hash = put m.hash p v }

abbrev pub resize : Mem → ℕ → Mem
resize m n = record m { size = (m.size + n) % 2 ^ 64 }

abbrev pub with_buckets : Mem → (base count : ℕ) → Mem
with_buckets m base n = record m { next = λ a. if within base n a then some null else m.next a }

abbrev pub without_buckets : Mem → (base count : ℕ) → Mem
without_buckets m base n = record m { next = λ a. if within base n a then none else m.next a }

pub perform-load_info :
    (i : BucketsInfo) (m : Mem) → m.buckets_info ≡ some i → perform load_info m ≡ some (i, m)
unfolding perform
perform-load_info i m e = ground arith

perform-allocate :
    (base n : ℕ) (m : Mem)
    → (base == null) ≡ false
    → perform (allocate base n) m ≡ some (tt, with_buckets m base n)
unfolding perform
perform-allocate base n m e = rw e

perform-load : (p q : Ptr) (m : Mem) → m.next p ≡ some q → perform (load p) m ≡ some (q, m)
unfolding perform
perform-load p q m e = rw (e, perform)

perform-store :
    (p o q : Ptr) (m : Mem) → m.next p ≡ some o → perform (store p q) m ≡ some (tt, relink m p q)
unfolding perform
perform-store p o q m e = rw (e, perform)

perform-get_hash :
    (p q : Ptr) (m : Mem) → m.next p ≡ some q → perform (get_hash p) m ≡ some (m.hash p, m)
unfolding perform
perform-get_hash p q m e = rw (e, perform)

perform-set_hash :
    (p q v : ℕ) (m : Mem) → m.next p ≡ some q → perform (set_hash p v) m ≡ some (tt, rehash m p v)
unfolding perform
perform-set_hash p q v m e = rw (e, perform)

pub perform-release :
    (base n q : ℕ) (m : Mem)
    → m.next base ≡ some q
    → perform (release base n) m ≡ some (tt, without_buckets m base n)
unfolding perform
perform-release base n q m e = rw (e, perform)

module _ {A : Type 0} {G : Mem → Action → Mem → Type 0} where
  module _ {Q : A → Mem → Type 0} where
    pub loads :
        {p q : Ptr} {k : Ptr → Prog A} {m : Mem}
        → m.next p ≡ some q
        → G m (load p) m
        → Ensures G Q (k q) m
        → Ensures G Q (act (load p) k) m
    loads e g rest = does (perform-load _ _ _ e) g rest

    pub stores :
        {p o : Ptr} (q : Ptr) {k : Unit {0} → Prog A} {m : Mem}
        → m.next p ≡ some o
        → G m (store p q) (relink m p q)
        → Ensures G Q (k tt) (relink m p q)
        → Ensures G Q (act (store p q) k) m
    stores q e g rest = does (perform-store _ _ q _ e) g rest

    pub gets_hash :
        {p q : Ptr} {k : ℕ → Prog A} {m : Mem}
        → m.next p ≡ some q
        → G m (get_hash p) m
        → Ensures G Q (k (m.hash p)) m
        → Ensures G Q (act (get_hash p) k) m
    gets_hash e g rest = does (perform-get_hash _ _ _ e) g rest

    pub sets_hash :
        {p q : Ptr} {v : ℕ} {k : Unit {0} → Prog A} {m : Mem}
        → m.next p ≡ some q
        → G m (set_hash p v) (rehash m p v)
        → Ensures G Q (k tt) (rehash m p v)
        → Ensures G Q (act (set_hash p v) k) m
    sets_hash e g rest = does (perform-set_hash _ _ _ _ e) g rest

    pub loads_info :
        {i : BucketsInfo} {k : BucketsInfo → Prog A} {m : Mem}
        → m.buckets_info ≡ some i
        → G m load_info m
        → Ensures G Q (k i) m
        → Ensures G Q (act load_info k) m
    loads_info e g rest = does (perform-load_info _ _ e) g rest

    pub stores_info :
        {i : BucketsInfo} {k : Unit {0} → Prog A} {m : Mem}
        → G m (store_info i) (record m { buckets_info = some i })
        → Ensures G Q (k tt) (record m { buckets_info = some i })
        → Ensures G Q (act (store_info i) k) m
    unfolding perform
    stores_info g rest = does refl g rest

    pub loads_size :
        {k : ℕ → Prog A} {m : Mem}
        → G m load_size m
        → Ensures G Q (k m.size) m
        → Ensures G Q (act load_size k) m
    unfolding perform
    loads_size g rest = does refl g rest

    pub adds_size :
        {n : ℕ} {k : Unit {0} → Prog A} {m : Mem}
        → G m (add_size n) (resize m n)
        → Ensures G Q (k tt) (resize m n)
        → Ensures G Q (act (add_size n) k) m
    unfolding perform
    adds_size g rest = does refl g rest

    pub allocates :
        {base n : ℕ} {k : Unit {0} → Prog A} {m : Mem}
        → (base == null) ≡ false
        → G m (allocate base n) (with_buckets m base n)
        → Ensures G Q (k tt) (with_buckets m base n)
        → Ensures G Q (act (allocate base n) k) m
    allocates e g rest = does (perform-allocate _ _ _ e) g rest

    pub releases :
        {base n q : ℕ} {k : Unit {0} → Prog A} {m : Mem}
        → m.next base ≡ some q
        → G m (release base n) (without_buckets m base n)
        → Ensures G Q (k tt) (without_buckets m base n)
        → Ensures G Q (act (release base n) k) m
    releases e g rest = does (perform-release _ _ _ _ e) g rest

    pub peeks_info :
        {i : Option BucketsInfo} {k : Option BucketsInfo → Prog A} {m : Mem}
        → m.buckets_info ≡ i
        → G m peek_info m
        → Ensures G Q (k i) m
        → Ensures G Q (act peek_info k) m
    unfolding perform
    peeks_info {m = m} e g rest = does (ap (λ i. some (i, m)) e) g rest

    pub synchronizes :
        {k : Unit {0} → Prog A} {m : Mem}
        → G m synchronize m
        → Ensures G Q (k tt) m
        → Ensures G Q (act synchronize k) m
    unfolding perform
    synchronizes g rest = does refl g rest

    pub bind-Ensures :
        {B : Type 0} {P : B → Mem → Type 0} {p : Prog B} {k : B → Prog A} {m : Mem}
        → Ensures G P p m
        → ((b : B) (m' : Mem) → P b m' → Ensures G Q (k b) m')
        → Ensures G Q (bind p k) m
    bind-Ensures (returns h) next = next _ _ h
    bind-Ensures (does e g rest) next = does e g (bind-Ensures rest next)

    pub mono :
        {P : A → Mem → Type 0} {p : Prog A} {m : Mem}
        → Ensures G P p m
        → ((a : A) (m' : Mem) → P a m' → Q a m')
        → Ensures G Q p m
    mono (returns h) weaken = returns (weaken _ _ h)
    mono (does e g rest) weaken = does e g (mono rest weaken)

    -- What is ensured of a program is true of its run.
    pub run-Ensures :
        {p : Prog A} {m : Mem}
        → Ensures G Q p m
        → (a : A) × (m' : Mem) × (run p m ≡ finished a m') × Q a m'
    unfolding run
    run-Ensures (returns h) = (_, _, refl, h)
    run-Ensures (does e g rest) = rw (e, run) (run-Ensures rest)

-- A program that keeps a condition on its accesses keeps a weaker one.
pub weaken-Ensures :
    {A : Type 0} {G H : Mem → Action → Mem → Type 0} {Q : A → Mem → Type 0} {p : Prog A} {m : Mem}
    → ((m : Mem) (a : Action) (m' : Mem) → G m a m' → H m a m')
    → Ensures G Q p m
    → Ensures H Q p m
weaken-Ensures weaken (returns h) = returns h
weaken-Ensures weaken (does e g rest) = does e (weaken _ _ _ g) (weaken-Ensures weaken rest)

-- The branch that a test takes.
module _ {A : Type 0} {G : Mem → Action → Mem → Type 0} {Q : A → Mem → Type 0} (p q : Prog A) where
  pub takes_then :
      {b : Bool} {m : Mem} → b ≡ true → Ensures G Q p m → Ensures G Q (if b then p else q) m
  takes_then {m = m} e rest = subst (λ b. Ensures G Q (if b then p else q) m) (sym e) rest

  pub takes_else :
      {b : Bool} {m : Mem} → b ≡ false → Ensures G Q q m → Ensures G Q (if b then p else q) m
  takes_else {m = m} e rest = subst (λ b. Ensures G Q (if b then p else q) m) (sym e) rest
