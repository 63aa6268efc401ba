-- ===== src/Buckets/Setup.antt =====
-- upperBoundPowerOf2, allocateAndInitBuckets, and loops over the buckets of an array.
use relativistic_hash_table.Base.{
  ◌^◌, ℕ, zero, suc, ◌+◌, ◌≤◌, ◌<◌, ◌≡◌, ◌≢◌, refl, true, ltb, false, none, some, arith, ◌==◌,
  if◌then◌else◌, subst, Bool-cases, inl, inr,
}
use relativistic_hash_table.Memory.{Ptr, null, Mem, Action, Prog, within, perform}
use relativistic_hash_table.Memory.Faults.{Faults, fails, stuck}
use relativistic_hash_table.Memory.Ensures.{
  Ensures, returns, stores, allocates, with_buckets, relink, bind-Ensures, takes_then,
}
use relativistic_hash_table.Memory.Leads.{Keeps, Leads-mono}
use relativistic_hash_table.Buckets.{
  for_each, for_each_int, alloc_size, room_in, allocate_and_init_buckets,
}

plus_zero : (n : ℕ) → n ≡ n + 0
plus_zero n = omega arith

shift : (n k : ℕ) → n + 1 + k ≡ n + suc k
shift n k = omega arith

-- A loop over buckets keeps what each of its rounds keeps.
pub for_each-Ensures :
    {G : Mem → Action → Mem → Type 0} (I : ℕ → Mem → Type 0) (rounds from : ℕ)
    (body : ℕ → Prog (Unit {0})) (m : Mem)
    → ((i : ℕ) (m' : Mem)
        → from ≤ i
        → i < from + rounds
        → I i m'
        → Ensures G (λ _. I (i + 1)) (body i) m')
    → I from m
    → Ensures G (λ _. I (from + rounds)) (for_each rounds from body) m
unfolding for_each
for_each-Ensures I zero from body m keep start = returns (subst (λ i. I i m) (plus_zero from) start)
for_each-Ensures {G} I (suc rounds) from body m keep start =
    bind-Ensures (keep from m (omega arith) (omega arith) start) λ _ m' held.
      subst (λ i. Ensures G (λ _. I i) (for_each rounds (from + 1) body) m') (shift from rounds)
        (for_each-Ensures I rounds (from + 1) body m'
          (λ i m'' low high. keep i m'' (omega arith) (omega arith)) held)

-- So does a loop that counts with an `int`, of fewer than 2 ^ 31 rounds.
pub for_each_int-Ensures :
    {G : Mem → Action → Mem → Type 0} (I : ℕ → Mem → Type 0) (rounds from : ℕ)
    (body : ℕ → Prog (Unit {0})) (m : Mem)
    → from + rounds < 2 ^ 31
    → ((i : ℕ) (m' : Mem)
        → from ≤ i
        → i < from + rounds
        → I i m'
        → Ensures G (λ _. I (i + 1)) (body i) m')
    → I from m
    → Ensures G (λ _. I (from + rounds)) (for_each_int rounds from body) m
unfolding for_each_int
for_each_int-Ensures I zero from body m few keep start =
    returns (subst (λ i. I i m) (plus_zero from) start)
for_each_int-Ensures {G} I (suc rounds) from body m few keep start =
    bind-Ensures (keep from m (omega arith) (omega arith) start) λ _ m' held.
      takes_then _ _ (counts from rounds few) (
        subst (λ i. Ensures G (λ _. I i) (for_each_int rounds (from + 1) body) m')
          (shift from rounds)
          (for_each_int-Ensures I rounds (from + 1) body m' (omega arith)
            (λ i m'' low high. keep i m'' (omega arith) (omega arith)) held))
  where
    counts : (n k : ℕ) → n + suc k < 2 ^ 31 → ltb (n + 1) (2 ^ 31) ≡ true
    counts n k lt = ground (arith, lt)

-- No cell of the array that starts at `base` is in use.
abbrev pub IsUnused : Mem → (base count : ℕ) → Type 0
IsUnused m base n = (a : Ptr) → within base n a ≡ true → m.next a ≡ none

-- The memory `m'` is `m` with an array of empty buckets.
pub record HasEmpty (m : Mem) (base n : ℕ) (m' : Mem) : Type 0 where
  pub cells : (a : Ptr) → m'.next a ≡ (if within base n a then some null else m.next a)
  pub same_hash : m'.hash ≡ m.hash
  pub same_info : m'.buckets_info ≡ m.buckets_info
  pub same_size : m'.size ≡ m.size

module _ (m : Mem) (base n : ℕ) where
  clear_one :
      (i : ℕ) (m' : Mem)
      → 0 ≤ i
      → i < 0 + n
      → HasEmpty m base n m'
      → HasEmpty m base n (relink m' (base + i) null)
  clear_one i m' low high h = record {
    cells = λ a. ground (arith, h.cells a);
    same_hash = h.same_hash;
    same_info = h.same_info;
    same_size = h.same_size;
  }

  -- Given a non-empty array of fewer than 2 ^ 31 unused cells, `allocate_and_init_buckets` returns
  -- the array, makes each of its buckets an empty list, and changes nothing else. No reader loses a
  -- cell.
  pub allocate_and_init_buckets-HasEmpty :
      (base == null) ≡ false
      → n ≢ 0
      → n < 2 ^ 31
      → IsUnused m base n
      → Ensures
          (Keeps null null)
          (λ info m'.
            (info ≡ record { nr_buckets_power_of2 = n; buckets = base }) × HasEmpty m base n m')
          (allocate_and_init_buckets base n)
          m
  unfolding allocate_and_init_buckets
  allocate_and_init_buckets-HasEmpty live some_bucket few unused =
      rw (nonzero some_bucket, room few)
        (allocates live (λ x t off ne r. Leads-mono (λ a q e. ground (arith, unused a)) r)
          (bind-Ensures
            (for_each_int-Ensures (λ i. HasEmpty m base n) n 0 _ (with_buckets m base n)
              (omega arith)
              (λ i m' low high h.
                stores {o = null} null (ground (arith, h.cells (base + i)))
                  (λ x t off ne r. Leads-mono (λ a q e. ground (arith, h.cells a)) r)
                  (returns (clear_one i m' low high h)))
              (record { cells = λ a. refl; same_hash = refl; same_info = refl; same_size = refl }))
            λ _ m' h. returns (refl, h)))
    where
      nonzero : n ≢ 0 → (n == 0) ≡ false
      nonzero ne = ground arith

      room : n < 2 ^ 31 → room_in (alloc_size n) ≡ n
      room few = omega (arith, few)

-- Without memory for the array there is no array.
pub allocate_and_init_buckets-Faults :
    (nr : ℕ) (m : Mem) → Faults (allocate_and_init_buckets null nr) m
unfolding allocate_and_init_buckets perform
allocate_and_init_buckets-Faults nr m = elim (Bool-cases (nr == 0)) [
  | inl none_asked ↦ rw none_asked fails
  | inr some_asked ↦ rw some_asked (stuck refl)
]
