-- ===== src/Table/Setup.antt =====
-- rTableCoreInitDetailed.
use relativistic_hash_table.Base.{
  ℕ, zero, suc, ◌+◌, ◌-◌, ◌%◌, ◌^◌, ◌≤◌, ◌≡◌, ◌≢◌, refl, ap, ◌∙◌, some, [], arith, if◌then◌else◌,
  eq_false,
}
use relativistic_hash_table.Bits.{smear}
use relativistic_hash_table.Bits.Smear.{round_up, lt_of-pow-lt}
use relativistic_hash_table.Memory.{Ptr, null, Mem, within}
use relativistic_hash_table.Memory.Ensures.{Ensures, returns, stores_info, bind-Ensures, mono}
use relativistic_hash_table.Memory.Leads.{Keeps}
use relativistic_hash_table.Buckets.{upper_bound_power_of2}
use relativistic_hash_table.Buckets.Setup.{IsUnused, HasEmpty, allocate_and_init_buckets-HasEmpty}
use relativistic_hash_table.Table.{init_detailed}
use relativistic_hash_table.Table.Shape.{IsTable, array}
use native.Mathlib.Nat.{one-le-pow, pow-le-pow_right}

-- The number of buckets of a new table.
bucket_count :
    (v : ℕ)
    → v ≤ 2 ^ 30
    → (k : ℕ) × (upper_bound_power_of2 v ≡ 2 ^ k) × (v ≤ 2 ^ k) × (k ≤ 30) × (v ≤ 2 ^ 29 → k ≤ 29)
unfolding upper_bound_power_of2 smear
bucket_count zero high = (0, refl, omega arith, omega arith, λ h. omega arith)
bucket_count (suc zero) high = (0, refl, omega arith, omega arith, λ h. omega arith)
bucket_count (suc (suc v)) high =
    let (k, is, low, up) = round_up (suc (suc v)) (omega arith) (omega (arith, high)) in
    (
      k,
      unfolded ∙ ap (λ x. (smear x + 1) % 2 ^ 32) before ∙ is,
      low,
      omega (arith, lt_of-pow-lt k 31 (omega (arith, up, high))),
      λ h. omega (arith, lt_of-pow-lt k 30 (omega (arith, up, h))),
    )
  where
    unfolded :
        upper_bound_power_of2 (suc (suc v))
        ≡ (smear ((suc (suc v) + 2 ^ 32 - 1) % 2 ^ 32) + 1) % 2 ^ 32
    unfolded =
        ap (λ b. if b then 1 else (smear ((suc (suc v) + 2 ^ 32 - 1) % 2 ^ 32) + 1) % 2 ^ 32)
          (eq_false (suc (suc v)) 0 (λ e. omega (arith, e)))

    before : (suc (suc v) + 2 ^ 32 - 1) % 2 ^ 32 ≡ suc (suc v) - 1
    before = ground arith

module _ (m : Mem) (fresh : Ptr) where
  empty-IsTable :
      (k : ℕ) (m' : Mem)
      → k ≤ 30
      → fresh ≢ null
      → HasEmpty m fresh (2 ^ k) m'
      → IsTable (record m' { buckets_info = some (array k fresh) }) k fresh (λ _. [])
  empty-IsTable k m' fits live e = record {
    info = refl;
    fits = fits;
    lists = λ i lt. (λ at. live (omega (arith, at)), ground (arith, e.cells (fresh + i)), refl, tt);
    hashed = λ i x lt at. absurd (ground (arith, at));
    nodes = λ i x lt at. absurd (ground (arith, at));
  }

  -- The array is that of the table, its cells are empty, and all other cells are as before.
  pub init_detailed-HasEmpty :
      (nr_buckets : ℕ)
      → nr_buckets ≤ 2 ^ 30
      → fresh ≢ null
      → IsUnused m fresh (upper_bound_power_of2 nr_buckets)
      → Ensures
          (Keeps null null)
          (λ _ m'.
            (k : ℕ) × (upper_bound_power_of2 nr_buckets ≡ 2 ^ k)
            × (nr_buckets ≤ 2 ^ k)
            × (k ≤ 30)
            × (nr_buckets ≤ 2 ^ 29 → k ≤ 29)
            × IsTable m' k fresh (λ _. [])
            × ((a : Ptr) → m'.next a ≡ (if within fresh (2 ^ k) a then some null else m.next a)))
          (init_detailed fresh nr_buckets)
          m
  unfolding init_detailed
  init_detailed-HasEmpty v high live unused =
      let (k, is, low, fits, half) = bucket_count v high in
      rw is (
        bind-Ensures
          (allocate_and_init_buckets-HasEmpty m fresh (2 ^ k) (eq_false fresh null live)
            (λ e. omega (arith, e, one-le-pow k 2))
            (omega (arith, pow-le-pow_right {n = 2} (omega arith) fits)) (rw is at unused))
          λ info m' (at, e). rw at (
            stores_info (λ x t off ne r. r)
              (returns (
                k,
                refl,
                low,
                fits,
                half,
                empty-IsTable k m' (omega (arith, fits)) live e,
                e.cells,
              ))))

  -- Given an unused array, `init_detailed` for at most 2 ^ 30 buckets makes a table whose buckets are
  -- all empty; their number is a power of two that is at least the number asked for. No reader loses
  -- a cell.
  pub init_detailed-IsTable :
      (nr_buckets : ℕ)
      → nr_buckets ≤ 2 ^ 30
      → fresh ≢ null
      → IsUnused m fresh (upper_bound_power_of2 nr_buckets)
      → Ensures
          (Keeps null null)
          (λ _ m'. (k : ℕ) × (nr_buckets ≤ 2 ^ k) × IsTable m' k fresh (λ _. []))
          (init_detailed fresh nr_buckets)
          m
  init_detailed-IsTable v high live unused =
      mono (init_detailed-HasEmpty v high live unused)
        λ _ m' (k, is, low, fits, half, t, cells). (k, low, t)
