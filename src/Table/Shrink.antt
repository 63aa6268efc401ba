-- ===== src/Table/Shrink.antt =====
-- shrinkBucketsByFac2ReturnOld: halving a table.
use native.Mathlib.Nat.{one-le-pow, add-mod_right, mod-eq_of_lt}
use relativistic_hash_table.Base.{
  ℕ, suc, ◌+◌, ◌%◌, ◌^◌, ◌<◌, ◌≡◌, ◌≢◌, refl, sym, ap, ◌∙◌, false, none, some, List, ◌∷◌, arith,
  ◌∈◌, length, inl, inr, eq_false,
}
use relativistic_hash_table.Memory.{Ptr, null, Mem, within}
use relativistic_hash_table.Memory.Ensures.{
  Ensures, returns, loads_info, stores_info, synchronizes, bind-Ensures,
}
use relativistic_hash_table.Memory.Chain.{Chain-used}
use relativistic_hash_table.Memory.Leads.{Keeps}
use relativistic_hash_table.Buckets.Setup.{IsUnused, allocate_and_init_buckets-HasEmpty}
use relativistic_hash_table.Resize.{shrink_buckets_by_fac2_return_old}
use relativistic_hash_table.Table.Shape.{few_buckets, IsTable, array}
use relativistic_hash_table.Table.Halving.{
  Halving, half_double, some_bucket, mod_double, low-lt, high-lt, merged, merged-mem, start,
  all_rounds,
}

module _ (k : ℕ) (base fresh : Ptr) (chain : ℕ → List Ptr) (m : Mem)
    (t : IsTable m (suc k) base chain) (unused : IsUnused m fresh (2 ^ k)) (live : fresh ≢ null)
    (null_free : m.next null ≡ none) where
  hashed_merged : (i x : ℕ) → i < 2 ^ k → x ∈ merged k chain i → m.hash x % 2 ^ k ≡ i
  hashed_merged i x lt at = elim (merged-mem k chain i x at) [
    | inl low ↦
        sym (mod_double k (m.hash x))
        ∙ ap (λ r. r % 2 ^ k) (t.hashed i x (low-lt k i lt) low)
        ∙ mod-eq_of_lt lt
    | inr high ↦
        sym (mod_double k (m.hash x))
        ∙ ap (λ r. r % 2 ^ k) (t.hashed (i + 2 ^ k) x (high-lt k i lt) high)
        ∙ add-mod_right i (2 ^ k)
        ∙ mod-eq_of_lt lt
  ]

  node_unfresh : (i x : ℕ) → i < 2 ^ suc k → x ∈ chain i → within fresh (2 ^ k) x ≡ false
  node_unfresh i x lt at =
      ground (arith, unused x, Chain-used m.next null ((base + i) ∷ chain i) x (t.lists i lt))

  pub finish :
      (m' : Mem)
      → Halving k base fresh chain m (2 ^ k) m'
      → IsTable (record m' { buckets_info = some (array k fresh) }) k fresh (merged k chain)
  finish m' h = record {
    info = refl;
    fits = omega (arith, t.fits);
    lists = λ i lt. h.done i lt lt;
    hashed = λ i x lt at. ap (λ hash. hash x % 2 ^ k) h.same_hash ∙ hashed_merged i x lt at;
    nodes = λ i x lt at. elim (merged-mem k chain i x at) [
      | inl low ↦ node_unfresh i x (low-lt k i lt) low
      | inr high ↦ node_unfresh (i + 2 ^ k) x (high-lt k i lt) high
    ];
  }

  pub head_stays : (m' : Mem) → Halving k base fresh chain m (2 ^ k) m' → m'.next base ≡ m.next base
  head_stays m' h =
      ap m'.next (omega arith) ∙ h.heads 0 (omega (arith, one-le-pow k 2)) ∙ ap m.next (omega arith)

  -- In a table of more than one bucket, given an unused array for half as many buckets,
  -- `shrink_buckets_by_fac2_return_old`, with at least as many rounds as each bucket of the lower
  -- half has nodes, returns the old array and leaves a table on the new array, whose bucket `i` holds
  -- the nodes of the old buckets `i` and `i + 2 ^ k`. The size and all hashes stay. At every moment a
  -- reader, in the old array or in the new one, can reach all the nodes that it could reach before.
  pub shrink_buckets_by_fac2_return_old-IsTable :
      (fuel : ℕ)
      → ((i : ℕ) → i < 2 ^ k → length (chain i) < suc fuel)
      → Ensures
          (Keeps null null)
          (λ old m'.
            (old ≡ some (array (suc k) base))
            × IsTable m' k fresh (merged k chain)
            × (m'.hash ≡ m.hash)
            × (m'.size ≡ m.size)
            × (m'.next base ≡ m.next base))
          (shrink_buckets_by_fac2_return_old fuel fresh)
          m
  unfolding shrink_buckets_by_fac2_return_old
  shrink_buckets_by_fac2_return_old-IsTable fuel enough =
      loads_info t.info (λ x t off ne r. r)
        (rw (half_double k, eq_false (2 ^ k) 0 (some_bucket k))
          (bind-Ensures
            (allocate_and_init_buckets-HasEmpty m fresh (2 ^ k) (eq_false fresh null live)
              (some_bucket k) (few_buckets k t) unused)
            λ info m' (at, e). rw at (
              bind-Ensures
                (all_rounds k base fresh chain m t unused live null_free fuel m' enough
                  (start k base fresh chain m t unused live null_free m' e))
                λ _ m'' h.
                  stores_info (λ x t off ne r. r)
                    (synchronizes (λ x t off ne r. r)
                      (returns (refl, finish m'' h, h.same_hash, h.same_size, head_stays m'' h))))))
