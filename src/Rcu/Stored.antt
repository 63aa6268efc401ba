-- ===== src/Rcu/Stored.antt =====
-- The array that a zone keeps its counts in: what its places are after the set-up.
use relativistic_hash_table.Base.{
  ℕ, zero, suc, ◌+◌, ◌*◌, ◌%◌, ◌^◌, ◌≤◌, ◌<◌, ◌≡◌, false, refl, sym, ap, ◌∙◌, arith, ◌==◌, inl, inr,
  Bool-cases, ==_false,
}
use relativistic_hash_table.Memory.{Ptr}
use relativistic_hash_table.Rcu.{
  Zone, max_epoches, nr_buckets_per_epoch, init_zone_with_bucket_counts,
}
use relativistic_hash_table.Rcu.Storage.{
  Rings, Store, nr_buckets_one_epoch, clear_counts, set_rows, init, place,
}

-- The counts of `zone` stand in one array of the free store, each at a place of its own.
pub record IsStored (nr : ℕ) (zone : Zone) (rings : Rings) (store : Store) : Type 0 where
  pub buckets : rings.nr_hash_thread_buckets ≡ zone.nr_hash_thread_buckets
  pub latest : rings.epoch_latest ≡ zone.epoch_latest
  pub oldest : rings.epoch_oldest ≡ zone.epoch_oldest
  pub above :
      (row b : ℕ)
      → row < max_epoches
      → b < nr_buckets_per_epoch nr zone
      → rings.p_buckets 0 ≤ place rings row b
  pub below :
      (row b : ℕ)
      → row < max_epoches
      → b < nr_buckets_per_epoch nr zone
      → place rings row b < rings.p_buckets 0 + store.block (rings.p_buckets 0)
  pub counts :
      (row b : ℕ)
      → row < max_epoches
      → b < nr_buckets_per_epoch nr zone
      → store.count (place rings row b) ≡ zone.count row b
  pub apart :
      (row b row' b' : ℕ)
      → row < max_epoches
      → row' < max_epoches
      → b < nr_buckets_per_epoch nr zone
      → b' < nr_buckets_per_epoch nr zone
      → place rings row b ≡ place rings row' b'
      → (row ≡ row') × (b ≡ b')

stays_cleared :
    (left : ℕ) (p : Ptr) (count : Ptr → ℕ) (a : Ptr) → count a ≡ 0 → clear_counts left p count a ≡ 0
unfolding clear_counts
stays_cleared zero p count a e = e
stays_cleared (suc left) p count a e = stays_cleared left (p + 1) _ a (ground (arith, e))

-- The loop clears the `left` counts from `p` on.
cleared :
    (left : ℕ) (p : Ptr) (count : Ptr → ℕ) (a : Ptr)
    → p ≤ a
    → a < p + left
    → clear_counts left p count a ≡ 0
unfolding clear_counts
cleared zero p count a low high = absurd (omega arith)
cleared (suc left) p count a low high = elim (Bool-cases (a == p)) [
  | inl here ↦ stays_cleared left (p + 1) _ a (ground (arith, here))
  | inr off ↦ cleared left (p + 1) _ a (ground (arith, ==_false a p off)) (omega arith)
]

module _ (nr n : ℕ) (start : Ptr) (rings : Rings) (store : Store)
    (fits : (init_zone_with_bucket_counts n).nr_hash_thread_buckets + nr < 2 ^ 31) where
  abbrev new_zone : Zone
  new_zone = init_zone_with_bucket_counts n

  abbrev per : ℕ
  per = nr_buckets_per_epoch nr new_zone

  one_epoch : (nr_buckets_one_epoch nr new_zone.nr_hash_thread_buckets ≡ per) × (per < 2 ^ 31)
  unfolding nr_buckets_one_epoch nr_buckets_per_epoch
  one_epoch = (ground (arith, fits), ground (arith, fits))

  row_at :
      (row : ℕ)
      → row < max_epoches
      → (init nr n start rings store).0.p_buckets row ≡ start + row * per
  unfolding init set_rows init_zone_with_bucket_counts
  row_at zero lt = ap (λ e. start + 0 * e) one_epoch.0
  row_at (suc zero) lt = ap (λ e. start + 1 * e) one_epoch.0
  row_at (suc (suc row)) lt = absurd (omega arith)

  length_at : (init nr n start rings store).1.block start ≡ 2 * per
  unfolding init init_zone_with_bucket_counts
  length_at = ground (arith, one_epoch.0, one_epoch.1)

  pub other_block :
      (a : Ptr) → (a == start) ≡ false → (init nr n start rings store).1.block a ≡ store.block a
  unfolding init
  other_block a off = rw off refl

  clear : (a : Ptr) → start ≤ a → a < start + 2 * per → (init nr n start rings store).1.count a ≡ 0
  unfolding init init_zone_with_bucket_counts
  clear a low high =
      cleared (nr_buckets_one_epoch nr new_zone.nr_hash_thread_buckets * max_epoches % 2 ^ 64) start
        store.count a low (ground (arith, one_epoch.0, one_epoch.1, high))

  pub at_start : (init nr n start rings store).0.p_buckets 0 ≡ start
  at_start = ground (arith, row_at 0 (omega arith))

  inside :
      (row b : ℕ)
      → row < max_epoches
      → b < per
      → (start ≤ start + row * per + b) × (start + row * per + b < start + 2 * per)
  inside zero b lt le = (omega arith, omega arith)
  inside (suc zero) b lt le = (omega arith, omega arith)
  inside (suc (suc row)) b lt le = absurd (omega arith)

  places_apart :
      (row b row' b' : ℕ)
      → row < max_epoches
      → row' < max_epoches
      → b < per
      → b' < per
      → start + row * per + b ≡ start + row' * per + b'
      → (row ≡ row') × (b ≡ b')
  places_apart zero b zero b' lt lt' le le' e = (refl, omega arith)
  places_apart zero b (suc zero) b' lt lt' le le' e = absurd (omega arith)
  places_apart (suc zero) b zero b' lt lt' le le' e = absurd (omega arith)
  places_apart (suc zero) b (suc zero) b' lt lt' le le' e = (refl, omega arith)
  places_apart (suc (suc row)) b row' b' lt lt' le le' e = absurd (omega arith)
  places_apart zero b (suc (suc row')) b' lt lt' le le' e = absurd (omega arith)
  places_apart (suc zero) b (suc (suc row')) b' lt lt' le le' e = absurd (omega arith)

  same_sizes :
      ((init nr n start rings store).0.nr_hash_thread_buckets ≡ new_zone.nr_hash_thread_buckets)
      × ((init nr n start rings store).0.epoch_latest ≡ new_zone.epoch_latest)
      × ((init nr n start rings store).0.epoch_oldest ≡ new_zone.epoch_oldest)
      × ((row b : ℕ) → new_zone.count row b ≡ 0)
  unfolding init init_zone_with_bucket_counts
  same_sizes = (refl, refl, refl, λ row b. refl)

  -- If the zone has fewer than 2 ^ 31 counts per epoch, the set-up lays the counts of both epochs out
  -- in the array that it allocates, each at a place of its own and cleared, as a new zone has them.
  pub init-IsStored :
      IsStored nr new_zone (init nr n start rings store).0 (init nr n start rings store).1
  init-IsStored = record {
    buckets = same_sizes.0;
    latest = same_sizes.1;
    oldest = same_sizes.2;
    above = λ row b lt le. rw (row_at row lt) (rw at_start (inside row b lt le).0);
    below = λ row b lt le. rw (row_at row lt) (rw at_start (rw length_at (inside row b lt le).1));
    counts = λ row b lt le. rw (row_at row lt) (
        clear (start + row * per + b) (inside row b lt le).0 (inside row b lt le).1
        ∙ sym (same_sizes.3 row b));
    apart = λ row b row' b' lt lt' le le' e.
        places_apart row b row' b' lt lt' le le'
          (ap (λ a. a + b) (sym (row_at row lt)) ∙ e ∙ ap (λ a. a + b') (row_at row' lt'));
  }
