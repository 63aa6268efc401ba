-- ===== src/Table/Replace.antt =====
-- shrinkBucketsByFac2IfNecessary: the old array is freed behind a wait for its readers.
use relativistic_hash_table.Base.{
  ◌∙◌, ℕ, suc, ◌^◌, ◌<◌, ◌≡◌, ◌≢◌, refl, ap, Bool, true, false, ◌&&◌, none, some, List, arith, inl,
  inr, length, ltb, Bool-cases, eq_false,
}
use relativistic_hash_table.Memory.{Ptr, null, Mem, perform}
use relativistic_hash_table.Memory.Chain
use relativistic_hash_table.Memory.Ensures.{perform-load_info, perform-release, without_buckets}
use relativistic_hash_table.Memory.Retires.{
  Reached, Reached-frame, ends, goes, Retires, gives_up, first, last, bind-Retires, ensures_first,
  weaken-Retires,
}
use relativistic_hash_table.Buckets.Setup.{IsUnused, allocate_and_init_buckets-HasEmpty}
use relativistic_hash_table.Buckets.{destroy_and_free_buckets}
use relativistic_hash_table.Resize.{
  Load, shrink_buckets_by_fac2_return_old, free_old, shrink_buckets2x, shrink_if_necessary,
}
use relativistic_hash_table.Table.Shape.{few_buckets, IsTable, IsTable-head, array}
use relativistic_hash_table.Table.Halving.{half_double, some_bucket, merged, start, all_rounds}
use relativistic_hash_table.Table.Shrink.{finish, head_stays}
use relativistic_hash_table.Table.Reclaim.{outside_old, without_buckets-IsTable}
use relativistic_hash_table.Table.Unreached.{Reached-IsCell}

-- A table, and null is not a cell.
abbrev pub IsTableOff : Mem → (k : ℕ) → Ptr → (ℕ → List Ptr) → Type 0
IsTableOff m k base chain = IsTable m k base chain × (m.next null ≡ none)

module _ (k : ℕ) (base fresh : Ptr) (chain : ℕ → List Ptr) (m : Mem)
    (t : IsTable m (suc k) base chain) (unused : IsUnused m fresh (2 ^ k)) (live : fresh ≢ null)
    (null_free : m.next null ≡ none) (fuel : ℕ)
    (enough : (i : ℕ) → i < 2 ^ k → length (chain i) < suc fuel) where
  return_old-Retires :
      Retires
        (λ old m'. ⊥)
        (λ old m'.
          (old ≡ some (array (suc k) base))
          × (m'.next base ≡ m.next base)
          × IsTableOff m' k fresh (merged k chain))
        (shrink_buckets_by_fac2_return_old fuel fresh)
        m
  unfolding shrink_buckets_by_fac2_return_old perform
  return_old-Retires = first (perform-load_info (array (suc k) base) m t.info) (
      rw (half_double k, eq_false (2 ^ k) 0 (some_bucket k))
        (ensures_first
          (allocate_and_init_buckets-HasEmpty m fresh (2 ^ k) (eq_false fresh null live)
            (some_bucket k) (few_buckets k t) unused)
          λ info m' (at, e). rw at (
            ensures_first
              (all_rounds k base fresh chain m t unused live null_free fuel m' enough
                (start k base fresh chain m t unused live null_free m' e))
              λ _ m'' h. first refl (
                last (
                  ends (
                    refl,
                    head_stays k base fresh chain m t unused live null_free m'' h,
                    (finish k base fresh chain m t unused live null_free m'' h, h.null_unused),
                  ))))))

  -- Freeing the old array takes nothing from readers.
  freed-Reached :
      (m' : Mem) (x : Ptr)
      → IsTableOff m' k fresh (merged k chain)
      → Reached m' x
      → Reached (without_buckets m' base (2 ^ suc k)) x
  freed-Reached m' x (t', nf) = Reached-frame refl λ y r. elim (Reached-IsCell t' nf r) [
    | inl at ↦ ground (arith, nf, ap m'.next at)
    | inr (i, lt, at) ↦ ground (arith, outside_old k base fresh chain m t unused i y lt at)
  ]

  shrink_buckets2x-Retires :
      Retires
        (λ shrunk m'. ⊥)
        (λ shrunk m'. (shrunk ≡ true) × IsTableOff m' k fresh (merged k chain))
        (shrink_buckets2x fuel fresh)
        m
  unfolding shrink_buckets2x free_old destroy_and_free_buckets perform
  shrink_buckets2x-Retires =
      bind-Retires return_old-Retires (λ old m' never. absurd never)
        λ old m' (at, head, off). rw at (
          goes refl
            (perform-release base (2 ^ suc k) (Chain.first (chain 0) null) m'
              (head ∙ IsTable-head t))
            (λ x r. freed-Reached m' x off r)
            (ends (
              refl,
              (
                without_buckets-IsTable k base fresh chain m t unused m' off.0,
                ground (arith, off.1),
              ),
            )))

  pub shrink_if_necessary-Retires :
      (load : Load) (n b : ℕ)
      → Retires
          (λ shrunk m'. (shrunk ≡ false) × (m' ≡ m))
          (λ shrunk m'. (shrunk ≡ true) × IsTableOff m' k fresh (merged k chain))
          (shrink_if_necessary load fuel fresh n b)
          m
  unfolding shrink_if_necessary
  shrink_if_necessary-Retires load n b = elim (Bool-cases test) [
    | inl small ↦ rw small (
        weaken-Retires (λ shrunk m' h. h) (λ shrunk m' never. absurd never)
          shrink_buckets2x-Retires)
    | inr large ↦ rw large (gives_up (refl, refl))
  ]
    where
      test : Bool
      test =
          load.less (load.of_size n) (load.times load.shrink_factor (load.of_size b)) && ltb 128 n
