-- ===== src/Table/Remove.antt =====
-- rTableCoreTryDetachAutoShrink and rTableCoreTryDetachAndSynchronize.
use relativistic_hash_table.Base.{
  ℕ, suc, ◌%◌, ◌^◌, ◌≤◌, ◌<◌, ◌≡◌, ◌≢◌, refl, ◌∙◌, Bool, true, false, ◌&&◌, none, some, List, [],
  ◌∷◌, arith, ◌⊎◌, length, find, erase, ltb, ◌==◌, Bool-cases, inl, inr, ==_false,
}
use relativistic_hash_table.Memory.{Ptr, null, BucketsInfo, Mem, Action}
use relativistic_hash_table.Memory.Ensures.{
  Ensures, returns, loads_info, loads_size, bind-Ensures, weaken-Ensures, mono,
}
use relativistic_hash_table.Memory.Leads.{Leads, Keeps}
use relativistic_hash_table.Buckets.Setup.{IsUnused}
use relativistic_hash_table.Resize.{Load, shrink_if_necessary}
use relativistic_hash_table.Table.{try_detach_auto_shrink}
use relativistic_hash_table.Table.Shape.{IsTable, array, index-lt}
use relativistic_hash_table.Table.Detach.{Detached, erased, try_detach_no_shrink-Detached}
use relativistic_hash_table.Table.Halving.{double, merged}
use relativistic_hash_table.Table.Reclaim.{KeepsOrFrees, shrink_buckets2x-halves}

length-erase-le : (p : ℕ → Bool) (xs : List ℕ) → length (erase p xs) ≤ length xs
length-erase-le p [] = omega arith
length-erase-le p (x ∷ xs) = ground (arith, length-erase-le p xs)

-- An access that makes no cell but `gone` unreachable for a reader that stands at a cell, or the
-- `free` of the array `old` when it is no longer the one of the table.
abbrev pub Removes : (gone : Ptr) (old : BucketsInfo) → Mem → Action → Mem → Type 0
Removes gone old m a m' =
    ((x t : Ptr) → x ≢ null → t ≢ null → t ≢ gone → Leads m.next t x → Leads m'.next t x)
    ⊎ ((a ≡ Action.release old.buckets old.nr_buckets_power_of2) × (m.buckets_info ≢ some old))

Keeps-Removes :
    {gone : Ptr} {old : BucketsInfo} (m : Mem) (a : Action) (m' : Mem)
    → Keeps null gone m a m'
    → Removes gone old m a m'
Keeps-Removes m a m' keeps = inl (λ x t at live ne r. keeps x t at ne r)

KeepsOrFrees-Removes :
    {gone : Ptr} {old : BucketsInfo} (m : Mem) (a : Action) (m' : Mem)
    → KeepsOrFrees old m a m'
    → Removes gone old m a m'
KeepsOrFrees-Removes m a m' (inl keeps) = inl (λ x t at live ne r. keeps x t at live r)
KeepsOrFrees-Removes m a m' (inr frees) = inr frees

-- What an attempt to halve the table with the lists `chain` leaves: it was halved or not.
abbrev pub MaybeShrunk : (k : ℕ) (base fresh : Ptr) (chain : ℕ → List Ptr) → Bool → Mem → Type 0
MaybeShrunk k base fresh chain true m' =
    IsTable m' k fresh (merged k chain) × IsUnused m' base (2 ^ suc k)
MaybeShrunk k base fresh chain false m' = IsTable m' (suc k) base chain

module _ (load : Load) (k : ℕ) (base fresh : Ptr) (chain : ℕ → List Ptr) (fuel : ℕ) where
  shrink_if_necessary-MaybeShrunk :
      (nr_elements nr_buckets : ℕ) (m : Mem)
      → IsTable m (suc k) base chain
      → IsUnused m fresh (2 ^ k)
      → fresh ≢ null
      → m.next null ≡ none
      → ((i : ℕ) → i < 2 ^ k → length (chain i) < suc fuel)
      → Ensures
          (KeepsOrFrees (array (suc k) base))
          (λ shrunk m'.
            MaybeShrunk k base fresh chain shrunk m' × (m'.hash ≡ m.hash) × (m'.size ≡ m.size))
          (shrink_if_necessary load fuel fresh nr_elements nr_buckets)
          m
  unfolding shrink_if_necessary
  shrink_if_necessary-MaybeShrunk n b m t unused live null_free enough = elim (Bool-cases test) [
    | inl small ↦ rw small (
        mono (shrink_buckets2x-halves k base fresh chain m t unused live null_free fuel enough)
          λ shrunk m' (at, s). rw at ((s.table, s.freed), s.same_hash, s.same_size))
    | inr large ↦ rw large (returns (t, refl, refl))
  ]
    where
      test : Bool
      test =
          load.less (load.of_size n) (load.times load.shrink_factor (load.of_size b)) && ltb 128 n

module _ (load : Load) (k : ℕ) (base fresh : Ptr) (chain : ℕ → List Ptr) (fuel : ℕ)
    (predict : Ptr → Bool) (h : ℕ) (m : Mem) (t : IsTable m (suc k) base chain)
    (unused : IsUnused m fresh (2 ^ k)) (live : fresh ≢ null) (null_free : m.next null ≡ none)
    (enough : (i : ℕ) → i < 2 ^ suc k → length (chain i) < fuel) where
  -- the lists without the detached node
  abbrev rest : ℕ → List Ptr
  rest = erased predict (suc k) base chain h

  abbrev node : Ptr
  node = find predict (chain (h % 2 ^ suc k))

  pub short : (i : ℕ) → i < 2 ^ k → length (rest i) < suc fuel
  short i lt = elim (Bool-cases (i == h % 2 ^ suc k)) [
    | inl here ↦ rw here (
        omega (
          arith,
          length-erase-le predict (chain (h % 2 ^ suc k)),
          enough (h % 2 ^ suc k) (index-lt (suc k) h),
        ))
    | inr other ↦ rw other (omega (arith, enough i (omega (arith, double k))))
  ]

  shrink_rest :
      (n b : ℕ) (p : Ptr) (m' : Mem)
      → Detached predict (suc k) base chain h m p m'
      → Ensures
          (Removes node (array (suc k) base))
          (λ shrunk m''.
            MaybeShrunk k base fresh rest shrunk m'' × (m''.hash ≡ m.hash) × (m''.size ≡ m.size))
          (shrink_if_necessary load fuel fresh n b)
          m'
  shrink_rest n b p m' d = weaken-Ensures KeepsOrFrees-Removes (
      mono
        (shrink_if_necessary-MaybeShrunk load k base fresh rest fuel n b m' d.table
          (λ a inside. d.same_unused a (unused a inside)) live (d.same_unused null null_free) short)
        λ shrunk m'' (maybe, hash, size). (maybe, hash ∙ d.same_hash, size ∙ d.same_size))

  -- In a table of more than one bucket, given an unused array for half as many buckets and more
  -- rounds than each bucket has nodes, `try_detach_auto_shrink` returns the first node of the bucket
  -- of the hash value that the predicate accepts, or null, and says whether it halved the table,
  -- which it does only with a node. It leaves a table without that node, on the new array with the
  -- old one freed if it says so and on the old array if not, with all hashes and the size as before.
  -- At every moment a reader at a cell can reach all the cells that it could reach before, but for
  -- the detached node and, from when its array is not that of the table, the freed array.
  pub try_detach_auto_shrink-MaybeShrunk :
      Ensures
        (Removes node (array (suc k) base))
        (λ r m'.
          (r.0 ≡ node)
          × (node ≡ null → r.1 ≡ false)
          × MaybeShrunk k base fresh rest r.1 m'
          × (m'.hash ≡ m.hash)
          × (m'.size ≡ m.size))
        (try_detach_auto_shrink load predict fuel fresh h)
        m
  unfolding try_detach_auto_shrink
  try_detach_auto_shrink-MaybeShrunk =
      bind-Ensures
        (weaken-Ensures Keeps-Removes (
          try_detach_no_shrink-Detached predict (suc k) base chain h fuel m t
            (enough (h % 2 ^ suc k) (index-lt (suc k) h))))
        λ p m' d. elim (Bool-cases (p == null)) [
          | inl absent ↦
              rw absent (returns (d.found, (λ e. refl), d.table, d.same_hash, d.same_size))
          | inr present ↦ rw present (
              loads_size (inl (λ x t at off ne r. r)) (
                loads_info d.table.info (inl (λ x t at off ne r. r)) (
                  bind-Ensures (shrink_rest m'.size (2 ^ suc k) p m' d) λ shrunk m'' s. returns (
                    d.found,
                    (λ e. absurd (==_false p null present (d.found ∙ e))),
                    s.0,
                    s.1,
                    s.2,
                  ))))
        ]
