-- ===== src/Table/Lookup.antt =====
-- rTableCoreFind before and after rTableCoreExpandBuckets2x.
use relativistic_hash_table.Base.{
  ℕ, suc, ◌+◌, ◌%◌, ◌^◌, ◌≤◌, ◌<◌, ◌≡◌, ◌≢◌, refl, ap, ◌∙◌, Bool, true, none, List, ◌==◌, arith,
  ==-refl, length, length-filter-le, find, find-filter,
}
use relativistic_hash_table.Memory.{Ptr, null, Mem, ◌>>◌, run, finished}
use relativistic_hash_table.Memory.Ensures.{run-Ensures, weaken-Ensures}
use relativistic_hash_table.Memory.Watched.{
  Watched, watches, bind-Watched, weaken-Watched, run-Watched,
}
use relativistic_hash_table.Memory.Leads.{Unlinked}
use relativistic_hash_table.Buckets.Setup.{IsUnused}
use relativistic_hash_table.Resize.{expand_buckets2x}
use relativistic_hash_table.Table
use relativistic_hash_table.Table.Shape.{IsTable, index-lt}
use relativistic_hash_table.Table.Find.{find-find}
use relativistic_hash_table.Table.Halving.{mod_double}
use relativistic_hash_table.Table.Halved.{halved}
use relativistic_hash_table.Table.Grow.{Grown, expand_buckets2x-Grown}

module _ (predict : Ptr → Bool) (h k : ℕ) (base fresh : Ptr) (chain : ℕ → List Ptr) (m : Mem) where
  -- The new bucket has every node that the search asks for.
  find-halved :
      ((x : Ptr) → predict x ≡ true → m.hash x ≡ h)
      → find predict (halved k m.hash chain (h % 2 ^ suc k)) ≡ find predict (chain (h % 2 ^ k))
  find-halved hashed =
      find-filter predict (λ x. m.hash x % 2 ^ suc k == h % 2 ^ suc k)
        (chain (h % 2 ^ suc k % 2 ^ k)) (λ x e. rw (hashed x e) (==-refl (h % 2 ^ suc k)))
      ∙ ap (λ i. find predict (chain i)) (mod_double k h)

  -- In a table of `2 ^ k` buckets, `k` at most 29, to whose buckets no cell is linked, given an
  -- unused array for twice as many, no cell at null, and more rounds than each bucket has nodes, a
  -- search for a hash value with a predicate that accepts only nodes of that hash finds the same
  -- after `expand_buckets2x` as before.
  pub expand_buckets2x-find :
      IsTable m k base chain
      → suc k ≤ 30
      → IsUnused m fresh (2 ^ suc k)
      → fresh ≢ null
      → m.next null ≡ none
      → ((i : ℕ) → i < 2 ^ k → Unlinked m.next (base + i))
      → ((x : Ptr) → predict x ≡ true → m.hash x ≡ h)
      → (fuel : ℕ) → ((i : ℕ) → i < 2 ^ k → length (chain i) < fuel)
      → (p : Ptr) × (m' : Mem) × (run (expand_buckets2x fuel fresh >> Table.find predict fuel h) m
          ≡ finished p m')
        × (run (Table.find predict fuel h) m ≡ finished p m)
  expand_buckets2x-find t fits unused live null_free heads hashed fuel enough =
      let (p, m0, m', is, at) = run-Watched watched in
      let (q, m'', is', both) =
        run-Ensures
          (find-find predict fuel h k base chain m t (enough (h % 2 ^ k) (index-lt k h))) in
      (p, m', is, is' ∙ rw (both.1, both.0, at) refl)
    where
      watched :
          Watched
            (λ m0 m a m'. Unit {0})
            (λ p m0 m'. p ≡ find predict (chain (h % 2 ^ k)))
            (expand_buckets2x fuel fresh >> Table.find predict fuel h)
            m
            m
      watched =
          bind-Watched
            (weaken-Watched (λ m0 m a m' g. tt) (λ r m0 m' g. g)
              (expand_buckets2x-Grown k base fresh chain m t unused fits live null_free heads fuel m
                enough))
            λ r m0' m' g. found m0' m' g
        where
          short : length (halved k m.hash chain (h % 2 ^ suc k)) < fuel
          short = omega (
            arith,
            length-filter-le (λ x. m.hash x % 2 ^ suc k == h % 2 ^ suc k)
                (chain (h % 2 ^ suc k % 2 ^ k)),
            enough (h % 2 ^ suc k % 2 ^ k) (index-lt k (h % 2 ^ suc k)),
          )

          found :
              (m0' m' : Mem)
              → Grown k base fresh chain m m'
              → Watched
                  (λ m0 m a m'. Unit {0})
                  (λ p m0 m'. p ≡ find predict (chain (h % 2 ^ k)))
                  (Table.find predict fuel h)
                  m0'
                  m'
          found m0' m' g =
              watches
                (weaken-Ensures (λ m a m' g. tt)
                  (find-find predict fuel h (suc k) fresh (halved k m.hash chain) m' g.table short))
                λ p m'' (at, same). at ∙ find-halved hashed
