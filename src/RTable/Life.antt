-- ===== src/RTable/Life.antt =====
-- A table that is set up and then used, or destroyed.
use relativistic_hash_table.Base.{
  ℕ, suc, ◌+◌, ◌*◌, ◌^◌, ◌≤◌, ◌<◌, ◌≡◌, ◌≢◌, refl, sym, ◌∙◌, Bool, true, false, none, some, Option,
  [], ◌==◌, arith, if◌then◌else◌, subst, Bool-cases, inl, inr,
}
use relativistic_hash_table.Memory.{Ptr, null, Mem, ◌>>◌, within}
use relativistic_hash_table.Memory.Ensures.{Ensures, weaken-Ensures}
use relativistic_hash_table.Memory.Watched.{Watched, within_period, weaken-Watched}
use relativistic_hash_table.Memory.Leads.{Unlinked}
use relativistic_hash_table.Buckets.{upper_bound_power_of2}
use relativistic_hash_table.Buckets.Setup.{IsUnused}
use relativistic_hash_table.Resize.{Load}
use relativistic_hash_table.Table.Insert.{IsFree}
use relativistic_hash_table.Table.Setup.{init_detailed-HasEmpty}
use relativistic_hash_table.Table.Contents.{
  Represents, Insertion, adds, refuses, try_insert-Insertion,
}
use relativistic_hash_table.RTable.{init, init_detailed, try_insert}
use relativistic_hash_table.Rcu
use relativistic_hash_table.Rcu.Storage
use relativistic_hash_table.Rcu.Storage.{Rings, Store}

-- Into the empty set every node is inserted.
first-Insertion :
    {predict : Ptr → Ptr → Bool} {new : Ptr} {inserted : Bool} {nodes' : Ptr → Bool}
    → Insertion predict new (λ x. false) inserted nodes'
    → (inserted ≡ true) × (nodes' ≡ (λ x. x == new))
first-Insertion (adds free) = (refl, refl)
first-Insertion (refuses x at matches) = cc at

used_unused : {o : Option Ptr} {q : Ptr} → o ≡ none → o ≡ some q → ⊥
used_unused e e' = ground arith

linked_null : (p : Ptr) → some null ≡ some p → p ≡ null
linked_null p e = ground arith

module _ (float : Load) (hardware_concurrency : ℕ) (fresh : Ptr) (nr_buckets : ℕ) (m : Mem)
    (start : Ptr) (rings : Rings) (store : Store) (predict : Ptr → Ptr → Bool) (fuel : ℕ)
    (fresh2 new : Ptr) (h : ℕ) where
  -- Before the set-up with `nr` buckets the array and the next one are unused and apart, no cell is
  -- linked to the array or to the new node, and the node is allocated.
  pub record IsReady (nr : ℕ) : Type 0 where
    pub unused : IsUnused m fresh nr
    pub unused2 : IsUnused m fresh2 (2 * nr)
    pub apart : (a : Ptr) → within fresh2 (2 * nr) a ≡ true → within fresh nr a ≡ false
    pub heads : (i : ℕ) → i < nr → Unlinked m.next (fresh + i)
    pub old_next : Ptr
    pub is_allocated : m.next new ≡ some old_next
    pub is_unlinked : Unlinked m.next new

  module _ (live : fresh ≢ null) (live2 : fresh2 ≢ null) (new_live : new ≢ null)
      (null_free : m.next null ≡ none) (k : ℕ) (ready : IsReady (2 ^ k)) (m' : Mem)
      (cells : (a : Ptr)
        → m'.next a ≡ (if within fresh (2 ^ k) a then some null else m.next a)) where
    new_outside : within fresh (2 ^ k) new ≡ false
    new_outside = elim (Bool-cases (within fresh (2 ^ k) new)) [
      | inl inside ↦ absurd (used_unused (ready.unused new inside) ready.is_allocated)
      | inr outside ↦ outside
    ]

    after-Unlinked : (p : Ptr) → p ≢ null → Unlinked m.next p → Unlinked m'.next p
    after-Unlinked p on free a e = elim (Bool-cases (within fresh (2 ^ k) a)) [
      | inl inside ↦ absurd (on (linked_null p (sym (cells a ∙ rw inside refl) ∙ e)))
      | inr outside ↦ free a (sym (cells a ∙ rw outside refl) ∙ e)
    ]

    node-IsFree : IsFree m' k fresh (λ _. []) new
    node-IsFree = record {
      ne_null = new_live;
      old_next = ready.old_next;
      is_allocated = cells new ∙ rw new_outside ready.is_allocated;
      is_unlinked = after-Unlinked new new_live ready.is_unlinked;
      is_node = new_outside;
      is_outside = λ i lt. refl;
    }

    next-IsUnused : IsUnused m' fresh2 (2 ^ suc k)
    next-IsUnused a inside =
        let within2 = subst (λ n. within fresh2 n a ≡ true) twice inside in
        cells a ∙ rw (ready.apart a within2) (ready.unused2 a within2)
      where
        twice : 2 ^ suc k ≡ 2 * 2 ^ k
        twice = omega arith

    null_after : m'.next null ≡ none
    null_after = cells null ∙ rw below null_free
      where
        below : within fresh (2 ^ k) null ≡ false
        below = ground (arith, live)

  -- Given at most 2 ^ 29 buckets, at least two rounds for the loops, and cells as `IsReady` says, let
  -- a table be set up and a node be inserted: `try_insert` returns true, whether it doubles the array
  -- or not, and the table represents the set of that node alone.
  pub init-try_insert :
      nr_buckets ≤ 2 ^ 29
      → fresh ≢ null
      → fresh2 ≢ null
      → new ≢ null
      → m.next null ≡ none
      → IsReady (upper_bound_power_of2 nr_buckets)
      → 1 < fuel
      → let made = init float hardware_concurrency start fresh rings store nr_buckets in
        Watched
          (λ m0 m a m'. Unit {0})
          (λ inserted m0 m'. (inserted ≡ true) × Represents (λ x. x == new) m')
          (do made.1; try_insert made.0.0 predict fuel fresh2 new h)
          m
          m
  unfolding init init_detailed try_insert
  init-try_insert high live live2 new_live null_free ready rounds =
      within_period
        (weaken-Ensures (λ m a m' g. tt)
          (init_detailed-HasEmpty m fresh nr_buckets (omega (arith, high)) live ready.unused))
        λ _ m' (k, is, low, fits, half, t, cells).
          let at_k = subst IsReady is ready in
          weaken-Watched (λ m0 m a m' g. tt)
            (λ inserted m0 m' (nodes', insertion, represents, same).
              let (yields, nodes) = first-Insertion insertion in
              (yields, subst (λ set. Represents set m') nodes represents))
            (try_insert-Insertion float predict fuel k fresh fresh2 (λ _. []) new h m m'
              (λ x. false) t (λ x. refl) (node-IsFree live live2 new_live null_free k at_k m' cells)
              (λ x never. cc never) (omega (arith, half high))
              (next-IsUnused live live2 new_live null_free k at_k m' cells) live2
              (null_after live live2 new_live null_free k at_k m' cells)
              (λ i lt.
                after-Unlinked live live2 new_live null_free k at_k m' cells (fresh + i)
                  (λ e. live (omega (arith, e))) (at_k.heads i lt))
              (λ i lt. rounds))
