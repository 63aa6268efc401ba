-- ===== src/Unzip/Shared.antt =====
-- The buckets as initTwinDstBuckets leaves them: each new bucket enters the list of the old one.
use Prim.Native.Nat.{◌≤◌}
use relativistic_hash_table.Base.{
  ℕ, ◌+◌, ◌<◌, ◌≡◌, ◌∙◌, true, ◌||◌, some, List, ◌∷◌, ◌∈◌, arith, all, drop_until,
  mem_of-mem-drop_until, length,
}
use relativistic_hash_table.Memory.{Ptr, null, Mem}
use relativistic_hash_table.Memory.Chain.{first, IsSlist, Chain-frame}
use relativistic_hash_table.Unzip.{is}

module _ (hash : Ptr → ℕ) (mask fresh base half : ℕ) (chain : ℕ → List Ptr) where
  -- An old bucket whose list each new bucket enters at its own first node.
  pub record Shared (j : ℕ) (m : Mem) : Type 0 where
    pub head : m.next (base + j) ≡ some (first (chain j) null)
    pub entry0 : IsSlist m.next (fresh + j) (drop_until (is hash mask j) (chain j))
    pub entry1 :
        IsSlist m.next (fresh + (j + half)) (drop_until (is hash mask (j + half)) (chain j))

  pub Shared-frame :
      (j : ℕ) (m m' : Mem)
      → ((a : Ptr)
          → a ∈ ((base + j) ∷ (fresh + j) ∷ (fresh + (j + half)) ∷ chain j)
          → m'.next a ≡ m.next a)
      → Shared j m
      → Shared j m'
  Shared-frame j m m' keep s = record {
    head = keep (base + j) (ground arith) ∙ s.head;
    entry0 =
        Chain-frame m.next m'.next null ((fresh + j) ∷ drop_until (is hash mask j) (chain j))
          s.entry0
          λ a at. keep a (ground (arith, at, mem_of-mem-drop_until (is hash mask j) a (chain j)));
    entry1 =
        Chain-frame m.next m'.next null
          ((fresh + (j + half)) ∷ drop_until (is hash mask (j + half)) (chain j)) s.entry1
          λ a at.
            keep a
              (ground (arith, at, mem_of-mem-drop_until (is hash mask (j + half)) a (chain j)));
  }

  -- The lists of the old buckets: each node belongs to one of the two new buckets, and none is longer
  -- than `n`.
  pub record Lists (n : ℕ) : Type 0 where
    pub two :
        (j : ℕ)
        → j < half
        → all (λ x. is hash mask j x || is hash mask (j + half) x) (chain j) ≡ true
    pub short : (j : ℕ) → j < half → length (chain j) ≤ n
