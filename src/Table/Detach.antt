-- ===== src/Table/Detach.antt =====
-- rTableCoreTryDetachNoShrink.
use relativistic_hash_table.Base.{
  none, ◌∷◌, arith, ℕ, ◌+◌, ◌%◌, ◌^◌, ◌<◌, ◌≡◌, sym, ap, ◌∙◌, Bool, List, ◌∈◌, length, find, erase,
  not-mem-cons_erase, mem_of-mem-erase, ==_false, ◌==◌, Bool-cases, inl, inr, subst, ==→eq,
}
use relativistic_hash_table.Memory.{Ptr, null, Mem, put}
use relativistic_hash_table.Memory.Ensures.{Ensures, loads_info, mono}
use relativistic_hash_table.Memory.Chain.{IsSlist, Chain-used}
use relativistic_hash_table.Memory.Leads.{Keeps}
use relativistic_hash_table.Slist.Remove.{Removed, remove_if-Removed}
use relativistic_hash_table.Table.{try_detach_no_shrink}
use relativistic_hash_table.Table.Shape.{
  IsTable, bucket_of-mod, index-lt, cells_apart, IsSlist-frame,
}

module _ (predict : Ptr → Bool) (k : ℕ) (base : Ptr) (chain : ℕ → List Ptr) (h : ℕ) where
  -- the chains without the first node of the bucket of `h` that the predicate accepts
  abbrev pub erased : ℕ → List Ptr
  erased = put chain (h % 2 ^ k) (erase predict (chain (h % 2 ^ k)))

  -- What `try_detach_no_shrink` returns and leaves. The size is as before.
  pub record Detached (m : Mem) (p : Ptr) (m' : Mem) : Type 0 where
    pub found : p ≡ find predict (chain (h % 2 ^ k))
    pub table : IsTable m' k base erased
    pub leads_on : m'.next p ≡ m.next p
    pub same_hash : m'.hash ≡ m.hash
    pub same_size : m'.size ≡ m.size
    pub same_unused : (a : Ptr) → m.next a ≡ none → m'.next a ≡ none

  module _ (m : Mem) (t : IsTable m k base chain) (p : Ptr) (m' : Mem)
      (r : Removed predict m (base + h % 2 ^ k) (chain (h % 2 ^ k)) p m') where
    lists_after : (i : ℕ) → i < 2 ^ k → IsSlist m'.next (base + i) (erased i)
    lists_after i lt = elim (Bool-cases (i == h % 2 ^ k)) [
      | inl here ↦ rw here (
          subst (λ j. IsSlist m'.next (base + j) (erase predict (chain (h % 2 ^ k))))
            (sym (==→eq i (h % 2 ^ k) here)) r.chain)
      | inr other ↦ rw other (
          IsSlist-frame t m'.next i lt λ a at. r.outside a (
            not-mem-cons_erase a (base + h % 2 ^ k) predict (chain (h % 2 ^ k))
              (cells_apart t i (h % 2 ^ k) a lt (index-lt k h) (==_false i (h % 2 ^ k) other) at)))
    ]

    erased-mem : (i x : ℕ) → x ∈ erased i → x ∈ chain i
    erased-mem i x at = elim (Bool-cases (i == h % 2 ^ k)) [
      | inl here ↦
          subst (λ j. x ∈ chain j) (sym (==→eq i (h % 2 ^ k) here))
            (mem_of-mem-erase x predict (chain (h % 2 ^ k)) (rw here at at))
      | inr other ↦ rw other at at
    ]

    unused_after : (a : Ptr) → m.next a ≡ none → m'.next a ≡ none
    unused_after a none_here =
        r.outside a (
          not-mem-cons_erase a (base + h % 2 ^ k) predict (chain (h % 2 ^ k)) (
            ground (
              arith,
              Chain-used m.next null ((base + h % 2 ^ k) ∷ chain (h % 2 ^ k)) a
                  (t.lists (h % 2 ^ k) (index-lt k h)),
            )))
        ∙ none_here

    erased-IsTable : IsTable m' k base erased
    erased-IsTable = record {
      info = r.same_info ∙ t.info;
      fits = t.fits;
      lists = lists_after;
      hashed = λ i x lt at.
          ap (λ hash. hash x % 2 ^ k) r.same_hash ∙ t.hashed i x lt (erased-mem i x at);
      nodes = λ i x lt at. t.nodes i x lt (erased-mem i x at);
    }

  -- In a table, `try_detach_no_shrink` with more rounds than the bucket of the hash value has nodes
  -- returns the first node of that bucket which the predicate accepts, or null, and leaves a table
  -- without that node. The link of the node, all hashes and the size stay as they are, and no unused
  -- cell gets into use. At every moment a reader can reach all the nodes that it could reach before,
  -- but for the detached one.
  pub try_detach_no_shrink-Detached :
      (fuel : ℕ) (m : Mem)
      → IsTable m k base chain
      → length (chain (h % 2 ^ k)) < fuel
      → Ensures
          (Keeps null (find predict (chain (h % 2 ^ k))))
          (Detached m)
          (try_detach_no_shrink predict fuel h)
          m
  unfolding try_detach_no_shrink
  try_detach_no_shrink-Detached fuel m t enough =
      loads_info t.info (λ x t off ne r. r)
        (rw (bucket_of-mod k base h t.fits) (
          mono
            (remove_if-Removed predict fuel (base + h % 2 ^ k) (chain (h % 2 ^ k)) m
              (t.lists (h % 2 ^ k) (index-lt k h)) enough)
            λ p m' r. record {
              found = r.found;
              table = erased-IsTable m t p m' r;
              leads_on = r.leads_on;
              same_hash = r.same_hash;
              same_size = r.same_size;
              same_unused = unused_after m t p m' r;
            }))
