-- ===== src/Table/Removal.antt =====
-- A search and a removal as operations on the set of nodes that a table represents.
use relativistic_hash_table.Base.{
  ℕ, suc, ◌%◌, ◌^◌, ◌<◌, ◌≡◌, ◌≢◌, inl, inr, refl, sym, ap, ◌∙◌, Bool, true, false, not, ◌&&◌, none,
  List, ◌∈◌, ◌==◌, subst, Bool-cases, ==→eq, ==_false, has, find, length, ◌⊎◌, mem_of-mem-erase,
}
use relativistic_hash_table.Memory.{Ptr, null, Mem}
use relativistic_hash_table.Memory.Ensures.{Ensures, mono}
use relativistic_hash_table.Memory.Leads.{Reads}
use relativistic_hash_table.Buckets.Setup.{IsUnused}
use relativistic_hash_table.Resize.{Load}
use relativistic_hash_table.Table
use relativistic_hash_table.Table.Shape.{IsTable, index-lt}
use relativistic_hash_table.Table.Find.{find-find}
use relativistic_hash_table.Table.Detach.{erased}
use relativistic_hash_table.Table.Halving.{merged}
use relativistic_hash_table.Table.Remove.{MaybeShrunk}
use relativistic_hash_table.Table.Synchronize.{try_detach_and_synchronize-MaybeShrunk}
use relativistic_hash_table.Table.Unreached.{find-mem}
use relativistic_hash_table.Table.Contents.{Holds, Represents}
use relativistic_hash_table.Table.Sets.{
  find-accepted, find-none, erased-Holds, merged-Holds, erase-none,
}

-- The search of a set of nodes: some node that the predicate accepts, or null if there is none.
pub data Search (predict : Ptr → Bool) (nodes : Ptr → Bool) : Ptr → Type 0 where
  finds : {p : Ptr} → nodes p ≡ true → predict p ≡ true → Search predict nodes p
  misses : ((x : Ptr) → nodes x ≡ true → predict x ≡ false) → Search predict nodes null

-- The removal from a set of nodes: a node that the search finds is taken out.
pub data Removal (predict : Ptr → Bool) (nodes : Ptr → Bool) : Ptr → (Ptr → Bool) → Type 0 where
  takes :
      {p : Ptr}
      → nodes p ≡ true
      → predict p ≡ true
      → Removal predict nodes p (λ x. nodes x && not (x == p))
  leaves : ((x : Ptr) → nodes x ≡ true → predict x ≡ false) → Removal predict nodes null nodes

module _ (predict : Ptr → Bool) (nodes : Ptr → Bool) (k : ℕ) (base : Ptr) (chain : ℕ → List Ptr)
    (h : ℕ) (m : Mem) (t : IsTable m k base chain) (holds : Holds nodes m.hash k chain)
    (hashed : (x : Ptr) → nodes x ≡ true → predict x ≡ true → m.hash x ≡ h) where
  abbrev found : Ptr
  found = find predict (chain (h % 2 ^ k))

  found-node : found ≢ null → nodes found ≡ true
  found-node live = elim (find-mem predict (chain (h % 2 ^ k))) [
    | inl at ↦
        holds found
        ∙ ap (λ i. has found (chain i)) (t.hashed (h % 2 ^ k) found (index-lt k h) at)
        ∙ at
    | inr missed ↦ absurd (live missed)
  ]

  none-accepted : found ≡ null → (x : Ptr) → nodes x ≡ true → predict x ≡ false
  none-accepted missed x at = elim (Bool-cases (predict x)) [
    | inr other ↦ other
    | inl accepted ↦
        find-none predict m.next null (chain (h % 2 ^ k)) (t.lists (h % 2 ^ k) (index-lt k h)).3
          missed x (sym (holds x ∙ ap (λ n. has x (chain (n % 2 ^ k))) (hashed x at accepted)) ∙ at)
  ]

  found-Search : Search predict nodes found
  found-Search = elim (Bool-cases (found == null)) [
    | inl absent ↦
        subst (Search predict nodes) (sym (==→eq found null absent))
          (misses (none-accepted (==→eq found null absent)))
    | inr present ↦
        let live = ==_false found null present in
        finds (found-node live) (find-accepted predict (chain (h % 2 ^ k)) live)
  ]

  -- Let the table hold the nodes of a set, and the predicate accept only nodes of the hash value.
  -- Given more rounds than the bucket of the hash value has nodes, `find` only reads, and is the
  -- search of that set: it returns a node of the set that the predicate accepts, or null if there is
  -- none.
  pub find-Search :
      (fuel : ℕ)
      → length (chain (h % 2 ^ k)) < fuel
      → Ensures Reads (λ p m'. Search predict nodes p × (m' ≡ m)) (Table.find predict fuel h) m
  find-Search fuel enough =
      mono (find-find predict fuel h k base chain m t enough)
        λ p m' (at, same). (subst (Search predict nodes) (sym at) found-Search, same)

module _ (predict : Ptr → Bool) (nodes : Ptr → Bool) (k : ℕ) (base fresh : Ptr)
    (chain : ℕ → List Ptr) (h : ℕ) (m : Mem) (t : IsTable m (suc k) base chain)
    (holds : Holds nodes m.hash (suc k) chain) where
  abbrev rest : ℕ → List Ptr
  rest = erased predict (suc k) base chain h

  rest-hashed : (i x : ℕ) → i < 2 ^ suc k → x ∈ rest i → m.hash x % 2 ^ suc k ≡ i
  rest-hashed i x lt at = t.hashed i x lt (still (Bool-cases (i == h % 2 ^ suc k)))
    where
      still : ((i == h % 2 ^ suc k) ≡ true) ⊎ ((i == h % 2 ^ suc k) ≡ false) → x ∈ chain i
      still (inl here) =
          subst (λ j. x ∈ chain j) (sym (==→eq i (h % 2 ^ suc k) here))
            (mem_of-mem-erase x predict (chain (h % 2 ^ suc k)) (rw here at at))
      still (inr other) = rw other at at

  same_lists : find predict (chain (h % 2 ^ suc k)) ≡ null → (i : ℕ) → rest i ≡ chain i
  same_lists missed i = elim (Bool-cases (i == h % 2 ^ suc k)) [
    | inl here ↦ rw here (
        erase-none predict m.next null (chain (h % 2 ^ suc k))
          (t.lists (h % 2 ^ suc k) (index-lt (suc k) h)).3 missed
        ∙ ap chain (sym (==→eq i (h % 2 ^ suc k) here)))
    | inr other ↦ rw other refl
  ]

  represents :
      (nodes' : Ptr → Bool) (s : Bool) (m' : Mem)
      → m'.hash ≡ m.hash
      → Holds nodes' m.hash (suc k) rest
      → MaybeShrunk k base fresh rest s m'
      → Represents nodes' m'
  represents nodes' true m' same left (table, freed) = record {
    count = k;
    array_at = fresh;
    chain = merged k rest;
    table = table;
    holds =
        subst (λ hash. Holds nodes' hash k (merged k rest)) (sym same)
          (merged-Holds nodes' m.hash k rest rest-hashed left);
  }
  represents nodes' false m' same left table = record {
    count = suc k;
    array_at = base;
    chain = rest;
    table = table;
    holds = subst (λ hash. Holds nodes' hash (suc k) rest) (sym same) left;
  }

  -- Let a table of more than one bucket hold the nodes of a set, and the predicate accept only nodes
  -- of the hash value. Given an unused array for half as many buckets and more rounds than each
  -- bucket has nodes, `try_detach_and_synchronize` ends without a fault and is the removal from that
  -- set: it returns a node of the set that the predicate accepts, or null if there is none, and
  -- whether the array was halved or not, the table then represents the set without that node. No hash
  -- and not the size change.
  pub try_detach_and_synchronize-Removal :
      (load : Load) (fuel : ℕ)
      → ((x : Ptr) → nodes x ≡ true → predict x ≡ true → m.hash x ≡ h)
      → IsUnused m fresh (2 ^ k)
      → fresh ≢ null
      → m.next null ≡ none
      → ((i : ℕ) → i < 2 ^ suc k → length (chain i) < fuel)
      → Ensures
          (λ m a m'. Unit {0})
          (λ p m'.
            ((nodes' : Ptr → Bool) × Removal predict nodes p nodes' × Represents nodes' m')
            × (m'.hash ≡ m.hash)
            × (m'.size ≡ m.size))
          (Table.try_detach_and_synchronize load predict fuel fresh h)
          m
  try_detach_and_synchronize-Removal load fuel hashed unused live null_free enough =
      mono
        (try_detach_and_synchronize-MaybeShrunk load k base fresh chain fuel predict h m t unused
          live null_free enough)
        λ p m' (at, (s, maybe), same_hash, same_size). (
          subst (λ p. (nodes' : Ptr → Bool) × Removal predict nodes p nodes' × Represents nodes' m')
              (sym at) (removed s m' same_hash maybe),
          same_hash,
          same_size,
        )
    where
      removed :
          (s : Bool) (m' : Mem)
          → m'.hash ≡ m.hash
          → MaybeShrunk k base fresh rest s m'
          → (nodes' : Ptr → Bool) × Removal predict nodes
              (find predict (chain (h % 2 ^ suc k)))
              nodes'
            × Represents nodes' m'
      removed s m' same maybe = elim (Bool-cases (find predict (chain (h % 2 ^ suc k)) == null)) [
        | inl absent ↦
            let missed = ==→eq (find predict (chain (h % 2 ^ suc k))) null absent in
            (
              nodes,
              subst (λ p. Removal predict nodes p nodes) (sym missed)
                  (leaves
                    (none-accepted predict nodes (suc k) base chain h m t holds hashed missed)),
              represents nodes s m' same
                  (λ x. holds x ∙ ap (has x) (sym (same_lists missed (m.hash x % 2 ^ suc k))))
                  maybe,
            )
        | inr present ↦
            let some_node = ==_false (find predict (chain (h % 2 ^ suc k))) null present in
            (
              (λ x. nodes x && not (x == find predict (chain (h % 2 ^ suc k)))),
              takes (found-node predict nodes (suc k) base chain h m t holds hashed some_node)
                  (find-accepted predict (chain (h % 2 ^ suc k)) some_node),
              represents (λ x. nodes x && not (x == find predict (chain (h % 2 ^ suc k)))) s m' same
                  (erased-Holds predict nodes (suc k) base h chain m t holds some_node) maybe,
            )
      ]
