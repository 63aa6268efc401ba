-- ===== src/Table/Insert.antt =====
-- rTableCoreTryInsertNoExpand and rTableCoreInsertNoExpand.
use relativistic_hash_table.Base.{
  ℕ, ◌+◌, ◌%◌, ◌^◌, ◌<◌, ◌≡◌, ◌≢◌, refl, sym, ap, Bool, true, false, not, some, List, ◌∷◌, arith,
  ◌∉◌, length, any, ◌==◌, if◌then◌else◌, ==→eq, ==-refl, subst, Bool-cases, inl, inr,
}
use relativistic_hash_table.Memory.{Ptr, null, Mem, within, put, Action, act, ret, ◌>>◌}
use relativistic_hash_table.Memory.Ensures.{
  Ensures, returns, loads, loads_info, gets_hash, sets_hash, adds_size, rehash, resize,
  bind-Ensures,
}
use relativistic_hash_table.Memory.Chain.{first, IsSlist}
use relativistic_hash_table.Memory.Leads.{Keeps, Unlinked}
use relativistic_hash_table.Slist.Insert.{
  IsSpare, linked, linking, linked-Chain, prepend_if_no_match-Prepended, Prepended,
}
use relativistic_hash_table.Table.{try_insert_no_expand, insert_no_expand}
use relativistic_hash_table.Table.Shape.{
  IsTable, bucket_of-mod, index-lt, cells_apart, IsSlist-frame,
}

-- A node that may be inserted: allocated, not linked to, in no bucket, and no cell of the array.
pub record IsFree (m : Mem) (k : ℕ) (base : Ptr) (chain : ℕ → List Ptr) (new : Ptr) : Type 0 where
  pub ne_null : new ≢ null
  pub old_next : Ptr
  pub is_allocated : m.next new ≡ some old_next
  pub is_unlinked : Unlinked m.next new
  pub is_node : within base (2 ^ k) new ≡ false
  pub is_outside : (i : ℕ) → i < 2 ^ k → new ∉ chain i

module _ (k : ℕ) (base : Ptr) (chain : ℕ → List Ptr) (new : Ptr) (h : ℕ) where
  -- the chains with `new` in front of the one for the hash `h`
  abbrev pub prepended : ℕ → List Ptr
  prepended = put chain (h % 2 ^ k) (new ∷ chain (h % 2 ^ k))

  -- the memory after `new` was given the hash `h` and put into its bucket
  abbrev pub inserted_mem : Mem → Mem
  inserted_mem m =
      resize (linked (rehash m new h) (base + h % 2 ^ k) new (first (chain (h % 2 ^ k)) null)) 1

  module _ (m : Mem) (t : IsTable m k base chain) (free : IsFree m k base chain new) where
    IsFree-IsSpare : (i : ℕ) → i < 2 ^ k → IsSpare (rehash m new h) new ((base + i) ∷ chain i)
    IsFree-IsSpare i lt = record {
      ne_null = free.ne_null;
      old_next = free.old_next;
      is_allocated = free.is_allocated;
      is_outside = ground (arith, free.is_outside i lt, free.is_node);
      is_unlinked = free.is_unlinked;
    }

    pub rehash-IsTable : IsTable (rehash m new h) k base chain
    rehash-IsTable = record {
      info = t.info;
      fits = t.fits;
      lists = t.lists;
      hashed = λ i x lt at. ground (arith, t.hashed i x lt at, free.is_outside i lt);
      nodes = t.nodes;
    }

    prepended-IsSlist : IsSlist (inserted_mem m).next (base + h % 2 ^ k) (new ∷ chain (h % 2 ^ k))
    prepended-IsSlist =
        linked-Chain (rehash m new h) (base + h % 2 ^ k) new (chain (h % 2 ^ k))
          (t.lists (h % 2 ^ k) (index-lt k h)) (IsFree-IsSpare (h % 2 ^ k) (index-lt k h))

    other-IsSlist :
        (i : ℕ) → i < 2 ^ k → i ≢ h % 2 ^ k → IsSlist (inserted_mem m).next (base + i) (chain i)
    other-IsSlist i lt ne = IsSlist-frame t (inserted_mem m).next i lt λ a at. ground (
      arith,
      cells_apart t i (h % 2 ^ k) a lt (index-lt k h) ne at,
      (IsFree-IsSpare i lt).is_outside,
    )

    lists_after : (i : ℕ) → i < 2 ^ k → IsSlist (inserted_mem m).next (base + i) (prepended i)
    lists_after i lt = elim (Bool-cases (i == h % 2 ^ k)) [
      | inl here ↦ rw here (
          subst (λ j. IsSlist (inserted_mem m).next (base + j) (new ∷ chain (h % 2 ^ k)))
            (sym (==→eq i (h % 2 ^ k) here)) prepended-IsSlist)
      | inr other ↦ rw other (other-IsSlist i lt (ground arith))
    ]

    pub inserted-IsTable : IsTable (inserted_mem m) k base prepended
    inserted-IsTable = record {
      info = t.info;
      fits = t.fits;
      lists = lists_after;
      hashed = λ i x lt at. ground (arith, t.hashed i x lt, free.is_outside i lt);
      nodes = λ i x lt at. ground (arith, t.nodes i x lt, free.is_node);
    }

  -- What an insertion leaves, if `matched` says that the bucket has an equal node.
  abbrev pub Inserted : (matched : Bool) → Mem → Bool → Mem → Type 0
  Inserted matched m inserted m' =
      (inserted ≡ not matched)
      × (m' ≡ (if matched then rehash m new h else inserted_mem m))
      × IsTable m' k base (if matched then chain else prepended)

module _ (predict : Ptr → Ptr → Bool) (fuel k : ℕ) (base : Ptr) (chain : ℕ → List Ptr) (new : Ptr)
    (h : ℕ) (m : Mem) where
  abbrev matched : Bool
  matched = any (λ x. predict x new) (chain (h % 2 ^ k))

  finish :
      IsTable m k base chain
      → IsFree m k base chain new
      → (b : Bool) (m' : Mem)
      → Prepended predict (rehash m new h) (base + h % 2 ^ k) new (chain (h % 2 ^ k)) b m'
      → Ensures
          (Keeps new null)
          (Inserted k base chain new h matched m)
          (if b then (do act (Action.add_size 1) ret; ret true) else ret false)
          m'
  finish t free true m' (e, mem, list) =
      let fresh : matched ≡ false = ground arith in
      let is : m'
          ≡ linked (rehash m new h) (base + h % 2 ^ k) new (first (chain (h % 2 ^ k)) null) =
        rw fresh at mem in
      adds_size (λ x t off ne r. r)
        (returns (
          rw fresh (
            refl,
            ap (λ m''. resize m'' 1) is,
            subst (λ m''. IsTable (resize m'' 1) k base (prepended k base chain new h)) (sym is)
                (inserted-IsTable k base chain new h m t free),
          )))
  finish t free false m' (e, mem, list) =
      let old : matched ≡ true = ground arith in
      let is : m' ≡ rehash m new h = rw old at mem in
      returns (
        rw old (
          refl,
          is,
          subst (λ m''. IsTable m'' k base chain) (sym is)
              (rehash-IsTable k base chain new h m t free),
        ))

  -- Given a table and a free node, `try_insert_no_expand` with more rounds than the bucket has nodes
  -- gives the node its hash. If the predicate matches no node of the bucket with it, it returns true,
  -- puts the node in front of its bucket and adds 1 to the size (modulo 2 ^ 64); else it returns false
  -- and changes nothing more. The result is a table again. At every moment a reader that does not
  -- stand at the new node can reach all that it could reach before.
  pub try_insert_no_expand-Inserted :
      IsTable m k base chain
      → IsFree m k base chain new
      → length (chain (h % 2 ^ k)) < fuel
      → Ensures
          (Keeps new null)
          (Inserted k base chain new h matched m)
          (try_insert_no_expand predict fuel new h)
          m
  unfolding try_insert_no_expand
  try_insert_no_expand-Inserted t free enough =
      sets_hash free.is_allocated (λ x t off ne r. r)
        (loads_info t.info (λ x t off ne r. r)
          (gets_hash free.is_allocated (λ x t off ne r. r)
            (rw (==-refl new, bucket_of-mod k base h t.fits)
              (bind-Ensures
                (prepend_if_no_match-Prepended predict (rehash m new h) (base + h % 2 ^ k) new
                  (chain (h % 2 ^ k)) (t.lists (h % 2 ^ k) (index-lt k h))
                  (IsFree-IsSpare k base chain new h m t free (h % 2 ^ k) (index-lt k h)) fuel
                  enough)
                (finish t free)))))

-- A caller that knows of no equal node gives the node its hash and calls `insert_no_expand`: it puts
-- the node in front of the bucket of that hash and adds 1 to the size (modulo 2 ^ 64).
pub insert_no_expand-IsTable :
    (k : ℕ) (base : Ptr) (chain : ℕ → List Ptr) (new : Ptr) (h : ℕ) (m : Mem)
    → IsTable m k base chain
    → IsFree m k base chain new
    → Ensures
        (Keeps new null)
        (λ _ m'.
          (m' ≡ inserted_mem k base chain new h m)
          × IsTable m' k base (prepended k base chain new h))
        (insert_no_expand new)
        (rehash m new h)
unfolding insert_no_expand
insert_no_expand-IsTable k base chain new h m t free =
    loads_info t.info (λ x t off ne r. r)
      (gets_hash free.is_allocated (λ x t off ne r. r)
        (rw (==-refl new, bucket_of-mod k base h t.fits)
          (loads (t.lists (h % 2 ^ k) (index-lt k h)).1 (λ x t off ne r. r)
            (linking (rehash m new h) (base + h % 2 ^ k) new (chain (h % 2 ^ k))
              (t.lists (h % 2 ^ k) (index-lt k h))
              (IsFree-IsSpare k base chain new h m t free (h % 2 ^ k) (index-lt k h))
              (adds_size (λ x t off ne r. r)
                (returns (refl, inserted-IsTable k base chain new h m t free)))))))
