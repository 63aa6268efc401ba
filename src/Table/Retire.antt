-- ===== src/Table/Retire.antt =====
-- rTableCoreTryDetachAndSynchronize against a reader: what it returns, no reader is at any more.
use relativistic_hash_table.Base.{
  ℕ, suc, ◌+◌, ◌%◌, ◌^◌, ◌<◌, ◌≡◌, ◌≢◌, refl, sym, ◌∙◌, Bool, true, false, none, some, List, ◌∷◌,
  arith, ◌∈◌, ◌∉◌, ◌⊎◌, inl, inr, find, erase, has-append, length, ◌==◌, Bool-cases, ==_false,
  ==→eq, subst,
}
use relativistic_hash_table.Memory.{Ptr, null, Mem, ret, perform}
use relativistic_hash_table.Memory.Ensures.{perform-load_info}
use relativistic_hash_table.Memory.Chain.{Chain-used}
use relativistic_hash_table.Memory.Sessions.{Session, inside, running, Races}
use relativistic_hash_table.Memory.Retires.{
  Reached, ends, Retires, gives_up, first, last, bind-Retires, ensures_first,
}
use relativistic_hash_table.Memory.Retired.{retired}
use relativistic_hash_table.Buckets.Setup.{IsUnused}
use relativistic_hash_table.Resize.{Load}
use relativistic_hash_table.Table.{try_detach_auto_shrink, try_detach_and_synchronize}
use relativistic_hash_table.Table.Shape.{IsTable, array, index-lt, node-ne_cell, cells_apart}
use relativistic_hash_table.Table.Detach.{Detached, erased, try_detach_no_shrink-Detached}
use relativistic_hash_table.Table.Halving.{low-lt, high-lt, ne_fresh, merged}
use relativistic_hash_table.Table.Remove.{short}
use relativistic_hash_table.Table.Replace.{IsTableOff, shrink_if_necessary-Retires}
use relativistic_hash_table.Table.Unreached.{Reached-IsCell, not_reached, find-mem, find-not_erased}

module _ (load : Load) (k : ℕ) (base fresh : Ptr) (chain : ℕ → List Ptr) (fuel : ℕ)
    (predict : Ptr → Bool) (h : ℕ) (m : Mem) (t : IsTable m (suc k) base chain)
    (unused : IsUnused m fresh (2 ^ k)) (live : fresh ≢ null) (null_free : m.next null ≡ none)
    (enough : (i : ℕ) → i < 2 ^ suc k → length (chain i) < fuel) where
  abbrev lists : ℕ → List Ptr
  lists = erased predict (suc k) base chain h

  abbrev gone : Ptr
  gone = find predict (chain (h % 2 ^ suc k))

  -- before the last wait: no node, or the node with a table that was not halved
  abbrev Kept : Ptr × Bool → Mem → Type 0
  Kept r m' =
      (r.0 ≡ null)
      ⊎ ((r.0 ≡ gone) × (r.1 ≡ false) × (gone ≢ null) × IsTableOff m' (suc k) base lists)

  -- behind it: the node with a table that was halved
  abbrev Halved : Ptr × Bool → Mem → Type 0
  Halved r m' = (r.0 ≡ gone) × (r.1 ≡ true) × (gone ≢ null) × IsTableOff m' k fresh (merged k lists)

  auto_shrink-Retires : Retires Kept Halved (try_detach_auto_shrink load predict fuel fresh h) m
  unfolding try_detach_auto_shrink perform
  auto_shrink-Retires =
      ensures_first
        (try_detach_no_shrink-Detached predict (suc k) base chain h fuel m t
          (enough (h % 2 ^ suc k) (index-lt (suc k) h)))
        λ p m' d. elim (Bool-cases (p == null)) [
          | inl absent ↦ rw absent (gives_up (inl (==→eq p null absent)))
          | inr present ↦ rw present (
              first refl (
                first (perform-load_info (array (suc k) base) m' d.table.info) (
                  bind-Retires
                    (shrink_if_necessary-Retires k base fresh lists m' d.table
                      (λ a inside. d.same_unused a (unused a inside)) live
                      (d.same_unused null null_free) fuel
                      (short load k base fresh chain fuel predict h m t unused live null_free
                        enough)
                      load m'.size (2 ^ suc k))
                    (λ shrunk m'' (at, same).
                      gives_up
                        (inr (d.found, at, node_live p present d.found, table_kept m' m'' d same)))
                    λ shrunk m'' (at, off). ends (d.found, at, node_live p present d.found, off))))
        ]
    where
      node_live : (p : Ptr) → (p == null) ≡ false → p ≡ gone → gone ≢ null
      node_live p present at e = ==_false p null present (at ∙ e)

      table_kept :
          {p : Ptr} (m' m'' : Mem)
          → Detached predict (suc k) base chain h m p m'
          → m'' ≡ m'
          → IsTableOff m'' (suc k) base lists
      table_kept m' m'' d same =
          subst (λ now. IsTableOff now (suc k) base lists) (sym same)
            (d.table, d.same_unused null null_free)

  -- Neither the node nor a cell that is not in use can be reached.
  abbrev Cleared : Mem → Ptr → Type 0
  Cleared m' p = (x : Ptr) → Reached m' x → (x ≢ p) × (x ≢ null → m'.next x ≢ none)

  abbrev Unreachable : Ptr → Mem → Type 0
  Unreachable p m' = (p ≡ gone) × Cleared m' p

  gone-mem : gone ≢ null → gone ∈ chain (h % 2 ^ suc k)
  gone-mem some_node = elim (find-mem predict (chain (h % 2 ^ suc k))) [
    | inl at ↦ at
    | inr none_found ↦ absurd (some_node none_found)
  ]

  not-mem-cons : {a b : Ptr} (ys : List Ptr) → a ≢ b → a ∉ ys → a ∉ (b ∷ ys)
  not-mem-cons ys ne out = ground arith

  gone-not_left : gone ≢ null → (i : ℕ) → i < 2 ^ suc k → gone ∉ ((base + i) ∷ lists i)
  gone-not_left some_node i lt =
      let there = gone-mem some_node in
      elim (Bool-cases (i == h % 2 ^ suc k)) [
        | inl here ↦ rw here (
            not-mem-cons (erase predict (chain (h % 2 ^ suc k)))
              (node-ne_cell t (h % 2 ^ suc k) i gone (index-lt (suc k) h) lt there)
              (find-not_erased predict m.next null (chain (h % 2 ^ suc k))
                (t.lists (h % 2 ^ suc k) (index-lt (suc k) h)).3 some_node))
        | inr other ↦ rw other (
            cells_apart t (h % 2 ^ suc k) i gone (index-lt (suc k) h) lt
              (λ e. ==_false i (h % 2 ^ suc k) other (sym e)) (ground (arith, there)))
      ]

  gone-not_merged : gone ≢ null → (i : ℕ) → i < 2 ^ k → gone ∉ ((fresh + i) ∷ merged k lists i)
  gone-not_merged some_node i lt =
      not-mem-cons (merged k lists i)
        (ne_fresh k base fresh chain m t unused live null_free (h % 2 ^ suc k) i gone
          (index-lt (suc k) h) lt (ground (arith, gone-mem some_node)))
        (ground (
          arith,
          has-append gone (lists i) (lists (i + 2 ^ k)),
          gone-not_left some_node i (low-lt k i lt),
          gone-not_left some_node (i + 2 ^ k) (high-lt k i lt),
        ))

  table-Unreachable :
      (j : ℕ) (b : Ptr) (c : ℕ → List Ptr) (m' : Mem)
      → gone ≢ null
      → IsTableOff m' j b c
      → ((i : ℕ) → i < 2 ^ j → gone ∉ ((b + i) ∷ c i))
      → (x : Ptr) → Reached m' x
      → (x ≢ gone) × (x ≢ null → m'.next x ≢ none)
  table-Unreachable j b c m' some_node (t', nf) out x r = (
    (λ e. not_reached t' nf gone some_node out (subst (Reached m') e r)),
    λ on. elim (Reached-IsCell t' nf r) [
      | inl at ↦ absurd (on at)
      | inr (i, lt, at) ↦ Chain-used m'.next null ((b + i) ∷ c i) x (t'.lists i lt) at
    ],
  )

  and_synchronize-Retires :
      Retires
        (λ p m'. p ≡ null)
        Unreachable
        (try_detach_and_synchronize load predict fuel fresh h)
        m
  unfolding try_detach_and_synchronize
  and_synchronize-Retires =
      bind-Retires auto_shrink-Retires
        (λ r m' kept. elim (Bool-cases (r.0 == null)) [
          | inl absent ↦ rw absent (gives_up (==→eq r.0 null absent))
          | inr present ↦ elim kept [
            | inl none_found ↦ absurd (==_false r.0 null present none_found)
            | inr (at, not_yet, some_node, off) ↦
                rw (present, not_yet)
                  (last (
                    ends (
                      at,
                      subst (Cleared m') (sym at) (
                          table-Unreachable (suc k) base lists m' some_node off
                            (gone-not_left some_node)),
                    )))
          ]
        ])
        λ r m' (at, already, some_node, off). elim (Bool-cases (r.0 == null)) [
          | inl absent ↦ absurd (some_node (sym at ∙ ==→eq r.0 null absent))
          | inr present ↦
              rw (present, already)
                (ends (
                  at,
                  subst (Cleared m') (sym at) (
                      table-Unreachable k fresh (merged k lists) m' some_node off
                        (gone-not_merged some_node)),
                ))
        ]

  -- In a table of more than one bucket, given an unused array for half as many buckets and more
  -- rounds than each bucket has nodes, let `try_detach_and_synchronize` run against a reader, in any
  -- interleaving of their accesses, from wherever the reader is. When the function has returned a
  -- node, it is the first node of the bucket of the hash value that the predicate accepts, and the
  -- reader, if it stands at a cell, stands neither at that node nor, unless it is at null, at a cell
  -- that is not in use.
  pub try_detach_and_synchronize-unreached :
      (p : Ptr) (m' : Mem) (s : Session) (x : Ptr) (old : Bool)
      → Races
          (running (ret p))
          m'
          (inside old (some x))
          (running (try_detach_and_synchronize load predict fuel fresh h))
          m
          s
      → p ≢ null
      → (p ≡ gone) × (x ≢ p) × (x ≢ null → m'.next x ≢ none)
  try_detach_and_synchronize-unreached p m' s x old race some_node =
      elim (retired race and_synchronize-Retires) [
        | inl none_found ↦ absurd (some_node none_found)
        | inr ((at, free), stands) ↦ (at, (free x stands).0, (free x stands).1)
      ]
