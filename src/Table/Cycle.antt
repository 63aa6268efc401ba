-- ===== src/Table/Cycle.antt =====
-- An insertion followed by a search, and by a removal.
use relativistic_hash_table.Base.{
  ℕ, suc, ◌+◌, ◌%◌, ◌^◌, ◌<◌, ◌≡◌, ◌≢◌, refl, sym, ap, ◌∙◌, Bool, true, false, List, arith, length,
  any, find, ◌==◌, ==→eq, ==-refl, subst, fun_ext, Bool-cases, inl, inr,
}
use relativistic_hash_table.Memory.{Ptr, null, Mem, Action, Prog, ◌>>◌}
use relativistic_hash_table.Memory.Ensures.{Ensures, bind-Ensures, weaken-Ensures, mono}
use relativistic_hash_table.Memory.Leads.{Leads, Keeps}
use relativistic_hash_table.Table
use relativistic_hash_table.Table.Shape.{IsTable}
use relativistic_hash_table.Table.Find.{find-find}
use relativistic_hash_table.Table.Insert.{
  IsFree, inserted_mem, prepended, try_insert_no_expand-Inserted,
}
use relativistic_hash_table.Table.Detach.{erased, try_detach_no_shrink-Detached}

-- An access that makes no cell but `new` unreachable for a reader that stands at another cell.
abbrev pub KeepsOthers : (new : Ptr) → Mem → Action → Mem → Type 0
KeepsOthers new m a m' =
    (x t : Ptr) → x ≢ new → x ≢ null → t ≢ null → t ≢ new → Leads m.next t x → Leads m'.next t x

module _ (predict : Ptr → Ptr → Bool) (accepts : Ptr → Bool) (fuel k : ℕ) (base : Ptr)
    (chain : ℕ → List Ptr) (new : Ptr) (h : ℕ) (m : Mem) where
  module _ (t : IsTable m k base chain) (free : IsFree m k base chain new)
      (enough : suc (length (chain (h % 2 ^ k))) < fuel)
      (fresh : any (λ x. predict x new) (chain (h % 2 ^ k)) ≡ false)
      (accepted : accepts new ≡ true) where
    found : find accepts (prepended k base chain new h (h % 2 ^ k)) ≡ new
    found = ground (arith, accepted)

    longer : length (prepended k base chain new h (h % 2 ^ k)) < fuel
    longer = ground (arith, enough)

    restored : (i : ℕ) → erased accepts k base (prepended k base chain new h) h i ≡ chain i
    restored i = elim (Bool-cases (i == h % 2 ^ k)) [
      | inl here ↦
          rw (here, ==-refl (h % 2 ^ k), accepted) (ap chain (sym (==→eq i (h % 2 ^ k) here)))
      | inr other ↦ rw other refl
    ]

    -- Any continuation of an insertion that no node of the bucket matches.
    then_do :
        {A : Type 0} {Q : A → Mem → Type 0} {G : Mem → Action → Mem → Type 0} {p : Prog A}
        → ((m : Mem) (a : Action) (m' : Mem) → Keeps new null m a m' → G m a m')
        → (IsTable (inserted_mem k base chain new h m) k base (prepended k base chain new h)
            → Ensures G Q p (inserted_mem k base chain new h m))
        → Ensures G Q (do Table.try_insert_no_expand predict fuel new h; p) m
    then_do {Q = Q} {G = G} {p = p} weaken rest =
        bind-Ensures
          (weaken-Ensures weaken (
            try_insert_no_expand-Inserted predict fuel k base chain new h m t free
              (omega (arith, enough))))
          λ b m' (at, is, t').
            let now : m' ≡ inserted_mem k base chain new h m = rw fresh at is in
            let table : IsTable m' k base (prepended k base chain new h) = rw fresh at t' in
            subst (λ m'. Ensures G Q p m') (sym now)
              (rest (subst (λ m'. IsTable m' k base (prepended k base chain new h)) now table))

    -- In a table, inserting a free node that no node of its bucket matches and then searching its
    -- hash with a predicate that accepts it finds that node, given more rounds than the bucket then
    -- has nodes. The memory is as the insertion left it, and no reader that does not stand at the
    -- node loses a cell.
    pub try_insert_no_expand-find :
        Ensures
          (Keeps new null)
          (λ p m'. (p ≡ new) × (m' ≡ inserted_mem k base chain new h m))
          (do Table.try_insert_no_expand predict fuel new h; Table.find accepts fuel h)
          m
    try_insert_no_expand-find =
        then_do (λ m a m' keeps. keeps)
          λ t'.
            weaken-Ensures (λ m a m' same x t off ne r. subst (λ m. Leads m.next t x) (sym same) r)
              (mono (find-find accepts fuel h k base (prepended k base chain new h) _ t' longer)
                λ p m' (at, same). (at ∙ found, same))

    -- In a table, inserting a free node that no node of its bucket matches and then detaching by its
    -- hash with a predicate that accepts it returns that node and leaves a table with the same lists
    -- as before, given more rounds than the bucket then has nodes. The size stays 1 larger (modulo 2
    -- ^ 64). No other cell is lost for a reader that does not stand at the node.
    pub try_insert_no_expand-try_detach_no_shrink :
        Ensures
          (KeepsOthers new)
          (λ p m'. (p ≡ new) × IsTable m' k base chain × (m'.size ≡ (m.size + 1) % 2 ^ 64))
          (do
            Table.try_insert_no_expand predict fuel new h
            Table.try_detach_no_shrink accepts fuel h)
          m
    try_insert_no_expand-try_detach_no_shrink =
        then_do (λ m a m' keeps x t off at live ne r. keeps x t off live r)
          λ t'.
            weaken-Ensures
              (λ m a m' keeps x t off at live ne r. keeps x t at (λ e. ne (e ∙ found)) r)
              (mono
                (try_detach_no_shrink-Detached accepts k base (prepended k base chain new h) h fuel
                  _ t' longer)
                λ p m' d. (
                  d.found ∙ found,
                  subst (IsTable m' k base) (fun_ext restored) d.table,
                  d.same_size,
                ))
