-- ===== src/Slist/Insert.antt =====
-- rcuSlistInsertAfter and rcuSlistPrependIfNoMatch.
use relativistic_hash_table.Base.{
  ℕ, zero, suc, ◌<◌, ◌≡◌, refl, ◌≢◌, Bool, true, false, not, some, List, [], ◌∷◌, arith, ◌==◌,
  if◌then◌else◌, Bool-cases, inl, inr, length, any, ◌∉◌,
}
use relativistic_hash_table.Memory.{Ptr, null, Mem, Prog, act, store}
use relativistic_hash_table.Memory.Ensures.{Ensures, returns, loads, stores, relink}
use relativistic_hash_table.Memory.Chain.{first, Chain, IsSlist, Chain-put}
use relativistic_hash_table.Memory.Leads.{Keeps, Unlinked, Leads-put_free, Leads-put_between}
use relativistic_hash_table.Slist.{insert_after, prepend_loop, prepend_if_no_match}

-- `new` is a cell of its own: allocated, not in the list, and not linked to.
pub record IsSpare (m : Mem) (new : Ptr) (xs : List Ptr) : Type 0 where
  pub ne_null : new ≢ null
  pub old_next : Ptr
  pub is_allocated : m.next new ≡ some old_next
  pub is_outside : new ∉ xs
  pub is_unlinked : Unlinked m.next new

-- the memory after `new` has been linked in between `pos` and its successor `next`
abbrev pub linked : Mem → (pos new next : Ptr) → Mem
linked m pos new next = relink (relink m new next) pos new

module _ (m : Mem) (pos new : Ptr) (xs : List Ptr) where
  pub linked-Chain :
      Chain m.next null (pos ∷ xs)
      → IsSpare m new (pos ∷ xs)
      → Chain (linked m pos new (first xs null)).next null (pos ∷ new ∷ xs)
  linked-Chain c spare =
      let once = Chain-put m.next null new (first xs null) xs c.3 (ground arith) in
      let twice = Chain-put (relink m new (first xs null)).next null pos new xs once c.2 in
      (c.0, ground arith, ground arith, (spare.ne_null, ground arith, ground arith, twice))

  -- The two stores, in the order that makes the list whole at every moment.
  pub linking :
      {A : Type 0} {Q : A → Mem → Type 0} {k : Unit {0} → Prog A}
      → Chain m.next null (pos ∷ xs)
      → IsSpare m new (pos ∷ xs)
      → Ensures (Keeps new null) Q (k tt) (linked m pos new (first xs null))
      → Ensures (Keeps new null) Q (act (store new (first xs null)) (λ _. act (store pos new) k)) m
  linking c spare rest =
      stores (first xs null) spare.is_allocated
        (λ x t off ne r. Leads-put_free new (first xs null) spare.is_unlinked r off)
        (stores {o = first xs null} new (ground arith)
          (λ x t off ne r.
            Leads-put_between pos new (first xs null) (ground arith) (ground arith) (ground arith)
              r)
          rest)

-- Behind a cell `pos` of a list, `insert_after` links a spare cell in. Before and after each of its
-- stores, a reader that does not stand at that cell can reach all that it could reach before.
pub insert_after-Chain :
    (pos new : Ptr) (xs : List Ptr) (m : Mem)
    → Chain m.next null (pos ∷ xs)
    → IsSpare m new (pos ∷ xs)
    → Ensures
        (Keeps new null)
        (λ _ m'. (m' ≡ linked m pos new (first xs null)) × Chain m'.next null (pos ∷ new ∷ xs))
        (insert_after pos new)
        m
unfolding insert_after
insert_after-Chain pos new xs m c spare =
    loads c.1 (λ x t off ne r. r)
      (linking m pos new xs c spare (returns (refl, linked-Chain m pos new xs c spare)))

module _ (predict : Ptr → Ptr → Bool) (m : Mem) (l new : Ptr) (xs : List Ptr) where
  -- What `prepend_if_no_match` returns, the memory that it leaves, and the list in it.
  abbrev pub Prepended : Bool → Mem → Type 0
  Prepended inserted m' =
      let matched = any (λ x. predict x new) xs in
      (inserted ≡ not matched)
      × (m' ≡ (if matched then m else linked m l new (first xs null)))
      × IsSlist m'.next l (if matched then xs else new ∷ xs)

  module _ (c : IsSlist m.next l xs) (spare : IsSpare m new (l ∷ xs)) where
    prepend_loop-Prepended :
        (fuel : ℕ) (ys : List Ptr)
        → Chain m.next null ys
        → any (λ x. predict x new) xs ≡ any (λ x. predict x new) ys
        → length ys < fuel
        → Ensures
            (Keeps new null)
            Prepended
            (prepend_loop predict fuel l (first xs null) (first ys null) new)
            m
    unfolding prepend_loop
    prepend_loop-Prepended zero ys d same enough = absurd (omega arith)
    prepend_loop-Prepended (suc fuel) [] d same enough =
        linking m l new xs c spare (returns (rw same (refl, refl, linked-Chain m l new xs c spare)))
    prepend_loop-Prepended (suc fuel) (y ∷ ys) d same enough =
        let live : (y == null) ≡ false = ground arith in
        rw live (elim (Bool-cases (predict y new)) [
          | inl hit ↦
              let matched : any (λ x. predict x new) xs ≡ true = ground arith in
              rw hit (returns (rw matched (refl, refl, c)))
          | inr miss ↦ rw miss (
              loads d.1 (λ x t off ne r. r)
                (prepend_loop-Prepended fuel ys d.3 (ground arith) (omega arith)))
        ])

    -- Given a list and a spare cell, `prepend_if_no_match` with more rounds than the list has nodes
    -- puts the cell in front and returns true if the predicate matches no node with it, and else
    -- returns false and leaves the memory as it is. At every moment a reader that does not stand at
    -- the new cell can reach all that it could reach before.
    pub prepend_if_no_match-Prepended :
        (fuel : ℕ)
        → length xs < fuel
        → Ensures (Keeps new null) Prepended (prepend_if_no_match predict fuel l new) m
    unfolding prepend_if_no_match
    prepend_if_no_match-Prepended fuel enough =
        loads c.1 (λ x t off ne r. r) (prepend_loop-Prepended fuel xs c.3 refl enough)
