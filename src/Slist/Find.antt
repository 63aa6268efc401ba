-- ===== src/Slist/Find.antt =====
-- rcuSlistFindIf, and the functions that set up or test a whole list.
use relativistic_hash_table.Base.{
  ℕ, zero, suc, ◌<◌, ◌≡◌, refl, Bool, false, List, [], ◌∷◌, arith, ◌==◌, Bool-cases, inl, inr,
  length, find,
}
use relativistic_hash_table.Memory.{Ptr, null, Mem}
use relativistic_hash_table.Memory.Ensures.{Ensures, returns, loads}
use relativistic_hash_table.Memory.Chain.{first, Chain, IsSlist}
use relativistic_hash_table.Memory.Leads.{Reads}
use relativistic_hash_table.Slist.{find_loop, find_if}

module _ (predict : Ptr → Bool) where
  find_loop-find :
      (fuel : ℕ) (xs : List Ptr) (m : Mem)
      → Chain m.next null xs
      → length xs < fuel
      → Ensures Reads
          (λ p m'. (p ≡ find predict xs) × (m' ≡ m))
          (find_loop predict fuel (first xs null))
          m
  unfolding find_loop
  find_loop-find zero xs m c enough = absurd (omega arith)
  find_loop-find (suc fuel) [] m c enough = returns (refl, refl)
  find_loop-find (suc fuel) (x ∷ xs) m c enough =
      let live : (x == null) ≡ false = ground arith in
      rw live (elim (Bool-cases (predict x)) [
        | inl hit ↦ rw hit (returns (refl, refl))
        | inr miss ↦ rw miss (loads c.1 refl (find_loop-find fuel xs m c.3 (omega arith)))
      ])

  -- In a list with the nodes `xs`, `find_if` given more rounds than `xs` has nodes returns the first
  -- node that the predicate accepts, or null if it accepts none; it writes nothing.
  pub find_if-find :
      (fuel : ℕ) (l : Ptr) (xs : List Ptr) (m : Mem)
      → IsSlist m.next l xs
      → length xs < fuel
      → Ensures Reads (λ p m'. (p ≡ find predict xs) × (m' ≡ m)) (find_if predict fuel l) m
  unfolding find_if
  find_if-find fuel l xs m c enough = loads c.1 refl (find_loop-find fuel xs m c.3 enough)
