-- ===== src/Dlist/Walk.antt =====
-- A reader of RcuDlistTest: its check accepts every list that the writer's erasing may leave.
use mathlib.Core.List.{append_assoc}
use relativistic_hash_table.Base.{
  ℕ, zero, suc, ◌+◌, ◌%◌, ◌≤◌, ◌<◌, ◌≡◌, refl, sym, Bool, true, false, ◌||◌, some, List, [], ◌∷◌,
  ◌++◌, arith, subst, ◌==◌, length, filter, Bool-cases, inl, inr, ==-refl, ◌⊎◌,
}
use relativistic_hash_table.Memory.{Ptr, Mem}
use relativistic_hash_table.Memory.Ensures.{Ensures, returns, loads}
use relativistic_hash_table.Memory.Chain.{first}
use relativistic_hash_table.Memory.Leads.{Reads}
use relativistic_hash_table.Dlist.Iter.{begin, is_end, advance}
use relativistic_hash_table.Dlist.Ring.{IsRing}
use relativistic_hash_table.Dlist.Remove.{gone-next}
use relativistic_hash_table.Dlist.Erase.{element_ne_head}
use relativistic_hash_table.Dlist.Client.{is_erased, verify_element, verify_loop, verify_walk}

-- The values of the elements count on from `i`.
abbrev pub Numbered : (value : Ptr → ℕ) (i : ℕ) → List Ptr → Type 0
Numbered value i [] = Unit
Numbered value i (x ∷ xs) = (value x ≡ i) × Numbered value (i + 1) xs

-- `e` is `i`, or what may be missing in front of `i` is.
abbrev Lags : (e i : ℕ) → Type 0
Lags e i = (e ≡ i) ⊎ ((e + 1 ≡ i) × (e % 8 ≤ 1)) ⊎ ((e + 2 ≡ i) × (e % 8 ≡ 0))

pub verify_element-Lags :
    (value : Ptr → ℕ) (x : Ptr) (e i : ℕ)
    → Lags e i
    → value x ≡ i
    → verify_element value x e ≡ some (i + 1)
unfolding verify_element
verify_element-Lags value x e i (inl same) at = ground arith
verify_element-Lags value x e i (inr (inl one)) at = ground arith
verify_element-Lags value x e i (inr (inr two)) at = ground arith

Lags-drop : (e i : ℕ) → Lags e i → i % 8 ≤ 1 → Lags e (i + 1)
Lags-drop e i (inl same) low = inr (inl (omega arith, omega arith))
Lags-drop e i (inr (inl one)) low = inr (inr (omega arith, omega arith))
Lags-drop e i (inr (inr two)) low = absurd (omega arith)

module _ (value : Ptr → ℕ) (stays : Ptr → Bool) (l : Ptr) (m : Mem)
    (only : (x : Ptr) → stays x ≡ false → value x % 8 ≤ 1) where
  verify_loop-accepts :
      (fuel : ℕ) (front all : List Ptr) (i e : ℕ)
      → IsRing m.next l (front ++ filter stays all)
      → Numbered value i all
      → Lags e i
      → length all < fuel
      → Ensures Reads
          (λ accepted m'. accepted ≡ true)
          (verify_loop value l fuel (first (filter stays all) l) e)
          m
  unfolding verify_loop is_end advance
  verify_loop-accepts zero front all i e ring numbers lags enough = absurd (omega arith)
  verify_loop-accepts (suc fuel) front [] i e ring numbers lags enough =
      rw (==-refl l) (returns refl)
  verify_loop-accepts (suc fuel) front (x ∷ all) i e ring numbers lags enough =
      elim (Bool-cases (stays x)) [
        | inl here ↦
            let ring1 : IsRing m.next l (front ++ (x ∷ filter stays all)) = rw here at ring in
            let ring2 : IsRing m.next l ((front ++ (x ∷ [])) ++ filter stays all) =
              subst (IsRing m.next l) (sym (append_assoc front (x ∷ []) (filter stays all)))
                ring1 in
            let top : first (filter stays (x ∷ all)) l ≡ x = rw here refl in
            subst
              (λ pos.
                Ensures Reads (λ accepted m'. accepted ≡ true)
                  (verify_loop value l (suc fuel) pos e) m)
              (sym top)
              (rw
                (
                  element_ne_head m l front x (filter stays all) ring1,
                  verify_element-Lags value x e i lags numbers.0,
                )
                (loads (gone-next m l front x (filter stays all) ring1) refl (
                  verify_loop-accepts fuel (front ++ (x ∷ [])) all (i + 1) (i + 1) ring2 numbers.1
                    (inl refl) (omega (arith, enough)))))
        | inr gone ↦
            let dropped : filter stays all ≡ filter stays (x ∷ all) = rw gone refl in
            subst
              (λ xs.
                Ensures Reads (λ accepted m'. accepted ≡ true)
                  (verify_loop value l (suc fuel) (first xs l) e) m)
              dropped
              (verify_loop-accepts (suc fuel) front all (i + 1) e (rw gone at ring) numbers.1
                (Lags-drop e i lags (subst (λ n. n % 8 ≤ 1) numbers.0 (only x gone)))
                (omega (arith, enough)))
      ]

-- Let the values of some elements count on from 0, and a list hold those of them that are not taken
-- out, in their order, where only elements that the writer erases are taken out. Then a walk with
-- more rounds than there are elements only reads, and does not throw: `verify_walk` returns true.
pub verify_walk-accepts :
    (value : Ptr → ℕ) (stays : Ptr → Bool) (fuel : ℕ) (l : Ptr) (all : List Ptr) (m : Mem)
    → ((x : Ptr) → stays x ≡ false → is_erased value x ≡ true)
    → Numbered value 0 all
    → IsRing m.next l (filter stays all)
    → length all < fuel
    → Ensures Reads (λ accepted m'. accepted ≡ true) (verify_walk value fuel l) m
unfolding verify_walk begin
verify_walk-accepts value stays fuel l all m only numbers ring enough = loads ring.forward.1 refl (
    verify_loop-accepts value stays l m (λ x gone. low (value x) (only x gone)) fuel [] all 0 0 ring
      numbers (inl refl) enough)
  where
    low : (v : ℕ) → ((v % 8 == 0) || (v % 8 == 1)) ≡ true → v % 8 ≤ 1
    low v e = ground arith
