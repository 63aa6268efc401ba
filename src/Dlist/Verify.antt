-- ===== src/Dlist/Verify.antt =====
-- The writer of RcuDlistTest: its loops leave the elements that they should, and in the end an empty
-- list.
use relativistic_hash_table.Base.{
  ℕ, zero, suc, ◌<◌, ◌≡◌, refl, sym, ap, fun_ext, Bool, true, false, not, List, [], ◌∷◌, subst,
  if◌then◌else◌, length, filter,
}
use relativistic_hash_table.Memory.{Ptr, Mem, Prog, ret, bind}
use relativistic_hash_table.Memory.Ensures.{Ensures, bind-Ensures, mono, weaken-Ensures}
use relativistic_hash_table.Dlist.Iter.{
  SafeIter, SafeRIter, safe_begin, safe_r_begin, safe_is_end, safe_advance, safe_remove_it,
  safe_r_is_end, safe_r_advance, safe_r_remove_it,
}
use relativistic_hash_table.Dlist.Ring.{IsRing, Any}
use relativistic_hash_table.Dlist.{is_empty}
use relativistic_hash_table.Dlist.Edit.{is_empty-IsRing}
use relativistic_hash_table.Dlist.Erase.{kept, erase_walk-IsRing}
use relativistic_hash_table.Dlist.EraseBack.{r_erase_walk-IsRing}
use relativistic_hash_table.Dlist.Client.{
  erase_loop, r_erase_loop, clear_loop, r_clear_loop, clear_and_verify, is_erased, erase_multiples,
  r_erase_multiples,
}

-- On a list, with more rounds than it has elements, the writer's loop of verify, and that of
-- verifyReversed, ends and leaves exactly the elements whose value modulo 8 is neither 0 nor 1, in
-- their order.
pub erase_multiples-IsRing :
    (value : Ptr → ℕ) (fuel : ℕ) (l : Ptr) (xs : List Ptr) (m : Mem)
    → IsRing m.next l xs
    → length xs < fuel
    → Ensures Any
        (λ _ m'. IsRing m'.next l (filter (λ x. not (is_erased value x)) xs))
        (erase_multiples value fuel l)
        m
      × Ensures Any
          (λ _ m'. IsRing m'.next l (filter (λ x. not (is_erased value x)) xs))
          (r_erase_multiples value fuel l)
          m
unfolding erase_multiples r_erase_multiples
erase_multiples-IsRing value fuel l xs m ring enough = (
  erase_walk-IsRing (is_erased value) l fuel xs m ring enough,
  r_erase_walk-IsRing (is_erased value) l fuel xs m ring enough,
)

clear_loop-erase_loop :
    (l : Ptr) (fuel : ℕ) (it : SafeIter) → clear_loop l fuel it ≡ erase_loop (λ x. true) l fuel it
unfolding clear_loop erase_loop
clear_loop-erase_loop l zero it = refl
clear_loop-erase_loop l (suc fuel) it =
    ap
      (λ (rest : SafeIter → Prog (Unit {0})).
        if safe_is_end it l
        then ret tt
        else bind (safe_remove_it it) (λ _. bind (safe_advance it) rest))
      (fun_ext (clear_loop-erase_loop l fuel))

r_clear_loop-r_erase_loop :
    (l : Ptr) (fuel : ℕ) (it : SafeRIter)
    → r_clear_loop l fuel it ≡ r_erase_loop (λ x. true) l fuel it
unfolding r_clear_loop r_erase_loop
r_clear_loop-r_erase_loop l zero it = refl
r_clear_loop-r_erase_loop l (suc fuel) it =
    ap
      (λ (rest : SafeRIter → Prog (Unit {0})).
        if safe_r_is_end it l
        then ret tt
        else bind (safe_r_remove_it it) (λ _. bind (safe_r_advance it) rest))
      (fun_ext (r_clear_loop-r_erase_loop l fuel))

kept_none : (l : Ptr) (xs : List Ptr) → kept (λ x. true) l xs ≡ []
kept_none l [] = refl
kept_none l (x ∷ xs) = kept_none l xs

module _ (fuel : ℕ) (l : Ptr) (xs : List Ptr) (m : Mem) (ring : IsRing m.next l xs)
    (enough : length xs < fuel) where
  clear_walk-IsRing :
      Ensures Any (λ _ m'. IsRing m'.next l []) (bind (safe_begin l) (λ it. clear_loop l fuel it)) m
  clear_walk-IsRing =
      subst (λ loop. Ensures Any (λ _ m'. IsRing m'.next l []) (bind (safe_begin l) loop) m)
        (sym (fun_ext (clear_loop-erase_loop l fuel)))
        (mono (erase_walk-IsRing (λ x. true) l fuel xs m ring enough)
          λ _ m'. subst (IsRing m'.next l) (kept_none l xs))

  r_clear_walk-IsRing :
      Ensures Any
        (λ _ m'. IsRing m'.next l [])
        (bind (safe_r_begin l) (λ it. r_clear_loop l fuel it))
        m
  r_clear_walk-IsRing =
      subst (λ loop. Ensures Any (λ _ m'. IsRing m'.next l []) (bind (safe_r_begin l) loop) m)
        (sym (fun_ext (r_clear_loop-r_erase_loop l fuel)))
        (mono (r_erase_walk-IsRing (λ x. true) l fuel xs m ring enough)
          λ _ m'. subst (IsRing m'.next l) (kept_none l xs))

  found_empty :
      (m' : Mem)
      → IsRing m'.next l []
      → Ensures Any (λ verified m''. (verified ≡ true) × IsRing m''.next l []) (is_empty l) m'
  found_empty m' done =
      mono (weaken-Ensures (λ m a m' g. tt) (is_empty-IsRing m' l [] done))
        λ verified m'' (found, same). (found, subst (λ now. IsRing now.next l []) (sym same) done)

  -- On a list, with more rounds than it has elements, `clear_and_verify` in either direction removes
  -- all elements and finds the list empty: it does not throw.
  pub clear_and_verify-IsRing :
      (reversely : Bool)
      → Ensures Any
          (λ verified m'. (verified ≡ true) × IsRing m'.next l [])
          (clear_and_verify reversely fuel l)
          m
  unfolding clear_and_verify
  clear_and_verify-IsRing false = bind-Ensures clear_walk-IsRing λ _ m' done. found_empty m' done
  clear_and_verify-IsRing true = bind-Ensures r_clear_walk-IsRing λ _ m' done. found_empty m' done
