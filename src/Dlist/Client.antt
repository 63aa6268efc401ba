-- ===== src/Dlist/Client.antt =====
-- RcuDlistTest of TestsAndExamples/RCUTableTests.cpp: the loops that a user writes over a doubly linked
-- list. An element is the address of its `entry`; its `value` is a function of that address. A program
-- that returns a Bool returns false where the source throws. The readers of the source run at the same
-- time as the writer; here each loop is a program of its own.
use relativistic_hash_table.Base.{
  ℕ, zero, suc, ◌+◌, ◌%◌, Bool, true, false, not, ◌||◌, ◌&&◌, Option, none, some, List, [], ◌∷◌,
  ◌==◌, if◌then◌else◌,
}
use relativistic_hash_table.Memory.{Ptr, Prog, ret, out_of_fuel, ◌>>=◌, ◌>>◌}
use relativistic_hash_table.Dlist.{is_empty, append, prepend}
use relativistic_hash_table.Dlist.Iter.{
  begin, is_end, advance, SafeIter, safe_begin, safe_is_end, safe_advance, safe_remove_it,
  SafeRIter, safe_r_begin, safe_r_is_end, safe_r_advance, safe_r_remove_it,
}

module _ (removes : Ptr → Bool) (list : Ptr) where
  -- the writer's loop of verify
  unfoldable pub erase_loop : (fuel : ℕ) → SafeIter → Prog (Unit {0})
  erase_loop zero it = out_of_fuel
  erase_loop (suc fuel) it = if safe_is_end it list then ret tt else (do
    if removes it.pos then safe_remove_it it else ret tt
    after ← safe_advance it
    erase_loop fuel after)

  -- the writer's loop of verifyReversed
  unfoldable pub r_erase_loop : (fuel : ℕ) → SafeRIter → Prog (Unit {0})
  r_erase_loop zero it = out_of_fuel
  r_erase_loop (suc fuel) it = if safe_r_is_end it list then ret tt else (do
    if removes it.pos then safe_r_remove_it it else ret tt
    after ← safe_r_advance it
    r_erase_loop fuel after)

-- `res == 0 || res == 1` for the value modulo 8
abbrev pub is_erased : (value : Ptr → ℕ) → Ptr → Bool
is_erased value p = (value p % 8 == 0) || (value p % 8 == 1)

unfoldable pub erase_multiples : (value : Ptr → ℕ) (fuel : ℕ) (list : Ptr) → Prog (Unit {0})
unfolding erase_loop
erase_multiples value fuel list = do it ← safe_begin list; erase_loop (is_erased value) list fuel it

unfoldable pub r_erase_multiples : (value : Ptr → ℕ) (fuel : ℕ) (list : Ptr) → Prog (Unit {0})
unfolding r_erase_loop
r_erase_multiples value fuel list = do
  it ← safe_r_begin list
  r_erase_loop (is_erased value) list fuel it

-- the two loops of clearAndVerify
unfoldable pub clear_loop : (list : Ptr) (fuel : ℕ) → SafeIter → Prog (Unit {0})
clear_loop list zero it = out_of_fuel
clear_loop list (suc fuel) it =
    if safe_is_end it list
    then ret tt
    else (do safe_remove_it it; after ← safe_advance it; clear_loop list fuel after)

unfoldable pub r_clear_loop : (list : Ptr) (fuel : ℕ) → SafeRIter → Prog (Unit {0})
r_clear_loop list zero it = out_of_fuel
r_clear_loop list (suc fuel) it =
    if safe_r_is_end it list
    then ret tt
    else (do safe_r_remove_it it; after ← safe_r_advance it; r_clear_loop list fuel after)

unfoldable pub clear_and_verify : (reversely : Bool) (fuel : ℕ) (list : Ptr) → Prog Bool
unfolding clear_loop r_clear_loop
clear_and_verify reversely fuel list = do
  if not reversely
      then (do it ← safe_begin list; clear_loop list fuel it)
      else (do it ← safe_r_begin list; r_clear_loop list fuel it)
  is_empty list

-- The loops that append, and prepend, all elements.
unfoldable pub append_all : (list : Ptr) → List Ptr → Prog (Unit {0})
append_all list [] = ret tt
append_all list (item ∷ items) = do append list item; append_all list items

unfoldable pub prepend_all : (list : Ptr) → List Ptr → Prog (Unit {0})
prepend_all list [] = ret tt
prepend_all list (item ∷ items) = do prepend list item; prepend_all list items

-- verifyElement: the next `expected`, or none where it throws; `expected` stays below 2 ^ 31, since
-- there are ten million elements.
unfoldable pub verify_element : (value : Ptr → ℕ) (entry : Ptr) (expected : ℕ) → Option ℕ
verify_element value entry expected =
    let first =
      if (expected % 8 == 0) && not (value entry == expected) then expected + 1 else expected in
    let second = if (first % 8 == 1) && not (value entry == first) then first + 1 else first in
    if value entry == second then some (second + 1) else none

-- one walk of a reader of verify; the result is whether it does not throw
unfoldable pub verify_loop :
    (value : Ptr → ℕ) (list : Ptr) (fuel : ℕ) (pos : Ptr) (expected : ℕ) → Prog Bool
unfolding verify_element
verify_loop value list zero pos expected = out_of_fuel
verify_loop value list (suc fuel) pos expected =
    if is_end pos list then ret true else (elim (verify_element value pos expected) [
      | none ↦ ret false
      | some after ↦ do next ← advance pos; verify_loop value list fuel next after
    ])

unfoldable pub verify_walk : (value : Ptr → ℕ) (fuel : ℕ) (list : Ptr) → Prog Bool
unfolding verify_loop
verify_walk value fuel list = do pos ← begin list; verify_loop value list fuel pos 0
