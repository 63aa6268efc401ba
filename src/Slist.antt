-- ===== src/Slist.antt =====
-- The singly linked list, LibSource/include/RcuSinglyLinkedListApi.h: each function is the sequence
-- of its loads and stores. A list is the address of its sentinel head. Each loop takes fuel, the
-- number of rounds that it may make. The callbacks are functions of the addresses that they get.
pub mod Insert
pub mod Append
pub mod Find
pub mod Remove
use relativistic_hash_table.Base.{ℕ, zero, suc, Bool, true, false, ◌==◌, if◌then◌else◌}
use relativistic_hash_table.Memory.{
  Ptr, null, Prog, ret, out_of_fuel, ◌>>=◌, ◌>>◌, load_next, store_next,
}

pub init : (list : Ptr) → Prog (Unit {0})
init list = store_next list null

pub reset : (list : Ptr) → Prog (Unit {0})
reset list = store_next list null

pub is_empty : (list : Ptr) → Prog Bool
is_empty list = do first ← load_next list; ret (first == null)

pub insert_after : (pos new_elem : Ptr) → Prog (Unit {0})
insert_after pos new_elem = do
  next ← load_next pos
  store_next new_elem next
  store_next pos new_elem

-- the loop of append_to_tail and the two stores behind it
append_loop : ℕ → (p next new_elem : Ptr) → Prog (Unit {0})
append_loop zero p next new_elem = out_of_fuel
append_loop (suc fuel) p next new_elem =
    if next == null
    then (do store_next new_elem null; store_next p new_elem)
    else (do next' ← load_next next; append_loop fuel next next' new_elem)

pub append_to_tail : (fuel : ℕ) (pos new_elem : Ptr) → Prog (Unit {0})
unfolding append_loop
append_to_tail fuel pos new_elem = do next ← load_next pos; append_loop fuel pos next new_elem

module _ (predict : Ptr → Ptr → Bool) where
  prepend_loop : ℕ → (list first p new_elem : Ptr) → Prog Bool
  prepend_loop zero list first p new_elem = out_of_fuel
  prepend_loop (suc fuel) list first p new_elem =
      if p == null
      then (do store_next new_elem first; store_next list new_elem; ret true)
      else (if predict p new_elem
          then ret false
          else (do next ← load_next p; prepend_loop fuel list first next new_elem))

  pub prepend_if_no_match : (fuel : ℕ) (list new_elem : Ptr) → Prog Bool
  unfolding prepend_loop
  prepend_if_no_match fuel list new_elem = do
    first ← load_next list
    prepend_loop fuel list first first new_elem

  -- `predict` is asked of `p`, which trails `next` by one.
  append_match_loop : ℕ → (p next new_elem : Ptr) → Prog Bool
  append_match_loop zero p next new_elem = out_of_fuel
  append_match_loop (suc fuel) p next new_elem =
      if next == null
      then (do store_next new_elem null; store_next p new_elem; ret true)
      else (if predict p new_elem
          then ret false
          else (do next' ← load_next next; append_match_loop fuel next next' new_elem))

  pub append_if_no_match : (fuel : ℕ) (list new_elem : Ptr) → Prog Bool
  unfolding append_match_loop
  append_if_no_match fuel list new_elem = do
    next ← load_next list
    append_match_loop fuel list next new_elem

module _ (predict : Ptr → Bool) where
  find_loop : ℕ → (p : Ptr) → Prog Ptr
  find_loop zero p = out_of_fuel
  find_loop (suc fuel) p =
      if p == null
      then ret null
      else (if predict p then ret p else (do next ← load_next p; find_loop fuel next))

  pub find_if : (fuel : ℕ) (list : Ptr) → Prog Ptr
  unfolding find_loop
  find_if fuel list = do first ← load_next list; find_loop fuel first

  remove_loop : ℕ → (last p : Ptr) → Prog Ptr
  remove_loop zero last p = out_of_fuel
  remove_loop (suc fuel) last p =
      if p == null
      then ret p
      else (if predict p
          then (do next ← load_next p; store_next last next; ret p)
          else (do next ← load_next p; remove_loop fuel p next))

  unfoldable pub remove_if : (fuel : ℕ) (list : Ptr) → Prog Ptr
  unfolding remove_loop
  remove_if fuel list = do p ← load_next list; remove_loop fuel list p

named_loop : ℕ → (last p head : Ptr) → Prog Ptr
named_loop zero last p head = out_of_fuel
named_loop (suc fuel) last p head =
    if p == null
    then ret p
    else (if p == head
        then (do next ← load_next p; store_next last next; ret p)
        else (do next ← load_next p; named_loop fuel p next head))

pub remove : (fuel : ℕ) (list head : Ptr) → Prog Ptr
unfolding named_loop
remove fuel list head = do p ← load_next list; named_loop fuel list p head
