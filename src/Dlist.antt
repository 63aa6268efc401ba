-- ===== src/Dlist.antt =====
-- The doubly linked list, LibSource/include/RcuDoublyLinkedListApi.h. An RcuDlistHead at the address
-- `p` has its `next` there and its `prev` at `p + 1`. A list is the address of its sentinel head.
pub mod Iter
pub mod Splice
pub mod Ring
pub mod Edit
pub mod Remove
pub mod Client
pub mod Erase
pub mod EraseBack
pub mod Verify
pub mod Walk
pub mod Check
pub mod Fill
use relativistic_hash_table.Base.{ℕ, ◌+◌, Bool, ◌==◌}
use relativistic_hash_table.Memory.{Ptr, Prog, ret, ◌>>=◌, ◌>>◌, load_next, store_next}

-- the address of the `prev` member
abbrev pub prev_of : Ptr → Ptr
prev_of p = p + 1

abbrev pub load_prev : Ptr → Prog Ptr
load_prev p = load_next (prev_of p)

abbrev pub store_prev : Ptr → Ptr → Prog (Unit {0})
store_prev p q = store_next (prev_of p) q

unfoldable pub init : (list : Ptr) → Prog (Unit {0})
init list = do store_prev list list; store_next list list

unfoldable pub reset : (list : Ptr) → Prog (Unit {0})
reset list = do store_prev list list; store_next list list

unfoldable pub is_empty : (list : Ptr) → Prog Bool
is_empty list = do first ← load_next list; ret (first == list)

unfoldable pub add_between : (prev next new_elem : Ptr) → Prog (Unit {0})
add_between prev next new_elem = do
  store_next new_elem next
  store_prev new_elem prev
  store_next prev new_elem
  store_prev next new_elem

unfoldable pub remove_between : (prev next : Ptr) → Prog (Unit {0})
remove_between prev next = do store_next prev next; store_prev next prev

unfoldable pub insert_after : (pos new_elem : Ptr) → Prog (Unit {0})
unfolding add_between
insert_after pos new_elem = do next ← load_next pos; add_between pos next new_elem

unfoldable pub insert_before : (pos new_elem : Ptr) → Prog (Unit {0})
unfolding add_between
insert_before pos new_elem = do prev ← load_prev pos; add_between prev pos new_elem

unfoldable pub append : (list new_elem : Ptr) → Prog (Unit {0})
append list new_elem = insert_before list new_elem

unfoldable pub prepend : (list new_elem : Ptr) → Prog (Unit {0})
prepend list new_elem = insert_after list new_elem

-- The two arguments of rcuDlistRemoveBetween are evaluated in the order in which they are written.
unfoldable pub remove : (elem : Ptr) → Prog (Unit {0})
unfolding remove_between
remove elem = do prev ← load_prev elem; next ← load_next elem; remove_between prev next
