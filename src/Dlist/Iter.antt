-- ===== src/Dlist/Iter.antt =====
-- The iterators of the doubly linked list. Those that only read are positions; those that allow
-- removal also hold the neighbour that comes next.
use relativistic_hash_table.Base.{Bool, ◌==◌}
use relativistic_hash_table.Memory.{Ptr, Prog, ret, ◌>>=◌, load_next}
use relativistic_hash_table.Dlist.{load_prev, remove}

unfoldable pub begin : (list : Ptr) → Prog Ptr
begin list = load_next list

unfoldable pub is_end : (pos list : Ptr) → Bool
is_end pos list = pos == list

unfoldable pub advance : (pos : Ptr) → Prog Ptr
advance pos = load_next pos

unfoldable pub r_begin : (list : Ptr) → Prog Ptr
r_begin list = load_prev list

unfoldable pub r_is_end : (pos list : Ptr) → Bool
r_is_end pos list = pos == list

unfoldable pub r_advance : (pos : Ptr) → Prog Ptr
r_advance pos = load_prev pos

unfoldable pub r_get_head : (pos : Ptr) → Ptr
r_get_head pos = pos

pub record SafeIter : Type 0 where
  pub pos : Ptr
  pub next : Ptr

unfoldable pub safe_begin : (list : Ptr) → Prog SafeIter
safe_begin list = do p ← load_next list; q ← load_next p; ret (record { pos = p; next = q })

unfoldable pub safe_is_end : SafeIter → (list : Ptr) → Bool
safe_is_end it list = it.pos == list

unfoldable pub safe_advance : SafeIter → Prog SafeIter
safe_advance it = do q ← load_next it.next; ret (record { pos = it.next; next = q })

unfoldable pub safe_get_head : SafeIter → Ptr
safe_get_head it = it.pos

unfoldable pub safe_remove_it : SafeIter → Prog (Unit {0})
safe_remove_it it = remove it.pos

pub record SafeRIter : Type 0 where
  pub pos : Ptr
  pub prev : Ptr

unfoldable pub safe_r_begin : (list : Ptr) → Prog SafeRIter
safe_r_begin list = do p ← load_prev list; q ← load_prev p; ret (record { pos = p; prev = q })

unfoldable pub safe_r_is_end : SafeRIter → (list : Ptr) → Bool
safe_r_is_end it list = it.pos == list

unfoldable pub safe_r_advance : SafeRIter → Prog SafeRIter
safe_r_advance it = do q ← load_prev it.prev; ret (record { pos = it.prev; prev = q })

unfoldable pub safe_r_iter_get_head : SafeRIter → Ptr
safe_r_iter_get_head it = it.pos

unfoldable pub safe_r_remove_it : SafeRIter → Prog (Unit {0})
safe_r_remove_it it = remove it.pos
