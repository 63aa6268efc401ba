-- ===== src/Dlist/Splice.antt =====
-- rcuDlistInsertAfter and rcuDlistRemove.
use relativistic_hash_table.Base.{◌≡◌, ◌≢◌, some, arith}
use relativistic_hash_table.Memory.{Ptr, Mem, ◌>>◌}
use relativistic_hash_table.Memory.Ensures.{Ensures, returns, loads, stores}
use relativistic_hash_table.Dlist.{prev_of, insert_after, remove}

-- The cells of two heads do not overlap.
abbrev pub Apart : Ptr → Ptr → Type 0
Apart p q = (p ≢ q) × (prev_of p ≢ q) × (p ≢ prev_of q)

-- `p` and `q` are neighbours in a list, which may be the two ends of an empty one.
pub record Neighbours (m : Mem) (p q : Ptr) : Type 0 where
  pub next : m.next p ≡ some q
  pub prev : m.next (prev_of q) ≡ some p
  pub no_overlap : p ≢ prev_of q

-- Inserting a head between two neighbours and removing it again makes them neighbours again, and
-- changes no other cell than those of the head, which still leads on to both of them.
pub insert_after-remove :
    (m : Mem) (p q new a b : Ptr)
    → Neighbours m p q
    → Apart new p
    → Apart new q
    → m.next new ≡ some a
    → m.next (prev_of new) ≡ some b
    → Ensures
        (λ m a m'. Unit {0})
        (λ _ m'.
          Neighbours m' p q
          × (m'.next new ≡ some q)
          × (m'.next (prev_of new) ≡ some p)
          × ((c : Ptr) → c ≢ new → c ≢ prev_of new → m'.next c ≡ m.next c))
        (do insert_after p new; remove new)
        m
unfolding insert_after remove
insert_after-remove m p q new a b n (off, off1, off2) (out, out1, out2) has_next has_prev =
    loads n.next tt (
      stores {o = a} q has_next tt (
        stores {o = b} p (ground arith) tt (
          stores {o = q} new (ground (arith, n.next)) tt (
            stores {o = p} new (ground (arith, n.prev, n.no_overlap)) tt (
              loads {q = p} (ground arith) tt (
                loads {q = q} (ground arith) tt (
                  stores {o = new} q (ground (arith, n.no_overlap)) tt (
                    stores {o = new} p (ground (arith, n.no_overlap)) tt (
                      returns (
                        record {
                          next = ground (arith, n.no_overlap);
                          prev = ground (arith, n.no_overlap);
                          no_overlap = n.no_overlap;
                        },
                        ground arith,
                        ground arith,
                        λ c ne ne1. ground (arith, n.next, n.prev),
                      ))))))))))
