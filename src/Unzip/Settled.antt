-- ===== src/Unzip/Settled.antt =====
-- When unzipOneSegment may work on a bucket.
use relativistic_hash_table.Base.{
  ℕ, ◌+◌, ◌<◌, ◌≡◌, ◌≢◌, ◌⊎◌, inl, inr, refl, sym, true, false, none, List, [], ◌∷◌, ◌++◌, ◌==◌,
  ◌∈◌, ◌∉◌, arith,
}
use relativistic_hash_table.Memory.{Ptr, null, Mem}
use relativistic_hash_table.Memory.Chain.{first}
use relativistic_hash_table.Memory.Leads.{Unlinked}

-- What a bucket and its two new ones are for each other, at the memory `m0` of the last grace period
-- and at `m`: no reader stands in the old bucket, and nothing that a reader meets has changed since.
pub record Settled (hash : Ptr → ℕ) (fresh nr src : ℕ) (nodes : List Ptr) (c d : ℕ) (m0 m : Mem)
    : Type 0 where
  pub same_hash : m.hash ≡ hash
  pub c_lt : c < nr
  pub d_lt : d < nr
  pub apart : c ≢ d
  pub src_live : src ≢ null
  pub src_out : src ∉ nodes
  pub src_off : (i : ℕ) → i < nr → src ≢ fresh + i
  pub cells_out : (i : ℕ) → i < nr → (fresh + i) ∉ nodes
  pub null_out : null ∉ nodes
  pub null_free : m.next null ≡ none
  pub null_free0 : m0.next null ≡ none
  pub head : Unlinked m.next src
  pub head0 : Unlinked m0.next src
  pub agree : (a : Ptr) → a ∈ ((fresh + c) ∷ (fresh + d) ∷ nodes) → m0.next a ≡ m.next a

pub same_test : (i c d : ℕ) → (i == c) ≡ true → (i == d) ≡ true → c ≡ d
same_test i c d e e' = ground arith

pub false_ne_true : false ≢ true
false_ne_true e = cc e

pub first-append : (xs ys : List Ptr) → first (xs ++ ys) null ≡ first xs (first ys null)
first-append [] ys = refl
first-append (x ∷ xs) ys = refl

pub first-mem :
    (nodes xs : List Ptr)
    → ((a : Ptr) → a ∈ xs → a ∈ nodes)
    → (first xs null ≡ null) ⊎ (first xs null ∈ nodes)
first-mem nodes [] sub = inl refl
first-mem nodes (x ∷ xs) sub = inr (sub x (ground arith))

-- The two new buckets of an old one are on a par.
pub swap-Settled :
    (hash : Ptr → ℕ) (fresh nr src : ℕ) (nodes : List Ptr) (c d : ℕ) (m0 m : Mem)
    → Settled hash fresh nr src nodes c d m0 m
    → Settled hash fresh nr src nodes d c m0 m
swap-Settled hash fresh nr src nodes c d m0 m s = record {
  same_hash = s.same_hash;
  c_lt = s.d_lt;
  d_lt = s.c_lt;
  apart = λ e. s.apart (sym e);
  src_live = s.src_live;
  src_out = s.src_out;
  src_off = s.src_off;
  cells_out = s.cells_out;
  null_out = s.null_out;
  null_free = s.null_free;
  null_free0 = s.null_free0;
  head = s.head;
  head0 = s.head0;
  agree = λ a at. s.agree a (swapped a at);
}
  where
    swapped :
        (a : Ptr)
        → a ∈ ((fresh + d) ∷ (fresh + c) ∷ nodes)
        → a ∈ ((fresh + c) ∷ (fresh + d) ∷ nodes)
    swapped a at = ground (arith, at)
