-- ===== src/Unzip/Array.antt =====
-- All buckets of an old array while they are unzipped.
use Prim.Native.Nat.{◌≤◌}
use relativistic_hash_table.Base.{
  ℕ, ◌+◌, ◌<◌, ◌≡◌, ◌≢◌, inl, inr, sym, ◌∙◌, Bool, none, List, ◌∷◌, ◌++◌, ◌∈◌, ◌∉◌, arith,
  has-append, has, Bool-cases, filter, has-filter,
}
use relativistic_hash_table.Memory.{Ptr, null, Mem}
use relativistic_hash_table.Memory.Chain.{Chain-frame}
use relativistic_hash_table.Memory.Leads.{Unlinked}
use relativistic_hash_table.Unzip.{is, Zip, Unzipped, Touches}
use relativistic_hash_table.Unzip.Settled.{Settled, swap-Settled}

-- What a bucket reads is not changed.
module _ (hash : Ptr → ℕ) (mask fresh src : ℕ) (nodes : List Ptr) (c d n : ℕ) (m m' : Mem)
    (keep : (a : Ptr) → a ∈ (src ∷ (fresh + c) ∷ (fresh + d) ∷ nodes) → m'.next a ≡ m.next a) where
  keep_own :
      (xs : List Ptr)
      → ((a : Ptr) → a ∈ xs → a ∈ nodes)
      → (a : Ptr) → a ∈ ((fresh + c) ∷ xs)
      → m'.next a ≡ m.next a
  keep_own xs sub a at = keep a (ground (arith, sub a))

  keep_other :
      (xs : List Ptr)
      → ((a : Ptr) → a ∈ xs → a ∈ nodes)
      → (a : Ptr) → a ∈ ((fresh + d) ∷ xs)
      → m'.next a ≡ m.next a
  keep_other xs sub a at = keep a (ground (arith, sub a))

  kept_src : m'.next src ≡ m.next src
  kept_src = keep src (ground arith)

  pub Zip-frame : Zip hash mask fresh src nodes c d n m → Zip hash mask fresh src nodes c d n m'
  Zip-frame z = record {
    zipper = z.zipper;
    front = z.front;
    passed = z.passed;
    turn = z.turn;
    rest = z.rest;
    at_zipper = kept_src ∙ z.at_zipper;
    list =
        Chain-frame m.next m'.next null ((fresh + c) ∷ z.front ++ z.zipper ∷ z.turn ∷ z.rest) z.list
          (keep_own (z.front ++ z.zipper ∷ z.turn ∷ z.rest) z.in_nodes);
    other =
        Chain-frame m.next m'.next null ((fresh + d) ∷ z.passed ++ z.turn ∷ z.rest) z.other
          (keep_other (z.passed ++ z.turn ∷ z.rest) seen_in);
    own_front = z.own_front;
    own_passed = z.own_passed;
    turns = z.turns;
    two = z.two;
    content = z.content;
    other_content = z.other_content;
    in_nodes = z.in_nodes;
    passed_in_nodes = z.passed_in_nodes;
    enough = z.enough;
  }
    where
      seen_in : (a : Ptr) → a ∈ (z.passed ++ z.turn ∷ z.rest) → a ∈ nodes
      seen_in a at = ground (
        arith,
        has-append a z.passed (z.turn ∷ z.rest),
        z.passed_in_nodes a,
        z.in_nodes a,
        has-append a z.front (z.zipper ∷ z.turn ∷ z.rest),
      )

  pub Unzipped-frame :
      Unzipped hash mask fresh src nodes c d m → Unzipped hash mask fresh src nodes c d m'
  Unzipped-frame u = record {
    at_end = kept_src ∙ u.at_end;
    list =
        Chain-frame m.next m'.next null ((fresh + c) ∷ filter (is hash mask c) nodes) u.list
          (keep_own (filter (is hash mask c) nodes) (mem_of-mem-filter (is hash mask c)));
    other =
        Chain-frame m.next m'.next null ((fresh + d) ∷ filter (is hash mask d) nodes) u.other
          (keep_other (filter (is hash mask d) nodes) (mem_of-mem-filter (is hash mask d)));
  }
    where
      mem_of-mem-filter : (p : Ptr → Bool) (a : Ptr) → a ∈ filter p nodes → a ∈ nodes
      mem_of-mem-filter p a at = ground (arith, has-filter p a nodes)

-- The old array at `base` with `half` buckets, the new one at `fresh` with twice as many, and the nodes
-- of each old bucket take different cells.
pub record Apart (fresh base half : ℕ) (chain : ℕ → List Ptr) : Type 0 where
  pub base_live : base ≢ null
  pub base_out : (i j : ℕ) → i < half → j < half → (base + i) ∉ chain j
  pub base_off : (i j : ℕ) → i < half → j < half + half → (base + i) ≢ fresh + j
  pub cells_out : (i j : ℕ) → i < half + half → j < half → (fresh + i) ∉ chain j
  pub null_out : (j : ℕ) → j < half → null ∉ chain j
  pub own : (i j a : ℕ) → i < half → j < half → a ∈ chain i → a ∈ chain j → i ≡ j

module _ (hash : Ptr → ℕ) (fresh base half : ℕ) (chain : ℕ → List Ptr) where
  -- The buckets from `from` on are as they were at the last grace period, at `m0`.
  pub record Round (from : ℕ) (m0 m : Mem) : Type 0 where
    pub same_hash : m.hash ≡ hash
    pub same_info : m.buckets_info ≡ m0.buckets_info
    pub same_size : m.size ≡ m0.size
    pub null_free : m.next null ≡ none
    pub null_free0 : m0.next null ≡ none
    pub heads : (i : ℕ) → i < half → Unlinked m.next (base + i)
    pub heads0 : (i : ℕ) → i < half → Unlinked m0.next (base + i)
    pub agree :
        (i : ℕ) (a : Ptr)
        → from ≤ i
        → i < half
        → a ∈ ((fresh + i) ∷ (fresh + (i + half)) ∷ chain i)
        → m0.next a ≡ m.next a

  module _ (apart : Apart fresh base half chain) (i : ℕ) (lt : i < half) (m0 m : Mem) where
    -- A bucket that has its turn.
    pub Round-Settled :
        Round i m0 m → Settled hash fresh (half + half) (base + i) (chain i) i (i + half) m0 m
    Round-Settled r = record {
      same_hash = r.same_hash;
      c_lt = omega (arith, lt);
      d_lt = omega (arith, lt);
      apart = λ e. absurd (omega (arith, e, lt));
      src_live = λ e. apart.base_live (omega (arith, e));
      src_out = apart.base_out i i lt lt;
      src_off = λ j. apart.base_off i j lt;
      cells_out = λ j in_array. apart.cells_out j i in_array lt;
      null_out = apart.null_out i lt;
      null_free = r.null_free;
      null_free0 = r.null_free0;
      head = r.heads i lt;
      head0 = r.heads0 i lt;
      agree = λ a. r.agree i a (omega arith) lt;
    }

    pub Round-Settled_other :
        Round i m0 m → Settled hash fresh (half + half) (base + i) (chain i) (i + half) i m0 m
    Round-Settled_other r =
        swap-Settled hash fresh (half + half) (base + i) (chain i) i (i + half) m0 m
          (Round-Settled r)

    -- Work on one bucket leaves the cells of the others.
    module _ (m' : Mem) (t : Touches (base + i) (chain i) m m') where
      pub touches_own :
          (j : ℕ)
          → j < half
          → i ≢ j
          → (a : Ptr) → a ∈ ((base + j) ∷ (fresh + j) ∷ (fresh + (j + half)) ∷ chain j)
          → m'.next a ≡ m.next a
      touches_own j j_lt other a at = t.outside a off out
        where
          off : a ≢ base + i
          off e = absurd (
              ground (
                arith,
                e,
                at,
                other,
                apart.base_off i j lt (omega (arith, j_lt)),
                apart.base_off i (j + half) lt (omega (arith, j_lt)),
                apart.base_out i j lt j_lt,
              ))

          out : a ∉ chain i
          out = elim (Bool-cases (has a (chain i))) [
            | inl here ↦ absurd (
                ground (
                  arith,
                  here,
                  at,
                  other,
                  apart.cells_out j i (omega (arith, j_lt)) lt,
                  apart.cells_out (j + half) i (omega (arith, j_lt)) lt,
                  apart.base_out j i j_lt lt,
                  apart.own i j a lt j_lt here,
                ))
            | inr there ↦ there
          ]

      pub Round-next : Round i m0 m → Round (i + 1) m0 m'
      Round-next r = record {
        same_hash = t.same_hash ∙ r.same_hash;
        same_info = t.same_info ∙ r.same_info;
        same_size = t.same_size ∙ r.same_size;
        null_free =
            t.outside null (λ e. apart.base_live (omega (arith, e))) (apart.null_out i lt)
            ∙ r.null_free;
        null_free0 = r.null_free0;
        heads = λ j j_lt.
            t.unlinked (base + j) (λ e. apart.base_live (omega (arith, e)))
              (apart.base_out j i j_lt lt) (r.heads j j_lt);
        heads0 = r.heads0;
        agree = λ j a le j_lt at.
            r.agree j a (omega (arith, le)) j_lt at
            ∙ sym (touches_own j j_lt (λ e. absurd (omega (arith, e, le))) a (ground (arith, at)));
      }

    pub Round-skip : Round i m0 m → Round (i + 1) m0 m
    Round-skip r = record {
      same_hash = r.same_hash;
      same_info = r.same_info;
      same_size = r.same_size;
      null_free = r.null_free;
      null_free0 = r.null_free0;
      heads = r.heads;
      heads0 = r.heads0;
      agree = λ j a le. r.agree j a (omega (arith, le));
    }
