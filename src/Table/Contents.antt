-- ===== src/Table/Contents.antt =====
-- A table as the set of its nodes, and rTableCoreTryInsert as the insertion into that set.
use relativistic_hash_table.Base.{
  ℕ, suc, ◌+◌, ◌%◌, ◌^◌, ◌≤◌, ◌<◌, ◌≡◌, ◌≢◌, inl, inr, refl, sym, ap, ◌∙◌, Bool, true, false, not,
  ◌&&◌, ◌||◌, none, List, [], ◌∷◌, ◌==◌, ◌∈◌, arith, subst, Bool-cases, ==→eq, ==-refl, has, any,
  length, has-filter,
}
use relativistic_hash_table.Memory.{Ptr, null, Mem, put}
use relativistic_hash_table.Memory.Ensures.{rehash}
use relativistic_hash_table.Memory.Watched.{Watched, weaken-Watched}
use relativistic_hash_table.Memory.Leads.{Unlinked}
use relativistic_hash_table.Buckets.Setup.{IsUnused}
use relativistic_hash_table.Resize.{Load}
use relativistic_hash_table.Table.{try_insert}
use relativistic_hash_table.Table.Shape.{IsTable, index-lt}
use relativistic_hash_table.Table.Insert.{IsFree, prepended, inserted-IsTable, rehash-IsTable}
use relativistic_hash_table.Table.Halving.{mod_double}
use relativistic_hash_table.Table.Halved.{halved}
use relativistic_hash_table.Table.TryInsert.{Inserts, MaybeGrown, try_insert-MaybeGrown}

-- The lists of a table hold exactly the nodes of `nodes`, each in the bucket of its hash.
abbrev pub Holds : (nodes : Ptr → Bool) (hash : Ptr → ℕ) (k : ℕ) (chain : ℕ → List Ptr) → Type 0
Holds nodes hash k chain = (x : Ptr) → nodes x ≡ has x (chain (hash x % 2 ^ k))

-- A memory whose table holds the nodes of `nodes`, of whatever size and wherever its array is.
pub record Represents (nodes : Ptr → Bool) (m : Mem) : Type 0 where
  pub count : ℕ
  pub array_at : Ptr
  pub chain : ℕ → List Ptr
  pub table : IsTable m count array_at chain
  pub holds : Holds nodes m.hash count chain

-- The insertion into a set of nodes: the new node is added if the predicate matches no node of the set
-- with it.
pub data Insertion (predict : Ptr → Ptr → Bool) (new : Ptr) (nodes : Ptr → Bool)
    : Bool → (Ptr → Bool) → Type 0 where
  adds :
      ((x : Ptr) → nodes x ≡ true → predict x new ≡ false)
      → Insertion predict new nodes true (λ x. nodes x || (x == new))
  refuses :
      (x : Ptr) → nodes x ≡ true → predict x new ≡ true → Insertion predict new nodes false nodes

any-mem : (p : ℕ → Bool) (xs : List ℕ) → any p xs ≡ true → (x : ℕ) × (x ∈ xs) × (p x ≡ true)
any-mem p [] e = absurd (ground arith)
any-mem p (y ∷ ys) e = elim (Bool-cases (p y)) [
  | inl here ↦ (y, ground arith, here)
  | inr later ↦
      let (x, at, accepted) = any-mem p ys (ground (arith, e, later)) in
      (x, ground (arith, at), accepted)
]

any-false : (p : ℕ → Bool) (xs : List ℕ) (x : ℕ) → any p xs ≡ false → x ∈ xs → p x ≡ false
any-false p [] x e at = absurd (ground arith)
any-false p (y ∷ ys) x e at = ground (arith, any-false p ys x)

halved-Holds :
    (nodes : Ptr → Bool) (hash : Ptr → ℕ) (k : ℕ) (chain : ℕ → List Ptr)
    → Holds nodes hash k chain
    → Holds nodes hash (suc k) (halved k hash chain)
halved-Holds nodes hash k chain holds x =
    holds x
    ∙ ap (λ i. has x (chain i)) (sym (mod_double k (hash x)))
    ∙ sym (
        has-filter (λ y. hash y % 2 ^ suc k == hash x % 2 ^ suc k) x
          (chain (hash x % 2 ^ suc k % 2 ^ k))
        ∙ rw (==-refl (hash x % 2 ^ suc k)) (whole (has x (chain (hash x % 2 ^ suc k % 2 ^ k)))))
  where
    whole : (b : Bool) → (b && true) ≡ b
    whole b = ground arith

module _ (nodes : Ptr → Bool) (k : ℕ) (base : Ptr) (chain : ℕ → List Ptr) (new : Ptr) (h : ℕ)
    (m : Mem) (t : IsTable m k base chain) (free : IsFree m k base chain new)
    (holds : Holds nodes m.hash k chain) where
  out : (x : Ptr) → (x == new) ≡ true → (i : ℕ) → i < 2 ^ k → has x (chain i) ≡ false
  out x e i lt = ap (λ y. has y (chain i)) (==→eq x new e) ∙ free.is_outside i lt

  rehash-Holds : Holds nodes (put m.hash new h) k chain
  rehash-Holds x = elim (Bool-cases (x == new)) [
    | inl here ↦ rw here (
        holds x
        ∙ out x here (m.hash x % 2 ^ k) (index-lt k (m.hash x))
        ∙ sym (out x here (h % 2 ^ k) (index-lt k h)))
    | inr other ↦ rw other (holds x)
  ]

  inserted-Holds :
      Holds (λ x. nodes x || (x == new)) (put m.hash new h) k (prepended k base chain new h)
  inserted-Holds x = elim (Bool-cases (x == new)) [
    | inl here ↦ rw here (ground (arith, here))
    | inr other ↦ rw other (ground (arith, other, holds x))
  ]

  -- A node that the predicate may ask about is in the bucket that is searched.
  searched : (x : Ptr) → m.hash x % 2 ^ k ≡ h % 2 ^ k → nodes x ≡ has x (chain (h % 2 ^ k))
  searched x e = holds x ∙ ap (λ i. has x (chain i)) e

-- What an insertion into a table that holds `nodes` leaves.
abbrev pub Refined :
    (Ptr → Ptr → Bool) → (new : Ptr) (h : ℕ) → Mem → (Ptr → Bool) → Bool → Mem → Type 0
Refined predict new h m nodes inserted m' =
    (nodes' : Ptr → Bool) × Insertion predict new nodes inserted nodes'
    × Represents nodes' m'
    × (m'.hash ≡ put m.hash new h)

module _ (load : Load) (predict : Ptr → Ptr → Bool) (fuel k : ℕ) (base fresh : Ptr)
    (chain : ℕ → List Ptr) (new : Ptr) (h : ℕ) (m0 m : Mem) (nodes : Ptr → Bool)
    (t : IsTable m k base chain) (holds : Holds nodes m.hash k chain)
    (free : IsFree m k base chain new)
    (hashed : (x : Ptr) → nodes x ≡ true → predict x new ≡ true → m.hash x ≡ h) where
  abbrev matched : Bool
  matched = any (λ x. predict x new) (chain (h % 2 ^ k))

  no_match : matched ≡ false → (x : Ptr) → nodes x ≡ true → predict x new ≡ false
  no_match e x at = elim (Bool-cases (predict x new)) [
    | inr other ↦ other
    | inl accepted ↦ absurd (
        ground (
          arith,
          accepted,
          at,
          any-false (λ x. predict x new) (chain (h % 2 ^ k)) x e,
          searched nodes k base chain new h m t free holds x
              (ap (λ n. n % 2 ^ k) (hashed x at accepted)),
        ))
  ]

  match : matched ≡ true → Insertion predict new nodes false nodes
  match e =
      let (x, at, accepted) = any-mem (λ x. predict x new) (chain (h % 2 ^ k)) e in
      refuses x
        (searched nodes k base chain new h m t free holds x
            (t.hashed (h % 2 ^ k) x (index-lt k h) at)
          ∙ at)
        accepted

  refined :
      (b : Bool) (m' : Mem)
      → matched ≡ b
      → MaybeGrown k base fresh chain new h m b m'
      → Refined predict new h m nodes (not b) m'
  refined true m' e is = subst (Refined predict new h m nodes false) (sym is) (
    nodes,
    match e,
    record {
      count = k;
      array_at = base;
      chain = chain;
      table = rehash-IsTable k base chain new h m t free;
      holds = rehash-Holds nodes k base chain new h m t free holds;
    },
    refl,
  )
  refined false m' e (inl is) = subst (Refined predict new h m nodes true) (sym is) (
    (λ x. nodes x || (x == new)),
    adds (no_match e),
    record {
      count = k;
      array_at = base;
      chain = prepended k base chain new h;
      table = inserted-IsTable k base chain new h m t free;
      holds = inserted-Holds nodes k base chain new h m t free holds;
    },
    refl,
  )
  refined false m' e (inr g) = (
    (λ x. nodes x || (x == new)),
    adds (no_match e),
    record {
      count = suc k;
      array_at = fresh;
      chain = halved k (put m.hash new h) (prepended k base chain new h);
      table = g.table;
      holds =
          subst
            (λ hash.
              Holds (λ x. nodes x || (x == new)) hash (suc k)
                (halved k (put m.hash new h) (prepended k base chain new h)))
            (sym g.same_hash)
            (halved-Holds (λ x. nodes x || (x == new)) (put m.hash new h) k
              (prepended k base chain new h)
              (inserted-Holds nodes k base chain new h m t free holds));
    },
    g.same_hash,
  )

  -- Let the table of `2 ^ k` buckets, `k` at most 29, hold the nodes of the set `nodes`, and let the
  -- predicate match the new node only with nodes of its hash. Given that the new node is free, that
  -- no cell is linked to a bucket, an unused array for twice as many buckets, no cell at null, and at
  -- least two more rounds than each bucket has nodes, `try_insert` ends without a fault and is the
  -- insertion into that set: it returns whether it added the node, and whether the array was doubled
  -- or not, the table then represents the set with the node or, if some node of the set matches, the
  -- set as it was. No hash but that of the new node changes.
  pub try_insert-Insertion :
      suc k ≤ 30
      → IsUnused m fresh (2 ^ suc k)
      → fresh ≢ null
      → m.next null ≡ none
      → ((i : ℕ) → i < 2 ^ k → Unlinked m.next (base + i))
      → ((i : ℕ) → i < 2 ^ k → length (chain i) + 1 < fuel)
      → Watched
          (Inserts new (rehash m new h).hash k base fresh)
          (λ inserted m0' m'. Refined predict new h m nodes inserted m')
          (try_insert load predict fuel fresh new h)
          m0
          m
  try_insert-Insertion fits unused live null_free heads enough =
      weaken-Watched (λ m0 m a m' g. g)
        (λ inserted m0' m' (at, left).
          subst (λ b. Refined predict new h m nodes b m') (sym at) (refined matched m' refl left))
        (try_insert-MaybeGrown load predict fuel k base fresh chain new h m0 m t free fits unused
          live null_free heads enough)
