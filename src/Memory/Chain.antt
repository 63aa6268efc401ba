-- ===== src/Memory/Chain.antt =====
-- What a linked list is in memory: a run of cells, each linked to the next one.
use relativistic_hash_table.Base.{
  none, ◌≡◌, refl, ◌∙◌, ◌≢◌, Option, ne_of_mem, some, List, [], ◌∷◌, ◌++◌, arith, ◌==◌, ◌∉◌, ◌∈◌,
  has-append, Bool-cases, inl, inr,
}
use relativistic_hash_table.Memory.{Ptr, null, Links, put}

-- the first cell of `xs`, or where a run with no cells ends
abbrev pub first : List Ptr → Ptr → Ptr
first [] stop = stop
first (x ∷ xs) stop = x

-- The distinct cells of `xs` are linked in this order, and the last one to `stop`.
abbrev pub Chain : Links → Ptr → List Ptr → Type 0
Chain next stop [] = Unit
Chain next stop (x ∷ xs) =
    (x ≢ null) × (next x ≡ some (first xs stop)) × (x ∉ xs) × Chain next stop xs

-- The list with the sentinel `l` holds the nodes `xs`.
abbrev pub IsSlist : Links → Ptr → List Ptr → Type 0
IsSlist next l xs = Chain next null (l ∷ xs)

pub Chain-frame :
    (next next' : Links) (stop : Ptr) (xs : List Ptr)
    → Chain next stop xs
    → ((a : Ptr) → a ∈ xs → next' a ≡ next a)
    → Chain next' stop xs
Chain-frame next next' stop [] c same = tt
Chain-frame next next' stop (x ∷ xs) c same = (
  c.0,
  ground (arith, same x),
  c.2,
  Chain-frame next next' stop xs c.3 λ a i. same a (ground arith),
)

-- A write outside the cells of a run leaves it alone.
pub Chain-put :
    (next : Links) (stop : Ptr) (p q : Ptr) (xs : List Ptr)
    → Chain next stop xs
    → p ∉ xs
    → Chain (put next p (some q)) stop xs
Chain-put next stop p q xs c out = Chain-frame next (put next p (some q)) stop xs c (ground arith)

pub put_other :
    (next : Links) (p : Ptr) (v : Option Ptr) (a : Ptr) → a ≢ p → put next p v a ≡ next a
put_other next p v a ne = ground arith

-- the last cell of the run `x ∷ xs`
abbrev pub last_of : Ptr → List Ptr → Ptr
last_of x [] = x
last_of x (y ∷ ys) = last_of y ys

pub last_of-mem : (x : Ptr) (xs : List Ptr) → last_of x xs ∈ (x ∷ xs)
last_of-mem x [] = ground arith
last_of-mem x (y ∷ ys) = ground (arith, last_of-mem y ys)

-- A write to the last cell of a run moves its end.
pub Chain-put_last :
    (next : Links) (stop : Ptr) (q : Ptr) (x : Ptr) (xs : List Ptr)
    → Chain next stop (x ∷ xs)
    → Chain (put next (last_of x xs) (some q)) q (x ∷ xs)
Chain-put_last next stop q x [] c = (c.0, ground arith, refl, tt)
Chain-put_last next stop q x (y ∷ ys) c = (
  c.0,
  put_other next (last_of y ys) (some q) x (ne_of_mem (y ∷ ys) c.2 (last_of-mem y ys)) ∙ c.1,
  c.2,
  Chain-put_last next stop q y ys c.3,
)

-- The last cell of a run is linked to its end.
pub last_of-stop :
    (next : Links) (stop : Ptr) (x : Ptr) (xs : List Ptr)
    → Chain next stop (x ∷ xs)
    → next (last_of x xs) ≡ some stop
last_of-stop next stop x [] c = c.1
last_of-stop next stop x (y ∷ ys) c = last_of-stop next stop y ys c.3

pub Chain-append :
    (next : Links) (stop : Ptr) (xs ys : List Ptr)
    → Chain next (first ys stop) xs
    → Chain next stop ys
    → ((a : Ptr) → a ∈ xs → a ∉ ys)
    → Chain next stop (xs ++ ys)
Chain-append next stop [] ys c d apart = d
Chain-append next stop (x ∷ []) ys c d apart = (c.0, c.1, apart x (ground arith), d)
Chain-append next stop (x ∷ y ∷ xs) ys c d apart = (
  c.0,
  c.1,
  rw (has-append x (y ∷ xs) ys, c.2) (apart x (ground arith)),
  Chain-append next stop (y ∷ xs) ys c.3 d (λ a i. apart a (ground arith)),
)

-- The two halves of a run.
pub Chain-left :
    (next : Links) (stop : Ptr) (xs ys : List Ptr)
    → Chain next stop (xs ++ ys)
    → Chain next (first ys stop) xs
Chain-left next stop [] ys c = tt
Chain-left next stop (x ∷ []) ys c = (c.0, c.1, refl, tt)
Chain-left next stop (x ∷ y ∷ xs) ys c =
    (c.0, c.1, ground (arith, has-append x (y ∷ xs) ys), Chain-left next stop (y ∷ xs) ys c.3)

pub Chain-right :
    (next : Links) (stop : Ptr) (xs ys : List Ptr) → Chain next stop (xs ++ ys) → Chain next stop ys
Chain-right next stop [] ys c = c
Chain-right next stop (x ∷ xs) ys c = Chain-right next stop xs ys c.3

pub Chain-apart :
    (next : Links) (stop : Ptr) (xs ys : List Ptr)
    → Chain next stop (xs ++ ys)
    → (a : Ptr) → a ∈ xs
    → a ∉ ys
Chain-apart next stop [] ys c a i = absurd (ground arith)
Chain-apart next stop (x ∷ xs) ys c a i = elim (Bool-cases (a == x)) [
  | inl e ↦ ground (arith, has-append x xs ys)
  | inr e ↦ Chain-apart next stop xs ys c.3 a (ground arith)
]

-- A cell of a run is in use.
pub Chain-used :
    (next : Links) (stop : Ptr) (xs : List Ptr) (a : Ptr)
    → Chain next stop xs
    → a ∈ xs
    → next a ≢ none
Chain-used next stop [] a c at = absurd (ground arith)
Chain-used next stop (x ∷ xs) a c at = ground (arith, Chain-used next stop xs a c.3)
