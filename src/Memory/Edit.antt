-- ===== src/Memory/Edit.antt =====
-- Linking a cell into a run and out of it, at any place, and runs read backwards.
use mathlib.Core.List.{reverse, reverse-cons}
use relativistic_hash_table.Base.{
  ◌≡◌, ◌≢◌, refl, ◌∙◌, ap, some, List, [], ◌∷◌, ◌++◌, arith, ◌∈◌, ◌∉◌, has, has-append, ne_of_mem,
}
use relativistic_hash_table.Memory.{Ptr, null, Links}
use relativistic_hash_table.Memory.Chain.{first, Chain, Chain-frame, last_of, last_of-mem}

off_last : (x y : Ptr) (front back : List Ptr) → x ∉ (y ∷ (front ++ back)) → x ≢ last_of y front
off_last x y front back out =
    ne_of_mem (y ∷ front) (ground (arith, has-append x front back)) (last_of-mem y front)

-- The links of a run with the cell `new` put in behind `x ∷ front`.
pub Chain-insert :
    (f f' : Links) (stop x : Ptr) (front back : List Ptr) (new : Ptr)
    → Chain f stop (x ∷ (front ++ back))
    → new ≢ null
    → new ∉ (x ∷ (front ++ back))
    → f' new ≡ some (first back stop)
    → f' (last_of x front) ≡ some new
    → ((a : Ptr) → a ∈ (x ∷ (front ++ back)) → a ≢ last_of x front → f' a ≡ f a)
    → Chain f' stop (x ∷ (front ++ (new ∷ back)))
Chain-insert f f' stop x [] back new c live out behind before same = (
  c.0,
  before,
  ground (arith, c.2, out),
  (
    live,
    behind,
    ground (arith, out),
    Chain-frame f f' stop back c.3 λ a at. same a (ground (arith, at)) (ground (arith, c.2, at)),
  ),
)
Chain-insert f f' stop x (y ∷ front) back new c live out behind before same = (
  c.0,
  same x (ground arith) (off_last x y front back c.2) ∙ c.1,
  ground (arith, c.2, out, has-append x front (new ∷ back), has-append x front back),
  Chain-insert f f' stop y front back new c.3 live (ground (arith, out)) behind before
      λ a at ne. same a (ground (arith, at)) ne,
)

-- The links of a run with the cell `gone` behind `x ∷ front` taken out.
pub Chain-delete :
    (f f' : Links) (stop x : Ptr) (front back : List Ptr) (gone : Ptr)
    → Chain f stop (x ∷ (front ++ (gone ∷ back)))
    → f' (last_of x front) ≡ some (first back stop)
    → ((a : Ptr) → a ∈ (x ∷ (front ++ back)) → a ≢ last_of x front → f' a ≡ f a)
    → Chain f' stop (x ∷ (front ++ back))
Chain-delete f f' stop x [] back gone c before same = (
  c.0,
  before,
  ground (arith, c.2),
  Chain-frame f f' stop back c.3.3 λ a at. same a (ground (arith, at)) (ground (arith, c.2, at)),
)
Chain-delete f f' stop x (y ∷ front) back gone c before same = (
  c.0,
  same x (ground arith) (off_last x y front (gone ∷ back) c.2) ∙ c.1,
  ground (arith, c.2, has-append x front (gone ∷ back), has-append x front back),
  Chain-delete f f' stop y front back gone c.3 before λ a at ne. same a (ground (arith, at)) ne,
)

pub has-reverse : (a : Ptr) (xs : List Ptr) → has a (reverse xs) ≡ has a xs
has-reverse a [] = refl
has-reverse a (x ∷ xs) =
    rw (reverse-cons x xs, has-append a (reverse xs) (x ∷ [])) (ground (arith, has-reverse a xs))

first-snoc : (xs : List Ptr) (x stop : Ptr) → first (xs ++ (x ∷ [])) stop ≡ first xs x
first-snoc [] x stop = refl
first-snoc (y ∷ xs) x stop = refl

pub last_of-snoc : (l x : Ptr) (xs : List Ptr) → last_of l (xs ++ (x ∷ [])) ≡ x
last_of-snoc l x [] = refl
last_of-snoc l x (y ∷ xs) = last_of-snoc y x xs

pub first-reverse : (l : Ptr) (xs : List Ptr) → first (reverse xs) l ≡ last_of l xs
first-reverse l [] = refl
first-reverse l (x ∷ xs) =
    ap (λ ys. first ys l) (reverse-cons x xs) ∙ first-snoc (reverse xs) x l ∙ first-reverse x xs

pub last_of-reverse : (l : Ptr) (xs : List Ptr) → last_of l (reverse xs) ≡ first xs l
last_of-reverse l [] = refl
last_of-reverse l (x ∷ xs) = ap (last_of l) (reverse-cons x xs) ∙ last_of-snoc l x (reverse xs)
