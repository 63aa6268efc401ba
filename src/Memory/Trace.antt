-- ===== src/Memory/Trace.antt =====
-- The accesses of a run, in their order, and whether a grace period ends them.
use mathlib.Core.Bool.{or_assoc}
use relativistic_hash_table.Base.{
  ℕ, ◌≡◌, ◌≢◌, refl, ap, Bool, true, false, not, ◌||◌, ◌&&◌, none, some, List, [], ◌∷◌, ◌++◌, arith,
  Option-cases, inl, inr,
}
use relativistic_hash_table.Memory.{
  Mem, Action, store, store_info, release, synchronize, Prog, ret, act, fault, out_of_fuel, perform,
  bind, Outcome, finished, faulted, unfinished, run,
}

unfoldable pub trace : {A : Type 0} → Prog A → Mem → List Action
trace (ret a) m = []
trace (act a k) m = elim (perform a m) [ none ↦ a ∷ [] | some (r, m') ↦ a ∷ trace (k r) m' ]
trace fault m = []
trace out_of_fuel m = []

-- An access that changes a link, or which array is that of the table.
abbrev pub is_link : Action → Bool
is_link (store p q) = true
is_link (store_info i) = true
is_link _ = false

abbrev pub is_synchronize : Action → Bool
is_synchronize synchronize = true
is_synchronize _ = false

abbrev pub has_link : List Action → Bool
has_link [] = false
has_link (a ∷ xs) = is_link a || has_link xs

-- A grace period begins and ends behind the last change of a link.
abbrev pub settled : List Action → Bool
settled [] = false
settled (a ∷ xs) = settled xs || (is_synchronize a && not (has_link xs))

has_link-append : (xs ys : List Action) → has_link (xs ++ ys) ≡ (has_link xs || has_link ys)
has_link-append [] ys = refl
has_link-append (a ∷ xs) ys = rw (has_link-append xs ys, or_assoc)

pub settled_behind : (xs ys : List Action) → settled ys ≡ true → settled (xs ++ ys) ≡ true
settled_behind [] ys e = e
settled_behind (a ∷ xs) ys e = rw (settled_behind xs ys e) refl

pub settled_before :
    (xs ys : List Action) → settled xs ≡ true → has_link ys ≡ false → settled (xs ++ ys) ≡ true
settled_before [] ys e quiet = ground arith
settled_before (a ∷ xs) ys e quiet = ground (arith, settled_before xs ys, has_link-append xs ys)

fault-not_finished : {A : Type 0} {a : A} {m : Mem} → faulted ≢ finished a m
fault-not_finished e = cc e

stop-not_finished : {A : Type 0} {a : A} {m : Mem} → unfinished ≢ finished a m
stop-not_finished e = cc e

-- A finished run of a sequence is two finished runs, and its accesses are theirs.
pub run-bind :
    {A B : Type 0} (p : Prog A) (k : A → Prog B) (m : Mem) (b : B) (m'' : Mem)
    → run (bind p k) m ≡ finished b m''
    → (a : A) × (m' : Mem) × (run p m ≡ finished a m')
      × (run (k a) m' ≡ finished b m'')
      × (trace (bind p k) m ≡ trace p m ++ trace (k a) m')
unfolding run trace
run-bind (ret a) k m b m'' e = (a, m, refl, e, refl)
run-bind (act x f) k m b m'' e = elim (Option-cases (perform x m)) [
  | inl stuck ↦ absurd (fault-not_finished (rw (stuck, run) at e))
  | inr ((r, m1), is) ↦
      let (a, m', first, second, both) = run-bind (f r) k m1 b m'' (rw (is, run) at e) in
      rw (is, run, trace) (a, m', first, second, ap (λ xs. x ∷ xs) both)
]
run-bind fault k m b m'' e = absurd (fault-not_finished e)
run-bind out_of_fuel k m b m'' e = absurd (stop-not_finished e)

result : {A : Type 0} → A → Outcome A → A
result d (finished a m) = a
result d _ = d

pub finished-injective : {A : Type 0} {a b : A} {m m' : Mem} → finished a m ≡ finished b m' → a ≡ b
unfolding result
finished-injective {a = a} e = ap (result a) e

pub run-ret : {A : Type 0} {a b : A} (m : Mem) {m' : Mem} → run (ret a) m ≡ finished b m' → a ≡ b
unfolding run
run-ret m e = finished-injective e

pub synchronize-settled :
    {A : Type 0} (a : A) (m : Mem) → settled (trace (act synchronize (λ _. ret a)) m) ≡ true
unfolding trace perform
synchronize-settled a m = refl

-- A run whose last part ends in a grace period does so.
pub bind-settled :
    {A B : Type 0} (p : Prog A) (k : A → Prog B) (m : Mem) (b : B) (m'' : Mem)
    → run (bind p k) m ≡ finished b m''
    → ((a : A) (m' : Mem) → run (k a) m' ≡ finished b m'' → settled (trace (k a) m') ≡ true)
    → settled (trace (bind p k) m) ≡ true
bind-settled p k m b m'' e last =
    let (a, m', first, second, both) = run-bind p k m b m'' e in
    rw both (settled_behind (trace p m) (trace (k a) m') (last a m' second))

-- So does one whose first part does so, with a last part that changes no link.
pub bind-settled_before :
    {A B : Type 0} (p : Prog A) (k : A → Prog B) (m : Mem) (b : B) (m'' : Mem)
    → run (bind p k) m ≡ finished b m''
    → ((a : A) (m' : Mem)
        → run p m ≡ finished a m'
        → run (k a) m' ≡ finished b m''
        → (settled (trace p m) ≡ true) × (has_link (trace (k a) m') ≡ false))
    → settled (trace (bind p k) m) ≡ true
bind-settled_before p k m b m'' e parts =
    let (a, m', first, second, both) = run-bind p k m b m'' e in
    let (early, quiet) = parts a m' first second in
    rw both (settled_before (trace p m) (trace (k a) m') early quiet)

pub ret-quiet : {A : Type 0} (a : A) (m : Mem) → has_link (trace (ret a) m) ≡ false
unfolding trace
ret-quiet a m = refl

pub release-quiet :
    {A : Type 0} (base n : ℕ) (a : A) (m : Mem)
    → has_link (trace (act (release base n) (λ _. ret a)) m) ≡ false
unfolding trace perform
release-quiet base n a m = elim (Option-cases (m.next base)) [
  | inl e ↦ rw (e, has_link) refl
  | inr (q, e) ↦ rw (e, has_link) refl
]
