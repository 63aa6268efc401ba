-- ===== src/Memory.antt =====
-- The memory that the library works on, and programs over it.
--
-- An address is a number and `null` is 0. `next` holds the atomic pointer of each RcuSlistHead that
-- is allocated, at the address of that head; `hash` holds the `hash` member of each RNode, at the
-- address of its `head` member, so that YJ_CONTAINER_OF is the identity. Code is a tree of atomic
-- actions: a run executes them one after another, and an interleaving may stop between any two.
pub mod Ensures
pub mod Chain
pub mod Leads
pub mod Trace
pub mod Watched
pub mod Faults
pub mod Reach
pub mod Edit
pub mod Sessions
pub mod Retires
pub mod Retired
use relativistic_hash_table.Base.{
  ℕ, ◌+◌, ◌%◌, ◌^◌, Bool, ◌&&◌, Option, none, some, ◌==◌, ltb, leb, if◌then◌else◌,
}

abbrev pub Ptr : Type 0
Ptr = ℕ

abbrev pub null : Ptr
null = 0

-- struct RTableCore::BucketsInfo; the bucket `i` stands at the address `buckets + i`.
pub record BucketsInfo : Type 0 where
  pub nr_buckets_power_of2 : ℕ
  pub buckets : Ptr

abbrev pub Links : Type 0
Links = Ptr → Option Ptr

-- `buckets_info` and `size` are the atomic members of the one RTableCore.
pub record Mem : Type 0 where
  pub next : Links
  pub hash : Ptr → ℕ
  pub buckets_info : Option BucketsInfo
  pub size : ℕ

abbrev pub put {ℓ} : {A : Type ℓ} → (Ptr → A) → Ptr → A → Ptr → A
put f p v a = if a == p then v else f a

-- One atomic access, or one call whose effect on the memory is atomic here. `load_info` loads
-- `pBucketsInfo` and reads through it, `peek_info` only loads it. `allocate` gives out the `count`
-- buckets from `base` on, as a `malloc` that returned `base` does, and `release` is the `free` of
-- them, a fault where nothing is allocated at `base`. The `hash` of a node that is null or dangling
-- cannot be accessed. `synchronize` is a call
-- of rcuSynchronize: it leaves the memory alone, and readers from before it have gone after it.
pub data Action : Type 0 where
  load : Ptr → Action
  store : (at to : Ptr) → Action
  get_hash : Ptr → Action
  set_hash : Ptr → ℕ → Action
  load_info : Action
  peek_info : Action
  store_info : BucketsInfo → Action
  load_size : Action
  add_size : ℕ → Action
  allocate : (base count : ℕ) → Action
  release : (base count : ℕ) → Action
  synchronize : Action

abbrev pub Reply : Action → Type 0
Reply (load p) = Ptr
Reply (get_hash p) = ℕ
Reply load_info = BucketsInfo
Reply peek_info = Option BucketsInfo
Reply load_size = ℕ
Reply _ = Unit

-- `fault` is undefined behaviour: a null or dangling pointer, or an assertion that fails.
pub data Prog (A : Type 0) : Type 0 where
  ret : A → Prog A
  act : (a : Action) → (Reply a → Prog A) → Prog A
  fault : Prog A
  out_of_fuel : Prog A

-- The addresses of the `count` buckets from `base` on.
abbrev pub within : (base count : ℕ) → Ptr → Bool
within base count a = leb base a && ltb a (base + count)

-- The effect of an access; `none` is a fault.
unfoldable pub perform : (a : Action) → Mem → Option (Reply a × Mem)
perform (load p) m = elim (m.next p) [ none ↦ none | some q ↦ some (q, m) ]
perform (store p q) m = elim (m.next p) [
  | none ↦ none
  | some _ ↦ some (tt, record m { next = put m.next p (some q) })
]
perform (get_hash p) m = elim (m.next p) [ none ↦ none | some _ ↦ some (m.hash p, m) ]
perform (set_hash p v) m = elim (m.next p) [
  | none ↦ none
  | some _ ↦ some (tt, record m { hash = put m.hash p v })
]
perform load_info m = elim m.buckets_info [ none ↦ none | some i ↦ some (i, m) ]
perform peek_info m = some (m.buckets_info, m)
perform (store_info i) m = some (tt, record m { buckets_info = some i })
perform load_size m = some (m.size, m)
perform (add_size n) m = some (tt, record m { size = (m.size + n) % 2 ^ 64 })
perform (allocate base count) m =
    if base == null
    then none
    else some (tt, record m { next = λ a. if within base count a then some null else m.next a })
perform (release base count) m = elim (m.next base) [
  | none ↦ none
  | some _ ↦ some (tt, record m { next = λ a. if within base count a then none else m.next a })
]
perform synchronize m = some (tt, m)

module _ {A B : Type 0} where
  abbrev pub bind : Prog A → (A → Prog B) → Prog B
  bind (ret a) k = k a
  bind (act a f) k = act a (λ r. bind (f r) k)
  bind fault k = fault
  bind out_of_fuel k = out_of_fuel

  infixl 5 ◌>>=◌ ◌>>◌
  abbrev pub ◌>>=◌ : Prog A → (A → Prog B) → Prog B
  m >>= k = bind m k

  abbrev pub ◌>>◌ : Prog A → Prog B → Prog B
  m >> n = bind m (λ _. n)

-- The single accesses as programs.
abbrev pub load_next : Ptr → Prog Ptr
load_next p = act (load p) ret

abbrev pub store_next : Ptr → Ptr → Prog (Unit {0})
store_next p q = act (store p q) ret

-- A run with no other thread in between.
pub data Outcome (A : Type 0) : Type 0 where
  finished : A → Mem → Outcome A
  faulted : Outcome A
  unfinished : Outcome A

unfoldable pub run : {A : Type 0} → Prog A → Mem → Outcome A
run (ret a) m = finished a m
run (act a k) m = elim (perform a m) [ none ↦ faulted | some (r, m') ↦ run (k r) m' ]
run fault m = faulted
run out_of_fuel m = unfinished
