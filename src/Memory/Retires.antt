-- ===== src/Memory/Retires.antt =====
-- Programs that take cells out of a table and wait for the readers before they give them away.
use relativistic_hash_table.Base.{ℕ, ◌+◌, ◌<◌, ◌≡◌, ◌∙◌, false, some}
use relativistic_hash_table.Memory.{
  Ptr, BucketsInfo, Mem, Action, synchronize, Reply, Prog, ret, act, bind, perform,
}
use relativistic_hash_table.Memory.Ensures.{Ensures, does}
use relativistic_hash_table.Memory.Trace.{is_synchronize}

-- Following the links from a bucket of the table, a reader comes to the cell.
pub data Reached (m : Mem) : Ptr → Type 0 where
  bucket :
      {info : BucketsInfo} {i : ℕ}
      → m.buckets_info ≡ some info
      → i < info.nr_buckets_power_of2
      → Reached m (info.buckets + i)
  link : {x y : Ptr} → Reached m x → m.next x ≡ some y → Reached m y

-- Nothing that is reached changes its link.
pub Reached-frame :
    {m m' : Mem} {x : Ptr}
    → m'.buckets_info ≡ m.buckets_info
    → ((y : Ptr) → Reached m y → m'.next y ≡ m.next y)
    → Reached m x
    → Reached m' x
Reached-frame info same (bucket e lt) = bucket (info ∙ e) lt
Reached-frame info same (link r e) = link (Reached-frame info same r) (same _ r ∙ e)

-- From `m` the program ends, without another call of rcuSynchronize, in a result and a memory that
-- satisfy `Q`, and no access takes from readers what they reach.
pub data Settles {A : Type 0} (Q : A → Mem → Type 0) : Prog A → Mem → Type 0 where
  ends : {a : A} {m : Mem} → Q a m → Settles Q (ret a) m
  goes :
      {a : Action} {k : Reply a → Prog A} {m : Mem} {r : Reply a} {m' : Mem}
      → is_synchronize a ≡ false
      → perform a m ≡ some (r, m')
      → ((x : Ptr) → Reached m x → Reached m' x)
      → Settles Q (k r) m'
      → Settles Q (act a k) m

-- From `m` the program ends in a result and a memory that satisfy `E`, or else calls rcuSynchronize
-- and settles behind that call as `L` says.
pub data Retires {A : Type 0} (E L : A → Mem → Type 0) : Prog A → Mem → Type 0 where
  gives_up : {a : A} {m : Mem} → E a m → Retires E L (ret a) m
  first :
      {a : Action} {k : Reply a → Prog A} {m : Mem} {r : Reply a} {m' : Mem}
      → perform a m ≡ some (r, m')
      → Retires E L (k r) m'
      → Retires E L (act a k) m
  last : {k : Unit {0} → Prog A} {m : Mem} → Settles L (k tt) m → Retires E L (act synchronize k) m

module _ {A B : Type 0} {L : A → Mem → Type 0} where
  pub bind-Settles :
      {P : B → Mem → Type 0} {p : Prog B} {k : B → Prog A} {m : Mem}
      → Settles P p m
      → ((b : B) (m' : Mem) → P b m' → Settles L (k b) m')
      → Settles L (bind p k) m
  bind-Settles (ends h) after = after _ _ h
  bind-Settles (goes other e keeps rest) after = goes other e keeps (bind-Settles rest after)

module _ {A B : Type 0} {E L : A → Mem → Type 0} where
  -- A part that may end before or behind the last call.
  pub bind-Retires :
      {F M : B → Mem → Type 0} {p : Prog B} {k : B → Prog A} {m : Mem}
      → Retires F M p m
      → ((b : B) (m' : Mem) → F b m' → Retires E L (k b) m')
      → ((b : B) (m' : Mem) → M b m' → Settles L (k b) m')
      → Retires E L (bind p k) m
  bind-Retires (gives_up h) early late = early _ _ h
  bind-Retires (first e rest) early late = first e (bind-Retires rest early late)
  bind-Retires (last rest) early late = last (bind-Settles rest late)

  -- A part that lies before the last call.
  pub ensures_first :
      {G : Mem → Action → Mem → Type 0} {P : B → Mem → Type 0} {p : Prog B} {k : B → Prog A}
      {m : Mem}
      → Ensures G P p m
      → ((b : B) (m' : Mem) → P b m' → Retires E L (k b) m')
      → Retires E L (bind p k) m
  ensures_first (Ensures.returns h) after = after _ _ h
  ensures_first (does e g rest) after = first e (ensures_first rest after)

module _ {A : Type 0} {L M : A → Mem → Type 0} (late : (a : A) (m' : Mem) → L a m' → M a m') where
  weaken-Settles : {p : Prog A} {m : Mem} → Settles L p m → Settles M p m
  weaken-Settles (ends h) = ends (late _ _ h)
  weaken-Settles (goes other e keeps rest) = goes other e keeps (weaken-Settles rest)

  pub weaken-Retires :
      {E F : A → Mem → Type 0} {p : Prog A} {m : Mem}
      → ((a : A) (m' : Mem) → E a m' → F a m')
      → Retires E L p m
      → Retires F M p m
  weaken-Retires early (gives_up h) = gives_up (early _ _ h)
  weaken-Retires early (first e rest) = first e (weaken-Retires early rest)
  weaken-Retires early (last rest) = last (weaken-Settles rest)
