-- ===== src/Memory/Sessions.antt =====
-- A writer, access by access, against a reader of a table whose walks lie in read-side sessions, and
-- whose sessions the writer's calls of rcuSynchronize wait for.
use relativistic_hash_table.Base.{ℕ, ◌+◌, ◌<◌, ◌≡◌, ◌≢◌, Bool, true, false, Option, none, some}
use relativistic_hash_table.Memory.{
  Ptr, BucketsInfo, Mem, Action, synchronize, Reply, Prog, act, perform,
}
use relativistic_hash_table.Memory.Trace.{is_synchronize}

-- A reader is outside of any session, or inside of one: whether the session is older than the call of
-- rcuSynchronize that the writer is in, and the cell at which the reader stands, if it has come to one.
pub data Session : Type 0 where
  outside : Session
  inside : (old : Bool) (at : Option Ptr) → Session

-- The writer has the rest of its program before it; it may be in a call of rcuSynchronize.
pub data Writer (A : Type 0) : Type 0 where
  running : Prog A → Writer A
  waiting : Prog A → Writer A

-- what a call of rcuSynchronize makes of a session
abbrev pub age : Session → Session
age Session.outside = Session.outside
age (inside old at) = inside true at

-- The writer and the reader take turns, in any order: the one is at `w` and comes to `w'`, the memory
-- is `m` and becomes `m'`, and the reader is at `s` and comes to `s'`. A call of rcuSynchronize
-- returns only when no older session is left. A walk begins at a bucket of the array that the table
-- has.
pub data Races {A : Type 0} (w' : Writer A) (m' : Mem) (s' : Session)
    : Writer A → Mem → Session → Type 0 where
  stops : Races w' m' s' w' m' s'
  writes :
      {a : Action} {k : Reply a → Prog A} {m : Mem} {s : Session} {r : Reply a} {m1 : Mem}
      → is_synchronize a ≡ false
      → perform a m ≡ some (r, m1)
      → Races w' m' s' (running (k r)) m1 s
      → Races w' m' s' (running (act a k)) m s
  calls :
      {k : Unit {0} → Prog A} {m : Mem} {s : Session}
      → Races w' m' s' (waiting (k tt)) m (age s)
      → Races w' m' s' (running (act synchronize k)) m s
  returns :
      {p : Prog A} {m : Mem} {s : Session}
      → ((at : Option Ptr) → s ≢ inside true at)
      → Races w' m' s' (running p) m s
      → Races w' m' s' (waiting p) m s
  locks :
      {w : Writer A} {m : Mem}
      → Races w' m' s' w m (inside false none)
      → Races w' m' s' w m Session.outside
  enters :
      {w : Writer A} {m : Mem} {old : Bool} {at : Option Ptr} (info : BucketsInfo) (i : ℕ)
      → m.buckets_info ≡ some info
      → i < info.nr_buckets_power_of2
      → Races w' m' s' w m (inside old (some (info.buckets + i)))
      → Races w' m' s' w m (inside old at)
  moves :
      {w : Writer A} {m : Mem} {old : Bool} {x y : Ptr}
      → m.next x ≡ some y
      → Races w' m' s' w m (inside old (some y))
      → Races w' m' s' w m (inside old (some x))
  unlocks :
      {w : Writer A} {m : Mem} {old : Bool} {at : Option Ptr}
      → Races w' m' s' w m Session.outside
      → Races w' m' s' w m (inside old at)
