-- ===== src/Memory/Retired.antt =====
-- Where the readers of a table are when a program that retires cells has ended.
use relativistic_hash_table.Base.{
  ◌≡◌, ◌≢◌, refl, sym, ◌∙◌, true, false, Option, none, some, ◌⊎◌, inl, inr, subst,
}
use relativistic_hash_table.Memory.{Ptr, Mem, Action, synchronize, Reply, Prog, ret, act, perform}
use relativistic_hash_table.Memory.Trace.{is_synchronize}
use relativistic_hash_table.Memory.Retires.{
  Reached, bucket, link, Settles, ends, goes, Retires, gives_up, first, last,
}
use relativistic_hash_table.Memory.Sessions.{
  Session, inside, age, Writer, running, waiting, Races, stops, writes, calls, locks, enters, moves,
  unlocks,
}

-- The reader is at no cell, or at one that is reached from the table.
abbrev pub Stands : Mem → Session → Type 0
Stands m (inside old (some x)) = Reached m x
Stands m _ = Unit

-- The same of a reader whose session is not older than the call of rcuSynchronize.
abbrev StandsNow : Mem → Session → Type 0
StandsNow m (inside true at) = Unit
StandsNow m s = Stands m s

-- An access that keeps what is reached lets the reader stand.
Stands-keeps :
    {m m' : Mem} (s : Session) → ((x : Ptr) → Reached m x → Reached m' x) → Stands m s → Stands m' s
Stands-keeps Session.outside keeps st = tt
Stands-keeps (inside old none) keeps st = tt
Stands-keeps (inside old (some x)) keeps st = keeps x st

StandsNow-age : (m : Mem) (s : Session) → StandsNow m (age s)
StandsNow-age m Session.outside = tt
StandsNow-age m (inside old at) = tt

-- When the call returns, no older session is left.
StandsNow-Stands :
    (m : Mem) (s : Session) → ((at : Option Ptr) → s ≢ inside true at) → StandsNow m s → Stands m s
StandsNow-Stands m Session.outside gone st = tt
StandsNow-Stands m (inside true at) gone st = absurd (gone at refl)
StandsNow-Stands m (inside false none) gone st = tt
StandsNow-Stands m (inside false (some x)) gone st = st

-- The next access of a program that settles, or that is yet to call.
after_settle :
    {A : Type 0} {L : A → Mem → Type 0} {a : Action} {k : Reply a → Prog A} {m : Mem} (r : Reply a)
    (m1 : Mem)
    → Settles L (act a k) m
    → perform a m ≡ some (r, m1)
    → ((x : Ptr) → Reached m x → Reached m1 x) × Settles L (k r) m1
after_settle {A} {L} {a} {k} {m} r m1 (goes other e' keeps rest) e =
    subst Next (sym e' ∙ e) (keeps, rest)
  where
    Next : Option (Reply a × Mem) → Type 0
    Next none = Unit
    Next (some (r, m1)) = ((x : Ptr) → Reached m x → Reached m1 x) × Settles L (k r) m1

after_first :
    {A : Type 0} {E L : A → Mem → Type 0} {a : Action} {k : Reply a → Prog A} {m : Mem}
    (r : Reply a) (m1 : Mem)
    → Retires E L (act a k) m
    → is_synchronize a ≡ false
    → perform a m ≡ some (r, m1)
    → Retires E L (k r) m1
after_first r m1 (last rest) other e = cc other
after_first {A} {E} {L} {a} {k} {m} r m1 (first e' rest) other e = subst Next (sym e' ∙ e) rest
  where
    Next : Option (Reply a × Mem) → Type 0
    Next none = Unit
    Next (some (r, m1)) = Retires E L (k r) m1

after_call :
    {A : Type 0} {E L : A → Mem → Type 0} (k : Unit {0} → Prog A) {m m1 : Mem} {r : Unit {0}}
    → perform synchronize m ≡ some (r, m1)
    → Retires E L (k r) m1
    → Retires E L (k tt) m
unfolding perform
after_call {E = E} {L = L} k e now = subst Next (sym e) now
  where
    Next : Option (Unit {0} × Mem) → Type 0
    Next none = Unit
    Next (some (r, m)) = Retires E L (k r) m

abbrev rest_of : {A : Type 0} → Writer A → Prog A
rest_of (running p) = p
rest_of (waiting p) = p

module _ {A : Type 0} {L : A → Mem → Type 0} {a : A} {m' : Mem} {s' : Session} where
  -- The last call of rcuSynchronize lies behind the writer.
  settled_at :
      {p : Prog A} {m : Mem} {s : Session}
      → Races (running (ret a)) m' s' (running p) m s
      → Settles L p m
      → Stands m s
      → L a m' × Stands m' s'
  settled_at stops (ends h) st = (h, st)
  settled_at (writes {s = s} {r = r} {m1 = m1} other e rest) now st =
      let (keeps, later) = after_settle r m1 now e in
      settled_at rest later (Stands-keeps s keeps st)
  settled_at (calls rest) (goes other e keeps later) st = cc other
  settled_at (locks rest) now st = settled_at rest now tt
  settled_at (enters info i e lt rest) now st = settled_at rest now (bucket e lt)
  settled_at (moves e rest) now st = settled_at rest now (link st e)
  settled_at (unlocks rest) now st = settled_at rest now tt

  -- The writer is in that call.
  called_at :
      {p : Prog A} {m : Mem} {s : Session}
      → Races (running (ret a)) m' s' (waiting p) m s
      → Settles L p m
      → StandsNow m s
      → L a m' × Stands m' s'
  called_at (Races.returns {s = s} gone rest) now st =
      settled_at rest now (StandsNow-Stands _ s gone st)
  called_at (locks rest) now st = called_at rest now tt
  called_at (enters {old = true} info i e lt rest) now st = called_at rest now tt
  called_at (enters {old = false} info i e lt rest) now st = called_at rest now (bucket e lt)
  called_at (moves {old = true} e rest) now st = called_at rest now tt
  called_at (moves {old = false} e rest) now st = called_at rest now (link st e)
  called_at (unlocks rest) now st = called_at rest now tt

module _ {A : Type 0} {E L : A → Mem → Type 0} {a : A} {m' : Mem} {s' : Session} where
  -- In every interleaving, wherever the reader was at first: when a program that retires has ended,
  -- it has given up, or the reader is at no cell or at one that is reached from the table.
  pub retired :
      {w : Writer A} {m : Mem} {s : Session}
      → Races (running (ret a)) m' s' w m s
      → Retires E L (rest_of w) m
      → E a m' ⊎ (L a m' × Stands m' s')
  retired stops (gives_up h) = inl h
  retired (writes {r = r} {m1 = m1} other e rest) now = retired rest (after_first r m1 now other e)
  retired (calls {s = s} rest) (last later) = inr (called_at rest later (StandsNow-age _ s))
  retired (calls {k = k} rest) (first e later) = retired rest (after_call k e later)
  retired (Races.returns gone rest) now = retired rest now
  retired (locks rest) now = retired rest now
  retired (enters info i e lt rest) now = retired rest now
  retired (moves e rest) now = retired rest now
  retired (unlocks rest) now = retired rest now
