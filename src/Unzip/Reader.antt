-- ===== src/Unzip/Reader.antt =====
-- A reader that walks a new bucket while unzipOneSegment and its callers change the lists.
use relativistic_hash_table.Base.{
  ℕ, ◌+◌, ◌<◌, ◌≡◌, ◌≢◌, refl, sym, ◌∙◌, true, false, Option, none, some, List, arith, subst,
}
use relativistic_hash_table.Memory.{Ptr, null, Links, Mem, Action, Reply, Prog, act, perform}
use relativistic_hash_table.Memory.Leads.{Leads, here, there}
use relativistic_hash_table.Memory.Trace.{is_synchronize}
use relativistic_hash_table.Memory.Watched.{Watched, waits, goes}
use relativistic_hash_table.Resize.{unzip}
use relativistic_hash_table.Unzip.{is, Serves, Stays}
use relativistic_hash_table.Unzip.Settled.{false_ne_true}
use relativistic_hash_table.Unzip.Array.{Apart, Round}
use relativistic_hash_table.Unzip.Progress.{old, Bucket}
use relativistic_hash_table.Unzip.Rounds.{unzip_lem}

-- The writer, with the program `p` before it, and a reader of the bucket `head` at the cell `x` that
-- looks for `target` take turns, from `m` on, in any order: then the writer is at `p'`, the memory is
-- `m'` and the reader is at `x'`. The reader may give up and enter its bucket anew at any moment. When
-- the writer gets past a grace period, the reader has left, and one that follows enters the bucket.
pub data Walks {A : Type 0} (head target : Ptr) (p' : Prog A) (m' : Mem) (x' : Ptr)
    : Prog A → Mem → Ptr → Type 0 where
  pauses : Walks head target p' m' x' p' m' x'
  enters :
      {p : Prog A} {m : Mem} {x : Ptr}
      → Walks head target p' m' x' p m head
      → Walks head target p' m' x' p m x
  waited :
      {k : Unit {0} → Prog A} {m : Mem} {x : Ptr}
      → Walks head target p' m' x' (k tt) m head
      → Walks head target p' m' x' (act Action.synchronize k) m x
  writes :
      {a : Action} {k : Reply a → Prog A} {m : Mem} {x : Ptr} {r : Reply a} {m1 : Mem}
      → is_synchronize a ≡ false
      → perform a m ≡ some (r, m1)
      → Walks head target p' m' x' (k r) m1 x
      → Walks head target p' m' x' (act a k) m x
  reads :
      {p : Prog A} {m : Mem} {x y : Ptr}
      → x ≢ target
      → m.next x ≡ some y
      → Walks head target p' m' x' p m y
      → Walks head target p' m' x' p m x

-- The next access of a watched program.
after_access :
    {A : Type 0} {G : Mem → Mem → Action → Mem → Type 0} {Q : A → Mem → Mem → Type 0} {a : Action}
    {k : Reply a → Prog A} {m0 m : Mem} (r : Reply a) (m1 : Mem)
    → Watched G Q (act a k) m0 m
    → is_synchronize a ≡ false
    → perform a m ≡ some (r, m1)
    → G m0 m a m1 × Watched G Q (k r) m0 m1
after_access r m1 (waits rest) no_wait e = absurd (false_ne_true (sym no_wait))
after_access {A} {G} {Q} {a} {k} {m0} {m} r m1 (goes e' g rest) no_wait e =
    subst Next (sym e' ∙ e) (g, rest)
  where
    Next : Option (Reply a × Mem) → Type 0
    Next none = Unit
    Next (some (r, m1)) = G m0 m a m1 × Watched G Q (k r) m0 m1

-- What leads on to another cell leads there from the next one.
next-Leads :
    {next : Links} {x y target : Ptr}
    → x ≢ target
    → next x ≡ some y
    → Leads next target x
    → Leads next target y
next-Leads off e here = absurd (off refl)
next-Leads {next} {target = target} off e (there {q = z} e' r) =
    subst (λ z. Leads next target z) (same _ _ e' e) r
  where
    same : {o : Option Ptr} (a b : Ptr) → o ≡ some a → o ≡ some b → a ≡ b
    same a b e e' = ground arith

Leads-step : {next : Links} {x y t : Ptr} → Leads next x t → next x ≡ some y → Leads next y t
Leads-step here e = there e here
Leads-step (there e' r) e = there e' (Leads-step r e)

module _ (hash : Ptr → ℕ) (mask fresh nr : ℕ) where
  -- Behind a wait the memory of the last grace period is the one of now.
  after_wait :
      {A : Type 0} {Q : A → Mem → Mem → Type 0} {k : Unit {0} → Prog A} {m0 m : Mem}
      → Watched (Serves hash mask fresh nr) Q (act Action.synchronize k) m0 m
      → Watched (Serves hash mask fresh nr) Q (k tt) m m
  after_wait (waits rest) = rest
  after_wait (goes e serves rest) = absurd (false_ne_true (sym serves.no_wait))

  module _ (c target : ℕ) (lt : c < nr) (own : is hash mask c target ≡ true)
      (live : target ≢ null) where
    -- A reader of the bucket `c` that can reach a node of its bucket can still reach it at any later
    -- moment, and so can one that enters the bucket then.
    Watched-finds :
        {A : Type 0} {Q : A → Mem → Mem → Type 0} {p' : Prog A} {m' : Mem} {x' : Ptr} {p : Prog A}
        {m0 m : Mem} {x : Ptr}
        → Walks (fresh + c) target p' m' x' p m x
        → Watched (Serves hash mask fresh nr) Q p m0 m
        → Stays fresh nr m0 m
        → Leads m0.next x (fresh + c)
        → Leads m.next target (fresh + c)
        → Leads m.next target x
        → Leads m'.next target x'
    Watched-finds pauses w stays at top r = r
    Watched-finds (enters rest) w stays at top r = Watched-finds rest w stays here top top
    Watched-finds (waited rest) w stays at top r =
        Watched-finds rest (after_wait w) (λ i x y i_lt at e. Leads-step at e) here top top
    Watched-finds (writes {x = x} {r = reply} {m1 = m1} no_wait e rest) w stays at top r =
        let (serves, w') = after_access reply m1 w no_wait e in
        Watched-finds rest w' (serves.stays stays) at
          (serves.finds c (fresh + c) target lt here own live top)
          (serves.finds c x target lt at own live r)
    Watched-finds (reads {x = x} {y = y} off e rest) w stays at top r =
        Watched-finds rest w stays (stays c x y lt at e) top (next-Leads off e r)

module _ (hash : Ptr → ℕ) (mask fresh base half : ℕ) (chain : ℕ → List Ptr)
    (apart : Apart fresh base half chain) where
  -- Let the cells of the old array, the new one and the nodes be apart, no cell be linked to an old
  -- bucket, and a grace period have just ended, with less than `fuel` nodes behind the first segment
  -- of each old bucket and `fuel` not 0. A reader enters the new bucket `c`, from which a node of
  -- that bucket can be reached, and walks in search of that node while `unzip` runs, through any
  -- number of its grace periods, one access of either at a time, in any order; it may enter the
  -- bucket anew at any moment, and has to when a grace period has ended. At every moment the node can
  -- be reached from where the reader stands.
  pub unzip-finds :
      (fuel : ℕ) (m : Mem) (c target : Ptr) (p' : Prog (Unit {0})) (m' : Mem) (x' : Ptr)
      → 0 < fuel
      → Round hash fresh base half chain 0 m m
      → ((j : ℕ) → j < half → Bucket hash mask fresh base half chain fuel j m)
      → c < half + half
      → is hash mask c target ≡ true
      → target ≢ null
      → Leads m.next target (fresh + c)
      → Walks
          (fresh + c)
          target
          p'
          m'
          x'
          (unzip fuel (old hash mask fresh base half chain) mask)
          m
          (fresh + c)
      → Leads m'.next target x'
  unzip-finds fuel m c target p' m' x' some_fuel round left lt own live r walk =
      Watched-finds hash mask fresh (half + half) c target lt own live walk
        (unzip_lem hash mask fresh base half chain apart fuel m m m refl refl some_fuel round left)
        (λ i x y i_lt at e. Leads-step at e) here r r
