-- ===== src/Memory/Faults.antt =====
-- Programs that run into undefined behaviour or a failing assert.
use relativistic_hash_table.Base.{◌≡◌, refl, none, some}
use relativistic_hash_table.Memory.{
  Mem, Action, Reply, Prog, act, fault, bind, perform, faulted, run,
}

-- From `m` the program `p`, run alone, comes to a fault.
pub data Faults {A : Type 0} : Prog A → Mem → Type 0 where
  fails : {m : Mem} → Faults fault m
  stuck : {a : Action} {k : Reply a → Prog A} {m : Mem} → perform a m ≡ none → Faults (act a k) m
  later :
      {a : Action} {k : Reply a → Prog A} {m : Mem} {r : Reply a} {m' : Mem}
      → perform a m ≡ some (r, m')
      → Faults (k r) m'
      → Faults (act a k) m

pub bind-Faults :
    {A B : Type 0} {p : Prog A} {m : Mem} (k : A → Prog B) → Faults p m → Faults (bind p k) m
bind-Faults k fails = fails
bind-Faults k (stuck e) = stuck e
bind-Faults k (later e rest) = later e (bind-Faults k rest)

pub run-Faults : {A : Type 0} {p : Prog A} {m : Mem} → Faults p m → run p m ≡ faulted
unfolding run
run-Faults fails = refl
run-Faults (stuck e) = rw (e, run) refl
run-Faults (later e rest) = rw (e, run) (run-Faults rest)
