-- ===== src/RTable.antt =====
-- The table with its own zone, LibSource/include/RCUHashTableApi.h: its set-up, and the operations that
-- pass the member `rcuZone` on to those of RCUHashTableCoreApi.h.
pub mod Setup
pub mod Life
use relativistic_hash_table.Base.{ℕ, ◌*◌, ◌%◌, ◌^◌, Bool, Option, none, some}
use relativistic_hash_table.Memory.{Ptr, BucketsInfo, Action, Prog, ret, act, ◌>>=◌}
use relativistic_hash_table.Buckets.{destroy_and_free_buckets}
use relativistic_hash_table.Resize
use relativistic_hash_table.Resize.{Load}
use relativistic_hash_table.Rcu.{upper_bound_power_of2}
use relativistic_hash_table.Rcu.Storage
use relativistic_hash_table.Rcu.Storage.{Rings, Store}
use relativistic_hash_table.Table

-- struct RTable, without what its core has in the memory: the zone, and the factors of the core.
pub record RTable : Type 1 where
  pub rcu_zone : Rings
  pub load : Load

pub record RTableConfig (Float : Type 0) : Type 0 where
  pub nr_buckets : ℕ
  pub nr_rcu_buckets_for_unregistered_threads : ℕ
  pub expand_factor : Float
  pub shrink_factor : Float

-- The factors of `float` are those that RTableConfig starts with.
-- `hardware_concurrency` is what std::thread gives, an unsigned int, from which the registry has its
-- number of buckets; `start` and `fresh` are what `new` and `malloc` return for the counts and for the
-- buckets. `zone` is the member rcuZone and `store` the counts before.
unfoldable pub init_detailed :
    (float : Load) (hardware_concurrency : ℕ) (start fresh : Ptr) (zone : Rings) (store : Store)
    → RTableConfig float.Float
    → (RTable × Store) × Prog (Unit {0})
init_detailed float hardware_concurrency start fresh zone store conf =
    let made =
      Storage.init (upper_bound_power_of2 hardware_concurrency)
        conf.nr_rcu_buckets_for_unregistered_threads start zone store in
    (
      (
        record {
          rcu_zone = made.0;
          load = record float {
            expand_factor = conf.expand_factor;
            shrink_factor = conf.shrink_factor;
          };
        },
        made.1,
      ),
      Table.init_detailed fresh conf.nr_buckets,
    )

unfoldable pub init :
    (float : Load) (hardware_concurrency : ℕ) (start fresh : Ptr) (zone : Rings) (store : Store)
    (nr_buckets : ℕ)
    → (RTable × Store) × Prog (Unit {0})
unfolding init_detailed
init float hardware_concurrency start fresh zone store nr_buckets =
    init_detailed float hardware_concurrency start fresh zone store record {
      nr_buckets = nr_buckets;
      nr_rcu_buckets_for_unregistered_threads = hardware_concurrency * 64 % 2 ^ 32;
      expand_factor = float.expand_factor;
      shrink_factor = float.shrink_factor;
    }

module _ (table : RTable) where
  unfoldable pub find : (predict : Ptr → Bool) (fuel hash_val : ℕ) → Prog Ptr
  find predict fuel hash_val = Table.find predict fuel hash_val

  unfoldable pub try_insert_no_expand :
      (predict : Ptr → Ptr → Bool) (fuel : ℕ) (entry : Ptr) (hash_val : ℕ) → Prog Bool
  try_insert_no_expand predict fuel entry hash_val =
      Table.try_insert_no_expand predict fuel entry hash_val

  unfoldable pub try_insert :
      (predict : Ptr → Ptr → Bool) (fuel : ℕ) (fresh entry : Ptr) (hash_val : ℕ) → Prog Bool
  try_insert predict fuel fresh entry hash_val =
      Table.try_insert table.load predict fuel fresh entry hash_val

  unfoldable pub try_detach_auto_shrink :
      (predict : Ptr → Bool) (fuel : ℕ) (fresh : Ptr) (hash_val : ℕ) → Prog (Ptr × Bool)
  try_detach_auto_shrink predict fuel fresh hash_val =
      Table.try_detach_auto_shrink table.load predict fuel fresh hash_val

  unfoldable pub try_detach_and_synchronize :
      (predict : Ptr → Bool) (fuel : ℕ) (fresh : Ptr) (hash_val : ℕ) → Prog Ptr
  try_detach_and_synchronize predict fuel fresh hash_val =
      Table.try_detach_and_synchronize table.load predict fuel fresh hash_val

  unfoldable pub expand_buckets2x : (fuel : ℕ) (fresh : Ptr) → Prog (Unit {0})
  expand_buckets2x fuel fresh = Resize.expand_buckets2x fuel fresh

  unfoldable pub shrink_buckets2x : (fuel : ℕ) (fresh : Ptr) → Prog Bool
  shrink_buckets2x fuel fresh = Resize.shrink_buckets2x fuel fresh

unfoldable pub synchronize : Prog (Unit {0})
synchronize = act Action.synchronize ret

-- What ~RTableCore does with what it loads from `pBucketsInfo`, none for null.
unfoldable pub free_array : (p : Option BucketsInfo) → Prog (Unit {0})
free_array none = ret tt
free_array (some p) = destroy_and_free_buckets p

-- ~RTableCore
unfoldable pub destroy : Prog (Unit {0})
unfolding free_array
destroy = do p ← act Action.peek_info ret; free_array p

-- The destructor of an RTable on its zone, which is destroyed before its core.
unfoldable pub destroy_zone : RTable → Store → Option (Rings × Store)
destroy_zone table store = Storage.destruct table.rcu_zone store
