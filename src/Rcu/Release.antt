-- ===== src/Rcu/Release.antt =====
-- The release of the array that a zone keeps its counts in, by rcuReleaseZone and the destructor.
use relativistic_hash_table.Base.{
  ℕ, ◌+◌, ◌^◌, ◌≤◌, ◌<◌, ◌≡◌, ◌≢◌, refl, sym, ap, ◌∙◌, some, arith, ◌==◌, if◌then◌else◌, eq_false,
}
use relativistic_hash_table.Memory.{Ptr, null}
use relativistic_hash_table.Rcu.{Zone, nr_buckets_per_epoch, init_zone_with_bucket_counts}
use relativistic_hash_table.Rcu.Setup.{init_zone-IsNewZone}
use relativistic_hash_table.Rcu.Storage.{
  forget_rows, Rings, Store, init, delete_array, release, destruct,
}
use relativistic_hash_table.Rcu.Stored.{IsStored, at_start, other_block, init-IsStored}

delete_at :
    (p : Ptr) (store : Store)
    → p ≢ null
    → store.block p ≢ 0
    → delete_array p store
      ≡ some (record store { block = λ a. if a == p then 0 else store.block a })
unfolding delete_array
delete_at p store live held = rw (eq_false p null live) (rw (eq_false (store.block p) 0 held) refl)

released :
    (rings : Rings) (store : Store)
    → rings.p_buckets 0 ≢ null
    → store.block (rings.p_buckets 0) ≢ 0
    → release rings store
      ≡ some (
        record rings { p_buckets = λ row. if row == 0 then null else rings.p_buckets row },
        record store { block = λ a. if a == rings.p_buckets 0 then 0 else store.block a },
      )
unfolding release forget_rows
released rings store live held =
    ap (forget_rows rings) (delete_at (rings.p_buckets 0) store live held)

destructed :
    (rings : Rings) (store : Store)
    → rings.p_buckets 0 ≢ null
    → destruct rings store ≡ release rings store
unfolding destruct
destructed rings store live =
    ap (λ b. if b then some (rings, store) else release rings store)
      (eq_false (rings.p_buckets 0) null live)

-- Of a zone that keeps its counts, at least one per epoch, somewhere but at null, `release` frees the
-- array of the counts and no other, and the destructor behind it frees nothing a second time. The
-- destructor alone does what `release` does.
pub release-destruct :
    (nr : ℕ) (zone : Zone) (rings : Rings) (store : Store)
    → IsStored nr zone rings store
    → 1 ≤ nr_buckets_per_epoch nr zone
    → rings.p_buckets 0 ≢ null
    → (rings' : Rings) × ((store' : Store) × (release rings store ≡ some (rings', store'))
        × (destruct rings store ≡ some (rings', store'))
        × (destruct rings' store' ≡ some (rings', store'))
        × ((a : Ptr) → store'.block a ≡ (if a == rings.p_buckets 0 then 0 else store.block a)))
unfolding destruct
release-destruct nr zone rings store s some_count live =
    let held : store.block (rings.p_buckets 0) ≢ 0 = λ e. absurd (
      omega
        (arith, s.above 0 0 (omega arith) some_count, s.below 0 0 (omega arith) some_count, e)) in
    (
      record rings { p_buckets = λ row. if row == 0 then null else rings.p_buckets row },
      (
        record store { block = λ a. if a == rings.p_buckets 0 then 0 else store.block a },
        released rings store live held,
        destructed rings store live ∙ released rings store live held,
        refl,
        λ a. refl,
      ),
    )

-- A zone that is set up with its counts in a free block, not at null, and destroyed gives the block
-- back and changes no other.
pub init-destruct :
    (nr n : ℕ) (start : Ptr) (rings : Rings) (store : Store)
    → n ≤ 2 ^ 31
    → (init_zone_with_bucket_counts n).nr_hash_thread_buckets + nr < 2 ^ 31
    → start ≢ null
    → store.block start ≡ 0
    → (rings' : Rings) × ((store' : Store) × (destruct
            (init nr n start rings store).0
            (init nr n start rings store).1
          ≡ some (rings', store'))
        × ((a : Ptr) → store'.block a ≡ store.block a))
unfolding nr_buckets_per_epoch
init-destruct nr n start rings store high fits live free =
    let (rings', (store', released, destructed, again, blocks)) =
      release-destruct nr (init_zone_with_bucket_counts n) (init nr n start rings store).0
        (init nr n start rings store).1 (init-IsStored nr n start rings store fits)
        (omega (arith, fits, (init_zone-IsNewZone n high).1))
        (λ e. live (sym (at_start nr n start rings store fits) ∙ e)) in
    (
      rings',
      (
        store',
        destructed,
        λ a. ground (
          arith,
          blocks a,
          at_start nr n start rings store fits,
          other_block nr n start rings store fits a,
          free,
          ap store.block {x = a} {y = start},
        ),
      ),
    )
