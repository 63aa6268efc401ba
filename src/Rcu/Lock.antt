-- ===== src/Rcu/Lock.antt =====
-- rcuReadLock and rcuReadUnlock of a reader that the writer does not disturb.
use relativistic_hash_table.Base.{ℕ, ==-refl, ◌^◌, ◌<◌, ◌≡◌, fun_ext, arith}
use relativistic_hash_table.Rcu.{Zone}
use relativistic_hash_table.Rcu.System.{
  Reader, locked, row_of, increment, decrement, recount, read_step,
}

-- A reader that makes `n` accesses while no other thread makes one.
pub read_steps : (n bucket : ℕ) → Zone → Reader → Zone × Reader
read_steps ℕ.zero bucket z r = (z, r)
read_steps (ℕ.suc n) bucket z r =
    let next = read_step bucket z r in read_steps n bucket next.0 next.1

-- Undisturbed, rcuReadLock returns after three accesses: the reader is in a session of the latest
-- epoch, and its count has gone up by one (modulo 2 ^ 32), no other count has changed.
pub lock_undisturbed :
    (bucket : ℕ) (z : Zone)
    → read_steps 3 bucket z Reader.outside
      ≡ (recount z (row_of z.epoch_latest) bucket increment, locked z.epoch_latest)
unfolding read_steps read_step
lock_undisturbed bucket z = ground arith

-- With no access of another thread in between, rcuReadLock returns after three accesses: the reader is
-- then in a session of the latest epoch, and its count in the row of that epoch, and no other, has gone
-- up by one (modulo 2 ^ 32). The access of rcuReadUnlock ends the session, and the zone is as it was,
-- where the counts fit 32 bits.
pub lock-unlock :
    (bucket : ℕ) (z : Zone)
    → ((row b : ℕ) → z.count row b < 2 ^ 32)
    → (read_steps 3 bucket z Reader.outside
        ≡ (recount z (row_of z.epoch_latest) bucket increment, locked z.epoch_latest))
      × (read_steps 4 bucket z Reader.outside ≡ (z, Reader.outside))
unfolding read_steps read_step
lock-unlock bucket z fit = (
  lock_undisturbed bucket z,
  rw (==-refl z.epoch_latest) (λ i. (record z { count = restored i }, Reader.outside)),
)
  where
    restored :
        (recount
          (recount z (row_of z.epoch_latest) bucket increment)
          (row_of z.epoch_latest)
          bucket
          decrement).count
        ≡ z.count
    restored = fun_ext λ row. fun_ext λ b. ground (arith, fit row b)
