-- ===== src/Rcu/Register.antt =====
-- Registered reader threads have buckets of their own.
use relativistic_hash_table.Base.{
  ℕ, suc, ◌^◌, ◌≤◌, ◌<◌, ◌≡◌, ◌≢◌, refl, List, [], ◌∷◌, arith, length,
}
use relativistic_hash_table.Rcu.{Registry, minus_one, start_registry, register_reader_thread}

-- the registry after the threads of the list have called rcuRegisterReaderThread, last one first
unfoldable pub registered : (nr_non_overlapping : ℕ) → List ℕ → Registry
registered nr [] = start_registry
registered nr (thread ∷ threads) = (register_reader_thread nr thread (registered nr threads)).1

-- Each id that was given out is below the counter and the limit, and has one owner.
record IsFair (nr calls : ℕ) (r : Registry) : Type 0 where
  few : r.next_bucket_id ≤ calls
  below :
      (t : ℕ)
      → r.tls_reader_bucket_id t ≢ minus_one
      → (r.tls_reader_bucket_id t < r.next_bucket_id) × (r.tls_reader_bucket_id t < nr)
  own :
      (t u : ℕ)
      → r.tls_reader_bucket_id t ≢ minus_one
      → r.tls_reader_bucket_id t ≡ r.tls_reader_bucket_id u
      → t ≡ u

module _ {nr calls : ℕ} (thread : ℕ) {r : Registry} (fair : IsFair nr calls r)
    (few : calls < 2 ^ 31) (small : nr < 2 ^ 31) where
  open fair use {below, own}

  register-IsFair : IsFair nr (suc calls) (register_reader_thread nr thread r).1
  unfolding register_reader_thread
  register-IsFair = record {
    few = ground (arith, fair.few);
    below = λ t ne. ground (arith, fair.few, below t);
    own = λ t u ne e. ground (arith, fair.few, below t, below u, own t u);
  }

registered-IsFair :
    (nr : ℕ) (threads : List ℕ)
    → nr < 2 ^ 31
    → length threads < 2 ^ 31
    → IsFair nr (length threads) (registered nr threads)
unfolding registered
registered-IsFair nr [] small few = record {
  few = omega arith;
  below = λ t ne. absurd (ne refl);
  own = λ t u ne e. absurd (ne refl);
}
registered-IsFair nr (thread ∷ threads) small few =
    register-IsFair thread (registered-IsFair nr threads small (omega arith)) (omega arith) small

-- After fewer than 2 ^ 31 calls of rcuRegisterReaderThread, by any threads in any order, a thread that
-- has a bucket id has one below the number of non-overlapping buckets, and no other thread has it.
pub registered_unique :
    (nr : ℕ) (threads : List ℕ)
    → nr < 2 ^ 31
    → length threads < 2 ^ 31
    → (t : ℕ) → (registered nr threads).tls_reader_bucket_id t ≢ minus_one
    → ((registered nr threads).tls_reader_bucket_id t < nr)
      × ((u : ℕ)
          → (registered nr threads).tls_reader_bucket_id t
            ≡ (registered nr threads).tls_reader_bucket_id u
          → t ≡ u)
registered_unique nr threads small few t ne =
    let fair = registered-IsFair nr threads small few in
    ((fair.below t ne).1, λ u e. fair.own t u ne e)
