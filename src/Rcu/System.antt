-- ===== src/Rcu/System.antt =====
-- Reader threads and the one writer of a zone, interleaved access by access: rcuReadLock,
-- rcuReadUnlock and rcuSynchronize of LibSource/RCU.cpp. Accesses are sequentially consistent here.
use relativistic_hash_table.Base.{
  ℕ, ◌≡◌, ◌+◌, ◌-◌, ◌%◌, ◌^◌, ◌<◌, ◌≡◌, Bool, ◌&&◌, ◌==◌, ltb, leb, if◌then◌else◌,
}
use relativistic_hash_table.Rcu.{max_epoches, Zone}

-- `epoch & c_epochMask` of an epoch that is not negative
abbrev pub row_of : ℕ → ℕ
row_of epoch = epoch % max_epoches

-- Where a reader stands: outside or at the head of the loop of rcuReadLock, behind the first load of
-- rcuReadLock, behind its increment, behind a revalidation that failed, or between the return of
-- rcuReadLock and the access of rcuReadUnlock.
pub data Reader : Type 0 where
  outside : Reader
  loaded : (epoch : ℕ) → Reader
  counted : (epoch : ℕ) → Reader
  reverting : (epoch : ℕ) → Reader
  locked : (epoch : ℕ) → Reader

-- The writer is outside of rcuSynchronize, or in its loops: `epochOldest` is in the zone.
pub data Writer : Type 0 where
  outside : Writer
  waiting : (last_epoch bucket : ℕ) → Writer

pub record System : Type 0 where
  pub zone : Zone
  pub reader : ℕ → Reader
  pub writer : Writer

-- fetch_add(1) and fetch_add(-1) of an atomic int, and the signed test `count > 0`
abbrev pub increment : ℕ → ℕ
increment c = (c + 1) % 2 ^ 32

abbrev pub decrement : ℕ → ℕ
decrement c = (c + 2 ^ 32 - 1) % 2 ^ 32

abbrev pub is_positive : ℕ → Bool
is_positive c = ltb 0 c && ltb c (2 ^ 31)

-- the zone with the count at a place of the ring changed
abbrev pub recount : Zone → (row bucket : ℕ) → (ℕ → ℕ) → Zone
recount z row bucket f = record z {
  count = λ r b. if (r == row) && (b == bucket) then f (z.count r b) else z.count r b;
}

-- One access of a reader whose bucket is `bucket`.
unfoldable pub read_step : (bucket : ℕ) → Zone → Reader → Zone × Reader
read_step bucket z outside = (z, loaded z.epoch_latest)
read_step bucket z (loaded epoch) = (recount z (row_of epoch) bucket increment, counted epoch)
read_step bucket z (counted epoch) =
    (z, if z.epoch_latest == epoch then locked epoch else reverting epoch)
read_step bucket z (reverting epoch) = (recount z (row_of epoch) bucket decrement, outside)
read_step bucket z (locked epoch) = (recount z (row_of epoch) bucket decrement, outside)

-- One access of the writer, with the loop control behind it; `nr` is nrBucketsPerEpoch.
unfoldable pub write_step : (nr : ℕ) → Zone → Writer → Zone × Writer
write_step nr z outside =
    (record z { epoch_latest = (z.epoch_latest + 1) % 2 ^ 64 }, waiting z.epoch_latest 0)
write_step nr z (waiting last bucket) =
    if leb z.epoch_oldest last
    then (if ltb bucket nr
        then (if is_positive (z.count (row_of z.epoch_oldest) bucket)
            then (z, waiting last bucket)
            else (z, waiting last (bucket + 1)))
        else (record z { epoch_oldest = z.epoch_oldest + 1 }, waiting last 0))
    else (z, outside)

abbrev pub update {ℓ} : {A : Type ℓ} → (ℕ → A) → ℕ → A → ℕ → A
update f i a j = if j == i then a else f j

-- `threads` readers, of which reader `i` has the bucket `bucket i`. rcuSynchronize is called only
-- while its fetch_add does not overflow the int64_t epoch.
pub data Step (threads nr : ℕ) (bucket : ℕ → ℕ) (s : System) : System → Type 0 where
  read :
      (i : ℕ)
      → i < threads
      → Step threads nr bucket s (
          let next = read_step (bucket i) s.zone (s.reader i) in
          record s { zone = next.0; reader = update s.reader i next.1 })
  write :
      (s.writer ≡ Writer.outside → s.zone.epoch_latest + 1 < 2 ^ 63)
      → Step threads nr bucket s
          (let next = write_step nr s.zone s.writer in record s { zone = next.0; writer = next.1 })

pub data Steps (threads nr : ℕ) (bucket : ℕ → ℕ) (s : System) : System → Type 0 where
  none : Steps threads nr bucket s s
  more :
      {t u : System}
      → Steps threads nr bucket s t
      → Step threads nr bucket t u
      → Steps threads nr bucket s u

pub Steps-trans :
    {threads nr : ℕ} {bucket : ℕ → ℕ} {s t u : System}
    → Steps threads nr bucket s t
    → Steps threads nr bucket t u
    → Steps threads nr bucket s u
Steps-trans steps none = steps
Steps-trans steps (more steps' step) = more (Steps-trans steps steps') step

-- a zone as rcuInitZoneWithBucketCounts leaves it, before any thread has used it
abbrev pub start : Zone → System
start z = record { zone = z; reader = λ i. Reader.outside; writer = Writer.outside }

abbrev pub IsNewZone : Zone → Type 0
IsNewZone z =
    (z.epoch_latest ≡ 0) × (z.epoch_oldest ≡ 0) × ((row bucket : ℕ) → z.count row bucket ≡ 0)
