-- ===== src/Tests/Readers.antt =====
-- A reader of the bucket 22 of Tests/Doubling, in turns with the writer.
use relativistic_hash_table.Base.{refl, arith}
use relativistic_hash_table.Memory.{Mem, perform}
use relativistic_hash_table.Memory.Ensures.{relink}
use relativistic_hash_table.Memory.Leads.{Leads, here, there}
use relativistic_hash_table.Buckets.{unzip_one_segment, segment_loop, compute_hash_bucket_id}
use relativistic_hash_table.Resize.{unzip, unzip_round}
use relativistic_hash_table.Unzip.Reader.{pauses, waited, writes, reads, unzip-finds}
use relativistic_hash_table.Tests.Doubling.{
  chain, hashes, zipped, zipped-Apart, zipped-Round, zipped-Bucket,
}

-- the memory behind the first round
abbrev unzipped_mem : Mem
unzipped_mem = relink (relink zipped 10 0) 2 0

-- The writer makes the ten accesses of its first round, two stores among them, and gets past the grace
-- period; a reader enters the bucket 22, the writer begins the next round, and the reader moves on.
unzip-finds_example : Leads unzipped_mem.next 3 3
unfolding unzip unzip_round unzip_one_segment segment_loop compute_hash_bucket_id perform
unzip-finds_example =
    unzip-finds hashes 3 20 10 2 chain zipped-Apart 2 zipped 2 3 _ unzipped_mem 3 (omega arith)
      zipped-Round zipped-Bucket (omega arith) refl (λ e. omega (arith, e))
      (there {q = 3} refl here)
      (writes refl refl (
        writes refl refl (
          writes refl refl (
            writes refl refl (
              writes refl refl (
                writes refl refl (
                  writes refl refl (
                    writes refl refl (
                      writes refl refl (
                        writes refl refl (
                          waited (
                            writes refl refl (reads (λ e. omega (arith, e)) refl pauses)))))))))))))
