-- ===== src/Tests/Doubling.antt =====
-- A table of two buckets that is doubled.
use relativistic_hash_table.Base.{
  ℕ, zero, suc, ◌+◌, ◌*◌, ◌<◌, ◌≡◌, refl, true, false, none, some, List, [], ◌∷◌, arith, ◌==◌,
  length, if◌then◌else◌, ltb,
}
use relativistic_hash_table.Memory.{Ptr, null, Links, Mem, put, run, finished, ◌>>◌}
use relativistic_hash_table.Memory.Watched.{Watched}
use relativistic_hash_table.Memory.Chain.{IsSlist}
use relativistic_hash_table.Memory.Leads.{Unlinked}
use relativistic_hash_table.Buckets.Setup.{IsUnused}
use relativistic_hash_table.Resize.{
  Load, expand_buckets_by_fac2_return_old, expand_buckets2x, unzip,
}
use relativistic_hash_table.Table
use relativistic_hash_table.Table.Shape.{IsTable, array}
use relativistic_hash_table.Table.Insert.{IsFree}
use relativistic_hash_table.Table.Published.{Doubled}
use relativistic_hash_table.Table.Expand.{KeepsOrServes, expand_buckets_by_fac2_return_old-IsTable}
use relativistic_hash_table.Table.TryInsert.{Inserts, MaybeGrown, try_insert-MaybeGrown}
use relativistic_hash_table.Table.Lookup.{expand_buckets2x-find}
use relativistic_hash_table.Unzip.{Serves, unzipped, zip}
use relativistic_hash_table.Unzip.Array.{Apart, Round}
use relativistic_hash_table.Unzip.Progress.{Bucket}
use relativistic_hash_table.Unzip.Rounds.{Finished, unzip_lem}

-- whole numbers for `float`, with factors that call for doubling
abbrev pub load : Load
load = record {
  Float = ℕ;
  of_size = λ n. n;
  times = λ a b. a * b;
  less = ltb;
  expand_factor = 1;
  shrink_factor = 0;
}

-- The buckets 10 and 11, and the nodes 2 and 3 with the hashes 4 and 6 in the first one.
abbrev pub links : Links
links =
    put (put (put (put (put (λ _. none) 10 (some 2)) 2 (some 3)) 3 (some null)) 11 (some null)) 5
      (some null)

abbrev pub hashes : Ptr → ℕ
hashes p = if p == 2 then 4 else 6

abbrev pub mem : Mem
mem = record { next = links; hash = hashes; buckets_info = some (array 1 10); size = 2 }

abbrev pub chain : ℕ → List Ptr
chain i = if i == 0 then 2 ∷ 3 ∷ [] else []

lists : (i : ℕ) → i < 2 → IsSlist links (10 + i) (chain i)
lists zero h = ground arith
lists (suc zero) h = ground arith
lists (suc (suc i)) h = absurd (omega arith)

pub table : IsTable mem 1 10 chain
table = record {
  info = refl;
  fits = omega arith;
  lists = lists;
  hashed = λ i x lt at. ground arith;
  nodes = λ i x lt at. ground arith;
}

pub free : IsFree mem 1 10 chain 5
free = record {
  ne_null = omega arith;
  old_next = null;
  is_allocated = refl;
  is_unlinked = λ a e. ground arith;
  is_node = refl;
  is_outside = λ i lt. ground arith;
}

pub unused : IsUnused mem 20 4
unused a inside = ground arith

pub heads : (i : ℕ) → i < 2 → Unlinked links (10 + i)
heads i lt a e = ground arith

short : (i : ℕ) → i < 2 → length (chain i) < 3
short zero lt = omega arith
short (suc i) lt = ground arith

pub longer : (i : ℕ) → i < 2 → length (chain i) + 1 < 4
longer zero lt = omega arith
longer (suc i) lt = ground arith

expand_buckets_by_fac2_return_old-IsTable_example :
    Watched
      (KeepsOrServes hashes 1 20)
      (λ old m0 m'. Doubled 1 10 20 chain mem old m' × (m0.buckets_info ≡ some (array 2 20)))
      (expand_buckets_by_fac2_return_old 3 20)
      mem
      mem
expand_buckets_by_fac2_return_old-IsTable_example =
    expand_buckets_by_fac2_return_old-IsTable 1 10 20 chain mem table (omega arith) unused
      (λ e. omega (arith, e)) refl heads 3 mem short

try_insert-MaybeGrown_example :
    Watched
      (Inserts 5 (put hashes 5 8) 1 10 20)
      (λ inserted m0 m'. (inserted ≡ true) × MaybeGrown 1 10 20 chain 5 8 mem false m')
      (Table.try_insert load (λ p q. p == q) 4 20 5 8)
      mem
      mem
try_insert-MaybeGrown_example =
    try_insert-MaybeGrown load (λ p q. p == q) 4 1 10 20 chain 5 8 mem mem table free (omega arith)
      unused (λ e. omega (arith, e)) refl heads longer

expand_buckets2x-find_example :
    (p : Ptr) × (m' : Mem) × (run (expand_buckets2x 3 20 >> Table.find (λ p. p == 3) 3 6) mem
      ≡ finished p m')
    × (run (Table.find (λ p. p == 3) 3 6) mem ≡ finished p mem)
expand_buckets2x-find_example =
    expand_buckets2x-find (λ p. p == 3) 6 1 10 20 chain mem table (omega arith) unused
      (λ e. omega (arith, e)) refl heads (λ x e. ground arith) 3 short

-- The table after the search for the first segments: the new buckets are 20 to 23, and the old bucket
-- 10 points to the node 2, behind which the new bucket 22 starts.
abbrev pub zipped : Mem
zipped = record {
  next = put (put (put (put links 20 (some 2)) 21 (some null)) 22 (some 3)) 23 (some null);
  hash = hashes;
  buckets_info = some (array 2 20);
  size = 2;
}

pub zipped-Apart : Apart 20 10 2 chain
zipped-Apart = record {
  base_live = λ e. omega (arith, e);
  base_out = λ i j lt lt'. ground arith;
  base_off = λ i j lt lt' e. omega (arith, lt, lt', e);
  cells_out = λ i j lt lt'. ground arith;
  null_out = λ j lt. ground arith;
  own = λ i j a lt lt' at at'. ground arith;
}

pub zipped-Round : Round hashes 20 10 2 chain 0 zipped zipped
zipped-Round = record {
  same_hash = refl;
  same_info = refl;
  same_size = refl;
  null_free = refl;
  null_free0 = refl;
  heads = λ i lt a e. ground arith;
  heads0 = λ i lt a e. ground arith;
  agree = λ i a le lt at. refl;
}

pub zipped-Bucket : (j : ℕ) → j < 2 → Bucket hashes 3 20 10 2 chain 2 j zipped
zipped-Bucket zero lt = zip (record {
  zipper = 2;
  front = [];
  passed = [];
  turn = 3;
  rest = [];
  at_zipper = refl;
  list = ground arith;
  other = ground arith;
  own_front = refl;
  own_passed = refl;
  turns = refl;
  two = refl;
  content = refl;
  other_content = refl;
  in_nodes = λ a at. at;
  passed_in_nodes = λ a at. absurd (ground arith);
  enough = omega arith;
})
zipped-Bucket (suc zero) lt =
    unzipped (record { at_end = refl; list = ground arith; other = ground arith })
zipped-Bucket (suc (suc j)) lt = absurd (omega arith)

unzip_lem_example :
    Watched
      (Serves hashes 3 20 4)
      (λ r m0 m'. Finished hashes 3 20 10 2 chain zipped m' × (m0.buckets_info ≡ some (array 2 20)))
      (unzip 2 (array 1 10) 3)
      zipped
      zipped
unzip_lem_example =
    unzip_lem hashes 3 20 10 2 chain zipped-Apart 2 zipped zipped zipped refl refl (omega arith)
      zipped-Round zipped-Bucket
