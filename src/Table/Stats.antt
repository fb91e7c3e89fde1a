-- ===== src/Table/Stats.antt =====
-- The statistics: sums over the partitions, and the elements of one partition.
use smphash_table.Base.{
  ℕ, ◌+◌, ◌%◌, ◌^◌, ◌≤◌, ◌<◌, ◌≡◌, refl, sym, ap, ◌∙◌, List, [], ◌∷◌, concat, length, length-append,
  arith,
}
use smphash_table.Memory.{Ptr, Heap}
use smphash_table.Partition.{Partition}
use smphash_table.Partition.Lists.{total, total-nil, total-append}
use smphash_table.Partition.Linked.{Linked, Linked-reorder, size_at}
use smphash_table.Partition.Destroy.{total-occurs, held-occurs}
use smphash_table.Table.{
  HashTable, sum_from, stats_get_mem, stats_get_nhits, stats_get_nlookups, stats_get_ninserts,
  stats_reset, reset_all, reset_counters, count_elems,
}

-- The sum of a field of the partitions.
unfoldable pub sum_of : (Partition → ℕ) → List Partition → ℕ
sum_of field [] = 0
sum_of field (p ∷ ps) = field p + sum_of field ps

pub sum_from_int :
    (field : Partition → ℕ) (n : ℕ) (ps : List Partition)
    → n < 2 ^ 32
    → sum_from 32 field n ps ≡ (n + sum_of field ps) % 2 ^ 32
unfolding sum_from sum_of
sum_from_int field n [] fits = omega arith
sum_from_int field n (p ∷ ps) fits =
    sum_from_int field ((n + field p) % 2 ^ 32) ps (omega arith) ∙ omega arith

pub sum_from_long :
    (field : Partition → ℕ) (n : ℕ) (ps : List Partition)
    → n < 2 ^ 64
    → sum_from 64 field n ps ≡ (n + sum_of field ps) % 2 ^ 64
unfolding sum_from sum_of
sum_from_long field n [] fits = omega arith
sum_from_long field n (p ∷ ps) fits =
    sum_from_long field ((n + field p) % 2 ^ 64) ps (omega arith) ∙ omega arith

-- The partitions hold the elements of the lists, one list for each.
abbrev pub Stocked : Heap → List Partition → List (List Ptr) → Type 0
Stocked h [] [] = Unit
Stocked h [] (es ∷ ess) = 0 < 0
Stocked h (p ∷ ps) [] = 0 < 0
Stocked h (p ∷ ps) (es ∷ ess) = Linked h p 0 es × (p.size ≤ p.max_size) × Stocked h ps ess

sum-Stocked :
    (h : Heap) (ps : List Partition) (ess : List (List Ptr))
    → Stocked h ps ess
    → (sum_of (λ p. p.size) ps ≡ total (size_at h) (concat ess))
      × (sum_of (λ p. p.size) ps ≤ sum_of (λ p. p.max_size) ps)
unfolding sum_of
sum-Stocked h [] (es ∷ ess) wrong = absurd (omega arith)
sum-Stocked h (p ∷ ps) [] wrong = absurd (omega arith)
sum-Stocked h [] [] stocked = (sym (total-nil (size_at h)), omega arith)
sum-Stocked h (p ∷ ps) (es ∷ ess) (v, within, rest) =
    let (same, less) = sum-Stocked h ps ess rest in
    (
      omega (arith, v.accounted, same, total-append (size_at h) es (concat ess)),
      omega (arith, within, less),
    )

-- If the limits add up to less than 2^64, the memory used is the sizes of all elements together, the
-- total is the sum of the limits, and the former is not above the latter.
pub stats_get_mem_refines :
    (h : Heap) (t : HashTable) (ess : List (List Ptr))
    → Stocked h t.partitions ess
    → sum_of (λ p. p.max_size) t.partitions < 2 ^ 64
    → ((stats_get_mem t).0 ≡ total (size_at h) (concat ess))
      × ((stats_get_mem t).1 ≡ sum_of (λ p. p.max_size) t.partitions)
      × ((stats_get_mem t).0 ≤ (stats_get_mem t).1)
unfolding stats_get_mem
stats_get_mem_refines h t ess stocked fits =
    let (same, less) = sum-Stocked h t.partitions ess stocked in
    let used = sum_from_long (λ p. p.size) 0 t.partitions (omega arith) in
    let limit = sum_from_long (λ p. p.max_size) 0 t.partitions (omega arith) in
    (
      omega (arith, used, same, less, fits),
      omega (arith, limit, fits),
      omega (arith, used, limit, less, fits),
    )

length-total : (es : List Ptr) → total (λ e. 1) es ≡ length es
unfolding total
length-total [] = refl
length-total (e ∷ es) = ap (λ n. 1 + n) (length-total es) ∙ omega arith

count_elems_lem :
    (n : ℕ) (table : List (List Ptr))
    → n < 2 ^ 32
    → count_elems n table ≡ (n + length (concat table)) % 2 ^ 32
unfolding count_elems
count_elems_lem n [] fits = omega arith
count_elems_lem n (c ∷ cs) fits =
    count_elems_lem ((n + length c) % 2 ^ 32) cs (omega arith)
    ∙ omega (arith, length-append c (concat cs))

-- Of a partition with the elements `es`, the count of stats_get_buckets is their number, as an int.
pub count_elems_refines :
    {h : Heap} {p : Partition} {es : List Ptr}
    → Linked h p 0 es
    → count_elems 0 p.table ≡ length es % 2 ^ 32
count_elems_refines {h} {p} {es} v =
    let all = concat p.table in
    let same = total-occurs (λ e. 1) all es (λ q. held-occurs v q) in
    count_elems_lem 0 p.table (omega arith) ∙ omega (arith, same, length-total all, length-total es)

reset-Stocked :
    (h : Heap) (ps : List Partition) (ess : List (List Ptr))
    → Stocked h ps ess
    → Stocked h (reset_all ps) ess
unfolding reset_all
reset-Stocked h [] (es ∷ ess) wrong = absurd (omega arith)
reset-Stocked h (p ∷ ps) [] wrong = absurd (omega arith)
reset-Stocked h [] [] stocked = tt
reset-Stocked h (p ∷ ps) (es ∷ ess) (v, within, rest) = (
  Linked-reorder v (λ e. refl) refl refl refl refl v.lru_order,
  within,
  reset-Stocked h ps ess rest,
)

cleared :
    (field : Partition → ℕ)
    → ((p : Partition) → field (reset_counters p) ≡ 0)
    → (ps : List Partition) → sum_from 32 field 0 (reset_all ps) ≡ 0
unfolding sum_from reset_all
cleared field zeros [] = refl
cleared field zeros (p ∷ ps) =
    let same : (0 + field (reset_counters p)) % 2 ^ 32 ≡ 0 = omega (arith, zeros p) in
    ap (λ n. sum_from 32 field n (reset_all ps)) same ∙ cleared field zeros ps

-- A reset leaves the elements and clears the three counters.
pub stats_reset_refines :
    (h : Heap) (t : HashTable) (ess : List (List Ptr))
    → Stocked h t.partitions ess
    → Stocked h (stats_reset t).partitions ess
      × (stats_get_nhits (stats_reset t) ≡ 0)
      × (stats_get_nlookups (stats_reset t) ≡ 0)
      × (stats_get_ninserts (stats_reset t) ≡ 0)
unfolding stats_reset stats_get_nhits stats_get_nlookups stats_get_ninserts
stats_reset_refines h t ess stocked = (
  reset-Stocked h t.partitions ess stocked,
  cleared (λ p. p.nhits) (λ p. refl) t.partitions,
  cleared (λ p. p.nlookups) (λ p. refl) t.partitions,
  cleared (λ p. p.ninserts) (λ p. refl) t.partitions,
)
