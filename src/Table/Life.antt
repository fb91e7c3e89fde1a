-- ===== src/Table/Life.antt =====
-- A new table: empty partitions that share the size.
use native.Mathlib.Nat.{mul-div-le, lt-mul-div-succ}
use smphash_table.Base.{
  ℕ, zero, suc, ◌+◌, ◌*◌, ◌/◌, ◌≤◌, ◌<◌, ◌≡◌, ap, ◌∙◌, [], length, length-replicate, replicate,
  arith, ◌^◌, ◌⊎◌, inl, inr, dec_lt, refl, ok, fault, abort, Returns,
}
use smphash_table.Memory.{Heap}
use smphash_table.Alock.{max_clients}
use smphash_table.Partition.{Partition, fresh_partition}
use smphash_table.Partition.Init.{
  init-Linked, init_hash_partition_returns, init_hash_partition_aborts,
}
use smphash_table.Table.{HashTable, Stale, init_partitions, create_hash_table}
use smphash_table.Table.Stats.{Stocked, sum_of}

empty-Stocked :
    (h : Heap) (n max_size nservers evictalgo : ℕ)
    → 0 < nservers
    → Stocked h (replicate n (fresh_partition max_size nservers evictalgo)) (replicate n [])
unfolding fresh_partition
empty-Stocked h zero max_size nservers evictalgo pos = tt
empty-Stocked h (suc n) max_size nservers evictalgo pos = (
  init-Linked h max_size nservers evictalgo pos,
  omega arith,
  empty-Stocked h n max_size nservers evictalgo pos,
)

sum-replicate :
    (field : Partition → ℕ) (n : ℕ) (p : Partition) → sum_of field (replicate n p) ≡ n * field p
unfolding sum_of
sum-replicate field zero p = omega arith
sum-replicate field (suc n) p = ap (λ k. field p + k) (sum-replicate field n p) ∙ grind arith

init_partitions_returns :
    (n share nservers evictalgo : ℕ)
    → 0 < nservers
    → nservers ≤ max_clients
    → share < 2 ^ 38
    → init_partitions n share nservers evictalgo
      ≡ ok (replicate n (fresh_partition share nservers evictalgo))
unfolding init_partitions
init_partitions_returns zero share nservers evictalgo pos few small = refl
init_partitions_returns (suc n) share nservers evictalgo pos few small =
    rw (init_hash_partition_returns share nservers evictalgo pos few small)
      (rw (init_partitions_returns n share nservers evictalgo pos few small) refl)

init_partitions_aborts :
    (n share nservers evictalgo : ℕ)
    → 0 < n
    → max_clients < nservers
    → nservers ≤ 2 ^ 30
    → share < 2 ^ 38
    → init_partitions n share nservers evictalgo ≡ fault abort
unfolding init_partitions
init_partitions_aborts zero share nservers evictalgo some_left many few small = absurd (omega arith)
init_partitions_aborts (suc n) share nservers evictalgo some_left many few small =
    rw (init_hash_partition_aborts share nservers evictalgo many few small) refl

-- For each server a partition that satisfies the invariant and holds no element, with limits that
-- add up to the size asked for, but for less than a byte for each server.
abbrev pub NewTable : Heap → ℕ → ℕ → HashTable → Type 0
NewTable h max_size nservers t =
    Stocked h t.partitions (replicate nservers [])
    × (length t.partitions ≡ nservers)
    × (sum_of (λ p. p.max_size) t.partitions ≤ max_size)
    × (max_size < sum_of (λ p. p.max_size) t.partitions + nservers)

-- With less than 2^38 bytes for each server: with one to 1024 servers create_hash_table returns a
-- table that has a partition for each of them, without elements, and whose limits are together at
-- most the size asked for, and less than it by fewer bytes than there are servers; with more servers,
-- up to 2^30, an assertion fails.
pub create_hash_table_refines :
    (h : Heap) (stale : Stale) (max_size nservers evictalgo : ℕ)
    → 0 < nservers
    → nservers ≤ 2 ^ 30
    → max_size / nservers < 2 ^ 38
    → ((nservers ≤ max_clients)
        × Returns
            (create_hash_table stale max_size nservers evictalgo)
            (NewTable h max_size nservers))
      ⊎ ((max_clients < nservers)
          × (create_hash_table stale max_size nservers evictalgo ≡ fault abort))
unfolding create_hash_table fresh_partition
create_hash_table_refines h stale max_size nservers evictalgo pos few small =
    let share = max_size / nservers in
    let p = fresh_partition share nservers evictalgo in
    let sum = sum-replicate (λ p. p.max_size) nservers p in
    elim (dec_lt max_clients nservers) [
      | yes many ↦ inr (
        many,
        rw (init_partitions_aborts nservers share nservers evictalgo pos many few small) refl,
      )
      | no enough ↦ inl (
        omega arith,
        (
          record {
            nservers = nservers;
            nclients = 0;
            max_size = max_size;
            quitting = stale.quitting;
            thread_data = [];
            partitions = replicate nservers p;
            pending_data = [];
            boxes = [];
            track_cpu_usage = stale.track_cpu_usage;
          },
          rw (init_partitions_returns nservers share nservers evictalgo pos (omega arith) small)
              refl,
          (
            empty-Stocked h nservers share nservers evictalgo pos,
            length-replicate nservers p,
            omega (arith, sum, mul-div-le max_size nservers),
            grind (arith, sum, lt-mul-div-succ max_size {b = nservers} pos),
          ),
        ),
      )
    ]
