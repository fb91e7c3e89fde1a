-- ===== src/Tests/Lifetime.antt =====
-- A table from its creation to its end.
use smphash_table.Base.{
  ℕ, ◌≤◌, ◌<◌, ◌≡◌, refl, [], ◌∷◌, length-replicate, replicate, arith, Returns, fault, dangling,
  abort, ◌⊎◌,
}
use smphash_table.Memory.{Ptr}
use smphash_table.Alock.{max_clients}
use smphash_table.Partition.{fresh_partition, hash_size, max_ten}
use smphash_table.Partition.Destroy.{AllReleased}
use smphash_table.Partition.Linked.{size_at}
use smphash_table.Partition.Lists.{occurs, total}
use smphash_table.Table.{
  HashTable, Stale, create_hash_table, create_hash_table_client, destroy_hash_table, stats_get_mem,
}
use smphash_table.Table.Stats.{Stocked, sum_of, stats_get_mem_refines}
use smphash_table.Table.Life.{NewTable, create_hash_table_refines}
use smphash_table.Table.Destroyed.{destroy_hash_table_refines}
use smphash_table.Table.Clients.{Filed, Created, create_hash_table_client_refines}
use smphash_table.Tests.Table.{one_element_memory, one_element_partition, one_element-Linked}

abbrev fresh : Stale
fresh = record {
  quitting = 7;
  track_cpu_usage = 7;
  values = replicate 65536 0;
  servers = replicate 65536 0;
}

create_hash_table_refines_example :
    ((4 ≤ max_clients)
      × Returns (create_hash_table fresh 6000 4 1) (NewTable one_element_memory 6000 4))
    ⊎ ((max_clients < 4) × (create_hash_table fresh 6000 4 1 ≡ fault abort))
create_hash_table_refines_example =
    create_hash_table_refines one_element_memory fresh 6000 4 1 (omega arith) (omega arith)
      (omega arith)

lifetime_code : Unit {0}
unfolding create_hash_table fresh_partition hash_size max_ten occurs total sum_of
lifetime_code = tt

-- A table of one partition, with one element.
abbrev one_partition : HashTable
one_partition = record {
  nservers = 1;
  nclients = 0;
  max_size = 1000;
  quitting = 0;
  thread_data = [];
  partitions = one_element_partition ∷ [];
  pending_data = [];
  boxes = [];
  track_cpu_usage = 0;
}

one_partition-Stocked : Stocked one_element_memory one_partition.partitions ((100 ∷ []) ∷ [])
unfolding lifetime_code
one_partition-Stocked = (one_element-Linked, omega arith, tt)

occurs_once : (q : Ptr) → occurs q (100 ∷ []) ≤ 1
unfolding occurs
occurs_once q = ground arith

destroy_hash_table_refines_example :
    Returns
      (destroy_hash_table one_element_memory one_partition)
      (AllReleased one_element_memory (100 ∷ []))
destroy_hash_table_refines_example =
    destroy_hash_table_refines one_element_memory one_partition ((100 ∷ []) ∷ [])
      one_partition-Stocked occurs_once

stats_get_mem_refines_example :
    ((stats_get_mem one_partition).0 ≡ total (size_at one_element_memory) (100 ∷ []))
    × ((stats_get_mem one_partition).1 ≡ sum_of (λ p. p.max_size) one_partition.partitions)
    × ((stats_get_mem one_partition).0 ≤ (stats_get_mem one_partition).1)
unfolding lifetime_code
stats_get_mem_refines_example =
    stats_get_mem_refines one_element_memory one_partition ((100 ∷ []) ∷ []) one_partition-Stocked
      (omega arith)

one_client-Filed : Filed one_partition
one_client-Filed = record { pending = refl; boxed = refl; bound = omega arith }

create_hash_table_client_refines_example :
    (one_partition.nclients < 1024
      → Returns (create_hash_table_client fresh one_partition) (Created one_partition))
    × (one_partition.nclients ≡ 1024
        → create_hash_table_client fresh one_partition ≡ fault dangling)
create_hash_table_client_refines_example =
    create_hash_table_client_refines fresh one_partition one_client-Filed
      (length-replicate {A = ℕ} 65536 0) (length-replicate {A = ℕ} 65536 0)
