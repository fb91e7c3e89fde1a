-- ===== src/Tests/Table.antt =====
-- A partition of partition.c.
use smphash_table.Base.{
  ℕ, ◌+◌, ◌/◌, ◌^◌, ◌≤◌, ◌≡◌, refl, none, some, [], arith, Returns, ◌==◌, ◌∷◌, ap, ℕ_discrete,
  get_or, zero, suc, ◌<◌, if◌then◌else◌,
}
use smphash_table.Memory.{Heap, Ptr, Elem, mp_release, atomic_release, is_value_ready}
use smphash_table.Memory.Counts.{is_value_ready_iff}
use smphash_table.Partition.{
  Partition, hash_get_bucket, Allocator, destroy_hash_partition, fresh_partition, hash_size,
  max_ten, hash_lookup, hash_insert, rounded_size, elem_bytes, remove, last, walk, move_to_front,
  touch, hash_remove, try_alloc, victim, pick_random, make_room, drop_old, link,
}
use smphash_table.Partition.Lists.{occurs, total}
use smphash_table.Partition.Linked.{Linked, key_at}
use smphash_table.Partition.Destroy.{AllReleased, destroy_hash_partition_refines}
use smphash_table.Partition.Init.{init-Linked, hash_size-ge}
use smphash_table.Partition.Lookup.{LookedUp, hash_lookup_refines}
use smphash_table.Partition.Remove.{mp-Releaser}
use smphash_table.Partition.Evict.{Succeeds}
use smphash_table.Partition.Insert.{Inserted, hash_insert_refines}

abbrev pub no_memory : Heap
no_memory q = none

-- An allocator that always hands out address 100, and fresh memory that holds zeros.
abbrev pub one_cell : Allocator
one_cell = record { memalign = λ b n h. some 100; stale = λ e. 0 }

pub one_cell-Succeeds : Succeeds one_cell no_memory
one_cell-Succeeds = record { gives = λ b n h low. (100, refl, low 100 refl) }

abbrev pub small_partition : Partition
small_partition = fresh_partition 1000 1 1

-- One element of 128 bytes, in the first of two chains.
abbrev pub one_element : Elem
one_element = record { key = 4; ref_count = 1; size = 128 }

abbrev pub one_element_memory : Heap
one_element_memory q = if 100 == q then some one_element else none

abbrev pub one_element_partition : Partition
one_element_partition = record small_partition {
  nhash = 2;
  size = 128;
  table = (100 ∷ []) ∷ [] ∷ [];
  lru = 100 ∷ [];
}

table_code : Unit {0}
unfolding fresh_partition hash_size max_ten hash_lookup hash_insert rounded_size elem_bytes remove
    last walk move_to_front touch hash_remove try_alloc victim pick_random make_room drop_old link
    mp_release
table_code = tt

small-Linked : Linked no_memory small_partition 0 []
small-Linked = init-Linked no_memory 1000 1 1 (omega arith)

hash_size_of_1000 : hash_size 1000 1 ≡ 9
unfolding table_code
hash_size_of_1000 = refl

init-Linked_example : Linked no_memory small_partition 0 []
init-Linked_example = init-Linked no_memory 1000 1 1 (omega arith)

hash_size-ge_example : 9 ≤ hash_size 1000 1
hash_size-ge_example = hash_size-ge 1000 1 (omega arith)

hash_lookup_refines_example :
    Returns (hash_lookup no_memory small_partition 5) (LookedUp no_memory small_partition 0 5 [])
hash_lookup_refines_example = hash_lookup_refines 5 small-Linked

small_value : rounded_size 10 ≡ 128
unfolding table_code
small_value = refl

hash_insert_refines_example :
    Returns
      (hash_insert one_cell mp_release [] 5 10 no_memory small_partition)
      (Inserted one_cell mp_release 5 10 no_memory small_partition [])
unfolding table_code
hash_insert_refines_example =
    hash_insert_refines one_cell-Succeeds mp-Releaser [] 5 10 small-Linked refl (omega arith)
      (omega arith) (omega arith)

is_value_ready_iff_example :
    is_value_ready (record { key = 1; ref_count = 2 ^ 63 + 2; size = 64 })
    ≡ ((2 ^ 63 + 2) / 2 ^ 63 == 0)
is_value_ready_iff_example =
    is_value_ready_iff (record { key = 1; ref_count = 2 ^ 63 + 2; size = 64 }) (omega arith)

only : (e : Ptr) → 0 < occurs e (100 ∷ []) → e ≡ 100
unfolding occurs
only e i = ground arith

placed :
    (e : Ptr) (i : ℕ)
    → i < 2
    → occurs e (get_or one_element_partition.table i []) ≡ (
        if hash_get_bucket one_element_partition (key_at one_element_memory e) == i
        then occurs e (100 ∷ [])
        else 0)
unfolding occurs
placed e zero lt = elim (ℕ_discrete e 100) [ yes same ↦ rw same | no other ↦ ground arith ]
placed e (suc zero) lt = elim (ℕ_discrete e 100) [ yes same ↦ rw same | no other ↦ ground arith ]
placed e (suc (suc i)) lt = absurd (omega arith)

pub one_element-Linked : Linked one_element_memory one_element_partition 0 (100 ∷ [])
unfolding table_code occurs total
one_element-Linked = record {
  buckets = refl;
  nonempty = omega arith;
  once = λ e. ground arith;
  live = λ e i. (one_element, ap one_element_memory (only e i));
  placed = placed;
  unique = λ e f i j same. ground (arith, i, j);
  lru_order = λ a. refl;
  accounted = refl;
  sizes = omega arith;
}

destroy_hash_partition_refines_example :
    Returns
      (destroy_hash_partition atomic_release one_element_memory one_element_partition)
      (AllReleased one_element_memory (100 ∷ []))
destroy_hash_partition_refines_example = destroy_hash_partition_refines one_element-Linked
