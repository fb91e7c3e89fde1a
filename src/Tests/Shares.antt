-- ===== src/Tests/Shares.antt =====
-- The locking design of smphashtable.c, and the batches of hashserver2.c that use one of the designs.
use smphash_table.Base.{
  ℕ, ◌+◌, ◌^◌, ◌≤◌, ◌<◌, ◌≡◌, ◌↔◌, ◌⊎◌, refl, ap, inl, inr, none, some, Bool, true, false, [], ◌∷◌,
  length, arith, ◌==◌, if◌then◌else◌, eq→==, ne→==, fault, abort, Returns, ℕ_discrete,
}
use smphash_table.Memory.{Heap, Ptr, update}
use smphash_table.Partition.{Allocator, rounded_size, elem_bytes, fresh_partition}
use smphash_table.Partition.Lists.{occurs}
use smphash_table.Partition.Linked.{Linked-count}
use smphash_table.Partition.Evict.{Succeeds}
use smphash_table.Server.{value_of}
use smphash_table.Locking.{
  Shared, entered, locking_hash_lookup, locking_hash_insert, atomic_release_value,
  atomic_mark_ready,
}
use smphash_table.Locking.Shares.{bit_of, finished}
use smphash_table.Locking.Lookups.{Sharing, Looked, SameElsewhere, locking_hash_lookup_refines}
use smphash_table.Locking.Inserts.{Added, locking_hash_insert_refines}
use smphash_table.Locking.Frees.{one_less, atomic_release_value_refines, atomic_mark_ready_refines}
use smphash_table.Client.Owed.{Outstanding}
use smphash_table.HashServer.Doqueries.{Tables, doqueries}
use smphash_table.HashServer.Doqueries.Batch.{doqueries_refines}
use smphash_table.Client.Doall.Serves.{serve_in_order}
use smphash_table.Channel.{Lane}
use smphash_table.Tests.Pending.{
  first_state, idle, boxes_here, servers_here, here-Serves, new_client, new-Outstanding,
  three_queries, three_queries_servable,
}
use smphash_table.Tests.Table.{
  one_cell, one_element, one_element_memory, one_element_partition, one_element-Linked,
}

-- The element at 100 is in the table, with a count word, the references beside it, and its writer.
abbrev counted_memory : ℕ → Heap
counted_memory c = update one_element_memory 100 (some (record one_element { ref_count = c }))

abbrev shared_table : ℕ → Shared
shared_table c = record {
  heap = counted_memory c;
  partitions = one_element_partition ∷ [];
  clock = [];
}

abbrev refs_of : ℕ → Ptr → ℕ
refs_of r q = if 100 == q then r else 0

abbrev writing_of : Bool → Ptr → Bool
writing_of w q = if 100 == q then w else false

shares_code : Unit {0}
unfolding occurs rounded_size elem_bytes fresh_partition
shares_code = tt

shared-Sharing :
    (c r : ℕ) (w : Bool)
    → c ≡ 1 + r + bit_of w
    → r < 10
    → Sharing (entered (shared_table c) 0) (100 ∷ []) (refs_of r) (writing_of w)
unfolding shares_code
shared-Sharing c r w count few = record {
  linked = Linked-count 100 one_element c one_element-Linked refl;
  algo = refl;
  fits = omega arith;
  bound = omega arith;
  shares = record {
    owned = λ q. elim (ℕ_discrete 100 q) [
      | yes same ↦
          rw (eq→== 100 q same, eq→== q 100 (ap (λ n. n) (omega (arith, same))))
            (record { count = count; held = omega arith; few = omega arith })
      | no other ↦ rw (ne→== 100 q other, ne→== q 100 (λ t. other (omega arith))) (refl, refl, refl)
    ];
  };
}

locking_hash_lookup_refines_example :
    Returns (locking_hash_lookup 1 4 (shared_table 1)) (λ (value, t').
      Looked 4
        (entered (shared_table 1) 0)
        (100 ∷ [])
        (refs_of 0)
        (writing_of false)
        (value, entered t' 0)
      × SameElsewhere (shared_table 1) 0 t')
locking_hash_lookup_refines_example =
    locking_hash_lookup_refines 1 4 (shared_table 1) (omega arith) refl
      (shared-Sharing 1 0 false refl (omega arith)) (λ q. ground arith)

-- An allocator that always hands out address 200.
abbrev next_cell : Allocator
next_cell = record { memalign = λ b n h. some 200; stale = λ e. 0 }

next_cell-Succeeds : Succeeds next_cell (counted_memory 1)
next_cell-Succeeds = record { gives = λ b n h low. (200, refl, low 200 refl) }

locking_hash_insert_refines_example :
    Returns (locking_hash_insert next_cell 1 4 10 (shared_table 1)) (λ (value, t').
      Added 4 10
        (entered (shared_table 1) 0)
        (100 ∷ [])
        (refs_of 0)
        (writing_of false)
        (value, entered t' 0)
      × SameElsewhere (shared_table 1) 0 t')
unfolding shares_code
locking_hash_insert_refines_example =
    locking_hash_insert_refines 1 4 10 (shared_table 1) (omega arith) refl
      (shared-Sharing 1 0 false refl (omega arith)) next_cell-Succeeds (omega arith)

atomic_release_value_refines_example :
    Returns (atomic_release_value (value_of 100) (shared_table 2)) (λ t'.
      Sharing (entered t' 0) (100 ∷ []) (one_less (refs_of 1) 100) (writing_of false)
      × (t'.partitions ≡ (shared_table 2).partitions)
      × ((t'.heap 100 ≡ none)
          ↔ ((occurs 100 (100 ∷ []) + refs_of 1 100 ≡ 1) × (writing_of false 100 ≡ false))))
atomic_release_value_refines_example =
    atomic_release_value_refines (shared_table 2) 0 100 (omega arith)
      (shared-Sharing 2 1 false refl (omega arith)) (omega arith)

atomic_mark_ready_refines_example :
    Returns (atomic_mark_ready (value_of 100) (shared_table (2 ^ 63 + 1))) (λ t'.
      Sharing (entered t' 0) (100 ∷ []) (refs_of 0) (finished (writing_of true) 100)
      × (t'.partitions ≡ (shared_table (2 ^ 63 + 1)).partitions)
      × ((t'.heap 100 ≡ none) ↔ (occurs 100 (100 ∷ []) + refs_of 0 100 ≡ 0)))
atomic_mark_ready_refines_example =
    atomic_mark_ready_refines (shared_table (2 ^ 63 + 1)) 0 100 (omega arith)
      (shared-Sharing (2 ^ 63 + 1) 0 true refl (omega arith)) refl

-- The first design over the same queries.
abbrev new_tables : Tables (ℕ → Lane)
new_tables = record { pending = new_client; boxes = idle; shared = shared_table 1 }

doqueries_refines_example :
    ((length three_queries ≤ 65536)
      × Returns (doqueries boxes_here one_cell 3 1 three_queries new_tables) (λ (values, t').
        (values ≡ serve_in_order servers_here.step 3 (λ s. first_state) three_queries)
        × Outstanding servers_here 3 t'.pending t'.boxes []))
    ⊎ ((65536 < length three_queries)
        × (doqueries boxes_here one_cell 3 1 three_queries new_tables ≡ fault abort))
doqueries_refines_example =
    doqueries_refines here-Serves (omega arith) one_cell three_queries new_tables new-Outstanding
      (
        (omega arith, inr (refl, λ e. omega arith)),
        ((omega arith, inl refl), ((omega arith, inl refl), tt)),
      )
      (omega arith, (omega arith, (omega arith, tt))) three_queries_servable
