-- ===== src/Locking.antt =====
-- smphashtable.c, the locking design: what a thread does to a partition between the acquire and the
-- release of its lock, as one step.
pub mod Shares
pub mod Lookups
pub mod Inserts
pub mod Frees
use smphash_table.Base.{
  ℕ, ◌+◌, ◌%◌, ◌^◌, Option, none, some, List, get_or, set, bit_or, Run, ok, ◌>>=◌,
}
use smphash_table.Memory.{Heap, update, deref, data_ready_mask, atomic_release, atomic_ready}
use smphash_table.Partition.{
  Partition, Allocator, evict_lru, fresh_partition, hash_lookup, hash_insert,
}
use smphash_table.Server.{State, value_of, inc32, hit}
use smphash_table.Client.{hash_get_server, elem_of}

-- The table of all threads, and the clock readings to come.
pub record Shared : Type 0 where
  pub heap : Heap
  pub partitions : List Partition
  pub clock : List ℕ

-- `&hash_table->partitions[s]`, and the stores through it.
abbrev pub entered : Shared → ℕ → State
entered t s = record {
  heap = t.heap;
  part = get_or t.partitions s (fresh_partition 0 1 evict_lru);
  clock = t.clock;
}

abbrev pub left : Shared → ℕ → State → Shared
left t s st = record { heap = st.heap; partitions = set t.partitions s st.part; clock = st.clock }

unfoldable pub locked_lookup : ℕ → State → Run (ℕ × State)
locked_lookup key s = do
  (r, p) ← hash_lookup s.heap (record s.part { nlookups = inc32 s.part.nlookups }) key
  elim r [
    | none ↦ ok (0, record s { part = p })
    | some e ↦ do x ← deref s.heap e; ok (hit e x (record s { part = p }))
  ]

unfoldable pub locked_insert : Allocator → ℕ → ℕ → State → Run (ℕ × State)
locked_insert alloc key size s = do
  (e, h, p, ts) ←
      hash_insert alloc atomic_release s.clock key size s.heap
        (record s.part { ninserts = inc32 s.part.ninserts })
  x ← deref h e
  ok (
    value_of e,
    record {
      heap = update h e (some (record x { ref_count = bit_or data_ready_mask 1 }));
      part = p;
      clock = ts;
    },
  )

unfoldable pub locking_hash_lookup : ℕ → ℕ → Shared → Run (ℕ × Shared)
locking_hash_lookup nservers key t =
    let s = hash_get_server nservers key in
    do (value, st) ← locked_lookup key (entered t s); ok (value, left t s st)

unfoldable pub locking_hash_insert : Allocator → ℕ → ℕ → ℕ → Shared → Run (ℕ × Shared)
locking_hash_insert alloc nservers key size t =
    let s = hash_get_server nservers key in
    do (value, st) ← locked_insert alloc key size (entered t s); ok (value, left t s st)

-- At the header in front of the value; the threads do this without the lock.
unfoldable pub atomic_release_value : ℕ → Shared → Run Shared
atomic_release_value ptr t = do h ← atomic_release (elem_of ptr) t.heap; ok (record t { heap = h })

unfoldable pub atomic_mark_ready : ℕ → Shared → Run Shared
atomic_mark_ready ptr t = do h ← atomic_ready (elem_of ptr) t.heap; ok (record t { heap = h })
