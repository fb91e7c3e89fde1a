-- ===== src/Memory.antt =====
-- The elements of the table in memory: `struct elem` of partition.h, reference counts, and the two
-- release functions of smphashtable.c (message passing and atomic).
pub mod Counts
pub mod Life
use smphash_table.Base.{
  ℕ, ◌+◌, ◌-◌, ◌%◌, ◌^◌, Option, none, some, Bool, true, false, bit_and, bit_or, ◌==◌,
  if◌then◌else◌, Run, ok, fault, dangling, ◌>>=◌,
}

-- An address. The value of an element starts right behind its header.
abbrev pub Ptr : Type 0
Ptr = ℕ

-- `struct elem`. Its links are the lists of `Partition`.
pub record Elem : Type 0 where
  pub key : ℕ
  pub ref_count : ℕ
  pub size : ℕ

-- The allocated elements; `none` is memory that was never allocated or has been freed.
abbrev pub Heap : Type 0
Heap = Ptr → Option Elem

abbrev pub update : Heap → Ptr → Option Elem → Heap
update h e v q = if e == q then v else h q

abbrev pub deref : Heap → Ptr → Run Elem
deref h e = elim (h e) [ none ↦ fault dangling | some x ↦ ok x ]

-- DATA_READY_MASK and its complement. The bit is set while the data is NOT ready.
abbrev pub data_ready_mask : ℕ
data_ready_mask = 0x8000_0000_0000_0000

abbrev pub not_data_ready_mask : ℕ
not_data_ready_mask = 0x7fff_ffff_ffff_ffff

unfoldable pub is_value_ready : Elem → Bool
is_value_ready x = bit_and x.ref_count data_ready_mask == 0

abbrev pub dec64 : ℕ → ℕ
dec64 n = (n + 2 ^ 64 - 1) % 2 ^ 64

-- The store of a count, and `free` where it is zero.
abbrev pub put_count : Heap → Ptr → Elem → ℕ → Heap
put_count h e x rc = update h e (if rc == 0 then none else some (record x { ref_count = rc }))

-- mp_release_value_
unfoldable pub mp_release : Ptr → Heap → Run Heap
mp_release e h = do
  x ← deref h e
  ok (put_count h e x (dec64 (bit_and x.ref_count not_data_ready_mask)))

-- atomic_release_value_
unfoldable pub atomic_release : Ptr → Heap → Run Heap
atomic_release e h = do x ← deref h e; ok (put_count h e x (dec64 x.ref_count))

-- The body of `atomic_mark_ready`, at the header of its value.
unfoldable pub atomic_ready : Ptr → Heap → Run Heap
atomic_ready e h = do x ← deref h e; ok (put_count h e x (bit_and x.ref_count not_data_ready_mask))
