-- ===== src/Server.antt =====
-- smphashtable.c, the server's side: `hash_table_server` on the words that one client has published.
pub mod Batch
pub mod Serving
pub mod Releasing
pub mod Inserting
pub mod Rounds
use smphash_table.Base.{
  ℕ, zero, suc, ◌+◌, ◌%◌, ◌^◌, Option, none, some, Bool, true, false, List, [], ◌∷◌, ◌++◌, length,
  get_or, set, take, bit_and, bit_or, ◌==◌, ltb, if◌then◌else◌, Run, ok, fault, abort, dangling,
  out_of_fuel, ◌>>=◌,
}
use smphash_table.Memory.{
  Ptr, Elem, Heap, update, deref, data_ready_mask, is_value_ready, mp_release,
}
use smphash_table.Partition.{Partition, Allocator, hash_lookup, hash_insert}
use smphash_table.Message.{
  hashop_mask, not_hashop_mask, hashop_lookup, hashop_insert, hashop_release,
}

-- What one server owns: the memory of the elements, its partition, and the clock readings to come.
pub record State : Type 0 where
  pub heap : Heap
  pub part : Partition
  pub clock : List ℕ

-- `e->value`
abbrev pub value_of : Ptr → ℕ
value_of e = (e + 64) % 2 ^ 64

abbrev pub inc32 : ℕ → ℕ
inc32 n = (n + 1) % 2 ^ 32

-- `e->ref_count++`, `p->nhits++` and the value, if the data is ready
unfoldable pub hit : Ptr → Elem → State → ℕ × State
hit e x s =
    if is_value_ready x
    then (
      value_of e,
      record s {
        heap = update s.heap e (some (record x { ref_count = (x.ref_count + 1) % 2 ^ 64 }));
        part = record s.part { nhits = inc32 s.part.nhits };
      },
    )
    else (0, s)

-- `case HASHOP_LOOKUP`
unfoldable pub serve_lookup : ℕ → State → Run (ℕ × State)
serve_lookup key s = do
  (r, p) ← hash_lookup s.heap (record s.part { nlookups = inc32 s.part.nlookups }) key
  elim r [
    | none ↦ ok (0, record s { part = p })
    | some e ↦ do x ← deref s.heap e; ok (hit e x (record s { part = p }))
  ]

-- `case HASHOP_INSERT`; `hash_insert` never returns NULL
unfoldable pub serve_insert : Allocator → ℕ → ℕ → State → Run (ℕ × State)
serve_insert alloc key size s = do
  (e, h, p, ts) ←
      hash_insert alloc mp_release s.clock key size s.heap
        (record s.part { ninserts = inc32 s.part.ninserts })
  x ← deref h e
  ok (
    value_of e,
    record {
      heap = update h e (some (record x { ref_count = bit_or data_ready_mask 2 }));
      part = p;
      clock = ts;
    },
  )

-- `case HASHOP_RELEASE`
unfoldable pub serve_release : Ptr → State → Run State
serve_release e s = do h ← mp_release e s.heap; ok (record s { heap = h })

-- `localbuf[j] = value; j++`
abbrev pub put_reply : List ℕ → ℕ → ℕ → List ℕ
put_reply buf j v = set buf j v

-- The `switch`, on the operation and the operand of word `k`: the new `k`, `j`, `localbuf` and state.
-- The replies are written over words already read. `localbuf` has eight words: an insert as the last
-- of them reads behind it.
unfoldable pub dispatch : Allocator → ℕ → ℕ → ℕ → ℕ → List ℕ → State → Run (ℕ × ℕ × List ℕ × State)
dispatch alloc op arg k j buf s =
    if op == hashop_lookup
    then (do (v, s') ← serve_lookup arg s; ok (k + 1, j + 1, put_reply buf j v, s'))
    else (if op == hashop_insert
        then (if ltb (k + 1) 8
            then (do
              (v, s') ← serve_insert alloc arg (get_or buf (k + 1) 0) s
              ok (k + 2, j + 1, put_reply buf j v, s'))
            else fault dangling)
        else (if op == hashop_release
            then (do s' ← serve_release arg s; ok (k + 1, j, buf, s'))
            else fault abort))

module _ (alloc : Allocator) (count : ℕ) where
  -- The `while (k < count)` loop, with the rounds left.
  unfoldable pub serve_loop : ℕ → ℕ → ℕ → List ℕ → State → Run (ℕ × List ℕ × State)
  serve_loop zero k j buf s = if ltb k count then fault out_of_fuel else ok (j, buf, s)
  serve_loop (suc rounds) k j buf s = elim (ltb k count) [
    | false ↦ ok (j, buf, s)
    | true ↦
        let w = get_or buf k 0 in
        do
          (k', j', buf', s') ←
              dispatch alloc (bit_and w hashop_mask) (bit_and w not_hashop_mask) k j buf s
          serve_loop rounds k' j' buf' s'
  ]

-- The replies to one batch: `localbuf` holds the words of the batch and, behind them, what earlier
-- batches left there. Each round takes a word at least.
unfoldable pub serve_batch : Allocator → List ℕ → List ℕ → State → Run (List ℕ × List ℕ × State)
serve_batch alloc words stale s = do
  (j, buf, s') ← serve_loop alloc (length words) (length words) 0 0 (words ++ stale) s
  ok (take j buf, buf, s')
