-- ===== src/HashServer/Doqueries.antt =====
-- doqueries of hashserver2.c: the queries of a batch by one of the three designs.
pub mod Batch
use smphash_table.Base.{
  ℕ, ◌+◌, ◌-◌, ◌^◌, Option, none, some, Bool, List, [], ◌∷◌, ◌==◌, ltb, if◌then◌else◌, Run, ok,
  fault, abort, ◌>>=◌, ◌>>◌, assert, ◌||◌,
}
use smphash_table.Protocol.{HashQuery, optype_lookup}
use smphash_table.Partition.{Allocator}
use smphash_table.Client.{
  Boxes, Pending, smp_hash_lookup, smp_hash_insert, smp_get_next, mp_release_value, mp_mark_ready,
}
use smphash_table.Memory.{Heap}
use smphash_table.Client.Doall.{smp_hash_doall}
use smphash_table.Locking.{
  Shared, locking_hash_lookup, locking_hash_insert, atomic_release_value, atomic_mark_ready,
}

-- The table as the client sees it with the message-passing designs, and with the locking design.
pub record Tables (W : Type 0) : Type 0 where
  pub pending : Pending
  pub boxes : W
  pub shared : Shared

-- A uint32_t passed as an int, which goes into a word of 64 bits.
abbrev pub sign_extended : ℕ → ℕ
sign_extended size = if ltb size (2 ^ 31) then size else size + 2 ^ 64 - 2 ^ 32

-- `assert(r == 1)` behind smp_get_next, and the value.
abbrev pub handed_out : Option ℕ → Run ℕ
handed_out none = fault abort
handed_out (some value) = ok value

module _ {W : Type 0} (boxes : Boxes W) (nservers : ℕ) where
  -- The `if` of the first loop.
  unfoldable pub send_one : HashQuery → Pending → W → Run (Bool × Pending × W)
  send_one q pd w =
      if q.optype == optype_lookup
      then smp_hash_lookup boxes nservers q.key pd w
      else smp_hash_insert boxes nservers q.key (sign_extended q.size) pd w

  -- The first loop of `case 1`.
  unfoldable pub send_queries : List HashQuery → Pending → W → Run (Pending × W)
  send_queries [] pd w = ok (pd, w)
  send_queries (q ∷ qs) pd w = do (r, pd', w') ← send_one q pd w; assert r; send_queries qs pd' w'

  -- The second, a value for each query.
  unfoldable pub next_values : List HashQuery → Pending → W → Run (List ℕ × Pending × W)
  next_values [] pd w = ok ([], pd, w)
  next_values (q ∷ qs) pd w = do
    (r, pd', w') ← smp_get_next boxes pd w
    value ← handed_out r
    (values, pd'', w'') ← next_values qs pd' w'
    ok (value ∷ values, pd'', w'')

  unfoldable pub mp_queries : List HashQuery → Pending → W → Run (List ℕ × Pending × W)
  mp_queries queries pd w = do (pd', w') ← send_queries queries pd w; next_values queries pd' w'

-- The loop of `case 3`.
unfoldable pub locking_queries : Allocator → ℕ → List HashQuery → Shared → Run (List ℕ × Shared)
locking_queries alloc nservers [] t = ok ([], t)
locking_queries alloc nservers (q ∷ qs) t = do
  (value, t') ←
      (if q.optype == optype_lookup
        then locking_hash_lookup nservers q.key t
        else locking_hash_insert alloc nservers q.key q.size t)
  (values, t'') ← locking_queries alloc nservers qs t'
  ok (value ∷ values, t'')

-- The `switch` on the design.
unfoldable pub doqueries :
    {W : Type 0} → Boxes W → Allocator → ℕ → ℕ → List HashQuery → Tables W → Run (List ℕ × Tables W)
doqueries boxes alloc nservers design queries t =
    if design == 1
    then (do
      (values, pd, w) ← mp_queries boxes nservers queries t.pending t.boxes
      ok (values, record t { pending = pd; boxes = w }))
    else (if design == 2
        then (do
          (values, w) ← smp_hash_doall boxes nservers queries t.boxes
          ok (values, record t { boxes = w }))
        else (if design == 3
            then (do
              (values, s) ← locking_queries alloc nservers queries t.shared
              ok (values, record t { shared = s }))
            else fault abort))

-- release_value and mark_ready, on the memory that a client reads the key of the element from.
unfoldable pub release_value : {W : Type 0} → Boxes W → ℕ → Heap → ℕ → ℕ → Tables W → Run (Tables W)
release_value boxes nservers h design ptr t =
    if (design == 1) || (design == 2)
    then (do w ← mp_release_value boxes nservers h ptr t.boxes; ok (record t { boxes = w }))
    else (do s ← atomic_release_value ptr t.shared; ok (record t { shared = s }))

unfoldable pub mark_ready : {W : Type 0} → Boxes W → ℕ → Heap → ℕ → ℕ → Tables W → Run (Tables W)
mark_ready boxes nservers h design ptr t =
    if (design == 1) || (design == 2)
    then (do w ← mp_mark_ready boxes nservers h ptr t.boxes; ok (record t { boxes = w }))
    else (do s ← atomic_mark_ready ptr t.shared; ok (record t { shared = s }))
