-- ===== src/HashServer/Gather.antt =====
-- clientgo of hashserver2.c: the queries that a client thread reads from its sockets for one batch.
pub mod Queries
pub mod Taken
use smphash_table.Base.{
  ℕ, zero, suc, ◌+◌, ◌%◌, ◌^◌, Option, none, some, Bool, true, false, ◌&&◌, ◌||◌, List, [], ◌∷◌,
  ◌++◌, length, bit_and, ◌==◌, ltb, leb, if◌then◌else◌, Run, ok, fault, dangling, out_of_fuel,
  ◌>>=◌,
}
use smphash_table.Protocol.{HashQuery, optype_lookup, optype_insert, query_of}
use smphash_table.HashServer.{Fread, read_object}
use smphash_table.HashServer.Sockets.{ClientData, socket_at, put_fin, close_socket}

-- MAX_VALUE_SIZE and VALUE_BUFFER_SIZE
abbrev pub max_value_size : ℕ
max_value_size = 1048576

abbrev pub value_buffer_size : ℕ
value_buffer_size = 2097152

-- A query of the batch: with query_sid and query_socket, or with valueoffset.
pub data Entry : Type 0 where
  looked : HashQuery → ℕ → Option ℕ → Entry
  inserted : HashQuery → ℕ → Entry

-- The locals of the loop; `slot` is `i`.
pub record Gathering (F : Type 0) : Type 0 where
  pub entries : List Entry
  pub bufoffset : ℕ
  pub valuebuf : ℕ → ℕ
  pub slot : ℕ
  pub last_socket : ℕ
  pub cd : ClientData F

abbrev pub store_at : (ℕ → ℕ) → ℕ → List ℕ → ℕ → ℕ
store_at buf offset [] k = buf k
store_at buf offset (b ∷ bs) k = if k == offset then b else store_at buf (suc offset) bs k

abbrev pub with_stream : {F : Type 0} → Gathering F → F → Gathering F
with_stream g f = record g { cd = record g.cd { fin = put_fin g.cd.fin g.slot (some f) } }

abbrev pub append_entry : {F : Type 0} → Gathering F → Entry → Gathering F
append_entry g e = record g { entries = g.entries ++ e ∷ [] }

-- Behind the reading of a value: it stands in `valuebuf` from `bufoffset` on.
unfoldable pub take_value :
    {F : Type 0} → HashQuery → ℕ → List ℕ → Gathering F → Run (ℕ × Gathering F)
take_value q r bytes g =
    if ltb value_buffer_size (g.bufoffset + length bytes)
    then fault dangling
    else (let stored = record g { valuebuf = store_at g.valuebuf g.bufoffset bytes } in
        if r == 0
        then ok (
          0,
          record stored {
            entries =
                g.entries ++ inserted (record q { size = (q.size + 4) % 2 ^ 32 }) g.bufoffset ∷ [];
            bufoffset = g.bufoffset + q.size;
          },
        )
        else ok (r, stored))

abbrev pub next_slot : {F : Type 0} → Gathering F → ℕ
next_slot g = bit_and (g.slot + 1) 127

-- The end of a round, with the result `r`: a failed socket is closed, and one that is closed or not
-- ready passes the turn on. The flag says that the loop breaks.
unfoldable pub pass_on : {F : Type 0} → ℕ → Gathering F → Bool × Gathering F
pass_on r g =
    let g' = if r == 2 then record g { cd = close_socket g.cd g.slot } else g in
    if (r == 2) || (r == 1)
    then (
      ltb 0 (length g.entries) && (next_slot g == g.last_socket),
      record g' { slot = next_slot g },
    )
    else (false, g')

module _ {F : Type 0} (fread : Fread F) (fuel : ℕ) where
  -- The `do` loop, with the rounds left.
  unfoldable pub read_value : ℕ → ℕ → F → Run (ℕ × List ℕ × F)
  read_value zero size f = fault out_of_fuel
  read_value (suc rounds) size f = do
    (r, bytes, f') ← read_object fread fuel size f
    elim (r == 1) [ true ↦ read_value rounds size f' | false ↦ ok (r, bytes, f') ]

  -- The `switch` on the operation of the query; `f` is the stream behind it.
  unfoldable pub take_op : HashQuery → F → Gathering F → Run (ℕ × Gathering F)
  take_op q f g =
      if q.optype == optype_lookup
      then ok (0, append_entry (with_stream g f) (looked q g.slot (socket_at g.cd g.slot)))
      else (if q.optype == optype_insert
          then (do
            (r, bytes, f') ← read_value fuel q.size f
            take_value q r bytes (with_stream g f'))
          else ok (2, with_stream g f))

  -- The `if` of an open socket, up to the handling of the result `r`.
  unfoldable pub take_query : F → Gathering F → Run (ℕ × Gathering F)
  take_query f g = do
    (r, bytes, f') ← read_object fread fuel 16 f
    elim (r == 0) [
      | false ↦ ok (r, with_stream g f')
      | true ↦ take_op (query_of bytes) f' (record g { last_socket = g.slot })
    ]

  -- A socket that is not open passes the turn on, as one that is not ready does.
  unfoldable pub try_socket : Gathering F → Run (ℕ × Gathering F)
  try_socket g = elim (socket_at g.cd g.slot) [
    | none ↦ ok (1, g)
    | some s ↦ elim (g.cd.fin g.slot) [ none ↦ fault dangling | some f ↦ take_query f g ]
  ]

  -- One round of the loop.
  unfoldable pub gather_step : ℕ → Gathering F → Run (Bool × Gathering F)
  gather_step batch_size g =
      if leb batch_size (length g.entries) || leb value_buffer_size (g.bufoffset + max_value_size)
      then ok (true, g)
      else (do (r, g') ← try_socket g; ok (pass_on r g'))

  -- The loop, with the rounds left.
  unfoldable pub gather : ℕ → ℕ → Gathering F → Run (Gathering F)
  gather batch_size zero g = fault out_of_fuel
  gather batch_size (suc rounds) g = do
    (stop, g') ← gather_step batch_size g
    elim stop [ true ↦ ok g' | false ↦ gather batch_size rounds g' ]
