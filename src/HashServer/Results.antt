-- ===== src/HashServer/Results.antt =====
-- clientgo of hashserver2.c: what a client thread does with the values of a batch. Memory is a
-- function from addresses to bytes.
pub mod Answers
use smphash_table.Base.{
  ℕ, zero, suc, ◌+◌, ◌-◌, ◌%◌, ◌^◌, Option, none, some, Bool, true, false, List, [], ◌∷◌, ◌++◌,
  length, ◌==◌, ltb, if◌then◌else◌, Run, ok, fault, abort, ◌>>=◌,
}
use smphash_table.Protocol.{HashQuery, le_bytes, le_value}
use smphash_table.HashServer.{Iovec, Write, write_iovs}
use smphash_table.HashServer.Sockets.{ClientData, socket_at, max_sockets}
use smphash_table.HashServer.Gather.{Entry, looked, inserted, store_at}

-- Some bytes of memory.
unfoldable pub load_bytes : (ℕ → ℕ) → ℕ → ℕ → List ℕ
load_bytes mem p zero = []
load_bytes mem p (suc n) = mem p ∷ load_bytes mem (suc p) n

-- `val->size` of struct hash_value; its data stand behind it.
unfoldable pub value_size : (ℕ → ℕ) → ℕ → ℕ
value_size mem val = le_value (load_bytes mem val 4)

abbrev pub same_socket : Option ℕ → Option ℕ → Bool
same_socket none none = true
same_socket none (some b) = false
same_socket (some a) none = false
same_socket (some a) (some b) = a == b

-- The memory of the values, the queues of `writeiov`, and the table behind mark_ready.
pub record Handling (W : Type 0) : Type 0 where
  pub mem : ℕ → ℕ
  pub writeiov : ℕ → List Iovec
  pub table : W

-- `iov_base` and `iov_len` of an answer; `null_value` is the address of NULL_VALUE.
unfoldable pub answer_iov : ℕ → (ℕ → ℕ) → ℕ → Iovec
answer_iov null_value mem val =
    if val == 0
    then record { iov_base = null_value; iov_len = 4 }
    else record { iov_base = val; iov_len = 4 + value_size mem val }

abbrev pub push_iov : (ℕ → List Iovec) → ℕ → Iovec → ℕ → List Iovec
push_iov queues sid v k = if sid == k then queues k ++ v ∷ [] else queues k

-- `queries[k].size - sizeof(uint32_t)`, stored in a uint32_t
abbrev pub stored_size : ℕ → ℕ
stored_size size = (size + 2 ^ 64 - 4) % 2 ^ 64 % 2 ^ 32

-- The size and the data of an inserted value.
unfoldable pub store_value : (ℕ → ℕ) → ℕ → HashQuery → ℕ → (ℕ → ℕ) → ℕ → ℕ
store_value valuebuf offset q val mem =
    let size = stored_size q.size in
    let sized = store_at mem val (le_bytes 4 size) in
    store_at sized (val + 4) (load_bytes valuebuf offset size)

-- `mark_ready` is called on the memory of the values as it stands then: other threads read it from
-- there on.
module _ {F W : Type 0} (null_value : ℕ) (mark_ready : ℕ → (ℕ → ℕ) → W → Run W) (valuebuf : ℕ → ℕ)
    (cd : ClientData F) where
  -- The `switch` for one value; 0 is NULL.
  unfoldable pub handle : Entry → ℕ → Handling W → Run (Handling W)
  handle (looked q sid socket) val h =
      if same_socket (socket_at cd sid) socket
      then ok (record h { writeiov = push_iov h.writeiov sid (answer_iov null_value h.mem val) })
      else ok h
  handle (inserted q offset) val h = if val == 0 then fault abort else (do
    let mem = store_value valuebuf offset q val h.mem
    w ← mark_ready val mem h.table
    ok (record h { mem = mem; table = w }))

  -- The loop over the queries and their values.
  unfoldable pub handle_all : List Entry → List ℕ → Handling W → Run (Handling W)
  handle_all [] values h = ok h
  handle_all (e ∷ es) [] h = ok h
  handle_all (e ∷ es) (val ∷ values) h = do h' ← handle e val h; handle_all es values h'

  module _ {S : Type 0} (release : ℕ → W → Run W) (writev : Option ℕ → Write (List Iovec) S)
      (rounds : ℕ) where
    -- The last loop, with the slots left: a queue that is written is empty again.
    unfoldable pub write_all : ℕ → ℕ → S → Handling W → Run (S × Handling W)
    write_all zero k s h = ok (s, h)
    write_all (suc left) k s h = elim (ltb 0 (length (h.writeiov k))) [
      | false ↦ write_all left (suc k) s h
      | true ↦ do
        (r, s', w) ←
            write_iovs null_value release (writev (socket_at cd k)) rounds (h.writeiov k)
              (length (h.writeiov k)) s h.table
        write_all left (suc k) s'
            (record h { table = w; writeiov = λ i. if k == i then [] else h.writeiov i })
    ]
