-- ===== src/Protocol.antt =====
-- hashprotocol.h: a query as it stands in memory and goes over the wire, in the little-endian layout
-- of the machines that the program is for.
pub mod Bytes
use smphash_table.Base.{ℕ, zero, suc, ◌+◌, ◌*◌, ◌/◌, ◌%◌, List, [], ◌∷◌, ◌++◌, take, drop, length}

-- OPTYPE_LOOKUP and OPTYPE_INSERT
abbrev pub optype_lookup : ℕ
optype_lookup = 0

abbrev pub optype_insert : ℕ
optype_insert = 1

-- `struct hash_query`
pub record HashQuery : Type 0 where
  pub optype : ℕ
  pub size : ℕ
  pub key : ℕ

-- `struct client_query`, with the bytes at `value`.
pub record ClientQuery : Type 0 where
  pub optype : ℕ
  pub key : ℕ
  pub size : ℕ
  pub value : List ℕ

-- The bytes of an integer of some width in memory, and the integer that bytes in memory make.
unfoldable pub le_bytes : ℕ → ℕ → List ℕ
le_bytes zero n = []
le_bytes (suc width) n = n % 256 ∷ le_bytes width (n / 256)

unfoldable pub le_value : List ℕ → ℕ
le_value [] = 0
le_value (b ∷ bs) = b + 256 * le_value bs

-- The sixteen bytes of a query.
unfoldable pub query_bytes : HashQuery → List ℕ
query_bytes q = le_bytes 4 q.optype ++ le_bytes 4 q.size ++ le_bytes 8 q.key

unfoldable pub query_of : List ℕ → HashQuery
query_of bytes = record {
  optype = le_value (take 4 bytes);
  size = le_value (take 4 (drop 4 bytes));
  key = le_value (take 8 (drop 8 bytes));
}

-- What comes back for a lookup: the size of the value, and its bytes.
abbrev pub answer : List ℕ → List ℕ
answer value = le_bytes 4 (length value) ++ value
