-- ===== src/HashClient.antt =====
-- hashclient.c: queries written to a connection, and values read from it. The two streams of the
-- connection are the C library's, and parameters.
pub mod Wire
use smphash_table.Base.{
  ℕ, ◌+◌, ◌/◌, ◌%◌, ◌^◌, ◌-◌, Option, none, some, Bool, true, false, not, ◌&&◌, List, [], ◌∷◌,
  length, ◌==◌, ltb, if◌then◌else◌, Run, ok, fault, abort, dangling, ◌>>=◌, ◌>>◌, assert,
}
use smphash_table.Protocol.{HashQuery, ClientQuery, optype_insert, le_value, query_bytes}

-- `struct hashconn`: its streams, with `none` for NULL.
pub record HashConn (I O : Type 0) : Type 0 where
  pub fin : Option I
  pub fout : Option O

-- `fwrite(bytes, size, n, f)` with n items in all: how many are written, and the stream behind it.
abbrev pub Fwrite : Type 0 → Type 0
Fwrite O = ℕ → List ℕ → O → ℕ × O

-- The bytes that `fread(buf, size, n, f)` stores, at most n items of that size, and the stream
-- behind it.
abbrev pub ItemRead : Type 0 → Type 0
ItemRead I = ℕ → ℕ → I → List ℕ × I

abbrev pub hash_query_of : ClientQuery → HashQuery
hash_query_of query = record {
  optype = query.optype % 2 ^ 32;
  size = query.size % 2 ^ 32;
  key = query.key % 2 ^ 64;
}

abbrev pub to_out : {I O : Type 0} → HashConn I O → O → HashConn I O
to_out conn o = record conn { fout = some o }

module _ {O : Type 0} (fwrite : Fwrite O) where
  -- The two writes, on the stream.
  unfoldable pub send_bytes : ClientQuery → O → ℕ × O
  send_bytes query o =
      let header = fwrite 16 (query_bytes (hash_query_of query)) o in
      elim (header.0 == 1) [
        | false ↦ (0, header.1)
        | true ↦ elim ((query.optype == optype_insert) && ltb 0 query.size) [
          | false ↦ (1, header.1)
          | true ↦
              let body = fwrite 1 query.value header.1 in
              (if body.0 == query.size then 1 else 0, body.1)
        ]
      ]

module _ {I O : Type 0} (fwrite : Fwrite O) where
  unfoldable pub sendquery_ : Option (HashConn I O) → ClientQuery → ℕ × Option (HashConn I O)
  sendquery_ none query = (0, none)
  sendquery_ (some conn) query = elim conn.fout [
    | none ↦ (0, some conn)
    | some o ↦ let r = send_bytes fwrite query o in (r.0, some (to_out conn r.1))
  ]

module _ {I O : Type 0} (fwrite : Fwrite O) (fflush : O → O) where
  -- `fflush(conn->fout)`; with NULL it flushes the other streams.
  abbrev pub flush : Option (HashConn I O) → Run (Option (HashConn I O))
  flush none = fault dangling
  flush (some conn) =
      ok (some (record conn { fout = elim conn.fout [ none ↦ none | some o ↦ some (fflush o) ] }))

  unfoldable pub sendquery : Option (HashConn I O) → ClientQuery → Run (ℕ × Option (HashConn I O))
  sendquery conn query =
      let r = sendquery_ fwrite conn query in
      elim (r.0 == 0) [ true ↦ ok r | false ↦ do conn' ← flush r.1; ok (r.0, conn') ]

  unfoldable pub sendqueries :
      Option (HashConn I O) → List ClientQuery → Run (ℕ × Option (HashConn I O))
  sendqueries conn [] = do conn' ← flush conn; ok (1, conn')
  sendqueries conn (query ∷ queries) =
      let r = sendquery_ fwrite conn query in
      elim (r.0 == 0) [ true ↦ ok r | false ↦ sendqueries r.1 queries ]

abbrev pub to_in : {I O : Type 0} → HashConn I O → I → HashConn I O
to_in conn i = record conn { fin = some i }

-- An int: a number from 0 on, or -1, -2 and so on.
pub data ℤ : Type 0 where
  pos : ℕ → ℤ
  negsuc : ℕ → ℤ

-- `(int)size` of a uint32_t
unfoldable pub to_int : ℕ → ℤ
to_int size = if ltb size (2 ^ 31) then pos size else negsuc (2 ^ 32 - 1 - size)

-- `return -1`
abbrev pub minus_one : ℤ
minus_one = negsuc 0

module _ {I : Type 0} (fread : ItemRead I) where
  -- Behind the assertions: the int that is returned, and the bytes that stand at `value` then.
  unfoldable pub read_bytes : I → ℤ × List ℕ × I
  read_bytes i =
      let header = fread 4 1 i in
      elim (length header.0 / 4 == 1) [
        | false ↦ (minus_one, [], header.1)
        | true ↦
            let size = le_value header.0 in
            elim (ltb 0 size) [
              | false ↦ (to_int size, [], header.1)
              | true ↦
                  let body = fread 1 size header.1 in
                  (if length body.0 == size then to_int size else minus_one, body.0, body.1)
            ]
      ]

module _ {I O : Type 0} (fread : ItemRead I) where
  unfoldable pub readvalue : Option (HashConn I O) → Run (ℤ × List ℕ × Option (HashConn I O))
  readvalue none = fault abort
  readvalue (some conn) = elim conn.fin [
    | none ↦ fault abort
    | some i ↦ let r = read_bytes fread i in ok (r.0, r.1, some (to_in conn r.2))
  ]
