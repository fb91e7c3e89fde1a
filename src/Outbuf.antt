-- ===== src/Outbuf.antt =====
-- mpbuffers.c, the output buffer: a server appends replies, the client takes them in order.
-- The unsigned long indices run freely and wrap at 2^64.
pub mod Refine
use smphash_table.Base.{
  ℕ, ◌+◌, ◌%◌, ◌^◌, Option, none, some, List, [], ◌∷◌, length, set, get_or, replicate, bit_and, Run,
  ok, fault, abort, waiting, ◌>>=◌, ◌>>◌, assert, leb, ◌==◌, if◌then◌else◌,
}

-- OUTB_SIZE
abbrev pub outb_size : ℕ
outb_size = 64

pub record OutputBuffer : Type 0 where
  pub data_words : List ℕ
  pub wr_index : ℕ
  pub local_rd_index : ℕ
  pub local_wr_index : ℕ
  pub local_waitcnt : ℕ

-- What the memset of `create_hash_table_client` leaves.
abbrev pub zeroed_outb : OutputBuffer
zeroed_outb = record {
  data_words = replicate outb_size 0;
  wr_index = 0;
  local_rd_index = 0;
  local_wr_index = 0;
  local_waitcnt = 0;
}

-- The `for` loop of `outb_write`, from round `i` on; the list is `data[i .. write_count)`.
unfoldable pub store_words : List ℕ → ℕ → ℕ → List ℕ → List ℕ
store_words buf wr i [] = buf
store_words buf wr i (x ∷ xs) =
    store_words (set buf (bit_and ((wr + i) % 2 ^ 64) 63) x) wr (i + 1) xs

-- The list is `data[0 .. write_count)`.
abbrev pub written : OutputBuffer → List ℕ → OutputBuffer
written b ws = record b {
  data_words = store_words b.data_words b.wr_index 0 ws;
  wr_index = (b.wr_index + length ws) % 2 ^ 64;
}

unfoldable pub outb_write : OutputBuffer → List ℕ → Run OutputBuffer
outb_write b ws = do assert (leb (length ws) outb_size); ok (written b ws)

-- The first `if` of `outb_read`: the reader looks at the shared index only when its copy is used up.
unfoldable pub refresh : OutputBuffer → OutputBuffer
refresh b =
    if b.local_rd_index == b.local_wr_index then record b { local_wr_index = b.wr_index } else b

-- The word that goes through `data`, where the call returns 1.
unfoldable pub outb_read : OutputBuffer → Option ℕ × OutputBuffer
outb_read b =
    let c = refresh b in
    if c.local_rd_index == c.local_wr_index then (none, c) else (
      some (get_or c.data_words (bit_and c.local_rd_index 63) 0),
      record c { local_rd_index = (c.local_rd_index + 1) % 2 ^ 64 },
    )

-- The spin of `outb_blocking_read`. What the server does between two reads is `env`, the batches
-- that it writes, one for each round of the loop; the batches left come back with the word.
unfoldable pub outb_blocking_read :
    List (List ℕ) → OutputBuffer → Run (ℕ × OutputBuffer × List (List ℕ))
outb_blocking_read [] b =
    let (r, c) = outb_read b in elim r [ none ↦ fault waiting | some v ↦ ok (v, c, []) ]
outb_blocking_read (ws ∷ env) b =
    let (r, c) = outb_read b in
    elim r [
      | none ↦ do
        c' ← outb_write (record c { local_waitcnt = (c.local_waitcnt + 1) % 2 ^ 64 }) ws
        outb_blocking_read env c'
      | some v ↦ ok (v, c, ws ∷ env)
    ]
