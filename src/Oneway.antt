-- ===== src/Oneway.antt =====
-- onewaybuffer.c: a ring of words with one writer and one reader. The writer publishes its index when
-- it flushes, at the latest after eight words. The unsigned long indices run freely.
pub mod Refine
pub mod Reading
use smphash_table.Base.{
  ℕ, zero, suc, ◌+◌, ◌-◌, ◌%◌, ◌^◌, Bool, true, false, ◌||◌, List, [], ◌∷◌, length, set, get_or,
  replicate, bit_and, Run, ok, ◌>>=◌, ◌>>◌, assert, leb, ltb, ◌==◌, if◌then◌else◌,
}

-- ONEWAY_BUFFER_SIZE and BUFFER_FLUSH_COUNT
abbrev pub oneway_buffer_size : ℕ
oneway_buffer_size = 16

abbrev pub buffer_flush_count : ℕ
buffer_flush_count = 8

pub record OnewayBuffer : Type 0 where
  pub data_words : List ℕ
  pub rd_index : ℕ
  pub wr_index : ℕ
  pub tmp_wr_index : ℕ

unfoldable pub buffer_flush : OnewayBuffer → OnewayBuffer
buffer_flush b = record b { wr_index = b.tmp_wr_index }

-- The last `if` of the two writes.
abbrev pub flush_if : Bool → OnewayBuffer → OnewayBuffer
flush_if force b =
    if force || leb ((b.wr_index + buffer_flush_count) % 2 ^ 64) b.tmp_wr_index
    then buffer_flush b
    else b

-- The `for` loop of `buffer_write_all` from round `i` on; the list is the words left.
unfoldable pub store_all : List ℕ → ℕ → ℕ → List ℕ → List ℕ
store_all buf tmp i [] = buf
store_all buf tmp i (x ∷ xs) =
    store_all (set buf (bit_and ((tmp + i) % 2 ^ 64) 15) x) tmp (i + 1) xs

abbrev pub stored : OnewayBuffer → List ℕ → OnewayBuffer
stored b ws = record b {
  data_words = store_all b.data_words b.tmp_wr_index 0 ws;
  tmp_wr_index = (b.tmp_wr_index + length ws) % 2 ^ 64;
}

-- One test of the spin of `buffer_write`: `false` means that the call still waits.
unfoldable pub buffer_write : OnewayBuffer → ℕ → Bool × OnewayBuffer
buffer_write b x =
    if leb ((b.rd_index + oneway_buffer_size) % 2 ^ 64) b.tmp_wr_index
    then (false, b)
    else (true, flush_if false (stored b (x ∷ [])))

-- The same of `buffer_write_all`; the list is `data[0 .. write_count)`.
unfoldable pub buffer_write_all : OnewayBuffer → List ℕ → Bool → Run (Bool × OnewayBuffer)
buffer_write_all b ws force = do
  assert (leb (length ws) oneway_buffer_size)
  ok (
      if leb ((b.rd_index + oneway_buffer_size) % 2 ^ 64)
        ((b.tmp_wr_index + length ws + (2 ^ 64 - 1)) % 2 ^ 64)
      then (false, b)
      else (true, flush_if force (stored b ws)))

-- The `for` loop of `buffer_read_all` from round `i` on, with the rounds left.
unfoldable pub read_all : List ℕ → ℕ → ℕ → ℕ → List ℕ
read_all buf rd i zero = []
read_all buf rd i (suc n) =
    get_or buf (bit_and ((rd + i) % 2 ^ 64) 15) 0 ∷ read_all buf rd (i + 1) n

-- `int count = wr_index - rd_index`, for indices less than 2^31 apart
abbrev pub unread : OnewayBuffer → ℕ
unread b = ((b.wr_index + 2 ^ 64 - b.rd_index) % 2 ^ 64) % 2 ^ 32

-- `max_read_count` is not negative. The words go through `data`; the result is their number.
unfoldable pub buffer_read_all : OnewayBuffer → ℕ → List ℕ × OnewayBuffer
buffer_read_all b most =
    let count = unread b in
    if count == 0
    then ([], b)
    else (let n = if ltb most count then most else count in
        (read_all b.data_words b.rd_index 0 n, record b { rd_index = (b.rd_index + n) % 2 ^ 64 }))
