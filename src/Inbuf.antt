-- ===== src/Inbuf.antt =====
-- mpbuffers.c, the input buffer: a client collects words in a local cache line and publishes it to
-- one of four shared lines; the server takes a published line at a time. A line ends at its first
-- zero word, and a line whose first word is zero is free.
pub mod Lines
pub mod Refine
pub mod Writes
pub mod Reads
pub mod Traffic
use smphash_table.Base.{
  ℕ, zero, suc, ◌+◌, ◌-◌, ◌%◌, ◌^◌, Bool, true, false, List, [], ◌∷◌, length, set, get_or,
  replicate, bit_and, Run, ok, ◌>>=◌, ◌>>◌, assert, leb, ltb, ◌==◌, if◌then◌else◌,
}

-- INPB_SIZE and INPB_COUNT
abbrev pub inpb_size : ℕ
inpb_size = 8

abbrev pub inpb_count : ℕ
inpb_count = 4

pub record InputBuffer : Type 0 where
  pub lines : List (List ℕ)
  pub data_rd : ℕ
  pub local_data : List ℕ
  pub local_index : ℕ
  pub data_wr : ℕ
  pub local_waitcnt : ℕ

-- What the memset of `create_hash_table_client` leaves.
abbrev pub zeroed_inpb : InputBuffer
zeroed_inpb = record {
  lines = replicate inpb_count (replicate inpb_size 0);
  data_rd = 0;
  local_data = replicate inpb_size 0;
  local_index = 0;
  data_wr = 0;
  local_waitcnt = 0;
}

-- The `for` loop of `inpb_flush`, with the rounds left.
unfoldable pub copy_words : List ℕ → List ℕ → ℕ → ℕ → List ℕ
copy_words line local i zero = line
copy_words line local i (suc n) = copy_words (set line i (get_or local i 0)) local (i + 1) n

-- The stores of `inpb_flush` into the shared line; the first word goes last.
unfoldable pub fill_line : List ℕ → List ℕ → ℕ → List ℕ
fill_line line local n =
    let copied = copy_words line local 1 (n - 1) in
    let ended = if ltb n inpb_size then set copied n 0 else copied in set ended 0 (get_or local 0 0)

unfoldable pub write_line : InputBuffer → List ℕ
write_line b = get_or b.lines b.data_wr []

abbrev pub published : InputBuffer → InputBuffer
published b = record b {
  lines = set b.lines b.data_wr (fill_line (write_line b) b.local_data b.local_index);
  data_wr = bit_and (b.data_wr + 1) 3;
  local_index = 0;
}

abbrev pub spun : InputBuffer → InputBuffer
spun b = record b { local_waitcnt = (b.local_waitcnt + 1) % 2 ^ 64 }

-- One test of the spin of `inpb_flush`: `false` means that the call still waits for the line. The
-- loop keeps nothing but the buffer, so the next test is the same call again.
unfoldable pub inpb_flush : InputBuffer → Bool × InputBuffer
inpb_flush b =
    if b.local_index == 0
    then (true, b)
    else (if get_or (write_line b) 0 0 == 0 then (true, published b) else (false, spun b))

-- The `for` loop of `inpb_write` from local index `i` on; the list is the words left.
unfoldable pub store_local : List ℕ → ℕ → List ℕ → List ℕ
store_local local i [] = local
store_local local i (x ∷ xs) = store_local (set local i x) (i + 1) xs

abbrev pub appended : InputBuffer → List ℕ → InputBuffer
appended b ws = record b {
  local_data = store_local b.local_data b.local_index ws;
  local_index = b.local_index + length ws;
}

-- The list is `data[0 .. write_count)`. `false`: the call still waits in its flush.
unfoldable pub inpb_write : InputBuffer → List ℕ → Run (Bool × InputBuffer)
inpb_write b ws = do
  assert (leb (length ws) inpb_size)
  ok (
      if ltb inpb_size (b.local_index + length ws)
      then (let (done, c) = inpb_flush b in if done then (true, appended c ws) else (false, c))
      else (true, appended b ws))

-- The `while` loop of `inpb_read` from word `i` on, with the rounds left: the words that it copies.
unfoldable pub read_words : List ℕ → ℕ → ℕ → List ℕ
read_words line i zero = []
read_words line i (suc n) =
    let x = get_or line i 0 in if x == 0 then [] else x ∷ read_words line (i + 1) n

unfoldable pub read_line : InputBuffer → List ℕ
read_line b = get_or b.lines b.data_rd []

-- The words that go through `data`; the result of the call is their number.
unfoldable pub inpb_read : InputBuffer → List ℕ × InputBuffer
inpb_read b =
    let words = read_words (read_line b) 0 inpb_size in
    if length words == 0 then (words, b) else (
      words,
      record b {
        lines = set b.lines b.data_rd (set (read_line b) 0 0);
        data_rd = bit_and (b.data_rd + 1) 3;
      },
    )
