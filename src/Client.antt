-- ===== src/Client.antt =====
-- smphashtable.c, the client's side: the ring of pending requests, with the answers read so far.
pub mod Ports
pub mod Holds
pub mod Owed
pub mod Refine
pub mod Releases
pub mod Doall
use smphash_table.Base.{
  ℕ, zero, suc, ◌+◌, ◌-◌, ◌%◌, ◌^◌, Option, none, some, Bool, true, false, ◌&&◌, List, length,
  get_or, set, replicate, bit_and, bit_or, assert, ◌>>◌, [], ◌∷◌, ◌==◌, leb, ltb, if◌then◌else◌,
  Run, ok, fault, out_of_fuel, ◌>>=◌,
}
use smphash_table.Message.{Request, lookup, insert, encode, hashop_release, not_hashop_mask}
use smphash_table.Memory.{Heap, deref}

-- MAX_PENDING_SIZE and MAX_PENDING_PER_SERVER
abbrev pub max_pending_size : ℕ
max_pending_size = 65536

abbrev pub max_pending_per_server : ℕ
max_pending_per_server = 56

-- `struct pending_data`. A count is the bit pattern of its int.
pub record Pending : Type 0 where
  pub pending_values : List ℕ
  pub pending_servers : List ℕ
  pub rd_index : ℕ
  pub wr_index : ℕ
  pub pending_index : ℕ
  pub pending_count : List ℕ

-- The pending data that `create_hash_table_client` sets up; the two arrays hold what fresh memory holds.
abbrev pub new_pending : List ℕ → List ℕ → ℕ → Pending
new_pending values servers nservers = record {
  pending_values = values;
  pending_servers = servers;
  rd_index = 0;
  wr_index = 0;
  pending_index = 0;
  pending_count = replicate nservers 0;
}

-- The boxes between one client and the servers, with the servers' work in the background: `outb_read`
-- (`none` where it returns 0), and `inpb_flush`, `outb_blocking_read` and `inpb_write` from call to
-- return.
pub record Boxes (W : Type 0) : Type 0 where
  pub outb_read : ℕ → W → Option ℕ × W
  pub inpb_flush : ℕ → W → Run W
  pub outb_blocking_read : ℕ → W → Run (ℕ × W)
  pub inpb_write : ℕ → List ℕ → W → Run W

abbrev pub hash_get_server : ℕ → ℕ → ℕ
hash_get_server nservers key = key % nservers

abbrev pub slot : ℕ → ℕ
slot i = bit_and i 65535

-- `count >= MAX_PENDING_PER_SERVER`
abbrev pub too_many : ℕ → Bool
too_many n = ltb n (2 ^ 31) && leb max_pending_per_server n

abbrev pub is_full : Pending → Bool
is_full pd = leb max_pending_size ((pd.pending_index + 2 ^ 64 - pd.rd_index) % 2 ^ 64)

-- What `read_next_pending_value` stores.
abbrev pub received : Pending → ℕ → ℕ → Pending
received pd ps val = record pd {
  pending_values = set pd.pending_values (slot pd.wr_index) val;
  pending_count = set pd.pending_count ps ((get_or pd.pending_count ps 0 + 2 ^ 32 - 1) % 2 ^ 32);
  wr_index = (pd.wr_index + 1) % 2 ^ 64;
}

-- What `smp_hash_lookup` and `smp_hash_insert` store behind the `inpb_write`.
abbrev pub enqueued : Pending → ℕ → Pending
enqueued pd s = record pd {
  pending_count = set pd.pending_count s ((get_or pd.pending_count s 0 + 1) % 2 ^ 32);
  pending_servers = set pd.pending_servers (slot pd.pending_index) s;
  pending_index = (pd.pending_index + 1) % 2 ^ 64;
}

-- The answer that `smp_try_get_next` and `smp_get_next` hand out.
abbrev pub taken : Pending → Option ℕ × Pending
taken pd = (
  some (get_or pd.pending_values (slot pd.rd_index) 0),
  record pd { rd_index = (pd.rd_index + 1) % 2 ^ 64 },
)

-- The value goes through `value`, where the call returns 1.
unfoldable pub smp_try_get_next : Pending → Option ℕ × Pending
smp_try_get_next pd = if pd.rd_index == pd.wr_index then (none, pd) else taken pd

-- `ptr - sizeof(struct elem)`
abbrev pub elem_of : ℕ → ℕ
elem_of ptr = (ptr + 2 ^ 64 - 64) % 2 ^ 64

module _ {W : Type 0} (boxes : Boxes W) where
  -- Behind `r = outb_read(...)`: the `if`.
  abbrev pub word_or_wait : ℕ → Option ℕ × W → Run (ℕ × W)
  word_or_wait ps (some val, w) = ok (val, w)
  word_or_wait ps (none, w) = do w' ← boxes.inpb_flush ps w; boxes.outb_blocking_read ps w'

  unfoldable pub next_word : ℕ → W → Run (ℕ × W)
  next_word ps w = word_or_wait ps (boxes.outb_read ps w)

  unfoldable pub read_next_pending_value : Pending → W → Run (Pending × W)
  read_next_pending_value pd w =
      let ps = get_or pd.pending_servers (slot pd.wr_index) 0 in
      do (val, w') ← next_word ps w; ok (received pd ps val, w')

  -- The `while` loop, with the rounds left.
  unfoldable pub make_way : ℕ → ℕ → Pending → W → Run (Pending × W)
  make_way zero s pd w =
      if too_many (get_or pd.pending_count s 0) then fault out_of_fuel else ok (pd, w)
  make_way (suc rounds) s pd w = elim (too_many (get_or pd.pending_count s 0)) [
    | false ↦ ok (pd, w)
    | true ↦ do (pd', w') ← read_next_pending_value pd w; make_way rounds s pd' w'
  ]

  -- What the two requests have in common. Each round of the loop reads one pending answer.
  unfoldable pub enqueue : ℕ → Request → Pending → W → Run (Bool × Pending × W)
  enqueue s r pd w = if is_full pd then ok (false, pd, w) else (do
    (pd', w₁) ← make_way ((pd.pending_index + 2 ^ 64 - pd.wr_index) % 2 ^ 64) s pd w
    w₂ ← boxes.inpb_write s (encode r) w₁
    ok (true, enqueued pd' s, w₂))

  unfoldable pub smp_hash_lookup : ℕ → ℕ → Pending → W → Run (Bool × Pending × W)
  smp_hash_lookup nservers key pd w = enqueue (hash_get_server nservers key) (lookup key) pd w

  unfoldable pub smp_hash_insert : ℕ → ℕ → ℕ → Pending → W → Run (Bool × Pending × W)
  smp_hash_insert nservers key size pd w =
      enqueue (hash_get_server nservers key) (insert key size) pd w

  unfoldable pub smp_get_next : Pending → W → Run (Option ℕ × Pending × W)
  smp_get_next pd w =
      if pd.rd_index == pd.pending_index
      then ok (none, pd, w)
      else (if pd.rd_index == pd.wr_index
          then (do (pd', w') ← read_next_pending_value pd w; ok ((taken pd').0, (taken pd').1, w'))
          else ok ((taken pd).0, (taken pd).1, w))

  unfoldable pub mp_send_release_msg : ℕ → Heap → ℕ → Bool → W → Run W
  mp_send_release_msg nservers h ptr force_flush w = do
    let e = elem_of ptr
    let msg_data = bit_or e hashop_release
    assert (e == bit_and msg_data not_hashop_mask)
    x ← deref h e
    w' ← boxes.inpb_write (hash_get_server nservers x.key) (msg_data ∷ []) w
    if force_flush then boxes.inpb_flush (hash_get_server nservers x.key) w' else ok w'

  unfoldable pub mp_release_value : ℕ → Heap → ℕ → W → Run W
  mp_release_value nservers h ptr w = mp_send_release_msg nservers h ptr false w

  unfoldable pub mp_mark_ready : ℕ → Heap → ℕ → W → Run W
  mp_mark_ready nservers h ptr w = mp_send_release_msg nservers h ptr true w
