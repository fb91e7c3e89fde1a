-- ===== src/Partition.antt =====
-- partition.c: one server's share of the table. A TAILQ is the list of the addresses in it. What
-- the code takes from outside is a parameter: memory, and the clock that EVICT_RANDOM draws from.
pub mod Lists
pub mod Linked
pub mod Init
pub mod Lookup
pub mod Remove
pub mod Evict
pub mod Link
pub mod Insert
pub mod Unlinked
pub mod Destroy
use smphash_table.Base.{
  ℕ, zero, suc, ◌+◌, ◌-◌, ◌*◌, ◌/◌, ◌%◌, ◌^◌, Option, none, some, Bool, true, false, List, [], ◌∷◌,
  ◌++◌, length, get_or, set, replicate, concat, bit_and, ◌==◌, ltb, leb, if◌then◌else◌, Run, ok,
  fault, abort, dangling, waiting, out_of_fuel, overflow, ◌>>=◌, ◌>>◌, assert,
}
use smphash_table.Alock.{anderson_init}
use smphash_table.Memory.{Ptr, Elem, Heap, update, deref}

abbrev pub evict_lru : ℕ
evict_lru = 1

abbrev pub evict_random : ℕ
evict_random = 2

-- `struct partition`. The locks are the lock module's. A statistics counter is the bit pattern of
-- its int.
pub record Partition : Type 0 where
  pub nservers : ℕ
  pub nhash : ℕ
  pub max_size : ℕ
  pub size : ℕ
  pub evictalgo : ℕ
  pub table : List (List Ptr)
  pub lru : List Ptr
  pub nhits : ℕ
  pub nlookups : ℕ
  pub ninserts : ℕ
  pub busyclock : ℕ
  pub idleclock : ℕ

-- `max(10.0, n)` of util.h: the arguments are converted to int.
unfoldable pub max_ten : ℕ → ℕ
max_ten n = let w = n % 2 ^ 32 in if ltb w (2 ^ 31) then (if ltb w 10 then 10 else w) else 10

-- `ceil(m / nservers) * nservers - 1`. The quotient of two numbers below 2^31 is rounded in double
-- by less than its distance to the next integer, so `ceil` is exact.
unfoldable pub hash_size : ℕ → ℕ → ℕ
hash_size max_size nservers = (max_ten (max_size / 256) + nservers - 1) / nservers * nservers - 1

-- The partition that the stores of `init_hash_partition` make.
unfoldable pub fresh_partition : ℕ → ℕ → ℕ → Partition
fresh_partition max_size nservers evictalgo = record {
  nservers = nservers;
  nhash = hash_size max_size nservers;
  max_size = max_size;
  size = 0;
  evictalgo = evictalgo;
  table = replicate (hash_size max_size nservers) [];
  lru = [];
  nhits = 0;
  nlookups = 0;
  ninserts = 0;
  busyclock = 0;
  idleclock = 0;
}

-- The int `nhash` overflows where the product is too large. `anderson_init` asserts its number of
-- threads, for the lock of the partition and for those of its buckets alike.
unfoldable pub init_hash_partition : ℕ → ℕ → ℕ → Run Partition
init_hash_partition max_size nservers evictalgo =
    if ltb (hash_size max_size nservers) (2 ^ 31)
    then (do lock ← anderson_init [] nservers; ok (fresh_partition max_size nservers evictalgo))
    else fault overflow

abbrev pub hash_get_bucket : Partition → ℕ → ℕ
hash_get_bucket p key = key % p.nhash

abbrev pub chain_of : Partition → ℕ → List Ptr
chain_of p key = get_or p.table (hash_get_bucket p key) []

-- TAILQ_REMOVE
unfoldable pub remove : Ptr → List Ptr → List Ptr
remove e [] = []
remove e (x ∷ xs) = if e == x then xs else x ∷ remove e xs

-- TAILQ_LAST
unfoldable pub last : List Ptr → Option Ptr
last [] = none
last (x ∷ []) = some x
last (x ∷ y ∷ ys) = last (y ∷ ys)

-- The `while` loop of `hash_lookup` up to its `return`.
unfoldable pub walk : Heap → ℕ → List Ptr → Run (Option Ptr)
walk h key [] = ok none
walk h key (e ∷ es) = do x ← deref h e; if x.key == key then ok (some e) else walk h key es

-- The function `lru`.
unfoldable pub move_to_front : Partition → Ptr → Partition
move_to_front p e = record p { lru = e ∷ remove e p.lru }

unfoldable pub touch : Partition → Ptr → Partition
touch p e = if p.evictalgo == evict_lru then move_to_front p e else p

unfoldable pub hash_lookup : Heap → Partition → ℕ → Run (Option Ptr × Partition)
hash_lookup h p key = do
  r ← walk h key (chain_of p key)
  elim r [ none ↦ ok (none, p) | some e ↦ ok (some e, touch p e) ]

-- The assertion `p->size >= 0` holds of every size_t.
abbrev pub unlinked : Partition → Ptr → Elem → Partition
unlinked p e x = record p {
  size = (p.size + 2 ^ 64 - x.size) % 2 ^ 64;
  table = set p.table (hash_get_bucket p x.key) (remove e (chain_of p x.key));
  lru = if p.evictalgo == evict_lru then remove e p.lru else p.lru;
}

unfoldable pub hash_remove : Heap → Partition → Ptr → Run Partition
hash_remove h p e = do x ← deref h e; ok (unlinked p e x)

-- `sizeof(struct elem) + size`: the int is extended with its sign.
unfoldable pub elem_bytes : ℕ → ℕ
elem_bytes size =
    let w = size % 2 ^ 32 in (64 + (if ltb w (2 ^ 31) then w else w + (2 ^ 64 - 2 ^ 32))) % 2 ^ 64

-- elem_size: rounded up to whole cache lines
unfoldable pub rounded_size : ℕ → ℕ
rounded_size size = bit_and ((elem_bytes size + 63) % 2 ^ 64) 0xffff_ffff_ffff_ffc0

-- `memalign(boundary, size)`, `none` for NULL, and the count word that fresh memory happens to hold
pub record Allocator : Type 0 where
  pub memalign : ℕ → ℕ → Heap → Option Ptr
  pub stale : Ptr → ℕ

-- The inner loop of EVICT_RANDOM over the readings of the clock that are to come.
unfoldable pub pick_random : List ℕ → Partition → Run (Ptr × List ℕ)
pick_random [] p = fault waiting
pick_random (t ∷ ts) p = elim (get_or p.table (t % p.nhash) []) [
  | [] ↦ pick_random ts p
  | e ∷ _ ↦ ok (e, ts)
]

-- The `switch`. TAILQ_LAST of an empty list is NULL, which `hash_remove` then reads.
unfoldable pub victim : List ℕ → Partition → Run (Ptr × List ℕ)
victim ts p =
    if p.evictalgo == evict_lru
    then elim (last p.lru) [ none ↦ fault dangling | some l ↦ ok (l, ts) ]
    else (if p.evictalgo == evict_random then pick_random ts p else fault abort)

module _ (alloc : Allocator) (release : Ptr → Heap → Run Heap) where
  -- The `if` of the `while (1)` loop; the arguments of `memalign` stand as the code passes them.
  unfoldable pub try_alloc : ℕ → Heap → Partition → Option Ptr
  try_alloc size h p = if leb p.size p.max_size then alloc.memalign (elem_bytes size) 64 h else none

  -- The `while (1)` loop, with the rounds left.
  unfoldable pub make_room :
      ℕ → List ℕ → ℕ → Heap → Partition → Run (Ptr × Heap × Partition × List ℕ)
  make_room zero ts size h p = fault out_of_fuel
  make_room (suc rounds) ts size h p = elim (try_alloc size h p) [
    | some e ↦ ok (e, h, p, ts)
    | none ↦ do
      assert (ltb (rounded_size size) p.size)
      (l, ts') ← victim ts p
      p' ← hash_remove h p l
      h' ← release l h
      make_room rounds ts' size h' p'
  ]

  -- The first `if` of `hash_insert`.
  unfoldable pub drop_old : Option Ptr → Heap → Partition → Run (Heap × Partition)
  drop_old none h p = ok (h, p)
  drop_old (some e) h p = do p' ← hash_remove h p e; h' ← release e h; ok (h', p')

  -- The lines behind the loop.
  unfoldable pub link : Ptr → ℕ → ℕ → Heap → Partition → Heap × Partition
  link e key size h p = (
    update h e (some (record { key = key; ref_count = alloc.stale e; size = rounded_size size })),
    record p {
      table = set p.table (hash_get_bucket p key) (chain_of p key ++ e ∷ []);
      lru = if p.evictalgo == evict_lru then e ∷ p.lru else p.lru;
    },
  )

  -- Each round but the last unlinks an element, so the rounds given are enough.
  unfoldable pub hash_insert :
      List ℕ → ℕ → ℕ → Heap → Partition → Run (Ptr × Heap × Partition × List ℕ)
  hash_insert ts key size h p = do
    (old, p₁) ← hash_lookup h p key
    (h₂, p₂) ← drop_old old h p₁
    let p₃ = record p₂ { size = (p₂.size + rounded_size size) % 2 ^ 64 }
    (e, h₄, p₄, ts') ← make_room (length p₃.lru + length (concat p₃.table) + 1) ts size h₂ p₃
    let (h₅, p₅) = link e key size h₄ p₄
    ok (e, h₅, p₅, ts')

-- destroy_hash_partition: the chains in order; `dbg_p_size` is checked against the size at the end.
module _ (release : Ptr → Heap → Run Heap) where
  unfoldable pub destroy_chain : ℕ → Heap → List Ptr → Run (ℕ × Heap)
  destroy_chain n h [] = ok (n, h)
  destroy_chain n h (e ∷ es) = do
    x ← deref h e
    h' ← release e h
    destroy_chain ((n + x.size) % 2 ^ 64) h' es

  unfoldable pub destroy_chains : ℕ → Heap → List (List Ptr) → Run (ℕ × Heap)
  destroy_chains n h [] = ok (n, h)
  destroy_chains n h (c ∷ cs) = do (n', h') ← destroy_chain n h c; destroy_chains n' h' cs

  unfoldable pub destroy_hash_partition : Heap → Partition → Run Heap
  destroy_hash_partition h p = do (n, h') ← destroy_chains 0 h p.table; assert (p.size == n); ok h'
